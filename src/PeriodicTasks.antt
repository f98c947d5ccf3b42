-- ===== src/PeriodicTasks.antt =====
-- The tasks and the interrupt handlers of examples/periodic_tasks/src/main.rs. `rtl_tb` is the
-- feature rtl-tb, and `debug` says whether the build has overflow checks.
pub mod Main
pub mod Setup
pub mod Counts
pub mod Totals
pub mod Run
pub mod Inline
mod Examples
use atalanta.Prelude.{ℕ, ◌+◌, ◌*◌, ◌/◌, ◌^◌, Bool, true, false, not, ◌||◌, ltb, u32, u64_max}
use atalanta.Machine.{Bus, M, pure, assert, ◌>>=◌, ◌>>◌}
use atalanta.Machine.Statics.{lift, statics, set_statics}
use atalanta.Machine.Reg.{RegApi}
use atalanta.Mmap.{timer0_addr, timer1_addr, timer2_addr, timer3_addr}
use atalanta.Delay.{cpu_freq, asm_delay}
use atalanta.Clic.{ip, ie, attr, ctl}
use atalanta.Clic.Intattr
use atalanta.Clic.Intattr.{Trig, Polarity}
use atalanta.Clic.Intctl
use atalanta.Clic.Intie
use atalanta.Clic.Intip
use atalanta.Interrupt.{
  Interrupt, number, machine_timer, timer0_cmp, timer1_cmp, timer2_cmp, timer3_cmp,
}
use atalanta.Mtimer
use atalanta.TimerGroup

pub record Task : Type 0 where
  pub level : ℕ
  pub period_ns : ℕ
  pub duration_ns : ℕ

abbrev pub new : ℕ → ℕ → ℕ → Task
new level period_ns duration_ns = record {
  level = level;
  period_ns = period_ns;
  duration_ns = duration_ns;
}

abbrev pub test_base_period_ns : ℕ
test_base_period_ns = 100_000

abbrev pub task0 : Task
task0 = new 1 (test_base_period_ns / 4) (test_base_period_ns / 40)

abbrev pub task1 : Task
task1 = new 2 (test_base_period_ns / 8) (test_base_period_ns / 80)

abbrev pub task2 : Task
task2 = new 3 (test_base_period_ns / 16) (test_base_period_ns / 200)

abbrev pub task3 : Task
task3 = new 4 (test_base_period_ns / 32) (test_base_period_ns / 400)

abbrev pub periph_clk_div : ℕ
periph_clk_div = 1

abbrev pub cycles_per_us : Bool → ℕ
cycles_per_us rtl_tb = u32 (cpu_freq rtl_tb / periph_clk_div / 1_000) / 1_000

-- The number of the `nop`s of a task.
abbrev pub nop_cnt : Bool → Task → ℕ
nop_cnt rtl_tb task = task.duration_ns * cycles_per_us rtl_tb / 1_000

-- The `static mut`s.
pub record Statics : Type 0 where
  pub task0_count : ℕ
  pub task1_count : ℕ
  pub task2_count : ℕ
  pub task3_count : ℕ
  pub timeout : Bool

-- `x`, with the overflow check of a debug build.
abbrev pub checked : {S : Type 0} → Bool → ℕ → M S ℕ
checked debug x = do assert (not debug || ltb x (2 ^ 32)); pure (u32 x)

module _ {S : Type 0} (wait : S → S) (rtl_tb debug : Bool) where
  abbrev workload : Task → M (S × Statics) Unit
  workload task = lift (asm_delay wait (nop_cnt rtl_tb task))

  unfoldable pub timer0_cmp_handler : M (S × Statics) Unit
  timer0_cmp_handler = do
    v ← statics
    n ← checked debug (v.task0_count + 1)
    set_statics (record v { task0_count = n })
    workload task0

  unfoldable pub timer1_cmp_handler : M (S × Statics) Unit
  timer1_cmp_handler = do
    v ← statics
    n ← checked debug (v.task1_count + 1)
    set_statics (record v { task1_count = n })
    workload task1

  unfoldable pub timer2_cmp_handler : M (S × Statics) Unit
  timer2_cmp_handler = do
    v ← statics
    n ← checked debug (v.task2_count + 1)
    set_statics (record v { task2_count = n })
    workload task2

  unfoldable pub timer3_cmp_handler : M (S × Statics) Unit
  timer3_cmp_handler = do
    v ← statics
    n ← checked debug (v.task3_count + 1)
    set_statics (record v { task3_count = n })
    workload task3

module _ {b : Bus} (reg : RegApi b) where
  -- The timers' part of the handler of the timeout, and the interrupts' part.
  unfoldable pub stop_timers : M b.State Unit
  stop_timers = do
    Mtimer.disable b
    Mtimer.set_counter b u64_max
    TimerGroup.disable b timer0_addr
    TimerGroup.disable b timer1_addr
    TimerGroup.disable b timer2_addr
    TimerGroup.disable b timer3_addr

  unfoldable pub unpend_all : M b.State Unit
  unpend_all = do
    Intip.unpend reg (ip (number machine_timer))
    Intip.unpend reg (ip (number timer0_cmp))
    Intip.unpend reg (ip (number timer1_cmp))
    Intip.unpend reg (ip (number timer2_cmp))
    Intip.unpend reg (ip (number timer3_cmp))

  unfoldable pub machine_timer_handler : M (b.State × Statics) Unit
  unfolding stop_timers unpend_all
  machine_timer_handler = do
    v ← statics
    set_statics (record v { timeout = true })
    lift stop_timers
    lift unpend_all

  unfoldable pub setup_irq : Interrupt → ℕ → M b.State Unit
  setup_irq irq level = do
    Intattr.set_trig reg (attr (number irq)) Trig.edge
    Intattr.set_polarity reg (attr (number irq)) Polarity.pos
    Intattr.set_shv reg (attr (number irq)) true
    Intctl.set_level reg (ctl (number irq)) level
    Intie.enable reg (ie (number irq))

  unfoldable pub tear_irq : Interrupt → M b.State Unit
  tear_irq irq = do
    Intie.disable reg (ie (number irq))
    Intctl.set_level reg (ctl (number irq)) 0x0
    Intattr.set_shv reg (attr (number irq)) false
    Intattr.set_trig reg (attr (number irq)) Trig.level
    Intattr.set_polarity reg (attr (number irq)) Polarity.pos
