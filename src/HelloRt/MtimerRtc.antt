-- ===== src/HelloRt/MtimerRtc.antt =====
-- The program examples/hello_rt/examples/mtimer_as_rtc.rs, which counts seconds with two timers.
-- `secs` is the duration of one second in ticks, of the library fugit.
use atalanta.Prelude.{
  ℕ, zero, suc, ◌+◌, ◌/◌, ◌^◌, Bool, true, false, not, ◌||◌, Option, List, u32, ltb, ◌==◌,
}
use atalanta.Machine.{Bus, M, pure, spins, assert, ◌>>=◌, ◌>>◌}
use atalanta.Machine.Reg.{RegApi}
use atalanta.Machine.Statics.{lift, statics, set_statics}
use atalanta.Mmap.{uart_base, timer0_addr}
use atalanta.Clic.{smclicconfig}
use atalanta.Clic.Smclicconfig
use atalanta.Console.{sprintln}
use atalanta.Delay.{cpu_freq}
use atalanta.Interrupt.{Interrupt, machine_timer, timer0_cmp}
use atalanta.Mtimer
use atalanta.TestBench.{forever, signal_pass}
use atalanta.TimerGroup
use atalanta.Uart
use atalanta.HelloRt.Irq.{uart_baud, setup_irq, tear_irq}

-- The `static mut`s.
pub record Statics : Type 0 where
  pub irq_counter : ℕ
  pub t0_counter : ℕ

abbrev periph_clk_div : ℕ
periph_clk_div = 2

abbrev checked : {S : Type 0} → Bool → ℕ → M S ℕ
checked debug x = do assert (not debug || ltb x (2 ^ 32)); pure (u32 x)

module _ (b : Bus) (debug : Bool) (fuel secs : ℕ) (text : ℕ → ℕ → List ℕ) where
  unfoldable pub machine_timer_handler : M (b.State × Statics) Unit
  machine_timer_handler = do
    v ← statics
    n ← checked debug (v.irq_counter + 1)
    set_statics (record v { irq_counter = n })
    sample ← lift (Mtimer.counter b)
    lift (Mtimer.start b debug secs)
    lift (sprintln b fuel (text n sample))

  unfoldable pub timer0_cmp_handler : M (b.State × Statics) Unit
  timer0_cmp_handler = do
    v ← statics
    n ← checked debug (v.t0_counter + 1)
    set_statics (record v { t0_counter = n })
    sample ← lift (TimerGroup.counter b timer0_addr)
    lift (sprintln b fuel (text n sample))

module _ {b : Bus} (reg : RegApi b) (rtl_tb debug : Bool) (fuel secs : ℕ) (name : List ℕ)
    (setup_text tear_text : Interrupt → List ℕ) (wait : b.State → b.State)
    (wfi enable_interrupts disable_interrupts : M (b.State × Statics) Unit)
    (uart_is_init : Option ℕ) where
  -- `while IRQ_COUNTER != 10 { wfi() }`
  unfoldable pub wait_ten : ℕ → M (b.State × Statics) Unit
  wait_ten zero = spins
  wait_ten (suc n) = do
    v ← statics
    elim (v.irq_counter == 10) [ true ↦ pure tt | false ↦ (do wfi; wait_ten n) ]

  unfoldable pub main : M (b.State × Statics) ⊥
  unfolding wait_ten
  main = do
    lift (Uart.init b uart_base uart_is_init (cpu_freq rtl_tb) (uart_baud rtl_tb))
    lift (sprintln b fuel name)
    lift (Smclicconfig.set_mnlbits reg smclicconfig 8)
    lift (setup_irq reg fuel (setup_text machine_timer) machine_timer)
    lift (TimerGroup.init b timer0_addr)
    lift (setup_irq reg fuel (setup_text timer0_cmp) timer0_cmp)
    lift (Mtimer.start b debug secs)
    lift (TimerGroup.set_cmp b timer0_addr (cpu_freq rtl_tb / periph_clk_div))
    lift (TimerGroup.enable b timer0_addr)
    enable_interrupts
    wait_ten fuel
    disable_interrupts
    lift (tear_irq reg fuel (tear_text machine_timer) machine_timer)
    lift (tear_irq reg fuel (tear_text timer0_cmp) timer0_cmp)
    lift (signal_pass b wait rtl_tb debug fuel fuel true)
    forever fuel (pure tt)
