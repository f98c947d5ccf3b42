-- ===== src/PeriodicTasks/Main.antt =====
-- The program of examples/periodic_tasks/src/main.rs. Durations in ticks, and printed texts, are of
-- libraries: parameters. So is `wfi`, in which the interrupts run.
use atalanta.Prelude.{
  ℕ, ◌+◌, ◌-◌, ◌*◌, ◌/◌, ◌^◌, Bool, true, false, not, ◌||◌, List, [], ◌∷◌, leb, u32, if◌then◌else◌,
  Option,
}
use atalanta.Machine.{Bus, M, pure, spins, assert, ◌>>=◌, ◌>>◌}
use atalanta.Machine.Reg.{RegApi}
use atalanta.Machine.Statics.{lift, statics, set_statics}
use atalanta.Access.{read_u32, write_u32}
use atalanta.Mmap.{
  cfg_base, periph_clk_div_ofs, uart_base, timer0_addr, timer1_addr, timer2_addr, timer3_addr,
}
use atalanta.Clic.{smclicconfig, ie}
use atalanta.Clic.Intie
use atalanta.Clic.Smclicconfig
use atalanta.Console.{sprintln}
use atalanta.Delay.{cpu_freq}
use atalanta.Interrupt.{number, machine_timer, timer0_cmp, timer1_cmp, timer2_cmp, timer3_cmp}
use atalanta.Mtimer
use atalanta.TimerGroup
use atalanta.TestBench.{signal_pass, forever}
use atalanta.Uart
use atalanta.PeriodicTasks.{
  Task, task0, task1, task2, task3, periph_clk_div, Statics, checked, setup_irq, tear_irq,
}

-- The assertions on one task's count; the difference panics below zero in a debug build.
unfoldable pub check_count : {S : Type 0} → Bool → ℕ → ℕ → Task → M S Unit
check_count debug test_ns count task = do
  let expected : ℕ = test_ns / task.period_ns
  assert (not debug || leb 1 expected)
  assert (leb (u32 (expected + 2 ^ 32 - 1)) count)
  assert (leb count expected)

unfoldable pub check_counts : {S : Type 0} → Bool → ℕ → Statics → M S Unit
unfolding check_count
check_counts debug test_ns v = do
  check_count debug test_ns v.task0_count task0
  check_count debug test_ns v.task1_count task1
  check_count debug test_ns v.task2_count task2
  check_count debug test_ns v.task3_count task3

-- `while !TIMEOUT { wfi() }`: the list has what the interrupts do in each `wfi`.
unfoldable pub wait_timeout : {S : Type 0} → List (M (S × Statics) Unit) → M (S × Statics) Unit
wait_timeout [] = do v ← statics; elim v.timeout [ true ↦ pure tt | false ↦ spins ]
wait_timeout (wfi ∷ later) = do
  v ← statics
  elim v.timeout [ true ↦ pure tt | false ↦ (do wfi; wait_timeout later) ]

-- The numbers that are printed: each product and the sum are of `u32`.
unfoldable pub totals : {S : Type 0} → Bool → Statics → M S ℕ
totals debug v = do
  t0 ← checked debug (task0.duration_ns * v.task0_count)
  t1 ← checked debug (task1.duration_ns * v.task1_count)
  t2 ← checked debug (task2.duration_ns * v.task2_count)
  t3 ← checked debug (task3.duration_ns * v.task3_count)
  t01 ← checked debug (t0 + t1)
  t012 ← checked debug (t01 + t2)
  checked debug (t012 + t3)

module _ {b : Bus} (reg : RegApi b) where
  unfoldable pub setup_irqs : M b.State Unit
  unfolding setup_irq
  setup_irqs = do
    setup_irq reg timer0_cmp task0.level
    setup_irq reg timer1_cmp task1.level
    setup_irq reg timer2_cmp task2.level
    setup_irq reg timer3_cmp task3.level
    setup_irq reg machine_timer 255

  unfoldable pub tear_irqs : M b.State Unit
  unfolding tear_irq
  tear_irqs = do
    tear_irq reg timer0_cmp
    tear_irq reg timer1_cmp
    tear_irq reg timer2_cmp
    tear_irq reg timer3_cmp
    tear_irq reg machine_timer

  -- The blocks under the feature pcs.
  unfoldable pub set_all_pcs : Bool → M b.State Unit
  set_all_pcs on = do
    Intie.set_pcs reg (ie (number timer0_cmp)) on
    Intie.set_pcs reg (ie (number timer1_cmp)) on
    Intie.set_pcs reg (ie (number timer2_cmp)) on
    Intie.set_pcs reg (ie (number timer3_cmp)) on

  unfoldable pub init_timers : M b.State Unit
  init_timers = do
    TimerGroup.init b timer0_addr
    TimerGroup.init b timer1_addr
    TimerGroup.init b timer2_addr
    TimerGroup.init b timer3_addr
    pure tt

  -- `ticks` is `nanos` of the library fugit.
  unfoldable pub set_periods : (ℕ → ℕ) → M b.State Unit
  set_periods ticks = do
    TimerGroup.set_period b timer0_addr (ticks task0.period_ns)
    TimerGroup.set_period b timer1_addr (ticks task1.period_ns)
    TimerGroup.set_period b timer2_addr (ticks task2.period_ns)
    TimerGroup.set_period b timer3_addr (ticks task3.period_ns)

  unfoldable pub start_timers : M b.State Unit
  start_timers = do
    TimerGroup.start b timer0_addr
    TimerGroup.start b timer1_addr
    TimerGroup.start b timer2_addr
    TimerGroup.start b timer3_addr

  module _ (wait : b.State → b.State)
      (wfi enable_interrupts disable_interrupts reset_cycles : M (b.State × Statics) Unit)
      (rounds : List (M (b.State × Statics) Unit)) (rtl_tb debug pcs : Bool)
      (uart_is_init : Option ℕ) (fuel : ℕ) (texts : ℕ → List (List ℕ)) where
    abbrev print_all : List (List ℕ) → M b.State Unit
    print_all [] = pure tt
    print_all (text ∷ rest) = do sprintln b fuel text; print_all rest

    -- The body of the loop of runs, which is run once. `texts` are the messages printed at each place;
    -- `test_ticks` is the test's duration in ticks, `test_ns` in
    -- nanoseconds.
    unfoldable pub run_once : (ℕ → ℕ) → ℕ → ℕ → M (b.State × Statics) Unit
    unfolding wait_timeout
    run_once ticks test_ticks test_ns = do
      lift (print_all (texts 0))
      set_statics (record {
        task0_count = 0;
        task1_count = 0;
        task2_count = 0;
        task3_count = 0;
        timeout = false;
      })
      lift (Uart.flush b uart_base fuel)
      lift init_timers
      lift (set_periods ticks)
      reset_cycles
      lift (Mtimer.start b debug test_ticks)
      lift start_timers
      enable_interrupts
      wait_timeout rounds
      disable_interrupts
      lift (print_all (texts 1))
      v ← statics
      totals debug v
      lift (print_all (texts 2))
      check_counts debug test_ns v
      lift (Uart.flush b uart_base fuel)

    unfoldable pub main : (ℕ → ℕ) → ℕ → ℕ → M (b.State × Statics) ⊥
    unfolding run_once
    main ticks test_ticks test_ns = do
      lift (write_u32 b (cfg_base + periph_clk_div_ofs) periph_clk_div)
      lift (Uart.init b uart_base uart_is_init (cpu_freq rtl_tb) 115_200)
      lift (read_u32 b (cfg_base + periph_clk_div_ofs))
      lift (print_all (texts 3))
      lift (Smclicconfig.set_mnlbits reg smclicconfig 8)
      lift setup_irqs
      lift (if pcs then set_all_pcs true else pure tt)
      run_once ticks test_ticks test_ns
      lift tear_irqs
      lift (if pcs then set_all_pcs false else pure tt)
      lift (signal_pass b wait rtl_tb debug fuel fuel true)
      forever fuel wfi
