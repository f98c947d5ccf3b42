-- ===== src/HelloRt/TimerGroupIrq.antt =====
-- The program examples/hello_rt/examples/timer_group_irq.rs: four timers fire one after the other,
-- and the machine timer ends the test.
use atalanta.Prelude.{
  ℕ, zero, suc, ◌*◌, ◌/◌, Bool, true, false, Option, List, [], ◌∷◌, codes, bit_and, bit_or, shl64,
  ◌==◌, if◌then◌else◌,
}
use atalanta.Machine.{Bus, M, pure, spins, assert, ◌>>=◌, ◌>>◌}
use atalanta.Machine.Reg.{RegApi}
use atalanta.Machine.Statics.{lift, statics, set_statics, checked_shl64}
use atalanta.Mmap.{uart_base, timer0_addr, timer1_addr, timer2_addr, timer3_addr}
use atalanta.Clic.{smclicconfig}
use atalanta.Clic.Smclicconfig
use atalanta.Console.{sprint, sprintln}
use atalanta.Delay.{cpu_freq, nops_per_sec}
use atalanta.Interrupt.{
  Interrupt, number, machine_timer, timer0_cmp, timer1_cmp, timer2_cmp, timer3_cmp,
}
use atalanta.Mtimer
use atalanta.TestBench.{forever, for_each, signal_pass}
use atalanta.TimerGroup
use atalanta.Uart
use atalanta.HelloRt.Irq.{uart_baud, setup_irq, tear_irq}

abbrev pub interval : Bool → Bool → ℕ
interval rtl_tb debug = if rtl_tb then 0x100 else nops_per_sec rtl_tb debug / 2

-- The `static mut`s.
pub record Statics : Type 0 where
  pub irq_recvd : ℕ
  pub timeout : Bool

abbrev pub all_flags : ℕ
unfolding number
all_flags =
    bit_or
      (bit_or (bit_or (shl64 0b1 (number timer0_cmp)) (shl64 0b1 (number timer1_cmp)))
        (shl64 0b1 (number timer2_cmp)))
      (shl64 0b1 (number timer3_cmp))

module _ (b : Bus) (debug : Bool) (fuel : ℕ) (enter code : ℕ → List ℕ) where
  -- The handlers of the four timers, whose bodies differ in the timer; `mcause` is what the register
  -- reads as, and the messages are parameters.
  unfoldable pub timer_cmp_handler : ℕ → ℕ → M (b.State × Statics) Unit
  timer_cmp_handler addr mcause = do
    lift (TimerGroup.disable b addr)
    lift (sprint b fuel (enter addr))
    let irq_code : ℕ = bit_and mcause 0xfff
    lift (sprintln b fuel (code irq_code))
    v ← statics
    flag ← checked_shl64 debug 0b1 irq_code
    set_statics (record v { irq_recvd = bit_or v.irq_recvd flag })

  unfoldable pub machine_timer_handler : M (b.State × Statics) Unit
  machine_timer_handler = do
    v ← statics
    set_statics (record v { timeout = true })
    lift (Mtimer.reset b)

abbrev pub used_irqs : List Interrupt
used_irqs = timer0_cmp ∷ timer1_cmp ∷ timer2_cmp ∷ timer3_cmp ∷ machine_timer ∷ []

abbrev pub timers : List ℕ
timers = timer0_addr ∷ timer1_addr ∷ timer2_addr ∷ timer3_addr ∷ []

module _ {b : Bus} (reg : RegApi b) (debug : Bool) (fuel : ℕ)
    (setup_text tear_text : Interrupt → List ℕ) (name : List ℕ) (wait : b.State → b.State)
    (wfi enable_interrupts disable_interrupts : M (b.State × Statics) Unit) (rtl_tb : Bool)
    (uart_is_init : Option ℕ) where
  -- `while !TIMEOUT { wfi() }`
  unfoldable pub wait_timeout : ℕ → M (b.State × Statics) Unit
  wait_timeout zero = spins
  wait_timeout (suc n) = do
    v ← statics
    elim v.timeout [ true ↦ pure tt | false ↦ (do wfi; wait_timeout n) ]

  unfoldable pub main : M (b.State × Statics) ⊥
  unfolding wait_timeout
  main = do
    lift (Uart.init b uart_base uart_is_init (cpu_freq rtl_tb) (uart_baud rtl_tb))
    lift (sprintln b fuel name)
    lift (Smclicconfig.set_mnlbits reg smclicconfig 8)
    for_each used_irqs (λ irq. lift (setup_irq reg fuel (setup_text irq) irq))
    lift (Mtimer.set_cmp b (5 * interval rtl_tb debug))
    for_each timers (λ addr. (do lift (TimerGroup.init b addr); pure tt))
    lift (TimerGroup.set_cmp b timer0_addr (interval rtl_tb debug))
    lift (TimerGroup.set_cmp b timer1_addr (2 * interval rtl_tb debug))
    lift (TimerGroup.set_cmp b timer2_addr (3 * interval rtl_tb debug))
    lift (TimerGroup.set_cmp b timer3_addr (4 * interval rtl_tb debug))
    lift (sprintln b fuel (codes "dispatching 4 timers..."))
    for_each timers (λ addr. lift (TimerGroup.enable b addr))
    lift (Mtimer.enable b)
    enable_interrupts
    wait_timeout fuel
    disable_interrupts
    for_each used_irqs (λ irq. lift (tear_irq reg fuel (tear_text irq) irq))
    v ← statics
    assert (all_flags == v.irq_recvd)
    lift (signal_pass b wait rtl_tb debug fuel fuel true)
    forever fuel wfi
