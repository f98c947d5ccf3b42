-- ===== src/HelloRt/ClicMtimer.antt =====
-- The program examples/hello_rt/examples/clic_mtimer.rs, which blinks until the machine timer's
-- interrupt unlocks it. The static LOCK is a Boolean.
use atalanta.Prelude.{
  ℕ, ◌+◌, ◌*◌, ◌/◌, Bool, true, false, Option, List, [], ◌∷◌, length, bit_or, shl32,
}
use atalanta.Machine.{Bus, M, pure, spins, ◌>>=◌, ◌>>◌}
use atalanta.Machine.Reg.{RegApi}
use atalanta.Machine.Statics.{lift, statics, set_statics}
use atalanta.Access.{write_u32}
use atalanta.Mmap.{uart_base, mtimer_base, mtimecmp_low_addr_ofs, mtime_ctrl_addr_ofs}
use atalanta.Clic.{smclicconfig, ip}
use atalanta.Clic.Intip
use atalanta.Clic.Smclicconfig
use atalanta.Console.{sprintln}
use atalanta.Delay.{cpu_freq, nops_per_sec, asm_delay}
use atalanta.Interrupt.{Interrupt, number}
use atalanta.Led.{Led, ld0, ld2, ld3, led_on, led_off, led_toggle}
use atalanta.TestBench.{windows, cycle, forever, signal_pass}
use atalanta.Uart
use atalanta.HelloRt.Irq.{uart_baud, setup_irq, tear_irq}

abbrev mtimer_irq : Interrupt
mtimer_irq = Interrupt.machine_timer

unfoldable pub custom_interrupt_handler : {b : Bus} → RegApi b → M (b.State × Bool) Unit
custom_interrupt_handler {b} reg = do
  lift (Intip.unpend reg (ip (number mtimer_irq)))
  lift (led_toggle b ld0)
  set_statics false

module _ (b : Bus) (nop_preempted : b.State × Bool → b.State × Bool) (rtl_tb debug : Bool) where
  -- The loop of `wait_on_lock` over the pairs of leds that it still goes through; the end of the list
  -- stands for the rounds that are run. Interrupts run in the delay.
  unfoldable pub blink_locked : ℕ → List (Led × Led) → M (b.State × Bool) Unit
  blink_locked delay [] = spins
  blink_locked delay ((off, on) ∷ rest) = do
    lock ← statics
    elim lock [
      | false ↦ pure tt
      | true ↦ (do
        lift (led_off b off)
        lift (led_on b on)
        asm_delay nop_preempted delay
        blink_locked delay rest)
    ]

  unfoldable pub wait_on_lock : ℕ → M (b.State × Bool) Unit
  unfolding blink_locked
  wait_on_lock rounds =
      let ord = windows (ld3 ∷ ld2 ∷ ld3 ∷ []) in
      blink_locked (nops_per_sec rtl_tb debug / length ord) (cycle ord rounds ord)

abbrev prescaler : ℕ
prescaler = 0xf

module _ {b : Bus} (reg : RegApi b) (fuel : ℕ) (name setup_text tear_text : List ℕ)
    (wait : b.State → b.State) (nop_preempted : b.State × Bool → b.State × Bool)
    (enable_interrupts disable_interrupts : M (b.State × Bool) Unit) (rtl_tb debug : Bool)
    (uart_is_init : Option ℕ) where
  unfoldable pub main : M (b.State × Bool) ⊥
  main = do
    lift (Uart.init b uart_base uart_is_init (cpu_freq rtl_tb) (uart_baud rtl_tb))
    lift (sprintln b fuel name)
    lift (Smclicconfig.set_mnlbits reg smclicconfig 8)
    enable_interrupts
    lift (setup_irq reg fuel setup_text mtimer_irq)
    lift (write_u32 b (mtimer_base + mtimecmp_low_addr_ofs) (2 * (cpu_freq rtl_tb / prescaler)))
    lift (write_u32 b (mtimer_base + mtime_ctrl_addr_ofs) (bit_or (shl32 prescaler 8) 0b1))
    wait_on_lock b nop_preempted rtl_tb debug fuel
    lift (write_u32 b (mtimer_base + mtime_ctrl_addr_ofs) 0xf00)
    lift (write_u32 b (mtimer_base + mtimecmp_low_addr_ofs) 0)
    lift (tear_irq reg fuel tear_text mtimer_irq)
    disable_interrupts
    lift (signal_pass b wait rtl_tb debug fuel fuel true)
    forever fuel (pure tt)
