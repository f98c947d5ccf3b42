-- ===== src/HelloRt/AllIrqs.antt =====
-- The program examples/hello_rt/examples/clic_all_irqs.rs: it raises interrupts and then checks
-- which of them its handler has seen. The static IRQ_RECVD is a number of 64 bits.
pub mod Verdict
mod Examples
use atalanta.Prelude.{
  ℕ, ◌+◌, Bool, true, List, [], ◌∷◌, bit_and, bit_or, ◌==◌, if◌then◌else◌, Option,
}
use atalanta.Machine.{Bus, M, pure, ◌>>=◌, ◌>>◌}
use atalanta.Machine.Reg.{RegApi}
use atalanta.Machine.Statics.{lift, statics, set_statics, checked_shl64}
use atalanta.Mmap.{uart_base}
use atalanta.Clic.{smclicconfig, ip}
use atalanta.Clic.Intip
use atalanta.Clic.Smclicconfig
use atalanta.Console.{sprintln}
use atalanta.Delay.{cpu_freq, asm_delay}
use atalanta.Interrupt.{
  Interrupt, number, machine_soft, machine_timer, machine_external, uart, dma0, dma1, dma2, dma3,
  dma4, dma5, dma6, dma7, dma8, dma9, dma10, dma11, dma12, dma13, dma14, dma15,
}
use atalanta.TestBench.{
  for_each, forever, signal_partial_ok, signal_partial_fail, signal_pass, signal_fail,
}
use atalanta.Uart
use atalanta.HelloRt.Irq.{uart_baud, setup_irq, tear_irq}

abbrev pub test_irqs : List Interrupt
test_irqs =
    machine_soft ∷ machine_timer ∷ machine_external ∷ uart ∷ dma0 ∷ dma1 ∷ dma2 ∷ dma3 ∷ dma4 ∷ dma5
    ∷ dma6 ∷ dma7 ∷ dma8 ∷ dma9 ∷ dma10 ∷ dma11 ∷ dma12 ∷ dma13 ∷ dma14 ∷ dma15 ∷ []

-- `mcause` is what the register reads as; `debug` says whether the build has overflow checks.
unfoldable pub interrupt_handler : {S : Type 0} → Bool → ℕ → M (S × ℕ) Unit
interrupt_handler debug mcause = do
  let irq_code : ℕ = bit_and mcause 0xfff
  val ← statics
  flag ← checked_shl64 debug 0b1 irq_code
  set_statics (bit_or val flag)

module _ (b : Bus) (debug : Bool) (fuel : ℕ) (text : Interrupt → List ℕ) where
  -- The loop that counts the failures; `text` is the message on an interrupt.
  unfoldable pub check_irqs : List Interrupt → ℕ → M (b.State × ℕ) ℕ
  unfolding signal_partial_ok signal_partial_fail
  check_irqs [] failures = pure failures
  check_irqs (irq ∷ rest) failures = do
    flag ← checked_shl64 debug 0b1 (number irq)
    recvd ← statics
    let seen : Bool = bit_and recvd flag == flag
    lift (
        if seen then signal_partial_ok b fuel (text irq) else signal_partial_fail b fuel (text irq))
    check_irqs rest (if seen then failures else failures + 1)

-- Interrupts run in the instructions behind `enable_interrupts`: `preempt` is what they do right
-- after one is raised, `wait` what they do in the time of a `nop`.
module _ {b : Bus} (reg : RegApi b) (debug : Bool) (fuel : ℕ)
    (text setup_text tear_text : Interrupt → List ℕ) (wait : b.State → b.State)
    (nop_preempted : b.State × ℕ → b.State × ℕ) (enable_interrupts preempt : M (b.State × ℕ) Unit)
    (rtl_tb : Bool) (uart_is_init : Option ℕ) (name : List ℕ) where
  unfoldable pub main : M (b.State × ℕ) ⊥
  unfolding check_irqs
  main = do
    lift (Uart.init b uart_base uart_is_init (cpu_freq rtl_tb) (uart_baud rtl_tb))
    lift (sprintln b fuel name)
    lift (Smclicconfig.set_mnlbits reg smclicconfig 8)
    for_each test_irqs (λ irq. lift (setup_irq reg fuel (setup_text irq) irq))
    enable_interrupts
    for_each test_irqs (λ irq. (do lift (Intip.pend reg (ip (number irq))); preempt))
    asm_delay nop_preempted 10_000
    failures ← check_irqs b debug fuel text test_irqs 0
    for_each test_irqs (λ irq. lift (tear_irq reg fuel (tear_text irq) irq))
    lift (
        if failures == 0
        then signal_pass b wait rtl_tb debug fuel fuel true
        else signal_fail b wait rtl_tb debug fuel fuel true)
    forever fuel (pure tt)
