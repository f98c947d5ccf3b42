-- ===== src/HelloRt/ClicPend.antt =====
-- The programs clic_pend.rs and mcause_should_be_interrupt.rs of examples/hello_rt/examples/, which
-- raise one interrupt and check that it was handled. The static LAST_IRQ is an option. Interrupts
-- run in `preempt`, right after one is raised.
use atalanta.Prelude.{ℕ, Bool, true, Option, some, none, List, bit_and, ◌==◌}
use atalanta.Machine.{Bus, M, pure, assert, ◌>>=◌, ◌>>◌}
use atalanta.Machine.Reg.{RegApi}
use atalanta.Machine.Statics.{lift, statics, set_statics}
use atalanta.Mmap.{uart_base}
use atalanta.Clic.{smclicconfig, ip}
use atalanta.Clic.Intip
use atalanta.Clic.Smclicconfig
use atalanta.Console.{sprintln}
use atalanta.Delay.{cpu_freq}
use atalanta.Interrupt.{Interrupt, number}
use atalanta.TestBench.{forever, signal_pass, signal_fail}
use atalanta.Uart
use atalanta.HelloRt.Irq.{uart_baud, setup_irq, tear_irq}
use atalanta.HelloRt.Clic.{
  ClicTrig, set_mnlbits, set_trig, enable_vectoring, disable_vectoring, set_level, enable_int,
  disable_int, pend_int, ack_int,
}

abbrev irq : Interrupt
irq = Interrupt.machine_soft

-- `mcause` is what the register reads as.
unfoldable pub pend_handler : {S : Type 0} → ℕ → M (S × Option ℕ) Unit
pend_handler mcause = do
  let irq_code : ℕ = bit_and mcause 0xfff
  assert (irq_code == number irq)
  set_statics (some irq_code)

abbrev irq_id : ℕ
irq_id = 3

unfoldable pub setup_id : (b : Bus) → ℕ → M b.State Unit
setup_id b id = do
  set_trig b id ClicTrig.edge
  enable_vectoring b id
  set_level b id 0x88
  enable_int b id

unfoldable pub tear_id : (b : Bus) → ℕ → M b.State Unit
tear_id b id = do disable_int b id; disable_vectoring b id; set_trig b id ClicTrig.level

unfoldable pub cause_handler : (b : Bus) → ℕ → M (b.State × Option ℕ) Unit
cause_handler b mcause = do
  lift (ack_int b irq_id)
  let irq_code : ℕ = bit_and mcause 0xfff
  assert (irq_code == irq_id)
  set_statics (some irq_id)

module _ {b : Bus} (reg : RegApi b) (fuel : ℕ) (name setup_text handled tear_text : List ℕ)
    (wait : b.State → b.State) (enable_interrupts preempt : M (b.State × Option ℕ) Unit)
    (rtl_tb debug : Bool) (uart_is_init : Option ℕ) where
  -- `main` of clic_pend.rs.
  unfoldable pub main_pend : M (b.State × Option ℕ) ⊥
  main_pend = do
    lift (Uart.init b uart_base uart_is_init (cpu_freq rtl_tb) (uart_baud rtl_tb))
    lift (sprintln b fuel name)
    lift (Smclicconfig.set_mnlbits reg smclicconfig 8)
    lift (setup_irq reg fuel setup_text irq)
    enable_interrupts
    lift (Intip.pend reg (ip (number irq)))
    preempt
    last ← statics
    elim last [
      | some code ↦ (do
        lift (sprintln b fuel handled)
        assert (number irq == code)
        lift (tear_irq reg fuel tear_text irq)
        lift (signal_pass b wait rtl_tb debug fuel fuel true))
      | none ↦ (do
        lift (tear_irq reg fuel tear_text irq)
        lift (signal_fail b wait rtl_tb debug fuel fuel true))
    ]
    forever fuel (pure tt)

  -- `main` of mcause_should_be_interrupt.rs.
  unfoldable pub main_cause : M (b.State × Option ℕ) ⊥
  unfolding setup_id tear_id
  main_cause = do
    lift (Uart.init b uart_base uart_is_init (cpu_freq rtl_tb) (uart_baud rtl_tb))
    lift (sprintln b fuel name)
    lift (set_mnlbits b 8)
    lift (setup_id b irq_id)
    enable_interrupts
    lift (pend_int b irq_id)
    preempt
    last ← statics
    elim last [
      | some code ↦ (do
        assert (irq_id == code)
        lift (tear_id b irq_id)
        lift (signal_pass b wait rtl_tb debug fuel fuel true))
      | none ↦ (do lift (tear_id b irq_id); lift (signal_fail b wait rtl_tb debug fuel fuel true))
    ]
    forever fuel (pure tt)
