-- ===== src/HelloRt/ClicNested.antt =====
-- The program examples/hello_rt/examples/clic_nested.rs: the lock of HelloRt/NestedLock, with one
-- handler for both interrupts that waits inside `nested`. `setup_irq` there is that of
-- HelloRt/NestedLock.
pub mod Orders
mod Examples
use atalanta.Prelude.{ℕ, Bool, true, Option, List, codes, bit_and, ◌==◌, if◌then◌else◌}
use atalanta.Machine.{Bus, M, pure, panics, ◌>>=◌, ◌>>◌}
use atalanta.Machine.Reg.{RegApi}
use atalanta.Machine.Statics.{lift, statics, set_statics}
use atalanta.Mmap.{uart_base}
use atalanta.Clic.{smclicconfig, ip}
use atalanta.Clic.Intip
use atalanta.Clic.Smclicconfig
use atalanta.Console.{sprintln}
use atalanta.Delay.{cpu_freq, asm_delay}
use atalanta.Interrupt.{Interrupt, number, dma0, dma1, Decoded, from_number}
use atalanta.TestBench.{forever, signal_pass, signal_fail}
use atalanta.Uart
use atalanta.HelloRt.Irq.{uart_baud, tear_irq}
use atalanta.HelloRt.NestedLock.{wait_while, setup_irq}

-- `unwrap_unchecked` of an interrupt's number: on an error the behaviour is undefined, a panic here.
abbrev decode : {S : Type 0} → Decoded → M S Interrupt
decode (Decoded.ok irq) = pure irq
decode (Decoded.err n) = panics

module _ {b : Bus} (reg : RegApi b) (fuel : ℕ) where
  unfoldable pub low_handler :
      (M (b.State × ℕ) Unit → M (b.State × ℕ) Unit)
      → List (M (b.State × ℕ) Unit)
      → M (b.State × ℕ) Unit
  low_handler nested rounds = do
    lift (sprintln b fuel (codes "lo: enter"))
    lift (sprintln b fuel (codes "lo: waiting for hi to set lock"))
    nested (wait_while (λ lock. lock == 0) rounds)
    lift (sprintln b fuel (codes "lo: lock has updated, continuing"))
    set_statics 2
    lift (sprintln b fuel (codes "lo: leave"))

  unfoldable pub high_handler : M (b.State × ℕ) Unit
  high_handler = do
    lift (sprintln b fuel (codes "hi: enter"))
    set_statics 1
    lift (sprintln b fuel (codes "hi: lock value set"))
    lift (sprintln b fuel (codes "hi: leave"))

  -- `mcause` is what the register reads as, `enter` and `pending` are messages, and `nested` runs a
  -- closure with interrupts enabled; `rounds` is what they do in each round of the wait.
  unfoldable pub nested_handler :
      (M (b.State × ℕ) Unit → M (b.State × ℕ) Unit)
      → List (M (b.State × ℕ) Unit)
      → ℕ
      → (ℕ → List ℕ)
      → (Bool → Bool → List ℕ)
      → M (b.State × ℕ) Unit
  unfolding low_handler high_handler
  nested_handler nested rounds mcause enter pending = do
    let irq_n : ℕ = bit_and mcause 0xfff
    irq ← decode (from_number irq_n)
    lift (sprintln b fuel (enter irq_n))
    lo ← lift (Intip.is_pending reg (ip (number dma0)))
    hi ← lift (Intip.is_pending reg (ip (number dma1)))
    lift (sprintln b fuel (pending lo hi))
    elim irq [ dma0 ↦ low_handler nested rounds | dma1 ↦ high_handler | _ ↦ panics ]

  -- The write of mintthresh, in which interrupts may run, and the enable bit are parameters;
  -- interrupts run in the delay too.
  module _ (wait : b.State → b.State) (nop_preempted : b.State × ℕ → b.State × ℕ)
      (write_mintthresh : ℕ → M (b.State × ℕ) Unit)
      (enable_interrupts disable_interrupts : M (b.State × ℕ) Unit) (rtl_tb debug : Bool)
      (uart_is_init : Option ℕ) (name : List ℕ) (tear_text : Interrupt → List ℕ) where
    unfoldable pub main : M (b.State × ℕ) ⊥
    main = do
      lift (Uart.init b uart_base uart_is_init (cpu_freq rtl_tb) (uart_baud rtl_tb))
      lift (sprintln b fuel name)
      lift (Smclicconfig.set_mnlbits reg smclicconfig 8)
      lift (setup_irq reg fuel dma0 0x1)
      lift (setup_irq reg fuel dma1 0x2)
      lift (sprintln b fuel (codes "mintthresh <- 0xff"))
      write_mintthresh 0xff
      enable_interrupts
      lift (sprintln b fuel (codes "lo::pend"))
      lift (Intip.pend reg (ip (number dma0)))
      lift (sprintln b fuel (codes "hi::pend"))
      lift (Intip.pend reg (ip (number dma1)))
      lift (sprintln b fuel (codes "mintthresh <- 0x0"))
      write_mintthresh 0x0
      asm_delay nop_preempted 1000
      lock ← statics
      disable_interrupts
      lift (tear_irq reg fuel (tear_text dma0) dma0)
      lift (tear_irq reg fuel (tear_text dma1) dma1)
      lift (
          if lock == 2
          then signal_pass b wait rtl_tb debug fuel fuel true
          else signal_fail b wait rtl_tb debug fuel fuel true)
      forever fuel (pure tt)
