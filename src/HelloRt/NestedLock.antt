-- ===== src/HelloRt/NestedLock.antt =====
-- The programs nested_interrupt_macros.rs and nested_pcs_interrupt_macros.rs of
-- examples/hello_rt/examples/: a handler of low level waits for one of high level to set LOCK.
-- `texts` are the messages that the formatting library makes.
pub mod Takes
pub mod Order
pub mod Pcs
pub mod Main
mod Examples
use atalanta.Prelude.{
  ℕ, zero, suc, ◌+◌, ◌*◌, ◌≡◌, Bool, true, false, Option, List, [], ◌∷◌, codes, shl32, ◌==◌,
  if◌then◌else◌,
}
use atalanta.Machine.{Bus, M, pure, spins, ◌>>=◌, ◌>>◌}
use atalanta.Machine.Reg.{RegApi}
use atalanta.Machine.Statics.{lift, statics, set_statics}
use atalanta.Access.{mask_u32, unmask_u32}
use atalanta.Mmap.{uart_base, clic_base_addr}
use atalanta.Clic.{smclicconfig, ip, ie, attr, ctl}
use atalanta.Clic.Intattr
use atalanta.Clic.Intattr.{Trig, Polarity}
use atalanta.Clic.Intctl
use atalanta.Clic.Intie
use atalanta.Clic.Intip
use atalanta.Clic.Smclicconfig
use atalanta.Console.{sprint, sprintln}
use atalanta.Delay.{cpu_freq}
use atalanta.Interrupt.{Interrupt, number, dma0, dma1}
use atalanta.TestBench.{forever, signal_pass, signal_fail}
use atalanta.Uart
use atalanta.HelloRt.Irq.{uart_baud, tear_irq}

-- `while LOCK == 0 {}` and `while LOCK != 2 {}`: the list has what the interrupts do before each
-- read of LOCK.
unfoldable pub wait_while : {S : Type 0} → (ℕ → Bool) → List (M (S × ℕ) Unit) → M (S × ℕ) Unit
wait_while test [] = spins
wait_while test (preempt ∷ later) = do
  preempt
  lock ← statics
  elim (test lock) [ true ↦ wait_while test later | false ↦ pure tt ]

abbrev pcs_bit_idx : ℕ
pcs_bit_idx = 12

unfoldable pub enable_pcs : (b : Bus) → Interrupt → M b.State Unit
enable_pcs b irq = mask_u32 b (clic_base_addr + 0x1000 + 0x04 * number irq) (shl32 0b1 pcs_bit_idx)

unfoldable pub disable_pcs : (b : Bus) → Interrupt → M b.State Unit
disable_pcs b irq =
    unmask_u32 b (clic_base_addr + 0x1000 + 0x04 * number irq) (shl32 0b1 pcs_bit_idx)

module _ {b : Bus} (reg : RegApi b) (fuel : ℕ) where
  unfoldable pub setup_irq : Interrupt → ℕ → M b.State Unit
  setup_irq irq level = do
    sprintln b fuel (codes "set up IRQ")
    Intattr.set_trig reg (attr (number irq)) Trig.edge
    Intattr.set_polarity reg (attr (number irq)) Polarity.pos
    Intattr.set_shv reg (attr (number irq)) true
    Intctl.set_level reg (ctl (number irq)) level
    Intie.enable reg (ie (number irq))

module _ {b : Bus} (reg : RegApi b) (fuel : ℕ) (texts : ℕ → List ℕ) where
  -- `Dma0`, with what the interrupts do in its wait.
  unfoldable pub dma0_handler : List (M (b.State × ℕ) Unit) → M (b.State × ℕ) Unit
  unfolding wait_while
  dma0_handler rounds = do
    lift (sprint b fuel (texts 0))
    lift (sprintln b fuel (texts 1))
    lift (sprintln b fuel (codes "lo: enter"))
    lift (sprintln b fuel (codes "lo: waiting for hi to set lock"))
    lift (sprintln b fuel (codes "hi::pend"))
    lift (Intip.pend reg (ip (number dma1)))
    wait_while (λ lock. lock == 0) rounds
    lift (sprintln b fuel (codes "lo: lock has updated, continuing"))
    set_statics 2
    lift (sprintln b fuel (codes "lo: leave"))

  -- `Dma1`
  unfoldable pub dma1_handler : M (b.State × ℕ) Unit
  dma1_handler = do
    lift (sprint b fuel (texts 2))
    lift (sprintln b fuel (texts 3))
    lift (sprintln b fuel (codes "hi: enter"))
    set_statics 1
    lift (sprintln b fuel (codes "hi: lock value set"))
    lift (sprintln b fuel (codes "hi: leave"))
