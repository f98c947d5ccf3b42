-- ===== src/HelloRt/ClicNested/Examples.antt =====
-- The theorem on the two orders at a device, where `nested` runs its closure alone.
use atalanta.Prelude.{ℕ, List, [], ◌∷◌}
use atalanta.Machine.{M}
use atalanta.Machine.MemoryReg.{bus_reg}
use atalanta.Clic.Intip
use atalanta.Console.Board.{board}
use atalanta.Interrupt.{Interrupt}
use atalanta.HelloRt.NestedLock.Takes.{Takes}
use atalanta.HelloRt.ClicNested.{nested_handler}

-- `mcause` at an interrupt has its top bit set.
abbrev on : ℕ → List (M (board.State × ℕ) (Unit {0})) → M (board.State × ℕ) (Unit {0})
on mcause rounds =
    nested_handler (bus_reg board) 9 (λ m. m) rounds mcause (λ n. b'x' ∷ []) (λ lo hi. b'y' ∷ [])
