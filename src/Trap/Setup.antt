-- ===== src/Trap/Setup.antt =====
-- What the set-up of examples/atalanta-bsp/src/trap.rs leaves in the trap registers.
use atalanta.Prelude.{ℕ, ◌≡◌}
use atalanta.Machine.{M, Outcome, ok}
use atalanta.Machine.Csr.{Csrs}
use atalanta.Register.{TrapMode, clic}
use atalanta.Register.Control.{Points}

-- What the code relies on of `mtvec::write` of the crate riscv: it returns, and leaves the threshold
-- alone.
pub record MtvecLaws (c : Csrs) (write_mtvec : ℕ → TrapMode → M c.State (Unit {0})) : Type 0 where
  pub after_mtvec : ℕ → TrapMode → c.State → c.State
  pub mtvec_returns :
      (addr : ℕ) (m : TrapMode) (s : c.State) → write_mtvec addr m s ≡ ok tt (after_mtvec addr m s)
  pub mtvec_apart :
      (addr : ℕ) (m : TrapMode) (s : c.State) → c.read 0x347 (after_mtvec addr m s) ≡ c.read 0x347 s

-- A run returns the old threshold; mtvt points at the table, in the mode of the CLIC, and the
-- threshold is zero.
pub record Installs (c : Csrs) (table : ℕ) (s : c.State) (r : Outcome c.State ℕ) : Type 0 where
  pub after : c.State
  pub returns : r ≡ ok (c.read 0x347 s) after
  pub points : Points c table clic after
  pub open_to_all : c.read 0x347 after ≡ 0
