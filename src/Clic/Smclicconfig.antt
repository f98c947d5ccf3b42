-- ===== src/Clic/Smclicconfig.antt =====
-- The smclicconfig register: examples/atalanta-bsp/src/clic/smclicconfig.rs.
pub mod Fields
use atalanta.Prelude.{ℕ}
use atalanta.Machine.{Bus, M}
use atalanta.Machine.Reg.{RegApi}

module _ {b : Bus} (reg : RegApi b) where
  unfoldable pub mnlbits : ℕ → M b.State ℕ
  mnlbits ptr = reg.read_bits ptr 0 3

  unfoldable pub set_mnlbits : ℕ → ℕ → M b.State Unit
  set_mnlbits ptr bits = reg.write_bits ptr 0 3 bits

  unfoldable pub nmbits : ℕ → M b.State ℕ
  nmbits ptr = reg.read_bits ptr 4 5

  unfoldable pub set_nmbits : ℕ → ℕ → M b.State Unit
  set_nmbits ptr bits = reg.write_bits ptr 4 5 bits
