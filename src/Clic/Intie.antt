-- ===== src/Clic/Intie.antt =====
-- The interrupt enable register: examples/atalanta-bsp/src/clic/intie.rs.
use atalanta.Prelude.{ℕ, ◌+◌, ◌*◌, Bool, if◌then◌else◌}
use atalanta.Machine.{Bus, M}
use atalanta.Machine.Reg.{RegApi}

abbrev intie_offset : ℕ
intie_offset = 0x1

module _ {b : Bus} (reg : RegApi b) where
  unfoldable pub is_enabled : ℕ → M b.State Bool
  is_enabled ptr = reg.read_bit ptr (0 + 8 * intie_offset)

  unfoldable pub enable : ℕ → M b.State Unit
  enable ptr = reg.set_bit ptr (0 + 8 * intie_offset)

  unfoldable pub disable : ℕ → M b.State Unit
  disable ptr = reg.clear_bit ptr (0 + 8 * intie_offset)

  unfoldable pub set_pcs : ℕ → Bool → M b.State Unit
  set_pcs ptr on =
      if on
      then reg.set_bit ptr (4 + 8 * intie_offset)
      else reg.clear_bit ptr (4 + 8 * intie_offset)
