-- ===== src/Clic/Intip.antt =====
-- The interrupt pending register: examples/atalanta-bsp/src/clic/intip.rs.
use atalanta.Prelude.{ℕ, ◌+◌, ◌*◌, Bool}
use atalanta.Machine.{Bus, M}
use atalanta.Machine.Reg.{RegApi}

abbrev intip_offset : ℕ
intip_offset = 0x0

module _ {b : Bus} (reg : RegApi b) where
  unfoldable pub is_pending : ℕ → M b.State Bool
  is_pending ptr = reg.read_bit ptr (0 + 8 * intip_offset)

  unfoldable pub pend : ℕ → M b.State Unit
  pend ptr = reg.set_bit ptr (0 + 8 * intip_offset)

  unfoldable pub unpend : ℕ → M b.State Unit
  unpend ptr = reg.clear_bit ptr (0 + 8 * intip_offset)
