-- ===== src/Clic/Intctl.antt =====
-- The interrupt control register: examples/atalanta-bsp/src/clic/intctl.rs.
use atalanta.Prelude.{ℕ, ◌+◌, ◌*◌, u8}
use atalanta.Machine.{Bus, M, pure, ◌>>=◌}
use atalanta.Machine.Reg.{RegApi}

abbrev intctl_offset : ℕ
intctl_offset = 0x3

module _ {b : Bus} (reg : RegApi b) where
  unfoldable pub level : ℕ → M b.State ℕ
  level ptr = do
    bits ← reg.read_bits ptr (8 * intctl_offset) (7 + 8 * intctl_offset)
    pure (u8 bits)

  -- `level` is a `u8`.
  unfoldable pub set_level : ℕ → ℕ → M b.State Unit
  set_level ptr level = reg.write_bits ptr (8 * intctl_offset) (7 + 8 * intctl_offset) level
