-- ===== src/Clic/Intattr.antt =====
-- The interrupt attribute register: examples/atalanta-bsp/src/clic/intattr.rs.
use atalanta.Prelude.{ℕ, ◌+◌, ◌*◌, Bool, ◌==◌, if◌then◌else◌}
use atalanta.Machine.{Bus, M, pure, panics, ◌>>=◌}
use atalanta.Machine.Reg.{RegApi}

pub data Mode : Type 0 where
  machine supervisor user : Mode

-- `mode as u32`.
abbrev pub mode_bits : Mode → ℕ
mode_bits machine = 0b11
mode_bits supervisor = 0b01
mode_bits user = 0b00

pub data Trig : Type 0 where
  level edge : Trig

pub data Polarity : Type 0 where
  pos neg : Polarity

abbrev intattr_offset : ℕ
intattr_offset = 0x2

module _ {b : Bus} (reg : RegApi b) where
  unfoldable pub mode : ℕ → M b.State Mode
  mode ptr = do
    bits ← reg.read_bits ptr (6 + 8 * intattr_offset) (7 + 8 * intattr_offset)
    if bits == 0b00
        then pure user
        else if bits == 0b01
        then pure supervisor
        else if bits == 0b11
        then pure machine
        else panics

  unfoldable pub set_mode : ℕ → Mode → M b.State Unit
  set_mode ptr m =
      reg.write_bits ptr (6 + 8 * intattr_offset) (7 + 8 * intattr_offset) (mode_bits m)

  unfoldable pub trig : ℕ → M b.State Trig
  trig ptr = do
    bit ← reg.read_bit ptr (1 + 8 * intattr_offset)
    if bit then pure edge else pure level

  unfoldable pub set_trig : ℕ → Trig → M b.State Unit
  set_trig ptr level = reg.clear_bit ptr (1 + 8 * intattr_offset)
  set_trig ptr edge = reg.set_bit ptr (1 + 8 * intattr_offset)

  unfoldable pub polarity : ℕ → M b.State Polarity
  polarity ptr = do
    bit ← reg.read_bit ptr (2 + 8 * intattr_offset)
    if bit then pure neg else pure pos

  unfoldable pub set_polarity : ℕ → Polarity → M b.State Unit
  set_polarity ptr pos = reg.clear_bit ptr (2 + 8 * intattr_offset)
  set_polarity ptr neg = reg.set_bit ptr (2 + 8 * intattr_offset)

  unfoldable pub shv : ℕ → M b.State Bool
  shv ptr = reg.read_bit ptr (0 + 8 * intattr_offset)

  unfoldable pub set_shv : ℕ → Bool → M b.State Unit
  set_shv ptr on =
      if on then reg.set_bit ptr (8 * intattr_offset) else reg.clear_bit ptr (8 * intattr_offset)
