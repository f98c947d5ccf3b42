-- ===== src/Prelude/Fields.antt =====
-- Bit fields of 32-bit words: clearing, shifting and masking, bit by bit.
use Prim.Native.Nat.{ℕ, ◌+◌, ◌-◌, ◌*◌, ◌^◌, ◌≤◌, ◌<◌, min, bit_and, bit_or}
use mathlib.Core.Path.{◌≡◌}
use mathlib.Core.Bool.{◌&&◌}
use native.Mathlib.Nat.{mod-eq_of_lt, one-le-pow}
use native.Mathlib.Omega.{arith}
use atalanta.Prelude.Tests.{ltb, leb, if◌then◌else◌}
use atalanta.Prelude.Word.{not32, shl32, shr32}
use atalanta.Prelude.Bits.{
  bit, bit-zero, bit-le_one, bit-bit_and, bit-bit_or, bit-high, bit-complement, bit-shl, bit-shr,
  bit-mod, bit_and-lt, bit_or-lt, bit_ext, bit-join,
}

-- `x & !m`.
pub bit-clear :
    (x m i : ℕ)
    → x < 2 ^ 32
    → m < 2 ^ 32
    → bit (bit_and x (not32 m)) i ≡ min (bit x i) (1 - bit m i)
bit-clear x m i hx hm = ground (
  arith,
  bit-bit_and x (not32 m) i,
  bit-complement 32 m i hm,
  bit-high 32 x i hx,
  bit-le_one x i,
  bit-le_one m i,
)

-- `(1 << k) - 1`, and `x & ((1 << k) - 1)`.
pub bit-low_mask : (k i : ℕ) → bit (2 ^ k - 1) i ≡ (if ltb i k then 1 else 0)
bit-low_mask k i =
    ground (arith, bit-complement k 0 i, bit-high k (2 ^ k - 1) i, one-le-pow k 2, bit-zero i)

pub bit-shl32 :
    (x p i : ℕ) → p < 32 → bit (shl32 x p) i ≡ (if leb p i && ltb i 32 then bit x (i - p) else 0)
bit-shl32 x p i h = rw (mod-eq_of_lt h, bit-mod, bit-shl) (ground arith)

pub bit-shr32 : (x p i : ℕ) → p < 32 → bit (shr32 x p) i ≡ bit x (p + i)
bit-shr32 x p i h = rw (mod-eq_of_lt h) (bit-shr p x i)

pub shl32-lt : (x p : ℕ) → shl32 x p < 2 ^ 32
shl32-lt x p = omega arith

-- `x & !(((1 << k) - 1) << p) | (v << p)`: the field of `k` bits from bit `p` on becomes `v`.
abbrev pub set_field : ℕ → ℕ → ℕ → ℕ → ℕ
set_field x p k v = bit_or (bit_and x (not32 (shl32 (2 ^ k - 1) p))) (shl32 v p)

pub set_field-lt : (x p k v : ℕ) → x < 2 ^ 32 → set_field x p k v < 2 ^ 32
set_field-lt x p k v h = bit_or-lt 32 _ _ (bit_and-lt 32 _ _ h) (shl32-lt v p)

pub bit-set_field :
    (x p k v i : ℕ)
    → x < 2 ^ 32
    → p < 32
    → p + k ≤ 32
    → v < 2 ^ k
    → bit (set_field x p k v) i ≡ (if leb p i && ltb i (p + k) then bit v (i - p) else bit x i)
bit-set_field x p k v i hx hp hk hv = ground (
  arith,
  bit-bit_or (bit_and x (not32 (shl32 (2 ^ k - 1) p))) (shl32 v p) i,
  bit-clear x (shl32 (2 ^ k - 1) p) i hx (shl32-lt (2 ^ k - 1) p),
  bit-shl32 (2 ^ k - 1) p i hp,
  bit-shl32 v p i hp,
  bit-low_mask k (i - p),
  bit-high k v (i - p) hv,
  bit-high 32 x i hx,
  bit-le_one x i,
  bit-le_one v (i - p),
)

-- `(hi << 32) | lo` on `u64` is the number with the two halves.
pub bit_or_halves :
    (hi lo : ℕ) → hi < 2 ^ 32 → lo < 2 ^ 32 → bit_or (hi * 2 ^ 32) lo ≡ hi * 2 ^ 32 + lo
bit_or_halves hi lo hh hl =
    bit_ext 64 _ _ (bit_or-lt 64 _ _ (omega arith) (omega arith)) (omega arith) (λ i hi64. ground (
      arith,
      bit-bit_or (hi * 2 ^ 32) lo i,
      bit-shl 32 hi i,
      bit-join 32 hi lo i hl,
      bit-high 32 lo i hl,
      bit-le_one hi (i - 32),
      bit-le_one lo i,
    ))
