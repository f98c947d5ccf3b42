-- ===== src/Register/Fields.antt =====
-- The bit fields of examples/atalanta-bsp/src/register.rs.
use atalanta.Prelude.{
  ℕ, ◌+◌, ◌-◌, ◌/◌, ◌%◌, ◌^◌, ◌≤◌, ◌<◌, ◌≡◌, ◌≢◌, sym, ◌∙◌, ◌⊎◌, arith, bit, bit_and, shl32,
  set_field, set_field-lt, bit-set_field, bit-bit_and, bit-low_mask, bit-mod, bit-shr, bit_ext,
  bit-le_one, bit_and-lt,
}
use native.Mathlib.Nat.{mod-lt, mod-eq_of_lt, one-le-pow, pow-le-pow_right}
use atalanta.Register.{bf_insert, bf_extract, Mintstatus, mil}

two_pow-lt : (k : ℕ) → k < 32 → 2 ^ k < 2 ^ 32
two_pow-lt k h =
    let below : 2 ^ k ≤ 2 ^ 31 = pow-le-pow_right (omega arith) {j = 31} (omega arith) in
    omega (arith, below)

-- `1 << k`.
shl32-one : (k : ℕ) → k < 32 → shl32 1 k ≡ 2 ^ k
shl32-one k h = rw (mod-eq_of_lt h) (omega (arith, two_pow-lt k h))

pub low_bits : (k x : ℕ) → x < 2 ^ 32 → bit_and x (2 ^ k - 1) ≡ x % 2 ^ k
low_bits k x h = bit_ext 32 _ _ (bit_and-lt 32 _ _ h) (omega arith) (λ i hi.
    ground (arith, bit-bit_and x (2 ^ k - 1) i, bit-low_mask k i, bit-mod k x i, bit-le_one x i))

-- `bf_extract` gives the number in the field.
pub bf_extract_lem :
    (x p k : ℕ) → x < 2 ^ 32 → p < 32 → k < 32 → bf_extract x p k ≡ x / 2 ^ p % 2 ^ k
unfolding bf_extract
bf_extract_lem x p k hx hp hk =
    rw (shl32-one k hk, mod-eq_of_lt hp) (low_bits k (x / 2 ^ p) (omega arith))

bf_insert-set_field :
    (x p k v : ℕ) → k < 32 → v < 2 ^ 32 → bf_insert x p k v ≡ set_field x p k (v % 2 ^ k)
unfolding bf_insert
bf_insert-set_field x p k v hk hv = rw (shl32-one k hk, low_bits k v hv)

mod-two_pow-lt : (x k : ℕ) → x % 2 ^ k < 2 ^ k
mod-two_pow-lt x k = mod-lt x (one-le-pow k 2 (omega arith))

-- A bit of a field.
bit-field : (x p k i : ℕ) → i < k → bit (x / 2 ^ p % 2 ^ k) i ≡ bit x (p + i)
bit-field x p k i h = ground (arith, bit-mod k (x / 2 ^ p) i, bit-shr p x i)

-- Of fields narrower than a word that lie within it: what `bf_insert` puts into one, `bf_extract`
-- gets back, cut to the field's width; one that does not overlap it reads as before, and the result
-- is a word again.
pub bf_extract-bf_insert :
    (x p k v q j : ℕ)
    → x < 2 ^ 32
    → v < 2 ^ 32
    → p + k ≤ 32
    → p < 32
    → k < 32
    → q < 32
    → j < 32
    → (q + j ≤ p) ⊎ (p + k ≤ q)
    → (bf_extract (bf_insert x p k v) p k ≡ v % 2 ^ k)
      × (bf_extract (bf_insert x p k v) q j ≡ bf_extract x q j)
      × (bf_insert x p k v < 2 ^ 32)
bf_extract-bf_insert x p k v q j hx hv hpk hp hk hq hj apart =
    let y : ℕ = set_field x p k (v % 2 ^ k) in
    let hy : y < 2 ^ 32 = set_field-lt x p k (v % 2 ^ k) hx in
    let fits : v % 2 ^ k < 2 ^ k = mod-two_pow-lt v k in
    rw (bf_insert-set_field x p k v hk hv) (
      bf_extract_lem y p k hy hp hk
          ∙ bit_ext k _ _ (mod-two_pow-lt _ k) fits (λ i hi.
            ground (
              arith,
              bit-field y p k i hi,
              bit-set_field x p k (v % 2 ^ k) (p + i) hx hp hpk fits,
            )),
      bf_extract_lem y q j hy hq hj
          ∙ bit_ext j _ _ (mod-two_pow-lt _ j) (mod-two_pow-lt _ j) (λ i hi. ground (
            arith,
            bit-field y q j i hi,
            bit-field x q j i hi,
            bit-set_field x p k (v % 2 ^ k) (q + i) hx hp hpk fits,
          ))
          ∙ sym (bf_extract_lem x q j hx hq hj),
      hy,
    )

-- `mil` returns the top bit of the register alone, so where bits 31 to 24 hold a level of two or
-- more it does not return that level.
pub mil-top_bit :
    (r : Mintstatus)
    → r.bits < 2 ^ 32
    → 2 ≤ r.bits / 2 ^ 24
    → (mil r ≡ r.bits / 2 ^ 31) × (mil r ≢ r.bits / 2 ^ 24)
unfolding mil
mil-top_bit r h two =
    let e : bf_extract r.bits 31 24 ≡ r.bits / 2 ^ 31 % 2 ^ 24 =
      bf_extract_lem r.bits 31 24 h (omega arith) (omega arith) in
    (omega (arith, e), omega (arith, e))
