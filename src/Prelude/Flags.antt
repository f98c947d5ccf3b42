-- ===== src/Prelude/Flags.antt =====
-- Single bits as flags of a word.
use Prim.Native.Nat.{ℕ, zero, suc, ◌-◌, ◌*◌, ◌%◌, ◌^◌, ◌<◌, min, bit_and}
use mathlib.Core.Path.{◌≡◌, refl, ap, sym, ◌∙◌}
use mathlib.Core.Logic.{inl, inr}
use mathlib.Core.Bool.{true, false}
use native.Mathlib.Omega.{arith}
use atalanta.Prelude.Tests.{◌==◌, ==_iff, eq_false_of_ne, Bool-cases, if◌then◌else◌}
use atalanta.Prelude.Word.{shl64}
use atalanta.Prelude.Bits.{
  bit, bit-le_one, bit-bit_and, bit-high, bit-shl, bit-mod, bit_ext, bit_and-lt,
}

bit-one : (j : ℕ) → bit 1 j ≡ (if j == 0 then 1 else 0)
bit-one zero = refl
bit-one (suc j) = bit-high 1 1 (suc j) (omega arith) (omega arith) ∙ (ground arith)

-- The flag with number `k`.
pub bit-flag : (k i : ℕ) → k < 64 → i < 64 → bit (shl64 1 k) i ≡ (if i == k then 1 else 0)
bit-flag k i hk hi =
    let e : k % 64 ≡ k = omega arith in
    rw e (ground (arith, bit-mod 64 (1 * 2 ^ k) i, bit-shl k 1 i, bit-one (i - k)))

pub flag-lt : (k : ℕ) → shl64 1 k < 2 ^ 64
flag-lt k = omega arith

test_bit :
    (x k i f : ℕ)
    → (bit x k == 1) ≡ true
    → bit f i ≡ (if i == k then 1 else 0)
    → min (bit x i) (bit f i) ≡ bit f i
test_bit x k i f h e = elim (Bool-cases (i == k)) [
  | inl same ↦
      let d : i ≡ k = (==_iff i k).0 same in
      let one : bit x i ≡ 1 = ap (bit x) d ∙ (==_iff (bit x k) 1).0 h in
      ground (arith, one, e, same)
  | inr other ↦ ground (arith, e, other, bit-le_one x i)
]

no_bit :
    (x k y f : ℕ)
    → (bit x k == 1) ≡ false
    → y ≡ f
    → bit y k ≡ min (bit x k) (bit f k)
    → bit f k ≡ (if k == k then 1 else 0)
    → ⊥
no_bit x k y f h e m d = ground (arith, ap (λ t. bit t k) e, bit-le_one x k, (==_iff k k).1 refl)

-- `x & flag == flag` tests the flag's bit.
pub flag_test :
    (x k : ℕ) → x < 2 ^ 64 → k < 64 → (bit_and x (shl64 1 k) == shl64 1 k) ≡ (bit x k == 1)
flag_test x k hx hk =
    let masked = bit-bit_and x (shl64 1 k) in
    let flag = λ (i : ℕ). bit-flag k i hk in
    elim (Bool-cases (bit x k == 1)) [
      | inl h ↦
          (==_iff (bit_and x (shl64 1 k)) (shl64 1 k)).1 (
            bit_ext 64 (bit_and x (shl64 1 k)) (shl64 1 k) (bit_and-lt 64 x (shl64 1 k) hx)
              (flag-lt k) (λ i hi. masked i ∙ test_bit x k i (shl64 1 k) h (flag i hi)))
          ∙ sym h
      | inr h ↦
          eq_false_of_ne (bit_and x (shl64 1 k)) (shl64 1 k)
            (λ e. no_bit x k (bit_and x (shl64 1 k)) (shl64 1 k) h e (masked k) (flag k hk))
          ∙ sym h
    ]
