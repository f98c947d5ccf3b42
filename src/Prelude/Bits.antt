-- ===== src/Prelude/Bits.antt =====
-- Words bit by bit: what `&`, `|`, `^`, `!` and the shifts do to each bit, and that the bits
-- determine the word.
use Prim.Native.Nat.{ℕ, zero, suc, ◌+◌, ◌-◌, ◌*◌, ◌/◌, ◌%◌, ◌^◌, ◌≤◌, ◌<◌, min, max, digits}
use Prim.Native.Nat.{bit_and, bit_or, bit_xor, bitwise, differ}
use Prim.Native.Nat.{bit_and-bitwise, bit_or-bitwise, bit_xor-bitwise}
use mathlib.Core.Path.{◌≡◌, refl, ap, ◌∙◌}
use native.Mathlib.Nat.{zero-add, suc-add, pow-suc, one-le-pow, div-div-eq-div-mul}
use native.Mathlib.Omega.{arith}
use atalanta.Prelude.Tests.{ltb, if◌then◌else◌}

-- Bit `i` of a word.
abbrev pub bit : ℕ → ℕ → ℕ
bit w zero = w % 2
bit w (suc i) = bit (w / 2) i

-- The native operations stand for `digits`, a recursion on binary digits whose fuel is the first
-- operand. More fuel changes nothing, so an operation splits into its lowest digit and the rest.
module _ (z : ℕ → ℕ) (f : ℕ → ℕ → ℕ) where
  digits-suc : (fuel a b : ℕ) → a ≤ fuel → digits z f (suc fuel) a b ≡ digits z f fuel a b
  digits-suc zero zero b h = refl
  digits-suc zero (suc a) b h = absurd (omega arith)
  digits-suc (suc fuel) zero b h = refl
  digits-suc (suc fuel) (suc a) b h =
      let low : ℕ = f (suc a % 2) (b % 2) in
      ap (λ t. t * 2 + low) (digits-suc fuel (suc a / 2) (b / 2) (omega arith))

  digits_enough : (extra a b : ℕ) → digits z f (extra + a) a b ≡ digits z f a a b
  digits_enough zero a b = rw zero-add
  digits_enough (suc extra) a b =
      rw suc-add (digits-suc (extra + a) a b (omega arith) ∙ digits_enough extra a b)

  digits_half : (a b : ℕ) → digits z f a (suc a / 2) b ≡ digits z f (suc a / 2) (suc a / 2) b
  digits_half a b =
      let split : a ≡ (a - suc a / 2) + suc a / 2 = omega arith in
      ap (λ fuel. digits z f fuel (suc a / 2) b) split ∙ digits_enough (a - suc a / 2) (suc a / 2) b

  lowest_digit :
      (a b : ℕ)
      → bitwise z f (suc a) b ≡ bitwise z f (suc a / 2) (b / 2) * 2 + f (suc a % 2) (b % 2)
  lowest_digit a b = omega (arith, digits_half a (b / 2))

pub bit_and_step : (x y : ℕ) → bit_and x y ≡ min (x % 2) (y % 2) + 2 * bit_and (x / 2) (y / 2)
bit_and_step zero y = simp bit_and-bitwise (omega arith)
bit_and_step (suc x) y = simp bit_and-bitwise (omega (arith, lowest_digit (λ d. 0) min x y))

bit_or_step : (x y : ℕ) → bit_or x y ≡ max (x % 2) (y % 2) + 2 * bit_or (x / 2) (y / 2)
bit_or_step zero y = simp bit_or-bitwise (omega arith)
bit_or_step (suc x) y = simp bit_or-bitwise (omega (arith, lowest_digit (λ d. d) max x y))

differ_lem : (x y : ℕ) → x < 2 → y < 2 → differ x y ≡ (x + y) % 2
differ_lem zero y p q = omega arith
differ_lem (suc zero) zero p q = refl
differ_lem (suc zero) (suc zero) p q = refl
differ_lem (suc zero) (suc (suc y)) p q = absurd (omega arith)
differ_lem (suc (suc x)) y p q = absurd (omega arith)

bit_xor_step : (a b : ℕ) → bit_xor a b ≡ bit_xor (a / 2) (b / 2) * 2 + (a % 2 + b % 2) % 2
bit_xor_step zero b = simp bit_xor-bitwise (omega arith)
bit_xor_step (suc a) b =
    let rest : ℕ = bitwise (λ y. y) differ (suc a / 2) (b / 2) * 2 in
    let low = differ_lem (suc a % 2) (b % 2) (omega arith) (omega arith) in
    simp bit_xor-bitwise (lowest_digit (λ y. y) differ a b ∙ ap (λ t. rest + t) low)

half_and : (a b : ℕ) → bit_and a b / 2 ≡ bit_and (a / 2) (b / 2)
half_and a b = omega (arith, bit_and_step a b)

half_or : (a b : ℕ) → bit_or a b / 2 ≡ bit_or (a / 2) (b / 2)
half_or a b = omega (arith, bit_or_step a b)

half_xor : (a b : ℕ) → bit_xor a b / 2 ≡ bit_xor (a / 2) (b / 2)
half_xor a b = omega (arith, bit_xor_step a b)

pub bit-le_one : (w i : ℕ) → bit w i ≤ 1
bit-le_one w zero = omega arith
bit-le_one w (suc i) = bit-le_one (w / 2) i

pub bit-bit_and : (a b i : ℕ) → bit (bit_and a b) i ≡ min (bit a i) (bit b i)
bit-bit_and a b zero = omega (arith, bit_and_step a b)
bit-bit_and a b (suc i) = rw half_and (bit-bit_and (a / 2) (b / 2) i)

pub bit-bit_or : (a b i : ℕ) → bit (bit_or a b) i ≡ max (bit a i) (bit b i)
bit-bit_or a b zero = omega (arith, bit_or_step a b)
bit-bit_or a b (suc i) = rw half_or (bit-bit_or (a / 2) (b / 2) i)

pub bit-bit_xor : (a b i : ℕ) → bit (bit_xor a b) i ≡ (bit a i + bit b i) % 2
bit-bit_xor a b zero = omega (arith, bit_xor_step a b)
bit-bit_xor a b (suc i) = rw half_xor (bit-bit_xor (a / 2) (b / 2) i)

pub bit-zero : (i : ℕ) → bit 0 i ≡ 0
bit-zero zero = refl
bit-zero (suc i) = bit-zero i

half-lt : (n w : ℕ) → w < 2 ^ suc n → w / 2 < 2 ^ n
half-lt n w h = omega (arith, pow-suc 2 n)

-- A word of `n` bits has no bit from `n` on.
pub bit-high : (n w i : ℕ) → w < 2 ^ n → n ≤ i → bit w i ≡ 0
bit-high zero w i h p = let e : w ≡ 0 = omega arith in rw e (bit-zero i)
bit-high (suc n) w zero h p = absurd (omega arith)
bit-high (suc n) w (suc i) h p = bit-high n (w / 2) i (half-lt n w h) (omega arith)

-- `!w` on a word of `n` bits.
pub bit-complement : (n w i : ℕ) → w < 2 ^ n → i < n → bit (2 ^ n - 1 - w) i ≡ 1 - bit w i
bit-complement zero w i h p = absurd (omega arith)
bit-complement (suc n) w zero h p = omega (arith, pow-suc 2 n)
bit-complement (suc n) w (suc i) h p =
    let e : (2 ^ suc n - 1 - w) / 2 ≡ 2 ^ n - 1 - w / 2 = omega (arith, pow-suc 2 n) in
    rw e (bit-complement n (w / 2) i (half-lt n w h) (omega arith))

two_pow-suc : (k : ℕ) → 2 ^ suc k ≡ 2 * 2 ^ k
two_pow-suc k = omega (arith, pow-suc 2 k)

mul-two_pow : (w k : ℕ) → w * 2 ^ suc k ≡ 2 * (w * 2 ^ k)
mul-two_pow w k = omega (arith, ap (λ (t : ℕ). w * t) (pow-suc 2 k))

mod_two_mul : (w p : ℕ) → 0 < p → w % (2 * p) ≡ 2 * (w / 2 % p) + w % 2
mod_two_mul w p h = grind arith

pub mod_two_pow-suc : (n w : ℕ) → w % 2 ^ suc n ≡ 2 * (w / 2 % 2 ^ n) + w % 2
mod_two_pow-suc n w = rw two_pow-suc (mod_two_mul w (2 ^ n) (one-le-pow n 2 (omega arith)))

-- `w << k` before the cut to the width.
pub bit-shl : (k w i : ℕ) → bit (w * 2 ^ k) i ≡ (if ltb i k then 0 else bit w (i - k))
bit-shl zero w i = let e : w * 2 ^ 0 ≡ w = omega arith in rw e (ground arith)
bit-shl (suc k) w zero = ground (arith, mul-two_pow w k)
bit-shl (suc k) w (suc i) =
    let e : w * 2 ^ suc k / 2 ≡ w * 2 ^ k = omega (arith, mul-two_pow w k) in
    rw e (ground (arith, bit-shl k w i))

pub bit-shr : (k w i : ℕ) → bit (w / 2 ^ k) i ≡ bit w (k + i)
bit-shr zero w i = let e : w / 2 ^ 0 ≡ w = omega arith in rw (e, zero-add)
bit-shr (suc k) w i =
    let e : w / 2 ^ suc k ≡ w / 2 / 2 ^ k = rw (two_pow-suc, div-div-eq-div-mul) in
    rw (e, suc-add) (bit-shr k (w / 2) i)

-- `w % 2 ^ n` keeps the low `n` bits.
pub bit-mod : (n w i : ℕ) → bit (w % 2 ^ n) i ≡ (if ltb i n then bit w i else 0)
bit-mod zero w i = let e : w % 2 ^ 0 ≡ 0 = omega arith in rw (e, bit-zero) (ground arith)
bit-mod (suc n) w zero = ground (arith, mod_two_pow-suc n w)
bit-mod (suc n) w (suc i) =
    let e : w % 2 ^ suc n / 2 ≡ w / 2 % 2 ^ n = omega (arith, mod_two_pow-suc n w) in
    rw e (ground (arith, bit-mod n (w / 2) i))

-- Two words of `n` bits with the same bits are equal.
pub bit_ext : (n a b : ℕ) → a < 2 ^ n → b < 2 ^ n → ((i : ℕ) → i < n → bit a i ≡ bit b i) → a ≡ b
bit_ext zero a b p q h = omega arith
bit_ext (suc n) a b p q h =
    let halves =
      bit_ext n (a / 2) (b / 2) (half-lt n a p) (half-lt n b q) (λ i hi. h (suc i) (omega arith)) in
    omega (arith, halves, h 0 (omega arith))

pub bit_or-lt : (n a b : ℕ) → a < 2 ^ n → b < 2 ^ n → bit_or a b < 2 ^ n
bit_or-lt zero a b p q =
    let e : a ≡ 0 = omega arith in let d : b ≡ 0 = omega arith in rw (e, d) (omega arith)
bit_or-lt (suc n) a b p q = omega (
  arith,
  pow-suc 2 n,
  bit_or_step a b,
  bit_or-lt n (a / 2) (b / 2) (half-lt n a p) (half-lt n b q),
)

pub bit_xor-lt : (n a b : ℕ) → a < 2 ^ n → b < 2 ^ n → bit_xor a b < 2 ^ n
bit_xor-lt zero a b p q =
    let e : a ≡ 0 = omega arith in let d : b ≡ 0 = omega arith in rw (e, d) (omega arith)
bit_xor-lt (suc n) a b p q = omega (
  arith,
  pow-suc 2 n,
  bit_xor_step a b,
  bit_xor-lt n (a / 2) (b / 2) (half-lt n a p) (half-lt n b q),
)

pub bit_and-lt : (n a b : ℕ) → a < 2 ^ n → bit_and a b < 2 ^ n
bit_and-lt zero a b p = let e : a ≡ 0 = omega arith in rw e (omega (arith, bit_and-bitwise 0 b))
bit_and-lt (suc n) a b p =
    omega (arith, pow-suc 2 n, bit_and_step a b, bit_and-lt n (a / 2) (b / 2) (half-lt n a p))

mul-two_pow-add : (k q r : ℕ) → (q * 2 ^ suc k + r) / 2 ≡ q * 2 ^ k + r / 2
mul-two_pow-add k q r = omega (arith, mul-two_pow q k)

-- Two words side by side: `q` above the `k` bits of `r`.
pub bit-join :
    (k q r i : ℕ) → r < 2 ^ k → bit (q * 2 ^ k + r) i ≡ (if ltb i k then bit r i else bit q (i - k))
bit-join zero q r i h = let e : q * 2 ^ 0 + r ≡ q = omega arith in rw e (ground arith)
bit-join (suc k) q r zero h = ground (arith, mul-two_pow q k)
bit-join (suc k) q r (suc i) h =
    rw mul-two_pow-add (ground (arith, bit-join k q (r / 2) i (half-lt k r h)))

pub bit_and-zero : (n w : ℕ) → w < 2 ^ n → bit_and w 0 ≡ 0
bit_and-zero zero w h = let e : w ≡ 0 = omega arith in rw e
bit_and-zero (suc n) w h = omega (arith, bit_and_step w 0, bit_and-zero n (w / 2) (half-lt n w h))
