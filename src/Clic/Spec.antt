-- ===== src/Clic/Spec.antt =====
-- What the CLIC driver of examples/atalanta-bsp/src/clic.rs promises of an interrupt: the
-- configuration that the bits of its 32-bit register stand for, and the operations on it. The fields
-- are those of the hardware, src/ip/clicint_reg_pkg.sv and clicint_reg_top.sv.
use atalanta.Prelude.{
  ℕ, zero, suc, ◌+◌, ◌*◌, ◌/◌, ◌%◌, ◌^◌, ◌<◌, Bool, true, false, ◌≡◌, sym, ap, ◌∙◌, arith, bit,
  bit-shr, ◌==◌, mod_two_pow-suc,
}
use native.Mathlib.Nat.{add-zero, pow-suc, div-div-eq-div-mul}
use native.Mathlib.Numerals.{add-one}
use atalanta.Clic.Intattr.{Mode, mode_bits, Trig, Polarity, pos, neg}

-- The number that the `k` bits of `f` from `p` on make up.
abbrev pub value_of : (ℕ → ℕ) → ℕ → ℕ → ℕ
value_of f p zero = 0
value_of f p (suc k) = f p + 2 * value_of f (p + 1) k

pub record IntConfig : Type 0 where
  pub pending : Bool
  pub enabled : Bool
  pub pcs : Bool
  pub shv : Bool
  pub edge : Bool
  pub negative : Bool
  pub mode : ℕ
  pub level : ℕ

-- The configuration in a register whose bits are `f`.
abbrev pub config_of : (ℕ → ℕ) → IntConfig
config_of f = record {
  pending = f 0 == 1;
  enabled = f 8 == 1;
  pcs = f 12 == 1;
  shv = f 16 == 1;
  edge = f 17 == 1;
  negative = f 18 == 1;
  mode = value_of f 22 2;
  level = value_of f 24 8;
}

-- The operations of the register handles of one interrupt.
pub data IntOp : Type 0 where
  pend unpend enable disable : IntOp
  set_pcs set_shv : Bool → IntOp
  set_trig : Trig → IntOp
  set_polarity : Polarity → IntOp
  set_mode : Mode → IntOp
  set_level : ℕ → IntOp

abbrev pub is_edge : Trig → Bool
is_edge Trig.level = false
is_edge Trig.edge = true

abbrev pub is_negative : Polarity → Bool
is_negative pos = false
is_negative neg = true

-- What each operation means.
abbrev pub apply : IntOp → IntConfig → IntConfig
apply pend c = record c { pending = true }
apply unpend c = record c { pending = false }
apply enable c = record c { enabled = true }
apply disable c = record c { enabled = false }
apply (set_pcs on) c = record c { pcs = on }
apply (set_shv on) c = record c { shv = on }
apply (set_trig t) c = record c { edge = is_edge t }
apply (set_polarity p) c = record c { negative = is_negative p }
apply (set_mode m) c = record c { mode = mode_bits m }
apply (set_level l) c = record c { level = l }

-- A level is a `u8`.
abbrev pub IsOp : IntOp → Type 0
IsOp (set_level l) = l < 256
IsOp _ = Unit

-- A field of a word is the number that its bits make up.
pub value_of-bit : (k p x : ℕ) → value_of (bit x) p k ≡ x / 2 ^ p % 2 ^ k
value_of-bit zero p x = omega arith
value_of-bit (suc k) p x =
    let low : bit x p ≡ x / 2 ^ p % 2 = sym (bit-shr p x 0 ∙ ap (bit x) (add-zero p)) in
    let next : x / 2 ^ (p + 1) ≡ x / 2 ^ p / 2 = rw (add-one, pow-suc, div-div-eq-div-mul) in
    let rest = rw next at (value_of-bit k (p + 1) x) in
    omega (arith, low, rest, mod_two_pow-suc k (x / 2 ^ p))
