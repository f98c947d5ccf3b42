-- ===== src/Clic/Reads.antt =====
-- The reading operations of the CLIC driver return the configuration, and change nothing.
use atalanta.Prelude.{
  ℕ, not, ◌/◌, ◌%◌, ◌^◌, ◌<◌, Bool, true, false, ◌≡◌, ◌≢◌, refl, sym, ap, ◌∙◌, arith, bit,
  bit-le_one, ◌==◌, ==_iff, Bool-cases, ◌⊎◌, inl, inr, if◌then◌else◌, u8,
}
use atalanta.Machine.{Bus, Outcome, M, ok, panic, pure, panics}
use atalanta.Machine.Bank.{Words}
use atalanta.Machine.Reg.{RegApi, RegLaws}
use atalanta.Clic.{ip, ie, attr, ctl}
use atalanta.Clic.Intattr
use atalanta.Clic.Intattr.{Mode, machine, supervisor, user, mode_bits, Trig, Polarity}
use atalanta.Clic.Intctl
use atalanta.Clic.Intie
use atalanta.Clic.Intip
use atalanta.Clic.Spec.{value_of, value_of-bit}
use atalanta.Clic.State.{IsClicReg, ie-IsClicReg, config}

level_bits : (x : ℕ) → u8 (x / 2 ^ 24 % 2 ^ 8) ≡ x / 2 ^ 24 % 2 ^ 8
level_bits x = omega arith

continue_if :
    {S A : Type 0} (t : Bool) (x y : A) (s : S)
    → (if t then pure x else pure y) s ≡ ok (if t then x else y) s
continue_if true x y s = refl
continue_if false x y s = refl

-- The match of `mode`.
abbrev mode_of : {S : Type 0} → ℕ → M S Mode
mode_of bits =
    if bits == 0b00
    then pure user
    else if bits == 0b01
    then pure supervisor
    else if bits == 0b11
    then pure machine
    else panics

mode_of-mode_bits : {S : Type 0} (m : Mode) (s : S) → mode_of (mode_bits m) s ≡ ok m s
mode_of-mode_bits machine s = refl
mode_of-mode_bits supervisor s = refl
mode_of-mode_bits user s = refl

-- A reading of the mode: the mode of the bits, or a panic on the reserved pattern.
pub data ReadsMode {S : Type 0} (bits : ℕ) (s : S) (r : Outcome S Mode) : Type 0 where
  reads : (m : Mode) → bits ≡ mode_bits m → r ≡ ok m s → ReadsMode bits s r
  reserved : bits ≡ 0b10 → r ≡ panic s → ReadsMode bits s r

below_four : (x : ℕ) → x < 4 → (x ≡ 0) ⊎ ((x ≡ 1) ⊎ ((x ≡ 2) ⊎ (x ≡ 3)))
below_four x h = elim (Bool-cases (x == 0)) [
  | inl e ↦ inl ((==_iff x 0).0 e)
  | inr n0 ↦ elim (Bool-cases (x == 1)) [
    | inl e ↦ inr (inl ((==_iff x 1).0 e))
    | inr n1 ↦ elim (Bool-cases (x == 2)) [
      | inl e ↦ inr (inr (inl ((==_iff x 2).0 e)))
      | inr n2 ↦ inr (inr (inr (ground arith)))
    ]
  ]
]

mode_of-ReadsMode : {S : Type 0} (x : ℕ) (s : S) → x < 4 → ReadsMode x s (mode_of x s)
mode_of-ReadsMode x s h = elim (below_four x h) [
  | inl e ↦ reads user e (rw e refl)
  | inr (inl e) ↦ reads supervisor e (rw e refl)
  | inr (inr (inl e)) ↦ reserved e (rw e refl)
  | inr (inr (inr e)) ↦ reads machine e (rw e refl)
]

-- A reading of a flag in a byte, of which the documentation says that the flag is set if the byte is
-- not zero: so it is read, but that a byte that is not zero and has its lowest bit clear reads as a
-- clear flag.
pub data ReadsFlag {S : Type 0} (byte : ℕ) (s : S) (r : Outcome S Bool) : Type 0 where
  as_documented : r ≡ ok (not (byte == 0)) s → (byte ≢ 0 → byte % 2 ≡ 1) → ReadsFlag byte s r
  other_bits_alone : byte ≢ 0 → byte % 2 ≡ 0 → r ≡ ok false s → ReadsFlag byte s r

bit-ReadsFlag :
    {S : Type 0} (byte : ℕ) (s : S) (r : Outcome S Bool)
    → r ≡ ok (byte % 2 == 1) s
    → ReadsFlag byte s r
bit-ReadsFlag byte s r e = elim (Bool-cases (byte == 0)) [
  | inl z ↦
      let zero_byte : byte ≡ 0 = (==_iff byte 0).0 z in
      as_documented (e ∙ rw zero_byte refl) (λ ne. absurd (ne zero_byte))
  | inr nz ↦ elim (Bool-cases (byte % 2 == 1)) [
    | inl odd ↦ as_documented (e ∙ rw (nz, odd) refl) (λ ne. (==_iff (byte % 2) 1).0 odd)
    | inr even ↦ other_bits_alone (ground arith) (ground arith) (e ∙ rw even refl)
  ]
]

-- The bytes `clicintip` and `clicintie` of the register of an interrupt.
abbrev pub ip_byte : ℕ → ℕ
ip_byte x = x % 2 ^ 8

abbrev pub ie_byte : ℕ → ℕ
ie_byte x = x / 2 ^ 8 % 2 ^ 8

ip_byte_low : (x : ℕ) → bit x 0 ≡ ip_byte x % 2
ip_byte_low x = omega arith

ie_byte_low : (x : ℕ) → bit x 8 ≡ ie_byte x % 2
ie_byte_low x = omega arith

module _ {b : Bus} (w : Words b IsClicReg) (reg : RegApi b) (laws : RegLaws w reg) (number : ℕ)
    (s : b.State) (h : number < 4096) where
  level_read : Intctl.level reg (ctl number) s ≡ ok (config w number s).level s
  unfolding ie ctl Intctl.level
  level_read =
      let x : ℕ = w.peek (ie number) s in
      rw
        (laws.read_bits_lem (ie number) 24 31 s (ie-IsClicReg number h) (omega arith) (omega arith))
        (ap {B = Outcome b.State ℕ} (λ v. ok v s) (level_bits x ∙ sym (value_of-bit 8 24 x)))

  trig_read :
      Intattr.trig reg (attr number) s
      ≡ ok (if (config w number s).edge then Trig.edge else Trig.level) s
  unfolding ie attr Intattr.trig
  trig_read =
      rw (laws.read_bit_lem (ie number) 17 s (ie-IsClicReg number h) (omega arith))
        (continue_if (bit (w.peek (ie number) s) 17 == 1) Trig.edge Trig.level s)

  polarity_read :
      Intattr.polarity reg (attr number) s
      ≡ ok (if (config w number s).negative then Polarity.neg else Polarity.pos) s
  unfolding ie attr Intattr.polarity
  polarity_read =
      rw (laws.read_bit_lem (ie number) 18 s (ie-IsClicReg number h) (omega arith))
        (continue_if (bit (w.peek (ie number) s) 18 == 1) Polarity.neg Polarity.pos s)

  mode_run :
      Intattr.mode reg (attr number) s ≡ mode_of (value_of (bit (w.peek (ie number) s)) 22 2) s
  unfolding ie attr Intattr.mode
  mode_run =
      let x : ℕ = w.peek (ie number) s in
      rw
        (laws.read_bits_lem (ie number) 22 23 s (ie-IsClicReg number h) (omega arith) (omega arith))
        (ap (λ v. mode_of v s) (sym (value_of-bit 2 22 x)))

  mode_read : ReadsMode (config w number s).mode s (Intattr.mode reg (attr number) s)
  mode_read =
      let x : ℕ = w.peek (ie number) s in
      rw mode_run (mode_of-ReadsMode _ s (omega (arith, bit-le_one x 22, bit-le_one x 23)))

  pending_read : Intip.is_pending reg (ip number) s ≡ ok (config w number s).pending s
  unfolding ip ie Intip.is_pending
  pending_read = laws.read_bit_lem _ 0 s (ie-IsClicReg number h) (omega arith)

  enabled_read : Intie.is_enabled reg (ie number) s ≡ ok (config w number s).enabled s
  unfolding Intie.is_enabled
  enabled_read = laws.read_bit_lem _ 8 s (ie-IsClicReg number h) (omega arith)

  flag_read :
      (byte f : ℕ) (r : Outcome b.State Bool)
      → f ≡ byte % 2
      → r ≡ ok (f == 1) s
      → ReadsFlag byte s r
  flag_read byte f r low e =
      bit-ReadsFlag byte s r (e ∙ ap {B = Outcome b.State Bool} (λ v. ok (v == 1) s) low)

  -- For an interrupt below 4096, each reading operation of the CLIC driver returns the part of the
  -- interrupt's configuration that it is named for, and changes nothing; but `mode` panics on the
  -- reserved pattern 0b10, and only on it. The bytes of the two flags that are documented to mean a
  -- set flag if they are not zero are read so, but where the lowest bit is clear and another is not:
  -- then the flag reads as clear.
  pub reads-config :
      (Intip.is_pending reg (ip number) s ≡ ok (config w number s).pending s)
      × (Intie.is_enabled reg (ie number) s ≡ ok (config w number s).enabled s)
      × (Intattr.shv reg (attr number) s ≡ ok (config w number s).shv s)
      × (Intctl.level reg (ctl number) s ≡ ok (config w number s).level s)
      × (Intattr.trig reg (attr number) s
          ≡ ok (if (config w number s).edge then Trig.edge else Trig.level) s)
      × (Intattr.polarity reg (attr number) s
          ≡ ok (if (config w number s).negative then Polarity.neg else Polarity.pos) s)
      × ReadsMode (config w number s).mode s (Intattr.mode reg (attr number) s)
      × ReadsFlag (ip_byte (w.peek (ie number) s)) s (Intip.is_pending reg (ip number) s)
      × ReadsFlag (ie_byte (w.peek (ie number) s)) s (Intie.is_enabled reg (ie number) s)
  unfolding ie attr Intattr.shv
  reads-config = (
    pending_read,
    enabled_read,
    laws.read_bit_lem _ 16 s (ie-IsClicReg number h) (omega arith),
    level_read,
    trig_read,
    polarity_read,
    mode_read,
    flag_read _ _ _ (ip_byte_low (w.peek (ie number) s)) pending_read,
    flag_read _ _ _ (ie_byte_low (w.peek (ie number) s)) enabled_read,
  )
