-- ===== src/Mtimer/Compare.antt =====
-- The compare value of examples/atalanta-bsp/src/mtimer.rs.
use atalanta.Prelude.{
  ℕ, ◌+◌, ◌*◌, ◌/◌, ◌^◌, ◌≤◌, ◌<◌, min, ◌≡◌, refl, ◌∙◌, true, ◌||◌, ◌==◌, List, [], ◌∷◌, All, arith,
  u32, u32_max,
}
use atalanta.Machine.{Bus, Outcome, ok}
use atalanta.Machine.Bank.{Words}
use atalanta.Machine.Logged.{logged}
use atalanta.Mmap.{mtimer_base, mtimecmp_low_addr_ofs, mtimecmp_high_addr_ofs, mtime_ctrl_addr_ofs}
use atalanta.Mtimer.{set_cmp, set_cmp_lo}

abbrev pub cmp_low : ℕ
cmp_low = mtimer_base + mtimecmp_low_addr_ofs

abbrev pub cmp_high : ℕ
cmp_high = mtimer_base + mtimecmp_high_addr_ofs

abbrev pub ctrl : ℕ
ctrl = mtimer_base + mtime_ctrl_addr_ofs

-- The compare value and the control word are storage.
abbrev pub IsMtimerReg : ℕ → Type 0
IsMtimerReg a = (a == cmp_low || (a == cmp_high || a == ctrl)) ≡ true

module _ {b : Bus} (w : Words b IsMtimerReg) where
  -- What the timer compares the count with.
  abbrev pub compare_value : b.State → ℕ
  compare_value s = w.peek cmp_high s * 2 ^ 32 + w.peek cmp_low s

  -- A run from `s` that kept its states returns with the compare value `c` and the control word as
  -- before; after none of its writes was the compare value below both the old one and `c`.
  pub record SetsCompare (c : ℕ) (s : b.State) (r : Outcome (logged b).State Unit) : Type 0 where
    pub after : b.State
    pub log : List b.State
    pub returns : r ≡ ok tt (after, log)
    pub value : compare_value after ≡ c
    pub never_below : All (λ t. min (compare_value s) c ≤ compare_value t) log
    pub control : w.peek ctrl after ≡ w.peek ctrl s

  -- The writes of the low word's largest value, of the high word and of the low word.
  module _ (s : b.State) (h l : ℕ) (hh : h < 2 ^ 32) (hl : l < 2 ^ 32) where
    abbrev pub first : b.State
    first = b.store32 cmp_low u32_max s

    abbrev pub second : b.State
    second = b.store32 cmp_high h first

    abbrev pub third : b.State
    third = b.store32 cmp_low l second

    first_value : compare_value first ≡ w.peek cmp_high s * 2 ^ 32 + u32_max
    first_value = omega (
      arith,
      w.peek-store32 cmp_low u32_max cmp_high s refl refl (omega arith),
      w.peek-store32 cmp_low u32_max cmp_low s refl refl (omega arith),
    )

    second_value : compare_value second ≡ h * 2 ^ 32 + u32_max
    second_value = omega (
      arith,
      w.peek-store32 cmp_high h cmp_high first refl refl hh,
      w.peek-store32 cmp_high h cmp_low first refl refl hh,
      w.peek-store32 cmp_low u32_max cmp_low s refl refl (omega arith),
    )

    pub third_value : compare_value third ≡ h * 2 ^ 32 + l
    third_value = omega (
      arith,
      w.peek-store32 cmp_low l cmp_high second refl refl hl,
      w.peek-store32 cmp_low l cmp_low second refl refl hl,
      w.peek-store32 cmp_high h cmp_high first refl refl hh,
    )

    third_control : w.peek ctrl third ≡ w.peek ctrl s
    third_control =
        w.peek-store32 cmp_low l ctrl second refl refl hl
        ∙ w.peek-store32 cmp_high h ctrl first refl refl hh
        ∙ w.peek-store32 cmp_low u32_max ctrl s refl refl (omega arith)

    three_writes :
        (c : ℕ) → c ≡ h * 2 ^ 32 + l → SetsCompare c s (ok tt (third, third ∷ second ∷ first ∷ []))
    three_writes c e = record {
      after = third;
      log = third ∷ second ∷ first ∷ [];
      returns = refl;
      value = omega (arith, third_value);
      never_below = (
        omega (arith, third_value),
        (omega (arith, second_value), (omega (arith, first_value, w.peek-lt cmp_low s refl), tt)),
      );
      control = third_control;
    }

  -- `MTimer::set_cmp` of a 64-bit value, and `MTimerLo::set_cmp` of a 32-bit value, return and set
  -- the compare value to it, and on the way the compare value is never below both the old and the new
  -- one; the control word is as before.
  pub set_cmp-SetsCompare :
      (c d : ℕ) (s : b.State)
      → c < 2 ^ 64
      → d < 2 ^ 32
      → SetsCompare c s (set_cmp (logged b) c (s, []))
        × SetsCompare d s (set_cmp_lo (logged b) d (s, []))
  unfolding set_cmp set_cmp_lo
  set_cmp-SetsCompare c d s fits low = (
    three_writes s (u32 (c / 2 ^ 32)) (u32 c) (omega arith) (omega arith) c (omega arith),
    three_writes s 0 (u32 d) (omega arith) (omega arith) d (omega arith),
  )
