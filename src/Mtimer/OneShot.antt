-- ===== src/Mtimer/OneShot.antt =====
-- The one-shot timer of examples/atalanta-bsp/src/mtimer.rs.
use atalanta.Prelude.{
  ℕ, ◌+◌, ◌/◌, ◌^◌, ◌≤◌, ◌<◌, ◌≡◌, ◌≢◌, refl, ◌∙◌, ap, Bool, true, arith, bit, bit_and, bit_or,
  bit-bit_or, bit_or-lt, bit-le_one, u32, u64, ◌==◌, ltb, not, ◌||◌, ◌⊎◌, inl, inr,
}
use atalanta.Machine.{Bus, M, Outcome, ok, panic, assert, assert_yes, assert_no, ◌>>◌}
use atalanta.Machine.Bank.{Words}
use atalanta.Access.Masks.{mask_u32_run}
use atalanta.Mmap.{cfg_base, periph_clk_div_ofs}
use atalanta.Mtimer.{set_cmp, start, enable}
use atalanta.Mtimer.Counters.{Count, count_read, behind, counter_run}
use atalanta.Mtimer.Compare.{
  IsMtimerReg, compare_value, ctrl, cmp_low, cmp_high, third, third_value,
}

abbrev clk_div_reg : ℕ
clk_div_reg = cfg_base + periph_clk_div_ofs

module _ {b : Bus} (w : Words b IsMtimerReg) where
  -- A run returns with compare value `c`, and the timer enabled.
  pub record Scheduled (c : ℕ) (r : Outcome b.State Unit) : Type 0 where
    pub after : b.State
    pub returns : r ≡ ok tt after
    pub value : compare_value w after ≡ c
    pub enabled : bit (w.peek ctrl after) 0 ≡ 1

  -- The state that `set_cmp` leaves.
  abbrev compared : ℕ → b.State → b.State
  compared c s = third w s (u32 (c / 2 ^ 32)) (u32 c) (omega arith) (omega arith)

  set_cmp_run : (c : ℕ) (s : b.State) → set_cmp b c s ≡ ok tt (compared c s)
  unfolding set_cmp
  set_cmp_run c s = refl

  compared_value : (c : ℕ) (s : b.State) → c < 2 ^ 64 → compare_value w (compared c s) ≡ c
  compared_value c s h =
      omega (arith, third_value w s (u32 (c / 2 ^ 32)) (u32 c) (omega arith) (omega arith))

  enable-Scheduled : (c : ℕ) (s : b.State) → compare_value w s ≡ c → Scheduled c (enable b s)
  unfolding enable
  enable-Scheduled c s e =
      let word : ℕ = bit_or (w.peek ctrl s) 1 in
      let fits : word < 2 ^ 32 = bit_or-lt 32 _ 1 (w.peek-lt ctrl s refl) (omega arith) in
      rw (mask_u32_run w ctrl s refl 1) (record {
        after = b.store32 ctrl word s;
        returns = refl;
        value = omega (
          arith,
          w.peek-store32 ctrl word cmp_high s refl refl fits,
          w.peek-store32 ctrl word cmp_low s refl refl fits,
        );
        enabled =
            ap (λ x. bit x 0) (w.peek-store32 ctrl word ctrl s refl refl fits)
            ∙ bit-bit_or (w.peek ctrl s) 1 0
            ∙ omega (arith, bit-le_one (w.peek ctrl s) 0);
      })

  module _ (c : Count b) (s : b.State) (debug : Bool) (ticks : ℕ) where
    -- The divider that `start` reads, the count that it reads next, and the state after both.
    abbrev pub divider : ℕ
    divider = bit_and (b.value8 clk_div_reg s) 0xf

    abbrev pub count : ℕ
    count = count_read c (b.after_read8 clk_div_reg s)

    abbrev pub read : b.State
    read = behind c (b.after_read8 clk_div_reg s)

    abbrev divides : Bool
    divides = not (divider == 0)

    abbrev in_range : Bool
    in_range = not debug || ltb (count + ticks / divider) (2 ^ 64)

    abbrev commit : M b.State Unit
    commit = do set_cmp b (u64 (count + ticks / divider)); enable b

    start_run : start b debug ticks s ≡ (assert divides >> (assert in_range >> commit)) read
    unfolding start
    start_run = rw (counter_run c (b.after_read8 clk_div_reg s))

    nonzero_passes :
        divider ≢ 0
        → (assert divides >> (assert in_range >> commit)) read ≡ (assert in_range >> commit) read
    nonzero_passes h = assert_yes divides (assert in_range >> commit) read (ground arith)

    fits_passes :
        count + ticks / divider < 2 ^ 64
        → (assert in_range >> commit) read ≡ enable b (compared (count + ticks / divider) read)
    fits_passes h =
        let same : u64 (count + ticks / divider) ≡ count + ticks / divider = omega arith in
        assert_yes in_range commit read (ground arith)
        ∙ (rw (set_cmp_run (u64 (count + ticks / divider)) read, same))

    -- With a divider that is not zero, `start` schedules the interrupt at the count plus the
    -- duration over the divider, if that fits 64 bits, and enables the timer.
    pub start-Scheduled :
        divider ≢ 0
        → count + ticks / divider < 2 ^ 64
        → Scheduled (count + ticks / divider) (start b debug ticks s)
    start-Scheduled nonzero fits =
        rw (start_run, nonzero_passes nonzero, fits_passes fits)
          (enable-Scheduled _ _ (compared_value (count + ticks / divider) read fits))

    start-divider_zero : divider ≡ 0 → start b debug ticks s ≡ panic read
    start-divider_zero zero =
        start_run ∙ assert_no divides (assert in_range >> commit) read (ground arith)

    start_overflow :
        divider ≢ 0
        → 2 ^ 64 ≤ count + ticks / divider
        → debug ≡ true
        → start b debug ticks s ≡ panic read
    start_overflow nonzero over d =
        start_run ∙ nonzero_passes nonzero ∙ assert_no in_range commit read (ground arith)

    -- With a divider of zero `start` panics in every build, and where the sum does not fit 64 bits it
    -- panics in a debug build; both before it writes anything.
    pub start_panics :
        (divider ≡ 0) ⊎ ((divider ≢ 0) × (2 ^ 64 ≤ count + ticks / divider) × (debug ≡ true))
        → start b debug ticks s ≡ panic read
    start_panics (inl zero) = start-divider_zero zero
    start_panics (inr (nonzero, over, d)) = start_overflow nonzero over d
