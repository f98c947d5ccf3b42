-- ===== src/TimerGroup/Period.antt =====
-- The period of a timer: examples/atalanta-bsp/src/timer_group.rs.
use atalanta.Prelude.{
  ℕ, ◌+◌, ◌/◌, ◌^◌, ◌≤◌, ◌<◌, ◌≡◌, ◌≢◌, refl, ◌∙◌, Bool, true, false, not, arith, bit_and, leb,
  ◌==◌,
}
use atalanta.Machine.{Bus, M, Outcome, ok, assert_yes, ◌>>◌}
use atalanta.Mmap.{timer_cnt, timer_cmp, cfg_base, periph_clk_div_ofs}
use atalanta.TimerGroup.{set_cmp, set_counter, check_counter, set_period_offset}

abbrev clk_div_reg : ℕ
clk_div_reg = cfg_base + periph_clk_div_ofs

-- What the driver relies on of a timer that is not counting: a write of the compare value also
-- zeroes the count.
pub record ApbTimer (b : Bus) (ptr : ℕ) : Type 0 where
  pub cnt : b.State → ℕ
  pub cmp : b.State → ℕ
  pub store_cmp_cmp : (v : ℕ) (s : b.State) → v < 2 ^ 32 → cmp (b.store32 (timer_cmp ptr) v s) ≡ v
  pub store_cmp_cnt : (v : ℕ) (s : b.State) → v < 2 ^ 32 → cnt (b.store32 (timer_cmp ptr) v s) ≡ 0
  pub store_cnt_cmp :
      (v : ℕ) (s : b.State) → v < 2 ^ 32 → cmp (b.store32 (timer_cnt ptr) v s) ≡ cmp s
  pub store_cnt_cnt : (v : ℕ) (s : b.State) → v < 2 ^ 32 → cnt (b.store32 (timer_cnt ptr) v s) ≡ v
  pub cmp_value : (s : b.State) → b.value32 (timer_cmp ptr) s ≡ cmp s
  pub cmp_quiet : (s : b.State) → b.after_read32 (timer_cmp ptr) s ≡ s

module _ {b : Bus} {ptr : ℕ} (t : ApbTimer b ptr) where
  -- A run returns, with the compare value `c` and the count `n`.
  pub record Counts (c n : ℕ) (r : Outcome b.State Unit) : Type 0 where
    pub after : b.State
    pub returns : r ≡ ok tt after
    pub compare : t.cmp after ≡ c
    pub count : t.cnt after ≡ n

  set_counter-Counts :
      (debug : Bool) (n : ℕ) (s : b.State)
      → n < 2 ^ 32
      → n ≤ t.cmp s
      → Counts (t.cmp s) n (set_counter b debug ptr n s)
  unfolding set_counter check_counter
  set_counter-Counts true n s h le =
      let test : leb n (t.cmp s) ≡ true = ground arith in
      rw (t.cmp_value s, t.cmp_quiet s, test)
        (record {
          after = b.store32 (timer_cnt ptr) n s;
          returns = refl;
          compare = t.store_cnt_cmp n s h;
          count = t.store_cnt_cnt n s h;
        })
  set_counter-Counts false n s h le = record {
    after = b.store32 (timer_cnt ptr) n s;
    returns = refl;
    compare = t.store_cnt_cmp n s h;
    count = t.store_cnt_cnt n s h;
  }

  module _ (debug : Bool) (period offset : ℕ) (s : b.State) where
    abbrev pub divider : ℕ
    divider = bit_and (b.value8 clk_div_reg s) 0xf

    abbrev compared : b.State
    compared = b.store32 (timer_cmp ptr) (period / divider) (b.after_read8 clk_div_reg s)

    abbrev commit : M b.State Unit
    commit = do set_cmp b ptr (period / divider); set_counter b debug ptr (offset / divider)

    period_run :
        divider ≢ 0
        → set_period_offset b debug ptr period offset s
          ≡ set_counter b debug ptr (offset / divider) compared
    unfolding set_period_offset set_cmp
    period_run nonzero =
        assert_yes (not (divider == 0)) commit (b.after_read8 clk_div_reg s) (ground arith)

    -- With a divider that is not zero, and an offset that is not beyond the period once both are
    -- divided, `set_period_offset` returns in every build, with the compare value at the divided
    -- period and the count at the divided offset.
    pub set_period_offset-Counts :
        divider ≢ 0
        → period / divider < 2 ^ 32
        → offset / divider ≤ period / divider
        → Counts
            (period / divider)
            (offset / divider)
            (set_period_offset b debug ptr period offset s)
    set_period_offset-Counts nonzero fits le =
        let same = t.store_cmp_cmp (period / divider) (b.after_read8 clk_div_reg s) fits in
        let run =
          set_counter-Counts debug (offset / divider) compared (omega arith)
            (omega (arith, same)) in
        rw (period_run nonzero) (record {
          after = run.after;
          returns = run.returns;
          compare = run.compare ∙ same;
          count = run.count;
        })
