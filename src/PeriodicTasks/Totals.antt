-- ===== src/PeriodicTasks/Totals.antt =====
-- The sums that examples/periodic_tasks/src/main.rs prints, and the check that follows them.
use atalanta.Prelude.{
  ℕ, ◌+◌, ◌*◌, ◌^◌, ◌<◌, ◌≤◌, ◌≡◌, refl, Bool, true, not, ◌&&◌, ◌||◌, inl, inr, Bool-cases, arith,
  ltb, u32, if◌then◌else◌,
}
use atalanta.Machine.{M, ok, panic, pure, assert_yes, assert_no, ◌>>=◌, ◌>>◌}
use atalanta.PeriodicTasks.{Statics, checked, task0, task1, task2, task3}
use atalanta.PeriodicTasks.Main.{totals, check_counts}
use atalanta.PeriodicTasks.Counts.{is_right, check_counts_lem, checked_room}

-- Each count is that of the task's periods in the test, or one less.
abbrev pub are_right : ℕ → Statics → Bool
are_right test_ns v =
    is_right test_ns v.task0_count task0
    && (is_right test_ns v.task1_count task1
        && (is_right test_ns v.task2_count task2 && is_right test_ns v.task3_count task3))

-- The sums that are printed, and the check.
abbrev pub sum_check : {S : Type 0} → Bool → ℕ → Statics → M S Unit
sum_check debug test_ns v = do totals debug v; check_counts debug test_ns v

module _ {S : Type 0} (debug : Bool) (test_ns : ℕ) (s : S) (v : Statics) where
  -- A number, or a panic in the same state.
  data Tries (m : M S ℕ) : Type 0 where
    returned : (x : ℕ) → m s ≡ ok x s → Tries m
    panicked : m s ≡ panic s → Tries m

  checked-Tries : (x : ℕ) → Tries (checked debug x)
  checked-Tries x = elim (Bool-cases (not debug || ltb x (2 ^ 32))) [
    | inl e ↦ returned (u32 x) (assert_yes _ (pure (u32 x)) s e)
    | inr e ↦ panicked (assert_no _ (pure (u32 x)) s e)
  ]

  then-Tries : (m : M S ℕ) (k : ℕ → M S ℕ) → Tries m → ((x : ℕ) → Tries (k x)) → Tries (m >>= k)
  then-Tries m k (returned x e) rest = elim (rest x) [
    | returned y f ↦ returned y (rw e f)
    | panicked f ↦ panicked (rw e f)
  ]
  then-Tries m k (panicked e) rest = panicked (rw e refl)

  totals-Tries : Tries (totals debug v)
  unfolding totals
  totals-Tries = then-Tries _ _ (checked-Tries _) λ t0. then-Tries _ _ (checked-Tries _) λ t1.
      then-Tries _ _ (checked-Tries _) λ t2. then-Tries _ _ (checked-Tries _) λ t3.
        then-Tries _ _ (checked-Tries _)
          λ t01. then-Tries _ _ (checked-Tries _) λ t012. checked-Tries _

  -- Right counts are so small that no sum overflows.
  right_small :
      test_ns < 2 ^ 32
      → are_right test_ns v ≡ true
      → 2500 * v.task0_count + 1250 * v.task1_count + 500 * v.task2_count + 250 * v.task3_count
        < 2 ^ 32
  right_small fits e = ground arith

  right_totals :
      test_ns < 2 ^ 32 → are_right test_ns v ≡ true → (x : ℕ) × (totals debug v s ≡ ok x s)
  unfolding totals
  right_totals fits e =
      let small = right_small fits e in
      let t0 : ℕ = 2500 * v.task0_count in
      let t1 : ℕ = 1250 * v.task1_count in
      let t2 : ℕ = 500 * v.task2_count in
      let t3 : ℕ = 250 * v.task3_count in
      (
        t0 + t1 + t2 + t3,
        rw
            (
              checked_room debug t0 s (omega arith),
              checked_room debug t1 s (omega arith),
              checked_room debug t2 s (omega arith),
              checked_room debug t3 s (omega arith),
              checked_room debug (t0 + t1) s (omega arith),
              checked_room debug (t0 + t1 + t2) s (omega arith),
            )
            (checked_room debug (t0 + t1 + t2 + t3) s (omega arith)),
      )

  -- The sums change nothing in the verdict: where one overflows, the counts are wrong.
  pub sum_check_lem :
      task0.period_ns ≤ test_ns
      → test_ns < 2 ^ 32
      → sum_check debug test_ns v s ≡ (if are_right test_ns v then ok tt s else panic s)
  sum_check_lem long fits =
      let check = check_counts_lem debug test_ns s v long fits in
      elim (Bool-cases (are_right test_ns v)) [
        | inl e ↦ let (x, h) = right_totals fits e in rw h check
        | inr e ↦ elim totals-Tries [ returned x h ↦ rw h check | panicked h ↦ rw (h, e) refl ]
      ]
