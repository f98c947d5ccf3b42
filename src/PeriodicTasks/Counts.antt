-- ===== src/PeriodicTasks/Counts.antt =====
-- The counts of examples/periodic_tasks/src/main.rs: how the handlers keep them, and what the
-- program asserts of them.
use atalanta.Prelude.{
  ℕ, ◌+◌, ◌-◌, ◌/◌, ◌^◌, ◌≤◌, ◌<◌, ◌≡◌, refl, ◌∙◌, ap, ◌&&◌, if◌then◌else◌, Bool, true, false, not,
  ◌||◌, List, [], ◌∷◌, length, arith, leb, ltb, u32,
}
use atalanta.Machine.{M, Outcome, ok, panic, pure, assert, ◌>>◌}
use atalanta.Machine.Statics.{lift}
use atalanta.Delay.{asm_delay, asm_delay-Waits}
use atalanta.PeriodicTasks.{
  Task, task0, task1, task2, task3, Statics, checked, nop_cnt, timer0_cmp_handler,
  timer1_cmp_handler, timer2_cmp_handler, timer3_cmp_handler,
}
use atalanta.PeriodicTasks.Main.{check_count, check_counts}

-- The interrupts of the tasks, in the order in which they are handled.
pub data Event : Type 0 where
  cmp0 cmp1 cmp2 cmp3 : Event

-- The statics after an event.
abbrev pub after_event : Event → Statics → Statics
after_event cmp0 v = record v { task0_count = v.task0_count + 1 }
after_event cmp1 v = record v { task1_count = v.task1_count + 1 }
after_event cmp2 v = record v { task2_count = v.task2_count + 1 }
after_event cmp3 v = record v { task3_count = v.task3_count + 1 }

-- How often each of the tasks' handlers runs.
abbrev pub hit0 : Event → ℕ
hit0 cmp0 = 1
hit0 _ = 0

abbrev pub hit1 : Event → ℕ
hit1 cmp1 = 1
hit1 _ = 0

abbrev pub hit2 : Event → ℕ
hit2 cmp2 = 1
hit2 _ = 0

abbrev pub hit3 : Event → ℕ
hit3 cmp3 = 1
hit3 _ = 0

abbrev pub sum : (Event → ℕ) → List Event → ℕ
sum f [] = 0
sum f (e ∷ es) = f e + sum f es

abbrev pub tally : List Event → Statics → Statics
tally es v = record {
  task0_count = v.task0_count + sum hit0 es;
  task1_count = v.task1_count + sum hit1 es;
  task2_count = v.task2_count + sum hit2 es;
  task3_count = v.task3_count + sum hit3 es;
  timeout = v.timeout;
}

pub counts_eq :
    (v u : Statics)
    → v.task0_count ≡ u.task0_count
    → v.task1_count ≡ u.task1_count
    → v.task2_count ≡ u.task2_count
    → v.task3_count ≡ u.task3_count
    → v.timeout ≡ u.timeout
    → v ≡ u
counts_eq v u e0 e1 e2 e3 e =
    ap (λ x. record v { task0_count = x }) e0
    ∙ ap (λ x. record v { task0_count = u.task0_count; task1_count = x }) e1
    ∙ ap
        (λ x. record v {
          task0_count = u.task0_count;
          task1_count = u.task1_count;
          task2_count = x;
        })
        e2
    ∙ ap (λ x. record u { task3_count = x; timeout = v.timeout }) e3
    ∙ ap (λ x. record u { timeout = x }) e

tally_none : (v : Statics) → v ≡ tally [] v
tally_none v = counts_eq v (tally [] v) (omega arith) (omega arith) (omega arith) (omega arith) refl

tally-after_event :
    (e : Event) (es : List Event) (v : Statics) → tally es (after_event e v) ≡ tally (e ∷ es) v
tally-after_event cmp0 es v =
    counts_eq _ _ (omega arith) (omega arith) (omega arith) (omega arith) refl
tally-after_event cmp1 es v =
    counts_eq _ _ (omega arith) (omega arith) (omega arith) (omega arith) refl
tally-after_event cmp2 es v =
    counts_eq _ _ (omega arith) (omega arith) (omega arith) (omega arith) refl
tally-after_event cmp3 es v =
    counts_eq _ _ (omega arith) (omega arith) (omega arith) (omega arith) refl

-- Every count has room for `n` more.
pub record HasRoom (n : ℕ) (v : Statics) : Type 0 where
  pub room0 : v.task0_count + n < 2 ^ 32
  pub room1 : v.task1_count + n < 2 ^ 32
  pub room2 : v.task2_count + n < 2 ^ 32
  pub room3 : v.task3_count + n < 2 ^ 32

first_room : (e : Event) (es : List Event) (v : Statics) → HasRoom (length (e ∷ es)) v → HasRoom 1 v
first_room e es v h = record {
  room0 = omega arith;
  room1 = omega arith;
  room2 = omega arith;
  room3 = omega arith;
}

rest_room :
    (e : Event) (es : List Event) (v : Statics)
    → HasRoom (length (e ∷ es)) v
    → HasRoom (length es) (after_event e v)
rest_room cmp0 es v h = record {
  room0 = omega arith;
  room1 = omega arith;
  room2 = omega arith;
  room3 = omega arith;
}
rest_room cmp1 es v h = record {
  room0 = omega arith;
  room1 = omega arith;
  room2 = omega arith;
  room3 = omega arith;
}
rest_room cmp2 es v h = record {
  room0 = omega arith;
  room1 = omega arith;
  room2 = omega arith;
  room3 = omega arith;
}
rest_room cmp3 es v h = record {
  room0 = omega arith;
  room1 = omega arith;
  room2 = omega arith;
  room3 = omega arith;
}

pub checked_room :
    {S : Type 0} (debug : Bool) (x : ℕ) (s : S) → x < 2 ^ 32 → checked debug x s ≡ ok x s
checked_room debug x s h =
    let test : (not debug || ltb x (2 ^ 32)) ≡ true = ground arith in
    let same : u32 x ≡ x = omega arith in rw (test, same) refl

module _ {S : Type 0} (wait : S → S) (rtl_tb debug : Bool) where
  abbrev pub handle : Event → M (S × Statics) Unit
  handle cmp0 = timer0_cmp_handler wait rtl_tb debug
  handle cmp1 = timer1_cmp_handler wait rtl_tb debug
  handle cmp2 = timer2_cmp_handler wait rtl_tb debug
  handle cmp3 = timer3_cmp_handler wait rtl_tb debug

  abbrev pub handle_all : List Event → M (S × Statics) Unit
  handle_all [] = pure tt
  handle_all (e ∷ es) = do handle e; handle_all es

  -- A run returns with the statics `v`.
  pub record Counted (v : Statics) (r : Outcome (S × Statics) Unit) : Type 0 where
    pub devices : S
    pub returns : r ≡ ok tt (devices, v)

  pub work-Counted : (n : ℕ) (s : S) (v : Statics) → Counted v (lift (asm_delay wait n) (s, v))
  work-Counted n s v =
      let d = asm_delay-Waits (λ (s : S). tt {0}) wait (λ s. refl) n s in
      record { devices = d.after; returns = rw d.returns refl }

  handle-Counted :
      (e : Event) (s : S) (v : Statics) → HasRoom 1 v → Counted (after_event e v) (handle e (s, v))
  unfolding timer0_cmp_handler timer1_cmp_handler timer2_cmp_handler timer3_cmp_handler
  handle-Counted cmp0 s v h =
      rw (checked_room {S = S × Statics} debug (v.task0_count + 1) (s, v) h.room0)
        (work-Counted (nop_cnt rtl_tb task0) s _)
  handle-Counted cmp1 s v h =
      rw (checked_room {S = S × Statics} debug (v.task1_count + 1) (s, v) h.room1)
        (work-Counted (nop_cnt rtl_tb task1) s _)
  handle-Counted cmp2 s v h =
      rw (checked_room {S = S × Statics} debug (v.task2_count + 1) (s, v) h.room2)
        (work-Counted (nop_cnt rtl_tb task2) s _)
  handle-Counted cmp3 s v h =
      rw (checked_room {S = S × Statics} debug (v.task3_count + 1) (s, v) h.room3)
        (work-Counted (nop_cnt rtl_tb task3) s _)

  -- Whatever the order in which the handlers of the four timers run, and as long as no count can
  -- overflow, they return; each count has grown by the number of the runs of its own handler, and
  -- the timeout is as before.
  pub handle_all-Counted :
      (es : List Event) (s : S) (v : Statics)
      → HasRoom (length es) v
      → Counted (tally es v) (handle_all es (s, v))
  handle_all-Counted [] s v h = record {
    devices = s;
    returns = ap (λ x. ok tt (s, x)) (tally_none v);
  }
  handle_all-Counted (e ∷ es) s v h =
      let one = handle-Counted e s v (first_room e es v h) in
      let rest = handle_all-Counted es one.devices (after_event e v) (rest_room e es v h) in
      rw one.returns (record {
        devices = rest.devices;
        returns = rest.returns ∙ ap (λ x. ok tt (rest.devices, x)) (tally-after_event e es v);
      })

-- A count that the program takes for right: that of the periods which fit into the test, or one
-- less.
abbrev pub is_right : ℕ → ℕ → Task → Bool
is_right test_ns count task =
    leb (test_ns / task.period_ns) (count + 1) && leb count (test_ns / task.period_ns)

module _ {S : Type 0} (debug : Bool) (test_ns : ℕ) (s : S) where
  one_less :
      (x count : ℕ) → 1 ≤ x → x < 2 ^ 32 → leb (u32 (x + 2 ^ 32 - 1)) count ≡ leb x (count + 1)
  one_less x count h fits =
      let e : u32 (x + 2 ^ 32 - 1) ≡ x - 1 = omega arith in rw e (ground arith)

  checks :
      (x y z : Bool)
      → x ≡ true
      → (assert x >> (assert y >> assert z)) s ≡ (if y && z then ok tt s else panic s)
  checks true true true e = refl
  checks true true false e = refl
  checks true false z e = refl
  checks false y z e = cc

  check_count_lem :
      (count : ℕ) (task : Task)
      → 1 ≤ test_ns / task.period_ns
      → test_ns / task.period_ns < 2 ^ 32
      → check_count debug test_ns count task s
        ≡ (if is_right test_ns count task then ok tt s else panic s)
  unfolding check_count
  check_count_lem count task h fits =
      let x : ℕ = test_ns / task.period_ns in
      checks (not debug || leb 1 x) (leb (u32 (x + 2 ^ 32 - 1)) count) (leb count x) (ground arith)
      ∙ (rw (one_less x count h fits) refl)

  four :
      (x y z u : Bool) (k l m n : M S (Unit {0}))
      → k s ≡ (if x then ok tt s else panic s)
      → l s ≡ (if y then ok tt s else panic s)
      → m s ≡ (if z then ok tt s else panic s)
      → n s ≡ (if u then ok tt s else panic s)
      → (k >> (l >> (m >> n))) s ≡ (if x && (y && (z && u)) then ok tt s else panic s)
  four true true true u k l m n e f g h = rw (e, f, g) h
  four true true false u k l m n e f g h = rw (e, f, g) refl
  four true false z u k l m n e f g h = rw (e, f) refl
  four false y z u k l m n e f g h = rw e refl

  -- For a test of at least the longest period, the assertions at the end of the program pass if
  -- the count of each task is that of its periods in the test, or one less; if not, they panic.
  pub check_counts_lem :
      (v : Statics)
      → task0.period_ns ≤ test_ns
      → test_ns < 2 ^ 32
      → check_counts debug test_ns v s ≡ (
          if is_right test_ns v.task0_count task0
            && (is_right test_ns v.task1_count task1
                && (is_right test_ns v.task2_count task2 && is_right test_ns v.task3_count task3))
          then ok tt s
          else panic s)
  unfolding check_counts
  check_counts_lem v h fits =
      four _ _ _ _ (check_count debug test_ns v.task0_count task0)
        (check_count debug test_ns v.task1_count task1)
        (check_count debug test_ns v.task2_count task2)
        (check_count debug test_ns v.task3_count task3)
        (check_count_lem v.task0_count task0 (omega arith) (omega arith))
        (check_count_lem v.task1_count task1 (omega arith) (omega arith))
        (check_count_lem v.task2_count task2 (omega arith) (omega arith))
        (check_count_lem v.task3_count task3 (omega arith) (omega arith))
