-- ===== src/PeriodicTasks/Run.antt =====
-- A test of examples/periodic_tasks/src/main.rs, from the wait for the timeout to the assertions on
-- the counts, with the interrupts that run in it.
use atalanta.Prelude.{
  ℕ, ◌+◌, ◌^◌, ◌<◌, ◌≤◌, ◌≡◌, refl, ◌∙◌, ap, Bool, true, false, List, [], ◌∷◌, ◌++◌, length,
  length-append, arith, if◌then◌else◌,
}
use atalanta.Machine.{Bus, M, Outcome, ok, panic, pure, ◌>>=◌, ◌>>◌}
use atalanta.Machine.Bank.{Words}
use atalanta.Machine.Reg.{RegApi, RegLaws}
use atalanta.Machine.Statics.{statics}
use atalanta.Clic.Spec.{unpend}
use atalanta.Clic.State.{IsClicReg}
use atalanta.Clic.Sequence.{IsAllowed, run_all, run_all-Tabulates}
use atalanta.Mtimer
use atalanta.TimerGroup
use atalanta.Interrupt.{number, machine_timer, timer0_cmp, timer1_cmp, timer2_cmp, timer3_cmp}
use atalanta.Interrupt.Numbers.{number-lt}
use atalanta.PeriodicTasks.{Statics, task0, stop_timers, unpend_all, machine_timer_handler}
use atalanta.PeriodicTasks.Main.{wait_timeout}
use atalanta.PeriodicTasks.Totals.{are_right, sum_check, sum_check_lem}
use atalanta.PeriodicTasks.Counts.{
  Event, hit0, hit1, hit2, hit3, sum, tally, counts_eq, HasRoom, handle_all, Counted,
  handle_all-Counted,
}

-- The events of a wait: those of each `wfi`, and those of the one in which the time is up.
abbrev pub events : List (List Event) → List Event → List Event
events [] last = last
events (es ∷ ess) last = es ++ events ess last

sum-append : (f : Event → ℕ) (es fs : List Event) → sum f (es ++ fs) ≡ sum f es + sum f fs
sum-append f [] fs = omega arith
sum-append f (e ∷ es) fs = omega (arith, sum-append f es fs)

tally-append : (es fs : List Event) (v : Statics) → tally fs (tally es v) ≡ tally (es ++ fs) v
tally-append es fs v =
    counts_eq _ _ (omega (arith, sum-append hit0 es fs)) (omega (arith, sum-append hit1 es fs))
      (omega (arith, sum-append hit2 es fs)) (omega (arith, sum-append hit3 es fs)) refl

hit-le :
    (es : List Event)
    → (sum hit0 es ≤ length es)
      × (sum hit1 es ≤ length es)
      × (sum hit2 es ≤ length es)
      × (sum hit3 es ≤ length es)
hit-le [] = omega arith
hit-le (Event.cmp0 ∷ es) = omega (arith, hit-le es)
hit-le (Event.cmp1 ∷ es) = omega (arith, hit-le es)
hit-le (Event.cmp2 ∷ es) = omega (arith, hit-le es)
hit-le (Event.cmp3 ∷ es) = omega (arith, hit-le es)

tally_room :
    (es fs : List Event) (v : Statics)
    → HasRoom (length (es ++ fs)) v
    → HasRoom (length fs) (tally es v)
tally_room es fs v h = record {
  room0 = omega (arith, hit-le es, length-append es fs, h.room0);
  room1 = omega (arith, hit-le es, length-append es fs, h.room1);
  room2 = omega (arith, hit-le es, length-append es fs, h.room2);
  room3 = omega (arith, hit-le es, length-append es fs, h.room3);
}

first_room :
    (es fs : List Event) (v : Statics) → HasRoom (length (es ++ fs)) v → HasRoom (length es) v
first_room es fs v h = record {
  room0 = omega (arith, length-append es fs, h.room0);
  room1 = omega (arith, length-append es fs, h.room1);
  room2 = omega (arith, length-append es fs, h.room2);
  room3 = omega (arith, length-append es fs, h.room3);
}

abbrev end_of : {S A : Type 0} → Outcome S A → S → S
end_of (ok a s) _ = s
end_of _ s = s

unpends-IsAllowed : IsAllowed (
    (number machine_timer, unpend)
    ∷ (number timer0_cmp, unpend)
    ∷ (number timer1_cmp, unpend)
    ∷ (number timer2_cmp, unpend)
    ∷ (number timer3_cmp, unpend)
    ∷ [])
unpends-IsAllowed = (
  omega (arith, number-lt machine_timer),
  tt,
  (
    omega (arith, number-lt timer0_cmp),
    tt,
    (
      omega (arith, number-lt timer1_cmp),
      tt,
      (omega (arith, number-lt timer2_cmp), tt, (omega (arith, number-lt timer3_cmp), tt, tt)),
    ),
  ),
)

-- The statics at the end of the wait.
abbrev pub timed_out : Statics → Statics
timed_out v = record v { timeout = true }

-- The statics at the start of a test.
abbrev pub zero_counts : Statics
zero_counts = record {
  task0_count = 0;
  task1_count = 0;
  task2_count = 0;
  task3_count = 0;
  timeout = false;
}

-- A run that has counted the events returns if the counts are right, and panics if not.
pub record Judges {S : Type 0} (es : List Event) (test_ns : ℕ)
    (r : Outcome (S × Statics) (Unit {0})) : Type 0 where
  pub devices : S
  pub judged : r ≡ (
      if are_right test_ns (timed_out (tally es zero_counts))
      then ok tt (devices, timed_out (tally es zero_counts))
      else panic (devices, timed_out (tally es zero_counts)))

zero_room : (es : List Event) → length es < 2 ^ 32 → HasRoom (length es) zero_counts
zero_room es h = record {
  room0 = omega arith;
  room1 = omega arith;
  room2 = omega arith;
  room3 = omega arith;
}

then_lem :
    {S B : Type 0} (m : M S (Unit {0})) (k : M S B) (s t : S) → m s ≡ ok tt t → (m >> k) s ≡ k t
then_lem m k s t e = rw e refl

module _ {S : Type 0} where
  wait_open :
      (wfi : M (S × Statics) (Unit {0})) (later : List (M (S × Statics) (Unit {0}))) (s : S)
      (v : Statics)
      → v.timeout ≡ false
      → wait_timeout (wfi ∷ later) (s, v) ≡ (wfi >> wait_timeout later) (s, v)
  unfolding wait_timeout
  wait_open wfi later s v e =
      ap
        (λ (t : Bool).
          (elim t as (λ _. M (S × Statics) (Unit {0})) [
            | true ↦ pure tt
            | false ↦ (wfi >> wait_timeout later)
          ])
            (s, v))
        e

  wait_done :
      (later : List (M (S × Statics) (Unit {0}))) (s : S) (v : Statics)
      → wait_timeout later (s, timed_out v) ≡ ok tt (s, timed_out v)
  unfolding wait_timeout
  wait_done [] s v = refl
  wait_done (wfi ∷ later) s v = refl

module _ {b : Bus} (w : Words b IsClicReg) (reg : RegApi b) (laws : RegLaws w reg)
    (wait : b.State → b.State) (rtl_tb debug : Bool) where
  stop_timers-returns : (s : b.State) → (t : b.State) × (stop_timers reg s ≡ ok tt t)
  unfolding stop_timers Mtimer.disable Mtimer.set_counter TimerGroup.disable
  stop_timers-returns s = (end_of (stop_timers reg s) s, refl)

  unpend_all-run :
      (s : b.State)
      → unpend_all reg s
        ≡ run_all reg
            (number machine_timer)
            unpend
            ((number timer0_cmp, unpend)
              ∷ (number timer1_cmp, unpend)
              ∷ (number timer2_cmp, unpend)
              ∷ (number timer3_cmp, unpend)
              ∷ [])
            s
  unfolding unpend_all
  unpend_all-run s = refl

  -- The handler of the machine timer returns and sets the timeout, and no count.
  machine_timer-Counted :
      (s : b.State) (v : Statics)
      → Counted wait rtl_tb debug (timed_out v) (machine_timer_handler reg (s, v))
  unfolding machine_timer_handler
  machine_timer-Counted s v =
      let (t, stops) = stop_timers-returns s in
      let cleared =
        run_all-Tabulates w reg laws (number machine_timer) unpend
          ((number timer0_cmp, unpend)
            ∷ (number timer1_cmp, unpend)
            ∷ (number timer2_cmp, unpend)
            ∷ (number timer3_cmp, unpend)
            ∷ [])
          t unpends-IsAllowed in
      let unpends : unpend_all reg t ≡ ok tt cleared.after = unpend_all-run t ∙ cleared.returns in
      record { devices = cleared.after; returns = rw (stops, unpends) refl }

  -- What the interrupts do in each `wfi`: they handle the events, and in one `wfi` the time is up.
  abbrev pub rounds :
      List (List Event)
      → List Event
      → List (M (b.State × Statics) Unit)
      → List (M (b.State × Statics) Unit)
  rounds [] last later = (handle_all wait rtl_tb debug last >> machine_timer_handler reg) ∷ later
  rounds (es ∷ ess) last later = handle_all wait rtl_tb debug es ∷ rounds ess last later

  -- The wait ends with the timeout, and each count has grown by the number of its events.
  wait-Counted :
      (ess : List (List Event)) (last : List Event) (later : List (M (b.State × Statics) Unit))
      (s : b.State) (v : Statics)
      → v.timeout ≡ false
      → HasRoom (length (events ess last)) v
      → Counted wait rtl_tb debug
          (timed_out (tally (events ess last) v))
          (wait_timeout (rounds ess last later) (s, v))
  wait-Counted [] last later s v unset room =
      let handled = handle_all-Counted wait rtl_tb debug last s v room in
      let up = machine_timer-Counted handled.devices (tally last v) in
      record {
        devices = up.devices;
        returns =
            wait_open (handle_all wait rtl_tb debug last >> machine_timer_handler reg) later s v
              unset
            ∙ (rw (handled.returns, up.returns) (wait_done later up.devices (tally last v)));
      }
  wait-Counted (es ∷ ess) last later s v unset room =
      let one =
        handle_all-Counted wait rtl_tb debug es s v (first_room es (events ess last) v room) in
      let rest =
        wait-Counted ess last later one.devices (tally es v) unset
          (tally_room es (events ess last) v room) in
      record {
        devices = rest.devices;
        returns =
            wait_open (handle_all wait rtl_tb debug es) (rounds ess last later) s v unset
            ∙ rw one.returns rest.returns
            ∙ ap (λ u. ok tt (rest.devices, timed_out u)) (tally-append es (events ess last) v);
      }

  -- The wait for the timeout, and the sums and the check after it, from zero counts, with any
  -- interrupts of the timers in any order in each `wfi`, and the machine timer's in one of them: for a
  -- test of at least the longest period and less than 2 ^ 32 nanoseconds, and fewer than 2 ^ 32
  -- events, they end, in a debug build too; they return if each task has run as often as its periods
  -- fit into the test, or once less, and panic if not; and the statics have the timeout and the number
  -- of the runs of each task.
  pub wait_check-Judges :
      (test_ns : ℕ) (ess : List (List Event)) (last : List Event)
      (later : List (M (b.State × Statics) Unit)) (s : b.State)
      → task0.period_ns ≤ test_ns
      → test_ns < 2 ^ 32
      → length (events ess last) < 2 ^ 32
      → Judges (events ess last) test_ns (
          (wait_timeout (rounds ess last later) >> (statics >>= sum_check debug test_ns))
            (s, zero_counts))
  wait_check-Judges test_ns ess last later s long fits room =
      let waited =
        wait-Counted ess last later s zero_counts refl (zero_room (events ess last) room) in
      record {
        devices = waited.devices;
        judged =
            then_lem (wait_timeout (rounds ess last later)) (statics >>= sum_check debug test_ns)
              (s, zero_counts) (waited.devices, timed_out (tally (events ess last) zero_counts))
              waited.returns
            ∙ sum_check_lem debug test_ns
                (waited.devices, timed_out (tally (events ess last) zero_counts))
                (timed_out (tally (events ess last) zero_counts)) long fits;
      }
