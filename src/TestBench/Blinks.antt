-- ===== src/TestBench/Blinks.antt =====
-- What the leds show while the endless loops of examples/atalanta-bsp/src/tb.rs run.
use atalanta.Prelude.{
  ℕ, zero, suc, ◌%◌, ◌≤◌, ◌<◌, ◌/◌, map, ◌^◌, bit_and_step, bit_and-zero, ◌≡◌, refl, ◌∙◌, ap, Bool,
  true, false, List, [], ◌∷◌, bit, bit_and, shr32, arith, ◌==◌, if◌then◌else◌,
}
use atalanta.Machine.{Bus, M, Outcome, spin, ◌>>◌, panics, spins}
use atalanta.Machine.Bank.{Words}
use atalanta.Gpio.Pins.{IsGpioReg}
use atalanta.Led.{Led, led_off, led_set}
use atalanta.Delay.{nops_per_sec}
use atalanta.TestBench.{
  windows, cycle, for_each, chase_step, chase, blink_panic, wait_blink, show_code,
}
use atalanta.TestBench.Cycle.{for_cycle_lem, cycle-map, cycle_again}
use atalanta.TestBench.Pins.{
  LedName, l0, l1, l2, l3, led, Levels, switch, Shows, Lights, out, levels_of, set-Lights,
  delay-Lights,
}

abbrev leds : LedName × LedName → Led × Led
leds (off, on) = (led off, led on)

-- What the leds show after rounds of a chase.
abbrev levels_after : List (LedName × LedName) → Levels → Levels
levels_after [] p = p
levels_after ((off, on) ∷ steps) p = levels_after steps (switch on true (switch off false p))

abbrev panic_ord : List (LedName × LedName)
panic_ord = windows (l3 ∷ l1 ∷ l2 ∷ l0 ∷ l3 ∷ [])

abbrev wait_ord : List (LedName × LedName)
wait_ord = windows (l3 ∷ l2 ∷ l3 ∷ [])

-- The one led that is on after a number of rounds modulo four: 3, 1, 2, 0.
abbrev pub alone : ℕ → Levels
alone zero = record { level0 = 0; level1 = 0; level2 = 0; level3 = 1 }
alone (suc zero) = record { level0 = 0; level1 = 1; level2 = 0; level3 = 0 }
alone (suc (suc zero)) = record { level0 = 0; level1 = 0; level2 = 1; level3 = 0 }
alone _ = record { level0 = 1; level1 = 0; level2 = 0; level3 = 0 }

panic_levels_on : (n : ℕ) → levels_after (cycle panic_ord n panic_ord) (alone 0) ≡ alone (n % 4)
panic_levels_on zero = refl
panic_levels_on (suc zero) = refl
panic_levels_on (suc (suc zero)) = refl
panic_levels_on (suc (suc (suc zero))) = refl
panic_levels_on (suc (suc (suc (suc n)))) =
    let e : suc (suc (suc (suc n))) % 4 ≡ n % 4 = omega arith in
    rw e (ap (λ l. levels_after l (alone 0)) (cycle_again _ _ n) ∙ panic_levels_on n)

panic_levels :
    (n : ℕ) (p : Levels) → 4 ≤ n → levels_after (cycle panic_ord n panic_ord) p ≡ alone (n % 4)
panic_levels zero p h = absurd (omega arith)
panic_levels (suc zero) p h = absurd (omega arith)
panic_levels (suc (suc zero)) p h = absurd (omega arith)
panic_levels (suc (suc (suc zero))) p h = absurd (omega arith)
panic_levels (suc (suc (suc (suc n)))) p h =
    let e : suc (suc (suc (suc n))) % 4 ≡ n % 4 = omega arith in
    rw e (ap (λ l. levels_after l (alone 0)) (cycle_again _ _ n) ∙ panic_levels_on n)

-- The same for the leds 3 and 2.
abbrev pub either : ℕ → Levels
either zero = record { level0 = 0; level1 = 0; level2 = 0; level3 = 1 }
either _ = record { level0 = 0; level1 = 0; level2 = 1; level3 = 0 }

abbrev dark : ℕ → ℕ → Levels
dark x y = record { level0 = 0; level1 = 0; level2 = x; level3 = y }

wait_levels :
    (n x y : ℕ) → 1 ≤ n → levels_after (cycle wait_ord n wait_ord) (dark x y) ≡ either (n % 2)
wait_levels zero x y h = absurd (omega arith)
wait_levels (suc zero) x y h = refl
wait_levels (suc (suc zero)) x y h = refl
wait_levels (suc (suc (suc n))) x y h =
    let e : suc (suc (suc n)) % 2 ≡ suc n % 2 = omega arith in
    rw e (wait_levels (suc n) 0 1 (omega arith))

code_bit : (x : ℕ) → x < 2 ^ 32 → (if bit_and x 0b1 == 0b1 then 1 else 0) ≡ x % 2
code_bit x h = ground (arith, bit_and_step x 1, bit_and-zero 32 (x / 2) (omega arith))

module _ {b : Bus} (w : Words b IsGpioReg) where
  -- Any state shows its own levels.
  own : (s : b.State) → Shows w (levels_of w s) (out w s)
  own s = record { pin0 = refl; pin1 = refl; pin2 = refl; pin3 = refl }

  -- Two runs one after the other.
  then-Lights :
      (m n : M b.State Unit) (p q : Levels) (s : b.State)
      → Lights w p (m s)
      → ((t : b.State) → Shows w p (out w t) → Lights w q (n t))
      → Lights w q ((m >> n) s)
  then-Lights m n p q s one two =
      let rest = two one.after one.shows in
      rw one.returns (record { after = rest.after; returns = rest.returns; shows = rest.shows })

  module _ (wait : b.State → b.State) (quiet : (s : b.State) → out w (wait s) ≡ out w s)
      (rtl_tb debug : Bool) where
    step-Lights :
        (delay : ℕ) (off on : LedName) (s : b.State) (p : Levels)
        → Shows w p (out w s)
        → Lights w
            (switch on true (switch off false p))
            (chase_step b wait rtl_tb debug delay (led off, led on) s)
    unfolding chase_step led_off led_set
    step-Lights delay off on s p h =
        then-Lights (led_set b (led off) false) _ _ _ s (set-Lights w off false s p h) (λ t ht.
          then-Lights (led_set b (led on) true) _ _ _ t (set-Lights w on true t _ ht)
            (λ v hv. delay-Lights w wait quiet delay v _ hv))

    -- An endless loop that has run its rounds leaves the levels `p`.
    pub record Leaves (p : Levels) (r : Outcome b.State ⊥) : Type 0 where
      pub after : b.State
      pub loops : r ≡ spin after
      pub shows : Shows w p (out w after)

    -- The rounds of a chase through given pairs of leds.
    rounds-Leaves :
        (delay : ℕ) (steps : List (LedName × LedName)) (s : b.State) (p : Levels)
        → Shows w p (out w s)
        → Leaves
            (levels_after steps p)
            ((for_each (map leds steps) (chase_step b wait rtl_tb debug delay) >> spins) s)
    rounds-Leaves delay [] s p h = record { after = s; loops = refl; shows = h }
    rounds-Leaves delay ((off, on) ∷ steps) s p h =
        let one = step-Lights delay off on s p h in
        let two = rounds-Leaves delay steps one.after _ one.shows in
        rw one.returns (record { after = two.after; loops = two.loops; shows = two.shows })

    -- After four rounds or more of `blink_panic`, and whatever the leds showed before, exactly one
    -- of the leds is on: led 3, 1, 2 or 0, by the number of rounds modulo four. It never returns,
    -- and does not reach the panic behind its loop.
    pub blink_panic-Leaves :
        (rounds : ℕ) (s : b.State)
        → 4 ≤ rounds
        → Leaves (alone (rounds % 4)) (blink_panic b wait rtl_tb debug rounds s)
    unfolding blink_panic chase
    blink_panic-Leaves rounds s h =
        let run =
          rounds-Leaves (nops_per_sec rtl_tb debug / 4) (cycle panic_ord rounds panic_ord) s
            (levels_of w s) (own s) in
        rw
          (
            for_cycle_lem _ _ _ panics rounds (map leds panic_ord) s,
            cycle-map leds panic_ord rounds panic_ord,
          )
          (rw (← (panic_levels rounds (levels_of w s) h)) run)

    -- After one round or more of `wait_blink`, leds 0 and 1 are off, and exactly one of leds 2 and
    -- 3 is on: led 2 after an odd number of rounds, led 3 after an even one. It never
    -- returns, and does not reach the panic behind its loop.
    pub wait_blink-Leaves :
        (rounds : ℕ) (s : b.State)
        → 1 ≤ rounds
        → Leaves (either (rounds % 2)) (wait_blink b wait rtl_tb debug rounds s)
    unfolding wait_blink chase led_off led_set
    wait_blink-Leaves rounds s h =
        let one = set-Lights w l0 false s (levels_of w s) (own s) in
        let two = set-Lights w l1 false one.after _ one.shows in
        let run =
          rounds-Leaves (nops_per_sec rtl_tb debug / 2) (cycle wait_ord rounds wait_ord) two.after _
            two.shows in
        rw
          (
            one.returns,
            two.returns,
            for_cycle_lem _ _ _ panics rounds (map leds wait_ord) two.after,
            cycle-map leds wait_ord rounds wait_ord,
          )
          (rw (← (wait_levels rounds (bit (out w s) 16) (bit (out w s) 24) h)) run)

  -- `show_code` returns, and the leds 0 to 3 show the bits 0 to 3 of the code.
  pub show_code-Lights :
      (code : ℕ) (s : b.State)
      → code < 2 ^ 32
      → Lights w
          (record {
            level0 = bit code 0;
            level1 = bit code 1;
            level2 = bit code 2;
            level3 = bit code 3;
          })
          (show_code b code s)
  unfolding show_code
  show_code-Lights code s h =
      let one = set-Lights w l0 (bit_and code 0b1 == 0b1) s _ (own s) in
      let two = set-Lights w l1 (bit_and (shr32 code 1) 0b1 == 0b1) one.after _ one.shows in
      let three = set-Lights w l2 (bit_and (shr32 code 2) 0b1 == 0b1) two.after _ two.shows in
      let q = set-Lights w l3 (bit_and (shr32 code 3) 0b1 == 0b1) three.after _ three.shows in
      rw (one.returns, two.returns, three.returns)
        (record {
          after = q.after;
          returns = q.returns;
          shows = record {
            pin0 = q.shows.pin0 ∙ code_bit code (omega arith);
            pin1 = q.shows.pin1 ∙ code_bit (shr32 code 1) (omega arith);
            pin2 = q.shows.pin2 ∙ code_bit (shr32 code 2) (omega arith) ∙ omega arith;
            pin3 = q.shows.pin3 ∙ code_bit (shr32 code 3) (omega arith) ∙ omega arith;
          };
        })
