-- ===== src/TestBench/Pins.antt =====
-- The four leds of examples/atalanta-bsp/src/led.rs as four output levels.
use atalanta.Prelude.{ℕ, ◌≡◌, ◌∙◌, Bool, true, false, bit, bit-le_one, arith, if◌then◌else◌}
use atalanta.Machine.{Bus, Outcome, ok}
use atalanta.Machine.Bank.{Words}
use atalanta.Gpio.Pins.{IsGpioReg}
use atalanta.Led.{Led, ld0, ld1, ld2, ld3, led_set}
use atalanta.Led.Drives.{out_reg, Drives, led-Drives}
use atalanta.Delay.{asm_delay, asm_delay-Waits}

pub data LedName : Type 0 where
  l0 l1 l2 l3 : LedName

abbrev pub led : LedName → Led
led l0 = ld0
led l1 = ld1
led l2 = ld2
led l3 = ld3

-- The levels of the leds 0 to 3, each zero or one.
pub record Levels : Type 0 where
  pub level0 : ℕ
  pub level1 : ℕ
  pub level2 : ℕ
  pub level3 : ℕ

abbrev pub switch : LedName → Bool → Levels → Levels
switch l0 on p = record p { level0 = if on then 1 else 0 }
switch l1 on p = record p { level1 = if on then 1 else 0 }
switch l2 on p = record p { level2 = if on then 1 else 0 }
switch l3 on p = record p { level3 = if on then 1 else 0 }

module _ {b : Bus} (w : Words b IsGpioReg) where
  abbrev pub out : b.State → ℕ
  out s = w.peek out_reg s

  -- The levels of the leds' pins in a state.
  pub record Shows (p : Levels) (x : ℕ) : Type 0 where
    pub pin0 : bit x 0 ≡ p.level0
    pub pin1 : bit x 8 ≡ p.level1
    pub pin2 : bit x 16 ≡ p.level2
    pub pin3 : bit x 24 ≡ p.level3

  -- A run returns with the levels `p`.
  pub record Lights (p : Levels) (r : Outcome b.State (Unit {0})) : Type 0 where
    pub after : b.State
    pub returns : r ≡ ok tt after
    pub shows : Shows p (out after)

  -- The levels in a state, read off.
  abbrev pub levels_of : b.State → Levels
  levels_of s = record {
    level0 = bit (out s) 0;
    level1 = bit (out s) 8;
    level2 = bit (out s) 16;
    level3 = bit (out s) 24;
  }

  lit :
      (p : Levels) (l : Led) (new : ℕ → ℕ) (s : b.State) (r : Outcome b.State Unit)
      → Drives w l new s r
      → (new 0 ≡ p.level0) × (new 8 ≡ p.level1) × (new 16 ≡ p.level2) × (new 24 ≡ p.level3)
      → Lights p r
  lit p l new s r d (e0, e1, e2, e3) = record {
    after = d.after;
    returns = d.returns;
    shows = record {
      pin0 = d.levels 0 ∙ e0;
      pin1 = d.levels 8 ∙ e1;
      pin2 = d.levels 16 ∙ e2;
      pin3 = d.levels 24 ∙ e3;
    };
  }

  -- `led_set` on one led.
  pub set-Lights :
      (n : LedName) (on : Bool) (s : b.State) (p : Levels)
      → Shows p (out s)
      → Lights (switch n on p) (led_set b (led n) on s)
  set-Lights l0 true s p h =
      lit _ ld0 _ s _ (led-Drives w ld0 s (omega arith)).0 (omega (arith, bit-le_one (out s) 0))
  set-Lights l0 false s p h =
      lit _ ld0 _ s _ (led-Drives w ld0 s (omega arith)).1 (omega (arith, bit-le_one (out s) 0))
  set-Lights l1 true s p h =
      lit _ ld1 _ s _ (led-Drives w ld1 s (omega arith)).0 (omega (arith, bit-le_one (out s) 8))
  set-Lights l1 false s p h =
      lit _ ld1 _ s _ (led-Drives w ld1 s (omega arith)).1 (omega (arith, bit-le_one (out s) 8))
  set-Lights l2 true s p h =
      lit _ ld2 _ s _ (led-Drives w ld2 s (omega arith)).0 (omega (arith, bit-le_one (out s) 16))
  set-Lights l2 false s p h =
      lit _ ld2 _ s _ (led-Drives w ld2 s (omega arith)).1 (omega (arith, bit-le_one (out s) 16))
  set-Lights l3 true s p h =
      lit _ ld3 _ s _ (led-Drives w ld3 s (omega arith)).0 (omega (arith, bit-le_one (out s) 24))
  set-Lights l3 false s p h =
      lit _ ld3 _ s _ (led-Drives w ld3 s (omega arith)).1 (omega (arith, bit-le_one (out s) 24))

  -- A delay, where time leaves the output levels alone.
  pub delay-Lights :
      (wait : b.State → b.State)
      → ((s : b.State) → out (wait s) ≡ out s)
      → (t : ℕ) (s : b.State) (p : Levels) → Shows p (out s)
      → Lights p (asm_delay wait t s)
  delay-Lights wait quiet t s p h =
      let d = asm_delay-Waits out wait quiet t s in
      record { after = d.after; returns = d.returns; shows = rw d.same h }
