-- ===== src/Led/Drives.antt =====
-- The led functions of examples/atalanta-bsp/src/led.rs turn the pins of their leds into outputs,
-- give them their level, and leave every other pin alone.
use atalanta.Prelude.{
  ℕ, ◌+◌, ◌-◌, ◌%◌, ◌^◌, ◌<◌, min, max, ◌≡◌, refl, ◌≢◌, ◌∙◌, ap, true, false, arith, bit,
}
use atalanta.Machine.{Bus, Outcome, ok, M, ◌>>◌}
use atalanta.Machine.Bank.{Words}
use atalanta.Machine.Effect.{SetsBits}
use atalanta.Mmap.{gpio_pads, pad_en, pad_dir, pad_data_out}
use atalanta.Gpio
use atalanta.Gpio.{gpio_lo_base}
use atalanta.Gpio.Pins.{IsGpioReg, en, set_output, set_high, set_low, toggle, pin_op-SetsBits}
use atalanta.Led.{Led, led_on, led_off, led_toggle, led_set}

abbrev en_reg : ℕ
en_reg = pad_en (gpio_pads 0)

abbrev dir_reg : ℕ
dir_reg = pad_dir (gpio_pads 0)

abbrev pub out_reg : ℕ
out_reg = pad_data_out (gpio_pads 0)

module _ {b : Bus} (w : Words b IsGpioReg) where
  -- A run returns with the pins of `led` clocked and made outputs, the output levels `new`, and
  -- the second block of pads as it was.
  pub record Drives (led : Led) (new : ℕ → ℕ) (s : b.State) (r : Outcome b.State Unit)
      : Type 0 where
    pub after : b.State
    pub returns : r ≡ ok tt after
    pub clocked :
        (i : ℕ) → bit (w.peek en_reg after) i ≡ max (bit (w.peek en_reg s) i) (bit led.bits i)
    pub output :
        (i : ℕ) → bit (w.peek dir_reg after) i ≡ max (bit (w.peek dir_reg s) i) (bit led.bits i)
    pub levels : (i : ℕ) → bit (w.peek out_reg after) i ≡ new i
    pub others :
        (c : ℕ) → IsGpioReg c → c ≢ en_reg → c ≢ dir_reg → c ≢ out_reg → w.peek c after ≡ w.peek c s

  -- Initialisation, and then one operation `act` on the levels.
  initialised-Drives :
      (led : Led) (act : M b.State Unit) (new : ℕ → ℕ → ℕ)
      → led.bits < 2 ^ 32
      → ((t : b.State)
          → SetsBits w out_reg (λ i. new (bit (w.peek out_reg t) i) (bit led.bits i)) t (act t))
      → (s : b.State)
      → Drives led
          (λ i. new (bit (w.peek out_reg s) i) (bit led.bits i))
          s
          ((do Gpio.en b gpio_lo_base led.bits; Gpio.set_output b gpio_lo_base led.bits; act) s)
  initialised-Drives led act new h acts s =
      let one = pin_op-SetsBits w gpio_lo_base en led.bits s h in
      let two = pin_op-SetsBits w gpio_lo_base set_output led.bits one.after h in
      let three = acts two.after in
      record {
        after = three.after;
        returns = rw (one.returns, two.returns) three.returns;
        clocked = λ i.
            ap (λ x. bit x i)
              (three.others en_reg refl (omega arith) ∙ two.others en_reg refl (omega arith))
            ∙ one.bits i;
        output = λ i.
            ap (λ x. bit x i) (three.others dir_reg refl (omega arith))
            ∙ two.bits i
            ∙ ap (λ x. max (bit x i) (bit led.bits i)) (one.others dir_reg refl (omega arith));
        levels = λ i.
            three.bits i
            ∙ ap (λ x. new (bit x i) (bit led.bits i))
                (two.others out_reg refl (omega arith) ∙ one.others out_reg refl (omega arith));
        others = λ c hc ne nd no. three.others c hc no ∙ two.others c hc nd ∙ one.others c hc ne;
      }

  -- `led_on` and `led_off` by `led_set`, and `led_toggle`: they return, the pins of the leds are
  -- clocked outputs that are high, low or flipped, and every other pin is as before.
  pub led-Drives :
      (led : Led) (s : b.State)
      → led.bits < 2 ^ 32
      → Drives led (λ i. max (bit (w.peek out_reg s) i) (bit led.bits i)) s (led_set b led true s)
        × Drives led
            (λ i. min (bit (w.peek out_reg s) i) (1 - bit led.bits i))
            s
            (led_set b led false s)
        × Drives led (λ i. (bit (w.peek out_reg s) i + bit led.bits i) % 2) s (led_toggle b led s)
  unfolding led_set led_on led_off led_toggle
  led-Drives led s h = (
    initialised-Drives led _ max h (λ t. pin_op-SetsBits w gpio_lo_base set_high led.bits t h) s,
    initialised-Drives led _ (λ x m. min x (1 - m)) h
        (λ t. pin_op-SetsBits w gpio_lo_base set_low led.bits t h) s,
    initialised-Drives led _ (λ x m. (x + m) % 2) h
        (λ t. pin_op-SetsBits w gpio_lo_base toggle led.bits t h) s,
  )
