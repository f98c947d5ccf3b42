-- ===== src/Led.antt =====
-- The leds of examples/atalanta-bsp/src/led.rs.
pub mod Drives
pub mod Examples
use atalanta.Prelude.{ℕ, Bool, shl32, if◌then◌else◌}
use atalanta.Machine.{Bus, M, ◌>>=◌, ◌>>◌}
use atalanta.Gpio
use atalanta.Gpio.{gpio_lo_base}

-- A `bitmask` type: a set of leds is the word of their bits.
pub record Led : Type 0 where
  pub bits : ℕ

abbrev pub ld0 : Led
ld0 = record { bits = 0b1 }

abbrev pub ld1 : Led
ld1 = record { bits = shl32 0b1 8 }

abbrev pub ld2 : Led
ld2 = record { bits = shl32 0b1 16 }

abbrev pub ld3 : Led
ld3 = record { bits = shl32 0b1 24 }

module _ (b : Bus) where
  unfoldable pub led_on : Led → M b.State Unit
  led_on led = do
    Gpio.en b gpio_lo_base led.bits
    Gpio.set_output b gpio_lo_base led.bits
    Gpio.set_high b gpio_lo_base led.bits

  unfoldable pub led_off : Led → M b.State Unit
  led_off led = do
    Gpio.en b gpio_lo_base led.bits
    Gpio.set_output b gpio_lo_base led.bits
    Gpio.set_low b gpio_lo_base led.bits

  unfoldable pub led_toggle : Led → M b.State Unit
  led_toggle led = do
    Gpio.en b gpio_lo_base led.bits
    Gpio.set_output b gpio_lo_base led.bits
    Gpio.toggle b gpio_lo_base led.bits

  unfoldable pub led_set : Led → Bool → M b.State Unit
  led_set led set = if set then led_on led else led_off led
