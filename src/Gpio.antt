-- ===== src/Gpio.antt =====
-- The GPIO driver of examples/atalanta-bsp/src/gpio.rs. Every method names the first block of
-- pads, whatever the driver's base address.
pub mod Pins
use atalanta.Prelude.{ℕ, ◌+◌}
use atalanta.Machine.{Bus, M}
use atalanta.Access.{mask_u32, unmask_u32, toggle_u32}
use atalanta.Mmap.{gpio_base, gpio_pads, pad_en, pad_dir, pad_data_out}

abbrev pub gpio_lo_base : ℕ
gpio_lo_base = gpio_base

abbrev pub gpio_hi_base : ℕ
gpio_hi_base = gpio_base + 0x38

module _ (b : Bus) (base_addr : ℕ) where
  unfoldable pub en : ℕ → M b.State Unit
  en mask = mask_u32 b (pad_en (gpio_pads 0)) mask

  unfoldable pub set_output : ℕ → M b.State Unit
  set_output mask = mask_u32 b (pad_dir (gpio_pads 0)) mask

  unfoldable pub set_input : ℕ → M b.State Unit
  set_input mask = unmask_u32 b (pad_dir (gpio_pads 0)) mask

  unfoldable pub set_high : ℕ → M b.State Unit
  set_high mask = mask_u32 b (pad_data_out (gpio_pads 0)) mask

  unfoldable pub set_low : ℕ → M b.State Unit
  set_low mask = unmask_u32 b (pad_data_out (gpio_pads 0)) mask

  unfoldable pub toggle : ℕ → M b.State Unit
  toggle mask = toggle_u32 b (pad_data_out (gpio_pads 0)) mask
