-- ===== src/Gpio/Pins.antt =====
-- What the GPIO driver of examples/atalanta-bsp/src/gpio.rs does to each pin.
use atalanta.Prelude.{ℕ, ◌+◌, ◌-◌, ◌%◌, ◌^◌, ◌<◌, min, max, ◌≡◌, refl, Bool, true, ◌||◌, bit, ◌==◌}
use atalanta.Machine.{Bus, M}
use atalanta.Machine.Bank.{Words}
use atalanta.Machine.Effect.{SetsBits}
use atalanta.Access.Masks.{mask_u32-SetsBits, unmask_u32-SetsBits, toggle_u32-SetsBits}
use atalanta.Mmap.{gpio_pads, pad_en, pad_dir, pad_data_out}
use atalanta.Gpio

-- Direction, clock enable and output value of both blocks of pads: storage, as mmap/gpio.rs
-- describes them.
abbrev is_gpio_reg : ℕ → Bool
is_gpio_reg a =
    a == pad_dir (gpio_pads 0)
    || (a == pad_en (gpio_pads 0)
        || (a == pad_data_out (gpio_pads 0)
            || (a == pad_dir (gpio_pads 1)
                || (a == pad_en (gpio_pads 1) || a == pad_data_out (gpio_pads 1)))))

abbrev pub IsGpioReg : ℕ → Type 0
IsGpioReg a = is_gpio_reg a ≡ true

pub data PinOp : Type 0 where
  en set_output set_input set_high set_low toggle : PinOp

abbrev pub run_op : (b : Bus) → ℕ → PinOp → ℕ → M b.State Unit
run_op b base_addr en = Gpio.en b base_addr
run_op b base_addr set_output = Gpio.set_output b base_addr
run_op b base_addr set_input = Gpio.set_input b base_addr
run_op b base_addr set_high = Gpio.set_high b base_addr
run_op b base_addr set_low = Gpio.set_low b base_addr
run_op b base_addr toggle = Gpio.toggle b base_addr

-- The register of an operation, and the new value of a bit from the old one and the mask's.
abbrev pub target : PinOp → ℕ
target en = pad_en (gpio_pads 0)
target set_output = pad_dir (gpio_pads 0)
target set_input = pad_dir (gpio_pads 0)
target set_high = pad_data_out (gpio_pads 0)
target set_low = pad_data_out (gpio_pads 0)
target toggle = pad_data_out (gpio_pads 0)

abbrev pub new_bit : PinOp → ℕ → ℕ → ℕ
new_bit en old m = max old m
new_bit set_output old m = max old m
new_bit set_input old m = min old (1 - m)
new_bit set_high old m = max old m
new_bit set_low old m = min old (1 - m)
new_bit toggle old m = (old + m) % 2

-- Each GPIO operation, at any base address, sets, clears or flips the bits of its mask in its
-- register of the first block of pads; it keeps the other bits and the other registers of both
-- blocks.
pub pin_op-SetsBits :
    {b : Bus} (w : Words b IsGpioReg) (base_addr : ℕ) (op : PinOp) (mask : ℕ) (s : b.State)
    → mask < 2 ^ 32
    → SetsBits w
        (target op)
        (λ i. new_bit op (bit (w.peek (target op) s) i) (bit mask i))
        s
        (run_op b base_addr op mask s)
unfolding Gpio.en Gpio.set_output Gpio.set_input Gpio.set_high Gpio.set_low Gpio.toggle
pin_op-SetsBits w base_addr en mask s h = mask_u32-SetsBits w _ s refl mask h
pin_op-SetsBits w base_addr set_output mask s h = mask_u32-SetsBits w _ s refl mask h
pin_op-SetsBits w base_addr set_input mask s h = unmask_u32-SetsBits w _ s refl mask h
pin_op-SetsBits w base_addr set_high mask s h = mask_u32-SetsBits w _ s refl mask h
pin_op-SetsBits w base_addr set_low mask s h = unmask_u32-SetsBits w _ s refl mask h
pin_op-SetsBits w base_addr toggle mask s h = toggle_u32-SetsBits w _ s refl mask h
