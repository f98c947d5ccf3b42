-- ===== src/Led/Examples.antt =====
-- The theorems on pins and leds, on plain memory.
use atalanta.Prelude.{◌-◌, ◌+◌, ◌%◌, min, max, true, false, bit, arith}
use atalanta.Machine.Bank.{Words}
use atalanta.Machine.Effect.{SetsBits}
use atalanta.Machine.Memory.{Cells, memory, memory_words}
use atalanta.Gpio.{gpio_hi_base}
use atalanta.Gpio.Pins.{IsGpioReg, set_high, target, new_bit, run_op, pin_op-SetsBits}
use atalanta.Led.{ld2, led_set, led_toggle}
use atalanta.Led.Drives.{out_reg, Drives, led-Drives}

abbrev words : Words memory IsGpioReg
words = memory_words

abbrev start : Cells
start _ = 0x101

pin_op-SetsBits_example :
    SetsBits words
      (target set_high)
      (λ i. new_bit set_high (bit (words.peek (target set_high) start) i) (bit 0xff i))
      start
      (run_op memory gpio_hi_base set_high 0xff start)
pin_op-SetsBits_example = pin_op-SetsBits words gpio_hi_base set_high 0xff start (omega arith)

led-Drives_example :
    Drives words ld2
      (λ i. max (bit (words.peek out_reg start) i) (bit ld2.bits i))
      start
      (led_set memory ld2 true start)
    × Drives words ld2
        (λ i. min (bit (words.peek out_reg start) i) (1 - bit ld2.bits i))
        start
        (led_set memory ld2 false start)
    × Drives words ld2
        (λ i. (bit (words.peek out_reg start) i + bit ld2.bits i) % 2)
        start
        (led_toggle memory ld2 start)
led-Drives_example = led-Drives words ld2 start (omega arith)
