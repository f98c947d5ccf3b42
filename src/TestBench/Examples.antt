-- ===== src/TestBench/Examples.antt =====
-- The theorems on blinking leds, on plain memory in which time stands still.
use atalanta.Prelude.{refl, ◌%◌, bit, true, arith}
use atalanta.Machine.Bank.{Words}
use atalanta.Machine.Memory.{Cells, memory, memory_words}
use atalanta.Gpio.Pins.{IsGpioReg}
use atalanta.TestBench.{blink_panic, wait_blink, show_code}
use atalanta.TestBench.Pins.{Lights}
use atalanta.TestBench.Blinks.{
  Leaves, alone, either, blink_panic-Leaves, wait_blink-Leaves, show_code-Lights,
}

abbrev words : Words memory IsGpioReg
words = memory_words

-- All the leds are on.
abbrev start : Cells
start a = 0xffffffff

abbrev still : Cells → Cells
still m = m

blink_panic-Leaves_example :
    Leaves words still
      (λ s. refl)
      true
      true
      (alone (6 % 4))
      (blink_panic memory still true true 6 start)
blink_panic-Leaves_example =
    blink_panic-Leaves words still (λ s. refl) true true 6 start (omega arith)

wait_blink-Leaves_example :
    Leaves words still
      (λ s. refl)
      true
      true
      (either (3 % 2))
      (wait_blink memory still true true 3 start)
wait_blink-Leaves_example =
    wait_blink-Leaves words still (λ s. refl) true true 3 start (omega arith)

show_code-Lights_example :
    Lights words
      (record { level0 = bit 11 0; level1 = bit 11 1; level2 = bit 11 2; level3 = bit 11 3 })
      (show_code memory 11 start)
show_code-Lights_example = show_code-Lights words 11 start (omega arith)
