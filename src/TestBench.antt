-- ===== src/TestBench.antt =====
-- Signals to the test bench: examples/atalanta-bsp/src/tb.rs, with the panic handler of lib.rs.
-- An endless loop takes the number of its rounds that are run, and spins when they are done.
pub mod Cycle
pub mod Pins
pub mod Blinks
mod Examples
use atalanta.Prelude.{
  ℕ, zero, suc, ◌+◌, ◌*◌, ◌/◌, ◌^◌, Bool, true, false, not, Option, none, some, List, [], ◌∷◌, ◌++◌,
  length, bit_and, bit_or, shl32, shr32, ◌==◌, if◌then◌else◌,
}
use atalanta.Machine.{Bus, M, pure, panics, spins, ◌>>=◌, ◌>>◌}
use atalanta.Access.{read_u8, write_u32}
use atalanta.Mmap.{uart_base}
use atalanta.Console.{newline, sprint, sprintln}
use atalanta.Delay.{cpu_freq, nops_per_sec, asm_delay}
use atalanta.Led.{Led, ld0, ld1, ld2, ld3, led_on, led_off, led_set}
use atalanta.Uart

-- The texts of the tags.
abbrev pub test_pass_tag : List ℕ
test_pass_tag = b'[' ∷ b'P' ∷ b'A' ∷ b'S' ∷ b'S' ∷ b'E' ∷ b'D' ∷ b']' ∷ []

abbrev pub test_fail_tag : List ℕ
test_fail_tag = b'[' ∷ b'F' ∷ b'A' ∷ b'I' ∷ b'L' ∷ b'E' ∷ b'D' ∷ b']' ∷ []

abbrev pub test_ok_tag : List ℕ
test_ok_tag = b'[' ∷ b'O' ∷ b'K' ∷ b']' ∷ []

abbrev pub default_baud : Bool → ℕ
default_baud rtl_tb = if rtl_tb then 1_500_000 else 115_200

-- `windows(2)`.
abbrev pub windows : {A : Type 0} → List A → List (A × A)
windows [] = []
windows (x ∷ []) = []
windows (x ∷ (y ∷ l)) = (x, y) ∷ windows (y ∷ l)

-- The first `n` items of the cycle of `all`, from the rest of a pass on.
abbrev pub cycle : {A : Type 0} → List A → ℕ → List A → List A
cycle all zero rest = []
cycle [] (suc n) [] = []
cycle (x ∷ xs) (suc n) [] = x ∷ cycle (x ∷ xs) n xs
cycle all (suc n) (x ∷ rest) = x ∷ cycle all n rest

-- A `for` loop.
abbrev pub for_each : {S A : Type 0} → List A → (A → M S (Unit {0})) → M S (Unit {0})
for_each [] body = pure tt
for_each (x ∷ l) body = do body x; for_each l body

-- `for x in all.cycle() { body }`, from the rest of a pass on. Only the cycle of nothing ends.
abbrev pub for_cycle : {S A : Type 0} → ℕ → List A → List A → (A → M S (Unit {0})) → M S (Unit {0})
for_cycle zero all rest body = spins
for_cycle (suc n) [] [] body = pure tt
for_cycle (suc n) (x ∷ xs) [] body = do body x; for_cycle n (x ∷ xs) xs body
for_cycle (suc n) all (x ∷ rest) body = do body x; for_cycle n all rest body

-- `loop { body }`
abbrev pub forever : {S : Type 0} → ℕ → M S (Unit {0}) → M S ⊥
forever zero body = spins
forever (suc n) body = do body; forever n body

-- A value of the type `!` is one of any type.
abbrev pub never : {S A : Type 0} → M S ⊥ → M S A
never m = m >>= λ v. elim v [ ]

module _ (b : Bus) where
  -- `text` is what the formatting library makes of the arguments.
  unfoldable pub signal_partial_ok : ℕ → List ℕ → M b.State Unit
  signal_partial_ok fuel text = do sprint b fuel (test_ok_tag ++ (b' ' ∷ [])); sprintln b fuel text

  unfoldable pub signal_partial_fail : ℕ → List ℕ → M b.State Unit
  signal_partial_fail fuel text = do
    sprint b fuel (test_fail_tag ++ (b' ' ∷ []))
    sprintln b fuel text

  abbrev pub ok_bit : ℕ
  ok_bit = shl32 0b1 31

  unfoldable pub rtl_tb_signal_fail : M b.State Unit
  unfolding write_u32
  rtl_tb_signal_fail = write_u32 b 0x380 (bit_or ok_bit 0b1)

  unfoldable pub rtl_tb_signal_ok : M b.State Unit
  unfolding write_u32
  rtl_tb_signal_ok = write_u32 b 0x380 ok_bit

  -- The code on the leds.
  unfoldable pub show_code : ℕ → M b.State Unit
  show_code code = do
    led_set b ld0 (bit_and code 0b1 == 0b1)
    led_set b ld1 (bit_and (shr32 code 1) 0b1 == 0b1)
    led_set b ld2 (bit_and (shr32 code 2) 0b1 == 0b1)
    led_set b ld3 (bit_and (shr32 code 3) 0b1 == 0b1)

  -- `wait` is what a `nop` does to the devices.
  module _ (wait : b.State → b.State) (rtl_tb debug : Bool) where
    abbrev per_sec : ℕ
    per_sec = nops_per_sec rtl_tb debug

    -- A round of a chase: the body of the loops of `blink_panic` and `wait_blink`.
    unfoldable pub chase_step : ℕ → Led × Led → M b.State Unit
    chase_step delay (off, on) = do led_off b off; led_on b on; asm_delay wait delay

    -- The loop and the `unreachable!()` behind it.
    unfoldable pub chase : ℕ → List Led → M b.State ⊥
    chase rounds leds = do
      let ord = windows leds
      let delay : ℕ = per_sec / length ord
      for_cycle rounds ord ord (chase_step delay)
      panics

    unfoldable pub blink_panic : ℕ → M b.State ⊥
    unfolding chase
    blink_panic rounds = chase rounds (ld3 ∷ ld1 ∷ ld2 ∷ ld0 ∷ ld3 ∷ [])

    unfoldable pub wait_blink : ℕ → M b.State ⊥
    unfolding chase
    wait_blink rounds = do led_off b ld0; led_off b ld1; chase rounds (ld3 ∷ ld2 ∷ ld3 ∷ [])

    unfoldable pub ok_blink : ℕ → M b.State ⊥
    ok_blink rounds = do
      led_off b ld2
      led_off b ld3
      forever rounds (do
        led_on b ld0
        led_on b ld1
        asm_delay wait (per_sec / 4)
        led_off b ld0
        led_off b ld1
        asm_delay wait (per_sec / 4))

    unfoldable pub fail_blink : ℕ → M b.State ⊥
    fail_blink rounds = forever rounds (do
      led_on b ld0
      led_on b ld1
      led_on b ld2
      led_on b ld3
      asm_delay wait per_sec
      led_off b ld0
      led_off b ld1
      led_off b ld2
      led_off b ld3
      asm_delay wait per_sec)

    -- `serial` says whether a UART is given.
    unfoldable pub signal_pass : ℕ → ℕ → Bool → M b.State Unit
    unfolding rtl_tb_signal_ok
    signal_pass fuel rounds serial = do
      elim serial [
        | true ↦ (do
          Uart.write_str b uart_base fuel test_pass_tag
          Uart.write_str b uart_base fuel newline)
        | false ↦ pure tt
      ]
      elim rtl_tb [ true ↦ rtl_tb_signal_ok | false ↦ never (ok_blink rounds) ]

    unfoldable pub signal_fail : ℕ → ℕ → Bool → M b.State Unit
    unfolding rtl_tb_signal_fail
    signal_fail fuel rounds serial = do
      elim serial [
        | true ↦ (do
          Uart.write_str b uart_base fuel test_fail_tag
          Uart.write_str b uart_base fuel newline)
        | false ↦ pure tt
      ]
      elim rtl_tb [ true ↦ rtl_tb_signal_fail | false ↦ never (fail_blink rounds) ]

    unfoldable pub signal_wait : ℕ → M b.State ⊥
    signal_wait rounds = elim rtl_tb [ true ↦ forever rounds (pure tt) | false ↦ wait_blink rounds ]

    -- Set up the UART where the static at `uart_is_init` says that it is not.
    unfoldable pub ensure_uart : ℕ → M b.State Unit
    unfolding read_u8
    ensure_uart uart_is_init = do
      done ← read_u8 b uart_is_init
      elim (done == 0) [
        | true ↦ Uart.init b uart_base (some uart_is_init) (cpu_freq rtl_tb) (default_baud rtl_tb)
        | false ↦ pure tt
      ]

    -- `code` is `mcause::read().code()`, and `text` is the formatted message.
    unfoldable pub blink_exception : ℕ → ℕ → ℕ → ℕ → List ℕ → M b.State ⊥
    unfolding ensure_uart show_code
    blink_exception uart_is_init fuel rounds code text = do
      ensure_uart uart_is_init
      Uart.write_str b uart_base fuel test_fail_tag
      Uart.write_str b uart_base fuel newline
      sprintln b fuel text
      forever rounds (do
        show_code code
        asm_delay wait (per_sec * 4 / 5)
        led_off b ld0
        led_off b ld1
        led_off b ld2
        led_off b ld3
        asm_delay wait (per_sec / 5))

    -- `text` is the message that is printed.
    unfoldable pub panic_handler : ℕ → ℕ → ℕ → List ℕ → M b.State ⊥
    unfolding ensure_uart rtl_tb_signal_fail
    panic_handler uart_is_init fuel rounds text = do
      ensure_uart uart_is_init
      sprintln b fuel text
      elim rtl_tb [
        | true ↦ (do rtl_tb_signal_fail; forever rounds (pure tt))
        | false ↦ blink_panic rounds
      ]
