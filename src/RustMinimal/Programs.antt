-- ===== src/RustMinimal/Programs.antt =====
-- The other programs of examples/rust_minimal/examples/: fpga_button.rs, led.rs, minimal.rs and
-- rve_abi.rs. An endless loop takes the number of its rounds that are run.

use atalanta.Prelude.{ℕ, ◌+◌, ◌/◌, ◌^◌, Bool, not, ◌||◌, ltb, u32, ◌==◌}
use atalanta.Machine.{Bus, M, pure, assert, ◌>>=◌, ◌>>◌}
use atalanta.TestBench.{forever}
use atalanta.RustMinimal.{read_u32, write_u32, asm_delay, nops_per_sec}

abbrev pub input_addr : ℕ
input_addr = 0x0003_0004

abbrev pub output_addr : ℕ
output_addr = 0x0003_0008

module _ (b : Bus) where
  -- fpga_button.rs
  unfoldable pub button_round : M b.State Unit
  unfolding read_u32 write_u32
  button_round = do in_vals ← read_u32 b input_addr; write_u32 b output_addr in_vals

  unfoldable pub buttons : ℕ → M b.State ⊥
  buttons rounds = forever rounds button_round

abbrev pub led_addr : ℕ
led_addr = 0x0003_0008

-- led.rs
module _ (b : Bus) (wait : b.State → b.State) (rtl_tb debug : Bool) where
  unfoldable pub blinky : ℕ → M b.State ⊥
  unfolding write_u32
  blinky rounds = forever rounds (do
    write_u32 b led_addr 1
    asm_delay wait (nops_per_sec rtl_tb debug / 2)
    write_u32 b led_addr 0
    asm_delay wait (nops_per_sec rtl_tb debug / 2))

-- minimal.rs
unfoldable pub entry : {S : Type 0} → ℕ → M S ⊥
entry rounds = forever rounds (pure tt)

-- rve_abi.rs: a sum of `u32`, with the overflow check of a debug build.
abbrev add : {S : Type 0} → Bool → ℕ → ℕ → M S ℕ
add debug x y = do assert (not debug || ltb (x + y) (2 ^ 32)); pure (u32 (x + y))

unfoldable pub many_args : {S : Type 0} → Bool → (x1 x2 x3 x4 x5 x6 x7 x8 : ℕ) → M S ℕ
many_args debug x1 x2 x3 x4 x5 x6 x7 x8 = do
  x12 ← add debug x1 x2
  x123 ← add debug x12 x3
  x1234 ← add debug x123 x4
  x12345 ← add debug x1234 x5
  x123456 ← add debug x12345 x6
  x1234567 ← add debug x123456 x7
  add debug x1234567 x8

unfoldable pub call_many : {S : Type 0} → Bool → ℕ → M S ⊥
call_many debug rounds = do
  res ← many_args debug 1 2 3 4 5 6 7 8
  assert (res == 0)
  forever rounds (pure tt)
