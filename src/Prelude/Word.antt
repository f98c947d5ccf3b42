-- ===== src/Prelude/Word.antt =====
-- Machine words as native numbers, with Rust's operators on `u8` and `u32`. The target is a
-- 32-bit RISC-V core, so `usize` is `u32`. A shift takes its amount modulo the width, as a
-- release build does; a debug build panics at an amount of 32 or more.
use Prim.Native.Nat.{ℕ, ◌-◌, ◌*◌, ◌/◌, ◌%◌, ◌^◌}

-- `x as u8`, `x as u16`, `x as u32`, `x as u64`.
abbrev pub u8 : ℕ → ℕ
u8 x = x % 2 ^ 8

abbrev pub u32 : ℕ → ℕ
u32 x = x % 2 ^ 32

abbrev pub u64 : ℕ → ℕ
u64 x = x % 2 ^ 64

abbrev pub u32_max : ℕ
u32_max = 2 ^ 32 - 1

abbrev pub u64_max : ℕ
u64_max = 2 ^ 64 - 1

-- `!x` on `u32` and on `u8`.
abbrev pub not32 : ℕ → ℕ
not32 x = 2 ^ 32 - 1 - x

abbrev pub not8 : ℕ → ℕ
not8 x = 2 ^ 8 - 1 - x

-- `x << k` and `x >> k` on `u32`.
abbrev pub shl32 : ℕ → ℕ → ℕ
shl32 x k = (x * 2 ^ (k % 32)) % 2 ^ 32

abbrev pub shr32 : ℕ → ℕ → ℕ
shr32 x k = x / 2 ^ (k % 32)

-- `x << k` on `u64`.
abbrev pub shl64 : ℕ → ℕ → ℕ
shl64 x k = (x * 2 ^ (k % 64)) % 2 ^ 64
