-- ===== src/RustMinimal.antt =====
-- The crate examples/rust_minimal/src/lib.rs, which stands without the package. `rtl_tb` is the
-- feature rtl-tb, and `debug` says whether the build has debug assertions.
pub mod Uart
pub mod Programs
pub mod Greets
mod Examples
use atalanta.Prelude.{ℕ, zero, suc, ◌/◌, Bool, if◌then◌else◌}
use atalanta.Machine.{Bus, M, pure, ◌>>◌, load8, load32, save8, save32}
use atalanta.Delay.{nop}
use atalanta.TestBench.{forever}

abbrev pub cpu_freq : Bool → ℕ
cpu_freq rtl_tb = if rtl_tb then 100_000_000 else 30_000_000

abbrev pub nop_mult : Bool → ℕ
nop_mult debug = if debug then 60 / 1 else 60 / 13

abbrev pub nops_per_sec : Bool → Bool → ℕ
nops_per_sec rtl_tb debug = cpu_freq rtl_tb / nop_mult debug

abbrev pub uart_baud : Bool → ℕ
uart_baud rtl_tb = if rtl_tb then 1_500_000 else 115_200

-- `wait` is what a `nop` does to the devices.
unfoldable pub asm_delay : {S : Type 0} → (S → S) → ℕ → M S Unit
asm_delay wait zero = pure tt
asm_delay wait (suc t) = do nop wait; asm_delay wait t

module _ (b : Bus) where
  unfoldable pub read_u8 : ℕ → M b.State ℕ
  read_u8 addr = load8 b addr

  unfoldable pub read_u32 : ℕ → M b.State ℕ
  read_u32 addr = load32 b addr

  unfoldable pub write_u8 : ℕ → ℕ → M b.State Unit
  write_u8 addr val = save8 b addr val

  unfoldable pub write_u32 : ℕ → ℕ → M b.State Unit
  write_u32 addr val = save32 b addr val

-- The panic handler, `loop {}`.
unfoldable pub panic_handler : {S : Type 0} → ℕ → M S ⊥
panic_handler rounds = forever rounds (pure tt)
