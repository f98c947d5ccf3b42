-- ===== src/Machine/Bank.antt =====
-- What a driver relies on where registers of a device are plain storage: a read gives the last
-- value written and changes nothing, and a write to one register leaves the others alone.
use atalanta.Prelude.{ℕ, ◌^◌, ◌<◌, ◌≡◌, ◌==◌, if◌then◌else◌}
use atalanta.Machine.{Bus}

-- The 32-bit registers at the addresses `IsReg` are storage, and `peek` shows their contents.
pub record Words (b : Bus) (IsReg : ℕ → Type 0) : Type 0 where
  pub peek : ℕ → b.State → ℕ
  pub peek-lt : (a : ℕ) (s : b.State) → IsReg a → peek a s < 2 ^ 32
  pub value32-peek : (a : ℕ) (s : b.State) → IsReg a → b.value32 a s ≡ peek a s
  pub read32_quiet : (a : ℕ) (s : b.State) → IsReg a → b.after_read32 a s ≡ s
  pub peek-store32 :
      (a v c : ℕ) (s : b.State)
      → IsReg a
      → IsReg c
      → v < 2 ^ 32
      → peek c (b.store32 a v s) ≡ (if a == c then v else peek c s)

-- The 8-bit registers at the addresses `IsReg` are storage.
pub record Bytes (b : Bus) (IsReg : ℕ → Type 0) : Type 0 where
  pub peek : ℕ → b.State → ℕ
  pub peek-lt : (a : ℕ) (s : b.State) → IsReg a → peek a s < 2 ^ 8
  pub value8-peek : (a : ℕ) (s : b.State) → IsReg a → b.value8 a s ≡ peek a s
  pub read8_quiet : (a : ℕ) (s : b.State) → IsReg a → b.after_read8 a s ≡ s
  pub peek-store8 :
      (a v c : ℕ) (s : b.State)
      → IsReg a
      → IsReg c
      → v < 2 ^ 8
      → peek c (b.store8 a v s) ≡ (if a == c then v else peek c s)
