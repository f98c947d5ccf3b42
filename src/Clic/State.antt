-- ===== src/Clic/State.antt =====
-- The interrupts as the registers of the CLIC show them.
use atalanta.Prelude.{ℕ, ◌%◌, ◌≤◌, ◌<◌, ◌≡◌, ◌≢◌, arith, bit}
use atalanta.Machine.{Bus, Outcome, ok}
use atalanta.Machine.Bank.{Words}
use atalanta.Clic.{ie}
use atalanta.Clic.Spec.{IntConfig, config_of}

-- The aligned addresses of the CLIC.
abbrev pub IsClicReg : ℕ → Type 0
IsClicReg a = (0x5_0000 ≤ a) × (a < 0x5_5000) × (a % 4 ≡ 0)

pub ie-IsClicReg : (number : ℕ) → number < 4096 → IsClicReg (ie number)
unfolding ie
ie-IsClicReg number h = omega arith

pub ie_injective : (m n : ℕ) → m ≢ n → ie m ≢ ie n
unfolding ie
ie_injective m n ne = omega arith

module _ {b : Bus} (w : Words b IsClicReg) where
  -- The configuration of an interrupt, as its register shows it.
  abbrev pub config : ℕ → b.State → IntConfig
  config number s = config_of (bit (w.peek (ie number) s))

  -- A run returns; interrupt `number` is configured as `c` and every other as before.
  pub record Configures (number : ℕ) (c : IntConfig) (s : b.State) (r : Outcome b.State Unit)
      : Type 0 where
    pub after : b.State
    pub returns : r ≡ ok tt after
    pub configured : config number after ≡ c
    pub others : (m : ℕ) → m < 4096 → m ≢ number → config m after ≡ config m s
