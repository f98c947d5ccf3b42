-- ===== src/Machine/Statics.antt =====
-- A program's `static mut`s beside the devices. Interrupt handlers and the main program share them.
use atalanta.Prelude.{ℕ, Bool, not, ◌||◌, ltb, shl64}
use atalanta.Machine.{M, Outcome, ok, panic, spin, pure, assert, ◌>>◌}

module _ {S V : Type 0} where
  -- Code of the drivers, run beside the statics.
  abbrev pub beside : {A : Type 0} → V → Outcome S A → Outcome (S × V) A
  beside v (ok a s) = ok a (s, v)
  beside v (panic s) = panic (s, v)
  beside v (spin s) = spin (s, v)

  abbrev pub lift : {A : Type 0} → M S A → M (S × V) A
  lift m (s, v) = beside v (m s)

  abbrev pub statics : M (S × V) V
  statics (s, v) = ok v (s, v)

  abbrev pub set_statics : V → M (S × V) Unit
  set_statics v' (s, v) = ok tt (s, v')

-- `x << k` on `u64`, with the overflow check of a debug build.
abbrev pub checked_shl64 : {S : Type 0} → Bool → ℕ → ℕ → M S ℕ
checked_shl64 debug x k = do assert (not debug || ltb k 64); pure (shl64 x k)
