-- ===== src/Machine/Ensures.antt =====
-- What a run ensures on every device: it never panics, and what it returns satisfies `P`. It may
-- spin.
use atalanta.Machine.{Outcome, ok, panic, spin, M, pure, spins, continue, ◌>>=◌}

module _ {S A : Type 0} where
  abbrev pub Holds : (A → Type 0) → Outcome S A → Type 0
  Holds P (ok a s) = P a
  Holds P (panic s) = ⊥
  Holds P (spin s) = Unit

  pub record Ensures (P : A → Type 0) (m : M S A) : Type 0 where
    pub holds : (s : S) → Holds P (m s)

  pub pure-Ensures : (P : A → Type 0) (a : A) → P a → Ensures P (pure a)
  pure-Ensures P a h = record { holds = λ s. h }

  pub spins-Ensures : (P : A → Type 0) → Ensures P spins
  spins-Ensures P = record { holds = λ s. tt }

module _ {S A B : Type 0} {P : A → Type 0} {Q : B → Type 0} where
  pub continue-Holds :
      (r : Outcome S A) (k : A → M S B)
      → Holds P r
      → ((a : A) → P a → Ensures Q (k a))
      → Holds Q (continue r k)
  continue-Holds (ok a s) k h hk = (hk a h).holds s
  continue-Holds (panic s) k h hk = absurd h
  continue-Holds (spin s) k h hk = tt

  pub bind-Ensures :
      (m : M S A) (k : A → M S B)
      → Ensures P m
      → ((a : A) → P a → Ensures Q (k a))
      → Ensures Q (m >>= k)
  bind-Ensures m k h hk = record { holds = λ s. continue-Holds (m s) k (h.holds s) hk }
