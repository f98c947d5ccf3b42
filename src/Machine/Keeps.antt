-- ===== src/Machine/Keeps.antt =====
-- What a run leaves alone: a function of the state that has the same value before and after, also
-- when the run panics or spins.
use atalanta.Prelude.{◌≡◌, refl, ◌∙◌, ap, sym}
use atalanta.Machine.{Outcome, ok, panic, spin, M, pure, spins, continue, ◌>>=◌}

abbrev pub state_of : {S A : Type 0} → Outcome S A → S
state_of (ok a s) = s
state_of (panic s) = s
state_of (spin s) = s

pub record Keeps {S X : Type 0} (f : S → X) {A : Type 0} (m : M S A) : Type 0 where
  pub same : (s : S) → f (state_of (m s)) ≡ f s

module _ {S X : Type 0} {f : S → X} where
  pub pure-Keeps : {A : Type 0} (a : A) → Keeps f (pure {S = S} a)
  pure-Keeps a = record { same = λ s. refl }

  pub spins-Keeps : {A : Type 0} → Keeps f (spins {S = S} {A = A})
  spins-Keeps = record { same = λ s. refl }

  module _ {A B : Type 0} where
    continue-same :
        (r : Outcome S A) (k : A → M S B)
        → ((a : A) → Keeps f (k a))
        → f (state_of (continue r k)) ≡ f (state_of r)
    continue-same (ok a s) k h = (h a).same s
    continue-same (panic s) k h = refl
    continue-same (spin s) k h = refl

    pub bind-Keeps :
        (m : M S A) (k : A → M S B) → Keeps f m → ((a : A) → Keeps f (k a)) → Keeps f (m >>= k)
    bind-Keeps m k h hk = record { same = λ s. continue-same (m s) k hk ∙ h.same s }

  -- Where the run returns, the state that it returns with.
  pub returned-same :
      {A : Type 0} (m : M S A) (a : A) (s t : S) → Keeps f m → m s ≡ ok a t → f t ≡ f s
  returned-same m a s t h e = sym (ap (λ r. f (state_of r)) e) ∙ h.same s
