-- ===== src/Machine/Effect.antt =====
-- The effect of a run on a bank of 32-bit registers, as a driver's theorem states it.
use atalanta.Prelude.{ℕ, ◌^◌, ◌<◌, ◌≡◌, refl, ◌≢◌, sym, bit, eq_false_of_ne, ==_iff}
use atalanta.Machine.{Bus, Outcome, ok}
use atalanta.Machine.Bank.{Words}

module _ {b : Bus} {IsReg : ℕ → Type 0} (w : Words b IsReg) where
  -- The run returns, and no register but `a` has changed; `a` holds `v`.
  pub record Sets (a v : ℕ) (s : b.State) (r : Outcome b.State Unit) : Type 0 where
    pub after : b.State
    pub returns : r ≡ ok tt after
    pub target : w.peek a after ≡ v
    pub others : (c : ℕ) → IsReg c → c ≢ a → w.peek c after ≡ w.peek c s

  -- The run returns, and no register but `a` has changed; bit `i` of `a` is `new i`.
  pub record SetsBits (a : ℕ) (new : ℕ → ℕ) (s : b.State) (r : Outcome b.State Unit) : Type 0 where
    pub after : b.State
    pub returns : r ≡ ok tt after
    pub bits : (i : ℕ) → bit (w.peek a after) i ≡ new i
    pub others : (c : ℕ) → IsReg c → c ≢ a → w.peek c after ≡ w.peek c s

  pub store32-Sets :
      (a v : ℕ) (s : b.State) → IsReg a → v < 2 ^ 32 → Sets a v s (ok tt (b.store32 a v s))
  store32-Sets a v s reg fits = record {
    after = b.store32 a v s;
    returns = refl;
    target = rw (w.peek-store32 a v a s reg reg fits, (==_iff a a).1 refl);
    others =
        λ c hc ne. rw (w.peek-store32 a v c s reg hc fits, eq_false_of_ne a c (λ e. ne (sym e)));
  }

  pub Sets→SetsBits :
      (a v : ℕ) (new : ℕ → ℕ) (s : b.State) (r : Outcome b.State Unit)
      → Sets a v s r
      → ((i : ℕ) → bit v i ≡ new i)
      → SetsBits a new s r
  Sets→SetsBits a v new s r h e = record {
    after = h.after;
    returns = h.returns;
    bits = λ i. rw h.target (e i);
    others = h.others;
  }
