-- ===== src/TestBench/Cycle.antt =====
-- The loops over the cycle of a list in examples/atalanta-bsp/src/tb.rs.
use atalanta.Prelude.{ℕ, zero, suc, ◌≡◌, refl, sym, ◌∙◌, ap, map, List, [], ◌∷◌}
use atalanta.Machine.{M, Outcome, ok, panic, spin, continue, spins, ◌>>◌}
use atalanta.TestBench.{cycle, for_each, for_cycle}

-- Two ways to go on that agree from every state.
continue_agree :
    {S A B : Type 0} (r : Outcome S A) (m n : M S B)
    → ((s : S) → m s ≡ n s)
    → continue r (λ _. m) ≡ continue r (λ _. n)
continue_agree (ok a s) m n h = h s
continue_agree (panic s) m n h = refl
continue_agree (spin s) m n h = refl

continue_assoc :
    {S A B C : Type 0} (r : Outcome S A) (m : M S B) (n : M S C)
    → continue (continue r (λ _. m)) (λ _. n) ≡ continue r (λ _. (m >> n))
continue_assoc (ok a s) m n = refl
continue_assoc (panic s) m n = refl
continue_assoc (spin s) m n = refl

-- The loop over a cycle of something never ends: what stands behind it does not run.
module _ {S A B : Type 0} (x : A) (xs : List A) (body : A → M S (Unit {0})) (behind : M S B) where
  step_agree :
      (y : A) (m n : M S (Unit {0})) (s : S)
      → ((t : S) → (m >> behind) t ≡ (n >> spins) t)
      → ((body y >> m) >> behind) s ≡ ((body y >> n) >> spins) s
  step_agree y m n s h =
      continue_assoc (body y s) m behind
      ∙ continue_agree (body y s) (m >> behind) (n >> spins) h
      ∙ sym (continue_assoc (body y s) n spins)

  pub for_cycle_lem :
      (n : ℕ) (rest : List A) (s : S)
      → (for_cycle n (x ∷ xs) rest body >> behind) s
        ≡ (for_each (cycle (x ∷ xs) n rest) body >> spins) s
  for_cycle_lem zero rest s = refl
  for_cycle_lem (suc n) [] s = step_agree x _ _ s (λ t. for_cycle_lem n xs t)
  for_cycle_lem (suc n) (y ∷ rest) s = step_agree y _ _ s (λ t. for_cycle_lem n rest t)

pub cycle-map :
    {A B : Type 0} (f : A → B) (all : List A) (n : ℕ) (rest : List A)
    → cycle (map f all) n (map f rest) ≡ map f (cycle all n rest)
cycle-map f all zero rest = refl
cycle-map f [] (suc n) [] = refl
cycle-map f (x ∷ xs) (suc n) [] = ap (λ l. f x ∷ l) (cycle-map f (x ∷ xs) n xs)
cycle-map f [] (suc n) (y ∷ rest) = ap (λ l. f y ∷ l) (cycle-map f [] n rest)
cycle-map f (x ∷ xs) (suc n) (y ∷ rest) = ap (λ l. f y ∷ l) (cycle-map f (x ∷ xs) n rest)

-- A round starts again at its first item.
pub cycle_again :
    {A : Type 0} (x : A) (xs : List A) (n : ℕ) → cycle (x ∷ xs) n [] ≡ cycle (x ∷ xs) n (x ∷ xs)
cycle_again x xs zero = refl
cycle_again x xs (suc n) = refl
