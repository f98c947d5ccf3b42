-- ===== src/Clic/Rows.antt =====
-- Setting interrupts up and tearing them down, as changes of rows of the table of configurations.
use atalanta.Prelude.{
  ℕ, ◌<◌, ◌≡◌, refl, ◌∙◌, true, false, List, [], ◌∷◌, arith, ◌==◌, Bool-cases, inl, inr,
  if◌then◌else◌,
}
use atalanta.Machine.{Bus, M, Outcome, ◌>>◌}
use atalanta.Machine.Bank.{Words}
use atalanta.Clic.Intattr.{Trig, Polarity}
use atalanta.Clic.Spec.{
  IntConfig, IntOp, enable, disable, set_shv, set_trig, set_polarity, set_level,
}
use atalanta.Clic.State.{IsClicReg}
use atalanta.Clic.Sequence.{Table, change_all, IsAllowed, Tabulates, table}

-- The operations that set an interrupt up with level `l`, and those that tear it down, behind the
-- first.
abbrev pub setup_rest : ℕ → ℕ → List (ℕ × IntOp)
setup_rest n l =
    (n, set_polarity Polarity.pos) ∷ (n, set_shv true) ∷ (n, set_level l) ∷ (n, enable) ∷ []

abbrev pub setup_ops : ℕ → ℕ → List (ℕ × IntOp)
setup_ops n l = (n, set_trig Trig.edge) ∷ setup_rest n l

abbrev pub tear_rest : ℕ → List (ℕ × IntOp)
tear_rest n =
    (n, set_level 0)
    ∷ (n, set_shv false)
    ∷ (n, set_trig Trig.level)
    ∷ (n, set_polarity Polarity.pos)
    ∷ []

abbrev pub tear_ops : ℕ → List (ℕ × IntOp)
tear_ops n = (n, disable) ∷ tear_rest n

pub setup-IsAllowed : (n l : ℕ) → n < 4096 → l < 256 → IsAllowed (setup_ops n l)
setup-IsAllowed n l h hl = (h, tt, (h, tt, (h, tt, (h, hl, (h, tt, tt)))))

pub tear-IsAllowed : (n : ℕ) → n < 4096 → IsAllowed (tear_ops n)
tear-IsAllowed n h = (h, tt, (h, omega arith, (h, tt, (h, tt, (h, tt, tt)))))

-- What becomes of a configuration.
abbrev pub set_up : ℕ → IntConfig → IntConfig
set_up l c = record c { edge = true; negative = false; shv = true; level = l; enabled = true }

abbrev pub torn_down : IntConfig → IntConfig
torn_down c = record c { edge = false; negative = false; shv = false; level = 0; enabled = false }

-- A table in which one row has become `f` of what it was.
abbrev pub row : ℕ → (IntConfig → IntConfig) → Table → Table
row n f t m = if m == n then f (t m) else t m

-- Several rows, one after another.
abbrev pub rows : List (ℕ × (IntConfig → IntConfig)) → Table → Table
rows [] t = t
rows ((n, f) ∷ fs) t = rows fs (row n f t)

pub setup_row : (n l m : ℕ) (t : Table) → change_all (setup_ops n l) t m ≡ row n (set_up l) t m
setup_row n l m t = elim (Bool-cases (m == n)) [
  | inl e ↦ rw (e, ◌==◌) refl
  | inr e ↦ rw (e, ◌==◌) refl
]

pub tear_row : (n m : ℕ) (t : Table) → change_all (tear_ops n) t m ≡ row n torn_down t m
tear_row n m t = elim (Bool-cases (m == n)) [
  | inl e ↦ rw (e, ◌==◌) refl
  | inr e ↦ rw (e, ◌==◌) refl
]

rows-agree :
    (fs : List (ℕ × (IntConfig → IntConfig))) (t u : Table)
    → ((m : ℕ) → m < 4096 → t m ≡ u m)
    → (m : ℕ) → m < 4096
    → rows fs t m ≡ rows fs u m
rows-agree [] t u h m hm = h m hm
rows-agree ((n, f) ∷ fs) t u h m hm =
    rows-agree fs (row n f t) (row n f u) (λ k hk. rw (h k hk) refl) m hm

module _ {b : Bus} (w : Words b IsClicReg) where
  -- The same with the table written as one changed row.
  pub row-Tabulates :
      (f : IntConfig → IntConfig) (n : ℕ) (ops : List (ℕ × IntOp)) (s : b.State)
      → ((m : ℕ) → change_all ops (table w s) m ≡ row n f (table w s) m)
      → (r : Outcome b.State Unit) → Tabulates w (change_all ops (table w s)) r
      → Tabulates w (row n f (table w s)) r
  row-Tabulates f n ops s same r h = record {
    after = h.after;
    returns = h.returns;
    configured = λ m hm. h.configured m hm ∙ same m;
  }

  -- A run that changes one row, and then one that changes others.
  pub then_rows-Tabulates :
      (m k : M b.State (Unit {0})) (n : ℕ) (f : IntConfig → IntConfig)
      (fs : List (ℕ × (IntConfig → IntConfig))) (s : b.State)
      → Tabulates w (row n f (table w s)) (m s)
      → ((t : b.State) → Tabulates w (rows fs (table w t)) (k t))
      → Tabulates w (rows ((n, f) ∷ fs) (table w s)) ((m >> k) s)
  then_rows-Tabulates m k n f fs s one two =
      let rest = two one.after in
      rw one.returns (record {
        after = rest.after;
        returns = rest.returns;
        configured = λ i hi.
            rest.configured i hi
            ∙ rows-agree fs (table w one.after) (row n f (table w s)) one.configured i hi;
      })
