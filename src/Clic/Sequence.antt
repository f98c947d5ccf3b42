-- ===== src/Clic/Sequence.antt =====
-- Several operations of the CLIC driver one after another, on any interrupts, against the table of
-- all configurations.
use atalanta.Prelude.{
  ℕ, ◌<◌, ◌≡◌, ◌≢◌, refl, ◌∙◌, arith, List, [], ◌∷◌, ◌==◌, ==_iff, Bool-cases, inl, inr,
  if◌then◌else◌,
}
use atalanta.Machine.{Bus, M, Outcome, ok, ◌>>◌}
use atalanta.Machine.Bank.{Words}
use atalanta.Machine.Reg.{RegApi, RegLaws}
use atalanta.Clic.Spec.{IntConfig, IntOp, apply, IsOp}
use atalanta.Clic.State.{IsClicReg, config, Configures}
use atalanta.Clic.Refinement.{run_op, run_op-refines}

-- The configuration of each interrupt.
abbrev pub Table : Type 0
Table = ℕ → IntConfig

abbrev pub change : ℕ → IntOp → Table → Table
change n op t m = if m == n then apply op (t m) else t m

-- An operation and the interrupt that it is for.
abbrev pub change_all : List (ℕ × IntOp) → Table → Table
change_all [] t = t
change_all ((n, op) ∷ ops) t = change_all ops (change n op t)

-- The driver's code for one operation and then for those of a list.
abbrev pub run_all : {b : Bus} → RegApi b → ℕ → IntOp → List (ℕ × IntOp) → M b.State Unit
run_all reg n op [] = run_op reg n op
run_all reg n op ((m, o) ∷ ops) = run_op reg n op >> run_all reg m o ops

abbrev pub IsAllowed : List (ℕ × IntOp) → Type 0
IsAllowed [] = Unit
IsAllowed ((n, op) ∷ ops) = (n < 4096) × IsOp op × IsAllowed ops

module _ {b : Bus} (w : Words b IsClicReg) where
  -- A run returns, and the interrupts are configured as in the table.
  pub record Tabulates (t : Table) (r : Outcome b.State Unit) : Type 0 where
    pub after : b.State
    pub returns : r ≡ ok tt after
    pub configured : (m : ℕ) → m < 4096 → config w m after ≡ t m

  -- The table that a state shows.
  abbrev pub table : b.State → Table
  table s m = config w m s

  Configures→Tabulates :
      (n : ℕ) (op : IntOp) (s : b.State) (r : Outcome b.State Unit)
      → Configures w n (apply op (config w n s)) s r
      → Tabulates (change n op (table s)) r
  Configures→Tabulates n op s r h = record {
    after = h.after;
    returns = h.returns;
    configured = λ m hm. elim (Bool-cases (m == n)) [
      | inl e ↦ let same = (==_iff m n).0 e in rw (e, same) h.configured
      | inr e ↦ let ne : m ≢ n = λ same. ground (arith, e, same) in rw e (h.others m hm ne)
    ];
  }

  -- Two tables that agree on the interrupts stay so.
  pub change_all-agree :
      (ops : List (ℕ × IntOp)) (t u : Table)
      → ((m : ℕ) → m < 4096 → t m ≡ u m)
      → (m : ℕ) → m < 4096
      → change_all ops t m ≡ change_all ops u m
  change_all-agree [] t u h m hm = h m hm
  change_all-agree ((n, op) ∷ ops) t u h m hm =
      change_all-agree ops (change n op t) (change n op u) (λ k hk. rw (h k hk) refl) m hm

  module _ (reg : RegApi b) (laws : RegLaws w reg) where
    pub run_all-Tabulates :
        (n : ℕ) (op : IntOp) (ops : List (ℕ × IntOp)) (s : b.State)
        → IsAllowed ((n, op) ∷ ops)
        → Tabulates (change_all ((n, op) ∷ ops) (table s)) (run_all reg n op ops s)
    run_all-Tabulates n op [] s (hn, valid, rest) =
        Configures→Tabulates n op s _ (run_op-refines w reg laws op n s hn valid)
    run_all-Tabulates n op ((m, o) ∷ ops) s (hn, valid, rest) =
        let one = Configures→Tabulates n op s _ (run_op-refines w reg laws op n s hn valid) in
        let two = run_all-Tabulates m o ops one.after rest in
        rw one.returns (record {
          after = two.after;
          returns = two.returns;
          configured = λ k hk.
              two.configured k hk
              ∙ change_all-agree ((m, o) ∷ ops) (table one.after) (change n op (table s))
                  one.configured k hk;
        })
