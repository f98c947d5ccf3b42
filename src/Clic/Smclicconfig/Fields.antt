-- ===== src/Clic/Smclicconfig/Fields.antt =====
-- The two fields of smclicconfig: examples/atalanta-bsp/src/clic/smclicconfig.rs.
use atalanta.Prelude.{ℕ, ◌/◌, ◌%◌, ◌^◌, ◌<◌, ◌≡◌, ◌≢◌, ◌∙◌, sym, ap, arith, bit}
use mathlib.Core.Path.{fun_ext}
use atalanta.Machine.{Bus, Outcome, ok}
use atalanta.Machine.Bank.{Words}
use atalanta.Machine.Effect.{SetsBits}
use atalanta.Machine.Reg.{RegApi, RegLaws, bits_put}
use atalanta.Clic.{smclicconfig, ie}
use atalanta.Clic.State.{IsClicReg, ie-IsClicReg, config}
use atalanta.Clic.Spec.{value_of, value_of-bit, config_of}
use atalanta.Clic.Smclicconfig.{mnlbits, set_mnlbits, nmbits, set_nmbits}

smclicconfig-IsClicReg : IsClicReg smclicconfig
unfolding smclicconfig
smclicconfig-IsClicReg = omega arith

ie-ne : (m : ℕ) → ie m ≢ smclicconfig
unfolding ie smclicconfig
ie-ne m = omega arith

module _ {b : Bus} (w : Words b IsClicReg) (reg : RegApi b) (laws : RegLaws w reg) where
  -- A run returns; the two fields then read as `l` and `m`, and every interrupt is as before.
  pub record Divides (l m : ℕ) (s : b.State) (r : Outcome b.State (Unit {0})) : Type 0 where
    pub after : b.State
    pub returns : r ≡ ok tt after
    pub levels : mnlbits reg smclicconfig after ≡ ok l after
    pub modes : nmbits reg smclicconfig after ≡ ok m after
    pub interrupts : (n : ℕ) → n < 4096 → config w n after ≡ config w n s

  -- The fields in a state.
  abbrev pub level_field : b.State → ℕ
  level_field s = w.peek smclicconfig s / 2 ^ 0 % 2 ^ 4

  abbrev pub mode_field : b.State → ℕ
  mode_field s = w.peek smclicconfig s / 2 ^ 4 % 2 ^ 2

  fields-Divides :
      (f : ℕ → ℕ) (l m : ℕ) (s : b.State) (r : Outcome b.State (Unit {0}))
      → SetsBits w smclicconfig f s r
      → value_of f 0 4 ≡ l
      → value_of f 4 2 ≡ m
      → Divides l m s r
  unfolding mnlbits nmbits
  fields-Divides f l m s r h el em =
      let word : ℕ = w.peek smclicconfig h.after in
      let l' = ap (λ g. value_of g 0 4) (sym (fun_ext h.bits)) ∙ value_of-bit 4 0 word in
      let m' = ap (λ g. value_of g 4 2) (sym (fun_ext h.bits)) ∙ value_of-bit 2 4 word in
      record {
        after = h.after;
        returns = h.returns;
        levels =
            laws.read_bits_lem smclicconfig 0 3 h.after smclicconfig-IsClicReg (omega arith)
              (omega arith)
            ∙ ap (λ v. ok v h.after) (sym l' ∙ el);
        modes =
            laws.read_bits_lem smclicconfig 4 5 h.after smclicconfig-IsClicReg (omega arith)
              (omega arith)
            ∙ ap (λ v. ok v h.after) (sym m' ∙ em);
        interrupts =
            λ n hn. ap (λ x. config_of (bit x)) (h.others (ie n) (ie-IsClicReg n hn) (ie-ne n));
      }

  -- What `set_mnlbits` of a value below 16 or `set_nmbits` of one below 4 writes, `mnlbits` or `nmbits` reads back; the other field
  -- and every interrupt are as before.
  pub smclicconfig-Divides :
      (levels modes : ℕ) (s : b.State)
      → levels < 2 ^ 4
      → modes < 2 ^ 2
      → Divides levels (mode_field s) s (set_mnlbits reg smclicconfig levels s)
        × Divides (level_field s) modes s (set_nmbits reg smclicconfig modes s)
  unfolding set_mnlbits set_nmbits
  smclicconfig-Divides levels modes s hl hm =
      let word : ℕ = w.peek smclicconfig s in
      (
        fields-Divides (bits_put 0 3 levels (bit word)) levels (mode_field s) s _
            (laws.write_bits_lem smclicconfig 0 3 levels s smclicconfig-IsClicReg (omega arith)
              (omega arith) hl)
            (value_of-bit 4 0 levels ∙ omega arith) (value_of-bit 2 4 word),
        fields-Divides (bits_put 4 5 modes (bit word)) (level_field s) modes s _
            (laws.write_bits_lem smclicconfig 4 5 modes s smclicconfig-IsClicReg (omega arith)
              (omega arith) hm)
            (value_of-bit 4 0 word) (value_of-bit 2 0 modes ∙ omega arith),
      )
