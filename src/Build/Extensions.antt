-- ===== src/Build/Extensions.antt =====
-- What parse_extensions of examples/atalanta-bsp/build.rs makes of a target and flags.
use atalanta.Prelude.{
  codes, ℕ, Bool, true, false, Option, some, none, List, [], ◌∷◌, ◌++◌, ◌≡◌, ◌≢◌, refl, sym, ap,
  ◌∙◌, All, map, arith, get_elem?, Bool-cases, inl, inr,
}
use mathlib.Core.Path.{fun_ext}
use mathlib.Core.List.{append_assoc}
use atalanta.Build.{
  HashSet, collect, insert, remove, expand_g, apply_feature, apply_features, apply_flags,
  parse_extensions, ◌>>=◌,
}
use atalanta.Build.Chars.{
  Text, join, Lacks, Lacks-append, Lacks-join, starts_with, is_ascii_digit, split, split_all,
  split-append, split-join, trim_start_matches-append, skip_digits, skip_digits-append,
  starts_with-append, trim_start_matches, drop_empty, is_empty,
}
use atalanta.Build.Spec.{
  Target, print_target, StartsAlpha, IsTarget, Feature, print_feature, IsFeature, Flag, features,
  other, print_flag, IsFlag, print_flags, all_features, last_sign, base, active,
}

expand_g_lem : (letters : Text) (c : ℕ) → expand_g (collect letters) c ≡ base letters c
unfolding expand_g
expand_g_lem letters c = elim (Bool-cases (collect letters b'g')) [
  | inl e ↦ rw e (ground arith)
  | inr e ↦ rw e (ground arith)
]

-- A set after features: the last one that names a letter decides.
abbrev pub override : HashSet → List Feature → HashSet
override e fs c = elim (last_sign fs c) [ some on ↦ on | none ↦ e c ]

-- A run that returns a set with these members.
pub record Yields (e : HashSet) (r : Option HashSet) : Type 0 where
  pub set : HashSet
  pub returns : r ≡ some set
  pub members : (c : ℕ) → set c ≡ e c

pub apply_feature_lem :
    (f : Feature) (e : HashSet) → Yields (override e (f ∷ [])) (apply_feature (print_feature f) e)
unfolding apply_feature
apply_feature_lem f e = elim (Bool-cases f.on) [
  | inl h ↦ record { set = insert f.ext e; returns = rw h refl; members = λ c. rw h (ground arith) }
  | inr h ↦ record { set = remove f.ext e; returns = rw h refl; members = λ c. rw h (ground arith) }
]

abbrev or_else : Option Bool → Option Bool → Option Bool
or_else none o = o
or_else (some on) o = some on

last_sign-append :
    (fs gs : List Feature) (c : ℕ)
    → last_sign (fs ++ gs) c ≡ or_else (last_sign gs c) (last_sign fs c)
last_sign-append [] gs c = ground arith
last_sign-append (f ∷ fs) gs c = ground (arith, last_sign-append fs gs c)

-- Features that come later override.
override-append :
    (e : HashSet) (fs gs : List Feature) (c : ℕ)
    → override (override e fs) gs c ≡ override e (fs ++ gs) c
override-append e fs gs c = ground (arith, last_sign-append fs gs c)

override-ext :
    (e e' : HashSet) (fs : List Feature) (c : ℕ) → e c ≡ e' c → override e fs c ≡ override e' fs c
override-ext e e' fs c h = ground arith

pub apply_features_lem :
    (fs : List Feature) (e : HashSet)
    → Yields (override e fs) (apply_features (map print_feature fs) e)
unfolding apply_features
apply_features_lem [] e = record { set = e; returns = refl; members = λ c. refl }
apply_features_lem (f ∷ fs) e =
    let one = apply_feature_lem f e in
    let rest = apply_features_lem fs one.set in
    record {
      set = rest.set;
      returns = rw one.returns rest.returns;
      members = λ c.
          rest.members c
          ∙ override-ext one.set (override e (f ∷ [])) fs c (one.members c)
          ∙ override-append e (f ∷ []) fs c;
    }

-- One round of `apply_flags`, with the rounds behind it as a function.
abbrev pub apply_one : Text → (HashSet → Option HashSet) → HashSet → Option HashSet
apply_one k next e = elim (starts_with (codes "target-feature=") k) [
  | false ↦ next e
  | true ↦ get_elem? (split b'=' k) 1 >>= (λ flags. apply_features (split b',' flags) e >>= next)
]

pub apply_flags-cons :
    (k : Text) (rest : List Text) (e : HashSet)
    → apply_flags (k ∷ rest) e ≡ apply_one k (apply_flags rest) e
unfolding apply_flags
apply_flags-cons k rest e = refl

pub apply_one-value :
    (k name value : Text) (next : HashSet → Option HashSet) (e : HashSet)
    → starts_with (codes "target-feature=") k ≡ true
    → split b'=' k ≡ name ∷ value ∷ []
    → apply_one k next e ≡ (apply_features (split b',' value) e >>= next)
unfolding starts_with apply_features
apply_one-value k name value next e h hs = rw (h, hs) refl

pub drop_empty_lem :
    (ws : List Text) (e : HashSet) → apply_flags (drop_empty ws) e ≡ apply_flags ws e
unfolding apply_flags drop_empty starts_with is_empty
drop_empty_lem [] e = refl
drop_empty_lem ([] ∷ ws) e = drop_empty_lem ws e
drop_empty_lem ((x ∷ w) ∷ ws) e = ap (λ g. apply_one (x ∷ w) g e) (fun_ext (drop_empty_lem ws))

join_lem :
    (flags : List Flag) (e : HashSet)
    → All (Lacks 0x1f) (map print_flag flags)
    → apply_flags (split 0x1f (print_flags flags)) e ≡ apply_flags (map print_flag flags) e
join_lem [] e h = unfold join split apply_flags starts_with in refl
join_lem (flag ∷ flags) e h = rw (split-join 0x1f (print_flag flag) (map print_flag flags) h) refl

print_feature-Lacks :
    (sep : ℕ) (f : Feature)
    → b'+' ≢ sep
    → b'-' ≢ sep
    → Lacks sep (f.ext ∷ f.tail)
    → Lacks sep (print_feature f)
print_feature-Lacks sep f hp hm h = elim (Bool-cases f.on) [
  | inl e ↦ rw e (hp, h)
  | inr e ↦ rw e (hm, h)
]

pub print_features-Lacks :
    (sep : ℕ) (fs : List Feature)
    → b'+' ≢ sep
    → b'-' ≢ sep
    → All (λ f. Lacks sep (f.ext ∷ f.tail)) fs
    → All (Lacks sep) (map print_feature fs)
print_features-Lacks sep [] hp hm h = tt
print_features-Lacks sep (f ∷ fs) hp hm (h, hs) =
    (print_feature-Lacks sep f hp hm h, print_features-Lacks sep fs hp hm hs)

pub All-map :
    {A : Type 0} (P Q : A → Type 0) (xs : List A) → ((x : A) → P x → Q x) → All P xs → All Q xs
All-map P Q [] k h = tt
All-map P Q (x ∷ xs) k (h, hs) = (k x h, All-map P Q xs k hs)

abbrev values : Feature → List Feature → Text
values f fs = join b',' (map print_feature (f ∷ fs))

pub flag-Lacks : (flag : Flag) → IsFlag flag → Lacks 0x1f (print_flag flag)
flag-Lacks (features f fs) h = Lacks-append 0x1f (codes "target-feature=") _ (omega arith) (
    Lacks-join 0x1f b',' (map print_feature (f ∷ fs)) (omega arith) (
      print_features-Lacks 0x1f (f ∷ fs) (omega arith) (omega arith)
        (All-map IsFeature (λ g. Lacks 0x1f (g.ext ∷ g.tail)) (f ∷ fs) (λ g k. k.2) h)))
flag-Lacks (other text) h = h.1

pub flags-Lacks : (flags : List Flag) → All IsFlag flags → All (Lacks 0x1f) (map print_flag flags)
flags-Lacks [] h = tt
flags-Lacks (flag ∷ flags) (h, hs) = (flag-Lacks flag h, flags-Lacks flags hs)

-- A flag that sets features has the value behind its `=`.
values_lem :
    (f : Feature) (fs : List Feature)
    → All IsFeature (f ∷ fs)
    → split b'=' (print_flag (features f fs)) ≡ codes "target-feature" ∷ values f fs ∷ []
unfolding join split
values_lem f fs h =
    split-append b'=' (codes "target-feature") (values f fs) (omega arith)
    ∙ ap (λ ws. codes "target-feature" ∷ ws)
        (split_all b'=' (values f fs) (
          Lacks-join b'=' b',' (map print_feature (f ∷ fs)) (omega arith) (
            print_features-Lacks b'=' (f ∷ fs) (omega arith) (omega arith)
              (All-map IsFeature (λ g. Lacks b'=' (g.ext ∷ g.tail)) (f ∷ fs) (λ g k. k.1) h))))

split-values :
    (f : Feature) (fs : List Feature)
    → All IsFeature (f ∷ fs)
    → split b',' (values f fs) ≡ map print_feature (f ∷ fs)
unfolding join
split-values f fs h = split-join b',' (print_feature f) (map print_feature fs) (
    print_features-Lacks b',' (f ∷ fs) (omega arith) (omega arith)
      (All-map IsFeature (λ g. Lacks b',' (g.ext ∷ g.tail)) (f ∷ fs) (λ g k. k.0) h))

pub apply_flags_lem :
    (flags : List Flag) (e : HashSet)
    → All IsFlag flags
    → Yields (override e (all_features flags)) (apply_flags (map print_flag flags) e)
unfolding apply_flags
apply_flags_lem [] e h = record { set = e; returns = refl; members = λ c. refl }
apply_flags_lem (other text ∷ flags) e (h, hs) = rw (h.0, apply_flags) (apply_flags_lem flags e hs)
apply_flags_lem (features f fs ∷ flags) e (h, hs) =
    let one = apply_features_lem (f ∷ fs) e in
    let rest = apply_flags_lem flags one.set hs in
    record {
      set = rest.set;
      returns =
          apply_flags-cons (print_flag (features f fs)) (map print_flag flags) e
          ∙ apply_one-value (print_flag (features f fs)) (codes "target-feature") (values f fs)
              (apply_flags (map print_flag flags)) e
              (starts_with-append (codes "target-feature=") (values f fs)) (values_lem f fs h)
          ∙ (rw (split-values f fs h, one.returns) rest.returns);
      members = λ c.
          rest.members c
          ∙ override-ext one.set (override e (f ∷ fs)) (all_features flags) c (one.members c)
          ∙ override-append e (f ∷ fs) (all_features flags) c;
    }

pub letters_lem : (letters : Text) → StartsAlpha letters → skip_digits letters ≡ letters
unfolding skip_digits
letters_lem [] h = refl
letters_lem (x ∷ s) h = rw h refl

digits-Lacks : (ds : Text) → All (λ d. is_ascii_digit d ≡ true) ds → Lacks b'-' ds
unfolding is_ascii_digit
digits-Lacks [] h = tt
digits-Lacks (d ∷ ds) (hd, hs) = (ground arith, digits-Lacks ds hs)

digit_not_r : (d : ℕ) → is_ascii_digit d ≡ true → d ≢ b'r'
unfolding is_ascii_digit
digit_not_r d h = ground arith

-- What stands between `riscv` and the first dash, without the digits, are the letters.
pub arch_lem :
    (digits letters rest : Text)
    → digits ≢ []
    → All (λ d. is_ascii_digit d ≡ true) digits
    → Lacks b'-' letters
    → split b'-' (
        trim_start_matches
          (codes "riscv")
          (codes "riscv" ++ (digits ++ (letters ++ (b'-' ∷ rest)))))
      ≡ (digits ++ letters) ∷ split b'-' rest
arch_lem [] letters rest some_digits hd hl = absurd (some_digits refl)
arch_lem (d ∷ ds) letters rest some_digits (hd, hs) hl =
    ap (split b'-') (
      trim_start_matches-append b'r' (codes "iscv") d _ (digit_not_r d hd)
      ∙ sym (append_assoc (d ∷ ds) letters (b'-' ∷ rest)))
    ∙ split-append b'-' ((d ∷ ds) ++ letters) rest
        (Lacks-append b'-' (d ∷ ds) letters (digits-Lacks (d ∷ ds) (hd, hs)) hl)

-- On a target that is written as `riscv`, digits, letters and a rest behind a dash, and on flags of
-- which those that set features have well-formed ones, parse_extensions returns the set of the
-- active extensions: the last feature that begins with the letter decides, and if there is none the
-- letters of the target do, where `g` also stands for `imafd`.
pub parse_extensions-active :
    (t : Target) (flags : List Flag)
    → IsTarget t
    → All IsFlag flags
    → Yields
        (active t.letters (all_features flags))
        (parse_extensions (print_target t) (print_flags flags))
unfolding parse_extensions
parse_extensions-active t flags ht hf =
    let start : HashSet = expand_g (collect t.letters) in
    let run = apply_flags_lem flags start hf in
    let letters =
      skip_digits-append t.digits t.letters ht.digits ∙ letters_lem t.letters ht.letters in
    record {
      set = run.set;
      returns =
          rw (arch_lem t.digits t.letters t.rest ht.some_digits ht.digits ht.no_dash, letters)
            (drop_empty_lem (split 0x1f (print_flags flags)) start
              ∙ join_lem flags start (flags-Lacks flags hf)
              ∙ run.returns);
      members = λ c.
          run.members c
          ∙ override-ext start (base t.letters) (all_features flags) c (expand_g_lem t.letters c);
    }
