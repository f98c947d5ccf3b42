-- ===== src/Build/Errors.antt =====
-- The panics of parse_extensions of examples/atalanta-bsp/build.rs.
use atalanta.Prelude.{
  codes, ℕ, Option, some, none, List, [], ◌∷◌, ◌++◌, ◌≡◌, ◌≢◌, refl, ap, ◌∙◌, All, map, arith,
  Bool-cases, inl, inr, get_elem?,
}
use atalanta.Build.{
  HashSet, collect, expand_g, apply_feature, apply_features, apply_flags, parse_extensions, ◌>>=◌,
}
use atalanta.Build.Chars.{
  Text, join, Lacks, Lacks-append, Lacks-join, starts_with, starts_with-append, split, split_all,
  split-append, split-join, skip_digits-append,
}
use atalanta.Build.Spec.{Target, print_target, IsTarget, Feature, print_feature, IsFeature}
use atalanta.Build.Extensions.{
  print_features-Lacks, All-map, apply_feature_lem, apply_flags-cons, apply_one, apply_one-value,
  drop_empty_lem, arch_lem, letters_lem,
}

-- A feature that is not a sign and a letter.
pub data IsMalformed : Text → Type 0 where
  empty : IsMalformed []
  alone : (op : ℕ) → IsMalformed (op ∷ [])
  unsigned : (op c : ℕ) (s : Text) → op ≢ b'+' → op ≢ b'-' → IsMalformed (op ∷ c ∷ s)

apply_feature_panics : (text : Text) (e : HashSet) → IsMalformed text → apply_feature text e ≡ none
unfolding apply_feature
apply_feature_panics _ e empty = refl
apply_feature_panics _ e (alone op) = ground arith
apply_feature_panics _ e (unsigned op c s hp hm) = ground arith

apply_features_panics :
    (fs : List Feature) (text : Text) (rest : List Text) (e : HashSet)
    → IsMalformed text
    → apply_features (map print_feature fs ++ (text ∷ rest)) e ≡ none
unfolding apply_features
apply_features_panics [] text rest e h = rw (apply_feature_panics text e h) refl
apply_features_panics (f ∷ fs) text rest e h =
    let one = apply_feature_lem f e in rw one.returns (apply_features_panics fs text rest one.set h)

All-append : {A : Type 0} (P : A → Type 0) (xs ys : List A) → All P xs → All P ys → All P (xs ++ ys)
All-append P [] ys hx hy = hy
All-append P (x ∷ xs) ys (h, hs) hy = (h, All-append P xs ys hs hy)

-- `split` undoes `join` where there is a text in the list.
split-join_mid :
    (sep : ℕ) (ws : List Text) (v : Text) (vs : List Text)
    → All (Lacks sep) (ws ++ (v ∷ vs))
    → split sep (join sep (ws ++ (v ∷ vs))) ≡ ws ++ (v ∷ vs)
split-join_mid sep [] v vs h = split-join sep v vs h
split-join_mid sep (w ∷ ws) v vs h = split-join sep w (ws ++ (v ∷ vs)) h

-- The flag `target-feature=` with well-formed features, a text and more texts.
abbrev pub bad_flag : List Feature → Text → List Text → Text
bad_flag fs text rest = codes "target-feature=" ++ join b',' (map print_feature fs ++ (text ∷ rest))

-- A text with no separator in it.
abbrev pub IsPlain : Text → Type 0
IsPlain s = Lacks b',' s × Lacks b'=' s × Lacks 0x1f s

module _ (fs : List Feature) (text : Text) (rest : List Text) (wf : All IsFeature fs)
    (plain : All IsPlain (text ∷ rest)) where
  pieces-Lacks :
      (sep : ℕ)
      → b'+' ≢ sep
      → b'-' ≢ sep
      → ((f : Feature) → IsFeature f → Lacks sep (f.ext ∷ f.tail))
      → ((s : Text) → IsPlain s → Lacks sep s)
      → All (Lacks sep) (map print_feature fs ++ (text ∷ rest))
  pieces-Lacks sep hp hm kf ks =
      All-append (Lacks sep) (map print_feature fs) (text ∷ rest)
        (print_features-Lacks sep fs hp hm
          (All-map IsFeature (λ f. Lacks sep (f.ext ∷ f.tail)) fs kf wf))
        (All-map IsPlain (Lacks sep) (text ∷ rest) ks plain)

  bad_flag-Lacks : Lacks 0x1f (bad_flag fs text rest)
  bad_flag-Lacks = Lacks-append 0x1f (codes "target-feature=") _ (omega arith) (
      Lacks-join 0x1f b',' (map print_feature fs ++ (text ∷ rest)) (omega arith)
        (pieces-Lacks 0x1f (omega arith) (omega arith) (λ f k. k.2) (λ s k. k.2)))

  bad_flag_value :
      split b'=' (bad_flag fs text rest)
      ≡ codes "target-feature" ∷ join b',' (map print_feature fs ++ (text ∷ rest)) ∷ []
  bad_flag_value =
      let value : Text = join b',' (map print_feature fs ++ (text ∷ rest)) in
      split-append b'=' (codes "target-feature") value (omega arith)
      ∙ ap (λ ws. codes "target-feature" ∷ ws)
          (split_all b'=' value (
            Lacks-join b'=' b',' (map print_feature fs ++ (text ∷ rest)) (omega arith)
              (pieces-Lacks b'=' (omega arith) (omega arith) (λ f k. k.1) (λ s k. k.1))))

  bad_flag_panics :
      (later : List Text) (e : HashSet)
      → IsMalformed text
      → apply_flags (bad_flag fs text rest ∷ later) e ≡ none
  bad_flag_panics later e bad =
      let value : Text = join b',' (map print_feature fs ++ (text ∷ rest)) in
      apply_flags-cons (bad_flag fs text rest) later e
      ∙ apply_one-value (bad_flag fs text rest) (codes "target-feature") value (apply_flags later) e
          (starts_with-append (codes "target-feature=") value) bad_flag_value
      ∙ (rw
          (
            split-join_mid b',' (map print_feature fs) text rest
                (pieces-Lacks b',' (omega arith) (omega arith) (λ f k. k.0) (λ s k. k.0)),
            apply_features_panics fs text rest e bad,
          )
          refl)

bind-none :
    {A B : Type 0} (m : Option A) (f : A → Option B) → ((a : A) → f a ≡ none) → (m >>= f) ≡ none
bind-none none f h = refl
bind-none (some a) f h = h a

apply_one-none :
    (k : Text) (next : HashSet → Option HashSet) (e : HashSet)
    → ((e' : HashSet) → next e' ≡ none)
    → apply_one k next e ≡ none
unfolding starts_with
apply_one-none k next e h = elim (Bool-cases (starts_with (codes "target-feature=") k)) [
  | inl yes_flag ↦ rw yes_flag (
      bind-none (get_elem? (split b'=' k) 1) _
        (λ flags. bind-none (apply_features (split b',' flags) e) next h))
  | inr no_flag ↦ rw no_flag (h e)
]

-- Flags before one that panics do not help.
after_panics :
    (ws vs : List Text) (e : HashSet)
    → ((e' : HashSet) → apply_flags vs e' ≡ none)
    → apply_flags (ws ++ vs) e ≡ none
after_panics [] vs e h = h e
after_panics (w ∷ ws) vs e h =
    apply_flags-cons w (ws ++ vs) e
    ∙ apply_one-none w (apply_flags (ws ++ vs)) e (λ e'. after_panics ws vs e' h)

-- With a malformed feature in any flag that sets features, behind any flags and well-formed
-- features, and before any others, parse_extensions panics.
pub parse_extensions_panics :
    (t : Target) (before later : List Text) (fs : List Feature) (text : Text) (rest : List Text)
    → IsTarget t
    → All (Lacks 0x1f) before
    → All (Lacks 0x1f) later
    → All IsFeature fs
    → All IsPlain (text ∷ rest)
    → IsMalformed text
    → parse_extensions (print_target t) (join 0x1f (before ++ (bad_flag fs text rest ∷ later)))
      ≡ none
unfolding parse_extensions
parse_extensions_panics t before later fs text rest ht hb hl wf plain bad =
    let start : HashSet = expand_g (collect t.letters) in
    let bad_one : Text = bad_flag fs text rest in
    let letters =
      skip_digits-append t.digits t.letters ht.digits ∙ letters_lem t.letters ht.letters in
    let pieces = split-join_mid 0x1f before bad_one later (
      All-append (Lacks 0x1f) before (bad_one ∷ later) hb
        (bad_flag-Lacks fs text rest wf plain, hl)) in
    rw (arch_lem t.digits t.letters t.rest ht.some_digits ht.digits ht.no_dash, letters, pieces)
      (drop_empty_lem (before ++ (bad_one ∷ later)) start
        ∙ after_panics before (bad_one ∷ later) start
            (λ e. bad_flag_panics fs text rest wf plain later e bad))
