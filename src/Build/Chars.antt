-- ===== src/Build/Chars.antt =====
-- Texts as lists of characters, with the methods of `str` and of iterators that
-- examples/atalanta-bsp/build.rs calls.
use atalanta.Prelude.{
  ℕ, zero, suc, Bool, true, false, ◌&&◌, Option, some, none, List, [], ◌∷◌, ◌++◌, ◌≡◌, refl, sym,
  ◌≢◌, All, leb, ◌==◌, ==_iff, eq_false_of_ne, if◌then◌else◌, length,
}

abbrev pub Text : Type 0
Text = List ℕ

unfoldable pub is_ascii_digit : ℕ → Bool
is_ascii_digit c = leb b'0' c && leb c b'9'

unfoldable pub is_empty : Text → Bool
is_empty [] = true
is_empty (x ∷ s) = false

unfoldable pub starts_with : Text → Text → Bool
starts_with [] s = true
starts_with (p ∷ ps) [] = false
starts_with (p ∷ ps) (x ∷ s) = (p == x) && starts_with ps s

unfoldable pub strip_prefix : Text → Text → Option Text
strip_prefix [] s = some s
strip_prefix (p ∷ ps) [] = none
strip_prefix (p ∷ ps) (x ∷ s) = let rest = strip_prefix ps s in if p == x then rest else none

unfoldable pub trim_times : ℕ → Text → Text → Text
trim_times zero p s = s
trim_times (suc n) p s = elim (strip_prefix p s) [ none ↦ s | some rest ↦ trim_times n p rest ]

-- `trim_start_matches`, of a prefix that is not empty.
unfoldable pub trim_start_matches : Text → Text → Text
unfolding trim_times strip_prefix
trim_start_matches p s = trim_times (length s) p s

-- `chars().skip_while(|c| c.is_ascii_digit())`
unfoldable pub skip_digits : Text → Text
skip_digits [] = []
skip_digits (c ∷ s) = let rest = skip_digits s in if is_ascii_digit c then rest else c ∷ s

abbrev pub push_char : ℕ → List Text → List Text
push_char x [] = (x ∷ []) ∷ []
push_char x (w ∷ ws) = (x ∷ w) ∷ ws

unfoldable pub split : ℕ → Text → List Text
split sep [] = [] ∷ []
split sep (x ∷ s) = let rest = split sep s in if x == sep then [] ∷ rest else push_char x rest

-- `filter(|arg| !arg.is_empty())`
unfoldable pub drop_empty : List Text → List Text
drop_empty [] = []
drop_empty (w ∷ ws) = let rest = drop_empty ws in if is_empty w then rest else w ∷ rest

-- The texts, with the separator between them.
unfoldable pub join : ℕ → List Text → Text
join sep [] = []
join sep (w ∷ []) = w
join sep (w ∷ v ∷ ws) = w ++ (sep ∷ join sep (v ∷ ws))

abbrev pub Lacks : ℕ → Text → Type 0
Lacks sep s = All (λ x. x ≢ sep) s

pub Lacks-append : (sep : ℕ) (s t : Text) → Lacks sep s → Lacks sep t → Lacks sep (s ++ t)
Lacks-append sep [] t hs ht = ht
Lacks-append sep (x ∷ s) t (hx, hs) ht = (hx, Lacks-append sep s t hs ht)

pub strip_prefix-append : (p s : Text) → strip_prefix p (p ++ s) ≡ some s
unfolding strip_prefix
strip_prefix-append [] s = refl
strip_prefix-append (x ∷ p) s = rw ((==_iff x x).1 refl) (strip_prefix-append p s)

pub starts_with-append : (p s : Text) → starts_with p (p ++ s) ≡ true
unfolding starts_with
starts_with-append [] s = refl
starts_with-append (x ∷ p) s = rw ((==_iff x x).1 refl) (starts_with-append p s)

pub split_all : (sep : ℕ) (s : Text) → Lacks sep s → split sep s ≡ s ∷ []
unfolding split
split_all sep [] h = refl
split_all sep (x ∷ s) (hx, hs) = rw (eq_false_of_ne x sep hx, split_all sep s hs) refl

pub split-append :
    (sep : ℕ) (s rest : Text) → Lacks sep s → split sep (s ++ (sep ∷ rest)) ≡ s ∷ split sep rest
unfolding split
split-append sep [] rest h = rw ((==_iff sep sep).1 refl) refl
split-append sep (x ∷ s) rest (hx, hs) =
    rw (eq_false_of_ne x sep hx, split-append sep s rest hs) refl

-- `split` undoes `join`.
pub split-join :
    (sep : ℕ) (w : Text) (ws : List Text)
    → All (Lacks sep) (w ∷ ws)
    → split sep (join sep (w ∷ ws)) ≡ w ∷ ws
unfolding join
split-join sep w [] (h, hs) = split_all sep w h
split-join sep w (v ∷ ws) (h, hs) =
    rw (split-append sep w (join sep (v ∷ ws)) h, split-join sep v ws hs) refl

pub skip_digits-append :
    (ds s : Text) → All (λ d. is_ascii_digit d ≡ true) ds → skip_digits (ds ++ s) ≡ skip_digits s
unfolding skip_digits
skip_digits-append [] s h = refl
skip_digits-append (d ∷ ds) s (hd, hs) = rw hd (skip_digits-append ds s hs)

pub Lacks-join : (sep d : ℕ) (ws : List Text) → d ≢ sep → All (Lacks sep) ws → Lacks sep (join d ws)
unfolding join
Lacks-join sep d [] ne h = tt
Lacks-join sep d (w ∷ []) ne (h, hs) = h
Lacks-join sep d (w ∷ v ∷ ws) ne (h, hs) =
    Lacks-append sep w (d ∷ join d (v ∷ ws)) h (ne, Lacks-join sep d (v ∷ ws) ne hs)

trim_miss : (n : ℕ) (p s : Text) → strip_prefix p s ≡ none → trim_times n p s ≡ s
unfolding trim_times
trim_miss zero p s e = refl
trim_miss (suc n) p s e = rw (e, trim_times) refl

pub trim_start_matches-append :
    (p0 : ℕ) (p : Text) (c : ℕ) (s : Text)
    → c ≢ p0
    → trim_start_matches (p0 ∷ p) ((p0 ∷ p) ++ (c ∷ s)) ≡ c ∷ s
unfolding trim_start_matches
trim_start_matches-append p0 p c s ne =
    let miss : strip_prefix (p0 ∷ p) (c ∷ s) ≡ none =
      unfold strip_prefix in (rw (eq_false_of_ne p0 c (λ e. ne (sym e))) refl) in
    rw (strip_prefix-append (p0 ∷ p) (c ∷ s), trim_times)
      (trim_miss (length (p ++ (c ∷ s))) (p0 ∷ p) (c ∷ s) miss)
