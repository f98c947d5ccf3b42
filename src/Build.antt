-- ===== src/Build.antt =====
-- The build script: examples/atalanta-bsp/build.rs. A set of characters is its membership test, and
-- `none` is a panic.
pub mod Chars
pub mod Spec
pub mod Extensions
pub mod Errors
pub mod Main
mod Examples
use atalanta.Prelude.{
  codes, ℕ, Bool, true, false, ◌||◌, Option, some, none, List, [], ◌∷◌, get_elem?, ◌==◌,
  if◌then◌else◌,
}
use atalanta.Build.Chars.{Text, starts_with, trim_start_matches, skip_digits, split, drop_empty}

abbrev pub HashSet : Type 0
HashSet = ℕ → Bool

-- `collect()`
abbrev pub collect : Text → HashSet
collect [] c = false
collect (x ∷ s) c = (x == c) || collect s c

abbrev pub insert : ℕ → HashSet → HashSet
insert c e x = if c == x then true else e x

abbrev pub remove : ℕ → HashSet → HashSet
remove c e x = if c == x then false else e x

infixl 5 ◌>>=◌
abbrev pub ◌>>=◌ : {A B : Type 0} → Option A → (A → Option B) → Option B
none >>= f = none
some a >>= f = f a

-- The `g` shorthand.
unfoldable pub expand_g : HashSet → HashSet
expand_g e =
    if e b'g' then insert b'd' (insert b'f' (insert b'a' (insert b'm' (insert b'i' e)))) else e

-- The closure of `for_each`: an index out of range and another operation panic.
unfoldable pub apply_feature : Text → HashSet → Option HashSet
apply_feature feature e = do
  op ← get_elem? feature 0
  if op == b'+'
      then get_elem? feature 1 >>= (λ c. some (insert c e))
      else if op == b'-'
      then get_elem? feature 1 >>= (λ c. some (remove c e))
      else none

unfoldable pub apply_features : List Text → HashSet → Option HashSet
apply_features [] e = some e
apply_features (feature ∷ rest) e = do e' ← apply_feature feature e; apply_features rest e'

-- The flags that set features, one after the other.
unfoldable pub apply_flags : List Text → HashSet → Option HashSet
unfolding apply_features
apply_flags [] e = some e
apply_flags (k ∷ rest) e = elim (starts_with (codes "target-feature=") k) [
  | false ↦ apply_flags rest e
  | true ↦ (do
    flags ← get_elem? (split b'=' k) 1
    e' ← apply_features (split b',' flags) e
    apply_flags rest e')
]

unfoldable pub parse_extensions : Text → Text → Option HashSet
unfolding expand_g apply_feature apply_flags starts_with trim_start_matches skip_digits split
    drop_empty
parse_extensions target cargo_flags = do
  arch ← get_elem? (split b'-' (trim_start_matches (codes "riscv") target)) 0
  let extensions : HashSet = expand_g (collect (skip_digits arch))
  apply_flags (drop_empty (split 0x1f cargo_flags)) extensions
