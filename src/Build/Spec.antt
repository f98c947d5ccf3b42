-- ===== src/Build/Spec.antt =====
-- What a target and the flags of a build mean for the extensions: the input of parse_extensions of
-- examples/atalanta-bsp/build.rs as it is written, and the extensions that are then active.
use atalanta.Prelude.{
  codes, ℕ, Bool, true, false, ◌&&◌, ◌||◌, Option, some, none, List, [], ◌∷◌, ◌++◌, ◌≡◌, ◌≢◌, All,
  map, ◌==◌, if◌then◌else◌,
}
use atalanta.Build.{HashSet, collect}
use atalanta.Build.Chars.{Text, join, Lacks, starts_with, is_ascii_digit}

-- `riscv32imac-unknown-none-elf` has the digits `32`, the letters `imac`, and a rest.
pub record Target : Type 0 where
  pub digits : Text
  pub letters : Text
  pub rest : Text

abbrev pub print_target : Target → Text
print_target t = codes "riscv" ++ (t.digits ++ (t.letters ++ (b'-' ∷ t.rest)))

abbrev pub StartsAlpha : Text → Type 0
StartsAlpha [] = Unit
StartsAlpha (x ∷ s) = is_ascii_digit x ≡ false

pub record IsTarget (t : Target) : Type 0 where
  pub some_digits : t.digits ≢ []
  pub digits : All (λ d. is_ascii_digit d ≡ true) t.digits
  pub letters : StartsAlpha t.letters
  pub no_dash : Lacks b'-' t.letters

-- `+m`, `-c`, `+forced-atomics`.
pub record Feature : Type 0 where
  pub on : Bool
  pub ext : ℕ
  pub tail : Text

abbrev pub print_feature : Feature → Text
print_feature f = (if f.on then b'+' else b'-') ∷ (f.ext ∷ f.tail)

abbrev pub IsFeature : Feature → Type 0
IsFeature f =
    Lacks b',' (f.ext ∷ f.tail) × Lacks b'=' (f.ext ∷ f.tail) × Lacks 0x1f (f.ext ∷ f.tail)

-- `features` has one feature and then others.
pub data Flag : Type 0 where
  features : Feature → List Feature → Flag
  other : Text → Flag

abbrev pub print_flag : Flag → Text
print_flag (features f fs) = codes "target-feature=" ++ join b',' (map print_feature (f ∷ fs))
print_flag (other text) = text

abbrev pub IsFlag : Flag → Type 0
IsFlag (features f fs) = All IsFeature (f ∷ fs)
IsFlag (other text) = (starts_with (codes "target-feature=") text ≡ false) × Lacks 0x1f text

abbrev pub print_flags : List Flag → Text
print_flags flags = join 0x1f (map print_flag flags)

-- The features of all flags, in order.
abbrev pub all_features : List Flag → List Feature
all_features [] = []
all_features (features f fs ∷ flags) = f ∷ (fs ++ all_features flags)
all_features (other text ∷ flags) = all_features flags

-- The sign of the last feature that names `c`.
abbrev pub last_sign : List Feature → ℕ → Option Bool
last_sign [] c = none
last_sign (f ∷ fs) c = elim (last_sign fs c) [
  | some on ↦ some on
  | none ↦ if f.ext == c then some f.on else none
]

-- `g` stands for itself and the letters `imafd`.
abbrev pub base : Text → HashSet
base letters c = collect letters c || (collect letters b'g' && collect (codes "imafd") c)

-- A feature that names the extension decides, the last one; else the target does.
abbrev pub active : Text → List Feature → HashSet
active letters fs c = elim (last_sign fs c) [ some on ↦ on | none ↦ base letters c ]
