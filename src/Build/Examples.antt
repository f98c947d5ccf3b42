-- ===== src/Build/Examples.antt =====
-- The theorems on the build script at concrete inputs.
use atalanta.Prelude.{codes, true, false, none, [], ◌∷◌, ◌++◌, ◌≡◌, refl, arith}
use atalanta.Build.{parse_extensions}
use atalanta.Build.Chars.{join, starts_with, is_ascii_digit}
use atalanta.Build.Spec.{
  Target, print_target, IsTarget, Feature, features, other, print_flags, active,
}
use atalanta.Build.Extensions.{Yields, parse_extensions-active}
use atalanta.Build.Errors.{bad_flag, empty, parse_extensions_panics}

abbrev board : Target
board = record { digits = codes "32"; letters = codes "emc"; rest = codes "unknown-none-elf" }

board-IsTarget : IsTarget board
unfolding is_ascii_digit
board-IsTarget = record {
  some_digits = λ e. cc;
  digits = (refl, (refl, tt));
  letters = refl;
  no_dash = omega arith;
}

abbrev forced : Feature
forced = record { on = true; ext = b'f'; tail = codes "orced-atomics" }

abbrev no_c : Feature
no_c = record { on = false; ext = b'c'; tail = [] }

-- `-C target-feature=+forced-atomics,-c`: the letter f comes in and the letter c goes.
parse_extensions-active_example : Yields (active (codes "emc") (forced ∷ no_c ∷ [])) (
    parse_extensions
      (print_target board)
      (print_flags (other (codes "-C") ∷ features forced (no_c ∷ []) ∷ [])))
unfolding starts_with
parse_extensions-active_example =
    parse_extensions-active board (other (codes "-C") ∷ features forced (no_c ∷ []) ∷ [])
      board-IsTarget ((refl, omega arith), ((omega arith, (omega arith, tt)), tt))

-- `-C target-feature=-c,`
parse_extensions_panics_example :
    parse_extensions
      (print_target board)
      (join 0x1f ((codes "-C" ∷ []) ++ (bad_flag (no_c ∷ []) [] [] ∷ [])))
    ≡ none
parse_extensions_panics_example =
    parse_extensions_panics board (codes "-C" ∷ []) [] (no_c ∷ []) [] [] board-IsTarget
      (omega arith, tt) tt (omega arith, tt) ((tt, tt, tt), tt) empty
