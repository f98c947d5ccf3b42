-- ===== src/Macros/NestedInterrupt.antt =====
-- The attribute `nested_interrupt`: examples/atalanta-bsp/macros/src/trampoline.rs and validate.rs.
-- What the library syn parses of a function is a record, and a token is its text.
use Prim.Native.String.{String}
use text.Mathlib.Text.{◌==◌ as text_eq}
use atalanta.Prelude.{
  ℕ, Bool, true, false, not, ◌&&◌, ◌||◌, Option, some, none, List, [], ◌∷◌, ◌==◌, if◌then◌else◌,
}
use atalanta.Machine.Hart.{Instr}
use atalanta.Macros.Trampoline.{generate_pcs_trap_entry, generate_nested_trap_entry}

pub data ReturnType : Type 0 where
  unit never other : ReturnType

abbrev pub is_valid_return : ReturnType → Bool
is_valid_return unit = true
is_valid_return never = true
is_valid_return other = false

-- `inputs` and `generics` are numbers of parameters; the Booleans say what is there.
pub record ItemFn : Type 0 where
  pub ident : String
  pub inputs : ℕ
  pub constness : Bool
  pub asyncness : Bool
  pub inherited : Bool
  pub abi : Bool
  pub generics : ℕ
  pub where_clause : Bool
  pub variadic : Bool
  pub output : ReturnType

pub data CompileError : Type 0 where
  should_not_have_arguments must_have_signature accepts_no_other_arguments : CompileError

abbrev pub first_is_pcs : List String → Bool
first_is_pcs [] = true
first_is_pcs (arg ∷ args) = text_eq arg "pcs"

abbrev pub any_is_pcs : List String → Bool
any_is_pcs [] = false
any_is_pcs (arg ∷ args) = text_eq arg "pcs" || any_is_pcs args

unfoldable pub valid_signature : ItemFn → Bool
valid_signature f =
    not f.constness
    && not f.asyncness
    && f.inherited
    && not f.abi
    && f.generics == 0
    && not f.where_clause
    && not f.variadic
    && is_valid_return f.output

unfoldable pub validate_interrupt_handler : List String → ItemFn → Option CompileError
unfolding valid_signature
validate_interrupt_handler args f =
    if not (f.inputs == 0)
    then some CompileError.should_not_have_arguments
    else if not (valid_signature f)
    then some CompileError.must_have_signature
    else if not (first_is_pcs args)
    then some CompileError.accepts_no_other_arguments
    else none

-- The function behind its trap entry, under its exported name.
pub data Expansion : Type 0 where
  compile_error : CompileError → Expansion
  exported : List Instr → String → ItemFn → Expansion

unfoldable pub nested_interrupt : List String → ItemFn → Expansion
unfolding validate_interrupt_handler generate_pcs_trap_entry generate_nested_trap_entry
nested_interrupt args f = elim (validate_interrupt_handler args f) [
  | some error ↦ compile_error error
  | none ↦
      let start_trap : List Instr =
        if any_is_pcs args
        then generate_pcs_trap_entry f.ident
        else generate_nested_trap_entry f.ident in
      exported start_trap f.ident f
]
