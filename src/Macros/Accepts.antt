-- ===== src/Macros/Accepts.antt =====
-- What the attribute `nested_interrupt` of examples/atalanta-bsp/macros/src/ accepts, and what it
-- makes of it.
use Prim.Native.String.{String}
use text.Mathlib.TextEquality.{eq_iff}
use atalanta.Prelude.{
  true, false, ◌≡◌, ◌↔◌, refl, sym, ◌∙◌, Option, some, none, List, [], ◌∷◌, arith, if◌then◌else◌,
}
use atalanta.Machine.Hart.{Instr}
use atalanta.Macros.Trampoline.{generate_pcs_trap_entry, generate_nested_trap_entry}
use atalanta.Macros.NestedInterrupt.{
  ReturnType, unit, never, other, ItemFn, CompileError, Expansion, compile_error, exported,
  nested_interrupt, validate_interrupt_handler, valid_signature, any_is_pcs, first_is_pcs,
  is_valid_return,
}

abbrev pub ReturnsNothing : ReturnType → Type 0
ReturnsNothing unit = Unit
ReturnsNothing never = Unit
ReturnsNothing other = ⊥

-- `[unsafe] fn() [-> !]`
pub record IsHandler (f : ItemFn) : Type 0 where
  pub no_inputs : f.inputs ≡ 0
  pub not_const : f.constness ≡ false
  pub not_async : f.asyncness ≡ false
  pub private : f.inherited ≡ true
  pub no_abi : f.abi ≡ false
  pub no_generics : f.generics ≡ 0
  pub no_where : f.where_clause ≡ false
  pub not_variadic : f.variadic ≡ false
  pub no_value : ReturnsNothing f.output

-- The trap entry that the arguments ask for: the plain one, or that for PCS where the first
-- argument is pcs, whatever follows it.
abbrev pub AsksFor : List String → String → List Instr → Type 0
AsksFor [] ident entry = entry ≡ generate_nested_trap_entry ident
AsksFor (arg ∷ args) ident entry = (arg ≡ "pcs") × (entry ≡ generate_pcs_trap_entry ident)

no_value_lem : (r : ReturnType) → is_valid_return r ≡ true → ReturnsNothing r
no_value_lem unit e = tt
no_value_lem never e = tt
no_value_lem other e = cc

valid_return_lem : (r : ReturnType) → ReturnsNothing r → is_valid_return r ≡ true
valid_return_lem unit h = refl
valid_return_lem never h = refl
valid_return_lem other h = absurd h

valid_signature→ : (f : ItemFn) → f.inputs ≡ 0 → valid_signature f ≡ true → IsHandler f
unfolding valid_signature
valid_signature→ f e h = record {
  no_inputs = e;
  not_const = ground arith;
  not_async = ground arith;
  private = ground arith;
  no_abi = ground arith;
  no_generics = ground arith;
  no_where = ground arith;
  not_variadic = ground arith;
  no_value = no_value_lem f.output (ground arith);
}

→valid_signature : (f : ItemFn) → IsHandler f → valid_signature f ≡ true
unfolding valid_signature
→valid_signature f h = let out = valid_return_lem f.output h.no_value in ground arith

-- The validation finds nothing in a handler with no argument or with pcs first, and only there.
validate_none :
    (args : List String) (f : ItemFn)
    → IsHandler f
    → first_is_pcs args ≡ true
    → validate_interrupt_handler args f ≡ none
unfolding validate_interrupt_handler
validate_none args f h first = let valid = →valid_signature f h in ground arith

none_validate :
    (args : List String) (f : ItemFn)
    → validate_interrupt_handler args f ≡ none
    → IsHandler f × (first_is_pcs args ≡ true)
unfolding validate_interrupt_handler
none_validate args f h =
    let inputs : f.inputs ≡ 0 = ground arith in
    let valid : valid_signature f ≡ true = ground arith in
    (valid_signature→ f inputs valid, ground arith)

-- The trap entry of accepted arguments.
start_trap : List String → String → List Instr
start_trap args ident =
    if any_is_pcs args then generate_pcs_trap_entry ident else generate_nested_trap_entry ident

start_trap_pcs :
    (arg : String) (args : List String) (ident : String)
    → arg ≡ "pcs"
    → start_trap (arg ∷ args) ident ≡ generate_pcs_trap_entry ident
unfolding start_trap
start_trap_pcs arg args ident e = rw ((eq_iff arg "pcs").1 e) refl

asked_first :
    (args : List String) (ident : String) (entry : List Instr)
    → AsksFor args ident entry
    → (first_is_pcs args ≡ true) × (start_trap args ident ≡ entry)
unfolding start_trap
asked_first [] ident entry h = (refl, sym h)
asked_first (arg ∷ args) ident entry (e, h) =
    ((eq_iff arg "pcs").1 e, start_trap_pcs arg args ident e ∙ sym h)

first_asked :
    (args : List String) (ident : String) (entry : List Instr)
    → first_is_pcs args ≡ true
    → start_trap args ident ≡ entry
    → AsksFor args ident entry
unfolding start_trap
first_asked [] ident entry h e = sym e
first_asked (arg ∷ args) ident entry h e =
    let pcs = (eq_iff arg "pcs").0 h in (pcs, sym e ∙ start_trap_pcs arg args ident pcs)

-- The expansion after a validation.
expand : Option CompileError → List Instr → ItemFn → Expansion
expand (some error) entry f = compile_error error
expand none entry f = exported entry f.ident f

nested_interrupt-expand :
    (args : List String) (f : ItemFn)
    → nested_interrupt args f
      ≡ expand (validate_interrupt_handler args f) (start_trap args f.ident) f
unfolding nested_interrupt start_trap expand
nested_interrupt-expand args f =
    elim (validate_interrupt_handler args f)
      as (λ r.
        elim r as (λ _. Expansion) [
          | some error ↦ compile_error error
          | none ↦ exported (start_trap args f.ident) f.ident f
        ]
        ≡ expand r (start_trap args f.ident) f) [ some error ↦ refl | none ↦ refl ]

expand_exported :
    (r : Option CompileError) (start entry : List Instr) (f : ItemFn)
    → expand r start f ≡ exported entry f.ident f
    → (r ≡ none) × (start ≡ entry)
unfolding expand
expand_exported (some error) start entry f e = cc
expand_exported none start entry f e = (refl, cc)

-- The attribute expands to a function behind a trap entry exactly if the function has the signature
-- [unsafe] fn() [-> !] and is private, and the first argument, if there is one, is pcs; the entry is
-- that for PCS where there is an argument, and the nested one where there is none.
pub nested_interrupt_iff :
    (args : List String) (f : ItemFn) (entry : List Instr)
    → (nested_interrupt args f ≡ exported entry f.ident f)
      ↔ (IsHandler f × AsksFor args f.ident entry)
unfolding expand
nested_interrupt_iff args f entry = (
  λ e.
      let (valid, same) = expand_exported _ _ entry f (sym (nested_interrupt-expand args f) ∙ e) in
      let (handler, first) = none_validate args f valid in
      (handler, first_asked args f.ident entry first same),
  λ (handler, asks).
      let (first, same) = asked_first args f.ident entry asks in
      nested_interrupt-expand args f ∙ rw (validate_none args f handler first, same) refl,
)
