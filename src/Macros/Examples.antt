-- ===== src/Macros/Examples.antt =====
-- The attribute `nested_interrupt` on a handler of examples/periodic_tasks/src/main.rs.
use atalanta.Prelude.{◌≡◌, ◌↔◌, true, false, [], ◌∷◌}
use atalanta.Macros.Trampoline.{generate_pcs_trap_entry}
use atalanta.Macros.NestedInterrupt.{ItemFn, unit, exported, nested_interrupt}
use atalanta.Macros.Accepts.{IsHandler, AsksFor, nested_interrupt_iff}

-- `unsafe fn Timer0Cmp() { … }`
abbrev timer0_cmp : ItemFn
timer0_cmp = record {
  ident = "Timer0Cmp";
  inputs = 0;
  constness = false;
  asyncness = false;
  inherited = true;
  abi = false;
  generics = 0;
  where_clause = false;
  variadic = false;
  output = unit;
}

-- The attribute takes any arguments behind pcs.
nested_interrupt_iff_example :
    (nested_interrupt ("pcs" ∷ "," ∷ "fast" ∷ []) timer0_cmp
      ≡ exported (generate_pcs_trap_entry "Timer0Cmp") "Timer0Cmp" timer0_cmp)
    ↔ (IsHandler timer0_cmp
        × AsksFor ("pcs" ∷ "," ∷ "fast" ∷ []) "Timer0Cmp" (generate_pcs_trap_entry "Timer0Cmp"))
nested_interrupt_iff_example =
    nested_interrupt_iff ("pcs" ∷ "," ∷ "fast" ∷ []) timer0_cmp
      (generate_pcs_trap_entry "Timer0Cmp")
