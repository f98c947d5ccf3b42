-- ===== src/Macros/Trampoline/Examples.antt =====
-- The theorem on nested traps with a handler that clobbers t0 and the trap cause.
use atalanta.Prelude.{◌+◌, ◌≡◌, refl, true, false, arith}
use atalanta.Machine.Hart.{Env, Hart, fall_through, at_symbol, exec, put}
use atalanta.Macros.Trampoline.{generate_nested_trap_entry, generate_continue_nested_trap_impl}
use atalanta.Interrupt.Nested.{nested, nested_enter, Resumes, nested-Resumes}
use atalanta.Macros.Trampoline.Restores.{Behaves, Restored, nested_trap-Restored}

abbrev env : Env
env = record {
  symbol = λ s. 0x1000;
  link = 0x2004;
  call = λ a h. record h { x = put 5 99 h.x; mcause = 7; mepc = 0 };
}

env-Behaves : Behaves env 0x1000
env-Behaves = record {
  keeps_x = λ h r e. ground arith;
  keeps_mem = λ h m e. refl;
  keeps_mpie = λ h. refl;
}

-- Register `i` holds 0x4000 + i, so the stack pointer is 0x4002.
abbrev hart : Hart
hart = record {
  x = λ i. 0x4000 + i;
  mem = λ a. a;
  mcause = 22;
  mepc = 0x1234;
  mie = false;
  mpie = true;
  next = fall_through;
}

nested_trap-Restored_example :
    ((exec env (generate_nested_trap_entry "Timer0Cmp") hart).next
      ≡ at_symbol "_continue_nested_trap")
    × Restored hart (
        exec env generate_continue_nested_trap_impl
          (exec env (generate_nested_trap_entry "Timer0Cmp") hart))
nested_trap-Restored_example =
    nested_trap-Restored env "Timer0Cmp" hart (omega arith) (omega arith) (omega arith) env-Behaves

-- A closure in which another interrupt is taken.
abbrev interrupted : Hart → Hart
interrupted h = record h { mcause = 9; mepc = 0x44 }

nested-Resumes_example :
    ((exec env nested_enter hart).mie ≡ true) × Resumes hart (nested env interrupted hart)
nested-Resumes_example =
    nested-Resumes env hart (omega arith) (omega arith) interrupted
      (record { keeps_sp = λ h. refl; keeps_mem = λ h m le. refl })
