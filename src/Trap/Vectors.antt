-- ===== src/Trap/Vectors.antt =====
-- The vector table of examples/atalanta-bsp/src/trap.rs against the interrupts' numbers and the
-- labels of the trampolines.
use atalanta.Prelude.{◌≡◌, refl, some, length, get_elem?}
use atalanta.Interrupt.{Interrupt, number, debug_name}
use atalanta.Macros.Trampoline.{start_symbol}
use atalanta.Trap.{word, vector_table}

-- Each interrupt's entry in the vector table, at its number, is the label that the trampoline of
-- its handler has.
pub vector_table-number :
    (i : Interrupt) → get_elem? vector_table (number i) ≡ some (word (start_symbol (debug_name i)))
unfolding vector_table number debug_name
vector_table-number Interrupt.machine_soft = refl
vector_table-number _ = refl

length-vector_table : length vector_table ≡ 64
unfolding vector_table
length-vector_table = refl
