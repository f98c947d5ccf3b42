-- ===== src/Interrupt/Examples.antt =====
-- The theorems on numbers of interrupts at concrete interrupts.
use atalanta.Prelude.{◌≡◌, ◌↔◌, true, some, get_elem?}
use atalanta.Interrupt.{Interrupt, number, debug_name, ok, from_number}
use atalanta.Interrupt.Numbers.{is_decoded, from_number_iff}
use atalanta.Macros.Trampoline.{start_symbol}
use atalanta.Trap.{word, vector_table}
use atalanta.Trap.Vectors.{vector_table-number}

from_number_iff_example :
    (from_number 22 ≡ ok Interrupt.timer0_cmp)
    ↔ ((number Interrupt.timer0_cmp ≡ 22) × (is_decoded Interrupt.timer0_cmp ≡ true))
from_number_iff_example = from_number_iff 22 Interrupt.timer0_cmp

vector_table-number_example :
    get_elem? vector_table (number Interrupt.timer0_cmp)
    ≡ some (word (start_symbol (debug_name Interrupt.timer0_cmp)))
vector_table-number_example = vector_table-number Interrupt.timer0_cmp
