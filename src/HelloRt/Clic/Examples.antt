-- ===== src/HelloRt/Clic/Examples.antt =====
-- The theorem on the older driver at interrupt 22, on plain memory.
use atalanta.Prelude.{arith}
use atalanta.Machine.Bank.{Words}
use atalanta.Machine.Memory.{Cells, memory, memory_words}
use atalanta.Clic.State.{IsClicReg, config, Configures}
use atalanta.HelloRt.Clic.{edge}
use atalanta.HelloRt.Clic.Refinement.{trigger, apply, run_op, old_op-refines}

-- The polarity is negative at first.
abbrev start : Cells
start _ = 0x00040000

abbrev words : Words memory IsClicReg
words = memory_words

old_op-refines_example :
    Configures words 22
      (apply (trigger edge) (config words 22 start))
      start
      (run_op memory 22 (trigger edge) start)
old_op-refines_example = old_op-refines words (trigger edge) 22 start (omega arith) tt
