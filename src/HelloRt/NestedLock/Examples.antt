-- ===== src/HelloRt/NestedLock/Examples.antt =====
-- The theorems on the two handlers, at a device, and on their PCS bit, on plain memory.
use atalanta.Machine.Bank.{Words}
use atalanta.Machine.Memory.{Cells, memory, memory_words}
use atalanta.Clic.Spec.{set_pcs, apply}
use atalanta.Clic.State.{IsClicReg, config, Configures}
use atalanta.HelloRt.NestedLock.Pcs.{pcs-Configures}
use atalanta.Prelude.{ℕ, true, false, List, [], ◌∷◌}
use atalanta.Machine.{M}
use atalanta.Machine.MemoryReg.{bus_reg}
use atalanta.Clic.Intip
use atalanta.Console.Board.{board}
use atalanta.Interrupt.{number, dma0}
use atalanta.HelloRt.NestedLock.{dma0_handler, dma1_handler, enable_pcs, disable_pcs}
use atalanta.HelloRt.NestedLock.Takes.{Takes}

abbrev low : List (M (board.State × ℕ) (Unit {0})) → M (board.State × ℕ) (Unit {0})
low = dma0_handler (bus_reg board) 9 (λ n. b'x' ∷ [])

abbrev high : M (board.State × ℕ) (Unit {0})
high = dma1_handler (bus_reg board) 9 (λ n. b'x' ∷ [])

-- Plain memory with every bit of the configurations set.
abbrev ones : Cells
ones a = 0xffff_ffff

abbrev words : Words memory IsClicReg
words = memory_words

pcs-Configures_example :
    Configures words
      (number dma0)
      (apply (set_pcs true) (config words (number dma0) ones))
      ones
      (enable_pcs memory dma0 ones)
    × Configures words
        (number dma0)
        (apply (set_pcs false) (config words (number dma0) ones))
        ones
        (disable_pcs memory dma0 ones)
pcs-Configures_example = pcs-Configures words dma0 ones
