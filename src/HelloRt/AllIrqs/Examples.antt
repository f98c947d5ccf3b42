-- ===== src/HelloRt/AllIrqs/Examples.antt =====
-- The theorem on the check of the interrupts, with two of them handled.
use atalanta.Prelude.{true, [], ◌∷◌, refl, arith}
use atalanta.Machine.{◌>>◌}
use atalanta.Console.Board.{board, board_port}
use atalanta.HelloRt.AllIrqs.{check_irqs, test_irqs}
use atalanta.HelloRt.AllIrqs.Verdict.{handle_all, missing, Counts, check_irqs-missing}

-- The UART is sending.
abbrev start : board.State
start = (
  record {
    regs = record { lcr = 3; ier = 0; dll = 27; dlm = 0; fcr = 0xc7; mcr = 0x20 };
    sent = [];
    busy = 2;
  },
  λ a. 0,
)

-- Machine software interrupts and Dma15, one of them twice.
check_irqs-missing_example :
    (v : _) × Counts board_port 9
      (λ irq. b'x' ∷ [])
      (λ irq. (omega arith, tt))
      (missing (0x80000003 ∷ 0x8000002f ∷ 0x80000003 ∷ []) test_irqs)
      v
      ((handle_all true (0x80000003 ∷ 0x8000002f ∷ 0x80000003 ∷ [])
          >> check_irqs board true 9 (λ irq. b'x' ∷ []) test_irqs 0)
        (start, 0))
check_irqs-missing_example =
    check_irqs-missing board_port 9 (λ irq. b'x' ∷ []) (λ irq. (omega arith, tt)) true
      (0x80000003 ∷ 0x8000002f ∷ 0x80000003 ∷ []) start (omega arith)
      (record { waits = omega arith; period = omega arith; latch = refl })
