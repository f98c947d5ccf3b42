-- ===== src/HelloRt/Irq/Examples.antt =====
-- The theorem on setting up and tearing down, at the interrupt Timer0Cmp.
use atalanta.Prelude.{refl, [], ◌∷◌, arith}
use atalanta.Machine.MemoryReg.{bus_reg, bus_reg-RegLaws}
use atalanta.Machine.Bank.{Words}
use atalanta.Clic.State.{IsClicReg}
use atalanta.Clic.Sequence.{Tabulates, table}
use atalanta.Console.Board.{board, board_words, board_port, board-IsApart}
use atalanta.Interrupt.{Interrupt, number}
use atalanta.HelloRt.Irq.{setup_irq, tear_irq}
use atalanta.Clic.Rows.{row, set_up, torn_down}
use atalanta.HelloRt.Irq.Configured.{setup_tear-Tabulates}

abbrev words : Words board IsClicReg
words = board_words

-- The UART is sending, and every interrupt is pending.
abbrev start : board.State
start = (
  record {
    regs = record { lcr = 3; ier = 0; dll = 27; dlm = 0; fcr = 0xc7; mcr = 0x20 };
    sent = [];
    busy = 2;
  },
  λ a. 1,
)

setup_tear-Tabulates_example :
    Tabulates words
      (row (number Interrupt.timer0_cmp) (set_up 0x88) (table words start))
      (setup_irq (bus_reg board) 9 (b'T' ∷ b'0' ∷ []) Interrupt.timer0_cmp start)
    × Tabulates words
        (row (number Interrupt.timer0_cmp) torn_down (table words start))
        (tear_irq (bus_reg board) 9 (b'T' ∷ b'0' ∷ []) Interrupt.timer0_cmp start)
setup_tear-Tabulates_example =
    setup_tear-Tabulates words (bus_reg board) (bus_reg-RegLaws words) board_port
      (λ a h. board-IsApart a) 9 (b'T' ∷ b'0' ∷ []) Interrupt.timer0_cmp start
      (record { waits = omega arith; period = omega arith; latch = refl })
      (omega arith, (omega arith, tt))
