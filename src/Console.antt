-- ===== src/Console.antt =====
-- Printing on the UART: the macros of examples/atalanta-bsp/src/core_sprint.rs and ufmt_sprint.rs.
-- The text that a formatting library makes of the arguments is a parameter, as a list of bytes.
pub mod Quiet
pub mod Board
use atalanta.Prelude.{ℕ, List, [], ◌∷◌}
use atalanta.Machine.{Bus, M, ◌>>=◌, ◌>>◌}
use atalanta.Mmap.{uart_base}
use atalanta.Uart

abbrev pub newline : List ℕ
newline = b'\r' ∷ b'\n' ∷ []

module _ (b : Bus) (fuel : ℕ) where
  unfoldable pub sprint : List ℕ → M b.State Unit
  sprint text = Uart.write_str b uart_base fuel text

  unfoldable pub sprintln : List ℕ → M b.State Unit
  sprintln text = do sprint text; sprint newline
