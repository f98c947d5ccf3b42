-- ===== src/RustMinimal/Uart.antt =====
-- The program examples/rust_minimal/examples/uart.rs, with a driver of its own. A polling loop takes
-- fuel, and an endless loop the number of its rounds that are run.
use atalanta.Prelude.{
  ℕ, zero, suc, ◌+◌, ◌/◌, ◌^◌, Bool, true, false, not, List, [], ◌∷◌, codes, bit_and, shl32, u8,
  ◌==◌,
}
use atalanta.Machine.{Bus, M, pure, spins, assert, ◌>>=◌, ◌>>◌}
use atalanta.TestBench.{forever}
use atalanta.RustMinimal.{read_u8, write_u8, cpu_freq, uart_baud}

abbrev uart_base : ℕ
uart_base = 0x30100

abbrev uart_thr : ℕ
uart_thr = uart_base + 0

abbrev uart_interrupt_enable : ℕ
uart_interrupt_enable = uart_base + 4

abbrev uart_fifo_control : ℕ
uart_fifo_control = uart_base + 8

abbrev uart_line_control : ℕ
uart_line_control = uart_base + 12

abbrev uart_modem_control : ℕ
uart_modem_control = uart_base + 16

abbrev uart_line_status : ℕ
uart_line_status = uart_base + 20

abbrev uart_dlab_lsb : ℕ
uart_dlab_lsb = uart_base + 0

abbrev uart_dlab_msb : ℕ
uart_dlab_msb = uart_base + 4

abbrev periph_clk_div : ℕ
periph_clk_div = 2

module _ (b : Bus) where
  -- Division by zero panics.
  unfoldable pub init_uart : ℕ → ℕ → M b.State Unit
  unfolding write_u8
  init_uart freq baud = do
    assert (not (shl32 baud 4 == 0))
    let divisor : ℕ = freq / periph_clk_div / shl32 baud 4
    write_u8 b uart_interrupt_enable 0x00
    write_u8 b uart_line_control 0x80
    write_u8 b uart_dlab_lsb (u8 divisor)
    write_u8 b uart_dlab_msb (u8 (divisor / 2 ^ 8))
    write_u8 b uart_line_control 0x03
    write_u8 b uart_fifo_control 0xC7
    write_u8 b uart_modem_control 0x20

  unfoldable pub is_transmit_empty : M b.State Bool
  unfolding read_u8
  is_transmit_empty = do lsr ← read_u8 b uart_line_status; pure (not (bit_and lsr 0x20 == 0))

  -- `while !is_transmit_empty() {}`
  unfoldable pub wait_transmit_empty : ℕ → M b.State Unit
  unfolding is_transmit_empty
  wait_transmit_empty zero = spins
  wait_transmit_empty (suc fuel) = do
    empty ← is_transmit_empty
    elim empty [ true ↦ pure tt | false ↦ wait_transmit_empty fuel ]

  unfoldable pub putc : ℕ → ℕ → M b.State Unit
  unfolding write_u8
  putc fuel c = do wait_transmit_empty fuel; write_u8 b uart_thr c

  -- `s` are the bytes of the text.
  unfoldable pub uart_write : ℕ → List ℕ → M b.State Unit
  uart_write fuel [] = pure tt
  uart_write fuel (c ∷ s) = do putc fuel c; uart_write fuel s

  unfoldable pub entry : Bool → ℕ → ℕ → M b.State ⊥
  entry rtl_tb fuel rounds = do
    init_uart (cpu_freq rtl_tb) (uart_baud rtl_tb)
    uart_write fuel (codes "Hello world!")
    forever rounds (pure tt)
