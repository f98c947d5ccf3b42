-- ===== src/Uart.antt =====
-- The UART driver of examples/atalanta-bsp/src/uart.rs. A polling loop takes fuel, and spins when
-- it runs out.
pub mod Device
pub mod Transmit
pub mod Setup
pub mod Init
pub mod Port
mod Examples
use atalanta.Prelude.{
  ℕ, zero, suc, ◌+◌, ◌*◌, ◌/◌, ◌^◌, Bool, true, false, not, Option, none, some, List, [], ◌∷◌,
  length, bit_and, bit_or, shl32, u8, ◌==◌,
}
use atalanta.Machine.{Bus, M, pure, spins, assert, ◌>>=◌, ◌>>◌}
use atalanta.Access.{read_u8, read_u8_masked, write_u8, mask_u8, unmask_u8}
use atalanta.Mmap.{
  cfg_base, periph_clk_div_ofs, uart_rbr_thr_dll_ofs, uart_dlab_lsb_ofs, uart_ier_dlm_ofs,
  uart_dlab_msb_ofs, uart_iir_fcr_ofs, uart_fcr_fifo_en_bit, uart_fcr_fifo_rx_reset_bit,
  uart_fcr_fifo_tx_reset_bit, uart_fcr_trig_rx_lsb, uart_fcr_trig_rx_msb, uart_lcr_ofs, data_bits,
  bits8, uart_lcr_dlab_bit, uart_mcr_ofs, uart_lsr_ofs, uart_lsr_rx_fifo_valid_bit,
}

pub data UartInterrupt : Type 0 where
  on_data on_empty on_error : UartInterrupt

-- `int as u8`.
abbrev pub uart_interrupt_bits : UartInterrupt → ℕ
uart_interrupt_bits on_data = 0b1
uart_interrupt_bits on_empty = 0b1 * 2 ^ 1
uart_interrupt_bits on_error = 0b1 * 2 ^ 2

module _ (b : Bus) (base_addr : ℕ) where
  -- `UART_IS_INIT = true`, at the address of that static in the builds that have it.
  unfoldable pub mark_init : Option ℕ → M b.State Unit
  unfolding write_u8
  mark_init none = pure tt
  mark_init (some uart_is_init) = write_u8 b uart_is_init 1

  unfoldable pub init : Option ℕ → ℕ → ℕ → M b.State Unit
  unfolding read_u8_masked write_u8 mask_u8 unmask_u8 mark_init
  init uart_is_init freq baud = do
    periph_clk_div ← read_u8_masked b (cfg_base + periph_clk_div_ofs) 0xf
    assert (not (periph_clk_div == 0))
    assert (not (shl32 baud 4 == 0))
    let divisor : ℕ = freq / periph_clk_div / shl32 baud 4
    write_u8 b (base_addr + uart_ier_dlm_ofs) 0x00
    mask_u8 b (base_addr + uart_lcr_ofs) 0x80
    write_u8 b (base_addr + uart_dlab_lsb_ofs) (u8 divisor)
    write_u8 b (base_addr + uart_dlab_msb_ofs) (u8 (divisor / 2 ^ 8))
    write_u8 b (base_addr + uart_lcr_ofs) (data_bits bits8)
    unmask_u8 b (base_addr + uart_lcr_ofs) uart_lcr_dlab_bit
    write_u8 b (base_addr + uart_iir_fcr_ofs) (
        bit_or
          (bit_or
            (bit_or (bit_or uart_fcr_fifo_en_bit uart_fcr_fifo_rx_reset_bit)
              uart_fcr_fifo_tx_reset_bit)
            uart_fcr_trig_rx_lsb)
          uart_fcr_trig_rx_msb)
    write_u8 b (base_addr + uart_mcr_ofs) 0x20
    mark_init uart_is_init

  unfoldable pub is_transmit_empty : M b.State Bool
  unfolding read_u8
  is_transmit_empty = do
    lsr ← read_u8 b (base_addr + uart_lsr_ofs)
    pure (not (bit_and lsr 0x20 == 0))

  -- `while !self.is_transmit_empty() {}`
  unfoldable pub wait_transmit_empty : ℕ → M b.State Unit
  unfolding is_transmit_empty
  wait_transmit_empty zero = spins
  wait_transmit_empty (suc fuel) = do
    empty ← is_transmit_empty
    elim empty [ true ↦ pure tt | false ↦ wait_transmit_empty fuel ]

  unfoldable pub putc : ℕ → ℕ → M b.State Unit
  unfolding write_u8
  putc fuel c = do wait_transmit_empty fuel; write_u8 b (base_addr + uart_rbr_thr_dll_ofs) c

  -- `while read_u8(LSR) & RX_FIFO_VALID == 0 {}`
  unfoldable pub wait_data : ℕ → M b.State Unit
  unfolding read_u8
  wait_data zero = spins
  wait_data (suc fuel) = do
    lsr ← read_u8 b (base_addr + uart_lsr_ofs)
    elim (bit_and lsr uart_lsr_rx_fifo_valid_bit == 0) [ true ↦ wait_data fuel | false ↦ pure tt ]

  unfoldable pub getc : ℕ → M b.State ℕ
  unfolding read_u8
  getc fuel = do wait_data fuel; read_u8 b base_addr

  unfoldable pub listen : UartInterrupt → M b.State Unit
  unfolding read_u8 write_u8
  listen int = do
    p_lcr ← read_u8 b (base_addr + uart_lcr_ofs)
    let lcr : ℕ = bit_and p_lcr (0b1 * 2 ^ 7)
    write_u8 b (base_addr + uart_lcr_ofs) lcr
    write_u8 b (base_addr + uart_ier_dlm_ofs) (uart_interrupt_bits int)
    write_u8 b (base_addr + uart_lcr_ofs) p_lcr

  -- The loop of `write`, with the same fuel for each byte.
  unfoldable pub put_all : ℕ → List ℕ → M b.State Unit
  put_all fuel [] = pure tt
  put_all fuel (c ∷ buf) = do putc fuel c; put_all fuel buf

  -- embedded_io::Write
  unfoldable pub write : ℕ → List ℕ → M b.State ℕ
  write fuel buf = do put_all fuel buf; pure (length buf)

  unfoldable pub flush : ℕ → M b.State Unit
  flush fuel = wait_transmit_empty fuel

  -- `s` are the bytes of the text.
  unfoldable pub write_str : ℕ → List ℕ → M b.State Unit
  write_str fuel s = do write fuel s; pure tt
