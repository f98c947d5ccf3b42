-- ===== src/Mmap.antt =====
-- The memory maps of examples/atalanta-bsp/src/mmap/.
use atalanta.Prelude.{ℕ, ◌+◌, ◌*◌, ◌^◌}

-- apb_timer.rs
abbrev pub apb_timer_base : ℕ
apb_timer_base = 0x3_0300

abbrev pub timer0_addr : ℕ
timer0_addr = apb_timer_base

abbrev pub timer1_addr : ℕ
timer1_addr = apb_timer_base + 0x10

abbrev pub timer2_addr : ℕ
timer2_addr = apb_timer_base + 0x20

abbrev pub timer3_addr : ℕ
timer3_addr = apb_timer_base + 0x30

abbrev pub timer_ctrl_enable_bit : ℕ
timer_ctrl_enable_bit = 0b1

abbrev pub timer_ctrl_prescaler_bit_idx : ℕ
timer_ctrl_prescaler_bit_idx = 3

-- The addresses of the fields of the `#[repr(C)]` register block of a timer at `base`.
abbrev pub timer_cnt : ℕ → ℕ
timer_cnt base = base + 0x0

abbrev pub timer_ctrl : ℕ → ℕ
timer_ctrl base = base + 0x4

abbrev pub timer_cmp : ℕ → ℕ
timer_cmp base = base + 0x8

-- cfg.rs
abbrev pub cfg_base : ℕ
cfg_base = 0x3_0500

abbrev pub periph_clk_div_ofs : ℕ
periph_clk_div_ofs = 0x0

-- clic.rs
abbrev pub clic_base_addr : ℕ
clic_base_addr = 0x5_0000

abbrev pub clic_intreg_offset : ℕ → ℕ
clic_intreg_offset id = 0x1000 + 0x4 * id

abbrev pub clic_inttrigg_reg_offset : ℕ → ℕ
clic_inttrigg_reg_offset id = 0x40 + 0x4 * id

-- gpio.rs
abbrev pub gpio_base : ℕ
gpio_base = 0x3_0000

-- mtimer.rs
abbrev pub mtimer_base : ℕ
mtimer_base = 0x3_0200

abbrev pub mtime_low_addr_ofs : ℕ
mtime_low_addr_ofs = 0

abbrev pub mtime_high_addr_ofs : ℕ
mtime_high_addr_ofs = 4

abbrev pub mtimecmp_low_addr_ofs : ℕ
mtimecmp_low_addr_ofs = 8

abbrev pub mtimecmp_high_addr_ofs : ℕ
mtimecmp_high_addr_ofs = 12

abbrev pub mtime_ctrl_addr_ofs : ℕ
mtime_ctrl_addr_ofs = 16

-- uart.rs
abbrev pub uart_base : ℕ
uart_base = 0x3_0100

-- The fields of an interrupt's register in clic.rs.
abbrev pub clic_clicintie_ip_bit : ℕ
clic_clicintie_ip_bit = 0

abbrev pub clic_clicintie_ip_mask : ℕ
clic_clicintie_ip_mask = 0x1

abbrev pub clic_clicintie_ie_bit : ℕ
clic_clicintie_ie_bit = 8

abbrev pub clic_clicintie_ie_mask : ℕ
clic_clicintie_ie_mask = 0x1

abbrev pub clic_clicintattr_shv_mask : ℕ
clic_clicintattr_shv_mask = 0x1

abbrev pub clic_clicintattr_shv_bit : ℕ
clic_clicintattr_shv_bit = 16

abbrev pub clic_clicintattr_trig_mask : ℕ
clic_clicintattr_trig_mask = 0x3

abbrev pub clic_clicintattr_trig_offset : ℕ
clic_clicintattr_trig_offset = 17

-- The addresses of the fields of the `#[repr(C)]` pad register block of gpio.rs at `pads`, in the
-- order of its fields; `int_type` has two words and `pad_cfg` four.
module _ (pads : ℕ) where
  abbrev pub pad_dir : ℕ
  pad_dir = pads + 0x00

  abbrev pub pad_en : ℕ
  pad_en = pads + 0x04

  abbrev pub pad_data_in : ℕ
  pad_data_in = pads + 0x08

  abbrev pub pad_data_out : ℕ
  pad_data_out = pads + 0x0C

-- Fourteen words to a block, and the two blocks of `RegisterBlock`.
abbrev pub pad_block_size : ℕ
pad_block_size = 14 * 4

abbrev pub gpio_pads : ℕ → ℕ
gpio_pads index = gpio_base + index * pad_block_size

abbrev pub uart_rbr_thr_dll_ofs : ℕ
uart_rbr_thr_dll_ofs = 0

abbrev pub uart_dlab_lsb_ofs : ℕ
uart_dlab_lsb_ofs = uart_rbr_thr_dll_ofs

abbrev pub uart_ier_dlm_ofs : ℕ
uart_ier_dlm_ofs = 4

abbrev pub uart_dlab_msb_ofs : ℕ
uart_dlab_msb_ofs = uart_ier_dlm_ofs

abbrev pub uart_iir_fcr_ofs : ℕ
uart_iir_fcr_ofs = 8

abbrev pub uart_fcr_fifo_en_bit : ℕ
uart_fcr_fifo_en_bit = 0b1

abbrev pub uart_fcr_fifo_rx_reset_bit : ℕ
uart_fcr_fifo_rx_reset_bit = 0b1 * 2 ^ 1

abbrev pub uart_fcr_fifo_tx_reset_bit : ℕ
uart_fcr_fifo_tx_reset_bit = 0b1 * 2 ^ 2

abbrev pub uart_fcr_trig_rx_lsb : ℕ
uart_fcr_trig_rx_lsb = 0b1 * 2 ^ 6

abbrev pub uart_fcr_trig_rx_msb : ℕ
uart_fcr_trig_rx_msb = 0b1 * 2 ^ 7

abbrev pub uart_lcr_ofs : ℕ
uart_lcr_ofs = 12

pub data UartLcrDataBits : Type 0 where
  bits5 bits6 bits7 bits8 : UartLcrDataBits

-- `bits as u8`.
abbrev pub data_bits : UartLcrDataBits → ℕ
data_bits bits5 = 0b00
data_bits bits6 = 0b01
data_bits bits7 = 0b10
data_bits bits8 = 0b11

abbrev pub uart_lcr_dlab_bit : ℕ
uart_lcr_dlab_bit = 0b1 * 2 ^ 7

abbrev pub uart_mcr_ofs : ℕ
uart_mcr_ofs = 16

abbrev pub uart_lsr_ofs : ℕ
uart_lsr_ofs = 20

abbrev pub uart_lsr_rx_fifo_valid_bit : ℕ
uart_lsr_rx_fifo_valid_bit = 0b1
