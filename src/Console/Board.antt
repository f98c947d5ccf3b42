-- ===== src/Console/Board.antt =====
-- A bus with a UART behind its byte accesses and storage behind its word accesses: the device of
-- the witnesses.
use atalanta.Prelude.{ℕ, ◌%◌, ◌^◌, refl, arith}
use atalanta.Machine.{Bus}
use atalanta.Machine.Bank.{Words}
use atalanta.Machine.Memory.{Cells, memory, write_cell, peek-write}
use atalanta.Mmap.{uart_base}
use atalanta.Uart.Device.{UartDevice}
use atalanta.Uart.Port.{Port, port_bus, port}
use atalanta.Console.Quiet.{IsApart}

abbrev pub board : Bus
board = record {
  State = Port × Cells;
  value8 = λ a (p, m). port_bus.value8 a p;
  after_read8 = λ a (p, m). (port_bus.after_read8 a p, m);
  store8 = λ a v (p, m). (port_bus.store8 a v p, m);
  value32 = λ a (p, m). memory.value32 a m;
  after_read32 = λ a (p, m). (p, m);
  store32 = λ a v (p, m). (p, write_cell a v m);
}

abbrev pub board_words : {IsReg : ℕ → Type 0} → Words board IsReg
board_words = record {
  peek = λ a (p, m). m a % 2 ^ 32;
  peek-lt = λ a s h. omega arith;
  value32-peek = λ a s h. refl;
  read32_quiet = λ a s h. refl;
  peek-store32 = λ a v c s ha hc fits. peek-write (2 ^ 32) a v c s.1 fits;
}

abbrev pub board_port : UartDevice board uart_base
board_port = record {
  regs = λ s. port.regs s.0;
  lcr-lt = λ s. port.lcr-lt s.0;
  store_lcr = λ v s. port.store_lcr v s.0;
  store_thr_dll = λ v s. port.store_thr_dll v s.0;
  store_ier_dlm = λ v s. port.store_ier_dlm v s.0;
  store_fcr = λ v s. port.store_fcr v s.0;
  store_mcr = λ v s. port.store_mcr v s.0;
  lcr_value = λ s. port.lcr_value s.0;
  lcr_quiet = λ s. port.lcr_quiet s.0;
  cfg_quiet = λ s. port.cfg_quiet s.0;
  sent = λ s. port.sent s.0;
  busy = λ s. port.busy s.0;
  period = port.period;
  lsr-lt = λ s. port.lsr-lt s.0;
  lsr_empty = λ s. port.lsr_empty s.0;
  poll_busy = λ s. port.poll_busy s.0;
  poll_sent = λ s. port.poll_sent s.0;
  poll_regs = λ s. port.poll_regs s.0;
  send_sent = λ c s. port.send_sent c s.0;
  send_busy = λ c s. port.send_busy c s.0;
}

pub board-IsApart : (a : ℕ) → IsApart board (λ s. s.1 a % 2 ^ 32)
board-IsApart a = record { poll = λ s. refl; send = λ v s. refl }
