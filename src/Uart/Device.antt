-- ===== src/Uart/Device.antt =====
-- What the driver of examples/atalanta-bsp/src/uart.rs relies on of the UART, as mmap/uart.rs
-- documents it: the registers behind the divisor latch access bit, and the transmitter.
use atalanta.Prelude.{
  ℕ, ◌+◌, ◌-◌, ◌^◌, ◌≤◌, ◌<◌, ◌≡◌, Bool, false, List, [], ◌∷◌, ◌++◌, bit, ◌==◌, if◌then◌else◌,
}
use atalanta.Machine.{Bus}
use atalanta.Mmap.{
  cfg_base, periph_clk_div_ofs, uart_rbr_thr_dll_ofs, uart_ier_dlm_ofs, uart_iir_fcr_ofs,
  uart_lcr_ofs, uart_mcr_ofs, uart_lsr_ofs,
}

-- The written registers; `dll` and `dlm` are the divisor latch.
pub record UartRegs : Type 0 where
  pub lcr : ℕ
  pub ier : ℕ
  pub dll : ℕ
  pub dlm : ℕ
  pub fcr : ℕ
  pub mcr : ℕ

-- The divisor latch access bit.
abbrev pub dlab : UartRegs → Bool
dlab r = bit r.lcr 7 == 1

pub record UartDevice (b : Bus) (base_addr : ℕ) : Type 0 where
  pub regs : b.State → UartRegs
  -- A write to each register; the offsets 0 and 4 are of the latch while `dlab` is set.
  pub lcr-lt : (s : b.State) → (regs s).lcr < 2 ^ 8
  pub store_lcr :
      (v : ℕ) (s : b.State)
      → v < 2 ^ 8
      → regs (b.store8 (base_addr + uart_lcr_ofs) v s) ≡ record (regs s) { lcr = v }
  pub store_thr_dll :
      (v : ℕ) (s : b.State)
      → v < 2 ^ 8
      → regs (b.store8 (base_addr + uart_rbr_thr_dll_ofs) v s)
        ≡ (if dlab (regs s) then record (regs s) { dll = v } else regs s)
  pub store_ier_dlm :
      (v : ℕ) (s : b.State)
      → v < 2 ^ 8
      → regs (b.store8 (base_addr + uart_ier_dlm_ofs) v s)
        ≡ (if dlab (regs s) then record (regs s) { dlm = v } else record (regs s) { ier = v })
  pub store_fcr :
      (v : ℕ) (s : b.State)
      → v < 2 ^ 8
      → regs (b.store8 (base_addr + uart_iir_fcr_ofs) v s) ≡ record (regs s) { fcr = v }
  pub store_mcr :
      (v : ℕ) (s : b.State)
      → v < 2 ^ 8
      → regs (b.store8 (base_addr + uart_mcr_ofs) v s) ≡ record (regs s) { mcr = v }
  -- The line control register is read back.
  pub lcr_value : (s : b.State) → b.value8 (base_addr + uart_lcr_ofs) s ≡ (regs s).lcr
  pub lcr_quiet : (s : b.State) → regs (b.after_read8 (base_addr + uart_lcr_ofs) s) ≡ regs s
  pub cfg_quiet : (s : b.State) → regs (b.after_read8 (cfg_base + periph_clk_div_ofs) s) ≡ regs s
  -- The bytes accepted for transmission, and the polls of the line status left until the
  -- transmit FIFO is empty, at most `period` after a byte. A byte is accepted if it is written
  -- while the FIFO is empty and the latch is not addressed.
  pub sent : b.State → List ℕ
  pub busy : b.State → ℕ
  pub period : ℕ
  pub lsr-lt : (s : b.State) → b.value8 (base_addr + uart_lsr_ofs) s < 2 ^ 8
  pub lsr_empty :
      (s : b.State) → bit (b.value8 (base_addr + uart_lsr_ofs) s) 5 ≡ (if busy s == 0 then 1 else 0)
  pub poll_busy : (s : b.State) → busy (b.after_read8 (base_addr + uart_lsr_ofs) s) ≡ busy s - 1
  pub poll_sent : (s : b.State) → sent (b.after_read8 (base_addr + uart_lsr_ofs) s) ≡ sent s
  pub poll_regs : (s : b.State) → regs (b.after_read8 (base_addr + uart_lsr_ofs) s) ≡ regs s
  pub send_sent :
      (c : ℕ) (s : b.State)
      → dlab (regs s) ≡ false
      → busy s ≡ 0
      → sent (b.store8 (base_addr + uart_rbr_thr_dll_ofs) c s) ≡ sent s ++ (c ∷ [])
  pub send_busy :
      (c : ℕ) (s : b.State)
      → dlab (regs s) ≡ false
      → busy s ≡ 0
      → busy (b.store8 (base_addr + uart_rbr_thr_dll_ofs) c s) ≤ period
