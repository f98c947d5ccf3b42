-- ===== src/Uart/Port.antt =====
-- A UART that takes three polls of its line status to send a byte: the device of the witnesses.
use atalanta.Prelude.{
  ℕ, ◌+◌, ◌-◌, ◌%◌, ◌^◌, ◌<◌, ◌≡◌, refl, ap, inl, inr, Bool-cases, List, [], ◌∷◌, ◌++◌, ◌==◌,
  if◌then◌else◌, arith,
}
use atalanta.Machine.{Bus}
use atalanta.Mmap.{
  uart_base, uart_rbr_thr_dll_ofs, uart_ier_dlm_ofs, uart_iir_fcr_ofs, uart_lcr_ofs, uart_mcr_ofs,
  uart_lsr_ofs,
}
use atalanta.Uart.Device.{UartDevice, UartRegs, dlab}

pub record Port : Type 0 where
  pub regs : UartRegs
  pub sent : List ℕ
  pub busy : ℕ

abbrev pub shown : UartRegs → UartRegs
shown r = record r { lcr = r.lcr % 2 ^ 8 }

abbrev pub store : ℕ → ℕ → Port → Port
store a v p =
    if a == uart_base + uart_lcr_ofs
    then record p { regs = record p.regs { lcr = v } }
    else if a == uart_base + uart_iir_fcr_ofs
    then record p { regs = record p.regs { fcr = v } }
    else if a == uart_base + uart_mcr_ofs
    then record p { regs = record p.regs { mcr = v } }
    else if a == uart_base + uart_ier_dlm_ofs
    then if dlab (shown p.regs)
      then record p { regs = record p.regs { dlm = v } }
      else record p { regs = record p.regs { ier = v } }
    else if a == uart_base + uart_rbr_thr_dll_ofs
    then if dlab (shown p.regs)
      then record p { regs = record p.regs { dll = v } }
      else record p { sent = p.sent ++ (v ∷ []); busy = 3 }
    else p

-- The peripheral clock is divided by four.
abbrev pub value : ℕ → Port → ℕ
value a p =
    if a == uart_base + uart_lcr_ofs
    then p.regs.lcr % 2 ^ 8
    else if a == uart_base + uart_lsr_ofs
    then if p.busy == 0 then 0x60 else 0
    else 4

abbrev pub after : ℕ → Port → Port
after a p = if a == uart_base + uart_lsr_ofs then record p { busy = p.busy - 1 } else p

abbrev pub port_bus : Bus
port_bus = record {
  State = Port;
  value8 = value;
  after_read8 = after;
  store8 = store;
  value32 = value;
  after_read32 = after;
  store32 = store;
}

pub small : (v : ℕ) → v < 2 ^ 8 → v % 2 ^ 8 ≡ v
small v h = omega arith

pub status-lt : (p : Port) → (if p.busy == 0 then 0x60 else 0) < 2 ^ 8
status-lt p = ground arith

abbrev pub port : UartDevice port_bus uart_base
port = record {
  regs = λ p. shown p.regs;
  lcr-lt = λ p. omega arith;
  store_lcr = λ v p h. ap (λ x. record (shown p.regs) { lcr = x }) (small v h);
  store_thr_dll = λ v p h. elim (Bool-cases (dlab (shown p.regs))) [
    | inl set ↦ rw set refl
    | inr clear ↦ rw clear refl
  ];
  store_ier_dlm = λ v p h. elim (Bool-cases (dlab (shown p.regs))) [
    | inl set ↦ rw set refl
    | inr clear ↦ rw clear refl
  ];
  store_fcr = λ v p h. refl;
  store_mcr = λ v p h. refl;
  lcr_value = λ p. refl;
  lcr_quiet = λ p. refl;
  cfg_quiet = λ p. refl;
  sent = λ p. p.sent;
  busy = λ p. p.busy;
  period = 3;
  lsr-lt = status-lt;
  lsr_empty =
      λ p. elim (Bool-cases (p.busy == 0)) [ inl free ↦ rw free refl | inr waits ↦ rw waits refl ];
  poll_busy = λ p. refl;
  poll_sent = λ p. refl;
  poll_regs = λ p. refl;
  send_sent = λ c p clear free. rw clear refl;
  send_busy = λ c p clear free. rw clear (omega arith);
}
