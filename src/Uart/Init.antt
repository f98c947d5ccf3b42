-- ===== src/Uart/Init.antt =====
-- Initialisation of the UART: examples/atalanta-bsp/src/uart.rs.
use atalanta.Prelude.{
  ℕ, ◌+◌, ◌/◌, ◌^◌, ◌<◌, ◌≡◌, ◌≢◌, refl, ◌∙◌, ap, true, false, Option, none, some, ◌⊎◌, inl, inr,
  arith, bit, bit_and, bit_or, bit_or-lt, bit-bit_or, bit-le_one, shl32, u8, Bool-cases, ◌==◌,
  ==_iff, eq_false_of_ne,
}
use atalanta.Machine.{Bus, panic}
use atalanta.Access.{read_u8_masked, write_u8}
use atalanta.Mmap.{
  cfg_base, periph_clk_div_ofs, uart_rbr_thr_dll_ofs, uart_ier_dlm_ofs, uart_iir_fcr_ofs,
  uart_lcr_ofs, uart_mcr_ofs,
}
use atalanta.Uart.{init, mark_init}
use atalanta.Uart.Device.{UartDevice, UartRegs, dlab}
use atalanta.Uart.Setup.{Leaves, lcr_written}

module _ {b : Bus} {base_addr : ℕ} (u : UartDevice b base_addr) where
  -- A write to each register of a UART whose registers are known.
  step_ier :
      (v : ℕ) (s : b.State) (r : UartRegs)
      → u.regs s ≡ r
      → dlab r ≡ false
      → v < 2 ^ 8
      → u.regs (b.store8 (base_addr + uart_ier_dlm_ofs) v s) ≡ record r { ier = v }
  step_ier v s r e clear h = u.store_ier_dlm v s h ∙ (rw (e, clear) refl)

  pub step_dlm :
      (v : ℕ) (s : b.State) (r : UartRegs)
      → u.regs s ≡ r
      → dlab r ≡ true
      → v < 2 ^ 8
      → u.regs (b.store8 (base_addr + uart_ier_dlm_ofs) v s) ≡ record r { dlm = v }
  step_dlm v s r e set h = u.store_ier_dlm v s h ∙ (rw (e, set) refl)

  pub step_dll :
      (v : ℕ) (s : b.State) (r : UartRegs)
      → u.regs s ≡ r
      → dlab r ≡ true
      → v < 2 ^ 8
      → u.regs (b.store8 (base_addr + uart_rbr_thr_dll_ofs) v s) ≡ record r { dll = v }
  step_dll v s r e set h = u.store_thr_dll v s h ∙ (rw (e, set) refl)

  -- The two read-modify-writes of the line control register.
  abbrev rewritten : ℕ → b.State → b.State
  rewritten v s = b.store8 (base_addr + uart_lcr_ofs) v (b.after_read8 (base_addr + uart_lcr_ofs) s)

  step_lcr :
      (v : ℕ) (s : b.State) (r : UartRegs)
      → u.regs s ≡ r
      → v < 2 ^ 8
      → u.regs (rewritten v s) ≡ record r { lcr = v }
  step_lcr v s r e h = lcr_written u v s h ∙ (rw e refl)

  -- What `init` reads as the clock divider, and the state behind the read.
  abbrev pub divider : b.State → ℕ
  divider s = bit_and (b.value8 (cfg_base + periph_clk_div_ofs) s) 0xf

  abbrev pub configured : b.State → b.State
  configured s = b.after_read8 (cfg_base + periph_clk_div_ofs) s

  -- The static that records the initialisation, if there is one, is no register of the UART.
  abbrev pub IsApart : Option ℕ → Type 0
  IsApart none = Unit
  IsApart (some a) = (s : b.State) → u.regs (b.store8 a 1 s) ≡ u.regs s

  mark-Leaves :
      (uart_is_init : Option ℕ) (s : b.State)
      → IsApart uart_is_init
      → Leaves u (u.regs s) (mark_init b base_addr uart_is_init s)
  unfolding mark_init
  mark-Leaves none s h = record { after = s; returns = refl; regs = refl }
  mark-Leaves (some a) s h = record { after = b.store8 a 1 s; returns = refl; regs = h s }

  -- The registers that `init` leaves, for a divisor.
  abbrev pub initialised : ℕ → UartRegs
  initialised d = record {
    lcr = 3;
    ier = 0;
    dll = u8 d;
    dlm = u8 (d / 2 ^ 8);
    fcr = 0xC7;
    mcr = 0x20;
  }

  open_latch : (x : ℕ) → (bit (bit_or x 128) 7 == 1) ≡ true
  open_latch x =
      let e : bit (bit_or x 128) 7 ≡ 1 = rw bit-bit_or (omega (arith, bit-le_one x 7)) in rw e refl

  -- With the divisor latch closed, a divider and a shifted baud rate that are not zero, and the
  -- static of the initialisation, if there is one, apart from the registers, `init` returns:
  -- interrupts are off, the latch holds the two low bytes of the divisor and is closed again, there
  -- are eight data bits, the FIFOs are on and reset, and autoflow is on.
  pub init-Leaves :
      (uart_is_init : Option ℕ) (freq baud : ℕ) (s : b.State)
      → IsApart uart_is_init
      → divider s ≢ 0
      → shl32 baud 4 ≢ 0
      → dlab (u.regs s) ≡ false
      → Leaves u
          (initialised (freq / divider s / shl32 baud 4))
          (init b base_addr uart_is_init freq baud s)
  unfolding init write_u8
  init-Leaves uart_is_init freq baud s apart nd nb clear =
      let d : ℕ = freq / divider s / shl32 baud 4 in
      let r : UartRegs = u.regs s in
      let opened : ℕ = bit_or r.lcr 128 in
      let fits : opened < 2 ^ 8 = bit_or-lt 8 r.lcr 128 (u.lcr-lt s) (omega arith) in
      let s1 : b.State = b.store8 (base_addr + uart_ier_dlm_ofs) 0 (configured s) in
      let e1 = step_ier 0 (configured s) r (u.cfg_quiet s) clear (omega arith) in
      let s2 : b.State = rewritten opened s1 in
      let e2 = step_lcr opened s1 _ e1 fits in
      let s3 : b.State = b.store8 (base_addr + uart_rbr_thr_dll_ofs) (u8 d) s2 in
      let e3 = step_dll (u8 d) s2 _ e2 (open_latch r.lcr) (omega arith) in
      let s4 : b.State = b.store8 (base_addr + uart_ier_dlm_ofs) (u8 (d / 2 ^ 8)) s3 in
      let e4 = step_dlm (u8 (d / 2 ^ 8)) s3 _ e3 (open_latch r.lcr) (omega arith) in
      let s5 : b.State = b.store8 (base_addr + uart_lcr_ofs) 3 s4 in
      let e5 = u.store_lcr 3 s4 (omega arith) ∙ ap (λ (x : UartRegs). record x { lcr = 3 }) e4 in
      let s6 : b.State = rewritten 3 s5 in
      let e6 = step_lcr 3 s5 _ e5 (omega arith) in
      let s7 : b.State = b.store8 (base_addr + uart_iir_fcr_ofs) 0xC7 s6 in
      let e7 =
        u.store_fcr 0xC7 s6 (omega arith) ∙ ap (λ (x : UartRegs). record x { fcr = 0xC7 }) e6 in
      let s8 : b.State = b.store8 (base_addr + uart_mcr_ofs) 0x20 s7 in
      let e8 =
        u.store_mcr 0x20 s7 (omega arith) ∙ ap (λ (x : UartRegs). record x { mcr = 0x20 }) e7 in
      let out = mark-Leaves uart_is_init s8 apart in
      rw
        (
          eq_false_of_ne (divider s) 0 nd,
          eq_false_of_ne (shl32 baud 4) 0 nb,
          u.lcr_value s1 ∙ ap (λ (x : UartRegs). x.lcr) e1,
          u.lcr_value s5 ∙ ap (λ (x : UartRegs). x.lcr) e5,
        )
        (record { after = out.after; returns = out.returns; regs = out.regs ∙ e8 })

  -- `init` panics before it writes anything where the clock divider is zero or the baud rate times
  -- 16 wraps to zero.
  pub init_panics :
      (uart_is_init : Option ℕ) (freq baud : ℕ) (s : b.State)
      → (divider s ≡ 0) ⊎ (shl32 baud 4 ≡ 0)
      → init b base_addr uart_is_init freq baud s ≡ panic (configured s)
  unfolding init read_u8_masked
  init_panics uart_is_init freq baud s (inl h) = rw ((==_iff (divider s) 0).1 h) refl
  init_panics uart_is_init freq baud s (inr h) =
      let shifted = (==_iff (shl32 baud 4) 0).1 h in
      elim (Bool-cases (divider s == 0)) [ inl e ↦ rw e refl | inr e ↦ rw (e, shifted) refl ]
