-- ===== src/Uart/Setup.antt =====
-- The interrupts of the UART: examples/atalanta-bsp/src/uart.rs.
use atalanta.Prelude.{
  ℕ, ◌+◌, ◌^◌, ◌<◌, ◌≡◌, refl, ◌∙◌, ap, inl, inr, arith, bit, bit-bit_and, Bool-cases, bit_and,
  bit_and-lt, bit-le_one, ◌==◌, if◌then◌else◌,
}
use atalanta.Machine.{Bus, Outcome, ok}
use atalanta.Mmap.{uart_lcr_ofs}
use atalanta.Uart.{listen, UartInterrupt, uart_interrupt_bits, on_data, on_empty, on_error}
use atalanta.Uart.Device.{UartDevice, UartRegs, dlab}

interrupt_bits-lt : (int : UartInterrupt) → uart_interrupt_bits int < 2 ^ 8
interrupt_bits-lt on_data = omega arith
interrupt_bits-lt on_empty = omega arith
interrupt_bits-lt on_error = omega arith

-- `p_lcr & 0x80` keeps the access bit as it is.
latch_bit : (x : ℕ) → x < 2 ^ 8 → bit (bit_and x 128) 7 ≡ bit x 7
latch_bit x h = rw bit-bit_and (omega (arith, bit-le_one x 7))

-- What a write to each register does to the registers.
abbrev pub put_lcr : ℕ → UartRegs → UartRegs
put_lcr v r = record r { lcr = v }

abbrev put_ier_dlm : ℕ → UartRegs → UartRegs
put_ier_dlm v r = if dlab r then record r { dlm = v } else record r { ier = v }

-- The register writes of `listen`.
listen_regs :
    (i : ℕ) (r : UartRegs)
    → r.lcr < 2 ^ 8
    → put_lcr r.lcr (put_ier_dlm i (put_lcr (bit_and r.lcr 128) r))
      ≡ (if dlab r then record r { dlm = i } else record r { ier = i })
listen_regs i r h =
    rw (latch_bit r.lcr h)
      (elim (Bool-cases (dlab r)) [ inl set ↦ rw (set, ◌==◌) | inr clear ↦ rw clear ])

module _ {b : Bus} {base_addr : ℕ} (u : UartDevice b base_addr) where
  -- A run returns, and leaves the registers `r`.
  pub record Leaves (r : UartRegs) (out : Outcome b.State Unit) : Type 0 where
    pub after : b.State
    pub returns : out ≡ ok tt after
    pub regs : u.regs after ≡ r

  -- A read of the line control register, and a write to it.
  pub lcr_written :
      (v : ℕ) (s : b.State)
      → v < 2 ^ 8
      → u.regs (b.store8 (base_addr + uart_lcr_ofs) v (b.after_read8 (base_addr + uart_lcr_ofs) s))
        ≡ put_lcr v (u.regs s)
  lcr_written v s h =
      u.store_lcr v (b.after_read8 (base_addr + uart_lcr_ofs) s) h ∙ ap (put_lcr v) (u.lcr_quiet s)

  -- `listen` keeps the divisor latch access bit for the time of its write. Where the bit is clear,
  -- it sets the interrupt enable register to the bit of its interrupt; where it is set, it writes
  -- that bit to the divisor latch instead. Every other register is as before.
  pub listen-Leaves :
      (int : UartInterrupt) (s : b.State)
      → Leaves
          (if dlab (u.regs s)
            then record (u.regs s) { dlm = uart_interrupt_bits int }
            else record (u.regs s) { ier = uart_interrupt_bits int })
          (listen b base_addr int s)
  unfolding listen
  listen-Leaves int s =
      let r : UartRegs = u.regs s in
      let bits : ℕ = uart_interrupt_bits int in
      rw (u.lcr_value s) (record {
        after = _;
        returns = refl;
        regs =
            u.store_lcr r.lcr _ (u.lcr-lt s)
            ∙ ap (put_lcr r.lcr) (
                u.store_ier_dlm bits _ (interrupt_bits-lt int)
                ∙ ap (put_ier_dlm bits)
                    (lcr_written (bit_and r.lcr 128) s (bit_and-lt 8 _ 128 (u.lcr-lt s))))
            ∙ listen_regs bits r (u.lcr-lt s);
      })
