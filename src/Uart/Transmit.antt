-- ===== src/Uart/Transmit.antt =====
-- Transmission over the UART: examples/atalanta-bsp/src/uart.rs.
use atalanta.Prelude.{
  ℕ, zero, suc, ◌+◌, ◌*◌, ◌/◌, ◌^◌, ◌≤◌, ◌<◌, ◌≡◌, refl, sym, ◌∙◌, ap, true, false, not, List, [],
  ◌∷◌, ◌++◌, length, All, arith, bit, bit_and-zero, bit_and_step, max, bit_and, ◌==◌,
}
use mathlib.Core.List.{append-nil, append_assoc}
use atalanta.Machine.{Bus, Outcome, ok}
use native.Mathlib.Decide.{dec_lt}
use atalanta.Mmap.{uart_lsr_ofs, uart_rbr_thr_dll_ofs}
use atalanta.Uart.{wait_transmit_empty, putc, put_all, write, flush}
use atalanta.Uart.Device.{UartDevice, dlab}

-- The test of `is_transmit_empty` looks at bit 5.
masked : (x : ℕ) → x < 2 ^ 8 → bit_and x 0x20 ≡ 32 * bit x 5
masked x h = omega (
  arith,
  bit_and_step x 32,
  bit_and_step (x / 2) 16,
  bit_and_step (x / 2 / 2) 8,
  bit_and_step (x / 2 / 2 / 2) 4,
  bit_and_step (x / 2 / 2 / 2 / 2) 2,
  bit_and_step (x / 2 / 2 / 2 / 2 / 2) 1,
  bit_and-zero 8 (x / 2 / 2 / 2 / 2 / 2 / 2) (omega arith),
)

module _ {b : Bus} {base_addr : ℕ} (u : UartDevice b base_addr) where
  -- A run returns `a`; the bytes sent so far are `bytes`, the registers are as in `s`, and the
  -- transmitter is busy for at most `left` polls.
  pub record Sends {A : Type 0} (a : A) (bytes : List ℕ) (left : ℕ) (s : b.State)
      (r : Outcome b.State A) : Type 0 where
    pub after : b.State
    pub returns : r ≡ ok a after
    pub sent : u.sent after ≡ bytes
    pub regs : u.regs after ≡ u.regs s
    pub busy : u.busy after ≤ left

  abbrev polled : b.State → b.State
  polled s = b.after_read8 (base_addr + uart_lsr_ofs) s

  is_empty :
      (s : b.State)
      → u.busy s ≡ 0
      → not (bit_and (b.value8 (base_addr + uart_lsr_ofs) s) 0x20 == 0) ≡ true
  is_empty s h =
      ground (arith, masked (b.value8 (base_addr + uart_lsr_ofs) s) (u.lsr-lt s), u.lsr_empty s)

  is_busy :
      (s : b.State)
      → 0 < u.busy s
      → not (bit_and (b.value8 (base_addr + uart_lsr_ofs) s) 0x20 == 0) ≡ false
  is_busy s h =
      ground (arith, masked (b.value8 (base_addr + uart_lsr_ofs) s) (u.lsr-lt s), u.lsr_empty s)

  wait-Sends :
      (fuel : ℕ) (s : b.State)
      → u.busy s < fuel
      → Sends tt (u.sent s) 0 s (wait_transmit_empty b base_addr fuel s)
  unfolding wait_transmit_empty
  wait-Sends zero s h = absurd (omega arith)
  wait-Sends (suc fuel) s h = elim (dec_lt 0 (u.busy s)) [
    | yes busy ↦
        let rest = wait-Sends fuel (polled s) (omega (arith, u.poll_busy s)) in
        rw (is_busy s busy) (record {
          after = rest.after;
          returns = rest.returns;
          sent = rest.sent ∙ u.poll_sent s;
          regs = rest.regs ∙ u.poll_regs s;
          busy = rest.busy;
        })
    | no free ↦ rw (is_empty s (omega arith)) (record {
      after = polled s;
      returns = refl;
      sent = u.poll_sent s;
      regs = u.poll_regs s;
      busy = omega (arith, u.poll_busy s);
    })
  ]

  putc-Sends :
      (fuel c : ℕ) (s : b.State)
      → u.busy s < fuel
      → dlab (u.regs s) ≡ false
      → c < 2 ^ 8
      → Sends tt (u.sent s ++ (c ∷ [])) u.period s (putc b base_addr fuel c s)
  unfolding putc
  putc-Sends fuel c s h latch fits =
      let waited = wait-Sends fuel s h in
      let latch' : dlab (u.regs waited.after) ≡ false = rw waited.regs latch in
      let free : u.busy waited.after ≡ 0 = omega (arith, waited.busy) in
      rw waited.returns (record {
        after = b.store8 (base_addr + uart_rbr_thr_dll_ofs) c waited.after;
        returns = refl;
        sent = u.send_sent c waited.after latch' free ∙ ap (λ l. l ++ (c ∷ [])) waited.sent;
        regs = u.store_thr_dll c waited.after fits ∙ (rw latch' waited.regs);
        busy = u.send_busy c waited.after latch' free;
      })

  pub put_all-Sends :
      (fuel : ℕ) (buf : List ℕ) (s : b.State)
      → u.busy s < fuel
      → u.period < fuel
      → dlab (u.regs s) ≡ false
      → All (λ c. c < 2 ^ 8) buf
      → Sends tt (u.sent s ++ buf) (max (u.busy s) u.period) s (put_all b base_addr fuel buf s)
  unfolding put_all
  put_all-Sends fuel [] s h p latch fits = record {
    after = s;
    returns = refl;
    sent = sym (append-nil (u.sent s));
    regs = refl;
    busy = omega arith;
  }
  put_all-Sends fuel (c ∷ buf) s h p latch (fit, fits) =
      let one = putc-Sends fuel c s h latch fit in
      let latch' : dlab (u.regs one.after) ≡ false = rw one.regs latch in
      let rest = put_all-Sends fuel buf one.after (omega (arith, one.busy)) p latch' fits in
      rw one.returns (record {
        after = rest.after;
        returns = rest.returns;
        sent = rest.sent ∙ ap (λ l. l ++ buf) one.sent ∙ append_assoc (u.sent s) (c ∷ []) buf;
        regs = rest.regs ∙ one.regs;
        busy = omega (arith, rest.busy, one.busy);
      })

  -- With fuel for more polls than the transmitter can stay busy, and with the divisor latch not
  -- addressed, `write` returns the number of its bytes; they are sent in order behind those before
  -- them, and no control register changes. `flush` returns with the transmit FIFO empty.
  pub write-Sends :
      (fuel : ℕ) (buf : List ℕ) (s : b.State)
      → u.busy s < fuel
      → u.period < fuel
      → dlab (u.regs s) ≡ false
      → All (λ c. c < 2 ^ 8) buf
      → Sends
          (length buf)
          (u.sent s ++ buf)
          (max (u.busy s) u.period)
          s
          (write b base_addr fuel buf s)
        × Sends tt (u.sent s) 0 s (flush b base_addr fuel s)
  unfolding write flush
  write-Sends fuel buf s h p latch fits =
      let all = put_all-Sends fuel buf s h p latch fits in
      (
        rw all.returns (record {
          after = all.after;
          returns = refl;
          sent = all.sent;
          regs = all.regs;
          busy = all.busy;
        }),
        wait-Sends fuel s h,
      )
