-- ===== src/RustMinimal/Greets.antt =====
-- What examples/rust_minimal/examples/uart.rs sends.
use mathlib.Core.Path.{fun_ext}
use atalanta.Prelude.{
  ℕ, zero, suc, ◌+◌, ◌/◌, ◌^◌, ◌<◌, ◌≡◌, refl, ◌∙◌, ap, Bool, true, false, List, [], ◌∷◌, ◌++◌,
  arith, codes, shl32, u8, ◌==◌, if◌then◌else◌, Bool-cases, inl, inr,
}
use atalanta.Machine.{Bus, M, Outcome, ok, spin, pure, continue, save8}
use atalanta.Mmap.{
  uart_base, uart_lsr_ofs, uart_rbr_thr_dll_ofs, uart_ier_dlm_ofs, uart_lcr_ofs, uart_iir_fcr_ofs,
  uart_mcr_ofs,
}
use atalanta.TestBench.{forever}
use atalanta.Uart.{put_all}
use atalanta.Uart as Bsp
use atalanta.Uart.Device.{UartDevice, UartRegs, dlab}
use atalanta.Uart.Init.{step_dlm, step_dll}
use atalanta.Uart.Transmit.{put_all-Sends}
use atalanta.RustMinimal.{cpu_freq, uart_baud}
use atalanta.RustMinimal.Uart.{init_uart, uart_write, entry, wait_transmit_empty, putc}

-- The driver of the program polls and sends as that of the package does.
wait_branch :
    {S : Type 0} (empty : Bool) (k l : M S (Unit {0})) (s : S)
    → k s ≡ l s
    → (elim empty as (λ _. M S (Unit {0})) [ true ↦ pure tt | false ↦ k ]) s
      ≡ (elim empty as (λ _. M S (Unit {0})) [ true ↦ pure tt | false ↦ l ]) s
wait_branch true k l s e = refl
wait_branch false k l s e = e

module _ (b : Bus) where
  wait_same :
      (fuel : ℕ) (s : b.State)
      → wait_transmit_empty b fuel s ≡ Bsp.wait_transmit_empty b uart_base fuel s
  unfolding wait_transmit_empty Bsp.wait_transmit_empty
  wait_same zero s = refl
  wait_same (suc fuel) s =
      let polled : b.State = b.after_read8 (uart_base + uart_lsr_ofs) s in
      wait_branch _ (wait_transmit_empty b fuel) (Bsp.wait_transmit_empty b uart_base fuel) polled
        (wait_same fuel polled)

  putc_same : (fuel c : ℕ) (s : b.State) → putc b fuel c s ≡ Bsp.putc b uart_base fuel c s
  unfolding putc Bsp.putc
  putc_same fuel c s =
      ap
        (λ (r : Outcome b.State (Unit {0})).
          continue r (λ _. save8 b (uart_base + uart_rbr_thr_dll_ofs) c))
        (wait_same fuel s)

  uart_write_same :
      (fuel : ℕ) (text : List ℕ) (s : b.State)
      → uart_write b fuel text s ≡ put_all b uart_base fuel text s
  unfolding uart_write put_all
  uart_write_same fuel [] s = refl
  uart_write_same fuel (c ∷ text) s =
      ap (λ (r : Outcome b.State (Unit {0})). continue r (λ _. uart_write b fuel text))
        (putc_same fuel c s)
      ∙ ap (λ (k : M b.State (Unit {0})). continue (Bsp.putc b uart_base fuel c s) (λ _. k))
          (fun_ext (uart_write_same fuel text))

-- The registers that the program leaves: eight data bits, the divisor latch closed with the divisor
-- in it, the FIFOs on and reset, and autoflow on.
abbrev pub configured : ℕ → ℕ → UartRegs
configured ier d = record {
  lcr = 3;
  ier = ier;
  dll = u8 d;
  dlm = u8 (d / 2 ^ 8);
  fcr = 0xC7;
  mcr = 0x20;
}

module _ {b : Bus} (u : UartDevice b uart_base) (rtl_tb : Bool) (fuel : ℕ) where
  abbrev pub divisor : ℕ
  divisor = cpu_freq rtl_tb / 2 / shl32 (uart_baud rtl_tb) 4

  -- The state behind the seven writes of `init_uart`, for the rates of the program.
  abbrev pub set_up : b.State → b.State
  set_up s =
      let s1 : b.State = b.store8 (uart_base + uart_ier_dlm_ofs) 0 s in
      let s2 : b.State = b.store8 (uart_base + uart_lcr_ofs) 0x80 s1 in
      let s3 : b.State = b.store8 (uart_base + uart_rbr_thr_dll_ofs) (u8 divisor) s2 in
      let s4 : b.State = b.store8 (uart_base + uart_ier_dlm_ofs) (u8 (divisor / 2 ^ 8)) s3 in
      let s5 : b.State = b.store8 (uart_base + uart_lcr_ofs) 3 s4 in
      let s6 : b.State = b.store8 (uart_base + uart_iir_fcr_ofs) 0xC7 s5 in
      b.store8 (uart_base + uart_mcr_ofs) 0x20 s6

  -- A run spins for ever behind the greeting.
  pub record Greets (s : b.State) (r : Outcome b.State ⊥) : Type 0 where
    pub after : b.State
    pub spins : r ≡ spin after
    pub regs : u.regs after ≡ configured (if dlab (u.regs s) then (u.regs s).ier else 0) divisor
    pub sent : u.sent after ≡ u.sent (set_up s) ++ codes "Hello world!"

  baud_shifts : (shl32 (uart_baud rtl_tb) 4 == 0) ≡ false
  baud_shifts = elim rtl_tb as (λ t. (shl32 (uart_baud t) 4 == 0) ≡ false) [
    | true ↦ refl
    | false ↦ refl
  ]

  init_run : (s : b.State) → init_uart b (cpu_freq rtl_tb) (uart_baud rtl_tb) s ≡ ok tt (set_up s)
  unfolding init_uart
  init_run s = rw baud_shifts refl

  set_up_regs :
      (s : b.State)
      → u.regs (set_up s) ≡ configured (if dlab (u.regs s) then (u.regs s).ier else 0) divisor
  set_up_regs s =
      let s1 : b.State = b.store8 (uart_base + uart_ier_dlm_ofs) 0 s in
      let e1 = u.store_ier_dlm 0 s (omega arith) in
      let s2 : b.State = b.store8 (uart_base + uart_lcr_ofs) 0x80 s1 in
      let e2 =
        u.store_lcr 0x80 s1 (omega arith) ∙ ap (λ (x : UartRegs). record x { lcr = 0x80 }) e1 in
      let s3 : b.State = b.store8 (uart_base + uart_rbr_thr_dll_ofs) (u8 divisor) s2 in
      let e3 = step_dll u (u8 divisor) s2 _ e2 refl (omega arith) in
      let s4 : b.State = b.store8 (uart_base + uart_ier_dlm_ofs) (u8 (divisor / 2 ^ 8)) s3 in
      let e4 = step_dlm u (u8 (divisor / 2 ^ 8)) s3 _ e3 refl (omega arith) in
      let s5 : b.State = b.store8 (uart_base + uart_lcr_ofs) 3 s4 in
      let e5 = u.store_lcr 3 s4 (omega arith) ∙ ap (λ (x : UartRegs). record x { lcr = 3 }) e4 in
      let s6 : b.State = b.store8 (uart_base + uart_iir_fcr_ofs) 0xC7 s5 in
      let e6 =
        u.store_fcr 0xC7 s5 (omega arith) ∙ ap (λ (x : UartRegs). record x { fcr = 0xC7 }) e5 in
      let e7 =
        u.store_mcr 0x20 s6 (omega arith) ∙ ap (λ (x : UartRegs). record x { mcr = 0x20 }) e6 in
      e7 ∙ elim (Bool-cases (dlab (u.regs s))) [ inl e ↦ rw e refl | inr e ↦ rw e refl ]

  forever_spins : (rounds : ℕ) (s : b.State) → forever {S = b.State} rounds (pure tt) s ≡ spin s
  forever_spins zero s = refl
  forever_spins (suc rounds) s = forever_spins rounds s

  -- With fuel for more polls than the transmitter can stay busy, behind the set-up and behind a
  -- byte, the program sets the UART up, whether its divisor latch is closed or not, sends the
  -- greeting and then spins for ever. The interrupts are off if the latch was closed, and as before
  -- if not.
  pub entry-Greets :
      (rounds : ℕ) (s : b.State)
      → u.busy (set_up s) < fuel
      → u.period < fuel
      → Greets s (entry b rtl_tb fuel rounds s)
  unfolding entry
  entry-Greets rounds s h p =
      let e = set_up_regs s in
      let sends =
        put_all-Sends u fuel (codes "Hello world!") (set_up s) h p (rw e refl) (omega arith) in
      let written = uart_write_same b fuel (codes "Hello world!") (set_up s) ∙ sends.returns in
      rw (init_run s, written)
        (record {
          after = sends.after;
          spins = forever_spins rounds sends.after;
          regs = sends.regs ∙ e;
          sent = sends.sent;
        })
