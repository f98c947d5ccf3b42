-- ===== src/Console/Quiet.antt =====
-- Printing on the UART returns, and leaves other devices alone.
use atalanta.Prelude.{
  ℕ, zero, suc, ◌+◌, ◌^◌, ◌<◌, ◌≡◌, refl, ◌∙◌, ap, Bool, true, false, List, [], ◌∷◌, ◌++◌, All,
  arith,
}
use mathlib.Core.List.{append_assoc}
use atalanta.Machine.{Bus, M, Outcome, ok, pure}
use atalanta.Machine.Keeps.{Keeps, bind-Keeps, pure-Keeps, spins-Keeps}
use atalanta.Mmap.{uart_base, uart_rbr_thr_dll_ofs, uart_lsr_ofs}
use atalanta.Uart.{is_transmit_empty, wait_transmit_empty, putc, put_all, write, write_str}
use atalanta.Uart.Device.{UartDevice, dlab}
use atalanta.Uart.Transmit.{write-Sends}
use atalanta.Console.{newline, sprint, sprintln}

-- The accesses of a transmission leave `f` alone.
pub record IsApart (b : Bus) {X : Type 0} (f : b.State → X) : Type 0 where
  pub poll : (s : b.State) → f (b.after_read8 (uart_base + uart_lsr_ofs) s) ≡ f s
  pub send : (v : ℕ) (s : b.State) → f (b.store8 (uart_base + uart_rbr_thr_dll_ofs) v s) ≡ f s

module _ {b : Bus} {X : Type 0} {f : b.State → X} (apart : IsApart b f) where
  empty-Keeps : Keeps f (is_transmit_empty b uart_base)
  unfolding is_transmit_empty
  empty-Keeps = record { same = apart.poll }

  either-Keeps :
      (m n : M b.State (Unit {0})) (e : Bool)
      → Keeps f m
      → Keeps f n
      → Keeps f (elim e [ true ↦ m | false ↦ n ])
  either-Keeps m n true hm hn = hm
  either-Keeps m n false hm hn = hn

  wait-Keeps : (fuel : ℕ) → Keeps f (wait_transmit_empty b uart_base fuel)
  unfolding wait_transmit_empty
  wait-Keeps zero = spins-Keeps
  wait-Keeps (suc fuel) =
      bind-Keeps (is_transmit_empty b uart_base)
        (λ e. elim e [ true ↦ pure tt | false ↦ wait_transmit_empty b uart_base fuel ]) empty-Keeps
        (λ e. either-Keeps (pure tt) _ e (pure-Keeps tt) (wait-Keeps fuel))

  putc-Keeps : (fuel c : ℕ) → Keeps f (putc b uart_base fuel c)
  unfolding putc
  putc-Keeps fuel c = bind-Keeps _ _ (wait-Keeps fuel) (λ _. record { same = λ s. apart.send c s })

  put_all-Keeps : (fuel : ℕ) (buf : List ℕ) → Keeps f (put_all b uart_base fuel buf)
  unfolding put_all
  put_all-Keeps fuel [] = pure-Keeps tt
  put_all-Keeps fuel (c ∷ buf) = bind-Keeps _ _ (putc-Keeps fuel c) (λ _. put_all-Keeps fuel buf)

  pub sprint-Keeps : (fuel : ℕ) (text : List ℕ) → Keeps f (sprint b fuel text)
  unfolding sprint write_str write
  sprint-Keeps fuel text =
      bind-Keeps _ _ (bind-Keeps _ _ (put_all-Keeps fuel text) (λ _. pure-Keeps _))
        (λ _. pure-Keeps tt)

  pub sprintln-Keeps : (fuel : ℕ) (text : List ℕ) → Keeps f (sprintln b fuel text)
  unfolding sprintln
  sprintln-Keeps fuel text =
      bind-Keeps _ _ (sprint-Keeps fuel text) (λ _. sprint-Keeps fuel newline)

-- The UART can be printed on: there is fuel for its transmitter, and the divisor latch is not
-- addressed.
pub record IsReady {b : Bus} (u : UartDevice b uart_base) (fuel : ℕ) (s : b.State) : Type 0 where
  pub waits : u.busy s < fuel
  pub period : u.period < fuel
  pub latch : dlab (u.regs s) ≡ false

abbrev pub IsText : List ℕ → Type 0
IsText = All (λ c. c < 2 ^ 8)

module _ {b : Bus} (u : UartDevice b uart_base) (fuel : ℕ) where
  -- A run returns with `text` sent, and the UART can still be printed on.
  pub record Prints (text : List ℕ) (s : b.State) (r : Outcome b.State Unit) : Type 0 where
    pub after : b.State
    pub returns : r ≡ ok tt after
    pub sent : u.sent after ≡ u.sent s ++ text
    pub ready : IsReady u fuel after

  pub sprint-Prints :
      (text : List ℕ) (s : b.State)
      → IsReady u fuel s
      → IsText text
      → Prints text s (sprint b fuel text s)
  unfolding sprint write_str
  sprint-Prints text s ready fits =
      let out = (write-Sends u fuel text s ready.waits ready.period ready.latch fits).0 in
      rw out.returns (record {
        after = out.after;
        returns = refl;
        sent = out.sent;
        ready = record {
          waits = omega (arith, out.busy, ready.waits, ready.period);
          period = ready.period;
          latch = rw out.regs ready.latch;
        };
      })

  pub sprintln-Prints :
      (text : List ℕ) (s : b.State)
      → IsReady u fuel s
      → IsText text
      → Prints (text ++ newline) s (sprintln b fuel text s)
  unfolding sprintln
  sprintln-Prints text s ready fits =
      let one = sprint-Prints text s ready fits in
      let two = sprint-Prints newline one.after one.ready (omega arith, (omega arith, tt)) in
      rw one.returns (record {
        after = two.after;
        returns = two.returns;
        sent = two.sent ∙ ap (λ l. l ++ newline) one.sent ∙ append_assoc (u.sent s) text newline;
        ready = two.ready;
      })
