-- ===== src/HelloRt/AllIrqs/Verdict.antt =====
-- What clic_all_irqs.rs of examples/hello_rt/examples/ finds out: which interrupts were handled.
use atalanta.Prelude.{
  ℕ, ◌+◌, ◌^◌, ◌<◌, ◌≡◌, refl, ◌∙◌, ap, max, Bool, true, false, ◌||◌, List, [], ◌∷◌, All, arith,
  bit, bit_and, bit_or, bit-bit_or, bit_or-lt, bit-zero, ◌++◌, bit-flag, flag-lt, flag_test, shl64,
  ltb, ◌==◌, if◌then◌else◌,
}
use atalanta.Machine.{Bus, M, Outcome, ok, pure, ◌>>◌}
use atalanta.Machine.Statics.{checked_shl64}
use atalanta.Mmap.{uart_base}
use atalanta.Console.{sprint, sprintln}
use atalanta.Console.Quiet.{IsReady, IsText, sprint-Prints, sprintln-Prints}
use atalanta.Uart.Device.{UartDevice}
use atalanta.Interrupt.{Interrupt, number}
use atalanta.Interrupt.Numbers.{number-lt}
use atalanta.TestBench.{test_ok_tag, test_fail_tag, signal_partial_ok, signal_partial_fail}
use atalanta.HelloRt.AllIrqs.{interrupt_handler, check_irqs, test_irqs}

abbrev pub code : ℕ → ℕ
code mcause = bit_and mcause 0xfff

-- Traps that are handled one after the other, each with the cause that it shows.
unfoldable pub handle_all : {S : Type 0} → Bool → List ℕ → M (S × ℕ) Unit
handle_all debug [] = pure tt
handle_all debug (mcause ∷ rest) = do interrupt_handler debug mcause; handle_all debug rest

-- One of the causes is interrupt `n`.
abbrev pub was_raised : List ℕ → ℕ → Bool
was_raised [] n = false
was_raised (mcause ∷ rest) n = (n == code mcause) || was_raised rest n

-- How many of the interrupts are not among the causes.
abbrev pub missing : List ℕ → List Interrupt → ℕ
missing causes [] = 0
missing causes (irq ∷ irqs) =
    (if was_raised causes (number irq) then 0 else 1) + missing causes irqs

checked_lem :
    {S : Type 0} (debug : Bool) (x k : ℕ) (s : S)
    → k < 64
    → checked_shl64 debug x k s ≡ ok (shl64 x k) s
checked_lem true x k s h = let e : ltb k 64 ≡ true = ground arith in rw e refl
checked_lem false x k s h = refl

handler_lem :
    {S : Type 0} (debug : Bool) (m : ℕ) (s : S) (v : ℕ)
    → code m < 64
    → interrupt_handler debug m (s, v) ≡ ok tt (s, bit_or v (shl64 1 (code m)))
unfolding interrupt_handler
handler_lem {S} debug m s v h = rw (checked_lem {S = S × ℕ} debug 1 (code m) (s, v) h) refl

-- The statics of `interrupt_handler` after the causes.
record Records {S : Type 0} (causes : List ℕ) (s : S) (v : ℕ) (r : Outcome (S × ℕ) (Unit {0}))
    : Type 0 where
  recvd : ℕ
  returns : r ≡ ok tt (s, recvd)
  fits : recvd < 2 ^ 64
  flags : (i : ℕ) → i < 64 → bit recvd i ≡ max (bit v i) (if was_raised causes i then 1 else 0)

handle_all-Records :
    {S : Type 0} (debug : Bool) (causes : List ℕ) (s : S) (v : ℕ)
    → All (λ m. code m < 64) causes
    → v < 2 ^ 64
    → Records causes s v (handle_all debug causes (s, v))
unfolding handle_all
handle_all-Records debug [] s v h hv = record {
  recvd = v;
  returns = refl;
  fits = hv;
  flags = λ i hi. omega arith;
}
handle_all-Records debug (m ∷ ms) s v (h, hs) hv =
    let k : ℕ = code m in
    let rest =
      handle_all-Records debug ms s (bit_or v (shl64 1 k)) hs
        (bit_or-lt 64 v (shl64 1 k) hv (flag-lt k)) in
    record {
      recvd = rest.recvd;
      returns = rw (handler_lem debug m s v h) rest.returns;
      fits = rest.fits;
      flags =
          λ i hi. rest.flags i hi ∙ ground (arith, bit-bit_or v (shl64 1 k) i, bit-flag k i h hi);
    }

counted :
    (seen raised : Bool) (bit_n failures m : ℕ)
    → seen ≡ (bit_n == 1)
    → bit_n ≡ (if raised then 1 else 0)
    → (if seen then failures else failures + 1) + m ≡ failures + ((if raised then 0 else 1) + m)
counted seen raised bit_n failures m e h = ground arith

module _ {b : Bus} (u : UartDevice b uart_base) (fuel : ℕ) (text : Interrupt → List ℕ)
    (fits : (irq : Interrupt) → IsText (text irq)) where
  -- A run of the check returns `n` and keeps the statics.
  pub record Counts (n : ℕ) (v : ℕ) (r : Outcome (b.State × ℕ) ℕ) : Type 0 where
    pub after : b.State
    pub returns : r ≡ ok n (after, v)

  record Reports (r : Outcome b.State (Unit {0})) : Type 0 where
    after : b.State
    returns : r ≡ ok tt after
    ready : IsReady u fuel after

  tagged :
      (tag : List ℕ) (irq : Interrupt) (s : b.State)
      → IsReady u fuel s
      → IsText tag
      → Reports ((sprint b fuel tag >> sprintln b fuel (text irq)) s)
  tagged tag irq s ready h =
      let one = sprint-Prints u fuel tag s ready h in
      let two = sprintln-Prints u fuel (text irq) one.after one.ready (fits irq) in
      record { after = two.after; returns = rw one.returns two.returns; ready = two.ready }

  -- A message of the check, of a success or of a failure.
  report-Reports :
      (seen : Bool) (irq : Interrupt) (s : b.State)
      → IsReady u fuel s
      → Reports (
          (if seen
              then signal_partial_ok b fuel (text irq)
              else signal_partial_fail b fuel (text irq))
            s)
  unfolding signal_partial_ok signal_partial_fail
  report-Reports true irq s ready = tagged (test_ok_tag ++ (b' ' ∷ [])) irq s ready (omega arith)
  report-Reports false irq s ready = tagged (test_fail_tag ++ (b' ' ∷ [])) irq s ready (omega arith)

  check_irqs-Counts :
      (debug : Bool) (causes : List ℕ) (irqs : List Interrupt) (failures v : ℕ) (s : b.State)
      → v < 2 ^ 64
      → ((i : ℕ) → i < 64 → bit v i ≡ (if was_raised causes i then 1 else 0))
      → IsReady u fuel s
      → Counts
          (failures + missing causes irqs)
          v
          (check_irqs b debug fuel text irqs failures (s, v))
  unfolding check_irqs
  check_irqs-Counts debug causes [] failures v s hv flags ready = record {
    after = s;
    returns = ap (λ n. ok n (s, v)) (omega arith);
  }
  check_irqs-Counts debug causes (irq ∷ irqs) failures v s hv flags ready =
      let n : ℕ = number irq in
      let seen : Bool = bit_and v (shl64 1 n) == shl64 1 n in
      let one = report-Reports seen irq s ready in
      let rest =
        check_irqs-Counts debug causes irqs (if seen then failures else failures + 1) v one.after hv
          flags one.ready in
      record {
        after = rest.after;
        returns =
            rw (checked_lem {S = b.State × ℕ} debug 1 n (s, v) (number-lt irq), one.returns)
              (rest.returns
                ∙ ap (λ k. ok k (rest.after, v))
                    (counted seen (was_raised causes n) (bit v n) failures (missing causes irqs)
                      (flag_test v n hv (number-lt irq)) (flags n (number-lt irq))));
      }

  -- With a UART that can be printed on, when the handler has run for any causes below 64, in any
  -- order, the check returns, and counts as failures the tested interrupts that are not among the
  -- causes.
  pub check_irqs-missing :
      (debug : Bool) (causes : List ℕ) (s : b.State)
      → All (λ m. code m < 64) causes
      → IsReady u fuel s
      → (v : ℕ) × Counts
          (missing causes test_irqs)
          v
          ((handle_all debug causes >> check_irqs b debug fuel text test_irqs 0) (s, 0))
  check_irqs-missing debug causes s h ready =
      let handled = handle_all-Records debug causes s 0 h (omega arith) in
      let flags = λ (i : ℕ) (hi : i < 64). handled.flags i hi ∙ (rw bit-zero (ground arith)) in
      let checked =
        check_irqs-Counts debug causes test_irqs 0 handled.recvd s handled.fits flags ready in
      (
        handled.recvd,
        record {
          after = checked.after;
          returns =
              rw handled.returns
                (checked.returns ∙ ap (λ k. ok k (checked.after, handled.recvd)) (omega arith));
        },
      )
