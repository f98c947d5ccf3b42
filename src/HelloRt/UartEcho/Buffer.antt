-- ===== src/HelloRt/UartEcho/Buffer.antt =====
-- Where the behaviour of uart_echo.rs of examples/hello_rt/examples/ is defined: the buffer has room
-- for the next byte, and what is taken for text is UTF-8.
use atalanta.Prelude.{
  codes, ℕ, zero, suc, ◌≤◌, ◌<◌, ◌≡◌, refl, true, false, ◌||◌, List, [], ◌∷◌, ◌++◌, length, All,
  All-append, ltb, ◌==◌, arith, Bool-cases, inl, inr, if◌then◌else◌,
}
use atalanta.Machine.{Bus, Outcome, ok, panic, spin, pure, ◌>>=◌, ◌>>◌}
use atalanta.Machine.Ensures.{
  Holds, continue-Holds, Ensures, pure-Ensures, spins-Ensures, bind-Ensures,
}
use atalanta.Mmap.{uart_base}
use atalanta.Uart.{getc}
use atalanta.Console.{newline, sprint, sprintln}
use atalanta.HelloRt.UartEcho.Polls.{Anything, sprint-Ensures, sprintln-Ensures, wait_data-Ensures}
use atalanta.HelloRt.UartEcho.{
  capacity, push, is_full, unwrap_unchecked, is_utf8, from_utf8_unchecked, echo_round, echo,
}

module _ (b : Bus) where
  -- A character that is received, or that is in the buffer.
  abbrev pub IsAscii : ℕ → Type 0
  IsAscii c = c < 0x80

  getc-Ensures :
      (fuel : ℕ)
      → ((s : b.State) → IsAscii (b.value8 uart_base s))
      → Ensures IsAscii (getc b uart_base fuel)
  unfolding getc
  getc-Ensures fuel ascii =
      bind-Ensures {P = Anything} _ _ (wait_data-Ensures b fuel) (λ _ _. record { holds = ascii })

  any-Ensures : (fuel : ℕ) → Ensures Anything (getc b uart_base fuel)
  unfolding getc
  any-Ensures fuel =
      bind-Ensures {P = Anything} _ _ (wait_data-Ensures b fuel) (λ _ _. record { holds = λ s. tt })

  is_utf8-ascii : (text : List ℕ) → All IsAscii text → is_utf8 text ≡ true
  unfolding is_utf8
  is_utf8-ascii [] h = refl
  is_utf8-ascii (a ∷ text) (ha, h) = ground (arith, is_utf8-ascii text h)

  -- A single byte above ASCII is not UTF-8.
  is_utf8-byte : (a : ℕ) → 0x80 ≤ a → is_utf8 (a ∷ []) ≡ false
  unfolding is_utf8
  is_utf8-byte a h = ground arith

  text-Ensures :
      (text : List ℕ)
      → All IsAscii text
      → Ensures {S = b.State} (λ t. t ≡ text) (from_utf8_unchecked text)
  text-Ensures text h = rw (is_utf8-ascii text h, from_utf8_unchecked) (pure-Ensures _ _ refl)

  text_panics :
      (text : List ℕ) (s : b.State) → is_utf8 text ≡ false → from_utf8_unchecked text s ≡ panic s
  text_panics text s e = rw (e, from_utf8_unchecked) refl

  abbrev pub HasRoom : List ℕ → Type 0
  HasRoom buf = (length buf < capacity) × All IsAscii buf

  push-Ensures :
      (byte : ℕ) (buf : List ℕ)
      → HasRoom buf
      → Ensures {S = b.State} (λ buf'. buf' ≡ buf ++ (byte ∷ [])) (unwrap_unchecked (push byte buf))
  unfolding push
  push-Ensures byte buf h =
      let room : length buf < capacity = h.0 in
      let e : ltb (length buf) capacity ≡ true = ground arith in rw e (pure-Ensures _ _ refl)

  -- After a byte is pushed, a full buffer is emptied.
  respond-Ensures :
      (fuel byte : ℕ) (buf' : List ℕ)
      → All IsAscii buf'
      → Ensures HasRoom (
          if is_full buf' || byte == b'\r'
          then (do
            line ← from_utf8_unchecked buf'
            sprintln b fuel (newline ++ (codes "echo: " ++ line))
            sprint b fuel (codes "Type something: ")
            pure [])
          else pure buf')
  respond-Ensures fuel byte buf' ascii = elim (Bool-cases (is_full buf' || byte == b'\r')) [
    | inl e ↦ rw e (
        bind-Ensures {P = λ t. t ≡ buf'} _ _ (text-Ensures buf' ascii) (λ line _.
          bind-Ensures {P = Anything} _ _
            (sprintln-Ensures b fuel (newline ++ (codes "echo: " ++ line)))
            (λ _ _.
              bind-Ensures {P = Anything} _ _ (sprint-Ensures b fuel (codes "Type something: "))
                (λ _ _. pure-Ensures HasRoom [] (omega arith, tt)))))
    | inr e ↦ rw e (pure-Ensures HasRoom buf' (ground arith, ascii))
  ]

  -- A round, from a state in which the next byte is ASCII.
  round_at :
      (fuel : ℕ) (buf : List ℕ) (s : b.State)
      → HasRoom buf
      → Holds IsAscii (getc b uart_base fuel s)
      → Holds HasRoom (echo_round b fuel buf s)
  unfolding echo_round
  round_at fuel buf s h next =
      continue-Holds {P = IsAscii} (getc b uart_base fuel s) _ next (λ byte hb.
        bind-Ensures {P = λ t. t ≡ byte ∷ []} _ _ (text-Ensures (byte ∷ []) (hb, tt)) (λ shown _.
          bind-Ensures {P = Anything} _ _ (sprint-Ensures b fuel shown) (λ _ _.
            bind-Ensures {P = λ buf'. buf' ≡ buf ++ (byte ∷ [])} _ _ (push-Ensures byte buf h)
              (λ buf' e.
                respond-Ensures fuel byte buf'
                  (rw e (All-append IsAscii buf (byte ∷ []) h.1 (hb, tt)))))))

  -- How a round goes, by the byte that it waits for.
  pub data Judged (fuel : ℕ) (s : b.State) (r : Outcome b.State (List ℕ)) : Type 0 where
    no_byte : (t : b.State) → getc b uart_base fuel s ≡ spin t → r ≡ spin t → Judged fuel s r
    ascii :
        (byte : ℕ) (t : b.State)
        → getc b uart_base fuel s ≡ ok byte t
        → byte < 0x80
        → Holds HasRoom r
        → Judged fuel s r
    not_ascii :
        (byte : ℕ) (t : b.State)
        → getc b uart_base fuel s ≡ ok byte t
        → 0x80 ≤ byte
        → r ≡ panic t
        → Judged fuel s r

  judge :
      (fuel : ℕ) (buf : List ℕ) (s : b.State) (got : Outcome b.State ℕ)
      → HasRoom buf
      → getc b uart_base fuel s ≡ got
      → Holds Anything got
      → Judged fuel s (echo_round b fuel buf s)
  unfolding echo_round
  judge fuel buf s (ok byte t) h e _ = elim (Bool-cases (ltb byte 0x80)) [
    | inl low ↦
        let below : byte < 0x80 = ground arith in
        ascii byte t e below (round_at fuel buf s h (rw e below))
    | inr high ↦
        let above : 0x80 ≤ byte = ground arith in
        not_ascii byte t e above (rw (e, text_panics (byte ∷ []) t (is_utf8-byte byte above)) refl)
  ]
  judge fuel buf s (panic t) h e none = absurd none
  judge fuel buf s (spin t) h e _ = no_byte t e (rw e refl)

  -- On any device, and from a buffer with room for a byte that holds ASCII, a round of the echo waits
  -- for ever for a byte, or it receives one; if that is ASCII, the round has no undefined behaviour,
  -- and what it returns is such a buffer again; if not, the behaviour is undefined right behind the
  -- reading of the byte, before anything is printed.
  pub echo_round-Judged :
      (fuel : ℕ) (buf : List ℕ) (s : b.State)
      → HasRoom buf
      → Judged fuel s (echo_round b fuel buf s)
  echo_round-Judged fuel buf s h =
      judge fuel buf s (getc b uart_base fuel s) h refl ((any-Ensures fuel).holds s)

  module _ (typed : (s : b.State) → IsAscii (b.value8 uart_base s)) where
    -- On a device whose receive buffer reads as ASCII, however long it runs, and from a buffer with
    -- room for a byte that holds ASCII, the echo has no undefined behaviour: it never pushes to a
    -- full buffer, and never takes bytes for text that are not UTF-8.
    pub echo_ascii :
        (fuel rounds : ℕ) (buf : List ℕ) → HasRoom buf → Ensures Anything (echo b fuel rounds buf)
    unfolding echo
    echo_ascii fuel zero buf h = spins-Ensures Anything
    echo_ascii fuel (suc rounds) buf h =
        bind-Ensures {P = HasRoom} _ _
          (record { holds = λ s. round_at fuel buf s h ((getc-Ensures fuel typed).holds s) })
          (λ buf' h'. echo_ascii fuel rounds buf' h')
