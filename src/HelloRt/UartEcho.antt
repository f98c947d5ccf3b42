-- ===== src/HelloRt/UartEcho.antt =====
-- The program examples/hello_rt/examples/uart_echo.rs, which echoes what is typed. The text of the
-- prompts is a list of bytes. `heapless::Vec` has a capacity, and `push` fails where it is full.
pub mod Polls
pub mod Buffer
mod Examples
use atalanta.Prelude.{
  codes, ℕ, zero, suc, Bool, true, false, ◌&&◌, ◌||◌, Option, some, none, List, [], ◌∷◌, ◌++◌,
  length, leb, ltb, ◌==◌, if◌then◌else◌,
}
use atalanta.Machine.{Bus, M, pure, panics, spins, ◌>>=◌, ◌>>◌}
use atalanta.Mmap.{uart_base}
use atalanta.Console.{sprint, sprintln, newline}
use atalanta.Delay.{cpu_freq}
use atalanta.Uart
use atalanta.HelloRt.Irq.{uart_baud}

abbrev pub capacity : ℕ
capacity = 16

-- `buf.push(byte)`
unfoldable pub push : ℕ → List ℕ → Option (List ℕ)
push byte buf = if ltb (length buf) capacity then some (buf ++ (byte ∷ [])) else none

abbrev pub is_full : List ℕ → Bool
is_full buf = leb capacity (length buf)

-- Where the behaviour is undefined there is a panic here; nothing else in the program panics behind
-- the set-up.
abbrev pub unwrap_unchecked : {S A : Type 0} → Option A → M S A
unwrap_unchecked none = panics
unwrap_unchecked (some a) = pure a

-- The bytes that follow a first byte of UTF-8: how many, and the range of the first of them. The
-- others are from 0x80 to 0xbf.
abbrev pub tail_of : ℕ → Option (ℕ × ℕ × ℕ)
tail_of a =
    if ltb a 0x80
    then some (0, 0x80, 0xbf)
    else if ltb a 0xc2
    then none
    else if ltb a 0xe0
    then some (1, 0x80, 0xbf)
    else if ltb a 0xf0
    then some (2, (if a == 0xe0 then 0xa0 else 0x80), (if a == 0xed then 0x9f else 0xbf))
    else if ltb a 0xf5
    then some (3, (if a == 0xf0 then 0x90 else 0x80), (if a == 0xf4 then 0x8f else 0xbf))
    else none

-- `n` bytes are left of a character, of which the first is from `lo` to `hi`.
unfoldable pub is_utf8_from : ℕ → ℕ → ℕ → List ℕ → Bool
is_utf8_from zero lo hi [] = true
is_utf8_from (suc n) lo hi [] = false
is_utf8_from zero lo hi (a ∷ r) = elim (tail_of a) [
  | none ↦ false
  | some (n, l, h) ↦ is_utf8_from n l h r
]
is_utf8_from (suc n) lo hi (a ∷ r) = elim (leb lo a && leb a hi) [
  | true ↦ is_utf8_from n 0x80 0xbf r
  | false ↦ false
]

unfoldable pub is_utf8 : List ℕ → Bool
unfolding is_utf8_from
is_utf8 bytes = is_utf8_from 0 0x80 0xbf bytes

-- `core::str::from_utf8_unchecked`: its behaviour is undefined on bytes that are not UTF-8.
abbrev pub from_utf8_unchecked : {S : Type 0} → List ℕ → M S (List ℕ)
from_utf8_unchecked bytes = elim (is_utf8 bytes) [ true ↦ pure bytes | false ↦ panics ]

module _ (b : Bus) (fuel : ℕ) where
  -- A round of the loop, from a buffer to the next.
  unfoldable pub echo_round : List ℕ → M b.State (List ℕ)
  unfolding push is_utf8
  echo_round buf = do
    byte ← Uart.getc b uart_base fuel
    shown ← from_utf8_unchecked (byte ∷ [])
    sprint b fuel shown
    buf' ← unwrap_unchecked (push byte buf)
    if is_full buf' || byte == b'\r'
        then (do
          line ← from_utf8_unchecked buf'
          sprintln b fuel (newline ++ (codes "echo: " ++ line))
          sprint b fuel (codes "Type something: ")
          pure [])
        else pure buf'

  unfoldable pub echo : ℕ → List ℕ → M b.State ⊥
  unfolding echo_round
  echo zero buf = spins
  echo (suc rounds) buf = do buf' ← echo_round buf; echo rounds buf'

  unfoldable pub main : Bool → Option ℕ → ℕ → M b.State ⊥
  unfolding echo
  main rtl_tb uart_is_init rounds = do
    Uart.init b uart_base uart_is_init (cpu_freq rtl_tb) (uart_baud rtl_tb)
    sprintln b fuel (newline ++ codes "[uart_echo]")
    sprint b fuel (codes "Type something (enter to echo): ")
    echo rounds []
