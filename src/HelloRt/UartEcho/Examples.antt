-- ===== src/HelloRt/UartEcho/Examples.antt =====
-- The theorems on the echo, at a device that always has the same byte, with a buffer of two bytes.
use atalanta.Prelude.{ℕ, ◌+◌, ◌≡◌, refl, [], ◌∷◌, true, ◌==◌, if◌then◌else◌, arith}
use atalanta.Machine.{Bus, panic}
use atalanta.Machine.Ensures.{Ensures}
use atalanta.Mmap.{uart_base, uart_lsr_ofs}
use atalanta.Uart.{getc, wait_data}
use atalanta.HelloRt.UartEcho.{is_utf8, echo_round, echo}
use atalanta.HelloRt.UartEcho.Polls.{Anything}
use atalanta.HelloRt.UartEcho.Buffer.{Judged, echo_round-Judged, echo_ascii}

-- Data is there and the transmitter is free. The state counts the writes.
abbrev typing : ℕ → Bus
typing c = record {
  State = ℕ;
  value8 = λ a s. if a == uart_base + uart_lsr_ofs then 0x61 else c;
  after_read8 = λ a s. s;
  store8 = λ a v s. s + 1;
  value32 = λ a s. 0;
  after_read32 = λ a s. s;
  store32 = λ a v s. s;
}

echo_ascii_example : Ensures Anything (echo (typing b'x') 9 40 (b'h' ∷ b'i' ∷ []))
echo_ascii_example =
    echo_ascii (typing b'x') (λ s. omega arith) 9 40 (b'h' ∷ b'i' ∷ [])
      (omega arith, (omega arith, (omega arith, tt)))

-- The first byte of a character of two bytes.
echo_round-Judged_example : Judged (typing 0xc3) 9 0 (echo_round (typing 0xc3) 9 (b'h' ∷ []) 0)
echo_round-Judged_example =
    echo_round-Judged (typing 0xc3) 9 (b'h' ∷ []) 0 (omega arith, (omega arith, tt))

stopped : echo_round (typing 0xc3) 9 (b'h' ∷ []) 0 ≡ panic 0
unfolding echo_round getc wait_data is_utf8
stopped = refl

-- A character of each length.
is_utf8_example :
    is_utf8 (0x41 ∷ 0xc3 ∷ 0xa4 ∷ 0xe2 ∷ 0x82 ∷ 0xac ∷ 0xf0 ∷ 0x9f ∷ 0xa6 ∷ 0x80 ∷ []) ≡ true
unfolding is_utf8
is_utf8_example = refl
