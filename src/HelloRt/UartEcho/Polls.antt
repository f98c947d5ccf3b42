-- ===== src/HelloRt/UartEcho/Polls.antt =====
-- The accesses of the UART in uart_echo.rs of examples/hello_rt/examples/ never panic.
use atalanta.Prelude.{ℕ, zero, suc, ◌+◌, Bool, true, false, List, [], ◌∷◌, bit_and, ◌==◌}
use atalanta.Machine.{Bus, M, pure}
use atalanta.Machine.Ensures.{Ensures, pure-Ensures, spins-Ensures, bind-Ensures}
use atalanta.Access.{read_u8}
use atalanta.Mmap.{uart_lsr_ofs, uart_base, uart_lsr_rx_fifo_valid_bit}
use atalanta.Uart.{
  is_transmit_empty, wait_transmit_empty, putc, put_all, write, write_str, wait_data,
}
use atalanta.Console.{newline, sprint, sprintln}

abbrev pub Anything : {A : Type 0} → A → Type 0
Anything a = Unit

either-Ensures :
    {S A : Type 0} {P : A → Type 0} (m n : M S A) (e : Bool)
    → Ensures P m
    → Ensures P n
    → Ensures P (elim e [ true ↦ m | false ↦ n ])
either-Ensures m n true hm hn = hm
either-Ensures m n false hm hn = hn

module _ (b : Bus) where
  -- The polling loops and the accesses of the UART never panic.
  wait-Ensures : (fuel : ℕ) → Ensures Anything (wait_transmit_empty b uart_base fuel)
  unfolding wait_transmit_empty is_transmit_empty
  wait-Ensures zero = spins-Ensures Anything
  wait-Ensures (suc fuel) =
      bind-Ensures {P = Anything} (is_transmit_empty b uart_base) _ (record { holds = λ s. tt })
        (λ e _.
          either-Ensures (pure tt) (wait_transmit_empty b uart_base fuel) e
            (pure-Ensures Anything tt tt) (wait-Ensures fuel))

  put_all-Ensures : (fuel : ℕ) (buf : List ℕ) → Ensures Anything (put_all b uart_base fuel buf)
  unfolding put_all putc
  put_all-Ensures fuel [] = pure-Ensures Anything tt tt
  put_all-Ensures fuel (c ∷ buf) =
      bind-Ensures {P = Anything} (putc b uart_base fuel c) _
        (bind-Ensures {P = Anything} _ _ (wait-Ensures fuel) (λ _ _. record { holds = λ s. tt }))
        (λ _ _. put_all-Ensures fuel buf)

  pub sprint-Ensures : (fuel : ℕ) (text : List ℕ) → Ensures Anything (sprint b fuel text)
  unfolding sprint write_str write
  sprint-Ensures fuel text =
      bind-Ensures {P = Anything} _ _
        (bind-Ensures {P = Anything} _ _ (put_all-Ensures fuel text)
          (λ _ _. pure-Ensures Anything _ tt))
        (λ _ _. pure-Ensures Anything tt tt)

  pub sprintln-Ensures : (fuel : ℕ) (text : List ℕ) → Ensures Anything (sprintln b fuel text)
  unfolding sprintln
  sprintln-Ensures fuel text =
      bind-Ensures {P = Anything} _ _ (sprint-Ensures fuel text)
        (λ _ _. sprint-Ensures fuel newline)

  pub wait_data-Ensures : (fuel : ℕ) → Ensures Anything (wait_data b uart_base fuel)
  unfolding wait_data
  wait_data-Ensures zero = spins-Ensures Anything
  wait_data-Ensures (suc fuel) =
      bind-Ensures {P = Anything} (read_u8 b (uart_base + uart_lsr_ofs)) _
        (record { holds = λ s. tt })
        (λ lsr _.
          either-Ensures (wait_data b uart_base fuel) (pure tt)
            (bit_and lsr uart_lsr_rx_fifo_valid_bit == 0) (wait_data-Ensures fuel)
            (pure-Ensures Anything tt tt))
