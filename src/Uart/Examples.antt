-- ===== src/Uart/Examples.antt =====
-- Runs of the driver of examples/atalanta-bsp/src/uart.rs on a UART whose contents are known.
use atalanta.Prelude.{◌/◌, ◌^◌, ◌≡◌, inr, none, shl32, refl, [], ◌∷◌, arith}
use atalanta.Mmap.{uart_base}
use atalanta.Uart.{init, listen, on_error, uart_interrupt_bits, write, flush}
use atalanta.Uart.Setup.{Leaves, listen-Leaves}
use atalanta.Uart.Transmit.{Sends, write-Sends}
use atalanta.Uart.Init.{initialised, init-Leaves, init_panics}
use atalanta.Machine.{panic}
use atalanta.Uart.Port.{Port, port_bus, port}

-- The divisor latch is not addressed, and one byte is on its way.
abbrev ready : Port
ready = record {
  regs = record { lcr = 3; ier = 0; dll = 27; dlm = 0; fcr = 0xc7; mcr = 0x20 };
  sent = 65 ∷ [];
  busy = 2;
}

write-Sends_example :
    Sends port 2 (65 ∷ 72 ∷ 105 ∷ []) 3 ready (write port_bus uart_base 4 (72 ∷ 105 ∷ []) ready)
    × Sends port tt (65 ∷ []) 0 ready (flush port_bus uart_base 4 ready)
write-Sends_example =
    write-Sends port 4 (72 ∷ 105 ∷ []) ready (omega arith) (omega arith) refl
      (omega arith, (omega arith, tt))

listen-Leaves_example :
    Leaves port
      (record ready.regs { ier = uart_interrupt_bits on_error })
      (listen port_bus uart_base on_error ready)
listen-Leaves_example = listen-Leaves port on_error ready

-- 30 MHz divided by 4, and 115200 baud.
init-Leaves_example :
    Leaves port
      (initialised port (30_000_000 / 4 / shl32 115_200 4))
      (init port_bus uart_base none 30_000_000 115_200 ready)
init-Leaves_example =
    init-Leaves port none 30_000_000 115_200 ready tt (omega arith) (omega arith) refl

init_panics_example : init port_bus uart_base none 30_000_000 (2 ^ 28) ready ≡ panic ready
init_panics_example = init_panics port none 30_000_000 (2 ^ 28) ready (inr refl)
