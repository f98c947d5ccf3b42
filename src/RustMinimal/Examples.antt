-- ===== src/RustMinimal/Examples.antt =====
-- The greeting of examples/rust_minimal/examples/uart.rs on a UART whose divisor latch is open, with a
-- byte on its way.
use atalanta.Prelude.{true, [], ◌∷◌, arith}
use atalanta.Uart.Port.{Port, port_bus, port}
use atalanta.RustMinimal.Uart.{entry}
use atalanta.RustMinimal.Greets.{Greets, entry-Greets}

abbrev start : Port
start = record {
  regs = record { lcr = 0x83; ier = 1; dll = 27; dlm = 0; fcr = 0; mcr = 0 };
  sent = 65 ∷ [];
  busy = 2;
}

entry-Greets_example : Greets port true 4 start (entry port_bus true 4 9 start)
entry-Greets_example = entry-Greets port true 4 9 start (omega arith) (omega arith)
