-- ===== src/HelloRt/NestedLock/Order.antt =====
-- The order of the two handlers of nested_interrupt_macros.rs of examples/hello_rt/examples/: the one
-- of low level pends the other and waits for it, and `main` waits for both.
use atalanta.Prelude.{ℕ, List}
use atalanta.Machine.{Bus, M}
use atalanta.Machine.Reg.{RegApi}
use atalanta.Machine.Statics.{lift}
use atalanta.Mmap.{uart_base}
use atalanta.Clic.{ip}
use atalanta.Clic.Intip
use atalanta.Console.Quiet.{IsText}
use atalanta.Interrupt.{number, dma1}
use atalanta.Uart.Device.{UartDevice}
use atalanta.HelloRt.NestedLock.{dma0_handler, dma1_handler}
use atalanta.HelloRt.NestedLock.Takes.{Takes}

module _ {b : Bus} (u : UartDevice b uart_base) (fuel : ℕ) (reg : RegApi b) (texts : ℕ → List ℕ)
    (fits : (n : ℕ) → IsText (texts n))
    (pends : (l : ℕ) → Takes u fuel l l (lift (Intip.pend reg (ip (number dma1))))) where
  abbrev low : List (M (b.State × ℕ) (Unit {0})) → M (b.State × ℕ) (Unit {0})
  low = dma0_handler reg fuel texts

  abbrev high : M (b.State × ℕ) (Unit {0})
  high = dma1_handler reg fuel texts
