-- ===== src/HelloRt/UartIrq.antt =====
-- The program examples/hello_rt/examples/uart_irq.rs, which reads bytes in the UART's interrupt
-- until there is a `q`.
use atalanta.Prelude.{
  ℕ, zero, suc, Bool, true, false, Option, List, ◌++◌, codes, ◌==◌, if◌then◌else◌,
}
use atalanta.Machine.{Bus, M, pure, spins, ◌>>=◌, ◌>>◌}
use atalanta.Machine.Reg.{RegApi}
use atalanta.Machine.Statics.{lift, statics, set_statics}
use atalanta.Mmap.{uart_base}
use atalanta.Clic.{smclicconfig}
use atalanta.Clic.Smclicconfig
use atalanta.Console.{newline, sprintln}
use atalanta.Delay.{cpu_freq}
use atalanta.Interrupt.{Interrupt}
use atalanta.TestBench.{forever}
use atalanta.Uart
use atalanta.Uart.{on_data}
use atalanta.HelloRt.Irq.{uart_baud, setup_irq, tear_irq}

-- `uart` says whether UART holds the driver.
pub record Statics : Type 0 where
  pub uart : Bool
  pub running : Bool

-- `code` is the message on the cause, and `byte` the one on a byte.
unfoldable pub uart_handler : (b : Bus) → ℕ → List ℕ → (ℕ → List ℕ) → M (b.State × Statics) Unit
uart_handler b fuel code byte = do
  lift (sprintln b fuel (codes "enter receive_byte"))
  lift (sprintln b fuel code)
  v ← statics
  elim v.uart [
    | true ↦ (do
      ch ← lift (Uart.getc b uart_base fuel)
      lift (sprintln b fuel (byte ch))
      if ch == b'q' then set_statics (record v { running = false }) else pure tt)
    | false ↦ pure tt
  ]
  lift (sprintln b fuel (codes "leave receive_byte"))

module _ {b : Bus} (reg : RegApi b) (fuel : ℕ) (setup_text tear_text : List ℕ)
    (wfi enable_interrupts disable_interrupts : M (b.State × Statics) Unit) (rtl_tb : Bool)
    (uart_is_init : Option ℕ) where
  -- `while RUNNING.load() { wfi() }`
  unfoldable pub wait_running : ℕ → M (b.State × Statics) Unit
  wait_running zero = spins
  wait_running (suc n) = do
    v ← statics
    elim v.running [ true ↦ (do wfi; wait_running n) | false ↦ pure tt ]

  unfoldable pub main : M (b.State × Statics) ⊥
  unfolding wait_running
  main = do
    lift (Uart.init b uart_base uart_is_init (cpu_freq rtl_tb) (uart_baud rtl_tb))
    lift (sprintln b fuel (newline ++ codes "[uart_irq]"))
    lift (Smclicconfig.set_mnlbits reg smclicconfig 8)
    lift (setup_irq reg fuel setup_text Interrupt.uart)
    lift (Uart.listen b uart_base on_data)
    v ← statics
    set_statics (record v { uart = true })
    enable_interrupts
    lift
        (sprintln b fuel (codes "Input a character to raise an interrupt ('q' to clean up & exit)"))
    wait_running fuel
    lift (tear_irq reg fuel tear_text Interrupt.uart)
    disable_interrupts
    forever fuel (pure tt)
