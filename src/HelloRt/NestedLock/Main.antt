-- ===== src/HelloRt/NestedLock/Main.antt =====
-- `main` of nested_interrupt_macros.rs and nested_pcs_interrupt_macros.rs of
-- examples/hello_rt/examples/. The write of mintthresh, in which interrupts may run, and the enable
-- bit are parameters; `rounds` is what the interrupts do in each round of the wait for LOCK.
use atalanta.Prelude.{ℕ, Bool, true, not, Option, List, codes, ◌==◌, if◌then◌else◌}
use atalanta.Machine.{Bus, M, pure, ◌>>=◌, ◌>>◌}
use atalanta.Machine.Reg.{RegApi}
use atalanta.Machine.Statics.{lift, statics, set_statics}
use atalanta.Mmap.{uart_base}
use atalanta.Clic.{smclicconfig, ip}
use atalanta.Clic.Intip
use atalanta.Clic.Smclicconfig
use atalanta.Console.{sprintln}
use atalanta.Delay.{cpu_freq}
use atalanta.Interrupt.{Interrupt, number, dma0, dma1}
use atalanta.TestBench.{forever, signal_pass, signal_fail}
use atalanta.Uart
use atalanta.HelloRt.Irq.{uart_baud, tear_irq}
use atalanta.HelloRt.NestedLock.{wait_while, enable_pcs, disable_pcs, setup_irq}

module _ {b : Bus} (reg : RegApi b) (fuel : ℕ) (name failure : List ℕ)
    (tear_text : Interrupt → List ℕ) (write_mintthresh : ℕ → M (b.State × ℕ) Unit)
    (enable_interrupts disable_interrupts : M (b.State × ℕ) Unit)
    (rounds : List (M (b.State × ℕ) Unit)) where
  -- Pend the interrupt of low level behind a raised threshold, and lower it.
  unfoldable pub pend_below : M (b.State × ℕ) Unit
  pend_below = do
    lift (sprintln b fuel (codes "mintthresh <- 0xff"))
    write_mintthresh 0xff
    enable_interrupts
    lift (sprintln b fuel (codes "lo::pend"))
    lift (Intip.pend reg (ip (number dma0)))
    lift (sprintln b fuel (codes "mintthresh <- 0x0"))
    write_mintthresh 0x0

  -- A round of the program with hardware stacking.
  unfoldable pub run_pcs : M (b.State × ℕ) Unit
  unfolding pend_below
  run_pcs = do
    set_statics 0
    lift (Smclicconfig.set_mnlbits reg smclicconfig 8)
    lift (setup_irq reg fuel dma0 0x1)
    lift (setup_irq reg fuel dma1 0x2)
    lift (enable_pcs b dma0)
    lift (enable_pcs b dma1)
    pend_below
    wait_while (λ lock. not (lock == 2)) rounds
    disable_interrupts
    lift (tear_irq reg fuel (tear_text dma0) dma0)
    lift (tear_irq reg fuel (tear_text dma1) dma1)
    lift (disable_pcs b dma0)
    lift (disable_pcs b dma1)

  module _ (wait : b.State → b.State) (rtl_tb debug : Bool) (uart_is_init : Option ℕ) where
    -- The last test of LOCK.
    unfoldable pub conclude : M (b.State × ℕ) Unit
    conclude = do
      lock ← statics
      if lock == 2 then lift (signal_pass b wait rtl_tb debug fuel fuel true) else (do
        lift (sprintln b fuel failure)
        lift (signal_fail b wait rtl_tb debug fuel fuel true))

    unfoldable pub main : M (b.State × ℕ) ⊥
    unfolding pend_below conclude
    main = do
      lift (Uart.init b uart_base uart_is_init (cpu_freq rtl_tb) (uart_baud rtl_tb))
      lift (sprintln b fuel name)
      lift (Smclicconfig.set_mnlbits reg smclicconfig 8)
      lift (setup_irq reg fuel dma0 0x1)
      lift (setup_irq reg fuel dma1 0x2)
      pend_below
      wait_while (λ lock. not (lock == 2)) rounds
      disable_interrupts
      lift (tear_irq reg fuel (tear_text dma0) dma0)
      lift (tear_irq reg fuel (tear_text dma1) dma1)
      conclude
      forever fuel (pure tt)

    -- `main` of the program with hardware stacking.
    unfoldable pub main_pcs : M (b.State × ℕ) ⊥
    unfolding run_pcs conclude
    main_pcs = do
      lift (Uart.init b uart_base uart_is_init (cpu_freq rtl_tb) (uart_baud rtl_tb))
      lift (sprintln b fuel name)
      lift (sprintln b fuel (codes "test will be run twice"))
      run_pcs
      run_pcs
      conclude
      forever fuel (pure tt)
