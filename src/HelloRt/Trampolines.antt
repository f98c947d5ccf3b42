-- ===== src/HelloRt/Trampolines.antt =====
-- The program examples/hello_rt/examples/trampolines.rs: one interrupt for each way of entering a
-- handler. `enable_pcs` and `disable_pcs` there are those of HelloRt/NestedLock.
use atalanta.Prelude.{ℕ, ◌+◌, ◌^◌, Bool, true, not, ◌||◌, Option, List, [], ◌∷◌, u32, ltb, ◌==◌}
use atalanta.Machine.{Bus, M, pure, assert, ◌>>=◌, ◌>>◌}
use atalanta.Machine.Hart.{Instr, addi, sw, lw, csrsi_mstatus_8, csrci_mstatus_8, mret, la}
use atalanta.Machine.Reg.{RegApi}
use atalanta.Machine.Statics.{lift, statics, set_statics}
use atalanta.Mmap.{uart_base}
use atalanta.Clic.{smclicconfig, ip, ie, attr, ctl}
use atalanta.Clic.Intattr
use atalanta.Clic.Intattr.{Trig, Polarity}
use atalanta.Clic.Intctl
use atalanta.Clic.Intie
use atalanta.Clic.Intip
use atalanta.Clic.Smclicconfig
use atalanta.Console.{sprintln}
use atalanta.Delay.{cpu_freq}
use atalanta.Interrupt.{Interrupt, number, machine_timer, dma0, dma1, dma2, dma3, dma4, dma5}
use atalanta.Mtimer
use atalanta.TestBench.{forever, for_each, signal_pass}
use atalanta.Uart
use atalanta.HelloRt.Irq.{uart_baud, tear_irq}
use atalanta.HelloRt.NestedLock.{enable_pcs, disable_pcs}

-- The `static mut`s.
pub record Statics : Type 0 where
  pub cnt0 : ℕ
  pub cnt1 : ℕ
  pub cnt2 : ℕ
  pub cnt3 : ℕ
  pub cnt4 : ℕ
  pub cnt5 : ℕ

abbrev checked : {S : Type 0} → Bool → ℕ → M S ℕ
checked debug x = do assert (not debug || ltb x (2 ^ 32)); pure (u32 x)

module _ {S : Type 0} (debug : Bool) where
  unfoldable pub dma0_handler : M (S × Statics) Unit
  dma0_handler = do v ← statics; n ← checked debug (v.cnt0 + 1); set_statics (record v { cnt0 = n })

  unfoldable pub dma1_handler : M (S × Statics) Unit
  dma1_handler = do v ← statics; n ← checked debug (v.cnt1 + 1); set_statics (record v { cnt1 = n })

  unfoldable pub dma2_handler : M (S × Statics) Unit
  dma2_handler = do v ← statics; n ← checked debug (v.cnt2 + 1); set_statics (record v { cnt2 = n })

  unfoldable pub dma3_handler : M (S × Statics) Unit
  dma3_handler = do v ← statics; n ← checked debug (v.cnt3 + 1); set_statics (record v { cnt3 = n })

  unfoldable pub dma4_handler : M (S × Statics) Unit
  dma4_handler = do v ← statics; n ← checked debug (v.cnt4 + 1); set_statics (record v { cnt4 = n })

-- The entry `_start_Dma5_trap` in assembly, which counts in memory. `lla` is `la` within reach.
abbrev pub dma5_entry : List Instr
dma5_entry =
    csrsi_mstatus_8
    ∷ la 10 "CNT5"
    ∷ lw 11 0 10
    ∷ addi 11 11 1
    ∷ sw 11 0 10
    ∷ csrci_mstatus_8
    ∷ mret
    ∷ []

module _ {b : Bus} (reg : RegApi b) (fuel : ℕ) where
  unfoldable pub setup_irq : Interrupt → ℕ → M b.State Unit
  setup_irq irq level = do
    Intattr.set_trig reg (attr (number irq)) Trig.edge
    Intattr.set_polarity reg (attr (number irq)) Polarity.pos
    Intattr.set_shv reg (attr (number irq)) true
    Intctl.set_level reg (ctl (number irq)) level
    Intie.enable reg (ie (number irq))

  -- `MachineTimer`: the end of a run of the test.
  unfoldable pub machine_timer_handler :
      (b.State → b.State) → Bool → Bool → (Interrupt → List ℕ) → M (b.State × Statics) Unit
  machine_timer_handler wait rtl_tb debug tear_text = do
    v ← statics
    assert (v.cnt0 == 1)
    assert (v.cnt1 == 1)
    assert (v.cnt2 == 1)
    assert (v.cnt3 == 1)
    assert (v.cnt4 == 1)
    assert (v.cnt5 == 1)
    for_each (dma0 ∷ dma1 ∷ dma2 ∷ dma3 ∷ dma4 ∷ dma5 ∷ machine_timer ∷ [])
        (λ irq. lift (tear_irq reg fuel (tear_text irq) irq))
    for_each (dma2 ∷ dma4 ∷ dma5 ∷ []) (λ irq. lift (disable_pcs b irq))
    lift (signal_pass b wait rtl_tb debug fuel fuel true)

  -- `timeout` is in ticks. Interrupts run in `preempt`, right after one is raised, and in `wfi`.
  unfoldable pub main :
      M (b.State × Statics) Unit
      → M (b.State × Statics) Unit
      → M (b.State × Statics) Unit
      → Bool
      → Bool
      → Option ℕ
      → List ℕ
      → ℕ
      → M (b.State × Statics) ⊥
  unfolding setup_irq
  main wfi enable_interrupts preempt rtl_tb debug uart_is_init name timeout = do
    lift (Uart.init b uart_base uart_is_init (cpu_freq rtl_tb) (uart_baud rtl_tb))
    lift (sprintln b fuel name)
    lift (Smclicconfig.set_mnlbits reg smclicconfig 8)
    lift (setup_irq dma0 0x1)
    lift (setup_irq dma1 0x2)
    lift (setup_irq dma2 0x3)
    lift (setup_irq dma3 0x4)
    lift (setup_irq dma4 0x5)
    lift (setup_irq dma5 0x6)
    lift (setup_irq machine_timer 255)
    for_each (dma2 ∷ dma4 ∷ dma5 ∷ []) (λ irq. lift (enable_pcs b irq))
    enable_interrupts
    lift (Mtimer.start b debug timeout)
    for_each (dma0 ∷ dma1 ∷ dma2 ∷ dma3 ∷ dma4 ∷ dma5 ∷ [])
        (λ irq. (do lift (Intip.pend reg (ip (number irq))); preempt))
    forever fuel wfi
