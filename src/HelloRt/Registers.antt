-- ===== src/HelloRt/Registers.antt =====
-- The programs csr.rs and print_base.rs of examples/hello_rt/examples/, which print registers.
-- `print` is the message on the number of a register and its value, which the formatting library makes.
use atalanta.Prelude.{ℕ, Bool, true, false, Option, List, ◌==◌}
use atalanta.Machine.{Bus, M, Outcome, ok, panic, spin, pure, assert, ◌>>=◌, ◌>>◌}
use atalanta.Machine.Csr.{Csrs}
use atalanta.Machine.Statics.{lift}
use atalanta.Mmap.{uart_base, clic_base_addr}
use atalanta.Console.{sprintln}
use atalanta.Delay.{cpu_freq}
use atalanta.Register.Reads.{
  read_mconfigptr, read_mtvt, read_mintstatus, read_mintthresh, read_mclicbase, read_cpuctrlsts,
  read_secureseed,
}
use atalanta.TestBench.{forever, rtl_tb_signal_ok}
use atalanta.Uart
use atalanta.HelloRt.Irq.{uart_baud}

-- Instructions on the control registers, beside the devices.
abbrev beside_csr : {S C A : Type 0} → S → Outcome C A → Outcome (S × C) A
beside_csr s (ok a c) = ok a (s, c)
beside_csr s (panic c) = panic (s, c)
beside_csr s (spin c) = spin (s, c)

abbrev lift_csr : {S C A : Type 0} → M C A → M (S × C) A
lift_csr m (s, c) = beside_csr s (m c)

module _ (b : Bus) (rtl_tb : Bool) (uart_is_init : Option ℕ) (fuel : ℕ) where
  -- `mtvec::read` is of the crate riscv, and so is `wfi`.
  unfoldable pub main_csr :
      (c : Csrs)
      → M c.State ℕ
      → M (b.State × c.State) Unit
      → List ℕ
      → (ℕ → ℕ → List ℕ)
      → M (b.State × c.State) ⊥
  main_csr c read_mtvec wfi name print = do
    lift (Uart.init b uart_base uart_is_init (cpu_freq rtl_tb) (uart_baud rtl_tb))
    lift (sprintln b fuel name)
    configptr ← lift_csr (read_mconfigptr c)
    lift (sprintln b fuel (print 0 configptr))
    mtvec ← lift_csr read_mtvec
    lift (sprintln b fuel (print 1 mtvec))
    mtvt ← lift_csr (read_mtvt c)
    lift (sprintln b fuel (print 2 mtvt.bits))
    mintstatus ← lift_csr (read_mintstatus c)
    lift (sprintln b fuel (print 3 mintstatus.bits))
    mintthresh ← lift_csr (read_mintthresh c)
    lift (sprintln b fuel (print 4 mintthresh.bits))
    printed ← lift_csr (read_mclicbase c)
    lift (sprintln b fuel (print 5 printed))
    mclicbase ← lift_csr (read_mclicbase c)
    assert (mclicbase == clic_base_addr)
    cpuctrlsts ← lift_csr (read_cpuctrlsts c)
    lift (sprintln b fuel (print 6 cpuctrlsts))
    secureseed ← lift_csr (read_secureseed c)
    lift (sprintln b fuel (print 7 secureseed))
    lift (elim rtl_tb [ true ↦ rtl_tb_signal_ok b | false ↦ pure tt ])
    forever fuel wfi

  -- `main` of print_base.rs.
  unfoldable pub main_base : (ℕ → List ℕ) → M b.State ⊥
  main_base print = do
    Uart.init b uart_base uart_is_init (cpu_freq rtl_tb) (uart_baud rtl_tb)
    let clic_base : ℕ = clic_base_addr
    sprintln b fuel (print clic_base)
    forever fuel (pure tt)
