-- ===== src/Register/Reads.antt =====
-- Reading the control registers of examples/atalanta-bsp/src/register.rs. `read_csr_as` and
-- `read_csr_as_usize` of the crate riscv read a register as a value of its type.
use atalanta.Prelude.{ℕ}
use atalanta.Machine.{M, pure, ◌>>=◌}
use atalanta.Machine.Csr.{Csrs, csrr, csrw}
use atalanta.Register.{Mtvt, Mintstatus}

-- mod mnxti
pub record Mnxti : Type 0 where
  pub bits : ℕ

-- mod mintthresh
pub record Mintthresh : Type 0 where
  pub bits : ℕ

-- The `From<usize>` implementations.
abbrev pub mtvt_from : ℕ → Mtvt
mtvt_from bits = record { bits = bits }

abbrev pub mnxti_from : ℕ → Mnxti
mnxti_from bits = record { bits = bits }

abbrev pub mintstatus_from : ℕ → Mintstatus
mintstatus_from bits = record { bits = bits }

abbrev pub mintthresh_from : ℕ → Mintthresh
mintthresh_from bits = record { bits = bits }

module _ (c : Csrs) where
  unfoldable pub read_mconfigptr : M c.State ℕ
  read_mconfigptr = csrr c 0xF15

  unfoldable pub read_mtvt : M c.State Mtvt
  read_mtvt = do bits ← csrr c 0x307; pure (mtvt_from bits)

  unfoldable pub read_mnxti : M c.State Mnxti
  read_mnxti = do bits ← csrr c 0x345; pure (mnxti_from bits)

  unfoldable pub write_mnxti : Mnxti → M c.State Unit
  write_mnxti value = csrw c 0x345 value.bits

  unfoldable pub read_mintstatus : M c.State Mintstatus
  read_mintstatus = do bits ← csrr c 0x346; pure (mintstatus_from bits)

  unfoldable pub read_mintthresh : M c.State Mintthresh
  read_mintthresh = do bits ← csrr c 0x347; pure (mintthresh_from bits)

  unfoldable pub read_mclicbase : M c.State ℕ
  read_mclicbase = csrr c 0x350

  unfoldable pub read_cpuctrlsts : M c.State ℕ
  read_cpuctrlsts = csrr c 0x7C0

  unfoldable pub read_secureseed : M c.State ℕ
  read_secureseed = csrr c 0x7C1
