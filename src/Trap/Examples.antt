-- ===== src/Trap/Examples.antt =====
-- The theorem on the set-up of the trap registers, at registers that hold what their fields have
-- room for.
use atalanta.Prelude.{ℕ, ◌+◌, ◌*◌, ◌/◌, ◌%◌, ◌^◌, refl, ◌==◌, if◌then◌else◌, arith}
use atalanta.Machine.{M}
use atalanta.Machine.Csr.{Csrs, csrw}
use atalanta.Register.{TrapMode, trap_mode_bits}
use atalanta.Register.Control.{TrapCsrLaws}
use atalanta.Trap.Setup.{MtvecLaws}

-- The bits of a value that the register `n` holds.
abbrev held : ℕ → ℕ → ℕ
held n v = if n == 0x347 then v % 2 ^ 8 else if n == 0x307 then v / 64 * 64 + v % 4 else v

abbrev file : Csrs
file = record {
  State = ℕ → ℕ;
  read = λ n s. s n;
  write = λ n v s m. if n == m then held n v else s m;
}

abbrev file_laws : TrapCsrLaws file
file_laws = record {
  mtvt_holds = λ v s fits al. omega arith;
  mintthresh_holds = λ v s fits. omega arith;
  mtvt_apart = λ v s. refl;
  mintthresh_apart = λ v s. refl;
}

abbrev write_mtvec : ℕ → TrapMode → M (ℕ → ℕ) (Unit {0})
write_mtvec addr m = csrw file 0x305 (addr + trap_mode_bits m)

abbrev mtvec_laws : MtvecLaws file write_mtvec
mtvec_laws = record {
  after_mtvec = λ addr m. file.write 0x305 (addr + trap_mode_bits m);
  mtvec_returns = λ addr m s. refl;
  mtvec_apart = λ addr m s. refl;
}
