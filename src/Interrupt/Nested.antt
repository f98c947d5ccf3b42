-- ===== src/Interrupt/Nested.antt =====
-- `nested` of examples/atalanta-bsp/src/interrupt.rs, on a hart: the instructions around the
-- closure, which is a parameter. `riscv::interrupt::enable` and `disable` set and clear mstatus.MIE.
use atalanta.Prelude.{
  ℕ, ◌+◌, ◌-◌, ◌*◌, ◌^◌, ◌≤◌, ◌<◌, ◌≡◌, refl, ◌∙◌, false, true, List, [], ◌∷◌, arith,
}
use atalanta.Machine.Hart.{
  Env, Hart, Instr, addi, csrr, csrw, sw, lw, csrsi_mstatus_8, csrci_mstatus_8, mcause, mepc, exec,
  offset,
}

abbrev sp : ℕ
sp = 2

abbrev pub nested_enter : List Instr
nested_enter =
    addi sp sp (2 ^ 32 - 4 * 2)
    ∷ csrr 5 mcause
    ∷ csrr 6 mepc
    ∷ sw 5 0 sp
    ∷ sw 6 4 sp
    ∷ csrsi_mstatus_8
    ∷ []

abbrev nested_leave : List Instr
nested_leave =
    csrci_mstatus_8 ∷ lw 5 0 sp ∷ lw 6 4 sp ∷ csrw mcause 5 ∷ csrw mepc 6 ∷ addi sp sp (4 * 2) ∷ []

unfoldable pub nested : Env → (Hart → Hart) → Hart → Hart
nested env f h = exec env nested_leave (f (exec env nested_enter h))

-- The closure keeps the stack pointer, and the memory from there on; interrupts that are taken in
-- it may change the trap registers.
pub record KeepsStack (f : Hart → Hart) : Type 0 where
  pub keeps_sp : (h : Hart) → (f h).x sp ≡ h.x sp
  pub keeps_mem : (h : Hart) (m : ℕ) → h.x sp ≤ m → (f h).mem m ≡ h.mem m

-- The trap registers, the stack pointer and the memory from there on are as before, and interrupts
-- are disabled.
pub record Resumes (h t : Hart) : Type 0 where
  pub cause : t.mcause ≡ h.mcause
  pub epc : t.mepc ≡ h.mepc
  pub stack : t.x sp ≡ h.x sp
  pub memory : (m : ℕ) → h.x sp ≤ m → t.mem m ≡ h.mem m
  pub disabled : t.mie ≡ false

-- What the closure starts from.
record Opened (h g : Hart) : Type 0 where
  frame : g.x sp + 8 ≡ h.x sp
  slot0 : g.mem (g.x sp) ≡ h.mcause
  slot1 : g.mem (g.x sp + 4) ≡ h.mepc
  above : (m : ℕ) → h.x sp ≤ m → g.mem m ≡ h.mem m
  enabled : g.mie ≡ true

module _ (env : Env) (h : Hart) (room : 8 ≤ h.x sp) (word : h.x sp < 2 ^ 32) where
  frame_at : offset (h.x sp) (2 ^ 32 - 4 * 2) ≡ h.x sp - 8
  frame_at = omega arith

  opens : Opened h (exec env nested_enter h)
  unfolding exec
  opens = record {
    frame = omega arith;
    slot0 = ground arith;
    slot1 = ground arith;
    above = λ m hm. ground arith;
    enabled = refl;
  }

  closes :
      (g : Hart)
      → g.x sp + 8 ≡ h.x sp
      → g.mem (g.x sp) ≡ h.mcause
      → g.mem (g.x sp + 4) ≡ h.mepc
      → ((m : ℕ) → h.x sp ≤ m → g.mem m ≡ h.mem m)
      → Resumes h (exec env nested_leave g)
  unfolding exec
  closes g frame slot0 slot1 above =
      let at0 : offset (g.x sp) 0 ≡ g.x sp = omega arith in
      let at1 : offset (g.x sp) 4 ≡ g.x sp + 4 = omega arith in
      record {
        cause = rw at0 slot0;
        epc = rw at1 slot1;
        stack = omega arith;
        memory = above;
        disabled = refl;
      }

  -- Around a closure that keeps the stack, and with room for two words below the stack pointer,
  -- the closure starts with interrupts enabled, and afterwards the trap registers, the stack
  -- pointer and the memory from there on are as they were, with interrupts disabled.
  pub nested-Resumes :
      (f : Hart → Hart)
      → KeepsStack f
      → ((exec env nested_enter h).mie ≡ true) × Resumes h (nested env f h)
  unfolding nested
  nested-Resumes f keeps =
      let g : Hart = exec env nested_enter h in
      let o : Opened h g = opens in
      let same = keeps.keeps_sp g in
      (
        o.enabled,
        closes (f g) (omega (arith, same, o.frame))
            (rw same (keeps.keeps_mem g (g.x sp) (omega arith) ∙ o.slot0))
            (rw same (keeps.keeps_mem g (g.x sp + 4) (omega arith) ∙ o.slot1))
            (λ m hm. keeps.keeps_mem g m (omega (arith, o.frame)) ∙ o.above m hm),
      )
