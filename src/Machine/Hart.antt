-- ===== src/Machine/Hart.antt =====
-- A RISC-V hart, as far as the trap trampolines use it: the instructions that they are made of, by
-- the ISA manual, and the handler that they call, a parameter.
use Prim.Native.String.{String}
use atalanta.Prelude.{ℕ, ◌+◌, ◌%◌, ◌^◌, Bool, true, false, List, [], ◌∷◌, ◌==◌, if◌then◌else◌}

-- Where execution goes on after a block of instructions.
pub data Next : Type 0 where
  fall_through : Next
  at_symbol : String → Next
  at_address : ℕ → Next

-- `x` are the integer registers and `mem` is memory, a word for each address. `mie` and `mpie` are
-- the interrupt enable bits of `mstatus`.
pub record Hart : Type 0 where
  pub x : ℕ → ℕ
  pub mem : ℕ → ℕ
  pub mcause : ℕ
  pub mepc : ℕ
  pub mie : Bool
  pub mpie : Bool
  pub next : Next

pub data Csr : Type 0 where
  mcause mepc : Csr

-- `sw` and `lw` have the register, the offset and the base. An immediate of `addi` is its
-- two's complement in 32 bits. `csrsi` and `csrci` set and clear `mstatus.MIE`, bit 3.
pub data Instr : Type 0 where
  addi : ℕ → ℕ → ℕ → Instr
  sw lw : ℕ → ℕ → ℕ → Instr
  csrr : ℕ → Csr → Instr
  csrw : Csr → ℕ → Instr
  csrsi_mstatus_8 csrci_mstatus_8 mret : Instr
  la : ℕ → String → Instr
  jalr : ℕ → ℕ → ℕ → Instr
  j : String → Instr
  nop : Instr

-- The rest of the program: the addresses of symbols, the address after a call, and what a call of
-- the code at an address does up to its return.
pub record Env : Type 0 where
  pub symbol : String → ℕ
  pub link : ℕ
  pub call : ℕ → Hart → Hart

abbrev pub put : ℕ → ℕ → (ℕ → ℕ) → ℕ → ℕ
put k v f i = if i == k then v else f i

abbrev pub offset : ℕ → ℕ → ℕ
offset base ofs = (base + ofs) % 2 ^ 32

abbrev pub read_csr : Csr → Hart → ℕ
read_csr mcause h = h.mcause
read_csr mepc h = h.mepc

abbrev pub write_csr : Csr → ℕ → Hart → Hart
write_csr mcause v h = record h { mcause = v }
write_csr mepc v h = record h { mepc = v }

unfoldable pub step : Env → Instr → Hart → Hart
step env (addi rd rs imm) h = record h { x = put rd (offset (h.x rs) imm) h.x }
step env (sw rs ofs base) h = record h { mem = put (offset (h.x base) ofs) (h.x rs) h.mem }
step env (lw rd ofs base) h = record h { x = put rd (h.mem (offset (h.x base) ofs)) h.x }
step env (csrr rd c) h = record h { x = put rd (read_csr c h) h.x }
step env (csrw c rs) h = write_csr c (h.x rs) h
step env csrsi_mstatus_8 h = record h { mie = true }
step env csrci_mstatus_8 h = record h { mie = false }
step env mret h = record h { mie = h.mpie; mpie = true; next = at_address h.mepc }
step env (la rd s) h = record h { x = put rd (env.symbol s) h.x }
step env (jalr rd rs ofs) h = env.call (offset (h.x rs) ofs) (record h { x = put rd env.link h.x })
step env (j s) h = record h { next = at_symbol s }
step env nop h = h

unfoldable pub exec : Env → List Instr → Hart → Hart
unfolding step
exec env [] h = h
exec env (i ∷ is) h = exec env is (step env i h)
