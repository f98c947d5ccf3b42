-- ===== src/Macros/Trampoline.antt =====
-- The trap trampolines of examples/atalanta-bsp/macros/src/trampoline.rs and archi.rs. A generator
-- returns the instructions of the assembly text that it emits; a register `x5` is the number 5.
pub mod Restores
pub mod Examples
use Prim.Native.String.{String, ◌++◌ as append}
use atalanta.Prelude.{ℕ, zero, suc, ◌+◌, ◌-◌, ◌*◌, ◌^◌, List, [], ◌∷◌, ◌++◌, length}
use atalanta.Machine.Hart.{
  Instr, addi, sw, lw, csrr, csrw, csrsi_mstatus_8, csrci_mstatus_8, mret, la, jalr, j, mcause,
  mepc,
}

abbrev pub caller_save_eabi : List ℕ
caller_save_eabi = 1 ∷ 5 ∷ 10 ∷ 11 ∷ 12 ∷ 13 ∷ 15 ∷ []

abbrev pub sp : ℕ
sp = 2

-- `.iter().enumerate()`: the registers from slot `i` on.
store_from : ℕ → List ℕ → List Instr
store_from i [] = []
store_from i (reg ∷ frame) = sw reg (i * 4) sp ∷ store_from (i + 1) frame

unfoldable pub store_trap : List ℕ → List Instr
unfolding store_from
store_trap frame = store_from 0 frame

load_from : ℕ → List ℕ → List Instr
load_from i [] = []
load_from i (reg ∷ frame) = lw reg (i * 4) sp ∷ load_from (i + 1) frame

unfoldable pub load_trap : List ℕ → List Instr
unfolding load_from
load_trap frame = load_from 0 frame

unfoldable pub generate_pcs_trap_entry : String → List Instr
generate_pcs_trap_entry interrupt =
    csrsi_mstatus_8 ∷ la 10 interrupt ∷ jalr 1 10 0 ∷ csrci_mstatus_8 ∷ mret ∷ []

abbrev caller_save_count : ℕ
caller_save_count = length caller_save_eabi

abbrev pub cause_pos : ℕ
cause_pos = caller_save_count * 4

abbrev pub epc_pos : ℕ
epc_pos = (caller_save_count + 1) * 4

-- The label of a trap's entry.
abbrev pub start_symbol : String → String
start_symbol interrupt = append "_start_" (append interrupt "_trap")

unfoldable pub generate_nested_trap_entry : String → List Instr
unfolding store_trap
generate_nested_trap_entry interrupt =
    let enter_save_count : ℕ = length caller_save_eabi + 2 in
    addi sp sp (2 ^ 32 - enter_save_count * 4)
    ∷ (store_trap caller_save_eabi
        ++ (csrr 5 mcause
            ∷ csrr 15 mepc
            ∷ sw 5 cause_pos sp
            ∷ sw 15 epc_pos sp
            ∷ csrsi_mstatus_8
            ∷ la 10 interrupt
            ∷ j "_continue_nested_trap"
            ∷ []))

unfoldable pub generate_continue_nested_trap_impl : List Instr
unfolding load_trap
generate_continue_nested_trap_impl =
    let exit_save_count : ℕ = length caller_save_eabi + 2 in
    jalr 1 10 0
    ∷ csrci_mstatus_8
    ∷ lw 15 epc_pos sp
    ∷ lw 5 cause_pos sp
    ∷ csrw mepc 15
    ∷ csrw mcause 5
    ∷ (load_trap caller_save_eabi ++ (addi sp sp (exit_save_count * 4) ∷ mret ∷ []))
