-- ===== src/Trap.antt =====
-- The vector table and the set-up of examples/atalanta-bsp/src/trap.rs.
pub mod Vectors
pub mod Setup
mod Examples
use Prim.Native.String.{String}
use atalanta.Prelude.{ℕ, zero, suc, List, [], ◌∷◌, ◌++◌}
use atalanta.Machine.{M, ◌>>=◌, ◌>>◌}
use atalanta.Machine.Csr.{Csrs}
use atalanta.Register.{TrapMode, clic, write_mtvt, write_mintthresh}

-- An entry is the jump `j _start_trap` or the address of a symbol.
pub data Vector : Type 0 where
  jump : String → Vector
  word : String → Vector

-- `.rept n`
abbrev rept : ℕ → Vector → List Vector
rept zero v = []
rept (suc n) v = v ∷ rept n v

abbrev default_handler : Vector
default_handler = word "_start_DefaultHandler_trap"

unfoldable pub vector_table : List Vector
vector_table =
    jump "_start_trap"
    ∷ word "_start_SupervisorSoft_trap"
    ∷ default_handler
    ∷ word "_start_MachineSoft_trap"
    ∷ default_handler
    ∷ word "_start_SupervisorTimer_trap"
    ∷ default_handler
    ∷ word "_start_MachineTimer_trap"
    ∷ default_handler
    ∷ word "_start_SupervisorExternal_trap"
    ∷ default_handler
    ∷ word "_start_MachineExternal_trap"
    ∷ (rept 5 default_handler
        ++ (word "_start_Uart_trap"
            ∷ word "_start_Gpio_trap"
            ∷ word "_start_SpiRxTxIrq_trap"
            ∷ word "_start_SpiEotIrq_trap"
            ∷ word "_start_Timer0Ovf_trap"
            ∷ word "_start_Timer0Cmp_trap"
            ∷ word "_start_Timer1Ovf_trap"
            ∷ word "_start_Timer1Cmp_trap"
            ∷ word "_start_Timer2Ovf_trap"
            ∷ word "_start_Timer2Cmp_trap"
            ∷ word "_start_Timer3Ovf_trap"
            ∷ word "_start_Timer3Cmp_trap"
            ∷ (rept 2 default_handler
                ++ (word "_start_Nmi_trap"
                    ∷ word "_start_Dma0_trap"
                    ∷ word "_start_Dma1_trap"
                    ∷ word "_start_Dma2_trap"
                    ∷ word "_start_Dma3_trap"
                    ∷ word "_start_Dma4_trap"
                    ∷ word "_start_Dma5_trap"
                    ∷ word "_start_Dma6_trap"
                    ∷ word "_start_Dma7_trap"
                    ∷ word "_start_Dma8_trap"
                    ∷ word "_start_Dma9_trap"
                    ∷ word "_start_Dma10_trap"
                    ∷ word "_start_Dma11_trap"
                    ∷ word "_start_Dma12_trap"
                    ∷ word "_start_Dma13_trap"
                    ∷ word "_start_Dma14_trap"
                    ∷ word "_start_Dma15_trap"
                    ∷ rept 16 default_handler))))

-- `mtvec::write` is of the crate riscv: a parameter, with the address and the mode to write.
module _ (c : Csrs) (write_mtvec : ℕ → TrapMode → M c.State Unit) where
  -- `setup_interrupt_vector`, with the address of `_vector_table`.
  unfoldable pub setup_interrupt_vector : ℕ → M c.State ℕ
  setup_interrupt_vector bits = do
    write_mtvec bits clic
    write_mtvt c bits clic
    write_mintthresh c 0x00
