-- ===== src/Interrupt.antt =====
-- The interrupts: examples/atalanta-bsp/src/interrupt.rs and their names in ufmt_debug.rs.
pub mod Numbers
pub mod Nested
pub mod Examples
use atalanta.Prelude.{ℕ, ◌==◌, if◌then◌else◌}
use Prim.Native.String.{String}

pub data Interrupt : Type 0 where
  machine_soft machine_timer machine_external : Interrupt
  uart gpio spi_rx_tx_irq spi_eot_irq : Interrupt
  timer0_ovf timer0_cmp timer1_ovf timer1_cmp timer2_ovf timer2_cmp timer3_ovf timer3_cmp :
      Interrupt
  nmi : Interrupt
  dma0 dma1 dma2 dma3 dma4 dma5 dma6 dma7 dma8 dma9 dma10 dma11 dma12 dma13 dma14 dma15 : Interrupt

abbrev pub max_interrupt_number : ℕ
max_interrupt_number = 255

-- `self as u16`.
unfoldable pub number : Interrupt → ℕ
number machine_soft = 3
number machine_timer = 7
number machine_external = 11
number uart = 17
number gpio = 18
number spi_rx_tx_irq = 19
number spi_eot_irq = 20
number timer0_ovf = 21
number timer0_cmp = 22
number timer1_ovf = 23
number timer1_cmp = 24
number timer2_ovf = 25
number timer2_cmp = 26
number timer3_ovf = 27
number timer3_cmp = 28
number nmi = 31
number dma0 = 32
number dma1 = 33
number dma2 = 34
number dma3 = 35
number dma4 = 36
number dma5 = 37
number dma6 = 38
number dma7 = 39
number dma8 = 40
number dma9 = 41
number dma10 = 42
number dma11 = 43
number dma12 = 44
number dma13 = 45
number dma14 = 46
number dma15 = 47

-- The result of `from_number`, a `Result<Interrupt, u16>`.
pub data Decoded : Type 0 where
  ok : Interrupt → Decoded
  err : ℕ → Decoded

unfoldable pub from_number : ℕ → Decoded
from_number value =
    if value == 3
    then ok machine_soft
    else if value == 7
    then ok machine_timer
    else if value == 11
    then ok machine_external
    else if value == 17
    then ok uart
    else if value == 32
    then ok dma0
    else if value == 33
    then ok dma1
    else if value == 34
    then ok dma2
    else if value == 35
    then ok dma3
    else if value == 36
    then ok dma4
    else if value == 37
    then ok dma5
    else if value == 38
    then ok dma6
    else if value == 39
    then ok dma7
    else if value == 40
    then ok dma8
    else if value == 41
    then ok dma9
    else if value == 42
    then ok dma10
    else if value == 43
    then ok dma11
    else if value == 44
    then ok dma12
    else if value == 45
    then ok dma13
    else if value == 46
    then ok dma14
    else if value == 47
    then ok dma15
    else err value

-- The text of the `uDebug` implementation.
unfoldable pub debug_name : Interrupt → String
debug_name machine_soft = "MachineSoft"
debug_name machine_timer = "MachineTimer"
debug_name machine_external = "MachineExternal"
debug_name uart = "Uart"
debug_name gpio = "Gpio"
debug_name spi_rx_tx_irq = "SpiRxTxIrq"
debug_name spi_eot_irq = "SpiEotIrq"
debug_name timer0_ovf = "Timer0Ovf"
debug_name timer0_cmp = "Timer0Cmp"
debug_name timer1_ovf = "Timer1Ovf"
debug_name timer1_cmp = "Timer1Cmp"
debug_name timer2_ovf = "Timer2Ovf"
debug_name timer2_cmp = "Timer2Cmp"
debug_name timer3_ovf = "Timer3Ovf"
debug_name timer3_cmp = "Timer3Cmp"
debug_name nmi = "Nmi"
debug_name dma0 = "Dma0"
debug_name dma1 = "Dma1"
debug_name dma2 = "Dma2"
debug_name dma3 = "Dma3"
debug_name dma4 = "Dma4"
debug_name dma5 = "Dma5"
debug_name dma6 = "Dma6"
debug_name dma7 = "Dma7"
debug_name dma8 = "Dma8"
debug_name dma9 = "Dma9"
debug_name dma10 = "Dma10"
debug_name dma11 = "Dma11"
debug_name dma12 = "Dma12"
debug_name dma13 = "Dma13"
debug_name dma14 = "Dma14"
debug_name dma15 = "Dma15"
