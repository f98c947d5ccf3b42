-- ===== src/HelloRt.antt =====
-- The library of examples/hello_rt/src/ and the programs of examples/hello_rt/examples/.
pub mod Clic
pub mod Irq
pub mod AllIrqs
pub mod UartEcho
pub mod NestedLock
pub mod TimerGroupIrq
pub mod Monotonic
pub mod ClicPend
pub mod UartIrq
pub mod MtimerRtc
pub mod Trampolines
pub mod ClicMtimer
pub mod Demos
pub mod Registers
pub mod ClicNested
