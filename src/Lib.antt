-- ===== src/Lib.antt =====
-- Atalanta: the board support package of the Atalanta real-time microcontroller.
--
-- The package drives memory-mapped devices of a 32-bit RISC-V microcontroller. Volatile accessors
-- (examples/atalanta-bsp/src/lib.rs) are below the drivers of the interrupt controller, the timers,
-- the UART, the pins and the leds; the trap code takes an interrupt from the vector table through a
-- trampoline to its handler. The files are these:
--
--   Prelude      numbers, words, bits and fields, tests and lists.
--   Machine      what the code runs on: `M` returns, panics or spins; `Bus` is the devices behind
--                volatile reads and writes, a parameter of every driver. Machine/Bank says when
--                registers are plain storage, Machine/Reg what the crate riscv-peripheral
--                promises, Machine/Csr what control registers do, Machine/Hart what the
--                instructions of the trampolines do. Machine/Memory and Machine/MemoryReg meet
--                those laws, for the witnesses.
--   Access       read_u8 to unmask_u8 of examples/atalanta-bsp/src/lib.rs.
--   Mmap         the constants of examples/atalanta-bsp/src/mmap/ that the drivers use.
--   Clic         Clic, INTIP, INTIE, INTATTR, INTCTL and SMCLICCONFIG of
--                examples/atalanta-bsp/src/clic.rs and clic/; a register handle is its address.
--                Clic/Spec is the configuration of an interrupt as the bits of its register mean
--                it, and what each operation is to do to it.
--   HelloRt      the older CLIC driver, examples/hello_rt/src/clic.rs, against the same
--                configuration, and setup_irq and tear_irq of lib.rs there. Clic/Sequence and
--                Clic/Rows are the table of all configurations, and runs of several operations.
--                The other modules are the programs of examples/hello_rt/examples/: AllIrqs is
--                clic_all_irqs.rs, UartEcho uart_echo.rs, NestedLock the two programs
--                nested_interrupt_macros.rs and nested_pcs_interrupt_macros.rs, ClicNested
--                clic_nested.rs with the same lock, ClicPend clic_pend.rs and
--                mcause_should_be_interrupt.rs, Monotonic mtimer_is_monotonic.rs, MtimerRtc
--                mtimer_as_rtc.rs, Registers csr.rs and print_base.rs, Demos the other programs
--                without interrupts, and the rest are named like their files.
--   Gpio, Led    examples/atalanta-bsp/src/gpio.rs and led.rs.
--   Register     bit fields and control registers, examples/atalanta-bsp/src/register.rs.
--   Interrupt    examples/atalanta-bsp/src/interrupt.rs with `nested` on a hart, and the names of
--                ufmt_debug.rs.
--   Macros       the trap entries that examples/atalanta-bsp/macros/src/trampoline.rs generates,
--                as lists of instructions, with the frame of archi.rs, and the attribute
--                nested_interrupt with the checks of validate.rs.
--   Trap         the vector table and its setup, examples/atalanta-bsp/src/trap.rs.
--   Mtimer       MTimer, MTimerLo and OneShot of examples/atalanta-bsp/src/mtimer.rs.
--   TimerGroup   Timer and Periodic of examples/atalanta-bsp/src/timer_group.rs.
--   Uart         ApbUartHal of examples/atalanta-bsp/src/uart.rs. Uart/Device says what the driver
--                relies on of the device; Uart/Port is a device for the witnesses.
--   Console      printing: examples/atalanta-bsp/src/core_sprint.rs and ufmt_sprint.rs, with the
--                formatted text as a parameter.
--   Delay        clock rates and asm_delay of examples/atalanta-bsp/src/lib.rs.
--   TestBench    examples/atalanta-bsp/src/tb.rs, and the panic handler of lib.rs.
--   Build        the build script, examples/atalanta-bsp/build.rs: parse_extensions, and in Build/Main
--                the lines that it prints for cargo.
--   PeriodicTasks  the program examples/periodic_tasks/src/main.rs. Its handlers run beside its
--                static variables, the record Statics. PeriodicTasks/Counts is about the counts,
--                PeriodicTasks/Run about a test from the wait for its timeout to its check, and
--                PeriodicTasks/Inline has its handlers in assembly.
--   RustMinimal  examples/rust_minimal: the crate, which has accessors of its own, and its programs;
--                RustMinimal/Uart is uart.rs, and RustMinimal/Programs has the others.
--
-- A program's static variables stand beside the devices (Machine/Statics), where its interrupt handlers
-- and its main function share them. When interrupts run is a parameter of the main function.
--
-- Each operation is a function of the source's name in lower case, over a bus, with its reads and
-- writes in the source's order. A state is the devices' state; the drivers keep none of their own.
--
-- Bounds and fuel. A `usize` and a `u32` have 32 bits. A value read or written has the width that a
-- hypothesis or a device law states. The polling loops of the UART take fuel, one unit for each poll;
-- fuel above the number of polls that the transmitter can stay busy is enough, and the theorems on
-- `write` and on the greeting of RustMinimal/Uart have that as their hypotheses. `start` of the
-- machine timer takes whether the build is a debug build, in which an overflowing sum panics. A wait
-- for a static takes the list of what the interrupts do before each read of it, and spins at its end.
--
-- Undefined behaviour is a panic, where a program can have it: `unwrap_unchecked`, and
-- `from_utf8_unchecked` on bytes that are not UTF-8.
--
-- An endless loop takes the number of its rounds that are run, and spins behind them, so a theorem on
-- every number of rounds is one on the endless run.
--
-- Not modelled: text formatting and the parsing of Rust, which are of other libraries; the file I/O of
-- the build script; the reset code of examples/rust_minimal; and the linker scripts. The hardware
-- description and the C and assembly tests are other programs.
pub mod Prelude
pub mod Machine
pub mod Access
pub mod Mmap
pub mod Clic
pub mod HelloRt
pub mod Gpio
pub mod Led
pub mod Register
pub mod Interrupt
pub mod Macros
pub mod Trap
pub mod Mtimer
pub mod TimerGroup
pub mod Uart
pub mod PeriodicTasks
pub mod Console
pub mod Delay
pub mod TestBench
pub mod Build
pub mod RustMinimal
