-- ===== src/Clic.antt =====
-- The CLIC driver of examples/atalanta-bsp/src/clic.rs: the addresses of its registers. A register
-- handle of the source is a struct around a pointer, and is that pointer here.
pub mod Intattr
pub mod Intctl
pub mod Intie
pub mod Intip
pub mod Smclicconfig
pub mod Spec
pub mod State
pub mod Refinement
pub mod Sequence
pub mod Rows
pub mod Reads
pub mod Examples
use atalanta.Prelude.{ℕ, ◌+◌, ◌*◌}
use atalanta.Mmap.{clic_base_addr}

abbrev base : ℕ
base = clic_base_addr

abbrev smclicconfig_offset : ℕ
smclicconfig_offset = 0x0

abbrev inttrig_offset : ℕ
inttrig_offset = 0x40

abbrev inttrig_separation : ℕ
inttrig_separation = 0x4

abbrev int_offset : ℕ
int_offset = 0x1000

abbrev int_separation : ℕ
int_separation = 0x4

unfoldable pub smclicconfig : ℕ
smclicconfig = base + smclicconfig_offset

-- The handles of interrupt `number`.
unfoldable pub inttrig : ℕ → ℕ
inttrig number = base + inttrig_offset + number * inttrig_separation

unfoldable pub ip : ℕ → ℕ
ip number = base + int_offset + number * int_separation

unfoldable pub ie : ℕ → ℕ
ie number = base + int_offset + number * int_separation

unfoldable pub attr : ℕ → ℕ
attr number = base + int_offset + number * int_separation

unfoldable pub ctl : ℕ → ℕ
ctl number = base + int_offset + number * int_separation
