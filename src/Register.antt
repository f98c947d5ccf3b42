-- ===== src/Register.antt =====
-- Bit fields and CSRs: examples/atalanta-bsp/src/register.rs.
pub mod Fields
pub mod Control
pub mod Reads
pub mod Examples
use atalanta.Prelude.{
  ℕ, ◌+◌, ◌-◌, Option, some, none, bit_and, bit_or, not32, shl32, shr32, u32, ◌==◌, if◌then◌else◌,
}
use atalanta.Machine.{M, ◌>>=◌}
use atalanta.Machine.Csr.{Csrs, csrw, csrrw}

unfoldable pub bf_insert : ℕ → ℕ → ℕ → ℕ → ℕ
bf_insert orig bit width value =
    let mask : ℕ = shl32 1 width - 1 in
    bit_or (bit_and orig (not32 (shl32 mask bit))) (shl32 (bit_and value mask) bit)

unfoldable pub bf_extract : ℕ → ℕ → ℕ → ℕ
bf_extract orig bit width = let mask : ℕ = shl32 1 width - 1 in bit_and (shr32 orig bit) mask

-- mod mtvt
pub data TrapMode : Type 0 where
  direct vectored clic : TrapMode

-- `mode as usize`.
abbrev pub trap_mode_bits : TrapMode → ℕ
trap_mode_bits direct = 0
trap_mode_bits vectored = 1
trap_mode_bits clic = 0b11

pub record Mtvt : Type 0 where
  pub bits : ℕ

unfoldable pub address : Mtvt → ℕ
address r = r.bits - bit_and r.bits 0b11

unfoldable pub trap_mode : Mtvt → Option TrapMode
trap_mode r =
    let mode : ℕ = bit_and r.bits 0b11 in
    if mode == 0
    then some direct
    else if mode == 1
    then some vectored
    else if mode == 0b11
    then some clic
    else none

-- mod mintstatus
pub record Mintstatus : Type 0 where
  pub bits : ℕ

unfoldable pub mil : Mintstatus → ℕ
unfolding bf_extract
mil r = bf_extract r.bits 31 24

module _ (c : Csrs) where
  -- mtvt::write, in a build where the sum wraps.
  unfoldable pub write_mtvt : ℕ → TrapMode → M c.State Unit
  write_mtvt addr mode = let bits : ℕ = u32 (addr + trap_mode_bits mode) in csrw c 0x307 bits

  -- mintthresh::write
  unfoldable pub write_mintthresh : ℕ → M c.State ℕ
  write_mintthresh value = csrrw c 0x347 value
