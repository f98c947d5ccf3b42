-- ===== src/HelloRt/Clic.antt =====
-- The older CLIC driver of examples/hello_rt/src/clic.rs, over `modify_u32`.
pub mod Refinement
pub mod Examples
use atalanta.Prelude.{ℕ, ◌+◌, ◌-◌}
use atalanta.Machine.{Bus, M}
use atalanta.Access.{modify_u32, write_u32}
use atalanta.Mmap.{
  clic_base_addr, clic_intreg_offset, clic_clicintie_ip_bit, clic_clicintie_ip_mask,
  clic_clicintie_ie_bit, clic_clicintie_ie_mask, clic_clicintattr_shv_mask,
  clic_clicintattr_shv_bit, clic_clicintattr_trig_mask, clic_clicintattr_trig_offset,
}

abbrev clic_nbits : ℕ
clic_nbits = 8

abbrev clic_clicintctl_ctl_mask : ℕ
clic_clicintctl_ctl_mask = 0xff

abbrev clic_clicintctl_ctl_offset : ℕ
clic_clicintctl_ctl_offset = 24 + (8 - clic_nbits)

pub data ClicTrig : Type 0 where
  level edge : ClicTrig

-- `trig as u32`.
abbrev pub trig_bits : ClicTrig → ℕ
trig_bits level = 0
trig_bits edge = 1

module _ (b : Bus) where
  unfoldable pub set_mnlbits : ℕ → M b.State Unit
  set_mnlbits mnlbits = write_u32 b clic_base_addr mnlbits

  unfoldable pub set_trig : ℕ → ClicTrig → M b.State Unit
  set_trig id trig =
      modify_u32 b (clic_base_addr + clic_intreg_offset id) (trig_bits trig)
        clic_clicintattr_trig_mask clic_clicintattr_trig_offset

  unfoldable pub enable_int : ℕ → M b.State Unit
  enable_int id =
      modify_u32 b (clic_base_addr + clic_intreg_offset id) 0x1 clic_clicintie_ie_mask
        clic_clicintie_ie_bit

  unfoldable pub disable_int : ℕ → M b.State Unit
  disable_int id =
      modify_u32 b (clic_base_addr + clic_intreg_offset id) 0x0 clic_clicintie_ie_mask
        clic_clicintie_ie_bit

  unfoldable pub pend_int : ℕ → M b.State Unit
  pend_int id =
      modify_u32 b (clic_base_addr + clic_intreg_offset id) 0x1 clic_clicintie_ip_mask
        clic_clicintie_ip_bit

  unfoldable pub set_level : ℕ → ℕ → M b.State Unit
  set_level id l =
      modify_u32 b (clic_base_addr + clic_intreg_offset id) l clic_clicintctl_ctl_mask
        clic_clicintctl_ctl_offset

  unfoldable pub ack_int : ℕ → M b.State Unit
  ack_int id =
      modify_u32 b (clic_base_addr + clic_intreg_offset id) 0x0 clic_clicintie_ip_mask
        clic_clicintie_ip_bit

  unfoldable pub enable_vectoring : ℕ → M b.State Unit
  enable_vectoring id =
      modify_u32 b (clic_base_addr + clic_intreg_offset id) 0x1 clic_clicintattr_shv_mask
        clic_clicintattr_shv_bit

  unfoldable pub disable_vectoring : ℕ → M b.State Unit
  disable_vectoring id =
      modify_u32 b (clic_base_addr + clic_intreg_offset id) 0x0 clic_clicintattr_shv_mask
        clic_clicintattr_shv_bit
