-- ===== src/TimerGroup.antt =====
-- The APB timers of examples/atalanta-bsp/src/timer_group.rs. `ptr` is the address of a timer's
-- register block, and `debug` says whether the build has debug assertions.
pub mod Period
mod Examples
use atalanta.Prelude.{
  ℕ, ◌+◌, ◌/◌, Bool, not, ◌||◌, bit_or, shl32, u32_max, leb, ◌==◌, if◌then◌else◌,
}
use atalanta.Machine.{Bus, M, pure, assert, ◌>>=◌, ◌>>◌}
use atalanta.Access.{read_u32p, write_u32p, mask_u32p, unmask_u32p, read_u8_masked}
use atalanta.Mmap.{
  timer_cnt, timer_ctrl, timer_cmp, timer_ctrl_enable_bit, timer_ctrl_prescaler_bit_idx, cfg_base,
  periph_clk_div_ofs,
}

module _ (b : Bus) where
  -- impl Timer
  unfoldable pub init : ℕ → M b.State ℕ
  unfolding write_u32p
  init base_addr = do
    write_u32p b (timer_ctrl base_addr) 0
    write_u32p b (timer_cmp base_addr) u32_max
    pure base_addr

  unfoldable pub enable : ℕ → M b.State Unit
  unfolding mask_u32p
  enable ptr = mask_u32p b (timer_ctrl ptr) timer_ctrl_enable_bit

  unfoldable pub enable_with_prescaler : Bool → ℕ → ℕ → M b.State Unit
  unfolding write_u32p
  enable_with_prescaler debug ptr prescaler = do
    assert (not debug || leb prescaler 0b111)
    write_u32p b (timer_ctrl ptr)
        (bit_or (shl32 prescaler timer_ctrl_prescaler_bit_idx) timer_ctrl_enable_bit)

  unfoldable pub disable : ℕ → M b.State Unit
  unfolding unmask_u32p
  disable ptr = unmask_u32p b (timer_ctrl ptr) timer_ctrl_enable_bit

  unfoldable pub counter : ℕ → M b.State ℕ
  unfolding read_u32p
  counter ptr = read_u32p b (timer_cnt ptr)

  -- The block under `cfg(debug_assertions)`.
  unfoldable pub check_counter : Bool → ℕ → ℕ → M b.State Unit
  unfolding read_u32p
  check_counter debug ptr cnt =
      if debug then (do cmp ← read_u32p b (timer_cmp ptr); assert (leb cnt cmp)) else pure tt

  unfoldable pub set_counter : Bool → ℕ → ℕ → M b.State Unit
  unfolding check_counter write_u32p
  set_counter debug ptr cnt = do check_counter debug ptr cnt; write_u32p b (timer_cnt ptr) cnt

  unfoldable pub set_cmp : ℕ → ℕ → M b.State Unit
  unfolding write_u32p
  set_cmp ptr cmp = write_u32p b (timer_cmp ptr) cmp

  -- impl Periodic; a duration is its number of ticks. Division by zero panics.
  unfoldable pub set_period : ℕ → ℕ → M b.State Unit
  unfolding read_u8_masked
  set_period ptr duration = do
    pclk_div ← read_u8_masked b (cfg_base + periph_clk_div_ofs) 0xf
    assert (not (pclk_div == 0))
    set_cmp ptr (duration / pclk_div)

  unfoldable pub set_period_offset : Bool → ℕ → ℕ → ℕ → M b.State Unit
  unfolding read_u8_masked
  set_period_offset debug ptr period offset = do
    pclk_div ← read_u8_masked b (cfg_base + periph_clk_div_ofs) 0xf
    assert (not (pclk_div == 0))
    set_cmp ptr (period / pclk_div)
    set_counter debug ptr (offset / pclk_div)

  unfoldable pub start : ℕ → M b.State Unit
  start ptr = enable ptr

  unfoldable pub cancel : ℕ → M b.State Unit
  cancel ptr = do disable ptr; set_cmp ptr u32_max
