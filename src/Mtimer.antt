-- ===== src/Mtimer.antt =====
-- The machine timer of examples/atalanta-bsp/src/mtimer.rs. A `u64` is a number; `debug` says
-- whether the build has debug assertions and overflow checks.
pub mod Counters
pub mod Compare
pub mod OneShot
mod Examples
use atalanta.Prelude.{
  ℕ, ◌+◌, ◌*◌, ◌/◌, ◌^◌, Bool, true, false, not, ◌||◌, bit_or, shl32, u32, u64, u32_max, u64_max,
  leb, ltb, ◌==◌, if◌then◌else◌,
}
use atalanta.Machine.{Bus, M, pure, panics, assert, ◌>>=◌, ◌>>◌}
use atalanta.Access.{read_u32, write_u32, mask_u32, unmask_u32, read_u8_masked}
use atalanta.Mmap.{
  mtimer_base, mtime_low_addr_ofs, mtime_high_addr_ofs, mtimecmp_low_addr_ofs,
  mtimecmp_high_addr_ofs, mtime_ctrl_addr_ofs, cfg_base, periph_clk_div_ofs,
}

-- `(hi as u64) << 32 | lo as u64`.
unfoldable pub join_words : ℕ → ℕ → ℕ
join_words hi lo = bit_or (hi * 2 ^ 32) lo

module _ (b : Bus) where
  -- impl MTimer
  unfoldable pub enable_with_prescaler : Bool → ℕ → M b.State Unit
  unfolding write_u32
  enable_with_prescaler debug prescaler = do
    assert (not debug || leb prescaler 0b111)
    write_u32 b (mtimer_base + mtime_ctrl_addr_ofs) (bit_or (shl32 prescaler 8) 0b1)

  unfoldable pub enable : M b.State Unit
  unfolding mask_u32
  enable = mask_u32 b (mtimer_base + mtime_ctrl_addr_ofs) 0b1

  unfoldable pub disable : M b.State Unit
  unfolding unmask_u32
  disable = unmask_u32 b (mtimer_base + mtime_ctrl_addr_ofs) 0b1

  unfoldable pub counter : M b.State ℕ
  unfolding read_u32
  counter = do
    hi ← read_u32 b (mtimer_base + mtime_high_addr_ofs)
    lo ← read_u32 b (mtimer_base + mtime_low_addr_ofs)
    pure (join_words hi lo)

  unfoldable pub set_counter : ℕ → M b.State Unit
  unfolding write_u32
  set_counter cnt = do
    write_u32 b (mtimer_base + mtime_low_addr_ofs) (u32 cnt)
    write_u32 b (mtimer_base + mtime_high_addr_ofs) (u32 (cnt / 2 ^ 32))

  unfoldable pub reset : M b.State Unit
  unfolding write_u32
  reset = do
    write_u32 b (mtimer_base + mtime_ctrl_addr_ofs) 0
    write_u32 b (mtimer_base + mtime_low_addr_ofs) 0
    write_u32 b (mtimer_base + mtime_high_addr_ofs) 0
    write_u32 b (mtimer_base + mtimecmp_low_addr_ofs) u32_max
    write_u32 b (mtimer_base + mtimecmp_high_addr_ofs) u32_max

  unfoldable pub cmp : M b.State ℕ
  unfolding read_u32
  cmp = do
    hi ← read_u32 b (mtimer_base + mtimecmp_high_addr_ofs)
    lo ← read_u32 b (mtimer_base + mtimecmp_low_addr_ofs)
    pure (join_words hi lo)

  unfoldable pub set_cmp : ℕ → M b.State Unit
  unfolding write_u32
  set_cmp cmp = do
    write_u32 b (mtimer_base + mtimecmp_low_addr_ofs) u32_max
    write_u32 b (mtimer_base + mtimecmp_high_addr_ofs) (u32 (cmp / 2 ^ 32))
    write_u32 b (mtimer_base + mtimecmp_low_addr_ofs) (u32 cmp)

  -- impl MTimerLo; its other methods are those of `MTimer`.
  unfoldable pub counter_lo : M b.State ℕ
  unfolding read_u32
  counter_lo = read_u32 b (mtimer_base + mtime_low_addr_ofs)

  unfoldable pub set_counter_lo : ℕ → M b.State Unit
  unfolding write_u32
  set_counter_lo cnt = write_u32 b (mtimer_base + mtime_low_addr_ofs) cnt

  unfoldable pub cmp_lo : M b.State ℕ
  unfolding read_u32
  cmp_lo = read_u32 b (mtimer_base + mtimecmp_low_addr_ofs)

  unfoldable pub set_cmp_lo : ℕ → M b.State Unit
  unfolding write_u32
  set_cmp_lo cmp = do
    write_u32 b (mtimer_base + mtimecmp_low_addr_ofs) u32_max
    write_u32 b (mtimer_base + mtimecmp_high_addr_ofs) 0x0
    write_u32 b (mtimer_base + mtimecmp_low_addr_ofs) (u32 cmp)

  -- impl OneShot; `ticks` is `duration.ticks()`, a `u64`. Division by zero panics in every build,
  -- and an overflow of the sum panics in a debug build and wraps in a release build.
  unfoldable pub start : Bool → ℕ → M b.State Unit
  unfolding read_u8_masked
  start debug ticks = do
    pclk_div ← read_u8_masked b (cfg_base + periph_clk_div_ofs) 0xf
    cnt ← counter
    assert (not (pclk_div == 0))
    let at : ℕ = cnt + ticks / pclk_div
    assert (not debug || ltb at (2 ^ 64))
    set_cmp (u64 at)
    enable

  unfoldable pub cancel : M b.State Unit
  cancel = set_cmp u64_max
