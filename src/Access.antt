-- ===== src/Access.antt =====
-- The register accessors of examples/atalanta-bsp/src/lib.rs.
pub mod Masks
use atalanta.Prelude.{ℕ, bit_and, bit_or, bit_xor, not8, not32, shl32}
use atalanta.Machine.{Bus, M, pure, ◌>>=◌, load8, load32, save8, save32}

module _ (b : Bus) where
  unfoldable pub read_u8 : ℕ → M b.State ℕ
  read_u8 addr = load8 b addr

  unfoldable pub read_u8_masked : ℕ → ℕ → M b.State ℕ
  read_u8_masked addr mask = do r ← load8 b addr; pure (bit_and r mask)

  unfoldable pub write_u8 : ℕ → ℕ → M b.State Unit
  write_u8 addr val = save8 b addr val

  unfoldable pub read_u32 : ℕ → M b.State ℕ
  read_u32 addr = load32 b addr

  unfoldable pub read_u32p : ℕ → M b.State ℕ
  read_u32p ptr = load32 b ptr

  unfoldable pub write_u32p : ℕ → ℕ → M b.State Unit
  write_u32p ptr val = save32 b ptr val

  unfoldable pub write_u32 : ℕ → ℕ → M b.State Unit
  unfolding write_u32p
  write_u32 addr val = write_u32p addr val

  unfoldable pub modify_u32 : ℕ → ℕ → ℕ → ℕ → M b.State Unit
  unfolding read_u32 write_u32
  modify_u32 addr val mask bit_pos = do
    tmp ← read_u32 addr
    let tmp' = bit_and tmp (not32 (shl32 mask bit_pos))
    write_u32 addr (bit_or tmp' (shl32 val bit_pos))

  unfoldable pub mask_u32p : ℕ → ℕ → M b.State Unit
  mask_u32p ptr mask = do r ← load32 b ptr; save32 b ptr (bit_or r mask)

  unfoldable pub mask_u32 : ℕ → ℕ → M b.State Unit
  unfolding mask_u32p
  mask_u32 addr mask = mask_u32p addr mask

  unfoldable pub unmask_u32p : ℕ → ℕ → M b.State Unit
  unmask_u32p ptr unmask = do r ← load32 b ptr; save32 b ptr (bit_and r (not32 unmask))

  unfoldable pub unmask_u32 : ℕ → ℕ → M b.State Unit
  unfolding unmask_u32p
  unmask_u32 addr unmask = unmask_u32p addr unmask

  unfoldable pub toggle_u32 : ℕ → ℕ → M b.State Unit
  unfolding read_u32 write_u32
  toggle_u32 addr toggle_bits = do r ← read_u32 addr; write_u32 addr (bit_xor r toggle_bits)

  unfoldable pub mask_u8 : ℕ → ℕ → M b.State Unit
  mask_u8 addr mask = do r ← load8 b addr; save8 b addr (bit_or r mask)

  unfoldable pub unmask_u8 : ℕ → ℕ → M b.State Unit
  unmask_u8 addr unmask = do r ← load8 b addr; save8 b addr (bit_and r (not8 unmask))
