-- ===== src/Access/Masks.antt =====
-- What the read-modify-write accessors of examples/atalanta-bsp/src/lib.rs do to each bit of a
-- storage register. Each accessor has a lemma on its run, by which the drivers use it.
use atalanta.Prelude.{
  ℕ, ◌+◌, ◌-◌, ◌%◌, ◌^◌, ◌≤◌, ◌<◌, min, max, ◌≡◌, bit, bit_and, bit_or, bit_xor, not32, bit-bit_or,
  bit-bit_xor, bit_and-lt, bit_or-lt, bit_xor-lt, bit-clear, set_field, set_field-lt, bit-set_field,
  ltb, leb, if◌then◌else◌, ◌&&◌,
}
use atalanta.Machine.{Bus, ok}
use atalanta.Machine.Bank.{Words}
use atalanta.Machine.Effect.{SetsBits, store32-Sets, Sets→SetsBits}
use atalanta.Access.{mask_u32, unmask_u32, toggle_u32, modify_u32}

module _ {b : Bus} {IsReg : ℕ → Type 0} (w : Words b IsReg) (a : ℕ) (s : b.State)
    (reg : IsReg a) where
  pub mask_u32_run : (m : ℕ) → mask_u32 b a m s ≡ ok tt (b.store32 a (bit_or (w.peek a s) m) s)
  unfolding mask_u32
  mask_u32_run m = rw (w.value32-peek a s reg, w.read32_quiet a s reg)

  pub unmask_u32_run :
      (m : ℕ) → unmask_u32 b a m s ≡ ok tt (b.store32 a (bit_and (w.peek a s) (not32 m)) s)
  unfolding unmask_u32
  unmask_u32_run m = rw (w.value32-peek a s reg, w.read32_quiet a s reg)

  pub toggle_u32_run : (m : ℕ) → toggle_u32 b a m s ≡ ok tt (b.store32 a (bit_xor (w.peek a s) m) s)
  unfolding toggle_u32
  toggle_u32_run m = rw (w.value32-peek a s reg, w.read32_quiet a s reg)

  pub modify_u32_run :
      (v k p : ℕ)
      → modify_u32 b a v (2 ^ k - 1) p s ≡ ok tt (b.store32 a (set_field (w.peek a s) p k v) s)
  unfolding modify_u32
  modify_u32_run v k p = rw (w.value32-peek a s reg, w.read32_quiet a s reg)

  -- `mask_u32` sets the bits of its mask and keeps every other bit and register.
  pub mask_u32-SetsBits :
      (m : ℕ)
      → m < 2 ^ 32
      → SetsBits w a (λ i. max (bit (w.peek a s) i) (bit m i)) s (mask_u32 b a m s)
  mask_u32-SetsBits m fits = rw (mask_u32_run m) (
      Sets→SetsBits w _ _ _ _ _
        (store32-Sets w a _ s reg (bit_or-lt 32 _ _ (w.peek-lt a s reg) fits))
        (bit-bit_or (w.peek a s) m))

  -- `unmask_u32` clears the bits of its mask and keeps every other bit and register.
  pub unmask_u32-SetsBits :
      (m : ℕ)
      → m < 2 ^ 32
      → SetsBits w a (λ i. min (bit (w.peek a s) i) (1 - bit m i)) s (unmask_u32 b a m s)
  unmask_u32-SetsBits m fits = rw (unmask_u32_run m) (
      Sets→SetsBits w _ _ _ _ _ (store32-Sets w a _ s reg (bit_and-lt 32 _ _ (w.peek-lt a s reg)))
        (λ i. bit-clear (w.peek a s) m i (w.peek-lt a s reg) fits))

  -- `toggle_u32` flips the bits of its mask and keeps every other bit and register.
  pub toggle_u32-SetsBits :
      (m : ℕ)
      → m < 2 ^ 32
      → SetsBits w a (λ i. (bit (w.peek a s) i + bit m i) % 2) s (toggle_u32 b a m s)
  toggle_u32-SetsBits m fits = rw (toggle_u32_run m) (
      Sets→SetsBits w _ _ _ _ _
        (store32-Sets w a _ s reg (bit_xor-lt 32 _ _ (w.peek-lt a s reg) fits))
        (bit-bit_xor (w.peek a s) m))

  -- `modify_u32` with a mask of `k` ones writes a value of `k` bits to the field of `k` bits at
  -- `p`, and keeps every other bit and register.
  pub modify_u32-SetsBits :
      (v k p : ℕ)
      → p < 32
      → p + k ≤ 32
      → v < 2 ^ k
      → SetsBits w a
          (λ i. if leb p i && ltb i (p + k) then bit v (i - p) else bit (w.peek a s) i)
          s
          (modify_u32 b a v (2 ^ k - 1) p s)
  modify_u32-SetsBits v k p hp hk hv = rw (modify_u32_run v k p) (
      Sets→SetsBits w _ _ _ _ _
        (store32-Sets w a _ s reg (set_field-lt _ p k v (w.peek-lt a s reg)))
        (λ i. bit-set_field (w.peek a s) p k v i (w.peek-lt a s reg) hp hk hv))
