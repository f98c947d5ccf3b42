-- ===== src/Machine/Reg.antt =====
-- `Reg<u32, RW>` of the crate riscv-peripheral, which the CLIC driver is written over: a parameter
-- of the driver. The laws are what the crate's documentation says of each operation.
use atalanta.Prelude.{
  ℕ, ◌+◌, ◌-◌, ◌/◌, ◌%◌, ◌^◌, ◌≤◌, ◌<◌, Bool, ◌≡◌, bit, ◌==◌, leb, ◌&&◌, if◌then◌else◌,
}
use atalanta.Machine.{Bus, M, ok}
use atalanta.Machine.Bank.{Words}
use atalanta.Machine.Effect.{SetsBits}

-- The first argument of each operation is the register's address.
pub record RegApi (b : Bus) : Type 0 where
  pub read_bit : ℕ → ℕ → M b.State Bool
  pub set_bit : ℕ → ℕ → M b.State Unit
  pub clear_bit : ℕ → ℕ → M b.State Unit
  pub read_bits : ℕ → ℕ → ℕ → M b.State ℕ
  pub write_bits : ℕ → ℕ → ℕ → ℕ → M b.State Unit

-- The new bits of a register whose bits are `f`.
abbrev pub bit_put : ℕ → ℕ → (ℕ → ℕ) → ℕ → ℕ
bit_put n v f i = if i == n then v else f i

abbrev pub bits_put : ℕ → ℕ → ℕ → (ℕ → ℕ) → ℕ → ℕ
bits_put start end v f i = if leb start i && leb i end then bit v (i - start) else f i

-- "Reads the nth bit", "sets the nth bit", "clears the nth bit", and "reads" or "writes a range of
-- bits specified by the start and end indices, both inclusive".
pub record RegLaws {b : Bus} {IsReg : ℕ → Type 0} (w : Words b IsReg) (api : RegApi b)
    : Type 0 where
  pub read_bit_lem :
      (p n : ℕ) (s : b.State)
      → IsReg p
      → n < 32
      → api.read_bit p n s ≡ ok (bit (w.peek p s) n == 1) s
  pub read_bits_lem :
      (p start end : ℕ) (s : b.State)
      → IsReg p
      → start ≤ end
      → end < 32
      → api.read_bits p start end s ≡ ok (w.peek p s / 2 ^ start % 2 ^ (end + 1 - start)) s
  pub set_bit_lem :
      (p n : ℕ) (s : b.State)
      → IsReg p
      → n < 32
      → SetsBits w p (bit_put n 1 (bit (w.peek p s))) s (api.set_bit p n s)
  pub clear_bit_lem :
      (p n : ℕ) (s : b.State)
      → IsReg p
      → n < 32
      → SetsBits w p (bit_put n 0 (bit (w.peek p s))) s (api.clear_bit p n s)
  pub write_bits_lem :
      (p start end v : ℕ) (s : b.State)
      → IsReg p
      → start ≤ end
      → end < 32
      → v < 2 ^ (end + 1 - start)
      → SetsBits w p (bits_put start end v (bit (w.peek p s))) s (api.write_bits p start end v s)
