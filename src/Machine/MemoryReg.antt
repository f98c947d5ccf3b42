-- ===== src/Machine/MemoryReg.antt =====
-- A register interface by reads and writes of words, which meets its laws wherever the registers
-- are storage: the device of the witnesses.
use atalanta.Prelude.{
  ℕ, zero, suc, ◌+◌, ◌-◌, ◌/◌, ◌%◌, ◌^◌, ◌≤◌, ◌<◌, ◌≡◌, refl, arith, bit, bit-set_field, set_field,
  set_field-lt, ◌==◌,
}
use atalanta.Machine.{Bus, ok}
use atalanta.Machine.Bank.{Words}
use atalanta.Machine.Memory.{memory, memory_words}
use atalanta.Machine.Effect.{SetsBits, store32-Sets, Sets→SetsBits}
use atalanta.Machine.Reg.{RegApi, RegLaws, bit_put, bits_put}

-- The operations read the word, and write it back with a field replaced.
abbrev pub bus_reg : (b : Bus) → RegApi b
bus_reg b = record {
  read_bit = λ p n s. ok (bit (b.value32 p s) n == 1) (b.after_read32 p s);
  set_bit = λ p n s. ok tt (b.store32 p (set_field (b.value32 p s) n 1 1) (b.after_read32 p s));
  clear_bit = λ p n s. ok tt (b.store32 p (set_field (b.value32 p s) n 1 0) (b.after_read32 p s));
  read_bits =
      λ p start end s. ok (b.value32 p s / 2 ^ start % 2 ^ (end + 1 - start)) (b.after_read32 p s);
  write_bits = λ p start end v s.
      ok tt
        (b.store32 p (set_field (b.value32 p s) start (end + 1 - start) v) (b.after_read32 p s));
}

bit_at_zero : (v j : ℕ) → j ≡ 0 → bit v j ≡ v % 2
bit_at_zero v zero e = refl
bit_at_zero v (suc j) e = absurd (omega arith)

bit_put-set_field :
    (x n v i : ℕ) → x < 2 ^ 32 → n < 32 → v < 2 → bit (set_field x n 1 v) i ≡ bit_put n v (bit x) i
bit_put-set_field x n v i hx hn hv =
    ground (arith, bit-set_field x n 1 v i hx hn (omega arith) (omega arith), bit_at_zero v (i - n))

bits_put-set_field :
    (x start end v i : ℕ)
    → x < 2 ^ 32
    → start ≤ end
    → end < 32
    → v < 2 ^ (end + 1 - start)
    → bit (set_field x start (end + 1 - start) v) i ≡ bits_put start end v (bit x) i
bits_put-set_field x start end v i hx hs he hv =
    ground (arith, bit-set_field x start (end + 1 - start) v i hx (omega arith) (omega arith) hv)

module _ {b : Bus} {IsReg : ℕ → Type 0} (w : Words b IsReg) where
  fields_put :
      (p start k v : ℕ) (s : b.State) (new : ℕ → ℕ)
      → IsReg p
      → ((i : ℕ) → bit (set_field (w.peek p s) start k v) i ≡ new i)
      → SetsBits w p new s
          (ok tt (b.store32 p (set_field (b.value32 p s) start k v) (b.after_read32 p s)))
  fields_put p start k v s new h e =
      rw (w.value32-peek p s h, w.read32_quiet p s h)
        (Sets→SetsBits w p (set_field (w.peek p s) start k v) new s _
          (store32-Sets w p _ s h (set_field-lt (w.peek p s) start k v (w.peek-lt p s h))) e)

  pub bus_reg-RegLaws : RegLaws w (bus_reg b)
  bus_reg-RegLaws = record {
    read_bit_lem = λ p n s h hn. rw (w.value32-peek p s h, w.read32_quiet p s h) refl;
    read_bits_lem = λ p start end s h hs he. rw (w.value32-peek p s h, w.read32_quiet p s h) refl;
    set_bit_lem = λ p n s h hn.
        fields_put p n 1 1 s _ h
          (λ i. bit_put-set_field (w.peek p s) n 1 i (w.peek-lt p s h) hn (omega arith));
    clear_bit_lem = λ p n s h hn.
        fields_put p n 1 0 s _ h
          (λ i. bit_put-set_field (w.peek p s) n 0 i (w.peek-lt p s h) hn (omega arith));
    write_bits_lem = λ p start end v s h hs he hv.
        fields_put p start (end + 1 - start) v s _ h
          (λ i. bits_put-set_field (w.peek p s) start end v i (w.peek-lt p s h) hs he hv);
  }

abbrev pub memory_reg : RegApi memory
memory_reg = bus_reg memory

abbrev pub memory_reg-RegLaws :
    {IsReg : ℕ → Type 0} → RegLaws (memory_words {IsReg = IsReg}) memory_reg
memory_reg-RegLaws = bus_reg-RegLaws memory_words
