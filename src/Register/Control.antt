-- ===== src/Register/Control.antt =====
-- The control registers of examples/atalanta-bsp/src/register.rs.
use atalanta.Prelude.{ℕ, ◌+◌, ◌/◌, ◌%◌, ◌^◌, ◌<◌, ◌≡◌, refl, some, ◌∙◌, arith, bit_and, u32}
use atalanta.Machine.{ok}
use atalanta.Machine.Csr.{Csrs}
use atalanta.Register.{
  TrapMode, direct, vectored, clic, trap_mode_bits, address, trap_mode, write_mtvt,
}
use atalanta.Register.Fields.{low_bits}

-- What the code relies on of mtvt and mintthresh. mtvt holds a base that is 64-byte aligned, as the
-- comment on the vector table of trap.rs requires, beside the mode in its two lowest bits; mintthresh
-- holds eight bits. Neither write changes the other register.
pub record TrapCsrLaws (c : Csrs) : Type 0 where
  pub mtvt_holds :
      (v : ℕ) (s : c.State) → v < 2 ^ 32 → v / 4 % 16 ≡ 0 → c.read 0x307 (c.write 0x307 v s) ≡ v
  pub mintthresh_holds : (v : ℕ) (s : c.State) → v < 2 ^ 8 → c.read 0x347 (c.write 0x347 v s) ≡ v
  pub mtvt_apart : (v : ℕ) (s : c.State) → c.read 0x347 (c.write 0x307 v s) ≡ c.read 0x347 s
  pub mintthresh_apart : (v : ℕ) (s : c.State) → c.read 0x307 (c.write 0x347 v s) ≡ c.read 0x307 s

low_two : (x : ℕ) → x < 2 ^ 32 → bit_and x 0b11 ≡ x % 4
low_two x h = low_bits 2 x h

mode-lt : (m : TrapMode) → trap_mode_bits m < 4
mode-lt direct = omega arith
mode-lt vectored = omega arith
mode-lt clic = omega arith

-- The fields of a register that was written as an aligned address and a mode.
fields_back :
    (m : TrapMode) (a x : ℕ)
    → a % 4 ≡ 0
    → a < 2 ^ 32
    → x ≡ u32 (a + trap_mode_bits m)
    → (address (record { bits = x }) ≡ a) × (trap_mode (record { bits = x }) ≡ some m)
unfolding address trap_mode
fields_back direct a x al h e =
    let low : bit_and x 0b11 ≡ 0 = low_two x (omega arith) ∙ omega arith in (omega arith, rw low)
fields_back vectored a x al h e =
    let low : bit_and x 0b11 ≡ 1 = low_two x (omega arith) ∙ omega arith in (omega arith, rw low)
fields_back clic a x al h e =
    let low : bit_and x 0b11 ≡ 3 = low_two x (omega arith) ∙ omega arith in (omega arith, rw low)

-- mtvt reads as an address and a mode.
pub record Points (c : Csrs) (addr : ℕ) (m : TrapMode) (s : c.State) : Type 0 where
  pub table : address (record { bits = c.read 0x307 s }) ≡ addr
  pub mode : trap_mode (record { bits = c.read 0x307 s }) ≡ some m

-- A run of `mtvt::write` returns; mtvt reads back the address and the mode, and mintthresh is as
-- before.
pub record WritesMtvt (c : Csrs) (addr : ℕ) (m : TrapMode) (s : c.State) : Type 0 where
  pub after : c.State
  pub returns : write_mtvt c addr m s ≡ ok tt after
  pub points : Points c addr m after
  pub threshold : c.read 0x347 after ≡ c.read 0x347 s

pub write_mtvt_lem :
    {c : Csrs} (laws : TrapCsrLaws c) (addr : ℕ) (m : TrapMode) (s : c.State)
    → addr % 64 ≡ 0
    → addr < 2 ^ 32
    → WritesMtvt c addr m s
unfolding write_mtvt
write_mtvt_lem {c = c} laws addr m s al h =
    let bits : ℕ = u32 (addr + trap_mode_bits m) in
    let low : trap_mode_bits m < 4 = mode-lt m in
    let back =
      fields_back m addr (c.read 0x307 (c.write 0x307 bits s)) (omega arith) h
        (laws.mtvt_holds bits s (omega arith) (omega arith)) in
    record {
      after = c.write 0x307 bits s;
      returns = refl;
      points = record { table = back.0; mode = back.1 };
      threshold = laws.mtvt_apart bits s;
    }
