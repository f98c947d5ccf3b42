-- ===== src/Machine/Memory.antt =====
-- A bus on which every address is storage, one cell for each address: the device of the witnesses.
use atalanta.Prelude.{ℕ, ◌%◌, ◌^◌, ◌<◌, ◌≡◌, refl, arith, ◌==◌, if◌then◌else◌}
use atalanta.Machine.{Bus}
use atalanta.Machine.Bank.{Words, Bytes}

abbrev pub Cells : Type 0
Cells = ℕ → ℕ

abbrev pub write_cell : ℕ → ℕ → Cells → Cells
write_cell a v m c = if a == c then v else m c

abbrev pub memory : Bus
memory = record {
  State = Cells;
  value8 = λ a m. m a % 2 ^ 8;
  after_read8 = λ a m. m;
  store8 = write_cell;
  value32 = λ a m. m a % 2 ^ 32;
  after_read32 = λ a m. m;
  store32 = write_cell;
}

pub peek-write :
    (w a v c : ℕ) (m : Cells) → v < w → write_cell a v m c % w ≡ (if a == c then v else m c % w)
peek-write w a v c m h = ground (arith, mod_lem)
  where
    mod_lem : v % w ≡ v
    mod_lem = grind arith

abbrev pub memory_words : {IsReg : ℕ → Type 0} → Words memory IsReg
memory_words = record {
  peek = λ a m. m a % 2 ^ 32;
  peek-lt = λ a m h. omega arith;
  value32-peek = λ a m h. refl;
  read32_quiet = λ a m h. refl;
  peek-store32 = λ a v c m ha hc fits. peek-write (2 ^ 32) a v c m fits;
}

abbrev pub memory_bytes : {IsReg : ℕ → Type 0} → Bytes memory IsReg
memory_bytes = record {
  peek = λ a m. m a % 2 ^ 8;
  peek-lt = λ a m h. omega arith;
  value8-peek = λ a m h. refl;
  read8_quiet = λ a m h. refl;
  peek-store8 = λ a v c m ha hc fits. peek-write (2 ^ 8) a v c m fits;
}
