-- ===== src/Register/Examples.antt =====
-- The theorems on bit fields at concrete values.
use atalanta.Prelude.{◌%◌, ◌^◌, ◌/◌, ◌<◌, ◌≡◌, ◌≢◌, inr, arith}
use atalanta.Register.{bf_insert, bf_extract, Mintstatus, mil}
use atalanta.Register.Fields.{bf_extract-bf_insert, mil-top_bit}

bf_extract-bf_insert_example :
    (bf_extract (bf_insert 0xffff_ffff 8 4 0x25) 8 4 ≡ 0x25 % 2 ^ 4)
    × (bf_extract (bf_insert 0xffff_ffff 8 4 0x25) 12 8 ≡ bf_extract 0xffff_ffff 12 8)
    × (bf_insert 0xffff_ffff 8 4 0x25 < 2 ^ 32)
bf_extract-bf_insert_example =
    bf_extract-bf_insert 0xffff_ffff 8 4 0x25 12 8 (omega arith) (omega arith) (omega arith)
      (omega arith) (omega arith) (omega arith) (omega arith) (inr (omega arith))

-- Level 0x88 in the upper byte.
abbrev active : Mintstatus
active = record { bits = 0x8800_0000 }

mil-top_bit_example : (mil active ≡ active.bits / 2 ^ 31) × (mil active ≢ active.bits / 2 ^ 24)
mil-top_bit_example = mil-top_bit active (omega arith) (omega arith)
