-- ===== src/Mtimer/Examples.antt =====
-- Runs of the driver of examples/atalanta-bsp/src/mtimer.rs on devices whose contents are known.
use atalanta.Prelude.{
  ℕ, ◌+◌, ◌*◌, ◌/◌, ◌%◌, ◌^◌, ◌≡◌, refl, true, ◌==◌, if◌then◌else◌, [], arith, inr,
}
use atalanta.Machine.{Bus, ok, panic}
use atalanta.Machine.Memory.{Cells, memory, memory_words, write_cell}
use atalanta.Mtimer.{set_cmp, set_cmp_lo, counter, start}
use atalanta.Mtimer.Compare.{IsMtimerReg, SetsCompare, set_cmp-SetsCompare, cmp_low, cmp_high}
use atalanta.Mtimer.Counters.{Count, mtime_high, mtime_low, counter-time}
use atalanta.Mtimer.OneShot.{Scheduled, start-Scheduled, start_panics}
use atalanta.Machine.Bank.{Words}
use atalanta.Machine.Logged.{logged}

-- A compare value of 3 * 2 ^ 32 + 5, a peripheral clock divider of 4 and a count of 2 ^ 32 + 7.
abbrev cells : Cells
cells a =
    if a == cmp_high
    then 3
    else if a == cmp_low
    then 5
    else if a == 0x30500
    then 4
    else if a == mtime_high
    then 1
    else if a == mtime_low
    then 7
    else 0

abbrev words : Words memory IsMtimerReg
words = memory_words

set_cmp-SetsCompare_example :
    SetsCompare words (2 ^ 33 + 9) cells (set_cmp (logged memory) (2 ^ 33 + 9) (cells, []))
    × SetsCompare words 77 cells (set_cmp_lo (logged memory) 77 (cells, []))
set_cmp-SetsCompare_example =
    set_cmp-SetsCompare words (2 ^ 33 + 9) 77 cells (omega arith) (omega arith)

-- A timer that counts at each read.
abbrev clock : Bus
clock = record {
  State = ℕ;
  value8 = λ a t. 0;
  after_read8 = λ a t. t;
  store8 = λ a v t. t;
  value32 = λ a t. if a == mtime_high then t % 2 ^ 64 / 2 ^ 32 else t % 2 ^ 32;
  after_read32 = λ a t. t + 1;
  store32 = λ a v t. t;
}

abbrev clock_count : Count clock
clock_count = record {
  time = λ t. t % 2 ^ 64;
  time-lt = λ t. omega arith;
  high_word = λ t. refl;
  low_word = λ t. omega arith;
}

-- The low word overflows between the two reads.
counter-time_example :
    (v : ℕ) × (counter clock 0xffffffff ≡ ok v 0x100000001)
    × (v + 0x100000000 / 2 ^ 32 * 2 ^ 32 ≡ 0x100000000 + 0xffffffff / 2 ^ 32 * 2 ^ 32)
counter-time_example = counter-time clock_count 0xffffffff

abbrev stopped_count : Count memory
stopped_count = record {
  time = λ m. m mtime_high % 2 ^ 32 * 2 ^ 32 + m mtime_low % 2 ^ 32;
  time-lt = λ m. omega arith;
  high_word = λ m. omega arith;
  low_word = λ m. omega arith;
}

start-Scheduled_example : Scheduled words (2 ^ 32 + 7 + 100 / 4) (start memory true 100 cells)
start-Scheduled_example =
    start-Scheduled words stopped_count cells true 100 (omega arith) (omega arith)

abbrev last_count : Cells
last_count = write_cell mtime_high 0xffffffff (write_cell mtime_low 0xffffffff cells)

start_panics_example : start memory true 100 last_count ≡ panic last_count
start_panics_example =
    start_panics words stopped_count last_count true 100 (inr (omega arith, omega arith, refl))
