-- ===== src/Mtimer/Counters.antt =====
-- Reading and writing the 64-bit count of examples/atalanta-bsp/src/mtimer.rs in two halves.
use atalanta.Prelude.{ℕ, ◌+◌, ◌*◌, ◌/◌, ◌%◌, ◌^◌, ◌<◌, ◌≡◌, ap, arith, bit_or_halves}
use atalanta.Machine.{Bus, Outcome, ok}
use atalanta.Mmap.{mtimer_base, mtime_low_addr_ofs, mtime_high_addr_ofs}
use atalanta.Mtimer.{join_words, counter}

abbrev pub mtime_high : ℕ
mtime_high = mtimer_base + mtime_high_addr_ofs

abbrev pub mtime_low : ℕ
mtime_low = mtimer_base + mtime_low_addr_ofs

-- The count of the timer, 64 bits wide, as its two registers show it. Nothing is said of how it
-- changes from one access to the next.
pub record Count (b : Bus) : Type 0 where
  pub time : b.State → ℕ
  pub time-lt : (s : b.State) → time s < 2 ^ 64
  pub high_word : (s : b.State) → b.value32 mtime_high s ≡ time s / 2 ^ 32
  pub low_word : (s : b.State) → b.value32 mtime_low s ≡ time s % 2 ^ 32

pub join_words_lem : (hi lo : ℕ) → hi < 2 ^ 32 → lo < 2 ^ 32 → join_words hi lo ≡ hi * 2 ^ 32 + lo
unfolding join_words
join_words_lem hi lo hh hl = bit_or_halves hi lo hh hl

module _ {b : Bus} (c : Count b) (s : b.State) where
  -- The state between the two reads, and the one behind them.
  abbrev pub between : b.State
  between = b.after_read32 mtime_high s

  abbrev pub behind : b.State
  behind = b.after_read32 mtime_low between

  -- The number that `counter` returns.
  abbrev pub count_read : ℕ
  count_read = c.time s / 2 ^ 32 * 2 ^ 32 + c.time between % 2 ^ 32

  pub counter_run : counter b s ≡ ok count_read behind
  unfolding counter
  counter_run =
      rw (c.high_word s, c.low_word between)
        (ap {B = Outcome b.State ℕ} (λ v. ok v behind)
          (join_words_lem _ _ (omega (arith, c.time-lt s)) (omega arith)))

  -- `counter` returns a number that differs from the count at its second read by just the change of
  -- the count's high word since the first read: it is the count if the high word is the same, and
  -- 2 ^ 32 too low if the high word has gone up by one.
  pub counter-time :
      (v : ℕ) × (counter b s ≡ ok v behind)
      × (v + c.time between / 2 ^ 32 * 2 ^ 32 ≡ c.time between + c.time s / 2 ^ 32 * 2 ^ 32)
  counter-time = (count_read, counter_run, omega arith)
