-- ===== src/PeriodicTasks/Examples.antt =====
-- The theorems on the periodic tasks, on plain memory and for short runs.
use atalanta.Prelude.{ℕ, ◌-◌, ◌+◌, refl, false, ◌^◌, true, List, [], ◌∷◌, arith}
use atalanta.Machine.{◌>>=◌, ◌>>◌}
use atalanta.Machine.Statics.{statics}
use atalanta.Machine.Bank.{Words}
use atalanta.Machine.Memory.{Cells, memory, memory_words}
use atalanta.Machine.MemoryReg.{memory_reg, memory_reg-RegLaws}
use atalanta.Clic.State.{IsClicReg}
use atalanta.Clic.Sequence.{Tabulates, table}
use atalanta.Clic.Rows.{rows, set_up, torn_down}
use atalanta.Interrupt.{number, machine_timer, timer0_cmp, timer1_cmp, timer2_cmp, timer3_cmp}
use atalanta.PeriodicTasks.{Statics}
use atalanta.PeriodicTasks.Main.{setup_irqs, tear_irqs, wait_timeout}
use atalanta.PeriodicTasks.Totals.{sum_check}
use atalanta.PeriodicTasks.Inline.{CountsAs, inline_isr-CountsAs}
use atalanta.Machine.Hart.{Env, Hart, fall_through}
use atalanta.PeriodicTasks.Run.{events, rounds, zero_counts, Judges, wait_check-Judges}
use atalanta.PeriodicTasks.Setup.{setup_irqs-Tabulates}
use atalanta.PeriodicTasks.Counts.{
  Event, cmp0, cmp1, cmp2, cmp3, tally, handle_all, Counted, handle_all-Counted,
}

abbrev words : Words memory IsClicReg
words = memory_words

abbrev start : Cells
start a = 1

setup_irqs-Tabulates_example :
    Tabulates words
      (rows
        ((number timer0_cmp, set_up 1)
          ∷ (number timer1_cmp, set_up 2)
          ∷ (number timer2_cmp, set_up 3)
          ∷ (number timer3_cmp, set_up 4)
          ∷ (number machine_timer, set_up 255)
          ∷ [])
        (table words start))
      (setup_irqs memory_reg start)
    × Tabulates words
        (rows
          ((number timer0_cmp, torn_down)
            ∷ (number timer1_cmp, torn_down)
            ∷ (number timer2_cmp, torn_down)
            ∷ (number timer3_cmp, torn_down)
            ∷ (number machine_timer, torn_down)
            ∷ [])
          (table words start))
        (tear_irqs memory_reg start)
setup_irqs-Tabulates_example = setup_irqs-Tabulates words memory_reg memory_reg-RegLaws start

-- The end of a test of a millisecond: 40, 80, 159 and 320 runs.
abbrev counted : Statics
counted = record {
  task0_count = 40;
  task1_count = 80;
  task2_count = 159;
  task3_count = 320;
  timeout = true;
}

handle_all-Counted_example :
    Counted
      (λ (n : ℕ). n)
      true
      true
      (tally (cmp3 ∷ cmp0 ∷ cmp3 ∷ cmp1 ∷ []) counted)
      (handle_all (λ (n : ℕ). n) true true (cmp3 ∷ cmp0 ∷ cmp3 ∷ cmp1 ∷ []) (7, counted))
handle_all-Counted_example =
    handle_all-Counted (λ (n : ℕ). n) true true (cmp3 ∷ cmp0 ∷ cmp3 ∷ cmp1 ∷ []) 7 counted
      (record {
        room0 = omega arith;
        room1 = omega arith;
        room2 = omega arith;
        room3 = omega arith;
      })

-- A test of 25 microseconds, in which the tasks run once, once, four times and seven times.
abbrev served : List (List Event)
served =
    (cmp3 ∷ cmp2 ∷ cmp3 ∷ [])
    ∷ []
    ∷ (cmp3 ∷ cmp1 ∷ cmp2 ∷ cmp3 ∷ [])
    ∷ (cmp0 ∷ cmp2 ∷ cmp3 ∷ [])
    ∷ []

wait_check-Judges_example : Judges (events served (cmp3 ∷ cmp2 ∷ cmp3 ∷ [])) 25_000 (
    (wait_timeout (
          rounds words memory_reg memory_reg-RegLaws
            (λ s. s)
            true
            true
            served
            (cmp3 ∷ cmp2 ∷ cmp3 ∷ [])
            [])
        >> (statics >>= sum_check true 25_000))
      (start, zero_counts))
wait_check-Judges_example =
    wait_check-Judges words memory_reg memory_reg-RegLaws (λ s. s) true true 25_000 served
      (cmp3 ∷ cmp2 ∷ cmp3 ∷ []) [] start (omega arith) (omega arith) (omega arith)

-- The count of task 0 is at its largest value, and overflows.
abbrev env : Env
env = record { symbol = λ s. 0x2000; link = 0x1000; call = λ a h. h }

abbrev hart : Hart
hart = record {
  x = λ r. r;
  mem = λ a. 2 ^ 32 - 1;
  mcause = 0;
  mepc = 0x1400;
  mie = false;
  mpie = true;
  next = fall_through;
}

inline_isr-CountsAs_example :
    CountsAs (λ (n : ℕ). n + 1) false env cmp0 7 (record counted { task0_count = 2 ^ 32 - 1 }) hart
inline_isr-CountsAs_example =
    inline_isr-CountsAs (λ (n : ℕ). n + 1) false env cmp0 7
      (record counted { task0_count = 2 ^ 32 - 1 }) hart (omega arith) refl
