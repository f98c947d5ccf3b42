-- ===== src/TimerGroup/Examples.antt =====
-- A run of the driver of examples/atalanta-bsp/src/timer_group.rs on a timer with known contents.
use atalanta.Prelude.{ℕ, ◌/◌, refl, true, ◌==◌, if◌then◌else◌, arith}
use atalanta.Machine.{Bus}
use atalanta.Mmap.{timer0_addr, timer_cmp, timer_cnt}
use atalanta.TimerGroup.{set_period_offset}
use atalanta.TimerGroup.Period.{ApbTimer, Counts, set_period_offset-Counts}

record Timer0 : Type 0 where
  cnt : ℕ
  cmp : ℕ

-- The divider is 4.
abbrev timer_bus : Bus
timer_bus = record {
  State = Timer0;
  value8 = λ a t. 4;
  after_read8 = λ a t. t;
  store8 = λ a v t. t;
  value32 = λ a t. if a == timer_cmp timer0_addr then t.cmp else t.cnt;
  after_read32 = λ a t. t;
  store32 = λ a v t.
      if a == timer_cmp timer0_addr
      then record { cnt = 0; cmp = v }
      else if a == timer_cnt timer0_addr
      then record t { cnt = v }
      else t;
}

abbrev timer0 : ApbTimer timer_bus timer0_addr
timer0 = record {
  cnt = λ t. t.cnt;
  cmp = λ t. t.cmp;
  store_cmp_cmp = λ v t h. refl;
  store_cmp_cnt = λ v t h. refl;
  store_cnt_cmp = λ v t h. refl;
  store_cnt_cnt = λ v t h. refl;
  cmp_value = λ t. refl;
  cmp_quiet = λ t. refl;
}

abbrev idle : Timer0
idle = record { cnt = 9; cmp = 10 }

set_period_offset-Counts_example :
    Counts timer0 (1000 / 4) (400 / 4) (set_period_offset timer_bus true timer0_addr 1000 400 idle)
set_period_offset-Counts_example =
    set_period_offset-Counts timer0 true 1000 400 idle (omega arith) (omega arith) (omega arith)
