-- ===== src/HelloRt/Monotonic.antt =====
-- The program examples/hello_rt/examples/mtimer_is_monotonic.rs, which takes eight measurements of
-- the machine timer.
use atalanta.Prelude.{
  ℕ, zero, suc, ◌+◌, ◌/◌, ◌^◌, Bool, true, false, not, ◌&&◌, ◌||◌, Option, List, [], ◌∷◌, ◌++◌,
  length, ltb, u64, ◌==◌, if◌then◌else◌,
}
use atalanta.Machine.{Bus, M, pure, spins, assert, ◌>>=◌, ◌>>◌}
use atalanta.Machine.Reg.{RegApi}
use atalanta.Machine.Statics.{lift, statics, set_statics}
use atalanta.Mmap.{uart_base}
use atalanta.Clic.{smclicconfig}
use atalanta.Clic.Smclicconfig
use atalanta.Console.{sprintln}
use atalanta.Delay.{cpu_freq, nops_per_sec}
use atalanta.Interrupt.{machine_timer}
use atalanta.Mtimer
use atalanta.TestBench.{windows, forever, signal_pass}
use atalanta.Uart
use atalanta.HelloRt.Irq.{uart_baud, setup_irq, tear_irq}

abbrev pub interval : Bool → Bool → ℕ
interval rtl_tb debug = if rtl_tb then 0x100 else nops_per_sec rtl_tb debug / 2

-- The `static mut`s. The vector of samples has a capacity of 8.
pub record Statics : Type 0 where
  pub samples : List ℕ
  pub stop : Bool

abbrev pub capacity : ℕ
capacity = 8

-- `windows(2).all(|win| win[0] < win[1])`
abbrev pub all_below : List (ℕ × ℕ) → Bool
all_below [] = true
all_below ((x, y) ∷ rest) = ltb x y && all_below rest

-- A sum of `u64`, with the overflow check of a debug build.
abbrev pub checked64 : {S : Type 0} → Bool → ℕ → M S ℕ
checked64 debug x = do assert (not debug || ltb x (2 ^ 64)); pure (u64 x)

module _ (b : Bus) (rtl_tb debug : Bool) (fuel : ℕ) (text : ℕ → List ℕ) where
  -- A push to a full vector has undefined behaviour, which is a panic here.
  unfoldable pub machine_timer_handler : M (b.State × Statics) Unit
  machine_timer_handler = do
    sample ← lift (Mtimer.counter b)
    lift (sprintln b fuel (text sample))
    v ← statics
    assert (ltb (length v.samples) capacity)
    let samples' : List ℕ = v.samples ++ (sample ∷ [])
    set_statics (record v { samples = samples' })
    if length samples' == capacity
        then set_statics (record { samples = samples'; stop = true })
        else (do at ← checked64 debug (sample + interval rtl_tb debug); lift (Mtimer.set_cmp b at))

module _ {b : Bus} (reg : RegApi b) (rtl_tb debug : Bool) (fuel : ℕ)
    (name setup_text tear_text : List ℕ) (wait : b.State → b.State)
    (wfi enable_interrupts : M (b.State × Statics) Unit) (uart_is_init : Option ℕ) where
  -- `while !STOP { wfi() }`
  unfoldable pub wait_stop : ℕ → M (b.State × Statics) Unit
  wait_stop zero = spins
  wait_stop (suc n) = do v ← statics; elim v.stop [ true ↦ pure tt | false ↦ (do wfi; wait_stop n) ]

  unfoldable pub main : M (b.State × Statics) ⊥
  unfolding wait_stop
  main = do
    lift (Uart.init b uart_base uart_is_init (cpu_freq rtl_tb) (uart_baud rtl_tb))
    lift (sprintln b fuel name)
    lift (Smclicconfig.set_mnlbits reg smclicconfig 8)
    lift (setup_irq reg fuel setup_text machine_timer)
    counter ← lift (Mtimer.counter b)
    at ← checked64 debug (counter + interval rtl_tb debug)
    lift (Mtimer.set_cmp b at)
    enable_interrupts
    lift (Mtimer.enable b)
    wait_stop fuel
    v ← statics
    assert (all_below (windows v.samples))
    lift (tear_irq reg fuel tear_text machine_timer)
    lift (signal_pass b wait rtl_tb debug fuel fuel true)
    forever fuel (pure tt)
