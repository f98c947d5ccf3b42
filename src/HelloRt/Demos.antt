-- ===== src/HelloRt/Demos.antt =====
-- The programs timer_group.rs, uart.rs, led.rs and gpio_blink.rs of examples/hello_rt/examples/,
-- which have no interrupts. `wait` is what a `nop` does to the devices.
use atalanta.Prelude.{ℕ, ◌/◌, Bool, true, false, Option, List, [], ◌∷◌, ◌++◌, codes, length}
use atalanta.Machine.{Bus, M, pure, panics, ◌>>=◌, ◌>>◌}
use atalanta.Mmap.{uart_base, timer0_addr, timer1_addr, timer2_addr, timer3_addr}
use atalanta.Console.{newline, sprint, sprintln}
use atalanta.Delay.{cpu_freq, nops_per_sec, asm_delay}
use atalanta.Gpio
use atalanta.Gpio.{gpio_lo_base}
use atalanta.Led.{ld0, ld1, ld2, ld3, led_on, led_off}
use atalanta.TestBench.{windows, for_cycle, for_each, forever, rtl_tb_signal_ok}
use atalanta.TimerGroup
use atalanta.Uart
use atalanta.HelloRt.Irq.{uart_baud}

module _ (b : Bus) (wait : b.State → b.State) (rtl_tb debug : Bool) (uart_is_init : Option ℕ)
    (fuel : ℕ) where
  abbrev init_uart : M b.State Unit
  init_uart = Uart.init b uart_base uart_is_init (cpu_freq rtl_tb) (uart_baud rtl_tb)

  -- `main` of timer_group.rs; `count` is the message on a counter.
  unfoldable pub main_timers : List ℕ → (ℕ → List ℕ) → M b.State ⊥
  main_timers name count = do
    init_uart
    sprintln b fuel name
    TimerGroup.init b timer0_addr
    TimerGroup.init b timer1_addr
    TimerGroup.init b timer2_addr
    TimerGroup.init b timer3_addr
    TimerGroup.enable_with_prescaler b debug timer0_addr 0
    TimerGroup.enable_with_prescaler b debug timer1_addr 1
    TimerGroup.enable_with_prescaler b debug timer2_addr 2
    TimerGroup.enable_with_prescaler b debug timer3_addr 3
    forever fuel (do
      sprint b fuel (codes "times:")
      for_each (timer0_addr ∷ timer1_addr ∷ timer2_addr ∷ timer3_addr ∷ [])
          (λ t. (do n ← TimerGroup.counter b t; sprint b fuel (count n)))
      sprintln b fuel []
      asm_delay wait (nops_per_sec rtl_tb debug))

  -- `main` of uart.rs.
  unfoldable pub main_uart : M b.State ⊥
  main_uart = do
    init_uart
    Uart.write_str b uart_base fuel newline
    Uart.write_str b uart_base fuel (codes "[UART] Hello from mock UART (Rust)!" ++ newline)
    Uart.write_str b uart_base fuel (codes "[UART] UART_TEST [PASSED]" ++ newline)
    elim rtl_tb [ true ↦ rtl_tb_signal_ok b | false ↦ pure tt ]
    forever fuel (do
      asm_delay wait 1_000_000
      Uart.write_str b uart_base fuel (codes "[UART] tick" ++ newline))

  -- `blinky` of led.rs, for a number of rounds, and `main` there.
  unfoldable pub blinky : ℕ → M b.State Unit
  blinky rounds = do
    let ord = windows (ld3 ∷ ld0 ∷ ld1 ∷ ld2 ∷ ld3 ∷ [])
    let delay : ℕ = nops_per_sec rtl_tb debug / length ord
    for_cycle rounds ord ord (λ leds. (do led_off b leds.0; led_on b leds.1; asm_delay wait delay))

  unfoldable pub main_led : ℕ → M b.State ⊥
  unfolding blinky
  main_led rounds = do blinky rounds; panics

  -- `main` of gpio_blink.rs.
  unfoldable pub main_gpio : M b.State ⊥
  main_gpio = do
    init_uart
    sprintln b fuel (codes "[gpio_blink]")
    Gpio.en b gpio_lo_base 0xf
    Gpio.set_output b gpio_lo_base 0xf
    forever fuel (do Gpio.toggle b gpio_lo_base 0xf; asm_delay wait (nops_per_sec rtl_tb debug / 2))
