-- ===== src/Interrupt/Numbers.antt =====
-- Numbers of interrupts: examples/atalanta-bsp/src/interrupt.rs.
use atalanta.Prelude.{ℕ, ◌<◌, ◌≡◌, refl, ◌∙◌, ◌↔◌, Bool, true, false, if◌then◌else◌, arith}
use atalanta.Interrupt.{Interrupt, number, ok, err, from_number}

-- The interrupts that `from_number` knows.
abbrev pub is_decoded : Interrupt → Bool
is_decoded Interrupt.gpio = false
is_decoded Interrupt.spi_rx_tx_irq = false
is_decoded Interrupt.spi_eot_irq = false
is_decoded Interrupt.timer0_ovf = false
is_decoded Interrupt.timer0_cmp = false
is_decoded Interrupt.timer1_ovf = false
is_decoded Interrupt.timer1_cmp = false
is_decoded Interrupt.timer2_ovf = false
is_decoded Interrupt.timer2_cmp = false
is_decoded Interrupt.timer3_ovf = false
is_decoded Interrupt.timer3_cmp = false
is_decoded Interrupt.nmi = false
is_decoded _ = true

from_number-number_lem :
    (i : Interrupt) → from_number (number i) ≡ (if is_decoded i then ok i else err (number i))
unfolding from_number number
from_number-number_lem Interrupt.gpio = refl
from_number-number_lem _ = refl

-- A number that is decoded is the number of the interrupt found.
number-from_number : (v : ℕ) (i : Interrupt) → from_number v ≡ ok i → number i ≡ v
unfolding from_number number
number-from_number v i h = ground arith

decoded : (i : Interrupt) → from_number (number i) ≡ ok i → is_decoded i ≡ true
decoded i h = ground (arith, from_number-number_lem i)

-- `from_number` gives an interrupt exactly for its number, and only for the interrupts that it
-- knows: not for the GPIO, the SPI, the timers and the NMI.
pub from_number_iff :
    (v : ℕ) (i : Interrupt) → (from_number v ≡ ok i) ↔ ((number i ≡ v) × (is_decoded i ≡ true))
from_number_iff v i = (
  λ h. (number-from_number v i h, decoded i (rw (number-from_number v i h) h)),
  λ (e, known). rw (← e) (from_number-number_lem i ∙ (rw known)),
)

-- Every interrupt has one of the 64 entries of the vector table.
pub number-lt : (i : Interrupt) → number i < 64
unfolding number
number-lt Interrupt.machine_soft = omega arith
number-lt _ = omega arith
