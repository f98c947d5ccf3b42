-- ===== src/HelloRt/Irq.antt =====
-- Setting interrupts up and tearing them down: examples/hello_rt/src/lib.rs. `text` is what the
-- formatting library makes of the message.
pub mod Configured
mod Examples
use atalanta.Prelude.{ℕ, Bool, true, false, List, if◌then◌else◌}
use atalanta.Machine.{Bus, M, ◌>>=◌, ◌>>◌}
use atalanta.Machine.Reg.{RegApi}
use atalanta.Clic.{ie, attr, ctl}
use atalanta.Clic.Intattr
use atalanta.Clic.Intattr.{Trig, Polarity}
use atalanta.Clic.Intctl
use atalanta.Clic.Intie
use atalanta.Console.{sprintln}
use atalanta.Interrupt.{Interrupt, number}

-- `rtl_tb` is the feature rtl-tb.
abbrev pub uart_baud : Bool → ℕ
uart_baud rtl_tb = if rtl_tb then 1_500_000 else 115_200

module _ {b : Bus} (reg : RegApi b) (fuel : ℕ) where
  unfoldable pub setup_irq : List ℕ → Interrupt → M b.State Unit
  setup_irq text irq = do
    sprintln b fuel text
    Intattr.set_trig reg (attr (number irq)) Trig.edge
    Intattr.set_polarity reg (attr (number irq)) Polarity.pos
    Intattr.set_shv reg (attr (number irq)) true
    Intctl.set_level reg (ctl (number irq)) 0x88
    Intie.enable reg (ie (number irq))

  unfoldable pub tear_irq : List ℕ → Interrupt → M b.State Unit
  tear_irq text irq = do
    sprintln b fuel text
    Intie.disable reg (ie (number irq))
    Intctl.set_level reg (ctl (number irq)) 0x0
    Intattr.set_shv reg (attr (number irq)) false
    Intattr.set_trig reg (attr (number irq)) Trig.level
    Intattr.set_polarity reg (attr (number irq)) Polarity.pos
