-- ===== src/HelloRt/Irq/Configured.antt =====
-- What examples/hello_rt/src/lib.rs makes of the configuration of the interrupts.
use atalanta.Prelude.{ℕ, ◌<◌, ◌∙◌, ap, List, ◌∷◌, arith, bit}
use atalanta.Machine.{Bus, ◌>>◌}
use atalanta.Machine.Bank.{Words}
use atalanta.Machine.Keeps.{returned-same}
use atalanta.Machine.Reg.{RegApi, RegLaws}
use atalanta.Mmap.{uart_base}
use atalanta.Clic.{ie}
use atalanta.Clic.Intattr.{Trig}
use atalanta.Clic.Spec.{IntOp, config_of, disable, set_trig}
use atalanta.Clic.State.{IsClicReg, ie-IsClicReg}
use atalanta.Clic.Sequence.{
  change_all, run_all, IsAllowed, Tabulates, table, run_all-Tabulates, change_all-agree,
}
use atalanta.Clic.Rows.{
  setup_rest, setup_ops, tear_rest, tear_ops, setup-IsAllowed, tear-IsAllowed, set_up, torn_down,
  row, setup_row, tear_row, row-Tabulates,
}
use atalanta.Console.{sprintln}
use atalanta.Console.Quiet.{IsApart, IsReady, IsText, sprintln-Prints, sprintln-Keeps}
use atalanta.Uart.Device.{UartDevice}
use atalanta.Interrupt.{Interrupt, number}
use atalanta.Interrupt.Numbers.{number-lt}
use atalanta.HelloRt.Irq.{setup_irq, tear_irq}

module _ {b : Bus} (w : Words b IsClicReg) (reg : RegApi b) (laws : RegLaws w reg)
    (u : UartDevice b uart_base) (apart : (a : ℕ) → IsClicReg a → IsApart b (w.peek a))
    (fuel : ℕ) where
  -- A message, and then operations on interrupts.
  printed-Tabulates :
      (text : List ℕ) (n : ℕ) (op : IntOp) (ops : List (ℕ × IntOp)) (s : b.State)
      → IsReady u fuel s
      → IsText text
      → IsAllowed ((n, op) ∷ ops)
      → Tabulates w
          (change_all ((n, op) ∷ ops) (table w s))
          ((sprintln b fuel text >> run_all reg n op ops) s)
  printed-Tabulates text n op ops s ready fits valid =
      let one = sprintln-Prints u fuel text s ready fits in
      let two = run_all-Tabulates w reg laws n op ops one.after valid in
      let quiet = λ (m : ℕ) (hm : m < 4096).
        ap (λ x. config_of (bit x))
          (returned-same (sprintln b fuel text) tt s one.after
            (sprintln-Keeps (apart (ie m) (ie-IsClicReg m hm)) fuel text) one.returns) in
      rw one.returns (record {
        after = two.after;
        returns = two.returns;
        configured = λ k hk.
            two.configured k hk
            ∙ change_all-agree w ((n, op) ∷ ops) (table w one.after) (table w s) quiet k hk;
      })

  -- With a UART that can be printed on, `setup_irq` and `tear_irq` return. The first makes its
  -- interrupt edge-triggered, positive, vectored, of level 0x88 and enabled, the second
  -- level-triggered, positive, not vectored, of level zero and disabled; what else the
  -- configuration says and every other interrupt stay as they were.
  pub setup_tear-Tabulates :
      (text : List ℕ) (irq : Interrupt) (s : b.State)
      → IsReady u fuel s
      → IsText text
      → Tabulates w (row (number irq) (set_up 0x88) (table w s)) (setup_irq reg fuel text irq s)
        × Tabulates w (row (number irq) torn_down (table w s)) (tear_irq reg fuel text irq s)
  unfolding setup_irq tear_irq
  setup_tear-Tabulates text irq s ready fits =
      let n : ℕ = number irq in
      let h : n < 4096 = omega (arith, number-lt irq) in
      (
        row-Tabulates w (set_up 0x88) n (setup_ops n 0x88) s (λ m. setup_row n 0x88 m (table w s)) _
            (printed-Tabulates text n (set_trig Trig.edge) (setup_rest n 0x88) s ready fits
              (setup-IsAllowed n 0x88 h (omega arith))),
        row-Tabulates w torn_down n (tear_ops n) s (λ m. tear_row n m (table w s)) _
            (printed-Tabulates text n disable (tear_rest n) s ready fits (tear-IsAllowed n h)),
      )
