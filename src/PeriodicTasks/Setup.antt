-- ===== src/PeriodicTasks/Setup.antt =====
-- The interrupts as examples/periodic_tasks/src/main.rs configures them.
use atalanta.Prelude.{ℕ, map, All, ◌<◌, List, [], ◌∷◌, arith}
use atalanta.Machine.{Bus, M, ◌>>◌}
use atalanta.Machine.Bank.{Words}
use atalanta.Machine.Reg.{RegApi, RegLaws}
use atalanta.Clic.Intattr.{Trig}
use atalanta.Clic.Spec.{disable, set_trig}
use atalanta.Clic.State.{IsClicReg}
use atalanta.Clic.Sequence.{Tabulates, table, run_all-Tabulates}
use atalanta.Clic.Rows.{
  setup_rest, setup_ops, tear_rest, tear_ops, setup-IsAllowed, tear-IsAllowed, set_up, torn_down,
  row, rows, setup_row, tear_row, row-Tabulates, then_rows-Tabulates,
}
use atalanta.Interrupt.{
  Interrupt, number, machine_timer, timer0_cmp, timer1_cmp, timer2_cmp, timer3_cmp,
}
use atalanta.Interrupt.Numbers.{number-lt}
use atalanta.PeriodicTasks.{setup_irq, tear_irq}
use atalanta.PeriodicTasks.Main.{setup_irqs, tear_irqs}

module _ {b : Bus} (w : Words b IsClicReg) (reg : RegApi b) (laws : RegLaws w reg) where
  setup_irq-Tabulates :
      (irq : Interrupt) (l : ℕ) (s : b.State)
      → l < 256
      → Tabulates w (row (number irq) (set_up l) (table w s)) (setup_irq reg irq l s)
  unfolding setup_irq
  setup_irq-Tabulates irq l s fits =
      let n : ℕ = number irq in
      let h : n < 4096 = omega (arith, number-lt irq) in
      row-Tabulates w (set_up l) n (setup_ops n l) s (λ m. setup_row n l m (table w s)) _
        (run_all-Tabulates w reg laws n (set_trig Trig.edge) (setup_rest n l) s
          (setup-IsAllowed n l h fits))

  tear_irq-Tabulates :
      (irq : Interrupt) (s : b.State)
      → Tabulates w (row (number irq) torn_down (table w s)) (tear_irq reg irq s)
  unfolding tear_irq
  tear_irq-Tabulates irq s =
      let n : ℕ = number irq in
      let h : n < 4096 = omega (arith, number-lt irq) in
      row-Tabulates w torn_down n (tear_ops n) s (λ m. tear_row n m (table w s)) _
        (run_all-Tabulates w reg laws n disable (tear_rest n) s (tear-IsAllowed n h))

  -- One interrupt after another.
  abbrev setup_each : Interrupt → ℕ → List (Interrupt × ℕ) → M b.State Unit
  setup_each i l [] = setup_irq reg i l
  setup_each i l ((i', l') ∷ irqs) = setup_irq reg i l >> setup_each i' l' irqs

  abbrev tear_each : Interrupt → List Interrupt → M b.State Unit
  tear_each i [] = tear_irq reg i
  tear_each i (i' ∷ irqs) = tear_irq reg i >> tear_each i' irqs

  setup_each-Tabulates :
      (i : Interrupt) (l : ℕ) (irqs : List (Interrupt × ℕ)) (s : b.State)
      → All (λ (_, l). l < 256) ((i, l) ∷ irqs)
      → Tabulates w
          (rows (map (λ (i, l). (number i, set_up l)) ((i, l) ∷ irqs)) (table w s))
          (setup_each i l irqs s)
  setup_each-Tabulates i l [] s (h, hs) = setup_irq-Tabulates i l s h
  setup_each-Tabulates i l ((i', l') ∷ irqs) s (h, hs) =
      then_rows-Tabulates w (setup_irq reg i l) (setup_each i' l' irqs) (number i) (set_up l)
        (map (λ (i, l). (number i, set_up l)) ((i', l') ∷ irqs)) s (setup_irq-Tabulates i l s h)
        (λ t. setup_each-Tabulates i' l' irqs t hs)

  tear_each-Tabulates :
      (i : Interrupt) (irqs : List Interrupt) (s : b.State)
      → Tabulates w
          (rows (map (λ i. (number i, torn_down)) (i ∷ irqs)) (table w s))
          (tear_each i irqs s)
  tear_each-Tabulates i [] s = tear_irq-Tabulates i s
  tear_each-Tabulates i (i' ∷ irqs) s =
      then_rows-Tabulates w (tear_irq reg i) (tear_each i' irqs) (number i) torn_down
        (map (λ i. (number i, torn_down)) (i' ∷ irqs)) s (tear_irq-Tabulates i s)
        (λ t. tear_each-Tabulates i' irqs t)

  -- The program sets up the compare interrupts of the four timers with the levels 1 to 4 of their
  -- tasks, and the machine timer's, which ends the test, with level 255, above them all. At its end
  -- it tears the same interrupts down. No other interrupt changes.
  pub setup_irqs-Tabulates :
      (s : b.State)
      → Tabulates w
          (rows
            ((number timer0_cmp, set_up 1)
              ∷ (number timer1_cmp, set_up 2)
              ∷ (number timer2_cmp, set_up 3)
              ∷ (number timer3_cmp, set_up 4)
              ∷ (number machine_timer, set_up 255)
              ∷ [])
            (table w s))
          (setup_irqs reg s)
        × Tabulates w
            (rows
              ((number timer0_cmp, torn_down)
                ∷ (number timer1_cmp, torn_down)
                ∷ (number timer2_cmp, torn_down)
                ∷ (number timer3_cmp, torn_down)
                ∷ (number machine_timer, torn_down)
                ∷ [])
              (table w s))
            (tear_irqs reg s)
  unfolding setup_irqs tear_irqs
  setup_irqs-Tabulates s = (
    setup_each-Tabulates timer0_cmp 1
        ((timer1_cmp, 2) ∷ (timer2_cmp, 3) ∷ (timer3_cmp, 4) ∷ (machine_timer, 255) ∷ []) s
        (omega arith, (omega arith, (omega arith, (omega arith, (omega arith, tt))))),
    tear_each-Tabulates timer0_cmp (timer1_cmp ∷ timer2_cmp ∷ timer3_cmp ∷ machine_timer ∷ []) s,
  )
