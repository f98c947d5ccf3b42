-- ===== src/HelloRt/NestedLock/Pcs.antt =====
-- The programs nested_pcs_interrupt_macros.rs and trampolines.rs of examples/hello_rt/examples/ write
-- the bit of hardware-accelerated context saving past the CLIC driver.
use mathlib.Core.Path.{fun_ext}
use atalanta.Prelude.{
  ℕ, ◌-◌, ◌+◌, ◌*◌, ◌≡◌, ap, ◌∙◌, true, false, min, max, arith, bit, bit-le_one, bit-flag, bit-high,
  Bool-cases, inl, inr, ◌==◌, ltb, if◌then◌else◌,
}
use atalanta.Machine.{Bus, Outcome}
use atalanta.Machine.Bank.{Words}
use atalanta.Machine.Effect.{SetsBits}
use atalanta.Access.Masks.{mask_u32-SetsBits, unmask_u32-SetsBits}
use atalanta.Mmap.{clic_base_addr}
use atalanta.Clic.{ie}
use atalanta.Clic.Spec.{set_pcs, apply, config_of}
use atalanta.Clic.State.{IsClicReg, ie-IsClicReg, ie_injective, config, Configures}
use atalanta.Interrupt.{Interrupt, number}
use atalanta.Interrupt.Numbers.{number-lt}
use atalanta.HelloRt.NestedLock.{enable_pcs, disable_pcs}

pcs_flag : (i : ℕ) → bit 4096 i ≡ (if i == 12 then 1 else 0)
pcs_flag i = elim (Bool-cases (ltb i 64)) [
  | inl e ↦ bit-flag 12 i (omega arith) (ground arith)
  | inr e ↦ bit-high 13 4096 i (omega arith) (ground arith) ∙ ground arith
]

set_bit : (x i : ℕ) → max (bit x i) (bit 4096 i) ≡ (if i == 12 then 1 else bit x i)
set_bit x i = ground (arith, pcs_flag i, bit-le_one x i)

clear_bit : (x i : ℕ) → min (bit x i) (1 - bit 4096 i) ≡ (if i == 12 then 0 else bit x i)
clear_bit x i = ground (arith, pcs_flag i, bit-le_one x i)

same_register : (n : ℕ) → clic_base_addr + 0x1000 + 0x04 * n ≡ ie n
unfolding ie
same_register n = omega arith

module _ {b : Bus} (w : Words b IsClicReg) where
  bits-Configures :
      (n : ℕ) (f g : ℕ → ℕ) (s : b.State) (r : Outcome b.State (Unit {0}))
      → SetsBits w (ie n) f s r
      → ((i : ℕ) → f i ≡ g i)
      → Configures w n (config_of g) s r
  bits-Configures n f g s r e same = record {
    after = e.after;
    returns = e.returns;
    configured = ap config_of (fun_ext (λ i. e.bits i ∙ same i));
    others = λ m hm ne.
        ap (λ x. config_of (bit x)) (e.others (ie m) (ie-IsClicReg m hm) (ie_injective m n ne));
  }

  -- `enable_pcs` and `disable_pcs` do to the configuration of their interrupt what `set_pcs` of the
  -- CLIC driver is to do, and leave every other interrupt alone.
  pub pcs-Configures :
      (irq : Interrupt) (s : b.State)
      → Configures w
          (number irq)
          (apply (set_pcs true) (config w (number irq) s))
          s
          (enable_pcs b irq s)
        × Configures w
            (number irq)
            (apply (set_pcs false) (config w (number irq) s))
            s
            (disable_pcs b irq s)
  unfolding enable_pcs disable_pcs
  pcs-Configures irq s =
      let n : ℕ = number irq in
      let x : ℕ = w.peek (ie n) s in
      let reg = ie-IsClicReg n (omega (arith, number-lt irq)) in
      let a : clic_base_addr + 0x1000 + 0x04 * n ≡ ie n = same_register n in
      (
        rw a (
            bits-Configures n _ (λ i. if i == 12 then 1 else bit x i) s _
              (mask_u32-SetsBits w (ie n) s reg 4096 (omega arith)) (set_bit x)),
        rw a (
            bits-Configures n _ (λ i. if i == 12 then 0 else bit x i) s _
              (unmask_u32-SetsBits w (ie n) s reg 4096 (omega arith)) (clear_bit x)),
      )
