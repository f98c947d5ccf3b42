-- ===== src/Clic/Refinement.antt =====
-- The CLIC driver implements its specification: each operation of examples/atalanta-bsp/src/clic/
-- has the meant effect on its interrupt and none on any other.
use atalanta.Prelude.{ℕ, ◌<◌, true, false, ◌≡◌, refl, ap, ◌∙◌, arith, bit}
use mathlib.Core.Path.{fun_ext}
use atalanta.Machine.{Bus, M}
use atalanta.Machine.Bank.{Words}
use atalanta.Machine.Effect.{SetsBits}
use atalanta.Machine.Reg.{RegApi, RegLaws, bit_put, bits_put}
use atalanta.Clic.{ip, ie, attr, ctl}
use atalanta.Clic.Intattr
use atalanta.Clic.Intattr.{Mode, machine, supervisor, user, mode_bits, Trig, Polarity}
use atalanta.Clic.Intctl
use atalanta.Clic.Intie
use atalanta.Clic.Intip
use atalanta.Clic.State.{IsClicReg, ie-IsClicReg, ie_injective, config, Configures}
use atalanta.Clic.Spec.{
  value_of, value_of-bit, config_of, IntOp, apply, IsOp, pend, unpend, enable, disable, set_pcs,
  set_shv, set_trig, set_polarity, set_mode, set_level,
}

-- The driver's code for each operation.
abbrev pub run_op : {b : Bus} → RegApi b → ℕ → IntOp → M b.State Unit
run_op reg number pend = Intip.pend reg (ip number)
run_op reg number unpend = Intip.unpend reg (ip number)
run_op reg number enable = Intie.enable reg (ie number)
run_op reg number disable = Intie.disable reg (ie number)
run_op reg number (set_pcs on) = Intie.set_pcs reg (ie number) on
run_op reg number (set_shv on) = Intattr.set_shv reg (attr number) on
run_op reg number (set_trig t) = Intattr.set_trig reg (attr number) t
run_op reg number (set_polarity p) = Intattr.set_polarity reg (attr number) p
run_op reg number (set_mode m) = Intattr.set_mode reg (attr number) m
run_op reg number (set_level l) = Intctl.set_level reg (ctl number) l

-- What each operation does to the bits of the register.
abbrev pub effect : IntOp → (ℕ → ℕ) → ℕ → ℕ
effect pend = bit_put 0 1
effect unpend = bit_put 0 0
effect enable = bit_put 8 1
effect disable = bit_put 8 0
effect (set_pcs true) = bit_put 12 1
effect (set_pcs false) = bit_put 12 0
effect (set_shv true) = bit_put 16 1
effect (set_shv false) = bit_put 16 0
effect (set_trig Trig.edge) = bit_put 17 1
effect (set_trig Trig.level) = bit_put 17 0
effect (set_polarity Polarity.neg) = bit_put 18 1
effect (set_polarity Polarity.pos) = bit_put 18 0
effect (set_mode m) = bits_put 22 23 (mode_bits m)
effect (set_level l) = bits_put 24 31 l

pub level_value : (l : ℕ) → l < 256 → value_of (bit l) 0 8 ≡ l
level_value l h = value_of-bit 8 0 l ∙ omega arith

pub config_of-effect :
    (op : IntOp) (f : ℕ → ℕ) → IsOp op → config_of (effect op f) ≡ apply op (config_of f)
config_of-effect pend f h = refl
config_of-effect unpend f h = refl
config_of-effect enable f h = refl
config_of-effect disable f h = refl
config_of-effect (set_pcs true) f h = refl
config_of-effect (set_pcs false) f h = refl
config_of-effect (set_shv true) f h = refl
config_of-effect (set_shv false) f h = refl
config_of-effect (set_trig Trig.edge) f h = refl
config_of-effect (set_trig Trig.level) f h = refl
config_of-effect (set_polarity Polarity.neg) f h = refl
config_of-effect (set_polarity Polarity.pos) f h = refl
config_of-effect (set_mode machine) f h = refl
config_of-effect (set_mode supervisor) f h = refl
config_of-effect (set_mode user) f h = refl
config_of-effect (set_level l) f h = ap (λ v. record (config_of f) { level = v }) (level_value l h)

mode_bits-lt : (m : Mode) → mode_bits m < 4
mode_bits-lt machine = omega arith
mode_bits-lt supervisor = omega arith
mode_bits-lt user = omega arith

module _ {b : Bus} (w : Words b IsClicReg) (reg : RegApi b) (laws : RegLaws w reg) where
  -- The bits after an operation.
  pub run_op-SetsBits :
      (op : IntOp) (number : ℕ) (s : b.State)
      → number < 4096
      → IsOp op
      → SetsBits w (ie number) (effect op (bit (w.peek (ie number) s))) s (run_op reg number op s)
  unfolding ip ie attr ctl Intip.pend Intip.unpend Intie.enable Intie.disable Intie.set_pcs
      Intattr.set_shv Intattr.set_trig Intattr.set_polarity Intattr.set_mode Intctl.set_level
  run_op-SetsBits pend n s h valid = laws.set_bit_lem _ 0 s (ie-IsClicReg n h) (omega arith)
  run_op-SetsBits unpend n s h valid = laws.clear_bit_lem _ 0 s (ie-IsClicReg n h) (omega arith)
  run_op-SetsBits enable n s h valid = laws.set_bit_lem _ 8 s (ie-IsClicReg n h) (omega arith)
  run_op-SetsBits disable n s h valid = laws.clear_bit_lem _ 8 s (ie-IsClicReg n h) (omega arith)
  run_op-SetsBits (set_pcs true) n s h valid =
      laws.set_bit_lem _ 12 s (ie-IsClicReg n h) (omega arith)
  run_op-SetsBits (set_pcs false) n s h valid =
      laws.clear_bit_lem _ 12 s (ie-IsClicReg n h) (omega arith)
  run_op-SetsBits (set_shv true) n s h valid =
      laws.set_bit_lem _ 16 s (ie-IsClicReg n h) (omega arith)
  run_op-SetsBits (set_shv false) n s h valid =
      laws.clear_bit_lem _ 16 s (ie-IsClicReg n h) (omega arith)
  run_op-SetsBits (set_trig Trig.edge) n s h valid =
      laws.set_bit_lem _ 17 s (ie-IsClicReg n h) (omega arith)
  run_op-SetsBits (set_trig Trig.level) n s h valid =
      laws.clear_bit_lem _ 17 s (ie-IsClicReg n h) (omega arith)
  run_op-SetsBits (set_polarity Polarity.neg) n s h valid =
      laws.set_bit_lem _ 18 s (ie-IsClicReg n h) (omega arith)
  run_op-SetsBits (set_polarity Polarity.pos) n s h valid =
      laws.clear_bit_lem _ 18 s (ie-IsClicReg n h) (omega arith)
  run_op-SetsBits (set_mode m) n s h valid =
      laws.write_bits_lem _ 22 23 (mode_bits m) s (ie-IsClicReg n h) (omega arith) (omega arith)
        (mode_bits-lt m)
  run_op-SetsBits (set_level l) n s h valid =
      laws.write_bits_lem _ 24 31 l s (ie-IsClicReg n h) (omega arith) (omega arith) valid

  -- Each operation of the CLIC driver on an interrupt below 4096 does to the configuration of that
  -- interrupt what the specification says, and leaves the configuration of every other as it was.
  pub run_op-refines :
      (op : IntOp) (number : ℕ) (s : b.State)
      → number < 4096
      → IsOp op
      → Configures w number (apply op (config w number s)) s (run_op reg number op s)
  run_op-refines op n s h valid =
      let e = run_op-SetsBits op n s h valid in
      record {
        after = e.after;
        returns = e.returns;
        configured = ap config_of (fun_ext e.bits) ∙ config_of-effect op _ valid;
        others = λ m hm ne.
            ap (λ x. config_of (bit x)) (e.others (ie m) (ie-IsClicReg m hm) (ie_injective m n ne));
      }
