-- ===== src/HelloRt/Clic/Refinement.antt =====
-- The older driver of examples/hello_rt/src/clic.rs against the specification of the CLIC.
use atalanta.Prelude.{
  ℕ, ◌+◌, ◌-◌, ◌^◌, ◌≤◌, ◌<◌, ◌≡◌, refl, ap, ◌∙◌, Bool, true, false, arith, bit, leb, ltb, ◌&&◌,
  if◌then◌else◌,
}
use mathlib.Core.Path.{fun_ext}
use atalanta.Machine.{Bus, M}
use atalanta.Machine.Bank.{Words}
use atalanta.Machine.Effect.{SetsBits}
use atalanta.Access.{modify_u32}
use atalanta.Access.Masks.{modify_u32-SetsBits}
use atalanta.Mmap.{clic_base_addr, clic_intreg_offset}
use atalanta.Clic.{ie}
use atalanta.Clic.Spec.{IntConfig, config_of}
use atalanta.Clic.State.{IsClicReg, ie-IsClicReg, ie_injective, config, Configures}
use atalanta.Clic.Refinement.{level_value}
use atalanta.HelloRt.Clic.{
  ClicTrig, level, edge, trig_bits, set_trig, enable_int, disable_int, pend_int, ack_int, set_level,
  enable_vectoring, disable_vectoring,
}

-- The operations of the older driver on one interrupt.
pub data IntOp : Type 0 where
  trigger : ClicTrig → IntOp
  enable disable pend ack vector unvector : IntOp
  prioritise : ℕ → IntOp

abbrev pub run_op : (b : Bus) → ℕ → IntOp → M b.State Unit
run_op b id (trigger t) = set_trig b id t
run_op b id enable = enable_int b id
run_op b id disable = disable_int b id
run_op b id pend = pend_int b id
run_op b id ack = ack_int b id
run_op b id vector = enable_vectoring b id
run_op b id unvector = disable_vectoring b id
run_op b id (prioritise l) = set_level b id l

-- The field of each operation: its lowest bit, its width and the value written.
abbrev field : IntOp → ℕ × ℕ × ℕ
field (trigger t) = (17, 2, trig_bits t)
field enable = (8, 1, 1)
field disable = (8, 1, 0)
field pend = (0, 1, 1)
field ack = (0, 1, 0)
field vector = (16, 1, 1)
field unvector = (16, 1, 0)
field (prioritise l) = (24, 8, l)

abbrev is_edge : ClicTrig → Bool
is_edge level = false
is_edge edge = true

-- What each operation does to the configuration. The trigger field is two bits wide, so choosing
-- a trigger also makes the polarity positive.
abbrev pub apply : IntOp → IntConfig → IntConfig
apply (trigger t) c = record c { edge = is_edge t; negative = false }
apply enable c = record c { enabled = true }
apply disable c = record c { enabled = false }
apply pend c = record c { pending = true }
apply ack c = record c { pending = false }
apply vector c = record c { shv = true }
apply unvector c = record c { shv = false }
apply (prioritise l) c = record c { level = l }

abbrev pub IsOp : IntOp → Type 0
IsOp (prioritise l) = l < 256
IsOp _ = Unit

-- The bits of a register after a field is written.
abbrev field_put : ℕ × ℕ × ℕ → (ℕ → ℕ) → ℕ → ℕ
field_put (p, k, v) f i = if leb p i && ltb i (p + k) then bit v (i - p) else f i

config_of-field_put :
    (op : IntOp) (f : ℕ → ℕ) → IsOp op → config_of (field_put (field op) f) ≡ apply op (config_of f)
config_of-field_put (trigger level) f h = refl
config_of-field_put (trigger edge) f h = refl
config_of-field_put enable f h = refl
config_of-field_put disable f h = refl
config_of-field_put pend f h = refl
config_of-field_put ack f h = refl
config_of-field_put vector f h = refl
config_of-field_put unvector f h = refl
config_of-field_put (prioritise l) f h =
    ap (λ v. record (config_of f) { level = v }) (level_value l h)

same_register : (id : ℕ) → clic_base_addr + clic_intreg_offset id ≡ ie id
unfolding ie
same_register id = omega arith

trig_bits-lt : (t : ClicTrig) → trig_bits t < 4
trig_bits-lt level = omega arith
trig_bits-lt edge = omega arith

module _ {b : Bus} (w : Words b IsClicReg) where
  -- A write of `v` to the `k` bits from `p` on, by the older driver.
  put_field :
      (p k v id : ℕ) (s : b.State)
      → id < 4096
      → p < 32
      → p + k ≤ 32
      → v < 2 ^ k
      → SetsBits w
          (ie id)
          (field_put (p, k, v) (bit (w.peek (ie id) s)))
          s
          (modify_u32 b (clic_base_addr + clic_intreg_offset id) v (2 ^ k - 1) p s)
  put_field p k v id s h hp hk hv =
      rw same_register (modify_u32-SetsBits w (ie id) s (ie-IsClicReg id h) v k p hp hk hv)

  run_op-SetsBits :
      (op : IntOp) (id : ℕ) (s : b.State)
      → id < 4096
      → IsOp op
      → SetsBits w (ie id) (field_put (field op) (bit (w.peek (ie id) s))) s (run_op b id op s)
  unfolding set_trig enable_int disable_int pend_int ack_int set_level enable_vectoring
      disable_vectoring
  run_op-SetsBits (trigger t) id s h valid =
      put_field 17 2 (trig_bits t) id s h (omega arith) (omega arith) (trig_bits-lt t)
  run_op-SetsBits enable id s h valid =
      put_field 8 1 1 id s h (omega arith) (omega arith) (omega arith)
  run_op-SetsBits disable id s h valid =
      put_field 8 1 0 id s h (omega arith) (omega arith) (omega arith)
  run_op-SetsBits pend id s h valid =
      put_field 0 1 1 id s h (omega arith) (omega arith) (omega arith)
  run_op-SetsBits ack id s h valid =
      put_field 0 1 0 id s h (omega arith) (omega arith) (omega arith)
  run_op-SetsBits vector id s h valid =
      put_field 16 1 1 id s h (omega arith) (omega arith) (omega arith)
  run_op-SetsBits unvector id s h valid =
      put_field 16 1 0 id s h (omega arith) (omega arith) (omega arith)
  run_op-SetsBits (prioritise l) id s h valid =
      put_field 24 8 l id s h (omega arith) (omega arith) valid

  -- On an interrupt below 4096, and with a level below 256, each operation of the older driver does to the configuration of its interrupt what its
  -- specification says, and leaves the configuration of every other interrupt as it was.
  pub old_op-refines :
      (op : IntOp) (id : ℕ) (s : b.State)
      → id < 4096
      → IsOp op
      → Configures w id (apply op (config w id s)) s (run_op b id op s)
  old_op-refines op id s h valid =
      let e = run_op-SetsBits op id s h valid in
      record {
        after = e.after;
        returns = e.returns;
        configured =
            ap config_of (fun_ext e.bits) ∙ config_of-field_put op (bit (w.peek (ie id) s)) valid;
        others = λ m hm ne.
            ap (λ x. config_of (bit x))
              (e.others (ie m) (ie-IsClicReg m hm) (ie_injective m id ne));
      }
