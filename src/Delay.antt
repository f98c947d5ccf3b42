-- ===== src/Delay.antt =====
-- Clock rates and the busy wait of examples/atalanta-bsp/src/lib.rs. `rtl_tb` is the feature
-- rtl-tb, and `debug` says whether the build has debug assertions.
use atalanta.Prelude.{ℕ, zero, suc, ◌/◌, Bool, ◌≡◌, refl, ◌∙◌, if◌then◌else◌}
use atalanta.Machine.{M, Outcome, ok, pure, ◌>>◌}

abbrev pub cpu_freq : Bool → ℕ
cpu_freq rtl_tb = if rtl_tb then 100_000_000 else 30_000_000

abbrev pub nop_mult : Bool → ℕ
nop_mult debug = if debug then 60 / 12 else 60 / 13

abbrev pub nops_per_sec : Bool → Bool → ℕ
nops_per_sec rtl_tb debug = cpu_freq rtl_tb / nop_mult debug

-- The instruction `nop`: time passes for the devices as `wait` says.
abbrev pub nop : {S : Type 0} → (S → S) → M S Unit
nop wait s = ok tt (wait s)

unfoldable pub asm_delay : {S : Type 0} → (S → S) → ℕ → M S Unit
asm_delay wait zero = pure tt
asm_delay wait (suc t) = do nop wait; asm_delay wait t

-- Where time leaves `f` alone, a delay does.
pub record Waits {S X : Type 0} (f : S → X) (s : S) (r : Outcome S (Unit {0})) : Type 0 where
  pub after : S
  pub returns : r ≡ ok tt after
  pub same : f after ≡ f s

pub asm_delay-Waits :
    {S X : Type 0} (f : S → X) (wait : S → S)
    → ((s : S) → f (wait s) ≡ f s)
    → (t : ℕ) (s : S) → Waits f s (asm_delay wait t s)
unfolding asm_delay
asm_delay-Waits f wait quiet zero s = record { after = s; returns = refl; same = refl }
asm_delay-Waits f wait quiet (suc t) s =
    let rest = asm_delay-Waits f wait quiet t (wait s) in
    record { after = rest.after; returns = rest.returns; same = rest.same ∙ quiet s }
