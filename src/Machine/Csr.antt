-- ===== src/Machine/Csr.antt =====
-- Control and status registers: the `csrr`, `csrw` and `csrrw` instructions, a parameter of the
-- code that uses them.
use atalanta.Prelude.{ℕ}
use atalanta.Machine.{M, ok}

pub record Csrs : Type 1 where
  pub State : Type 0
  pub read : ℕ → State → ℕ
  pub write : ℕ → ℕ → State → State

module _ (c : Csrs) where
  abbrev pub csrr : ℕ → M c.State ℕ
  csrr n s = ok (c.read n s) s

  abbrev pub csrw : ℕ → ℕ → M c.State Unit
  csrw n v s = ok tt (c.write n v s)

  -- `csrrw` swaps: it returns the old value.
  abbrev pub csrrw : ℕ → ℕ → M c.State ℕ
  csrrw n v s = ok (c.read n s) (c.write n v s)
