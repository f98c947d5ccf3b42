-- ===== src/Machine.antt =====
-- The machine that the drivers run on. A driver is a state transformer that returns, panics, or
-- spins for as long as its fuel lasts. The peripherals are behind a bus, a parameter of every
-- driver: what a volatile read gives, what it does to the device, and what a write does.
pub mod Bank
pub mod Memory
pub mod Effect
pub mod Reg
pub mod Csr
pub mod Hart
pub mod Logged
pub mod Keeps
pub mod Ensures
pub mod Statics
pub mod MemoryReg
use atalanta.Prelude.{ℕ, Bool, true, false, ◌≡◌, refl}

-- `panic` is a Rust panic. `spin` means that a polling loop used up its fuel.
pub data Outcome (S A : Type 0) : Type 0 where
  ok : A → S → Outcome S A
  panic : S → Outcome S A
  spin : S → Outcome S A

abbrev pub M : Type 0 → Type 0 → Type 0
M S A = S → Outcome S A

module _ {S A : Type 0} where
  abbrev pub pure : A → M S A
  pure a s = ok a s

  abbrev pub panics : M S A
  panics s = panic s

  abbrev pub spins : M S A
  spins s = spin s

module _ {S A B : Type 0} where
  abbrev pub continue : Outcome S A → (A → M S B) → Outcome S B
  continue (ok a s) k = k a s
  continue (panic s) k = panic s
  continue (spin s) k = spin s

  infixl 5 ◌>>=◌ ◌>>◌
  abbrev pub ◌>>=◌ : M S A → (A → M S B) → M S B
  m >>= k = λ s. continue (m s) k

  abbrev pub ◌>>◌ : M S A → M S B → M S B
  m >> n = m >>= λ _. n

-- `assert!(test)`.
abbrev pub assert : {S : Type 0} → Bool → M S (Unit {0})
assert true s = ok tt s
assert false s = panic s

pub assert_yes :
    {S B : Type 0} (test : Bool) (k : M S B) (s : S) → test ≡ true → (assert test >> k) s ≡ k s
assert_yes true k s e = refl
assert_yes false k s e = cc

pub assert_no :
    {S B : Type 0} (test : Bool) (k : M S B) (s : S) → test ≡ false → (assert test >> k) s ≡ panic s
assert_no false k s e = refl
assert_no true k s e = cc

-- Volatile accesses of 8 and 32 bits. A read may change the device too.
pub record Bus : Type 1 where
  pub State : Type 0
  pub value8 : ℕ → State → ℕ
  pub after_read8 : ℕ → State → State
  pub store8 : ℕ → ℕ → State → State
  pub value32 : ℕ → State → ℕ
  pub after_read32 : ℕ → State → State
  pub store32 : ℕ → ℕ → State → State

-- `ptr::read_volatile` and `ptr::write_volatile`, at `u8` and at `u32`.
module _ (b : Bus) where
  abbrev pub load8 : ℕ → M b.State ℕ
  load8 a s = ok (b.value8 a s) (b.after_read8 a s)

  abbrev pub load32 : ℕ → M b.State ℕ
  load32 a s = ok (b.value32 a s) (b.after_read32 a s)

  abbrev pub save8 : ℕ → ℕ → M b.State Unit
  save8 a v s = ok tt (b.store8 a v s)

  abbrev pub save32 : ℕ → ℕ → M b.State Unit
  save32 a v s = ok tt (b.store32 a v s)
