-- ===== src/HelloRt/NestedLock/Takes.antt =====
-- Runs of the lock programs of examples/hello_rt/examples/ that return with a value in LOCK, or that
-- wait for ever.
use atalanta.Prelude.{ℕ, zero, suc, ◌≡◌, refl, Bool, true, false, List, [], ◌∷◌, ◌++◌, ◌==◌}
use atalanta.Machine.{Bus, M, Outcome, ok, spin, pure, ◌>>=◌, ◌>>◌}
use atalanta.Machine.Statics.{lift, set_statics}
use atalanta.Mmap.{uart_base}
use atalanta.Console.{sprint, sprintln}
use atalanta.Console.Quiet.{IsReady, IsText, sprint-Prints, sprintln-Prints}
use atalanta.Uart.Device.{UartDevice}
use atalanta.HelloRt.NestedLock.{wait_while}

-- `k` rounds in which nothing interrupts.
abbrev pub quiet : {S : Type 0} → ℕ → List (M S (Unit {0}))
quiet zero = []
quiet (suc k) = pure tt ∷ quiet k

module _ {b : Bus} (u : UartDevice b uart_base) (fuel : ℕ) where
  -- A run returns, with `lock` in LOCK and a UART that can be printed on.
  pub record Leaves (lock : ℕ) (r : Outcome (b.State × ℕ) (Unit {0})) : Type 0 where
    pub after : b.State
    pub returns : r ≡ ok tt (after, lock)
    pub ready : IsReady u fuel after

  -- From a UART that can be printed on and LOCK at `lock`, the code leaves LOCK at `lock'`.
  pub record Takes (lock lock' : ℕ) (m : M (b.State × ℕ) (Unit {0})) : Type 0 where
    pub run : (s : b.State) → IsReady u fuel s → Leaves lock' (m (s, lock))

  pub seq-Takes :
      (l l' l'' : ℕ) (m n : M (b.State × ℕ) (Unit {0}))
      → Takes l l' m
      → Takes l' l'' n
      → Takes l l'' (m >> n)
  seq-Takes l l' l'' m n hm hn = record {
    run = λ s ready.
        let one = hm.run s ready in
        let two = hn.run one.after one.ready in
        record { after = two.after; returns = rw one.returns two.returns; ready = two.ready };
  }

  pub sprint-Takes : (l : ℕ) (text : List ℕ) → IsText text → Takes l l (lift (sprint b fuel text))
  sprint-Takes l text fits = record {
    run = λ s ready.
        let one = sprint-Prints u fuel text s ready fits in
        record { after = one.after; returns = rw one.returns refl; ready = one.ready };
  }

  pub sprintln-Takes :
      (l : ℕ) (text : List ℕ) → IsText text → Takes l l (lift (sprintln b fuel text))
  sprintln-Takes l text fits = record {
    run = λ s ready.
        let one = sprintln-Prints u fuel text s ready fits in
        record { after = one.after; returns = rw one.returns refl; ready = one.ready };
  }

  pub pure-Takes : (l : ℕ) → Takes l l (pure tt)
  pure-Takes l = record { run = λ s ready. record { after = s; returns = refl; ready = ready } }

  pub set-Takes : (l l' : ℕ) → Takes l l' (set_statics l')
  set-Takes l l' = record { run = λ s ready. record { after = s; returns = refl; ready = ready } }

  -- Code that returns a value, with `lock` in LOCK before and behind it.
  pub record Reads {A : Type 0} (lock : ℕ) (m : M (b.State × ℕ) A) : Type 0 where
    pub value : b.State → A
    pub after : b.State → b.State
    pub reads : (s : b.State) → IsReady u fuel s → m (s, lock) ≡ ok (value s) (after s, lock)
    pub still : (s : b.State) → IsReady u fuel s → IsReady u fuel (after s)

  pub bind-Takes :
      {A : Type 0} (l l' : ℕ) (m : M (b.State × ℕ) A) (k : A → M (b.State × ℕ) (Unit {0}))
      → Reads l m
      → ((a : A) → Takes l l' (k a))
      → Takes l l' (m >>= k)
  bind-Takes l l' m k hm hk = record {
    run = λ s ready.
        let rest = (hk (hm.value s)).run (hm.after s) (hm.still s ready) in
        rw (hm.reads s ready)
          (record { after = rest.after; returns = rest.returns; ready = rest.ready });
  }

  -- A wait ends when, after any number of quiet rounds, an interrupt changes LOCK to a value that
  -- its test refuses.
  pub wait-Takes :
      (test : ℕ → Bool) (l l' k : ℕ) (handler : M (b.State × ℕ) (Unit {0}))
      (later : List (M (b.State × ℕ) (Unit {0})))
      → test l ≡ true
      → test l' ≡ false
      → Takes l l' handler
      → Takes l l' (wait_while test (quiet k ++ (handler ∷ later)))
  unfolding wait_while
  wait-Takes test l l' zero handler later go stop h = record {
    run = λ s ready.
        let one = h.run s ready in
        record { after = one.after; returns = rw (one.returns, stop) refl; ready = one.ready };
  }
  wait-Takes test l l' (suc k) handler later go stop h = record {
    run = λ s ready. rw go ((wait-Takes test l l' k handler later go stop h).run s ready);
  }

  -- A wait whose test refuses LOCK from the start.
  pub wait_open-Takes :
      (later : List (M (b.State × ℕ) (Unit {0})))
      → Takes 1 1 (wait_while (λ lock. lock == 0) (pure tt ∷ later))
  unfolding wait_while
  wait_open-Takes later = record {
    run = λ s ready. record { after = s; returns = refl; ready = ready };
  }

  -- A run waits for ever, with `lock` in LOCK.
  pub record Stops (lock : ℕ) (r : Outcome (b.State × ℕ) (Unit {0})) : Type 0 where
    pub after : b.State
    pub loops : r ≡ spin (after, lock)

  -- From a UART that can be printed on and LOCK at `lock`, the code waits for ever, with `lock'` in
  -- LOCK.
  pub record Waits (lock lock' : ℕ) (m : M (b.State × ℕ) (Unit {0})) : Type 0 where
    pub waits : (s : b.State) → IsReady u fuel s → Stops lock' (m (s, lock))

  wait_at :
      (test : ℕ → Bool) (l k : ℕ) (s : b.State)
      → test l ≡ true
      → wait_while test (quiet k) (s, l) ≡ spin (s, l)
  unfolding wait_while
  wait_at test l zero s go = refl
  wait_at test l (suc k) s go = rw go (wait_at test l k s go)

  pub wait-Waits :
      (test : ℕ → Bool) (l k : ℕ) → test l ≡ true → Waits l l (wait_while test (quiet k))
  wait-Waits test l k go = record {
    waits = λ s ready. record { after = s; loops = wait_at test l k s go };
  }

  -- What stands behind code that returns, and before code that does not.
  pub behind-Waits :
      (l l' l'' : ℕ) (m n : M (b.State × ℕ) (Unit {0}))
      → Takes l l' m
      → Waits l' l'' n
      → Waits l l'' (m >> n)
  behind-Waits l l' l'' m n hm hn = record {
    waits = λ s ready.
        let one = hm.run s ready in
        let two = hn.waits one.after one.ready in
        record { after = two.after; loops = rw one.returns two.loops };
  }

  pub before-Waits :
      (l l' : ℕ) (m n : M (b.State × ℕ) (Unit {0})) → Waits l l' m → Waits l l' (m >> n)
  before-Waits l l' m n h = record {
    waits = λ s ready.
        let one = h.waits s ready in record { after = one.after; loops = rw one.loops refl };
  }
