-- ===== src/Macros/Trampoline/Restores.antt =====
-- A nested trap gives the interrupted code its state back:
-- examples/atalanta-bsp/macros/src/trampoline.rs.
use Prim.Native.String.{String}
use atalanta.Prelude.{
  ℕ, ◌+◌, ◌-◌, ◌^◌, ◌≤◌, ◌<◌, ◌≡◌, refl, ◌∙◌, ◌≢◌, Bool, true, false, ◌||◌, arith, List, [], ◌∷◌,
  ◌++◌, ◌==◌,
}
use atalanta.Machine.Hart.{
  Env, Hart, at_symbol, at_address, exec, offset, put, Instr, addi, lw, csrw, csrci_mstatus_8, mret,
  mcause, mepc,
}
use atalanta.Macros.Trampoline.{
  sp, caller_save_eabi, cause_pos, epc_pos, load_trap, generate_nested_trap_entry,
  generate_continue_nested_trap_impl,
}

abbrev is_caller_save : ℕ → Bool
is_caller_save r = r == 1 || (r == 5 || (r == 10 || (r == 11 || (r == 12 || (r == 13 || r == 15)))))

-- What the calling convention of archi.rs, the EABI, promises of the handler at address `a`, nested
-- interrupts included: it keeps the registers that are not caller-saved, the memory from the stack
-- pointer on, and `mstatus.MPIE`.
pub record Behaves (env : Env) (a : ℕ) : Type 0 where
  pub keeps_x : (h : Hart) (r : ℕ) → is_caller_save r ≡ false → (env.call a h).x r ≡ h.x r
  pub keeps_mem : (h : Hart) (m : ℕ) → h.x sp ≤ m → (env.call a h).mem m ≡ h.mem m
  pub keeps_mpie : (h : Hart) → (env.call a h).mpie ≡ h.mpie

-- The frame at `f` holds the registers, the cause and the return address of `h`.
record Saved (f : ℕ) (m : ℕ → ℕ) (h : Hart) : Type 0 where
  slot0 : m f ≡ h.x 1
  slot1 : m (f + 4) ≡ h.x 5
  slot2 : m (f + 8) ≡ h.x 10
  slot3 : m (f + 12) ≡ h.x 11
  slot4 : m (f + 16) ≡ h.x 12
  slot5 : m (f + 20) ≡ h.x 13
  slot6 : m (f + 24) ≡ h.x 15
  cause : m (f + 28) ≡ h.mcause
  epc : m (f + 32) ≡ h.mepc

-- What holds when the handler is called.
record Entered (env : Env) (interrupt : String) (h g : Hart) : Type 0 where
  stack : g.x sp + 36 ≡ h.x sp
  saved : Saved (g.x sp) g.mem h
  above : (a : ℕ) → h.x sp ≤ a → g.mem a ≡ h.mem a
  kept : (r : ℕ) → is_caller_save r ≡ false → r ≢ sp → g.x r ≡ h.x r
  handler : g.x 10 ≡ env.symbol interrupt
  enabled : g.mie ≡ true
  previous : g.mpie ≡ h.mpie
  goes_on : g.next ≡ at_symbol "_continue_nested_trap"

module _ (env : Env) (interrupt : String) (h : Hart) (room : 36 ≤ h.x sp)
    (word : h.x sp < 2 ^ 32) where
  frame : offset (h.x sp) (2 ^ 32 - 36) ≡ h.x sp - 36
  frame = omega arith

  enter : Entered env interrupt h (exec env (generate_nested_trap_entry interrupt) h)
  unfolding exec generate_nested_trap_entry
  enter = record {
    stack = omega arith;
    saved = record {
      slot0 = ground arith;
      slot1 = ground arith;
      slot2 = ground arith;
      slot3 = ground arith;
      slot4 = ground arith;
      slot5 = ground arith;
      slot6 = ground arith;
      cause = ground arith;
      epc = ground arith;
    };
    above = λ a ha. ground arith;
    kept = λ r hr ne. ground arith;
    handler = refl;
    enabled = refl;
    previous = refl;
    goes_on = refl;
  }

-- What holds when the handler has returned.
record Returned (h g : Hart) : Type 0 where
  stack : g.x sp + 36 ≡ h.x sp
  saved : Saved (g.x sp) g.mem h
  above : (a : ℕ) → h.x sp ≤ a → g.mem a ≡ h.mem a
  kept : (r : ℕ) → is_caller_save r ≡ false → r ≢ sp → g.x r ≡ h.x r
  previous : g.mpie ≡ h.mpie

-- The interrupted code finds its registers, its memory from the stack pointer on and its trap
-- registers as they were; interrupts are enabled again if they were, and execution goes on where
-- it was interrupted.
pub record Restored (h t : Hart) : Type 0 where
  pub registers : (r : ℕ) → t.x r ≡ h.x r
  pub memory : (a : ℕ) → h.x sp ≤ a → t.mem a ≡ h.mem a
  pub cause : t.mcause ≡ h.mcause
  pub epc : t.mepc ≡ h.mepc
  pub interrupts : t.mie ≡ h.mpie
  pub goes_on : t.next ≡ at_address h.mepc

-- The continuation behind its call.
abbrev leave : List Instr
leave =
    csrci_mstatus_8
    ∷ lw 15 epc_pos sp
    ∷ lw 5 cause_pos sp
    ∷ csrw mepc 15
    ∷ csrw mcause 5
    ∷ (load_trap caller_save_eabi ++ (addi sp sp 36 ∷ mret ∷ []))

leave-Restored :
    (env : Env) (h g : Hart) → h.x sp < 2 ^ 32 → Returned h g → Restored h (exec env leave g)
unfolding exec load_trap
leave-Restored env h g word r = record {
  registers = λ i. ground (
    arith,
    r.kept i,
    r.saved.slot0,
    r.saved.slot1,
    r.saved.slot2,
    r.saved.slot3,
    r.saved.slot4,
    r.saved.slot5,
    r.saved.slot6,
  );
  memory = r.above;
  cause = ground (arith, r.saved.cause);
  epc = ground (arith, r.saved.epc);
  interrupts = r.previous;
  goes_on = ground (arith, r.saved.epc);
}

module _ {env : Env} {interrupt : String} {h g : Hart} where
  call-Returned :
      Entered env interrupt h g
      → env.symbol interrupt < 2 ^ 32
      → Behaves env (env.symbol interrupt)
      → Returned h (env.call (offset (g.x 10) 0) (record g { x = put 1 env.link g.x }))
  call-Returned e fits behaves =
      let target : offset (g.x 10) 0 ≡ env.symbol interrupt = omega (arith, e.handler) in
      let g' : Hart = record g { x = put 1 env.link g.x } in
      let stack = behaves.keeps_x g' sp refl in
      let keep = λ (k : ℕ) (hk : g.x sp ≤ g.x sp + k). behaves.keeps_mem g' (g.x sp + k) hk in
      rw target (record {
        stack = omega (arith, e.stack, stack);
        saved = rw stack (record {
          slot0 = behaves.keeps_mem g' (g.x sp) (omega arith) ∙ e.saved.slot0;
          slot1 = keep 4 (omega arith) ∙ e.saved.slot1;
          slot2 = keep 8 (omega arith) ∙ e.saved.slot2;
          slot3 = keep 12 (omega arith) ∙ e.saved.slot3;
          slot4 = keep 16 (omega arith) ∙ e.saved.slot4;
          slot5 = keep 20 (omega arith) ∙ e.saved.slot5;
          slot6 = keep 24 (omega arith) ∙ e.saved.slot6;
          cause = keep 28 (omega arith) ∙ e.saved.cause;
          epc = keep 32 (omega arith) ∙ e.saved.epc;
        });
        above = λ a ha. behaves.keeps_mem g' a (omega (arith, e.stack)) ∙ e.above a ha;
        kept = λ r hr ne. behaves.keeps_x g' r hr ∙ (ground (arith, e.kept r));
        previous = behaves.keeps_mpie g' ∙ e.previous;
      })

-- A nested trap, entry and continuation, around a handler that keeps to the calling convention of
-- archi.rs: with room for the frame below the stack pointer, the interrupted code gets its state
-- back.
pub nested_trap-Restored :
    (env : Env) (interrupt : String) (h : Hart)
    → 36 ≤ h.x sp
    → h.x sp < 2 ^ 32
    → env.symbol interrupt < 2 ^ 32
    → Behaves env (env.symbol interrupt)
    → ((exec env (generate_nested_trap_entry interrupt) h).next ≡ at_symbol "_continue_nested_trap")
      × Restored h (
          exec env generate_continue_nested_trap_impl
            (exec env (generate_nested_trap_entry interrupt) h))
unfolding exec generate_continue_nested_trap_impl
nested_trap-Restored env interrupt h room word fits behaves =
    let e = enter env interrupt h room word in
    (e.goes_on, leave-Restored env h _ word (call-Returned e fits behaves))
