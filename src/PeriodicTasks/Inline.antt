-- ===== src/PeriodicTasks/Inline.antt =====
-- The handlers in assembly of examples/periodic_tasks/src/main.rs, which the feature inline-isrs puts
-- in place of the others, behind hardware-accelerated context saving.
use Prim.Native.String.{String}
use atalanta.Prelude.{
  ℕ, zero, suc, ◌+◌, ◌%◌, ◌^◌, ◌<◌, ◌≡◌, ◌≢◌, refl, Bool, false, List, [], ◌∷◌, arith, ==_iff,
  eq_false_of_ne, u32,
}
use atalanta.Machine.{ok}
use atalanta.Machine.Hart.{
  Instr, addi, sw, lw, la, csrsi_mstatus_8, csrci_mstatus_8, mret, nop, Env, Hart, exec, offset,
  at_address,
}
use atalanta.Macros.Trampoline.{start_symbol}
use atalanta.PeriodicTasks.{
  Task, task0, task1, task2, task3, Statics, nop_cnt, timer0_cmp_handler, timer1_cmp_handler,
  timer2_cmp_handler, timer3_cmp_handler,
}
use atalanta.PeriodicTasks.Counts.{Event, cmp0, cmp1, cmp2, cmp3, handle, work-Counted}

-- `.rept n`, around a `nop`.
abbrev rept_nop : ℕ → List Instr → List Instr
rept_nop zero rest = rest
rept_nop (suc n) rest = nop ∷ rept_nop n rest

-- The label and the code.
unfoldable pub impl_inline_isr : Bool → String → String → Task → String × List Instr
impl_inline_isr rtl_tb irq task_count task = (
  start_symbol irq,
  csrsi_mstatus_8
      ∷ la 10 task_count
      ∷ lw 11 0 10
      ∷ addi 11 11 1
      ∷ sw 11 0 10
      ∷ rept_nop (nop_cnt rtl_tb task) (csrci_mstatus_8 ∷ mret ∷ []),
)

-- The four uses of the macro.
unfoldable pub inline_isr : Bool → Event → String × List Instr
unfolding impl_inline_isr
inline_isr rtl_tb cmp0 = impl_inline_isr rtl_tb "Timer0Cmp" "TASK0_COUNT" task0
inline_isr rtl_tb cmp1 = impl_inline_isr rtl_tb "Timer1Cmp" "TASK1_COUNT" task1
inline_isr rtl_tb cmp2 = impl_inline_isr rtl_tb "Timer2Cmp" "TASK2_COUNT" task2
inline_isr rtl_tb cmp3 = impl_inline_isr rtl_tb "Timer3Cmp" "TASK3_COUNT" task3

abbrev pub irq_name : Event → String
irq_name cmp0 = "Timer0Cmp"
irq_name cmp1 = "Timer1Cmp"
irq_name cmp2 = "Timer2Cmp"
irq_name cmp3 = "Timer3Cmp"

-- The count that a handler is about: its symbol and its value.
abbrev pub count_symbol : Event → String
count_symbol cmp0 = "TASK0_COUNT"
count_symbol cmp1 = "TASK1_COUNT"
count_symbol cmp2 = "TASK2_COUNT"
count_symbol cmp3 = "TASK3_COUNT"

abbrev pub count : Event → Statics → ℕ
count cmp0 v = v.task0_count
count cmp1 v = v.task1_count
count cmp2 v = v.task2_count
count cmp3 v = v.task3_count

-- A run of a handler in assembly from `h` to `t`: one word of the memory has become `n`, no register
-- but a0 and a1 has changed, and the interrupted code goes on, with interrupts enabled again if they
-- were.
pub record Stores (env : Env) (symbol : String) (n : ℕ) (h t : Hart) : Type 0 where
  pub stored : t.mem (env.symbol symbol) ≡ n
  pub elsewhere : (a : ℕ) → a ≢ env.symbol symbol → t.mem a ≡ h.mem a
  pub registers : (r : ℕ) → r ≢ 10 → r ≢ 11 → t.x r ≡ h.x r
  pub interrupts : t.mie ≡ h.mpie
  pub goes_on : t.next ≡ at_address h.mepc

exec-rept_nop :
    (env : Env) (n : ℕ) (rest : List Instr) (h : Hart)
    → exec env (rept_nop n rest) h ≡ exec env rest h
unfolding exec
exec-rept_nop env zero rest h = refl
exec-rept_nop env (suc n) rest h = exec-rept_nop env n rest h

isr-Stores :
    (env : Env) (symbol : String) (n : ℕ) (h : Hart)
    → env.symbol symbol < 2 ^ 32
    → Stores env symbol ((h.mem (env.symbol symbol) + 1) % 2 ^ 32) h (
        exec env
          (csrsi_mstatus_8
            ∷ la 10 symbol
            ∷ lw 11 0 10
            ∷ addi 11 11 1
            ∷ sw 11 0 10
            ∷ rept_nop n (csrci_mstatus_8 ∷ mret ∷ []))
          h)
unfolding exec
isr-Stores env symbol n h fits =
    let a : ℕ = env.symbol symbol in
    let at : offset a 0 ≡ a = omega arith in
    rw (exec-rept_nop env n (csrci_mstatus_8 ∷ mret ∷ []) _, at)
      (record {
        stored = rw ((==_iff a a).1 refl) refl;
        elsewhere = λ b ne. rw (eq_false_of_ne b a ne) refl;
        registers = λ r n10 n11. rw (eq_false_of_ne r 11 n11, eq_false_of_ne r 10 n10) refl;
        interrupts = refl;
        goes_on = refl;
      })

module _ {S : Type 0} (wait : S → S) (rtl_tb : Bool) (env : Env) where
  -- A handler in assembly does to the count in memory what the other handler of its interrupt does
  -- to the static.
  pub record CountsAs (e : Event) (s : S) (v : Statics) (h : Hart) : Type 0 where
    pub devices : S
    pub statics : Statics
    pub returns : handle wait rtl_tb false e (s, v) ≡ ok tt (devices, statics)
    pub label : (inline_isr rtl_tb e).0 ≡ start_symbol (irq_name e)
    pub stores :
        Stores env (count_symbol e) (count e statics) h (exec env (inline_isr rtl_tb e).1 h)

  -- With the count in memory as in the statics, the handler in assembly of each timer, which is
  -- behind the label of its interrupt, leaves the count there that the handler in Rust leaves in the
  -- static in a release build, with its overflow; it changes no other word, and no register but a0
  -- and a1; and the interrupted code goes on, with interrupts enabled again if they were.
  pub inline_isr-CountsAs :
      (e : Event) (s : S) (v : Statics) (h : Hart)
      → env.symbol (count_symbol e) < 2 ^ 32
      → h.mem (env.symbol (count_symbol e)) ≡ count e v
      → CountsAs e s v h
  unfolding inline_isr timer0_cmp_handler timer1_cmp_handler timer2_cmp_handler timer3_cmp_handler
  inline_isr-CountsAs cmp0 s v h fits same =
      let v' : Statics = record v { task0_count = u32 (v.task0_count + 1) } in
      let worked = work-Counted wait rtl_tb false (nop_cnt rtl_tb task0) s v' in
      record {
        devices = worked.devices;
        statics = v';
        returns = worked.returns;
        label = refl;
        stores = rw (← same) (isr-Stores env "TASK0_COUNT" (nop_cnt rtl_tb task0) h fits);
      }
  inline_isr-CountsAs cmp1 s v h fits same =
      let v' : Statics = record v { task1_count = u32 (v.task1_count + 1) } in
      let worked = work-Counted wait rtl_tb false (nop_cnt rtl_tb task1) s v' in
      record {
        devices = worked.devices;
        statics = v';
        returns = worked.returns;
        label = refl;
        stores = rw (← same) (isr-Stores env "TASK1_COUNT" (nop_cnt rtl_tb task1) h fits);
      }
  inline_isr-CountsAs cmp2 s v h fits same =
      let v' : Statics = record v { task2_count = u32 (v.task2_count + 1) } in
      let worked = work-Counted wait rtl_tb false (nop_cnt rtl_tb task2) s v' in
      record {
        devices = worked.devices;
        statics = v';
        returns = worked.returns;
        label = refl;
        stores = rw (← same) (isr-Stores env "TASK2_COUNT" (nop_cnt rtl_tb task2) h fits);
      }
  inline_isr-CountsAs cmp3 s v h fits same =
      let v' : Statics = record v { task3_count = u32 (v.task3_count + 1) } in
      let worked = work-Counted wait rtl_tb false (nop_cnt rtl_tb task3) s v' in
      record {
        devices = worked.devices;
        statics = v';
        returns = worked.returns;
        label = refl;
        stores = rw (← same) (isr-Stores env "TASK3_COUNT" (nop_cnt rtl_tb task3) h fits);
      }
