-- ===== src/Machine/Logged.antt =====
-- A bus that keeps the state after each write, latest first: for theorems on what a device sees
-- while a driver runs.
use atalanta.Prelude.{List, ◌∷◌}
use atalanta.Machine.{Bus}

abbrev pub logged : Bus → Bus
logged b = record {
  State = b.State × List b.State;
  value8 = λ a (s, log). b.value8 a s;
  after_read8 = λ a (s, log). (b.after_read8 a s, log);
  store8 = λ a v (s, log). (b.store8 a v s, b.store8 a v s ∷ log);
  value32 = λ a (s, log). b.value32 a s;
  after_read32 = λ a (s, log). (b.after_read32 a s, log);
  store32 = λ a v (s, log). (b.store32 a v s, b.store32 a v s ∷ log);
}
