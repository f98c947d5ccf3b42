-- ===== src/Macros.antt =====
-- The procedural macros of examples/atalanta-bsp/macros/src/.
pub mod Trampoline
pub mod NestedInterrupt
pub mod Accepts
mod Examples
