-- ===== src/HelloRt/ClicNested/Orders.antt =====
-- The two orders in which the interrupts of clic_nested.rs of examples/hello_rt/examples/, which are
-- pending together, are taken.
use atalanta.Machine.{◌>>=◌}
use atalanta.Clic.Intip
use atalanta.Interrupt.{Interrupt}
use atalanta.HelloRt.NestedLock.Takes.{Takes}
