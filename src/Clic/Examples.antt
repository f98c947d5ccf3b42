-- ===== src/Clic/Examples.antt =====
-- The theorems on the CLIC at interrupt 22, Timer0Cmp, on plain memory.
use atalanta.Prelude.{◌≡◌, arith, if◌then◌else◌}
use atalanta.Machine.{ok}
use atalanta.Machine.Bank.{Words}
use atalanta.Machine.Reg.{RegLaws}
use atalanta.Machine.Memory.{Cells, memory, memory_words}
use atalanta.Machine.MemoryReg.{memory_reg, memory_reg-RegLaws}
use atalanta.Clic.{ip, ie, attr, ctl}
use atalanta.Clic.Intattr
use atalanta.Clic.Intattr.{supervisor, Trig, Polarity}
use atalanta.Clic.Intctl
use atalanta.Clic.Intie
use atalanta.Clic.Intip
use atalanta.Clic.Spec.{apply, set_level}
use atalanta.Clic.State.{IsClicReg, config, Configures}
use atalanta.Clic.Refinement.{run_op, run_op-refines}
use atalanta.Clic.Reads.{reads-config, ReadsMode, ReadsFlag, ip_byte, ie_byte}
use atalanta.Clic.{smclicconfig}
use atalanta.Clic.Smclicconfig.{set_mnlbits, set_nmbits}
use atalanta.Clic.Smclicconfig.Fields.{Divides, level_field, mode_field, smclicconfig-Divides}

-- Level 3, edge-triggered, vectored, enabled; supervisor mode, which is 0b01 in bits 22 and 23.
abbrev start : Cells
start _ = 0x03430100

abbrev words : Words memory IsClicReg
words = memory_words

abbrev laws : RegLaws words memory_reg
laws = memory_reg-RegLaws

run_op-refines_example :
    Configures words 22
      (apply (set_level 0x88) (config words 22 start))
      start
      (run_op memory_reg 22 (set_level 0x88) start)
run_op-refines_example =
    run_op-refines words memory_reg laws (set_level 0x88) 22 start (omega arith) (omega arith)

reads-config_example :
    (Intip.is_pending memory_reg (ip 22) start ≡ ok (config words 22 start).pending start)
    × (Intie.is_enabled memory_reg (ie 22) start ≡ ok (config words 22 start).enabled start)
    × (Intattr.shv memory_reg (attr 22) start ≡ ok (config words 22 start).shv start)
    × (Intctl.level memory_reg (ctl 22) start ≡ ok (config words 22 start).level start)
    × (Intattr.trig memory_reg (attr 22) start
        ≡ ok (if (config words 22 start).edge then Trig.edge else Trig.level) start)
    × (Intattr.polarity memory_reg (attr 22) start
        ≡ ok (if (config words 22 start).negative then Polarity.neg else Polarity.pos) start)
    × ReadsMode (config words 22 start).mode start (Intattr.mode memory_reg (attr 22) start)
    × ReadsFlag
        (ip_byte (words.peek (ie 22) start))
        start
        (Intip.is_pending memory_reg (ip 22) start)
    × ReadsFlag
        (ie_byte (words.peek (ie 22) start))
        start
        (Intie.is_enabled memory_reg (ie 22) start)
reads-config_example = reads-config words memory_reg laws 22 start (omega arith)

smclicconfig-Divides_example :
    Divides words memory_reg laws 8
      (mode_field words memory_reg laws start)
      start
      (set_mnlbits memory_reg smclicconfig 8 start)
    × Divides words memory_reg laws
        (level_field words memory_reg laws start)
        2
        start
        (set_nmbits memory_reg smclicconfig 2 start)
smclicconfig-Divides_example =
    smclicconfig-Divides words memory_reg laws 8 2 start (omega arith) (omega arith)
