-- ===== src/Tests/Machine.antt =====
-- The tables of the processor.
use oslab_nju.Prelude.{◌+◌, ◌*◌, ◌%◌}
use oslab_nju.Tables.Gates.{Gates, Entries, set_intr}
use oslab_nju.Tables.Segments.{Segs, seg}

abbrev pub entries : Entries
entries = record {
  irq_empty = 0x10_0100;
  irq_g_protect_fault = 0x10_0110;
  irq_syscall = 0x10_0120;
  irq0 = 0x10_0130;
  irq1 = 0x10_0140;
  vec = λ n. 0x10_0000 + 8 * (n % 16);
}

abbrev pub gates : Gates
gates n = set_intr 0 0 0

abbrev pub segs : Segs
segs n = seg 0 0 0 0
