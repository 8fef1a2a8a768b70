-- ===== src/Tables/Segments.antt =====
-- The segments of `initSeg` (kernel/kernel/kvm.c), and the memory that programs see through them.
use Prim.Native.Nat.{bit_or}
use oslab_nju.Prelude.{ℕ, ◌+◌, ◌*◌, ◌/◌, ◌%◌, ◌^◌, ◌<◌, ◌≡◌, ◌==◌, if◌then◌else◌, arith}
use oslab_nju.Prelude.Word.{add32}
use oslab_nju.Proc.{TrapFrame, Pcb}
use oslab_nju.Sem.{user_address}
use oslab_nju.Kernel.Process.{
  seg_ucode1, seg_udata1, seg_ucode2, seg_udata2, seg_kdisplay, child_frame,
}
use oslab_nju.Kernel.Boot.{first_pcb}
use oslab_nju.Tables.Gates.{dpl_kern, dpl_user, seg_kcode}

pub record SegDesc : Type 0 where
  pub lim_15_0 : ℕ
  pub base_15_0 : ℕ
  pub base_23_16 : ℕ
  pub kind : ℕ
  pub s : ℕ
  pub dpl : ℕ
  pub p : ℕ
  pub lim_19_16 : ℕ
  pub avl : ℕ
  pub rsv1 : ℕ
  pub db : ℕ
  pub g : ℕ
  pub base_31_24 : ℕ

-- `SEG` and `SEG16`; every member is cut to the bits that it has.
unfoldable pub seg : ℕ → ℕ → ℕ → ℕ → SegDesc
seg kind base lim dpl = record {
  lim_15_0 = lim / 2 ^ 12 % 2 ^ 16;
  base_15_0 = base % 2 ^ 16;
  base_23_16 = base / 2 ^ 16 % 2 ^ 8;
  kind = kind % 16;
  s = 1;
  dpl = dpl % 4;
  p = 1;
  lim_19_16 = lim / 2 ^ 28 % 16;
  avl = 0;
  rsv1 = 0;
  db = 1;
  g = 1;
  base_31_24 = base / 2 ^ 24 % 2 ^ 8;
}

unfoldable pub seg16 : ℕ → ℕ → ℕ → ℕ → SegDesc
seg16 kind base lim dpl = record {
  lim_15_0 = lim % 2 ^ 16;
  base_15_0 = base % 2 ^ 16;
  base_23_16 = base / 2 ^ 16 % 2 ^ 8;
  kind = kind % 16;
  s = 0;
  dpl = dpl % 4;
  p = 1;
  lim_19_16 = lim / 2 ^ 16 % 16;
  avl = 0;
  rsv1 = 0;
  db = 1;
  g = 0;
  base_31_24 = base / 2 ^ 24 % 2 ^ 8;
}

abbrev pub sta_x : ℕ
sta_x = 0x8

abbrev pub sta_w : ℕ
sta_w = 0x2

abbrev pub sta_r : ℕ
sta_r = 0x2

abbrev pub sts_t32a : ℕ
sts_t32a = 0x9

abbrev pub seg_kdata : ℕ
seg_kdata = 2

abbrev pub seg_tss : ℕ
seg_tss = 7

abbrev pub Segs : Type 0
Segs = ℕ → SegDesc

-- `gdt[i] = d`.
abbrev put : ℕ → SegDesc → Segs → Segs
put i d gdt x = if x == i then d else gdt x

-- The descriptors, with the address of `tss`, whose size is 104 bytes.
unfoldable pub init_gdt : ℕ → Segs → Segs
init_gdt tss gdt = put seg_kdisplay (seg sta_w 0xb8000 0xffff_ffff dpl_user) (
    put seg_tss (record (seg16 sts_t32a tss 103 dpl_kern) { s = 0 })
      (put seg_udata2 (seg sta_w 0x20_0000 0xffff_ffff dpl_user) (
        put seg_ucode2 (seg (bit_or sta_x sta_r) 0x20_0000 0xffff_ffff dpl_user) (
          put seg_udata1 (seg sta_w 0 0xffff_ffff dpl_user) (
            put seg_ucode1 (seg (bit_or sta_x sta_r) 0 0xffff_ffff dpl_user) (
              put seg_kdata (seg sta_w 0 0xffff_ffff dpl_kern)
                (put seg_kcode (seg (bit_or sta_x sta_r) 0 0xffff_ffff dpl_kern) gdt)))))))

-- What the processor makes of a descriptor, a selector, and an address in the selector's segment.
abbrev pub segment_base : SegDesc → ℕ
segment_base d = d.base_15_0 + 2 ^ 16 * d.base_23_16 + 2 ^ 24 * d.base_31_24

abbrev pub segment_limit : SegDesc → ℕ
segment_limit d =
    let lim = d.lim_15_0 + 2 ^ 16 * d.lim_19_16 in if d.g == 1 then 4096 * lim + 4095 else lim

abbrev pub linear : Segs → ℕ → ℕ → ℕ
linear gdt sel a = add32 (segment_base (gdt (sel / 8))) a

-- `SEG` loses nothing of the base, and of the limit only the part of a page.
pub seg_lem :
    (kind base lim dpl : ℕ)
    → base < 2 ^ 32
    → lim < 2 ^ 32
    → (segment_base (seg kind base lim dpl) ≡ base)
      × (segment_limit (seg kind base lim dpl) ≡ lim / 4096 * 4096 + 4095)
unfolding seg
seg_lem kind base lim dpl h b = (omega arith, omega arith)

-- The addresses that the kernel uses for the data of the first process, number 1, and of its child,
-- number 2, are those that the processes themselves reach through their data segments.
pub linear-user_address :
    (tss : ℕ) (gdt : Segs) (entry a : ℕ) (old : Pcb) (t : TrapFrame)
    → a < 2 ^ 32
    → (linear (init_gdt tss gdt) (first_pcb 1 entry old).tf.ds a ≡ user_address 1 a)
      × (linear (init_gdt tss gdt) (child_frame t).ds a ≡ user_address 2 a)
unfolding init_gdt seg first_pcb child_frame
linear-user_address tss gdt entry a old t h = (omega arith, omega arith)
