-- ===== src/Tables/Registers.antt =====
-- The registers of the processor that the kernel loads: setGdt of kernel/include/x86/memory.h, saveIdt of
-- kernel/include/x86/cpu.h, and the end of initSeg and enterUserSpace of kernel/kernel/kvm.c.
use oslab_nju.Prelude.{
  ℕ, ◌+◌, ◌*◌, ◌/◌, ◌%◌, ◌^◌, ◌≤◌, ◌<◌, ◌≡◌, refl, List, [], ◌∷◌, Option, some, none, arith,
}
use oslab_nju.Prelude.Word.{sub32}
use oslab_nju.Proc.{TrapFrame, Pcb}
use oslab_nju.Kernel.Process.{kernel_sel, user_sel, seg_ucode1, seg_udata1, seg_kdisplay}
use oslab_nju.Kernel.Boot.{first_pcb}
use oslab_nju.Tables.Segments.{seg_kdata, seg_tss}

-- `data`, the three words of 16 bits that `lgdt` and `lidt` read.
unfoldable pub set_gdt : ℕ → ℕ → List ℕ
set_gdt gdt size = (sub32 size 1 % 2 ^ 16) ∷ (gdt % 2 ^ 16) ∷ (gdt / 2 ^ 16 % 2 ^ 16) ∷ []

unfoldable pub save_idt : ℕ → ℕ → List ℕ
save_idt addr size = (sub32 size 1 % 2 ^ 16) ∷ (addr % 2 ^ 16) ∷ (addr / 2 ^ 16 % 2 ^ 16) ∷ []

-- What the processor reads: the limit, which is the last offset, and the address.
abbrev pub IsTable : List ℕ → ℕ → ℕ → Type 0
IsTable (limit ∷ low ∷ high ∷ []) base size = (limit + 1 ≡ size) × (low + 2 ^ 16 * high ≡ base)
IsTable _ base size = ⊥

pub set_gdt_lem :
    (base size : ℕ)
    → base < 2 ^ 32
    → 0 < size
    → size ≤ 2 ^ 16
    → IsTable (set_gdt base size) base size × IsTable (save_idt base size) base size
unfolding set_gdt save_idt
set_gdt_lem base size h a b = ((omega arith, omega arith), (omega arith, omega arith))

-- The table registers, the selectors of the task and the local table, the data segments, and `tss.ss0`.
pub record Registers : Type 0 where
  pub gdtr : List ℕ
  pub task : ℕ
  pub local_table : ℕ
  pub ss0 : ℕ
  pub ds : ℕ
  pub es : ℕ
  pub fs : ℕ
  pub gs : ℕ
  pub ss : ℕ

-- `sizeof(gdt)`: nine descriptors of eight bytes.
abbrev pub gdt_size : ℕ
gdt_size = 72

-- The end of `initSeg`, with the address of `gdt`.
unfoldable pub load_registers : ℕ → Registers → Registers
load_registers gdt r = record r {
  gdtr = set_gdt gdt gdt_size;
  ss0 = kernel_sel seg_kdata;
  task = kernel_sel seg_tss;
  es = kernel_sel seg_kdata;
  ds = kernel_sel seg_kdata;
  ss = kernel_sel seg_kdata;
  fs = kernel_sel seg_kdata;
  gs = kernel_sel seg_kdisplay;
  local_table = 0;
}

-- `enterUserSpace` up to the `iret`: the stack, its top first, and the registers.
unfoldable pub enter_user_space : ℕ → List ℕ → Registers → List ℕ × Registers
enter_user_space entry stack r = (
  entry ∷ user_sel seg_ucode1 ∷ 0x202 ∷ 0x30_0000 ∷ user_sel seg_udata1 ∷ stack,
  record r {
    gs = kernel_sel seg_kdisplay;
    fs = user_sel seg_udata1;
    ds = user_sel seg_udata1;
    es = user_sel seg_udata1;
  },
)

-- What a program starts with.
pub record UserState : Type 0 where
  pub eip : ℕ
  pub cs : ℕ
  pub eflags : ℕ
  pub esp : ℕ
  pub ss : ℕ
  pub ds : ℕ
  pub es : ℕ
  pub fs : ℕ
  pub gs : ℕ

-- `iret` to another privilege level takes five words off the stack.
abbrev pub iret : List ℕ × Registers → Option UserState
iret (eip ∷ cs ∷ eflags ∷ esp ∷ ss ∷ stack, r) = some (record {
  eip = eip;
  cs = cs;
  eflags = eflags;
  esp = esp;
  ss = ss;
  ds = r.ds;
  es = r.es;
  fs = r.fs;
  gs = r.gs;
})
iret _ = none

abbrev pub user_state : TrapFrame → UserState
user_state t = record {
  eip = t.eip;
  cs = t.cs;
  eflags = t.eflags;
  esp = t.esp;
  ss = t.ss;
  ds = t.ds;
  es = t.es;
  fs = t.fs;
  gs = t.gs;
}

-- A program that `enterUserSpace` starts begins with the same registers as the one that `preparePCB`
-- has made ready for the scheduler.
pub enter_user_space-first_pcb :
    (n entry : ℕ) (stack : List ℕ) (r : Registers) (old : Pcb)
    → iret (enter_user_space entry stack r) ≡ some (user_state (first_pcb n entry old).tf)
unfolding enter_user_space first_pcb
enter_user_space-first_pcb n entry stack r old = refl
