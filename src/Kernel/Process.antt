-- ===== src/Kernel/Process.antt =====
-- kernel/kernel/process.c: exit_aux, fork_aux and sleep_aux.
pub mod Spec
pub mod Fork
pub mod Share
use oslab_nju.Prelude.{
  ℕ, zero, suc, ◌+◌, ◌-◌, ◌*◌, Bool, true, false, not, ◌&&◌, List, [], ◌∷◌, ◌++◌, Run, ok, fault,
  ◌>>=◌, ltb, leb, ◌==◌, if◌then◌else◌, get_or, set, length,
}
use oslab_nju.Prelude.Word.{minus_one, add32, sub32}
use oslab_nju.Text.{Bytes}
use oslab_nju.Proc.{
  Ptr, idle, runnable_list, free_list, pcb_at, PState, runnable, running, blocked, dead, Pcb,
  TrapFrame, load, store,
}
use oslab_nju.Sched.{Procs, Sem, set_state, add_to, delete_from, schedule}
use oslab_nju.Sem.{child_data_offset}
use oslab_nju.Kernel.{
  Kernel, SysFile, load_file, load_current, store_current, return_value, with_procs,
}

-- `writeBack`: the file system in memory goes to the disk.
unfoldable pub write_back : Kernel → Kernel
write_back k = record k { disk = k.fs ∷ k.disk }

unfoldable pub exit_aux : Kernel → Run Kernel
exit_aux k = do
  k ← with_procs (set_state k.procs.current dead) k
  let k = record k { procs = record k.procs { p_num = sub32 k.procs.p_num 1 } }
  with_procs schedule (write_back k)

unfoldable pub sleep_aux : ℕ → Kernel → Run Kernel
sleep_aux time k = do
  c ← load_current k
  with_procs schedule (store_current (record c { state = blocked; sleep_time = time }) k)

-- The loop over the descriptors: each open one is one more link to its entry of the table.
unfoldable pub share_files : List ℕ → List SysFile → Run (List SysFile)
share_files [] files = ok files
share_files (fp ∷ fps) files = elim (fp == minus_one) [
  | true ↦ share_files fps files
  | false ↦ do
    f ← load_file fp files
    share_files fps (set files fp (record f { link_num = add32 f.link_num 1 }))
]

-- `KSEL` and `USEL`.
abbrev pub kernel_sel : ℕ → ℕ
kernel_sel desc = desc * 8

abbrev pub user_sel : ℕ → ℕ
user_sel desc = desc * 8 + 3

abbrev pub seg_ucode1 : ℕ
seg_ucode1 = 3

abbrev pub seg_udata1 : ℕ
seg_udata1 = 4

abbrev pub seg_ucode2 : ℕ
seg_ucode2 = 5

abbrev pub seg_udata2 : ℕ
seg_udata2 = 6

abbrev pub seg_kdisplay : ℕ
seg_kdisplay = 8

-- The child's registers are the parent's, but for the result of the call and the segments.
unfoldable pub child_frame : TrapFrame → TrapFrame
child_frame t = record t {
  eax = 0;
  cs = user_sel seg_ucode2;
  ds = user_sel seg_udata2;
  es = user_sel seg_udata2;
  gs = kernel_sel seg_kdisplay;
  ss = user_sel seg_udata2;
  fs = user_sel seg_udata2;
}

-- The fields that `fork_aux` writes; `next` is the list's, `old` what the PCB held before.
unfoldable pub child_of : ℕ → Pcb → Pcb → Pcb
child_of pid parent old = record old {
  fp_num = parent.fp_num;
  filepointer = parent.filepointer;
  pid = pid;
  state = runnable;
  time_count = 10;
  sleep_time = 0;
  psem = parent.psem;
  ppid = parent.pid;
  tf = child_frame parent.tf;
}

abbrev pub user_base : ℕ
user_base = 0x20_0000

abbrev pub child_base : ℕ
child_base = 0x40_0000

-- The loop that copies the 2 MB from 0x200000 on to those from 0x400000 on, and whatever lies there.
-- The first are the memory of process 1, the second that of every other one, whoever the father is.
abbrev pub copy_user {ℓ} : {A : Type ℓ} → (ℕ → A) → ℕ → A
copy_user mem a =
    if leb child_base a && ltb a (child_base + 0x20_0000) then mem (a - 0x20_0000) else mem a

unfoldable pub fork_aux : Kernel → Run Kernel
fork_aux k = do
  let n = k.procs.p_num
  k ← with_procs (delete_from free_list (pcb_at n)) k
  c ← load_current k
  files ← share_files c.filepointer k.files
  old ← load k.procs.pcb (pcb_at n)
  let k = record k {
    files = files;
    procs = record k.procs {
      pcb = store k.procs.pcb (pcb_at n) (child_of n c old);
      sems = copy_user k.procs.sems;
    };
    mem = copy_user k.mem;
  }
  k ← return_value n k
  k ← with_procs (add_to runnable_list (pcb_at n)) k
  ok (record k { procs = record k.procs { p_num = add32 n 1 } })
