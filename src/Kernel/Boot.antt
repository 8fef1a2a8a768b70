-- ===== src/Kernel/Boot.antt =====
-- The process table at the start: initPcb and preparePCB of kernel/kernel/kvm.c.
pub mod Start
pub mod First
use oslab_nju.Prelude.{
  ℕ, zero, suc, ◌+◌, Bool, true, false, not, List, [], ◌∷◌, Run, ok, fault, ◌>>=◌, ◌>>◌, assert,
  ◌==◌, if◌then◌else◌, replicate, map,
}
use oslab_nju.Prelude.Word.{minus_one, add32}
use oslab_nju.Proc.{
  Ptr, null, idle, runnable_list, blocked_list, free_list, pcb_at, runnable, running, dead, Pcb,
  Pcbs, load, store,
}
use oslab_nju.Proc.Lists.{list_add, list_head}
use oslab_nju.Sched.{Procs, add_to, delete_from}
use oslab_nju.Kernel.{Kernel, SysFile, max_fp_num}
use oslab_nju.Kernel.Process.{kernel_sel, user_sel, seg_ucode1, seg_udata1, seg_kdisplay}

-- `dummy.next = NULL`.
abbrev pub clear_head : Ptr → Pcbs → Pcbs
clear_head h m = store m h (record (m h) { next = null })

-- A PCB that no process has.
unfoldable pub free_pcb : Pcb → Pcb
free_pcb c = record c {
  pid = minus_one;
  ppid = minus_one;
  state = dead;
  sleep_time = 0;
  time_count = 0;
  psem = null;
  fp_num = 3;
  filepointer = replicate max_fp_num minus_one;
}

-- The loop over the `k` PCBs from index `i` on.
unfoldable pub free_from : ℕ → ℕ → Pcbs → Run Pcbs
free_from zero i m = ok m
free_from (suc k) i m = do
  m ← list_add free_list (pcb_at i) (store m (pcb_at i) (free_pcb (m (pcb_at i))))
  free_from k (i + 1) m

-- An entry of `sysFileTable` that no process has.
abbrev pub free_file : SysFile → SysFile
free_file f = record f { inode_index = minus_one }

-- The end of `initPcb`: `idle` is the current process.
abbrev pub start_idle : Pcbs → Kernel → Kernel
start_idle m k =
    let c = record (m idle) {
      pid = 0;
      state = running;
      time_count = 10;
      sleep_time = 0;
      psem = null;
    } in
    record k {
      sys_file_num = 0;
      files = map free_file k.files;
      procs = record k.procs { pcb = store m idle c; current = idle; p_num = 1 };
    }

abbrev pub clear_heads : Pcbs → Pcbs
clear_heads m = clear_head free_list (clear_head blocked_list (clear_head runnable_list m))

unfoldable pub init_pcb : Kernel → Run Kernel
init_pcb k = do m ← free_from 9 1 (clear_heads k.procs.pcb); ok (start_idle m k)

-- The first process.
unfoldable pub first_pcb : ℕ → ℕ → Pcb → Pcb
first_pcb n entry c = record c {
  pid = n;
  ppid = minus_one;
  state = runnable;
  time_count = 10;
  sleep_time = 0;
  tf = record c.tf {
    eip = entry;
    eflags = 0x202;
    esp = 0x30_0000;
    cs = user_sel seg_ucode1;
    ds = user_sel seg_udata1;
    es = user_sel seg_udata1;
    ss = user_sel seg_udata1;
    fs = user_sel seg_udata1;
    gs = kernel_sel seg_kdisplay;
  };
}

unfoldable pub prepare_pcb : ℕ → Procs → Run Procs
prepare_pcb entry s = do
  let p = pcb_at s.p_num
  s ← delete_from free_list p s
  c ← load s.pcb p
  s ← add_to runnable_list p (record s { pcb = store s.pcb p (first_pcb s.p_num entry c) })
  h ← list_head runnable_list s.pcb
  c ← load s.pcb h
  assert (c.pid == 1)
  ok (record s { p_num = add32 s.p_num 1 })
