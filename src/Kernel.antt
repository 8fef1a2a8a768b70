-- ===== src/Kernel.antt =====
-- The whole state of the kernel, and the system calls and interrupt handlers over it.
pub mod Files
pub mod Process
pub mod Trap
pub mod Boot
pub mod Runs
pub mod SavedFile
pub mod OpenFile
pub mod Terminal
pub mod FileTable
pub mod OpenPath
use oslab_nju.Prelude.{
  ℕ, zero, suc, ◌+◌, ◌*◌, Bool, true, false, List, [], ◌∷◌, Run, ok, fault, ◌>>=◌, ltb, ◌==◌,
  if◌then◌else◌, get_or, set, length,
}
use oslab_nju.Text.{Bytes}
use oslab_nju.Proc.{Pcb, load, store}
use oslab_nju.Sched.{Procs}
use oslab_nju.Fs.{Fs}
use oslab_nju.Console.Screen.{Screen}
use oslab_nju.Console.Keyboard.{Input}

-- `struct sysFile`.
pub record SysFile : Type 0 where
  pub inode_index : ℕ
  pub link_num : ℕ
  pub offset : ℕ

abbrev pub max_fp_num : ℕ
max_fp_num = 8

abbrev pub max_sys_file_num : ℕ
max_sys_file_num = 512

-- `mem` is the memory of the user programs by physical address. The semaphores that lie there are
-- kept apart, in `procs`. `disk` counts the calls of `writeBack` and holds the file system that the
-- last one wrote.
pub record Kernel : Type 0 where
  pub procs : Procs
  pub files : List SysFile
  pub sys_file_num : ℕ
  pub mem : Bytes
  pub fs : Fs
  pub screen : Screen
  pub input : Input
  pub disk : List Fs

-- `sysFileTable[i]`.
unfoldable pub load_file : ℕ → List SysFile → Run SysFile
load_file i [] = fault
load_file zero (x ∷ xs) = ok x
load_file (suc i) (x ∷ xs) = load_file i xs

-- `current`, and a new value for it.
unfoldable pub load_current : Kernel → Run Pcb
load_current k = load k.procs.pcb k.procs.current

unfoldable pub store_current : Pcb → Kernel → Kernel
store_current c k = record k {
  procs = record k.procs { pcb = store k.procs.pcb k.procs.current c };
}

-- `current->tf.eax = v`.
unfoldable pub return_value : ℕ → Kernel → Run Kernel
unfolding load_current store_current
return_value v k = do
  c ← load_current k
  ok (store_current (record c { tf = record c.tf { eax = v } }) k)

-- A call of the scheduler or of the semaphores.
unfoldable pub with_procs : (Procs → Run Procs) → Kernel → Run Kernel
with_procs f k = do p ← f k.procs; ok (record k { procs = p })
