-- ===== src/Proc.antt =====
-- The process table: kernel/include/x86/memory.h (TrapFrame, PCB, p_state, the list heads), and
-- below it the process lists of kernel/kernel/list.c.
pub mod Lists
pub mod Chain
pub mod Queues
use oslab_nju.Prelude.{ℕ, ◌+◌, ◌<◌, ◌≤◌, Bool, List, Run, ok, fault, ◌&&◌, ltb, ◌==◌, if◌then◌else◌}

-- A `PCB *`. NULL is 0, `&idle` is 1, the list heads are 2 to 5, and `&pcb[i]` is 6 + i.
abbrev pub Ptr : Type 0
Ptr = ℕ

abbrev pub null : Ptr
null = 0

abbrev pub idle : Ptr
idle = 1

-- `initPcb` points `runnable_list` at `dummy1`, `blocked_list` at `dummy2` and `free_list` at
-- `dummy3`, and nothing changes them; `sem_init_aux` gives each semaphore `dummysem`.
abbrev pub runnable_list : Ptr
runnable_list = 2

abbrev pub blocked_list : Ptr
blocked_list = 3

abbrev pub free_list : Ptr
free_list = 4

abbrev pub dummysem : Ptr
dummysem = 5

abbrev pub max_pcb_num : ℕ
max_pcb_num = 10

abbrev pub pcb_at : ℕ → Ptr
pcb_at i = 6 + i

-- `enum p_state`.
pub data PState : Type 0 where
  runnable running blocked sem_blocked dead : PState

-- `struct TrapFrame`.
pub record TrapFrame : Type 0 where
  pub gs : ℕ
  pub fs : ℕ
  pub es : ℕ
  pub ds : ℕ
  pub edi : ℕ
  pub esi : ℕ
  pub ebp : ℕ
  pub xxx : ℕ
  pub ebx : ℕ
  pub edx : ℕ
  pub ecx : ℕ
  pub eax : ℕ
  pub irq : ℕ
  pub error : ℕ
  pub eip : ℕ
  pub cs : ℕ
  pub eflags : ℕ
  pub esp : ℕ
  pub ss : ℕ

-- `struct ProcessControlBlock`, less the kernel stack, which only the processor and the compiler's
-- code write. `psem` is an address of a semaphore, 0 for NULL.
pub record Pcb : Type 0 where
  pub tf : TrapFrame
  pub state : PState
  pub time_count : ℕ
  pub sleep_time : ℕ
  pub pid : ℕ
  pub ppid : ℕ
  pub fp_num : ℕ
  pub filepointer : List ℕ
  pub psem : ℕ
  pub next : Ptr

abbrev pub Pcbs : Type 0
Pcbs = Ptr → Pcb

abbrev pub is_object : Ptr → Bool
is_object p = ltb 0 p && ltb p 16

abbrev pub IsObject : Ptr → Type 0
IsObject p = (0 < p) × (p < 16)

-- `*p`.
unfoldable pub load : Pcbs → Ptr → Run Pcb
load m p = if is_object p then ok (m p) else fault

-- `*p = c`, for a `p` that has been loaded.
abbrev pub store : Pcbs → Ptr → Pcb → Pcbs
store m p c q = if q == p then c else m q
