-- ===== src/Sem.antt =====
-- Semaphores: kernel/kernel/sem.c.
pub mod Refine
pub mod Starting
use oslab_nju.Prelude.{
  ℕ, zero, suc, ◌+◌, Bool, true, false, List, [], ◌∷◌, ◌++◌, Run, ok, fault, ◌>>=◌, ◌==◌,
  if◌then◌else◌, not,
}
use oslab_nju.Prelude.Word.{add32, sub32, is_neg}
use oslab_nju.Proc.{
  Ptr, null, runnable_list, dummysem, runnable, sem_blocked, Pcb, Pcbs, load, store,
}
use oslab_nju.Proc.Lists.{list_head}
use oslab_nju.Sched.{Procs, Sem, load_sem, set_state, add_to, delete_from, schedule}

-- `*sem = x`.
abbrev pub store_sem : (ℕ → Sem) → ℕ → Sem → ℕ → Sem
store_sem sems a x b = if b == a then x else sems b

-- `current->tf.eax = v`.
unfoldable pub set_eax : ℕ → Procs → Run Procs
set_eax v s = do
  c ← load s.pcb s.current
  ok (record s { pcb = store s.pcb s.current (record c { tf = record c.tf { eax = v } }) })

-- `P`.
unfoldable pub wait : ℕ → Procs → Run Procs
wait sem s = do
  x ← load_sem s.sems sem
  let v = sub32 x.value 1
  let s = record s { sems = store_sem s.sems sem (record x { value = v }) }
  if is_neg v then (set_state s.current sem_blocked s >>= schedule) else ok s

-- The process that has waited longest becomes runnable.
unfoldable pub release : Ptr → Procs → Run Procs
release list s = do
  p ← list_head list s.pcb
  s ← delete_from list p s
  s ← set_state p runnable s
  add_to runnable_list p s

-- `V`.
unfoldable pub post : ℕ → Procs → Run Procs
post sem s = do
  x ← load_sem s.sems sem
  s ← if is_neg x.value then release x.list s else ok s
  x ← load_sem s.sems sem
  ok (record s { sems = store_sem s.sems sem (record x { value = add32 x.value 1 }) })

abbrev pub child_data_offset : ℕ
child_data_offset = 0x20_0000

-- An address in the user's segment: that of the child, process 2, lies `child_data_offset` higher.
abbrev pub user_address : ℕ → ℕ → ℕ
user_address pid a = if pid == 2 then add32 a child_data_offset else a

unfoldable pub sem_init_aux : ℕ → ℕ → Procs → Run Procs
sem_init_aux sem value s = do
  c ← load s.pcb s.current
  let a = user_address c.pid sem
  let m = store s.pcb s.current (record c { psem = a })
  x ← load_sem s.sems a
  d ← load m dummysem
  let s = record s {
    pcb = store m dummysem (record d { next = null });
    sems = store_sem s.sems a (record x { value = value; list = dummysem });
  }
  set_eax 0 s

unfoldable pub sem_destroy_aux : ℕ → Procs → Run Procs
sem_destroy_aux sem s = do
  s ← set_eax 0 s
  c ← load s.pcb s.current
  ok (record s { pcb = store s.pcb s.current (record c { psem = null }) })

unfoldable pub sem_wait_aux : ℕ → Procs → Run Procs
sem_wait_aux sem s = do s ← set_eax 0 s; wait sem s

unfoldable pub sem_post_aux : ℕ → Procs → Run Procs
sem_post_aux sem s = do s ← set_eax 0 s; post sem s
