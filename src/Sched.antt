-- ===== src/Sched.antt =====
-- The scheduler: `schedule`, `try_to_wakeup` and `timerHandle` of kernel/kernel/irqHandle.c.
pub mod Valid
pub mod Steps
pub mod Refine
pub mod Wakeup
pub mod Timer
pub mod Fair
use oslab_nju.Prelude.{
  ℕ, zero, suc, Bool, true, false, List, [], ◌∷◌, ◌++◌, Run, ok, fault, spin, ◌>>=◌, ◌==◌,
  if◌then◌else◌, not,
}
use oslab_nju.Prelude.Word.{sub32}
use oslab_nju.Print.{num, printk}
use oslab_nju.Proc.{
  Ptr, null, idle, runnable_list, blocked_list, free_list, PState, runnable, running, blocked,
  sem_blocked, dead, Pcb, Pcbs, load, store,
}
use oslab_nju.Proc.Lists.{walk_fuel, list_add, list_delete, list_head}

-- `sem_t`.
pub record Sem : Type 0 where
  pub value : ℕ
  pub list : Ptr

-- The process table with what the scheduler reads and writes. `esp0` names the PCB at the end of
-- whose kernel stack `tss.esp0` points; `serial` is what has been sent to the serial port.
pub record Procs : Type 0 where
  pub pcb : Pcbs
  pub current : Ptr
  pub sems : ℕ → Sem
  pub p_num : ℕ
  pub esp0 : Ptr
  pub serial : List ℕ

unfoldable pub load_sem : (ℕ → Sem) → ℕ → Run Sem
load_sem sems a = if a == null then fault else ok (sems a)

-- `p->state = st`.
unfoldable pub set_state : Ptr → PState → Procs → Run Procs
set_state p st s = do
  c ← load s.pcb p
  ok (record s { pcb = store s.pcb p (record c { state = st }) })

unfoldable pub add_to : Ptr → Ptr → Procs → Run Procs
add_to h p s = do m ← list_add h p s.pcb; ok (record s { pcb = m })

unfoldable pub delete_from : Ptr → Ptr → Procs → Run Procs
delete_from h p s = do m ← list_delete h p s.pcb; ok (record s { pcb = m })

-- The current process goes to the list of its state.
unfoldable pub park : PState → Procs → Run Procs
park runnable s = ok s
park running s = do
  s ← set_state s.current runnable s
  if s.current == idle then ok s else add_to runnable_list s.current s
park dead s = add_to free_list s.current s
park blocked s = add_to blocked_list s.current s
park sem_blocked s = do
  c ← load s.pcb s.current
  sem ← load_sem s.sems c.psem
  add_to sem.list s.current s

-- The first runnable process becomes the current one.
unfoldable pub dispatch : Procs → Run Procs
dispatch s = do
  p ← list_head runnable_list s.pcb
  s ← delete_from runnable_list p s
  c ← load s.pcb p
  let c = record c { state = running; time_count = 10; sleep_time = 0 }
  ok (record s { pcb = store s.pcb p c; esp0 = p; current = p })

-- `current->timeCount = 10`.
unfoldable pub renew : Procs → Run Procs
renew s = do
  c ← load s.pcb s.current
  ok (record s { pcb = store s.pcb s.current (record c { time_count = 10 }) })

unfoldable pub run_idle : Procs → Run Procs
run_idle s = do s ← set_state idle running (record s { current = idle }); renew s

-- With no runnable process a running one goes on, and any other gives way to `idle`.
unfoldable pub stay : PState → Procs → Run Procs
stay running s = renew s
stay runnable s = ok s
stay st s = do s ← park st s; run_idle s

-- `printk("%d", current->pid)`.
unfoldable pub report : Procs → Run Procs
report s = do
  c ← load s.pcb s.current
  out ← printk (b'%' ∷ b'd' ∷ []) (num c.pid ∷ [])
  ok (record s { serial = s.serial ++ out })

unfoldable pub schedule : Procs → Run Procs
schedule s = do
  h ← load s.pcb runnable_list
  c ← load s.pcb s.current
  s ← if h.next == null then stay c.state s else (park c.state s >>= dispatch)
  report s

-- The time of a blocked process is up.
unfoldable pub wake : Ptr → Procs → Run Procs
wake p s = do s ← delete_from blocked_list p s; s ← set_state p runnable s; add_to runnable_list p s

-- One process of the blocked list: it is moved if its time is up.
unfoldable pub wake_one : Ptr → Procs → Run Procs
wake_one p s = do
  c ← load s.pcb p
  let t = sub32 c.sleep_time 1
  let s = record s { pcb = store s.pcb p (record c { sleep_time = t }) }
  if t == 0 then wake p s else ok s

-- `while(p!=NULL)`; the next process is read before the list changes.
unfoldable pub wake_from : ℕ → Ptr → Procs → Run Procs
wake_from zero p s = spin
wake_from (suc k) p s = elim (p == null) [
  | true ↦ ok s
  | false ↦ do c ← load s.pcb p; s ← wake_one p s; wake_from k c.next s
]

unfoldable pub try_to_wakeup : Procs → Run Procs
try_to_wakeup s = do h ← load s.pcb blocked_list; wake_from walk_fuel h.next s

-- `timerHandle`, for a trap frame that is the current one's; nothing happens in a nested interrupt.
unfoldable pub timer_handle : Bool → Procs → Run Procs
timer_handle true s = ok s
timer_handle false s = do
  c ← load s.pcb s.current
  let c = record c { time_count = sub32 c.time_count 1 }
  s ← try_to_wakeup (record s { pcb = store s.pcb s.current c })
  c ← load s.pcb s.current
  if c.time_count == 0 then schedule s else ok s
