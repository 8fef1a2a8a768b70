-- ===== src/Tests/Procs.antt =====
-- Processes, lists and semaphores.
use oslab_nju.Prelude.{
  ℕ, ◌≡◌, ◌≢◌, ◌<◌, ◌+◌, refl, false, [], ◌∷◌, ◌++◌, Run, ok, abort, inl, inr, arith, replicate,
}
use oslab_nju.Prelude.Word.{sub32}
use oslab_nju.Print.{printk}
use oslab_nju.Proc.{
  Ptr, idle, runnable_list, blocked_list, free_list, dummysem, running, blocked, dead, sem_blocked,
  Pcbs, load,
}
use oslab_nju.Proc.Lists.{list_add, list_delete, list_last, list_before, list_head}
use oslab_nju.Proc.Queues.{Queues, enqueue, dequeue, Queued}
use oslab_nju.Proc.Queues.Moves.{Relinked, list_add_lem, list_delete_lem}
use oslab_nju.Sched.{
  Procs, schedule, try_to_wakeup, timer_handle, park, dispatch, stay, report, set_state, add_to,
  delete_from, renew, run_idle, wake_one, wake, wake_from,
}
use oslab_nju.Sched.Valid.{IsValid, next_turn}
use oslab_nju.Sched.Refine.{Scheduled, schedule_refines}
use oslab_nju.Sched.Wakeup.{TicksTo, wake_up, try_to_wakeup_lem}
use oslab_nju.Sched.Fair.{timer_ticks, ticks_fair}
use oslab_nju.Sched.Timer.{Ticks, timer_handle_refines}
use oslab_nju.Sem.{wait, post, sem_init_aux}
use oslab_nju.Sem.Starting.{Starts, sem_init_aux_lem}
use oslab_nju.Sem.Refine.{IsSem, wait-suc, wait-zero, post-cons, post-nil}
use oslab_nju.Kernel.{Kernel}
use oslab_nju.Kernel.Process.{sleep_aux, exit_aux, fork_aux}
use oslab_nju.Kernel.Process.Spec.{Leaves, sleep_aux_lem, exit_aux_lem, fork_aux-abort}
use oslab_nju.Kernel.Runs.{IsSound, start, then, ticks, Returns, tick-Returns, Runs-IsSound}
use oslab_nju.Console.Keyboard.{press_key, find_code}
use oslab_nju.Kernel.Files.{read_aux}
use oslab_nju.Kernel.Terminal.{Typed, read_aux_lem}
use oslab_nju.Prelude.Word.{add32}
use oslab_nju.Kernel.OpenFile.{Opened}
use oslab_nju.Kernel.SavedFile.{save_and_load, save_and_load_lem}
use oslab_nju.Kernel.Trap.{timer_interrupt}
use oslab_nju.Kernel.Boot.{init_pcb}
use oslab_nju.Kernel.Boot.Start.{all_free, init_pcb-IsValid}
use oslab_nju.Tests.World.{sleeping, waiting, sleeping-IsValid, waiting-IsValid, queues}

abbrev pub kernel : Procs → Kernel
kernel p = record {
  procs = p;
  files = [];
  sys_file_num = 0;
  mem = λ a. 0;
  fs = record {
    inode_map = replicate 32 0;
    inuse_inode_num = 0;
    inodes = λ i. record { kind = 0; size = 0; filename = []; block = λ a. 0 };
    path_offset = 0;
    top_dir = λ a. 0;
  };
  screen = record { cells = λ a. 0; cursor_x = 0; cursor_y = 0; ports = [] };
  input = record { buf = []; buf_in = 0; buf_out = 0 };
  disk = [];
}

abbrev sleepers : Queues
sleepers = queues blocked_list

abbrev waiters : Queues
waiters = queues dummysem

-- The running process is put behind the runnable one.
schedule_refines_example : Scheduled sleeping sleepers (schedule sleeping)
schedule_refines_example = schedule_refines sleeping-IsValid (λ e. absurd (ground arith))

ticks_fair_example :
    (after : Procs) × (timer_ticks 1 sleeping ≡ ok after)
    × (after.current ≡ 8)
    × ((after.pcb 8).state ≡ running)
ticks_fair_example = ticks_fair 1 0 [] 8 [] sleeping-IsValid refl refl (omega arith) refl refl

timer_handle_refines_example : Ticks sleeping sleepers (timer_handle false sleeping)
timer_handle_refines_example = timer_handle_refines sleeping-IsValid refl

try_to_wakeup_example :
    TicksTo sleeping
      (9 ∷ [])
      (wake_up (λ x. (sleeping.pcb x).sleep_time) sleepers)
      (try_to_wakeup sleeping)
try_to_wakeup_example = try_to_wakeup_lem (sleeping-IsValid).queued

list_add_example :
    (n : Pcbs) × (list_add free_list 11 sleeping.pcb ≡ ok n)
    × Queued n (enqueue free_list 11 sleepers)
    × Relinked sleeping.pcb n
list_add_example =
    list_add_lem (sleeping-IsValid).queued free_list 11 (omega arith) (omega arith) refl
      (λ h i. ground arith)

list_delete_example :
    (n : Pcbs) × (list_delete blocked_list 9 sleeping.pcb ≡ ok n)
    × Queued n (dequeue blocked_list 9 sleepers)
    × Relinked sleeping.pcb n
list_delete_example = list_delete_lem (sleeping-IsValid).queued blocked_list 9 (omega arith) refl

one_free : IsSem sleeping sleepers 100 1
one_free = record {
  address = omega arith;
  list = refl;
  value = refl;
  one_empty = inr refl;
  small = omega arith;
}

wait-suc_example :
    (after : Procs) × (wait 100 sleeping ≡ ok after)
    × IsSem after sleepers 100 0
    × IsValid after sleepers
    × (after.pcb ≡ sleeping.pcb)
    × (after.current ≡ sleeping.current)
    × ((b : ℕ) → b ≢ 100 → after.sems b ≡ sleeping.sems b)
    × (record after { sems = sleeping.sems } ≡ sleeping)
wait-suc_example = wait-suc sleeping-IsValid 100 0 one_free

post-nil_example :
    (after : Procs) × (post 100 sleeping ≡ ok after)
    × IsSem after sleepers 100 2
    × IsValid after sleepers
    × ((b : ℕ) → b ≢ 100 → after.sems b ≡ sleeping.sems b)
    × (record after { sems = sleeping.sems } ≡ sleeping)
post-nil_example = post-nil sleeping-IsValid 100 1 refl (omega arith) one_free

one_waits : IsSem waiting waiters 100 0
one_waits = record {
  address = omega arith;
  list = refl;
  value = refl;
  one_empty = inl refl;
  small = omega arith;
}

wait-zero_example :
    let t = next_turn sem_blocked waiting.current waiters in
    (after : Procs) × (wait 100 waiting ≡ ok after)
    × IsSem after t.queue 100 0
    × IsValid after t.queue
    × (after.current ≡ t.current)
    × (t.queue dummysem ≡ waiters dummysem ++ (waiting.current ∷ []))
wait-zero_example = wait-zero waiting-IsValid 100 (omega arith) refl one_waits

post-cons_example :
    let p = enqueue runnable_list 9 (dequeue dummysem 9 waiters) in
    (after : Procs) × (post 100 waiting ≡ ok after)
    × IsSem after p 100 0
    × IsValid after p
    × (after.current ≡ waiting.current)
    × (p dummysem ≡ [])
post-cons_example = post-cons waiting-IsValid 100 9 [] refl one_waits

sleep_aux_example :
    (l : Leaves (kernel sleeping) sleepers blocked (sleep_aux 5 (kernel sleeping)))
    × ((l.after.procs.pcb (kernel sleeping).procs.current).sleep_time ≡ 5)
sleep_aux_example = sleep_aux_lem 5 sleeping-IsValid (omega arith)

exit_aux_example :
    (l : Leaves (kernel sleeping) sleepers dead (exit_aux (kernel sleeping))) × (l.after.disk
      ≡ (kernel sleeping).fs ∷ (kernel sleeping).disk)
    × (l.after.procs.p_num ≡ sub32 (kernel sleeping).procs.p_num 1)
exit_aux_example = exit_aux_lem {k = kernel sleeping} sleeping-IsValid (omega arith)

-- After an exit of process 2 of 3 the next fork takes the PCB of process 3.
fork_aux-abort_example : fork_aux (kernel (record sleeping { p_num = 3 })) ≡ abort
fork_aux-abort_example =
    fork_aux-abort (kernel (record sleeping { p_num = 3 })) (sleeping-IsValid).queued refl

init_pcb-IsValid_example :
    (after : Kernel) × (init_pcb (kernel sleeping) ≡ ok after)
    × IsValid after.procs all_free
    × (after.procs.current ≡ idle)
    × (after.procs.p_num ≡ 1)
init_pcb-IsValid_example = init_pcb-IsValid (kernel sleeping) refl

-- A run of the code: the clock ticks, the sleeper's time is up, and process 2 is picked.
current_of : Run Procs → Ptr
current_of (ok s) = s.current
current_of _ = 0

tick_runs : current_of (timer_handle false sleeping) ≡ 8
unfolding current_of timer_handle try_to_wakeup wake_from wake_one wake schedule park dispatch stay
    report set_state add_to delete_from renew run_idle list_add list_delete list_last list_before
    list_head load printk
tick_runs = refl

-- The three descriptors of each process name the first entries of the table.
abbrev with_files : Kernel
with_files = record (kernel sleeping) {
  files = replicate 4 (record { inode_index = 1; link_num = 3; offset = 0 });
}

sound : IsSound (kernel sleeping)
sound = record { queues = sleepers; valid = sleeping-IsValid; is_running = refl }

-- The tick that hands the processor to process 2.
abbrev tick_over : Kernel
tick_over = (tick-Returns sound).0

Runs-IsSound_example :
    IsSound tick_over × Returns (timer_interrupt false tick_over.procs.current tick_over)
Runs-IsSound_example = Runs-IsSound sound (then start (ticks (tick-Returns sound).1))

-- The keys O, shift (no character) and K.
abbrev waits_for_keys : Kernel
waits_for_keys = record (kernel sleeping) {
  input = record { buf = replicate 1024 0; buf_in = 5; buf_out = 5 };
}

read_aux_example :
    Typed waits_for_keys
      (b'o' ∷ b'k' ∷ [])
      0x1000
      (read_aux 0 0x1000 2 (24 ∷ 42 ∷ 37 ∷ []) waits_for_keys)
unfolding press_key find_code
read_aux_example =
    read_aux_lem waits_for_keys 0x1000 (24 ∷ 42 ∷ 37 ∷ []) (omega arith) refl (omega arith)
      (omega arith) (omega arith) (omega arith)

with_files-Opened : Opened with_files 2 (record { inode_index = 1; link_num = 3; offset = 0 })
with_files-Opened = record {
  object = omega arith;
  in_process = omega arith;
  in_table = omega arith;
  names = refl;
  inode = omega arith;
}

save_and_load_example :
    (after : Kernel) × (save_and_load 2 0x1000 20 0 0x2000 with_files ≡ ok after)
    × ((j : ℕ) → j < 20 → after.mem (0x2000 + j) ≡ with_files.mem (add32 0x1000 j))
save_and_load_example =
    save_and_load_lem 0x1000 20 0x2000 with_files-Opened (omega arith) (omega arith) (omega arith)
      (omega arith)

sem_init_aux_example : Starts waiting waiters 200 3 (sem_init_aux 200 3 waiting)
sem_init_aux_example =
    sem_init_aux_lem waiting waiters 200 3 waiting-IsValid (λ e. absurd (omega (arith, e)))
      (omega arith)
