-- ===== src/Kernel/Process/Spec.antt =====
-- What `sleep_aux`, `exit_aux` and `fork_aux` do to the processes.
use oslab_nju.Prelude.{
  ℕ, ◌≡◌, ◌≢◌, refl, sym, ap, ◌∙◌, true, false, [], ◌∷◌, ◌++◌, Run, ok, abort, has, has-append,
  arith,
}
use oslab_nju.Prelude.Word.{sub32}
use oslab_nju.Proc.{
  idle, runnable_list, free_list, pcb_at, PState, runnable, running, blocked, sem_blocked, dead,
  store,
}
use oslab_nju.Proc.Chain.{load-ok}
use oslab_nju.Proc.Queues.{Queues, IsHead, home, Queued, Queued-store}
use oslab_nju.Proc.Queues.Moves.{list_delete-absent}
use oslab_nju.Sched.{Procs, delete_from, schedule}
use oslab_nju.Sched.Valid.{IsValid, next_turn, turn-home, home-injective}
use oslab_nju.Sched.Steps.{object, not_head, set_state_lem}
use oslab_nju.Sched.Refine.{Scheduled, schedule_refines}
use oslab_nju.Kernel.{Kernel, load_current, store_current, with_procs}
use oslab_nju.Kernel.Process.{sleep_aux, exit_aux, write_back, fork_aux}

-- The current process with another state and sleeping time.
abbrev restated : PState → ℕ → Procs → Procs
restated st time s = record s {
  pcb = store s.pcb s.current (record (s.pcb s.current) { state = st; sleep_time = time });
}

restated-IsValid :
    (st : PState) (time : ℕ) {s : Procs} {q : Queues}
    → IsValid s q
    → s.current ≢ idle
    → st ≢ runnable
    → IsValid (restated st time s) q
restated-IsValid st time {s} {q} v ne nr = record {
  queued =
      Queued-store v.queued s.current (record (s.pcb s.current) { state = st; sleep_time = time })
        (not_head v) v.current_absent;
  current_absent = v.current_absent;
  current_object = v.current_object;
  current_state = λ e. nr (ground arith);
  idle_runs = λ e. absurd (ne e);
}

-- The calling process has left the processor in the state `st` and is the last one of that state's
-- list, and the next runnable process, or `idle`, runs.
pub record Leaves (k : Kernel) (q : Queues) (st : PState) (r : Run Kernel) : Type 0 where
  pub after : Kernel
  pub runs : r ≡ ok after
  pub valid : IsValid after.procs (next_turn st k.procs.current q).queue
  pub current : after.procs.current ≡ (next_turn st k.procs.current q).current
  pub queued_last :
      (next_turn st k.procs.current q).queue (home st) ≡ q (home st) ++ (k.procs.current ∷ [])
  pub still : (after.procs.pcb k.procs.current).state ≡ st
  pub is_running : (after.procs.pcb after.procs.current).state ≡ running

-- `schedule` called on a process that has just been given such a state.
schedule-Leaves :
    (s : Procs) (st : PState) {q : Queues}
    → IsValid s q
    → (s.pcb s.current).state ≡ st
    → st ≢ running
    → st ≢ runnable
    → st ≢ sem_blocked
    → IsHead (home st)
    → (after : Procs) × (schedule s ≡ ok after)
      × IsValid after (next_turn st s.current q).queue
      × (after.current ≡ (next_turn st s.current q).current)
      × ((next_turn st s.current q).queue (home st) ≡ q (home st) ++ (s.current ∷ []))
      × ((after.pcb s.current).state ≡ st)
      × ((after.pcb after.current).state ≡ running)
      × (after.p_num ≡ s.p_num)
      × ((after.pcb s.current).sleep_time ≡ (s.pcb s.current).sleep_time)
schedule-Leaves s st {q} v e nr nu ns i =
    let valid : IsValid r.after (next_turn st s.current q).queue = rw e at r.valid in
    let still : (r.after.pcb s.current).state ≡ st =
      home-injective _ _ (valid.queued.member (home st) s.current i (rw end in_list)).1 in
    (
      r.after,
      r.runs,
      valid,
      rw e at r.current,
      end,
      still,
      r.is_running,
      r.rest.1,
      r.times s.current (λ h. nr (sym still ∙ ap (λ x. (r.after.pcb x).state) h ∙ r.is_running)),
    )
  where
    r : Scheduled s q (schedule s)
    r = schedule_refines v (λ f. absurd (ns (sym e ∙ f)))

    end : (next_turn st s.current q).queue (home st) ≡ q (home st) ++ (s.current ∷ [])
    end = turn-home (q runnable_list) st s.current q nr nu

    in_list : has s.current (q (home st) ++ (s.current ∷ [])) ≡ true
    in_list = ground (arith, has-append s.current (q (home st)) (s.current ∷ []))

-- `sleep_aux`, called by any process but `idle` with well-formed lists, always returns with such
-- lists: the caller is the last of the blocked processes, marked blocked, with the `time` it asked for
-- as its time to sleep, and the processor goes to the next one by round robin.
pub sleep_aux_lem :
    {k : Kernel} {q : Queues} (time : ℕ)
    → IsValid k.procs q
    → k.procs.current ≢ idle
    → (l : Leaves k q blocked (sleep_aux time k)) × ((l.after.procs.pcb k.procs.current).sleep_time
        ≡ time)
unfolding sleep_aux load_current store_current with_procs
sleep_aux_lem {k} {q} time v ne =
    let (after, runs, valid, current, end, still, is_running, _, slept) =
      schedule-Leaves (restated blocked time k.procs) blocked
        (restated-IsValid blocked time v ne (λ e. cc)) (ground arith) (λ e. cc) (λ e. cc) (λ e. cc)
        (omega arith) in
    (
      record {
        after = record k { procs = after };
        runs = rw (load-ok k.procs.pcb k.procs.current (object v), runs) refl;
        valid = valid;
        current = current;
        queued_last = end;
        still = still;
        is_running = is_running;
      },
      slept ∙ ground arith,
    )

-- The process `k` with the current one marked dead, one process less, and the disk written.
abbrev dying : Kernel → Procs
dying k =
    let s = k.procs in
    record s {
      pcb = store s.pcb s.current (record (s.pcb s.current) { state = dead });
      p_num = sub32 s.p_num 1;
    }

-- `exit_aux`, called by any process but `idle` with well-formed lists, always returns with such
-- lists: the file system is written to the disk, the caller is the last of the free PCBs, marked dead, there is one process less, and the
-- processor goes to the next one by round robin.
pub exit_aux_lem :
    {k : Kernel} {q : Queues}
    → IsValid k.procs q
    → k.procs.current ≢ idle
    → (l : Leaves k q dead (exit_aux k)) × (l.after.disk ≡ k.fs ∷ k.disk)
      × (l.after.procs.p_num ≡ sub32 k.procs.p_num 1)
unfolding exit_aux with_procs write_back
exit_aux_lem {k} {q} v ne =
    let (after, runs, valid, current, end, still, is_running, pn, _) =
      schedule-Leaves (dying k) dead dying_valid (ground arith) (λ e. cc) (λ e. cc) (λ e. cc)
        (omega arith) in
    (
      record {
        after = record k { procs = after; disk = k.fs ∷ k.disk };
        runs = rw (set_state_lem k.procs k.procs.current dead (object v), runs) refl;
        valid = valid;
        current = current;
        queued_last = end;
        still = still;
        is_running = is_running;
      },
      refl,
      pn,
    )
  where
    dying_valid : IsValid (dying k) q
    dying_valid = record {
      queued =
          Queued-store v.queued k.procs.current
            (record (k.procs.pcb k.procs.current) { state = dead }) (not_head v) v.current_absent;
      current_absent = v.current_absent;
      current_object = v.current_object;
      current_state = λ e. absurd (ground arith);
      idle_runs = λ e. absurd (ne e);
    }

-- `fork_aux` takes the PCB with the index `p_num`. If the lists are well formed and that one is not
-- free, as after the exit of a
-- process that was not the last one made, an assertion fails and the kernel halts.
pub fork_aux-abort :
    (k : Kernel) {q : Queues}
    → Queued k.procs.pcb q
    → has (pcb_at k.procs.p_num) (q free_list) ≡ false
    → fork_aux k ≡ abort
unfolding fork_aux with_procs delete_from
fork_aux-abort k {q} w out =
    rw (list_delete-absent w free_list (pcb_at k.procs.p_num) (omega arith) out)
