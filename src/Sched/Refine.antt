-- ===== src/Sched/Refine.antt =====
-- `schedule` is a round-robin scheduler over the queues that the lists stand for.
use oslab_nju.Prelude.{
  ◌≡◌, ◌⊎◌, inl, inr, refl, ◌∙◌, true, false, List, [], ◌∷◌, ◌++◌, Run, ok, ◌>>=◌, ◌==◌,
  if◌then◌else◌, Bool-cases, has, arith,
}
use oslab_nju.Print.{print_dec}
use oslab_nju.Proc.{
  Ptr, null, idle, runnable_list, PState, runnable, running, blocked, sem_blocked, dead, Pcb, Pcbs,
  IsObject, store,
}
use oslab_nju.Proc.Chain.{Chain, load-ok}
use oslab_nju.Proc.Queues.{Queues, dequeue, IsPcb, Queued, Absent, Queued-store}
use oslab_nju.Proc.Queues.Moves.{list_head-cons, dequeue-Absent}
use oslab_nju.Sched.{Procs, delete_from, park, dispatch, renew, run_idle, stay, schedule}
use oslab_nju.Sched.Valid.{
  IsValid, CanWait, Kept, Kept-trans, SameTimes, parked, Turn, stays, stack_of, turn_of, next_turn,
}
use oslab_nju.Sched.Steps.{
  Stepped, set_state_lem, delete_from_lem, park_lem, report_lem, object, not_head,
}

-- The processor is handed to `x`: `r` is a state whose table holds the queues `q`, with `x` running
-- in none of them, and that is `s` in all other respects.
pub record Handed (s : Procs) (x : Ptr) (q : Queues) (esp0 : Ptr) (r : Run Procs) : Type 0 where
  pub after : Pcbs
  pub runs : r ≡ ok (record s { pcb = after; current = x; esp0 = esp0 })
  pub queued : Queued after q
  pub absent : Absent x q
  pub object : (x ≡ idle) ⊎ IsPcb x
  pub is_running : (after x).state ≡ running
  pub full_time : (after x).time_count ≡ 10
  pub kept : Kept s.pcb after
  pub times : SameTimes x s.pcb after

dispatch_lem :
    {s : Procs} {q : Queues} (x : Ptr) (xs : List Ptr)
    → Queued s.pcb q
    → q runnable_list ≡ x ∷ xs
    → Handed s x (dequeue runnable_list x q) x (dispatch s)
unfolding dispatch
dispatch_lem {s} {q} x xs w e = record {
  after = store t.after x c;
  runs = rw (
    list_head-cons w runnable_list x xs (omega arith) e,
    t.runs,
    load-ok t.after x (omega (arith, p)),
  );
  queued = Queued-store t.queued x c (λ h. omega (arith, p)) out;
  absent = out;
  object = inr p;
  is_running = ground arith;
  full_time = ground arith;
  kept = Kept-trans s.pcb t.after (store t.after x c) t.kept (λ y. ground arith);
  times = λ y ne. ground (arith, ne, t.times y);
}
  where
    in_run : has x (q runnable_list) ≡ true
    in_run = rw e (ground arith)

    p : IsPcb x
    p = (w.member runnable_list x (omega arith) in_run).0

    t : Stepped s (dequeue runnable_list x q) (delete_from runnable_list x s)
    t = delete_from_lem w runnable_list x (omega arith) in_run

    c : Pcb
    c = record (t.after x) { state = running; time_count = 10; sleep_time = 0 }

    out : Absent x (dequeue runnable_list x q)
    out = dequeue-Absent w runnable_list x (omega arith) in_run

renew_lem :
    (s : Procs)
    → IsObject s.current
    → renew s
      ≡ ok (record s { pcb = store s.pcb s.current (record (s.pcb s.current) { time_count = 10 }) })
unfolding renew
renew_lem s o = rw (load-ok s.pcb s.current o)

pub idle-Absent : {m : Pcbs} {q : Queues} → Queued m q → Absent idle q
idle-Absent w h i = ground (arith, w.member h idle i)

run_idle_lem : {s : Procs} {q : Queues} → Queued s.pcb q → Handed s idle q s.esp0 (run_idle s)
unfolding run_idle
run_idle_lem {s} {q} w = record {
  after = store m idle c;
  runs =
      rw (set_state_lem (record s { current = idle }) idle running (omega arith))
        (renew_lem (record s { current = idle; pcb = m }) (omega arith));
  queued = Queued-store stored idle c (λ h. omega arith) (idle-Absent w);
  absent = idle-Absent w;
  object = inl refl;
  is_running = ground arith;
  full_time = ground arith;
  kept = λ y. ground arith;
  times = λ y ne. ground (arith, ne);
}
  where
    m : Pcbs
    m = store s.pcb idle (record (s.pcb idle) { state = running })

    c : Pcb
    c = record (m idle) { time_count = 10 }

    stored : Queued m q
    stored =
        Queued-store w idle (record (s.pcb idle) { state = running }) (λ h. omega arith)
          (idle-Absent w)

-- A step and what follows it.
Handed-after :
    {s : Procs} {q p : Queues} {r : Run Procs} {x e : Ptr} (f : Procs → Run Procs)
    (t : Stepped s q r)
    → Handed (record s { pcb = t.after }) x p e (f (record s { pcb = t.after }))
    → Handed s x p e (r >>= f)
Handed-after {s} f t h = record {
  after = h.after;
  runs = rw t.runs h.runs;
  queued = h.queued;
  absent = h.absent;
  object = h.object;
  is_running = h.is_running;
  full_time = h.full_time;
  kept = Kept-trans s.pcb t.after h.after t.kept h.kept;
  times = λ y ne. h.times y ne ∙ t.times y;
}

module _ {s : Procs} {q : Queues} (v : IsValid s q) (c : CanWait s) where
  stay_lem :
      (st : PState)
      → (s.pcb s.current).state ≡ st
      → let t = stays st s.current q in Handed s t.current t.queue s.esp0 (stay st s)
  unfolding stay
  stay_lem runnable e = absurd (v.current_state e)
  stay_lem running e = record {
    after = store s.pcb s.current (record (s.pcb s.current) { time_count = 10 });
    runs = renew_lem s (object v);
    queued = Queued-store v.queued s.current _ (not_head v) v.current_absent;
    absent = v.current_absent;
    object = v.current_object;
    is_running = ground arith;
    full_time = ground arith;
    kept = λ y. ground arith;
    times = λ y ne. ground (arith, ne);
  }
  stay_lem blocked e =
      let t = park_lem v blocked c e (λ x. cc) in Handed-after run_idle t (run_idle_lem t.queued)
  stay_lem sem_blocked e =
      let t = park_lem v sem_blocked c e (λ x. cc) in
      Handed-after run_idle t (run_idle_lem t.queued)
  stay_lem dead e =
      let t = park_lem v dead c e (λ x. cc) in Handed-after run_idle t (run_idle_lem t.queued)

  -- The first runnable process is still the first when the current one has been put away.
  parked-cons :
      (st : PState) (x : Ptr) (xs : List Ptr)
      → q runnable_list ≡ x ∷ xs
      → (ys : List Ptr) × (parked st s.current q runnable_list ≡ x ∷ ys)
  parked-cons runnable x xs e = (xs, e)
  parked-cons blocked x xs e = (xs, e)
  parked-cons sem_blocked x xs e = (xs, e)
  parked-cons dead x xs e = (xs, e)
  parked-cons running x xs e = elim (Bool-cases (s.current == idle)) [
    | inl h ↦ (xs, rw h e)
    | inr h ↦ (xs ++ (s.current ∷ []), rw (h, e))
  ]

  -- `schedule` up to its report.
  choose : Run Procs
  choose =
      if (s.pcb runnable_list).next == null
      then stay (s.pcb s.current).state s
      else (park (s.pcb s.current).state s >>= dispatch)

  choose_lem :
      (l : List Ptr)
      → q runnable_list ≡ l
      → let t = turn_of l (s.pcb s.current).state s.current q in
        Handed s t.current t.queue (stack_of l s.esp0) choose
  unfolding choose
  choose_lem [] e =
      let last : Chain s.pcb runnable_list [] =
        rw e at (v.queued.chain runnable_list (omega arith)) in
      let empty : ((s.pcb runnable_list).next == null) ≡ true = ground arith in
      rw empty (stay_lem (s.pcb s.current).state refl)
  choose_lem (x ∷ xs) e =
      let first : Chain s.pcb runnable_list (x ∷ xs) =
        rw e at (v.queued.chain runnable_list (omega arith)) in
      let more : ((s.pcb runnable_list).next == null) ≡ false = ground arith in
      let t = park_lem v (s.pcb s.current).state c refl v.current_state in
      let (ys, front) = parked-cons (s.pcb s.current).state x xs e in
      rw more (Handed-after dispatch t (dispatch_lem x ys t.queued front))

-- What a call of `schedule` is to do: the queues and the current process are those of `next_turn`,
-- the process that goes on is running with a full time slice, the kernel stack is that of a process
-- picked from the list, its pid is printed, and nothing else of any process or of the table changes.
pub record Scheduled (s : Procs) (q : Queues) (r : Run Procs) : Type 0 where
  pub after : Procs
  pub runs : r ≡ ok after
  pub valid : IsValid after (next_turn (s.pcb s.current).state s.current q).queue
  pub current : after.current ≡ (next_turn (s.pcb s.current).state s.current q).current
  pub is_running : (after.pcb after.current).state ≡ running
  pub full_time : (after.pcb after.current).time_count ≡ 10
  pub esp0 : after.esp0 ≡ stack_of (q runnable_list) s.esp0
  pub serial : after.serial ≡ s.serial ++ print_dec (after.pcb after.current).pid
  pub rest : (after.sems ≡ s.sems) × (after.p_num ≡ s.p_num)
  pub kept : Kept s.pcb after.pcb
  pub times : SameTimes after.current s.pcb after.pcb

pub running-IsValid :
    {s : Procs} {q : Queues}
    → Queued s.pcb q
    → Absent s.current q
    → (s.current ≡ idle) ⊎ IsPcb s.current
    → (s.pcb s.current).state ≡ running
    → IsValid s q
running-IsValid {s} w out o e = record {
  queued = w;
  current_absent = out;
  current_object = o;
  current_state = λ h. cc;
  idle_runs = λ h. cc;
}

-- From well-formed lists `schedule` always returns, if a current process that waits for a semaphore
-- has one with the common queue. It does what round robin does to the queues: the current process
-- goes to the end of the list of its state, the first runnable one becomes the current one, and with
-- none runnable a running process goes on and any other gives way to `idle`.
pub schedule_refines :
    {s : Procs} {q : Queues} → IsValid s q → CanWait s → Scheduled s q (schedule s)
unfolding schedule choose
schedule_refines {s} {q} v c = record {
  after = record mid { serial = s.serial ++ print_dec (h.after t.current).pid };
  runs =
      rw (load-ok s.pcb runnable_list (omega arith), load-ok s.pcb s.current (object v), h.runs)
        (report_lem mid (omega (arith, h.object)));
  valid = running-IsValid h.queued h.absent h.object h.is_running;
  current = refl;
  is_running = h.is_running;
  full_time = h.full_time;
  esp0 = refl;
  serial = refl;
  rest = (refl, refl);
  kept = h.kept;
  times = h.times;
}
  where
    t : Turn
    t = next_turn (s.pcb s.current).state s.current q

    h : Handed s t.current t.queue (stack_of (q runnable_list) s.esp0) (choose v c)
    h = choose_lem v c (q runnable_list) refl

    mid : Procs
    mid = record s { pcb = h.after; current = t.current; esp0 = stack_of (q runnable_list) s.esp0 }
