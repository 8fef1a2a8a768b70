-- ===== src/Sem/Refine.antt =====
-- A semaphore counts its free units, and when there are none it queues the processes that wait.
use oslab_nju.Prelude.{
  ℕ, suc, ◌+◌, ◌-◌, ◌%◌, ◌^◌, ◌<◌, ◌≡◌, ◌≢◌, ◌⊎◌, inl, inr, refl, ap, sym, ◌∙◌, true, false, List,
  [], ◌∷◌, ◌++◌, Run, ok, has, arith, has-append, has_of_has-erase, length, length-append, erase,
}
use oslab_nju.Prelude.Word.{add32, sub32, is_neg}
use oslab_nju.Proc.{Ptr, null, idle, runnable_list, dummysem, runnable, sem_blocked, Pcbs, store}
use oslab_nju.Proc.Queues.Moves.{list_add_lem, list_delete_lem, list_head-cons, dequeue-Absent}
use oslab_nju.Proc.Queues.{
  Queues, enqueue, dequeue, IsPcb, Queued, Absent, Queued-store, length_bound,
}
use oslab_nju.Sched.{Procs, delete_from, add_to, schedule}
use oslab_nju.Sched.Valid.{IsValid, next_turn, turn-home}
use oslab_nju.Sched.Steps.{object, not_head, set_state_lem, load_sem-ok}
use oslab_nju.Sched.Refine.{Scheduled, schedule_refines}
use oslab_nju.Sem.{wait, post, release, store_sem}

-- The semaphore at `a` has `count` free units, or the waiting processes of the common queue.
pub record IsSem (s : Procs) (q : Queues) (a : ℕ) (count : ℕ) : Type 0 where
  pub address : a ≢ null
  pub list : (s.sems a).list ≡ dummysem
  pub value : (s.sems a).value ≡ (count + 2 ^ 32 - length (q dummysem)) % 2 ^ 32
  pub one_empty : (count ≡ 0) ⊎ (length (q dummysem) ≡ 0)
  pub small : count < 2 ^ 31

abbrev with_value : Procs → ℕ → ℕ → Procs
with_value s a v = record s { sems = store_sem s.sems a (record (s.sems a) { value = v }) }

-- The first of the waiting processes is awake: it has moved to the runnable list.
record Released (s : Procs) (q : Queues) (x : Ptr) (r : Run Procs) : Type 0 where
  after : Pcbs
  runs : r ≡ ok (record s { pcb = after })
  queued : Queued after (enqueue runnable_list x (dequeue dummysem x q))
  kept : (y : Ptr) → y ≢ x → (after y).state ≡ (s.pcb y).state

module _ {s : Procs} {q : Queues} (v : IsValid s q) where
  -- With a free unit `P` takes it: the count falls by one. No other semaphore changes, and nothing but
  -- the semaphores; the lists stay well formed.
  pub wait-suc :
      (a : ℕ) (count : ℕ)
      → IsSem s q a (suc count)
      → (after : Procs) × (wait a s ≡ ok after)
        × IsSem after q a count
        × IsValid after q
        × (after.pcb ≡ s.pcb)
        × (after.current ≡ s.current)
        × ((b : ℕ) → b ≢ a → after.sems b ≡ s.sems b)
        × (record after { sems = s.sems } ≡ s)
  unfolding wait
  wait-suc a count i = (
    with_value s a (sub32 (s.sems a).value 1),
    rw (load_sem-ok s.sems a i.address, still) refl,
    record {
      address = i.address;
      list = ground (arith, i.list);
      value = ground (arith, i.value, i.one_empty, i.small);
      one_empty = inr (omega (arith, i.one_empty));
      small = omega (arith, i.small);
    },
    record {
      queued = v.queued;
      current_absent = v.current_absent;
      current_object = v.current_object;
      current_state = v.current_state;
      idle_runs = v.idle_runs;
    },
    refl,
    refl,
    λ b ne. ground (arith, ne),
    refl,
  )
    where
      still : is_neg (sub32 (s.sems a).value 1) ≡ false
      still = ground (arith, i.value, i.one_empty, i.small)

  -- With no free unit `P` puts the calling process, which must be the semaphore's user and not
  -- `idle`, behind those that wait, and hands the processor on.
  pub wait-zero :
      (a : ℕ)
      → s.current ≢ idle
      → (s.pcb s.current).psem ≡ a
      → IsSem s q a 0
      → let t = next_turn sem_blocked s.current q in
        (after : Procs) × (wait a s ≡ ok after)
        × IsSem after t.queue a 0
        × IsValid after t.queue
        × (after.current ≡ t.current)
        × (t.queue dummysem ≡ q dummysem ++ (s.current ∷ []))
  unfolding wait
  wait-zero a ne ps i = (
    r.after,
    rw
        (
          load_sem-ok s.sems a i.address,
          blocks,
          set_state_lem (with_value s a (sub32 (s.sems a).value 1)) s.current sem_blocked
              (object v),
        )
        r.runs,
    record {
      address = i.address;
      list = rw (r.rest.0) (ground (arith, i.list));
      value =
          rw (r.rest.0, sm)
            (ground (
              arith,
              i.value,
              length_bound v.queued dummysem,
              length-append (q dummysem) (s.current ∷ []),
            ));
      one_empty = inl refl;
      small = i.small;
    },
    rw here at r.valid,
    rw here at r.current,
    sm,
  )
    where
      blocks : is_neg (sub32 (s.sems a).value 1) ≡ true
      blocks = ground (arith, i.value, length_bound v.queued dummysem)

      m : Pcbs
      m = store s.pcb s.current (record (s.pcb s.current) { state = sem_blocked })

      mid : Procs
      mid = record (with_value s a (sub32 (s.sems a).value 1)) { pcb = m }

      here : (m s.current).state ≡ sem_blocked
      here = ground arith

      mid_valid : IsValid mid q
      mid_valid = record {
        queued =
            Queued-store v.queued s.current (record (s.pcb s.current) { state = sem_blocked })
              (not_head v) v.current_absent;
        current_absent = v.current_absent;
        current_object = v.current_object;
        current_state = λ e. ground (arith, here);
        idle_runs = λ e. absurd (ne e);
      }

      r : Scheduled mid q (schedule mid)
      r = schedule_refines mid_valid (λ e. ground (arith, i.address, i.list))

      sm : (next_turn sem_blocked s.current q).queue dummysem ≡ q dummysem ++ (s.current ∷ [])
      sm = turn-home (q runnable_list) sem_blocked s.current q (λ e. cc) (λ e. cc)

  release_lem :
      (x : Ptr) (xs : List Ptr) → q dummysem ≡ x ∷ xs → Released s q x (release dummysem s)
  unfolding release delete_from add_to
  release_lem x xs e =
      let w = v.queued in
      let in_q : has x (q dummysem) ≡ true = rw e (ground arith) in
      let (n, run, wn, rn) = list_delete_lem w dummysem x (omega arith) in_q in
      let o : IsPcb x = (w.member dummysem x (omega arith) in_q).0 in
      let out = dequeue-Absent w dummysem x (omega arith) in_q in
      let m : Pcbs = store n x (record (n x) { state = runnable }) in
      let wm : Queued m (dequeue dummysem x q) =
        Queued-store wn x (record (n x) { state = runnable }) (λ h. omega arith) out in
      let (k, run', wk, rk) = list_add_lem wm runnable_list x (omega arith) o (ground arith) out in
      record {
        after = k;
        runs = rw (
          list_head-cons w dummysem x xs (omega arith) e,
          run,
          set_state_lem (record s { pcb = n }) x runnable (omega arith),
          run',
        );
        queued = wk;
        kept = λ y ne. ground (arith, rn y, rk y);
      }

  -- `V` of a semaphore that processes wait for lets the one that has waited longest run again: it
  -- goes from the front of the waiting to the end of the runnable list, and the count stays 0.
  pub post-cons :
      (a : ℕ) (x : Ptr) (xs : List Ptr)
      → q dummysem ≡ x ∷ xs
      → IsSem s q a 0
      → let p = enqueue runnable_list x (dequeue dummysem x q) in
        (after : Procs) × (post a s ≡ ok after)
        × IsSem after p a 0
        × IsValid after p
        × (after.current ≡ s.current)
        × (p dummysem ≡ xs)
  unfolding post
  post-cons a x xs e i = (
    with_value mid a (add32 (s.sems a).value 1),
    rw (load_sem-ok s.sems a i.address, waits, released, load_sem-ok s.sems a i.address) refl,
    record {
      address = i.address;
      list = ground (arith, i.list);
      value = rw rest (ground (arith, i.value, ap length e, length_bound v.queued dummysem));
      one_empty = inl refl;
      small = i.small;
    },
    record {
      queued = r.queued;
      current_absent = absent;
      current_object = v.current_object;
      current_state = λ h. v.current_state (sym (r.kept s.current cur-ne) ∙ h);
      idle_runs = λ h. r.kept idle (λ k. cur-ne (h ∙ k)) ∙ v.idle_runs h;
    },
    refl,
    rest,
  )
    where
      r : Released s q x (release dummysem s)
      r = release_lem x xs e

      mid : Procs
      mid = record s { pcb = r.after }

      released : release (s.sems a).list s ≡ ok mid
      released = rw i.list r.runs

      rest : erase x (q dummysem) ≡ xs
      rest = rw e (ground arith)

      in_q : has x (q dummysem) ≡ true
      in_q = rw e (ground arith)

      cur-ne : s.current ≢ x
      cur-ne = ground (arith, in_q, v.current_absent dummysem)

      absent : Absent s.current (enqueue runnable_list x (dequeue dummysem x q))
      absent h j = ground (
        arith,
        cur-ne,
        v.current_absent h j,
        has-append s.current (q runnable_list) (x ∷ []),
        v.current_absent dummysem,
        has_of_has-erase s.current x (q dummysem),
      )

      waits : is_neg (s.sems a).value ≡ true
      waits = ground (arith, i.value, ap length e, length_bound v.queued dummysem)

  -- `V` of a semaphore when no process waits for any adds one to its count, which stays below 2^31. No
  -- other semaphore changes, and nothing but the semaphores; the lists stay well formed.
  pub post-nil :
      (a : ℕ) (count : ℕ)
      → q dummysem ≡ []
      → suc count < 2 ^ 31
      → IsSem s q a count
      → (after : Procs) × (post a s ≡ ok after)
        × IsSem after q a (suc count)
        × IsValid after q
        × ((b : ℕ) → b ≢ a → after.sems b ≡ s.sems b)
        × (record after { sems = s.sems } ≡ s)
  unfolding post
  post-nil a count e small i = (
    with_value s a (add32 (s.sems a).value 1),
    rw (load_sem-ok s.sems a i.address, none_waits, load_sem-ok s.sems a i.address) refl,
    record {
      address = i.address;
      list = ground (arith, i.list);
      value = ground (arith, i.value, ap length e, i.small);
      one_empty = inr (omega (arith, ap length e));
      small = omega (arith, i.small);
    },
    record {
      queued = v.queued;
      current_absent = v.current_absent;
      current_object = v.current_object;
      current_state = v.current_state;
      idle_runs = v.idle_runs;
    },
    λ b ne. ground (arith, ne),
    refl,
  )
    where
      none_waits : is_neg (s.sems a).value ≡ false
      none_waits = ground (arith, i.value, ap length e, i.small)
