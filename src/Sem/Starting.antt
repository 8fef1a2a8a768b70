-- ===== src/Sem/Starting.antt =====
-- A semaphore that is initialised: sem_init_aux of kernel/kernel/sem.c.
use oslab_nju.Prelude.{
  ℕ, ◌^◌, ◌<◌, ◌≡◌, ◌≢◌, ◌∙◌, sym, refl, [], Run, ok, ◌==◌, if◌then◌else◌, Bool-cases, inl, inr,
  arith,
}
use oslab_nju.Proc.{Ptr, null, idle, dummysem, Pcb, Pcbs, store}
use oslab_nju.Proc.Chain.{Chain-frame, load-ok}
use oslab_nju.Proc.Queues.{Queues, Queued, Absent, Queued-store}
use oslab_nju.Sched.{Procs}
use oslab_nju.Sched.Valid.{IsValid}
use oslab_nju.Sched.Steps.{object, not_head, load_sem-ok}
use oslab_nju.Sem.{sem_init_aux, set_eax, store_sem, user_address}
use oslab_nju.Sem.Refine.{IsSem}

-- The queues with nobody in the common queue of the semaphores.
abbrev pub nobody_waits : Queues → Queues
nobody_waits q h = if h == dummysem then [] else q h

abbrev cleared : Pcbs → Pcbs
cleared m = store m dummysem (record (m dummysem) { next = null })

cleared-Queued : {m : Pcbs} {q : Queues} → Queued m q → Queued (cleared m) (nobody_waits q)
cleared-Queued {m} {q} w = record {
  chain = λ h i. elim (Bool-cases (h == dummysem)) [
    | inl e ↦ rw e (ground (arith, e))
    | inr e ↦ rw e (
        Chain-frame m (cleared m) h (q h) (λ x f. ground (arith, w.member h x i, e, f))
          (w.chain h i))
  ];
  nodup = λ h i. ground (arith, w.nodup h i);
  member = λ h x i f. elim (Bool-cases (h == dummysem)) [
    | inl e ↦ absurd (ground (arith, f, e))
    | inr e ↦ let (p, s) = w.member h x i (rw e at f) in (p, ground (arith, s, p))
  ];
}

-- The processes and the semaphores after `sem_init_aux` at the address `a`.
abbrev started : ℕ → ℕ → Procs → Procs
started a count s =
    let c = s.pcb s.current in
    let m = cleared (store s.pcb s.current (record c { psem = a })) in
    let d = m s.current in
    record s {
      pcb = store m s.current (record d { tf = record d.tf { eax = 0 } });
      sems = store_sem s.sems a (record (s.sems a) { value = count; list = dummysem });
    }

-- The caller's semaphore has the count that was asked for and the common queue, which is empty: a
-- process that waited in it for any semaphore stands in no list any more.
pub record Starts (s : Procs) (q : Queues) (a count : ℕ) (r : Run Procs) : Type 0 where
  pub after : Procs
  pub runs : r ≡ ok after
  pub sem : IsSem after (nobody_waits q) a count
  pub valid : IsValid after (nobody_waits q)
  pub psem : (after.pcb s.current).psem ≡ a
  pub current : after.current ≡ s.current
  pub states : (x : Ptr) → (after.pcb x).state ≡ (s.pcb x).state
  pub other_sems : (b : ℕ) → b ≢ a → after.sems b ≡ s.sems b

nobody_waits-Absent : (x : Ptr) (q : Queues) → Absent x q → Absent x (nobody_waits q)
nobody_waits-Absent x q h g i = ground (arith, h g i)

started-IsValid :
    (s : Procs) (q : Queues) (a count : ℕ)
    → IsValid s q
    → IsValid (started a count s) (nobody_waits q)
started-IsValid s q a count v =
    let c : Pcb = record (s.pcb s.current) { psem = a } in
    let w = cleared-Queued (Queued-store v.queued s.current c (not_head v) v.current_absent) in
    let d : Pcb = cleared (store s.pcb s.current c) s.current in
    let out = nobody_waits-Absent s.current q v.current_absent in
    record {
      queued =
          Queued-store w s.current (record d { tf = record d.tf { eax = 0 } }) (not_head v) out;
      current_absent = out;
      current_object = v.current_object;
      current_state = λ e. v.current_state (sym (states s.current) ∙ e);
      idle_runs = λ e. states idle ∙ v.idle_runs e;
    }
  where
    states : (x : Ptr) → ((started a count s).pcb x).state ≡ (s.pcb x).state
    states x = ground arith

-- From well-formed lists `sem_init_aux` always returns with such lists: the caller has a
-- semaphore with the count that was asked for, below 2 ^ 31, at its own address of it, which is
-- not NULL. All processes that wait for semaphores are lost by that: the queue that is emptied is
-- common to all semaphores, and they stand in no list.
pub sem_init_aux_lem :
    (s : Procs) (q : Queues) (sem count : ℕ)
    → IsValid s q
    → user_address (s.pcb s.current).pid sem ≢ null
    → count < 2 ^ 31
    → Starts s q (user_address (s.pcb s.current).pid sem) count (sem_init_aux sem count s)
unfolding sem_init_aux set_eax
sem_init_aux_lem s q sem count v there small =
    let a = user_address (s.pcb s.current).pid sem in
    let c : Pcb = record (s.pcb s.current) { psem = a } in
    let m : Pcbs = store s.pcb s.current c in
    record {
      after = started a count s;
      runs =
          rw
            (
              load-ok s.pcb s.current (object v),
              load_sem-ok s.sems a there,
              load-ok m dummysem (omega arith, omega arith),
              load-ok (cleared m) s.current (object v),
            )
            refl;
      sem = record {
        address = there;
        list = ground arith;
        value = ground (arith, small);
        one_empty = inr refl;
        small = small;
      };
      valid = started-IsValid s q a count v;
      psem = ground (arith, v.current_object);
      current = refl;
      states = λ x. ground arith;
      other_sems = λ b ne. ground (arith, ne);
    }
