-- ===== src/Sched/Steps.antt =====
-- The parts of `schedule`, each on all the lists.
use oslab_nju.Prelude.{
  ℕ, ◌≡◌, ◌≢◌, inl, inr, refl, ◌∙◌, true, ◌++◌, Run, ok, ◌==◌, Bool-cases, has, arith,
}
use oslab_nju.Print.{print_dec}
use oslab_nju.Print.Format.{printk-dec}
use oslab_nju.Proc.{
  Ptr, null, idle, runnable_list, blocked_list, free_list, dummysem, PState, runnable, running,
  blocked, sem_blocked, dead, Pcbs, IsObject, store,
}
use oslab_nju.Proc.Chain.{load-ok}
use oslab_nju.Proc.Queues.{
  Queues, enqueue, dequeue, IsHead, IsPcb, home, Queued, Absent, Queued-store,
}
use oslab_nju.Proc.Queues.Moves.{list_add_lem, list_delete_lem}
use oslab_nju.Sched.{Procs, Sem, set_state, add_to, delete_from, load_sem, park, report}
use oslab_nju.Sched.Valid.{IsValid, CanWait, Kept, Kept-trans, Relinked-Kept, parked}

-- What a step that ends with the queues `q` leaves alone: all but the table, and of that all but
-- links, states and times.
pub record Stepped (s : Procs) (q : Queues) (r : Run Procs) : Type 0 where
  pub after : Pcbs
  pub runs : r ≡ ok (record s { pcb = after })
  pub queued : Queued after q
  pub kept : Kept s.pcb after
  pub times : (x : Ptr) → (after x).sleep_time ≡ (s.pcb x).sleep_time

module _ {s : Procs} {q : Queues} (w : Queued s.pcb q) where
  pub add_to_lem :
      (h p : Ptr)
      → IsHead h
      → IsPcb p
      → home (s.pcb p).state ≡ h
      → Absent p q
      → Stepped s (enqueue h p q) (add_to h p s)
  unfolding add_to
  add_to_lem h p i o at out =
      let (n, e, v, r) = list_add_lem w h p i o at out in
      record {
        after = n;
        runs = rw e;
        queued = v;
        kept = Relinked-Kept s.pcb n r;
        times = λ x. ground (arith, r x);
      }

  pub delete_from_lem :
      (h p : Ptr) → IsHead h → has p (q h) ≡ true → Stepped s (dequeue h p q) (delete_from h p s)
  unfolding delete_from
  delete_from_lem h p i e =
      let (n, e, v, r) = list_delete_lem w h p i e in
      record {
        after = n;
        runs = rw e;
        queued = v;
        kept = Relinked-Kept s.pcb n r;
        times = λ x. ground (arith, r x);
      }

pub set_state_lem :
    (s : Procs) (p : Ptr) (st : PState)
    → IsObject p
    → set_state p st s ≡ ok (record s { pcb = store s.pcb p (record (s.pcb p) { state = st }) })
unfolding set_state
set_state_lem s p st o = rw (load-ok s.pcb p o)

pub load_sem-ok : (sems : ℕ → Sem) (a : ℕ) → a ≢ null → load_sem sems a ≡ ok (sems a)
unfolding load_sem
load_sem-ok sems a ne = ground arith

pub report_lem :
    (s : Procs)
    → IsObject s.current
    → report s ≡ ok (record s { serial = s.serial ++ print_dec (s.pcb s.current).pid })
unfolding report
report_lem s o = rw (load-ok s.pcb s.current o, printk-dec)

module _ {s : Procs} {q : Queues} (v : IsValid s q) where
  pub object : IsObject s.current
  object = omega (arith, v.current_object)

  pub not_head : IsHead s.current → ⊥
  not_head h = omega (arith, v.current_object)

  pcb_of_state : (st : PState) → (s.pcb s.current).state ≡ st → st ≢ running → IsPcb s.current
  pcb_of_state st e ne = ground (arith, v.current_object, v.idle_runs)

  park_other :
      (st : PState) (h : Ptr)
      → (s.pcb s.current).state ≡ st
      → st ≢ running
      → IsHead h
      → home st ≡ h
      → Stepped s (enqueue h s.current q) (add_to h s.current s)
  park_other st h e ne i o =
      add_to_lem v.queued h s.current i (pcb_of_state st e ne) (rw e o) v.current_absent

  -- A running process that is not `idle` becomes runnable and goes to the end of its list.
  park_running :
      (s.pcb s.current).state ≡ running → Stepped s (parked running s.current q) (park running s)
  unfolding park
  park_running e = elim (Bool-cases (s.current == idle)) [
    | inl is_idle ↦ record {
      after = m;
      runs = rw (set_state_lem s s.current runnable object) (rw is_idle);
      queued = rw is_idle stored;
      kept = λ x. ground arith;
      times = λ x. ground arith;
    }
    | inr other ↦
        let t =
          add_to_lem {s = record s { pcb = m }} stored runnable_list s.current (omega arith)
            (ground (arith, v.current_object)) (ground arith) v.current_absent in
        record {
          after = t.after;
          runs = rw (set_state_lem s s.current runnable object) (rw other t.runs);
          queued = rw other t.queued;
          kept = Kept-trans s.pcb m t.after (λ x. ground arith) t.kept;
          times = λ x. t.times x ∙ ground arith;
        }
  ]
    where
      m : Pcbs
      m = store s.pcb s.current (record (s.pcb s.current) { state = runnable })

      stored : Queued m q
      stored =
          Queued-store v.queued s.current (record (s.pcb s.current) { state = runnable }) not_head
            v.current_absent

  pub park_lem :
      (st : PState)
      → CanWait s
      → (s.pcb s.current).state ≡ st
      → st ≢ runnable
      → Stepped s (parked st s.current q) (park st s)
  unfolding park
  park_lem runnable c e ne = absurd (ne refl)
  park_lem running c e ne = park_running e
  park_lem blocked c e ne = park_other blocked blocked_list e (λ x. cc) (omega arith) refl
  park_lem dead c e ne = park_other dead free_list e (λ x. cc) (omega arith) refl
  park_lem sem_blocked c e ne =
      let t = park_other sem_blocked dummysem e (λ x. cc) (omega arith) refl in
      record {
        after = t.after;
        runs =
            rw
              (
                load-ok s.pcb s.current object,
                load_sem-ok s.sems (s.pcb s.current).psem (c e).0,
                (c e).1,
              )
              t.runs;
        queued = t.queued;
        kept = t.kept;
        times = t.times;
      }
