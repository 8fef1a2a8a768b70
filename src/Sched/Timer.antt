-- ===== src/Sched/Timer.antt =====
-- `timerHandle`: a tick of the clock in a process that runs.
use mathlib.Core.Path.{fun_ext, subst}
use oslab_nju.Prelude.{
  ℕ, ◌≡◌, inl, inr, refl, false, Run, ok, ◌==◌, if◌then◌else◌, Bool-cases, arith,
}
use oslab_nju.Proc.{Ptr, blocked_list, running, store}
use oslab_nju.Proc.Chain.{load-ok}
use oslab_nju.Proc.Queues.{Queues, Queued, Queued-frame}
use oslab_nju.Sched.{Procs, try_to_wakeup, schedule, timer_handle}
use oslab_nju.Sched.Valid.{IsValid, Turn, next_turn}
use oslab_nju.Sched.Steps.{object}
use oslab_nju.Sched.Refine.{schedule_refines, running-IsValid}
use oslab_nju.Sched.Wakeup.{tick, wake_up, wake_up-Absent, TicksTo, try_to_wakeup_lem}

abbrev slice : Procs → ℕ
slice s = tick (s.pcb s.current).time_count

-- The time slice of the current process, one tick later.
abbrev ticked : Procs → Procs
ticked s = record s {
  pcb = store s.pcb s.current (record (s.pcb s.current) { time_count = slice s });
}

-- What a tick is to do: the sleepers are looked at, and when the time slice is over, `schedule`
-- picks the next process.
abbrev pub tick_turn : ℕ → (Ptr → ℕ) → Ptr → Queues → Turn
tick_turn left times cur q =
    if left == 0
    then next_turn running cur (wake_up times q)
    else record { queue = wake_up times q; current = cur }

pub record Ticks (s : Procs) (q : Queues) (r : Run Procs) : Type 0 where
  pub after : Procs
  pub runs : r ≡ ok after
  pub valid :
      IsValid after
        (tick_turn
          (tick (s.pcb s.current).time_count)
          (λ x. (s.pcb x).sleep_time)
          s.current
          q).queue
  pub current :
      after.current
      ≡ (tick_turn
          (tick (s.pcb s.current).time_count)
          (λ x. (s.pcb x).sleep_time)
          s.current
          q).current
  pub is_running : (after.pcb after.current).state ≡ running
  pub time_left :
      (after.pcb after.current).time_count
      ≡ (if tick (s.pcb s.current).time_count == 0 then 10 else tick (s.pcb s.current).time_count)

-- The part of `timerHandle` behind the sleepers, at a valid state.
finish :
    {s : Procs} {q : Queues}
    → IsValid s q
    → (s.pcb s.current).state ≡ running
    → (l : ℕ) → (s.pcb s.current).time_count ≡ l
    → (after : Procs) × ((if l == 0 then schedule s else ok s) ≡ ok after)
      × (let t : Turn =
            if l == 0
            then next_turn running s.current q
            else record { queue = q; current = s.current } in
          IsValid after t.queue × (after.current ≡ t.current))
      × ((after.pcb after.current).state ≡ running)
      × ((after.pcb after.current).time_count ≡ (if l == 0 then 10 else l))
finish {s} {q} v e l el = elim (Bool-cases (l == 0)) [
  | inl z ↦
      let r = schedule_refines v (λ h. absurd (ground arith)) in
      (
        r.after,
        rw z r.runs,
        rw z (rw e at r.valid, rw e at r.current),
        r.is_running,
        rw z r.full_time,
      )
  | inr nz ↦ (s, rw nz, rw nz (v, refl), e, rw nz el)
]

-- In a process that runs, from well-formed lists, `timerHandle` always returns. The current process
-- loses one tick of its time slice; the sleepers that are due with this tick become runnable; the
-- lists stay well formed; and when the slice is over the next process is picked by round robin, with a
-- new slice of 10.
pub timer_handle_refines :
    {s : Procs} {q : Queues}
    → IsValid s q
    → (s.pcb s.current).state ≡ running
    → Ticks s q (timer_handle false s)
unfolding timer_handle
timer_handle_refines {s} {q} v e =
    let (after, runs, (valid, current), is_running, left) =
      finish woken_valid running_still (slice s) left_still in
    record {
      after = after;
      runs =
          rw
            (
              load-ok s.pcb s.current (object v),
              t.runs,
              load-ok t.after s.current (object v),
              left_still,
            )
            runs;
      valid = valid;
      current = current;
      is_running = is_running;
      time_left = left;
    }
  where
    w : Queued (ticked s).pcb q
    w = Queued-frame v.queued (ticked s).pcb (λ y. ground arith)

    t :
        TicksTo
          (ticked s)
          (q blocked_list)
          (wake_up (λ x. ((ticked s).pcb x).sleep_time) q)
          (try_to_wakeup (ticked s))
    t = try_to_wakeup_lem w

    times : ◌≡◌ {A = Ptr → ℕ} (λ x. ((ticked s).pcb x).sleep_time) (λ x. (s.pcb x).sleep_time)
    times = fun_ext (λ x. ground arith)

    s2 : Procs
    s2 = record s { pcb = t.after }

    left_still : (t.after s.current).time_count ≡ slice s
    left_still = ground (arith, t.kept s.current)

    running_still : (t.after s.current).state ≡ running
    running_still = ground (arith, t.kept s.current, v.current_absent blocked_list)

    woken_valid : IsValid s2 (wake_up (λ x. (s.pcb x).sleep_time) q)
    woken_valid =
        running-IsValid (subst (λ f. Queued t.after (wake_up f q)) times t.queued)
          (wake_up-Absent (λ x. (s.pcb x).sleep_time) s.current q v.current_absent) v.current_object
          running_still
