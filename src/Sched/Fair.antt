-- ===== src/Sched/Fair.antt =====
-- Every runnable process gets its turn: the clock ticks on, and the processes run one after another.
use mathlib.Core.List.{append_assoc, append-nil}
use oslab_nju.Prelude.{
  ℕ, zero, suc, ◌+◌, ◌*◌, ◌^◌, ◌<◌, ◌≡◌, refl, ap, ◌∙◌, false, List, [], ◌∷◌, ◌++◌, Run, ok, ◌>>=◌,
  ◌==◌, if◌then◌else◌, inl, inr, Bool-cases, length, arith,
}
use oslab_nju.Proc.{Ptr, idle, runnable_list, blocked_list, running}
use oslab_nju.Proc.Queues.{Queues}
use oslab_nju.Sched.{Procs, timer_handle}
use oslab_nju.Sched.Valid.{IsValid, Turn, next_turn}
use oslab_nju.Sched.Wakeup.{tick, ready, wake_up}
use oslab_nju.Sched.Timer.{Ticks, tick_turn, timer_handle_refines}

-- `n` interrupts of the clock, one after another.
unfoldable pub timer_ticks : ℕ → Procs → Run Procs
timer_ticks zero s = ok s
timer_ticks (suc n) s = timer_handle false s >>= timer_ticks n

-- When a slice is over, the front process runs and the others move up; the one that ran, if it is
-- not `idle`, stands behind them.
turn-front :
    (cur x : Ptr) (l : List Ptr) (q : Queues)
    → q runnable_list ≡ x ∷ l
    → ((next_turn running cur q).current ≡ x)
      × ((more : List Ptr) × ((next_turn running cur q).queue runnable_list ≡ l ++ more))
turn-front cur x l q e = elim (Bool-cases (cur == idle)) [
  | inl i ↦ (rw e refl, ([], rw e (rw i (ground (arith, e, append-nil l)))))
  | inr i ↦ (rw e refl, (cur ∷ [], rw e (rw i (ground (arith, e)))))
]

-- One tick, when somebody is ready to run.
tick-front :
    {s : Procs} {q : Queues} (c : ℕ) (x : Ptr) (l : List Ptr)
    → IsValid s q
    → (s.pcb s.current).state ≡ running
    → (s.pcb s.current).time_count ≡ suc c
    → c < 2 ^ 31
    → q runnable_list ≡ x ∷ l
    → (t : Ticks s q (timer_handle false s)) × ((more : List Ptr) × (let next : Turn =
            tick_turn (tick (s.pcb s.current).time_count) (λ y. (s.pcb y).sleep_time) s.current q in
          (next.current ≡ (if c == 0 then x else s.current))
          × (next.queue runnable_list ≡ (if c == 0 then l else x ∷ l) ++ more))
        × ((t.after.pcb t.after.current).time_count ≡ (if c == 0 then 10 else c)))
tick-front {s} {q} c x l v r t b e =
    let times : Ptr → ℕ = λ y. (s.pcb y).sleep_time in
    let left : tick (s.pcb s.current).time_count ≡ c = omega arith in
    let new : List Ptr = ready times (q blocked_list) in
    let w : wake_up times q runnable_list ≡ x ∷ (l ++ new) = ground (arith, e) in
    let ts = timer_handle_refines v r in
    (
      ts,
      elim (Bool-cases (c == 0)) [
        | inl z ↦
            let (now, (more, rest)) = turn-front s.current x (l ++ new) (wake_up times q) w in
            (
              new ++ more,
              (rw (left, z) now, rw (left, z) (rest ∙ append_assoc l new more)),
              rw left at ts.time_left,
            )
        | inr z ↦ (new, (rw (left, z) refl, rw (left, z) w), rw left at ts.time_left)
      ],
    )

-- No process starves. From a valid state whose current process is running and has `suc c` ticks left,
-- the clock interrupt never fails, and the process `p` that waits in the queue behind `xs` runs after
-- those ticks and 10 for each of `xs`.
pub ticks_fair :
    (n : ℕ) {s : Procs} {q : Queues} (c : ℕ) (xs : List Ptr) (p : Ptr) (ys : List Ptr)
    → IsValid s q
    → (s.pcb s.current).state ≡ running
    → (s.pcb s.current).time_count ≡ suc c
    → c < 2 ^ 31
    → q runnable_list ≡ xs ++ (p ∷ ys)
    → n ≡ suc c + 10 * length xs
    → (after : Procs) × (timer_ticks n s ≡ ok after)
      × (after.current ≡ p)
      × ((after.pcb p).state ≡ running)
unfolding timer_ticks
ticks_fair zero c xs p ys v r t b e h = absurd (omega arith)
ticks_fair (suc n) zero [] p ys v r t b e h =
    let (ts, (more, (now, rest), time)) = tick-front zero p ys v r t b e in
    let over : n ≡ 0 = omega arith in
    let cur : ts.after.current ≡ p = ts.current ∙ now in
    (ts.after, rw (ts.runs, over) refl, cur, rw cur at ts.is_running)
ticks_fair (suc n) zero (x ∷ xs) p ys v r t b e h =
    let (ts, (more, (now, rest), time)) = tick-front zero x (xs ++ (p ∷ ys)) v r t b e in
    let (after, run, cur, st) =
      ticks_fair n 9 xs p (ys ++ more) ts.valid ts.is_running time (omega arith)
        (rest ∙ append_assoc xs (p ∷ ys) more) (omega arith) in
    (after, rw ts.runs run, cur, st)
ticks_fair (suc n) (suc c) [] p ys v r t b e h =
    let (ts, (more, (now, rest), time)) = tick-front (suc c) p ys v r t b e in
    let more_left : (suc c == 0) ≡ false = ground arith in
    let (after, run, cur, st) =
      ticks_fair n c [] p (ys ++ more) ts.valid ts.is_running (rw more_left at time) (omega arith)
        (rw more_left at rest) (omega arith) in
    (after, rw ts.runs run, cur, st)
ticks_fair (suc n) (suc c) (x ∷ xs) p ys v r t b e h =
    let (ts, (more, (now, rest), time)) = tick-front (suc c) x (xs ++ (p ∷ ys)) v r t b e in
    let more_left : (suc c == 0) ≡ false = ground arith in
    let (after, run, cur, st) =
      ticks_fair n c (x ∷ xs) p (ys ++ more) ts.valid ts.is_running (rw more_left at time)
        (omega arith) ((rw more_left at rest) ∙ ap (λ l. x ∷ l) (append_assoc xs (p ∷ ys) more))
        (omega arith) in
    (after, rw ts.runs run, cur, st)
