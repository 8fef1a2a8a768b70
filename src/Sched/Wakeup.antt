-- ===== src/Sched/Wakeup.antt =====
-- `try_to_wakeup`: the sleepers whose time is up become runnable, in order.
use mathlib.Core.List.{append_assoc, append-nil}
use oslab_nju.Prelude.{
  ℕ, zero, suc, ◌<◌, ◌≡◌, inl, inr, refl, true, false, List, [], ◌∷◌, ◌++◌, Run, ok, ◌>>=◌, ◌==◌,
  if◌then◌else◌, Bool-cases, ne→==, has, erase, arith, distinct, has-append, length,
}
use oslab_nju.Prelude.Word.{sub32}
use oslab_nju.Proc.{Ptr, null, runnable_list, blocked_list, runnable, Pcbs, IsObject, store}
use oslab_nju.Proc.Chain.{Chain, load-ok}
use oslab_nju.Proc.Lists.{walk_fuel}
use oslab_nju.Proc.Queues.{
  Queues, update, enqueue, dequeue, IsPcb, Queued, Absent, Queued-store, Queued-frame, Queued-ext,
  length_bound,
}
use oslab_nju.Proc.Queues.Moves.{list_add_lem, list_delete_lem, dequeue-Absent}
use oslab_nju.Sched.{Procs, add_to, delete_from, wake, wake_one, wake_from, try_to_wakeup}
use oslab_nju.Sched.Steps.{set_state_lem}

-- The time that is left after this tick.
abbrev pub tick : ℕ → ℕ
tick t = sub32 t 1

-- The sleepers whose time is up at this tick, and the others.
abbrev pub ready : (Ptr → ℕ) → List Ptr → List Ptr
ready t [] = []
ready t (x ∷ xs) = if tick (t x) == 0 then x ∷ ready t xs else ready t xs

abbrev pub waiting : (Ptr → ℕ) → List Ptr → List Ptr
waiting t [] = []
waiting t (x ∷ xs) = if tick (t x) == 0 then waiting t xs else x ∷ waiting t xs

-- The queues after the sleepers `rest`, which stand behind `front`, have been looked at.
abbrev pub woken : (Ptr → ℕ) → List Ptr → List Ptr → Queues → Queues
woken t front rest q =
    update (update q runnable_list (q runnable_list ++ ready t rest)) blocked_list
      (front ++ waiting t rest)

-- `n` is `m` but for links and the states of the processes `xs`.
abbrev Restated : Pcbs → Pcbs → List Ptr → Type 0
Restated m n xs =
    (x : Ptr)
    → n x
      ≡ record (m x) { next = (n x).next; state = if has x xs then (n x).state else (m x).state }

record Woken (s : Procs) (p : Ptr) (q : Queues) (r : Run Procs) : Type 0 where
  after : Pcbs
  runs : r ≡ ok (record s { pcb = after })
  queued : Queued after q
  kept : Restated s.pcb after (p ∷ [])

wake_lem :
    {s : Procs} {q : Queues} (p : Ptr)
    → Queued s.pcb q
    → has p (q blocked_list) ≡ true
    → Woken s p (enqueue runnable_list p (dequeue blocked_list p q)) (wake p s)
unfolding wake delete_from add_to
wake_lem {s} {q} p w e =
    let (n, run, wn, rn) = list_delete_lem w blocked_list p (omega arith) e in
    let o : IsPcb p = (w.member blocked_list p (omega arith) e).0 in
    let out = dequeue-Absent w blocked_list p (omega arith) e in
    let m : Pcbs = store n p (record (n p) { state = runnable }) in
    let wm : Queued m (dequeue blocked_list p q) =
      Queued-store wn p (record (n p) { state = runnable }) (λ h. omega arith) out in
    let (k, run', wk, rk) = list_add_lem wm runnable_list p (omega arith) o (ground arith) out in
    record {
      after = k;
      runs = rw (run, set_state_lem (record s { pcb = n }) p runnable (omega arith), run');
      queued = wk;
      kept = λ x. ground (arith, rn x, rk x);
    }

-- The element that a list starts with, as a pointer.
abbrev first : List Ptr → Ptr
first [] = null
first (x ∷ xs) = x

first-Chain : (m : Pcbs) (x : Ptr) (xs : List Ptr) → Chain m x xs → (m x).next ≡ first xs
first-Chain m x [] c = c
first-Chain m x (y ∷ ys) c = c.0

next-middle :
    (m : Pcbs) (h x : Ptr) (front rest : List Ptr)
    → Chain m h (front ++ (x ∷ rest))
    → (m x).next ≡ first rest
next-middle m h x [] rest c = first-Chain m x rest c.2
next-middle m h x (y ∷ ys) rest c = next-middle m y x ys rest c.2

distinct-middle :
    (x : Ptr) (front rest : List Ptr)
    → distinct (front ++ (x ∷ rest)) ≡ true
    → (has x front ≡ false) × (has x rest ≡ false)
distinct-middle x [] rest d = ground arith
distinct-middle x (y ∷ ys) rest d =
    ground (arith, distinct-middle x ys rest, has-append y ys (x ∷ rest))

erase-middle :
    (x : Ptr) (front rest : List Ptr)
    → has x front ≡ false
    → erase x (front ++ (x ∷ rest)) ≡ front ++ rest
erase-middle x [] rest h = ground arith
erase-middle x (y ∷ ys) rest h = ground (arith, erase-middle x ys rest)

-- `n` is `m` but for links, and for the states and sleeping times of the processes `xs`, which
-- have one tick less to sleep.
abbrev pub Ticked : Pcbs → Pcbs → List Ptr → Type 0
Ticked m n xs =
    (x : Ptr)
    → n x ≡ record (m x) {
      next = (n x).next;
      state = if has x xs then (n x).state else (m x).state;
      sleep_time = if has x xs then tick (m x).sleep_time else (m x).sleep_time;
    }

pub record TicksTo (s : Procs) (rest : List Ptr) (q : Queues) (r : Run Procs) : Type 0 where
  pub after : Pcbs
  pub runs : r ≡ ok (record s { pcb = after })
  pub queued : Queued after q
  pub kept : Ticked s.pcb after rest

-- One tick of the process `x`.
abbrev slept : Procs → Ptr → Procs
slept s x = record s {
  pcb = store s.pcb x (record (s.pcb x) { sleep_time = tick (s.pcb x).sleep_time });
}

wake_one-later :
    (s : Procs) (x : Ptr)
    → IsObject x
    → (tick (s.pcb x).sleep_time == 0) ≡ false
    → wake_one x s ≡ ok (slept s x)
unfolding wake_one
wake_one-later s x o h = rw (load-ok s.pcb x o, h)

wake_one-due :
    (s : Procs) (x : Ptr)
    → IsObject x
    → (tick (s.pcb x).sleep_time == 0) ≡ true
    → wake_one x s ≡ wake x (slept s x)
unfolding wake_one
wake_one-due s x o h = rw (load-ok s.pcb x o, h)

wake_from_round :
    (k : ℕ) (s : Procs) (x n : Ptr)
    → IsObject x
    → (s.pcb x).next ≡ n
    → wake_from (suc k) x s ≡ (wake_one x s >>= wake_from k n)
unfolding wake_from
wake_from_round k s x n o e = rw (ne→== x null (omega arith), wake_from, load-ok s.pcb x o, e)

-- One round of the loop at `x`, with what the others do as a hypothesis.
module _ {s : Procs} (q : Queues) (t : Ptr → ℕ) (k : ℕ) (x : Ptr) (front rest : List Ptr)
    (p : IsObject x) (nx : (s.pcb x).next ≡ first rest) (time : (s.pcb x).sleep_time ≡ t x)
    (out : has x rest ≡ false) (e : q blocked_list ≡ front ++ (x ∷ rest)) where
  later_step :
      (tick (s.pcb x).sleep_time == 0) ≡ false
      → TicksTo
          (slept s x)
          rest
          (woken t (front ++ (x ∷ [])) rest q)
          (wake_from k (first rest) (slept s x))
      → TicksTo s (x ∷ rest) (woken t front (x ∷ rest) q) (wake_from (suc k) x s)
  later_step later v = record {
    after = v.after;
    runs = rw (wake_from_round k s x (first rest) p nx, wake_one-later s x p later) v.runs;
    queued =
        Queued-ext {m = v.after} v.queued
          (λ h i. ground (arith, append_assoc front (x ∷ []) (waiting t rest)));
    kept = λ y. ground (arith, v.kept y);
  }

  due_step :
      (tick (s.pcb x).sleep_time == 0) ≡ true
      → (u : Woken
          (slept s x)
          x
          (enqueue runnable_list x (dequeue blocked_list x q))
          (wake x (slept s x)))
      → TicksTo
          (record s { pcb = u.after })
          rest
          (woken t front rest (enqueue runnable_list x (dequeue blocked_list x q)))
          (wake_from k (first rest) (record s { pcb = u.after }))
      → TicksTo s (x ∷ rest) (woken t front (x ∷ rest) q) (wake_from (suc k) x s)
  due_step due u v = record {
    after = v.after;
    runs = rw (wake_from_round k s x (first rest) p nx, wake_one-due s x p due, u.runs) v.runs;
    queued =
        Queued-ext {m = v.after} v.queued
          (λ h i. ground (arith, append_assoc (q runnable_list) (x ∷ []) (ready t rest)));
    kept = λ y. ground (arith, v.kept y, u.kept y);
  }

wake_from_lem :
    (k : ℕ) (t : Ptr → ℕ) (front rest : List Ptr) {s : Procs} {q : Queues}
    → Queued s.pcb q
    → q blocked_list ≡ front ++ rest
    → ((x : Ptr) → has x rest ≡ true → (s.pcb x).sleep_time ≡ t x)
    → length rest < k
    → TicksTo s rest (woken t front rest q) (wake_from k (first rest) s)
unfolding wake_from
wake_from_lem zero t front rest w e times fuel = absurd (omega arith)
wake_from_lem (suc k) t front [] {s} {q} w e times fuel = record {
  after = s.pcb;
  runs = refl;
  queued = Queued-ext w (λ h i. ground (arith, append-nil front, append-nil (q runnable_list)));
  kept = λ x. refl;
}
wake_from_lem (suc k) t front (x ∷ rest) {s} {q} w e times fuel =
    elim (Bool-cases (tick (s.pcb x).sleep_time == 0)) [
      | inl due ↦
          let u = wake_lem x w0 in_b in
          due_step q t k x front rest o nx time apart.1 e due u (
            wake_from_lem k t front rest u.queued (ground (arith, erase-middle x front rest, apart))
              (λ y i. ground (arith, u.kept y, times y, apart)) (omega arith))
      | inr later ↦ later_step q t k x front rest o nx time apart.1 e later (
          wake_from_lem k t (front ++ (x ∷ [])) rest w0
            (ground (arith, append_assoc front (x ∷ []) rest))
            (λ y i. ground (arith, times y, apart)) (omega arith))
    ]
  where
    in_b : has x (q blocked_list) ≡ true
    in_b = rw e (ground (arith, has-append x front (x ∷ rest)))

    o : IsObject x
    o = omega (arith, (w.member blocked_list x (omega arith) in_b).0)

    nx : (s.pcb x).next ≡ first rest
    nx = next-middle s.pcb blocked_list x front rest (rw e at (w.chain blocked_list (omega arith)))

    apart : (has x front ≡ false) × (has x rest ≡ false)
    apart = distinct-middle x front rest (rw e at (w.nodup blocked_list (omega arith)))

    w0 : Queued (slept s x).pcb q
    w0 = Queued-frame w (slept s x).pcb (λ y. ground arith)

    time : (s.pcb x).sleep_time ≡ t x
    time = times x (ground arith)

-- The queues after a tick of all sleepers.
abbrev pub wake_up : (Ptr → ℕ) → Queues → Queues
wake_up t q = woken t [] (q blocked_list) q

-- From well-formed lists `try_to_wakeup` always returns. Each blocked process has one tick less to
-- sleep; those that have none left go, in order, to the end of the runnable list, and the others
-- stay blocked, in order. Nothing else changes but links.
pub try_to_wakeup_lem :
    {s : Procs} {q : Queues}
    → Queued s.pcb q
    → TicksTo s (q blocked_list) (wake_up (λ x. (s.pcb x).sleep_time) q) (try_to_wakeup s)
unfolding try_to_wakeup
try_to_wakeup_lem {s} {q} w =
    let t =
      wake_from_lem walk_fuel (λ x. (s.pcb x).sleep_time) [] (q blocked_list) {s = s} w refl
        (λ x i. refl) (length_bound w blocked_list (omega arith)) in
    record {
      after = t.after;
      runs =
          rw
            (
              load-ok s.pcb blocked_list (omega arith),
              first-Chain s.pcb blocked_list (q blocked_list) (w.chain blocked_list (omega arith)),
            )
            t.runs;
      queued = t.queued;
      kept = t.kept;
    }

has-ready : (t : Ptr → ℕ) (x : Ptr) (l : List Ptr) → has x l ≡ false → has x (ready t l) ≡ false
has-ready t x [] h = refl
has-ready t x (y ∷ ys) h = ground (arith, has-ready t x ys)

has-waiting : (t : Ptr → ℕ) (x : Ptr) (l : List Ptr) → has x l ≡ false → has x (waiting t l) ≡ false
has-waiting t x [] h = refl
has-waiting t x (y ∷ ys) h = ground (arith, has-waiting t x ys)

pub wake_up-Absent : (t : Ptr → ℕ) (x : Ptr) (q : Queues) → Absent x q → Absent x (wake_up t q)
wake_up-Absent t x q out h i = ground (
  arith,
  has-ready t x (q blocked_list),
  has-waiting t x (q blocked_list),
  out h i,
  out blocked_list,
  has-append x (q runnable_list) (ready t (q blocked_list)),
)
