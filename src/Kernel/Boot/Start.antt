-- ===== src/Kernel/Boot/Start.antt =====
-- What `initPcb` leaves: all PCBs free, and `idle` running.
use oslab_nju.Prelude.{
  ℕ, zero, suc, ◌+◌, ◌≤◌, ◌<◌, ◌≡◌, inl, inr, refl, true, ◌&&◌, leb, ltb, replicate, Bool-cases, [],
  ◌∷◌, ok, ◌==◌, if◌then◌else◌, has, has-append, arith,
}
use oslab_nju.Proc.{Ptr, null, idle, free_list, dummysem, pcb_at, Pcbs}
use oslab_nju.Proc.Queues.{Queues, enqueue, IsHead, Queued, Absent, Queued-store, Queued-ext}
use oslab_nju.Proc.Queues.Moves.{list_add_lem}
use oslab_nju.Sched.Valid.{IsValid}
use oslab_nju.Sched.Refine.{running-IsValid, idle-Absent}
use oslab_nju.Prelude.Word.{minus_one}
use oslab_nju.Kernel.{Kernel, max_fp_num}
use oslab_nju.Kernel.Boot.{clear_heads, start_idle, free_pcb, free_from, init_pcb}

-- The queues after `k` more PCBs from index `i` on.
abbrev pub filled : ℕ → ℕ → Queues → Queues
filled zero i q = q
filled (suc k) i q = filled k (i + 1) (enqueue free_list (pcb_at i) q)

abbrev pub no_processes : Queues
no_processes h = []

-- All nine PCBs in the list of free ones.
abbrev pub all_free : Queues
all_free h = if h == free_list then 7 ∷ 8 ∷ 9 ∷ 10 ∷ 11 ∷ 12 ∷ 13 ∷ 14 ∷ 15 ∷ [] else []

-- Only PCBs below index `i` stand in a list.
abbrev pub Below : ℕ → Queues → Type 0
Below i q = (h x : Ptr) → IsHead h → has x (q h) ≡ true → x < pcb_at i

-- The `k` PCBs from index `i` on have no open descriptor, and the others have theirs.
abbrev pub Emptied : ℕ → ℕ → Pcbs → Pcbs → Type 0
Emptied k i m n =
    (x : Ptr)
    → (n x).filepointer ≡ (
        if leb (pcb_at i) x && ltb x (pcb_at i + k)
        then replicate max_fp_num minus_one
        else (m x).filepointer)

pub free_from_lem :
    (k i : ℕ) {m : Pcbs} {q : Queues}
    → i + k ≤ 10
    → Queued m q
    → Below i q
    → (n : Pcbs) × (free_from k i m ≡ ok n) × Queued n (filled k i q) × Emptied k i m n
unfolding free_from free_pcb
free_from_lem zero i {m} b w below = (m, refl, w, λ x. ground arith)
free_from_lem (suc k) i {m} {q} b w below =
    let p : Ptr = pcb_at i in
    let out : Absent p q = λ h j. ground (arith, below h p j) in
    let w1 = Queued-store w p (free_pcb (m p)) (λ j. omega arith) out in
    let (n, e, wn, moved) =
      list_add_lem w1 free_list p (omega arith) (omega arith) (ground arith) out in
    let (o, e', wo, rest) =
      free_from_lem k (i + 1) {m = n} {q = enqueue free_list p q} (omega arith) wn (λ h x j a.
        ground (arith, below h x j, below free_list x, has-append x (q free_list) (p ∷ []))) in
    (
      o,
      rw e e',
      wo,
      λ x. elim (Bool-cases (x == p)) [
        | inl z ↦ ground (arith, rest x, moved x, z)
        | inr z ↦ ground (arith, rest x, moved x, z)
      ],
    )

start_idle-IsValid :
    (k : Kernel) (n : Pcbs) → Queued n all_free → IsValid (start_idle n k).procs all_free
start_idle-IsValid k n w =
    running-IsValid (Queued-store w idle _ (λ j. omega arith) (idle-Absent w)) (idle-Absent w)
      (inl refl) (ground arith)

pub no_processes-Queued :
    (m : Pcbs) → (m dummysem).next ≡ null → Queued (clear_heads m) no_processes
no_processes-Queued m e = record {
  chain = λ h i. ground arith;
  nodup = λ h i. refl;
  member = λ h x i f. absurd (ground arith);
}

-- When the list of `dummysem` is empty, as in memory that is set to zero, `initPcb` always returns.
-- It leaves the list of free PCBs with all nine of them, in order, the other lists empty, and `idle`
-- as the running process.
pub init_pcb-IsValid :
    (k : Kernel)
    → (k.procs.pcb dummysem).next ≡ null
    → (after : Kernel) × (init_pcb k ≡ ok after)
      × IsValid after.procs all_free
      × (after.procs.current ≡ idle)
      × (after.procs.p_num ≡ 1)
unfolding init_pcb
init_pcb-IsValid k e =
    let (n, run, w, _) =
      free_from_lem 9 1 (omega arith) (no_processes-Queued k.procs.pcb e)
        (λ h x i f. absurd (ground arith)) in
    (
      start_idle n k,
      rw run refl,
      start_idle-IsValid k n (Queued-ext w (λ h i. ground arith)),
      refl,
      refl,
    )
