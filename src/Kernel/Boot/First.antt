-- ===== src/Kernel/Boot/First.antt =====
-- The first process: `initPcb`, then `preparePCB`.
use oslab_nju.Prelude.{ℕ, ◌≡◌, refl, inl, [], ◌∷◌, Run, ok, ◌>>=◌, arith}
use oslab_nju.Proc.{null, idle, runnable_list, free_list, dummysem, pcb_at, running, Pcb, store}
use oslab_nju.Proc.Chain.{load-ok}
use oslab_nju.Proc.Queues.{Queues, enqueue, dequeue, Absent, Queued-store}
use oslab_nju.Proc.Queues.Moves.{list_add_lem, list_delete_lem, list_head-cons, dequeue-Absent}
use oslab_nju.Sched.{Procs, add_to, delete_from}
use oslab_nju.Sched.Valid.{IsValid}
use oslab_nju.Sched.Refine.{running-IsValid, idle-Absent}
use oslab_nju.Kernel.Runs.{IsSound}
use oslab_nju.Kernel.{Kernel, with_procs}
use oslab_nju.Kernel.Boot.{init_pcb, first_pcb, prepare_pcb}
use oslab_nju.Kernel.Boot.Start.{all_free, init_pcb-IsValid}

-- The queues with the first process runnable.
abbrev pub one_ready : Queues
one_ready = enqueue runnable_list (pcb_at 1) (dequeue free_list (pcb_at 1) all_free)

pub prepare_pcb_lem :
    (entry : ℕ) {s : Procs}
    → IsValid s all_free
    → s.current ≡ idle
    → (s.pcb idle).state ≡ running
    → s.p_num ≡ 1
    → (after : Procs) × (prepare_pcb entry s ≡ ok after)
      × IsValid after one_ready
      × (after.current ≡ idle)
      × ((after.pcb (pcb_at 1)).tf.eip ≡ entry)
      × ((after.pcb (pcb_at 1)).pid ≡ 1)
unfolding prepare_pcb delete_from add_to first_pcb
prepare_pcb_lem entry {s} v c r e =
    let w = v.queued in
    let (n, run, wn, rn) = list_delete_lem w free_list 7 (omega arith) refl in
    let out : Absent 7 (dequeue free_list 7 all_free) =
      dequeue-Absent w free_list 7 (omega arith) refl in
    let f : Pcb = first_pcb 1 entry (n 7) in
    let w2 = Queued-store wn 7 f (λ j. omega arith) out in
    let (m, run', wm, rm) =
      list_add_lem {m = store n 7 f} w2 runnable_list 7 (omega arith) (omega arith) refl out in
    let is_first : (m 7).pid ≡ 1 = ground (arith, rm 7) in
    let goes_on : (m idle).state ≡ running = ground (arith, rm idle, rn idle) in
    let after : Procs = record s { pcb = m; p_num = 2 } in
    (
      after,
      rw
          (
            e,
            run,
            load-ok n 7 (omega arith),
            run',
            list_head-cons wm runnable_list 7 [] (omega arith) refl,
            load-ok m 7 (omega arith),
            is_first,
            e,
          )
          refl,
      running-IsValid {s = after} wm (rw c (idle-Absent wm)) (inl c) (rw c goes_on),
      c,
      ground (arith, rm 7),
      is_first,
    )

-- From `initPcb` to the first process, as `kEntry` and `loadUMain` call them.
abbrev pub boot : ℕ → Kernel → Run Kernel
boot entry k = do k ← init_pcb k; with_procs (prepare_pcb entry) k

-- When the list of `dummysem` is empty, as in memory that is set to zero, `initPcb` and then
-- `preparePCB` of an entry point return. The first process is the only runnable one and begins at the
-- entry point, the lists are well formed, and `idle` runs.
pub boot_lem :
    (entry : ℕ) (k : Kernel)
    → (k.procs.pcb dummysem).next ≡ null
    → (after : Kernel) × (boot entry k ≡ ok after)
      × ((s : IsSound after) × (s.queues runnable_list ≡ pcb_at 1 ∷ []))
      × (after.procs.current ≡ idle)
      × ((after.procs.pcb (pcb_at 1)).tf.eip ≡ entry)
unfolding with_procs
boot_lem entry k e =
    let (k1, run, v, c, n) = init_pcb-IsValid k e in
    let (s, run', v', c', at, _) = prepare_pcb_lem entry v c (v.idle_runs c) n in
    (
      record k1 { procs = s },
      rw (run, run') refl,
      (record { queues = _; valid = v'; is_running = rw c' (v'.idle_runs c') }, refl),
      c',
      at,
    )
