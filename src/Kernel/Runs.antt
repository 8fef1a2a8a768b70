-- ===== src/Kernel/Runs.antt =====
-- Any sequence of clock interrupts and of the calls sleep, exit and fork.
use mathlib.Core.Path.{subst}
use oslab_nju.Prelude.{
  eq→==, abort, ap, ℕ, ◌≡◌, ◌≢◌, refl, sym, ◌∙◌, false, inl, inr, Run, ok, Bool-cases, has,
}
use oslab_nju.Proc.{idle, free_list, pcb_at, running}
use oslab_nju.Proc.Queues.{Queues}
use oslab_nju.Sched.Valid.{IsValid}
use oslab_nju.Sched.Timer.{timer_handle_refines}
use oslab_nju.Kernel.{Kernel, with_procs}
use oslab_nju.Kernel.Process.{sleep_aux, exit_aux, fork_aux}
use oslab_nju.Kernel.Process.Spec.{sleep_aux_lem, exit_aux_lem, fork_aux-abort}
use oslab_nju.Kernel.Process.Share.{AreOpen}
use oslab_nju.Kernel.Process.Fork.{fork_aux_lem}
use oslab_nju.Kernel.Trap.{timer_interrupt}

-- What happens between two states: the clock ticks in the current process, or that process, which
-- is not `idle`, calls the kernel.
pub data Happens (k k' : Kernel) : Type 0 where
  ticks : timer_interrupt false k.procs.current k ≡ ok k' → Happens k k'
  sleeps : (time : ℕ) → k.procs.current ≢ idle → sleep_aux time k ≡ ok k' → Happens k k'
  exits : k.procs.current ≢ idle → exit_aux k ≡ ok k' → Happens k k'
  forks :
      AreOpen (k.procs.pcb k.procs.current).filepointer k.files → fork_aux k ≡ ok k' → Happens k k'

pub data Runs (k : Kernel) : Kernel → Type 0 where
  start : Runs k k
  then : {k' k'' : Kernel} → Runs k k' → Happens k' k'' → Runs k k''

-- The process lists are well formed, and the current process runs.
pub record IsSound (k : Kernel) : Type 0 where
  pub queues : Queues
  pub valid : IsValid k.procs queues
  pub is_running : (k.procs.pcb k.procs.current).state ≡ running

-- A step returns, in a sound state.
abbrev pub Returns : Run Kernel → Type 0
Returns r = (k : Kernel) × (r ≡ ok k) × IsSound k

ok-injective : {k k' : Kernel} {r : Run Kernel} → r ≡ ok k → r ≡ ok k' → k ≡ k'
ok-injective a b = cc

returned : {r : Run Kernel} {k' : Kernel} → Returns r → r ≡ ok k' → IsSound k'
returned (k, e, s) f = subst IsSound (ok-injective e f) s

module _ {k : Kernel} (s : IsSound k) where
  pub tick-Returns : Returns (timer_interrupt false k.procs.current k)
  unfolding timer_interrupt with_procs
  tick-Returns =
      let t = timer_handle_refines s.valid s.is_running in
      (
        record k { procs = t.after },
        rw (eq→== k.procs.current k.procs.current refl, t.runs) refl,
        record { queues = _; valid = t.valid; is_running = t.is_running },
      )

  sleep-Returns : (time : ℕ) → k.procs.current ≢ idle → Returns (sleep_aux time k)
  sleep-Returns time ne =
      let l = (sleep_aux_lem time s.valid ne).0 in
      (l.after, l.runs, record { queues = _; valid = l.valid; is_running = l.is_running })

  exit-Returns : k.procs.current ≢ idle → Returns (exit_aux k)
  exit-Returns ne =
      let l = (exit_aux_lem s.valid ne).0 in
      (l.after, l.runs, record { queues = _; valid = l.valid; is_running = l.is_running })

  -- A fork that returns has found its PCB free.
  fork-IsSound :
      {k' : Kernel}
      → AreOpen (k.procs.pcb k.procs.current).filepointer k.files
      → fork_aux k ≡ ok k'
      → IsSound k'
  fork-IsSound good e = elim (Bool-cases (has (pcb_at k.procs.p_num) (s.queues free_list))) [
    | inl free ↦
        let f = fork_aux_lem s.valid free good in
        returned
          (
            f.after,
            f.runs,
            record {
              queues = _;
              valid = f.valid;
              is_running =
                  ap (λ x. (f.after.procs.pcb x).state) f.current ∙ f.father.1 ∙ s.is_running;
            },
          )
          e
    | inr taken ↦ absurd (aborts (sym (fork_aux-abort k (s.valid.queued) taken) ∙ e))
  ]
    where
      aborts : {k' : Kernel} → ◌≡◌ {A = Run Kernel} abort (ok k') → ⊥
      aborts h = cc

  Happens-IsSound : {k' : Kernel} → Happens k k' → IsSound k'
  Happens-IsSound (ticks e) = returned tick-Returns e
  Happens-IsSound (sleeps time ne e) = returned (sleep-Returns time ne) e
  Happens-IsSound (exits ne e) = returned (exit-Returns ne) e
  Happens-IsSound (forks good e) = fork-IsSound good e

later-IsSound : {k k' : Kernel} → IsSound k → Runs k k' → IsSound k'
later-IsSound s start = s
later-IsSound s (then r h) = Happens-IsSound (later-IsSound s r) h

-- After any sequence of clock interrupts and of calls of sleep, exit and fork that return, from a
-- state with well-formed lists and a current process that runs, the lists are well formed and the
-- current process runs; and the next clock interrupt returns in such a state. The calls are not
-- those of `idle`, and a process that forks has good descriptors.
pub Runs-IsSound :
    {k k' : Kernel}
    → IsSound k
    → Runs k k'
    → IsSound k' × Returns (timer_interrupt false k'.procs.current k')
Runs-IsSound s r = let t = later-IsSound s r in (t, tick-Returns t)
