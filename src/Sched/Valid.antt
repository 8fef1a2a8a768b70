-- ===== src/Sched/Valid.antt =====
-- What the scheduler relies on and keeps, and the queues that it stands for.
use oslab_nju.Prelude.{◌≡◌, ◌≢◌, ◌⊎◌, refl, List, [], ◌∷◌, ◌++◌, ◌==◌, if◌then◌else◌, arith}
use oslab_nju.Proc.{
  Ptr, null, idle, runnable_list, blocked_list, free_list, dummysem, PState, runnable, running,
  blocked, sem_blocked, dead, Pcbs,
}
use oslab_nju.Proc.Queues.{Queues, enqueue, dequeue, IsPcb, home, Queued, Absent}
use oslab_nju.Proc.Queues.Moves.{Relinked}
use oslab_nju.Sched.{Procs}

-- The lists are well formed and hold `q`; the current process stands in none of them, is not marked
-- runnable, and is running if it is `idle`.
pub record IsValid (s : Procs) (q : Queues) : Type 0 where
  pub queued : Queued s.pcb q
  pub current_absent : Absent s.current q
  pub current_object : (s.current ≡ idle) ⊎ IsPcb s.current
  pub current_state : (s.pcb s.current).state ≢ runnable
  pub idle_runs : s.current ≡ idle → (s.pcb idle).state ≡ running

-- A process that waits for a semaphore has one, with the common queue.
abbrev pub CanWait : Procs → Type 0
CanWait s =
    (s.pcb s.current).state ≡ sem_blocked
    → ((s.pcb s.current).psem ≢ null) × ((s.sems (s.pcb s.current).psem).list ≡ dummysem)

-- `n` is `m` but for links, states and times.
abbrev pub Kept : Pcbs → Pcbs → Type 0
Kept m n =
    (x : Ptr)
    → n x ≡ record (m x) {
      next = (n x).next;
      state = (n x).state;
      time_count = (n x).time_count;
      sleep_time = (n x).sleep_time;
    }

-- Of no process but `x` is the sleeping time different.
abbrev pub SameTimes : Ptr → Pcbs → Pcbs → Type 0
SameTimes x m n = (y : Ptr) → y ≢ x → (n y).sleep_time ≡ (m y).sleep_time

pub Kept-trans : (m n o : Pcbs) → Kept m n → Kept n o → Kept m o
Kept-trans m n o a b x = ground (arith, a x, b x)

pub Relinked-Kept : (m n : Pcbs) → Relinked m n → Kept m n
Relinked-Kept m n r x = ground (arith, r x)

-- The queues once the current process has left the processor.
abbrev pub parked : PState → Ptr → Queues → Queues
parked runnable cur q = q
parked running cur q = if cur == idle then q else enqueue runnable_list cur q
parked blocked cur q = enqueue blocked_list cur q
parked sem_blocked cur q = enqueue dummysem cur q
parked dead cur q = enqueue free_list cur q

-- Round robin: what `schedule` does to the queues and which process it picks.
pub record Turn : Type 0 where
  pub queue : Queues
  pub current : Ptr

abbrev pub stays : PState → Ptr → Queues → Turn
stays running cur q = record { queue = q; current = cur }
stays st cur q = record { queue = parked st cur q; current = idle }

abbrev pub turn_of : List Ptr → PState → Ptr → Queues → Turn
turn_of [] st cur q = stays st cur q
turn_of (x ∷ xs) st cur q = record {
  queue = dequeue runnable_list x (parked st cur q);
  current = x;
}

abbrev pub next_turn : PState → Ptr → Queues → Turn
next_turn st cur q = turn_of (q runnable_list) st cur q

-- The kernel stack of the next interrupt changes when a process is picked from the list.
abbrev pub stack_of : List Ptr → Ptr → Ptr
stack_of [] esp0 = esp0
stack_of (x ∷ xs) esp0 = x

-- A process that leaves the processor without being runnable is the last one of the list of its state.
pub turn-home :
    (l : List Ptr) (st : PState) (cur : Ptr) (q : Queues)
    → st ≢ running
    → st ≢ runnable
    → (turn_of l st cur q).queue (home st) ≡ q (home st) ++ (cur ∷ [])
turn-home l running cur q n m = absurd (n refl)
turn-home l runnable cur q n m = absurd (m refl)
turn-home [] blocked cur q n m = refl
turn-home (x ∷ xs) blocked cur q n m = refl
turn-home [] sem_blocked cur q n m = refl
turn-home (x ∷ xs) sem_blocked cur q n m = refl
turn-home [] dead cur q n m = refl
turn-home (x ∷ xs) dead cur q n m = refl

pub home-injective : (st st' : PState) → home st ≡ home st' → st ≡ st'
home-injective st st' e = ground arith
