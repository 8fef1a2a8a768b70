-- ===== src/Tests/World.antt =====
-- A small system: process 1 runs, 2 is runnable, 3 waits, and PCB 4 is free.
use oslab_nju.Prelude.{
  ℕ, ◌≡◌, ◌⊎◌, inl, inr, refl, true, false, [], ◌∷◌, ◌==◌, if◌then◌else◌, has, distinct, arith,
}
use oslab_nju.Proc.{
  Ptr, blocked_list, dummysem, PState, runnable, running, blocked, sem_blocked, dead, TrapFrame,
  Pcb, Pcbs,
}
use oslab_nju.Proc.Chain.{Chain}
use oslab_nju.Proc.Queues.{Queues, IsHead, IsPcb, home}
use oslab_nju.Sched.{Procs}
use oslab_nju.Sched.Valid.{IsValid}

abbrev pub frame : TrapFrame
frame = record {
  gs = 0;
  fs = 0;
  es = 0;
  ds = 0;
  edi = 0;
  esi = 0;
  ebp = 0;
  xxx = 0;
  ebx = 0;
  edx = 0;
  ecx = 0;
  eax = 0;
  irq = 0x80;
  error = 0;
  eip = 0;
  cs = 0;
  eflags = 0x202;
  esp = 0;
  ss = 0;
}

abbrev pub pcb : PState → ℕ → ℕ → Ptr → Pcb
pcb st pid time next = record {
  tf = frame;
  state = st;
  time_count = 1;
  sleep_time = time;
  pid = pid;
  ppid = 1;
  fp_num = 3;
  filepointer = 0 ∷ 1 ∷ 2 ∷ [];
  psem = 100;
  next = next;
}

-- The third process waits in the list with the head `at`, in the state `st`.
abbrev pub table : Ptr → PState → Pcbs
table at st p =
    if p == 7
    then pcb running 1 0 0
    else if p == 8
    then pcb runnable 2 0 0
    else if p == 9
    then pcb st 3 1 0
    else if p == 2
    then pcb dead 0 0 8
    else if p == 4
    then pcb dead 0 0 10
    else if p == at
    then pcb dead 0 0 9
    else pcb dead 0 0 0

abbrev pub queues : Ptr → Queues
queues at h = if h == 2 then 8 ∷ [] else if h == 4 then 10 ∷ [] else if h == at then 9 ∷ [] else []

abbrev pub procs : Ptr → PState → ℕ → Procs
procs at st value = record {
  pcb = table at st;
  current = 7;
  sems = λ a. record { value = value; list = dummysem };
  p_num = 4;
  esp0 = 7;
  serial = [];
}

-- The third process sleeps, or waits for a semaphore.
abbrev pub sleeping : Procs
sleeping = procs blocked_list blocked 1

abbrev pub waiting : Procs
waiting = procs dummysem sem_blocked 0xffff_ffff

at_head : (P : Ptr → Type 0) → P 2 → P 3 → P 4 → P 5 → (h : Ptr) → IsHead h → P h
at_head P a b c d h i = go cases
  where
    cases : (h ≡ 2) ⊎ (h ≡ 3) ⊎ (h ≡ 4) ⊎ (h ≡ 5)
    cases = omega arith

    go : (h ≡ 2) ⊎ (h ≡ 3) ⊎ (h ≡ 4) ⊎ (h ≡ 5) → P h
    go (inl e) = rw e a
    go (inr (inl e)) = rw e b
    go (inr (inr (inl e))) = rw e c
    go (inr (inr (inr e))) = rw e d

single : (P : Ptr → Type 0) (x y : Ptr) → has x (y ∷ []) ≡ true → P y → P x
single P x y e p = let same : x ≡ y = ground arith in rw same p

abbrev Member : Pcbs → Queues → Ptr → Ptr → Type 0
Member m q h x = IsPcb x × (home (m x).state ≡ h)

pub sleeping-IsValid : IsValid sleeping (queues blocked_list)
sleeping-IsValid = record {
  queued = record {
    chain =
        at_head (λ g. Chain (table blocked_list blocked) g (queues blocked_list g))
          (refl, omega arith, refl) (refl, omega arith, refl) (refl, omega arith, refl) refl;
    nodup = at_head (λ g. distinct (queues blocked_list g) ≡ true) refl refl refl refl;
    member = λ h x i e.
        at_head
          (λ g.
            has x (queues blocked_list g) ≡ true
            → Member (table blocked_list blocked) (queues blocked_list) g x)
          (λ e.
            single (Member (table blocked_list blocked) (queues blocked_list) 2) x 8 e
              (omega arith, refl))
          (λ e.
            single (Member (table blocked_list blocked) (queues blocked_list) 3) x 9 e
              (omega arith, refl))
          (λ e.
            single (Member (table blocked_list blocked) (queues blocked_list) 4) x 10 e
              (omega arith, refl))
          (λ e. absurd (ground arith)) h i e;
  };
  current_absent = at_head (λ g. has 7 (queues blocked_list g) ≡ false) refl refl refl refl;
  current_object = omega arith;
  current_state = λ e. cc;
  idle_runs = λ e. absurd (omega arith);
}

pub waiting-IsValid : IsValid waiting (queues dummysem)
waiting-IsValid = record {
  queued = record {
    chain =
        at_head (λ g. Chain (table dummysem sem_blocked) g (queues dummysem g))
          (refl, omega arith, refl) refl (refl, omega arith, refl) (refl, omega arith, refl);
    nodup = at_head (λ g. distinct (queues dummysem g) ≡ true) refl refl refl refl;
    member = λ h x i e.
        at_head
          (λ g.
            has x (queues dummysem g) ≡ true
            → Member (table dummysem sem_blocked) (queues dummysem) g x)
          (λ e.
            single (Member (table dummysem sem_blocked) (queues dummysem) 2) x 8 e
              (omega arith, refl))
          (λ e. absurd (ground arith))
          (λ e.
            single (Member (table dummysem sem_blocked) (queues dummysem) 4) x 10 e
              (omega arith, refl))
          (λ e.
            single (Member (table dummysem sem_blocked) (queues dummysem) 5) x 9 e
              (omega arith, refl))
          h i e;
  };
  current_absent = at_head (λ g. has 7 (queues dummysem g) ≡ false) refl refl refl refl;
  current_object = omega arith;
  current_state = λ e. cc;
  idle_runs = λ e. absurd (omega arith);
}
