-- ===== src/Proc/Queues.antt =====
-- The four process lists taken together: which list each PCB stands in, and what `list_add`,
-- `list_delete` and `list_head` do to all of them at once.
pub mod Moves
use oslab_nju.Prelude.{
  ℕ, suc, ◌+◌, ◌≤◌, ◌<◌, ◌≡◌, ◌≢◌, refl, ap, Bool, true, false, List, [], ◌∷◌, ◌++◌, Run, ok, abort,
  inl, inr, ◌>>=◌, ◌==◌, if◌then◌else◌, Bool-cases, length, has, distinct, erase, arith, has-append,
  has-erase_self, has_of_has-erase, distinct-erase, distinct-append_one, length_of_distinct,
}
use oslab_nju.Proc.{
  Ptr, null, idle, runnable_list, blocked_list, free_list, dummysem, PState, runnable, running,
  blocked, sem_blocked, dead, Pcb, Pcbs, IsObject, load, store,
}
use oslab_nju.Proc.Lists.{walk_fuel, list_last, list_add, list_before, list_delete, list_head}
use oslab_nju.Proc.Chain.{
  Chain, last, before, load-ok, has-last, has-before, last-IsObject, before-IsObject, next-last,
  next-before, Chain-frame, list_last_lem, list_before_lem, Chain-append, Chain-erase,
}

-- The content of each list, by the address of its head.
abbrev pub Queues : Type 0
Queues = Ptr → List Ptr

abbrev pub update : Queues → Ptr → List Ptr → Queues
update q h xs g = if g == h then xs else q g

abbrev pub enqueue : Ptr → Ptr → Queues → Queues
enqueue h p q = update q h (q h ++ (p ∷ []))

abbrev pub dequeue : Ptr → Ptr → Queues → Queues
dequeue h p q = update q h (erase p (q h))

abbrev pub IsHead : Ptr → Type 0
IsHead h = (2 ≤ h) × (h < 6)

-- A `&pcb[i]`.
abbrev pub IsPcb : Ptr → Type 0
IsPcb p = (6 ≤ p) × (p < 16)

-- The list that a process of a state stands in; a running process stands in none.
abbrev pub home : PState → Ptr
home runnable = runnable_list
home running = null
home blocked = blocked_list
home sem_blocked = dummysem
home dead = free_list

-- Each list leads through distinct PCBs to NULL, and each PCB's state is that of its list.
pub record Queued (m : Pcbs) (q : Queues) : Type 0 where
  pub chain : (h : Ptr) → IsHead h → Chain m h (q h)
  pub nodup : (h : Ptr) → IsHead h → distinct (q h) ≡ true
  pub member : (h x : Ptr) → IsHead h → has x (q h) ≡ true → IsPcb x × (home (m x).state ≡ h)

abbrev pub Absent : Ptr → Queues → Type 0
Absent p q = (h : Ptr) → IsHead h → has p (q h) ≡ false

module _ {m : Pcbs} {q : Queues} (w : Queued m q) where
  pub length_bound : (h : Ptr) → IsHead h → length (q h) < walk_fuel
  length_bound h i =
      omega (arith, length_of_distinct 10 6 (q h) (w.nodup h i) λ x e. (w.member h x i e).0)

  pub head-absent : (h : Ptr) → IsHead h → has h (q h) ≡ false
  head-absent h i = ground (arith, w.member h h i)

  -- A PCB whose state's list is not `h` does not stand in `h`.
  pub absent_of_home : (h p : Ptr) → IsHead h → home (m p).state ≢ h → has p (q h) ≡ false
  absent_of_home h p i ne = ground (arith, w.member h p i)

  -- A change that keeps the links and states of all heads and members keeps the lists.
  pub Queued-frame :
      (n : Pcbs)
      → ((x : Ptr) → ((n x).next ≡ (m x).next) × ((n x).state ≡ (m x).state))
      → Queued n q
  Queued-frame n same = record {
    chain = λ h i. Chain-frame m n h (q h) (λ x _. (same x).0) (w.chain h i);
    nodup = w.nodup;
    member = λ h x i e. ((w.member h x i e).0, ground (arith, same x, w.member h x i e));
  }

  -- So does any change of a PCB that stands in no list.
  pub Queued-store : (p : Ptr) (c : Pcb) → (IsHead p → ⊥) → Absent p q → Queued (store m p c) q
  Queued-store p c nh out = record {
    chain = λ h i. Chain-frame m (store m p c) h (q h) (λ x e. spared h x i e) (w.chain h i);
    nodup = w.nodup;
    member = λ h x i e. ground (arith, w.member h x i e, out h i);
  }
    where
      spared : (h x : Ptr) → IsHead h → has x (h ∷ q h) ≡ true → (store m p c x).next ≡ (m x).next
      spared h x i e = ground (arith, out h i, nh)

-- The lists are those of any equal queues.
pub Queued-ext :
    {m : Pcbs} {q p : Queues} → Queued m q → ((h : Ptr) → IsHead h → p h ≡ q h) → Queued m p
Queued-ext w e = record {
  chain = λ h i. rw (e h i) (w.chain h i);
  nodup = λ h i. rw (e h i) (w.nodup h i);
  member = λ h x i k. w.member h x i (rw (e h i) at k);
}
