-- ===== src/Proc/Queues/Moves.antt =====
-- `list_add`, `list_delete` and `list_head` of list.c on all four lists at once.
use oslab_nju.Prelude.{
  ◌≡◌, ◌≢◌, true, false, List, [], ◌∷◌, ◌++◌, ok, abort, inl, inr, ◌==◌, if◌then◌else◌, Bool-cases,
  has, erase, arith, has-append, has-erase_self, has_of_has-erase, distinct-erase,
  distinct-append_one, ==→eq,
}
use oslab_nju.Proc.{Ptr, null, Pcbs, IsObject, store}
use oslab_nju.Proc.Lists.{walk_fuel, list_add, list_delete, list_head}
use oslab_nju.Proc.Chain.{
  Chain, last, before, load-ok, has-last, has-before, last-IsObject, before-IsObject, next-last,
  next-before, before-absent, Chain-frame, list_last_lem, list_before_lem, Chain-append,
  Chain-erase,
}
use oslab_nju.Proc.Queues.{
  Queues, enqueue, dequeue, IsHead, IsPcb, home, Queued, Absent, length_bound, head-absent,
  Queued-frame,
}

-- `n` is `m` but for `next` fields.
abbrev pub Relinked : Pcbs → Pcbs → Type 0
Relinked m n = (x : Ptr) → n x ≡ record (m x) { next = (n x).next }

-- Linking at the end of `h`: the value of `next` at `d`, then at the last element.
abbrev linked : Pcbs → Ptr → Ptr → Pcbs
linked m l d x =
    if x == l
    then record (m x) { next = d }
    else if x == d
    then record (m x) { next = null }
    else m x

-- The table as `list_add` leaves it.
abbrev added : Pcbs → Ptr → Ptr → Pcbs
added m l d =
    let m1 = store m d (record (m d) { next = (m l).next }) in
    store m1 l (record (m1 l) { next = d })

-- Linking the element `b` in front of `d` to the one behind it.
abbrev unlinked : Pcbs → Ptr → Ptr → Pcbs
unlinked m b d = store m b (record (m b) { next = (m d).next })

module _ {m : Pcbs} {q : Queues} (w : Queued m q) where
  ne-last : (h d : Ptr) → IsHead h → Absent d q → IsPcb d → d ≢ last h (q h)
  ne-last h d i out p = ground (arith, has-last h (q h), out h i)

  -- Elements of different lists are different.
  other-ne :
      (h g x y : Ptr)
      → IsHead h
      → IsHead g
      → g ≢ h
      → has x (h ∷ q h) ≡ true
      → has y (g ∷ q g) ≡ true
      → y ≢ x
  other-ne h g x y i j ne a b =
      ground (arith, w.member h x i, w.member g y j, w.member h y i, w.member g x j)

  Queued-linked :
      (h d : Ptr)
      → IsHead h
      → IsPcb d
      → home (m d).state ≡ h
      → Absent d q
      → Queued (linked m (last h (q h)) d) (enqueue h d q)
  Queued-linked h d i p at out = record {
    chain = chain;
    nodup = λ g j. ground (arith, w.nodup g j, distinct-append_one d (q h), out h i);
    member = λ g x j e. ground (arith, w.member g x j, has-append x (q h) (d ∷ []));
  }
    where
      l : Ptr
      l = last h (q h)

      ne : d ≢ l
      ne = ne-last h d i out p

      spared :
          (g y : Ptr)
          → IsHead g
          → g ≢ h
          → has y (g ∷ q g) ≡ true
          → (linked m l d y).next ≡ (m y).next
      spared g y j k e = ground (arith, other-ne h g l y i j k (has-last h (q h)) e, out g j)

      front : Chain (linked m l d) h (q h ++ (d ∷ []))
      front =
          Chain-append m (linked m l d) d h (q h) (w.chain h i) (omega arith)
            (ground (arith, head-absent w h i, w.nodup h i)) (ground arith) (ground (arith, ne))
            (λ x a b. ground arith) (ground (arith, out h i))

      chain : (g : Ptr) → IsHead g → Chain (linked m l d) g (enqueue h d q g)
      chain g j = elim (Bool-cases (g == h)) [
        | inl e ↦ rw e (rw (==→eq g h e) front)
        | inr k ↦ rw k (
            Chain-frame m (linked m l d) g (q g) (λ y e. spared g y j (ground arith) e)
              (w.chain g j))
      ]

  -- From well-formed lists `list_add` puts a PCB of the list's state that stands in no list behind the
  -- others, and changes nothing but links. The lists stay well formed.
  pub list_add_lem :
      (h d : Ptr)
      → IsHead h
      → IsPcb d
      → home (m d).state ≡ h
      → Absent d q
      → (n : Pcbs) × (list_add h d m ≡ ok n) × Queued n (enqueue h d q) × Relinked m n
  unfolding list_add
  list_add_lem h d i p at out = (
    added m (last h (q h)) d,
    rw (list_last_lem walk_fuel m h (q h) (w.chain h i) (omega arith) (length_bound w h i)) (
        ground (
          arith,
          load-ok m (last h (q h)) o,
          load-ok m d (omega arith),
          load-ok m1 (last h (q h)) o,
        )),
    Queued-frame (Queued-linked h d i p at out) (added m (last h (q h)) d)
        (λ x. ground (arith, ne, next-last m h (q h) (w.chain h i))),
    λ x. ground (arith, ne),
  )
    where
      o : IsObject (last h (q h))
      o = last-IsObject m h (q h) (omega arith) (w.chain h i)

      ne : d ≢ last h (q h)
      ne = ne-last h d i out p

      m1 : Pcbs
      m1 = store m d (record (m d) { next = (m (last h (q h))).next })

  Queued-unlinked :
      (h d : Ptr)
      → IsHead h
      → has d (q h) ≡ true
      → Queued (unlinked m (before d h (q h)) d) (dequeue h d q)
  Queued-unlinked h d i in_h = record {
    chain = chain;
    nodup = λ g j. ground (arith, w.nodup g j, distinct-erase d (q h));
    member = λ g x j e. ground (arith, w.member g x j, has_of_has-erase x d (q h));
  }
    where
      b : Ptr
      b = before d h (q h)

      spared :
          (g y : Ptr)
          → IsHead g
          → g ≢ h
          → has y (g ∷ q g) ≡ true
          → (unlinked m b d y).next ≡ (m y).next
      spared g y j k e = ground (arith, other-ne h g b y i j k (has-before d h (q h)) e)

      front : Chain (unlinked m b d) h (erase d (q h))
      front =
          Chain-erase m (unlinked m b d) d h (q h) (w.chain h i)
            (ground (arith, head-absent w h i, w.nodup h i)) in_h (ground arith)
            (λ x a. ground arith)

      chain : (g : Ptr) → IsHead g → Chain (unlinked m b d) g (dequeue h d q g)
      chain g j = elim (Bool-cases (g == h)) [
        | inl e ↦ rw e (rw (==→eq g h e) front)
        | inr k ↦ rw k (
            Chain-frame m (unlinked m b d) g (q g) (λ y e. spared g y j (ground arith) e)
              (w.chain g j))
      ]

  -- From well-formed lists `list_delete` takes a member out of its list, and changes nothing but
  -- links. The lists stay well formed.
  pub list_delete_lem :
      (h d : Ptr)
      → IsHead h
      → has d (q h) ≡ true
      → (n : Pcbs) × (list_delete h d m ≡ ok n) × Queued n (dequeue h d q) × Relinked m n
  unfolding list_delete
  list_delete_lem h d i in_h = (
    unlinked m (before d h (q h)) d,
    rw (list_before_lem walk_fuel m d h (q h) (w.chain h i) (omega arith) (length_bound w h i))
        (ground (arith, load-ok m (before d h (q h)) o, load-ok m d, w.member h d i, e)),
    Queued-unlinked h d i in_h,
    λ x. ground arith,
  )
    where
      o : IsObject (before d h (q h))
      o = before-IsObject m d h (q h) (omega arith) (w.chain h i)

      e : (m (before d h (q h))).next ≡ d
      e = next-before m d h (q h) (w.chain h i) in_h

  -- `list_delete` of a PCB that a well-formed list does not hold fails its assertion.
  pub list_delete-absent : (h d : Ptr) → IsHead h → has d (q h) ≡ false → list_delete h d m ≡ abort
  unfolding list_delete
  list_delete-absent h d i out =
      rw (list_before_lem walk_fuel m d h (q h) (w.chain h i) (omega arith) (length_bound w h i)) (
        ground (
          arith,
          load-ok m (before d h (q h)) o,
          next-last m h (q h) (w.chain h i),
          before-absent d h (q h) out,
        ))
    where
      o : IsObject (before d h (q h))
      o = before-IsObject m d h (q h) (omega arith) (w.chain h i)

  -- `list_head` is the first element.
  pub list_head-cons : (h x : Ptr) (xs : List Ptr) → IsHead h → q h ≡ x ∷ xs → list_head h m ≡ ok x
  unfolding list_head
  list_head-cons h x xs i e =
      ground (arith, load-ok m h (omega arith), first, w.member h x i (rw e (ground arith)))
    where
      first : (m h).next ≡ x
      first = let c : Chain m h (x ∷ xs) = rw e at (w.chain h i) in c.0

  -- Of an empty list `list_head` fails its assertion.
  pub list_head-nil : (h : Ptr) → IsHead h → q h ≡ [] → list_head h m ≡ abort
  unfolding list_head
  list_head-nil h i e = ground (arith, load-ok m h (omega arith), none_first)
    where
      none_first : (m h).next ≡ null
      none_first = let c : Chain m h [] = rw e at (w.chain h i) in c

  -- What has been taken out of its list stands in no list.
  pub dequeue-Absent : (h x : Ptr) → IsHead h → has x (q h) ≡ true → Absent x (dequeue h x q)
  dequeue-Absent h x i e g j =
      ground (arith, w.member h x i, w.member g x j, has-erase_self x (q h), w.nodup h i)
