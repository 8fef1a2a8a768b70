-- ===== src/Kernel/FileTable/Forked.antt =====
-- The table of open files over a `fork_aux`.
use oslab_nju.Prelude.{
  ℕ, ◌+◌, ◌<◌, ◌≡◌, ◌≢◌, ◌∙◌, sym, ap, true, List, ok, ◌==◌, Bool-cases, inl, inr, arith, ==→eq,
  length, has, get_or,
}
use oslab_nju.Proc.{Ptr, free_list, pcb_at}
use oslab_nju.Proc.Queues.{Queues}
use oslab_nju.Sched.Valid.{IsValid}
use oslab_nju.Kernel.{Kernel}
use oslab_nju.Kernel.Process.{fork_aux}
use oslab_nju.Kernel.Process.Share.{users, no_file, AreOpen}
use oslab_nju.Kernel.Process.Fork.{Forks, fork_aux_lem}
use oslab_nju.Kernel.FileTable.{IsUser, InOrder, links, total-change, total-bound, total-part}

module _ {k : Kernel} (w : InOrder k) (u : IsUser k.procs.current) where
  -- The count of links has room.
  pub InOrder-AreOpen : AreOpen (k.procs.pcb k.procs.current).filepointer k.files
  InOrder-AreOpen i h ne =
      let b = w.named k.procs.current u i h ne in
      let many = total-bound i k.procs.pcb 9 7 (λ x a c. w.sizes x (omega arith, omega arith)) in
      (b, omega (arith, many, w.counted i b, w.sizes k.procs.current u))

  module _ {q : Queues} (u' : IsUser (pcb_at k.procs.p_num))
      (ne : k.procs.current ≢ pcb_at k.procs.p_num)
      (fresh : (i : ℕ)
        → i < length k.files
        → users i (k.procs.pcb (pcb_at k.procs.p_num)).filepointer ≡ 0)
      (r : Forks k q (fork_aux k)) where
    fps : List ℕ
    fps = (k.procs.pcb k.procs.current).filepointer

    child_fps : (r.after.procs.pcb (pcb_at k.procs.p_num)).filepointer ≡ fps
    unfolding fps
    child_fps = r.child.6

    elsewhere :
        (x : Ptr)
        → x ≢ pcb_at k.procs.p_num
        → (r.after.procs.pcb x).filepointer ≡ (k.procs.pcb x).filepointer
    elsewhere x other = elim (Bool-cases (x == k.procs.current)) [
      | inl e ↦ rw (==→eq x k.procs.current e) r.father.2
      | inr e ↦ ap (λ c. c.filepointer) (r.others x (λ p. ground (arith, p, e)) other)
    ]

    forked-links : (i : ℕ) → i < length k.files → links i r.after ≡ links i k + users i fps
    forked-links i b =
        let change =
          total-change i k.procs.pcb r.after.procs.pcb 9 7 (pcb_at k.procs.p_num) u'.0
            (omega (arith, u')) elsewhere in
        omega (arith, change, fresh i b, ap (users i) child_fps)

    entry-of :
        (i : ℕ)
        → i < length k.files
        → ((get_or r.after.files i no_file).link_num
            ≡ (get_or k.files i no_file).link_num + users i fps)
          × ((get_or r.after.files i no_file).inode_index ≡ (get_or k.files i no_file).inode_index)
    unfolding fps
    entry-of i b =
        let e = r.links.1 i b (omega (arith, w.table, b)) in
        (ap (λ f. f.link_num) e, ap (λ f. f.inode_index) e)

    fps_of :
        (p : Ptr)
        → IsUser p
        → (s : Ptr) × IsUser s × ((r.after.procs.pcb p).filepointer ≡ (k.procs.pcb s).filepointer)
    unfolding fps
    fps_of p o = elim (Bool-cases (p == pcb_at k.procs.p_num)) [
      | inl e ↦ (
        k.procs.current,
        u,
        ap (λ x. (r.after.procs.pcb x).filepointer) (==→eq p _ e) ∙ child_fps,
      )
      | inr e ↦ (p, o, elsewhere p (λ z. ground (arith, z, e)))
    ]

    forked-InOrder : InOrder r.after
    unfolding fps
    forked-InOrder = record {
      counted = λ i b.
          omega (arith, (entry-of i (old i b)).0, forked-links i (old i b), w.counted i (old i b));
      unused = λ i b z.
          (entry-of i (old i b)).1
          ∙ w.unused i (old i b) (omega (arith, z, (entry-of i (old i b)).0));
      in_use = λ i b z.
          let none = w.in_use i (old i b) (sym (entry-of i (old i b)).1 ∙ z) in
          let part = total-part i k.procs.pcb 9 7 k.procs.current u.0 (omega (arith, u)) in
          omega (arith, none, part, w.counted i (old i b), (entry-of i (old i b)).0);
      named = λ p o i h other.
          let (s, o', e) = fps_of p o in
          omega (arith, w.named s o' i (sym (ap (has i) e) ∙ h) other, r.links.0);
      sizes = λ p o. let (s, o', e) = fps_of p o in ap (λ l. length l) e ∙ w.sizes s o';
      table = r.links.0 ∙ w.table;
    }
      where
        old : (i : ℕ) → i < length r.after.files → i < length k.files
        old i b = omega (arith, b, r.links.0)

-- `fork_aux` keeps the table of open files in order: from well-formed lists, when the PCB with the index
-- `p_num` is free and names no file, it always returns, and each entry still counts the
-- descriptors of all processes, the child's among them.
pub fork_aux-InOrder :
    (k : Kernel) (q : Queues)
    → IsValid k.procs q
    → has (pcb_at k.procs.p_num) (q free_list) ≡ true
    → InOrder k
    → IsUser k.procs.current
    → IsUser (pcb_at k.procs.p_num)
    → ((i : ℕ) → i < length k.files → users i (k.procs.pcb (pcb_at k.procs.p_num)).filepointer ≡ 0)
    → (after : Kernel) × (fork_aux k ≡ ok after) × InOrder after
fork_aux-InOrder k q v free w u u' fresh =
    let r : Forks k q (fork_aux k) = fork_aux_lem v free (InOrder-AreOpen w u) in
    let ne : k.procs.current ≢ pcb_at k.procs.p_num = ground (arith, v.current_absent free_list) in
    (r.after, r.runs, forked-InOrder w u u' ne fresh r)
