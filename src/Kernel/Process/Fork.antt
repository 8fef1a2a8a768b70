-- ===== src/Kernel/Process/Fork.antt =====
-- A `fork_aux` that succeeds.
use oslab_nju.Prelude.{
  ℕ, ◌+◌, ◌<◌, ◌≤◌, ◌≡◌, ◌≢◌, ◌⊎◌, refl, ◌∙◌, sym, ap, true, List, [], ◌∷◌, Run, ok, has,
  has-append, has_of_has-erase, arith,
}
use oslab_nju.Prelude.Word.{add32}
use oslab_nju.Proc.Lists.{list_add, list_delete}
use oslab_nju.Proc.{
  Ptr, idle, IsObject, running, runnable_list, free_list, pcb_at, runnable, Pcb, Pcbs, store,
}
use oslab_nju.Proc.Chain.{load-ok}
use oslab_nju.Proc.Queues.{Queues, enqueue, dequeue, IsPcb, home, Absent, Queued-store}
use oslab_nju.Proc.Queues.Moves.{Relinked, list_add_lem, list_delete_lem, dequeue-Absent}
use oslab_nju.Sched.{Procs, delete_from, add_to}
use oslab_nju.Sched.Valid.{IsValid}
use oslab_nju.Sched.Steps.{object, not_head}
use oslab_nju.Kernel.{Kernel, SysFile, load_current, store_current, return_value, with_procs}
use oslab_nju.Kernel.Process.{share_files, child_frame, child_of, copy_user, fork_aux}
use oslab_nju.Kernel.Process.Share.{AreOpen, Shared, share_files_lem}

-- The register by which a system call gives its result.
abbrev with_result : ℕ → Pcb → Pcb
with_result v c = record c { tf = record c.tf { eax = v } }

-- The processes after a fork of `q`: the child with the number `n` runs after those that wait to run.
abbrev pub forked : ℕ → Queues → Queues
forked n q = enqueue runnable_list (pcb_at n) (dequeue free_list (pcb_at n) q)

-- The father goes on with the number of the child, and the child, which is runnable, will do so with
-- 0, at the same place, with the same descriptors. The memory of process 1 is copied to that of the
-- others.
pub record Forks (k : Kernel) (q : Queues) (r : Run Kernel) : Type 0 where
  pub after : Kernel
  pub runs : r ≡ ok after
  pub valid : IsValid after.procs (forked k.procs.p_num q)
  pub current : after.procs.current ≡ k.procs.current
  pub father :
      ((after.procs.pcb k.procs.current).tf.eax ≡ k.procs.p_num)
      × ((after.procs.pcb k.procs.current).state ≡ (k.procs.pcb k.procs.current).state)
      × ((after.procs.pcb k.procs.current).filepointer ≡ (k.procs.pcb k.procs.current).filepointer)
  pub child :
      let c = after.procs.pcb (pcb_at k.procs.p_num) in
      let f = k.procs.pcb k.procs.current in
      (c.state ≡ runnable)
      × (c.pid ≡ k.procs.p_num)
      × (c.ppid ≡ f.pid)
      × (c.tf.eax ≡ 0)
      × (c.tf.eip ≡ f.tf.eip)
      × (c.tf.esp ≡ f.tf.esp)
      × (c.filepointer ≡ f.filepointer)
      × (c.psem ≡ f.psem)
  pub others :
      (x : Ptr)
      → x ≢ k.procs.current
      → x ≢ pcb_at k.procs.p_num
      → after.procs.pcb x ≡ record (k.procs.pcb x) { next = (after.procs.pcb x).next }
  pub links : Shared (k.procs.pcb k.procs.current).filepointer k.files after.files
  pub memory :
      ((a : ℕ) → a < 0x20_0000 → after.mem (0x40_0000 + a) ≡ k.mem (0x20_0000 + a))
      × ((a : ℕ) → (a < 0x40_0000) ⊎ (0x60_0000 ≤ a) → after.mem a ≡ k.mem a)
  pub semaphores :
      ((a : ℕ) → a < 0x20_0000 → after.procs.sems (0x40_0000 + a) ≡ k.procs.sems (0x20_0000 + a))
      × ((a : ℕ) → (a < 0x40_0000) ⊎ (0x60_0000 ≤ a) → after.procs.sems a ≡ k.procs.sems a)
  pub p_num : after.procs.p_num ≡ add32 k.procs.p_num 1

-- The table with the child's PCB filled in and the father's result, before the last list is linked.
abbrev filled_in : Procs → Pcbs → Pcbs
filled_in s n =
    let m = store n (pcb_at s.p_num) (child_of s.p_num (n s.current) (n (pcb_at s.p_num))) in
    store m s.current (with_result s.p_num (m s.current))

abbrev finished : Kernel → Pcbs → List SysFile → Kernel
finished k m files = record k {
  files = files;
  procs = record k.procs { pcb = m; sems = copy_user k.procs.sems; p_num = add32 k.procs.p_num 1 };
  mem = copy_user k.mem;
}

fork-runs :
    (k : Kernel) (n m : Pcbs) (files : List SysFile)
    → IsObject k.procs.current
    → IsObject (pcb_at k.procs.p_num)
    → list_delete free_list (pcb_at k.procs.p_num) k.procs.pcb ≡ ok n
    → share_files (n k.procs.current).filepointer k.files ≡ ok files
    → list_add runnable_list (pcb_at k.procs.p_num) (filled_in k.procs n) ≡ ok m
    → fork_aux k ≡ ok (finished k m files)
unfolding fork_aux with_procs delete_from add_to load_current store_current return_value
fork-runs k n m files o o' deleted shared added =
    let p = pcb_at k.procs.p_num in
    rw
      (
        deleted,
        load-ok n k.procs.current o,
        shared,
        load-ok n p o',
        load-ok (store n p (child_of k.procs.p_num (n k.procs.current) (n p))) k.procs.current o,
        added,
      )
      refl

child-home :
    (s : Procs) (n : Pcbs)
    → s.current ≢ pcb_at s.p_num
    → home (filled_in s n (pcb_at s.p_num)).state ≡ runnable_list
unfolding child_of
child-home s n ne = ground (arith, ne)

-- What the fields are when both relinkings are done.
module _ (s : Procs) (n m : Pcbs) (r : Relinked s.pcb n) (t : Relinked (filled_in s n) m)
    (ne : s.current ≢ pcb_at s.p_num) where
  father_lem :
      ((m s.current).tf.eax ≡ s.p_num)
      × ((m s.current).state ≡ (s.pcb s.current).state)
      × ((m s.current).filepointer ≡ (s.pcb s.current).filepointer)
  father_lem = ground (arith, ne, r s.current, t s.current)

  child_lem :
      let c = m (pcb_at s.p_num) in
      let f = s.pcb s.current in
      (c.state ≡ runnable)
      × (c.pid ≡ s.p_num)
      × (c.ppid ≡ f.pid)
      × (c.tf.eax ≡ 0)
      × (c.tf.eip ≡ f.tf.eip)
      × (c.tf.esp ≡ f.tf.esp)
      × (c.filepointer ≡ f.filepointer)
      × (c.psem ≡ f.psem)
  unfolding child_of child_frame
  child_lem = ground (arith, ne, r s.current, t (pcb_at s.p_num))

  fork-idle : s.current ≡ idle → (s.pcb idle).state ≡ running → (m idle).state ≡ running
  fork-idle e h = ground (arith, e, father_lem)

  other_lem :
      (x : Ptr) → x ≢ s.current → x ≢ pcb_at s.p_num → m x ≡ record (s.pcb x) { next = (m x).next }
  other_lem x a b = ground (arith, r x, t x)

pub fork_aux_lem :
    {k : Kernel} {q : Queues}
    → IsValid k.procs q
    → has (pcb_at k.procs.p_num) (q free_list) ≡ true
    → AreOpen (k.procs.pcb k.procs.current).filepointer k.files
    → Forks k q (fork_aux k)
fork_aux_lem {k} {q} v free good =
    let s : Procs = k.procs in
    let w = v.queued in
    let p : Ptr = pcb_at s.p_num in
    let (n, run, wn, rn) = list_delete_lem w free_list p (omega arith) free in
    let o : IsPcb p = (w.member free_list p (omega arith) free).0 in
    let out : Absent p (dequeue free_list p q) = dequeue-Absent w free_list p (omega arith) free in
    let cur-ne : s.current ≢ p = ground (arith, v.current_absent free_list) in
    let cur-out : Absent s.current (dequeue free_list p q) = λ h j. ground (
      arith,
      v.current_absent h j,
      v.current_absent free_list,
      has_of_has-erase s.current p (q free_list),
    ) in
    let c : Pcb = child_of s.p_num (n s.current) (n p) in
    let w2 = Queued-store wn p c (λ j. omega (arith, o)) out in
    let w3 =
      Queued-store w2 s.current (with_result s.p_num (store n p c s.current)) (not_head v)
        cur-out in
    let (m4, run', w4, r4) =
      list_add_lem {m = filled_in s n} w3 runnable_list p (omega arith) o (child-home s n cur-ne)
        out in
    let same_fps : (n s.current).filepointer ≡ (s.pcb s.current).filepointer =
      ground (arith, rn s.current) in
    let (files, shared_run, shared) = share_files_lem (s.pcb s.current).filepointer k.files good in
    record {
      after = finished k m4 files;
      runs =
          fork-runs k n m4 files (object v) (omega (arith, o)) run
            (ap (λ l. share_files l k.files) same_fps ∙ shared_run) run';
      valid = record {
        queued = w4;
        current_absent = λ h j. ground (
          arith,
          cur-out h j,
          cur-ne,
          has-append s.current (dequeue free_list p q runnable_list) (p ∷ []),
        );
        current_object = v.current_object;
        current_state = λ e. v.current_state (sym (father_lem s n m4 rn r4 cur-ne).1 ∙ e);
        idle_runs = λ e. fork-idle s n m4 rn r4 cur-ne e (v.idle_runs e);
      };
      current = refl;
      father = father_lem s n m4 rn r4 cur-ne;
      child = child_lem s n m4 rn r4 cur-ne;
      others = other_lem s n m4 rn r4 cur-ne;
      links = shared;
      memory = (λ a b. ground arith, λ a b. ground (arith, b));
      semaphores = (λ a b. ground arith, λ a b. ground (arith, b));
      p_num = refl;
    }
