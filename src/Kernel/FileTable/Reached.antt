-- ===== src/Kernel/FileTable/Reached.antt =====
-- Every sequence of calls that open and close files and of forks, from the start of the kernel on.
use oslab_nju.Prelude.{ℕ, ◌<◌, ◌≡◌, ◌≢◌, ◌∙◌, sym, ap, true, ok, arith, length, has, get_or}
use mathlib.Core.Path.{subst}
use oslab_nju.Prelude.Word.{minus_one}
use oslab_nju.Proc.{Ptr, null, dummysem, free_list, pcb_at}
use oslab_nju.Proc.Queues.{Queues}
use oslab_nju.Sched.Valid.{IsValid}
use oslab_nju.Fs.{nr_inode}
use oslab_nju.Fs.Keeping.{ok-injective}
use oslab_nju.Kernel.{Kernel, max_fp_num, max_sys_file_num}
use oslab_nju.Kernel.Boot.{init_pcb}
use oslab_nju.Kernel.Files.{attach, close_aux}
use oslab_nju.Kernel.OpenFile.{entry}
use oslab_nju.Kernel.Process.{fork_aux}
use oslab_nju.Kernel.Process.Share.{users, no_file}
use oslab_nju.Kernel.FileTable.{IsUser, InOrder, total-same}
use oslab_nju.Kernel.FileTable.Free.{SomeFree, behind_three}
use oslab_nju.Kernel.FileTable.Open.{attach_lem}
use oslab_nju.Kernel.FileTable.Close.{close_aux_lem}
use oslab_nju.Kernel.FileTable.Forked.{fork_aux-InOrder}
use oslab_nju.Kernel.FileTable.Booted.{init_pcb-InOrder}

-- The states that the kernel reaches. A step of another kind changes neither the table nor the
-- descriptors.
pub data Reached : Kernel → Type 0 where
  booted :
      (k : Kernel) {after : Kernel}
      → (k.procs.pcb dummysem).next ≡ null
      → length k.files ≡ max_sys_file_num
      → ((i : ℕ) → (get_or k.files i no_file).link_num ≡ 0)
      → init_pcb k ≡ ok after
      → Reached after
  opens :
      (k : Kernel) {after : Kernel} (index : ℕ)
      → Reached k
      → IsUser k.procs.current
      → index < nr_inode
      → SomeFree k.files
      → has minus_one (behind_three (k.procs.pcb k.procs.current).filepointer) ≡ true
      → attach index k ≡ ok after
      → Reached after
  closes :
      (k : Kernel) {after : Kernel} (fd : ℕ)
      → Reached k
      → IsUser k.procs.current
      → fd < max_fp_num
      → entry fd k ≢ minus_one
      → close_aux fd k ≡ ok after
      → Reached after
  forks :
      (k : Kernel) {after : Kernel} (q : Queues)
      → Reached k
      → IsValid k.procs q
      → has (pcb_at k.procs.p_num) (q free_list) ≡ true
      → IsUser k.procs.current
      → IsUser (pcb_at k.procs.p_num)
      → ((i : ℕ)
          → i < length k.files
          → users i (k.procs.pcb (pcb_at k.procs.p_num)).filepointer ≡ 0)
      → fork_aux k ≡ ok after
      → Reached after
  goes_on :
      (k : Kernel) {after : Kernel}
      → Reached k
      → after.files ≡ k.files
      → ((p : Ptr) → (after.procs.pcb p).filepointer ≡ (k.procs.pcb p).filepointer)
      → Reached after

same-InOrder :
    (k after : Kernel)
    → after.files ≡ k.files
    → ((p : Ptr) → (after.procs.pcb p).filepointer ≡ (k.procs.pcb p).filepointer)
    → InOrder k
    → InOrder after
same-InOrder k after e same w = record {
  counted = λ i b.
      ap (λ l. (get_or l i no_file).link_num) e
      ∙ w.counted i (old i b)
      ∙ sym (total-same i k.procs.pcb after.procs.pcb 9 7 (λ x c d. same x));
  unused = λ i b z.
      ap (λ l. (get_or l i no_file).inode_index) e
      ∙ w.unused i (old i b) (sym (ap (λ l. (get_or l i no_file).link_num) e) ∙ z);
  in_use = λ i b z.
      ap (λ l. (get_or l i no_file).link_num) e
      ∙ w.in_use i (old i b) (sym (ap (λ l. (get_or l i no_file).inode_index) e) ∙ z);
  named = λ p u i h ne.
      omega (arith, ap (λ l. length l) e, w.named p u i (sym (ap (has i) (same p)) ∙ h) ne);
  sizes = λ p u. ap (λ l. length l) (same p) ∙ w.sizes p u;
  table = ap (λ l. length l) e ∙ w.table;
}
  where
    old : (i : ℕ) → i < length after.files → i < length k.files
    old i b = omega (arith, b, ap (λ l. length l) e)

-- In every state that the kernel reaches from its start by opening and closing files, by forks,
-- and by steps that touch neither the table of open files nor descriptors, each entry of the
-- table counts exactly the descriptors of all processes that name it, and is free when there are
-- none. A fork takes a PCB whose descriptors name no file.
pub Reached-InOrder : {k : Kernel} → Reached k → InOrder k
Reached-InOrder (booted k {after} e size zeros run) =
    let (k', run', w, _, _) = init_pcb-InOrder k e size zeros in
    subst InOrder (ok-injective (sym run' ∙ run)) w
Reached-InOrder (opens k {after} index r u b some free run) =
    let a = attach_lem k index (Reached-InOrder r) u b some free in
    subst InOrder (ok-injective (sym a.runs ∙ run)) a.in_order
Reached-InOrder (closes k {after} fd r u b is_open run) =
    let c = close_aux_lem k fd (Reached-InOrder r) u b is_open in
    subst InOrder (ok-injective (sym c.runs ∙ run)) c.in_order
Reached-InOrder (forks k {after} q r v free u u' fresh run) =
    let (k', run', w) = fork_aux-InOrder k q v free (Reached-InOrder r) u u' fresh in
    subst InOrder (ok-injective (sym run' ∙ run)) w
Reached-InOrder (goes_on k {after} r e same) = same-InOrder k after e same (Reached-InOrder r)
