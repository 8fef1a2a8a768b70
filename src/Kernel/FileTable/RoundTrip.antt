-- ===== src/Kernel/FileTable/RoundTrip.antt =====
-- A file that is opened and closed: the end of open_aux, and close_aux, of irqHandle.c.
use oslab_nju.Prelude.{
  ℕ, zero, suc, ◌<◌, ◌≡◌, ◌≢◌, ◌∙◌, sym, ap, refl, true, List, [], ◌∷◌, ok, ◌==◌, Bool-cases, inl,
  inr, arith, ==→eq, length, length-set, has, get_or, set, get_or-set_self, get_or-set_ne, Run,
  ◌>>=◌,
}
use oslab_nju.Prelude.Word.{minus_one}
use oslab_nju.Fs.{nr_inode}
use oslab_nju.Kernel.{Kernel}
use oslab_nju.Kernel.Files.{attach, close_aux}
use oslab_nju.Kernel.OpenFile.{entry}
use oslab_nju.Kernel.Process.Share.{no_file}
use oslab_nju.Kernel.FileTable.{IsUser, InOrder}
use oslab_nju.Kernel.FileTable.Free.{SomeFree, behind_three}
use oslab_nju.Kernel.FileTable.Open.{Attached, attach_lem, new_file}
use oslab_nju.Kernel.FileTable.Close.{Closed, close_aux_lem, dropped}

set-set : {A : Type 0} (xs : List A) (i : ℕ) (v w : A) → set (set xs i v) i w ≡ set xs i w
set-set [] i v w = refl
set-set (x ∷ xs) zero v w = refl
set-set (x ∷ xs) (suc i) v w = ap (λ l. x ∷ l) (set-set xs i v w)

set-get_or : (xs : List ℕ) (i v : ℕ) → get_or xs i 0 ≡ v → i < length xs → set xs i v ≡ xs
set-get_or [] i v e h = refl
set-get_or (x ∷ xs) zero v e h = ap (λ y. y ∷ xs) (sym e)
set-get_or (x ∷ xs) (suc i) v e h = ap (λ l. x ∷ l) (set-get_or xs i v e (omega arith))

-- Open a file and close the descriptor that is the result of that.
abbrev pub open_and_close : ℕ → Kernel → Run Kernel
open_and_close index k = do k ← attach index k; close_aux (k.procs.pcb k.procs.current).tf.eax k

-- A file that is opened and closed at once leaves the process with the descriptors that it had,
-- and each entry of the table with the file and the links that it had; the table stays in order.
-- The process has a closed descriptor from 3 on, and the table a free entry.
pub close_aux-attach :
    (k : Kernel) (index : ℕ)
    → InOrder k
    → IsUser k.procs.current
    → index < nr_inode
    → SomeFree k.files
    → has minus_one (behind_three (k.procs.pcb k.procs.current).filepointer) ≡ true
    → (after : Kernel) × (open_and_close index k ≡ ok after)
      × ((after.procs.pcb k.procs.current).filepointer ≡ (k.procs.pcb k.procs.current).filepointer)
      × ((i : ℕ)
          → i < length k.files
          → ((get_or after.files i no_file).inode_index ≡ (get_or k.files i no_file).inode_index)
            × ((get_or after.files i no_file).link_num ≡ (get_or k.files i no_file).link_num))
      × InOrder after
close_aux-attach k index w u bi some free =
    let a : Attached k index (attach index k) = attach_lem k index w u bi some free in
    let fps : List ℕ = (k.procs.pcb k.procs.current).filepointer in
    let within : a.fd < length fps = omega (arith, a.bounds, w.sizes k.procs.current u) in
    let at : entry a.fd a.after ≡ a.sys =
      ap (λ p. get_or (a.after.procs.pcb p).filepointer a.fd 0) a.current
      ∙ ap (λ l. get_or l a.fd 0) a.descriptors
      ∙ get_or-set_self fps a.fd a.sys 0 within in
    let is_open : entry a.fd a.after ≢ minus_one =
      λ e. absurd (omega (arith, a.bounds, w.table, sym at ∙ e)) in
    let c : Closed a.after a.fd (close_aux a.fd a.after) =
      close_aux_lem a.after a.fd a.in_order (rw a.current u) a.bounds.0 is_open in
    let result : (a.after.procs.pcb a.after.procs.current).tf.eax ≡ a.fd =
      ap (λ p. (a.after.procs.pcb p).tf.eax) a.current ∙ a.result in
    let there : a.sys < length a.after.files =
      rw a.files (rw (length-set k.files a.sys (new_file index)) a.bounds.1) in
    let one : get_or a.after.files a.sys no_file ≡ new_file index =
      ap (λ l. get_or l a.sys no_file) a.files
      ∙ get_or-set_self k.files a.sys (new_file index) no_file a.bounds.1 in
    let files : c.after.files ≡ set k.files a.sys no_file =
      c.files
      ∙ ap (λ x. set a.after.files x (dropped (get_or a.after.files x no_file))) at
      ∙ ap (λ l. set l a.sys (dropped (get_or a.after.files a.sys no_file))) a.files
      ∙ ap (λ f. set (set k.files a.sys (new_file index)) a.sys (dropped f)) one
      ∙ set-set k.files a.sys (new_file index) no_file in
    let entry_of : (i : ℕ)
        → get_or c.after.files i no_file ≡ get_or (set k.files a.sys no_file) i no_file =
      λ i. ap (λ l. get_or l i no_file) files in
    (
      c.after,
      rw a.runs (rw result c.runs),
      ap (λ p. (c.after.procs.pcb p).filepointer) (sym a.current)
          ∙ c.descriptors
          ∙ ap (λ p. set (a.after.procs.pcb p).filepointer a.fd minus_one) a.current
          ∙ ap (λ l. set l a.fd minus_one) a.descriptors
          ∙ set-set fps a.fd a.sys minus_one
          ∙ set-get_or fps a.fd minus_one a.lowest.1 within,
      λ i b. elim (Bool-cases (a.sys == i)) [
        | inl e ↦
            let same : get_or c.after.files i no_file ≡ no_file =
              entry_of i
              ∙ ap (λ j. get_or (set k.files a.sys no_file) j no_file) (sym (==→eq a.sys i e))
              ∙ get_or-set_self k.files a.sys no_file no_file a.bounds.1 in
            let was : (get_or k.files i no_file).inode_index ≡ minus_one =
              ap (λ j. (get_or k.files j no_file).inode_index) (sym (==→eq a.sys i e)) ∙ a.free in
            (
              ap (λ f. f.inode_index) same ∙ sym was,
              ap (λ f. f.link_num) same ∙ sym (w.in_use i b was),
            )
        | inr e ↦
            let same =
              entry_of i
              ∙ get_or-set_ne k.files {i = a.sys} {j = i} no_file no_file
                  (λ p. ground (arith, p, e)) in
            (ap (λ f. f.inode_index) same, ap (λ f. f.link_num) same)
      ],
      c.in_order,
    )
