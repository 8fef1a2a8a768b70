-- ===== src/Kernel/FileTable/Booted.antt =====
-- The table of open files after initPcb of kernel/kernel/kvm.c.
use oslab_nju.Prelude.{
  ℕ, zero, suc, ◌+◌, ◌<◌, ◌≤◌, ◌≡◌, ◌∙◌, sym, ap, refl, List, [], ◌∷◌, ok, arith, length, has,
  get_or, replicate, map, true,
}
use oslab_nju.Prelude.Word.{minus_one}
use oslab_nju.Proc.{Ptr, Pcbs, null, dummysem}
use oslab_nju.Kernel.{Kernel, SysFile, max_fp_num, max_sys_file_num}
use oslab_nju.Kernel.Boot.{free_file, clear_heads, start_idle, init_pcb}
use oslab_nju.Kernel.Boot.Start.{Emptied, free_from_lem, no_processes-Queued}
use oslab_nju.Kernel.Process.Share.{users, no_file}
use oslab_nju.Kernel.FileTable.{IsUser, InOrder, total}

length-map : (xs : List SysFile) → length (map free_file xs) ≡ length xs
length-map [] = refl
length-map (x ∷ xs) = ap suc (length-map xs)

freed :
    (xs : List SysFile) (i : ℕ)
    → ((get_or (map free_file xs) i no_file).inode_index ≡ minus_one)
      × ((get_or (map free_file xs) i no_file).link_num ≡ (get_or xs i no_file).link_num)
freed [] i = (refl, refl)
freed (x ∷ xs) zero = (refl, refl)
freed (x ∷ xs) (suc i) = freed xs i

-- No process has an open descriptor.
abbrev pub NoneOpen : Pcbs → Type 0
NoneOpen m = (p : Ptr) → IsUser p → (m p).filepointer ≡ replicate max_fp_num minus_one

none_open-users : (i : ℕ) → i < 512 → users i (replicate max_fp_num minus_one) ≡ 0
none_open-users i b = ground (arith, b)

none_open-total :
    (i : ℕ) (m : Pcbs) (k : ℕ) (p : Ptr)
    → i < 512
    → NoneOpen m
    → 7 ≤ p
    → p + k ≤ 16
    → total i m k p ≡ 0
unfolding total
none_open-total i m zero p b h l u = refl
none_open-total i m (suc k) p b h l u =
    let here : users i (m p).filepointer ≡ 0 =
      ap (users i) (h p (l, omega arith)) ∙ none_open-users i b in
    omega (arith, here, none_open-total i m k (p + 1) b h (omega arith) (omega arith))

none_open-has : (i : ℕ) → has i (replicate max_fp_num minus_one) ≡ true → i ≡ minus_one
none_open-has i h = ground (arith, h)

-- `initPcb` in memory that is set to zero leaves the table of open files in order: all entries and all
-- descriptors are free.
pub init_pcb-InOrder :
    (k : Kernel)
    → (k.procs.pcb dummysem).next ≡ null
    → length k.files ≡ max_sys_file_num
    → ((i : ℕ) → (get_or k.files i no_file).link_num ≡ 0)
    → (after : Kernel) × (init_pcb k ≡ ok after)
      × InOrder after
      × (after.files ≡ map free_file k.files)
      × NoneOpen after.procs.pcb
unfolding init_pcb
init_pcb-InOrder k e size zeros =
    let (n, run, _, emptied) =
      free_from_lem 9 1 (omega arith) (no_processes-Queued k.procs.pcb e)
        (λ h x i f. absurd (ground arith)) in
    let after : Kernel = start_idle n k in
    let none : NoneOpen after.procs.pcb = λ p u. none_after n emptied p u in
    (
      after,
      rw run refl,
      record {
        counted = λ i b.
            (freed k.files i).1
            ∙ zeros i
            ∙ sym
                (none_open-total i after.procs.pcb 9 7 (old i b) none (omega arith) (omega arith));
        unused = λ i b z. (freed k.files i).0;
        in_use = λ i b z. (freed k.files i).1 ∙ zeros i;
        named = λ p u i h ne. absurd (ne (none_open-has i (sym (ap (has i) (none p u)) ∙ h)));
        sizes = λ p u. ap (λ l. length l) (none p u) ∙ refl;
        table = length-map k.files ∙ size;
      },
      refl,
      none,
    )
  where
    old : (i : ℕ) → i < length (map free_file k.files) → i < 512
    old i b = omega (arith, b, length-map k.files, size)

    none_after :
        (n : Pcbs)
        → Emptied 9 1 (clear_heads k.procs.pcb) n
        → (p : Ptr) → IsUser p
        → ((start_idle n k).procs.pcb p).filepointer ≡ replicate max_fp_num minus_one
    none_after n emptied p u = ground (arith, emptied p, u)
