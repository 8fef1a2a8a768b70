-- ===== src/Kernel/FileTable/Free.antt =====
-- What is free: getAvlFilepointer and getAvlSystemFile of irqHandle.c.
use oslab_nju.Prelude.{
  ℕ, zero, suc, ◌+◌, ◌<◌, ◌≤◌, ◌≡◌, ◌≢◌, ◌∙◌, true, false, List, [], ◌∷◌, ◌==◌, Bool-cases, inl,
  inr, arith, ==→eq, length, has, get_or,
}
use oslab_nju.Prelude.Word.{minus_one}
use oslab_nju.Proc.{Pcb}
use oslab_nju.Kernel.{SysFile, max_fp_num}
use oslab_nju.Kernel.Files.{avl_from, get_avl_filepointer, avl_file_from}
use oslab_nju.Kernel.Process.Share.{no_file}

-- The first closed descriptor of a list.
avl_from_lem :
    (fps : List ℕ) (i : ℕ)
    → has minus_one fps ≡ true
    → (n : ℕ) × (avl_from i fps ≡ i + n)
      × (n < length fps)
      × (get_or fps n 0 ≡ minus_one)
      × ((m : ℕ) → m < n → get_or fps m 0 ≢ minus_one)
unfolding avl_from
avl_from_lem [] i h = absurd (ground (arith, h))
avl_from_lem (x ∷ xs) i h = elim (Bool-cases (x == minus_one)) [
  | inl e ↦ (0, ground arith, omega arith, ==→eq x minus_one e, λ m l. absurd (omega (arith, l)))
  | inr e ↦
      let (n, run, b, free, first) = avl_from_lem xs (i + 1) (ground arith) in
      (suc n, ground (arith, run), omega (arith, b), free, λ m l. before n e first m l)
]
  where
    before :
        (n : ℕ)
        → (x == minus_one) ≡ false
        → ((m : ℕ) → m < n → get_or xs m 0 ≢ minus_one)
        → (m : ℕ) → m < suc n
        → get_or (x ∷ xs) m 0 ≢ minus_one
    before n e first zero l = λ p. ground (arith, p, e)
    before n e first (suc m) l = first m (omega arith)

-- The descriptors that can be given to a file: all but the first three.
abbrev pub behind_three : List ℕ → List ℕ
behind_three (a ∷ b ∷ c ∷ rest) = rest
behind_three _ = []

-- An entry of the table is free.
abbrev pub SomeFree : List SysFile → Type 0
SomeFree files = (i : ℕ) × (i < length files) × ((get_or files i no_file).inode_index ≡ minus_one)

pub avl_file_from_lem :
    (files : List SysFile) (i : ℕ)
    → SomeFree files
    → (n : ℕ) × (avl_file_from i files ≡ i + n)
      × (n < length files)
      × ((get_or files n no_file).inode_index ≡ minus_one)
unfolding avl_file_from
avl_file_from_lem [] i (j, b, e) = absurd (omega (arith, b))
avl_file_from_lem (x ∷ xs) i (j, b, e) = elim (Bool-cases (x.inode_index == minus_one)) [
  | inl z ↦ (0, ground arith, omega arith, ==→eq x.inode_index minus_one z)
  | inr z ↦
      let (n, run, c, free) = avl_file_from_lem xs (i + 1) (later j b e z) in
      (suc n, ground (arith, run), omega (arith, c), free)
]
  where
    later :
        (j : ℕ)
        → j < length (x ∷ xs)
        → (get_or (x ∷ xs) j no_file).inode_index ≡ minus_one
        → (x.inode_index == minus_one) ≡ false
        → SomeFree xs
    later zero b e z = absurd (ground (arith, e, z))
    later (suc j) b e z = (j, omega arith, e)

-- The first closed descriptor from 3 on.
pub get_avl_filepointer_lem :
    (c : Pcb)
    → length c.filepointer ≡ max_fp_num
    → has minus_one (behind_three c.filepointer) ≡ true
    → (fd : ℕ) × (get_avl_filepointer c ≡ fd)
      × (3 ≤ fd)
      × (fd < max_fp_num)
      × (get_or c.filepointer fd 0 ≡ minus_one)
      × ((d : ℕ) → 3 ≤ d → d < fd → get_or c.filepointer d 0 ≢ minus_one)
unfolding get_avl_filepointer
get_avl_filepointer_lem c size free = from c.filepointer size free
  where
    from :
        (fps : List ℕ)
        → length fps ≡ max_fp_num
        → has minus_one (behind_three fps) ≡ true
        → (fd : ℕ) × (get_avl_filepointer (record c { filepointer = fps }) ≡ fd)
          × (3 ≤ fd)
          × (fd < max_fp_num)
          × (get_or fps fd 0 ≡ minus_one)
          × ((d : ℕ) → 3 ≤ d → d < fd → get_or fps d 0 ≢ minus_one)
    from [] s f = absurd (ground (arith, f))
    from (a ∷ []) s f = absurd (ground (arith, f))
    from (a ∷ b ∷ []) s f = absurd (ground (arith, f))
    from (a ∷ b ∷ e ∷ rest) s f =
        let (n, run, bound, closed, first) = avl_from_lem rest 3 f in
        (
          suc (suc (suc n)),
          run ∙ omega arith,
          omega arith,
          omega (arith, s),
          closed,
          λ d l m. before n first d l m,
        )
      where
        before :
            (n : ℕ)
            → ((m : ℕ) → m < n → get_or rest m 0 ≢ minus_one)
            → (d : ℕ) → 3 ≤ d
            → d < suc (suc (suc n))
            → get_or (a ∷ b ∷ e ∷ rest) d 0 ≢ minus_one
        before n first zero l m = absurd (omega (arith, l))
        before n first (suc zero) l m = absurd (omega (arith, l))
        before n first (suc (suc zero)) l m = absurd (omega (arith, l))
        before n first (suc (suc (suc d))) l m = first d (omega arith)
