-- ===== src/Fs/Search.antt =====
-- The search of a directory: the loops over the entries in findUpperDirPos, findCurrentDirPos and
-- findCurrentFLPos of fs.c.
use oslab_nju.Prelude.{
  ℕ, zero, suc, ◌+◌, ◌<◌, ◌≡◌, ◌∙◌, refl, true, false, List, [], ok, ltb, ◌==◌, Bool-cases, inl,
  inr, arith, ==→eq,
}
use mathlib.Core.Path.{subst}
use oslab_nju.Prelude.Word.{minus_one}
use oslab_nju.Text.{strcmp, is_equal}
use oslab_nju.Text.Compare.{AreBytes}
use oslab_nju.Fs.{Fs, Inode, nr_inode, nr_entries, load_inode, entry_no, entry_name}
use oslab_nju.Fs.Lookup.{scan_entries, find_entry}
use oslab_nju.Fs.Directory.{
  used, used-zero, IsDirectory, Matches, Found, same-cases, bind-run, is_empty-of, not_empty,
}

module _ (fs : Fs) (dir : Inode) (names : ℕ → List ℕ) (kind : ℕ) (name : List ℕ) where
  -- Entry `i` does not match.
  later :
      (i hi r : ℕ)
      → (Matches fs dir names kind name i → ⊥)
      → Found fs dir names kind name (i + 1) hi r
      → Found fs dir names kind name i hi r
  later i hi r differs (inl (j, a, b, m, before, e)) = inl (
    j,
    omega arith,
    b,
    m,
    λ x p q n. elim (Bool-cases (x == i)) [
      | inl z ↦ differs (subst (Matches fs dir names kind name) (==→eq x i z) n)
      | inr z ↦ before x (ground arith) q n
    ],
    e,
  )
  later i hi r differs (inr (none, e)) = inr (
    λ x p q n. elim (Bool-cases (x == i)) [
      | inl z ↦ differs (subst (Matches fs dir names kind name) (==→eq x i z) n)
      | inr z ↦ none x (ground arith) q n
    ],
    e,
  )

  -- What a round does with an entry of the name `n`.
  pub skip_unused :
      (k i cont : ℕ) (n : List ℕ)
      → ltb cont dir.size ≡ true
      → entry_name dir.block i ≡ ok n
      → is_equal (strcmp n []) ≡ true
      → scan_entries (suc k) fs dir kind name i cont ≡ scan_entries k fs dir kind name (i + 1) cont
  unfolding scan_entries
  skip_unused k i cont n e h z =
      rw (scan_entries, e) (bind-run (entry_name dir.block i) _ n _ h (rw z refl))

  pub skip_other :
      (k i cont : ℕ) (n : List ℕ)
      → ltb cont dir.size ≡ true
      → entry_name dir.block i ≡ ok n
      → is_equal (strcmp n []) ≡ false
      → is_equal (strcmp n name) ≡ false
      → scan_entries (suc k) fs dir kind name i cont
        ≡ scan_entries k fs dir kind name (i + 1) (cont + 1)
  unfolding scan_entries
  skip_other k i cont n e h z w =
      rw (scan_entries, e) (bind-run (entry_name dir.block i) _ n _ h (rw (z, w) refl))

  pub compare_kind :
      (k i cont : ℕ) (n : List ℕ)
      → ltb cont dir.size ≡ true
      → entry_name dir.block i ≡ ok n
      → is_equal (strcmp n []) ≡ false
      → is_equal (strcmp n name) ≡ true
      → entry_no dir.block i < nr_inode
      → scan_entries (suc k) fs dir kind name i cont
        ≡ elim ((fs.inodes (entry_no dir.block i)).kind == kind) [
          | true ↦ ok (entry_no dir.block i)
          | false ↦ scan_entries k fs dir kind name (i + 1) (cont + 1)
        ]
  unfolding scan_entries load_inode
  compare_kind k i cont n e h z w b =
      let inside : ltb (entry_no dir.block i) nr_inode ≡ true = ground arith in
      rw (scan_entries, e) (bind-run (entry_name dir.block i) _ n _ h (rw (z, w) (rw inside refl)))

  scan_entries_lem :
      (k i cont : ℕ)
      → IsDirectory dir names
      → AreBytes name
      → i + k ≡ nr_entries
      → cont + used names k i ≡ dir.size
      → (r : ℕ) × (scan_entries (suc k) fs dir kind name i cont ≡ ok r)
        × Found fs dir names kind name i nr_entries r
  unfolding scan_entries load_inode used
  scan_entries_lem zero i cont d b h c =
      let over : ltb cont dir.size ≡ false = ground arith in
      (minus_one, rw (scan_entries, over) refl, inr (λ j p q m. absurd (omega arith), refl))
  scan_entries_lem (suc k) i cont d b h c = elim (Bool-cases (ltb cont dir.size)) [
    | inr e ↦
        let left : used names (suc k) i ≡ 0 = ground arith in
        (
          minus_one,
          rw (scan_entries, e) refl,
          inr (λ j p q m. ground (arith, used-zero names (suc k) i j left p, m.0), refl),
        )
    | inl e ↦
        let n = d.named i (omega arith) in
        let bs = d.bytes i (omega arith) in
        elim (same-cases (names i) [] bs tt) [
          | inl (z, empty) ↦
              let gone = is_empty-of (names i) empty in
              let (r, run, found) =
                scan_entries_lem k (i + 1) cont d b (omega arith) (ground arith) in
              (
                r,
                skip_unused (suc k) i cont (names i) e n z ∙ run,
                later i nr_entries r (λ m. ground (arith, m.0)) found,
              )
          | inr (z, full) ↦
              let there = not_empty (names i) full in
              let (r, run, found) =
                scan_entries_lem k (i + 1) (cont + 1) d b (omega arith) (ground arith) in
              elim (same-cases (names i) name bs b) [
                | inr (w, other) ↦ (
                  r,
                  skip_other (suc k) i cont (names i) e n z w ∙ run,
                  later i nr_entries r (λ m. other m.1) found,
                )
                | inl (w, called) ↦
                    let one =
                      compare_kind (suc k) i cont (names i) e n z w (d.numbers i (omega arith)) in
                    elim (Bool-cases ((fs.inodes (entry_no dir.block i)).kind == kind)) [
                      | inl v ↦ (
                        entry_no dir.block i,
                        one ∙ rw v refl,
                        inl (
                          i,
                          omega arith,
                          omega arith,
                          (there, called, ==→eq _ kind v),
                          λ j p q m. absurd (omega arith),
                          refl,
                        ),
                      )
                      | inr v ↦
                          (r, one ∙ rw v run, later i nr_entries r (λ m. ground (arith, m.2)) found)
                    ]
              ]
        ]
  ]

-- The search for a name always ends, within the entries of the directory, although the code's loop has
-- no bound of its own: it returns the inode of the first entry with the name whose inode has the type
-- that is looked for, or -1 if there is none. The entries are in order, and the name is of bytes.
pub find_entry_lem :
    (kind : ℕ) (name : List ℕ) (index : ℕ) (fs : Fs) (names : ℕ → List ℕ)
    → index < nr_inode
    → IsDirectory (fs.inodes index) names
    → AreBytes name
    → (r : ℕ) × (find_entry kind name index fs ≡ ok r)
      × Found fs (fs.inodes index) names kind name 0 nr_entries r
unfolding find_entry load_inode
find_entry_lem kind name index fs names h d b =
    let inside : ltb index nr_inode ≡ true = ground arith in
    let (r, run, found) =
      scan_entries_lem fs (fs.inodes index) names kind name nr_entries 0 0 d b refl
        (omega (arith, d.count)) in
    (r, rw inside run, found)
