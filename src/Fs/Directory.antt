-- ===== src/Fs/Directory.antt =====
-- A directory as the list of its names: the search of fs.c, which counts the entries that are used,
-- against looking at every entry.
use oslab_nju.Prelude.{
  ℕ, zero, suc, ◌+◌, ◌≤◌, ◌<◌, ◌≡◌, ◌≢◌, ◌⊎◌, ◌∙◌, sym, ap, refl, Bool, true, false, List, [], ◌∷◌,
  Run, ok, ◌>>=◌, ◌==◌, if◌then◌else◌, Bool-cases, inl, inr, arith, ==→eq,
}
use oslab_nju.Prelude.Word.{minus_one}
use oslab_nju.Text.{Sign, strcmp, equal, negative, positive, is_equal}
use oslab_nju.Text.Compare.{AreBytes, strcmp_iff}
use oslab_nju.Fs.{Fs, Inode, nr_inode, nr_entries, entry_no, entry_name}

abbrev pub is_empty : List ℕ → Bool
is_empty [] = true
is_empty (c ∷ cs) = false

-- How many of the `k` entries from `i` on have a name.
unfoldable pub used : (ℕ → List ℕ) → ℕ → ℕ → ℕ
used names zero i = 0
used names (suc k) i = (if is_empty (names i) then 0 else 1) + used names k (i + 1)

-- The entries of a directory have these names, those with a name stand for inodes, and as many have one
-- as the directory says.
pub record IsDirectory (dir : Inode) (names : ℕ → List ℕ) : Type 0 where
  pub named : (i : ℕ) → i < nr_entries → entry_name dir.block i ≡ ok (names i)
  pub bytes : (i : ℕ) → i < nr_entries → AreBytes (names i)
  pub numbers : (i : ℕ) → i < nr_entries → entry_no dir.block i < nr_inode
  pub count : used names nr_entries 0 ≡ dir.size

-- The entry `i` is called `name` and is of the type that is looked for.
abbrev pub Matches : Fs → Inode → (ℕ → List ℕ) → ℕ → List ℕ → ℕ → Type 0
Matches fs dir names kind name i =
    (is_empty (names i) ≡ false)
    × (names i ≡ name)
    × ((fs.inodes (entry_no dir.block i)).kind ≡ kind)

-- `r` is the inode of the first entry from `lo` on and in front of `hi` that matches, or -1 for none.
abbrev pub Found : Fs → Inode → (ℕ → List ℕ) → ℕ → List ℕ → ℕ → ℕ → ℕ → Type 0
Found fs dir names kind name lo hi r =
    ((i : ℕ) × (lo ≤ i)
      × (i < hi)
      × Matches fs dir names kind name i
      × ((j : ℕ) → lo ≤ j → j < i → Matches fs dir names kind name j → ⊥)
      × (r ≡ entry_no dir.block i))
    ⊎ (((j : ℕ) → lo ≤ j → j < hi → Matches fs dir names kind name j → ⊥) × (r ≡ minus_one))

equal-of : (x : Sign) → is_equal x ≡ true → x ≡ equal
equal-of equal e = refl
equal-of negative e = absurd (ground arith)
equal-of positive e = absurd (ground arith)

pub same-cases :
    (a b : List ℕ)
    → AreBytes a
    → AreBytes b
    → ((is_equal (strcmp a b) ≡ true) × (a ≡ b)) ⊎ ((is_equal (strcmp a b) ≡ false) × (a ≢ b))
same-cases a b h g =
    let (to, from) = strcmp_iff a b h g in
    elim (Bool-cases (is_equal (strcmp a b))) [
      | inl e ↦ inl (e, to (equal-of (strcmp a b) e))
      | inr e ↦ inr (e, λ p. different (sym e ∙ ap is_equal (from p)))
    ]
  where
    different : false ≡ true → ⊥
    different q = absurd (ground arith)

pub used-zero :
    (names : ℕ → List ℕ) (k i j : ℕ)
    → used names k i ≡ 0
    → i ≤ j
    → j < i + k
    → is_empty (names j) ≡ true
unfolding used
used-zero names zero i j u a b = absurd (omega arith)
used-zero names (suc k) i j u a b = elim (Bool-cases (is_empty (names i))) [
  | inl e ↦ elim (Bool-cases (i == j)) [
    | inl z ↦ rw (sym (==→eq i j z)) e
    | inr z ↦ used-zero names k (i + 1) j (ground arith) (ground arith) (omega arith)
  ]
  | inr e ↦ absurd (ground arith)
]

pub bind-run :
    {A B : Type 0} (m : Run A) (f : A → Run B) (a : A) (r : Run B)
    → m ≡ ok a
    → f a ≡ r
    → m >>= f ≡ r
bind-run m f a r e h = ap (λ x. x >>= f) e ∙ h

pub is_empty-of : (n : List ℕ) → n ≡ [] → is_empty n ≡ true
is_empty-of n e = rw e refl

pub not_empty : (n : List ℕ) → n ≢ [] → is_empty n ≡ false
not_empty [] h = absurd (h refl)
not_empty (c ∷ cs) h = refl
