-- ===== src/Fs/Linking.antt =====
-- A directory with one more entry: getAvlDirdata, and the entry that makeFL and makeDir write.
use oslab_nju.Prelude.{
  ℕ, zero, suc, ◌+◌, ◌*◌, ◌≤◌, ◌<◌, ◌≡◌, ◌≢◌, ◌⊎◌, ◌∙◌, refl, true, false, List, [], ok, ltb, ◌==◌,
  if◌then◌else◌, Bool-cases, inl, inr, arith, leb, ◌&&◌, ==→eq, length,
}
use oslab_nju.Prelude.Word.{add32}
use oslab_nju.Text.{Bytes}
use oslab_nju.Text.Compare.{AreBytes}
use oslab_nju.Text.Memory.{NoNul, read_string-write_string, read_string-frame, write_string-outside}
use oslab_nju.Fs.{
  Inode, nr_inode, nr_entries, max_filename_len, entry_no, entry_name, set_entry_no, set_entry_name,
}
use oslab_nju.Fs.Lookup.{avl_dirdata_from}
use oslab_nju.Fs.Directory.{
  IsDirectory, is_empty, used, same-cases, bind-run, is_empty-of, not_empty,
}

pub avl_dirdata_from_lem :
    (k i : ℕ) (dir : Inode) (names : ℕ → List ℕ)
    → IsDirectory dir names
    → i + k ≤ nr_entries
    → used names k i < k
    → (slot : ℕ) × (avl_dirdata_from k i dir ≡ ok slot) × (slot < nr_entries) × (names slot ≡ [])
unfolding avl_dirdata_from used
avl_dirdata_from_lem zero i dir names d h u = absurd (omega arith)
avl_dirdata_from_lem (suc k) i dir names d h u =
    let n = d.named i (omega arith) in
    elim (same-cases (names i) [] (d.bytes i (omega arith)) tt) [
      | inl (z, e) ↦
          (i, bind-run (entry_name dir.block i) _ (names i) _ n (rw z refl), omega arith, e)
      | inr (z, e) ↦
          let there = not_empty (names i) e in
          let (slot, run, b, empty) =
            avl_dirdata_from_lem k (i + 1) dir names d (omega arith) (ground arith) in
          (slot, bind-run (entry_name dir.block i) _ (names i) _ n (rw z run), b, empty)
    ]

-- The block with one more entry.
abbrev pub linked : ℕ → ℕ → List ℕ → Bytes → Bytes
linked slot index name b = set_entry_name slot name (set_entry_no slot index b)

abbrev pub renamed : ℕ → List ℕ → (ℕ → List ℕ) → ℕ → List ℕ
renamed slot name names j = if j == slot then name else names j

set_entry_no-outside :
    (slot v : ℕ) (b : Bytes) (x : ℕ)
    → (x < slot * 32) ⊎ (slot * 32 + 4 ≤ x)
    → set_entry_no slot v b x ≡ b x
unfolding set_entry_no
set_entry_no-outside slot v b x h = ground arith

linked-outside :
    (slot index : ℕ) (name : List ℕ) (b : Bytes) (x : ℕ)
    → length name < max_filename_len
    → (x < slot * 32) ⊎ (slot * 32 + 32 ≤ x)
    → linked slot index name b x ≡ b x
unfolding set_entry_name
linked-outside slot index name b x h o =
    write_string-outside name (slot * 32 + 4) (set_entry_no slot index b) x (ground arith)
    ∙ set_entry_no-outside slot index b x (ground arith)

pub linked-no :
    (slot index : ℕ) (name : List ℕ) (b : Bytes)
    → index < nr_inode
    → entry_no (linked slot index name b) slot ≡ index
unfolding set_entry_name entry_no set_entry_no
linked-no slot index name b h = ground (
  arith,
  write_string-outside name (slot * 32 + 4) (set_entry_no slot index b) (slot * 32),
  write_string-outside name (slot * 32 + 4) (set_entry_no slot index b) (slot * 32 + 1),
  write_string-outside name (slot * 32 + 4) (set_entry_no slot index b) (slot * 32 + 2),
  write_string-outside name (slot * 32 + 4) (set_entry_no slot index b) (slot * 32 + 3),
)

pub linked-other :
    (slot index : ℕ) (name : List ℕ) (b : Bytes) (j : ℕ)
    → length name < max_filename_len
    → j ≢ slot
    → entry_no (linked slot index name b) j ≡ entry_no b j
unfolding entry_no
linked-other slot index name b j h n = ground (
  arith,
  linked-outside slot index name b (j * 32),
  linked-outside slot index name b (j * 32 + 1),
  linked-outside slot index name b (j * 32 + 2),
  linked-outside slot index name b (j * 32 + 3),
)

-- What a directory entry needs of a name: it is not empty, and it fits.
pub record IsName (name : List ℕ) : Type 0 where
  pub full : is_empty name ≡ false
  pub fits : length name < max_filename_len
  pub bytes : AreBytes name
  pub ends : NoNul name

used-renamed :
    (k i slot : ℕ) (name : List ℕ) (names : ℕ → List ℕ)
    → names slot ≡ []
    → is_empty name ≡ false
    → used (renamed slot name names) k i
      ≡ used names k i + (if leb i slot && ltb slot (i + k) then 1 else 0)
unfolding used
used-renamed zero i slot name names e f = ground arith
used-renamed (suc k) i slot name names e f = elim (Bool-cases (i == slot)) [
  | inl z ↦
      let here : is_empty (names i) ≡ true = is_empty-of (names i) (rw (==→eq i slot z) e) in
      rw z (ground (arith, used-renamed k (i + 1) slot name names e f))
  | inr z ↦ rw z (ground (arith, used-renamed k (i + 1) slot name names e f))
]

-- Different entries lie apart.
apart :
    (j slot x : ℕ)
    → (j == slot) ≡ false
    → j * 32 + 4 ≤ x
    → x < j * 32 + 4 + 28
    → (x < slot * 32) ⊎ (slot * 32 + 32 ≤ x)
apart j slot x z p q = elim (Bool-cases (ltb j slot)) [
  | inl e ↦ inl (ground arith)
  | inr e ↦ inr (ground arith)
]

module _ (slot index : ℕ) (name : List ℕ) (dir : Inode) (names : ℕ → List ℕ) where
  pub link-named :
      IsDirectory dir names
      → NoNul name
      → length name < max_filename_len
      → (j : ℕ) → j < nr_entries
      → entry_name (linked slot index name dir.block) j ≡ ok (renamed slot name names j)
  unfolding entry_name set_entry_name
  link-named d ends fits j h =
      let inside : ltb j nr_entries ≡ true = ground arith in
      elim (Bool-cases (j == slot)) [
        | inl z ↦
            rw (inside, z, ==→eq j slot z)
              (read_string-write_string name 28 (slot * 32 + 4) (set_entry_no slot index dir.block)
                ends fits)
        | inr z ↦
            let old = d.named j h in
            let same =
              read_string-frame 28 (j * 32 + 4) dir.block (linked slot index name dir.block)
                (λ x p q. linked-outside slot index name dir.block x fits (apart j slot x z p q)) in
            rw (inside, z) (same ∙ rw inside at old)
      ]

  pub link-IsDirectory :
      IsDirectory dir names
      → IsName name
      → slot < nr_entries
      → names slot ≡ []
      → index < nr_inode
      → dir.size < nr_entries
      → IsDirectory
          (record dir { block = linked slot index name dir.block; size = add32 dir.size 1 })
          (renamed slot name names)
  link-IsDirectory d n h e b c = record {
    named = link-named d n.ends n.fits;
    bytes =
        λ j l. elim (Bool-cases (j == slot)) [ inl z ↦ rw z n.bytes | inr z ↦ rw z (d.bytes j l) ];
    numbers = λ j l. elim (Bool-cases (j == slot)) [
      | inl z ↦ rw (==→eq j slot z, linked-no slot index name dir.block b) b
      | inr z ↦
          rw (linked-other slot index name dir.block j n.fits (λ p. ground (arith, p)))
            (d.numbers j l)
    ];
    count = ground (arith, used-renamed nr_entries 0 slot name names e n.full, d.count);
  }
