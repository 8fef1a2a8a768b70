-- ===== src/Fs/Making.antt =====
-- A file that is made is found: makeFL, and the search of findCurrentFLPos.
use oslab_nju.Prelude.{
  ℕ, ◌<◌, ◌≡◌, ◌≢◌, ◌∙◌, sym, ap, refl, true, false, List, [], ok, ltb, ◌==◌, Bool-cases, inl, inr,
  arith, ==→eq, length, set, none,
}
use mathlib.Core.Path.{subst}
use oslab_nju.Prelude.Word.{minus_one, add32}
use oslab_nju.Fs.{
  Fs, Inode, nr_inode, nr_entries, fl_type, inuse, max_filename_len, load_inode, store_inode,
  entry_no,
}
use oslab_nju.Fs.Path.{get_last_level_name}
use oslab_nju.Fs.Lookup.{avl_dirdata_from, get_avl_dirdata, find_entry}
use oslab_nju.Fs.Change.{fit_name, link_entry, mark_inode, count_inode, fill_file, make_fl_at}
use oslab_nju.Fs.Directory.{IsDirectory, Found, Matches}
use oslab_nju.Fs.Search.{find_entry_lem}
use oslab_nju.Fs.Linking.{
  linked, renamed, avl_dirdata_from_lem, linked-no, IsName, link-IsDirectory,
}

-- The file system with the entry, and with the file.
abbrev pub with_entry : ℕ → ℕ → ℕ → List ℕ → Fs → Fs
with_entry slot index p_index name fs =
    let p = fs.inodes p_index in
    store_inode fs p_index
      (record p { block = linked slot index name p.block; size = add32 p.size 1 })

abbrev pub with_file : ℕ → ℕ → ℕ → List ℕ → Fs → Fs
with_file slot index p_index name fs =
    let fs1 = with_entry slot index p_index name (count_inode fs) in
    let fs2 =
      store_inode fs1 index (record (fs1.inodes index) { kind = fl_type; filename = name }) in
    record (count_inode fs2) { inode_map = set fs.inode_map index inuse }

pub link_entry_lem :
    (slot index p_index : ℕ) (name : List ℕ) (fs : Fs)
    → p_index < nr_inode
    → slot < nr_entries
    → avl_dirdata_from nr_entries 0 (fs.inodes p_index) ≡ ok slot
    → link_entry p_index index name fs ≡ ok (with_entry slot index p_index name fs)
unfolding link_entry get_avl_dirdata load_inode
link_entry_lem slot index p_index name fs b c run =
    let inside : ltb p_index nr_inode ≡ true = ground arith in
    let found : (slot == minus_one) ≡ false = ground arith in rw inside (rw run (rw found refl))

pub make_fl_at_lem :
    (slot index p_index : ℕ) (abspath : List ℕ) (fs : Fs)
    → length (get_last_level_name abspath) < max_filename_len
    → p_index < nr_inode
    → slot < nr_entries
    → index < nr_inode
    → index < length fs.inode_map
    → avl_dirdata_from nr_entries 0 (fs.inodes p_index) ≡ ok slot
    → make_fl_at index p_index abspath none fs
      ≡ ok (with_file slot index p_index (get_last_level_name abspath) fs)
unfolding make_fl_at fit_name load_inode fill_file mark_inode
make_fl_at_lem slot index p_index abspath fs l b c i m run =
    let fits : ltb (length (get_last_level_name abspath)) max_filename_len ≡ true = ground arith in
    let inside : ltb index nr_inode ≡ true = ground arith in
    let mapped : ltb index (length fs.inode_map) ≡ true = ground arith in
    let linked_run =
      link_entry_lem slot index p_index (get_last_level_name abspath) (count_inode fs) b c run in
    rw fits (rw linked_run (rw inside (rw mapped refl)))

-- Only one entry has the name, and it matches.
pub Found-only :
    (fs : Fs) (dir : Inode) (names : ℕ → List ℕ) (kind : ℕ) (name : List ℕ) (slot r : ℕ)
    → slot < nr_entries
    → Matches fs dir names kind name slot
    → ((j : ℕ) → j < nr_entries → names j ≡ name → j ≡ slot)
    → Found fs dir names kind name 0 nr_entries r
    → r ≡ entry_no dir.block slot
Found-only fs dir names kind name slot r h m one (inl (i, a, b, n, before, e)) =
    e ∙ ap (entry_no dir.block) (one i b n.1)
Found-only fs dir names kind name slot r h m one (inr (nobody, e)) =
    absurd (nobody slot (omega arith) h m)

pub only_slot :
    (slot : ℕ) (name : List ℕ) (names : ℕ → List ℕ)
    → ((j : ℕ) → j < nr_entries → names j ≢ name)
    → (j : ℕ) → j < nr_entries
    → renamed slot name names j ≡ name
    → j ≡ slot
only_slot slot name names new j l e = elim (Bool-cases (j == slot)) [
  | inl z ↦ ==→eq j slot z
  | inr z ↦ absurd (new j l (rw z at e))
]

-- What `makeFL` does in a directory in which no entry has the new name, and which has room. The new
-- inode is free, and is not that of the directory: the file is found under its name in the directory,
-- whose entries stay in order, with one more name among them.
pub make_fl_at-find_entry :
    (index p_index : ℕ) (abspath : List ℕ) (fs : Fs) (names : ℕ → List ℕ)
    → IsDirectory (fs.inodes p_index) names
    → IsName (get_last_level_name abspath)
    → ((j : ℕ) → j < nr_entries → names j ≢ get_last_level_name abspath)
    → (fs.inodes p_index).size < nr_entries
    → index < nr_inode
    → p_index < nr_inode
    → index < length fs.inode_map
    → index ≢ p_index
    → (fs' : Fs) × (slot : ℕ) × (make_fl_at index p_index abspath none fs ≡ ok fs')
      × (find_entry fl_type (get_last_level_name abspath) p_index fs' ≡ ok index)
      × IsDirectory (fs'.inodes p_index) (renamed slot (get_last_level_name abspath) names)
      × (slot < nr_entries)
      × (names slot ≡ [])
make_fl_at-find_entry index p_index abspath fs names d n new room bi bp bm differ =
    let name = get_last_level_name abspath in
    let dir : Inode = fs.inodes p_index in
    let (slot, run, bs, empty) =
      avl_dirdata_from_lem nr_entries 0 dir names d (omega arith) (omega (arith, d.count)) in
    let fs' : Fs = with_file slot index p_index name fs in
    let other : (p_index == index) ≡ false = ground arith in
    let same : fs'.inodes p_index
        ≡ record dir { block = linked slot index name dir.block; size = add32 dir.size 1 } =
      ground arith in
    let in_order = link-IsDirectory slot index name dir names d n bs empty bi room in
    let ordered : IsDirectory (fs'.inodes p_index) (renamed slot name names) =
      subst (λ x. IsDirectory x (renamed slot name names)) (sym same) in_order in
    let (r, search, found) =
      find_entry_lem fl_type name p_index fs' (renamed slot name names) bp ordered n.bytes in
    let at_slot : entry_no (fs'.inodes p_index).block slot ≡ index =
      rw same (linked-no slot index name dir.block bi) in
    let is_file : (fs'.inodes (entry_no (fs'.inodes p_index).block slot)).kind ≡ fl_type =
      rw at_slot (ground arith) in
    let called : renamed slot name names slot ≡ name = ground arith in
    let only : r ≡ entry_no (fs'.inodes p_index).block slot =
      Found-only fs' (fs'.inodes p_index) (renamed slot name names) fl_type name slot r bs
        (rw called n.full, called, is_file) (λ j l e. only_slot slot name names new j l e) found in
    (
      fs',
      slot,
      make_fl_at_lem slot index p_index abspath fs n.fits bp bs bi bm run,
      search ∙ ap (λ x. ok x) (only ∙ at_slot),
      ordered,
      bs,
      empty,
    )
