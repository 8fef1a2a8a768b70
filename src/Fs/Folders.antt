-- ===== src/Fs/Folders.antt =====
-- New directories: makeRootDir and makeDir of fs.c.
use oslab_nju.Prelude.{
  ℕ, ◌+◌, ◌*◌, ◌<◌, ◌≡◌, ◌∙◌, sym, refl, true, List, [], ◌∷◌, ok, ltb, arith, length, set, zero,
  suc,
}
use oslab_nju.Text.{Bytes, read_string}
use oslab_nju.Fs.{
  Fs, Inode, nr_inode, nr_entries, dir_type, inuse, load_inode, store_inode, entry_no, entry_name,
}
use oslab_nju.Fs.Path.{slash}
use oslab_nju.Fs.Change.{dot, dot_dot, dot_entries, mark_inode, count_inode, make_root_dir}
use oslab_nju.Fs.Directory.{IsDirectory, used}
use oslab_nju.Fs.Linking.{IsName, linked, linked-no, linked-other, renamed, link-IsDirectory}

abbrev pub nobody : ℕ → List ℕ
nobody j = []

used-nobody : (k i : ℕ) → used nobody k i ≡ 0
unfolding used
used-nobody zero i = refl
used-nobody (suc k) i = ground (arith, used-nobody k (i + 1))

read_string-nul : (room a : ℕ) (b : Bytes) → 0 < room → b a ≡ 0 → read_string room b a ≡ ok []
unfolding read_string
read_string-nul zero a b h e = absurd (omega arith)
read_string-nul (suc room) a b h e = ground (arith, e)

-- A block of zeros is a directory with no entries.
zeros-IsDirectory : (x : Inode) → ((a : ℕ) → x.block a ≡ 0) → x.size ≡ 0 → IsDirectory x nobody
unfolding entry_name entry_no
zeros-IsDirectory x z s = record {
  named = λ i h.
      let inside : ltb i nr_entries ≡ true = ground (arith, h) in
      rw inside (read_string-nul 28 (i * 32 + 4) x.block (omega arith) (z (i * 32 + 4)));
  bytes = λ i h. tt;
  numbers = λ i h. omega (arith, z (i * 32), z (i * 32 + 1), z (i * 32 + 2), z (i * 32 + 3));
  count = used-nobody nr_entries 0 ∙ sym s;
}

dot-IsName : IsName dot
dot-IsName = record { full = refl; fits = omega arith; bytes = omega arith; ends = omega arith }

dot_dot-IsName : IsName dot_dot
dot_dot-IsName = record { full = refl; fits = omega arith; bytes = omega arith; ends = omega arith }

-- The names of a new directory, and the directory itself.
abbrev pub dots : ℕ → List ℕ
dots = renamed 1 dot_dot (renamed 0 dot nobody)

abbrev pub IsNewDirectory : Inode → ℕ → ℕ → Type 0
IsNewDirectory x index p_index =
    IsDirectory x dots
    × (entry_no x.block 0 ≡ index)
    × (entry_no x.block 1 ≡ p_index)
    × (x.kind ≡ dir_type)

-- The entries `.` and `..` written to a block of zeros.
pub dots-IsNewDirectory :
    (x : Inode) (index p_index : ℕ)
    → ((a : ℕ) → x.block a ≡ 0)
    → index < nr_inode
    → p_index < nr_inode
    → IsNewDirectory
        (record x { kind = dir_type; size = 2; block = dot_entries index p_index x.block })
        index
        p_index
dots-IsNewDirectory x index p_index z b c =
    let x0 : Inode = record x { kind = dir_type; size = 0 } in
    let x1 : Inode = record x0 { block = linked 0 index dot x.block; size = 1 } in
    let first : IsDirectory x1 (renamed 0 dot nobody) =
      link-IsDirectory 0 index dot x0 nobody (zeros-IsDirectory x0 z refl) dot-IsName (omega arith)
        refl b (omega arith) in
    (
      link-IsDirectory 1 p_index dot_dot x1 (renamed 0 dot nobody) first dot_dot-IsName
          (omega arith) refl c (omega arith),
      linked-other 1 p_index dot_dot x1.block 0 (omega arith) (λ e. absurd (omega (arith, e)))
          ∙ linked-no 0 index dot x.block b,
      linked-no 1 p_index dot_dot x1.block c,
      refl,
    )

-- `makeRootDir` on an inode of zeros always makes a directory in order of it: its entries `.` and `..` lead back
-- to it, and the inode is in use.
pub make_root_dir_lem :
    (fs : Fs)
    → ((a : ℕ) → (fs.inodes 0).block a ≡ 0)
    → 0 < length fs.inode_map
    → (after : Fs) × (make_root_dir fs ≡ ok after)
      × IsNewDirectory (after.inodes 0) 0 0
      × (after.inode_map ≡ set fs.inode_map 0 inuse)
unfolding make_root_dir load_inode mark_inode
make_root_dir_lem fs z m =
    let mapped : ltb 0 (length fs.inode_map) ≡ true = ground (arith, m) in
    let x : Inode = record (fs.inodes 0) { filename = slash ∷ [] } in
    let y : Inode = record x { kind = dir_type; size = 2; block = dot_entries 0 0 x.block } in
    (
      record (count_inode (store_inode fs 0 y)) { inode_map = set fs.inode_map 0 inuse },
      rw mapped refl,
      dots-IsNewDirectory x 0 0 z (omega arith) (omega arith),
      refl,
    )
