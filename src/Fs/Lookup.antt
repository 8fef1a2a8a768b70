-- ===== src/Fs/Lookup.antt =====
-- Finding a path: findUpperDirPos, findCurrentDirPos, findCurrentFLPos, isDIRExist, isFLExist,
-- getAvlInode and getAvlDirdata of fs.c. An index is an `int`, -1 for none.
use oslab_nju.Prelude.{
  ℕ, zero, suc, ◌+◌, Bool, true, false, not, ◌||◌, List, [], ◌∷◌, Run, ok, spin, ◌>>=◌, ◌>>◌,
  assert, ltb, ◌==◌, if◌then◌else◌, length,
}
use oslab_nju.Prelude.Word.{minus_one}
use oslab_nju.Text.{strcmp, is_equal}
use oslab_nju.Fs.{
  Fs, Inode, nr_entries, dir_type, fl_type, available, load_inode, entry_no, entry_name,
}
use oslab_nju.Fs.Path.{slash, split_path, last_level}

-- `getAvlInode`: the loop over the map, from index `i` on.
unfoldable pub avl_inode_from : ℕ → List ℕ → ℕ
avl_inode_from i [] = minus_one
avl_inode_from i (x ∷ xs) =
    let rest = avl_inode_from (i + 1) xs in if x == available then i else rest

unfoldable pub get_avl_inode : Fs → ℕ
get_avl_inode fs = avl_inode_from 0 fs.inode_map

-- `for(i=0;cont<filenum;i++)` over the entries of an inode: the inode of the first entry with the
-- name `name` whose inode has the type `kind`. Only entries with a name are counted, and the loop
-- has no bound of its own: `entry_name` faults behind the last entry. `k` is the rounds that are left.
unfoldable pub scan_entries : ℕ → Fs → Inode → ℕ → List ℕ → ℕ → ℕ → Run ℕ
scan_entries zero fs dir kind name i cont = spin
scan_entries (suc k) fs dir kind name i cont = elim (ltb cont dir.size) [
  | false ↦ ok minus_one
  | true ↦ do
    n ← entry_name dir.block i
    elim (is_equal (strcmp n [])) [
      | true ↦ scan_entries k fs dir kind name (i + 1) cont
      | false ↦ elim (is_equal (strcmp n name)) [
        | false ↦ scan_entries k fs dir kind name (i + 1) (cont + 1)
        | true ↦ do
          x ← load_inode fs (entry_no dir.block i)
          elim (x.kind == kind) [
            | true ↦ ok (entry_no dir.block i)
            | false ↦ scan_entries k fs dir kind name (i + 1) (cont + 1)
          ]
      ]
    ]
]

-- One round more than there are entries.
abbrev pub scan_fuel : ℕ
scan_fuel = 1025

unfoldable pub find_entry : ℕ → List ℕ → ℕ → Fs → Run ℕ
find_entry kind name index fs = do
  dir ← load_inode fs index
  scan_entries scan_fuel fs dir kind name 0 0

-- `while(!lastLevel(abspath))`: goes down one directory a round. `checked` says whether a missing
-- directory fails an assertion (findCurrentDirPos, findCurrentFLPos) or is carried on as -1
-- (findUpperDirPos). A round takes at least one character off the path.
unfoldable pub walk : ℕ → Bool → List ℕ → ℕ → Fs → Run (List ℕ × ℕ × Fs)
walk zero checked path index fs = spin
walk (suc k) checked path index fs = elim (last_level path) [
  | true ↦ ok (path, index, fs)
  | false ↦ do
    (dir, path, fs) ← split_path path fs
    next ← find_entry dir_type dir index fs
    assert (not checked || not (next == minus_one))
    walk k checked path next fs
]

-- What the three functions begin with: the first level, and the directories in between.
unfoldable pub walk_path : Bool → List ℕ → Fs → Run (List ℕ × ℕ × Fs)
walk_path checked abspath fs = do
  (dir, path, fs) ← split_path abspath fs
  walk (suc (length path)) checked path 0 fs

abbrev pub root_path : List ℕ
root_path = slash ∷ []

unfoldable pub find_upper_dir_pos : List ℕ → Fs → Run (ℕ × Fs)
find_upper_dir_pos abspath fs =
    if is_equal (strcmp abspath root_path)
    then ok (0, fs)
    else (do (path, index, fs) ← walk_path false abspath fs; ok (index, fs))

unfoldable pub find_current_dir_pos : List ℕ → Fs → Run (ℕ × Fs)
find_current_dir_pos abspath fs = if is_equal (strcmp abspath root_path) then ok (0, fs) else (do
  (path, index, fs) ← walk_path true abspath fs
  r ← find_entry dir_type path index fs
  ok (r, fs))

unfoldable pub find_current_fl_pos : List ℕ → Fs → Run (ℕ × Fs)
find_current_fl_pos abspath fs = do
  (path, index, fs) ← walk_path true abspath fs
  r ← find_entry fl_type path index fs
  ok (r, fs)

unfoldable pub is_dir_exist : List ℕ → Fs → Run (Bool × Fs)
is_dir_exist abspath fs = do
  (r, fs) ← find_current_dir_pos abspath fs
  ok (not (r == minus_one), fs)

unfoldable pub is_fl_exist : List ℕ → Fs → Run (Bool × Fs)
is_fl_exist abspath fs = do (r, fs) ← find_current_fl_pos abspath fs; ok (not (r == minus_one), fs)

-- `getAvlDirdata`: the first entry with no name, of the `k` entries from `i` on.
unfoldable pub avl_dirdata_from : ℕ → ℕ → Inode → Run ℕ
avl_dirdata_from zero i dir = ok minus_one
avl_dirdata_from (suc k) i dir = do
  n ← entry_name dir.block i
  elim (is_equal (strcmp n [])) [ true ↦ ok i | false ↦ avl_dirdata_from k (i + 1) dir ]

unfoldable pub get_avl_dirdata : ℕ → Fs → Run ℕ
get_avl_dirdata index fs = do dir ← load_inode fs index; avl_dirdata_from nr_entries 0 dir
