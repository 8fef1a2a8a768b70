-- ===== src/Tests/Names.antt =====
-- Names in directories.
use oslab_nju.Prelude.{ℕ, zero, suc, ◌+◌, ◌≡◌, refl, List, [], ◌∷◌, replicate, arith}
use oslab_nju.Fs.{Fs, Inode, dir_type, nr_entries, entry_name, entry_no}
use oslab_nju.Text.{read_string}
use oslab_nju.Fs.Directory.{IsDirectory, used}

abbrev pub folder : Inode
folder = record { kind = dir_type; size = 0; filename = b'/' ∷ []; block = λ a. 0 }

abbrev pub files : Fs
files = record {
  inode_map = replicate 32 0;
  inuse_inode_num = 0;
  inodes = λ i. folder;
  path_offset = 0;
  top_dir = λ a. 0;
}

abbrev pub no_names : ℕ → List ℕ
no_names j = []

used-no_names : (k i : ℕ) → used no_names k i ≡ 0
unfolding used
used-no_names zero i = refl
used-no_names (suc k) i = ground (arith, used-no_names k (i + 1))

pub folder-IsDirectory : IsDirectory folder no_names
unfolding entry_name read_string entry_no
folder-IsDirectory = record {
  named = λ i h. ground arith;
  bytes = λ i h. tt;
  numbers = λ i h. omega arith;
  count = used-no_names nr_entries 0;
}
