-- ===== src/Fs/Startup.antt =====
-- The rest of fs.c: the super block that initFS fills in, its message, and testfs.
use oslab_nju.Prelude.{ℕ, zero, suc, ◌+◌, List, [], ◌∷◌, ◌++◌, Run, ok, ◌>>=◌}
use oslab_nju.Print.{str, printk}
use oslab_nju.Fs.{Fs, nr_inode, load_inode}

-- `FS_SIZE_MB`.
abbrev pub fs_size_mb : ℕ
fs_size_mb = 2

-- The fields of `superblock_t` that `initFS` writes in `fs_superblock`.
pub record Superblock : Type 0 where
  pub fs_sz_mb : ℕ
  pub nr_node : ℕ
  pub superblock_sz_b : ℕ
  pub inodeblock_sz_b : ℕ
  pub inuse_inode_num : ℕ

-- With the sizes of `superblock_t` and `inodeblock_t`.
unfoldable pub init_superblock : ℕ → ℕ → Superblock
init_superblock superblock inodeblock = record {
  fs_sz_mb = fs_size_mb;
  nr_node = nr_inode;
  superblock_sz_b = superblock;
  inodeblock_sz_b = inodeblock;
  inuse_inode_num = 0;
}

-- `printk("FS ID is %s\n", fs_superpointer->id)`.
unfoldable pub id_message : List ℕ → Run (List ℕ)
id_message id =
    printk (b'F' ∷ b'S' ∷ b' ' ∷ b'I' ∷ b'D' ∷ b' ' ∷ b'i' ∷ b's' ∷ b' ' ∷ b'%' ∷ b's' ∷ 10 ∷ [])
      (str id ∷ [])

-- The `k` rounds of `testfs` from inode `i` on: the names that it prints.
unfoldable pub names_from : ℕ → ℕ → Fs → Run (List ℕ)
names_from zero i fs = ok []
names_from (suc k) i fs = do
  x ← load_inode fs i
  out ← printk (b'%' ∷ b's' ∷ 10 ∷ []) (str x.filename ∷ [])
  rest ← names_from k (i + 1) fs
  ok (out ++ rest)

unfoldable pub test_fs : Fs → Run (List ℕ)
test_fs fs = names_from 4 0 fs
