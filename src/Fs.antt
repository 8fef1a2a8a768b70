-- ===== src/Fs.antt =====
-- The file system: kernel/kernel/fs.c and kernel/include/x86/fs.h. It lies in memory from `fs_addr`
-- on: a super block and 32 inodes with a block of 32 KB each. Directory entries are read from and
-- written to the bytes of the block.
pub mod Path
pub mod Lookup
pub mod Change
pub mod Content
pub mod Directory
pub mod Search
pub mod Linking
pub mod Making
pub mod Resolve
pub mod Walking
pub mod LastName
pub mod Keeping
pub mod Holding
pub mod Creating
pub mod Removing
pub mod Removal
pub mod Folders
pub mod MakingDirs
pub mod Startup
use oslab_nju.Prelude.{
  ℕ, zero, suc, ◌+◌, ◌-◌, ◌*◌, ◌/◌, ◌%◌, ◌^◌, Bool, true, false, List, [], ◌∷◌, Run, ok, fault,
  ◌>>=◌, ltb, ◌==◌, if◌then◌else◌,
}
use oslab_nju.Text.{Bytes, store_byte, read_string, write_string}

abbrev pub nr_inode : ℕ
nr_inode = 32

abbrev pub max_filename_len : ℕ
max_filename_len = 28

-- `MAX_FILE_SZ_KB*1024`, and the number of entries of a directory.
abbrev pub block_size : ℕ
block_size = 32768

abbrev pub nr_entries : ℕ
nr_entries = 1024

-- `enum file_type`, as the numbers in the field `type`.
abbrev pub unused_type : ℕ
unused_type = 0

abbrev pub fl_type : ℕ
fl_type = 1

abbrev pub dir_type : ℕ
dir_type = 2

abbrev pub available : ℕ
available = 0

abbrev pub inuse : ℕ
inuse = 1

-- `inodeblock_t`: `size` is the union of `filesz` and `filenum`, and `block` that of `datablock` and
-- `dirdata`. `filename` is the string in the array.
pub record Inode : Type 0 where
  pub kind : ℕ
  pub size : ℕ
  pub filename : List ℕ
  pub block : Bytes

-- The fields of the super block that the code reads or writes once the system runs, the inodes,
-- and the two globals `path_offset` and `top_dir`.
pub record Fs : Type 0 where
  pub inode_map : List ℕ
  pub inuse_inode_num : ℕ
  pub inodes : ℕ → Inode
  pub path_offset : ℕ
  pub top_dir : Bytes

-- `fs_inodepointer[i]`.
unfoldable pub load_inode : Fs → ℕ → Run Inode
load_inode fs i = if ltb i nr_inode then ok (fs.inodes i) else fault

abbrev pub store_inode : Fs → ℕ → Inode → Fs
store_inode fs i x = record fs { inodes = λ j. if j == i then x else fs.inodes j }

-- `dirdata[i].inode_no`, four bytes, the lowest first.
unfoldable pub entry_no : Bytes → ℕ → ℕ
entry_no b i =
    b (i * 32) + 0x100 * b (i * 32 + 1) + 0x1_0000 * b (i * 32 + 2) + 0x100_0000 * b (i * 32 + 3)

-- `dirdata[i].inode_no = v`.
unfoldable pub set_entry_no : ℕ → ℕ → Bytes → Bytes
set_entry_no i v b =
    store_byte
      (store_byte (store_byte (store_byte b (i * 32) (v % 0x100)) (i * 32 + 1) (v / 0x100 % 0x100))
        (i * 32 + 2) (v / 0x1_0000 % 0x100))
      (i * 32 + 3) (v / 0x100_0000 % 0x100)

-- `dirdata[i].filename`; behind the last entry lies the next inode.
unfoldable pub entry_name : Bytes → ℕ → Run (List ℕ)
entry_name b i = if ltb i nr_entries then read_string max_filename_len b (i * 32 + 4) else fault

-- `strcpy(dirdata[i].filename, name)`: a name that does not fit runs into the next entry.
unfoldable pub set_entry_name : ℕ → List ℕ → Bytes → Bytes
set_entry_name i name b = write_string name (i * 32 + 4) b
