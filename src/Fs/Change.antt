-- ===== src/Fs/Change.antt =====
-- Making and removing directories and files, and reading and writing: makeDir, makeFL, rmFL,
-- makeRootDir, writeF, readF and ls of fs.c.
use oslab_nju.Prelude.{
  ℕ, zero, suc, ◌+◌, ◌-◌, true, false, not, List, [], ◌∷◌, ◌++◌, Run, ok, fault, spin, ◌>>=◌, ◌>>◌,
  assert, ltb, ◌==◌, if◌then◌else◌, length, get_or, set, Option, none, some,
}
use oslab_nju.Prelude.Word.{minus_one, add32, is_neg, slt}
use oslab_nju.Text.{Bytes, store_byte, write_string, strcmp, is_equal}
use oslab_nju.Print.{str, printk}
use oslab_nju.Fs.{
  Fs, Inode, dir_type, fl_type, available, inuse, block_size, max_filename_len, load_inode,
  store_inode, set_entry_no, entry_name, set_entry_name,
}
use oslab_nju.Fs.Path.{slash, get_last_level_name}
use oslab_nju.Fs.Lookup.{
  scan_fuel, get_avl_inode, get_avl_dirdata, find_upper_dir_pos, find_current_dir_pos,
  find_current_fl_pos,
}

-- `strcpy` into an array of 28 characters.
unfoldable pub fit_name : List ℕ → Run (List ℕ)
fit_name name = if ltb (length name) max_filename_len then ok name else fault

-- The name of a directory ends in a slash. Of an empty name the code reads the character at -1.
unfoldable pub dir_name : List ℕ → Run (List ℕ)
dir_name [] = fault
dir_name (c ∷ cs) =
    let name = c ∷ cs in
    if get_or name (length name - 1) 0 == slash
    then fit_name name
    else fit_name (name ++ (slash ∷ []))

-- The entry `name` for the inode `index` in the directory `p_index`.
unfoldable pub link_entry : ℕ → ℕ → List ℕ → Fs → Run Fs
link_entry p_index index name fs = do
  slot ← get_avl_dirdata p_index fs
  assert (not (slot == minus_one))
  p ← load_inode fs p_index
  let b = set_entry_name slot name (set_entry_no slot index p.block)
  ok (store_inode fs p_index (record p { block = b; size = add32 p.size 1 }))

-- `inode_map[index] = v`.
unfoldable pub mark_inode : ℕ → ℕ → Fs → Run Fs
mark_inode index v fs =
    if ltb index (length fs.inode_map)
    then ok (record fs { inode_map = set fs.inode_map index v })
    else fault

abbrev pub count_inode : Fs → Fs
count_inode fs = record fs { inuse_inode_num = add32 fs.inuse_inode_num 1 }

abbrev pub dot : List ℕ
dot = b'.' ∷ []

abbrev pub dot_dot : List ℕ
dot_dot = b'.' ∷ b'.' ∷ []

-- The entries `.` and `..` of a directory.
abbrev pub dot_entries : ℕ → ℕ → Bytes → Bytes
dot_entries index p_index b =
    set_entry_name 1 dot_dot
      (set_entry_no 1 p_index (set_entry_name 0 dot (set_entry_no 0 index b)))

unfoldable pub make_dir_at : ℕ → ℕ → List ℕ → Fs → Run Fs
make_dir_at index p_index abspath fs = do
  copied ← fit_name (get_last_level_name abspath)
  name ← dir_name copied
  fs ← link_entry p_index index name (count_inode fs)
  x ← load_inode fs index
  let x = record x {
    kind = dir_type;
    filename = name;
    block = dot_entries index p_index x.block;
    size = 2;
  }
  mark_inode index inuse (count_inode (store_inode fs index x))

-- The text "abspath error\n".
abbrev pub abspath_error : List ℕ
abspath_error =
    b'a' ∷ b'b' ∷ b's' ∷ b'p' ∷ b'a' ∷ b't' ∷ b'h' ∷ b' ' ∷ b'e' ∷ b'r' ∷ b'r' ∷ b'o' ∷ b'r' ∷ 10
    ∷ []

-- The second half of the test: the directory above.
unfoldable pub make_dir_below : ℕ → ℕ → List ℕ → Fs → Run (Fs × List ℕ)
make_dir_below index p_index abspath fs =
    if p_index == minus_one
    then ok (fs, abspath_error)
    else (do fs ← make_dir_at index p_index abspath fs; ok (fs, []))

-- `makeDir`, with what it prints.
unfoldable pub make_dir : List ℕ → Fs → Run (Fs × List ℕ)
make_dir abspath fs =
    let index = get_avl_inode fs in
    if index == minus_one
    then ok (fs, abspath_error)
    else (do (p_index, fs) ← find_upper_dir_pos abspath fs; make_dir_below index p_index abspath fs)

-- `if(data != NULL)`: the size and the bytes of the new file; with NULL both stay as they were.
unfoldable pub fill_file : Option (List ℕ) → Inode → Run Inode
fill_file none x = ok x
fill_file (some text) x =
    if ltb (length text) block_size
    then ok (record x { size = length text; block = write_string text 0 x.block })
    else fault

unfoldable pub make_fl_at : ℕ → ℕ → List ℕ → Option (List ℕ) → Fs → Run Fs
make_fl_at index p_index abspath text fs = do
  name ← fit_name (get_last_level_name abspath)
  fs ← link_entry p_index index name (count_inode fs)
  x ← load_inode fs index
  x ← fill_file text (record x { kind = fl_type; filename = name })
  mark_inode index inuse (count_inode (store_inode fs index x))

-- `makeFL`.
unfoldable pub make_fl : List ℕ → Option (List ℕ) → Fs → Run Fs
make_fl abspath text fs = do
  let index = get_avl_inode fs
  assert (not (index == minus_one))
  (p_index, fs) ← find_upper_dir_pos abspath fs
  assert (not (p_index == minus_one))
  make_fl_at index p_index abspath text fs

-- The loop of `rmFL`: the first entry with the name is cleared; the count of entries stays.
unfoldable pub clear_entry : ℕ → List ℕ → Inode → ℕ → ℕ → Run Bytes
clear_entry zero name dir i cont = spin
clear_entry (suc k) name dir i cont = elim (ltb cont dir.size) [
  | false ↦ ok dir.block
  | true ↦ do
    n ← entry_name dir.block i
    elim (is_equal (strcmp n [])) [
      | true ↦ clear_entry k name dir (i + 1) cont
      | false ↦ elim (is_equal (strcmp name n)) [
        | true ↦ ok (set_entry_name i [] (set_entry_no i 0 dir.block))
        | false ↦ clear_entry k name dir (i + 1) (cont + 1)
      ]
    ]
]

-- `rmFL`. With a path that is not found the index is -1.
unfoldable pub rm_fl : List ℕ → Fs → Run Fs
rm_fl abspath fs = do
  (index, fs) ← find_current_fl_pos abspath fs
  (p_index, fs) ← find_upper_dir_pos abspath fs
  x ← load_inode fs index
  p ← load_inode fs p_index
  b ← clear_entry scan_fuel x.filename p 0 0
  mark_inode index available (store_inode fs p_index (record p { block = b }))

unfoldable pub make_root_dir : Fs → Run Fs
make_root_dir fs = do
  x ← load_inode fs 0
  let x = record x {
    kind = dir_type;
    filename = slash ∷ [];
    size = 2;
    block = dot_entries 0 0 x.block;
  }
  mark_inode 0 inuse (count_inode (store_inode fs 0 x))

-- The loop of `writeF`, with `k` rounds left: `datablock[i + offset] = buf[i]`.
unfoldable pub copy_in : ℕ → ℕ → ℕ → Bytes → Bytes → Run Bytes
copy_in zero i offset buf block = ok block
copy_in (suc k) i offset buf block =
    let rest = copy_in k (i + 1) offset buf (store_byte block (add32 i offset) (buf i)) in
    if ltb (add32 i offset) block_size then rest else fault

-- The rounds of `for(i = 0;i<len;i++)` for an `int`.
abbrev pub rounds : ℕ → ℕ
rounds len = if is_neg len then 0 else len

-- `writeF`: the result is the number of bytes. `filesz` is unsigned, and so is the comparison.
unfoldable pub write_f : ℕ → Bytes → ℕ → ℕ → Fs → Run (ℕ × Fs)
write_f index buf len offset fs = do
  assert (slt (add32 len offset) block_size)
  x ← load_inode fs index
  b ← copy_in (rounds len) 0 offset buf x.block
  let end = add32 offset len
  let size = if ltb end x.size then x.size else end
  ok (rounds len, store_inode fs index (record x { block = b; size = size }))

-- The loop of `readF`, with `k` rounds left: the bytes that it copies.
unfoldable pub copy_out : ℕ → ℕ → ℕ → Inode → Run (List ℕ)
copy_out zero i offset x = ok []
copy_out (suc k) i offset x =
    let rest = copy_out k (i + 1) offset x in
    if not (ltb (add32 i offset) x.size)
    then ok []
    else if ltb (add32 i offset) block_size
    then (do bs ← rest; ok (x.block (add32 i offset) ∷ bs))
    else fault

-- `readF`: the bytes that go to the buffer; the result of the C function is their number.
unfoldable pub read_f : ℕ → ℕ → ℕ → Fs → Run (List ℕ)
read_f index len offset fs = do x ← load_inode fs index; copy_out (rounds len) 0 offset x

-- `ls` prints the first `filenum` entries, a name and a line feed each.
unfoldable pub ls_entries : ℕ → ℕ → Inode → Run (List ℕ)
ls_entries zero i dir = ok []
ls_entries (suc k) i dir = do
  n ← entry_name dir.block i
  out ← printk (b'%' ∷ b's' ∷ 10 ∷ []) (str n ∷ [])
  rest ← ls_entries k (i + 1) dir
  ok (out ++ rest)

unfoldable pub ls : List ℕ → Fs → Run (List ℕ × Fs)
ls abspath fs = do
  (index, fs) ← find_current_dir_pos abspath fs
  dir ← load_inode fs index
  out ← ls_entries dir.size 0 dir
  ok (out, fs)
