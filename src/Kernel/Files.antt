-- ===== src/Kernel/Files.antt =====
-- The system calls on files: getAvlFilepointer to lseek_aux of kernel/kernel/irqHandle.c.
use oslab_nju.Prelude.{
  ℕ, zero, suc, ◌+◌, true, false, not, ◌||◌, List, [], ◌∷◌, ◌++◌, Run, ok, fault, spin, ◌>>=◌, ◌>>◌,
  assert, ltb, ◌==◌, if◌then◌else◌, get_or, set, length, none,
}
use oslab_nju.Prelude.Word.{minus_one, add32, sub32, slt}
use oslab_nju.Text.{Bytes, store_byte, take_bytes, strcmp, is_equal}
use oslab_nju.Print.{str, printk}
use oslab_nju.Proc.{Pcb}
use oslab_nju.Sem.{user_address}
use oslab_nju.Fs.{Fs, Inode, block_size, load_inode, entry_name}
use oslab_nju.Fs.Lookup.{find_current_dir_pos, find_current_fl_pos, is_fl_exist}
use oslab_nju.Fs.Change.{make_fl, rm_fl, write_f, read_f, rounds}
use oslab_nju.Console.Screen.{put_all, put_default}
use oslab_nju.Console.Keyboard.{wait_for_keyboard}
use oslab_nju.Kernel.{Kernel, SysFile, load_file, load_current, store_current, return_value}

abbrev pub stdin : ℕ
stdin = 0

abbrev pub stdout : ℕ
stdout = 1

-- `getAvlFilepointer`: the first free descriptor from index `i` on; the call starts at 3.
unfoldable pub avl_from : ℕ → List ℕ → ℕ
avl_from i [] = minus_one
avl_from i (x ∷ xs) = let rest = avl_from (i + 1) xs in if x == minus_one then i else rest

unfoldable pub get_avl_filepointer : Pcb → ℕ
get_avl_filepointer c = from_three c.filepointer
  where
    from_three : List ℕ → ℕ
    from_three (a ∷ b ∷ d ∷ rest) = avl_from 3 rest
    from_three _ = minus_one

-- `getAvlSystemFile`.
unfoldable pub avl_file_from : ℕ → List SysFile → ℕ
avl_file_from i [] = minus_one
avl_file_from i (x ∷ xs) =
    let rest = avl_file_from (i + 1) xs in if x.inode_index == minus_one then i else rest

unfoldable pub get_avl_system_file : Kernel → ℕ
get_avl_system_file k = avl_file_from 0 k.files

-- `current->filepointer[fd]`.
unfoldable pub descriptor : ℕ → Kernel → Run ℕ
descriptor fd k = do
  c ← load_current k
  if ltb fd (length c.filepointer) then ok (get_or c.filepointer fd 0) else fault

abbrev pub store_file : ℕ → SysFile → Kernel → Kernel
store_file i f k = record k { files = set k.files i f }

-- `if(!isFLExist(path)) makeFL(path, NULL);`
unfoldable pub create_missing : List ℕ → Fs → Run Fs
create_missing path fs = do
  (found, fs) ← is_fl_exist path fs
  if found then ok fs else make_fl path none fs

abbrev opened : ℕ → SysFile
opened index = record { inode_index = index; link_num = 1; offset = 0 }

-- The end of `open_aux`: a new entry of the table for the inode, and a descriptor for that.
unfoldable pub attach : ℕ → Kernel → Run Kernel
attach index k = do
  c ← load_current k
  let sys = get_avl_system_file k
  let fp = get_avl_filepointer c
  assert (not (sys == minus_one || fp == minus_one))
  let f = opened index
  let c = record c {
    filepointer = set c.filepointer fp sys;
    tf = record c.tf { eax = fp };
    fp_num = add32 c.fp_num 1;
  }
  ok (store_current c (store_file sys f (record k { sys_file_num = add32 k.sys_file_num 1 })))

unfoldable pub open_aux : List ℕ → ℕ → Kernel → Run Kernel
open_aux path flags k = do
  fs ← create_missing path k.fs
  (index, fs) ← find_current_fl_pos path fs
  attach index (record k { fs = fs })

-- The bytes of the buffer at an address.
abbrev pub at_address : Bytes → ℕ → Bytes
at_address mem a i = mem (add32 a i)

-- `for(i=0; ...) buf[i] = ...` for the bytes of a list.
unfoldable pub put_bytes : List ℕ → ℕ → ℕ → Bytes → Bytes
put_bytes [] a i mem = mem
put_bytes (x ∷ xs) a i mem = put_bytes xs a (i + 1) (store_byte mem (add32 a i) x)

unfoldable pub write_file : ℕ → Bytes → ℕ → Kernel → Run Kernel
write_file fd buf len k = do
  sys ← descriptor fd k
  f ← load_file sys k.files
  (n, fs) ← write_f f.inode_index buf len f.offset k.fs
  k ← return_value n (record k { fs = fs })
  ok (store_file sys (record f { offset = add32 f.offset len }) k)

unfoldable pub write_aux : ℕ → ℕ → ℕ → Kernel → Run Kernel
write_aux fd buf len k = do
  c ← load_current k
  let b = at_address k.mem (user_address c.pid buf)
  if fd == stdout
      then ok (record k { screen = put_all (take_bytes (rounds len) 0 b) k.screen })
      else write_file fd b len k

-- The entry of the table goes when its last descriptor is closed.
unfoldable pub drop_link : ℕ → Kernel → Run Kernel
drop_link sys k = do
  f ← load_file sys k.files
  let left = sub32 f.link_num 1
  let gone = record f { link_num = left; inode_index = minus_one; offset = 0 }
  if left == 0
      then ok (store_file sys gone (record k { sys_file_num = sub32 k.sys_file_num 1 }))
      else ok (store_file sys (record f { link_num = left }) k)

unfoldable pub close_aux : ℕ → Kernel → Run Kernel
close_aux fd k = do
  sys ← descriptor fd k
  k ← drop_link sys k
  c ← load_current k
  let c = record c {
    filepointer = set c.filepointer fd minus_one;
    fp_num = sub32 c.fp_num 1;
    tf = record c.tf { eax = 0 };
  }
  ok (store_current c k)

unfoldable pub remove_aux : List ℕ → Kernel → Run Kernel
remove_aux path k = do fs ← rm_fl path k.fs; return_value 0 (record k { fs = fs })

-- The input buffer from `buf_out` on; a read behind it is a fault.
unfoldable pub typed : ℕ → ℕ → List ℕ → Run (List ℕ)
typed zero i buf = ok []
typed (suc n) i buf =
    if ltb i (length buf)
    then (do rest ← typed n (i + 1) buf; ok (get_or buf i 0 ∷ rest))
    else fault

-- `read_aux` from the keyboard; `scans` are the keys that are pressed while it waits.
unfoldable pub read_keys : ℕ → ℕ → List ℕ → Kernel → Run Kernel
read_keys buf len scans k = do
  (sc, i) ← wait_for_keyboard (sub32 len 1) scans k.screen k.input
  cs ← typed (rounds len) i.buf_out i.buf
  ok (record k {
    screen = sc;
    input = record i { buf_out = add32 i.buf_out len };
    mem = put_bytes cs buf 0 k.mem;
  })

unfoldable pub read_file : ℕ → ℕ → ℕ → Kernel → Run Kernel
read_file fd buf len k = do
  sys ← descriptor fd k
  f ← load_file sys k.files
  bs ← read_f f.inode_index len f.offset k.fs
  k ← return_value (length bs) (record k { mem = put_bytes bs buf 0 k.mem })
  x ← load_inode k.fs f.inode_index
  let end = add32 f.offset len
  let offset = if slt x.size end then x.size else end
  ok (store_file sys (record f { offset = offset }) k)

unfoldable pub read_aux : ℕ → ℕ → ℕ → List ℕ → Kernel → Run Kernel
read_aux fd buf len scans k = do
  c ← load_current k
  let a = user_address c.pid buf
  if fd == stdin then read_keys a len scans k else read_file fd a len k

-- `lseek_aux`: SEEK_SET, SEEK_CUR and SEEK_END are 0, 1 and 2, and any other
-- `whence` fails an assertion.
unfoldable pub seek_target : ℕ → ℕ → SysFile → Fs → Run ℕ
seek_target offset whence f fs =
    if whence == 0
    then ok offset
    else if whence == 1
    then ok (add32 f.offset offset)
    else (do x ← load_inode fs f.inode_index; ok (add32 offset x.size))

unfoldable pub lseek_aux : ℕ → ℕ → ℕ → Kernel → Run Kernel
lseek_aux fd offset whence k = do
  assert (ltb whence 3)
  sys ← descriptor fd k
  f ← load_file sys k.files
  to ← seek_target offset whence f k.fs
  ok (store_file sys (record f { offset = to }) k)

-- `ls_aux`: the names from the third entry on, each with a tab.
unfoldable pub ls_aux_from : ℕ → ℕ → ℕ → Inode → Run (List ℕ)
ls_aux_from zero i cont dir = spin
ls_aux_from (suc r) i cont dir = elim (ltb cont dir.size) [
  | false ↦ ok []
  | true ↦ do
    n ← entry_name dir.block i
    elim (is_equal (strcmp n [])) [
      | true ↦ ls_aux_from r (i + 1) cont dir
      | false ↦ do
        out ← printk (b'%' ∷ b's' ∷ 9 ∷ []) (str n ∷ [])
        rest ← ls_aux_from r (i + 1) (cont + 1) dir
        ok (out ++ rest)
    ]
]

unfoldable pub ls_aux : List ℕ → Kernel → Run Kernel
ls_aux path k = do
  (index, fs) ← find_current_dir_pos path k.fs
  dir ← load_inode fs index
  out ← ls_aux_from 1023 2 2 dir
  ok (record k { fs = fs; screen = put_default 10 (put_all out k.screen) })

-- `cat_aux`: the bytes of the file, and a line feed.
unfoldable pub cat_aux : List ℕ → Kernel → Run Kernel
cat_aux path k = do
  (index, fs) ← find_current_fl_pos path k.fs
  x ← load_inode fs index
  if ltb block_size x.size
      then fault
      else ok (record k {
        fs = fs;
        screen = put_default 10 (put_all (take_bytes x.size 0 x.block) k.screen);
      })
