-- ===== src/Fs/Path.antt =====
-- Paths: `getTopDir`, `lastLevel` and `getLastLevelName` of fs.c.
use oslab_nju.Prelude.{
  ℕ, zero, suc, ◌+◌, ◌-◌, Bool, not, ◌&&◌, List, [], ◌∷◌, Run, ok, fault, ◌>>=◌, ltb, ◌==◌,
  if◌then◌else◌, length, get_or, drop, Option, none, some,
}
use oslab_nju.Text.{Bytes, store_byte, read_string}
use oslab_nju.Fs.{Fs, max_filename_len}

abbrev pub slash : ℕ
slash = b'/'

-- The loop of `getTopDir` from index `i` on: what it leaves in `top_dir`, and the new `path_offset`
-- if it meets a slash. `top_dir` holds 28 characters.
unfoldable pub top_dir_from : ℕ → List ℕ → Bytes → Run (Bytes × Option ℕ)
top_dir_from i [] buf = ok (buf, none)
top_dir_from i (c ∷ cs) buf =
    let rest = top_dir_from (i + 1) cs (store_byte buf i c) in
    if not (ltb i max_filename_len)
    then fault
    else if not (c == slash)
    then rest
    else if ltb (i + 1) max_filename_len
    then ok (store_byte (store_byte buf i c) (i + 1) 0, some (i + 1))
    else fault

abbrev pub offset_or : Option ℕ → ℕ → ℕ
offset_or none old = old
offset_or (some o) old = o

-- `getTopDir(path)`: with no slash in the path `path_offset` stays as it was, and no NUL is written.
unfoldable pub get_top_dir : List ℕ → Fs → Run Fs
get_top_dir path fs = do
  (buf, off) ← top_dir_from 0 path fs.top_dir
  ok (record fs { top_dir = buf; path_offset = offset_or off fs.path_offset })

-- `strcpy(dir, getTopDir(abspath)); abspath += path_offset;`. The pointer moves on by an offset that
-- may be left over from an earlier path; behind the NUL of `abspath` there is nothing to read.
unfoldable pub split_path : List ℕ → Fs → Run (List ℕ × List ℕ × Fs)
split_path path fs = do
  fs ← get_top_dir path fs
  dir ← read_string max_filename_len fs.top_dir 0
  if ltb (length path) fs.path_offset then fault else ok (dir, drop fs.path_offset path, fs)

-- How many slashes there are in front of the last character.
abbrev pub inner_slashes : List ℕ → ℕ
inner_slashes [] = 0
inner_slashes (c ∷ []) = 0
inner_slashes (c ∷ d ∷ cs) = (if c == slash then 1 else 0) + inner_slashes (d ∷ cs)

unfoldable pub last_level : List ℕ → Bool
last_level path = inner_slashes path == 0

-- The loop `for(i = len-1; i >= 0; i--)`, with `k` the indices that are left.
unfoldable pub name_offset : ℕ → List ℕ → ℕ
name_offset zero path = 0
name_offset (suc i) path =
    let rest = name_offset i path in
    if not (i == length path - 1) && (get_or path i 0 == slash) then i + 1 else rest

-- `getLastLevelName(abspath)`.
unfoldable pub get_last_level_name : List ℕ → List ℕ
get_last_level_name path = drop (name_offset (length path) path) path
