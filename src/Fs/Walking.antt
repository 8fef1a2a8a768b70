-- ===== src/Fs/Walking.antt =====
-- Going down a path: findUpperDirPos, findCurrentDirPos and findCurrentFLPos of fs.c.
use oslab_nju.Prelude.{
  ℕ, zero, suc, ◌<◌, ◌≡◌, ◌≢◌, ◌∙◌, ap, refl, Bool, true, false, List, [], ◌∷◌, ◌++◌, Run, ok,
  abort, ◌==◌, if◌then◌else◌, inl, inr, arith, length, length-append, not, ◌||◌,
}
use oslab_nju.Prelude.Word.{minus_one}
use oslab_nju.Text.{Bytes, write_string, strcmp, is_equal}
use oslab_nju.Text.Compare.{AreBytes}
use oslab_nju.Fs.{Fs, nr_inode, nr_entries, dir_type, fl_type}
use oslab_nju.Fs.Path.{slash, last_level}
use oslab_nju.Fs.Lookup.{
  walk, walk_path, find_current_fl_pos, find_current_dir_pos, find_upper_dir_pos, root_path,
}
use oslab_nju.Fs.Directory.{IsDirectory, Found, same-cases}
use oslab_nju.Fs.Search.{find_entry_lem}
use oslab_nju.Fs.Resolve.{
  render, with_slash, IsLevel, AreLevels, looked, split_path_lem, AreBytes-append, IsLast, Down,
  Leads, Leads-looked, find-Down, one_more_slash, render-full,
}

IsLast-last_level : (name : List ℕ) → IsLast name → last_level name ≡ true
unfolding last_level
IsLast-last_level name n = rw n.single refl

-- One round of the loop, at a directory.
round :
    (k : ℕ) (checked : Bool) (d rest : List ℕ) (i n : ℕ) (fs : Fs)
    → IsLevel d
    → rest ≢ []
    → Down fs d i n
    → walk (suc k) checked (d ++ (slash ∷ rest)) i fs ≡ (
        if not checked || not (n == minus_one)
        then walk k checked rest n
            (looked (suc (length d)) (write_string (with_slash d) 0 fs.top_dir) fs)
        else abort)
unfolding walk
round k checked d rest i n fs l h down =
    rw
      (
        walk,
        one_more_slash d rest h,
        split_path_lem d rest fs l,
        find-Down d i n (suc (length d)) (write_string (with_slash d) 0 fs.top_dir) fs l down,
      )
      (ground arith)

stop :
    (k : ℕ) (checked : Bool) (name : List ℕ) (i : ℕ) (fs : Fs)
    → IsLast name
    → walk (suc k) checked name i fs ≡ ok (name, i, fs)
unfolding walk
stop k checked name i fs n = rw (walk, IsLast-last_level name n) refl

shorter : (d rest : List ℕ) (k : ℕ) → length (d ++ (slash ∷ rest)) < suc k → length rest < k
shorter d rest k h = omega (arith, h, length-append d (slash ∷ rest))

pub walk_lem :
    (k : ℕ) (checked : Bool) (ds : List (List ℕ)) (name : List ℕ) (i j : ℕ) (fs : Fs)
    → AreLevels ds
    → IsLast name
    → Leads fs ds i j
    → length (render ds name) < k
    → (o : ℕ) × (buf : Bytes) × (walk k checked (render ds name) i fs
        ≡ ok (name, j, looked o buf fs))
walk_lem zero checked ds name i j fs l n h f = absurd (omega (arith, f))
walk_lem (suc k) checked [] name i j fs l n h f =
    (fs.path_offset, fs.top_dir, stop k checked name i fs n ∙ ap (λ x. ok (name, x, fs)) h)
walk_lem (suc k) checked (d ∷ ds) name i j fs l n (m, down, ne, leads) f =
    let rest : List ℕ = render ds name in
    let buf1 : Bytes = write_string (with_slash d) 0 fs.top_dir in
    let (o, buf, run) =
      walk_lem k checked ds name m j (looked (suc (length d)) buf1 fs) l.1 n
        (Leads-looked ds m j (suc (length d)) buf1 fs leads) (shorter d rest k f) in
    let goes : (not checked || not (m == minus_one)) ≡ true = ground (arith, ne) in
    (o, buf, round k checked d rest i m fs l.0 (render-full ds name n.full) down ∙ rw goes run)

-- A directory that is missing fails the assertion.
pub walk-missing :
    (k : ℕ) (ds : List (List ℕ)) (d rest : List ℕ) (i j : ℕ) (fs : Fs)
    → AreLevels ds
    → IsLevel d
    → rest ≢ []
    → Leads fs ds i j
    → Down fs d j minus_one
    → length (render ds (d ++ (slash ∷ rest))) < k
    → walk k true (render ds (d ++ (slash ∷ rest))) i fs ≡ abort
walk-missing zero ds d rest i j fs l n r h g f = absurd (omega (arith, f))
walk-missing (suc k) [] d rest i j fs l n r h g f =
    rw (round k true d rest i minus_one fs n r (rw h g)) (ground arith)
walk-missing (suc k) (e ∷ ds) d rest i j fs l n r (m, down, ne, leads) g f =
    let name : List ℕ = d ++ (slash ∷ rest) in
    let buf1 : Bytes = write_string (with_slash e) 0 fs.top_dir in
    let goes : (not true || not (m == minus_one)) ≡ true = ground (arith, ne) in
    let full : render ds name ≢ [] = render-full ds name (render-full (d ∷ []) rest r) in
    round k true e (render ds name) i m fs l.0 full down
    ∙ rw goes (
        walk-missing k ds d rest m j (looked (suc (length e)) buf1 fs) l.1 n r
          (Leads-looked ds m j (suc (length e)) buf1 fs leads) g (shorter e (render ds name) k f))

empty-IsLevel : IsLevel []
empty-IsLevel = record { plain = tt; ends = tt; bytes = tt; fits = omega arith }

-- The first level is the slash of the root.
walk_path-root :
    (checked : Bool) (rest : List ℕ) (fs : Fs)
    → walk_path checked (slash ∷ rest) fs
      ≡ walk
          (suc (length rest))
          checked
          rest
          0
          (looked (suc zero) (write_string (with_slash []) 0 fs.top_dir) fs)
unfolding walk_path
walk_path-root checked rest fs = rw (split_path_lem [] rest fs empty-IsLevel) refl

pub walk_path_lem :
    (checked : Bool) (ds : List (List ℕ)) (name : List ℕ) (j : ℕ) (fs : Fs)
    → AreLevels ds
    → IsLast name
    → Leads fs ds 0 j
    → (o : ℕ) × (buf : Bytes) × (walk_path checked (slash ∷ render ds name) fs
        ≡ ok (name, j, looked o buf fs))
walk_path_lem checked ds name j fs l n h =
    let buf0 : Bytes = write_string (with_slash []) 0 fs.top_dir in
    let (o, buf, run) =
      walk_lem (suc (length (render ds name))) checked ds name 0 j (looked 1 buf0 fs) l n
        (Leads-looked ds 0 j 1 buf0 fs h) (omega arith) in
    (o, buf, walk_path-root checked (render ds name) fs ∙ run)

-- The path is looked up in the directory `j`, with the result `r`, and all else stays.
abbrev pub LooksUp : Fs → List (List ℕ) → List ℕ → (ℕ → List ℕ) → ℕ → ℕ → Run (ℕ × Fs) → Type 0
LooksUp fs ds name names kind j run =
    (r : ℕ) × (o : ℕ) × (buf : Bytes) × (run ≡ ok (r, looked o buf fs))
    × Found fs (fs.inodes j) names kind name 0 nr_entries r

-- Of an absolute path whose directories lead from the root to an inode, `findCurrentFLPos` always
-- finds the result: the inode of the first entry of the last directory that has the last name and is
-- a file, or -1 if there is none. Nothing changes but the two globals for taking paths apart. Each
-- directory name fits into 28 characters with its slash and its NUL, and the last directory's entries
-- are in order.
pub find_current_fl_pos_lem :
    (ds : List (List ℕ)) (name : List ℕ) (j : ℕ) (names : ℕ → List ℕ) (fs : Fs)
    → AreLevels ds
    → IsLast name
    → Leads fs ds 0 j
    → j < nr_inode
    → IsDirectory (fs.inodes j) names
    → LooksUp fs ds name names fl_type j (find_current_fl_pos (slash ∷ render ds name) fs)
unfolding find_current_fl_pos
find_current_fl_pos_lem ds name j names fs l n h b d =
    let (o, buf, walked) = walk_path_lem true ds name j fs l n h in
    let (r, run, found) = find_entry_lem fl_type name j (looked o buf fs) names b d n.bytes in
    (r, o, buf, rw (walked, run) refl, found)

-- If a directory of an absolute path is missing, `findCurrentFLPos` fails its assertion: the
-- directories in front of that one lead to one in order in which there is no directory of its
-- name.
pub find_current_fl_pos-missing :
    (ds : List (List ℕ)) (d rest : List ℕ) (j : ℕ) (fs : Fs)
    → AreLevels ds
    → IsLevel d
    → rest ≢ []
    → Leads fs ds 0 j
    → Down fs d j minus_one
    → find_current_fl_pos (slash ∷ render ds (d ++ (slash ∷ rest))) fs ≡ abort
unfolding find_current_fl_pos
find_current_fl_pos-missing ds d rest j fs l n r h g =
    let path : List ℕ = render ds (d ++ (slash ∷ rest)) in
    let buf0 : Bytes = write_string (with_slash []) 0 fs.top_dir in
    let run =
      walk-missing (suc (length path)) ds d rest 0 j (looked 1 buf0 fs) l n r
        (Leads-looked ds 0 j 1 buf0 fs h) g (omega arith) in
    rw (walk_path-root true path fs ∙ run) refl

render-AreBytes :
    (ds : List (List ℕ)) (name : List ℕ) → AreLevels ds → AreBytes name → AreBytes (render ds name)
render-AreBytes [] name l h = h
render-AreBytes (d ∷ ds) name l h =
    AreBytes-append d _ l.0.bytes (omega arith, render-AreBytes ds name l.1 h)

not_root :
    (ds : List (List ℕ)) (name : List ℕ)
    → AreLevels ds
    → IsLast name
    → is_equal (strcmp (slash ∷ render ds name) root_path) ≡ false
not_root ds name l n =
    let bytes : AreBytes (slash ∷ render ds name) =
      (omega arith, render-AreBytes ds name l n.bytes) in
    let full = render-full ds name n.full in
    elim (same-cases (slash ∷ render ds name) root_path bytes (omega arith, tt)) [
      | inl (e, same) ↦ absurd (ground (arith, same, full))
      | inr (e, other) ↦ e
    ]

-- `findUpperDirPos` returns the last directory of such a path.
pub find_upper_dir_pos_lem :
    (ds : List (List ℕ)) (name : List ℕ) (j : ℕ) (fs : Fs)
    → AreLevels ds
    → IsLast name
    → Leads fs ds 0 j
    → (o : ℕ) × (buf : Bytes) × (find_upper_dir_pos (slash ∷ render ds name) fs
        ≡ ok (j, looked o buf fs))
unfolding find_upper_dir_pos
find_upper_dir_pos_lem ds name j fs l n h =
    let (o, buf, walked) = walk_path_lem false ds name j fs l n h in
    (o, buf, rw (not_root ds name l n, walked) refl)

-- `findCurrentDirPos` of such a path, in the same way, finds directories only.
pub find_current_dir_pos_lem :
    (ds : List (List ℕ)) (name : List ℕ) (j : ℕ) (names : ℕ → List ℕ) (fs : Fs)
    → AreLevels ds
    → IsLast name
    → Leads fs ds 0 j
    → j < nr_inode
    → IsDirectory (fs.inodes j) names
    → LooksUp fs ds name names dir_type j (find_current_dir_pos (slash ∷ render ds name) fs)
unfolding find_current_dir_pos
find_current_dir_pos_lem ds name j names fs l n h b d =
    let (o, buf, walked) = walk_path_lem true ds name j fs l n h in
    let (r, run, found) = find_entry_lem dir_type name j (looked o buf fs) names b d n.bytes in
    (r, o, buf, rw (not_root ds name l n, walked, run) refl, found)
