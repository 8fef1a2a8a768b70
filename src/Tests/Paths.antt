-- ===== src/Tests/Paths.antt =====
-- Paths, and files that are made under them.
use oslab_nju.Prelude.{
  get_or, zero, suc, ℕ, ◌≡◌, refl, List, [], ◌∷◌, abort, ◌==◌, if◌then◌else◌, replicate, inl, inr,
  arith,
}
use oslab_nju.Fs.{available, inuse, Fs, Inode}
use oslab_nju.Fs.Lookup.{find_current_fl_pos}
use oslab_nju.Fs.Change.{make_dir}
use oslab_nju.Fs.Directory.{IsDirectory}
use oslab_nju.Fs.Linking.{IsName, linked, renamed, linked-no, link-IsDirectory}
use oslab_nju.Fs.Resolve.{IsLevel, Leads}
use oslab_nju.Fs.Walking.{LooksUp, find_current_fl_pos_lem, find_current_fl_pos-missing}
use oslab_nju.Fs.Holding.{CanHold, name-IsLast}
use oslab_nju.Fs.MakingDirs.{HasRoom, MadeDir, make_dir_lem}
use oslab_nju.Tests.Names.{folder, files, no_names, folder-IsDirectory}

-- The directory `d/` is the inode 1.
abbrev d : List ℕ
d = b'd' ∷ []

abbrev d_slash : List ℕ
d_slash = b'd' ∷ b'/' ∷ []

abbrev root : Inode
root = record folder { block = linked 0 1 d_slash folder.block; size = 1 }

abbrev in_root : ℕ → List ℕ
in_root = renamed 0 d_slash no_names

dir-IsName : IsName d_slash
dir-IsName = record { full = refl; fits = omega arith; bytes = omega arith; ends = omega arith }

pub root-IsDirectory : IsDirectory root in_root
root-IsDirectory =
    link-IsDirectory 0 1 d_slash folder no_names folder-IsDirectory dir-IsName (omega arith) refl
      (omega arith) (omega arith)

abbrev pub home : Fs
home = record files {
  inode_map = 1 ∷ 1 ∷ replicate 30 0;
  inodes = λ i. if i == 0 then root else folder;
}

d-IsLevel : IsLevel d
d-IsLevel = record {
  plain = ground arith;
  ends = omega arith;
  bytes = omega arith;
  fits = omega arith;
}

abbrev leads : Leads home (d ∷ []) 0 1
leads = (
  1,
  (
    omega arith,
    (
      in_root,
      root-IsDirectory,
      inl (
        0,
        omega arith,
        omega arith,
        (refl, refl, rw (linked-no 0 1 d_slash folder.block (omega arith)) refl),
        λ j a b m. absurd (omega arith),
        rw (linked-no 0 1 d_slash folder.block (omega arith)) refl,
      ),
    ),
  ),
  (λ e. absurd (omega (arith, e))),
  refl,
)

abbrev a : List ℕ
a = b'a' ∷ []

pub a-IsName : IsName a
a-IsName = record { full = refl; fits = omega arith; bytes = omega arith; ends = omega arith }

pub a-CanHold : CanHold home (d ∷ []) a 1 no_names
a-CanHold = record {
  levels = (d-IsLevel, tt);
  is_name = a-IsName;
  plain = ground arith;
  leads = leads;
  in_use = (λ e. absurd (omega (arith, e)), λ e. absurd (omega (arith, e)));
  inside = omega arith;
  dir = folder-IsDirectory;
  new = λ x b e. absurd (ground (arith, e));
  room = omega arith;
  some_free = refl;
  mapped = refl;
}

a-IsLevel : IsLevel a
a-IsLevel = record {
  plain = ground arith;
  ends = omega arith;
  bytes = omega arith;
  fits = omega arith;
}

-- Nothing is called `a` in the directory.
find_current_fl_pos_example :
    LooksUp home (d ∷ []) a no_names 1 1 (find_current_fl_pos (b'/' ∷ b'd' ∷ b'/' ∷ b'a' ∷ []) home)
find_current_fl_pos_example =
    find_current_fl_pos_lem (d ∷ []) a 1 no_names home (d-IsLevel, tt)
      (name-IsLast a a-IsName (ground arith)) leads (omega arith) folder-IsDirectory

find_current_fl_pos-missing_example :
    find_current_fl_pos (b'/' ∷ b'd' ∷ b'/' ∷ b'a' ∷ b'/' ∷ b'a' ∷ []) home ≡ abort
find_current_fl_pos-missing_example =
    find_current_fl_pos-missing (d ∷ []) a a 1 home (d-IsLevel, tt) a-IsLevel
      (λ e. absurd (ground (arith, e))) leads
      (
        omega arith,
        (no_names, folder-IsDirectory, inr (λ j p q m. absurd (ground (arith, m.0)), refl)),
      )

home-HasRoom : HasRoom home (d ∷ []) a 1 no_names
home-HasRoom = record {
  levels = (d-IsLevel, tt);
  level = a-IsLevel;
  full = λ e. absurd (ground (arith, e));
  leads = leads;
  in_use = λ e. absurd (omega (arith, e));
  inside = omega arith;
  dir = folder-IsDirectory;
  new = λ x b e. absurd (ground (arith, e));
  room = omega arith;
  some_free = refl;
  mapped = refl;
  clean = zeros;
}
  where
    zeros : (i n : ℕ) → get_or home.inode_map i inuse ≡ available → (home.inodes i).block n ≡ 0
    zeros zero n e = absurd (omega (arith, e))
    zeros (suc i) n e = ground arith

make_dir_example : MadeDir home a 1 no_names (make_dir (b'/' ∷ b'd' ∷ b'/' ∷ b'a' ∷ []) home)
make_dir_example = make_dir_lem home (d ∷ []) a 1 no_names home-HasRoom
