-- ===== src/Fs/Resolve.antt =====
-- Paths taken apart: getTopDir and the loops of findUpperDirPos, findCurrentDirPos and
-- findCurrentFLPos of fs.c, against a path as a list of names.
use oslab_nju.Prelude.{
  ℕ, suc, ◌+◌, ◌<◌, ◌≡◌, ◌≢◌, ◌∙◌, sym, ap, refl, true, false, List, [], ◌∷◌, ◌++◌, ok, ltb, ◌==◌,
  Bool-cases, inl, inr, arith, ==→eq, length, length-append, drop, some,
}
use oslab_nju.Prelude.Word.{minus_one}
use oslab_nju.Text.{Bytes, store_byte, write_string}
use oslab_nju.Text.Compare.{AreBytes}
use oslab_nju.Text.Memory.{NoNul, read_string-write_string}
use oslab_nju.Fs.{Fs, Inode, nr_inode, nr_entries, max_filename_len, dir_type, entry_no}
use oslab_nju.Fs.Path.{slash, top_dir_from, get_top_dir, split_path, last_level, inner_slashes}
use oslab_nju.Fs.Lookup.{find_entry}
use oslab_nju.Fs.Directory.{IsDirectory, Found}
use oslab_nju.Fs.Search.{find_entry_lem}

abbrev pub NoSlash : List ℕ → Type 0
NoSlash [] = Unit {0}
NoSlash (c ∷ cs) = ((c == slash) ≡ false) × NoSlash cs

-- A path from the directories on it and the last name.
abbrev pub render : List (List ℕ) → List ℕ → List ℕ
render [] name = name
render (d ∷ ds) name = d ++ (slash ∷ render ds name)

abbrev pub with_slash : List ℕ → List ℕ
with_slash d = d ++ (slash ∷ [])

-- The name of a directory with its slash has to fit into 28 characters.
pub record IsLevel (d : List ℕ) : Type 0 where
  pub plain : NoSlash d
  pub ends : NoNul d
  pub bytes : AreBytes d
  pub fits : length d + 1 < max_filename_len

abbrev pub AreLevels : List (List ℕ) → Type 0
AreLevels [] = Unit {0}
AreLevels (d ∷ ds) = IsLevel d × AreLevels ds

-- The file system when a path has been taken apart: only the two globals are other ones.
abbrev pub looked : ℕ → Bytes → Fs → Fs
looked o buf fs = record fs { path_offset = o; top_dir = buf }

top_dir_from_lem :
    (d rest : List ℕ) (i o : ℕ) (buf : Bytes)
    → NoSlash d
    → i + length d + 1 < max_filename_len
    → o ≡ i + length d + 1
    → top_dir_from i (d ++ (slash ∷ rest)) buf ≡ ok (write_string (with_slash d) i buf, some o)
unfolding top_dir_from write_string
top_dir_from_lem [] rest i o buf h l e = ground (arith, e)
top_dir_from_lem (c ∷ cs) rest i o buf h l e =
    let inside : ltb i max_filename_len ≡ true = ground arith in
    rw (inside, h.0)
      (top_dir_from_lem cs rest (i + 1) o (store_byte buf i c) h.1 (omega arith) (omega (arith, e)))

pub NoNul-append : (a b : List ℕ) → NoNul a → NoNul b → NoNul (a ++ b)
NoNul-append [] b h g = g
NoNul-append (c ∷ cs) b h g = (h.0, NoNul-append cs b h.1 g)

pub AreBytes-append : (a b : List ℕ) → AreBytes a → AreBytes b → AreBytes (a ++ b)
AreBytes-append [] b h g = g
AreBytes-append (c ∷ cs) b h g = (h.0, AreBytes-append cs b h.1 g)

drop-append : (d rest : List ℕ) → drop (suc (length d)) (d ++ (slash ∷ rest)) ≡ rest
drop-append [] rest = refl
drop-append (c ∷ cs) rest = drop-append cs rest

pub split_path_lem :
    (d rest : List ℕ) (fs : Fs)
    → IsLevel d
    → split_path (d ++ (slash ∷ rest)) fs
      ≡ ok (
        with_slash d,
        rest,
        looked (suc (length d)) (write_string (with_slash d) 0 fs.top_dir) fs,
      )
unfolding split_path get_top_dir
split_path_lem d rest fs l =
    let room : ltb (length (d ++ (slash ∷ rest))) (suc (length d)) ≡ false =
      ground (arith, length-append d (slash ∷ rest)) in
    rw
      (
        top_dir_from_lem d rest 0 (suc (length d)) fs.top_dir l.plain (omega (arith, l.fits))
            (omega arith),
        read_string-write_string (with_slash d) 28 0 fs.top_dir
            (NoNul-append d (slash ∷ []) l.ends ((λ e. absurd (omega (arith, e))), tt))
            (omega (arith, l.fits, length-append d (slash ∷ []))),
        room,
        drop-append d rest,
      )
      refl

-- What follows the last directory of a path: its only slash may be the last character.
pub record IsLast (name : List ℕ) : Type 0 where
  pub single : inner_slashes name ≡ 0
  pub full : name ≢ []
  pub bytes : AreBytes name

-- `r` is the inode of the directory `d` in the directory `i`, or -1 if it has none.
abbrev pub Down : Fs → List ℕ → ℕ → ℕ → Type 0
Down fs d i r =
    (i < nr_inode)
    × ((names : ℕ → List ℕ) × IsDirectory (fs.inodes i) names
        × Found fs (fs.inodes i) names dir_type (with_slash d) 0 nr_entries r)

-- The directories lead from the inode `i` to the inode `j`.
abbrev pub Leads : Fs → List (List ℕ) → ℕ → ℕ → Type 0
Leads fs [] i j = i ≡ j
Leads fs (d ∷ ds) i j = (n : ℕ) × Down fs d i n × (n ≢ minus_one) × Leads fs ds n j

pub Leads-looked :
    (ds : List (List ℕ)) (i j o : ℕ) (buf : Bytes) (fs : Fs)
    → Leads fs ds i j
    → Leads (looked o buf fs) ds i j
Leads-looked [] i j o buf fs h = h
Leads-looked (d ∷ ds) i j o buf fs (n, down, ne, rest) =
    (n, down, ne, Leads-looked ds n j o buf fs rest)

-- Only one number is the result of a search.
pub Found-unique :
    (fs : Fs) (dir : Inode) (names : ℕ → List ℕ) (kind hi : ℕ) (name : List ℕ) (r s : ℕ)
    → Found fs dir names kind name 0 hi r
    → Found fs dir names kind name 0 hi s
    → r ≡ s
Found-unique fs dir names kind hi name r s (inl (i, a, b, m, before, e))
      (inl (j, a', b', m', before', e')) =
    elim (Bool-cases (ltb i j)) [
      | inl z ↦ absurd (before' i a (ground arith) m)
      | inr z ↦ elim (Bool-cases (i == j)) [
        | inl w ↦ e ∙ ap (entry_no dir.block) (==→eq i j w) ∙ sym e'
        | inr w ↦ absurd (before j a' (ground arith) m')
      ]
    ]
Found-unique fs dir names kind hi name r s (inl (i, a, b, m, before, e)) (inr (nobody, e')) =
    absurd (nobody i a b m)
Found-unique fs dir names kind hi name r s (inr (nobody, e)) (inl (j, a, b, m, before, e')) =
    absurd (nobody j a b m)
Found-unique fs dir names kind hi name r s (inr (nobody, e)) (inr (nobody', e')) = e ∙ sym e'

-- The search, as the walk calls it after the path has been taken apart.
pub find-Down :
    (d : List ℕ) (i r o : ℕ) (buf : Bytes) (fs : Fs)
    → IsLevel d
    → Down fs d i r
    → find_entry dir_type (with_slash d) i (looked o buf fs) ≡ ok r
find-Down d i r o buf fs l (h, (names, dir, found)) =
    let (s, run, found') =
      find_entry_lem dir_type (with_slash d) i (looked o buf fs) names h dir
        (AreBytes-append d (slash ∷ []) l.bytes (omega arith, tt)) in
    run
    ∙ ap (λ x. ok x)
        (Found-unique fs (fs.inodes i) names dir_type nr_entries (with_slash d) s r found' found)

pub one_more_slash : (d rest : List ℕ) → rest ≢ [] → last_level (d ++ (slash ∷ rest)) ≡ false
unfolding last_level
one_more_slash [] [] h = absurd (h refl)
one_more_slash [] (c ∷ cs) h = ground arith
one_more_slash (c ∷ []) rest h = ground (arith, one_more_slash [] rest h)
one_more_slash (c ∷ e ∷ d) rest h = ground (arith, one_more_slash (e ∷ d) rest h)

pub render-full : (ds : List (List ℕ)) (name : List ℕ) → name ≢ [] → render ds name ≢ []
render-full [] name h = h
render-full ([] ∷ ds) name h = λ e. absurd (ground (arith, e))
render-full ((c ∷ cs) ∷ ds) name h = λ e. absurd (ground (arith, e))
