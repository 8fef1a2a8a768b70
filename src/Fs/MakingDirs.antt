-- ===== src/Fs/MakingDirs.antt =====
-- A directory that is made under a path: makeDir of fs.c.
use oslab_nju.Prelude.{
  ℕ, suc, ◌-◌, ◌<◌, ◌≡◌, ◌≢◌, ◌∙◌, sym, ap, refl, true, false, List, [], ◌∷◌, Run, ok, ltb, ◌==◌,
  arith, length, length-append, set, get_or, has,
}
use mathlib.Core.Path.{subst}
use oslab_nju.Prelude.Word.{minus_one, add32}
use oslab_nju.Text.{Bytes}
use oslab_nju.Fs.{
  Fs, Inode, nr_inode, nr_entries, dir_type, inuse, available, max_filename_len, load_inode,
  store_inode, entry_no,
}
use oslab_nju.Fs.Path.{slash, get_last_level_name}
use oslab_nju.Fs.Lookup.{
  avl_inode_from, find_upper_dir_pos, find_entry, avl_dirdata_from, get_avl_inode,
}
use oslab_nju.Fs.Change.{
  dot_entries, fit_name, dir_name, mark_inode, count_inode, make_dir_at, make_dir_below, make_dir,
}
use oslab_nju.Fs.Directory.{IsDirectory, is_empty}
use oslab_nju.Fs.Search.{find_entry_lem}
use oslab_nju.Fs.Linking.{
  IsName, linked, linked-no, renamed, avl_dirdata_from_lem, link-IsDirectory,
}
use oslab_nju.Fs.Making.{with_entry, link_entry_lem, Found-only, only_slot}
use oslab_nju.Fs.Resolve.{
  render, NoSlash, with_slash, IsLevel, AreLevels, IsLast, Leads, looked, AreBytes-append,
  NoNul-append,
}
use oslab_nju.Fs.Walking.{find_upper_dir_pos_lem}
use oslab_nju.Fs.LastName.{get_last_level_name_lem}
use oslab_nju.Fs.Holding.{avl_inode_from_lem, free_either, NoSlash-single}
use oslab_nju.Fs.Folders.{IsNewDirectory, dots-IsNewDirectory}

-- The last character of a name without slashes is none.
no_last : (d : List ℕ) → NoSlash d → d ≢ [] → (get_or d (length d - 1) 0 == slash) ≡ false
no_last [] h e = absurd (e refl)
no_last (c ∷ []) h e = h.0
no_last (c ∷ x ∷ cs) h e =
    ap (λ i. get_or (c ∷ x ∷ cs) i 0 == slash) step
    ∙ no_last (x ∷ cs) h.1 (λ q. absurd (ground (arith, q)))
  where
    step : suc (suc (length cs)) - 1 ≡ suc (suc (length cs) - 1)
    step = omega arith

dir_name_lem : (d : List ℕ) → IsLevel d → d ≢ [] → dir_name d ≡ ok (with_slash d)
unfolding dir_name fit_name
dir_name_lem [] l e = absurd (e refl)
dir_name_lem (c ∷ cs) l e =
    let short : ltb (length (with_slash (c ∷ cs))) max_filename_len ≡ true =
      ground (arith, l.fits, length-append (c ∷ cs) (slash ∷ [])) in
    rw (no_last (c ∷ cs) l.plain e, short) refl

-- The file system with the entry, and with the directory.
abbrev with_dir : ℕ → ℕ → ℕ → List ℕ → Fs → Fs
with_dir slot index p_index name fs =
    let fs1 = with_entry slot index p_index name (count_inode fs) in
    let x = fs1.inodes index in
    let fs2 = store_inode fs1 index (record x {
      kind = dir_type;
      filename = name;
      block = dot_entries index p_index x.block;
      size = 2;
    }) in
    record (count_inode fs2) { inode_map = set fs.inode_map index inuse }

make_dir_at_lem :
    (slot index p_index : ℕ) (abspath d : List ℕ) (fs : Fs)
    → get_last_level_name abspath ≡ d
    → IsLevel d
    → d ≢ []
    → p_index < nr_inode
    → slot < nr_entries
    → index < nr_inode
    → index < length fs.inode_map
    → avl_dirdata_from nr_entries 0 (fs.inodes p_index) ≡ ok slot
    → make_dir_at index p_index abspath fs ≡ ok (with_dir slot index p_index (with_slash d) fs)
unfolding make_dir_at fit_name load_inode mark_inode
make_dir_at_lem slot index p_index abspath d fs last l e b c i m run =
    let fits : ltb (length d) max_filename_len ≡ true = ground (arith, l.fits) in
    let inside : ltb index nr_inode ≡ true = ground (arith, i) in
    let mapped : ltb index (length fs.inode_map) ≡ true = ground (arith, m) in
    let linked_run = link_entry_lem slot index p_index (with_slash d) (count_inode fs) b c run in
    rw (last, fits, dir_name_lem d l e, linked_run, inside, mapped) refl

with_dir-parent :
    (slot index p_index : ℕ) (name : List ℕ) (fs : Fs)
    → index ≢ p_index
    → (with_dir slot index p_index name fs).inodes p_index ≡ record (fs.inodes p_index) {
      block = linked slot index name (fs.inodes p_index).block;
      size = add32 (fs.inodes p_index).size 1;
    }
with_dir-parent slot index p_index name fs h = ground (arith, h)

with_dir-new :
    (slot index p_index : ℕ) (name : List ℕ) (fs : Fs)
    → index ≢ p_index
    → (with_dir slot index p_index name fs).inodes index ≡ record (fs.inodes index) {
      filename = name;
      kind = dir_type;
      size = 2;
      block = dot_entries index p_index (fs.inodes index).block;
    }
with_dir-new slot index p_index name fs h = ground (arith, h)

with_dir-others :
    (slot index p_index : ℕ) (name : List ℕ) (fs : Fs) (x : ℕ)
    → x ≢ index
    → x ≢ p_index
    → (with_dir slot index p_index name fs).inodes x ≡ fs.inodes x
with_dir-others slot index p_index name fs x a b = ground (arith, a, b)

renamed_self : (slot : ℕ) (name : List ℕ) (names : ℕ → List ℕ) → renamed slot name names slot ≡ name
renamed_self slot name names = ground arith

-- A directory `d` can be made in the directory `j`. The inodes that are available hold zeros.
pub record HasRoom (fs : Fs) (ds : List (List ℕ)) (d : List ℕ) (j : ℕ) (names : ℕ → List ℕ)
    : Type 0 where
  pub levels : AreLevels ds
  pub level : IsLevel d
  pub full : d ≢ []
  pub leads : Leads fs ds 0 j
  pub in_use : get_or fs.inode_map j available ≢ available
  pub inside : j < nr_inode
  pub dir : IsDirectory (fs.inodes j) names
  pub new : (x : ℕ) → x < nr_entries → names x ≢ with_slash d
  pub room : (fs.inodes j).size < nr_entries
  pub some_free : has available fs.inode_map ≡ true
  pub mapped : length fs.inode_map ≡ nr_inode
  pub clean : (i a : ℕ) → get_or fs.inode_map i inuse ≡ available → (fs.inodes i).block a ≡ 0

-- A free inode is a directory in order with `.` and `..`, and it is found in its directory, which
-- stays in order.
pub record MadeDir (fs : Fs) (d : List ℕ) (j : ℕ) (names : ℕ → List ℕ) (r : Run (Fs × List ℕ))
    : Type 0 where
  pub made : Fs
  pub index : ℕ
  pub slot : ℕ
  pub runs : r ≡ ok (made, [])
  pub was_free : get_or fs.inode_map index inuse ≡ available
  pub now_used : made.inode_map ≡ set fs.inode_map index inuse
  pub found : find_entry dir_type (with_slash d) j made ≡ ok index
  pub ordered : IsDirectory (made.inodes j) (renamed slot (with_slash d) names)
  pub new : IsNewDirectory (made.inodes index) index j
  pub others : (x : ℕ) → x ≢ index → x ≢ j → made.inodes x ≡ fs.inodes x

slashed-IsName : (d : List ℕ) → IsLevel d → IsName (with_slash d)
slashed-IsName d l = record {
  full = not_nothing d;
  fits = omega (arith, l.fits, length-append d (slash ∷ []));
  bytes = AreBytes-append d (slash ∷ []) l.bytes (omega arith, tt);
  ends = NoNul-append d (slash ∷ []) l.ends ((λ e. absurd (omega (arith, e))), tt);
}
  where
    not_nothing : (s : List ℕ) → is_empty (with_slash s) ≡ false
    not_nothing [] = refl
    not_nothing (c ∷ cs) = refl

level-IsLast : (d : List ℕ) → IsLevel d → d ≢ [] → IsLast d
level-IsLast d l e = record { single = NoSlash-single d l.plain; full = e; bytes = l.bytes }

make_dir-runs :
    (index j o : ℕ) (buf : Bytes) (path : List ℕ) (fs made : Fs)
    → avl_inode_from 0 fs.inode_map ≡ index
    → find_upper_dir_pos path fs ≡ ok (j, looked o buf fs)
    → index < nr_inode
    → j < nr_inode
    → make_dir_at index j path (looked o buf fs) ≡ ok made
    → make_dir path fs ≡ ok (made, [])
unfolding make_dir make_dir_below get_avl_inode
make_dir-runs index j o buf path fs made avl up bi bj runs =
    let index_there : (index == minus_one) ≡ false = ground (arith, bi) in
    let parent_there : (j == minus_one) ≡ false = ground (arith, bj) in
    rw (avl, index_there, up, parent_there, runs) refl

-- `makeDir` under a path to a directory in order that has room and no such name always makes a
-- directory of a free inode, if there is one: it is found by its name with a slash, is in order
-- with the entries `.` and `..`, and no inode but these two changes. Inodes that are free hold
-- zeros, and the directory of the path is in use.
pub make_dir_lem :
    (fs : Fs) (ds : List (List ℕ)) (d : List ℕ) (j : ℕ) (names : ℕ → List ℕ)
    → HasRoom fs ds d j names
    → MadeDir fs d j names (make_dir (slash ∷ render ds d) fs)
make_dir_lem fs ds d j names c =
    let path : List ℕ = slash ∷ render ds d in
    let name : List ℕ = with_slash d in
    let n : IsName name = slashed-IsName d c.level in
    let last = level-IsLast d c.level c.full in
    let (index, avl, bm, free, first) = avl_inode_from_lem fs.inode_map 0 c.some_free in
    let bi : index < nr_inode = omega (arith, bm, c.mapped) in
    let differ : index ≢ j = λ e.
      c.in_use
        (ap (λ x. get_or fs.inode_map x available) (sym e) ∙ free_either fs.inode_map index free) in
    let (o, buf, up) = find_upper_dir_pos_lem ds d j fs c.levels last c.leads in
    let (slot, run, at, empty) =
      avl_dirdata_from_lem nr_entries 0 (fs.inodes j) names c.dir (omega arith)
        (omega (arith, c.dir.count, c.room)) in
    let made : Fs = with_dir slot index j name (looked o buf fs) in
    let runs : make_dir_at index j path (looked o buf fs) ≡ ok made =
      make_dir_at_lem slot index j path d (looked o buf fs) (get_last_level_name_lem ds d last)
        c.level c.full c.inside at bi bm run in
    let here : made.inodes j ≡ record (fs.inodes j) {
      block = linked slot index name (fs.inodes j).block;
      size = add32 (fs.inodes j).size 1;
    } =
      with_dir-parent slot index j name (looked o buf fs) differ in
    let ordered : IsDirectory (made.inodes j) (renamed slot name names) =
      subst (λ x. IsDirectory x (renamed slot name names)) (sym here)
        (link-IsDirectory slot index name (fs.inodes j) names c.dir n at empty bi c.room) in
    let x : Inode = record (fs.inodes index) { filename = name } in
    let at_index : made.inodes index
        ≡ record x { kind = dir_type; size = 2; block = dot_entries index j x.block } =
      with_dir-new slot index j name (looked o buf fs) differ in
    let (r, search, found) =
      find_entry_lem dir_type name j made (renamed slot name names) c.inside ordered n.bytes in
    let no : entry_no (made.inodes j).block slot ≡ index =
      ap (λ y. entry_no y.block slot) here ∙ linked-no slot index name (fs.inodes j).block bi in
    let only : r ≡ entry_no (made.inodes j).block slot =
      Found-only made (made.inodes j) (renamed slot name names) dir_type name slot r at
        (
          ap is_empty (renamed_self slot name names) ∙ n.full,
          renamed_self slot name names,
          ap (λ y. (made.inodes y).kind) no ∙ ap (λ y. y.kind) at_index,
        )
        (λ y l e. only_slot slot name names c.new y l e) found in
    record {
      made = made;
      index = index;
      slot = slot;
      runs = make_dir-runs index j o buf path fs made (avl ∙ omega arith) up bi c.inside runs;
      was_free = free;
      now_used = refl;
      found = search ∙ ap (λ y. ok y) (only ∙ no);
      ordered = ordered;
      new =
          subst (λ y. IsNewDirectory y index j) (sym at_index)
            (dots-IsNewDirectory x index j (λ a. c.clean index a free) bi c.inside);
      others = λ y a b. with_dir-others slot index j name (looked o buf fs) y a b;
    }
