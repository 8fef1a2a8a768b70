-- ===== src/Fs/Creating.antt =====
-- Making a file under a path: makeFL of fs.c, and findCurrentFLPos afterwards.
use oslab_nju.Prelude.{
  ℕ, ◌<◌, ◌≡◌, ◌≢◌, ◌∙◌, sym, ap, refl, List, [], ◌∷◌, Run, ok, inl, inr, arith, length, get_or,
  set, none,
}
use mathlib.Core.Path.{subst}
use oslab_nju.Prelude.Word.{minus_one, add32}
use oslab_nju.Text.{Bytes}
use oslab_nju.Fs.{Fs, nr_inode, nr_entries, available, inuse, fl_type, entry_no, entry_name}
use oslab_nju.Fs.Path.{slash}
use oslab_nju.Fs.Lookup.{get_avl_inode, find_current_fl_pos}
use oslab_nju.Fs.Change.{make_fl, make_fl_at}
use oslab_nju.Fs.Directory.{IsDirectory, Found}
use oslab_nju.Fs.Linking.{linked, linked-no, renamed, avl_dirdata_from_lem, link-IsDirectory}
use oslab_nju.Fs.Making.{Found-only, only_slot, with_file, make_fl_at_lem}
use oslab_nju.Fs.Resolve.{render, looked}
use oslab_nju.Fs.Walking.{find_upper_dir_pos_lem, find_current_fl_pos_lem}
use oslab_nju.Fs.LastName.{get_last_level_name_lem}
use oslab_nju.Fs.Keeping.{Leads-keep}
use oslab_nju.Fs.Holding.{
  free_either, avl_inode_from_lem, CanHold, name-IsLast, Through-map, Through-end, CanHold-looked,
}

-- What a new, empty file under a path is: a free inode, found under the path, as the entry `slot`
-- of its directory; no other inode is another one.
pub record Made (fs : Fs) (ds : List (List ℕ)) (name : List ℕ) (j : ℕ) (names : ℕ → List ℕ)
    (r : Run Fs) : Type 0 where
  pub made : Fs
  pub index : ℕ
  pub slot : ℕ
  pub runs : r ≡ ok made
  pub was_free : get_or fs.inode_map index inuse ≡ available
  pub now_used : made.inode_map ≡ set fs.inode_map index inuse
  pub inside : index < nr_inode
  pub found :
      (o : ℕ) × (buf : Bytes) × (find_current_fl_pos (slash ∷ render ds name) made
        ≡ ok (index, looked o buf made))
  pub ordered : IsDirectory (made.inodes j) (renamed slot name names)
  pub others : (x : ℕ) → x ≢ index → x ≢ j → made.inodes x ≡ fs.inodes x
  pub content :
      ((made.inodes index).size ≡ (fs.inodes index).size) × ((made.inodes index).kind ≡ fl_type)

module _ {fs : Fs} {ds : List (List ℕ)} {name : List ℕ} {j : ℕ} {names : ℕ → List ℕ}
    (c : CanHold fs ds name j names) where
  abbrev path : List ℕ
  path = slash ∷ render ds name

  -- Before, `findCurrentFLPos` finds no file.
  pub nothing_there :
      (o : ℕ) × (buf : Bytes) × (find_current_fl_pos path fs ≡ ok (minus_one, looked o buf fs))
  nothing_there =
      let (r, o, buf, run, found) =
        find_current_fl_pos_lem ds name j names fs c.levels (name-IsLast name c.is_name c.plain)
          c.leads c.inside c.dir in
      (o, buf, run ∙ ap (λ x. ok (x, looked o buf fs)) (none_found r found))
    where
      none_found :
          (r : ℕ) → Found fs (fs.inodes j) names fl_type name 0 nr_entries r → r ≡ minus_one
      none_found r (inl (i, a, b, m, before, e)) = absurd (c.new i b m.1)
      none_found r (inr (nobody, e)) = e

  -- The file system with the new file in the entry `slot`.
  holding :
      (slot index : ℕ)
      → slot < nr_entries
      → names slot ≡ []
      → index < nr_inode
      → get_or fs.inode_map index inuse ≡ available
      → (index ≢ j)
        × IsDirectory ((with_file slot index j name fs).inodes j) (renamed slot name names)
        × ((o : ℕ) × (buf : Bytes) × (find_current_fl_pos path (with_file slot index j name fs)
              ≡ ok (index, looked o buf (with_file slot index j name fs))))
  holding slot index at empty b free =
      let made : Fs = with_file slot index j name fs in
      let used : (x : ℕ) → get_or fs.inode_map x available ≢ available → x ≢ index =
        λ x u e. u (free_at x e) in
      let away =
        Through-map (λ x. get_or fs.inode_map x available ≢ available) (λ x. x ≢ index) used fs ds 0
          j c.leads c.in_use in
      let differ : index ≢ j = λ e. Through-end (λ x. x ≢ index) fs ds 0 j c.leads away (sym e) in
      let slot_name : entry_name (fs.inodes j).block slot ≡ ok [] =
        c.dir.named slot at ∙ ap (λ x. ok x) empty in
      let leads =
        Leads-keep slot index j name fs at slot_name b c.room differ c.is_name c.plain ds 0 j
          c.leads away in
      let here : made.inodes j ≡ record (fs.inodes j) {
        block = linked slot index name (fs.inodes j).block;
        size = add32 (fs.inodes j).size 1;
      } =
        ground (arith, differ) in
      let ordered : IsDirectory (made.inodes j) (renamed slot name names) =
        subst (λ x. IsDirectory x (renamed slot name names)) (sym here)
          (link-IsDirectory slot index name (fs.inodes j) names c.dir c.is_name at empty b
            c.room) in
      let (r, o, buf, run, found) =
        find_current_fl_pos_lem ds name j (renamed slot name names) made c.levels
          (name-IsLast name c.is_name c.plain) leads c.inside ordered in
      let no : entry_no (made.inodes j).block slot ≡ index =
        ap (λ x. entry_no x.block slot) here ∙ linked-no slot index name (fs.inodes j).block b in
      let only : r ≡ entry_no (made.inodes j).block slot =
        Found-only made (made.inodes j) (renamed slot name names) fl_type name slot r at
          (
            ground (arith, c.is_name.full),
            ground arith,
            ap (λ x. (made.inodes x).kind) no ∙ ground arith,
          )
          (λ x l e. only_slot slot name names c.new x l e) found in
      (differ, ordered, (o, buf, run ∙ ap (λ x. ok (x, looked o buf made)) (only ∙ no)))
    where
      free_at : (x : ℕ) → x ≡ index → get_or fs.inode_map x available ≡ available
      free_at x e =
          ap (λ i. get_or fs.inode_map i available) e ∙ free_either fs.inode_map index free

-- `makeFL` under a path to a directory with room, in which no entry has the name, makes a new file
-- of a free inode, if there is one. The file is found under the path afterwards.
pub make_fl_lem :
    (fs : Fs) (ds : List (List ℕ)) (name : List ℕ) (j : ℕ) (names : ℕ → List ℕ)
    → CanHold fs ds name j names
    → Made fs ds name j names (make_fl (slash ∷ render ds name) none fs)
unfolding make_fl get_avl_inode
make_fl_lem fs ds name j names c =
    let path : List ℕ = slash ∷ render ds name in
    let (index, avl, bm, free, first) = avl_inode_from_lem fs.inode_map 0 c.some_free in
    let small : index < nr_inode = omega (arith, bm, c.mapped) in
    let (o, buf, up) =
      find_upper_dir_pos_lem ds name j fs c.levels (name-IsLast name c.is_name c.plain) c.leads in
    let (slot, run, at, empty) =
      avl_dirdata_from_lem nr_entries 0 (fs.inodes j) names c.dir (omega arith)
        (omega (arith, c.dir.count, c.room)) in
    let last = get_last_level_name_lem ds name (name-IsLast name c.is_name c.plain) in
    let fs1 : Fs = looked o buf fs in
    let made : Fs = with_file slot index j name fs1 in
    let runs : make_fl_at index j path none fs1 ≡ ok made =
      make_fl_at_lem slot index j path fs1 (omega (arith, ap (λ l. length l) last, c.is_name.fits))
        c.inside at small bm run
      ∙ ap (λ n. ok (with_file slot index j n fs1)) last in
    let (differ, ordered, found) =
      holding (CanHold-looked o buf c) slot index at empty small free in
    record {
      made = made;
      index = index;
      slot = slot;
      runs = rw (avl, up) (ground (arith, runs, small, c.inside));
      was_free = free;
      now_used = refl;
      inside = small;
      found = found;
      ordered = ordered;
      others = λ x a b. ground (arith, a, b);
      content = (ground (arith, differ), ground (arith, differ));
    }
