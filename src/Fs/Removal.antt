-- ===== src/Fs/Removal.antt =====
-- `rmFL` of fs.c as a whole, on a path.
use oslab_nju.Prelude.{
  ℕ, zero, suc, ◌+◌, ◌<◌, ◌≡◌, ◌≢◌, ◌∙◌, sym, ap, refl, true, false, List, [], ◌∷◌, Run, ok, fault,
  ltb, leb, ◌&&◌, ◌==◌, if◌then◌else◌, Bool-cases, inl, inr, arith, ==→eq, ==→ne, length, set,
}
use oslab_nju.Prelude.Word.{minus_one}
use oslab_nju.Text.{Bytes}
use oslab_nju.Text.Compare.{AreBytes}
use oslab_nju.Fs.{Fs, nr_inode, nr_entries, fl_type, available, load_inode, entry_no, entry_name}
use oslab_nju.Fs.Path.{slash}
use oslab_nju.Fs.Lookup.{scan_fuel, find_entry, find_current_fl_pos, find_upper_dir_pos}
use oslab_nju.Fs.Change.{clear_entry, rm_fl, mark_inode}
use oslab_nju.Fs.Directory.{used, is_empty, IsDirectory, Found, not_empty}
use oslab_nju.Fs.Linking.{linked, renamed, link-named}
use oslab_nju.Fs.Resolve.{render, AreLevels, IsLast, Leads, Leads-looked, looked, Found-unique}
use oslab_nju.Fs.Walking.{find_current_fl_pos_lem, find_upper_dir_pos_lem}
use oslab_nju.Fs.Removing.{First, clear_entry_lem, scan_entries-fault}

-- One name less.
used-cleared :
    (k i slot : ℕ) (names : ℕ → List ℕ)
    → is_empty (names slot) ≡ false
    → used (renamed slot [] names) k i + (if leb i slot && ltb slot (i + k) then 1 else 0)
      ≡ used names k i
unfolding used
used-cleared zero i slot names f = ground arith
used-cleared (suc k) i slot names f = elim (Bool-cases (i == slot)) [
  | inl z ↦
      let here : is_empty (names i) ≡ false = ap (λ x. is_empty (names x)) (==→eq i slot z) ∙ f in
      rw z (ground (arith, here, used-cleared k (i + 1) slot names f))
  | inr z ↦ rw z (ground (arith, used-cleared k (i + 1) slot names f))
]

-- A file that can be removed: it is found under the path, its inode has its name, and no other
-- entry of its directory `j` has it.
pub record Removable (fs : Fs) (ds : List (List ℕ)) (name : List ℕ) (j : ℕ) (names : ℕ → List ℕ)
    (index : ℕ) : Type 0 where
  pub levels : AreLevels ds
  pub is_last : IsLast name
  pub leads : Leads fs ds 0 j
  pub inside : j < nr_inode
  pub dir : IsDirectory (fs.inodes j) names
  pub found : Found fs (fs.inodes j) names fl_type name 0 nr_entries index
  pub there : index ≢ minus_one
  pub called : (fs.inodes index).filename ≡ name
  pub single : (x y : ℕ) → x < nr_entries → y < nr_entries → names x ≡ name → names y ≡ name → x ≡ y
  pub mapped : length fs.inode_map ≡ nr_inode

-- The inode is available, and the entry has no name; nothing else has changed.
pub record Removed (fs : Fs) (name : List ℕ) (j : ℕ) (names : ℕ → List ℕ) (index : ℕ) (r : Run Fs)
    : Type 0 where
  pub removed : Fs
  pub slot : ℕ
  pub runs : r ≡ ok removed
  pub map_after : removed.inode_map ≡ set fs.inode_map index available
  pub was : (slot < nr_entries) × (names slot ≡ name) × (entry_no (fs.inodes j).block slot ≡ index)
  pub named :
      (x : ℕ)
      → x < nr_entries
      → entry_name (removed.inodes j).block x ≡ ok (renamed slot [] names x)
  pub size : (removed.inodes j).size ≡ (fs.inodes j).size
  pub others : (x : ℕ) → x ≢ j → removed.inodes x ≡ fs.inodes x

-- The file system without the file.
abbrev without : ℕ → ℕ → ℕ → Fs → Fs
without slot index j fs = record fs {
  inodes = λ x.
      if x == j
      then record (fs.inodes j) { block = linked slot 0 [] (fs.inodes j).block }
      else fs.inodes x;
  inode_map = set fs.inode_map index available;
}

rm_fl-runs :
    (fs : Fs) (path name : List ℕ) (slot index j o o' : ℕ) (buf buf' : Bytes)
    → find_current_fl_pos path fs ≡ ok (index, looked o buf fs)
    → find_upper_dir_pos path (looked o buf fs) ≡ ok (j, looked o' buf' fs)
    → index < nr_inode
    → j < nr_inode
    → index < length fs.inode_map
    → (fs.inodes index).filename ≡ name
    → clear_entry scan_fuel name (fs.inodes j) 0 0 ≡ ok (linked slot 0 [] (fs.inodes j).block)
    → rm_fl path fs ≡ ok (looked o' buf' (without slot index j fs))
unfolding rm_fl load_inode mark_inode
rm_fl-runs fs path name slot index j o o' buf buf' found up bi bj bm called cleared =
    let first : ltb index nr_inode ≡ true = ground (arith, bi) in
    let second : ltb j nr_inode ≡ true = ground (arith, bj) in
    let mapped : ltb index (length fs.inode_map) ≡ true = ground (arith, bm) in
    rw (found, up, first, second, called, cleared, mapped) refl

-- `rmFL` of a file under a path always returns. The inode of the file is available again, and the
-- entry of its directory has no name; the directory still counts it, and no other inode changes.
-- The directory is in order and has one entry of the name, and the inode has the same name.
pub rm_fl_lem :
    (fs : Fs) (ds : List (List ℕ)) (name : List ℕ) (j : ℕ) (names : ℕ → List ℕ) (index : ℕ)
    → Removable fs ds name j names index
    → Removed fs name j names index (rm_fl (slash ∷ render ds name) fs)
rm_fl_lem fs ds name j names index c =
    let path : List ℕ = slash ∷ render ds name in
    let (r, o, buf, run, is) =
      find_current_fl_pos_lem ds name j names fs c.levels c.is_last c.leads c.inside c.dir in
    let same : r ≡ index =
      Found-unique fs (fs.inodes j) names fl_type nr_entries name r index is c.found in
    let (o', buf', up) =
      find_upper_dir_pos_lem ds name j (looked o buf fs) c.levels c.is_last
        (Leads-looked ds 0 j o buf fs c.leads) in
    let full : is_empty name ≡ false = not_empty name c.is_last.full in
    let (slot, b, called, at) = entry_of c.found in
    let bi : index < nr_inode = rw (sym at) (c.dir.numbers slot b) in
    let first : First names name 0 slot = (
      omega arith,
      b,
      called,
      λ x p q e. absurd (omega (arith, q, c.single x slot (omega arith) b e called)),
    ) in
    let cleared =
      clear_entry_lem (fs.inodes j) names name nr_entries 0 0 slot c.dir c.is_last.bytes full refl
        (omega (arith, c.dir.count)) first in
    record {
      removed = looked o' buf' (without slot index j fs);
      slot = slot;
      runs =
          rm_fl-runs fs path name slot index j o o' buf buf'
            (run ∙ ap (λ x. ok (x, looked o buf fs)) same) up bi c.inside
            (omega (arith, bi, c.mapped)) c.called cleared;
      map_after = refl;
      was = (b, called, at);
      named = λ x h.
          rw (here slot) (link-named slot 0 [] (fs.inodes j) names c.dir tt (omega arith) x h);
      size = ap (λ x. x.size) (here slot);
      others = λ x ne. ground (arith, ne);
    }
  where
    here :
        (slot : ℕ)
        → (without slot index j fs).inodes j
          ≡ record (fs.inodes j) { block = linked slot 0 [] (fs.inodes j).block }
    here slot = ground arith

    entry_of :
        Found fs (fs.inodes j) names fl_type name 0 nr_entries index
        → (slot : ℕ) × (slot < nr_entries)
          × (names slot ≡ name)
          × (entry_no (fs.inodes j).block slot ≡ index)
    entry_of (inl (x, a, b, m, before, e)) = (x, b, m.1, sym e)
    entry_of (inr (nobody, e)) = absurd (c.there e)

-- After `rmFL` has removed a file, any search of the directory for its name reads past the end of
-- the directory, since the directory still counts the entry. The directory was in order and had
-- one entry of the name, and the inode had the same name.
pub rm_fl-find_entry :
    (fs : Fs) (ds : List (List ℕ)) (name : List ℕ) (j : ℕ) (names : ℕ → List ℕ) (index : ℕ)
    → Removable fs ds name j names index
    → (after : Fs) × (rm_fl (slash ∷ render ds name) fs ≡ ok after)
      × ((kind : ℕ) → find_entry kind name j after ≡ fault)
unfolding find_entry load_inode
rm_fl-find_entry fs ds name j names index c =
    let r = rm_fl_lem fs ds name j names index c in
    let left : ℕ → List ℕ = renamed r.slot [] names in
    let full : is_empty name ≡ false = not_empty name c.is_last.full in
    let gone : (x : ℕ) → x < nr_entries → left x ≢ name = λ x b e. elim (Bool-cases (x == r.slot)) [
      | inl z ↦ c.is_last.full (sym (rw z at e))
      | inr z ↦ ==→ne x r.slot z (c.single x r.slot b r.was.0 (rw z at e) r.was.1)
    ] in
    let fewer : 0 + used left nr_entries 0 < (r.removed.inodes j).size = omega (
      arith,
      used-cleared nr_entries 0 r.slot names (ap is_empty r.was.1 ∙ full),
      counted_slot r.slot r.was.0,
      c.dir.count,
      r.size,
    ) in
    let inside : ltb j nr_inode ≡ true = ground (arith, c.inside) in
    (
      r.removed,
      r.runs,
      λ kind. rw inside (
          scan_entries-fault r.removed (r.removed.inodes j) left kind name nr_entries 0 0 r.named
            (left_bytes r.slot) c.is_last.bytes gone refl fewer),
    )
  where
    counted_slot :
        (slot : ℕ)
        → slot < nr_entries
        → ◌≡◌ {A = ℕ} 1 (if leb 0 slot && ltb slot (0 + nr_entries) then 1 else 0)
    counted_slot slot b = ground (arith, b)

    left_bytes : (slot x : ℕ) → x < nr_entries → AreBytes (renamed slot [] names x)
    left_bytes slot x b = elim (Bool-cases (x == slot)) [
      | inl z ↦ rw z tt
      | inr z ↦ rw z (c.dir.bytes x b)
    ]
