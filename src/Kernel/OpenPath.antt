-- ===== src/Kernel/OpenPath.antt =====
-- Opening a file under a path: open_aux of irqHandle.c, with the file system below it.
use oslab_nju.Prelude.{
  ℕ, ◌<◌, ◌≡◌, ◌≢◌, ◌∙◌, ap, true, false, List, ◌∷◌, Run, ok, ◌==◌, arith, has, get_or, inl, inr,
  set,
}
use oslab_nju.Prelude.Word.{minus_one}
use oslab_nju.Text.{Bytes}
use oslab_nju.Fs.{Fs, nr_inode, nr_entries, fl_type, available, inuse}
use oslab_nju.Fs.Path.{slash}
use oslab_nju.Fs.Lookup.{find_current_fl_pos, is_fl_exist}
use oslab_nju.Fs.Directory.{IsDirectory, Found}
use oslab_nju.Fs.Linking.{renamed}
use oslab_nju.Fs.Resolve.{render, AreLevels, IsLast, Leads, Leads-looked, looked, Found-unique}
use oslab_nju.Fs.Walking.{find_current_fl_pos_lem}
use oslab_nju.Fs.Holding.{CanHold, CanHold-looked}
use oslab_nju.Fs.Creating.{nothing_there, make_fl_lem}
use oslab_nju.Kernel.{Kernel}
use oslab_nju.Kernel.Files.{create_missing, open_aux, attach}
use oslab_nju.Kernel.FileTable.{IsUser, InOrder}
use oslab_nju.Kernel.FileTable.Free.{SomeFree, behind_three}
use oslab_nju.Kernel.FileTable.Open.{Attached, attach_lem}

-- What a process needs to open a file: a closed descriptor and a free entry of the table.
pub record CanOpen (k : Kernel) : Type 0 where
  pub in_order : InOrder k
  pub user : IsUser k.procs.current
  pub entry_free : SomeFree k.files
  pub closed : has minus_one (behind_three (k.procs.pcb k.procs.current).filepointer) ≡ true

-- The call is the end of `open_aux` for the inode `index`, in the file system `fs`.
abbrev pub OpensAs : Kernel → ℕ → Fs → Run Kernel → Type 0
OpensAs k index fs r = Attached (record k { fs = fs }) index r

pub with_fs : (k : Kernel) (fs : Fs) → CanOpen k → CanOpen (record k { fs = fs })
with_fs k fs c = record {
  in_order = record {
    counted = c.in_order.counted;
    unused = c.in_order.unused;
    in_use = c.in_order.in_use;
    named = c.in_order.named;
    sizes = c.in_order.sizes;
    table = c.in_order.table;
  };
  user = c.user;
  entry_free = c.entry_free;
  closed = c.closed;
}

attach-fs :
    (k : Kernel) (fs : Fs) (index : ℕ)
    → CanOpen k
    → index < nr_inode
    → OpensAs k index fs (attach index (record k { fs = fs }))
attach-fs k fs index c b =
    let d : CanOpen (record k { fs = fs }) = with_fs k fs c in
    attach_lem (record k { fs = fs }) index d.in_order d.user b d.entry_free d.closed

-- `open_aux` of a file that is there always returns with the file open at its start, on the first closed
-- descriptor from 3 on, which is the result, and on a free entry of the table, which stays in
-- order; no inode has changed. The directories of the path lead to one in order, in which the file
-- is found by the last name; the process has a closed descriptor, and the table a free entry.
pub open_aux-existing :
    (k : Kernel) (flags index j : ℕ) (ds : List (List ℕ)) (name : List ℕ) (names : ℕ → List ℕ)
    → CanOpen k
    → AreLevels ds
    → IsLast name
    → Leads k.fs ds 0 j
    → j < nr_inode
    → IsDirectory (k.fs.inodes j) names
    → Found k.fs (k.fs.inodes j) names fl_type name 0 nr_entries index
    → index ≢ minus_one
    → (o : ℕ) × (buf : Bytes) × OpensAs k index
        (looked o buf k.fs)
        (open_aux (slash ∷ render ds name) flags k)
unfolding open_aux create_missing is_fl_exist
open_aux-existing k flags index j ds name names c l n h b d found there =
    let path : List ℕ = slash ∷ render ds name in
    let (r, o, buf, run, is) = find_current_fl_pos_lem ds name j names k.fs l n h b d in
    let same : r ≡ index =
      Found-unique k.fs (k.fs.inodes j) names fl_type nr_entries name r index is found in
    let fs1 : Fs = looked o buf k.fs in
    let (r', o', buf', run', is') =
      find_current_fl_pos_lem ds name j names fs1 l n (Leads-looked ds 0 j o buf k.fs h) b d in
    let same' : r' ≡ index =
      Found-unique k.fs (k.fs.inodes j) names fl_type nr_entries name r' index is' found in
    let first : find_current_fl_pos path k.fs ≡ ok (index, fs1) =
      run ∙ ap (λ x. ok (x, fs1)) same in
    let second : find_current_fl_pos path fs1 ≡ ok (index, looked o' buf' k.fs) =
      run' ∙ ap (λ x. ok (x, looked o' buf' k.fs)) same' in
    let found_it : (index == minus_one) ≡ false = ground (arith, there) in
    (
      o',
      buf',
      rw (first, found_it, second) (attach-fs k (looked o' buf' k.fs) index c (small found)),
    )
  where
    small : Found k.fs (k.fs.inodes j) names fl_type name 0 nr_entries index → index < nr_inode
    small (inl (i, a, e, m, before, at)) = rw at (d.numbers i e)
    small (inr (nobody, at)) = absurd (there at)

-- `open_aux` of a file that is not there makes it.
pub record OpensNew (k : Kernel) (ds : List (List ℕ)) (name : List ℕ) (j : ℕ) (names : ℕ → List ℕ)
    (r : Run Kernel) : Type 0 where
  pub index : ℕ
  pub slot : ℕ
  pub fs : Fs
  pub opens : OpensAs k index fs r
  pub was_free : get_or k.fs.inode_map index inuse ≡ available
  pub now_used : fs.inode_map ≡ set k.fs.inode_map index inuse
  pub ordered : IsDirectory (fs.inodes j) (renamed slot name names)
  pub others : (x : ℕ) → x ≢ index → x ≢ j → fs.inodes x ≡ k.fs.inodes x
  pub is_file : (fs.inodes index).kind ≡ fl_type

-- `open_aux` of a file that is not there always returns with a new file open at its start, on the
-- first closed descriptor from 3 on, which is the result, and on a free entry of the table, which
-- stays in order. The file is an inode that was free, under the last name of the path in its
-- directory, which stays in order, and no inode but these two changes. The directories of the
-- path, all in use, lead to one in order that has room and no such name; an inode is free, the
-- process has a closed descriptor, and the table a free entry.
pub open_aux-new :
    (k : Kernel) (flags j : ℕ) (ds : List (List ℕ)) (name : List ℕ) (names : ℕ → List ℕ)
    → CanOpen k
    → CanHold k.fs ds name j names
    → OpensNew k ds name j names (open_aux (slash ∷ render ds name) flags k)
unfolding open_aux create_missing is_fl_exist
open_aux-new k flags j ds name names c h =
    let (o, buf, nothing) = nothing_there h in
    let m = make_fl_lem (looked o buf k.fs) ds name j names (CanHold-looked o buf h) in
    let (o', buf', found) = m.found in
    let fs : Fs = looked o' buf' m.made in
    record {
      index = m.index;
      slot = m.slot;
      fs = fs;
      opens = rw (nothing, m.runs, found) (attach-fs k fs m.index c m.inside);
      was_free = m.was_free;
      now_used = m.now_used;
      ordered = m.ordered;
      others = m.others;
      is_file = m.content.1;
    }
