-- ===== src/Kernel/FileTable/Open.antt =====
-- A file that is opened: the end of open_aux of irqHandle.c.
use oslab_nju.Prelude.{
  ℕ, ◌+◌, ◌<◌, ◌≤◌, ◌≡◌, ◌≢◌, ◌∙◌, sym, ap, refl, true, false, List, Run, ok, ◌==◌, if◌then◌else◌,
  Bool-cases, inl, inr, arith, ==→eq, length, length-set, has, get_or, set, get_or-set_self,
  get_or-set_ne,
}
use oslab_nju.Prelude.Word.{minus_one, add32}
use oslab_nju.Proc.{Ptr, Pcb, store}
use oslab_nju.Proc.Chain.{load-ok}
use oslab_nju.Fs.{nr_inode}
use oslab_nju.Kernel.{Kernel, SysFile, max_fp_num, load_current, store_current}
use oslab_nju.Kernel.Files.{avl_file_from, get_avl_system_file, attach}
use oslab_nju.Kernel.OpenFile.{Opened, entry}
use oslab_nju.Kernel.Process.Share.{users, no_file}
use oslab_nju.Kernel.FileTable.{IsUser, InOrder, total-change, users-set, has-set, links}
use oslab_nju.Kernel.FileTable.Free.{
  SomeFree, behind_three, avl_file_from_lem, get_avl_filepointer_lem,
}

abbrev pub new_file : ℕ → SysFile
new_file index = record { inode_index = index; link_num = 1; offset = 0 }

-- The state after the descriptor `fd` has been opened on the entry `sys`.
abbrev attached : ℕ → ℕ → ℕ → Kernel → Kernel
attached index fd sys k =
    let c = k.procs.pcb k.procs.current in
    record k {
      sys_file_num = add32 k.sys_file_num 1;
      files = set k.files sys (new_file index);
      procs = record k.procs {
        pcb = store k.procs.pcb k.procs.current (record c {
          filepointer = set c.filepointer fd sys;
          tf = record c.tf { eax = fd };
          fp_num = add32 c.fp_num 1;
        });
      };
    }

-- The file is open on a descriptor that was closed, the first such one from 3 on, which is the result,
-- and on an entry of the table that was free. The other descriptors and entries stay, and the
-- table is in order.
pub record Attached (k : Kernel) (index : ℕ) (r : Run Kernel) : Type 0 where
  pub after : Kernel
  pub fd : ℕ
  pub sys : ℕ
  pub runs : r ≡ ok after
  pub result : (after.procs.pcb k.procs.current).tf.eax ≡ fd
  pub lowest :
      (3 ≤ fd)
      × (get_or (k.procs.pcb k.procs.current).filepointer fd 0 ≡ minus_one)
      × ((d : ℕ)
          → 3 ≤ d
          → d < fd
          → get_or (k.procs.pcb k.procs.current).filepointer d 0 ≢ minus_one)
  pub current : after.procs.current ≡ k.procs.current
  pub bounds : (fd < max_fp_num) × (sys < length k.files)
  pub free : (get_or k.files sys no_file).inode_index ≡ minus_one
  pub opened : Opened after fd (new_file index)
  pub descriptors :
      (after.procs.pcb k.procs.current).filepointer
      ≡ set (k.procs.pcb k.procs.current).filepointer fd sys
  pub files : after.files ≡ set k.files sys (new_file index)
  pub others : (x : Ptr) → x ≢ k.procs.current → after.procs.pcb x ≡ k.procs.pcb x
  pub fs : after.fs ≡ k.fs
  pub in_order : InOrder after

module _ {k : Kernel} (w : InOrder k) (u : IsUser k.procs.current) (index fd sys : ℕ)
    (bf : fd < max_fp_num)
    (closed : get_or (k.procs.pcb k.procs.current).filepointer fd 0 ≡ minus_one)
    (bs : sys < length k.files) (free : (get_or k.files sys no_file).inode_index ≡ minus_one)
    (bi : index < nr_inode) where
  fps : List ℕ
  fps = (k.procs.pcb k.procs.current).filepointer

  inside : fd < length fps
  unfolding fps
  inside = omega (arith, w.sizes k.procs.current u)

  attached-Opened : Opened (attached index fd sys k) fd (new_file index)
  unfolding fps
  attached-Opened =
      let at : get_or (set fps fd sys) fd 0 ≡ sys = get_or-set_self fps fd sys 0 inside in
      let same : entry fd (attached index fd sys k) ≡ sys = ground (arith, at) in
      record {
        object = (omega arith, omega arith);
        in_process = ground (arith, length-set fps fd sys, inside);
        in_table = rw same (omega (arith, length-set k.files sys (new_file index)));
        names = rw same (get_or-set_self k.files sys (new_file index) no_file bs);
        inode = bi;
      }

  -- The number of descriptors of an entry.
  attached-links :
      (i : ℕ)
      → i < length k.files
      → links i (attached index fd sys k) ≡ links i k + (if sys == i then 1 else 0)
  unfolding fps
  attached-links i b =
      let change =
        total-change i k.procs.pcb (attached index fd sys k).procs.pcb 9 7 k.procs.current u.0
          (omega arith) (λ x ne. ground (arith, ne)) in
      let one = users-set i fps fd sys inside in
      let old : (get_or fps fd 0 == i) ≡ false = ground (arith, closed, w.table) in
      let now : ((attached index fd sys k).procs.pcb k.procs.current).filepointer ≡ set fps fd sys =
        ground arith in
      ground (arith, change, one, ap (users i) now)

  attached-entry :
      (i : ℕ)
      → i ≢ sys
      → get_or (attached index fd sys k).files i no_file ≡ get_or k.files i no_file
  attached-entry i ne =
      get_or-set_ne k.files {i = sys} {j = i} (new_file index) no_file (λ e. ne (sym e))

  attached-InOrder : InOrder (attached index fd sys k)
  unfolding fps
  attached-InOrder = record {
    counted = λ i b. elim (Bool-cases (sys == i)) [
      | inl e ↦
          ground
            (arith, attached-links i (in_old i b), w.counted i (in_old i b), own i e, empty i e)
      | inr e ↦ ground (
        arith,
        attached-links i (in_old i b),
        w.counted i (in_old i b),
        attached-entry i (λ p. ground (arith, p, e)),
      )
    ];
    unused = λ i b z. elim (Bool-cases (sys == i)) [
      | inl e ↦ absurd (ground (arith, own i e, z))
      | inr e ↦
          let same = attached-entry i (λ p. ground (arith, p, e)) in
          ap (λ f. f.inode_index) same
          ∙ w.unused i (in_old i b) (sym (ap (λ f. f.link_num) same) ∙ z)
    ];
    in_use = λ i b z. elim (Bool-cases (sys == i)) [
      | inl e ↦ absurd (ground (arith, own i e, z, bi))
      | inr e ↦
          let same = attached-entry i (λ p. ground (arith, p, e)) in
          ap (λ f. f.link_num) same
          ∙ w.in_use i (in_old i b) (sym (ap (λ f. f.inode_index) same) ∙ z)
    ];
    named = λ p o i h ne. rw (length-set k.files sys (new_file index)) (named_after p o i h ne);
    sizes = λ p o. elim (Bool-cases (p == k.procs.current)) [
      | inl e ↦ ground (arith, e, length-set fps fd sys, w.sizes k.procs.current u)
      | inr e ↦ ground (arith, e, w.sizes p o)
    ];
    table = length-set k.files sys (new_file index) ∙ w.table;
  }
    where
      in_old : (i : ℕ) → i < length (attached index fd sys k).files → i < length k.files
      in_old i b = omega (arith, b, length-set k.files sys (new_file index))

      own :
          (i : ℕ)
          → (sys == i) ≡ true
          → get_or (attached index fd sys k).files i no_file ≡ new_file index
      own i e =
          ap (λ j. get_or (set k.files sys (new_file index)) j no_file) (sym (==→eq sys i e))
          ∙ get_or-set_self k.files sys (new_file index) no_file bs

      empty : (i : ℕ) → (sys == i) ≡ true → (get_or k.files i no_file).link_num ≡ 0
      empty i e =
          ap (λ j. (get_or k.files j no_file).link_num) (sym (==→eq sys i e)) ∙ w.in_use sys bs free

      named_after :
          (p : Ptr)
          → IsUser p
          → (i : ℕ) → has i ((attached index fd sys k).procs.pcb p).filepointer ≡ true
          → i ≢ minus_one
          → i < length k.files
      named_after p o i h ne = elim (Bool-cases (p == k.procs.current)) [
        | inl e ↦ elim (has-set i fps fd sys (ground (arith, h, e))) [
          | inl z ↦ rw z bs
          | inr z ↦ w.named k.procs.current u i z ne
        ]
        | inr e ↦ w.named p o i (ground (arith, h, e)) ne
      ]

-- `attach` takes the first closed descriptor from 3 on and a free entry, if there are any, and
-- keeps the table in order.
pub attach_lem :
    (k : Kernel) (index : ℕ)
    → InOrder k
    → IsUser k.procs.current
    → index < nr_inode
    → SomeFree k.files
    → has minus_one (behind_three (k.procs.pcb k.procs.current).filepointer) ≡ true
    → Attached k index (attach index k)
unfolding attach load_current store_current get_avl_system_file
attach_lem k index w u bi some closed =
    let c : Pcb = k.procs.pcb k.procs.current in
    let (fd, found, l3, bf, is_closed, first) =
      get_avl_filepointer_lem c (w.sizes k.procs.current u) closed in
    let (sys, found', bs, is_free) = avl_file_from_lem k.files 0 some in
    let loaded = load-ok k.procs.pcb k.procs.current (omega (arith, u), omega (arith, u)) in
    let at : avl_file_from 0 k.files ≡ sys = omega (arith, found') in
    let good : (sys == minus_one) ≡ false = ground (arith, bs, w.table) in
    let good' : (fd == minus_one) ≡ false = ground (arith, bf) in
    record {
      after = attached index fd sys k;
      fd = fd;
      sys = sys;
      runs = rw (loaded, at, found, good, good') refl;
      result = ground arith;
      lowest = (l3, is_closed, first);
      current = refl;
      bounds = (bf, bs);
      free = is_free;
      opened = attached-Opened w u index fd sys bf is_closed bs is_free bi;
      descriptors = ground arith;
      files = refl;
      others = λ x ne. ground (arith, ne);
      fs = refl;
      in_order = attached-InOrder w u index fd sys bf is_closed bs is_free bi;
    }
