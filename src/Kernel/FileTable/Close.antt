-- ===== src/Kernel/FileTable/Close.antt =====
-- A descriptor that is closed: close_aux of irqHandle.c.
use oslab_nju.Prelude.{
  ℕ, ◌+◌, ◌-◌, ◌<◌, ◌≡◌, ◌≢◌, ◌∙◌, sym, ap, refl, true, false, List, Run, ok, ◌==◌, if◌then◌else◌,
  Bool-cases, inl, inr, arith, ==→eq, length, length-set, has, get_or, set, get_or-set_self,
  get_or-set_ne, ltb,
}
use oslab_nju.Prelude.Word.{minus_one, sub32}
use oslab_nju.Proc.{Ptr, store}
use oslab_nju.Proc.Chain.{load-ok}
use oslab_nju.Kernel.{Kernel, SysFile, max_fp_num, load_current, store_current}
use oslab_nju.Kernel.Files.{descriptor, drop_link, close_aux}
use oslab_nju.Kernel.OpenFile.{entry}
use oslab_nju.Kernel.Process.Share.{users, no_file, load_file-ok}
use oslab_nju.Kernel.FileTable.{
  IsUser, InOrder, total-change, total-bound, total-part, users-set, has-set, links, has-users,
  has-get_or,
}

-- An entry with one descriptor less: the last one frees it.
abbrev pub dropped : SysFile → SysFile
dropped f =
    if f.link_num == 1
    then record { inode_index = minus_one; link_num = 0; offset = 0 }
    else record f { link_num = f.link_num - 1 }

-- The state after the descriptor `fd` has been closed.
abbrev closed : ℕ → Kernel → Kernel
closed fd k =
    let c = k.procs.pcb k.procs.current in
    let f = get_or k.files (entry fd k) no_file in
    record k {
      sys_file_num = if f.link_num == 1 then sub32 k.sys_file_num 1 else k.sys_file_num;
      files = set k.files (entry fd k) (dropped f);
      procs = record k.procs {
        pcb = store k.procs.pcb k.procs.current (record c {
          filepointer = set c.filepointer fd minus_one;
          fp_num = sub32 c.fp_num 1;
          tf = record c.tf { eax = 0 };
        });
      };
    }

-- The descriptor is closed, its entry has one link less and is free if that was the last one, and the
-- table is in order; the other descriptors, entries and processes stay.
pub record Closed (k : Kernel) (fd : ℕ) (r : Run Kernel) : Type 0 where
  pub after : Kernel
  pub runs : r ≡ ok after
  pub result : (after.procs.pcb k.procs.current).tf.eax ≡ 0
  pub descriptors :
      (after.procs.pcb k.procs.current).filepointer
      ≡ set (k.procs.pcb k.procs.current).filepointer fd minus_one
  pub files : after.files ≡ set k.files (entry fd k) (dropped (get_or k.files (entry fd k) no_file))
  pub others : (x : Ptr) → x ≢ k.procs.current → after.procs.pcb x ≡ k.procs.pcb x
  pub fs : after.fs ≡ k.fs
  pub in_order : InOrder after

module _ {k : Kernel} (w : InOrder k) (u : IsUser k.procs.current) (fd : ℕ) (bf : fd < max_fp_num)
    (is_open : entry fd k ≢ minus_one) where
  abbrev fps : List ℕ
  fps = (k.procs.pcb k.procs.current).filepointer

  abbrev sys : ℕ
  sys = entry fd k

  abbrev file : SysFile
  file = get_or k.files sys no_file

  inside : fd < length fps
  inside = omega (arith, bf, w.sizes k.procs.current u)

  in_table : sys < length k.files
  in_table = w.named k.procs.current u sys (has-get_or fps fd inside) is_open

  -- There is a link, and not too many.
  some_links : (0 < file.link_num) × (file.link_num < 100)
  some_links =
      let here = total-part sys k.procs.pcb 9 7 k.procs.current u.0 (omega (arith, u)) in
      let many = total-bound sys k.procs.pcb 9 7 (λ x a b. w.sizes x (omega arith, omega arith)) in
      let some = has-users sys fps (has-get_or fps fd inside) in
      (
        omega (arith, here, some, w.counted sys in_table),
        omega (arith, many, w.counted sys in_table),
      )

  closed-links :
      (i : ℕ) → i < length k.files → links i (closed fd k) + (if sys == i then 1 else 0) ≡ links i k
  closed-links i b =
      let change =
        total-change i k.procs.pcb (closed fd k).procs.pcb 9 7 k.procs.current u.0
          (omega (arith, u)) (λ x ne. ground (arith, ne)) in
      let one = users-set i fps fd minus_one inside in
      let none : (minus_one == i) ≡ false = ground (arith, b, w.table) in
      let now : ((closed fd k).procs.pcb k.procs.current).filepointer ≡ set fps fd minus_one =
        ground arith in
      ground (arith, change, one, ap (users i) now, none)

  closed-entry : (i : ℕ) → i ≢ sys → get_or (closed fd k).files i no_file ≡ get_or k.files i no_file
  closed-entry i ne =
      get_or-set_ne k.files {i = sys} {j = i} (dropped file) no_file (λ e. ne (sym e))

  own : (i : ℕ) → (sys == i) ≡ true → get_or (closed fd k).files i no_file ≡ dropped file
  own i e =
      ap (λ j. get_or (set k.files sys (dropped file)) j no_file) (sym (==→eq sys i e))
      ∙ get_or-set_self k.files sys (dropped file) no_file in_table

  in_old : (i : ℕ) → i < length (closed fd k).files → i < length k.files
  in_old i b = omega (arith, b, length-set k.files sys (dropped file))

  dropped-link : (dropped file).link_num + 1 ≡ file.link_num
  dropped-link = ground (arith, some_links)

  dropped-inode :
      ((dropped file).link_num ≡ 0 → (dropped file).inode_index ≡ minus_one)
      × ((dropped file).inode_index ≡ minus_one → (dropped file).link_num ≡ 0)
  dropped-inode = (
    λ z. ground (arith, z, some_links),
    λ z. ground (arith, z, some_links, w.in_use sys in_table),
  )

  closed-counted :
      (i : ℕ)
      → i < length k.files
      → (get_or (closed fd k).files i no_file).link_num ≡ links i (closed fd k)
  closed-counted i b = elim (Bool-cases (sys == i)) [
    | inl e ↦
        let same : file.link_num ≡ links i k =
          ap (λ j. (get_or k.files j no_file).link_num) (==→eq sys i e) ∙ w.counted i b in
        ground (arith, closed-links i b, dropped-link, ap (λ f. f.link_num) (own i e), same)
    | inr e ↦ ground (
      arith,
      closed-links i b,
      w.counted i b,
      ap (λ f. f.link_num) (closed-entry i (λ p. ground (arith, p, e))),
    )
  ]

  closed-named :
      (p : Ptr)
      → IsUser p
      → (i : ℕ) → has i ((closed fd k).procs.pcb p).filepointer ≡ true
      → i ≢ minus_one
      → i < length k.files
  closed-named p o i h ne = elim (Bool-cases (p == k.procs.current)) [
    | inl e ↦ elim (has-set i fps fd minus_one (ground (arith, h, e))) [
      | inl z ↦ absurd (ne z)
      | inr z ↦ w.named k.procs.current u i z ne
    ]
    | inr e ↦ w.named p o i (ground (arith, h, e)) ne
  ]

  closed-InOrder : InOrder (closed fd k)
  closed-InOrder = record {
    counted = λ i b. closed-counted i (in_old i b);
    unused = λ i b z. elim (Bool-cases (sys == i)) [
      | inl e ↦
          ap (λ f. f.inode_index) (own i e)
          ∙ dropped-inode.0 (sym (ap (λ f. f.link_num) (own i e)) ∙ z)
      | inr e ↦
          let same = closed-entry i (λ p. ground (arith, p, e)) in
          ap (λ f. f.inode_index) same
          ∙ w.unused i (in_old i b) (sym (ap (λ f. f.link_num) same) ∙ z)
    ];
    in_use = λ i b z. elim (Bool-cases (sys == i)) [
      | inl e ↦
          ap (λ f. f.link_num) (own i e)
          ∙ dropped-inode.1 (sym (ap (λ f. f.inode_index) (own i e)) ∙ z)
      | inr e ↦
          let same = closed-entry i (λ p. ground (arith, p, e)) in
          ap (λ f. f.link_num) same
          ∙ w.in_use i (in_old i b) (sym (ap (λ f. f.inode_index) same) ∙ z)
    ];
    named = λ p o i h ne. rw (length-set k.files sys (dropped file)) (closed-named p o i h ne);
    sizes = λ p o. elim (Bool-cases (p == k.procs.current)) [
      | inl e ↦ ground (arith, e, length-set fps fd minus_one, w.sizes k.procs.current u)
      | inr e ↦ ground (arith, e, w.sizes p o)
    ];
    table = length-set k.files sys (dropped file) ∙ w.table;
  }

  drop_link_lem :
      drop_link sys k
      ≡ ok (record k {
        sys_file_num = if file.link_num == 1 then sub32 k.sys_file_num 1 else k.sys_file_num;
        files = set k.files sys (dropped file);
      })
  unfolding drop_link
  drop_link_lem =
      let left : sub32 file.link_num 1 ≡ file.link_num - 1 = omega (arith, some_links) in
      elim (Bool-cases (file.link_num == 1)) [
        | inl e ↦
            let none : (sub32 file.link_num 1 == 0) ≡ true = ground (arith, e) in
            rw (load_file-ok sys k.files in_table, none, e, left) (ground (arith, e))
        | inr e ↦
            let more : (sub32 file.link_num 1 == 0) ≡ false = ground (arith, e, left, some_links) in
            rw (load_file-ok sys k.files in_table, more, e, left) refl
      ]

-- `close_aux` of an open descriptor of one of the processes, with the table of open files in
-- order, always returns with it in order: the descriptor is closed, its entry has one link less
-- and is free when that was the last one, and the other descriptors, entries and processes stay.
pub close_aux_lem :
    (k : Kernel) (fd : ℕ)
    → InOrder k
    → IsUser k.procs.current
    → fd < max_fp_num
    → entry fd k ≢ minus_one
    → Closed k fd (close_aux fd k)
unfolding close_aux descriptor load_current store_current
close_aux_lem k fd w u bf is_open =
    let loaded = load-ok k.procs.pcb k.procs.current (omega (arith, u), omega (arith, u)) in
    let within : ltb fd (length (k.procs.pcb k.procs.current).filepointer) ≡ true =
      ground (arith, bf, w.sizes k.procs.current u) in
    record {
      after = closed fd k;
      runs = rw (loaded, within, drop_link_lem w u fd bf is_open) (rw loaded refl);
      result = ground arith;
      descriptors = ground arith;
      files = refl;
      others = λ x ne. ground (arith, ne);
      fs = refl;
      in_order = closed-InOrder w u fd bf is_open;
    }
