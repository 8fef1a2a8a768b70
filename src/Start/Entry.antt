-- ===== src/Start/Entry.antt =====
-- What `kEntry` reaches: the first process ready to run, its program and the file system in memory.
use oslab_nju.Prelude.{
  ℕ, ◌+◌, ◌*◌, ◌≤◌, ◌<◌, ◌≡◌, ◌⊎◌, refl, ◌∙◌, sym, ap, List, [], ◌∷◌, ok, arith,
}
use mathlib.Core.Path.{subst}
use oslab_nju.Text.{Bytes}
use oslab_nju.Proc.{running, null, idle, runnable_list, dummysem, pcb_at}
use oslab_nju.Disk.{Ports}
use oslab_nju.Disk.Sector.{Drive}
use oslab_nju.Disk.Blocks.{disk_byte, read_bytes_lem}
use oslab_nju.Disk.Load.{
  pt_load, load_fs, mem_set, fs_addr, fs_size, fs_offset_in_disk, user_offset_in_disk,
}
use oslab_nju.Disk.Program.{Holds}
use oslab_nju.Disk.Elf.{IsElf, IsUntouched, file_header, file_segment, load_elf_lem}
use oslab_nju.Fs.{Fs}
use oslab_nju.Tables.Gates.{Entries, init_idt}
use oslab_nju.Sched.Valid.{IsValid}
use oslab_nju.Kernel.{Kernel, with_procs}
use oslab_nju.Kernel.Runs.{IsSound}
use oslab_nju.Kernel.Boot.Start.{all_free, init_pcb-IsValid}
use oslab_nju.Kernel.Boot.First.{one_ready, prepare_pcb_lem}
use oslab_nju.Start.{
  Machine, out_bytes, init_serial, init_intr, init_timer, init_seg, init_fs, init_screen,
  load_u_main, k_entry, superblock_size, inodeblock_size,
}

-- None of the ports is the disk's.
abbrev AreApart : List (ℕ × ℕ) → Type 0
AreApart [] = Unit {0}
AreApart ((port, v) ∷ rest) = ((port < 0x1f0) ⊎ (0x1f8 ≤ port)) × AreApart rest

-- The disk does not change by what goes to other ports than its own.
abbrev pub IsQuiet : {p : Ports} → Drive p → Type 0
IsQuiet {p} d =
    (port v : ℕ) (s : p.State)
    → (port < 0x1f0) ⊎ (0x1f8 ≤ port)
    → d.content (p.out_byte port v s) ≡ d.content s

-- The segments of the user program on the disk are in memory.
abbrev pub IsLoaded : (ℕ → ℕ → ℕ) → Bytes → Type 0
IsLoaded content mem =
    (i : ℕ)
    → i < (file_header content user_offset_in_disk).phnum
    → (file_segment content user_offset_in_disk i).kind ≡ pt_load
    → Holds content user_offset_in_disk (file_segment content user_offset_in_disk i) mem

-- The file system in memory is that on the disk.
abbrev pub AreFiles : Fs → (ℕ → ℕ → ℕ) → Type 0
AreFiles fs content =
    (i j : ℕ)
    → i < 32
    → j < 32768
    → (fs.inodes i).block j
      ≡ disk_byte content (fs_offset_in_disk + superblock_size + inodeblock_size * i + 36 + j)

-- The user program is loaded beside the file system in memory.
abbrev pub IsBeside : (ℕ → ℕ → ℕ) → ℕ → Type 0
IsBeside content buffer =
    (j : ℕ) → j < fs_size → IsUntouched content user_offset_in_disk buffer (fs_addr + j)

module _ {p : Ports} (d : Drive p) where
  out_bytes_lem :
      IsQuiet d
      → (l : List (ℕ × ℕ)) (s : p.State) → AreApart l
      → d.content (out_bytes p l s) ≡ d.content s
  unfolding out_bytes
  out_bytes_lem q [] s h = refl
  out_bytes_lem q ((port, v) ∷ rest) s h =
      out_bytes_lem q rest (p.out_byte port v s) h.1 ∙ q port v s h.0

  devices_lem :
      IsQuiet d
      → (s : p.State)
      → (s' : p.State) × (init_timer p (init_intr p (init_serial p s)) ≡ ok s')
        × (d.content s' ≡ d.content s)
  unfolding init_timer init_intr init_serial
  devices_lem q s = (
    _,
    refl,
    out_bytes_lem q _ (init_intr p (init_serial p s)) (omega arith)
        ∙ out_bytes_lem q _ (init_serial p s) (omega arith)
        ∙ out_bytes_lem q _ s (omega arith),
  )

  load_fs_lem :
      (mem : Bytes) (s : p.State)
      → (m : Bytes) × (s' : p.State) × (load_fs p d.patience mem s ≡ ok (m, s'))
        × ((j : ℕ)
            → j < fs_size
            → m (fs_addr + j) ≡ disk_byte (d.content s) (fs_offset_in_disk + j))
        × (d.content s' ≡ d.content s)
  unfolding load_fs
  load_fs_lem mem s =
      let (m, s', run, got, _, _, same) =
        read_bytes_lem d fs_addr fs_offset_in_disk fs_size
          (mem_set fs_addr (fs_addr + fs_size) 0 mem) s (omega arith) (omega arith) (omega arith) in
      (m, s', run, got, same)

  load_u_main_lem :
      (buffer : ℕ) (m : Machine p)
      → IsElf (d.content m.devices) user_offset_in_disk buffer
      → IsValid m.kernel.procs all_free
      → m.kernel.procs.current ≡ idle
      → (m.kernel.procs.pcb idle).state ≡ running
      → m.kernel.procs.p_num ≡ 1
      → let content = d.content m.devices in
        (after : Machine p) × (load_u_main p d.patience buffer m ≡ ok after)
        × IsValid after.kernel.procs one_ready
        × (after.kernel.procs.current ≡ idle)
        × ((after.kernel.procs.pcb (pcb_at 1)).tf.eip
            ≡ (file_header content user_offset_in_disk).entry)
        × IsLoaded content after.kernel.mem
        × ((x : ℕ)
            → IsUntouched content user_offset_in_disk buffer x
            → after.kernel.mem x ≡ m.kernel.mem x)
  unfolding load_u_main with_procs
  load_u_main_lem buffer m g v c r n =
      let (mem, s, run, held, untouched, _) =
        load_elf_lem d user_offset_in_disk buffer m.kernel.mem m.devices g in
      let (procs, run', v', c', at, _) =
        prepare_pcb_lem (file_header (d.content m.devices) user_offset_in_disk).entry v c r n in
      (
        record m { kernel = record m.kernel { mem = mem; procs = procs }; devices = s },
        rw run (rw run' refl),
        v',
        c',
        at,
        held,
        untouched,
      )

  init_fs_lem :
      (mem : Bytes) (content : ℕ → ℕ → ℕ) (k : Kernel) (i j : ℕ)
      → ((j : ℕ) → j < fs_size → mem (fs_addr + j) ≡ disk_byte content (fs_offset_in_disk + j))
      → i < 32
      → j < 32768
      → ((init_fs mem k.fs).inodes i).block j
        ≡ disk_byte content (fs_offset_in_disk + superblock_size + inodeblock_size * i + 36 + j)
  unfolding init_fs
  init_fs_lem mem content k i j got h b =
      ap mem (omega arith)
      ∙ got (superblock_size + inodeblock_size * i + 36 + j) (omega arith)
      ∙ ap (disk_byte content) (omega arith)

  -- The kernel starts. `kEntry` gets to the loop of `idle`, with one process ready, which begins at the
  -- entry point of the user program on the disk; the program is in memory, and the data blocks of the
  -- inodes are those on the disk. The program can be loaded, the 4096 bytes at `buffer` and its segments
  -- lie 512 bytes or more from the file system in memory, the list of `dummysem` is empty as in memory
  -- that is set to zero, and the ports of the other devices do not change the disk.
  pub k_entry_lem :
      (entries : Entries) (tss buffer : ℕ) (m : Machine p)
      → IsQuiet d
      → (m.kernel.procs.pcb dummysem).next ≡ null
      → IsElf (d.content m.devices) user_offset_in_disk buffer
      → IsBeside (d.content m.devices) buffer
      → let content = d.content m.devices in
        (after : Machine p) × (k_entry p d.patience entries tss buffer m ≡ ok after)
        × ((s : IsSound after.kernel) × (s.queues runnable_list ≡ pcb_at 1 ∷ []))
        × (after.kernel.procs.current ≡ idle)
        × ((after.kernel.procs.pcb (pcb_at 1)).tf.eip
            ≡ (file_header content user_offset_in_disk).entry)
        × IsLoaded content after.kernel.mem
        × AreFiles after.kernel.fs content
  unfolding k_entry init_seg init_screen
  k_entry_lem entries tss buffer m q e g beside =
      let (s1, run1, same1) = devices_lem q m.devices in
      let m1 : Machine p =
        init_seg p tss (record m { gates = init_idt entries m.gates; devices = s1 }) in
      let (k, run2, v, c, n) = init_pcb-IsValid m1.kernel e in
      let (mem, s2, run3, got, same2) = load_fs_lem (init_screen k).mem s1 in
      let same : d.content s2 ≡ d.content m.devices = same2 ∙ same1 in
      let ready : Machine p = record m1 {
        kernel = record (init_screen k) { mem = mem };
        devices = s2;
      } in
      let (loaded, run4, v', c', at, held, untouched) =
        load_u_main_lem buffer ready (subst (λ x. IsElf x user_offset_in_disk buffer) (sym same) g)
          v c (v.idle_runs c) n in
      let after : Machine p = record loaded {
        kernel = record loaded.kernel { fs = init_fs loaded.kernel.mem loaded.kernel.fs };
      } in
      (
        after,
        rw run1 (rw run2 (rw run3 (rw run4 refl))),
        (record { queues = _; valid = v'; is_running = rw c' (v'.idle_runs c') }, refl),
        c',
        subst
            (λ x.
              (after.kernel.procs.pcb (pcb_at 1)).tf.eip
              ≡ (file_header x user_offset_in_disk).entry)
            same at,
        subst (λ x. IsLoaded x after.kernel.mem) same held,
        λ i j h b.
            init_fs_lem loaded.kernel.mem (d.content m.devices) loaded.kernel i j
              (λ j l.
                untouched (fs_addr + j) (
                  subst (λ x. IsUntouched x user_offset_in_disk buffer (fs_addr + j)) (sym same)
                    (beside j l))
                ∙ got j l
                ∙ ap (λ x. disk_byte x (fs_offset_in_disk + j)) same1)
              h b,
      )
