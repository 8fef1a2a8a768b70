-- ===== src/Disk/Elf.antt =====
-- A whole ELF file: what loadUMain and bootMain do up to the jump to the program.
use oslab_nju.Prelude.{
  ℕ, ◌+◌, ◌*◌, ◌^◌, ◌%◌, ◌≤◌, ◌<◌, ◌≡◌, ◌⊎◌, inl, inr, refl, ap, ◌∙◌, ok, arith,
}
use mathlib.Core.Path.{subst}
use oslab_nju.Prelude.Word.{add32}
use oslab_nju.Text.{Bytes}
use oslab_nju.Disk.{Ports, read_bytes}
use oslab_nju.Disk.Sector.{Drive}
use oslab_nju.Disk.Blocks.{disk_byte, read_bytes_lem}
use oslab_nju.Disk.Load.{
  ElfHeader, ProgramHeader, elf_header, program_header, pt_load, load_half, load_segments, load_elf,
}
use oslab_nju.Disk.Program.{field_moved, header_moved, IsClear, IsProgram, Holds, load_segments_lem}

-- The headers of the file at `base` on the disk.
abbrev pub file_header : (ℕ → ℕ → ℕ) → ℕ → ElfHeader
file_header content base = elf_header (disk_byte content) base

abbrev pub file_segment : (ℕ → ℕ → ℕ) → ℕ → ℕ → ProgramHeader
file_segment content base i =
    program_header (disk_byte content) (base + (file_header content base).phoff + 32 * i)

-- A file that can be loaded with its first 4096 bytes at `elf`: these hold the program headers, and no
-- segment comes near the file's header there.
pub record IsElf (content : ℕ → ℕ → ℕ) (base elf : ℕ) : Type 0 where
  pub low : base % 512 ≤ elf
  pub high : elf + 4096 + 512 < 2 ^ 32
  pub small : base + 4096 < 2 ^ 31
  pub table : (file_header content base).phoff + 32 * (file_header content base).phnum ≤ 4096
  pub program :
      IsProgram base
        (file_header content base).phnum
        (elf + (file_header content base).phoff)
        (file_segment content base)
  pub kept :
      (i : ℕ)
      → i < (file_header content base).phnum
      → (file_segment content base i).kind ≡ pt_load
      → (j : ℕ) → j < 52
      → IsClear (file_segment content base i) (elf + j)

-- What loading the file does not write to: all that is 512 bytes or more from `elf` and the segments.
abbrev pub IsUntouched : (ℕ → ℕ → ℕ) → ℕ → ℕ → ℕ → Type 0
IsUntouched content base elf x =
    ((x + 512 < elf) ⊎ (elf + 4096 + 512 ≤ x))
    × ((i : ℕ)
        → i < (file_header content base).phnum
        → (file_segment content base i).kind ≡ pt_load
        → IsClear (file_segment content base i) x)

half_moved :
    (n o : ℕ) (b m : Bytes) (c a : ℕ)
    → c + n ≤ 2 ^ 32
    → a + n ≤ 2 ^ 32
    → o + 2 ≤ n
    → ((j : ℕ) → j < n → m (a + j) ≡ b (c + j))
    → load_half m (add32 a o) ≡ load_half b (add32 c o)
half_moved n o b m c a h k l same =
    let s0 : m (add32 a o) ≡ b (add32 c o) =
      ap m (omega arith) ∙ same o (omega arith) ∙ ap b (omega arith) in
    let s1 : m (add32 (add32 a o) 1) ≡ b (add32 (add32 c o) 1) =
      ap m (omega arith) ∙ same (o + 1) (omega arith) ∙ ap b (omega arith) in
    rw (s0, s1) refl

module _ {p : Ports} (d : Drive p) where
  load_elf_runs :
      (base elf : ℕ) (mem : Bytes) (s : p.State) {m0 m : Bytes} {s0 s' : p.State} {k ph e : ℕ}
      → read_bytes p d.patience elf base 4096 mem s ≡ ok (m0, s0)
      → (elf_header m0 elf).phnum ≡ k
      → add32 elf (elf_header m0 elf).phoff ≡ ph
      → load_segments p d.patience base k ph m0 s0 ≡ ok (m, s')
      → (elf_header m elf).entry ≡ e
      → load_elf p d.patience base elf mem s ≡ ok (e, m, s')
  unfolding load_elf
  load_elf_runs base elf mem s read count table run entry =
      rw read (rw (count, table) (rw run (rw entry refl)))

  -- A program is loaded whole, and the loader always returns: every segment has the bytes of the file
  -- and zeros behind them at its address, and the result is the file's entry point. The disk does not
  -- change, and the memory only at the segments, at the 4096 bytes from `elf` on, and within 512 bytes
  -- of these. The segments lie in the memory, at least 512 bytes apart from each other, and as far from
  -- the headers at `elf`; these are within the first 4096 bytes of the file.
  pub load_elf_lem :
      (base elf : ℕ) (mem : Bytes) (s : p.State)
      → IsElf (d.content s) base elf
      → (m : Bytes) × (s' : p.State) × (load_elf p d.patience base elf mem s
          ≡ ok ((file_header (d.content s) base).entry, m, s'))
        × ((i : ℕ)
            → i < (file_header (d.content s) base).phnum
            → (file_segment (d.content s) base i).kind ≡ pt_load
            → Holds (d.content s) base (file_segment (d.content s) base i) m)
        × ((x : ℕ) → IsUntouched (d.content s) base elf x → m x ≡ mem x)
        × (d.content s' ≡ d.content s)
  unfolding elf_header
  load_elf_lem base elf mem s g =
      let content = d.content s in
      let disk : Bytes = disk_byte content in
      let (m0, s0, run0, got, below, above, same0) =
        read_bytes_lem d elf base 4096 mem s g.low g.high (omega (arith, g.small)) in
      let phoff : (elf_header m0 elf).phoff ≡ (file_header content base).phoff =
        field_moved 4096 28 disk m0 base elf (omega (arith, g.small)) (omega (arith, g.high))
          (omega arith) got in
      let phnum : (elf_header m0 elf).phnum ≡ (file_header content base).phnum =
        half_moved 4096 44 disk m0 base elf (omega (arith, g.small)) (omega (arith, g.high))
          (omega arith) got in
      let (m, s', run, held, clear, same) =
        load_segments_lem d (file_header content base).phnum base
          (elf + (file_header content base).phoff) (file_segment content base) m0 s0 g.program
          (λ i h.
            header_moved disk m0 (base + (file_header content base).phoff + 32 * i) _
              (omega (arith, g.small, g.table)) (omega (arith, g.high, g.table))
              (λ j b.
                ap m0 (omega arith)
                ∙ got ((file_header content base).phoff + 32 * i + j) (omega (arith, g.table))
                ∙ ap disk (omega arith))) in
      let entry : (elf_header m elf).entry ≡ (file_header content base).entry =
        field_moved 52 24 disk m base elf (omega (arith, g.small)) (omega (arith, g.high))
          (omega arith)
          (λ j b. clear (elf + j) (λ i h l. g.kept i h l j b) ∙ got j (omega arith)) in
      let table : add32 elf (elf_header m0 elf).phoff ≡ elf + (file_header content base).phoff =
        ap (add32 elf) phoff ∙ omega (arith, g.high, g.table) in
      (
        m,
        s',
        load_elf_runs base elf mem s run0 phnum table run entry,
        λ i h l. subst (λ c. Holds c base (file_segment content base i) m) same0 (held i h l),
        λ x (near, far). clear x far ∙ (elim near [ inl l ↦ below x l | inr l ↦ above x l ]),
        same ∙ same0,
      )
