-- ===== src/Tests/Programs.antt =====
-- A program with one segment on the disk.
use oslab_nju.Prelude.{
  ℕ, ◌+◌, ◌*◌, ◌<◌, ◌≡◌, refl, sym, [], ◌∷◌, ok, ◌==◌, if◌then◌else◌, arith, inl, inr, ◌≤◌,
}
use mathlib.Core.Path.{subst}
use oslab_nju.Text.{Bytes}
use oslab_nju.Disk.{load_word, byte_of}
use oslab_nju.Disk.Load.{elf_header, program_header, pt_load, load_elf}
use oslab_nju.Disk.Program.{IsClear, IsSegment, Holds}
use oslab_nju.Disk.Elf.{IsElf, IsUntouched, file_header, file_segment, load_elf_lem}
use oslab_nju.Start.{Machine, k_entry}
use oslab_nju.Start.Entry.{IsQuiet, IsLoaded, IsBeside, AreFiles, k_entry_lem}
use oslab_nju.Proc.{idle, runnable_list}
use oslab_nju.Kernel.Runs.{IsSound}
use oslab_nju.Tests.Machine.{entries, gates, segs}
use oslab_nju.Tests.World.{sleeping}
use oslab_nju.Tests.Procs.{kernel}
use oslab_nju.Tests.Drive.{Platter, ports, drive, disk, sevens}

-- The words of the file's first sector: entry, offset and number of the program headers, and one header.
abbrev first_sector : ℕ → ℕ
first_sector i =
    if i == 6
    then 0x20_0040
    else if i == 7
    then 52
    else if i == 11
    then 1
    else if i == 13
    then 1
    else if i == 14
    then 0x1000
    else if i == 16
    then 0x20_0000
    else if i == 17
    then 700
    else if i == 18
    then 1000
    else 0

abbrev content : ℕ → ℕ → ℕ
content n i = if n == 201 then first_sector i else 128 * n + i

abbrev program_disk : Platter
program_disk = record disk { sectors = content }

one_header : (file_header content 102912).phnum ≡ 1
unfolding elf_header byte_of
one_header = refl

first-IsSegment : IsSegment 102912 (file_segment content 102912 0)
unfolding elf_header program_header load_word byte_of
first-IsSegment = record {
  fits = omega arith;
  low = omega arith;
  high = omega arith;
  small = omega arith;
}

first-IsClear : (x : ℕ) → x < 0x1F_FE00 → IsClear (file_segment content 102912 0) x
unfolding elf_header program_header load_word byte_of
first-IsClear x h = inl (omega arith)

first-IsClear_above : (x : ℕ) → 0x20_1000 ≤ x → IsClear (file_segment content 102912 0) x
unfolding elf_header program_header load_word byte_of
first-IsClear_above x h = inr (omega arith)

content-IsElf : IsElf content 102912 0x8000
unfolding elf_header load_word byte_of
content-IsElf = record {
  low = omega arith;
  high = omega arith;
  small = omega arith;
  table = omega arith;
  program = record {
    segment = λ i h l.
        subst (λ n. IsSegment 102912 (file_segment content 102912 n)) (sym (only i h))
          first-IsSegment;
    apart = λ i n h b. absurd (omega arith);
    table = λ i h l x a b.
        subst (λ n. IsClear (file_segment content 102912 n) x) (sym (only i h))
          (first-IsClear x (omega arith));
    room = omega arith;
  };
  kept = λ i h l j b.
      subst (λ n. IsClear (file_segment content 102912 n) (0x8000 + j)) (sym (only i h))
        (first-IsClear (0x8000 + j) (omega arith));
}
  where
    only : (i : ℕ) → i < 1 → i ≡ 0
    only i h = omega arith

program-IsBeside : IsBeside content 0x8000
unfolding elf_header load_word byte_of
program-IsBeside j b = (
  inr (omega arith),
  λ i h l.
      subst (λ n. IsClear (file_segment content 102912 n) (0x100_0000 + j)) (sym (only i h))
        (first-IsClear_above (0x100_0000 + j) (omega arith)),
)
  where
    only : (i : ℕ) → i < 1 → i ≡ 0
    only i h = omega arith

load_elf_example :
    (m : Bytes) × (s' : Platter) × (load_elf ports 1 102912 0x8000 sevens program_disk
      ≡ ok ((file_header content 102912).entry, m, s'))
    × ((i : ℕ)
        → i < (file_header content 102912).phnum
        → (file_segment content 102912 i).kind ≡ pt_load
        → Holds content 102912 (file_segment content 102912 i) m)
    × ((x : ℕ) → IsUntouched content 102912 0x8000 x → m x ≡ sevens x)
    × (s'.sectors ≡ content)
load_elf_example = load_elf_lem drive 102912 0x8000 sevens program_disk content-IsElf

drive-IsQuiet : IsQuiet drive
drive-IsQuiet port v s h = ground arith

abbrev machine : Machine ports
machine = record { kernel = kernel sleeping; gates = gates; segs = segs; devices = program_disk }

k_entry_example :
    (after : Machine ports) × (k_entry ports 1 entries 0x10_4000 0x8000 machine ≡ ok after)
    × ((s : IsSound after.kernel) × (s.queues runnable_list ≡ 7 ∷ []))
    × (after.kernel.procs.current ≡ idle)
    × ((after.kernel.procs.pcb 7).tf.eip ≡ (file_header content 102912).entry)
    × IsLoaded content after.kernel.mem
    × AreFiles after.kernel.fs content
k_entry_example =
    k_entry_lem drive entries 0x10_4000 0x8000 machine drive-IsQuiet refl content-IsElf
      program-IsBeside
