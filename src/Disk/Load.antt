-- ===== src/Disk/Load.antt =====
-- Loading ELF files: `mem_set` and the loop of `loadUMain` (kernel/kernel/kvm.c), `bootMain`
-- (bootloader/boot.c), `loadFS` and `writeBack`, and the headers of kernel/include/x86/io.h, which lie in memory.
use oslab_nju.Prelude.{ℕ, zero, suc, ◌+◌, ◌-◌, ◌*◌, List, Run, ok, ◌>>=◌, ◌==◌, if◌then◌else◌}
use oslab_nju.Prelude.Word.{add32}
use oslab_nju.Text.{Bytes, store_byte, take_bytes}
use oslab_nju.Disk.{Ports, Transfer, load_word, read_bytes, write_bytes}

-- `unsigned short`.
abbrev pub load_half : Bytes → ℕ → ℕ
load_half mem a = mem a + 0x100 * mem (add32 a 1)

pub record ElfHeader : Type 0 where
  pub magic : ℕ
  pub elf : List ℕ
  pub kind : ℕ
  pub machine : ℕ
  pub version : ℕ
  pub entry : ℕ
  pub phoff : ℕ
  pub shoff : ℕ
  pub flags : ℕ
  pub ehsize : ℕ
  pub phentsize : ℕ
  pub phnum : ℕ
  pub shentsize : ℕ
  pub shnum : ℕ
  pub shstrndx : ℕ

unfoldable pub elf_header : Bytes → ℕ → ElfHeader
elf_header mem a = record {
  magic = load_word mem a;
  elf = take_bytes 12 (a + 4) mem;
  kind = load_half mem (add32 a 16);
  machine = load_half mem (add32 a 18);
  version = load_word mem (add32 a 20);
  entry = load_word mem (add32 a 24);
  phoff = load_word mem (add32 a 28);
  shoff = load_word mem (add32 a 32);
  flags = load_word mem (add32 a 36);
  ehsize = load_half mem (add32 a 40);
  phentsize = load_half mem (add32 a 42);
  phnum = load_half mem (add32 a 44);
  shentsize = load_half mem (add32 a 46);
  shnum = load_half mem (add32 a 48);
  shstrndx = load_half mem (add32 a 50);
}

pub record ProgramHeader : Type 0 where
  pub kind : ℕ
  pub off : ℕ
  pub vaddr : ℕ
  pub paddr : ℕ
  pub filesz : ℕ
  pub memsz : ℕ
  pub flags : ℕ
  pub align : ℕ

unfoldable pub program_header : Bytes → ℕ → ProgramHeader
program_header mem a = record {
  kind = load_word mem a;
  off = load_word mem (add32 a 4);
  vaddr = load_word mem (add32 a 8);
  paddr = load_word mem (add32 a 12);
  filesz = load_word mem (add32 a 16);
  memsz = load_word mem (add32 a 20);
  flags = load_word mem (add32 a 24);
  align = load_word mem (add32 a 28);
}

abbrev pub pt_load : ℕ
pt_load = 1

-- `mem_set(beg, end, bt)`.
unfoldable pub fill : ℕ → ℕ → ℕ → Bytes → Bytes
fill zero a bt mem = mem
fill (suc k) a bt mem = fill k (a + 1) bt (store_byte mem a bt)

unfoldable pub mem_set : ℕ → ℕ → ℕ → Bytes → Bytes
mem_set beg end bt mem = fill (end - beg) beg bt mem

abbrev pub user_offset_in_disk : ℕ
user_offset_in_disk = 512 + 102400

abbrev pub fs_offset_in_disk : ℕ
fs_offset_in_disk = 512 + 102400 + 10240

abbrev pub kernel_offset_in_disk : ℕ
kernel_offset_in_disk = 512

abbrev pub fs_addr : ℕ
fs_addr = 0x100_0000

abbrev pub fs_size : ℕ
fs_size = 0x20_0000

module _ (p : Ports) where
  -- One segment of the file that lies at `base` on the disk.
  unfoldable pub load_segment : ℕ → ℕ → ProgramHeader → Bytes → p.State → Run (Transfer p)
  load_segment fuel base ph mem s =
      if ph.kind == pt_load
      then (do
        (mem, s) ← read_bytes p fuel ph.paddr (add32 base ph.off) ph.filesz mem s
        ok (mem_set (add32 ph.paddr ph.filesz) (add32 ph.paddr ph.memsz) 0 mem, s))
      else ok (mem, s)

  -- The loop over `k` program headers from the address `ph` on.
  unfoldable pub load_segments : ℕ → ℕ → ℕ → ℕ → Bytes → p.State → Run (Transfer p)
  load_segments fuel base zero ph mem s = ok (mem, s)
  load_segments fuel base (suc k) ph mem s = do
    (mem, s) ← load_segment fuel base (program_header mem ph) mem s
    load_segments fuel base k (add32 ph 32) mem s

  -- The file at `base`, whose first 4096 bytes go to `elf`: the entry point is read at the end.
  unfoldable pub load_elf : ℕ → ℕ → ℕ → Bytes → p.State → Run (ℕ × Bytes × p.State)
  load_elf fuel base elf mem s = do
    (mem, s) ← read_bytes p fuel elf base 4096 mem s
    let h = elf_header mem elf
    (mem, s) ← load_segments fuel base h.phnum (add32 elf h.phoff) mem s
    ok ((elf_header mem elf).entry, mem, s)

  -- `bootMain`, up to the jump to the entry point.
  unfoldable pub boot_main : ℕ → Bytes → p.State → Run (ℕ × Bytes × p.State)
  boot_main fuel mem s = load_elf fuel kernel_offset_in_disk 0x8000 mem s

  -- `loadFS`, but for its message.
  unfoldable pub load_fs : ℕ → Bytes → p.State → Run (Transfer p)
  load_fs fuel mem s =
      read_bytes p fuel fs_addr fs_offset_in_disk fs_size
        (mem_set fs_addr (fs_addr + fs_size) 0 mem) s

  -- `writeBack`, on the bytes of the file system in memory.
  unfoldable pub save_fs : ℕ → Bytes → p.State → Run p.State
  save_fs fuel mem s = write_bytes p fuel fs_addr fs_offset_in_disk fs_size mem s
