-- ===== src/Disk.antt =====
-- The disk driver, kernel/kernel/disk.c, which bootloader/boot.c has a copy of. The drive is not part
-- of the program: it is the parameter `Drive`, with the rules of its ports that the driver relies on.
pub mod Sector
pub mod Blocks
pub mod Saving
pub mod Load
pub mod Image
pub mod Program
pub mod Elf
use Prim.Native.Nat.{bit_and, bit_or}
use oslab_nju.Prelude.{
  ℕ, zero, suc, ◌+◌, ◌*◌, ◌/◌, ◌%◌, ◌^◌, ◌≤◌, ◌<◌, ◌≡◌, Bool, true, false, List, [], ◌∷◌, Run, ok,
  spin, ◌>>=◌, ◌>>◌, assert, ltb, ◌==◌, if◌then◌else◌, get_or, length,
}
use oslab_nju.Prelude.Word.{add32, sub32}
use oslab_nju.Text.{Bytes, store_byte}

abbrev pub sect_size : ℕ
sect_size = 512

-- Byte `j` of a word, the lowest first, and the word of four bytes.
unfoldable pub byte_of : ℕ → ℕ → ℕ
byte_of w j =
    if j == 0
    then w % 0x100
    else if j == 1
    then w / 0x100 % 0x100
    else if j == 2
    then w / 0x1_0000 % 0x100
    else w / 0x100_0000 % 0x100

-- `*(int *)a = w` and `*(uint32_t *)a`.
unfoldable pub store_word : Bytes → ℕ → ℕ → Bytes
store_word mem a w =
    store_byte
      (store_byte (store_byte (store_byte mem a (byte_of w 0)) (add32 a 1) (byte_of w 1))
        (add32 a 2) (byte_of w 2))
      (add32 a 3) (byte_of w 3)

unfoldable pub load_word : Bytes → ℕ → ℕ
load_word mem a =
    mem a + 0x100 * mem (add32 a 1) + 0x1_0000 * mem (add32 a 2) + 0x100_0000 * mem (add32 a 3)

-- One round for each sector that the bytes may lie in, and one to see the end.
abbrev pub sectors_for : ℕ → ℕ
sectors_for cont = cont / sect_size + 3

-- A drive, with what its ports do: `in_byte` and the others are the machine's instructions.
pub record Ports : Type 1 where
  pub State : Type 0
  pub in_byte : ℕ → State → ℕ × State
  pub out_byte : ℕ → ℕ → State → State
  pub in_long : ℕ → State → ℕ × State
  pub out_long : ℕ → ℕ → State → State

module _ (p : Ports) where
  open p use {State, in_byte, out_byte, in_long, out_long}

  abbrev pub Transfer : Type 0
  Transfer = Bytes × State

  -- `waitDisk`: the status port is read until the drive is ready, `fuel` times at most.
  unfoldable pub wait_disk : ℕ → State → Run State
  wait_disk zero s = spin
  wait_disk (suc fuel) s =
      let (status, s') = in_byte 0x1f7 s in
      let again = wait_disk fuel s' in if bit_and status 0xc0 == 0x40 then ok s' else again

  -- The six `outByte` that select a sector and give a command.
  unfoldable pub select : ℕ → ℕ → State → State
  select command offset s = out_byte 0x1f7 command (
      out_byte 0x1f6 (bit_or (offset / 2 ^ 24) 0xe0 % 256) (
        out_byte 0x1f5 (offset / 2 ^ 16 % 256) (
          out_byte 0x1f4 (offset / 2 ^ 8 % 256)
            (out_byte 0x1f3 (offset % 256) (out_byte 0x1f2 1 s)))))

  -- `for (i = ...) ((int *)dst)[i] = inLong(0x1F0)`, for `k` rounds.
  unfoldable pub read_words : ℕ → ℕ → ℕ → Bytes → State → Transfer
  read_words zero i dst mem s = (mem, s)
  read_words (suc k) i dst mem s =
      let (w, s') = in_long 0x1f0 s in
      read_words k (i + 1) dst (store_word mem (add32 dst (4 * i)) w) s'

  -- `readSect`.
  unfoldable pub read_sect : ℕ → ℕ → ℕ → Bytes → State → Run Transfer
  read_sect fuel dst offset mem s = do
    s ← wait_disk fuel s
    s ← wait_disk fuel (select 0x20 offset s)
    ok (read_words 128 0 dst mem s)

  -- The loop of `readBytes`; an address is a 32-bit number.
  unfoldable pub read_sects : ℕ → ℕ → ℕ → ℕ → ℕ → Bytes → State → Run Transfer
  read_sects fuel zero addr addr_end section mem s = spin
  read_sects fuel (suc k) addr addr_end section mem s = elim (ltb addr addr_end) [
    | false ↦ ok (mem, s)
    | true ↦ do
      (mem, s) ← read_sect fuel addr section mem s
      read_sects fuel k (add32 addr sect_size) addr_end (section + 1) mem s
  ]

  -- `readBytes(addr, diskoff, cont)`, with `diskoff` not negative.
  unfoldable pub read_bytes : ℕ → ℕ → ℕ → ℕ → Bytes → State → Run Transfer
  read_bytes fuel addr diskoff cont mem s =
      read_sects fuel (sectors_for cont) (sub32 addr (diskoff % sect_size)) (add32 addr cont)
        (diskoff / sect_size) mem s

  unfoldable pub write_words : ℕ → ℕ → ℕ → Bytes → State → State
  write_words zero i src mem s = s
  write_words (suc k) i src mem s =
      write_words k (i + 1) src mem (out_long 0x1f0 (load_word mem (add32 src (4 * i))) s)

  -- `writeSect`.
  unfoldable pub write_sect : ℕ → ℕ → ℕ → Bytes → State → Run State
  write_sect fuel src offset mem s = do
    s ← wait_disk fuel s
    s ← wait_disk fuel (select 0x30 offset s)
    ok (write_words 128 0 src mem s)

  unfoldable pub write_sects : ℕ → ℕ → ℕ → ℕ → ℕ → Bytes → State → Run State
  write_sects fuel zero addr addr_end section mem s = spin
  write_sects fuel (suc k) addr addr_end section mem s = elim (ltb addr addr_end) [
    | false ↦ ok s
    | true ↦ do
      s ← write_sect fuel addr section mem s
      write_sects fuel k (add32 addr sect_size) addr_end (section + 1) mem s
  ]

  -- `writeBytes(addr, diskoff, cont)`: only whole sectors from the start of one on.
  unfoldable pub write_bytes : ℕ → ℕ → ℕ → ℕ → Bytes → State → Run State
  write_bytes fuel addr diskoff cont mem s = do
    assert (diskoff % sect_size == 0)
    write_sects fuel (sectors_for cont) addr (add32 addr cont) (diskoff / sect_size) mem s
