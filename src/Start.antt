-- ===== src/Start.antt =====
-- The start of the kernel: `kEntry` (kernel/main.c), and what it calls of kernel/kernel/serial.c,
-- kernel/kernel/i8259.c, kernel/kernel/i8253.c, kernel/kernel/kvm.c and kernel/kernel/fs.c. The messages of the loaders
-- are left out, and what is loaded into the processor's registers is in Tables.Registers.
pub mod Entry
pub mod Serial
use Prim.Native.Nat.{bit_and}
use oslab_nju.Prelude.{
  ℕ, zero, suc, ◌+◌, ◌*◌, ◌/◌, ◌%◌, Bool, true, false, not, List, [], ◌∷◌, Run, ok, spin, ◌>>=◌,
  ◌>>◌, assert, ltb, ◌==◌, if◌then◌else◌,
}
use oslab_nju.Text.{Bytes, take_bytes}
use oslab_nju.Disk.{Ports, load_word}
use oslab_nju.Disk.Load.{load_elf, load_fs, fs_addr, user_offset_in_disk}
use oslab_nju.Tables.Gates.{Gates, Entries, init_idt}
use oslab_nju.Tables.Segments.{Segs, init_gdt}
use oslab_nju.Fs.{Fs, Inode, nr_inode, max_filename_len}
use oslab_nju.Console.Screen.{screen_clear}
use oslab_nju.Proc.{pcb_at}
use oslab_nju.Sched.{Procs}
use oslab_nju.Kernel.{Kernel, with_procs}
use oslab_nju.Kernel.Boot.{init_pcb, prepare_pcb}

-- The string in an array of `k` characters.
abbrev pub characters_at : ℕ → ℕ → Bytes → List ℕ
characters_at zero a mem = []
characters_at (suc k) a mem =
    let rest = characters_at k (a + 1) mem in if mem a == 0 then [] else mem a ∷ rest

-- `sizeof(superblock_t)` and `sizeof(inodeblock_t)`.
abbrev pub superblock_size : ℕ
superblock_size = 60

abbrev pub inodeblock_size : ℕ
inodeblock_size = 32804

-- The inode that lies at an address.
abbrev pub inode_at : Bytes → ℕ → Inode
inode_at mem a = record {
  kind = load_word mem a;
  size = load_word mem (a + 4);
  filename = characters_at max_filename_len (a + 8) mem;
  block = λ j. mem (a + 36 + j);
}

-- `initFS`: the pointers to the super block and the inodes are set. They name what lies in memory, so
-- this view is one of the memory as it is when it is first used. What it writes to a super block of its
-- own nothing reads.
unfoldable pub init_fs : Bytes → Fs → Fs
init_fs mem fs = record fs {
  inode_map = take_bytes nr_inode (fs_addr + 28) mem;
  inuse_inode_num = load_word mem (fs_addr + 24);
  inodes = λ i. inode_at mem (fs_addr + superblock_size + inodeblock_size * i);
}

-- `initScreen`.
unfoldable pub init_screen : Kernel → Kernel
init_screen k = record k {
  input = record k.input { buf_in = 0; buf_out = 0 };
  screen = screen_clear k.screen;
}

abbrev pub serial_port : ℕ
serial_port = 0x3f8

abbrev pub port_pic_master : ℕ
port_pic_master = 0x20

abbrev pub port_pic_slave : ℕ
port_pic_slave = 0xa0

abbrev pub timer_port : ℕ
timer_port = 0x40

-- `FREQ_8253 / HZ`.
abbrev pub counter : ℕ
counter = 1193182 / 100

module _ (p : Ports) where
  open p use {State, in_byte, out_byte}

  unfoldable pub out_bytes : List (ℕ × ℕ) → State → State
  out_bytes [] s = s
  out_bytes ((port, v) ∷ rest) s = out_bytes rest (out_byte port v s)

  unfoldable pub init_serial : State → State
  init_serial = out_bytes (
      (serial_port + 1, 0)
      ∷ (serial_port + 3, 0x80)
      ∷ (serial_port + 0, 0x01)
      ∷ (serial_port + 1, 0x00)
      ∷ (serial_port + 3, 0x03)
      ∷ (serial_port + 2, 0xc7)
      ∷ (serial_port + 4, 0x0b)
      ∷ [])

  unfoldable pub init_intr : State → State
  init_intr = out_bytes (
      (port_pic_master + 1, 0xff)
      ∷ (port_pic_slave + 1, 0xff)
      ∷ (port_pic_master, 0x11)
      ∷ (port_pic_master + 1, 32)
      ∷ (port_pic_master + 1, 4)
      ∷ (port_pic_master + 1, 0x3)
      ∷ (port_pic_slave, 0x11)
      ∷ (port_pic_slave + 1, 32 + 8)
      ∷ (port_pic_slave + 1, 2)
      ∷ (port_pic_slave + 1, 0x3)
      ∷ (port_pic_master, 0x68)
      ∷ (port_pic_master, 0x0a)
      ∷ (port_pic_slave, 0x68)
      ∷ (port_pic_slave, 0x0a)
      ∷ [])

  unfoldable pub init_timer : State → Run State
  init_timer s = do
    assert (ltb counter 65536)
    ok (
        out_bytes
          ((timer_port + 3, 0x34)
            ∷ (timer_port + 0, counter % 256)
            ∷ (timer_port + 0, counter / 256)
            ∷ [])
          s)

  pub record Machine : Type 0 where
    pub kernel : Kernel
    pub gates : Gates
    pub segs : Segs
    pub devices : p.State

  -- `initSeg`, with the address of `tss`: the descriptors, and the kernel stack of `pcb[p_num]`.
  unfoldable pub init_seg : ℕ → Machine → Machine
  init_seg tss m =
      let s = m.kernel.procs in
      record m {
        segs = init_gdt tss m.segs;
        kernel = record m.kernel { procs = record s { esp0 = pcb_at s.p_num } };
      }

  -- `loadUMain`, with the address of `buffer`.
  unfoldable pub load_u_main : ℕ → ℕ → Machine → Run Machine
  load_u_main fuel buffer m = do
    (entry, mem, s) ← load_elf p fuel user_offset_in_disk buffer m.kernel.mem m.devices
    k ← with_procs (prepare_pcb entry) (record m.kernel { mem = mem })
    ok (record m { kernel = k; devices = s })

  -- `kEntry` up to the loop in which `idle` waits, with the addresses of the entry points, `tss` and
  -- `buffer`. The pointers of `initFS` are set before `loadUMain`, which does not use them and may write
  -- to where they point, so what they show is read off the memory at the end.
  unfoldable pub k_entry : ℕ → Entries → ℕ → ℕ → Machine → Run Machine
  k_entry fuel entries tss buffer m = do
    s ← init_timer (init_intr (init_serial m.devices))
    let m = init_seg tss (record m { gates = init_idt entries m.gates; devices = s })
    k ← init_pcb m.kernel
    let k = init_screen k
    (mem, s) ← load_fs p fuel k.mem m.devices
    m ← load_u_main fuel buffer (record m { kernel = record k { mem = mem }; devices = s })
    ok (record m { kernel = record m.kernel { fs = init_fs m.kernel.mem m.kernel.fs } })
