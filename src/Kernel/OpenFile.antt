-- ===== src/Kernel/OpenFile.antt =====
-- An open file: what `write`, `lseek` and `read` do through a descriptor.
use oslab_nju.Prelude.{
  ℕ, ◌<◌, ◌≡◌, refl, true, ok, ltb, get_or, length, length-set, get_or-set_self, arith,
}
use oslab_nju.Prelude.Word.{add32}
use oslab_nju.Text.{Bytes}
use oslab_nju.Proc.{IsObject, store}
use oslab_nju.Proc.Chain.{load-ok}
use oslab_nju.Fs.{Fs, nr_inode}
use oslab_nju.Fs.Change.{write_f}
use oslab_nju.Kernel.{Kernel, SysFile, load_current, store_current, load_file, return_value}
use oslab_nju.Kernel.Files.{descriptor, store_file, write_file, seek_target, lseek_aux}
use oslab_nju.Kernel.Process.Share.{no_file, load_file-ok}

-- The entry of the table that a descriptor of the current process names.
abbrev pub entry : ℕ → Kernel → ℕ
entry fd k = get_or (k.procs.pcb k.procs.current).filepointer fd 0

-- The descriptor `fd` of the current process is open on the entry `f`, which names an inode.
pub record Opened (k : Kernel) (fd : ℕ) (f : SysFile) : Type 0 where
  pub object : IsObject k.procs.current
  pub in_process : fd < length (k.procs.pcb k.procs.current).filepointer
  pub in_table : entry fd k < length k.files
  pub names : get_or k.files (entry fd k) no_file ≡ f
  pub inode : f.inode_index < nr_inode

module _ {k : Kernel} {fd : ℕ} {f : SysFile} (o : Opened k fd f) where
  pub descriptor-ok : descriptor fd k ≡ ok (entry fd k)
  unfolding descriptor load_current
  descriptor-ok =
      let inside : ltb fd (length (k.procs.pcb k.procs.current).filepointer) ≡ true =
        ground (arith, o.in_process) in
      rw (load-ok k.procs.pcb k.procs.current o.object, inside) refl

  pub entry-ok : load_file (entry fd k) k.files ≡ ok f
  entry-ok = rw (load_file-ok (entry fd k) k.files o.in_table, o.names) refl

  pub moved-Opened :
      (to : ℕ)
      → Opened (store_file (entry fd k) (record f { offset = to }) k) fd (record f { offset = to })
  moved-Opened to = record {
    object = o.object;
    in_process = o.in_process;
    in_table = rw (length-set k.files (entry fd k) (record f { offset = to })) o.in_table;
    names = get_or-set_self k.files (entry fd k) (record f { offset = to }) no_file o.in_table;
    inode = o.inode;
  }

  pub lseek_aux_lem :
      (to : ℕ) → lseek_aux fd to 0 k ≡ ok (store_file (entry fd k) (record f { offset = to }) k)
  unfolding lseek_aux seek_target
  lseek_aux_lem to = rw (descriptor-ok, entry-ok) refl

-- The state with a result in the register of the current process, and another file system.
abbrev pub with_value : ℕ → Fs → Kernel → Kernel
with_value v fs k =
    let c = k.procs.pcb k.procs.current in
    record k {
      fs = fs;
      procs = record k.procs {
        pcb = store k.procs.pcb k.procs.current (record c { tf = record c.tf { eax = v } });
      };
    }

pub with_value-Opened :
    {k : Kernel} {fd : ℕ} {f : SysFile} (v : ℕ) (fs : Fs)
    → Opened k fd f
    → (entry fd (with_value v fs k) ≡ entry fd k) × Opened (with_value v fs k) fd f
with_value-Opened {k} {fd} v fs o = (
  same,
  record {
    object = o.object;
    in_process = ground (arith, o.in_process);
    in_table = rw same o.in_table;
    names = rw same o.names;
    inode = o.inode;
  },
)
  where
    same : entry fd (with_value v fs k) ≡ entry fd k
    same = ground arith

pub write_file_lem :
    {k : Kernel} {fd : ℕ} {f : SysFile} (buf : Bytes) (len : ℕ) (fs : Fs)
    → Opened k fd f
    → write_f f.inode_index buf len f.offset k.fs ≡ ok (len, fs)
    → let k1 = with_value len fs k in
      write_file fd buf len k
      ≡ ok (store_file (entry fd k1) (record f { offset = add32 f.offset len }) k1)
unfolding write_file return_value load_current store_current
write_file_lem {k} {fd} {f} buf len fs o e =
    rw
      (
        descriptor-ok o,
        entry-ok o,
        e,
        load-ok k.procs.pcb k.procs.current o.object,
        (with_value-Opened len fs o).0,
      )
      refl
