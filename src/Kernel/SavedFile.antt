-- ===== src/Kernel/SavedFile.antt =====
-- What a process writes into a file, it reads back through the same descriptor.
use mathlib.Core.Path.{subst}
use oslab_nju.Prelude.{
  ℕ, zero, suc, ◌+◌, ◌^◌, ◌≤◌, ◌<◌, ◌≡◌, refl, ap, ◌∙◌, false, List, [], if◌then◌else◌, Run, ok,
  ◌>>=◌, get_or, length, arith, ◌==◌, ne→==,
}
use oslab_nju.Prelude.Word.{add32, slt}
use oslab_nju.Text.{Bytes, take_bytes}
use oslab_nju.Proc.Chain.{load-ok}
use oslab_nju.Sem.{user_address}
use oslab_nju.Fs.{block_size}
use oslab_nju.Fs.Change.{read_f}
use oslab_nju.Fs.Content.{load_inode-ok, read_f-write_f}
use oslab_nju.Kernel.{Kernel, SysFile, load_current, store_current, return_value}
use oslab_nju.Kernel.Files.{
  at_address, put_bytes, store_file, write_aux, read_file, read_aux, lseek_aux, stdin, stdout,
}
use oslab_nju.Kernel.OpenFile.{
  entry, Opened, descriptor-ok, entry-ok, moved-Opened, lseek_aux_lem, with_value,
  with_value-Opened, write_file_lem,
}
use oslab_nju.Kernel.Terminal.{put_bytes-at}

length-take_bytes : (n i : ℕ) (b : Bytes) → length (take_bytes n i b) ≡ n
unfolding take_bytes
length-take_bytes zero i b = refl
length-take_bytes (suc n) i b = omega (arith, length-take_bytes n (i + 1) b)

get_or-take_bytes : (n i j : ℕ) (b : Bytes) → j < n → get_or (take_bytes n i b) j 0 ≡ b (i + j)
unfolding take_bytes
get_or-take_bytes zero i j b h = absurd (omega arith)
get_or-take_bytes (suc n) i zero b h = ground arith
get_or-take_bytes (suc n) i (suc j) b h =
    let here : i + 1 + j ≡ i + suc j = omega arith in
    subst (λ x. get_or (take_bytes n (i + 1) b) j 0 ≡ b x) here
      (get_or-take_bytes n (i + 1) j b (omega arith))

read_file_lem :
    {k : Kernel} {fd : ℕ} {f : SysFile} (a len : ℕ) (bs : List ℕ)
    → Opened k fd f
    → read_f f.inode_index len f.offset k.fs ≡ ok bs
    → (after : Kernel) × (read_file fd a len k ≡ ok after) × (after.mem ≡ put_bytes bs a 0 k.mem)
unfolding read_file return_value load_current store_current
read_file_lem {k} {fd} {f} a len bs o e = (
  (let size = (k.fs.inodes f.inode_index).size in
      let end = add32 f.offset len in
      store_file (entry fd k) (record f { offset = if slt size end then size else end })
        (record (with_value (length bs) k.fs k) { mem = put_bytes bs a 0 k.mem })),
  rw
      (
        descriptor-ok o,
        entry-ok o,
        e,
        load-ok k.procs.pcb k.procs.current o.object,
        load_inode-ok k.fs f.inode_index o.inode,
      )
      refl,
  refl,
)

-- A process writes `len` bytes, goes back to where it began, and reads them into another place.
abbrev pub save_and_load : ℕ → ℕ → ℕ → ℕ → ℕ → Kernel → Run Kernel
save_and_load fd buf len start to k = do
  k ← write_aux fd buf len k
  k ← lseek_aux fd start 0 k
  read_aux fd to len [] k

-- What a process writes to a file at its offset, it reads back after it has gone back there: write,
-- lseek and read return, and the bytes are those of the buffer that was written. The descriptor is
-- open and none of the terminal's two, the file ends within its 32 KB, and the place that is read into
-- within the memory.
pub save_and_load_lem :
    {k : Kernel} {fd : ℕ} {f : SysFile} (buf len to : ℕ)
    → Opened k fd f
    → 1 < fd
    → len + f.offset < block_size
    → (k.fs.inodes f.inode_index).size ≤ block_size
    → user_address (k.procs.pcb k.procs.current).pid to + len ≤ 2 ^ 32
    → (after : Kernel) × (save_and_load fd buf len f.offset to k ≡ ok after)
      × ((j : ℕ)
          → j < len
          → after.mem (user_address (k.procs.pcb k.procs.current).pid to + j)
            ≡ k.mem (add32 (user_address (k.procs.pcb k.procs.current).pid buf) j))
unfolding write_aux read_aux load_current
save_and_load_lem {k} {fd} {f} buf len to o two fits small room =
    let pid = (k.procs.pcb k.procs.current).pid in
    let b : Bytes = at_address k.mem (user_address pid buf) in
    let (fs, written, back) = read_f-write_f k.fs f.inode_index b len f.offset o.inode fits small in
    let (same, o1) = with_value-Opened len fs o in
    let k0 : Kernel = with_value len fs k in
    let f1 : SysFile = record f { offset = add32 f.offset len } in
    let k1 : Kernel = store_file (entry fd k0) f1 k0 in
    let o2 : Opened k1 fd f1 = moved-Opened o1 (add32 f.offset len) in
    let k2 : Kernel = store_file (entry fd k1) f k1 in
    let o3 : Opened k2 fd f = moved-Opened o2 f.offset in
    let (after, read, mem) = read_file_lem (user_address pid to) len (take_bytes len 0 b) o3 back in
    let not_out : (fd == stdout) ≡ false = ne→== fd stdout (λ e. omega arith) in
    let not_in : (fd == stdin) ≡ false = ne→== fd stdin (λ e. omega arith) in
    let pid_same : (k2.procs.pcb k2.procs.current).pid ≡ pid = ground arith in
    (
      after,
      rw
          (
            load-ok k.procs.pcb k.procs.current o.object,
            not_out,
            write_file_lem b len fs o written,
            lseek_aux_lem o2 f.offset,
            load-ok k2.procs.pcb k2.procs.current o3.object,
            not_in,
            pid_same,
          )
          read,
      λ j h. rw mem (
          put_bytes-at (take_bytes len 0 b) (user_address pid to) k.mem j
            (rw (length-take_bytes len 0 b) room) (rw (length-take_bytes len 0 b) h)
          ∙ get_or-take_bytes len 0 j b h
          ∙ ap b (omega arith)),
    )
