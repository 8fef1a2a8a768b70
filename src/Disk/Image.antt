-- ===== src/Disk/Image.antt =====
-- What the loaders leave in memory.
use oslab_nju.Prelude.{
  ℕ, zero, suc, ◌+◌, ◌-◌, ◌^◌, ◌≤◌, ◌<◌, ◌≡◌, ◌⊎◌, refl, true, ◌&&◌, ok, ltb, leb, ◌==◌,
  if◌then◌else◌, arith, inl, inr, eq→==, Bool-cases,
}
use oslab_nju.Prelude.Word.{add32}
use oslab_nju.Text.{Bytes, store_byte}
use oslab_nju.Disk.{Ports}
use oslab_nju.Disk.Sector.{Drive}
use oslab_nju.Disk.Blocks.{disk_byte, read_bytes_lem}
use oslab_nju.Disk.Saving.{AreBytes, read_bytes-write_bytes}
use oslab_nju.Disk.Load.{
  ProgramHeader, pt_load, fill, mem_set, load_segment, load_fs, save_fs, fs_addr, fs_size,
  fs_offset_in_disk,
}

fill_lem :
    (k a bt : ℕ) (mem : Bytes) (x : ℕ)
    → fill k a bt mem x ≡ (if leb a x && ltb x (a + k) then bt else mem x)
unfolding fill
fill_lem zero a bt mem x = ground arith
fill_lem (suc k) a bt mem x = ground (arith, fill_lem k (a + 1) bt (store_byte mem a bt) x)

mem_set_lem :
    (beg end bt : ℕ) (mem : Bytes) (x : ℕ)
    → mem_set beg end bt mem x ≡ (if leb beg x && ltb x end then bt else mem x)
unfolding mem_set
mem_set_lem beg end bt mem x = ground (arith, fill_lem (end - beg) beg bt mem x)

module _ {p : Ports} (d : Drive p) where
  -- Loading a segment always returns: the file's bytes stand at its address, zeros fill it up to its
  -- size in memory, and nothing else changes but up to 512 bytes on either side.
  pub load_segment_lem :
      (base : ℕ) (ph : ProgramHeader) (mem : Bytes) (s : p.State)
      → ph.kind ≡ pt_load
      → ph.filesz ≤ ph.memsz
      → 512 ≤ ph.paddr
      → ph.paddr + ph.memsz + 512 < 2 ^ 32
      → base + ph.off < 2 ^ 31
      → (m : Bytes) × (s' : p.State) × (load_segment p d.patience base ph mem s ≡ ok (m, s'))
        × ((j : ℕ) → j < ph.filesz → m (ph.paddr + j) ≡ disk_byte (d.content s) (base + ph.off + j))
        × ((j : ℕ) → ph.filesz ≤ j → j < ph.memsz → m (ph.paddr + j) ≡ 0)
        × ((x : ℕ) → (x + 512 < ph.paddr) ⊎ (ph.paddr + ph.memsz + 512 ≤ x) → m x ≡ mem x)
        × (d.content s' ≡ d.content s)
  unfolding load_segment
  load_segment_lem base ph mem s load fits low high small =
      let (m, s', run, got, below, above, same) =
        read_bytes_lem d ph.paddr (base + ph.off) ph.filesz mem s (omega arith) (omega arith)
          small in
      let at : add32 base ph.off ≡ base + ph.off = omega arith in
      let file_end : add32 ph.paddr ph.filesz ≡ ph.paddr + ph.filesz = omega arith in
      let mem_end : add32 ph.paddr ph.memsz ≡ ph.paddr + ph.memsz = omega arith in
      let is_load : (ph.kind == pt_load) ≡ true = eq→== ph.kind pt_load load in
      (
        mem_set (ph.paddr + ph.filesz) (ph.paddr + ph.memsz) 0 m,
        s',
        rw (is_load, at, run, file_end, mem_end) refl,
        λ j h. ground (
          arith,
          got j h,
          mem_set_lem (ph.paddr + ph.filesz) (ph.paddr + ph.memsz) 0 m (ph.paddr + j),
        ),
        λ j h i.
            ground
              (arith, mem_set_lem (ph.paddr + ph.filesz) (ph.paddr + ph.memsz) 0 m (ph.paddr + j)),
        λ x o. elim (Bool-cases (leb (ph.paddr + ph.filesz) x)) [
          | inl e ↦
              ground
                (arith, above x, mem_set_lem (ph.paddr + ph.filesz) (ph.paddr + ph.memsz) 0 m x)
          | inr e ↦ ground (
            arith,
            below x,
            above x,
            mem_set_lem (ph.paddr + ph.filesz) (ph.paddr + ph.memsz) 0 m x,
          )
        ],
        same,
      )

  -- What `writeBack` saves of the file system in memory, when the kernel starts again `loadFS` puts
  -- back, whatever memory holds then; both return.
  pub load_fs-save_fs :
      (mem mem' : Bytes) (s : p.State)
      → AreBytes mem
      → (s1 : p.State) × (save_fs p d.patience mem s ≡ ok s1)
        × ((m : Bytes) × (s2 : p.State) × (load_fs p d.patience mem' s1 ≡ ok (m, s2))
            × ((j : ℕ) → j < fs_size → m (fs_addr + j) ≡ mem (fs_addr + j)))
  unfolding save_fs load_fs
  load_fs-save_fs mem mem' s m =
      read_bytes-write_bytes d fs_addr fs_addr fs_offset_in_disk fs_size mem
        (mem_set fs_addr (fs_addr + fs_size) 0 mem') s m refl (omega arith) (omega arith)
        (omega arith)
