-- ===== src/Disk/Blocks.antt =====
-- Many bytes: what `readBytes` and `writeBytes` do.
use oslab_nju.Prelude.{
  ℕ, zero, suc, ◌+◌, ◌-◌, ◌*◌, ◌/◌, ◌%◌, ◌^◌, ◌≤◌, ◌<◌, ◌≡◌, refl, ap, ◌∙◌, true, false, ◌&&◌, ok,
  ltb, leb, if◌then◌else◌, arith, Bool-cases, inl, inr,
}
use oslab_nju.Prelude.Word.{add32, sub32}
use oslab_nju.Text.{Bytes}
use oslab_nju.Disk.{Ports, byte_of, read_sects, read_bytes, sectors_for}
use oslab_nju.Disk.Sector.{Drive, patched, read_sect_lem}

-- The byte of a disk at an offset.
abbrev pub disk_byte : (ℕ → ℕ → ℕ) → ℕ → ℕ
disk_byte content off = byte_of (content (off / 512) (off % 512 / 4)) (off % 4)

-- Memory with `r` sectors from `section` on put in at `addr`.
abbrev pub loaded : ℕ → ℕ → ℕ → (ℕ → ℕ → ℕ) → Bytes → Bytes
loaded r addr section content mem x =
    if leb addr x && ltb x (addr + 512 * r)
    then disk_byte content (512 * section + (x - addr))
    else mem x

loaded-suc :
    (r addr section x : ℕ) (content : ℕ → ℕ → ℕ) (mem m : Bytes)
    → m x ≡ patched 128 0 addr (content section) mem x
    → loaded r (addr + 512) (section + 1) content m x ≡ loaded (suc r) addr section content mem x
loaded-suc r addr section x content mem m e = elim (Bool-cases (leb addr x && ltb x (addr + 512))) [
  | inl h ↦
      let number : (512 * section + (x - addr)) / 512 ≡ section = ground arith in
      let word : (512 * section + (x - addr)) % 512 / 4 ≡ (x - addr) / 4 = ground arith in
      let byte : (512 * section + (x - addr)) % 4 ≡ (x - addr) % 4 = omega arith in
      let inside : (leb addr x && ltb x (addr + 512 * suc r)) ≡ true = ground arith in
      let before : (leb (addr + 512) x && ltb x (addr + 512 + 512 * r)) ≡ false = ground arith in
      let sector : (leb (addr + 4 * 0) x && ltb x (addr + 4 * (0 + 128))) ≡ true = ground arith in
      rw (e, inside, before, sector, number, word, byte) refl
  | inr h ↦
      let out : (leb (addr + 4 * 0) x && ltb x (addr + 4 * (0 + 128))) ≡ false = ground arith in
      let same : m x ≡ mem x = e ∙ rw out refl in
      elim (Bool-cases (leb (addr + 512) x && ltb x (addr + 512 + 512 * r))) [
        | inl q ↦
            let inside : (leb addr x && ltb x (addr + 512 * suc r)) ≡ true = ground arith in
            let off : 512 * (section + 1) + (x - (addr + 512)) ≡ 512 * section + (x - addr) =
              ground arith in
            rw (q, inside, off) refl
        | inr q ↦
            let outside : (leb addr x && ltb x (addr + 512 * suc r)) ≡ false = ground arith in
            rw (q, outside) same
      ]
]

module _ {p : Ports} (d : Drive p) where
  read_sects_lem :
      (r k addr addr_end section : ℕ) (mem : Bytes) (s : p.State)
      → r < k
      → addr_end ≤ addr + 512 * r
      → addr + 512 * r < addr_end + 512
      → addr + 512 * r < 2 ^ 32
      → section + r < 2 ^ 28
      → (m : Bytes) × (s' : p.State) × (read_sects p d.patience k addr addr_end section mem s
          ≡ ok (m, s'))
        × ((x : ℕ) → m x ≡ loaded r addr section (d.content s) mem x)
        × (d.content s' ≡ d.content s)
  unfolding read_sects
  read_sects_lem r zero addr addr_end section mem s h a b c e = absurd (omega arith)
  read_sects_lem zero (suc k) addr addr_end section mem s h a b c e =
      let over : ltb addr addr_end ≡ false = ground arith in
      (mem, s, rw (read_sects, over) refl, λ x. ground arith, refl)
  read_sects_lem (suc r) (suc k) addr addr_end section mem s h a b c e =
      let more : ltb addr addr_end ≡ true = ground arith in
      let (m1, s1, run1, mem1, same1) =
        read_sect_lem d addr section mem s (omega arith) (omega arith) in
      let (m, s', run, mem', same) =
        read_sects_lem r k (addr + 512) addr_end (section + 1) m1 s1 (omega arith) (omega arith)
          (omega arith) (omega arith) (omega arith) in
      let next : add32 addr 512 ≡ addr + 512 = omega arith in
      (
        m,
        s',
        rw (read_sects, more, run1, next) run,
        λ x.
            mem' x
            ∙ ap (λ q. loaded r (addr + 512) (section + 1) q m1 x) same1
            ∙ loaded-suc r addr section x (d.content s) mem m1 (mem1 x),
        same ∙ same1,
      )

  -- How many sectors the loop goes over.
  abbrev rounds_for : ℕ → ℕ → ℕ
  rounds_for over cont = (over + cont + 511) / 512

  -- `readBytes` gets the bytes of the disk from `diskoff` on, whatever part of a sector that is, and
  -- always returns. It overwrites what lies within one sector's length around them, and nothing else.
  pub read_bytes_lem :
      (addr diskoff cont : ℕ) (mem : Bytes) (s : p.State)
      → diskoff % 512 ≤ addr
      → addr + cont + 512 < 2 ^ 32
      → diskoff < 2 ^ 31
      → (m : Bytes) × (s' : p.State) × (read_bytes p d.patience addr diskoff cont mem s
          ≡ ok (m, s'))
        × ((j : ℕ) → j < cont → m (addr + j) ≡ disk_byte (d.content s) (diskoff + j))
        × ((x : ℕ) → x + 512 < addr → m x ≡ mem x)
        × ((x : ℕ) → addr + cont + 512 ≤ x → m x ≡ mem x)
        × (d.content s' ≡ d.content s)
  unfolding read_bytes
  read_bytes_lem addr diskoff cont mem s h a b =
      let over : ℕ = diskoff % 512 in
      let from : ℕ = addr - over in
      let r : ℕ = rounds_for over cont in
      let (m, s', run, mem', same) =
        read_sects_lem r (sectors_for cont) from (addr + cont) (diskoff / 512) mem s (omega arith)
          (omega arith) (omega arith) (omega arith) (omega arith) in
      let back : sub32 addr (diskoff % 512) ≡ from = omega arith in
      let end : add32 addr cont ≡ addr + cont = omega arith in
      (
        m,
        s',
        rw (back, end) run,
        λ j i.
            let inside : (leb from (addr + j) && ltb (addr + j) (from + 512 * r)) ≡ true =
              ground arith in
            let off : 512 * (diskoff / 512) + (addr + j - from) ≡ diskoff + j = omega arith in
            mem' (addr + j) ∙ rw (inside, off) refl,
        λ x i.
            let out : (leb from x && ltb x (from + 512 * r)) ≡ false = ground arith in
            mem' x ∙ rw out refl,
        λ x i.
            let out : (leb from x && ltb x (from + 512 * r)) ≡ false = ground arith in
            mem' x ∙ rw out refl,
        same,
      )
