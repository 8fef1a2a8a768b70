-- ===== src/Disk/Saving.antt =====
-- What `writeBytes` writes, and that `readBytes` gets it back.
use oslab_nju.Prelude.{
  ℕ, zero, suc, ◌+◌, ◌-◌, ◌*◌, ◌/◌, ◌%◌, ◌^◌, ◌≤◌, ◌<◌, ◌≡◌, ◌⊎◌, refl, ap, ◌∙◌, true, false, ◌&&◌,
  ok, ltb, leb, ◌==◌, if◌then◌else◌, arith, Bool-cases, inl, inr, eq→==, ==→eq,
}
use oslab_nju.Prelude.Word.{add32}
use oslab_nju.Text.{Bytes}
use oslab_nju.Disk.{Ports, byte_of, load_word, read_bytes, write_sects, write_bytes, sectors_for}
use oslab_nju.Disk.Sector.{Drive, write_sect_lem}
use oslab_nju.Disk.Blocks.{disk_byte, read_bytes_lem}

abbrev pub AreBytes : Bytes → Type 0
AreBytes mem = (x : ℕ) → mem x < 256

load_word_lem :
    (mem : Bytes) (a : ℕ)
    → a + 4 ≤ 2 ^ 32
    → load_word mem a
      ≡ mem (a + 0) + 0x100 * mem (a + 1) + 0x1_0000 * mem (a + 2) + 0x100_0000 * mem (a + 3)
unfolding load_word
load_word_lem mem a b =
    let zeroth : ◌≡◌ {A = ℕ} a (a + 0) = omega arith in
    let first : add32 a 1 ≡ a + 1 = omega arith in
    let second : add32 a 2 ≡ a + 2 = omega arith in
    let third : add32 a 3 ≡ a + 3 = omega arith in
    rw (first, second, third) (omega (arith, ap mem zeroth))

byte_of-load_word :
    (mem : Bytes) (a j : ℕ)
    → AreBytes mem
    → a + 4 ≤ 2 ^ 32
    → j < 4
    → byte_of (load_word mem a) j ≡ mem (a + j)
unfolding byte_of
byte_of-load_word mem a zero h b i =
    omega (arith, load_word_lem mem a b, h (a + 0), h (a + 1), h (a + 2), h (a + 3))
byte_of-load_word mem a (suc zero) h b i =
    omega (arith, load_word_lem mem a b, h (a + 0), h (a + 1), h (a + 2), h (a + 3))
byte_of-load_word mem a (suc (suc zero)) h b i =
    omega (arith, load_word_lem mem a b, h (a + 0), h (a + 1), h (a + 2), h (a + 3))
byte_of-load_word mem a (suc (suc (suc zero))) h b i =
    omega (arith, load_word_lem mem a b, h (a + 0), h (a + 1), h (a + 2), h (a + 3))
byte_of-load_word mem a (suc (suc (suc (suc j)))) h b i = absurd (omega arith)

-- The disk with `r` sectors from `section` on taken from memory at `addr`.
abbrev stored : ℕ → ℕ → ℕ → Bytes → (ℕ → ℕ → ℕ) → ℕ → ℕ → ℕ
stored r addr section mem content n j =
    if leb section n && ltb n (section + r)
    then load_word mem (add32 (addr + 512 * (n - section)) (4 * j))
    else content n j

stored-suc :
    (r addr section n j : ℕ) (mem : Bytes) (content c : ℕ → ℕ → ℕ)
    → c n j ≡ (if n == section then load_word mem (add32 addr (4 * j)) else content n j)
    → stored r (addr + 512) (section + 1) mem c n j ≡ stored (suc r) addr section mem content n j
stored-suc r addr section n j mem content c e = elim (Bool-cases (n == section)) [
  | inl h ↦
      let same : n ≡ section = ==→eq n section h in
      let later : (leb (section + 1) n && ltb n (section + 1 + r)) ≡ false = ground arith in
      let inside : (leb section n && ltb n (section + suc r)) ≡ true = ground arith in
      let here : addr + 512 * (n - section) ≡ addr = omega arith in
      rw (later, inside, here) (e ∙ rw h refl)
  | inr h ↦ elim (Bool-cases (leb (section + 1) n && ltb n (section + 1 + r))) [
    | inl later ↦
        let inside : (leb section n && ltb n (section + suc r)) ≡ true = ground arith in
        let there : addr + 512 + 512 * (n - (section + 1)) ≡ addr + 512 * (n - section) =
          ground arith in
        rw (later, inside, there) refl
    | inr later ↦
        let outside : (leb section n && ltb n (section + suc r)) ≡ false = ground arith in
        rw (later, outside) (e ∙ rw h refl)
  ]
]

module _ {p : Ports} (d : Drive p) where
  write_sects_lem :
      (r k addr addr_end section : ℕ) (mem : Bytes) (s : p.State)
      → r < k
      → addr_end ≤ addr + 512 * r
      → addr + 512 * r < addr_end + 512
      → addr + 512 * r < 2 ^ 32
      → section + r < 2 ^ 28
      → (s' : p.State) × (write_sects p d.patience k addr addr_end section mem s ≡ ok s')
        × ((n j : ℕ) → j < 128 → d.content s' n j ≡ stored r addr section mem (d.content s) n j)
  unfolding write_sects
  write_sects_lem r zero addr addr_end section mem s h a b c e = absurd (omega arith)
  write_sects_lem zero (suc k) addr addr_end section mem s h a b c e =
      let over : ltb addr addr_end ≡ false = ground arith in
      (s, rw (write_sects, over) refl, λ n j i. ground arith)
  write_sects_lem (suc r) (suc k) addr addr_end section mem s h a b c e =
      let more : ltb addr addr_end ≡ true = ground arith in
      let (s1, run1, c1) = write_sect_lem d addr section mem s (omega arith) in
      let (s', run, c') =
        write_sects_lem r k (addr + 512) addr_end (section + 1) mem s1 (omega arith) (omega arith)
          (omega arith) (omega arith) (omega arith) in
      let next : add32 addr 512 ≡ addr + 512 = omega arith in
      (
        s',
        rw (write_sects, more, run1, next) run,
        λ n j i.
            c' n j i ∙ stored-suc r addr section n j mem (d.content s) (d.content s1) (c1 n j i),
      )

  -- `writeBytes` of bytes in memory, to the start of a sector, always returns and puts them on the disk
  -- in order. No sector changes but those that they, and what fills up the last one, go to.
  pub write_bytes_lem :
      (addr diskoff cont : ℕ) (mem : Bytes) (s : p.State)
      → AreBytes mem
      → diskoff % 512 ≡ 0
      → addr + cont + 512 < 2 ^ 32
      → diskoff < 2 ^ 31
      → (s' : p.State) × (write_bytes p d.patience addr diskoff cont mem s ≡ ok s')
        × ((j : ℕ) → j < cont → disk_byte (d.content s') (diskoff + j) ≡ mem (addr + j))
        × ((n j : ℕ)
            → j < 128
            → (n < diskoff / 512) ⊎ (diskoff + cont ≤ 512 * n)
            → d.content s' n j ≡ d.content s n j)
  unfolding write_bytes
  write_bytes_lem addr diskoff cont mem s m z a b =
      let r : ℕ = (cont + 511) / 512 in
      let (s', run, c) =
        write_sects_lem r (sectors_for cont) addr (addr + cont) (diskoff / 512) mem s (omega arith)
          (omega arith) (omega arith) (omega arith) (omega arith) in
      let aligned : (diskoff % 512 == 0) ≡ true = eq→== (diskoff % 512) 0 z in
      let end : add32 addr cont ≡ addr + cont = omega arith in
      (
        s',
        rw (aligned, end) run,
        λ j h.
            let n : ℕ = (diskoff + j) / 512 in
            let w : ℕ = (diskoff + j) % 512 / 4 in
            let at : ℕ = addr + 512 * (n - diskoff / 512) + 4 * w in
            let inside : (leb (diskoff / 512) n && ltb n (diskoff / 512 + r)) ≡ true =
              ground arith in
            let byte : at + (diskoff + j) % 4 ≡ addr + j = omega arith in
            let bytes =
              byte_of-load_word mem at ((diskoff + j) % 4) m (omega arith) (omega arith) in
            let word : add32 (addr + 512 * (n - diskoff / 512)) (4 * w) ≡ at = omega arith in
            ap (λ v. byte_of v ((diskoff + j) % 4)) (c n w (omega arith) ∙ rw (inside, word) refl)
            ∙ bytes
            ∙ ap mem byte,
        λ n j h o.
            let out : (leb (diskoff / 512) n && ltb n (diskoff / 512 + r)) ≡ false = ground arith in
            c n j h ∙ rw out refl,
      )

  -- Bytes that `writeBytes` has written to the start of a sector are those that `readBytes` gets from
  -- there, into any place in memory; both return.
  pub read_bytes-write_bytes :
      (addr to diskoff cont : ℕ) (mem mem' : Bytes) (s : p.State)
      → AreBytes mem
      → diskoff % 512 ≡ 0
      → addr + cont + 512 < 2 ^ 32
      → to + cont + 512 < 2 ^ 32
      → diskoff < 2 ^ 31
      → (s1 : p.State) × (write_bytes p d.patience addr diskoff cont mem s ≡ ok s1)
        × ((m : Bytes) × (s2 : p.State) × (read_bytes p d.patience to diskoff cont mem' s1
              ≡ ok (m, s2))
            × ((j : ℕ) → j < cont → m (to + j) ≡ mem (addr + j)))
  read_bytes-write_bytes addr to diskoff cont mem mem' s m z a t b =
      let (s1, run, there, _) = write_bytes_lem addr diskoff cont mem s m z a b in
      let (m', s2, run', got, _, _, _) =
        read_bytes_lem d to diskoff cont mem' s1 (omega arith) t b in
      (s1, run, (m', s2, run', λ j h. got j h ∙ there j h))
