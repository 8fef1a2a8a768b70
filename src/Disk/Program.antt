-- ===== src/Disk/Program.antt =====
-- A whole program: the loop of loadUMain and bootMain over the program headers.
use oslab_nju.Prelude.{
  ℕ, zero, suc, ◌+◌, ◌*◌, ◌^◌, ◌≤◌, ◌<◌, ◌≡◌, ◌⊎◌, refl, ap, ◌∙◌, Bool-cases, ok, ◌==◌, arith, inl,
  inr, ==→eq,
}
use mathlib.Core.Path.{subst}
use oslab_nju.Prelude.Word.{add32}
use oslab_nju.Text.{Bytes}
use oslab_nju.Disk.{Ports, load_word}
use oslab_nju.Disk.Sector.{Drive}
use oslab_nju.Disk.Blocks.{disk_byte}
use oslab_nju.Disk.Load.{ProgramHeader, program_header, pt_load, load_segment, load_segments}
use oslab_nju.Disk.Image.{load_segment_lem}

-- What loading a segment may write to: the segment, and 512 bytes on either side.
abbrev pub IsClear : ProgramHeader → ℕ → Type 0
IsClear h x = (x + 512 < h.paddr) ⊎ (h.paddr + h.memsz + 512 ≤ x)

-- A header that is no segment to load, or one whose segment fits into the memory and on the disk.
pub record IsSegment (base : ℕ) (h : ProgramHeader) : Type 0 where
  pub fits : h.filesz ≤ h.memsz
  pub low : 512 ≤ h.paddr
  pub high : h.paddr + h.memsz + 512 < 2 ^ 32
  pub small : base + h.off < 2 ^ 31

-- The bytes of a segment: those of the file, and zeros.
abbrev pub Holds : (ℕ → ℕ → ℕ) → ℕ → ProgramHeader → Bytes → Type 0
Holds content base h m =
    ((j : ℕ) → j < h.filesz → m (h.paddr + j) ≡ disk_byte content (base + h.off + j))
    × ((j : ℕ) → h.filesz ≤ j → j < h.memsz → m (h.paddr + j) ≡ 0)

-- The `k` headers from the address `ph` on are `hs`; the segments of those to load lie apart from each other
-- and from the headers.
pub record IsProgram (base k ph : ℕ) (hs : ℕ → ProgramHeader) : Type 0 where
  pub segment : (i : ℕ) → i < k → (hs i).kind ≡ pt_load → IsSegment base (hs i)
  pub apart :
      (i n : ℕ)
      → i < n
      → n < k
      → (hs i).kind ≡ pt_load
      → (hs n).kind ≡ pt_load
      → (j : ℕ) → j < (hs i).memsz
      → IsClear (hs n) ((hs i).paddr + j)
  pub table :
      (i : ℕ)
      → i < k
      → (hs i).kind ≡ pt_load
      → (x : ℕ) → ph ≤ x
      → x < ph + 32 * k
      → IsClear (hs i) x
  pub room : ph + 32 * k < 2 ^ 32

pub word_moved :
    (b m : Bytes) (c a : ℕ)
    → c + 4 ≤ 2 ^ 32
    → a + 4 ≤ 2 ^ 32
    → ((j : ℕ) → j < 4 → m (a + j) ≡ b (c + j))
    → load_word m a ≡ load_word b c
unfolding load_word
word_moved b m c a h k same =
    let s0 : m a ≡ b c = ap m (omega arith) ∙ same 0 (omega arith) ∙ ap b (omega arith) in
    let s1 : m (add32 a 1) ≡ b (add32 c 1) =
      ap m (omega arith) ∙ same 1 (omega arith) ∙ ap b (omega arith) in
    let s2 : m (add32 a 2) ≡ b (add32 c 2) =
      ap m (omega arith) ∙ same 2 (omega arith) ∙ ap b (omega arith) in
    let s3 : m (add32 a 3) ≡ b (add32 c 3) =
      ap m (omega arith) ∙ same 3 (omega arith) ∙ ap b (omega arith) in
    rw (s0, s1, s2, s3) refl

-- A word at an offset of two places that hold the same `n` bytes.
pub field_moved :
    (n o : ℕ) (b m : Bytes) (c a : ℕ)
    → c + n ≤ 2 ^ 32
    → a + n ≤ 2 ^ 32
    → o + 4 ≤ n
    → ((j : ℕ) → j < n → m (a + j) ≡ b (c + j))
    → load_word m (add32 a o) ≡ load_word b (add32 c o)
field_moved n o b m c a h k l same =
    word_moved b m (add32 c o) (add32 a o) (omega arith) (omega arith)
      (λ j q. ap m (omega arith) ∙ same (o + j) (omega arith) ∙ ap b (omega arith))

pub header_moved :
    (b m : Bytes) (c a : ℕ)
    → c + 32 ≤ 2 ^ 32
    → a + 32 ≤ 2 ^ 32
    → ((j : ℕ) → j < 32 → m (a + j) ≡ b (c + j))
    → program_header m a ≡ program_header b c
unfolding program_header
header_moved b m c a h k same =
    let field : (o : ℕ) → o + 4 ≤ 32 → load_word m (add32 a o) ≡ load_word b (add32 c o) =
      λ o l. field_moved 32 o b m c a h k l same in
    rw
      (
        word_moved b m c a (omega arith) (omega arith) (λ j q. same j (omega arith)),
        field 4 (omega arith),
        field 8 (omega arith),
        field 12 (omega arith),
        field 16 (omega arith),
        field 20 (omega arith),
        field 24 (omega arith),
        field 28 (omega arith),
      )
      refl

tail_of :
    (k base ph : ℕ) (hs : ℕ → ProgramHeader)
    → IsProgram base (suc k) ph hs
    → IsProgram base k (ph + 32) (λ i. hs (suc i))
tail_of k base ph hs g = record {
  segment = λ i h. g.segment (suc i) (omega arith);
  apart = λ i n h b. g.apart (suc i) (suc n) (omega arith) (omega arith);
  table = λ i h l x a b. g.table (suc i) (omega arith) l x (omega arith) (omega arith);
  room = omega (arith, g.room);
}

module _ {p : Ports} (d : Drive p) where
  -- One round, whatever the header is.
  round_lem :
      (base : ℕ) (h : ProgramHeader) (mem : Bytes) (s : p.State)
      → (h.kind ≡ pt_load → IsSegment base h)
      → (m : Bytes) × (s' : p.State) × (load_segment p d.patience base h mem s ≡ ok (m, s'))
        × (h.kind ≡ pt_load → Holds (d.content s) base h m)
        × ((x : ℕ) → (h.kind ≡ pt_load → IsClear h x) → m x ≡ mem x)
        × (d.content s' ≡ d.content s)
  unfolding load_segment
  round_lem base h mem s good = elim (Bool-cases (h.kind == pt_load)) [
    | inl e ↦
        let load = ==→eq h.kind pt_load e in
        let g = good load in
        let (m, s', run, file, zeros, clear, same) =
          load_segment_lem d base h mem s load g.fits g.low g.high g.small in
        (m, s', run, λ l. (file, zeros), λ x c. clear x (c load), same)
    | inr e ↦ (mem, s, rw e refl, λ l. absurd (ground arith), λ x c. refl, refl)
  ]

  pub load_segments_lem :
      (k base ph : ℕ) (hs : ℕ → ProgramHeader) (mem : Bytes) (s : p.State)
      → IsProgram base k ph hs
      → ((i : ℕ) → i < k → program_header mem (ph + 32 * i) ≡ hs i)
      → (m : Bytes) × (s' : p.State) × (load_segments p d.patience base k ph mem s ≡ ok (m, s'))
        × ((i : ℕ) → i < k → (hs i).kind ≡ pt_load → Holds (d.content s) base (hs i) m)
        × ((x : ℕ) → ((i : ℕ) → i < k → (hs i).kind ≡ pt_load → IsClear (hs i) x) → m x ≡ mem x)
        × (d.content s' ≡ d.content s)
  unfolding load_segments
  load_segments_lem zero base ph hs mem s g e =
      (mem, s, refl, λ i h. absurd (omega arith), λ x c. refl, refl)
  load_segments_lem (suc k) base ph hs mem s g e =
      let (m1, s1, run1, held1, clear1, same1) =
        round_lem base (hs 0) mem s (λ l. g.segment 0 (omega arith) l) in
      let (m, s', run, held, clear, same) =
        load_segments_lem k base (ph + 32) (λ i. hs (suc i)) m1 s1 (tail_of k base ph hs g)
          (λ i h.
            let at : ph + 32 + 32 * i ≡ ph + 32 * suc i = omega arith in
            header_moved mem m1 (ph + 32 + 32 * i) (ph + 32 + 32 * i) (omega (arith, g.room))
              (omega (arith, g.room))
              (λ j b.
                clear1 (ph + 32 + 32 * i + j)
                  (λ l. g.table 0 (omega arith) l _ (omega arith) (omega arith)))
            ∙ ap (program_header mem) at
            ∙ e (suc i) (omega arith)) in
      let first : program_header mem ph ≡ hs 0 =
        ap (program_header mem) (omega arith) ∙ e 0 (omega arith) in
      let next : add32 ph 32 ≡ ph + 32 = omega (arith, g.room) in
      (
        m,
        s',
        rw first (rw run1 (ap (λ a. load_segments p d.patience base k a m1 s1) next ∙ run)),
        λ i.
            elim i as (λ i. i < suc k → (hs i).kind ≡ pt_load → Holds (d.content s) base (hs i) m) [
              | zero ↦ λ h l.
                  let kept = λ (j : ℕ) (b : j < (hs 0).memsz).
                    clear ((hs 0).paddr + j)
                      (λ n c t. g.apart 0 (suc n) (omega arith) (omega arith) l t j b) in
                  let (file, zeros) = held1 l in
                  (
                    λ j b. kept j (omega (arith, (g.segment 0 h l).fits)) ∙ file j b,
                    λ j a b. kept j b ∙ zeros j a b,
                  )
              | suc n ↦
                  λ h l. subst (λ c. Holds c base (hs (suc n)) m) same1 (held n (omega arith) l)
            ],
        λ x c. clear x (λ i h. c (suc i) (omega arith)) ∙ clear1 x (c 0 (omega arith)),
        same ∙ same1,
      )
