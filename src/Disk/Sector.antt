-- ===== src/Disk/Sector.antt =====
-- One sector: what `readSect` and `writeSect` do, from the rules of the drive.
use Prim.Native.Nat.{bit_and, bit_or}
use oslab_nju.Prelude.{
  ℕ, zero, suc, ◌+◌, ◌-◌, ◌*◌, ◌/◌, ◌%◌, ◌^◌, ◌≤◌, ◌<◌, ◌≡◌, refl, ap, ◌∙◌, sym, length-append,
  eq→==, true, ◌&&◌, List, [], ◌∷◌, ◌++◌, ok, ltb, leb, ◌==◌, if◌then◌else◌, get_or, length, arith,
  Bool-cases, inl, inr,
}
use oslab_nju.Prelude.Word.{add32}
use oslab_nju.Text.{Bytes}
use oslab_nju.Disk.{
  Ports, byte_of, store_word, load_word, wait_disk, select, read_words, read_sect, write_words,
  write_sect,
}

-- `k` words of a sector from word `i` on.
abbrev pub words : ℕ → ℕ → (ℕ → ℕ) → List ℕ
words zero i sector = []
words (suc k) i sector = sector i ∷ words k (i + 1) sector

-- What the driver relies on: the drive becomes ready, a command to read makes the sector's 128 words
-- come out of the data port, and one to write makes the next 128 words that are sent the sector's.
-- The sector's number is in the registers 0x1F3 to 0x1F6, of the last the lower four bits.
pub record Drive (p : Ports) : Type 0 where
  pub content : p.State → ℕ → ℕ → ℕ
  pub busy : p.State → ℕ
  pub pending : p.State → List ℕ
  pub target : p.State → ℕ
  pub received : p.State → List ℕ
  pub patience : ℕ
  pub busy_bound : (s : p.State) → busy s < patience
  pub poll_ready : (s : p.State) → (bit_and (p.in_byte 0x1f7 s).0 0xc0 == 0x40) ≡ (busy s == 0)
  pub poll_busy : (s : p.State) → busy (p.in_byte 0x1f7 s).1 ≡ busy s - 1
  pub poll_keeps :
      (s : p.State)
      → let s' = (p.in_byte 0x1f7 s).1 in
        (content s' ≡ content s)
        × (pending s' ≡ pending s)
        × (target s' ≡ target s)
        × (received s' ≡ received s)
  pub read_command :
      (s : p.State) (a b c d : ℕ)
      → a < 256
      → b < 256
      → c < 256
      → d < 16
      → let t = p.out_byte 0x1f7 0x20 (
          p.out_byte 0x1f6 (bit_or d 0xe0 % 256) (
            p.out_byte 0x1f5 c (p.out_byte 0x1f4 b (p.out_byte 0x1f3 a (p.out_byte 0x1f2 1 s))))) in
        (content t ≡ content s)
        × (pending t ≡ words 128 0 (content s (a + 0x100 * b + 0x1_0000 * c + 0x100_0000 * d)))
  pub write_command :
      (s : p.State) (a b c d : ℕ)
      → a < 256
      → b < 256
      → c < 256
      → d < 16
      → let t = p.out_byte 0x1f7 0x30 (
          p.out_byte 0x1f6 (bit_or d 0xe0 % 256) (
            p.out_byte 0x1f5 c (p.out_byte 0x1f4 b (p.out_byte 0x1f3 a (p.out_byte 0x1f2 1 s))))) in
        (content t ≡ content s)
        × (target t ≡ a + 0x100 * b + 0x1_0000 * c + 0x100_0000 * d)
        × (received t ≡ [])
  pub word_out :
      (s : p.State) (w : ℕ) (ws : List ℕ)
      → pending s ≡ w ∷ ws
      → ((p.in_long 0x1f0 s).0 ≡ w)
        × (pending (p.in_long 0x1f0 s).1 ≡ ws)
        × (content (p.in_long 0x1f0 s).1 ≡ content s)
  pub word_in :
      (s : p.State) (w : ℕ)
      → length (received s) < 127
      → let t = p.out_long 0x1f0 w s in
        (content t ≡ content s) × (target t ≡ target s) × (received t ≡ received s ++ (w ∷ []))
  pub last_word_in :
      (s : p.State) (w n i : ℕ)
      → length (received s) ≡ 127
      → i < 128
      → content (p.out_long 0x1f0 w s) n i
        ≡ (if n == target s then get_or (received s ++ (w ∷ [])) i 0 else content s n i)

pub store_word_lem :
    (mem : Bytes) (a w x : ℕ)
    → a + 4 ≤ 2 ^ 32
    → store_word mem a w x ≡ (if leb a x && ltb x (a + 4) then byte_of w (x - a) else mem x)
unfolding store_word byte_of
store_word_lem mem a w x h = ground arith

-- Memory with `k` words of a sector from its word `i` on put in at `dst + 4 * i`.
abbrev pub patched : ℕ → ℕ → ℕ → (ℕ → ℕ) → Bytes → Bytes
patched k i dst sector mem x =
    if leb (dst + 4 * i) x && ltb x (dst + 4 * (i + k))
    then byte_of (sector ((x - dst) / 4)) ((x - dst) % 4)
    else mem x

patched-suc :
    (k i dst x : ℕ) (sector : ℕ → ℕ) (mem : Bytes)
    → dst + 4 * (i + suc k) ≤ 2 ^ 32
    → patched k (i + 1) dst sector (store_word mem (add32 dst (4 * i)) (sector i)) x
      ≡ patched (suc k) i dst sector mem x
patched-suc k i dst x sector mem h =
    let a : ℕ = dst + 4 * i in
    let here : add32 dst (4 * i) ≡ a = omega arith in
    elim (Bool-cases (leb a x && ltb x (a + 4))) [
      | inl e ↦
          let word : (x - dst) / 4 ≡ i = ground arith in
          let byte : (x - dst) % 4 ≡ x - a = ground arith in
          rw (here, store_word_lem mem a (sector i) x (omega arith), e, word, byte) (ground arith)
      | inr e ↦ rw (here, store_word_lem mem a (sector i) x (omega arith), e) (ground arith)
    ]

get_or-append_one :
    (xs : List ℕ) (w j : ℕ)
    → get_or (xs ++ (w ∷ [])) j 0
      ≡ (if ltb j (length xs) then get_or xs j 0 else if j == length xs then w else 0)
get_or-append_one [] w zero = refl
get_or-append_one [] w (suc j) = ground arith
get_or-append_one (x ∷ xs) w zero = ground arith
get_or-append_one (x ∷ xs) w (suc j) = ground (arith, get_or-append_one xs w j)

-- The words `src[0]` to `src[i]` in order, from those before the last.
got_next :
    (src i : ℕ) (mem : Bytes) (xs : List ℕ)
    → length xs ≡ i
    → ((j : ℕ) → j < i → get_or xs j 0 ≡ load_word mem (add32 src (4 * j)))
    → (j : ℕ) → j < i + 1
    → get_or (xs ++ (load_word mem (add32 src (4 * i)) ∷ [])) j 0
      ≡ load_word mem (add32 src (4 * j))
got_next src i mem xs l e j h = elim (Bool-cases (ltb j i)) [
  | inl b ↦
      rw (get_or-append_one xs (load_word mem (add32 src (4 * i))) j, l, b) (e j (ground arith))
  | inr b ↦
      let same : j ≡ i = ground arith in
      let last : (j == i) ≡ true = eq→== j i same in
      rw (get_or-append_one xs (load_word mem (add32 src (4 * i))) j, l, b, last)
        (ap (λ x. load_word mem (add32 src (4 * x))) (sym same))
]

module _ {p : Ports} (d : Drive p) where
  wait_disk_lem :
      (fuel : ℕ) (s : p.State)
      → d.busy s < fuel
      → (s' : p.State) × (wait_disk p fuel s ≡ ok s')
        × (d.content s' ≡ d.content s)
        × (d.pending s' ≡ d.pending s)
        × (d.target s' ≡ d.target s)
        × (d.received s' ≡ d.received s)
  unfolding wait_disk
  wait_disk_lem zero s h = absurd (omega arith)
  wait_disk_lem (suc fuel) s h =
      let (c, q, t, r) = d.poll_keeps s in
      elim (Bool-cases (d.busy s == 0)) [
        | inl e ↦ ((p.in_byte 0x1f7 s).1, rw (d.poll_ready s, e) refl, c, q, t, r)
        | inr e ↦
            let (s', run, c', q', t', r') =
              wait_disk_lem fuel (p.in_byte 0x1f7 s).1 (ground (arith, d.poll_busy s)) in
            (s', rw (d.poll_ready s, e) run, c' ∙ c, q' ∙ q, t' ∙ t, r' ∙ r)
      ]

  read_words_lem :
      (k i dst : ℕ) (sector : ℕ → ℕ) (mem : Bytes) (s : p.State)
      → dst + 4 * (i + k) ≤ 2 ^ 32
      → d.pending s ≡ words k i sector
      → ((x : ℕ) → (read_words p k i dst mem s).0 x ≡ patched k i dst sector mem x)
        × (d.content (read_words p k i dst mem s).1 ≡ d.content s)
  unfolding read_words
  read_words_lem zero i dst sector mem s h e = (λ x. ground arith, refl)
  read_words_lem (suc k) i dst sector mem s h e =
      let (w, rest, same) = d.word_out s (sector i) (words k (i + 1) sector) e in
      let (m, c) =
        read_words_lem k (i + 1) dst sector
          (store_word mem (add32 dst (4 * i)) (p.in_long 0x1f0 s).0) (p.in_long 0x1f0 s).1
          (omega arith) rest in
      (
        λ x.
            m x
            ∙ ap (λ v. patched k (i + 1) dst sector (store_word mem (add32 dst (4 * i)) v) x) w
            ∙ patched-suc k i dst x sector mem h,
        c ∙ same,
      )

  pub read_sect_lem :
      (dst offset : ℕ) (mem : Bytes) (s : p.State)
      → dst + 512 ≤ 2 ^ 32
      → offset < 2 ^ 28
      → (m : Bytes) × (s' : p.State) × (read_sect p d.patience dst offset mem s ≡ ok (m, s'))
        × ((x : ℕ) → m x ≡ patched 128 0 dst (d.content s offset) mem x)
        × (d.content s' ≡ d.content s)
  unfolding read_sect select
  read_sect_lem dst offset mem s h b =
      let (s1, run1, c1, _, _, _) = wait_disk_lem d.patience s (d.busy_bound s) in
      let (c2, q2) =
        d.read_command s1 (offset % 256) (offset / 2 ^ 8 % 256) (offset / 2 ^ 16 % 256)
          (offset / 2 ^ 24) (omega arith) (omega arith) (omega arith) (omega arith) in
      let s2 : p.State = select p 0x20 offset s1 in
      let (s3, run3, c3, q3, _, _) = wait_disk_lem d.patience s2 (d.busy_bound s2) in
      let number : offset % 256
            + 0x100 * (offset / 2 ^ 8 % 256)
            + 0x1_0000 * (offset / 2 ^ 16 % 256)
            + 0x100_0000 * (offset / 2 ^ 24)
          ≡ offset =
        omega arith in
      let same : d.content s3 ≡ d.content s = c3 ∙ c2 ∙ c1 in
      let coming : d.pending s3 ≡ words 128 0 (d.content s offset) =
        q3 ∙ q2 ∙ ap (words 128 0) (ap (d.content s1) number ∙ ap (λ c. c offset) c1) in
      let (m, c4) = read_words_lem 128 0 dst (d.content s offset) mem s3 (omega arith) coming in
      (_, _, rw (run1, run3) refl, m, c4 ∙ same)

  write_words_lem :
      (k i src : ℕ) (mem : Bytes) (s : p.State)
      → i + suc k ≡ 128
      → length (d.received s) ≡ i
      → ((j : ℕ) → j < i → get_or (d.received s) j 0 ≡ load_word mem (add32 src (4 * j)))
      → (n j : ℕ) → j < 128
      → d.content (write_words p (suc k) i src mem s) n j
        ≡ (if n == d.target s then load_word mem (add32 src (4 * j)) else d.content s n j)
  unfolding write_words
  write_words_lem zero i src mem s h l e n j b =
      let w : ℕ = load_word mem (add32 src (4 * i)) in
      d.last_word_in s w n j (omega arith) b
      ∙ ap (λ v. if n == d.target s then v else d.content s n j)
          (got_next src i mem (d.received s) l e j (omega arith))
  write_words_lem (suc k) i src mem s h l e n j b =
      let w : ℕ = load_word mem (add32 src (4 * i)) in
      let (c, t, r) = d.word_in s w (omega arith) in
      write_words_lem k (i + 1) src mem (p.out_long 0x1f0 w s) (omega arith)
        (rw r (omega (arith, length-append (d.received s) (w ∷ []))))
        (λ j' h'. rw r (got_next src i mem (d.received s) l e j' h')) n j b
      ∙ (rw (t, c) refl)

  -- `writeSect` puts the 128 words from `src` on into the sector, and changes no other.
  pub write_sect_lem :
      (src offset : ℕ) (mem : Bytes) (s : p.State)
      → offset < 2 ^ 28
      → (s' : p.State) × (write_sect p d.patience src offset mem s ≡ ok s')
        × ((n j : ℕ)
            → j < 128
            → d.content s' n j
              ≡ (if n == offset then load_word mem (add32 src (4 * j)) else d.content s n j))
  unfolding write_sect select
  write_sect_lem src offset mem s b =
      let (s1, run1, c1, _, _, _) = wait_disk_lem d.patience s (d.busy_bound s) in
      let (c2, t2, r2) =
        d.write_command s1 (offset % 256) (offset / 2 ^ 8 % 256) (offset / 2 ^ 16 % 256)
          (offset / 2 ^ 24) (omega arith) (omega arith) (omega arith) (omega arith) in
      let s2 : p.State = select p 0x30 offset s1 in
      let (s3, run3, c3, _, t3, r3) = wait_disk_lem d.patience s2 (d.busy_bound s2) in
      let number : offset % 256
            + 0x100 * (offset / 2 ^ 8 % 256)
            + 0x1_0000 * (offset / 2 ^ 16 % 256)
            + 0x100_0000 * (offset / 2 ^ 24)
          ≡ offset =
        omega arith in
      let to : d.target s3 ≡ offset = t3 ∙ t2 ∙ number in
      let same : d.content s3 ≡ d.content s = c3 ∙ c2 ∙ c1 in
      let none_yet : d.received s3 ≡ [] = r3 ∙ r2 in
      (
        _,
        rw (run1, run3) refl,
        λ n j h.
            write_words_lem 127 0 src mem s3 (omega arith) (rw none_yet refl)
              (λ i l. absurd (omega arith)) n j h
            ∙ rw (to, same) refl,
      )
