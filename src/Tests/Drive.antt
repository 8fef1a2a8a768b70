-- ===== src/Tests/Drive.antt =====
-- A drive that keeps the rules, and the disk driver on it.
use Prim.Native.Nat.{bit_or}
use oslab_nju.Prelude.{
  ℕ, zero, suc, ◌+◌, ◌*◌, ◌%◌, ◌≤◌, ◌<◌, ◌≡◌, refl, Bool, true, ◌&&◌, List, [], ◌∷◌, ◌++◌, ok, ◌==◌,
  if◌then◌else◌, get_or, length, arith, ==→eq,
}
use oslab_nju.Text.{Bytes}
use oslab_nju.Disk.{Ports, read_bytes}
use oslab_nju.Disk.Sector.{Drive, words}
use oslab_nju.Disk.Blocks.{disk_byte, read_bytes_lem}
use oslab_nju.Disk.Saving.{AreBytes}
use oslab_nju.Disk.Load.{load_fs, save_fs, fs_addr, fs_size}
use oslab_nju.Disk.Image.{load_fs-save_fs}

pub record Platter : Type 0 where
  pub sectors : ℕ → ℕ → ℕ
  pub low : ℕ
  pub mid : ℕ
  pub high : ℕ
  pub top : ℕ
  pub coming : List ℕ
  pub goal : ℕ
  pub sent : List ℕ

abbrev number : Platter → ℕ
number s = s.low + 0x100 * s.mid + 0x1_0000 * s.high + 0x100_0000 * (s.top % 16)

abbrev commanded : ℕ → Platter → Platter
commanded v s =
    if v == 0x20
    then record s { coming = words 128 0 (s.sectors (number s)) }
    else record s { goal = number s; sent = [] }

abbrev port_out : ℕ → ℕ → Platter → Platter
port_out port v s =
    if port == 0x1f3
    then record s { low = v }
    else if port == 0x1f4
    then record s { mid = v }
    else if port == 0x1f5
    then record s { high = v }
    else if port == 0x1f6
    then record s { top = v }
    else if port == 0x1f7
    then commanded v s
    else s

abbrev word_taken : List ℕ → Platter → ℕ × Platter
word_taken [] s = (0, s)
word_taken (w ∷ ws) s = (w, record s { coming = ws })

abbrev word_sent : ℕ → Platter → Platter
word_sent w s =
    let all = s.sent ++ (w ∷ []) in
    record s {
      sent = all;
      sectors =
          if length s.sent == 127
          then (λ n i. if n == s.goal then get_or all i 0 else s.sectors n i)
          else s.sectors;
    }

abbrev pub ports : Ports
ports = record {
  State = Platter;
  in_byte = λ port s. (0x40, s);
  out_byte = port_out;
  in_long = λ port s. word_taken s.coming s;
  out_long = λ port w s. word_sent w s;
}

all_below : ℕ → (ℕ → Bool) → Bool
all_below zero p = true
all_below (suc n) p = p n && all_below n p

all_below-at : (n : ℕ) (p : ℕ → Bool) (x : ℕ) → all_below n p ≡ true → x < n → p x ≡ true
unfolding all_below
all_below-at zero p x h lt = absurd (omega arith)
all_below-at (suc n) p x h lt = ground (arith, all_below-at n p x)

drive_bits : all_below 16 (λ d. bit_or d 0xe0 % 256 % 16 == d) ≡ true
unfolding all_below
drive_bits = refl

pub top_bits : (d : ℕ) → d < 16 → bit_or d 0xe0 % 256 % 16 ≡ d
top_bits d h = ==→eq _ d (all_below-at 16 (λ d. bit_or d 0xe0 % 256 % 16 == d) d drive_bits h)

pub taken :
    (l : List ℕ) (s : Platter) (w : ℕ) (ws : List ℕ)
    → l ≡ w ∷ ws
    → ((word_taken l s).0 ≡ w)
      × ((word_taken l s).1.coming ≡ ws)
      × ((word_taken l s).1.sectors ≡ s.sectors)
taken [] s w ws e = absurd (ground arith)
taken (x ∷ xs) s w ws e = ground arith

pub word_kept :
    (s : Platter) (w : ℕ)
    → length s.sent < 127
    → ((word_sent w s).sectors ≡ s.sectors)
      × ((word_sent w s).goal ≡ s.goal)
      × ((word_sent w s).sent ≡ s.sent ++ (w ∷ []))
word_kept s w h = ground arith

abbrev pub drive : Drive ports
drive = record {
  content = λ s. s.sectors;
  busy = λ s. 0;
  pending = λ s. s.coming;
  target = λ s. s.goal;
  received = λ s. s.sent;
  patience = 1;
  busy_bound = λ s. omega arith;
  poll_ready = λ s. refl;
  poll_busy = λ s. refl;
  poll_keeps = λ s. (refl, refl, refl, refl);
  read_command = λ s a b c d ha hb hc hd. (refl, rw (top_bits d hd) refl);
  write_command = λ s a b c d ha hb hc hd. (refl, rw (top_bits d hd) refl, refl);
  word_out = λ s w ws e. taken s.coming s w ws e;
  word_in = λ s w h. word_kept s w h;
  last_word_in = λ s w n i h b. rw h refl;
}

abbrev pub disk : Platter
disk = record {
  sectors = λ n i. 128 * n + i;
  low = 0;
  mid = 0;
  high = 0;
  top = 0;
  coming = [];
  goal = 0;
  sent = [];
}

abbrev pub sevens : Bytes
sevens a = 7

sevens-AreBytes : AreBytes sevens
sevens-AreBytes = λ a. omega arith

read_bytes_example :
    (m : Bytes) × (s' : Platter) × (read_bytes ports 1 0x1000 700 1000 sevens disk ≡ ok (m, s'))
    × ((j : ℕ) → j < 1000 → m (0x1000 + j) ≡ disk_byte disk.sectors (700 + j))
    × ((x : ℕ) → x + 512 < 0x1000 → m x ≡ 7)
    × ((x : ℕ) → 0x1000 + 1000 + 512 ≤ x → m x ≡ 7)
    × (s'.sectors ≡ disk.sectors)
read_bytes_example =
    read_bytes_lem drive 0x1000 700 1000 sevens disk (omega arith) (omega arith) (omega arith)

load_fs-save_fs_example :
    (s1 : Platter) × (save_fs ports 1 sevens disk ≡ ok s1)
    × ((m : Bytes) × (s2 : Platter) × (load_fs ports 1 sevens s1 ≡ ok (m, s2))
        × ((j : ℕ) → j < fs_size → m (fs_addr + j) ≡ 7))
load_fs-save_fs_example = load_fs-save_fs drive sevens sevens disk sevens-AreBytes
