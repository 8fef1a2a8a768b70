-- ===== src/Fs/Content.antt =====
-- What `writeF` puts into a file, `readF` gets back.
use Prim.Native.Nat.{min}
use oslab_nju.Prelude.{
  ℕ, zero, suc, ◌+◌, ◌-◌, ◌^◌, ◌≤◌, ◌<◌, ◌≡◌, ◌≢◌, refl, ap, true, false, ◌&&◌, Run, ok, ltb, leb,
  if◌then◌else◌, arith,
}
use oslab_nju.Prelude.Word.{add32, slt}
use oslab_nju.Text.{Bytes, store_byte, take_bytes}
use oslab_nju.Fs.{Fs, Inode, nr_inode, block_size, load_inode, store_inode}
use oslab_nju.Fs.Change.{copy_in, copy_out, write_f, read_f, rounds}

pub load_inode-ok : (fs : Fs) (i : ℕ) → i < nr_inode → load_inode fs i ≡ ok (fs.inodes i)
unfolding load_inode
load_inode-ok fs i h = ground arith

-- The block with the bytes `i` to `i + k` of the buffer at `offset`.
abbrev pub spliced : ℕ → ℕ → ℕ → Bytes → Bytes → Bytes
spliced k i offset buf block x =
    if leb (offset + i) x && ltb x (offset + i + k) then buf (x - offset) else block x

copy_in_lem :
    (k i offset : ℕ) (buf block : Bytes)
    → offset + i + k ≤ block_size
    → (b : Bytes) × (copy_in k i offset buf block ≡ ok b)
      × ((x : ℕ) → b x ≡ spliced k i offset buf block x)
unfolding copy_in
copy_in_lem zero i offset buf block h = (block, refl, λ x. ground arith)
copy_in_lem (suc k) i offset buf block h =
    let (b, e, at) =
      copy_in_lem k (i + 1) offset buf (store_byte block (add32 i offset) (buf i)) (omega arith) in
    let small : add32 i offset ≡ offset + i = omega arith in
    let inside : ltb (add32 i offset) block_size ≡ true = ground arith in
    (b, rw inside e, λ x. ground (arith, at x, small, ap buf back))
  where
    back : offset + i - offset ≡ i
    back = omega arith

-- `readF` stops at the end of the file: `m` is the number of bytes that it gets.
copy_out_lem :
    (k m i offset : ℕ) (x : Inode)
    → x.size ≤ block_size
    → offset + i + k < 2 ^ 32
    → m ≡ min k (x.size - (offset + i))
    → copy_out k i offset x ≡ ok (take_bytes m i (λ j. x.block (offset + j)))
unfolding copy_out take_bytes
copy_out_lem zero zero i offset x h f e = refl
copy_out_lem zero (suc m) i offset x h f e = absurd (omega arith)
copy_out_lem (suc k) zero i offset x h f e =
    let over : ltb (add32 i offset) x.size ≡ false = ground arith in rw over
copy_out_lem (suc k) (suc m) i offset x h f e =
    let inside : ltb (add32 i offset) x.size ≡ true = ground arith in
    let small : ltb (add32 i offset) block_size ≡ true = ground arith in
    let here : add32 i offset ≡ offset + i = omega arith in
    rw (inside, small, copy_out_lem k m (i + 1) offset x h (omega arith) (omega arith), here)

take_bytes-eq :
    (n i : ℕ) (a b : Bytes)
    → ((j : ℕ) → i ≤ j → j < i + n → a j ≡ b j)
    → take_bytes n i a ≡ take_bytes n i b
unfolding take_bytes
take_bytes-eq zero i a b same = refl
take_bytes-eq (suc n) i a b same =
    ground
      (arith, same i, take_bytes-eq n (i + 1) a b (λ j p q. same j (omega arith) (omega arith)))

-- What `writeF` of `len` bytes at `offset` does to a file of `size` bytes.
pub record Written (fs : Fs) (index : ℕ) (buf : Bytes) (len offset : ℕ) (r : Run (ℕ × Fs))
    : Type 0 where
  pub after : Fs
  pub runs : r ≡ ok (len, after)
  pub bytes :
      (x : ℕ) → (after.inodes index).block x ≡ spliced len 0 offset buf (fs.inodes index).block x
  pub size :
      (after.inodes index).size
      ≡ (if ltb (offset + len) (fs.inodes index).size then (fs.inodes index).size else offset + len)
  pub others : (j : ℕ) → j ≢ index → after.inodes j ≡ fs.inodes j
  pub map_same : after.inode_map ≡ fs.inode_map

-- Within the 32 KB of a file `writeF` always returns the number of bytes it was given. The bytes
-- of the buffer stand at `offset`, the file is as long as needed and no shorter than before, and
-- neither its other bytes nor the other files change.
pub write_f_lem :
    (fs : Fs) (index : ℕ) (buf : Bytes) (len offset : ℕ)
    → index < nr_inode
    → len + offset < block_size
    → Written fs index buf len offset (write_f index buf len offset fs)
unfolding write_f
write_f_lem fs index buf len offset h k =
    let (b, e, at) = copy_in_lem len 0 offset buf (fs.inodes index).block (omega arith) in
    let fits : slt (add32 len offset) block_size ≡ true = ground arith in
    let n : rounds len ≡ len = ground arith in
    let end : add32 offset len ≡ offset + len = omega arith in
    record {
      after = store_inode fs index (record (fs.inodes index) {
        block = b;
        size =
            if ltb (offset + len) (fs.inodes index).size
            then (fs.inodes index).size
            else offset + len;
      });
      runs = rw (fits, load_inode-ok fs index h, n, e, end) refl;
      bytes = λ x. ground (arith, at x);
      size = ground arith;
      others = λ j ne. ground arith;
      map_same = refl;
    }

-- What has been written is read back: after `writeF` of `len` bytes at `offset`, `readF` of as
-- many bytes there gets them, if all lies within the 32 KB of a file.
pub read_f-write_f :
    (fs : Fs) (index : ℕ) (buf : Bytes) (len offset : ℕ)
    → index < nr_inode
    → len + offset < block_size
    → (fs.inodes index).size ≤ block_size
    → (after : Fs) × (write_f index buf len offset fs ≡ ok (len, after))
      × (read_f index len offset after ≡ ok (take_bytes len 0 buf))
unfolding read_f
read_f-write_f fs index buf len offset h k small =
    let w = write_f_lem fs index buf len offset h k in
    let n : rounds len ≡ len = ground arith in
    (
      w.after,
      w.runs,
      rw
          (
            load_inode-ok w.after index h,
            n,
            copy_out_lem len len 0 offset (w.after.inodes index) (ground (arith, w.size))
                (omega arith) (ground (arith, w.size)),
          )
          (ap ok (
            take_bytes-eq len 0 _ buf
              (λ j p q. ground (arith, w.bytes (offset + j), ap buf (back j))))),
    )
  where
    back : (j : ℕ) → offset + j - offset ≡ j
    back j = omega arith
