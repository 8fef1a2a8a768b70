-- ===== src/Kernel/FileTable.antt =====
-- The table of open files and the descriptors that name its entries: `link_num` of irqHandle.c and
-- process.c against the number of descriptors.
pub mod Free
pub mod Open
pub mod Close
pub mod Forked
pub mod RoundTrip
pub mod Booted
pub mod Reached
use oslab_nju.Prelude.{
  ℕ, zero, suc, ◌+◌, ◌*◌, ◌<◌, ◌≤◌, ◌≡◌, ◌≢◌, ◌⊎◌, sym, ap, refl, true, false, List, [], ◌∷◌, ◌==◌,
  if◌then◌else◌, Bool-cases, inl, inr, arith, ==→eq, length, has, get_or, set,
}
use oslab_nju.Prelude.Word.{minus_one}
use oslab_nju.Proc.{Ptr, Pcbs}
use oslab_nju.Kernel.{Kernel, SysFile, max_fp_num, max_sys_file_num}
use oslab_nju.Kernel.Process.Share.{users, no_file}

-- The processes that can run, `pcb[1]` to `pcb[9]`.
abbrev pub IsUser : Ptr → Type 0
IsUser p = (7 ≤ p) × (p < 16)

-- How many descriptors of the `k` PCBs from `p` on name the entry `i`.
unfoldable pub total : ℕ → Pcbs → ℕ → Ptr → ℕ
total i m zero p = 0
total i m (suc k) p = users i (m p).filepointer + total i m k (p + 1)

abbrev pub links : ℕ → Kernel → ℕ
links i k = total i k.procs.pcb 9 7

-- The table is in order: an entry counts the descriptors that name it, and is free when there are
-- none; each descriptor is closed or names an entry.
pub record InOrder (k : Kernel) : Type 0 where
  pub counted : (i : ℕ) → i < length k.files → (get_or k.files i no_file).link_num ≡ links i k
  pub unused :
      (i : ℕ)
      → i < length k.files
      → (get_or k.files i no_file).link_num ≡ 0
      → (get_or k.files i no_file).inode_index ≡ minus_one
  pub in_use :
      (i : ℕ)
      → i < length k.files
      → (get_or k.files i no_file).inode_index ≡ minus_one
      → (get_or k.files i no_file).link_num ≡ 0
  pub named :
      (p : Ptr)
      → IsUser p
      → (i : ℕ) → has i (k.procs.pcb p).filepointer ≡ true
      → i ≢ minus_one
      → i < length k.files
  pub sizes : (p : Ptr) → IsUser p → length (k.procs.pcb p).filepointer ≡ max_fp_num
  pub table : length k.files ≡ max_sys_file_num

pub total-same :
    (i : ℕ) (m n : Pcbs) (k : ℕ) (p : Ptr)
    → ((x : Ptr) → p ≤ x → x < p + k → (n x).filepointer ≡ (m x).filepointer)
    → total i n k p ≡ total i m k p
unfolding total
total-same i m n zero p h = refl
total-same i m n (suc k) p h = rw (h p (omega arith) (omega arith)) (
    ap (λ t. users i (m p).filepointer + t)
      (total-same i m n k (p + 1) (λ x a b. h x (omega arith) (omega arith))))

-- When the descriptors of one process change.
pub total-change :
    (i : ℕ) (m n : Pcbs) (k : ℕ) (p q : Ptr)
    → p ≤ q
    → q < p + k
    → ((x : Ptr) → x ≢ q → (n x).filepointer ≡ (m x).filepointer)
    → total i n k p + users i (m q).filepointer ≡ total i m k p + users i (n q).filepointer
unfolding total
total-change i m n zero p q a b h = absurd (omega arith)
total-change i m n (suc k) p q a b h = elim (Bool-cases (p == q)) [
  | inl e ↦
      let rest = total-same i m n k (p + 1) (λ x c d. h x (λ z. ground (arith, z, c))) in
      let at : p ≡ q = ==→eq p q e in
      let old : users i (m p).filepointer ≡ users i (m q).filepointer =
        ap (λ x. users i (m x).filepointer) at in
      let new : users i (n p).filepointer ≡ users i (n q).filepointer =
        ap (λ x. users i (n x).filepointer) at in
      omega (arith, rest, old, new)
  | inr e ↦
      let rest = total-change i m n k (p + 1) q (ground arith) (omega arith) h in
      let same : users i (n p).filepointer ≡ users i (m p).filepointer =
        ap (users i) (h p (λ z. ground (arith, z, e))) in
      omega (arith, rest, same)
]

pub users-length : (i : ℕ) (fps : List ℕ) → users i fps ≤ length fps
users-length i [] = omega arith
users-length i (x ∷ xs) = ground (arith, users-length i xs)

pub total-bound :
    (i : ℕ) (m : Pcbs) (k : ℕ) (p : Ptr)
    → ((x : Ptr) → p ≤ x → x < p + k → length (m x).filepointer ≡ max_fp_num)
    → total i m k p ≤ k * max_fp_num
unfolding total
total-bound i m zero p h = omega arith
total-bound i m (suc k) p h = omega (
  arith,
  users-length i (m p).filepointer,
  h p (omega arith) (omega arith),
  total-bound i m k (p + 1) (λ x a b. h x (omega arith) (omega arith)),
)

pub total-part :
    (i : ℕ) (m : Pcbs) (k : ℕ) (p q : Ptr)
    → p ≤ q
    → q < p + k
    → users i (m q).filepointer ≤ total i m k p
unfolding total
total-part i m zero p q a b = absurd (omega arith)
total-part i m (suc k) p q a b = elim (Bool-cases (p == q)) [
  | inl e ↦ omega (arith, ap (λ x. users i (m x).filepointer) (==→eq p q e))
  | inr e ↦ omega (arith, total-part i m k (p + 1) q (ground arith) (omega arith))
]

-- When a descriptor changes.
pub users-set :
    (i : ℕ) (fps : List ℕ) (d v : ℕ)
    → d < length fps
    → users i (set fps d v) + (if get_or fps d 0 == i then 1 else 0)
      ≡ users i fps + (if v == i then 1 else 0)
users-set i [] d v h = absurd (omega arith)
users-set i (x ∷ xs) zero v h = ground arith
users-set i (x ∷ xs) (suc d) v h = ground (arith, users-set i xs d v)

pub has-users : (i : ℕ) (fps : List ℕ) → has i fps ≡ true → 0 < users i fps
has-users i [] h = absurd (ground (arith, h))
has-users i (x ∷ xs) h = ground (arith, has-users i xs)

pub has-get_or : (fps : List ℕ) (d : ℕ) → d < length fps → has (get_or fps d 0) fps ≡ true
has-get_or [] d h = absurd (omega arith)
has-get_or (x ∷ xs) zero h = ground arith
has-get_or (x ∷ xs) (suc d) h = ground (arith, has-get_or xs d)

pub has-set :
    (i : ℕ) (fps : List ℕ) (d v : ℕ) → has i (set fps d v) ≡ true → (i ≡ v) ⊎ (has i fps ≡ true)
has-set i [] d v h = inr h
has-set i (x ∷ xs) zero v h = ground arith
has-set i (x ∷ xs) (suc d) v h = ground (arith, has-set i xs d v)
