-- ===== src/Fs/Holding.antt =====
-- A directory with room for a file, and a free inode: getAvlInode of fs.c.
use oslab_nju.Prelude.{
  ℕ, zero, suc, ◌+◌, ◌<◌, ◌≡◌, ◌≢◌, refl, true, false, List, [], ◌∷◌, ◌==◌, Bool-cases, inl, inr,
  arith, ==→eq, length, has, get_or,
}
use mathlib.Core.Path.{subst}
use oslab_nju.Text.{Bytes}
use oslab_nju.Fs.{Fs, nr_inode, nr_entries, available, inuse}
use oslab_nju.Fs.Path.{inner_slashes}
use oslab_nju.Fs.Lookup.{avl_inode_from}
use oslab_nju.Fs.Directory.{IsDirectory}
use oslab_nju.Fs.Linking.{IsName}
use oslab_nju.Fs.Resolve.{NoSlash, AreLevels, IsLast, Leads, looked}
use oslab_nju.Fs.Keeping.{Through}

-- The first index in the map that is available.
pub avl_inode_from_lem :
    (xs : List ℕ) (i : ℕ)
    → has available xs ≡ true
    → (n : ℕ) × (avl_inode_from i xs ≡ i + n)
      × (n < length xs)
      × (get_or xs n inuse ≡ available)
      × ((m : ℕ) → m < n → get_or xs m available ≢ available)
unfolding avl_inode_from
avl_inode_from_lem [] i h = absurd (ground (arith, h))
avl_inode_from_lem (x ∷ xs) i h = elim (Bool-cases (x == available)) [
  | inl e ↦ (0, ground arith, omega arith, ==→eq x available e, λ m l. absurd (omega (arith, l)))
  | inr e ↦
      let (n, run, b, free, first) = avl_inode_from_lem xs (i + 1) (ground arith) in
      (suc n, ground (arith, run), omega (arith, b), free, λ m l. before n e first m l)
]
  where
    before :
        (n : ℕ)
        → (x == available) ≡ false
        → ((m : ℕ) → m < n → get_or xs m available ≢ available)
        → (m : ℕ) → m < suc n
        → get_or (x ∷ xs) m available ≢ available
    before n e first zero l = λ p. ground (arith, p, e)
    before n e first (suc m) l = first m (omega arith)

-- A file can be made as `name` in the directory `j`, to which the directories `ds` lead.
pub record CanHold (fs : Fs) (ds : List (List ℕ)) (name : List ℕ) (j : ℕ) (names : ℕ → List ℕ)
    : Type 0 where
  pub levels : AreLevels ds
  pub is_name : IsName name
  pub plain : NoSlash name
  pub leads : Leads fs ds 0 j
  pub in_use : Through (λ x. get_or fs.inode_map x available ≢ available) fs ds 0 j leads
  pub inside : j < nr_inode
  pub dir : IsDirectory (fs.inodes j) names
  pub new : (x : ℕ) → x < nr_entries → names x ≢ name
  pub room : (fs.inodes j).size < nr_entries
  pub some_free : has available fs.inode_map ≡ true
  pub mapped : length fs.inode_map ≡ nr_inode

pub NoSlash-single : (name : List ℕ) → NoSlash name → inner_slashes name ≡ 0
NoSlash-single [] h = refl
NoSlash-single (c ∷ []) h = refl
NoSlash-single (c ∷ d ∷ cs) h = ground (arith, h, NoSlash-single (d ∷ cs) h.1)

pub name-IsLast : (name : List ℕ) → IsName name → NoSlash name → IsLast name
name-IsLast name n plain = record {
  single = NoSlash-single name plain;
  full = λ e. ground (arith, e, n.full);
  bytes = n.bytes;
}

pub Through-map :
    (P Q : ℕ → Type 0) (f : (x : ℕ) → P x → Q x) (fs : Fs) (ds : List (List ℕ)) (i j : ℕ)
    (h : Leads fs ds i j)
    → Through P fs ds i j h
    → Through Q fs ds i j h
Through-map P Q f fs [] i j h t = f i t
Through-map P Q f fs (d ∷ ds) i j (n, down, ne, leads) (p, t) =
    (f i p, Through-map P Q f fs ds n j leads t)

pub Through-end :
    (P : ℕ → Type 0) (fs : Fs) (ds : List (List ℕ)) (i j : ℕ) (h : Leads fs ds i j)
    → Through P fs ds i j h
    → P j
Through-end P fs [] i j h t = subst P h t
Through-end P fs (d ∷ ds) i j (n, down, ne, leads) t = Through-end P fs ds n j leads t.1

Through-looked :
    (P : ℕ → Type 0) (o : ℕ) (buf : Bytes) (fs : Fs) (ds : List (List ℕ)) (i j : ℕ)
    (h : Leads fs ds i j)
    → Through P fs ds i j h
    → (h' : Leads (looked o buf fs) ds i j) × Through P (looked o buf fs) ds i j h'
Through-looked P o buf fs [] i j h t = (h, t)
Through-looked P o buf fs (d ∷ ds) i j (n, down, ne, leads) (p, t) =
    let (h', t') = Through-looked P o buf fs ds n j leads t in ((n, down, ne, h'), (p, t'))

-- Taking a path apart before does not matter.
pub CanHold-looked :
    {fs : Fs} {ds : List (List ℕ)} {name : List ℕ} {j : ℕ} {names : ℕ → List ℕ} (o : ℕ)
    (buf : Bytes)
    → CanHold fs ds name j names
    → CanHold (looked o buf fs) ds name j names
CanHold-looked {fs} {ds} {name} {j} o buf c =
    let (leads, in_use) =
      Through-looked (λ x. get_or fs.inode_map x available ≢ available) o buf fs ds 0 j c.leads
        c.in_use in
    record {
      levels = c.levels;
      is_name = c.is_name;
      plain = c.plain;
      leads = leads;
      in_use = in_use;
      inside = c.inside;
      dir = c.dir;
      new = c.new;
      room = c.room;
      some_free = c.some_free;
      mapped = c.mapped;
    }

-- What stands outside the map does not matter for an inode that is available.
pub free_either :
    (xs : List ℕ) (i : ℕ) → get_or xs i inuse ≡ available → get_or xs i available ≡ available
free_either [] i h = refl
free_either (x ∷ xs) zero h = h
free_either (x ∷ xs) (suc i) h = free_either xs i h
