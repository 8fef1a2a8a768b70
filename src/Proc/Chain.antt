-- ===== src/Proc/Chain.antt =====
-- The list that a head pointer leads through, and what the functions of list.c do to it.
use oslab_nju.Prelude.{
  ℕ, zero, suc, ◌<◌, ◌≡◌, ◌≢◌, refl, true, false, List, [], ◌∷◌, ◌++◌, ok, ◌==◌, if◌then◌else◌,
  Bool-cases, ◌∙◌, length, has, distinct, erase, arith, inl, inr,
}
use oslab_nju.Proc.{Ptr, null, Pcbs, IsObject, load}
use oslab_nju.Proc.Lists.{list_last, list_before}

-- From `p` the `next` fields lead through `xs` to NULL.
abbrev pub Chain : Pcbs → Ptr → List Ptr → Type 0
Chain m p [] = (m p).next ≡ null
Chain m p (x ∷ xs) = ((m p).next ≡ x) × IsObject x × Chain m x xs

abbrev pub last : Ptr → List Ptr → Ptr
last p [] = p
last p (x ∷ xs) = last x xs

-- The element in front of the first `d`.
abbrev pub before : Ptr → Ptr → List Ptr → Ptr
before d p [] = p
before d p (x ∷ xs) = if x == d then p else before d x xs

pub load-ok : (m : Pcbs) (p : Ptr) → IsObject p → load m p ≡ ok (m p)
unfolding load
load-ok m p h = ground arith

pub has-last : (p : Ptr) (xs : List Ptr) → has (last p xs) (p ∷ xs) ≡ true
has-last p [] = ground arith
has-last p (x ∷ xs) = ground (arith, has-last x xs)

pub has-before : (d p : Ptr) (xs : List Ptr) → has (before d p xs) (p ∷ xs) ≡ true
has-before d p [] = ground arith
has-before d p (x ∷ xs) = ground (arith, has-before d x xs)

pub last-IsObject :
    (m : Pcbs) (p : Ptr) (xs : List Ptr) → IsObject p → Chain m p xs → IsObject (last p xs)
last-IsObject m p [] o c = o
last-IsObject m p (x ∷ xs) o c = last-IsObject m x xs c.1 c.2

pub before-IsObject :
    (m : Pcbs) (d p : Ptr) (xs : List Ptr) → IsObject p → Chain m p xs → IsObject (before d p xs)
before-IsObject m d p [] o c = o
before-IsObject m d p (x ∷ xs) o c = ground (arith, before-IsObject m d x xs)

pub next-last : (m : Pcbs) (p : Ptr) (xs : List Ptr) → Chain m p xs → (m (last p xs)).next ≡ null
next-last m p [] c = c
next-last m p (x ∷ xs) c = next-last m x xs c.2

pub next-before :
    (m : Pcbs) (d p : Ptr) (xs : List Ptr)
    → Chain m p xs
    → has d xs ≡ true
    → (m (before d p xs)).next ≡ d
next-before m d p [] c h = cc
next-before m d p (x ∷ xs) c h = ground (arith, next-before m d x xs)

pub before-absent : (d p : Ptr) (xs : List Ptr) → has d xs ≡ false → before d p xs ≡ last p xs
before-absent d p [] h = refl
before-absent d p (x ∷ xs) h = ground (arith, before-absent d x xs)

-- A chain depends on the `next` fields of its own elements.
pub Chain-frame :
    (m n : Pcbs) (p : Ptr) (xs : List Ptr)
    → ((x : Ptr) → has x (p ∷ xs) ≡ true → (n x).next ≡ (m x).next)
    → Chain m p xs
    → Chain n p xs
Chain-frame m n p [] same c = ground (arith, same p)
Chain-frame m n p (x ∷ xs) same c =
    (ground (arith, same p), c.1, Chain-frame m n x xs (λ y h. same y (ground arith)) c.2)

pub list_last_lem :
    (k : ℕ) (m : Pcbs) (p : Ptr) (xs : List Ptr)
    → Chain m p xs
    → IsObject p
    → length xs < k
    → list_last k m p ≡ ok (last p xs)
unfolding list_last
list_last_lem zero m p xs c o f = absurd (omega arith)
list_last_lem (suc k) m p [] c o f = ground (arith, load-ok m p o)
list_last_lem (suc k) m p (x ∷ xs) c o f =
    ground (arith, load-ok m p o, list_last_lem k m x xs c.2 c.1)

pub list_before_lem :
    (k : ℕ) (m : Pcbs) (d p : Ptr) (xs : List Ptr)
    → Chain m p xs
    → IsObject p
    → length xs < k
    → list_before k m d p ≡ ok (before d p xs)
unfolding list_before
list_before_lem zero m d p xs c o f = absurd (omega arith)
list_before_lem (suc k) m d p [] c o f = ground (arith, load-ok m p o)
list_before_lem (suc k) m d p (x ∷ xs) c o f =
    ground (arith, load-ok m p o, list_before_lem k m d x xs c.2 c.1)

-- Linking `d` behind the last element.
pub Chain-append :
    (m n : Pcbs) (d p : Ptr) (xs : List Ptr)
    → Chain m p xs
    → IsObject d
    → distinct (p ∷ xs) ≡ true
    → (n (last p xs)).next ≡ d
    → (n d).next ≡ null
    → ((x : Ptr) → x ≢ last p xs → x ≢ d → (n x).next ≡ (m x).next)
    → has d (p ∷ xs) ≡ false
    → Chain n p (xs ++ (d ∷ []))
Chain-append m n d p [] c o nd l e same out = (l, o, e)
Chain-append m n d p (x ∷ xs) c o nd l e same out = (
  ground (arith, same p, has-last x xs),
  c.1,
  Chain-append m n d x xs c.2 o (ground arith) l e same (ground arith),
)

Chain-skip :
    (m n : Pcbs) (p x : Ptr) (xs : List Ptr)
    → Chain m x xs
    → (n p).next ≡ (m x).next
    → ((y : Ptr) → has y xs ≡ true → (n y).next ≡ (m y).next)
    → Chain n p xs
Chain-skip m n p x [] c e same = e ∙ c
Chain-skip m n p x (y ∷ ys) c e same = (e ∙ c.0, c.1, Chain-frame m n y ys same c.2)

-- Linking the element in front of `d` to the one behind it.
pub Chain-erase :
    (m n : Pcbs) (d p : Ptr) (xs : List Ptr)
    → Chain m p xs
    → distinct (p ∷ xs) ≡ true
    → has d xs ≡ true
    → (n (before d p xs)).next ≡ (m d).next
    → ((x : Ptr) → x ≢ before d p xs → (n x).next ≡ (m x).next)
    → Chain n p (erase d xs)
Chain-erase m n d p [] c nd h e same = cc
Chain-erase m n d p (x ∷ xs) c nd h e same = elim (Bool-cases (x == d)) [
  | inl hit ↦ rw hit (Chain-skip m n p x xs c.2 (ground arith) λ y i. same y (ground arith))
  | inr miss ↦ rw miss (
    ground (arith, same p, has-before d x xs),
    c.1,
    Chain-erase m n d x xs c.2 (ground arith) (ground arith) (ground arith) (ground (arith)),
  )
]
