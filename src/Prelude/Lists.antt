-- ===== src/Prelude/Lists.antt =====
-- Lists measured and indexed by the native numbers, and lists of distinct numbers.
use Prim.Native.Nat.{ℕ, zero, suc, ◌+◌, ◌≤◌, ◌<◌}
use mathlib.Core.Path.{◌≡◌, refl, ap}
use mathlib.Core.Bool.{Bool, true, false, ◌&&◌, ◌||◌, not}
use mathlib.Core.Logic.{◌≢◌}
use mathlib.Core.List.{List, [], ◌∷◌, ◌++◌}
use mathlib.Core.Option.{Option, none, some}
use native.Mathlib.Omega.{arith}
use oslab_nju.Prelude.Tests.{◌==◌, if◌then◌else◌}

module _ {ℓ} {A : Type ℓ} where
  abbrev pub length : List A → ℕ
  length [] = 0
  length (x ∷ xs) = suc (length xs)

  abbrev pub get_elem? : List A → ℕ → Option A
  get_elem? [] i = none
  get_elem? (x ∷ xs) zero = some x
  get_elem? (x ∷ xs) (suc i) = get_elem? xs i

  abbrev pub get_or : List A → ℕ → A → A
  get_or [] i d = d
  get_or (x ∷ xs) zero d = x
  get_or (x ∷ xs) (suc i) d = get_or xs i d

  -- A write out of bounds changes nothing; the code is modelled with a test in front of it.
  abbrev pub set : List A → ℕ → A → List A
  set [] i v = []
  set (x ∷ xs) zero v = v ∷ xs
  set (x ∷ xs) (suc i) v = x ∷ set xs i v

  abbrev pub drop : ℕ → List A → List A
  drop zero xs = xs
  drop (suc n) [] = []
  drop (suc n) (x ∷ xs) = drop n xs

  abbrev pub take : ℕ → List A → List A
  take zero xs = []
  take (suc n) [] = []
  take (suc n) (x ∷ xs) = x ∷ take n xs

  abbrev pub replicate : ℕ → A → List A
  replicate zero a = []
  replicate (suc n) a = a ∷ replicate n a

  pub length-append : (xs ys : List A) → length (xs ++ ys) ≡ length xs + length ys
  length-append [] ys = omega arith
  length-append (x ∷ xs) ys = omega (arith, length-append xs ys)

module _ {ℓ} {A : Type ℓ} where
  pub length-set : (xs : List A) (i : ℕ) (v : A) → length (set xs i v) ≡ length xs
  length-set [] i v = refl
  length-set (x ∷ xs) zero v = refl
  length-set (x ∷ xs) (suc i) v = ap suc (length-set xs i v)

  pub get_or-set_self :
      (xs : List A) (i : ℕ) (v d : A) → i < length xs → get_or (set xs i v) i d ≡ v
  get_or-set_self [] i v d h = absurd (omega arith)
  get_or-set_self (x ∷ xs) zero v d h = refl
  get_or-set_self (x ∷ xs) (suc i) v d h = get_or-set_self xs i v d (omega arith)

  pub get_or-set_ne :
      (xs : List A) {i j : ℕ} (v d : A) → i ≢ j → get_or (set xs i v) j d ≡ get_or xs j d
  get_or-set_ne [] v d h = refl
  get_or-set_ne (x ∷ xs) {i = zero} {j = zero} v d h = absurd (h refl)
  get_or-set_ne (x ∷ xs) {i = zero} {j = suc j} v d h = refl
  get_or-set_ne (x ∷ xs) {i = suc i} {j = zero} v d h = refl
  get_or-set_ne (x ∷ xs) {i = suc i} {j = suc j} v d h = get_or-set_ne xs v d (λ e. h (ap suc e))

-- Membership in a list of numbers, as a test.
abbrev pub has : ℕ → List ℕ → Bool
has a [] = false
has a (x ∷ xs) = (a == x) || has a xs

abbrev pub distinct : List ℕ → Bool
distinct [] = true
distinct (x ∷ xs) = not (has x xs) && distinct xs

-- The list without the first occurrence of a number.
abbrev pub erase : ℕ → List ℕ → List ℕ
erase a [] = []
erase a (x ∷ xs) = if x == a then xs else x ∷ erase a xs

pub has-append : (a : ℕ) (xs ys : List ℕ) → has a (xs ++ ys) ≡ (has a xs || has a ys)
has-append a [] ys = refl
has-append a (x ∷ xs) ys = ground (arith, has-append a xs ys)

pub has-erase_ne : (a b : ℕ) (xs : List ℕ) → a ≢ b → has a (erase b xs) ≡ has a xs
has-erase_ne a b [] h = refl
has-erase_ne a b (x ∷ xs) h = ground (arith, has-erase_ne a b xs)

pub has-erase_self : (a : ℕ) (xs : List ℕ) → distinct xs ≡ true → has a (erase a xs) ≡ false
has-erase_self a [] h = refl
has-erase_self a (x ∷ xs) h = ground (arith, has-erase_self a xs)

pub has_of_has-erase : (a b : ℕ) (xs : List ℕ) → has a (erase b xs) ≡ true → has a xs ≡ true
has_of_has-erase a b [] h = h
has_of_has-erase a b (x ∷ xs) h = ground (arith, has_of_has-erase a b xs)

pub distinct-erase : (b : ℕ) (xs : List ℕ) → distinct xs ≡ true → distinct (erase b xs) ≡ true
distinct-erase b [] h = refl
distinct-erase b (x ∷ xs) h = ground (arith, distinct-erase b xs, has_of_has-erase x b xs)

pub distinct-append_one :
    (d : ℕ) (xs : List ℕ) → distinct xs ≡ true → has d xs ≡ false → distinct (xs ++ (d ∷ [])) ≡ true
distinct-append_one d [] h k = refl
distinct-append_one d (x ∷ xs) h k =
    ground (arith, distinct-append_one d xs, has-append x xs (d ∷ []))

pub length-erase : (a : ℕ) (xs : List ℕ) → length xs ≤ suc (length (erase a xs))
length-erase a [] = omega arith
length-erase a (x ∷ xs) = ground (arith, length-erase a xs)

-- Distinct numbers between `lo` and `lo + n` are at most `n`.
pub length_of_distinct :
    (n lo : ℕ) (xs : List ℕ)
    → distinct xs ≡ true
    → ((x : ℕ) → has x xs ≡ true → (lo ≤ x) × (x < lo + n))
    → length xs ≤ n
length_of_distinct zero lo [] d h = omega arith
length_of_distinct zero lo (x ∷ xs) d h = absurd (omega (arith, h x (ground arith)))
length_of_distinct (suc n) lo xs d h = omega (
  arith,
  length-erase (lo + n) xs,
  length_of_distinct n lo (erase (lo + n) xs) (distinct-erase (lo + n) xs d) inside,
)
  where
    inside : (x : ℕ) → has x (erase (lo + n) xs) ≡ true → (lo ≤ x) × (x < lo + n)
    inside x m = ground (arith, h x, has_of_has-erase x (lo + n) xs m, has-erase_self x xs d)
