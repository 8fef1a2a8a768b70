-- ===== src/Text/Compare.antt =====
-- `strcmp` tells strings apart.
use mathlib.Core.Path.{subst}
use oslab_nju.Prelude.{ℕ, ◌<◌, ◌≡◌, refl, List, [], ◌∷◌, arith}
use oslab_nju.Text.{equal, strcmp}

-- All characters are bytes.
abbrev pub AreBytes : List ℕ → Type 0
AreBytes [] = Unit {0}
AreBytes (x ∷ xs) = (x < 256) × AreBytes xs

pub strcmp_self : (s : List ℕ) → strcmp s s ≡ equal
unfolding strcmp
strcmp_self [] = refl
strcmp_self (x ∷ xs) = ground (arith, strcmp_self xs)

-- `strcmp` is 0 for equal strings only.
pub eq_of_strcmp : (s t : List ℕ) → AreBytes s → AreBytes t → strcmp s t ≡ equal → s ≡ t
unfolding strcmp
eq_of_strcmp [] [] a b e = refl
eq_of_strcmp [] (y ∷ ys) a b e = absurd (ground arith)
eq_of_strcmp (x ∷ xs) [] a b e = absurd (ground arith)
eq_of_strcmp (x ∷ xs) (y ∷ ys) a b e = ground (arith, eq_of_strcmp xs ys a.1 b.1)

-- Of two strings of bytes `strcmp` gives 0 exactly when they are the same.
pub strcmp_iff :
    (s t : List ℕ)
    → AreBytes s
    → AreBytes t
    → ((strcmp s t ≡ equal) → s ≡ t) × (s ≡ t → strcmp s t ≡ equal)
strcmp_iff s t a b = (eq_of_strcmp s t a b, λ e. subst (λ u. strcmp s u ≡ equal) e (strcmp_self s))
