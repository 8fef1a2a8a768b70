-- ===== src/Console/Keys.antt =====
-- The tables of scan codes: each key gives its own character.
use oslab_nju.Prelude.{
  ℕ, zero, suc, ◌+◌, ◌<◌, ◌≡◌, refl, ◌∙◌, Bool, not, ◌&&◌, true, false, List, [], ◌∷◌, has,
  distinct, get_or, length, arith,
}
use oslab_nju.Console.Keyboard.{letter_code, num_code, find_code, press_key}

has-get_or : (cs : List ℕ) (i : ℕ) → i < length cs → has (get_or cs i 0) cs ≡ true
has-get_or [] i h = absurd (omega arith)
has-get_or (c ∷ cs) zero h = ground arith
has-get_or (c ∷ cs) (suc i) h = ground (arith, has-get_or cs i (omega arith))

-- The loop over a table of distinct codes finds the index of a code.
find_code_lem :
    (cs : List ℕ) (i ch other : ℕ)
    → distinct cs ≡ true
    → i < length cs
    → find_code (get_or cs i 0) ch cs other ≡ ch + i
unfolding find_code
find_code_lem [] i ch other d h = absurd (omega arith)
find_code_lem (c ∷ cs) zero ch other d h = ground arith
find_code_lem (c ∷ cs) (suc i) ch other d h =
    ground (arith, has-get_or cs i (omega arith), find_code_lem cs i (ch + 1) other)

find_code-absent :
    (scan ch other : ℕ) (cs : List ℕ) → has scan cs ≡ false → find_code scan ch cs other ≡ other
unfolding find_code
find_code-absent scan ch other [] h = refl
find_code-absent scan ch other (c ∷ cs) h = ground (arith, find_code-absent scan (ch + 1) other cs)

-- Two tables with nothing in common.
abbrev disjoint : List ℕ → List ℕ → Bool
disjoint [] ds = true
disjoint (c ∷ cs) ds = not (has c ds) && disjoint cs ds

absent_of_disjoint :
    (cs ds : List ℕ) (c : ℕ) → disjoint cs ds ≡ true → has c cs ≡ true → has c ds ≡ false
absent_of_disjoint [] ds c d h = absurd (ground arith)
absent_of_disjoint (b ∷ cs) ds c d h = ground (arith, absent_of_disjoint cs ds c)

-- The key at each place of the table of letters gives the letter of that place in the alphabet, and
-- the key at each place of the table of digits gives that digit.
pub press_key_lem :
    ((i : ℕ) → i < 26 → press_key (get_or letter_code i 0) ≡ b'a' + i)
    × ((i : ℕ) → i < 10 → press_key (get_or num_code i 0) ≡ b'0' + i)
unfolding press_key
press_key_lem = (
  λ i h. find_code_lem letter_code i b'a' _ refl h,
  λ i h.
      find_code-absent (get_or num_code i 0) b'a' _ letter_code (
        absent_of_disjoint num_code letter_code (get_or num_code i 0) refl
          (has-get_or num_code i h))
      ∙ find_code_lem num_code i b'0' _ refl h,
)
