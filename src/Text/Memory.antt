-- ===== src/Text/Memory.antt =====
-- A string read back from where it has been written.
use oslab_nju.Prelude.{
  ℕ, zero, suc, ◌+◌, ◌≤◌, ◌<◌, ◌≡◌, ◌≢◌, ◌⊎◌, refl, List, [], ◌∷◌, ok, arith, length,
}
use oslab_nju.Text.{Bytes, store_byte, read_string, write_string}

-- No character is NUL.
abbrev pub NoNul : List ℕ → Type 0
NoNul [] = Unit {0}
NoNul (x ∷ xs) = (x ≢ 0) × NoNul xs

-- Where a write goes.
pub write_string-outside :
    (s : List ℕ) (a : ℕ) (b : Bytes) (x : ℕ)
    → (x < a) ⊎ (a + length s < x)
    → write_string s a b x ≡ b x
unfolding write_string
write_string-outside [] a b x h = ground arith
write_string-outside (c ∷ cs) a b x h =
    ground (arith, write_string-outside cs (a + 1) (store_byte b a c) x)

-- A string with no NUL in it that `strcpy` has written is read back whole from an array with room
-- for it and its NUL.
pub read_string-write_string :
    (s : List ℕ) (room a : ℕ) (b : Bytes)
    → NoNul s
    → length s < room
    → read_string room (write_string s a b) a ≡ ok s
unfolding read_string write_string
read_string-write_string s zero a b n h = absurd (omega arith)
read_string-write_string [] (suc room) a b n h = ground arith
read_string-write_string (c ∷ cs) (suc room) a b n h = ground (
  arith,
  read_string-write_string cs room (a + 1) (store_byte b a c) n.1,
  write_string-outside cs (a + 1) (store_byte b a c) a,
)

-- A string does not change by writes elsewhere.
pub read_string-frame :
    (room a : ℕ) (b b' : Bytes)
    → ((x : ℕ) → a ≤ x → x < a + room → b' x ≡ b x)
    → read_string room b' a ≡ read_string room b a
unfolding read_string
read_string-frame zero a b b' same = refl
read_string-frame (suc room) a b b' same = ground (
  arith,
  same a,
  read_string-frame room (a + 1) b b' (λ x p q. same x (omega arith) (omega arith)),
)
