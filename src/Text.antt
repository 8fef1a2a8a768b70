-- ===== src/Text.antt =====
-- C strings: `strlen`, `strcpy` and `strcmp` of kernel/kernel/lib.c. A string is the list of its
-- characters in front of the NUL; in memory it lies at an address, with the NUL behind it.
pub mod Compare
pub mod Memory
use oslab_nju.Prelude.{
  ℕ, zero, suc, ◌+◌, ◌%◌, Bool, true, false, List, [], ◌∷◌, Run, ok, fault, ◌>>=◌, ltb, leb, ◌==◌,
  if◌then◌else◌, length,
}
use oslab_nju.Prelude.Word.{minus_one}

-- Bytes by address.
abbrev pub Bytes : Type 0
Bytes = ℕ → ℕ

abbrev pub store_byte : Bytes → ℕ → ℕ → Bytes
store_byte b a v x = if x == a then v else b x

-- The string at `a` in an array of which `room` bytes are left: with no NUL among these the code
-- reads on behind the array.
unfoldable pub read_string : ℕ → Bytes → ℕ → Run (List ℕ)
read_string zero b a = fault
read_string (suc room) b a = elim (b a == 0) [
  | true ↦ ok []
  | false ↦ do cs ← read_string room b (a + 1); ok (b a ∷ cs)
]

-- `strcpy` to `a`: the characters, and the NUL.
unfoldable pub write_string : List ℕ → ℕ → Bytes → Bytes
write_string [] a b = store_byte b a 0
write_string (c ∷ cs) a b = write_string cs (a + 1) (store_byte b a c)

-- A `char` is signed: this compares two of them.
abbrev pub char_lt : ℕ → ℕ → Bool
char_lt a b = ltb ((a + 128) % 256) ((b + 128) % 256)

pub data Sign : Type 0 where
  negative equal positive : Sign

compare_lengths : ℕ → ℕ → Sign
compare_lengths a b = if a == b then equal else if ltb b a then positive else negative

-- `strcmp`: the first difference decides, and if there is none, the lengths.
unfoldable pub strcmp : List ℕ → List ℕ → Sign
unfolding compare_lengths
strcmp [] src = compare_lengths 0 (length src)
strcmp (x ∷ xs) [] = compare_lengths (suc (length xs)) 0
strcmp (x ∷ xs) (y ∷ ys) =
    let rest = strcmp xs ys in
    if char_lt y x then positive else if char_lt x y then negative else rest

-- `strcmp(a, b) == 0`.
abbrev pub is_equal : Sign → Bool
is_equal equal = true
is_equal _ = false

-- The `n` bytes from `i` on.
unfoldable pub take_bytes : ℕ → ℕ → Bytes → List ℕ
take_bytes zero i b = []
take_bytes (suc n) i b = b i ∷ take_bytes n (i + 1) b
