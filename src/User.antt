-- ===== src/User.antt =====
-- The user library: lib/syscall.c. What is read from the keyboard is a list of characters; `none`
-- says that the call waits for more.
pub mod Calls
pub mod Decimal
pub mod Hexadecimal
pub mod Output
pub mod Input
pub mod Printing
pub mod Program
use oslab_nju.Prelude.{
  ℕ, zero, suc, ◌+◌, ◌-◌, ◌*◌, ◌%◌, ◌^◌, Bool, true, false, ◌&&◌, ◌||◌, List, [], ◌∷◌, ◌++◌, Run,
  ok, ◌>>=◌, Option, none, some, ltb, leb, ◌==◌, if◌then◌else◌,
}
use oslab_nju.Print.{Arg, chr, num, str, printk}

-- `getchar`.
unfoldable pub getchar : List ℕ → Option (ℕ × List ℕ)
getchar [] = none
getchar (c ∷ cs) = some (c, cs)

-- `gets`: the characters up to a line feed, which is read too.
unfoldable pub gets : List ℕ → Option (List ℕ × List ℕ)
gets [] = none
gets (c ∷ cs) = elim (c == 10) [
  | true ↦ some ([], cs)
  | false ↦ elim (gets cs) [ none ↦ none | some (s, rest) ↦ some (c ∷ s, rest) ]
]

abbrev pub is_blank : ℕ → Bool
is_blank c = c == 10 || c == b' '

-- `scan_ch`: the first character that is no blank.
unfoldable pub scan_ch : List ℕ → Option (ℕ × List ℕ)
scan_ch [] = none
scan_ch (c ∷ cs) = let rest = scan_ch cs in if is_blank c then rest else some (c, cs)

-- The second loop of `scan_string`, which reads the blank behind the word too.
unfoldable pub word : List ℕ → Option (List ℕ × List ℕ)
word [] = none
word (c ∷ cs) = elim (is_blank c) [
  | true ↦ some ([], cs)
  | false ↦ elim (word cs) [ none ↦ none | some (s, rest) ↦ some (c ∷ s, rest) ]
]

unfoldable pub scan_string : List ℕ → Option (List ℕ × List ℕ)
scan_string [] = none
scan_string (c ∷ cs) = let rest = scan_string cs in if is_blank c then rest else word (c ∷ cs)

abbrev pub is_digit : ℕ → Bool
is_digit c = leb b'0' c && leb c b'9'

-- The second loop of `scan_dec`: the character behind the digits is read too. `num` is a `uint32_t`.
unfoldable pub decimal : ℕ → List ℕ → Option (ℕ × List ℕ)
decimal n [] = none
decimal n (c ∷ cs) =
    let rest = decimal ((n * 10 + (c - b'0')) % 2 ^ 32) cs in
    if is_digit c then rest else some (n, cs)

unfoldable pub scan_dec : List ℕ → Option (ℕ × List ℕ)
scan_dec [] = none
scan_dec (c ∷ cs) = let rest = scan_dec cs in if is_blank c then rest else decimal 0 (c ∷ cs)

abbrev pub is_hex_letter : ℕ → Bool
is_hex_letter c = leb b'a' c && leb c b'f'

abbrev pub hex_value : ℕ → ℕ
hex_value c = if is_digit c then c - b'0' else c - b'a' + 10

unfoldable pub hexadecimal : ℕ → List ℕ → Option (ℕ × List ℕ)
hexadecimal n [] = none
hexadecimal n (c ∷ cs) =
    let rest = hexadecimal ((n * 16 + hex_value c) % 2 ^ 32) cs in
    if is_digit c || is_hex_letter c then rest else some (n, cs)

unfoldable pub scan_hex : List ℕ → Option (ℕ × List ℕ)
scan_hex [] = none
scan_hex (c ∷ cs) = let rest = scan_hex cs in if is_blank c then rest else hexadecimal 0 (c ∷ cs)
