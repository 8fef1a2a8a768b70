-- ===== src/Print.antt =====
-- Formatted output: print_ch, print_string, print_dec, print_hex and printk of kernel/kernel/lib.c.
-- The kernel's second set (printQ and the functions named _Q) and the user library's (printf of
-- lib/syscall.c) produce the same bytes, and send them elsewhere: to the screen, and to a buffer.
pub mod Format
pub mod Sink
pub mod Message
use oslab_nju.Prelude.{
  ℕ, zero, suc, ◌+◌, ◌-◌, ◌/◌, ◌%◌, ◌^◌, Bool, true, false, List, [], ◌∷◌, ◌++◌, Run, ok, fault,
  ◌>>=◌, ltb, ◌==◌, if◌then◌else◌,
}
use oslab_nju.Prelude.Word.{is_neg}

-- One argument behind the format, as the conversion that reads it takes it.
pub data Arg : Type 0 where
  chr : ℕ → Arg
  num : ℕ → Arg
  str : List ℕ → Arg

-- The digits of a number in base 10, as the recursion of `print_dec` puts them out. A number below
-- 10 ^ k needs k rounds.
unfoldable pub dec_digits : ℕ → ℕ → List ℕ
dec_digits zero n = []
dec_digits (suc k) n =
    let rest = dec_digits k (n / 10) in (if n / 10 == 0 then [] else rest) ++ ((b'0' + n % 10) ∷ [])

abbrev pub minus : ℕ
minus = b'-'

-- The text of -2^31, which has no positive counterpart.
abbrev pub int_min_text : List ℕ
int_min_text = minus ∷ b'2' ∷ b'1' ∷ b'4' ∷ b'7' ∷ b'4' ∷ b'8' ∷ b'3' ∷ b'6' ∷ b'4' ∷ b'8' ∷ []

unfoldable pub print_dec : ℕ → List ℕ
unfolding dec_digits
print_dec arg =
    if arg == 0x8000_0000
    then int_min_text
    else if is_neg arg
    then minus ∷ dec_digits 10 (2 ^ 32 - arg)
    else dec_digits 10 arg

abbrev pub hex_digit : ℕ → ℕ
hex_digit d = if ltb d 10 then b'0' + d else b'a' + d - 10

unfoldable pub hex_digits : ℕ → ℕ → List ℕ
hex_digits zero n = []
hex_digits (suc k) n =
    let rest = hex_digits k (n / 16) in
    (if n / 16 == 0 then [] else rest) ++ (hex_digit (n % 16) ∷ [])

unfoldable pub print_hex : ℕ → List ℕ
unfolding hex_digits
print_hex arg = hex_digits 8 arg

-- `%c`, `%d` or `%x`, and `%s`.
unfoldable pub as_chr : List Arg → Run (List ℕ × List Arg)
as_chr (chr b ∷ rest) = ok (b % 256 ∷ [], rest)
as_chr _ = fault

unfoldable pub as_num : (ℕ → List ℕ) → List Arg → Run (List ℕ × List Arg)
as_num f (num n ∷ rest) = ok (f n, rest)
as_num f _ = fault

unfoldable pub as_str : List Arg → Run (List ℕ × List Arg)
as_str (str s ∷ rest) = ok (s, rest)
as_str _ = fault

-- What one conversion prints, and the arguments that are left. A conversion with no argument of its
-- kind reads what happens to lie on the stack.
unfoldable pub convert : ℕ → List Arg → Run (List ℕ × List Arg)
unfolding print_dec print_hex as_chr as_num as_str
convert c args =
    if c == b'c'
    then as_chr args
    else if c == b'd'
    then as_num print_dec args
    else if (c == b'x')
    then as_num print_hex args
    else if (c == b'X')
    then as_num print_hex args
    else if c == b's'
    then as_str args
    else if c == b'%'
    then ok (b'%' ∷ [], args)
    else ok ([], args)

-- The loop over the format; `true` says that a `%` has been read. The NUL behind a `%` is taken for
-- a conversion, and the loop reads on behind the end of the text.
unfoldable pub format_from : Bool → List ℕ → List Arg → Run (List ℕ)
unfolding convert
format_from false [] args = ok []
format_from true [] args = fault
format_from false (c ∷ f) args = elim (c == b'%') [
  | true ↦ format_from true f args
  | false ↦ do rest ← format_from false f args; ok (c ∷ rest)
]
format_from true (c ∷ f) args = elim (c == b' ') [
  | true ↦ format_from true f args
  | false ↦ do (out, args') ← convert c args; rest ← format_from false f args'; ok (out ++ rest)
]

unfoldable pub printk : List ℕ → List Arg → Run (List ℕ)
unfolding format_from
printk format args = format_from false format args
