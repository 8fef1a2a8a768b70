-- ===== src/Print/Sink.antt =====
-- The three copies of the printing functions differ in where `print_ch` puts a character: these are the
-- functions over any such place.
pub mod SameText
use oslab_nju.Prelude.{
  ℕ, zero, suc, ◌+◌, ◌-◌, ◌/◌, ◌%◌, ◌^◌, ◌≡◌, refl, ◌∙◌, sym, Bool, true, false, List, [], ◌∷◌,
  ◌++◌, Run, ok, fault, spin, abort, ◌>>=◌, ltb, ◌==◌, if◌then◌else◌, Bool-cases, inl, inr, arith,
  ap,
}
use oslab_nju.Prelude.Word.{is_neg}
use oslab_nju.Print.{
  Arg, chr, num, str, dec_digits, int_min_text, minus, print_dec, hex_digit, hex_digits, print_hex,
  format_from, convert, as_chr, as_num, as_str, printk,
}

module _ {S : Type 0} (print_ch : ℕ → S → Run S) where
  unfoldable pub print_string_to : List ℕ → S → Run S
  print_string_to [] s = ok s
  print_string_to (c ∷ cs) s = print_ch c s >>= print_string_to cs

  -- The recursion of `print_dec` on a number that is not negative, and of `print_hex`, with at most
  -- `k` digits.
  unfoldable pub print_decimal_to : ℕ → ℕ → S → Run S
  print_decimal_to zero n s = ok s
  print_decimal_to (suc k) n s = do
    let rest = print_decimal_to k (n / 10) s
    s ← if n / 10 == 0 then ok s else rest
    print_ch (b'0' + n % 10) s

  unfoldable pub print_dec_to : ℕ → S → Run S
  print_dec_to arg s =
      if arg == 0x8000_0000
      then print_string_to int_min_text s
      else if is_neg arg
      then print_ch minus s >>= print_decimal_to 10 (2 ^ 32 - arg)
      else print_decimal_to 10 arg s

  unfoldable pub print_hex_from : ℕ → ℕ → S → Run S
  print_hex_from zero n s = ok s
  print_hex_from (suc k) n s = do
    let rest = print_hex_from k (n / 16) s
    s ← if n / 16 == 0 then ok s else rest
    print_ch (hex_digit (n % 16)) s

  unfoldable pub print_hex_to : ℕ → S → Run S
  print_hex_to arg s = print_hex_from 8 arg s

  -- `%c`, `%d` or `%x`, and `%s`.
  abbrev pub print_chr : List Arg → S → Run (S × List Arg)
  print_chr (chr b ∷ rest) s = do s ← print_ch (b % 256) s; ok (s, rest)
  print_chr _ s = fault

  abbrev pub print_num : (ℕ → S → Run S) → List Arg → S → Run (S × List Arg)
  print_num f (num n ∷ rest) s = do s ← f n s; ok (s, rest)
  print_num f _ s = fault

  abbrev pub print_str : List Arg → S → Run (S × List Arg)
  print_str (str t ∷ rest) s = do s ← print_string_to t s; ok (s, rest)
  print_str _ s = fault

  -- The switch over the character behind `%`.
  unfoldable pub convert_to : ℕ → List Arg → S → Run (S × List Arg)
  convert_to c args s =
      if c == b'c'
      then print_chr args s
      else if c == b'd'
      then print_num print_dec_to args s
      else if (c == b'x')
      then print_num print_hex_to args s
      else if (c == b'X')
      then print_num print_hex_to args s
      else if c == b's'
      then print_str args s
      else if c == b'%'
      then (do s ← print_ch b'%' s; ok (s, args))
      else ok (s, args)

  -- The loop over the format.
  unfoldable pub print_to : Bool → List ℕ → List Arg → S → Run S
  print_to false [] args s = ok s
  print_to true [] args s = fault
  print_to false (c ∷ f) args s = elim (c == b'%') [
    | true ↦ print_to true f args s
    | false ↦ print_ch c s >>= print_to false f args
  ]
  print_to true (c ∷ f) args s = elim (c == b' ') [
    | true ↦ print_to true f args s
    | false ↦ do (s, args) ← convert_to c args s; print_to false f args s
  ]
