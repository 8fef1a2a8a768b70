-- ===== src/User/Decimal.antt =====
-- A number that is printed is read back.
use mathlib.Core.List.{append_assoc}
use native.Mathlib.Nat.{pow-suc}
use oslab_nju.Prelude.{
  ℕ, zero, suc, ◌+◌, ◌-◌, ◌*◌, ◌/◌, ◌%◌, ◌^◌, ◌<◌, ◌≡◌, ◌∙◌, ap, true, false, List, ◌∷◌, ◌++◌, some,
  ◌==◌, Bool-cases, inl, inr, arith,
}
use oslab_nju.Print.{dec_digits, print_dec}
use oslab_nju.User.{is_digit, decimal, scan_dec, is_blank}

decimal-step :
    (n d : ℕ) (cs : List ℕ)
    → d < 10
    → n * 10 + d < 2 ^ 32
    → decimal n ((b'0' + d) ∷ cs) ≡ decimal (n * 10 + d) cs
unfolding decimal
decimal-step n d cs h f =
    let digit : is_digit (b'0' + d) ≡ true = ground arith in
    let value : (n * 10 + (b'0' + d - b'0')) % 2 ^ 32 ≡ n * 10 + d = omega arith in
    rw (digit, value)

-- Reading the digits of `n` adds them to what has been read before.
decimal-digits :
    (k n : ℕ) (cs : List ℕ)
    → n < 10 ^ k
    → n < 2 ^ 32
    → decimal 0 (dec_digits k n ++ cs) ≡ decimal n cs
unfolding dec_digits
decimal-digits zero n cs h f = ap (λ m. decimal m cs) (omega arith)
decimal-digits (suc k) n cs h f = elim (Bool-cases (n / 10 == 0)) [
  | inl e ↦ rw e (
      decimal-step 0 (n % 10) cs (omega arith) (omega arith)
      ∙ ap (λ m. decimal m cs) (ground arith))
  | inr e ↦
      rw (e, append_assoc)
        (decimal-digits k (n / 10) ((b'0' + n % 10) ∷ cs) (omega (arith, pow-suc 10 k))
            (omega arith)
          ∙ decimal-step (n / 10) (n % 10) cs (omega arith) (omega arith)
          ∙ ap (λ m. decimal m cs) (omega arith))
]

-- What is printed begins with a digit.
dec_digits-head :
    (k n : ℕ) (cs : List ℕ)
    → (d : ℕ) × (ds : List ℕ) × (dec_digits (suc k) n ++ cs ≡ (b'0' + d) ∷ ds) × (d < 10)
unfolding dec_digits
dec_digits-head zero n cs = (n % 10, cs, ground arith, omega arith)
dec_digits-head (suc k) n cs = elim (Bool-cases (n / 10 == 0)) [
  | inl e ↦ (n % 10, cs, rw e, omega arith)
  | inr e ↦
      let (d, ds, h, b) = dec_digits-head k (n / 10) ((b'0' + n % 10) ∷ cs) in
      (d, ds, rw (e, append_assoc) h, b)
]

scan_dec-digit :
    (d : ℕ) (ds cs : List ℕ) → cs ≡ (b'0' + d) ∷ ds → d < 10 → scan_dec cs ≡ decimal 0 cs
unfolding scan_dec
scan_dec-digit d ds cs e h = let dark : is_blank (b'0' + d) ≡ false = ground arith in rw (e, dark)

-- A number that is not negative as an `int` is read back by `scan_dec` from the text that
-- `print_dec` gives, when a character that is no digit follows; that character is read too.
pub scan_dec-print_dec :
    (n c : ℕ) (rest : List ℕ)
    → n < 2 ^ 31
    → is_digit c ≡ false
    → scan_dec (print_dec n ++ (c ∷ rest)) ≡ some (n, rest)
unfolding print_dec decimal
scan_dec-print_dec n c rest h e =
    let (d, ds, front, b) = dec_digits-head 9 n (c ∷ rest) in
    let plain : print_dec n ≡ dec_digits 10 n = ground arith in
    rw (
      plain,
      scan_dec-digit d ds (dec_digits 10 n ++ (c ∷ rest)) front b,
      decimal-digits 10 n (c ∷ rest) (omega arith) (omega arith),
      e,
    )
