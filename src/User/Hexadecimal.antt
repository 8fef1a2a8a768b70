-- ===== src/User/Hexadecimal.antt =====
-- A hexadecimal number that is printed is read back.
use mathlib.Core.List.{append_assoc}
use native.Mathlib.Nat.{pow-suc}
use oslab_nju.Prelude.{
  ℕ, zero, suc, ◌+◌, ◌*◌, ◌/◌, ◌%◌, ◌^◌, ◌<◌, ◌≡◌, ◌∙◌, ap, true, false, List, ◌∷◌, ◌++◌, some,
  ◌==◌, ◌||◌, Bool-cases, inl, inr, arith,
}
use oslab_nju.Print.{hex_digit, hex_digits, print_hex}
use oslab_nju.User.{is_digit, is_hex_letter, hex_value, hexadecimal, scan_hex, is_blank}

hex_digit-value : (d : ℕ) → d < 16 → hex_value (hex_digit d) ≡ d
hex_digit-value d h = ground arith

hex_digit-known : (d : ℕ) → d < 16 → (is_digit (hex_digit d) || is_hex_letter (hex_digit d)) ≡ true
hex_digit-known d h = ground arith

hexadecimal-step :
    (n d : ℕ) (cs : List ℕ)
    → d < 16
    → n * 16 + d < 2 ^ 32
    → hexadecimal n (hex_digit d ∷ cs) ≡ hexadecimal (n * 16 + d) cs
unfolding hexadecimal
hexadecimal-step n d cs h f =
    let value : (n * 16 + d) % 2 ^ 32 ≡ n * 16 + d = omega arith in
    rw (hexadecimal, hex_digit-known d h, hex_digit-value d h, value)

-- Reading the digits of `n` adds them to what has been read before.
hexadecimal-digits :
    (k n : ℕ) (cs : List ℕ)
    → n < 16 ^ k
    → n < 2 ^ 32
    → hexadecimal 0 (hex_digits k n ++ cs) ≡ hexadecimal n cs
unfolding hex_digits
hexadecimal-digits zero n cs h f = ap (λ m. hexadecimal m cs) (omega arith)
hexadecimal-digits (suc k) n cs h f = elim (Bool-cases (n / 16 == 0)) [
  | inl e ↦ rw e (
      hexadecimal-step 0 (n % 16) cs (omega arith) (omega arith)
      ∙ ap (λ m. hexadecimal m cs) (ground arith))
  | inr e ↦
      rw (e, append_assoc)
        (hexadecimal-digits k (n / 16) (hex_digit (n % 16) ∷ cs) (omega (arith, pow-suc 16 k))
            (omega arith)
          ∙ hexadecimal-step (n / 16) (n % 16) cs (omega arith) (omega arith)
          ∙ ap (λ m. hexadecimal m cs) (omega arith))
]

-- What is printed begins with a digit.
hex_digits-head :
    (k n : ℕ) (cs : List ℕ)
    → (d : ℕ) × (ds : List ℕ) × (hex_digits (suc k) n ++ cs ≡ hex_digit d ∷ ds) × (d < 16)
unfolding hex_digits
hex_digits-head zero n cs = (n % 16, cs, ground arith, omega arith)
hex_digits-head (suc k) n cs = elim (Bool-cases (n / 16 == 0)) [
  | inl e ↦ (n % 16, cs, rw e, omega arith)
  | inr e ↦
      let (d, ds, h, b) = hex_digits-head k (n / 16) (hex_digit (n % 16) ∷ cs) in
      (d, ds, rw (e, append_assoc) h, b)
]

scan_hex-digit :
    (d : ℕ) (ds cs : List ℕ) → cs ≡ hex_digit d ∷ ds → d < 16 → scan_hex cs ≡ hexadecimal 0 cs
unfolding scan_hex
scan_hex-digit d ds cs e h =
    let dark : is_blank (hex_digit d) ≡ false = ground arith in rw (e, scan_hex, dark)

-- Any 32-bit number is read back by `scan_hex` from the text that `print_hex` gives, when a
-- character that is no hexadecimal digit follows; that character is read too.
pub scan_hex-print_hex :
    (n c : ℕ) (rest : List ℕ)
    → n < 2 ^ 32
    → (is_digit c || is_hex_letter c) ≡ false
    → scan_hex (print_hex n ++ (c ∷ rest)) ≡ some (n, rest)
unfolding print_hex hexadecimal
scan_hex-print_hex n c rest h e =
    let (d, ds, front, b) = hex_digits-head 7 n (c ∷ rest) in
    rw (
      scan_hex-digit d ds (hex_digits 8 n ++ (c ∷ rest)) front b,
      hexadecimal-digits 8 n (c ∷ rest) (omega arith) (omega arith),
      e,
    )
