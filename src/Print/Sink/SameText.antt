-- ===== src/Print/Sink/SameText.antt =====
-- All copies of the printing functions put out the same text.
use oslab_nju.Prelude.{
  ℕ, zero, suc, ◌+◌, ◌-◌, ◌/◌, ◌%◌, ◌^◌, ◌≡◌, refl, ◌∙◌, sym, Bool, true, false, List, [], ◌∷◌,
  ◌++◌, Run, ok, fault, spin, abort, ◌>>=◌, ◌==◌, Bool-cases, inl, inr, arith, ap,
}
use oslab_nju.Prelude.Word.{is_neg}
use oslab_nju.Print.{
  Arg, chr, num, str, dec_digits, minus, print_dec, hex_digit, hex_digits, print_hex, format_from,
  convert, as_chr, as_num, as_str, printk,
}
use oslab_nju.Print.Sink.{
  print_string_to, print_decimal_to, print_dec_to, print_hex_from, print_hex_to, print_chr,
  print_num, print_str, convert_to, print_to,
}

bind_assoc :
    {A B C : Type 0} (m : Run A) (f : A → Run B) (g : B → Run C)
    → m >>= f >>= g ≡ m >>= (λ x. f x >>= g)
bind_assoc (ok a) f g = refl
bind_assoc abort f g = refl
bind_assoc fault f g = refl
bind_assoc spin f g = refl

bind_ext : {A B : Type 0} (m : Run A) (f g : A → Run B) → ((a : A) → f a ≡ g a) → m >>= f ≡ m >>= g
bind_ext (ok a) f g h = h a
bind_ext abort f g h = refl
bind_ext fault f g h = refl
bind_ext spin f g h = refl

bind_ok : {A : Type 0} (m : Run A) → m >>= (λ a. ok a) ≡ m
bind_ok (ok a) = refl
bind_ok abort = refl
bind_ok fault = refl
bind_ok spin = refl

-- What a step that returned was made of.
bind-ok :
    {A B : Type 0} (m : Run A) (f : A → Run B) (b : B)
    → m >>= f ≡ ok b
    → (a : A) × (m ≡ ok a) × (f a ≡ ok b)
bind-ok (ok a) f b h = (a, refl, h)
bind-ok abort f b h = absurd (ground arith)
bind-ok fault f b h = absurd (ground arith)
bind-ok spin f b h = absurd (ground arith)

value : {A : Type 0} → Run A → A → A
value (ok a) b = a
value _ b = b

ok-injective : {A : Type 0} (a b : A) → ok a ≡ ok b → a ≡ b
unfolding value
ok-injective a b h = ap (λ r. value r a) h

module _ {S : Type 0} (print_ch : ℕ → S → Run S) where
  print_string_to-append :
      (xs ys : List ℕ) (s : S)
      → print_string_to print_ch (xs ++ ys) s
        ≡ print_string_to print_ch xs s >>= print_string_to print_ch ys
  unfolding print_string_to
  print_string_to-append [] ys s = refl
  print_string_to-append (x ∷ xs) ys s =
      bind_ext (print_ch x s) _ _ (print_string_to-append xs ys)
      ∙ sym (bind_assoc (print_ch x s) (print_string_to print_ch xs) (print_string_to print_ch ys))

  print_one : (c : ℕ) (s : S) → print_string_to print_ch (c ∷ []) s ≡ print_ch c s
  unfolding print_string_to
  print_one c s = bind_ok (print_ch c s)

  print_decimal_to_lem :
      (k n : ℕ) (s : S)
      → print_decimal_to print_ch k n s ≡ print_string_to print_ch (dec_digits k n) s
  unfolding print_decimal_to dec_digits print_string_to
  print_decimal_to_lem zero n s = refl
  print_decimal_to_lem (suc k) n s = elim (Bool-cases (n / 10 == 0)) [
    | inl e ↦ rw e (sym (print_one (b'0' + n % 10) s))
    | inr e ↦
        rw
          (
            e,
            print_string_to-append (dec_digits k (n / 10)) ((b'0' + n % 10) ∷ []) s,
            print_decimal_to_lem k (n / 10) s,
          )
          (bind_ext (print_string_to print_ch (dec_digits k (n / 10)) s) _ _
            (λ t. sym (print_one (b'0' + n % 10) t)))
  ]

  print_hex_from_lem :
      (k n : ℕ) (s : S)
      → print_hex_from print_ch k n s ≡ print_string_to print_ch (hex_digits k n) s
  unfolding print_hex_from hex_digits print_string_to
  print_hex_from_lem zero n s = refl
  print_hex_from_lem (suc k) n s = elim (Bool-cases (n / 16 == 0)) [
    | inl e ↦ rw e (sym (print_one (hex_digit (n % 16)) s))
    | inr e ↦
        rw
          (
            e,
            print_string_to-append (hex_digits k (n / 16)) (hex_digit (n % 16) ∷ []) s,
            print_hex_from_lem k (n / 16) s,
          )
          (bind_ext (print_string_to print_ch (hex_digits k (n / 16)) s) _ _
            (λ t. sym (print_one (hex_digit (n % 16)) t)))
  ]

  pub print_dec_to_lem :
      (n : ℕ) (s : S) → print_dec_to print_ch n s ≡ print_string_to print_ch (print_dec n) s
  unfolding print_dec_to print_dec print_decimal_to print_string_to
  print_dec_to_lem n s = elim (Bool-cases (n == 0x8000_0000)) [
    | inl e ↦ rw e refl
    | inr e ↦ elim (Bool-cases (is_neg n)) [
      | inl g ↦ rw (e, g) (bind_ext (print_ch minus s) _ _ (print_decimal_to_lem 10 (2 ^ 32 - n)))
      | inr g ↦ rw (e, g) (print_decimal_to_lem 10 n s)
    ]
  ]

  pub print_hex_to_lem :
      (n : ℕ) (s : S) → print_hex_to print_ch n s ≡ print_string_to print_ch (print_hex n) s
  unfolding print_hex_to print_hex
  print_hex_to_lem n s = print_hex_from_lem 8 n s

  -- A conversion that prints a text and leaves the arguments.
  abbrev sent : List ℕ × List Arg → S → Run (S × List Arg)
  sent (out, args) s = do s ← print_string_to print_ch out s; ok (s, args)

  print_chr_lem :
      (args : List Arg) (s : S) → print_chr print_ch args s ≡ as_chr args >>= (λ r. sent r s)
  unfolding as_chr
  print_chr_lem [] s = refl
  print_chr_lem (chr b ∷ rest) s = rw (print_one (b % 256) s) refl
  print_chr_lem (num n ∷ rest) s = refl
  print_chr_lem (str t ∷ rest) s = refl

  print_num_lem :
      (f : ℕ → List ℕ) (g : ℕ → S → Run S)
      → ((n : ℕ) (s : S) → g n s ≡ print_string_to print_ch (f n) s)
      → (args : List Arg) (s : S) → print_num print_ch g args s ≡ as_num f args >>= (λ r. sent r s)
  unfolding as_num
  print_num_lem f g h [] s = refl
  print_num_lem f g h (chr b ∷ rest) s = refl
  print_num_lem f g h (num n ∷ rest) s = rw (h n s) refl
  print_num_lem f g h (str t ∷ rest) s = refl

  print_str_lem :
      (args : List Arg) (s : S) → print_str print_ch args s ≡ as_str args >>= (λ r. sent r s)
  unfolding as_str
  print_str_lem [] s = refl
  print_str_lem (chr b ∷ rest) s = refl
  print_str_lem (num n ∷ rest) s = refl
  print_str_lem (str t ∷ rest) s = refl

  convert_to_lem :
      (c : ℕ) (args : List Arg) (s : S)
      → convert_to print_ch c args s ≡ convert c args >>= (λ r. sent r s)
  unfolding convert_to convert print_string_to
  convert_to_lem c args s = elim (Bool-cases (c == b'c')) [
    | inl e ↦ rw e (print_chr_lem args s)
    | inr e ↦ elim (Bool-cases (c == b'd')) [
      | inl d ↦ rw (e, d) (print_num_lem print_dec (print_dec_to print_ch) print_dec_to_lem args s)
      | inr d ↦ elim (Bool-cases (c == b'x')) [
        | inl x ↦
            rw (e, d, x) (print_num_lem print_hex (print_hex_to print_ch) print_hex_to_lem args s)
        | inr x ↦ elim (Bool-cases (c == b'X')) [
          | inl y ↦
              rw (e, d, x, y)
                (print_num_lem print_hex (print_hex_to print_ch) print_hex_to_lem args s)
          | inr y ↦ elim (Bool-cases (c == b's')) [
            | inl z ↦ rw (e, d, x, y, z) (print_str_lem args s)
            | inr z ↦ elim (Bool-cases (c == b'%')) [
              | inl p ↦
                  rw (e, d, x, y, z, p)
                    (ap (λ m. m >>= (λ t. ok (t, args))) (sym (print_one b'%' s)))
              | inr p ↦ rw (e, d, x, y, z, p) refl
            ]
          ]
        ]
      ]
    ]
  ]

  -- Wherever the characters go, the loop over the format puts out what `printk` does, in order.
  print_to_lem :
      (more : Bool) (f : List ℕ) (args : List Arg) (out : List ℕ) (s : S)
      → format_from more f args ≡ ok out
      → print_to print_ch more f args s ≡ print_string_to print_ch out s
  unfolding print_to format_from print_string_to
  print_to_lem false [] args [] s h = refl
  print_to_lem false [] args (o ∷ out) s h = absurd (ground arith)
  print_to_lem true [] args out s h = absurd (ground arith)
  print_to_lem false (c ∷ f) args out s h = elim (Bool-cases (c == b'%')) [
    | inl e ↦ rw (print_to, e) (print_to_lem true f args out s (rw (format_from, e) at h))
    | inr e ↦
        let (rest, run, same) =
          bind-ok (format_from false f args) _ out (rw (format_from, e) at h) in
        rw (print_to, e)
          (bind_ext (print_ch c s) _ _ (λ t. print_to_lem false f args rest t run)
            ∙ ap (λ o. print_string_to print_ch o s) (ok-injective (c ∷ rest) out same))
  ]
  print_to_lem true (c ∷ f) args out s h = elim (Bool-cases (c == b' ')) [
    | inl e ↦ rw (print_to, e) (print_to_lem true f args out s (rw (format_from, e) at h))
    | inr e ↦
        let ((o, args'), run, h') = bind-ok (convert c args) _ out (rw (format_from, e) at h) in
        let (rest, run', same) = bind-ok (format_from false f args') _ out h' in
        rw (print_to, e)
          (ap (λ m. m >>= (λ r. print_to print_ch false f r.1 r.0))
              (convert_to_lem c args s ∙ ap (λ m. m >>= (λ r. sent r s)) run)
            ∙ bind_assoc (print_string_to print_ch o s) (λ t. ok (t, args'))
                (λ r. print_to print_ch false f r.1 r.0)
            ∙ bind_ext (print_string_to print_ch o s) _ _
                (λ t. print_to_lem false f args' rest t run')
            ∙ sym (print_string_to-append o rest s)
            ∙ ap (λ o. print_string_to print_ch o s) (ok-injective (o ++ rest) out same))
  ]

  -- Wherever the characters go, the loop over the format puts out what `printk` prints, in order.
  pub print_format :
      (f : List ℕ) (args : List Arg) (out : List ℕ) (s : S)
      → printk f args ≡ ok out
      → print_to print_ch false f args s ≡ print_string_to print_ch out s
  unfolding printk
  print_format f args out s h = print_to_lem false f args out s h
