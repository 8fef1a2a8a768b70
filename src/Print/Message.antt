-- ===== src/Print/Message.antt =====
-- The message of a failed assertion: i2A, append and displayMessage of kernel/lib/abort.c.
use oslab_nju.Prelude.{
  ℕ, zero, suc, ◌+◌, ◌-◌, ◌/◌, ◌%◌, ◌^◌, ◌≤◌, ◌<◌, ◌≡◌, ◌≢◌, refl, ◌∙◌, sym, ap, true, false, List,
  [], ◌∷◌, ◌++◌, Run, ok, fault, ◌>>=◌, ltb, ◌==◌, if◌then◌else◌, get_or, length, length-append,
  arith, Bool-cases, inl, inr,
}
use mathlib.Core.List.{append_assoc, append-nil}
use native.Mathlib.Nat.{pow-suc}
use oslab_nju.Text.{Bytes, store_byte, read_string}
use oslab_nju.Text.Memory.{NoNul, read_string-frame}
use oslab_nju.Print.{dec_digits, print_dec}

-- The loop of `i2A` from the pointer `p` down: it returns the last pointer. The `int` is not negative.
unfoldable pub i2a_from : ℕ → ℕ → ℕ → Bytes → ℕ × Bytes
i2a_from zero a p buf = (p, buf)
i2a_from (suc k) a p buf =
    let buf' = store_byte buf (p - 1) (b'0' + a % 10) in
    let rest = i2a_from k (a / 10) (p - 1) buf' in if a / 10 == 0 then (p - 1, buf') else rest

-- `i2A`: the string at the pointer that it returns. `buf` has 30 bytes, first 0.
unfoldable pub i2a : ℕ → Run (List ℕ)
i2a a = let (p, buf) = i2a_from 10 a 29 (λ x. 0) in read_string (30 - p) buf p

-- `append` to the array of 256 bytes.
unfoldable pub append : List ℕ → ℕ × Bytes → Run (ℕ × Bytes)
append [] (p, buf) = ok (p, buf)
append (c ∷ cs) (p, buf) = if ltb p 256 then append cs (p + 1, store_byte buf p c) else fault

-- "Assertion failed: "
abbrev pub blue_screen_text : List ℕ
blue_screen_text =
    b'A' ∷ b's' ∷ b's' ∷ b'e' ∷ b'r' ∷ b't' ∷ b'i' ∷ b'o' ∷ b'n' ∷ b' ' ∷ b'f' ∷ b'a' ∷ b'i' ∷ b'l'
    ∷ b'e' ∷ b'd' ∷ b':' ∷ b' ' ∷ []

-- `displayMessage(file, line)`: the characters that go to `putChar`.
unfoldable pub display_message : List ℕ → ℕ → Run (List ℕ)
display_message file line = do
  b ← append file (18, λ x. get_or blue_screen_text x 0)
  b ← append (b':' ∷ []) b
  text ← i2a line
  b ← append text b
  (p, buf) ← append (10 ∷ []) b
  read_string 256 buf 0

-- One more character in front of a string.
read_string-next :
    (room a c : ℕ) (s : List ℕ) (buf : Bytes)
    → buf a ≡ c
    → c ≢ 0
    → read_string room buf (a + 1) ≡ ok s
    → read_string (suc room) buf a ≡ ok (c ∷ s)
unfolding read_string
read_string-next room a c s buf e n h =
    let dark : (buf a == 0) ≡ false = ground arith in
    rw (read_string, dark, h) (ap (λ v. ok (v ∷ s)) e)

read_string-cons :
    (room p c : ℕ) (s : List ℕ) (buf : Bytes)
    → c ≢ 0
    → read_string room buf (p + 1) ≡ ok s
    → read_string (suc room) (store_byte buf p c) p ≡ ok (c ∷ s)
read_string-cons room p c s buf n h =
    read_string-next room p c s (store_byte buf p c) (ground arith) n
      (read_string-frame room (p + 1) buf (store_byte buf p c) (λ x l b. ground arith) ∙ h)

i2a_from_lem :
    (k a p : ℕ) (s : List ℕ) (buf : Bytes)
    → a < 10 ^ k
    → k ≤ p
    → p ≤ 30
    → read_string (30 - p) buf p ≡ ok s
    → let (p', buf') = i2a_from k a p buf in
      read_string (30 - p') buf' p' ≡ ok (dec_digits k a ++ s)
unfolding i2a_from dec_digits
i2a_from_lem zero a p s buf h b c e = e
i2a_from_lem (suc k) a p s buf h b c e =
    let d : ℕ = b'0' + a % 10 in
    let back : p - 1 + 1 ≡ p = omega arith in
    let room : 30 - (p - 1) ≡ suc (30 - p) = omega arith in
    let one : read_string (30 - (p - 1)) (store_byte buf (p - 1) d) (p - 1) ≡ ok (d ∷ s) =
      rw room (read_string-cons (30 - p) (p - 1) d s buf (λ z. omega arith) (rw back e)) in
    elim (Bool-cases (a / 10 == 0)) [
      | inl z ↦ rw z one
      | inr z ↦
          rw (z, append_assoc)
            (i2a_from_lem k (a / 10) (p - 1) (d ∷ s) (store_byte buf (p - 1) d)
              (omega (arith, pow-suc 10 k)) (omega arith) (omega arith) one)
    ]

i2a_lem : (a : ℕ) → a < 2 ^ 31 → i2a a ≡ ok (print_dec a)
unfolding i2a print_dec read_string
i2a_lem a h =
    let plain : print_dec a ≡ dec_digits 10 a = ground arith in
    i2a_from_lem 10 a 29 [] (λ x. 0) (omega arith) (omega arith) (omega arith) refl
    ∙ ap (λ l. ok l) (append-nil (dec_digits 10 a) ∙ sym plain)

get_or-snoc :
    (xs : List ℕ) (c j : ℕ)
    → get_or (xs ++ (c ∷ [])) j 0 ≡ (if j == length xs then c else get_or xs j 0)
get_or-snoc [] c zero = refl
get_or-snoc [] c (suc j) = ground arith
get_or-snoc (x ∷ xs) c zero = ground arith
get_or-snoc (x ∷ xs) c (suc j) = ground (arith, get_or-snoc xs c j)

append_lem :
    (xs s : List ℕ) (p : ℕ) (buf : Bytes)
    → p ≡ length s
    → ((x : ℕ) → buf x ≡ get_or s x 0)
    → p + length xs ≤ 256
    → (p' : ℕ) × (buf' : Bytes) × (append xs (p, buf) ≡ ok (p', buf'))
      × (p' ≡ length (s ++ xs))
      × ((x : ℕ) → buf' x ≡ get_or (s ++ xs) x 0)
unfolding append
append_lem [] s p buf h e b = (
  p,
  buf,
  refl,
  omega (arith, length-append s []),
  λ x. e x ∙ ap (λ l. get_or l x 0) (sym (append-nil s)),
)
append_lem (c ∷ cs) s p buf h e b =
    let room : ltb p 256 ≡ true = ground arith in
    let (p', buf', run, len, all) =
      append_lem cs (s ++ (c ∷ [])) (p + 1) (store_byte buf p c)
        (omega (arith, length-append s (c ∷ []))) (λ x. ground (arith, get_or-snoc s c x, e x))
        (omega arith) in
    let one : (s ++ (c ∷ [])) ++ cs ≡ s ++ (c ∷ cs) = append_assoc s (c ∷ []) cs in
    (p', buf', rw room run, rw one at len, λ x. rw one at (all x))

read_all :
    (xs : List ℕ) (room i : ℕ) (buf : Bytes)
    → ((j : ℕ) → buf (i + j) ≡ get_or xs j 0)
    → NoNul xs
    → length xs < room
    → read_string room buf i ≡ ok xs
unfolding read_string
read_all xs zero i buf e n h = absurd (omega arith)
read_all [] (suc room) i buf e n h =
    let end : buf i ≡ 0 = ap buf (omega arith) ∙ e 0 in ground arith
read_all (x ∷ xs) (suc room) i buf e n h =
    read_string-next room i x xs buf (ap buf (omega arith) ∙ e 0) n.0
      (read_all xs room (i + 1) buf (λ j. ap buf (omega arith) ∙ e (suc j)) n.1 (omega arith))

NoNul-append : (xs ys : List ℕ) → NoNul xs → NoNul ys → NoNul (xs ++ ys)
NoNul-append [] ys a b = b
NoNul-append (x ∷ xs) ys a b = (a.0, NoNul-append xs ys a.1 b)

dec_digits-NoNul : (k n : ℕ) → NoNul (dec_digits k n)
unfolding dec_digits
dec_digits-NoNul zero n = tt
dec_digits-NoNul (suc k) n = elim (Bool-cases (n / 10 == 0)) [
  | inl e ↦ rw e ((λ z. omega arith), tt)
  | inr e ↦ rw e (
      NoNul-append (dec_digits k (n / 10)) _ (dec_digits-NoNul k (n / 10)) ((λ z. omega arith), tt))
]

length-dec_digits : (k n : ℕ) → length (dec_digits k n) ≤ k
unfolding dec_digits
length-dec_digits zero n = omega arith
length-dec_digits (suc k) n = elim (Bool-cases (n / 10 == 0)) [
  | inl e ↦ rw e (omega arith)
  | inr e ↦ rw e (
      omega (
        arith,
        length-append (dec_digits k (n / 10)) ((b'0' + n % 10) ∷ []),
        length-dec_digits k (n / 10),
      ))
]

blue_screen_text-NoNul : NoNul blue_screen_text
blue_screen_text-NoNul = ground arith

message-NoNul :
    (file digits : List ℕ)
    → NoNul file
    → NoNul digits
    → NoNul ((((blue_screen_text ++ file) ++ (b':' ∷ [])) ++ digits) ++ (10 ∷ []))
message-NoNul file digits n m =
    let one = NoNul-append blue_screen_text file blue_screen_text-NoNul n in
    let two = NoNul-append (blue_screen_text ++ file) (b':' ∷ []) one ((λ z. omega arith), tt) in
    let three = NoNul-append ((blue_screen_text ++ file) ++ (b':' ∷ [])) digits two m in
    NoNul-append (((blue_screen_text ++ file) ++ (b':' ∷ [])) ++ digits) (10 ∷ []) three
      ((λ z. omega arith), tt)

-- Whatever is done next with the buffer and the pointer.
append-next :
    (xs s : List ℕ) (p : ℕ) (buf : Bytes) (f : ℕ × Bytes → Run (List ℕ)) (r : Run (List ℕ))
    → p ≡ length s
    → ((x : ℕ) → buf x ≡ get_or s x 0)
    → length s + length xs ≤ 256
    → ((q : ℕ) (b : Bytes)
        → q ≡ length (s ++ xs)
        → ((x : ℕ) → b x ≡ get_or (s ++ xs) x 0)
        → f (q, b) ≡ r)
    → append xs (p, buf) >>= f ≡ r
append-next xs s p buf f r h e b next =
    let (q, b', run, len, all) = append_lem xs s p buf h e (omega arith) in
    ap (λ m. m >>= f) run ∙ next q b' len all

-- The message of a failed assertion is "Assertion failed: ", the file, a colon and the line as
-- `print_dec` prints it, and a line feed. The name of the file has at most 200 characters and no NUL,
-- and the line is below 2 ^ 31.
pub display_message_lem :
    (file : List ℕ) (line : ℕ)
    → NoNul file
    → length file ≤ 200
    → line < 2 ^ 31
    → display_message file line
      ≡ ok ((((blue_screen_text ++ file) ++ (b':' ∷ [])) ++ print_dec line) ++ (10 ∷ []))
unfolding display_message print_dec
display_message_lem file line n h b =
    let digits : print_dec line ≡ dec_digits 10 line = ground arith in
    let short = length-dec_digits 10 line in
    let count : length (print_dec line) ≤ 10 = rw digits short in
    let plain : NoNul (print_dec line) = rw digits (dec_digits-NoNul 10 line) in
    let t1 : List ℕ = blue_screen_text ++ file in
    let t2 : List ℕ = t1 ++ (b':' ∷ []) in
    let t3 : List ℕ = t2 ++ print_dec line in
    let s1 = length-append blue_screen_text file in
    let s2 = length-append t1 (b':' ∷ []) in
    let s3 = length-append t2 (print_dec line) in
    let s4 = length-append t3 (10 ∷ []) in
    let clean = message-NoNul file (print_dec line) n plain in
    append-next file blue_screen_text 18 (λ x. get_or blue_screen_text x 0) _ _ refl (λ x. refl)
      (omega arith)
      (λ p1 b1 l1 e1. append-next (b':' ∷ []) t1 p1 b1 _ _ l1 e1 (omega (arith, s1)) (λ p2 b2 l2 e2.
        rw (i2a_lem line b) (
          append-next (print_dec line) t2 p2 b2 _ _ l2 e2 (omega (arith, s1, s2, count))
            (λ p3 b3 l3 e3.
              append-next (10 ∷ []) t3 p3 b3 _ _ l3 e3 (omega (arith, s1, s2, s3, count))
                (λ p4 b4 l4 e4.
                  read_all (t3 ++ (10 ∷ [])) 256 0 b4 (λ j. ap b4 (omega arith) ∙ e4 j) clean
                    (omega (arith, s4, s3, s2, s1, count)))))))
