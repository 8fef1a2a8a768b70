-- ===== src/User/Input.antt =====
-- `scanf` of lib/syscall.c. Where the code waits for a key that is not there, the result is `spin`.
use oslab_nju.Prelude.{
  ℕ, zero, suc, ◌+◌, ◌/◌, ◌%◌, ◌^◌, ◌<◌, ◌≤◌, ◌≡◌, refl, ◌∙◌, ap, Bool, true, false, List, [], ◌∷◌,
  ◌++◌, map, Run, ok, fault, spin, ◌>>=◌, Option, none, some, ◌==◌, if◌then◌else◌, length, arith,
  Bool-cases, inl, inr,
}
use mathlib.Core.List.{append_assoc, map-append}
use oslab_nju.Text.{Bytes, store_byte, write_string, take_bytes}
use oslab_nju.Proc.{TrapFrame}
use oslab_nju.Print.{chr, num, printk, dec_digits, print_dec}
use oslab_nju.Disk.{store_word}
use oslab_nju.User.{scan_ch, scan_dec, scan_hex, scan_string}
use oslab_nju.User.Decimal.{scan_dec-print_dec}
use oslab_nju.User.Output.{Output, max_size, printf, printf_lem}
use oslab_nju.User.Calls.{write}
use oslab_nju.Prelude.Word.{is_neg}

-- The program's memory, the keys that are still to be read, the registers, the output buffer, and the
-- calls of `write` that have been made, the last first.
pub record Scan : Type 0 where
  pub mem : Bytes
  pub keys : List ℕ
  pub regs : TrapFrame
  pub out : Output
  pub calls : List TrapFrame

-- A conversion that reads keys, and stores what it makes of them.
abbrev scanned {ℓ} : {A : Type ℓ} → Option (A × List ℕ) → (A → Bytes → Bytes) → Scan → Run Scan
scanned none put s = spin
scanned (some (x, keys)) put s = ok (record s { keys = keys; mem = put x s.mem })

-- The switch over the character behind `%`; an argument is an address.
unfoldable pub scan_one : ℕ → List ℕ → Scan → Run (Scan × List ℕ)
scan_one c [] s =
    if c == b'c'
    then fault
    else if c == b'd'
    then fault
    else if c == b'x'
    then fault
    else if c == b's'
    then fault
    else ok (s, [])
scan_one c (a ∷ args) s =
    if c == b'c'
    then (do s ← scanned (scan_ch s.keys) (λ x mem. store_byte mem a x) s; ok (s, args))
    else if c == b'd'
    then (do s ← scanned (scan_dec s.keys) (λ n mem. store_word mem a n) s; ok (s, args))
    else if c == b'x'
    then (do s ← scanned (scan_hex s.keys) (λ n mem. store_word mem a n) s; ok (s, args))
    else if c == b's'
    then (do s ← scanned (scan_string s.keys) (λ t mem. write_string t a mem) s; ok (s, args))
    else ok (s, a ∷ args)

-- `printf("%c", c)`.
unfoldable pub print_literal : ℕ → ℕ → Scan → Run Scan
print_literal outbuf c s = do
  (o, t) ← printf outbuf (b'%' ∷ b'c' ∷ []) (chr c ∷ []) s.regs s.out
  ok (record s { out = o; calls = t ∷ s.calls })

-- The loop over the format; `true` says that a `%` has been read.
unfoldable pub scan_from : ℕ → Bool → List ℕ → List ℕ → Scan → Run Scan
scan_from outbuf false [] args s = ok s
scan_from outbuf true [] args s = fault
scan_from outbuf false (c ∷ f) args s = elim (c == b'%') [
  | true ↦ scan_from outbuf true f args s
  | false ↦ do s ← print_literal outbuf c s; scan_from outbuf false f args s
]
scan_from outbuf true (c ∷ f) args s = elim (c == b' ') [
  | true ↦ scan_from outbuf true f args s
  | false ↦ do (s, args) ← scan_one c args s; scan_from outbuf false f args s
]

unfoldable pub scanf : ℕ → List ℕ → List ℕ → Scan → Run Scan
scanf outbuf format args s =
    scan_from outbuf false format args (record s { out = record s.out { outlen = 0 } })

-- A format with `%d` and a line feed, and one with `%d`, for each number; the text of the numbers, one
-- in each line, the addresses of an array, and memory with the numbers in it.
abbrev pub lines_format : List ℕ → List ℕ
lines_format [] = []
lines_format (n ∷ ns) = b'%' ∷ b'd' ∷ 10 ∷ lines_format ns

abbrev pub numbers_format : List ℕ → List ℕ
numbers_format [] = []
numbers_format (n ∷ ns) = b'%' ∷ b'd' ∷ numbers_format ns

abbrev pub lines : List ℕ → List ℕ
lines [] = []
lines (n ∷ ns) = print_dec n ++ (10 ∷ lines ns)

abbrev pub addresses : List ℕ → ℕ → List ℕ
addresses [] a = []
addresses (n ∷ ns) a = a ∷ addresses ns (a + 4)

abbrev pub store_words : List ℕ → ℕ → Bytes → Bytes
store_words [] a mem = mem
store_words (n ∷ ns) a mem = store_words ns (a + 4) (store_word mem a n)

abbrev pub AreSmall : List ℕ → Type 0
AreSmall [] = Unit {0}
AreSmall (n ∷ ns) = (n < 2 ^ 31) × AreSmall ns

print_lines : (ns : List ℕ) → printk (lines_format ns) (map num ns) ≡ ok (lines ns)
unfolding printk
print_lines [] = refl
print_lines (n ∷ ns) = rw (print_lines ns) refl

scan_lines :
    (ns : List ℕ) (outbuf a : ℕ) (rest : List ℕ) (s : Scan)
    → AreSmall ns
    → s.keys ≡ lines ns ++ rest
    → scan_from outbuf false (numbers_format ns) (addresses ns a) s
      ≡ ok (record s { keys = rest; mem = store_words ns a s.mem })
unfolding scan_from scan_one
scan_lines [] outbuf a rest s h e = ap (λ k. ok (record s { keys = k })) e
scan_lines (n ∷ ns) outbuf a rest s h e =
    let read : scan_dec s.keys ≡ some (n, lines ns ++ rest) =
      ap scan_dec (e ∙ append_assoc (print_dec n) (10 ∷ lines ns) rest)
      ∙ scan_dec-print_dec n 10 (lines ns ++ rest) h.0 refl in
    rw read (
      scan_lines ns outbuf (a + 4) rest
        (record s { keys = lines ns ++ rest; mem = store_word s.mem a n }) h.1 refl)

-- The characters of these texts are bytes.
dec_digits-bytes : (k n : ℕ) → map (λ c. c % 256) (dec_digits k n) ≡ dec_digits k n
unfolding dec_digits
dec_digits-bytes zero n = refl
dec_digits-bytes (suc k) n =
    let last : (b'0' + n % 10) % 256 ≡ b'0' + n % 10 = omega arith in
    elim (Bool-cases (n / 10 == 0)) [
      | inl e ↦ rw (e, last) refl
      | inr e ↦ rw e (
          map-append (λ c. c % 256) (dec_digits k (n / 10)) ((b'0' + n % 10) ∷ [])
          ∙ (rw (dec_digits-bytes k (n / 10), last) refl))
    ]

lines-bytes : (ns : List ℕ) → AreSmall ns → map (λ c. c % 256) (lines ns) ≡ lines ns
unfolding print_dec
lines-bytes [] h = refl
lines-bytes (n ∷ ns) h =
    let middle : (n == 0x8000_0000) ≡ false = ground (arith, h.0) in
    let plus : is_neg n ≡ false = ground (arith, h.0) in
    rw (middle, plus)
      (map-append (λ c. c % 256) (dec_digits 10 n) (10 ∷ lines ns)
        ∙ (rw (dec_digits-bytes 10 n, lines-bytes ns h.1) refl))

-- Numbers below 2 ^ 31 are printed by `printf` with `%d`, one in each line. If their text has at most 1024
-- characters, the bytes that `printf` hands to `write` are what `scanf` needs as keys: it reads the
-- numbers back in order, stores them into an array, and leaves the keys behind them.
pub scanf-printf :
    (ns : List ℕ) (outbuf a : ℕ) (rest : List ℕ) (t : TrapFrame) (o : Output) (s : Scan)
    → AreSmall ns
    → length (lines ns) ≤ max_size
    → (o' : Output) × (printf outbuf (lines_format ns) (map num ns) t o
        ≡ ok (o', write 1 outbuf (length (lines ns)) t))
      × (scanf outbuf
            (numbers_format ns)
            (addresses ns a)
            (record s { keys = take_bytes (length (lines ns)) 0 o'.outbuf ++ rest })
          ≡ ok (record s {
            keys = rest;
            mem = store_words ns a s.mem;
            out = record s.out { outlen = 0 };
          }))
unfolding scanf
scanf-printf ns outbuf a rest t o s h b =
    let (o', run, text) =
      printf_lem outbuf (lines_format ns) (map num ns) (lines ns) t o (print_lines ns) b in
    let sent : List ℕ = take_bytes (length (lines ns)) 0 o'.outbuf in
    (
      o',
      run,
      scan_lines ns outbuf a rest
          (record s { keys = sent ++ rest; out = record s.out { outlen = 0 } }) h
          (ap (λ l. l ++ rest) (text ∙ lines-bytes ns h)),
    )
