-- ===== src/User/Output.antt =====
-- `printf` of lib/syscall.c: the text goes to the buffer `outbuf`, and from there to `write`.
use oslab_nju.Prelude.{
  ℕ, ◌+◌, ◌%◌, ◌≤◌, ◌<◌, ◌≡◌, refl, ◌∙◌, ap, false, true, List, [], ◌∷◌, Run, ok, fault, ◌>>=◌, ltb,
  if◌then◌else◌, length, map, arith, Bool-cases, inl, inr,
}
use oslab_nju.Text.{Bytes, store_byte, take_bytes}
use oslab_nju.Proc.{TrapFrame}
use oslab_nju.Print.{Arg, printk}
use oslab_nju.Print.Sink.{print_string_to, print_dec_to, print_hex_to, print_to}
use oslab_nju.Print.Sink.SameText.{print_format}
use oslab_nju.User.Calls.{write}

-- `outbuf` and `outlen`.
pub record Output : Type 0 where
  pub outbuf : Bytes
  pub outlen : ℕ

abbrev pub max_size : ℕ
max_size = 1024

unfoldable pub print_ch : ℕ → Output → Run Output
print_ch arg o =
    if ltb o.outlen max_size
    then ok (record { outbuf = store_byte o.outbuf o.outlen (arg % 256); outlen = o.outlen + 1 })
    else fault

abbrev pub print_string : List ℕ → Output → Run Output
print_string = print_string_to print_ch

abbrev pub print_dec : ℕ → Output → Run Output
print_dec = print_dec_to print_ch

abbrev pub print_hex : ℕ → Output → Run Output
print_hex = print_hex_to print_ch

-- `printf`, with the address of `outbuf` and the registers of the program.
unfoldable pub printf : ℕ → List ℕ → List Arg → TrapFrame → Output → Run (Output × TrapFrame)
printf address format args t o = do
  o ← print_to print_ch false format args (record o { outlen = 0 })
  ok (o, write 1 address o.outlen t)

print_string_lem :
    (xs : List ℕ) (o : Output)
    → o.outlen + length xs ≤ max_size
    → (o' : Output) × (print_string xs o ≡ ok o')
      × (o'.outlen ≡ o.outlen + length xs)
      × (take_bytes (length xs) o.outlen o'.outbuf ≡ map (λ c. c % 256) xs)
      × ((j : ℕ) → j < o.outlen → o'.outbuf j ≡ o.outbuf j)
unfolding print_string_to print_ch take_bytes
print_string_lem [] o h = (o, refl, omega arith, refl, λ j b. refl)
print_string_lem (x ∷ xs) o h =
    let o1 : Output = record {
      outbuf = store_byte o.outbuf o.outlen (x % 256);
      outlen = o.outlen + 1;
    } in
    let (o', run, len, text, same) = print_string_lem xs o1 (omega arith) in
    let room : ltb o.outlen 1024 ≡ true = ground arith in
    let first : o'.outbuf o.outlen ≡ x % 256 = ground (arith, same o.outlen) in
    (
      o',
      rw room run,
      omega (arith, len),
      ap (λ c. c ∷ take_bytes (length xs) o1.outlen o'.outbuf) first ∙ ap (λ l. (x % 256) ∷ l) text,
      λ j b. ground (arith, same j),
    )

print_string-overflow :
    (xs : List ℕ) (o : Output)
    → o.outlen ≤ max_size
    → max_size < o.outlen + length xs
    → print_string xs o ≡ fault
unfolding print_string_to print_ch
print_string-overflow [] o b h = absurd (omega arith)
print_string-overflow (x ∷ xs) o b h = elim (Bool-cases (ltb o.outlen 1024)) [
  | inl e ↦ rw e (
      print_string-overflow xs
        (record { outbuf = store_byte o.outbuf o.outlen (x % 256); outlen = o.outlen + 1 })
        (ground arith) (omega arith))
  | inr e ↦ rw e refl
]

-- A text of `printk`, of at most 1024 characters, is what `printf` puts into `outbuf`, each character
-- as a byte, and hands to the call `write` for the standard output.
pub printf_lem :
    (address : ℕ) (format : List ℕ) (args : List Arg) (out : List ℕ) (t : TrapFrame) (o : Output)
    → printk format args ≡ ok out
    → length out ≤ max_size
    → (o' : Output) × (printf address format args t o ≡ ok (o', write 1 address (length out) t))
      × (take_bytes (length out) 0 o'.outbuf ≡ map (λ c. c % 256) out)
unfolding printf
printf_lem address format args out t o h b =
    let (o', run, len, text, _) = print_string_lem out (record o { outlen = 0 }) (omega arith) in
    let count : o'.outlen ≡ length out = omega (arith, len) in
    (
      o',
      rw (print_format print_ch format args out (record o { outlen = 0 }) h, run, count) refl,
      text,
    )

-- A longer text than 1024 characters is written behind the buffer.
pub printf-overflow :
    (address : ℕ) (format : List ℕ) (args : List Arg) (out : List ℕ) (t : TrapFrame) (o : Output)
    → printk format args ≡ ok out
    → max_size < length out
    → printf address format args t o ≡ fault
unfolding printf
printf-overflow address format args out t o h b = rw (
  print_format print_ch format args out (record o { outlen = 0 }) h,
  print_string-overflow out (record o { outlen = 0 }) (omega arith) (omega arith),
)
