-- ===== src/Console/PrintQ.antt =====
-- `printQ` of kernel/kernel/lib.c, and the functions named _Q: the text goes to the screen.
use oslab_nju.Prelude.{ℕ, ◌≡◌, refl, false, List, [], ◌∷◌, Run, ok, ◌∙◌}
use oslab_nju.Print.{Arg, printk}
use oslab_nju.Print.Sink.{print_string_to, print_dec_to, print_hex_to, print_to}
use oslab_nju.Print.Sink.SameText.{print_format}
use oslab_nju.Console.Screen.{Screen, put_default, put_all}

unfoldable pub print_ch_q : ℕ → Screen → Run Screen
print_ch_q arg s = ok (put_default arg s)

abbrev pub print_string_q : List ℕ → Screen → Run Screen
print_string_q = print_string_to print_ch_q

abbrev pub print_dec_q : ℕ → Screen → Run Screen
print_dec_q = print_dec_to print_ch_q

abbrev pub print_hex_q : ℕ → Screen → Run Screen
print_hex_q = print_hex_to print_ch_q

unfoldable pub print_q : List ℕ → List Arg → Screen → Run Screen
print_q format args s = print_to print_ch_q false format args s

print_string_q_lem : (xs : List ℕ) (s : Screen) → print_string_q xs s ≡ ok (put_all xs s)
unfolding print_string_to print_ch_q put_all
print_string_q_lem [] s = refl
print_string_q_lem (x ∷ xs) s = print_string_q_lem xs (put_default x s)

-- Where `printk` returns, `printQ` returns too by the same format and arguments, and puts the same text
-- on the screen, character by character.
pub print_q_lem :
    (format : List ℕ) (args : List Arg) (out : List ℕ) (s : Screen)
    → printk format args ≡ ok out
    → print_q format args s ≡ ok (put_all out s)
unfolding print_q
print_q_lem format args out s h =
    print_format print_ch_q format args out s h ∙ print_string_q_lem out s
