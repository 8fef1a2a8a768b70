-- ===== src/Tests/Texts.antt =====
-- Strings, numbers, the screen and the keyboard.
use oslab_nju.Prelude.{◌≢◌, ℕ, ◌+◌, ◌≡◌, ◌<◌, ◌≤◌, refl, [], ◌∷◌, ◌++◌, ok, some, arith}
use oslab_nju.Print.{print_dec, print_hex, printk, num, str}
use oslab_nju.User.{scan_dec}
use oslab_nju.User.Decimal.{scan_dec-print_dec}
use oslab_nju.Console.Screen.{Screen, screen_put}
use oslab_nju.Console.Cursor.{screen_put-column}
use oslab_nju.Console.Keyboard.{press_key, find_code}

scan_dec_example : scan_dec (print_dec 1205 ++ (10 ∷ [])) ≡ some (1205, [])
scan_dec_example = scan_dec-print_dec 1205 10 [] (omega arith) refl

prints_negative : print_dec 0xffff_fff6 ≡ b'-' ∷ b'1' ∷ b'0' ∷ []
unfolding print_dec
prints_negative = refl

prints_hex : print_hex 0xbeef ≡ b'b' ∷ b'e' ∷ b'e' ∷ b'f' ∷ []
unfolding print_hex
prints_hex = refl

prints_format :
    printk (b'p' ∷ b'%' ∷ b' ' ∷ b'd' ∷ b'%' ∷ b's' ∷ []) (num 7 ∷ str (b'x' ∷ []) ∷ [])
    ≡ ok (b'p' ∷ b'7' ∷ b'x' ∷ [])
unfolding printk
prints_format = refl

presses_q : press_key 16 ≡ b'q'
unfolding press_key find_code
presses_q = refl

abbrev screen : Screen
screen = record { cells = λ a. 0; cursor_x = 79; cursor_y = 3; ports = [] }

screen_put_example :
    ((screen_put b'a' 15 0 screen).cursor_x < 80)
    × (screen.cursor_y ≤ (screen_put b'a' 15 0 screen).cursor_y)
    × ((screen_put b'a' 15 0 screen).cursor_y ≤ screen.cursor_y + 1)
    × ((x : ℕ) → x ≢ 319 → (screen_put b'a' 15 0 screen).cells x ≡ 0)
screen_put_example = screen_put-column b'a' 15 0 screen (omega arith) (omega arith)
