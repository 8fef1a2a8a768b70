-- ===== src/Tests/Output.antt =====
-- Printing and reading back.
use oslab_nju.Prelude.{ℕ, ◌≡◌, refl, List, [], ◌∷◌, ◌++◌, ok, arith}
use oslab_nju.Proc.{TrapFrame}
use oslab_nju.Print.{num, dec_digits, print_dec, printk}
use oslab_nju.Text.{take_bytes}
use oslab_nju.User.Calls.{write}
use oslab_nju.Console.Screen.{put_all}
use oslab_nju.Disk.{store_word}
use oslab_nju.Kernel.Trap.{system_call}
use oslab_nju.User.Output.{Output, printf}
use oslab_nju.User.Input.{Scan, scanf, scanf-printf}
use oslab_nju.User.Printing.{with_outbuf, printf_to_screen}
use oslab_nju.Tests.World.{frame, sleeping}
use oslab_nju.Tests.Procs.{kernel}

abbrev output : Output
output = record { outbuf = λ a. 0; outlen = 3 }

abbrev format : List ℕ
format = b'a' ∷ b'%' ∷ b'd' ∷ []

printf_to_screen_example :
    (o' : Output) × (t' : TrapFrame) × (printf 0x20_4000 format (num 42 ∷ []) frame output
      ≡ ok (o', t'))
    × (let k' = record (kernel sleeping) { mem = with_outbuf 0x20_4000 o' (kernel sleeping).mem } in
        system_call t' [] k'
        ≡ ok (record k' { screen = put_all (b'a' ∷ b'4' ∷ b'2' ∷ []) (kernel sleeping).screen }))
unfolding printk
printf_to_screen_example =
    printf_to_screen 0x20_4000 format (num 42 ∷ []) (b'a' ∷ b'4' ∷ b'2' ∷ []) frame output []
      (kernel sleeping) refl (omega arith) (omega arith) (omega arith)

abbrev typed : Scan
typed = record { mem = λ a. 0; keys = []; regs = frame; out = output; calls = [] }

scanf-printf_example :
    (o' : Output) × (printf 0x20_4000
        (b'%' ∷ b'd' ∷ 10 ∷ b'%' ∷ b'd' ∷ 10 ∷ [])
        (num 7 ∷ num 1205 ∷ [])
        frame
        output
      ≡ ok (o', write 1 0x20_4000 7 frame))
    × (scanf 0x20_4000
          (b'%' ∷ b'd' ∷ b'%' ∷ b'd' ∷ [])
          (0x1000 ∷ 0x1004 ∷ [])
          (record typed { keys = take_bytes 7 0 o'.outbuf ++ (b'q' ∷ []) })
        ≡ ok (record typed {
          keys = b'q' ∷ [];
          mem = store_word (store_word (λ a. 0) 0x1000 7) 0x1004 1205;
          out = record output { outlen = 0 };
        }))
unfolding print_dec dec_digits
scanf-printf_example =
    scanf-printf (7 ∷ 1205 ∷ []) 0x20_4000 0x1000 (b'q' ∷ []) frame output typed (omega arith)
      (omega arith)
