-- ===== src/Print/Format.antt =====
-- The formats that the kernel itself prints by.
use mathlib.Core.List.{append-nil}
use oslab_nju.Prelude.{ℕ, ◌≡◌, [], ◌∷◌, ok}
use oslab_nju.Print.{num, print_dec, printk}

-- `printk("%d", n)`.
pub printk-dec : (n : ℕ) → printk (b'%' ∷ b'd' ∷ []) (num n ∷ []) ≡ ok (print_dec n)
unfolding printk
printk-dec n = rw append-nil
