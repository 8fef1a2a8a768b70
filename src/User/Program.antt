-- ===== src/User/Program.antt =====
-- The user program: uEntry of app/main.c.
use oslab_nju.Prelude.{
  ℕ, zero, suc, ◌+◌, ◌-◌, ◌^◌, ◌%◌, ◌<◌, ◌≡◌, ◌∙◌, ap, refl, false, List, [], ◌∷◌, Run, ok, ◌>>=◌,
  ◌==◌, Bool-cases, inl, inr, arith, ==→eq, ne→==,
}
use mathlib.Core.Path.{subst}
use oslab_nju.Prelude.Word.{add32}
use oslab_nju.Text.{Bytes, store_byte}
use oslab_nju.Proc.Chain.{load-ok}
use oslab_nju.Sem.{user_address}
use oslab_nju.Fs.{block_size}
use oslab_nju.Fs.Content.{spliced, write_f_lem}
use oslab_nju.Kernel.{Kernel, SysFile, load_current}
use oslab_nju.Print.{printk}
use oslab_nju.Console.Screen.{put_all}
use oslab_nju.Kernel.Process.{exit_aux}
use oslab_nju.Kernel.Files.{
  write_aux, at_address, store_file, stdout, ls_aux, open_aux, close_aux, cat_aux,
}
use oslab_nju.Kernel.OpenFile.{
  Opened, entry, with_value, with_value-Opened, moved-Opened, write_file_lem,
}

-- `i % 26 + 'A'`.
abbrev pub letter : ℕ → ℕ
letter i = i % 26 + b'A'

-- `tmp = letter; write(fd, &tmp, 1);` with `tmp` at the user's address `a`.
unfoldable pub write_letter : ℕ → ℕ → ℕ → Kernel → Run Kernel
write_letter fd a i k = do
  c ← load_current k
  write_aux fd a 1 (record k { mem = store_byte k.mem (user_address c.pid a) (letter i) })

-- The `r` rounds of the loop from `i` on.
unfoldable pub write_letters : ℕ → ℕ → ℕ → ℕ → Kernel → Run Kernel
write_letters zero fd a i k = ok k
write_letters (suc r) fd a i k = do k ← write_letter fd a i k; write_letters r fd a (i + 1) k

abbrev root_text : List ℕ
root_text = b'/' ∷ []

abbrev boot_text : List ℕ
boot_text = b'/' ∷ b'b' ∷ b'o' ∷ b'o' ∷ b't' ∷ b'/' ∷ []

abbrev dev_text : List ℕ
dev_text = b'/' ∷ b'd' ∷ b'e' ∷ b'v' ∷ b'/' ∷ []

abbrev usr_text : List ℕ
usr_text = b'/' ∷ b'u' ∷ b's' ∷ b'r' ∷ b'/' ∷ []

abbrev test_text : List ℕ
test_text = b'/' ∷ b'u' ∷ b's' ∷ b'r' ∷ b'/' ∷ b't' ∷ b'e' ∷ b's' ∷ b't' ∷ []

abbrev message : List ℕ
message =
    b'c' ∷ b'r' ∷ b'e' ∷ b'a' ∷ b't' ∷ b'e' ∷ b' ' ∷ b'/' ∷ b'u' ∷ b's' ∷ b'r' ∷ b'/' ∷ b't' ∷ b'e'
    ∷ b's' ∷ b't' ∷ b' ' ∷ b'a' ∷ b'n' ∷ b'd' ∷ b' ' ∷ b'w' ∷ b'r' ∷ b'i' ∷ b't' ∷ b'e' ∷ b' '
    ∷ b'a' ∷ b'l' ∷ b'p' ∷ b'h' ∷ b'a' ∷ b'b' ∷ b'e' ∷ b't' ∷ b's' ∷ b' ' ∷ b't' ∷ b'o' ∷ b' '
    ∷ b'i' ∷ b't' ∷ 10 ∷ []

-- `uEntry`, each call by its handler in the kernel, with `tmp` at the user's address `a`. `O_RDWR | O_CREAT` is
-- 0x11, and the result of `open` is in `eax`.
unfoldable pub u_entry : ℕ → Kernel → Run Kernel
u_entry a k = do
  k ← ls_aux root_text k
  k ← ls_aux boot_text k
  k ← ls_aux dev_text k
  k ← ls_aux usr_text k
  text ← printk message []
  k ← open_aux test_text 0x11 (record k { screen = put_all text k.screen })
  c ← load_current k
  k ← write_letters 512 c.tf.eax a 0 k
  k ← close_aux c.tf.eax k
  k ← ls_aux usr_text k
  k ← cat_aux test_text k
  exit_aux k

-- The file that is open on `fd` holds `n` letters, and the next one goes behind them.
pub record Alphabet (k : Kernel) (fd : ℕ) (f : SysFile) (n : ℕ) : Type 0 where
  pub opened : Opened k fd (record f { offset = n })
  pub size : (k.fs.inodes f.inode_index).size ≡ n
  pub letters : (x : ℕ) → x < n → (k.fs.inodes f.inode_index).block x ≡ letter x

abbrev with_mem : Bytes → Kernel → Kernel
with_mem mem k = record k { mem = mem }

with_mem-Opened :
    {k : Kernel} {fd : ℕ} {f : SysFile} (mem : Bytes) → Opened k fd f → Opened (with_mem mem k) fd f
with_mem-Opened mem o = record {
  object = o.object;
  in_process = o.in_process;
  in_table = o.in_table;
  names = o.names;
  inode = o.inode;
}

-- One letter more.
new_letter :
    (x i at : ℕ) (mem block : Bytes)
    → x < i + 1
    → at < 2 ^ 32
    → (x < i → block x ≡ letter x)
    → spliced 1 0 i (at_address (store_byte mem at (letter i)) at) block x ≡ letter x
new_letter x i at mem block h small old = elim (Bool-cases (x == i)) [
  | inl e ↦
      let same : x ≡ i = ==→eq x i e in
      let here : add32 at (x - i) ≡ at = omega (arith, same) in ground (arith, same, here)
  | inr e ↦ ground (arith, e, old)
]

write_letter_lem :
    (k : Kernel) (fd a i : ℕ) (f : SysFile)
    → Alphabet k fd f i
    → 1 < fd
    → i + 1 < block_size
    → user_address (k.procs.pcb k.procs.current).pid a < 2 ^ 32
    → (after : Kernel) × (write_letter fd a i k ≡ ok after)
      × Alphabet after fd f (i + 1)
      × ((after.procs.pcb after.procs.current).pid ≡ (k.procs.pcb k.procs.current).pid)
unfolding write_letter write_aux load_current
write_letter_lem k fd a i f w two room small =
    let pid = (k.procs.pcb k.procs.current).pid in
    let at = user_address pid a in
    let k0 : Kernel = with_mem (store_byte k.mem at (letter i)) k in
    let o = with_mem-Opened (store_byte k.mem at (letter i)) w.opened in
    let buf : Bytes = at_address k0.mem at in
    let r = write_f_lem k.fs f.inode_index buf 1 i w.opened.inode (omega arith) in
    let (same, o1) = with_value-Opened 1 r.after o in
    let k1 : Kernel = with_value 1 r.after k0 in
    let next : add32 i 1 ≡ i + 1 = omega arith in
    let not_out : (fd == stdout) ≡ false = ne→== fd stdout (λ e. omega arith) in
    let loaded = load-ok k.procs.pcb k.procs.current w.opened.object in
    let written = write_file_lem buf 1 r.after o r.runs in
    (
      store_file (entry fd k1) (record f { offset = i + 1 }) k1,
      rw (loaded, not_out)
          (written ∙ ap (λ n. ok (store_file (entry fd k1) (record f { offset = n }) k1)) next),
      record {
        opened = moved-Opened o1 (i + 1);
        size = ground (arith, r.size, w.size);
        letters = λ x h.
            r.bytes x
            ∙ new_letter x i at k.mem (k.fs.inodes f.inode_index).block h small (w.letters x);
      },
      ground arith,
    )

-- The loop of `uEntry` that writes the alphabet always ends, and the file then holds that many
-- letters more, `A` to `Z` over and over: each call of `write` adds one behind the others. The
-- descriptor is open and none of the terminal's two, the letters fit into the 32 KB of a file,
-- and `tmp` lies in the memory.
pub write_letters_lem :
    (r i : ℕ) (k : Kernel) (fd a : ℕ) (f : SysFile)
    → Alphabet k fd f i
    → 1 < fd
    → i + r < block_size
    → user_address (k.procs.pcb k.procs.current).pid a < 2 ^ 32
    → (after : Kernel) × (write_letters r fd a i k ≡ ok after) × Alphabet after fd f (i + r)
unfolding write_letters
write_letters_lem zero i k fd a f w two room small =
    (k, refl, subst (λ n. Alphabet k fd f n) (omega arith) w)
write_letters_lem (suc r) i k fd a f w two room small =
    let (k1, run, w1, pid) = write_letter_lem k fd a i f w two (omega arith) small in
    let small1 : user_address (k1.procs.pcb k1.procs.current).pid a < 2 ^ 32 = rw pid small in
    let (k2, run', w2) = write_letters_lem r (i + 1) k1 fd a f w1 two (omega arith) small1 in
    (k2, rw run run', subst (λ n. Alphabet k2 fd f n) (omega arith) w2)
