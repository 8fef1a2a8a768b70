-- ===== src/Kernel/Terminal.antt =====
-- `read_aux` from the keyboard, from the keys that are pressed to the buffer of the caller.
use mathlib.Core.Path.{subst}
use oslab_nju.Fs.Change.{rounds}
use oslab_nju.Prelude.{
  ℕ, zero, suc, ◌+◌, ◌^◌, ◌≤◌, ◌<◌, ◌≡◌, refl, true, List, [], ◌∷◌, Run, ok, ltb, get_or, set,
  length, length-set, get_or-set_self, arith,
}
use oslab_nju.Prelude.Word.{add32, sub32}
use oslab_nju.Text.{Bytes, store_byte}
use oslab_nju.Proc.{IsObject}
use oslab_nju.Proc.Chain.{load-ok}
use oslab_nju.Sem.{user_address}
use oslab_nju.Console.Screen.{put_all}
use oslab_nju.Console.Typing.{
  characters, filled_from, length-filled_from, get_or-filled_from, wait_for_keyboard_lem,
}
use oslab_nju.Kernel.{Kernel, load_current}
use oslab_nju.Kernel.Files.{stdin, put_bytes, typed, read_keys, read_aux}

typed-filled_from :
    (i : ℕ) (cs buf : List ℕ)
    → i + length cs ≤ length buf
    → typed (length cs) i (filled_from i cs buf) ≡ ok cs
unfolding typed
typed-filled_from i [] buf h = refl
typed-filled_from i (c ∷ cs) buf h =
    let inside : ltb i (length (filled_from (i + 1) cs (set buf i c))) ≡ true =
      ground (arith, length-filled_from (i + 1) cs (set buf i c), length-set buf i c) in
    rw
      (
        inside,
        typed-filled_from (i + 1) cs (set buf i c) (omega (arith, length-set buf i c)),
        get_or-filled_from (i + 1) i cs (set buf i c) (omega arith),
        get_or-set_self buf i c 0 (omega arith),
      )
      refl

put_bytes-below :
    (cs : List ℕ) (a i : ℕ) (mem : Bytes) (x : ℕ)
    → a + i + length cs ≤ 2 ^ 32
    → x < a + i
    → put_bytes cs a i mem x ≡ mem x
unfolding put_bytes
put_bytes-below [] a i mem x h k = refl
put_bytes-below (c ∷ cs) a i mem x h k =
    ground (arith, put_bytes-below cs a (i + 1) (store_byte mem (add32 a i) c) x)

-- The bytes of the list stand one behind the other.
put_bytes_lem :
    (cs : List ℕ) (a i : ℕ) (mem : Bytes) (j : ℕ)
    → a + i + length cs ≤ 2 ^ 32
    → j < length cs
    → put_bytes cs a i mem (a + i + j) ≡ get_or cs j 0
unfolding put_bytes
put_bytes_lem [] a i mem j h k = absurd (omega arith)
put_bytes_lem (c ∷ cs) a i mem zero h k =
    ground (arith, put_bytes-below cs a (i + 1) (store_byte mem (add32 a i) c) (a + i + 0))
put_bytes_lem (c ∷ cs) a i mem (suc j) h k =
    let next : a + (i + 1) + j ≡ a + i + suc j = omega arith in
    subst (λ x. put_bytes cs a (i + 1) (store_byte mem (add32 a i) c) x ≡ get_or cs j 0) next
      (put_bytes_lem cs a (i + 1) (store_byte mem (add32 a i) c) j (omega arith) (omega arith))

pub put_bytes-at :
    (cs : List ℕ) (a : ℕ) (mem : Bytes) (j : ℕ)
    → a + length cs ≤ 2 ^ 32
    → j < length cs
    → put_bytes cs a 0 mem (a + j) ≡ get_or cs j 0
put_bytes-at cs a mem j h k =
    let here : a + 0 + j ≡ a + j = omega arith in
    subst (λ x. put_bytes cs a 0 mem x ≡ get_or cs j 0) here
      (put_bytes_lem cs a 0 mem j (omega arith) k)

-- What the caller finds at `a`, and the console, when characters have been read.
pub record Typed (k : Kernel) (cs : List ℕ) (a : ℕ) (r : Run Kernel) : Type 0 where
  pub after : Kernel
  pub runs : r ≡ ok after
  pub bytes : (j : ℕ) → j < length cs → after.mem (a + j) ≡ get_or cs j 0
  pub below : (x : ℕ) → x < a → after.mem x ≡ k.mem x
  pub echo : after.screen ≡ put_all cs k.screen
  pub taken : after.input.buf_out ≡ after.input.buf_in
  pub rest : (after.procs ≡ k.procs) × (after.fs ≡ k.fs) × (after.files ≡ k.files)

-- When no typed character is left over, and the keys' characters fit into the rest of the buffer of
-- keys and into the memory from the caller's address on, `read_aux` of as many characters as the next keys give
-- waits for these keys, and then always returns: the caller's buffer holds the characters in the
-- order of the keys, the screen shows them, and none is left over.
pub read_aux_lem :
    (k : Kernel) (buf : ℕ) (scans : List ℕ)
    → IsObject k.procs.current
    → k.input.buf_in ≡ k.input.buf_out
    → 0 < length (characters scans)
    → k.input.buf_in + length (characters scans) ≤ length k.input.buf
    → length k.input.buf < 2 ^ 31
    → user_address (k.procs.pcb k.procs.current).pid buf + length (characters scans) ≤ 2 ^ 32
    → Typed k
        (characters scans)
        (user_address (k.procs.pcb k.procs.current).pid buf)
        (read_aux stdin buf (length (characters scans)) scans k)
unfolding read_aux read_keys load_current
read_aux_lem k buf scans o none some_keys fits small room =
    let cs = characters scans in
    let i = k.input in
    let a = user_address (k.procs.pcb k.procs.current).pid buf in
    let waits =
      wait_for_keyboard_lem scans (sub32 (length cs) 1) k.screen i (omega arith) fits small in
    let read : typed (length cs) i.buf_out (filled_from i.buf_in cs i.buf) ≡ ok cs =
      subst (λ b. typed (length cs) b (filled_from i.buf_in cs i.buf) ≡ ok cs) none
        (typed-filled_from i.buf_in cs i.buf fits) in
    let all : rounds (length cs) ≡ length cs = ground arith in
    record {
      after = record k {
        screen = put_all cs k.screen;
        input = record {
          buf = filled_from i.buf_in cs i.buf;
          buf_in = i.buf_in + length cs;
          buf_out = add32 i.buf_out (length cs);
        };
        mem = put_bytes cs a 0 k.mem;
      };
      runs = rw (load-ok k.procs.pcb k.procs.current o, waits, all, read) refl;
      bytes = λ j h. put_bytes-at cs a k.mem j room h;
      below = λ x h. put_bytes-below cs a 0 k.mem x (omega arith) (omega arith);
      echo = refl;
      taken = omega arith;
      rest = (refl, refl, refl);
    }
