-- ===== src/Console/Typing.antt =====
-- What the wait for keys leaves in the buffer.
use oslab_nju.Prelude.{
  ℕ, ◌+◌, ◌^◌, ◌≤◌, ◌<◌, ◌≡◌, refl, sym, ap, ltb, Run, ◌∙◌, true, false, List, [], ◌∷◌, ok, inl,
  inr, ◌==◌, Bool-cases, if◌then◌else◌, get_or, set, length, length-set, get_or-set_ne, arith,
}
use oslab_nju.Console.Screen.{Screen, put_all, put_default}
use oslab_nju.Console.Keyboard.{Input, press_key, keyboard_handle, is_short, wait_for_keyboard}

-- The characters of the keys; a key with no character gives none.
abbrev pub characters : List ℕ → List ℕ
characters [] = []
characters (scan ∷ scans) =
    if press_key scan == 0 then characters scans else press_key scan ∷ characters scans

-- The buffer with characters put in from `i` on.
abbrev pub filled_from : ℕ → List ℕ → List ℕ → List ℕ
filled_from i [] buf = buf
filled_from i (c ∷ cs) buf = filled_from (i + 1) cs (set buf i c)

pub length-filled_from : (i : ℕ) (cs buf : List ℕ) → length (filled_from i cs buf) ≡ length buf
length-filled_from i [] buf = refl
length-filled_from i (c ∷ cs) buf = length-filled_from (i + 1) cs (set buf i c) ∙ length-set buf i c

pub get_or-filled_from :
    (i j : ℕ) (cs buf : List ℕ) → j < i → get_or (filled_from i cs buf) j 0 ≡ get_or buf j 0
get_or-filled_from i j [] buf h = refl
get_or-filled_from i j (c ∷ cs) buf h =
    get_or-filled_from (i + 1) j cs (set buf i c) (omega arith)
    ∙ get_or-set_ne buf {i = i} {j = j} c 0 (omega arith)

-- Screen and buffer once characters have come in.
abbrev pub received : List ℕ → Screen → Input → Run (Screen × Input)
received cs sc i =
    ok (
      put_all cs sc,
      record i { buf = filled_from i.buf_in cs i.buf; buf_in = i.buf_in + length cs },
    )

received-none :
    (cs : List ℕ) (sc : Screen) (i : Input) → length cs ≡ 0 → received cs sc i ≡ ok (sc, i)
unfolding put_all
received-none [] sc i e = ap (λ b. ok (sc, record i { buf_in = b })) (omega arith)
received-none (c ∷ cs) sc i e = absurd (omega arith)

received-cons :
    (c : ℕ) (cs : List ℕ) (sc : Screen) (i : Input)
    → received cs
        (put_default c sc)
        (record i { buf = set i.buf i.buf_in c; buf_in = i.buf_in + 1 })
      ≡ received (c ∷ cs) sc i
unfolding put_all
received-cons c cs sc i =
    ap
      (λ b. ok (
        put_all cs (put_default c sc),
        record i { buf = filled_from (i.buf_in + 1) cs (set i.buf i.buf_in c); buf_in = b },
      ))
      (omega arith)

-- The wait ends with the key that completes the characters that were missing, all of which are in
-- the buffer and on the screen.
pub wait_for_keyboard_lem :
    (scans : List ℕ) (n : ℕ) (sc : Screen) (i : Input)
    → i.buf_in + length (characters scans) ≡ i.buf_out + n + 1
    → i.buf_in + length (characters scans) ≤ length i.buf
    → length i.buf < 2 ^ 31
    → wait_for_keyboard n scans sc i ≡ received (characters scans) sc i
unfolding wait_for_keyboard keyboard_handle
wait_for_keyboard_lem [] n sc i e fits small =
    let enough : is_short n i ≡ false = ground arith in rw enough (sym (received-none [] sc i refl))
wait_for_keyboard_lem (scan ∷ scans) n sc i e fits small = elim (Bool-cases (is_short n i)) [
  | inl short ↦ elim (Bool-cases (press_key scan == 0)) [
    | inl dark ↦
        rw (wait_for_keyboard, short, dark)
          (wait_for_keyboard_lem scans n sc i (ground arith) (ground arith) small)
    | inr lit ↦
        let room : ltb i.buf_in (length i.buf) ≡ true = ground arith in
        let next : Input = record i {
          buf = set i.buf i.buf_in (press_key scan);
          buf_in = i.buf_in + 1;
        } in
        rw (wait_for_keyboard, short, lit, room)
          (wait_for_keyboard_lem scans n (put_default (press_key scan) sc) next (ground arith)
              (ground (arith, length-set i.buf i.buf_in (press_key scan)))
              (rw (length-set i.buf i.buf_in (press_key scan)) small)
            ∙ received-cons (press_key scan) (characters scans) sc i)
  ]
  | inr enough ↦
      rw (wait_for_keyboard, enough)
        (sym (received-none (characters (scan ∷ scans)) sc i (ground arith)))
]
