-- ===== src/Console/Keyboard.antt =====
-- kernel/kernel/keyboard.c, and the input buffer that keyboardHandle and wait_for_keyboard of
-- kernel/kernel/irqHandle.c use.
use oslab_nju.Prelude.{
  ℕ, ◌+◌, Bool, true, false, not, List, [], ◌∷◌, Run, ok, fault, spin, ◌>>=◌, ltb, ◌==◌,
  if◌then◌else◌, set, length,
}
use oslab_nju.Prelude.Word.{add32, slt}
use oslab_nju.Console.Screen.{Screen, put_default}

abbrev pub letter_code : List ℕ
letter_code =
    30 ∷ 48 ∷ 46 ∷ 32 ∷ 18 ∷ 33 ∷ 34 ∷ 35 ∷ 23 ∷ 36 ∷ 37 ∷ 38 ∷ 50 ∷ 49 ∷ 24 ∷ 25 ∷ 16 ∷ 19 ∷ 31
    ∷ 20 ∷ 22 ∷ 47 ∷ 17 ∷ 45 ∷ 21 ∷ 44 ∷ []

abbrev pub num_code : List ℕ
num_code = 11 ∷ 2 ∷ 3 ∷ 4 ∷ 5 ∷ 6 ∷ 7 ∷ 8 ∷ 9 ∷ 10 ∷ []

abbrev pub enter_code : ℕ
enter_code = 28

abbrev pub space_code : ℕ
space_code = 57

-- A loop over one of the tables: the character of the first match, counted from `ch`.
unfoldable pub find_code : ℕ → ℕ → List ℕ → ℕ → ℕ
find_code scan ch [] other = other
find_code scan ch (c ∷ cs) other =
    let rest = find_code scan (ch + 1) cs other in if c == scan then ch else rest

-- `press_key`: 0 for a key with no character.
unfoldable pub press_key : ℕ → ℕ
press_key scan = find_code scan b'a' letter_code (
    find_code scan b'0' num_code
      (if enter_code == scan then 10 else if space_code == scan then b' ' else 0))

-- `BUF`, `buf_in` and `buf_out`.
pub record Input : Type 0 where
  pub buf : List ℕ
  pub buf_in : ℕ
  pub buf_out : ℕ

-- `keyboardHandle`, given the byte that port 0x60 returns. `buf_in` is never set back: from the
-- 1025th character on the code writes behind `BUF`.
unfoldable pub keyboard_handle : ℕ → Screen → Input → Run (Screen × Input)
keyboard_handle scan sc i =
    let ch = press_key scan in
    if ch == 0
    then ok (sc, i)
    else if ltb i.buf_in (length i.buf)
    then ok (put_default ch sc, record i { buf = set i.buf i.buf_in ch; buf_in = i.buf_in + 1 })
    else fault

-- `buf_out + char_num >= buf_in`, between `int`s.
abbrev pub is_short : ℕ → Input → Bool
is_short char_num i = not (slt (add32 i.buf_out char_num) i.buf_in)

-- `wait_for_keyboard(char_num)`: each entry of the list is the scan code of an interrupt that comes
-- while the code waits; with no more to come it waits for ever. Clock interrupts change nothing then.
unfoldable pub wait_for_keyboard : ℕ → List ℕ → Screen → Input → Run (Screen × Input)
wait_for_keyboard char_num [] sc i = if is_short char_num i then spin else ok (sc, i)
wait_for_keyboard char_num (scan ∷ scans) sc i = elim (is_short char_num i) [
  | false ↦ ok (sc, i)
  | true ↦ do (sc, i) ← keyboard_handle scan sc i; wait_for_keyboard char_num scans sc i
]
