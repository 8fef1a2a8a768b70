-- ===== src/Console/Screen.antt =====
-- kernel/kernel/screen.c: characters on the text screen at 0xB8000, and the cursor. A write to a
-- port is recorded as the port and the byte.
use Prim.Native.Nat.{bit_and, bit_or}
use oslab_nju.Prelude.{
  ℕ, zero, suc, ◌+◌, ◌*◌, ◌/◌, ◌%◌, ◌-◌, not, ◌&&◌, List, [], ◌∷◌, ◌++◌, ltb, leb, ◌==◌,
  if◌then◌else◌,
}

-- `vm_addr`, by cell, the `uint16_t`s `cursor_x` and `cursor_y`, and the port writes so far.
pub record Screen : Type 0 where
  pub cells : ℕ → ℕ
  pub cursor_x : ℕ
  pub cursor_y : ℕ
  pub ports : List (ℕ × ℕ)

abbrev pub black : ℕ
black = 0

abbrev pub white : ℕ
white = 15

-- `ColorAttr`, in the `uint8_t` that it is stored in.
unfoldable pub color_attr : ℕ → ℕ → ℕ
color_attr fore back = bit_or (back * 16) (bit_and fore 0x0f) % 256

abbrev pub store_cell : (ℕ → ℕ) → ℕ → ℕ → ℕ → ℕ
store_cell cells a v x = if x == a then v else cells x

-- `move_cursor`: the location is a `uint16_t`, sent in two bytes.
unfoldable pub move_cursor : Screen → Screen
move_cursor s =
    let location = (s.cursor_y * 80 + s.cursor_x) % 0x1_0000 in
    record s {
      ports =
          s.ports
          ++ ((0x3d4, 14) ∷ (0x3d5, location / 256) ∷ (0x3d4, 15) ∷ (0x3d5, location % 256) ∷ []);
    }

-- The `if` ladder of `screen_put`. `ch >= ' '` compares a signed `char`.
unfoldable pub put_cell : ℕ → ℕ → ℕ → Screen → Screen
unfolding color_attr
put_cell ch fore back s =
    if ch == 8 && not (s.cursor_x == 0)
    then record s { cursor_x = s.cursor_x - 1 }
    else if ch == 9
    then record s { cursor_x = (s.cursor_x + 8) / 8 * 8 % 0x1_0000 }
    else if ch == 13
    then record s { cursor_x = 0 }
    else if ch == 10
    then record s { cursor_x = 0; cursor_y = (s.cursor_y + 1) % 0x1_0000 }
    else if leb 32 ch && ltb ch 128
    then record s {
      cells =
          store_cell s.cells (s.cursor_y * 80 + s.cursor_x)
            (bit_or ch (color_attr fore back * 256));
      cursor_x = (s.cursor_x + 1) % 0x1_0000;
    }
    else s

unfoldable pub wrap_line : Screen → Screen
wrap_line s =
    if leb 80 s.cursor_x
    then record s { cursor_x = 0; cursor_y = (s.cursor_y + 1) % 0x1_0000 }
    else s

unfoldable pub screen_put : ℕ → ℕ → ℕ → Screen → Screen
screen_put ch fore back s = move_cursor (wrap_line (put_cell ch fore back s))

-- A character in the default colours, as print_ch_Q and write_aux put it.
unfoldable pub put_default : ℕ → Screen → Screen
put_default ch s = screen_put ch white black s

-- The loop of `print_string_Q`, and of write_aux.
unfoldable pub put_all : List ℕ → Screen → Screen
put_all [] s = s
put_all (c ∷ cs) s = put_all cs (put_default c s)

-- The loop of `screen_clear` over the `k` cells from `i` on.
unfoldable pub clear_from : ℕ → ℕ → ℕ → (ℕ → ℕ) → ℕ → ℕ
clear_from zero i blank cells = cells
clear_from (suc k) i blank cells = clear_from k (i + 1) blank (store_cell cells i blank)

unfoldable pub screen_clear : Screen → Screen
screen_clear s = move_cursor (record s {
  cells = clear_from 2000 0 (bit_or 0x20 (color_attr white black * 256)) s.cells;
  cursor_x = 0;
  cursor_y = 0;
})
