-- ===== src/Console/Cursor.antt =====
-- The cursor stays on the line.
use oslab_nju.Prelude.{◌≡◌, ◌≢◌, ◌*◌, ℕ, ◌+◌, ◌≤◌, ◌<◌, arith}
use oslab_nju.Console.Screen.{Screen, move_cursor, put_cell, wrap_line, screen_put}

-- Whatever character is put on the screen, a cursor in the 80 columns and above line 65535 stays in
-- the 80 columns and moves down by at most one line, and no cell but the one under the cursor changes.
pub screen_put-column :
    (ch fore back : ℕ) (s : Screen)
    → s.cursor_x < 80
    → s.cursor_y < 0xffff
    → ((screen_put ch fore back s).cursor_x < 80)
      × (s.cursor_y ≤ (screen_put ch fore back s).cursor_y)
      × ((screen_put ch fore back s).cursor_y ≤ s.cursor_y + 1)
      × ((x : ℕ)
          → x ≢ s.cursor_y * 80 + s.cursor_x
          → (screen_put ch fore back s).cells x ≡ s.cells x)
unfolding screen_put move_cursor put_cell wrap_line
screen_put-column ch fore back s h k =
    (ground arith, ground arith, ground arith, λ x ne. ground arith)
