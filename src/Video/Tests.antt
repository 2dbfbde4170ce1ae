-- ===== src/Video/Tests.antt =====
-- A screen of five columns and three rows, and runs of Kernel/videoDriver.c on it.
use s_o.Base.{ℕ, ◌+◌, ◌*◌, ◌≤◌, ◌≡◌, refl, List, [], ◌∷◌, arith, update}
use s_o.Video.Text.{
  glyph_row, glyph_rows, new_line, print_char, print_string, print_string_at, put, put_all, scroll,
  write_char,
}
use s_o.Video.Cursor.{print_string-line, scroll-past_end}
use s_o.Video.Rectangle.{fillrect-pixel}
use s_o.Video.{Screen, fillrect, fill_row, fill_rows, get_pixel}

abbrev small_screen : Screen
small_screen = record {
  width = 5;
  height = 3;
  pixels = λ n. 7;
  pos_x = 2;
  y_char = 1;
  font_size = 1;
}

-- The last two columns of a rectangle that reaches beyond the screen are not drawn.
clipped : (fillrect small_screen 3 1 4 1 9).pixels 10 ≡ 7
unfolding fillrect fill_rows fill_row update
clipped = refl

fillrect-pixel_example : (fillrect small_screen 3 1 4 1 9).pixels (get_pixel small_screen 4 1) ≡ 9
fillrect-pixel_example = fillrect-pixel small_screen 3 1 4 1 9 4 1 (ground arith)

-- A screen of three lines of five characters, and a font of filled cells.
abbrev text_screen : Screen
text_screen = record {
  width = 40;
  height = 48;
  pixels = λ n. 7;
  pos_x = 0;
  y_char = 0;
  font_size = 1;
}

abbrev filled : ℕ → ℕ
filled n = 255

-- "AAAAAA": the sixth character is on the next line.
abbrev six : List ℕ
six = 65 ∷ 65 ∷ 65 ∷ 65 ∷ 65 ∷ 65 ∷ []

wraps_around : (print_string filled text_screen six 9).y_char ≡ 1
unfolding print_string_at put_all put new_line write_char print_char glyph_rows glyph_row fillrect
    fill_rows fill_row update
wraps_around = refl

print_string-line_example :
    (((print_string filled text_screen six 9).y_char + 1) * 16 * 1 ≤ 48)
    × ((print_string filled text_screen six 9).width ≡ 40)
    × ((print_string filled text_screen six 9).height ≡ 48)
    × ((print_string filled text_screen six 9).font_size ≡ 1)
print_string-line_example = print_string-line filled text_screen six 9 (omega arith)

abbrev large_font : Screen
large_font = record text_screen { font_size = 2 }

scroll-past_end_example : (n : ℕ) × (40 * 48 ≤ n) × ((scroll large_font).pixels n ≡ 0)
scroll-past_end_example = scroll-past_end large_font (omega arith) (omega arith) (omega arith)
