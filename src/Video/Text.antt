-- ===== src/Video/Text.antt =====
-- Kernel/videoDriver.c: characters and text on the screen.
-- A text is the list of its bytes before the NUL; `font` is the table of Kernel/include/font.h. An
-- `int` below 0 is its 32-bit pattern.
pub mod Numbers
use s_o.Base.{
  ℕ, zero, suc, ◌+◌, ◌-◌, ◌*◌, ◌/◌, ◌%◌, ◌^◌, Bool, ◌&&◌, ◌||◌, List, [], ◌∷◌, ltb, leb, ◌==◌,
  if◌then◌else◌,
}
use s_o.Video.{Screen, fillrect, print_square}

abbrev pub font_height : ℕ
font_height = 32

abbrev pub font_width : ℕ
font_width = 8

-- The loop over the columns of a row, from `j` on: `l` is what is left of the row's bits, and the
-- loop has at most 8 rounds.
unfoldable pub glyph_row : ℕ → Screen → ℕ → ℕ → ℕ → ℕ → ℕ → Screen
glyph_row zero s x y j l color = s
glyph_row (suc rounds) s x y j l color =
    let drawn =
      if l % 2 == 1 then print_square s ((x + j) % 2 ^ 16) (y % 2 ^ 16) s.font_size color else s in
    let further = glyph_row rounds drawn x y (j + s.font_size) (l / 2) color in
    if ltb j (font_width * s.font_size) then further else s

-- The loop over the rows, from `i` and `count` on.
unfoldable pub glyph_rows : ℕ → (ℕ → ℕ) → Screen → ℕ → ℕ → ℕ → ℕ → ℕ → ℕ → Screen
unfolding glyph_row
glyph_rows zero font s x y i count char_id color = s
glyph_rows (suc rounds) font s x y i count char_id color =
    let drawn = glyph_row font_width s x (y + i) 0 (font (font_height * char_id + count)) color in
    let further = glyph_rows rounds font drawn x y (i + s.font_size) (count + 2) char_id color in
    if ltb i (font_height * s.font_size) && ltb count 32 then further else s

-- `printChar`: `count` goes up to 32 by 2.
unfoldable pub print_char : (ℕ → ℕ) → Screen → ℕ → ℕ → ℕ → ℕ → Screen
unfolding glyph_rows
print_char font s x y c color =
    if ltb c 33 || ltb 126 c then s else glyph_rows 16 font s x y 0 0 (c - 33) color

-- The pixels that the lines move up by.
abbrev pub line_pixels : Screen → ℕ
line_pixels s = s.font_size * 16 * s.width

-- The pixels that `memcpy` moves. The screen has at least 16 rows.
abbrev pub moved_pixels : Screen → ℕ
moved_pixels s = s.font_size * (s.width * (s.height - 16))

-- `memcpy` and `memset` on the frame buffer. `memcpy` goes up from the lowest address and its
-- destination lies below its source, so it reads no byte that it has written.
unfoldable pub scroll : Screen → Screen
scroll s = record s {
  pixels = λ n.
      if ltb n (moved_pixels s)
      then s.pixels (n + line_pixels s)
      else if ltb n (moved_pixels s + line_pixels s)
      then 0
      else s.pixels n;
}

-- The variables of `printStringAt`, and the screen.
pub record Pen : Type 0 where
  pub screen : Screen
  pub x : ℕ
  pub y : ℕ
  pub i : ℕ

abbrev pub past_end : Pen → Bool
past_end p = ltb p.screen.width ((p.x + p.screen.font_size * (p.i * font_width + 4)) % 2 ^ 32)

-- `x = 0; i = 0;`, and a line further down, or all lines up.
unfoldable pub new_line : Pen → Pen
unfolding scroll
new_line p =
    if leb p.screen.height ((p.y + 2) * 16 * p.screen.font_size)
    then record { screen = scroll p.screen; x = 0; y = p.y; i = 0 }
    else record { screen = p.screen; x = 0; y = (p.y + 1) % 256; i = 0 }

abbrev pub column : Pen → ℕ
column p = p.x + font_width * p.i * p.screen.font_size

-- `i--` and the rectangle.
unfoldable pub backspace : Pen → Pen
unfolding fillrect
backspace p =
    let q = record p { i = (p.i + 2 ^ 32 - 1) % 2 ^ 32 } in
    record q {
      screen =
          fillrect q.screen (column q % 2 ^ 16) (q.y * 32 / 2 * q.screen.font_size % 2 ^ 16)
            ((column q + 1) % 2 ^ 16) ((q.y + 1) * 32 / 2 * q.screen.font_size % 2 ^ 16) 0;
    }

unfoldable pub write_char : (ℕ → ℕ) → Pen → ℕ → ℕ → Pen
unfolding print_char
write_char font p c color = record p {
  screen =
      print_char font p.screen (column p % 2 ^ 16) (p.y * 32 / 2 * p.screen.font_size % 2 ^ 16) c
        color;
  i = (p.i + 1) % 2 ^ 32;
}

-- One round of the loop.
unfoldable pub put : (ℕ → ℕ) → ℕ → Pen → ℕ → Pen
unfolding new_line backspace write_char
put font color p c =
    let q = if past_end p || c == 10 then new_line p else p in
    if c == 8 then backspace q else if c == 10 then q else write_char font q c color

unfoldable pub put_all : (ℕ → ℕ) → ℕ → Pen → List ℕ → Pen
unfolding put
put_all font color p [] = p
put_all font color p (c ∷ cs) = put_all font color (put font color p c) cs

-- `posX` and `y_char` behind the loop.
abbrev pub left_at : Pen → Screen
left_at p = record p.screen {
  pos_x = (p.x + p.i * font_width * p.screen.font_size) % 2 ^ 32;
  y_char = p.y;
}

unfoldable pub print_string_at : (ℕ → ℕ) → Screen → ℕ → ℕ → List ℕ → ℕ → Screen
unfolding put_all
print_string_at font s x y text color =
    left_at (put_all font color (record { screen = s; x = x; y = y; i = 0 }) text)

-- `printString`: `posX` becomes a `uint16_t`.
abbrev pub print_string : (ℕ → ℕ) → Screen → List ℕ → ℕ → Screen
print_string font s text color = print_string_at font s (s.pos_x % 2 ^ 16) s.y_char text color

abbrev pub print_string_at_x : (ℕ → ℕ) → Screen → ℕ → List ℕ → ℕ → Screen
print_string_at_x font s x text color = print_string_at font s x s.y_char text color
