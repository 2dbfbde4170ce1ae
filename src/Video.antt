-- ===== src/Video.antt =====
-- Kernel/videoDriver.c: rectangles on the screen.
-- The frame buffer is a map from pixel numbers to colours: the pixel with number `n` lies
-- `n * sizeof(Color)` bytes behind `framebuffer`. The size of the screen comes from the VBE
-- information that the boot loader leaves.
pub mod Rectangle
pub mod Text
pub mod Cursor
mod Tests
use s_o.Base.{ℕ, zero, suc, ◌+◌, ◌-◌, ◌*◌, ◌%◌, ◌^◌, min, ◌||◌, ltb, leb, if◌then◌else◌, update}

pub record Screen : Type 0 where
  pub width : ℕ
  pub height : ℕ
  pub pixels : ℕ → ℕ
  pub pos_x : ℕ
  pub y_char : ℕ
  pub font_size : ℕ

-- `getPixel`, as a pixel number
abbrev pub get_pixel : Screen → ℕ → ℕ → ℕ
get_pixel s x y = x + y * s.width

-- `for (int j = 0; j < w; j++) *(where++) = color;`
unfoldable pub fill_row : ℕ → ℕ → ℕ → (ℕ → ℕ) → ℕ → ℕ
unfolding update
fill_row zero where_at color pixels = pixels
fill_row (suc w) where_at color pixels =
    fill_row w (where_at + 1) color (update pixels where_at color)

-- The loop over the rows.
unfoldable pub fill_rows : ℕ → ℕ → ℕ → ℕ → ℕ → (ℕ → ℕ) → ℕ → ℕ
unfolding fill_row
fill_rows zero w line_break where_at color pixels = pixels
fill_rows (suc h) w line_break where_at color pixels =
    fill_rows h w line_break (where_at + w + line_break) color (fill_row w where_at color pixels)

unfoldable pub fillrect : Screen → ℕ → ℕ → ℕ → ℕ → ℕ → Screen
unfolding fill_rows
fillrect s x y w h color =
    if leb s.width x || leb s.height y
    then s
    else (let w' = min w (s.width - x) in
        let h' = min h (s.height - y) in
        record s { pixels = fill_rows h' w' (s.width - w') (get_pixel s x y) color s.pixels })

abbrev pub print_square : Screen → ℕ → ℕ → ℕ → ℕ → Screen
print_square s x y l color = fillrect s x y l l color

abbrev pub color_screen : Screen → ℕ → Screen
color_screen s color = fillrect s 0 0 s.width s.height color

-- BLACK is 0.
abbrev pub clear_screen : Screen → Screen
clear_screen s = color_screen (record s { y_char = 0; pos_x = 0 }) 0

-- `fontSize` and `dif` are `uint32_t`, so `fontSize + dif` wraps. The result is the returned
-- number and the screen.
unfoldable pub change_font_size : Screen → ℕ → ℕ × Screen
change_font_size s dif =
    let size = (s.font_size + dif) % 2 ^ 32 in
    if ltb 3 size || ltb size 1 then (0, s) else (1, clear_screen (record s { font_size = size }))
