-- ===== src/Video/Cursor.antt =====
-- The line of the cursor: `printStringAt` of Kernel/videoDriver.c keeps it on the screen.
use native.Mathlib.Nat.{mul-le-mul_right, mul-add}
use s_o.Base.{
  ℕ, zero, suc, ◌+◌, ◌-◌, ◌*◌, ◌/◌, ◌%◌, ◌^◌, ◌≤◌, ◌<◌, ◌≡◌, refl, ap, ◌∙◌, subst, inl, inr, Bool,
  true, false, ◌&&◌, ◌||◌, List, [], ◌∷◌, arith, ltb, leb, ◌==◌, if◌then◌else◌, Bool-cases,
}
use s_o.Video.{Screen, fillrect, print_square}
use s_o.Video.Text.{
  glyph_row, Pen, backspace, font_height, font_width, glyph_rows, new_line, print_char,
  print_string, print_string_at, put, put_all, scroll, write_char, past_end, line_pixels,
  moved_pixels,
}

-- What drawing leaves as it is.
abbrev pub SameScreen : Screen → Screen → Type 0
SameScreen s t = (t.width ≡ s.width) × (t.height ≡ s.height) × (t.font_size ≡ s.font_size)

trans : (s t u : Screen) → SameScreen s t → SameScreen t u → SameScreen s u
trans s t u p q = (q.0 ∙ p.0, q.1 ∙ p.1, q.2 ∙ p.2)

either :
    (s t u : Screen) (b : Bool)
    → SameScreen s t
    → SameScreen s u
    → SameScreen s (if b then t else u)
either s t u true p q = p
either s t u false p q = q

same : (s : Screen) → SameScreen s s
same s = (refl, refl, refl)

pub fillrect-SameScreen : (s : Screen) (x y w h color : ℕ) → SameScreen s (fillrect s x y w h color)
unfolding fillrect
fillrect-SameScreen s x y w h color =
    either s s _ (leb s.width x || leb s.height y) (same s) (refl, refl, refl)

glyph_row-SameScreen :
    (rounds : ℕ) (s : Screen) (x y j l color : ℕ) → SameScreen s (glyph_row rounds s x y j l color)
unfolding glyph_row
glyph_row-SameScreen zero s x y j l color = same s
glyph_row-SameScreen (suc rounds) s x y j l color =
    let drawn =
      if l % 2 == 1 then print_square s ((x + j) % 2 ^ 16) (y % 2 ^ 16) s.font_size color else s in
    let further = glyph_row rounds drawn x y (j + s.font_size) (l / 2) color in
    either s further s (ltb j (font_width * s.font_size))
      (trans s drawn further
        (either s (print_square s ((x + j) % 2 ^ 16) (y % 2 ^ 16) s.font_size color) s (l % 2 == 1)
          (fillrect-SameScreen s ((x + j) % 2 ^ 16) (y % 2 ^ 16) s.font_size s.font_size color)
          (same s))
        (glyph_row-SameScreen rounds drawn x y (j + s.font_size) (l / 2) color))
      (same s)

glyph_rows-SameScreen :
    (rounds : ℕ) (font : ℕ → ℕ) (s : Screen) (x y i count char_id color : ℕ)
    → SameScreen s (glyph_rows rounds font s x y i count char_id color)
unfolding glyph_rows
glyph_rows-SameScreen zero font s x y i count char_id color = same s
glyph_rows-SameScreen (suc rounds) font s x y i count char_id color =
    let bits = font (font_height * char_id + count) in
    let drawn = glyph_row font_width s x (y + i) 0 bits color in
    let further = glyph_rows rounds font drawn x y (i + s.font_size) (count + 2) char_id color in
    either s further s (ltb i (font_height * s.font_size) && ltb count 32)
      (trans s drawn further (glyph_row-SameScreen font_width s x (y + i) 0 bits color)
        (glyph_rows-SameScreen rounds font drawn x y (i + s.font_size) (count + 2) char_id color))
      (same s)

print_char-SameScreen :
    (font : ℕ → ℕ) (s : Screen) (x y c color : ℕ) → SameScreen s (print_char font s x y c color)
unfolding print_char
print_char-SameScreen font s x y c color =
    either s s (glyph_rows 16 font s x y 0 0 (c - 33) color) (ltb c 33 || ltb 126 c) (same s)
      (glyph_rows-SameScreen 16 font s x y 0 0 (c - 33) color)

-- The 16 rows of the line of the pen, in the size of the font, are on the screen.
pub record OnScreen (s : Screen) (p : Pen) : Type 0 where
  pub kept : SameScreen s p.screen
  pub line_fits : (p.y + 1) * 16 * s.font_size ≤ s.height

new_line-OnScreen : (s : Screen) (p : Pen) → OnScreen s p → OnScreen s (new_line p)
unfolding new_line scroll
new_line-OnScreen s p h =
    elim (Bool-cases (leb p.screen.height ((p.y + 2) * 16 * p.screen.font_size))) [
      | inl e ↦ rw e (record { kept = h.kept; line_fits = h.line_fits })
      | inr e ↦ rw e (record { kept = h.kept; line_fits = next_fits e })
    ]
  where
    next_fits :
        leb p.screen.height ((p.y + 2) * 16 * p.screen.font_size) ≡ false
        → ((p.y + 1) % 256 + 1) * 16 * s.font_size ≤ s.height
    next_fits e =
        let size = h.kept.2 in
        let tall = h.kept.1 in
        let scaled : ((p.y + 1) % 256 + 1) * (16 * s.font_size) ≤ (p.y + 2) * (16 * s.font_size) =
          mul-le-mul_right (16 * s.font_size) (omega arith) in
        let room : (p.y + 2) * 16 * p.screen.font_size < p.screen.height = ground (arith, e) in
        let room' : (p.y + 2) * 16 * s.font_size < s.height =
          subst (λ f. (p.y + 2) * 16 * f < s.height) size
            (subst (λ t. (p.y + 2) * 16 * p.screen.font_size < t) tall room) in
        omega (arith, scaled, room')

backspace-OnScreen : (s : Screen) (p : Pen) → OnScreen s p → OnScreen s (backspace p)
unfolding backspace
backspace-OnScreen s p h = record {
  kept = trans s p.screen (backspace p).screen h.kept (fillrect-SameScreen p.screen _ _ _ _ 0);
  line_fits = h.line_fits;
}

write_char-OnScreen :
    (font : ℕ → ℕ) (s : Screen) (p : Pen) (c color : ℕ)
    → OnScreen s p
    → OnScreen s (write_char font p c color)
unfolding write_char
write_char-OnScreen font s p c color h = record {
  kept =
      trans s p.screen (write_char font p c color).screen h.kept
        (print_char-SameScreen font p.screen _ _ c color);
  line_fits = h.line_fits;
}

chosen :
    (s : Screen) (p q : Pen) (b : Bool)
    → OnScreen s p
    → OnScreen s q
    → OnScreen s (if b then p else q)
chosen s p q true f g = f
chosen s p q false f g = g

put-OnScreen :
    (font : ℕ → ℕ) (s : Screen) (color : ℕ) (p : Pen) (c : ℕ)
    → OnScreen s p
    → OnScreen s (put font color p c)
unfolding put
put-OnScreen font s color p c h =
    let q = if past_end p || c == 10 then new_line p else p in
    let moved = chosen s (new_line p) p (past_end p || c == 10) (new_line-OnScreen s p h) h in
    chosen s (backspace q) (if c == 10 then q else write_char font q c color) (c == 8)
      (backspace-OnScreen s q moved)
      (chosen s q (write_char font q c color) (c == 10) moved
        (write_char-OnScreen font s q c color moved))

put_all-OnScreen :
    (font : ℕ → ℕ) (s : Screen) (color : ℕ) (p : Pen) (text : List ℕ)
    → OnScreen s p
    → OnScreen s (put_all font color p text)
unfolding put_all
put_all-OnScreen font s color p [] h = h
put_all-OnScreen font s color p (c ∷ cs) h =
    put_all-OnScreen font s color (put font color p c) cs (put-OnScreen font s color p c h)

pub print_string_at-OnScreen :
    (font : ℕ → ℕ) (s : Screen) (x y : ℕ) (text : List ℕ) (color : ℕ)
    → (y + 1) * 16 * s.font_size ≤ s.height
    → SameScreen s (print_string_at font s x y text color)
      × (((print_string_at font s x y text color).y_char + 1) * 16 * s.font_size ≤ s.height)
unfolding print_string_at
print_string_at-OnScreen font s x y text color fits =
    let start : Pen = record { screen = s; x = x; y = y; i = 0 } in
    let h = put_all-OnScreen font s color start text (record { kept = same s; line_fits = fits }) in
    (h.kept, h.line_fits)

-- Any text that is written while the cursor's line, of 16 rows in the size of the font, is on the
-- screen leaves the cursor in such a line, and keeps the size of the screen and of the font.
pub print_string-line :
    (font : ℕ → ℕ) (s : Screen) (text : List ℕ) (color : ℕ)
    → (s.y_char + 1) * 16 * s.font_size ≤ s.height
    → (((print_string font s text color).y_char + 1) * 16 * s.font_size ≤ s.height)
      × ((print_string font s text color).width ≡ s.width)
      × ((print_string font s text color).height ≡ s.height)
      × ((print_string font s text color).font_size ≡ s.font_size)
print_string-line font s text color fits =
    let h = print_string_at-OnScreen font s (s.pos_x % 2 ^ 16) s.y_char text color fits in
    (h.1, h.0.0, h.0.1, h.0.2)

-- With the font in a size from 2 on, on a screen of at least a column and 16 rows, moving the lines up
-- sets a pixel to black that lies behind the last one of the screen.
pub scroll-past_end :
    (s : Screen)
    → 2 ≤ s.font_size
    → 0 < s.width
    → 16 ≤ s.height
    → (n : ℕ) × (s.width * s.height ≤ n) × ((scroll s).pixels n ≡ 0)
unfolding scroll
scroll-past_end s size wide tall =
    let above = s.width * (s.height - 16) in
    let area : s.width * s.height ≡ above + s.width * 16 =
      ap (λ h. s.width * h) (omega arith) ∙ mul-add s.width (s.height - 16) 16 in
    let moved : 2 * above ≤ moved_pixels s = mul-le-mul_right above size in
    let lines : 2 * (16 * s.width) ≤ s.font_size * (16 * s.width) =
      mul-le-mul_right (16 * s.width) size in
    let line : line_pixels s ≡ s.font_size * (16 * s.width) = omega arith in
    let n = moved_pixels s + line_pixels s - 1 in
    let below : ltb n (moved_pixels s) ≡ false = ground (arith, lines, line, wide) in
    let inside : ltb n (moved_pixels s + line_pixels s) ≡ true =
      ground (arith, lines, line, wide) in
    (n, omega (arith, area, moved, lines, line, wide), rw (below, inside) refl)
