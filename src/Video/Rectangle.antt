-- ===== src/Video/Rectangle.antt =====
-- Which pixels `fillrect` of Kernel/videoDriver.c colours.
use native.Mathlib.Nat.{mul-le-mul_right, suc-mul}
use s_o.Base.{
  ℕ, zero, suc, ◌+◌, ◌-◌, ◌*◌, ◌%◌, ◌^◌, ◌≤◌, ◌<◌, min, ◌≡◌, ap, ◌∙◌, ◌⊎◌, inl, inr, Bool, ◌&&◌,
  ◌||◌, arith, dec_lt, ltb, leb, ◌==◌, if◌then◌else◌, Bool-cases, update,
}
use s_o.Video.{fill_row, Screen, fill_rows, fillrect, get_pixel, change_font_size}

-- `q` is one of the `w` numbers from `p` on.
abbrev pub within : ℕ → ℕ → ℕ → Bool
within p w q = leb p q && ltb q (p + w)

fill_row-within :
    (w p color : ℕ) (pixels : ℕ → ℕ) (q : ℕ)
    → fill_row w p color pixels q ≡ (if within p w q then color else pixels q)
unfolding fill_row update
fill_row-within zero p color pixels q = ground arith
fill_row-within (suc w) p color pixels q =
    fill_row-within w (p + 1) color (update pixels p color) q ∙ ground arith

-- The pixel in column `a` of row `b` is in the part of row `y` from column `x` on.
in_row :
    (width x y w a b : ℕ)
    → x + w ≤ width
    → a < width
    → within (x + y * width) w (a + b * width) ≡ (within x w a && b == y)
in_row width x y w a b fits lt = elim (Bool-cases (b == y)) [
  | inl e ↦
      (let same : b ≡ y = ground arith in
        let rows : b * width ≡ y * width = ap (λ r. r * width) same in ground (arith, e, rows))
  | inr e ↦ elim (dec_lt b y) [
    | yes below ↦
        (let rows : suc b * width ≤ y * width = mul-le-mul_right width below in
          let step : suc b * width ≡ b * width + width = suc-mul b width in
          ground (arith, e, rows, step))
    | no apart ↦
        (let above : y < b = ground arith in
          let rows : suc y * width ≤ b * width = mul-le-mul_right width above in
          let step : suc y * width ≡ y * width + width = suc-mul y width in
          ground (arith, e, rows, step))
  ]
]

fill_rows-within :
    (h width x y w color : ℕ) (pixels : ℕ → ℕ) (a b : ℕ)
    → x + w ≤ width
    → a < width
    → fill_rows h w (width - w) (x + y * width) color pixels (a + b * width)
      ≡ (if within x w a && within y h b then color else pixels (a + b * width))
unfolding fill_rows
fill_rows-within zero width x y w color pixels a b fits lt = ground arith
fill_rows-within (suc h) width x y w color pixels a b fits lt =
    let next : x + y * width + w + (width - w) ≡ x + suc y * width =
      ground (arith, suc-mul y width) in
    let row = fill_row w (x + y * width) color pixels in
    ap (λ p. fill_rows h w (width - w) p color row (a + b * width)) next
    ∙ fill_rows-within h width x (suc y) w color row a b fits lt
    ∙ ground (
      arith,
      fill_row-within w (x + y * width) color pixels (a + b * width),
      in_row width x y w a b fits lt,
    )

-- In column `a` of row `b`, `fillrect` colours the pixel when it is on the screen, and in the
-- rectangle of `w` columns from `x` and `h` rows from `y` on. It changes no other pixel, none
-- behind the last row of the screen either.
pub fillrect-pixel :
    (s : Screen) (x y w h color a b : ℕ)
    → a < s.width
    → (fillrect s x y w h color).pixels (get_pixel s a b) ≡ (
        if ltb b s.height && (within x w a && within y h b)
        then color
        else s.pixels (get_pixel s a b))
unfolding fillrect
fillrect-pixel s x y w h color a b lt = elim (dec_lt x s.width) [
  | yes inside ↦
      (let fits : x + min w (s.width - x) ≤ s.width = ground arith in
        ground (
          arith,
          fill_rows-within (min h (s.height - y)) s.width x y (min w (s.width - x)) color s.pixels a
              b fits lt,
        ))
  | no outside ↦ ground arith
]

-- `changeFontSize` either returns 0 and leaves the screen alone, or returns 1; then the size is
-- from 1 to 3, the cursor is home, and each pixel of the screen is black.
pub change_font_size-clear :
    (s : Screen) (dif a b : ℕ)
    → a < s.width
    → b < s.height
    → change_font_size s dif ≡ (0, s)
      ⊎ (change_font_size s dif).0 ≡ 1
        × 1 ≤ (change_font_size s dif).1.font_size
        × (change_font_size s dif).1.font_size ≤ 3
        × (change_font_size s dif).1.pos_x ≡ 0
        × (change_font_size s dif).1.y_char ≡ 0
        × (change_font_size s dif).1.pixels (get_pixel s a b) ≡ 0
unfolding change_font_size fillrect
change_font_size-clear s dif a b on_row on_screen =
    let size = (s.font_size + dif) % 2 ^ 32 in
    let sized : Screen = record s { font_size = size; y_char = 0; pos_x = 0 } in
    elim (Bool-cases (ltb 3 size || ltb size 1)) [
      | inl outside ↦ inl (ground (arith, outside))
      | inr allowed ↦ inr (
        ground (arith, allowed),
        ground (arith, allowed),
        ground (arith, allowed),
        ground (arith, allowed),
        ground (arith, allowed),
        ground (arith, allowed, fillrect-pixel sized 0 0 s.width s.height 0 a b on_row),
      )
    ]
