-- ===== src/Syscalls/Display.antt =====
-- The calls on the screen keep the line of the cursor on it.
use native.Mathlib.Nat.{mul-le-mul_left}
use s_o.Base.{
  ℕ, ◌+◌, ◌*◌, ◌%◌, ◌^◌, ◌≤◌, ◌≡◌, sym, ◌∙◌, subst, inl, inr, ◌||◌, List, arith, ltb, leb,
  Bool-cases,
}
use s_o.Video.{Screen, change_font_size, clear_screen, fillrect}
use s_o.Video.Text.{print_string_at}
use s_o.Video.Cursor.{print_string_at-OnScreen}

-- The cursor's line is on a screen of the height, and the size of the font is allowed.
pub record Shows (height : ℕ) (s : Screen) : Type 0 where
  pub same_height : s.height ≡ height
  pub line_fits : (s.y_char + 1) * 16 * s.font_size ≤ height
  pub allowed_size : s.font_size ≤ 3

Shows-fits :
    (height : ℕ) (s : Screen) → Shows height s → (s.y_char + 1) * 16 * s.font_size ≤ s.height
Shows-fits height s h = omega (arith, h.line_fits, h.same_height)

pub placed_fits : (y f height : ℕ) → f ≤ 3 → (y + 1) * 48 ≤ height → (y + 1) * 16 * f ≤ height
placed_fits y f height small fits =
    let scaled : (y + 1) * 16 * f ≤ (y + 1) * 16 * 3 = mul-le-mul_left ((y + 1) * 16) small in
    omega (arith, scaled, fits)

pub printed-Shows :
    (font : ℕ → ℕ) (height : ℕ) (s : Screen) (x y : ℕ) (text : List ℕ) (color : ℕ)
    → (y + 1) * 16 * s.font_size ≤ height
    → Shows height s
    → Shows height (print_string_at font s x y text color)
printed-Shows font height s x y text color fits h =
    let (same, on) =
      print_string_at-OnScreen font s x y text color (omega (arith, fits, h.same_height)) in
    let t = print_string_at font s x y text color in
    record {
      same_height = same.1 ∙ h.same_height;
      line_fits =
          subst (λ f. (t.y_char + 1) * 16 * f ≤ height) (sym (same.2))
            (omega (arith, on, h.same_height));
      allowed_size = omega (arith, same.2, h.allowed_size);
    }

pub filled-Shows :
    (height : ℕ) (s : Screen) (x y w h color : ℕ)
    → Shows height s
    → Shows height (fillrect s x y w h color)
unfolding fillrect
filled-Shows height s x y w h color shown = elim (Bool-cases (leb s.width x || leb s.height y)) [
  | inl e ↦ rw e shown
  | inr e ↦ rw e (record {
    same_height = shown.same_height;
    line_fits = shown.line_fits;
    allowed_size = shown.allowed_size;
  })
]

pub cleared-Shows :
    (height : ℕ) (s : Screen)
    → 48 ≤ height
    → s.height ≡ height
    → s.font_size ≤ 3
    → Shows height (clear_screen s)
cleared-Shows height s tall e small =
    filled-Shows height (record s { y_char = 0; pos_x = 0 }) 0 0 s.width s.height 0
      (record { same_height = e; line_fits = omega (arith, small, tall); allowed_size = small })

pub resized-Shows :
    (height : ℕ) (s : Screen) (dif : ℕ)
    → 48 ≤ height
    → Shows height s
    → Shows height (change_font_size s dif).1
unfolding change_font_size
resized-Shows height s dif tall h =
    elim (Bool-cases
      (ltb 3 ((s.font_size + dif) % 2 ^ 32) || ltb ((s.font_size + dif) % 2 ^ 32) 1)) [
        | inl e ↦ rw e h
        | inr e ↦ rw e (
            cleared-Shows height (record s { font_size = (s.font_size + dif) % 2 ^ 32 }) tall
              h.same_height (ground (arith, e)))
      ]
