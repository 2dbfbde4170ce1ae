-- ===== src/Exceptions/Shown.antt =====
-- What an exception leaves on the screen, Kernel/exceptions.c, and when the shell starts again.
use s_o.Base.{
  ℕ, zero, suc, ◌+◌, ◌*◌, ◌%◌, ◌^◌, ◌≤◌, ◌<◌, ◌≡◌, refl, sym, ap, ◌∙◌, subst, ◌≢◌, ◌⊎◌, inl, inr,
  none, some, List, [], ◌∷◌, arith, ◌==◌, Bool-cases, get_or, All,
}
use s_o.UserLib.{Memory}
use s_o.Video.{Screen, clear_screen, color_screen}
use s_o.Video.Text.{print_string, print_string_at}
use s_o.Video.Cursor.{SameScreen, print_string_at-OnScreen, fillrect-SameScreen}
use s_o.Exceptions.{
  error_of, dispatched, waited, to_shell, returned, register_names, exception_dispatcher,
  show_exception, print_register, print_registers, error0, error6, notice, green, magenta, six_tabs,
}
use s_o.Video.Text.Numbers.{number_text, print_base, text_bytes, white}
use s_o.Syscalls.Kernel.{red}
use s_o.Syscalls.Clock.{milliseconds_elapsed}
use s_o.Syscalls.Waiting.{sys_wait-time, sum}

-- The screen has the size and the font of `s`, and the line of the cursor is on it.
abbrev pub Kept : Screen → Screen → Type 0
Kept s t = SameScreen s t × ((t.y_char + 1) * 16 * s.font_size ≤ s.height)

print_string-Kept :
    (font : ℕ → ℕ) (s t : Screen) (text : List ℕ) (color : ℕ)
    → Kept s t
    → Kept s (print_string font t text color)
print_string-Kept font s t text color ((w, h, f), fits) =
    let fits' : (t.y_char + 1) * 16 * t.font_size ≤ t.height =
      subst (λ z. (t.y_char + 1) * 16 * z ≤ t.height) (sym f) (omega (arith, fits, h)) in
    let ((w1, h1, f1), below) =
      print_string_at-OnScreen font t (t.pos_x % 2 ^ 16) t.y_char text color fits' in
    (
      (w1 ∙ w, h1 ∙ h, f1 ∙ f),
      subst (λ z. ((print_string font t text color).y_char + 1) * 16 * z ≤ s.height) f
          (omega (arith, below, h)),
    )

print_register-Kept :
    (font : ℕ → ℕ) (buffer : ℕ) (name : List ℕ) (value : ℕ) (s : Screen) (p : Screen × Memory)
    → Kept s p.0
    → Kept s (print_register font buffer name value p).0
unfolding print_register
print_register-Kept font buffer name value s (t, mem) h =
    let s1 = print_string font t name magenta in
    let s2 = print_string font s1 six_tabs magenta in
    let s3 = (print_base font buffer s2 mem value 2).0 in
    let h1 : Kept s s1 = print_string-Kept font s t name magenta h in
    let h2 : Kept s s2 = print_string-Kept font s s1 six_tabs magenta h1 in
    let (digits, m) = number_text value buffer 2 mem in
    let h3 : Kept s s3 = print_string-Kept font s s2 (text_bytes digits m buffer) white h2 in
    print_string-Kept font s s3 (10 ∷ []) magenta h3

print_registers-Kept :
    (rounds : ℕ) (font : ℕ → ℕ) (buffer : ℕ) (registers : ℕ → ℕ) (names : List (List ℕ)) (i : ℕ)
    (s : Screen) (p : Screen × Memory)
    → Kept s p.0
    → Kept s (print_registers rounds font buffer registers names i p).0
unfolding print_registers
print_registers-Kept zero font buffer registers names i s p h = h
print_registers-Kept (suc rounds) font buffer registers names i s p h =
    print_registers-Kept rounds font buffer registers names (i + 1) s
      (print_register font buffer (get_or names i []) (registers i) p)
      (print_register-Kept font buffer (get_or names i []) (registers i) s p h)

show_exception-Kept :
    (font : ℕ → ℕ) (buffer : ℕ) (registers : ℕ → ℕ) (error : List ℕ) (s t : Screen) (mem : Memory)
    → 16 * s.font_size ≤ s.height
    → SameScreen s t
    → Kept s (show_exception font buffer registers error (t, mem)).0
unfolding show_exception
show_exception-Kept font buffer registers error s t mem fits (w, h, f) =
    let cleared = color_screen t 255 in
    let (w1, h1, f1) = fillrect-SameScreen t 0 0 t.width t.height 255 in
    let titled = print_string_at font cleared 0 0 error red in
    let fits' : (0 + 1) * 16 * cleared.font_size ≤ cleared.height =
      subst (λ z. (0 + 1) * 16 * z ≤ cleared.height) (sym (f1 ∙ f)) (omega (arith, fits, h1 ∙ h)) in
    let ((w2, h2, f2), below) = print_string_at-OnScreen font cleared 0 0 error red fits' in
    let begun : Kept s titled = (
      (w2 ∙ w1 ∙ w, h2 ∙ h1 ∙ h, f2 ∙ f1 ∙ f),
      subst (λ z. (titled.y_char + 1) * 16 * z ≤ s.height) (f1 ∙ f) (omega (arith, below, h1 ∙ h)),
    ) in
    let noticed = print_string font titled notice green in
    print_registers-Kept 16 font buffer registers register_names 0 s (noticed, mem)
      (print_string-Kept font s titled notice green begun)

clear_screen-SameScreen : (s : Screen) → SameScreen s (clear_screen s)
clear_screen-SameScreen s =
    fillrect-SameScreen (record s { y_char = 0; pos_x = 0 }) 0 0 s.width s.height 0

-- On a screen of at least one line, before the kernel has run for 2 ^ 31 milliseconds, and where the
-- timer ticks often enough and at most once at a halt, a division by zero and an invalid instruction
-- bring the user back to the shell, not before ten seconds have passed: the screen keeps its size
-- and its font, and its cursor is in a line of it. No other exception is handled.
pub exception_dispatcher-ends :
    (halts : List ℕ) (ticks : ℕ) (font : ℕ → ℕ) (buffer : ℕ) (registers : ℕ → ℕ) (e : ℕ)
    (s : Screen) (mem : Memory)
    → 16 * s.font_size ≤ s.height
    → All (λ passed. passed ≤ 1) halts
    → milliseconds_elapsed ticks + 10000 ≤ milliseconds_elapsed (ticks + sum halts)
    → milliseconds_elapsed ticks < 2 ^ 31
    → ((e ≢ 0)
        × (e ≢ 6)
        × (exception_dispatcher halts ticks font buffer registers e (s, mem) ≡ returned))
      ⊎ ((shown : Screen × Memory) × (t : ℕ) × (exception_dispatcher halts ticks font buffer
              registers e
              (s, mem)
            ≡ to_shell shown t)
          × Kept s shown.0
          × (milliseconds_elapsed ticks + 10000 ≤ milliseconds_elapsed t))
unfolding error_of
exception_dispatcher-ends halts ticks font buffer registers e s mem fits steady enough early =
    let (t, ran, late, _) = sys_wait-time halts 10000 ticks steady enough early in
    let kept = λ (error : List ℕ).
      show_exception-Kept font buffer registers error s (clear_screen s) mem fits
        (clear_screen-SameScreen s) in
    let shown =
      λ (error : List ℕ). show_exception font buffer registers error (clear_screen s, mem) in
    let run = dispatched halts ticks font buffer registers (s, mem) in
    let ended = λ (error : List ℕ). ap (waited (shown error)) ran in
    elim (Bool-cases (e == 0)) [
      | inl zeroth ↦
          let found : error_of e ≡ some error0 = rw zeroth refl in
          inr (shown error0, t, ap run found ∙ ended error0, kept error0, late)
      | inr other ↦ elim (Bool-cases (e == 6)) [
        | inl sixth ↦
            let found : error_of e ≡ some error6 = rw (other, sixth) refl in
            inr (shown error6, t, ap run found ∙ ended error6, kept error6, late)
        | inr none_of ↦
            let found : error_of e ≡ none = rw (other, none_of) refl in
            inl (ground (arith, other), ground (arith, none_of), ap run found)
      ]
    ]
