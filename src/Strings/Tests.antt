-- ===== src/Strings/Tests.antt =====
-- The string functions on two short texts.
use s_o.Base.{ℕ, ◌≡◌, refl, none, some, List, [], ◌∷◌, arith, ◌==◌, if◌then◌else◌}
use s_o.UserLib.{Memory}
use s_o.Strings.Copying.{Text}
use s_o.Strings.Searching.{strchr, strncmp, strncmp_loop}

-- "os" at 100, "kernel" at 200, and other bytes elsewhere.
abbrev two_texts : Memory
two_texts a =
    if a == 100
    then 111
    else (if a == 101
        then 115
        else (if a == 102
            then 0
            else (if a == 200
                then 107
                else (if a == 201
                    then 101
                    else (if a == 202 then 114 else (if a == 203 then 0 else 9))))))

abbrev os : List ℕ
os = 111 ∷ 115 ∷ []

abbrev ker : List ℕ
ker = 107 ∷ 101 ∷ 114 ∷ []

os-Text : Text two_texts 100 os
os-Text = (refl, omega arith, (refl, omega arith, refl))

ker-Text : Text two_texts 200 ker
ker-Text = (refl, omega arith, (refl, omega arith, (refl, omega arith, refl)))

-- 'r' is at 202, and there is no 'x'.
found_r : strchr 9 two_texts 200 114 ≡ some (some 202)
unfolding strchr
found_r = refl

no_x : strchr 9 two_texts 200 120 ≡ some none
unfolding strchr
no_x = refl

-- Of no characters, the first ones are still compared.
none_compared : strncmp 9 two_texts 100 200 0 ≡ some (111, 107)
unfolding strncmp_loop
none_compared = refl
