-- ===== src/Strings/Copying.antt =====
-- What the string functions of Userland/uCodeModule/lib.c leave in memory.
use s_o.Base.{
  ℕ, zero, suc, ◌+◌, ◌-◌, ◌≤◌, ◌<◌, ◌≡◌, refl, ap, ◌∙◌, ◌⊎◌, inl, false, some, List, [], ◌∷◌, arith,
  ◌==◌, ==_iff, ==_of_ne, length, take, update, update_self, update-ne,
}
use s_o.UserLib.{Memory}
use s_o.Strings.{copy_text, copy_part, strcpy, strncpy}

-- The string `xs`, of bytes that are not 0, lies at `a`, with its NUL.
abbrev pub Text : Memory → ℕ → List ℕ → Type 0
Text mem a [] = mem a ≡ 0
Text mem a (x ∷ xs) = (mem a ≡ x) × (0 < x) × Text mem (a + 1) xs

-- Memory agrees but for the `k` bytes at `a`.
abbrev pub Frame : ℕ → ℕ → Memory → Memory → Type 0
Frame a k before after = (x : ℕ) → (x < a) ⊎ (a + k ≤ x) → after x ≡ before x

abbrev pub Away : ℕ → ℕ → ℕ → ℕ → Type 0
Away a n d k = (a + n ≤ d) ⊎ (d + k ≤ a)

Text-Frame :
    (mem m : Memory) (a : ℕ) (xs : List ℕ) (d k : ℕ)
    → Frame d k mem m
    → Away a (length xs + 1) d k
    → Text mem a xs
    → Text m a xs
Text-Frame mem m a [] d k f h t = f a (ground (arith, h)) ∙ t
Text-Frame mem m a (x ∷ xs) d k f h t =
    (f a (ground (arith, h)) ∙ t.0, t.1, Text-Frame mem m (a + 1) xs d k f (ground (arith, h)) t.2)

update-Frame : (mem : Memory) (a v : ℕ) → Frame a 1 mem (update mem a v)
update-Frame mem a v x h = update-ne mem a v x (ground (arith, h))

pub copy_text-Text :
    (xs : List ℕ) (fuel : ℕ) (mem : Memory) (aux src : ℕ)
    → Text mem src xs
    → Away src (length xs + 1) aux (length xs + 1)
    → length xs < fuel
    → (m : Memory) × (copy_text fuel mem aux src ≡ some (aux + length xs, m))
      × Text m aux xs
      × Frame aux (length xs + 1) mem m
unfolding copy_text
copy_text-Text xs zero mem aux src t h enough = elim enough [ ]
copy_text-Text [] (suc fuel) mem aux src t h enough = (
  update mem aux 0,
  rw ((==_iff (mem src) 0).1 t) (ap (λ z. some (z, update mem aux 0)) (omega arith)),
  update_self mem aux 0,
  update-Frame mem aux 0,
)
copy_text-Text (x ∷ xs) (suc fuel) mem aux src t h enough =
    let m1 = update mem aux (mem src) in
    let (m, ran, text, frame) =
      copy_text-Text xs fuel m1 (aux + 1) (src + 1)
        (Text-Frame mem m1 (src + 1) xs aux 1 (update-Frame mem aux (mem src)) (ground (arith, h))
          t.2)
        (ground (arith, h)) (omega (arith, enough)) in
    let going : (mem src == 0) ≡ false = ==_of_ne (mem src) 0 (omega (arith, t.0, t.1)) in
    (
      m,
      rw going (ran ∙ ap (λ z. some (z, m)) (omega arith)),
      (frame aux (inl (omega arith)) ∙ update_self mem aux (mem src) ∙ t.0, t.1, text),
      (λ y o. frame y (ground (arith, o)) ∙ update-Frame mem aux (mem src) y (ground (arith, o))),
    )

take-nil : (n : ℕ) → take {A = ℕ} n [] ≡ []
take-nil zero = refl
take-nil (suc n) = refl

pub copy_part-Text :
    (xs : List ℕ) (n fuel : ℕ) (mem : Memory) (aux src : ℕ)
    → Text mem src xs
    → Away src (length xs + 1) aux (length xs + 1)
    → length xs < fuel
    → (m : Memory) × (copy_part fuel mem aux src n ≡ some (aux + length (take n xs), m))
      × Text m aux (take n xs)
      × Frame aux (length (take n xs) + 1) mem m
unfolding copy_part
copy_part-Text xs n zero mem aux src t h enough = elim enough [ ]
copy_part-Text [] n (suc fuel) mem aux src t h enough =
    let nothing = take-nil n in
    rw (nothing, (==_iff (mem src) 0).1 t)
      (
        update mem aux 0,
        ap (λ z. some (z, update mem aux 0)) (omega arith),
        update_self mem aux 0,
        update-Frame mem aux 0,
      )
copy_part-Text (x ∷ xs) zero (suc fuel) mem aux src t h enough = (
  update mem aux 0,
  (let going : (mem src == 0) ≡ false = ==_of_ne (mem src) 0 (omega (arith, t.0, t.1)) in
      rw going (ap (λ z. some (z, update mem aux 0)) (omega arith))),
  update_self mem aux 0,
  update-Frame mem aux 0,
)
copy_part-Text (x ∷ xs) (suc n) (suc fuel) mem aux src t h enough =
    let m1 = update mem aux (mem src) in
    let (m, ran, text, frame) =
      copy_part-Text xs n fuel m1 (aux + 1) (src + 1)
        (Text-Frame mem m1 (src + 1) xs aux 1 (update-Frame mem aux (mem src)) (ground (arith, h))
          t.2)
        (ground (arith, h)) (omega (arith, enough)) in
    let going : (mem src == 0) ≡ false = ==_of_ne (mem src) 0 (omega (arith, t.0, t.1)) in
    let fewer : suc n - 1 ≡ n = omega arith in
    let more : (suc n == 0) ≡ false = ==_of_ne (suc n) 0 (omega arith) in
    (
      m,
      rw (going, more, fewer) (ran ∙ ap (λ z. some (z, m)) (omega arith)),
      (frame aux (inl (omega arith)) ∙ update_self mem aux (mem src) ∙ t.0, t.1, text),
      (λ y o. frame y (ground (arith, o)) ∙ update-Frame mem aux (mem src) y (ground (arith, o))),
    )

-- `strcpy` of a text to a place that does not overlap it leaves a copy of the text there, changes
-- nothing else, and returns the address of the NUL. It ends if the fuel exceeds the length.
pub strcpy-Text :
    (xs : List ℕ) (fuel : ℕ) (mem : Memory) (dest src : ℕ)
    → Text mem src xs
    → Away src (length xs + 1) dest (length xs + 1)
    → length xs < fuel
    → (m : Memory) × (strcpy fuel mem dest src ≡ some (dest + length xs, m))
      × Text m dest xs
      × Frame dest (length xs + 1) mem m
strcpy-Text xs fuel mem dest src t h enough = copy_text-Text xs fuel mem dest src t h enough

-- `strncpy` with a count that is not negative copies that many characters at most to a place that
-- does not overlap the text, ends them with a NUL and changes nothing else. It ends if the fuel
-- exceeds the length.
pub strncpy-Text :
    (xs : List ℕ) (n fuel : ℕ) (mem : Memory) (dest src : ℕ)
    → Text mem src xs
    → Away src (length xs + 1) dest (length xs + 1)
    → length xs < fuel
    → (m : Memory) × (strncpy fuel mem dest src n ≡ some (dest + length (take n xs), m))
      × Text m dest (take n xs)
      × Frame dest (length (take n xs) + 1) mem m
strncpy-Text xs n fuel mem dest src t h enough = copy_part-Text xs n fuel mem dest src t h enough
