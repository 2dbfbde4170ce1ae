-- ===== src/Syscalls/Waiting.antt =====
-- How long `sys_wait` and `sys_timedRead` of Kernel/syscallManager.c wait.
use s_o.Base.{
  ℕ, ◌+◌, ◌-◌, ◌%◌, ◌^◌, ◌≤◌, ◌<◌, ◌≡◌, refl, subst, ◌⊎◌, inl, inr, Bool, true, false, ◌&&◌, some,
  List, [], ◌∷◌, arith, ltb, ◌==◌, if◌then◌else◌, Bool-cases, All,
}
use s_o.Keyboard.Driver.{Keyboard, Saved, interrupted, overflow, saved}
use s_o.Keyboard.Reading.{
  Input, Reading, after_halt, get_kbd_buffer, halted, line_end, read, save_keys, with_end,
}
use s_o.Syscalls.Clock.{
  milliseconds_elapsed, wait_loop, Halt, since, sys_wait, timed_loop, timed_round, sys_timed_read,
}

abbrev pub sum : List ℕ → ℕ
sum [] = 0
sum (x ∷ xs) = x + sum xs

-- Below 2 ^ 31 the time is kept as it is.
since_small : (initial now : ℕ) → initial < 2 ^ 31 → since initial now ≡ now - initial
unfolding since
since_small initial now small =
    let low : initial % 2 ^ 32 ≡ initial = omega (arith, small) in ground (arith, low, small)

-- The time that has passed is never taken for less than it is.
since-enough : (initial now : ℕ) → now - initial ≤ since initial now
unfolding since
since-enough initial now = ground arith

wait_loop-time :
    (halts : List ℕ) (initial millis ticks : ℕ)
    → All (λ passed. passed ≤ 1) halts
    → initial + millis ≤ milliseconds_elapsed (ticks + sum halts)
    → initial ≤ milliseconds_elapsed ticks
    → initial < 2 ^ 31
    → (t : ℕ) × (wait_loop halts initial millis ticks ≡ some t)
      × (initial + millis ≤ milliseconds_elapsed t)
      × ((t ≡ ticks) ⊎ (milliseconds_elapsed t < initial + millis + 56))
unfolding wait_loop
wait_loop-time [] initial millis ticks steady enough from small = (
  ticks,
  ground (arith, since_small initial (milliseconds_elapsed ticks) small, enough),
  ground (arith, enough),
  inl refl,
)
wait_loop-time (p ∷ halts) initial millis ticks steady enough from small =
    let passed = since_small initial (milliseconds_elapsed ticks) small in
    elim (Bool-cases (ltb (since initial (milliseconds_elapsed ticks)) millis)) [
      | inl e ↦
          let late : initial + millis ≤ milliseconds_elapsed (ticks + p + sum halts) =
            subst (λ n. initial + millis ≤ milliseconds_elapsed n) (omega arith) enough in
          let (t, ran, after, soon) =
            wait_loop-time halts initial millis (ticks + p) steady.1 late (omega (arith, from))
              small in
          let short : milliseconds_elapsed ticks < initial + millis =
            ground (arith, e, from, passed) in
          (t, rw e ran, after, waited t soon short)
      | inr e ↦ (ticks, rw e refl, ground (arith, e, passed, from), inl refl)
    ]
  where
    waited :
        (t : ℕ)
        → (t ≡ ticks + p) ⊎ (milliseconds_elapsed t < initial + millis + 56)
        → milliseconds_elapsed ticks < initial + millis
        → (t ≡ ticks) ⊎ (milliseconds_elapsed t < initial + millis + 56)
    waited t (inl e) short = inr (omega (arith, e, short, steady.0))
    waited t (inr soon) short = inr soon

-- Called before the kernel has run for 2 ^ 31 milliseconds, when the timer ticks often enough, and
-- at most once at a halt, `sys_wait` returns: not before the milliseconds have passed, and, if it
-- waits at all, less than 56 milliseconds after that.
pub sys_wait-time :
    (halts : List ℕ) (millis ticks : ℕ)
    → All (λ passed. passed ≤ 1) halts
    → milliseconds_elapsed ticks + millis ≤ milliseconds_elapsed (ticks + sum halts)
    → milliseconds_elapsed ticks < 2 ^ 31
    → (t : ℕ) × (sys_wait halts millis ticks ≡ some t)
      × (milliseconds_elapsed ticks + millis ≤ milliseconds_elapsed t)
      × ((t ≡ ticks) ⊎ (milliseconds_elapsed t < milliseconds_elapsed ticks + millis + 56))
unfolding sys_wait
sys_wait-time halts millis ticks steady enough small =
    wait_loop-time halts (milliseconds_elapsed ticks) millis ticks steady enough (omega arith) small

abbrev pub passed_all : List Halt → ℕ
passed_all [] = 0
passed_all (h ∷ halts) = h.passed + passed_all halts

-- A reading that ended, whether it returned or Ctrl-C or an overflow broke it off.
abbrev pub IsEnded : Reading → Type 0
IsEnded (halted s) = ⊥
IsEnded _ = Unit

either : (b : Bool) (r r' : Reading) → IsEnded r → IsEnded r' → IsEnded (if b then r else r')
either true r r' p q = p
either false r r' p q = q

timed_round-IsEnded :
    (count initial millis ticks : ℕ) (s : Input) (go_on : Input → Reading)
    → ((s' : Input) → since initial (milliseconds_elapsed ticks) < millis → IsEnded (go_on s'))
    → IsEnded (timed_round count initial millis ticks s go_on)
unfolding timed_round
timed_round-IsEnded count initial millis ticks s go_on ends =
    let early = ltb (since initial (milliseconds_elapsed ticks)) millis in
    let got = get_kbd_buffer count s in
    elim (Bool-cases (ltb s.i ((count + 2 ^ 32 - 1) % 2 ^ 32) && early)) [
      | inl e ↦ rw e (
          either (got.0 && line_end got.1) (read got.1.i (with_end got.1 (got.1.i - 1)))
            (go_on got.1) tt (ends got.1 (ground (arith, e))))
      | inr e ↦ rw e tt
    ]

after_halt-IsEnded :
    (go_on : Keyboard → Reading) (r : Saved)
    → ((k : Keyboard) → IsEnded (go_on k))
    → IsEnded (after_halt go_on r)
after_halt-IsEnded go_on (saved k) ends = ends k
after_halt-IsEnded go_on (interrupted k) ends = tt
after_halt-IsEnded go_on overflow ends = tt

timed_loop-IsEnded :
    (halts : List Halt) (count initial millis ticks : ℕ) (s : Input)
    → initial + millis ≤ milliseconds_elapsed (ticks + passed_all halts)
    → IsEnded (timed_loop halts count initial millis ticks s)
unfolding timed_loop
timed_loop-IsEnded [] count initial millis ticks s enough =
    timed_round-IsEnded count initial millis ticks s halted
      (λ s' short. omega (arith, short, enough, since-enough initial (milliseconds_elapsed ticks)))
timed_loop-IsEnded (h ∷ halts) count initial millis ticks s enough =
    let late : initial + millis ≤ milliseconds_elapsed (ticks + h.passed + passed_all halts) =
      subst (λ n. initial + millis ≤ milliseconds_elapsed n) (omega arith) enough in
    timed_round-IsEnded count initial millis ticks s _ (λ s' short.
      after_halt-IsEnded _ (save_keys s'.keyboard h.codes) (λ k.
        timed_loop-IsEnded halts count initial millis (ticks + h.passed)
          (record s' { keyboard = k }) late))

-- Once the timer has ticked for the milliseconds of a call, `sys_timedRead` does not halt any more,
-- whatever keys came: it has returned, or Ctrl-C or an overflow of the keyboard's buffer broke it off.
pub sys_timed_read-IsEnded :
    (halts : List Halt) (p_read fd : ℕ) (buf : ℕ → ℕ) (count millis ticks : ℕ) (k : Keyboard)
    → milliseconds_elapsed ticks + millis ≤ milliseconds_elapsed (ticks + passed_all halts)
    → IsEnded (sys_timed_read halts p_read fd buf count millis ticks k)
unfolding sys_timed_read
sys_timed_read-IsEnded halts p_read fd buf count millis ticks k enough =
    either (fd == p_read) _ _
      (timed_loop-IsEnded halts count (milliseconds_elapsed ticks) millis ticks _ enough) tt
