-- ===== src/Syscalls/Clock.antt =====
-- Kernel/timer.c, and the calls of Kernel/syscallManager.c that wait for it.
-- A `double` holds `ticks / 18` so closely that `1000 * ticks / 18` is cut off to the same
-- number. A `_hlt` ends with an interrupt: each halt comes with the ticks, and
-- the codes of the keyboard, that arrive before the process goes on.
use s_o.Base.{
  ℕ, ◌+◌, ◌-◌, ◌*◌, ◌/◌, ◌%◌, ◌^◌, ◌&&◌, Option, none, some, List, [], ◌∷◌, ltb, ◌==◌,
  if◌then◌else◌, update,
}
use s_o.Keyboard.Driver.{Keyboard, clear_keyboard_buffer}
use s_o.Keyboard.Reading.{
  Input, Reading, after_halt, get_kbd_buffer, halted, line_end, read, save_keys, with_end,
}

abbrev pub timer_handler : ℕ → ℕ
timer_handler ticks = ticks + 1

abbrev pub seconds_elapsed : ℕ → ℕ
seconds_elapsed ticks = ticks / 18

abbrev pub milliseconds_elapsed : ℕ → ℕ
milliseconds_elapsed ticks = 1000 * ticks / 18

-- `milliseconds_elapsed() - initial`, a `long`, where `initial` is the `int` that the number
-- `initial_ms` becomes: the low 32 bits, less 2 ^ 32 where they are 2 ^ 31 or more.
unfoldable pub since : ℕ → ℕ → ℕ
since initial_ms now =
    let low = initial_ms % 2 ^ 32 in if ltb low (2 ^ 31) then now - low else now + (2 ^ 32 - low)

-- The loop of `sys_wait`; `initial` is the time at its start, before it is made an `int`: the ticks
-- when it returns, or `none` if it still halts.
unfoldable pub wait_loop : List ℕ → ℕ → ℕ → ℕ → Option ℕ
wait_loop [] initial millis ticks =
    if ltb (since initial (milliseconds_elapsed ticks)) millis then none else some ticks
wait_loop (passed ∷ halts) initial millis ticks =
    let further = wait_loop halts initial millis (ticks + passed) in
    if ltb (since initial (milliseconds_elapsed ticks)) millis then further else some ticks

unfoldable pub sys_wait : List ℕ → ℕ → ℕ → Option ℕ
unfolding wait_loop
sys_wait halts millis ticks = wait_loop halts (milliseconds_elapsed ticks) millis ticks

-- What arrives at one halt.
pub record Halt : Type 0 where
  pub passed : ℕ
  pub codes : List ℕ

-- A round of the loop of `sys_timedRead` up to the halt.
unfoldable pub timed_round : ℕ → ℕ → ℕ → ℕ → Input → (Input → Reading) → Reading
unfolding get_kbd_buffer
timed_round count initial millis ticks s go_on =
    let got = get_kbd_buffer count s in
    if ltb s.i ((count + 2 ^ 32 - 1) % 2 ^ 32)
      && ltb (since initial (milliseconds_elapsed ticks)) millis
    then (if got.0 && line_end got.1
        then read got.1.i (with_end got.1 (got.1.i - 1))
        else go_on got.1)
    else read s.i (with_end s s.i)

unfoldable pub timed_loop : List Halt → ℕ → ℕ → ℕ → ℕ → Input → Reading
unfolding timed_round save_keys
timed_loop [] count initial millis ticks s = timed_round count initial millis ticks s halted
timed_loop (h ∷ halts) count initial millis ticks s =
    timed_round count initial millis ticks s (λ s'.
      after_halt
        (λ k. timed_loop halts count initial millis (ticks + h.passed) (record s' { keyboard = k }))
        (save_keys s'.keyboard h.codes))

-- `sys_timedRead` of a process that reads from `p_read`.
unfoldable pub sys_timed_read : List Halt → ℕ → ℕ → (ℕ → ℕ) → ℕ → ℕ → ℕ → Keyboard → Reading
unfolding timed_loop update
sys_timed_read halts p_read fd buf count millis ticks k =
    if fd == p_read
    then timed_loop halts count (milliseconds_elapsed ticks) millis ticks
        (record { buf = update buf 0 0; i = 0; keyboard = clear_keyboard_buffer k })
    else read 0 (record { buf = buf; i = 0; keyboard = k })
