-- ===== src/UserLib/Clock.antt =====
-- Userland/uCodeModule/timer.c: the time and the date as text. `time` and `date` are what the system
-- calls return; Kernel/timer.c packs them.
use s_o.Base.{ℕ, ◌+◌, ◌-◌, ◌*◌, ◌/◌, ◌%◌, ◌^◌, ltb, ◌==◌, if◌then◌else◌, update}
use s_o.UserLib.{Memory, itoa}

-- `getTime` and `getDate`, of values below 256.
abbrev pub packed : ℕ → ℕ → ℕ → ℕ
packed a b c = a + 2 ^ 8 * b + 2 ^ 16 * c

-- What becomes of the hours.
unfoldable pub local_hours : ℕ → ℕ
local_hours hours =
    let earlier = if ltb 3 hours then hours - 3 else hours in
    let h0 = if earlier == 0 then 21 else earlier in
    let h1 = if h0 == 1 then 22 else h0 in if h1 == 2 then 23 else h1

-- Three numbers with a character between them, and a NUL.
unfoldable pub write_three : ℕ → ℕ → ℕ → ℕ → ℕ → Memory → Memory
unfolding update
write_three between a b c p mem =
    let m1 = update (itoa a p mem).1 (p + 2) between in
    let m2 = update (itoa b (p + 3) m1).1 (p + 5) between in update (itoa c (p + 6) m2).1 (p + 8) 0

-- `':'` is 58.
unfoldable pub get_time_format : ℕ → ℕ → Memory → Memory
get_time_format time p mem =
    write_three 58 (local_hours (time % 256)) (time / 2 ^ 8 % 256) (time / 2 ^ 16 % 256) p mem

-- `'/'` is 47.
unfoldable pub get_date_format : ℕ → ℕ → Memory → Memory
get_date_format date p mem =
    write_three 47 (date % 256) (date / 2 ^ 8 % 256) (date / 2 ^ 16 % 256) p mem

unfoldable pub get_date_and_time : ℕ → ℕ → ℕ → Memory → Memory
unfolding update
get_date_and_time date time p mem =
    get_time_format time (p + 9) (update (get_date_format date p mem) (p + 8) 32)
