-- ===== src/UserLib/Tests.antt =====
-- The decimal conversions at concrete numbers.
use s_o.Base.{◌+◌, ◌-◌, ◌/◌, ◌%◌, ◌^◌, ◌≤◌, ◌<◌, ◌≡◌, ◌⊎◌, some, arith}
use s_o.UserLib.{Memory, atoul, ultoa, uint_to_base}
use s_o.UserLib.Letters.{character, uint_to_base-digits}
use s_o.UserLib.Decimal.{atoul-ultoa}
use s_o.UserLib.Clock.{packed, local_hours, get_time_format}
use s_o.UserLib.Dates.{three_numbers, get_time_format-Text}
use s_o.Filter.Vowels.{Text}

-- Memory with other bytes in it.
abbrev used : Memory
used = λ _. 7

atoul-ultoa_example : atoul (0 + 23) (ultoa 1024 100 used).1 100 ≡ some 1024
atoul-ultoa_example = atoul-ultoa 1024 0 100 used (omega arith)

-- 255 in base 16, and its last character.
uint_to_base-digits_example :
    (255 < 16 ^ (uint_to_base 255 100 16 used).0)
    × (((uint_to_base 255 100 16 used).0 ≡ 1) ⊎ (16 ^ ((uint_to_base 255 100 16 used).0 - 1) ≤ 255))
    × ((uint_to_base 255 100 16 used).1 (100 + (uint_to_base 255 100 16 used).0) ≡ 0)
    × (((uint_to_base 255 100 16 used).0 ≤ 0)
        ⊎ ((uint_to_base 255 100 16 used).1 (100 + ((uint_to_base 255 100 16 used).0 - 1 - 0))
            ≡ character (255 / 16 ^ 0 % 16)))
uint_to_base-digits_example =
    uint_to_base-digits 255 100 16 0 used (omega arith) (omega arith) (omega arith)

-- 13:05:09
get_time_format-Text_example :
    Text (get_time_format (packed 13 5 9) 100 used) 100 (three_numbers 58 (local_hours 13) 5 9)
    × ((local_hours 13 ≡ (13 + 21) % 24) ⊎ ((3 ≤ 13) × (13 ≤ 5)))
get_time_format-Text_example =
    get_time_format-Text 13 5 9 100 used (omega arith) (omega arith) (omega arith)
