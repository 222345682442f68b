-- ===== src/Fat/Time.antt =====
-- `FAT32Date` and `FAT32Time` of gpt/fat.c, in 16 bits.
use tlibc.Base.{ℕ, ◌+◌, ◌-◌, ◌*◌, ◌/◌, ◌%◌, ◌^◌, ◌≤◌, ◌<◌, ◌≡◌, refl, bit_and, bit_or, arith}
use tlibc.Base.Bits.{bit_and_low, bit_or_high, zero-bit_or}

-- `year -= 1980` wraps around.
pub fat32_date : ℕ → ℕ → ℕ → ℕ
fat32_date year month day =
    let ret = bit_or 0 (bit_and day 0x1F) in
    let ret' = bit_or ret (bit_and month 0xF * 2 ^ 5) in
    let since = (year + 2 ^ 16 - 1980) % 2 ^ 16 in bit_or ret' (bit_and since 0x7F * 2 ^ 9)

pub fat32_time : ℕ → ℕ → ℕ → ℕ
fat32_time hour minute second =
    let ret = bit_or 0 (bit_and (second / 2) 0x1F) in
    let ret' = bit_or ret (bit_and minute 0x3F * 2 ^ 5) in bit_or ret' (bit_and hour 0x1F * 2 ^ 11)

fat32_date_sum :
    (year month day : ℕ)
    → fat32_date year month day
      ≡ day % 2 ^ 5 + month % 2 ^ 4 * 2 ^ 5 + (year + 2 ^ 16 - 1980) % 2 ^ 16 % 2 ^ 7 * 2 ^ 9
unfolding fat32_date
fat32_date_sum year month day =
    rw
      (
        bit_and_low 5 day,
        bit_and_low 4 month,
        bit_and_low 7 ((year + 2 ^ 16 - 1980) % 2 ^ 16),
        zero-bit_or,
        bit_or_high 5 (month % 2 ^ 4) (day % 2 ^ 5) (omega arith),
        bit_or_high 9 ((year + 2 ^ 16 - 1980) % 2 ^ 16 % 2 ^ 7)
            (day % 2 ^ 5 + month % 2 ^ 4 * 2 ^ 5) (omega arith),
      )
      refl

fat32_time_sum :
    (hour minute second : ℕ)
    → fat32_time hour minute second
      ≡ second / 2 % 2 ^ 5 + minute % 2 ^ 6 * 2 ^ 5 + hour % 2 ^ 5 * 2 ^ 11
unfolding fat32_time
fat32_time_sum hour minute second =
    rw
      (
        bit_and_low 5 (second / 2),
        bit_and_low 6 minute,
        bit_and_low 5 hour,
        zero-bit_or,
        bit_or_high 5 (minute % 2 ^ 6) (second / 2 % 2 ^ 5) (omega arith),
        bit_or_high 11 (hour % 2 ^ 5) (second / 2 % 2 ^ 5 + minute % 2 ^ 6 * 2 ^ 5) (omega arith),
      )
      refl

-- A date from 1980 to 2107 fits 16 bits, and its day, month and year are read back from the bits
-- 0 to 4, 5 to 8 and 9 to 15.
pub fat32_date_fields :
    (year month day : ℕ)
    → 1980 ≤ year
    → year ≤ 2107
    → month ≤ 12
    → day ≤ 31
    → (fat32_date year month day < 2 ^ 16)
      × (fat32_date year month day % 2 ^ 5 ≡ day)
      × (fat32_date year month day / 2 ^ 5 % 2 ^ 4 ≡ month)
      × (fat32_date year month day / 2 ^ 9 + 1980 ≡ year)
fat32_date_fields year month day lo hi hm hd = omega (arith, fat32_date_sum year month day)

-- A time of day fits 16 bits; its hour and minute are read back from the bits 11 to 15 and 5 to
-- 10, and its second, to the even second below, from the bits 0 to 4.
fat32_time_fields :
    (hour minute second : ℕ)
    → hour ≤ 23
    → minute ≤ 59
    → second ≤ 59
    → (fat32_time hour minute second < 2 ^ 16)
      × (fat32_time hour minute second % 2 ^ 5 * 2 ≡ second - second % 2)
      × (fat32_time hour minute second / 2 ^ 5 % 2 ^ 6 ≡ minute)
      × (fat32_time hour minute second / 2 ^ 11 ≡ hour)
fat32_time_fields hour minute second hh hm hs = omega (arith, fat32_time_sum hour minute second)

-- The date and the time of a directory entry, as numbers.
pub fat32_date-entry : fat32_date 1995 2 21 ≡ 15 * 512 + 2 * 32 + 21
unfolding fat32_date
fat32_date-entry = refl

pub fat32_time-entry : fat32_time 8 30 25 ≡ 8 * 2048 + 30 * 32 + 12
unfolding fat32_time
fat32_time-entry = refl
