-- ===== src/Str.antt =====
-- tlibc/string.c over a flat memory, and tlibc/atoi.c over the bytes of its argument.
pub mod Laws
use tlibc.Base.{
  ℕ, zero, suc, ◌+◌, ◌-◌, ◌*◌, ◌^◌, Bool, true, false, ◌&&◌, Option, none, some, List, [], ◌∷◌,
  Bytes, Memory, store, ltb, leb, ◌==◌, if◌then◌else◌, ◌>>=◌, bit_and,
}

-- `for (; s[i] != 0; i++)`. `none`: the fuel ran out before a NUL was met.
strlen_from : ℕ → Memory → ℕ → ℕ → Option ℕ
strlen_from zero m s i = none
strlen_from (suc fuel) m s i =
    let rest = strlen_from fuel m s (i + 1) in if m (s + i) == 0 then some i else rest

pub strlen : ℕ → Memory → ℕ → Option ℕ
strlen fuel m s = strlen_from fuel m s 0

-- The loop of `Memset` with `left` rounds to go; every round writes `val & 0xff`.
memset_from : ℕ → Memory → ℕ → ℕ → ℕ → Memory
memset_from zero m addr val i = m
memset_from (suc left) m addr val i =
    memset_from left (store m (addr + i) (bit_and val 0xff)) addr val (i + 1)

pub memset_loop : Memory → ℕ → ℕ → ℕ → ℕ × Memory
memset_loop m addr val len = (addr, memset_from len m addr val 0)

-- `for (; *src; dst++, src++)`, then the NUL.
strcpy_from : ℕ → Memory → ℕ → ℕ → Option (ℕ × Memory)
strcpy_from zero m dst src = none
strcpy_from (suc fuel) m dst src =
    let rest = strcpy_from fuel (store m dst (m src)) (dst + 1) (src + 1) in
    if m src == 0 then some (dst, store m dst 0) else rest

-- `NULL` is the address 0.
pub strcpy : ℕ → Memory → ℕ → ℕ → Option (ℕ × Memory)
strcpy fuel m dst src =
    let copied = strcpy_from fuel m dst src in if dst == 0 then some (0, m) else copied

-- `ret *= 10; ret += *nptr - '0'` in `int`. `none`: the sum leaves the range of `int`, which C
-- leaves undefined.
add_digit : ℕ → ℕ → Option ℕ
add_digit ret c = let next = ret * 10 + (c - b'0') in if ltb next (2 ^ 31) then some next else none

abbrev pub is_digit : ℕ → Bool
is_digit c = leb b'0' c && leb c b'9'

-- Every byte that is no digit is skipped, the sign too.
atoi_from : ℕ → Bytes → Option ℕ
atoi_from ret [] = some ret
atoi_from ret (c ∷ s) =
    let digit = add_digit ret c >>= λ next. atoi_from next s in
    let skip = atoi_from ret s in if is_digit c then digit else skip

pub atoi : Bytes → Option ℕ
atoi s = atoi_from 0 s
