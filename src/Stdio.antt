-- ===== src/Stdio.antt =====
-- The output half of tlibc/stdio.c: the number writers, `Sprintf` and `Printf`. An `int` or a
-- `long` is its bit pattern, below 2 ^ 32 or 2 ^ 64. A writer returns how far `dst` moves on,
-- and the memory.
pub mod Digits
pub mod Put
pub mod Format
pub mod Reader
pub mod Atoi
use tlibc.Base.{
  ◌≡◌, refl, not, ◌&&◌, ℕ, zero, suc, ◌+◌, ◌-◌, ◌*◌, ◌/◌, ◌%◌, ◌^◌, Bool, true, false, Option, none,
  some, List, [], ◌∷◌, Bytes, length, Memory, codes, read_out, get_or, store, ltb, ◌==◌,
  if◌then◌else◌, ◌>>=◌,
}

-- `digits[d]`
abbrev pub digit_char : ℕ → ℕ
digit_char d = get_or (codes "0123456789abcdef") d 0

-- `while (v > 0) { buf[i++] = digits[v % base]; v /= base; }`: the local array as a stack with
-- the last byte first. On an unsigned value `& 0xf` and `>> 4` are `% 16` and `/ 16`.
push_digits : ℕ → ℕ → ℕ → Bytes → Bytes
push_digits zero base v stack = stack
push_digits (suc fuel) base v stack =
    let rest = push_digits fuel base (v / base) (digit_char (v % base) ∷ stack) in
    if v == 0 then stack else rest

-- A round makes the value smaller, so that one round more than the value is enough. The size of the
-- array is left to `fill_digits` below.
unfoldable pub digits : ℕ → ℕ → Bytes
unfolding push_digits
digits base v = push_digits (suc v) base v []

-- The same loop with an array of `size` bytes. `none`: it writes behind the array, which C leaves
-- undefined.
fill_from : ℕ → ℕ → ℕ → ℕ → Bytes → Option Bytes
fill_from size zero base v stack = some stack
fill_from size (suc fuel) base v stack =
    let rest = fill_from size fuel base (v / base) (digit_char (v % base) ∷ stack) in
    let written = if ltb (length stack) size then rest else none in
    if v == 0 then some stack else written

pub fill_digits : ℕ → ℕ → ℕ → Option Bytes
fill_digits size base v = fill_from size (suc v) base v []

-- `while (i > 0) { i--; dst[ret++] = buf[i]; }`
pop_digits : Memory → ℕ → ℕ → Bytes → ℕ × Memory
pop_digits m dst ret [] = (ret, m)
pop_digits m dst ret (c ∷ stack) = pop_digits (store m (dst + ret) c) dst (ret + 1) stack

pub putuint : Memory → ℕ → ℕ → ℕ × Memory
putuint m dst val = if val == 0 then (1, store m dst b'0') else pop_digits m dst 0 (digits 10 val)

-- `-val`, as the unsigned number of `w` bits that it is stored in. Of the least number, C leaves
-- `-val` undefined; here it wraps around, as the usual processors and compilers have it.
abbrev pub negate : ℕ → ℕ → ℕ
negate w val = (2 ^ w - val) % 2 ^ w

pub putint : Memory → ℕ → ℕ → ℕ × Memory
putint m dst val =
    if ltb val (2 ^ 31)
    then (if val == 0 then (1, store m dst b'0') else pop_digits m dst 0 (digits 10 val))
    else (if negate 32 val == 0
        then (1, store (store m dst b'-') dst b'0')
        else pop_digits (store m dst b'-') dst 1 (digits 10 (negate 32 val)))

abbrev store_0x : Memory → ℕ → Memory
store_0x m dst = store (store m dst b'0') (dst + 1) b'x'

pub puthex : Memory → ℕ → ℕ → ℕ × Memory
puthex m dst val = pop_digits (store_0x m dst) dst 2 (digits 16 val)

-- At 0 the digit goes into the local array, and not to `dst[2]`.
pub putptr : Memory → ℕ → ℕ → ℕ × Memory
putptr m dst val =
    if val == 0 then (3, store_0x m dst) else pop_digits (store_0x m dst) dst 2 (digits 16 val)

-- No test for 0 here.
pub putl : Memory → ℕ → ℕ → ℕ × Memory
putl m dst val =
    if ltb val (2 ^ 63)
    then pop_digits m dst 0 (digits 10 val)
    else pop_digits (store m dst b'-') dst 1 (digits 10 (negate 64 val))

-- `dst[i] = buf[ret - 1 - i]` for each `i` below `ret`
pub putul : Memory → ℕ → ℕ → ℕ × Memory
putul m dst val = if val == 0 then (1, store m dst b'0') else pop_digits m dst 0 (digits 10 val)

-- `while (*src != 0) { dst[ret++] = *src; src++; }`, `ret` an `unsigned int`
copy_text : Memory → ℕ → ℕ → Bytes → ℕ × Memory
copy_text m dst ret [] = (ret, m)
copy_text m dst ret (c ∷ s) = copy_text (store m (dst + ret) c) dst ((ret + 1) % 2 ^ 32) s

-- `none` is the null pointer.
pub putstr : Memory → ℕ → Option Bytes → ℕ × Memory
putstr m dst none = copy_text m dst 0 (codes "(null)")
putstr m dst (some s) = copy_text m dst 0 s

-- What `va_arg` takes: a 32-bit word, a 64-bit word, or a string.
pub data Arg : Type 0 where
  word32 word64 : ℕ → Arg
  text : Option Bytes → Arg

-- The cases of the `switch`.
pub data Directive : Type 0 where
  int_d uint_u hex_x ptr_p long_l string_s ulong_L other : Directive

pub directive : ℕ → Directive
directive c =
    if c == b'd'
    then int_d
    else if c == b'u'
    then uint_u
    else if c == b'x'
    then hex_x
    else if c == b'p'
    then ptr_p
    else if c == b'l'
    then long_l
    else if c == b's'
    then string_s
    else if c == b'L'
    then ulong_L
    else other

-- The number of bytes of the local array `buf` of the writer of a directive.
pub array_size : Directive → ℕ
array_size int_d = 16
array_size uint_u = 16
array_size hex_x = 8
array_size ptr_p = 16
array_size long_l = 24
array_size ulong_L = 24
array_size string_s = 0
array_size other = 0

-- The writer of a directive at the next argument. `none`: there is no argument of that type,
-- which C leaves undefined.
put_arg : Directive → List Arg → Memory → ℕ → Option (ℕ × Memory)
put_arg int_d (word32 w ∷ args) m dst = some (putint m dst w)
put_arg uint_u (word32 w ∷ args) m dst = some (putuint m dst w)
put_arg hex_x (word32 w ∷ args) m dst = some (puthex m dst w)
put_arg ptr_p (word64 w ∷ args) m dst = some (putptr m dst w)
put_arg long_l (word64 w ∷ args) m dst = some (putl m dst w)
put_arg string_s (text s ∷ args) m dst = some (putstr m dst s)
put_arg ulong_L (word64 w ∷ args) m dst = some (putul m dst w)
put_arg _ args m dst = none

abbrev next_args : List Arg → List Arg
next_args [] = []
next_args (a ∷ args) = args

abbrev is_other : Directive → Bool
is_other other = true
is_other _ = false

-- The loop over the format. A `%` that no known letter follows is written, and the loop goes on
-- at the letter (`i--`, then `i += 2`).
sprintf_from : Bytes → List Arg → Memory → ℕ → ℕ → Option (ℕ × Memory)
sprintf_from [] args m dst ret = some (ret, store m (dst + ret) 0)
sprintf_from (c ∷ []) args m dst ret =
    some ((ret + 1) % 2 ^ 32, store (store m (dst + ret) c) (dst + (ret + 1) % 2 ^ 32) 0)
sprintf_from (c ∷ k ∷ fmt) args m dst ret =
    let plain = sprintf_from (k ∷ fmt) args (store m (dst + ret) c) dst ((ret + 1) % 2 ^ 32) in
    let put = put_arg (directive k) args m (dst + ret) >>= λ (n, m').
    sprintf_from fmt (next_args args) m' dst ((ret + n) % 2 ^ 32) in
    if c == b'%' && not (is_other (directive k)) then put else plain

pub sprintf : Memory → ℕ → Bytes → List Arg → Option (ℕ × Memory)
sprintf m dst fmt args = sprintf_from fmt args m dst 0

-- `Printf` repeats the loop over its static array of 2048 bytes, at the address `buf`; the result is
-- the count and what `sys_write` takes for file descriptor 1. `none`: the text and its NUL do not
-- fit the array, and the loop writes behind it, which C leaves undefined. (From 4 GiB on the count wraps
-- around, and is not that of the bytes any more.)
pub printf : Memory → ℕ → Bytes → List Arg → Option (ℕ × Bytes)
printf m buf fmt args = sprintf_from fmt args m buf 0 >>= λ (ret, m').
    if ltb ret 2048 then some (ret, read_out m' buf ret) else none

printf_runs :
    printf
      (λ _. 0)
      100
      (codes "%d: %s %x%%\n")
      (word32 (2 ^ 32 - 42) ∷ text (some (codes "ok")) ∷ word32 255 ∷ [])
    ≡ some (15, codes "-42: ok 0xff%%\n")
unfolding printf sprintf_from put_arg directive putint putstr copy_text puthex pop_digits digits
    push_digits read_out
printf_runs = refl
