-- ===== src/Stdio/Put.antt =====
-- What each number writer of tlibc/stdio.c leaves at `dst`, as a text.
use tlibc.Base.{
  ℕ, ◌+◌, ◌-◌, ◌^◌, ◌<◌, ◌≡◌, ◌≢◌, Option, none, some, [], ◌∷◌, Bytes, Memory, store, write_all,
  length, codes, arith, ltb, ◌==◌, if◌then◌else◌,
}
use tlibc.Stdio.{
  digits, pop_digits, putuint, putint, puthex, putptr, putl, putul, putstr, copy_text,
}

-- Numbers as text: 0 has one digit.
unfoldable pub decimal : ℕ → Bytes
decimal v = if v == 0 then codes "0" else digits 10 v

-- The text of the signed number with the bit pattern `val` in `w` bits.
unfoldable pub signed : ℕ → (ℕ → Bytes) → ℕ → Bytes
signed w print val = if ltb val (2 ^ (w - 1)) then print val else b'-' ∷ print (2 ^ w - val)

pub prefixed : ℕ → Bytes
prefixed v = b'0' ∷ b'x' ∷ digits 16 v

-- The result of a writer that puts `bs` at `dst`.
abbrev pub wrote : Memory → ℕ → Bytes → ℕ × Memory
wrote m dst bs = (length bs, write_all m dst bs)

pop_digits-write_all :
    (m : Memory) (dst ret a : ℕ) (bs : Bytes)
    → a ≡ dst + ret
    → pop_digits m dst ret bs ≡ (ret + length bs, write_all m a bs)
unfolding pop_digits write_all
pop_digits-write_all m dst ret a [] at = ground arith
pop_digits-write_all m dst ret a (c ∷ bs) at =
    ground (arith, pop_digits-write_all (store m a c) dst (ret + 1) (a + 1) bs (omega arith))

-- `putuint` writes the number in decimal.
pub putuint-wrote : (m : Memory) (dst val : ℕ) → putuint m dst val ≡ wrote m dst (decimal val)
unfolding putuint decimal write_all
putuint-wrote m dst val =
    ground (arith, pop_digits-write_all m dst 0 dst (digits 10 val) (omega arith))

-- `putul` writes the number in decimal.
pub putul-wrote : (m : Memory) (dst val : ℕ) → putul m dst val ≡ wrote m dst (decimal val)
unfolding putul decimal write_all
putul-wrote m dst val =
    ground (arith, pop_digits-write_all m dst 0 dst (digits 10 val) (omega arith))

-- `putint` writes every `int` in decimal behind its sign, the least one too.
pub putint-wrote :
    (m : Memory) (dst val : ℕ)
    → val < 2 ^ 32
    → putint m dst val ≡ wrote m dst (signed 32 decimal val)
unfolding putint decimal signed write_all
putint-wrote m dst val h = ground (
  arith,
  pop_digits-write_all m dst 0 dst (digits 10 val) (omega arith),
  pop_digits-write_all (store m dst b'-') dst 1 (dst + 1) (digits 10 (2 ^ 32 - val)) (omega arith),
)

-- `putl` writes every `long` other than 0 in decimal behind its sign; of 0 it writes nothing.
pub putl-wrote :
    (m : Memory) (dst val : ℕ)
    → val < 2 ^ 64
    → putl m dst val ≡ wrote m dst (signed 64 (digits 10) val)
unfolding putl signed write_all
putl-wrote m dst val h = ground (
  arith,
  pop_digits-write_all m dst 0 dst (digits 10 val) (omega arith),
  pop_digits-write_all (store m dst b'-') dst 1 (dst + 1) (digits 10 (2 ^ 64 - val)) (omega arith),
)

-- `puthex` writes `0x` and the digits; of 0 it writes `0x` alone.
pub puthex-wrote : (m : Memory) (dst val : ℕ) → puthex m dst val ≡ wrote m dst (prefixed val)
unfolding puthex prefixed write_all
puthex-wrote m dst val = ground (
  arith,
  pop_digits-write_all (store (store m dst b'0') (dst + 1) b'x') dst 2 (dst + 1 + 1) (digits 16 val)
      (omega arith),
)

-- `putptr` writes `0x` and the digits of a pointer that is not null.
pub putptr-wrote :
    (m : Memory) (dst val : ℕ) → val ≢ 0 → putptr m dst val ≡ wrote m dst (prefixed val)
unfolding putptr prefixed write_all
putptr-wrote m dst val ne = ground (
  arith,
  pop_digits-write_all (store (store m dst b'0') (dst + 1) b'x') dst 2 (dst + 1 + 1) (digits 16 val)
      (omega arith),
)

copy_text-write_all :
    (m : Memory) (dst ret a : ℕ) (s : Bytes)
    → a ≡ dst + ret
    → ret + length s < 2 ^ 32
    → copy_text m dst ret s ≡ (ret + length s, write_all m a s)
unfolding copy_text write_all
copy_text-write_all m dst ret a [] at fits = ground arith
copy_text-write_all m dst ret a (c ∷ s) at fits =
    ground
      (arith, copy_text-write_all (store m a c) dst (ret + 1) (a + 1) s (omega arith) (omega arith))

-- What `putstr` prints for a pointer: the string, or a text for null.
unfoldable pub string_text : Option Bytes → Bytes
string_text none = codes "(null)"
string_text (some s) = s

-- `putstr` copies the string, or writes `(null)`.
pub putstr-wrote :
    (m : Memory) (dst : ℕ) (s : Option Bytes)
    → length (string_text s) < 2 ^ 32
    → putstr m dst s ≡ wrote m dst (string_text s)
unfolding putstr string_text
putstr-wrote m dst none h = copy_text-write_all m dst 0 dst _ (omega arith) (omega arith)
putstr-wrote m dst (some s) h =
    ground (arith, copy_text-write_all m dst 0 dst s (omega arith) (omega arith))
