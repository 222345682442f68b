-- ===== src/Endian.antt =====
-- gpt/endian.h: little-endian loads and stores on a host of either byte order. A value of a C
-- type is a number, and its object representation the bytes that the host keeps for it.
pub mod Laws
use mathlib.Core.List.{reverse}
use tlibc.Base.{
  ℕ, zero, suc, ◌+◌, ◌-◌, ◌*◌, ◌/◌, ◌%◌, Bool, true, false, List, [], ◌∷◌, Bytes, Memory, get_or,
  read_out, write_all, ◌==◌, if◌then◌else◌,
}

-- The byte order of the host.
pub data ByteOrder : Type 0 where
  little big : ByteOrder

-- The `n` bytes of a number, the lowest first.
unfoldable pub le_bytes : ℕ → ℕ → Bytes
le_bytes zero v = []
le_bytes (suc n) v = v % 256 ∷ le_bytes n (v / 256)

unfoldable pub of_le_bytes : Bytes → ℕ
of_le_bytes [] = 0
of_le_bytes (b ∷ bs) = b + 256 * of_le_bytes bs

-- The object representation of a value of `n` bytes, and the value of a representation.
unfoldable pub represent : ByteOrder → ℕ → ℕ → Bytes
represent little n v = le_bytes n v
represent big n v = reverse (le_bytes n v)

unfoldable pub value_of : ByteOrder → Bytes → ℕ
value_of little bs = of_le_bytes bs
value_of big bs = of_le_bytes (reverse bs)

-- The first byte of an `int` that is 1.
unfoldable pub little_endian : ByteOrder → Bool
little_endian o = get_or (represent o 4 1) 0 0 == 1

-- `sizeof(attr)`
pub data Width : Type 0 where
  w8 w16 w32 w64 : Width

unfoldable pub size : Width → ℕ
size w8 = 1
size w16 = 2
size w32 = 4
size w64 = 8

-- The bytes that `__swap_16`, `__swap_32` and `__swap_64` put into `ret`, each from its index of
-- `src`.
swap_bytes : Width → Bytes → Bytes
swap_bytes w8 src = src
swap_bytes w16 src = get_or src 1 0 ∷ get_or src 0 0 ∷ []
swap_bytes w32 src = get_or src 3 0 ∷ get_or src 2 0 ∷ get_or src 1 0 ∷ get_or src 0 0 ∷ []
swap_bytes w64 src =
    get_or src (7 - 0) 0
    ∷ get_or src (7 - 1) 0
    ∷ get_or src (7 - 2) 0
    ∷ get_or src (7 - 3) 0
    ∷ get_or src (7 - 4) 0
    ∷ get_or src (7 - 5) 0
    ∷ get_or src (7 - 6) 0
    ∷ get_or src (7 - 7) 0
    ∷ []

pub swap : ByteOrder → Width → ℕ → ℕ
swap o w v = value_of o (swap_bytes w (represent o (size w) v))

-- `*d = val` at a pointer to a type of that width
pub poke : ByteOrder → Width → Memory → ℕ → ℕ → Memory
poke o w m a v = write_all m a (represent o (size w) v)

unfoldable pub peek : ByteOrder → Width → Memory → ℕ → ℕ
peek o w m a = value_of o (read_out m a (size w))

-- `_generic_store_le`: a single byte is assigned; the others go through `__store_le16` and the
-- like.
pub store_le : ByteOrder → Width → Memory → ℕ → ℕ → Memory
store_le o w8 m a v = poke o w8 m a v
store_le o w m a v = poke o w m a (if little_endian o then v else swap o w v)

unfoldable pub load_le : ByteOrder → Width → Memory → ℕ → ℕ
load_le o w8 m a = peek o w8 m a
load_le o w m a = if little_endian o then peek o w m a else swap o w (peek o w m a)
