-- ===== src/Fields.antt =====
-- The writing of a packed C struct: little-endian numbers (the macros of gpt/endian.h) and copied
-- bytes, each at its offset.
pub mod Laws
use tlibc.Base.{
  ℕ, ◌+◌, Bool, true, false, Option, none, some, List, [], ◌∷◌, Bytes, Memory, write_all, length,
  leb, ◌==◌, ◌&&◌, ◌||◌, if◌then◌else◌,
}
use tlibc.Endian.{ByteOrder, Width, size, store_le}

-- `_generic_store_le(p->field, value)`, or `memcpy(p->field, bytes, n)`.
pub data Item : Type 0 where
  num : ℕ → Width → ℕ → Item
  raw : ℕ → Bytes → Item

put_item : ByteOrder → Memory → ℕ → Item → Memory
put_item o m base (num off w v) = store_le o w m (base + off) v
put_item o m base (raw off bs) = write_all m (base + off) bs

-- The stores in their order, to the struct at address `base`.
pub put_items : ByteOrder → Memory → ℕ → List Item → Memory
put_items o m base [] = m
put_items o m base (i ∷ items) = put_items o (put_item o m base i) base items

abbrev pub item_offset : Item → ℕ
item_offset (num off w v) = off
item_offset (raw off bs) = off

unfoldable pub item_size : Item → ℕ
unfolding size
item_size (num off w v) = size w
item_size (raw off bs) = length bs

-- No item touches the `n` bytes at `off`.
unfoldable pub apart : ℕ → ℕ → List Item → Bool
unfolding item_size
apart off n [] = true
apart off n (i ∷ items) =
    (leb (item_offset i + item_size i) off || leb (off + n) (item_offset i)) && apart off n items

-- The number that was last stored at an offset in a width, if later stores leave it alone.
unfoldable pub lookup_num : ℕ → Width → List Item → Option ℕ
unfolding apart size
lookup_num off w [] = none
lookup_num off w (num off' w' v ∷ items) =
    if (off == off') && (size w == size w') && apart off (size w) items
    then some v
    else lookup_num off w items
lookup_num off w (raw off' bs ∷ items) = lookup_num off w items

-- Every item lies in the first `n` bytes.
unfoldable pub fits_in : ℕ → List Item → Bool
unfolding item_size
fits_in n [] = true
fits_in n (i ∷ items) = leb (item_offset i + item_size i) n && fits_in n items
