-- ===== src/Fields/Laws.antt =====
-- What is read back from a struct that was written field by field.
use mathlib.Core.Logic.{◌⊎◌, inl, inr}
use tlibc.Base.{
  ℕ, zero, suc, take, ◌+◌, ◌%◌, ◌^◌, ◌≤◌, ◌<◌, ◌≡◌, refl, ◌∙◌, true, some, List, [], ◌∷◌, Bytes,
  Memory, length, Holds, Holds-cong, write_all, write_all-Holds, write_all-outside, read_out-cong,
  arith, ◌&&◌, ◌==◌, Bool-cases,
}
use tlibc.Endian.{ByteOrder, Width, w8, w16, w32, w64, size, le_bytes, store_le, load_le}
use tlibc.Endian.Laws.{store_le-le_bytes, load_le-store_le, load_le-cong, length-le_bytes}
use tlibc.Fields.{
  Item, num, raw, put_item, put_items, item_offset, item_size, apart, lookup_num, fits_in,
}

put_item-outside :
    (o : ByteOrder) (m : Memory) (base q : ℕ) (i : Item)
    → (q < base + item_offset i) ⊎ (base + item_offset i + item_size i ≤ q)
    → put_item o m base i q ≡ m q
unfolding put_item item_size
put_item-outside o m base q (num off w v) h =
    rw store_le-le_bytes
      (write_all-outside m (base + off) (le_bytes (size w) v) q (rw length-le_bytes h))
put_item-outside o m base q (raw off bs) h = write_all-outside m (base + off) bs q h

-- Stores that are apart from the bytes at an offset leave them alone.
pub put_items-apart :
    (o : ByteOrder) (m : Memory) (base off n q : ℕ) (items : List Item)
    → apart off n items ≡ true
    → base + off ≤ q
    → q < base + off + n
    → put_items o m base items q ≡ m q
unfolding put_items apart
put_items-apart o m base off n q [] h lo hi = refl
put_items-apart o m base off n q (i ∷ items) h lo hi = ground (
  arith,
  put_items-apart o (put_item o m base i) base off n q items,
  put_item-outside o m base q i,
)

size-injective : (w w' : Width) → size w ≡ size w' → w ≡ w'
unfolding size
size-injective w8 w8 e = refl
size-injective w16 w16 e = refl
size-injective w32 w32 e = refl
size-injective w64 w64 e = refl
size-injective w8 w16 e = absurd (omega arith)
size-injective w8 w32 e = absurd (omega arith)
size-injective w8 w64 e = absurd (omega arith)
size-injective w16 w8 e = absurd (omega arith)
size-injective w16 w32 e = absurd (omega arith)
size-injective w16 w64 e = absurd (omega arith)
size-injective w32 w8 e = absurd (omega arith)
size-injective w32 w16 e = absurd (omega arith)
size-injective w32 w64 e = absurd (omega arith)
size-injective w64 w8 e = absurd (omega arith)
size-injective w64 w16 e = absurd (omega arith)
size-injective w64 w32 e = absurd (omega arith)

load_le-first :
    (o : ByteOrder) (m : Memory) (base off : ℕ) (w : Width) (v : ℕ) (items : List Item)
    → apart off (size w) items ≡ true
    → load_le o w (put_items o (store_le o w m (base + off) v) base items) (base + off)
      ≡ v % 256 ^ size w
load_le-first o m base off w v items h =
    load_le-cong o w _ (store_le o w m (base + off) v) (base + off) (base + off) (
      read_out-cong _ _ (base + off) (size w)
        (λ q lo hi. put_items-apart o _ base off (size w) q items h lo hi))
    ∙ load_le-store_le o o w m (base + off) v

-- A number that was stored is loaded back, as far as it fits the width.
pub put_items-lookup_num :
    (o : ByteOrder) (m : Memory) (base off : ℕ) (w : Width) (v : ℕ) (items : List Item)
    → lookup_num off w items ≡ some v
    → load_le o w (put_items o m base items) (base + off) ≡ v % 256 ^ size w
unfolding put_items lookup_num put_item
put_items-lookup_num o m base off w v [] h = cc
put_items-lookup_num o m base off w v (raw off' bs ∷ items) h =
    put_items-lookup_num o (put_item o m base (raw off' bs)) base off w v items h
put_items-lookup_num o m base off w v (num off' w' v' ∷ items) h =
    elim (Bool-cases ((off == off') && (size w == size w') && apart off (size w) items)) [
      | inl t ↦ first (ground arith) (size-injective w w' (ground arith)) (ground arith) (rw t at h)
      | inr f ↦
          put_items-lookup_num o (put_item o m base (num off' w' v')) base off w v items (rw f at h)
    ]
  where
    first :
        off ≡ off'
        → w ≡ w'
        → apart off (size w) items ≡ true
        → some v' ≡ some v
        → load_le o w (put_items o (store_le o w' m (base + off') v') base items) (base + off)
          ≡ v % 256 ^ size w
    first eo ew h' ev =
        let e : v' ≡ v = ground arith in
        rw (← eo, ← ew, ← e) (load_le-first o m base off w v' items h')

-- Stores into the first `n` bytes leave everything else alone.
pub put_items-outside :
    (o : ByteOrder) (m : Memory) (base n q : ℕ) (items : List Item)
    → fits_in n items ≡ true
    → (q < base) ⊎ (base + n ≤ q)
    → put_items o m base items q ≡ m q
unfolding put_items fits_in
put_items-outside o m base n q [] h out = refl
put_items-outside o m base n q (i ∷ items) h out =
    ground (
      arith,
      put_items-outside o (put_item o m base i) base n q items,
      put_item-outside o m base q i,
    )

-- Bytes that were copied stay where later stores leave them alone.
pub put_items-Holds :
    (o : ByteOrder) (m : Memory) (base off : ℕ) (bs : Bytes) (items : List Item)
    → apart off (length bs) items ≡ true
    → Holds (put_items o m base (raw off bs ∷ items)) (base + off) bs
unfolding put_items put_item
put_items-Holds o m base off bs items h =
    Holds-cong (write_all m (base + off) bs) (put_items o (write_all m (base + off) bs) base items)
      (base + off) bs (write_all-Holds m (base + off) bs)
      (λ q lo hi.
        put_items-apart o (write_all m (base + off) bs) base off (length bs) q items h lo hi)

Holds-take : (m : Memory) (a n : ℕ) (bs : Bytes) → Holds m a bs → Holds m a (take n bs)
unfolding tlibc.Base.Lists.take
Holds-take m a zero bs h = tt
Holds-take m a (suc n) [] h = tt
Holds-take m a (suc n) (b ∷ bs) (e, h) = (e, Holds-take m (a + 1) n bs h)

-- So do the first `n` of them behind another store, where only later stores may touch the rest.
pub put_items-Holds_take :
    (o : ByteOrder) (m : Memory) (base off n : ℕ) (bs : Bytes) (first : Item) (items : List Item)
    → apart off (length (take n bs)) items ≡ true
    → Holds (put_items o m base (first ∷ raw off bs ∷ items)) (base + off) (take n bs)
unfolding put_items put_item
put_items-Holds_take o m base off n bs first items h =
    let m1 = write_all (put_item o m base first) (base + off) bs in
    Holds-cong m1 (put_items o m1 base items) (base + off) (take n bs)
      (Holds-take m1 (base + off) n bs (write_all-Holds (put_item o m base first) (base + off) bs))
      (λ q lo hi. put_items-apart o m1 base off (length (take n bs)) q items h lo hi)
