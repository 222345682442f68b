-- ===== src/Endian/Laws.antt =====
-- The loads and stores of gpt/endian.h do the same on every host: the lowest byte stands first.
use mathlib.Core.List.{reverse}
use tlibc.Base.{
  ◌⊎◌, write_all-outside, ℕ, zero, suc, ◌+◌, ◌*◌, ◌/◌, ◌%◌, ◌^◌, ◌≤◌, ◌<◌, ◌≡◌, refl, ap, ◌∙◌, true,
  false, if◌then◌else◌, [], ◌∷◌, Bytes, Memory, All, length, write_all, read_out,
  read_out-write_all, arith,
}
use tlibc.Endian.{
  ByteOrder, little, big, Width, w8, w16, w32, w64, size, le_bytes, of_le_bytes, represent,
  value_of, swap, swap_bytes, little_endian, poke, peek, store_le, load_le,
}

pub length-le_bytes : (n v : ℕ) → length (le_bytes n v) ≡ n
unfolding le_bytes
length-le_bytes zero v = refl
length-le_bytes (suc n) v = omega (arith, length-le_bytes n (v / 256))

le_bytes-of_le_bytes :
    (bs : Bytes) → All (λ b. b < 256) bs → le_bytes (length bs) (of_le_bytes bs) ≡ bs
unfolding le_bytes of_le_bytes
le_bytes-of_le_bytes [] h = refl
le_bytes-of_le_bytes (b ∷ bs) (hb, h) =
    let low : (b + 256 * of_le_bytes bs) % 256 ≡ b = omega arith in
    let high : (b + 256 * of_le_bytes bs) / 256 ≡ of_le_bytes bs = omega arith in
    rw (low, high) (ap (λ t. b ∷ t) (le_bytes-of_le_bytes bs h))

-- The bytes of a value spell it, as far as they reach.
of_le_bytes-le_bytes : (w : Width) (v : ℕ) → of_le_bytes (le_bytes (size w) v) ≡ v % 256 ^ size w
unfolding le_bytes of_le_bytes size
of_le_bytes-le_bytes w8 v = omega arith
of_le_bytes-le_bytes w16 v = omega arith
of_le_bytes-le_bytes w32 v = omega arith
of_le_bytes-le_bytes w64 v = omega arith

AreBytes-reverse : (w : Width) (v : ℕ) → All (λ b. b < 256) (reverse (le_bytes (size w) v))
unfolding le_bytes size
AreBytes-reverse w8 v = omega arith
AreBytes-reverse w16 v = omega arith
AreBytes-reverse w32 v = omega arith
AreBytes-reverse w64 v = omega arith

-- On a big-endian host the swapped value is kept as the bytes of the value, the lowest first.
represent-swap : (w : Width) (v : ℕ) → represent big (size w) (swap big w v) ≡ le_bytes (size w) v
unfolding represent swap swap_bytes value_of size le_bytes
represent-swap w8 v =
    ap reverse (le_bytes-of_le_bytes (reverse (le_bytes 1 v)) (AreBytes-reverse w8 v))
represent-swap w16 v =
    ap reverse (le_bytes-of_le_bytes (reverse (le_bytes 2 v)) (AreBytes-reverse w16 v))
represent-swap w32 v =
    ap reverse (le_bytes-of_le_bytes (reverse (le_bytes 4 v)) (AreBytes-reverse w32 v))
represent-swap w64 v =
    ap reverse (le_bytes-of_le_bytes (reverse (le_bytes 8 v)) (AreBytes-reverse w64 v))

little_endian-little : little_endian little ≡ true
unfolding little_endian represent le_bytes
little_endian-little = refl

little_endian-big : little_endian big ≡ false
unfolding little_endian represent le_bytes
little_endian-big = refl

-- A store puts the bytes of the value at the address, the lowest first, whatever the byte order
-- of the host, and changes no other address.
pub store_le-le_bytes :
    (o : ByteOrder) (w : Width) (m : Memory) (a v : ℕ)
    → store_le o w m a v ≡ write_all m a (le_bytes (size w) v)
unfolding store_le poke
store_le-le_bytes little w8 m a v = unfold represent in refl
store_le-le_bytes little w16 m a v = rw little_endian-little (unfold represent in refl)
store_le-le_bytes little w32 m a v = rw little_endian-little (unfold represent in refl)
store_le-le_bytes little w64 m a v = rw little_endian-little (unfold represent in refl)
store_le-le_bytes big w8 m a v = unfold represent size le_bytes in refl
store_le-le_bytes big w16 m a v = rw little_endian-big (ap (write_all m a) (represent-swap w16 v))
store_le-le_bytes big w32 m a v = rw little_endian-big (ap (write_all m a) (represent-swap w32 v))
store_le-le_bytes big w64 m a v = rw little_endian-big (ap (write_all m a) (represent-swap w64 v))

swap-value_of :
    (w : Width) (v : ℕ)
    → swap big w (value_of big (le_bytes (size w) v)) ≡ of_le_bytes (le_bytes (size w) v)
unfolding represent swap swap_bytes value_of size le_bytes
swap-value_of w8 v =
    ap (λ l. of_le_bytes (reverse (swap_bytes w8 (reverse l))))
      (le_bytes-of_le_bytes (reverse (le_bytes 1 v)) (AreBytes-reverse w8 v))
swap-value_of w16 v =
    ap (λ l. of_le_bytes (reverse (swap_bytes w16 (reverse l))))
      (le_bytes-of_le_bytes (reverse (le_bytes 2 v)) (AreBytes-reverse w16 v))
swap-value_of w32 v =
    ap (λ l. of_le_bytes (reverse (swap_bytes w32 (reverse l))))
      (le_bytes-of_le_bytes (reverse (le_bytes 4 v)) (AreBytes-reverse w32 v))
swap-value_of w64 v =
    ap (λ l. of_le_bytes (reverse (swap_bytes w64 (reverse l))))
      (le_bytes-of_le_bytes (reverse (le_bytes 8 v)) (AreBytes-reverse w64 v))

-- A load from the bytes of a value, the lowest first, gives the value as far as they reach,
-- whatever the byte order of the host.
load_le-le_bytes :
    (o : ByteOrder) (w : Width) (m : Memory) (a v : ℕ)
    → read_out m a (size w) ≡ le_bytes (size w) v
    → load_le o w m a ≡ v % 256 ^ size w
unfolding load_le peek
load_le-le_bytes little w8 m a v e = rw e (unfold value_of in of_le_bytes-le_bytes w8 v)
load_le-le_bytes little w16 m a v e =
    rw (little_endian-little, e) (unfold value_of in of_le_bytes-le_bytes w16 v)
load_le-le_bytes little w32 m a v e =
    rw (little_endian-little, e) (unfold value_of in of_le_bytes-le_bytes w32 v)
load_le-le_bytes little w64 m a v e =
    rw (little_endian-little, e) (unfold value_of in of_le_bytes-le_bytes w64 v)
load_le-le_bytes big w8 m a v e = rw e (unfold value_of size le_bytes in of_le_bytes-le_bytes w8 v)
load_le-le_bytes big w16 m a v e =
    rw (little_endian-big, e) (swap-value_of w16 v ∙ of_le_bytes-le_bytes w16 v)
load_le-le_bytes big w32 m a v e =
    rw (little_endian-big, e) (swap-value_of w32 v ∙ of_le_bytes-le_bytes w32 v)
load_le-le_bytes big w64 m a v e =
    rw (little_endian-big, e) (swap-value_of w64 v ∙ of_le_bytes-le_bytes w64 v)

-- A value that is stored is loaded back, as far as it fits the width, even by a host of the other
-- byte order.
pub load_le-store_le :
    (o p : ByteOrder) (w : Width) (m : Memory) (a v : ℕ)
    → load_le p w (store_le o w m a v) a ≡ v % 256 ^ size w
load_le-store_le o p w m a v =
    load_le-le_bytes p w (store_le o w m a v) a v
      (rw store_le-le_bytes (read_back (le_bytes (size w) v) (length-le_bytes (size w) v)))
  where
    read_back : (bs : Bytes) → length bs ≡ size w → read_out (write_all m a bs) a (size w) ≡ bs
    read_back bs e = rw (← e) (read_out-write_all m a bs)

-- A load depends on the bytes at its address alone.
pub load_le-cong :
    (o : ByteOrder) (w : Width) (m m' : Memory) (a a' : ℕ)
    → read_out m a (size w) ≡ read_out m' a' (size w)
    → load_le o w m a ≡ load_le o w m' a'
unfolding load_le peek
load_le-cong o w8 m m' a a' e = ap (value_of o) e
load_le-cong o w16 m m' a a' e =
    ap (λ bs. if little_endian o then value_of o bs else swap o w16 (value_of o bs)) e
load_le-cong o w32 m m' a a' e =
    ap (λ bs. if little_endian o then value_of o bs else swap o w32 (value_of o bs)) e
load_le-cong o w64 m m' a a' e =
    ap (λ bs. if little_endian o then value_of o bs else swap o w64 (value_of o bs)) e

-- A little-endian host reads its own numbers as little-endian ones.
pub peek-load_le : (w : Width) (m : Memory) (a : ℕ) → peek little w m a ≡ load_le little w m a
unfolding load_le
peek-load_le w8 m a = refl
peek-load_le w16 m a = rw little_endian-little refl
peek-load_le w32 m a = rw little_endian-little refl
peek-load_le w64 m a = rw little_endian-little refl

-- A store of 32 bits leaves the other addresses alone.
pub store_le-outside :
    (o : ByteOrder) (m : Memory) (a v q : ℕ) → (q < a) ⊎ (a + 4 ≤ q) → store_le o w32 m a v q ≡ m q
unfolding size
store_le-outside o m a v q h =
    rw store_le-le_bytes (write_all-outside m a (le_bytes 4 v) q (rw length-le_bytes h))

-- A little-endian host keeps four bytes read as a number in their order.
pub poke-of_le_bytes :
    (m : Memory) (a b0 b1 b2 b3 : ℕ)
    → b0 < 256
    → b1 < 256
    → b2 < 256
    → b3 < 256
    → poke little w32 m a (of_le_bytes (b0 ∷ b1 ∷ b2 ∷ b3 ∷ []))
      ≡ write_all m a (b0 ∷ b1 ∷ b2 ∷ b3 ∷ [])
unfolding poke represent size
poke-of_le_bytes m a b0 b1 b2 b3 h0 h1 h2 h3 =
    ap (write_all m a) (le_bytes-of_le_bytes (b0 ∷ b1 ∷ b2 ∷ b3 ∷ []) (h0, (h1, (h2, (h3, tt)))))
