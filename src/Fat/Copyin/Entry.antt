-- ===== src/Fat/Copyin/Entry.antt =====
-- The directory entry that `FAT32Copyin` writes, read back.
use mathlib.Core.Path.{subst}
use tlibc.Base.{
  ℕ, ◌+◌, ◌*◌, ◌/◌, ◌%◌, ◌^◌, ◌<◌, ◌≡◌, ◌≢◌, refl, sym, ◌∙◌, ◌∷◌, Bytes, Memory, memset, Holds,
  arith, bit_and, take, length-take_le,
}
use tlibc.Base.Bits.{bit_and_low}
use tlibc.Endian.{ByteOrder, w8, w16, w32, size, load_le}
use tlibc.Fields.{raw, put_items, lookup_num, apart, item_size}
use tlibc.Fields.Laws.{put_items-lookup_num, put_items-Holds, put_items-Holds_take}
use tlibc.Fat.Layout.{
  attr, first_cluster_high, first_cluster_low, file_size, create_time, create_date,
  last_access_date, write_time, write_date, entry_offset,
}
use tlibc.Fat.Copyin.{stem, suffix, entry_items, put_entry}
use tlibc.Fat.Time.{fat32_time, fat32_date, fat32_time-entry, fat32_date-entry}
use tlibc.Fat.Copyin.Stages.{IsName}

-- A directory entry at `at` with this name, attributes, first cluster and size. The name stands in
-- the bytes from 0 on up to its first dot; from byte 8 on stand the first three bytes of the rest,
-- the dot being one of them. The dates are 1995-02-21 and the times 08:30:24 (in steps of two
-- seconds), as the code sets them.
pub record IsEntry (o : ByteOrder) (at : ℕ) (name : Bytes) (attributes first bytes : ℕ) (m : Memory)
    : Type 0 where
  pub named : Holds m at (stem name)
  pub extension : Holds m (at + 8) (take 3 (suffix name))
  pub attribute : load_le o w8 m (at + entry_offset attr) ≡ attributes
  pub high : load_le o w16 m (at + entry_offset first_cluster_high) ≡ first / 2 ^ 16
  pub low : load_le o w16 m (at + entry_offset first_cluster_low) ≡ first % 2 ^ 16
  pub sized : load_le o w32 m (at + entry_offset file_size) ≡ bytes
  pub created :
      (load_le o w16 m (at + entry_offset create_time) ≡ 8 * 2048 + 30 * 32 + 12)
      × (load_le o w16 m (at + entry_offset create_date) ≡ 15 * 512 + 2 * 32 + 21)
  pub accessed : load_le o w16 m (at + entry_offset last_access_date) ≡ 15 * 512 + 2 * 32 + 21
  pub written :
      (load_le o w16 m (at + entry_offset write_time) ≡ 8 * 2048 + 30 * 32 + 12)
      × (load_le o w16 m (at + entry_offset write_date) ≡ 15 * 512 + 2 * 32 + 21)

module _ (o : ByteOrder) (m : Memory) (at : ℕ) (name : Bytes) (attributes first bytes : ℕ)
    (h : IsName name) where
  pub put_entry-IsEntry :
      attributes < 256
      → first < 2 ^ 32
      → bytes < 2 ^ 32
      → IsEntry o at name attributes first bytes (put_entry o m at name attributes first bytes)
  unfolding put_entry entry_items lookup_num apart item_size size
  put_entry-IsEntry ha hf hb =
      let cleared = memset m at 0 32 in
      let items = entry_items name attributes first bytes in
      record {
        named =
            at_start (put_items o cleared at items) (stem name)
              (put_items-Holds o cleared at 0 (stem name) _ (ground (arith, h.stem_short)));
        extension =
            put_items-Holds_take o cleared at 8 3 (suffix name) (raw 0 (stem name)) _
              (ground (arith, length-take_le 3 (suffix name)));
        attribute = put_items-lookup_num o cleared at 11 w8 attributes items refl ∙ omega arith;
        high = put_items-lookup_num o cleared at 20 w16 (first / 2 ^ 16) items refl ∙ omega arith;
        low =
            put_items-lookup_num o cleared at 26 w16 (bit_and first 0xFFFF) items refl
            ∙ omega (arith, bit_and_low 16 first);
        sized = put_items-lookup_num o cleared at 28 w32 bytes items refl ∙ omega arith;
        created = (
          put_items-lookup_num o cleared at 14 w16 (fat32_time 8 30 25) items refl
              ∙ omega (arith, fat32_time-entry),
          put_items-lookup_num o cleared at 16 w16 (fat32_date 1995 2 21) items refl
              ∙ omega (arith, fat32_date-entry),
        );
        accessed =
            put_items-lookup_num o cleared at 18 w16 (fat32_date 1995 2 21) items refl
            ∙ omega (arith, fat32_date-entry);
        written = (
          put_items-lookup_num o cleared at 22 w16 (fat32_time 8 30 25) items refl
              ∙ omega (arith, fat32_time-entry),
          put_items-lookup_num o cleared at 24 w16 (fat32_date 1995 2 21) items refl
              ∙ omega (arith, fat32_date-entry),
        );
      }
    where
      at_start : (m : Memory) (bs : Bytes) → Holds m (at + 0) bs → Holds m at bs
      at_start m bs k = let e : at + 0 ≡ at = omega arith in rw (← e) k

-- An entry whose name begins with a byte other than 0 is in use.
pub IsEntry-used :
    (o : ByteOrder) (at : ℕ) (name : Bytes) (attributes first bytes : ℕ) (m : Memory)
    → IsName name
    → IsEntry o at name attributes first bytes m
    → m at ≢ 0
IsEntry-used o at name attributes first bytes m h e =
    let (c, rest, k, ne) = h.begins in
    let (b, _) : Holds m at (c ∷ rest) = subst (λ bs. Holds m at bs) k e.named in
    λ z. ne (sym b ∙ z)
