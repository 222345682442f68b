-- ===== src/Gpt/Headers.antt =====
-- The headers that `GPTGenerate` leaves: their fields, and their checksums.
use tlibc.Base.{
  ℕ, ◌+◌, ◌-◌, ◌%◌, ◌^◌, ◌≤◌, ◌<◌, ◌≡◌, ◌⊎◌, inl, inr, refl, ◌∙◌, true, some, List, [], ◌∷◌, Memory,
  memset, memcpy, read_out-cong, arith, length, memset-inside, memset-outside, memcpy-inside,
  memcpy-outside,
}
use tlibc.Endian.{ByteOrder, w32, size}
use tlibc.Endian.Laws.{load_le-cong, store_le-outside}
use tlibc.Fields.{Item, put_items, lookup_num, fits_in, apart}
use tlibc.Fields.Laws.{put_items-outside, put_items-apart, put_items-lookup_num}
use tlibc.Gpt.Layout.{
  Header, revision, header_bytes, header_crc32, this_lba, alternate_lba, header_offset,
  header_width, get_header, set_header,
}
use tlibc.Gpt.Alloc.{IsDisk}
use tlibc.Gpt.{GptConfig, get_sector, header_items, write_fields, write_sums, write_headers}

header_fits : (f : Header) → header_offset f + size (header_width f) ≤ 92
unfolding size
header_fits revision = omega arith
header_fits _ = omega arith

module _ (o : ByteOrder) (config : GptConfig) (d : IsDisk config)
    (guid : length config.disk_id ≡ 16) (start n_partition sum : ℕ) (m : Memory) where
  abbrev pub lba1 : ℕ
  lba1 = get_sector config.buf 1

  abbrev pub last : ℕ
  last = get_sector config.buf (config.volume - 1)

  pub far : lba1 + 92 ≤ last
  far = omega (arith, d.room, d.some_partition)

  header_items-fits_in : fits_in 92 (header_items config start n_partition sum) ≡ true
  unfolding header_items fits_in
  header_items-fits_in = rw guid refl

  header_items-apart : apart 16 4 (header_items config start n_partition sum) ≡ true
  unfolding header_items apart
  header_items-apart = rw guid refl

  abbrev backup_items : List Item
  backup_items = set_header this_lba (config.volume - 1) ∷ set_header alternate_lba 1 ∷ []

  abbrev cleared : Memory
  cleared = memset (memset m lba1 0 92) last 0 92

  abbrev primary : Memory
  primary = put_items o cleared lba1 (header_items config start n_partition sum)

  abbrev pub fields : Memory
  fields = write_fields o config start n_partition sum m

  fields-primary : (q : ℕ) → lba1 ≤ q → q < lba1 + 92 → fields q ≡ primary q
  unfolding write_fields
  fields-primary q lo hi =
      put_items-outside o (memcpy primary last lba1 92) last 92 q backup_items
        (unfold fits_in in refl) (inl (omega (arith, far)))
      ∙ memcpy-outside primary last lba1 92 q (inl (omega (arith, far)))

  primary-zero : (q : ℕ) → lba1 + 16 ≤ q → q < lba1 + 20 → primary q ≡ 0
  primary-zero q lo hi =
      put_items-apart o cleared lba1 16 4 q (header_items config start n_partition sum)
        header_items-apart (omega arith) (omega arith)
      ∙ memset-outside (memset m lba1 0 92) last 0 92 q (inl (omega (arith, far)))
      ∙ memset-inside m lba1 0 92 q (omega arith) (omega arith)

  pub fields-zero :
      (q : ℕ)
      → ((lba1 + 16 ≤ q) × (q < lba1 + 20)) ⊎ ((last + 16 ≤ q) × (q < last + 20))
      → fields q ≡ 0
  unfolding write_fields
  fields-zero q (inl (lo, hi)) = fields-primary q (omega arith) (omega arith) ∙ primary-zero q lo hi
  fields-zero q (inr (lo, hi)) =
      put_items-apart o (memcpy primary last lba1 92) last 16 4 q backup_items
        (unfold apart in refl) (omega arith) (omega arith)
      ∙ memcpy-inside primary last lba1 92 q (omega arith) (omega arith)
      ∙ primary-zero (lba1 + (q - last)) (omega arith) (omega arith)

  abbrev pub headers : Memory
  headers = write_headers o config start n_partition sum m

  -- The bytes of the headers apart from their checksums are those of the fields.
  pub headers-fields :
      (q : ℕ)
      → (q < lba1 + 16) ⊎ (lba1 + 20 ≤ q)
      → (q < last + 16) ⊎ (last + 20 ≤ q)
      → headers q ≡ fields q
  unfolding write_headers write_sums
  headers-fields q h k =
      store_le-outside o _ (last + 16) _ q (omega arith)
      ∙ store_le-outside o fields (lba1 + 16) _ q (omega arith)

  -- Where a number stands that is not the checksum.
  sum_apart :
      (f : Header) (v : ℕ)
      → lookup_num (header_offset f) (header_width f) (header_items config start n_partition sum)
        ≡ some v
      → (header_offset f + size (header_width f) ≤ 16) ⊎ (20 ≤ header_offset f)
  unfolding size lookup_num header_items
  sum_apart header_crc32 v e = cc
  sum_apart revision v e = omega arith
  sum_apart _ v e = omega arith

  -- The size of the header, as it stands when the checksums are computed.
  pub header_bytes-fields : get_header o fields lba1 header_bytes ≡ 92
  unfolding size lookup_num header_items
  header_bytes-fields =
      load_le-cong o w32 fields primary (lba1 + 12) (lba1 + 12) (
        read_out-cong fields primary (lba1 + 12) 4
          (λ q lo hi. fields-primary q (omega arith) (omega arith)))
      ∙ put_items-lookup_num o cleared lba1 12 w32 92 (header_items config start n_partition sum)
          (rw guid refl)

  -- Each number that `GPTGenerate` stores into the primary header is read back, as far as it fits.
  pub get_header-headers :
      (f : Header) (v : ℕ)
      → lookup_num (header_offset f) (header_width f) (header_items config start n_partition sum)
        ≡ some v
      → get_header o headers lba1 f ≡ v % 256 ^ size (header_width f)
  get_header-headers f v e =
      load_le-cong o (header_width f) headers primary (lba1 + header_offset f)
        (lba1 + header_offset f)
        (read_out-cong headers primary (lba1 + header_offset f) (size (header_width f)) (λ q lo hi.
          read_same (header_offset f) (size (header_width f)) q (header_fits f) (sum_apart f v e) lo
            hi))
      ∙ put_items-lookup_num o cleared lba1 (header_offset f) (header_width f) v
          (header_items config start n_partition sum) e
    where
      read_same :
          (off n q : ℕ)
          → off + n ≤ 92
          → (off + n ≤ 16) ⊎ (20 ≤ off)
          → lba1 + off ≤ q
          → q < lba1 + off + n
          → headers q ≡ primary q
      read_same off n q fit h lo hi =
          headers-fields q (omega arith) (inl (omega (arith, far)))
          ∙ fields-primary q (omega arith) (omega arith)
