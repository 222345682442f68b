-- ===== src/Gpt/Sums.antt =====
-- The checksums of the headers that `GPTGenerate` leaves.
use tlibc.Base.{
  ℕ, ◌+◌, ◌%◌, ◌^◌, ◌≤◌, ◌<◌, ◌≡◌, ◌⊎◌, inl, inr, refl, sym, ap, ◌∙◌, Memory, memset, read_out,
  read_out-cong, arith, length, memset-inside, memset-outside,
}
use native.Mathlib.Decide.{dec_lt}
use tlibc.Endian.{little, w32, size, load_le, store_le, peek}
use tlibc.Endian.Laws.{load_le-cong, load_le-store_le, peek-load_le, store_le-outside}
use tlibc.Gpt.Crc.{crc32}
use tlibc.Gpt.Alloc.{IsDisk}
use tlibc.Gpt.Headers.{
  lba1, last, far, fields, headers, fields-zero, headers-fields, header_bytes-fields,
}
use tlibc.Gpt.{GptConfig, write_sums, write_headers}

-- The checksum of the 92 bytes at `at`, computed with its own field set to 0.
abbrev pub header_sum : Memory → ℕ → ℕ
header_sum m at = crc32 (read_out (memset m (at + 16) 0 4) at 92) % 2 ^ 32

module _ (config : GptConfig) (d : IsDisk config) (guid : length config.disk_id ≡ 16)
    (start n_partition sum : ℕ) (m : Memory) where
  abbrev at1 : ℕ
  at1 = lba1 little config d guid start n_partition sum m

  abbrev at2 : ℕ
  at2 = last little config d guid start n_partition sum m

  abbrev before : Memory
  before = fields little config d guid start n_partition sum m

  abbrev after : Memory
  after = headers little config d guid start n_partition sum m

  apart_headers : at1 + 92 ≤ at2
  apart_headers = far little config d guid start n_partition sum m

  abbrev sum1 : ℕ
  sum1 = crc32 (read_out before at1 92)

  abbrev between : Memory
  between = store_le little w32 before (at1 + 16) sum1

  abbrev sum2 : ℕ
  sum2 = crc32 (read_out between at2 92)

  size_before : peek little w32 before (at1 + 12) ≡ 92
  size_before =
      peek-load_le w32 before (at1 + 12)
      ∙ header_bytes-fields little config d guid start n_partition sum m

  size_between : peek little w32 between (at1 + 12) ≡ 92
  unfolding size
  size_between =
      peek-load_le w32 between (at1 + 12)
      ∙ load_le-cong little w32 between before (at1 + 12) (at1 + 12) (
          read_out-cong between before (at1 + 12) 4
            (λ q lo hi. store_le-outside little before (at1 + 16) sum1 q (inl (omega arith))))
      ∙ header_bytes-fields little config d guid start n_partition sum m

  headers-sums : after ≡ store_le little w32 between (at2 + 16) sum2
  unfolding write_headers write_sums
  headers-sums = rw (size_before, size_between) refl

  -- A memory that agrees with `m1` on a header, apart from its checksum, and that `m1` has 0
  -- there, have the same checksum.
  sum_same :
      (m1 m2 : Memory) (at : ℕ)
      → ((q : ℕ) → at + 16 ≤ q → q < at + 20 → m1 q ≡ 0)
      → ((q : ℕ) → at ≤ q → q < at + 92 → (q < at + 16) ⊎ (at + 20 ≤ q) → m2 q ≡ m1 q)
      → header_sum m2 at ≡ crc32 (read_out m1 at 92) % 2 ^ 32
  sum_same m1 m2 at zeros same =
      ap (λ bs. crc32 bs % 2 ^ 32)
        (read_out-cong (memset m2 (at + 16) 0 4) m1 at 92 (λ q lo hi. elim (dec_lt q (at + 16)) [
          | yes p ↦ memset-outside m2 (at + 16) 0 4 q (inl p) ∙ same q lo hi (inl p)
          | no p ↦ elim (dec_lt q (at + 20)) [
            | yes r ↦
                memset-inside m2 (at + 16) 0 4 q (omega arith) (omega arith)
                ∙ sym (zeros q (omega arith) r)
            | no r ↦
                memset-outside m2 (at + 16) 0 4 q (inr (omega arith))
                ∙ same q lo hi (inr (omega arith))
          ]
        ]))

  -- On a little-endian host, both headers of `GPTGenerate` carry the checksum that a reader of the
  -- disk computes of them.
  pub headers-header_sum :
      (load_le little w32 after (at1 + 16) ≡ header_sum after at1)
      × (load_le little w32 after (at2 + 16) ≡ header_sum after at2)
  unfolding size
  headers-header_sum = (
    ap (λ mem. load_le little w32 mem (at1 + 16)) headers-sums
        ∙ load_le-cong little w32 (store_le little w32 between (at2 + 16) sum2) between (at1 + 16)
            (at1 + 16)
            (read_out-cong _ between (at1 + 16) 4 (λ q lo hi.
              store_le-outside little between (at2 + 16) sum2 q
                (inl (omega (arith, apart_headers)))))
        ∙ load_le-store_le little little w32 before (at1 + 16) sum1
        ∙ sym (sum_same before after at1 zeros same1),
    ap (λ mem. load_le little w32 mem (at2 + 16)) headers-sums
        ∙ load_le-store_le little little w32 between (at2 + 16) sum2
        ∙ sym (sum_same between after at2 zeros2 same2),
  )
    where
      zeros : (q : ℕ) → at1 + 16 ≤ q → q < at1 + 20 → before q ≡ 0
      zeros q lo hi = fields-zero little config d guid start n_partition sum m q (inl (lo, hi))

      same1 :
          (q : ℕ) → at1 ≤ q → q < at1 + 92 → (q < at1 + 16) ⊎ (at1 + 20 ≤ q) → after q ≡ before q
      same1 q lo hi h =
          headers-fields little config d guid start n_partition sum m q h
            (inl (omega (arith, apart_headers)))

      zeros2 : (q : ℕ) → at2 + 16 ≤ q → q < at2 + 20 → between q ≡ 0
      zeros2 q lo hi =
          store_le-outside little before (at1 + 16) sum1 q (inr (omega (arith, apart_headers)))
          ∙ fields-zero little config d guid start n_partition sum m q (inr (lo, hi))

      same2 :
          (q : ℕ) → at2 ≤ q → q < at2 + 92 → (q < at2 + 16) ⊎ (at2 + 20 ≤ q) → after q ≡ between q
      same2 q lo hi h =
          ap (λ (mem : Memory). mem q) headers-sums
          ∙ store_le-outside little between (at2 + 16) sum2 q (omega arith)
