-- ===== src/Tests/Disk.antt =====
-- gpt/gpt.c at concrete inputs.
use tlibc.Base.{
  ◌+◌, ◌*◌, ◌/◌, All, ◌≤◌, ◌≡◌, ◌<◌, ◌⊎◌, ◌↔◌, refl, [], ◌∷◌, Bytes, Memory, arith, codes, length,
}
use tlibc.Endian.{little, big, w32, load_le}
use tlibc.Gpt.Layout.{get_header, first_usable_lba}
use tlibc.Gpt.Crc.{crc32}
use tlibc.Gpt.Crc.Reference.{reference_crc32, crc32-reference_crc32}
use tlibc.Gpt.Alloc.{IsDisk, IsPlan, total_volume}
use tlibc.Gpt.Sums.{header_sum}
use tlibc.Gpt.{GptConfig, Allocation, sectors_for_array, refused, generated, gpt_generate}
use tlibc.Gpt.Generate.{
  gpt_generate-IsPlan, gpt_generate-header_sum, gpt_generate-refused_iff, gpt_generate-first_usable,
}

abbrev empty : Memory
empty q = 0

abbrev guid : Bytes
guid = codes "0123456789abcdef"

-- A disk of 100 blocks for two partitions
abbrev two_partitions : GptConfig
two_partitions = record {
  buf = 8192;
  volume = 100;
  partitions =
      record { part_type = guid; part_id = guid; name = codes "EFI"; volume = 40; start_lba = 0 }
      ∷ record { part_type = guid; part_id = guid; name = codes "home"; volume = 50; start_lba = 0 }
      ∷ [];
  disk_id = guid;
}

two_partitions-IsDisk : IsDisk two_partitions
unfolding sectors_for_array
two_partitions-IsDisk = record {
  some_partition = omega arith;
  few = omega arith;
  room = omega arith;
  small = omega arith;
}

gpt_generate-IsPlan_example :
    (m' : Memory) × (a : Allocation) × (gpt_generate big empty two_partitions ≡ generated m' a)
    × IsPlan two_partitions a
gpt_generate-IsPlan_example = gpt_generate-IsPlan big empty two_partitions two_partitions-IsDisk

gpt_generate-header_sum_example :
    (m' : Memory) × (a : Allocation) × (gpt_generate little empty two_partitions ≡ generated m' a)
    × (load_le little w32 m' (8192 + 512 + 16) ≡ header_sum m' (8192 + 512))
    × (load_le little w32 m' (8192 + 99 * 512 + 16) ≡ header_sum m' (8192 + 99 * 512))
gpt_generate-header_sum_example =
    gpt_generate-header_sum empty two_partitions two_partitions-IsDisk refl

gpt_generate-refused_iff_example : (gpt_generate little empty two_partitions ≡ refused) ↔ (
    (length two_partitions.partitions ≡ 0)
    ⊎ (512 * 100 < 4 * 512 + 128 * length two_partitions.partitions))
gpt_generate-refused_iff_example =
    gpt_generate-refused_iff little empty two_partitions (omega arith)

gpt_generate-first_usable_example :
    (m' : Memory) × (a : Allocation) × (gpt_generate little empty two_partitions ≡ generated m' a)
    × (get_header little m' (8192 + 512) first_usable_lba ≡ 2 + (3 + 2) / 4 + total_volume a.placed)
    × All
        (λ p. p.start_lba + p.volume ≤ get_header little m' (8192 + 512) first_usable_lba)
        a.placed
gpt_generate-first_usable_example =
    gpt_generate-first_usable little empty two_partitions two_partitions-IsDisk refl

crc32-reference_crc32_example : crc32 (codes "EFI PART") ≡ reference_crc32 (codes "EFI PART")
crc32-reference_crc32_example = crc32-reference_crc32 (codes "EFI PART") (ground arith)
