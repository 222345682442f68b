-- ===== src/Gpt/Generate.antt =====
-- What `GPTGenerate` promises of its result.
use tlibc.Base.{
  ℕ, ◌+◌, ◌-◌, ◌*◌, ◌/◌, ◌∙◌, All, All-map, ◌%◌, ◌^◌, ◌≤◌, ◌<◌, ◌≡◌, ◌⊎◌, ◌↔◌, refl, ◌||◌, Memory,
  read_out, arith, length, ltb, ◌==◌, if◌then◌else◌,
}
use tlibc.Endian.{ByteOrder, little, w32, size, load_le}
use tlibc.Fields.{lookup_num}
use tlibc.Gpt.Crc.{crc32}
use tlibc.Gpt.Layout.{entry_size, get_header, first_usable_lba}
use tlibc.Gpt.Alloc.{
  IsDisk, IsPlan, allocate-IsPlan, IsDisk-room, sectors_for_array-round_up, total_volume,
  allocate-behind,
}
use tlibc.Gpt.Headers.{get_header-headers}
use tlibc.Gpt.Sums.{header_sum, headers-header_sum}
use tlibc.Gpt.{
  GptConfig, get_sector, create_protect_gpt, Allocation, allocate, write_entries, header_items,
  write_headers, refused, generated, sectors_for_array, sectors_for_fs, gpt_generate,
}

abbrev pub plan : GptConfig → Allocation
plan config = allocate config.partitions (2 + sectors_for_array config) (sectors_for_fs config)

-- The memory when the entry array is complete, and the checksum of the array.
abbrev entries_written : ByteOrder → Memory → GptConfig → Memory
entries_written o m config =
    write_entries o (sectors_for_array config * 512) (get_sector config.buf 2) (plan config).placed
      (create_protect_gpt o m config.buf config.volume)

abbrev array_sum : ByteOrder → Memory → GptConfig → ℕ
array_sum o m config = crc32 (
    read_out (entries_written o m config) (get_sector config.buf 2)
      (entry_size * length (plan config).placed))

abbrev pub disk : ByteOrder → Memory → GptConfig → Memory
disk o m config =
    write_headers o config (plan config).start (length (plan config).placed) (array_sum o m config)
      (entries_written o m config)

sectors_for_array-suc :
    (config : GptConfig)
    → 1 ≤ length config.partitions
    → length config.partitions < 2 ^ 32
    → 1 ≤ sectors_for_array config
unfolding sectors_for_array
sectors_for_array-suc config h k = omega arith

guard_iff :
    (v n arrays : ℕ) (m : Memory) (a : Allocation)
    → arrays ≡ (3 + n) / 4
    → ((if ltb v (4 + arrays) || (arrays == 0) then refused else generated m a) ≡ refused)
      ↔ ((n ≡ 0) ⊎ (512 * v < 4 * 512 + 128 * n))
guard_iff v n arrays m a e = ground arith

-- `GPTGenerate` returns 0 before it writes anything exactly when there is no partition, or the
-- disk has fewer bytes than four blocks (for the MBR, the two headers and one more) and 128 for the
-- entry of each partition asked for, of which there are less than 2 ^ 32.
pub gpt_generate-refused_iff :
    (o : ByteOrder) (m : Memory) (config : GptConfig)
    → length config.partitions < 2 ^ 32
    → (gpt_generate o m config ≡ refused) ↔ (
        (length config.partitions ≡ 0)
        ⊎ (512 * config.volume < 4 * 512 + 128 * length config.partitions))
unfolding gpt_generate
gpt_generate-refused_iff o m config few =
    guard_iff config.volume (length config.partitions) (sectors_for_array config) (disk o m config)
      (plan config) (sectors_for_array-round_up config few)

pub gpt_generate-disk :
    (o : ByteOrder) (m : Memory) (config : GptConfig)
    → IsDisk config
    → gpt_generate o m config ≡ generated (disk o m config) (plan config)
unfolding gpt_generate
gpt_generate-disk o m config d =
    ground (arith, IsDisk-room config d, sectors_for_array-suc config d.some_partition d.few)

-- On a disk with room (`IsDisk`) and a partition to make, `GPTGenerate` succeeds; the partitions it
-- places do not overlap, lie behind the two first blocks and the 128 bytes for each entry asked for,
-- and in front of the last two blocks, and are the first ones asked for, in order, up to one that is
-- larger than all that remains.
pub gpt_generate-IsPlan :
    (o : ByteOrder) (m : Memory) (config : GptConfig)
    → IsDisk config
    → (m' : Memory) × (a : Allocation) × (gpt_generate o m config ≡ generated m' a)
      × IsPlan config a
gpt_generate-IsPlan o m config d =
    (disk o m config, plan config, gpt_generate-disk o m config d, allocate-IsPlan config d)

headers_carry :
    (m : Memory) (config : GptConfig)
    → IsDisk config
    → length config.disk_id ≡ 16
    → (load_le little w32 (disk little m config) (config.buf + 512 + 16)
        ≡ header_sum (disk little m config) (config.buf + 512))
      × (load_le little w32 (disk little m config) (config.buf + (config.volume - 1) * 512 + 16)
          ≡ header_sum (disk little m config) (config.buf + (config.volume - 1) * 512))
headers_carry m config d guid =
    headers-header_sum config d guid (plan config).start (length (plan config).placed)
      (array_sum little m config) (entries_written little m config)

-- On a little-endian host, the primary header in block 1 and the backup header in the last block
-- both carry the CRC32 that a reader of the disk computes of them.
pub gpt_generate-header_sum :
    (m : Memory) (config : GptConfig)
    → IsDisk config
    → length config.disk_id ≡ 16
    → (m' : Memory) × (a : Allocation) × (gpt_generate little m config ≡ generated m' a)
      × (load_le little w32 m' (config.buf + 512 + 16) ≡ header_sum m' (config.buf + 512))
      × (load_le little w32 m' (config.buf + (config.volume - 1) * 512 + 16)
          ≡ header_sum m' (config.buf + (config.volume - 1) * 512))
gpt_generate-header_sum m config d guid = (
  disk little m config,
  plan config,
  gpt_generate-disk little m config d,
  (headers_carry m config d guid).0,
  (headers_carry m config d guid).1,
)

-- The primary header that `GPTGenerate` leaves names as its first usable block the one behind the
-- last partition placed: the first two blocks, the blocks of four entries each for the partitions
-- asked for, and the blocks of those placed. Every partition placed lies in front of it.
pub gpt_generate-first_usable :
    (o : ByteOrder) (m : Memory) (config : GptConfig)
    → IsDisk config
    → length config.disk_id ≡ 16
    → (m' : Memory) × (a : Allocation) × (gpt_generate o m config ≡ generated m' a)
      × (get_header o m' (config.buf + 512) first_usable_lba
          ≡ 2 + (3 + length config.partitions) / 4 + total_volume a.placed)
      × All
          (λ p. p.start_lba + p.volume ≤ get_header o m' (config.buf + 512) first_usable_lba)
          a.placed
unfolding size lookup_num header_items
gpt_generate-first_usable o m config d guid =
    let behind = allocate-behind config d in
    let field =
      get_header-headers o config d guid (plan config).start (length (plan config).placed)
        (array_sum o m config) (entries_written o m config) first_usable_lba (plan config).start
        (rw guid refl)
      ∙ small (plan config).start behind.2 in
    (
      disk o m config,
      plan config,
      gpt_generate-disk o m config d,
      field ∙ behind.1,
      All-map (λ p k. rw field k) (plan config).placed behind.0,
    )
  where
    small : (n : ℕ) → n < 2 ^ 64 → n % 2 ^ 64 ≡ n
    small n h = omega arith
