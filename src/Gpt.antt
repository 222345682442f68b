-- ===== src/Gpt.antt =====
-- gpt/gpt.c: the protective MBR, the partition entries and the two headers of a GPT disk image. A
-- `size_t` is computed modulo 2 ^ 64.
pub mod Crc
pub mod Layout
pub mod Alloc
pub mod Headers
pub mod Sums
pub mod Generate
use tlibc.Base.{
  ℕ, zero, suc, ◌+◌, ◌-◌, ◌*◌, ◌/◌, ◌%◌, ◌^◌, Bool, true, false, ◌||◌, List, [], ◌∷◌, ◌++◌, Bytes,
  Memory, memset, memcpy, write_all, read_out, length, codes, ltb, leb, ◌==◌, if◌then◌else◌,
}
use tlibc.Endian.{ByteOrder, w8, w16, w32, w64, size, represent, poke, peek, store_le}
use tlibc.Fields.{Item, num, raw, put_items}
use tlibc.Gpt.Crc.{crc32}
use tlibc.Gpt.Layout.{
  block_size, header_size, entry_size, Header, revision, header_bytes, header_crc32, reserved,
  this_lba, alternate_lba, first_usable_lba, last_usable_lba, start_entry_array, num_entries,
  size_entry_array, crc32_entry_array, header_offset, set_header, PartitionConfig,
}

-- `struct GPTConfig`
pub record GptConfig : Type 0 where
  pub buf : ℕ
  pub volume : ℕ
  pub partitions : List PartitionConfig
  pub disk_id : Bytes

abbrev pub u64 : ℕ → ℕ
u64 x = x % 2 ^ 64

abbrev pub get_sector : ℕ → ℕ → ℕ
get_sector buf sector = buf + sector * block_size

first_3 : Bytes → Bytes
first_3 (a ∷ b ∷ c ∷ _) = a ∷ b ∷ c ∷ []
first_3 bs = bs

-- `createProtectGPT`. Its numbers are stored in the byte order of the host.
pub create_protect_gpt : ByteOrder → Memory → ℕ → ℕ → Memory
create_protect_gpt o m mbr n_block =
    let size_in_lba =
      if leb 0xFFFFFFFF n_block then 0xFFFFFFFF else u64 (n_block + 2 ^ 64 - 1) % 2 ^ 32 in
    let bytes = u64 (block_size * n_block) % 2 ^ 32 in
    let end = if ltb 0xFFFFFF bytes then 0xFFFFFF else bytes in
    let m1 = poke o w16 (memset m mbr 0 512) (mbr + 510) 0xAA55 in
    let m2 = poke o w16 (poke o w32 m1 (mbr + 440) 0) (mbr + 444) 0 in
    let record_at = mbr + 446 in
    let m3 = poke o w8 m2 record_at 0x80 in
    let m4 = write_all m3 (record_at + 1) (first_3 (represent o 4 0x200)) in
    let m5 = poke o w8 m4 (record_at + 4) 0xEE in
    let m6 = write_all m5 (record_at + 5) (first_3 (represent o 4 end)) in
    poke o w32 (poke o w32 m6 (record_at + 8) 1) (record_at + 12) size_in_lba

-- The state of the allocation loop: the partitions that got a start, those from the break on, the next free
-- sector, and how many remain.
pub record Allocation : Type 0 where
  pub placed : List PartitionConfig
  pub left : List PartitionConfig
  pub start : ℕ
  pub remains : ℕ

pub allocate : List PartitionConfig → ℕ → ℕ → Allocation
allocate [] start remains = record { placed = []; left = []; start = start; remains = remains }
allocate (cp ∷ cps) start remains =
    let rest = allocate cps (u64 (start + cp.volume)) (remains - cp.volume) in
    if ltb remains cp.volume
    then record { placed = []; left = cp ∷ cps; start = start; remains = remains }
    else record rest { placed = record cp { start_lba = start } ∷ rest.placed }

-- `writePartitionName`: each byte of the name, followed by 0.
wide : Bytes → Bytes
wide [] = []
wide (c ∷ name) = c ∷ 0 ∷ wide name

entry_items : PartitionConfig → List Item
entry_items cp =
    num 32 w64 cp.start_lba
    ∷ num 40 w64 (u64 (cp.start_lba + cp.volume + 2 ^ 64 - 1))
    ∷ num 48 w64 5
    ∷ raw 16 cp.part_id
    ∷ raw 0 cp.part_type
    ∷ raw 56 (wide cp.name)
    ∷ []

-- The loop over the entries. Each round clears the bytes of a whole array from its entry on.
pub write_entries : ByteOrder → ℕ → ℕ → List PartitionConfig → Memory → Memory
write_entries o array_bytes at [] m = m
write_entries o array_bytes at (cp ∷ cps) m =
    write_entries o array_bytes (at + entry_size) cps
      (put_items o (memset m at 0 array_bytes) at (entry_items cp))

unfoldable pub header_items : GptConfig → ℕ → ℕ → ℕ → List Item
header_items config start n_partition entry_array_crc =
    raw 0 (codes "EFI PART")
    ∷ set_header revision 0x00010000
    ∷ set_header header_bytes header_size
    ∷ set_header reserved 0
    ∷ set_header this_lba 1
    ∷ set_header alternate_lba (config.volume - 1)
    ∷ set_header first_usable_lba start
    ∷ set_header last_usable_lba (config.volume - 2)
    ∷ raw 56 config.disk_id
    ∷ set_header start_entry_array 2
    ∷ set_header num_entries n_partition
    ∷ set_header size_entry_array entry_size
    ∷ set_header crc32_entry_array entry_array_crc
    ∷ []

-- From `memset(lba1, ...)` on, up to the checksums of the headers.
pub write_fields : ByteOrder → GptConfig → ℕ → ℕ → ℕ → Memory → Memory
write_fields o config start n_partition entry_array_crc m =
    let lba1 = get_sector config.buf 1 in
    let last = get_sector config.buf (config.volume - 1) in
    let m1 = memset (memset m lba1 0 header_size) last 0 header_size in
    let m2 = put_items o m1 lba1 (header_items config start n_partition entry_array_crc) in
    put_items o (memcpy m2 last lba1 header_size) last
      (set_header this_lba (config.volume - 1) ∷ set_header alternate_lba 1 ∷ [])

-- The checksums. The size is read as the host reads its own numbers.
pub write_sums : ByteOrder → GptConfig → Memory → Memory
write_sums o config m =
    let lba1 = get_sector config.buf 1 in
    let last = get_sector config.buf (config.volume - 1) in
    let sum1 = crc32 (read_out m lba1 (peek o w32 m (lba1 + header_offset header_bytes))) in
    let m1 = store_le o w32 m (lba1 + header_offset header_crc32) sum1 in
    let sum2 = crc32 (read_out m1 last (peek o w32 m1 (lba1 + header_offset header_bytes))) in
    store_le o w32 m1 (last + header_offset header_crc32) sum2

pub write_headers : ByteOrder → GptConfig → ℕ → ℕ → ℕ → Memory → Memory
write_headers o config start n_partition entry_array_crc m =
    write_sums o config (write_fields o config start n_partition entry_array_crc m)

-- `refused` is the return of 0 before anything is written. `generated`: the memory, and the
-- partitions, with their starts, of which the first are created.
pub data Generated : Type 0 where
  refused : Generated
  generated : Memory → Allocation → Generated

-- `nSectorForArray` and `nSectorsForFS`
unfoldable pub sectors_for_array : GptConfig → ℕ
sectors_for_array config = u64 (3 + length config.partitions) / 4

pub sectors_for_fs : GptConfig → ℕ
sectors_for_fs config = u64 (u64 (config.volume + 2 ^ 64 - 4) + 2 ^ 64 - sectors_for_array config)

-- `GPTGenerate` returns the number of the partitions placed.
pub gpt_generate : ByteOrder → Memory → GptConfig → Generated
gpt_generate o m config =
    let arrays = sectors_for_array config in
    let m1 = create_protect_gpt o m config.buf config.volume in
    let plan = allocate config.partitions (2 + arrays) (sectors_for_fs config) in
    let made = length plan.placed in
    let m2 = write_entries o (arrays * block_size) (get_sector config.buf 2) plan.placed m1 in
    let sum = crc32 (read_out m2 (get_sector config.buf 2) (entry_size * made)) in
    if ltb config.volume (4 + arrays) || (arrays == 0)
    then refused
    else generated (write_headers o config plan.start made sum m2) plan
