-- ===== src/Gpt/Layout.antt =====
-- The packed structs of gpt/gpt.c and gpt/gpt.h: offsets and widths.
use tlibc.Base.{ℕ, Bytes, Memory, ◌+◌}
use tlibc.Endian.{ByteOrder, Width, w32, w64, load_le}
use tlibc.Fields.{Item, num}

-- `GPT_SECTOR_SIZE`, `sizeof(struct GPTHeader)` and `sizeof(struct PartitionEntry)`
abbrev pub block_size : ℕ
block_size = 512

abbrev pub header_size : ℕ
header_size = 92

abbrev pub entry_size : ℕ
entry_size = 128

-- `struct GPTHeader`: its numbers.
pub data Header : Type 0 where
  revision header_bytes header_crc32 reserved this_lba alternate_lba first_usable_lba : Header
  last_usable_lba start_entry_array num_entries size_entry_array crc32_entry_array : Header

abbrev pub header_offset : Header → ℕ
header_offset revision = 8
header_offset header_bytes = 12
header_offset header_crc32 = 16
header_offset reserved = 20
header_offset this_lba = 24
header_offset alternate_lba = 32
header_offset first_usable_lba = 40
header_offset last_usable_lba = 48
header_offset start_entry_array = 72
header_offset num_entries = 80
header_offset size_entry_array = 84
header_offset crc32_entry_array = 88

abbrev pub header_width : Header → Width
header_width this_lba = w64
header_width alternate_lba = w64
header_width first_usable_lba = w64
header_width last_usable_lba = w64
header_width start_entry_array = w64
header_width f = w32

abbrev pub set_header : Header → ℕ → Item
set_header f v = num (header_offset f) (header_width f) v

abbrev pub get_header : ByteOrder → Memory → ℕ → Header → ℕ
get_header o m at f = load_le o (header_width f) m (at + header_offset f)

-- `struct PartitionConfig`. A GUID is its 16 bytes in the memory of the host; the name comes
-- without its NUL.
pub record PartitionConfig : Type 0 where
  pub part_type : Bytes
  pub part_id : Bytes
  pub name : Bytes
  pub volume : ℕ
  pub start_lba : ℕ
