-- ===== src/Fat/Layout.antt =====
-- The packed structs of gpt/fat.c: the offsets and widths of their numbers.
use tlibc.Base.{ℕ, ◌+◌, Memory}
use tlibc.Endian.{ByteOrder, Width, w8, w16, w32, load_le}
use tlibc.Fields.{Item, num}

-- `struct BPB`, 512 bytes
pub data Bpb : Type 0 where
  jmp_boot_0 jmp_boot_1 jmp_boot_2 bytes_per_sector num_sector_per_cluster : Bpb
  num_reserved_sectors num_alloc_table root_entry_count num_sectors_16 media fat_size_16 : Bpb
  sectors_per_track num_heads hidden_sec num_sectors_32 fat_size_32 ext_flags revision : Bpb
  root_cluster fs_info boot_record_sector driver_num boot_signature vol_serial_number : Bpb
  signature_byte_1 signature_byte_2 : Bpb

abbrev pub bpb_offset : Bpb → ℕ
bpb_offset jmp_boot_0 = 0
bpb_offset jmp_boot_1 = 1
bpb_offset jmp_boot_2 = 2
bpb_offset bytes_per_sector = 11
bpb_offset num_sector_per_cluster = 13
bpb_offset num_reserved_sectors = 14
bpb_offset num_alloc_table = 16
bpb_offset root_entry_count = 17
bpb_offset num_sectors_16 = 19
bpb_offset media = 21
bpb_offset fat_size_16 = 22
bpb_offset sectors_per_track = 24
bpb_offset num_heads = 26
bpb_offset hidden_sec = 28
bpb_offset num_sectors_32 = 32
bpb_offset fat_size_32 = 36
bpb_offset ext_flags = 40
bpb_offset revision = 42
bpb_offset root_cluster = 44
bpb_offset fs_info = 48
bpb_offset boot_record_sector = 50
bpb_offset driver_num = 64
bpb_offset boot_signature = 66
bpb_offset vol_serial_number = 67
bpb_offset signature_byte_1 = 510
bpb_offset signature_byte_2 = 511

abbrev pub bpb_width : Bpb → Width
bpb_width bytes_per_sector = w16
bpb_width num_reserved_sectors = w16
bpb_width root_entry_count = w16
bpb_width num_sectors_16 = w16
bpb_width fat_size_16 = w16
bpb_width sectors_per_track = w16
bpb_width num_heads = w16
bpb_width hidden_sec = w32
bpb_width num_sectors_32 = w32
bpb_width fat_size_32 = w32
bpb_width ext_flags = w16
bpb_width revision = w16
bpb_width root_cluster = w32
bpb_width fs_info = w16
bpb_width boot_record_sector = w16
bpb_width vol_serial_number = w32
bpb_width f = w8

-- `uint8_t OEFName[8]`, `uint8_t volLabel[11]` and `uint8_t fileSysType[8]`
abbrev pub oef_name_offset : ℕ
oef_name_offset = 3

abbrev pub vol_label_offset : ℕ
vol_label_offset = 71

abbrev pub file_sys_type_offset : ℕ
file_sys_type_offset = 82

abbrev pub bpb_size : ℕ
bpb_size = 512

abbrev pub set_bpb : Bpb → ℕ → Item
set_bpb f v = num (bpb_offset f) (bpb_width f) v

abbrev pub get_bpb : ByteOrder → Memory → ℕ → Bpb → ℕ
get_bpb o m bpb f = load_le o (bpb_width f) m (bpb + bpb_offset f)

-- `struct FSInfo`, 512 bytes of 32-bit numbers and reserved space
pub data FsInfo : Type 0 where
  lead_signature struct_signature free_count next_free trail_signature : FsInfo

abbrev pub fsi_offset : FsInfo → ℕ
fsi_offset lead_signature = 0
fsi_offset struct_signature = 484
fsi_offset free_count = 488
fsi_offset next_free = 492
fsi_offset trail_signature = 508

abbrev pub fsi_size : ℕ
fsi_size = 512

abbrev pub set_fsi : FsInfo → ℕ → Item
set_fsi f v = num (fsi_offset f) w32 v

abbrev pub get_fsi : ByteOrder → Memory → ℕ → FsInfo → ℕ
get_fsi o m fsi f = load_le o w32 m (fsi + fsi_offset f)

-- `struct FATDirEntry`, 32 bytes; the name is its first 11.
pub data DirEntry : Type 0 where
  attr ntres create_time_tenth create_time create_date last_access_date first_cluster_high :
      DirEntry
  write_time write_date first_cluster_low file_size : DirEntry

abbrev pub entry_offset : DirEntry → ℕ
entry_offset attr = 11
entry_offset ntres = 12
entry_offset create_time_tenth = 13
entry_offset create_time = 14
entry_offset create_date = 16
entry_offset last_access_date = 18
entry_offset first_cluster_high = 20
entry_offset write_time = 22
entry_offset write_date = 24
entry_offset first_cluster_low = 26
entry_offset file_size = 28

abbrev entry_width : DirEntry → Width
entry_width attr = w8
entry_width ntres = w8
entry_width create_time_tenth = w8
entry_width file_size = w32
entry_width f = w16

abbrev pub entry_size : ℕ
entry_size = 32

abbrev pub set_entry : DirEntry → ℕ → Item
set_entry f v = num (entry_offset f) (entry_width f) v
