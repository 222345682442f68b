-- ===== src/Boot/Header.antt =====
-- `struct KernelHeader` of bootloader/bz_image.h: the first two sectors of a bzImage.
use tlibc.Base.{ℕ, ◌+◌, Memory}
use tlibc.Endian.{little, Width, w8, w16, w32, w64, load_le, store_le}

abbrev pub linux_sector_size : ℕ
linux_sector_size = 512

pub data KernelHeader : Type 0 where
  setup_sects root_flags syssize ram_size vid_mode root_dev boot_flag jump : KernelHeader
  header version realmode_swtch start_sys_seg kernel_version type_of_loader : KernelHeader
  loadflags setup_move_size code32_start ramdisk_image ramdisk_size : KernelHeader
  bootsect_kludge heap_end_ptr ext_loader_ver ext_loader_type cmd_line_ptr : KernelHeader
  initrd_addr_max kernel_alignment relocatable_kernel min_alignment xloadflags : KernelHeader
  cmdline_size hardware_subarch hardware_subarch_data payload_offset : KernelHeader
  payload_length setup_data pref_address init_size handover_offset : KernelHeader
  kernel_info_offset : KernelHeader

abbrev khdr_offset : KernelHeader → ℕ
khdr_offset setup_sects = 0x1f1
khdr_offset root_flags = 0x1f2
khdr_offset syssize = 0x1f4
khdr_offset ram_size = 0x1f8
khdr_offset vid_mode = 0x1fa
khdr_offset root_dev = 0x1fc
khdr_offset boot_flag = 0x1fe
khdr_offset jump = 0x200
khdr_offset header = 0x202
khdr_offset version = 0x206
khdr_offset realmode_swtch = 0x208
khdr_offset start_sys_seg = 0x20c
khdr_offset kernel_version = 0x20e
khdr_offset type_of_loader = 0x210
khdr_offset loadflags = 0x211
khdr_offset setup_move_size = 0x212
khdr_offset code32_start = 0x214
khdr_offset ramdisk_image = 0x218
khdr_offset ramdisk_size = 0x21c
khdr_offset bootsect_kludge = 0x220
khdr_offset heap_end_ptr = 0x224
khdr_offset ext_loader_ver = 0x226
khdr_offset ext_loader_type = 0x227
khdr_offset cmd_line_ptr = 0x228
khdr_offset initrd_addr_max = 0x22c
khdr_offset kernel_alignment = 0x230
khdr_offset relocatable_kernel = 0x234
khdr_offset min_alignment = 0x235
khdr_offset xloadflags = 0x236
khdr_offset cmdline_size = 0x238
khdr_offset hardware_subarch = 0x23c
khdr_offset hardware_subarch_data = 0x240
khdr_offset payload_offset = 0x248
khdr_offset payload_length = 0x24c
khdr_offset setup_data = 0x250
khdr_offset pref_address = 0x258
khdr_offset init_size = 0x260
khdr_offset handover_offset = 0x264
khdr_offset kernel_info_offset = 0x268

abbrev khdr_width : KernelHeader → Width
khdr_width setup_sects = w8
khdr_width root_flags = w16
khdr_width ram_size = w16
khdr_width vid_mode = w16
khdr_width root_dev = w16
khdr_width boot_flag = w16
khdr_width jump = w16
khdr_width version = w16
khdr_width start_sys_seg = w16
khdr_width kernel_version = w16
khdr_width type_of_loader = w8
khdr_width loadflags = w8
khdr_width setup_move_size = w16
khdr_width heap_end_ptr = w16
khdr_width ext_loader_ver = w8
khdr_width ext_loader_type = w8
khdr_width relocatable_kernel = w8
khdr_width min_alignment = w8
khdr_width xloadflags = w16
khdr_width hardware_subarch_data = w64
khdr_width setup_data = w64
khdr_width pref_address = w64
khdr_width f = w32

abbrev pub get_khdr : Memory → ℕ → KernelHeader → ℕ
get_khdr m khdr f = load_le little (khdr_width f) m (khdr + khdr_offset f)

abbrev pub set_khdr : Memory → ℕ → KernelHeader → ℕ → Memory
set_khdr m khdr f v = store_le little (khdr_width f) m (khdr + khdr_offset f) v
