-- ===== src/Boot/BzImage.antt =====
-- `__elf_main` of bootloader/bzimage.c: the loader of a bzImage.
pub mod Kernel
use tlibc.Base.{
  ℕ, zero, suc, ◌+◌, ◌-◌, ◌*◌, ◌/◌, ◌%◌, ◌^◌, Bool, true, false, ◌&&◌, not, List, [], ◌∷◌, ◌++◌,
  Bytes, Memory, write_all, codes, ltb, ◌==◌, if◌then◌else◌, bit_and, bit_or,
}
use tlibc.Boot.Disk.{Drive, read_disk}
use tlibc.Boot.ReadFile.{u32}
use tlibc.Boot.Header.{
  linux_sector_size, KernelHeader, setup_sects, syssize, boot_flag, header, version, type_of_loader,
  loadflags, heap_end_ptr, cmd_line_ptr, get_khdr, set_khdr,
}

abbrev linux_cmd_line : Bytes
linux_cmd_line = codes "init=/init trace_clock=local console=ttyS0 earlyprintk root=/dev/sda1 rw"

-- The start sector of the bzImage, the address of its real-mode part and that of the kernel
abbrev start_sector : ℕ
start_sector = 539

abbrev load_start : ℕ
load_start = 0x2000

abbrev kernel_start : ℕ
kernel_start = 0x100000

abbrev heap_end : ℕ
heap_end = 0x10000

abbrev code16 : Bytes
code16 =
    0x31 ∷ 0xc0 ∷ 0x05 ∷ 0x00 ∷ 0x02 ∷ 0x8e ∷ 0xd8 ∷ 0x8e ∷ 0xd0 ∷ 0x8e ∷ 0xc0 ∷ 0x8e ∷ 0xe0 ∷ 0x8e
    ∷ 0xe8 ∷ 0x31 ∷ 0xc0 ∷ 0xff ∷ 0xe0 ∷ []

-- `setup_sects`, with 0 for 4, and one more, in eight bits
setup_sectors : Memory → ℕ → ℕ
setup_sectors m khdr =
    let sects = get_khdr m khdr setup_sects in ((if sects == 0 then 4 else sects) + 1) % 2 ^ 8

-- The sectors from `sector` on, `left` of them, to `load_addr` and behind.
pub read_sectors : Drive → ℕ → ℕ → ℕ → Memory → Memory
read_sectors drive zero sector load_addr m = m
read_sectors drive (suc left) sector load_addr m =
    read_sectors drive left (u32 (sector + 1)) (load_addr + linux_sector_size)
      (read_disk drive m load_addr sector)

-- What both tests of the header ask for.
is_bz_image : Memory → Bool
is_bz_image m =
    (get_khdr m load_start boot_flag == 0xaa55) && (get_khdr m load_start header == 0x53726448)

is_supported : Memory → Bool
is_supported m =
    not (bit_and (get_khdr m load_start loadflags) 1 == 0)
    && not (ltb (get_khdr m load_start version) 0x0202)

-- The sectors behind the setup code, as many as whole ones fit the size of the image.
kernel_sectors : Memory → ℕ → ℕ
kernel_sectors m sects =
    u32 (u32 (sects * linux_sector_size) + u32 (get_khdr m load_start syssize * 16))
      / linux_sector_size
    - sects

-- The header's fields for the kernel, the command line behind the heap, and the 16-bit code.
pub prepare : Memory → Memory
prepare m =
    let m1 = set_khdr m load_start type_of_loader 0xFF in
    let m2 = set_khdr m1 load_start heap_end_ptr (heap_end - 0x200) in
    let m3 = set_khdr m2 load_start loadflags (bit_or (get_khdr m2 load_start loadflags) 0x80) in
    let m4 = write_all m3 (load_start + heap_end) (linux_cmd_line ++ 0 ∷ []) in
    let m5 = set_khdr m4 load_start cmd_line_ptr (load_start + heap_end) in
    write_all m5 (load_start + 0x8000) code16

-- `die`, or the jump to the setup code.
pub data Booted : Type 0 where
  dies : Booted
  jumps : Memory → Booted

pub elf_main : Drive → Memory → Booted
elf_main drive m =
    let m1 = read_sectors drive 2 start_sector load_start m in
    let sects = setup_sectors m1 load_start in
    let m2 =
      read_sectors drive (sects - 2) (start_sector + 2) (load_start + linux_sector_size * 2) m1 in
    let m3 = read_sectors drive (kernel_sectors m2 sects) (start_sector + sects) kernel_start m2 in
    if not (is_bz_image m1)
    then dies
    else if not (is_supported m2)
    then dies
    else jumps (prepare m3)
