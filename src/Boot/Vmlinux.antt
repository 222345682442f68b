-- ===== src/Boot/Vmlinux.antt =====
-- `__elf_main` of bootloader/vmlinux.c: the loader of an ELF kernel. Its types are those of a
-- 32-bit program, so the 64-bit numbers of the headers are cut to 32 bits where they become
-- addresses and sizes.
pub mod Segment
use tlibc.Base.{
  ℕ, zero, suc, ◌+◌, ◌-◌, ◌*◌, ◌/◌, ◌%◌, ◌^◌, Option, none, some, Memory, bit_and, ◌==◌,
  if◌then◌else◌, ◌>>=◌,
}
use tlibc.Endian.{little, w16, w32, w64, load_le}
use tlibc.Boot.Disk.{Drive, sect_size, read_disk, memzero}
use tlibc.Boot.ReadFile.{u32, read_file}

-- The numbers of `Elf64_Ehdr` and `Elf64_Phdr` that are read, at their offsets.
abbrev pub entry_offset : ℕ
entry_offset = 24

abbrev phoff_offset : ℕ
phoff_offset = 32

abbrev phnum_offset : ℕ
phnum_offset = 56

abbrev pub phdr_size : ℕ
phdr_size = 56

pub data Phdr : Type 0 where
  p_offset p_paddr p_filesz p_memsz : Phdr

abbrev pub phdr_offset : Phdr → ℕ
phdr_offset p_offset = 8
phdr_offset p_paddr = 24
phdr_offset p_filesz = 32
phdr_offset p_memsz = 40

abbrev pub get_phdr : Memory → ℕ → Phdr → ℕ
get_phdr m phdr f = load_le little w64 m (phdr + phdr_offset f)

-- `__k_memzero` on what stands in memory once the bytes of the file are loaded.
zero_rest : ℕ → Memory → Memory
zero_rest phdr m =
    memzero (u32 (get_phdr m phdr p_memsz + 2 ^ 64 - get_phdr m phdr p_filesz)) m
      (u32 (u32 (get_phdr m phdr p_paddr) + u32 (get_phdr m phdr p_filesz)))

-- A header of the kind `PT_LOAD`. `none`: the fuel of the read ran out, which it does not.
pub load_segment : Drive → ℕ → ℕ → Memory → Option Memory
load_segment drive sector phdr m =
    let size = u32 (get_phdr m phdr p_filesz) in
    read_file size drive m (u32 (get_phdr m phdr p_paddr)) sector (u32 (get_phdr m phdr p_offset))
      size
    >>= λ m'. some (zero_rest phdr m')

-- The loop over the program headers, from the `i`-th on; `stack` is the address of the array
-- that takes the sector with the header. The kind is tested by its lowest bit.
load_segments : Drive → ℕ → ℕ → ℕ → ℕ → ℕ → Memory → Option Memory
load_segments drive sector phoff stack zero i m = some m
load_segments drive sector phoff stack (suc left) i m =
    let off = u32 (phoff + i * phdr_size) in
    let phdr = stack + off % sect_size in
    let m1 = read_disk drive m stack (u32 (sector + off / sect_size)) in
    let loaded =
      if bit_and (load_le little w32 m1 phdr) 1 == 0
      then some m1
      else load_segment drive sector phdr m1 in
    loaded >>= load_segments drive sector phoff stack left (i + 1)

-- The address that is jumped to, and memory then.
pub record Started : Type 0 where
  pub entry : ℕ
  pub memory : Memory

pub elf_main : Drive → ℕ → ℕ → Memory → Option Started
elf_main drive stack sector m =
    let m1 = read_disk drive m stack sector in
    let entry = u32 (load_le little w64 m1 (stack + entry_offset)) in
    let phnum = load_le little w16 m1 (stack + phnum_offset) in
    let phoff = u32 (load_le little w64 m1 (stack + phoff_offset)) in
    load_segments drive sector phoff stack phnum 0 m1 >>= λ m'.
    some (record { entry = entry; memory = m' })
