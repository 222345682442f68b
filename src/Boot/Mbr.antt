-- ===== src/Boot/Mbr.antt =====
-- bootloader/mbr.c: the boot sector reads the second stage and jumps to it.
use tlibc.Base.{ℕ, ◌+◌, Memory}
use tlibc.Boot.Disk.{Drive, read_disk}

-- The call of `secondary`: where it goes, what it is given, and the memory.
pub record Jump : Type 0 where
  pub entry : ℕ
  pub argument : ℕ
  pub memory : Memory

abbrev pub secondary : ℕ
secondary = 0x1200

-- `__elf_start`, up to the call.
unfoldable pub elf_start : Drive → Memory → Jump
elf_start drive m = record {
  entry = secondary;
  argument = 3 + 536;
  memory = read_disk drive m 0x1200 (3 + 528);
}
