-- ===== src/Boot/BzImage/Kernel.antt =====
-- bootloader/bzimage.c: what its reads of consecutive sectors leave in memory.
use native.Mathlib.Decide.{dec_lt}
use tlibc.Base.{
  ℕ, zero, suc, ◌+◌, ◌-◌, ◌*◌, ◌^◌, ◌≤◌, ◌<◌, ◌≡◌, ◌⊎◌, refl, ap, ap₂, ◌∙◌, Memory, arith,
}
use tlibc.Boot.Disk.{Drive, Disk, IsLba28, read_disk, read_disk-inside, read_disk-outside}
use tlibc.Boot.ReadFile.{u32, file_byte}
use tlibc.Boot.BzImage.{read_sectors}

module _ (drive : Drive) (disk : Disk) (ata : IsLba28 drive disk) where
  read_sectors-outside :
      (left sector addr : ℕ) (m : Memory) (q : ℕ)
      → sector + left ≤ 2 ^ 28
      → (q < addr) ⊎ (addr + left * 512 ≤ q)
      → read_sectors drive left sector addr m q ≡ m q
  unfolding read_sectors
  read_sectors-outside zero sector addr m q low h = refl
  read_sectors-outside (suc left) sector addr m q low h =
      let s : u32 (sector + 1) ≡ sector + 1 = omega arith in
      rw s (
        read_sectors-outside left (sector + 1) (addr + 512) (read_disk drive m addr sector) q
          (omega arith) (omega arith)
        ∙ read_disk-outside drive disk ata sector (omega arith) addr m q (omega arith))

  read_sectors-inside :
      (left sector addr : ℕ) (m : Memory) (i : ℕ)
      → sector + left ≤ 2 ^ 28
      → i < left * 512
      → read_sectors drive left sector addr m (addr + i) ≡ file_byte disk sector i
  unfolding read_sectors
  read_sectors-inside zero sector addr m i low h = absurd (omega arith)
  read_sectors-inside (suc left) sector addr m i low h =
      let s : u32 (sector + 1) ≡ sector + 1 = omega arith in
      let m1 = read_disk drive m addr sector in
      rw s (elim (dec_lt i 512) [
        | yes p ↦
            read_sectors-outside left (sector + 1) (addr + 512) m1 (addr + i) (omega arith)
              (omega arith)
            ∙ read_disk-inside drive disk ata sector (omega arith) addr m i p
            ∙ ap₂ disk (omega arith) (omega arith)
        | no p ↦
            ap (read_sectors drive left (sector + 1) (addr + 512) m1) (omega arith)
            ∙ read_sectors-inside left (sector + 1) (addr + 512) m1 (i - 512) (omega arith)
                (omega arith)
            ∙ ap₂ disk (omega arith) (omega arith)
      ])

-- On a drive in 28-bit LBA mode, the loops of the loader put so many sectors one behind the other
-- at the address, and change nothing else, if their numbers lie below the 28 bits of an address.
pub read_sectors-file :
    (drive : Drive) (disk : Disk) (left sector addr : ℕ) (m : Memory)
    → IsLba28 drive disk
    → sector + left ≤ 2 ^ 28
    → ((i : ℕ)
        → i < left * 512
        → read_sectors drive left sector addr m (addr + i) ≡ file_byte disk sector i)
      × ((q : ℕ)
          → (q < addr) ⊎ (addr + left * 512 ≤ q)
          → read_sectors drive left sector addr m q ≡ m q)
read_sectors-file drive disk left sector addr m ata low = (
  λ i h. read_sectors-inside drive disk ata left sector addr m i low h,
  λ q h. read_sectors-outside drive disk ata left sector addr m q low h,
)
