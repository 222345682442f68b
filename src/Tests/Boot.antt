-- ===== src/Tests/Boot.antt =====
-- The boot loader at concrete inputs.
use tlibc.Base.{
  ℕ, ◌+◌, ◌-◌, ◌*◌, ◌/◌, ◌%◌, ◌^◌, ◌≤◌, ◌<◌, ◌≡◌, ◌⊎◌, inl, inr, refl, true, some, none, List, [],
  ◌∷◌, ◌++◌, Bytes, Memory, write_all, length, arith, ◌==◌, if◌then◌else◌,
}
use tlibc.Endian.{of_le_bytes}
use tlibc.Boot.Disk.{Drive, Registers, Disk, IsLba28}
use tlibc.Boot.ReadFile.{file_byte}
use tlibc.Boot.BzImage.{read_sectors}
use tlibc.Boot.BzImage.Kernel.{read_sectors-file}
use tlibc.Boot.Vmlinux.{load_segment}
use tlibc.Boot.Vmlinux.Segment.{IsSegment, IsImage, load_segment-IsImage}
use tlibc.Boot.GetText.{HostFiles, slice, xfcopy, xfcopy-slice}

-- A disk whose sectors differ, and a drive with it.
abbrev disk : Disk
disk s i = (s + i) % 256

abbrev lba : Registers → ℕ
lba r = r.lba_low + r.lba_mid * 2 ^ 8 + r.lba_high * 2 ^ 16 + (r.drive_select - 0xE0) * 2 ^ 24

abbrev drive : Drive
drive r i = of_le_bytes (
    disk (lba r) (i * 4)
    ∷ disk (lba r) (i * 4 + 1)
    ∷ disk (lba r) (i * 4 + 2)
    ∷ disk (lba r) (i * 4 + 3)
    ∷ [])

drive-IsLba28 : IsLba28 drive disk
drive-IsLba28 = record {
  is_byte = λ s i. omega arith;
  words = λ low mid high top i ht hi. let e : 0xE0 + top - 0xE0 ≡ top = omega arith in rw e refl;
}

read_sectors-file_example :
    ((i : ℕ)
      → i < 3 * 512
      → read_sectors drive 3 539 0x2000 (λ q. 7) (0x2000 + i) ≡ file_byte disk 539 i)
    × ((q : ℕ)
        → (q < 0x2000) ⊎ (0x2000 + 3 * 512 ≤ q)
        → read_sectors drive 3 539 0x2000 (λ q. 7) q ≡ 7)
read_sectors-file_example =
    read_sectors-file drive disk 3 539 0x2000 (λ q. 7) drive-IsLba28 (omega arith)

-- A header at 0x8000: 700 bytes of the file from 100 on, to 0x10000, and 1000 bytes in memory.
abbrev with_header : Memory
with_header q =
    if q == 0x8008
    then 100
    else if q == 0x801A
    then 1
    else if q == 0x8020
    then 0xBC
    else if q == 0x8021
    then 2
    else if q == 0x8028
    then 0xE8
    else if q == 0x8029
    then 3
    else 0

with_header-IsSegment : IsSegment with_header 0x8000 100 0x10000 700 1000
unfolding tlibc.Endian.load_le tlibc.Endian.peek tlibc.Endian.value_of tlibc.Endian.of_le_bytes
    tlibc.Endian.little_endian tlibc.Endian.represent tlibc.Endian.le_bytes tlibc.Endian.size
    tlibc.Base.Mem.read_out
with_header-IsSegment = record {
  offset_is = refl;
  paddr_is = refl;
  filesz_is = refl;
  memsz_is = refl;
  fits = omega arith;
  file_small = omega arith;
  small = omega arith;
}

load_segment-IsImage_example :
    (m' : Memory) × (load_segment drive 2048 0x8000 with_header ≡ some m')
    × IsImage disk 2048 100 0x10000 700 1000 m'
load_segment-IsImage_example =
    load_segment-IsImage drive disk 2048 0x8000 100 0x10000 700 1000 with_header drive-IsLba28
      with_header-IsSegment (omega arith)
      (record { segment = inl (omega arith); sector = inr (omega arith) }) (inr (omega arith))

abbrev file : Bytes
file = 10 ∷ 20 ∷ 30 ∷ 40 ∷ 50 ∷ []

abbrev files : HostFiles
files = record { read_at = λ off n. some (slice file off n); takes = λ len n. true }

xfcopy-slice_example : xfcopy 3 files 3 1 (9 ∷ []) ≡ some ((9 ∷ []) ++ slice file 1 3)
xfcopy-slice_example =
    xfcopy-slice 3 files file 3 1 (9 ∷ [])
      (record { reads = λ off n h. refl; writes = λ len n. refl }) (omega arith) (omega arith)
