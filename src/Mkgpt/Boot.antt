-- ===== src/Mkgpt/Boot.antt =====
-- bootloader/mbr.c on the disk of gpt/mkgpt.c: the numbers of blocks in the boot sector are right.
use tlibc.Base.{
  ℕ, zero, suc, ◌+◌, ◌*◌, ◌%◌, ◌≤◌, ◌<◌, ◌≡◌, sym, ap, ◌∙◌, List, [], ◌∷◌, Bytes, Memory, Holds,
  get_or, length, map, All, arith,
}
use mathlib.Core.Path.{subst}
use tlibc.Endian.{ByteOrder}
use tlibc.Boot.Disk.{Drive, Disk, IsLba28, read_disk-inside}
use tlibc.Boot.Mbr.{elf_start}
use tlibc.Fat.Copyin.Stages.{ceil_div}
use tlibc.Fat.Copyin.Several.{IsCopyable, HasSpace}
use tlibc.Fat.Copyin.Represented.{fresh_volume}
use tlibc.Install.Files.{boot_config}
use tlibc.Mkgpt.{boot_volume, Ended, exited, crashed, finished, Define, Calls, main}
use tlibc.Mkgpt.Offsets.{AllWell, jobs_of, request, sector_of, main-Located}

-- The bytes of the disk image, in sectors.
abbrev pub sectors : Memory → ℕ → Disk
sectors m buf s i = m (buf + 512 * s + i) % 256

Holds-get_or :
    (m : Memory) (a : ℕ) (bs : Bytes) (j : ℕ)
    → Holds m a bs
    → j < length bs
    → m (a + j) ≡ get_or bs j 0
Holds-get_or m a [] j h lt = absurd (omega arith)
Holds-get_or m a (b ∷ bs) zero (e, h) lt = let z : a + 0 ≡ a = omega arith in rw z e
Holds-get_or m a (b ∷ bs) (suc j) (e, h) lt =
    let z : a + suc j ≡ a + 1 + j = omega arith in
    rw z (Holds-get_or m (a + 1) bs j h (omega arith))

abbrev disk_of : Ended → Memory
disk_of (exited ls) = λ q. 0
disk_of crashed = λ q. 0
disk_of (finished ls m) = m

-- The first sector of the second stage, as the boot sector loads it.
loaded :
    (m' m0 : Memory) (buf : ℕ) (drive : Drive) (l : Bytes) (j : ℕ)
    → IsLba28 drive (sectors m' buf)
    → Holds m' (buf + 512 * 3 + 512 * sector_of 3) l
    → j < 512
    → j < length l
    → (elf_start drive m0).memory ((elf_start drive m0).entry + j) ≡ get_or l j 0 % 256
unfolding elf_start
loaded m' m0 buf drive l j ata h small lt =
    let at : buf + 512 * 531 + j ≡ buf + 512 * 3 + 512 * sector_of 3 + j = omega arith in
    read_disk-inside drive (sectors m' buf) ata 531 (omega arith) 0x1200 m0 j small
    ∙ ap (λ a. m' a % 256) at
    ∙ ap (λ b. b % 256) (Holds-get_or m' (buf + 512 * 3 + 512 * sector_of 3) l j h lt)

-- On a disk that `main` of mkgpt.c has written, with a second stage of at most 4096 bytes, the boot
-- sector loads the first 512 bytes of the second stage, or as many as it has, jumps there, and
-- passes it the number of the block where the kernel begins.
pub main-elf_start :
    (o : ByteOrder) (m m' m0 : Memory) (calls : Calls) (buf fuel : ℕ) (l k b i mbr : Bytes)
    (ls : List Define) (drive : Drive) (j : ℕ)
    → AllWell calls buf mbr
    → All IsCopyable (map request (jobs_of calls l k b i))
    → HasSpace
        (fresh_volume (boot_config boot_volume) (buf + 512 * 3))
        (map request (jobs_of calls l k b i))
    → main (suc (suc fuel)) o calls m ≡ finished ls m'
    → IsLba28 drive (sectors m' buf)
    → length l ≤ 4096
    → j < 512
    → j < length l
    → ((elf_start drive m0).memory ((elf_start drive m0).entry + j) ≡ get_or l j 0 % 256)
      × Holds m' (buf + 512 * (elf_start drive m0).argument) k
unfolding elf_start
main-elf_start o m m' m0 calls buf fuel l k b i mbr ls drive j well ok space written ata short small
      lt =
    let (m1, e, (hl, (hk, _)), _, _) = main-Located o m calls buf fuel l k b i mbr well ok space in
    let same : m1 ≡ m' = ap disk_of (sym e ∙ written) in
    let one : ceil_div (length l) 4096 ≡ 1 = omega (arith, ok.0.some_bytes) in
    let at : buf + 512 * 3 + 512 * sector_of (3 + ceil_div (length l) 4096) ≡ buf + 512 * 539 =
      omega (arith, one) in
    (
      loaded m' m0 buf drive l j ata
          (subst (λ d. Holds d (buf + 512 * 3 + 512 * sector_of 3) l) same hl) small lt,
      subst (λ d. Holds d (buf + 512 * 539) k) same (subst (λ a. Holds m1 a k) at hk),
    )
