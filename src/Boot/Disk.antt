-- ===== src/Boot/Disk.antt =====
-- `read_disk` of bootloader/serial.h, without a BIOS, and the copying of its callers. The disk
-- controller is a parameter: what the data port delivers after a read command.
use tlibc.Base.{
  ℕ, zero, suc, ◌+◌, ◌*◌, ◌/◌, ◌%◌, ◌^◌, ◌≤◌, ◌<◌, ◌≡◌, ◌⊎◌, refl, ap, ◌∙◌, [], ◌∷◌, Bytes, Memory,
  store, write_all, write_all-outside, arith, bit_or, memset,
}
use native.Mathlib.Decide.{dec_lt}
use tlibc.Base.Bits.{bit_or_high}
use tlibc.Endian.{little, w32, poke, of_le_bytes}
use tlibc.Endian.Laws.{poke-of_le_bytes}

abbrev pub sect_size : ℕ
sect_size = 512

-- What is written to the ports 0x1f2 to 0x1f6 before the command 0x20, a byte each.
pub record Registers : Type 0 where
  pub sector_count : ℕ
  pub lba_low : ℕ
  pub lba_mid : ℕ
  pub lba_high : ℕ
  pub drive_select : ℕ

-- The word that the port 0x1f0 delivers in each round behind a read command.
abbrev pub Drive : Type 0
Drive = Registers → ℕ → ℕ

-- An `int` in the range of `sect >> k`.
registers : ℕ → Registers
registers sect = record {
  sector_count = 1;
  lba_low = sect % 2 ^ 8;
  lba_mid = sect / 2 ^ 8 % 2 ^ 8;
  lba_high = sect / 2 ^ 16 % 2 ^ 8;
  drive_select = bit_or (sect / 2 ^ 24) 0xE0 % 2 ^ 8;
}

-- `((uint32_t *)buf)[i] = inl(0x1f0)`, with `left` rounds to go.
read_words : Drive → Registers → Memory → ℕ → ℕ → ℕ → Memory
read_words drive r m buf zero i = m
read_words drive r m buf (suc left) i =
    read_words drive r (poke little w32 m (buf + i * 4) (drive r i)) buf left (i + 1)

-- For a sector number that is not negative.
pub read_disk : Drive → Memory → ℕ → ℕ → Memory
read_disk drive m buf sect = read_words drive (registers sect) m buf (sect_size / 4) 0

-- What a disk holds: the byte of a sector at an offset.
abbrev pub Disk : Type 0
Disk = ℕ → ℕ → ℕ

-- A drive in 28-bit LBA mode, with one sector asked for, delivers the sector that the address
-- registers and the low half of the drive register name, two bytes to half a word, the lowest
-- first.
pub record IsLba28 (drive : Drive) (disk : Disk) : Type 0 where
  pub is_byte : (s i : ℕ) → disk s i < 256
  pub words :
      (low mid high top i : ℕ)
      → top < 16
      → i < 128
      → drive
          (record {
            sector_count = 1;
            lba_low = low;
            lba_mid = mid;
            lba_high = high;
            drive_select = 0xE0 + top;
          })
          i
        ≡ of_le_bytes (
            disk (low + mid * 2 ^ 8 + high * 2 ^ 16 + top * 2 ^ 24) (i * 4)
            ∷ disk (low + mid * 2 ^ 8 + high * 2 ^ 16 + top * 2 ^ 24) (i * 4 + 1)
            ∷ disk (low + mid * 2 ^ 8 + high * 2 ^ 16 + top * 2 ^ 24) (i * 4 + 2)
            ∷ disk (low + mid * 2 ^ 8 + high * 2 ^ 16 + top * 2 ^ 24) (i * 4 + 3)
            ∷ [])

module _ (drive : Drive) (disk : Disk) (ata : IsLba28 drive disk) where
  registers-words :
      (sect i : ℕ)
      → sect < 2 ^ 28
      → i < 128
      → drive (registers sect) i
        ≡ of_le_bytes (
            disk sect (i * 4)
            ∷ disk sect (i * 4 + 1)
            ∷ disk sect (i * 4 + 2)
            ∷ disk sect (i * 4 + 3)
            ∷ [])
  unfolding registers
  registers-words sect i h hi =
      let top : bit_or (sect / 2 ^ 24) 0xE0 % 2 ^ 8 ≡ 0xE0 + sect / 2 ^ 24 =
        ap (λ t. t % 2 ^ 8) (bit_or_high 4 14 (sect / 2 ^ 24) (omega arith)) ∙ omega arith in
      let whole : sect % 2 ^ 8
            + sect / 2 ^ 8 % 2 ^ 8 * 2 ^ 8
            + sect / 2 ^ 16 % 2 ^ 8 * 2 ^ 16
            + sect / 2 ^ 24 * 2 ^ 24
          ≡ sect =
        omega arith in
      rw top (
        ata.words (sect % 2 ^ 8) (sect / 2 ^ 8 % 2 ^ 8) (sect / 2 ^ 16 % 2 ^ 8) (sect / 2 ^ 24) i
          (omega arith) hi
        ∙ ap
            (λ s.
              of_le_bytes (
                disk s (i * 4) ∷ disk s (i * 4 + 1) ∷ disk s (i * 4 + 2) ∷ disk s (i * 4 + 3) ∷ []))
            whole)

  module _ (sect : ℕ) (small : sect < 2 ^ 28) (buf : ℕ) where
    abbrev four : ℕ → Bytes
    four i =
        disk sect (i * 4)
        ∷ disk sect (i * 4 + 1)
        ∷ disk sect (i * 4 + 2)
        ∷ disk sect (i * 4 + 3)
        ∷ []

    one_word :
        (m : Memory) (i : ℕ)
        → i < 128
        → poke little w32 m (buf + i * 4) (drive (registers sect) i)
          ≡ write_all m (buf + i * 4) (four i)
    one_word m i h =
        ap (poke little w32 m (buf + i * 4)) (registers-words sect i small h)
        ∙ poke-of_le_bytes m (buf + i * 4) (disk sect (i * 4)) (disk sect (i * 4 + 1))
            (disk sect (i * 4 + 2)) (disk sect (i * 4 + 3)) (ata.is_byte sect (i * 4))
            (ata.is_byte sect (i * 4 + 1)) (ata.is_byte sect (i * 4 + 2))
            (ata.is_byte sect (i * 4 + 3))

    four_at :
        (m : Memory) (i k : ℕ)
        → i * 4 ≤ k
        → k < i * 4 + 4
        → write_all m (buf + i * 4) (four i) (buf + k) ≡ disk sect k
    unfolding write_all
    four_at m i k lo hi = ground arith

    read_words-outside :
        (left i : ℕ) (m : Memory) (q : ℕ)
        → i + left ≤ 128
        → (q < buf + i * 4) ⊎ (buf + (i + left) * 4 ≤ q)
        → read_words drive (registers sect) m buf left i q ≡ m q
    unfolding read_words
    read_words-outside zero i m q fit h = refl
    read_words-outside (suc left) i m q fit h =
        read_words-outside left (i + 1) (poke little w32 m (buf + i * 4) (drive (registers sect) i))
          q (omega arith) (omega arith)
        ∙ ap (λ (m' : Memory). m' q) (one_word m i (omega arith))
        ∙ write_all-outside m (buf + i * 4) (four i) q (omega arith)

    read_words-inside :
        (left i : ℕ) (m : Memory) (k : ℕ)
        → i + left ≤ 128
        → i * 4 ≤ k
        → k < (i + left) * 4
        → read_words drive (registers sect) m buf left i (buf + k) ≡ disk sect k
    unfolding read_words
    read_words-inside zero i m k fit lo hi = absurd (omega arith)
    read_words-inside (suc left) i m k fit lo hi =
        let m1 = poke little w32 m (buf + i * 4) (drive (registers sect) i) in
        elim (dec_lt k (i * 4 + 4)) [
          | yes p ↦
              read_words-outside left (i + 1) m1 (buf + k) (omega arith) (omega arith)
              ∙ ap (λ (m' : Memory). m' (buf + k)) (one_word m i (omega arith))
              ∙ four_at m i k lo p
          | no p ↦ read_words-inside left (i + 1) m1 k (omega arith) (omega arith) (omega arith)
        ]

    -- On a drive in 28-bit LBA mode, `read_disk` puts the 512 bytes of the sector at `buf`.
    pub read_disk-inside :
        (m : Memory) (k : ℕ) → k < 512 → read_disk drive m buf sect (buf + k) ≡ disk sect k
    unfolding read_disk
    read_disk-inside m k h = read_words-inside 128 0 m k (omega arith) (omega arith) (omega arith)

    pub read_disk-outside :
        (m : Memory) (q : ℕ) → (q < buf) ⊎ (buf + 512 ≤ q) → read_disk drive m buf sect q ≡ m q
    unfolding read_disk
    read_disk-outside m q h = read_words-outside 128 0 m q (omega arith) (omega arith)

-- `for (i = 0; i < n; i++) dst[i] = src[i]`, one byte after the other.
pub copy_bytes : ℕ → Memory → ℕ → ℕ → Memory
copy_bytes zero m dst src = m
copy_bytes (suc n) m dst src = copy_bytes n (store m dst (m src)) (dst + 1) (src + 1)

pub copy_bytes-outside :
    (n : ℕ) (m : Memory) (dst src q : ℕ)
    → (q < dst) ⊎ (dst + n ≤ q)
    → copy_bytes n m dst src q ≡ m q
unfolding copy_bytes
copy_bytes-outside zero m dst src q h = refl
copy_bytes-outside (suc n) m dst src q h =
    copy_bytes-outside n (store m dst (m src)) (dst + 1) (src + 1) q (omega arith) ∙ ground arith

pub copy_bytes-inside :
    (n : ℕ) (m : Memory) (dst src i : ℕ)
    → (src + n ≤ dst) ⊎ (dst + n ≤ src)
    → i < n
    → copy_bytes n m dst src (dst + i) ≡ m (src + i)
unfolding copy_bytes
copy_bytes-inside zero m dst src i h lt = absurd (omega arith)
copy_bytes-inside (suc n) m dst src zero h lt =
    copy_bytes-outside n (store m dst (m src)) (dst + 1) (src + 1) (dst + 0) (omega arith)
    ∙ ground arith
copy_bytes-inside (suc n) m dst src (suc i) h lt =
    let e : dst + suc i ≡ dst + 1 + i = omega arith in
    let e' : src + suc i ≡ src + 1 + i = omega arith in
    rw (e, e')
      (copy_bytes-inside n (store m dst (m src)) (dst + 1) (src + 1) i (omega arith) (omega arith)
        ∙ ground arith)

-- `__k_memzero` of bootloader/vmlinux.c
pub memzero : ℕ → Memory → ℕ → Memory
memzero zero m addr = m
memzero (suc left) m addr = memzero left (store m addr 0) (addr + 1)

pub memzero-memset : (n : ℕ) (m : Memory) (addr q : ℕ) → memzero n m addr q ≡ memset m addr 0 n q
unfolding memzero
memzero-memset zero m addr q = ground arith
memzero-memset (suc n) m addr q = memzero-memset n (store m addr 0) (addr + 1) q ∙ ground arith
