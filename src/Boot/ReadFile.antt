-- ===== src/Boot/ReadFile.antt =====
-- `__k_readfile` of bootloader/vmlinux.c: a part of a file that lies in consecutive sectors.
use native.Mathlib.Decide.{dec_lt}
use tlibc.Base.{
  ℕ, zero, suc, ◌+◌, ◌-◌, ◌/◌, ◌%◌, ◌^◌, ◌≤◌, ◌<◌, ◌≡◌, ◌⊎◌, refl, ap, ap₂, ◌∙◌, Option, none, some,
  Memory, arith, ltb, ◌==◌, if◌then◌else◌,
}
use tlibc.Boot.Disk.{
  Drive, Disk, IsLba28, sect_size, read_disk, read_disk-inside, read_disk-outside, copy_bytes,
  copy_bytes-inside, copy_bytes-outside,
}

-- `SECTOR_DATA_START`, where each sector is read
abbrev pub sector_data : ℕ
sector_data = 0x1000

abbrev pub u32 : ℕ → ℕ
u32 x = x % 2 ^ 32

-- The bytes that a round takes from its sector.
abbrev take_bytes : ℕ → ℕ → ℕ
take_bytes foff fsize = let nb = sect_size - foff % sect_size in if ltb fsize nb then fsize else nb

abbrev round_memory : Drive → Memory → ℕ → ℕ → ℕ → ℕ → Memory
round_memory drive m dst fstart foff nb =
    copy_bytes nb (read_disk drive m sector_data (u32 (fstart + foff / sect_size))) dst
      (sector_data + foff % sect_size)

-- `none`: the fuel ran out. Every round takes a byte or more, so the size of the part is enough.
pub read_file : ℕ → Drive → Memory → ℕ → ℕ → ℕ → ℕ → Option Memory
read_file zero drive m dst fstart foff fsize = if fsize == 0 then some m else none
read_file (suc fuel) drive m dst fstart foff fsize =
    let nb = take_bytes foff fsize in
    let rest =
      read_file fuel drive (round_memory drive m dst fstart foff nb) (dst + nb) fstart
        (u32 (foff + nb)) (fsize - nb) in
    if fsize == 0 then some m else rest

-- The byte of the file that begins at sector `fstart`.
abbrev pub file_byte : Disk → ℕ → ℕ → ℕ
file_byte disk fstart k = disk (fstart + k / 512) (k % 512)

-- The area of memory stands apart from the one for sectors.
abbrev pub IsClear : ℕ → ℕ → Type 0
IsClear dst n = (dst + n ≤ sector_data) ⊎ (sector_data + 512 ≤ dst)

-- What loading a part of a file does to memory.
pub record IsLoaded (disk : Disk) (dst fstart foff fsize : ℕ) (m m' : Memory) : Type 0 where
  pub inside : (i : ℕ) → i < fsize → m' (dst + i) ≡ file_byte disk fstart (foff + i)
  pub outside :
      (q : ℕ)
      → (q < dst) ⊎ (dst + fsize ≤ q)
      → (q < sector_data) ⊎ (sector_data + 512 ≤ q)
      → m' q ≡ m q

module _ (drive : Drive) (disk : Disk) (ata : IsLba28 drive disk) (fstart : ℕ) where
  module _ (m : Memory) (dst foff nb : ℕ) (low : fstart + foff / 512 < 2 ^ 28)
      (part : foff % 512 + nb ≤ 512) (clear : IsClear dst nb) where
    abbrev m1 : Memory
    m1 = round_memory drive m dst fstart foff nb

    sector_lem : u32 (fstart + foff / 512) ≡ fstart + foff / 512
    sector_lem = omega arith

    round-inside : (i : ℕ) → i < nb → m1 (dst + i) ≡ file_byte disk fstart (foff + i)
    round-inside i h =
        copy_bytes-inside nb (read_disk drive m sector_data (u32 (fstart + foff / 512))) dst
          (sector_data + foff % 512) i (omega arith) h
        ∙ ap (λ s. read_disk drive m sector_data s (sector_data + foff % 512 + i)) sector_lem
        ∙ at_sector i (foff % 512 + i) (omega arith) h
        ∙ ap₂ disk (omega arith) (omega arith)
      where
        at_sector :
            (i k : ℕ)
            → k ≡ foff % 512 + i
            → i < nb
            → read_disk drive m sector_data (fstart + foff / 512) (sector_data + foff % 512 + i)
              ≡ disk (fstart + foff / 512) k
        at_sector i k e h =
            ap (read_disk drive m sector_data (fstart + foff / 512)) (omega arith)
            ∙ read_disk-inside drive disk ata (fstart + foff / 512) low sector_data m k
                (omega arith)

    round-outside :
        (q : ℕ)
        → (q < dst) ⊎ (dst + nb ≤ q)
        → (q < sector_data) ⊎ (sector_data + 512 ≤ q)
        → m1 q ≡ m q
    round-outside q h k =
        copy_bytes-outside nb (read_disk drive m sector_data (u32 (fstart + foff / 512))) dst
          (sector_data + foff % 512) q h
        ∙ ap (λ s. read_disk drive m sector_data s q) sector_lem
        ∙ read_disk-outside drive disk ata (fstart + foff / 512) low sector_data m q k

  -- A round, and the rounds for the rest of the part.
  join_rounds :
      (m m' : Memory) (dst foff fsize nb : ℕ)
      → nb ≤ fsize
      → foff % 512 + nb ≤ 512
      → fstart + foff / 512 < 2 ^ 28
      → IsClear dst fsize
      → IsLoaded disk
          (dst + nb)
          fstart
          (foff + nb)
          (fsize - nb)
          (round_memory drive m dst fstart foff nb)
          m'
      → IsLoaded disk dst fstart foff fsize m m'
  join_rounds m m' dst foff fsize nb le part low clear loaded = record {
    inside = λ i h. elim (dec_lt i nb) [
      | yes p ↦
          loaded.outside (dst + i) (omega arith) (omega arith)
          ∙ round-inside m dst foff nb low part (omega arith) i p
      | no p ↦
          ap m' (omega arith)
          ∙ loaded.inside (i - nb) (omega arith)
          ∙ ap (file_byte disk fstart) (omega arith)
    ];
    outside = λ q h k.
        loaded.outside q (omega arith) k
        ∙ round-outside m dst foff nb low part (omega arith) q (omega arith) k;
  }

  -- On a drive in 28-bit LBA mode, `__k_readfile` ends and puts the part of the file, byte by byte,
  -- at its address; apart from that and from the area for sectors, memory stays as it is. The
  -- part ends below 4 GiB of the file and its sectors below the 28 bits of an address, and the
  -- area to fill stands apart from the one for sectors.
  pub read_file-IsLoaded :
      (fuel : ℕ) (m : Memory) (dst foff fsize : ℕ)
      → fsize ≤ fuel
      → foff + fsize < 2 ^ 32
      → fstart + (foff + fsize) / 512 < 2 ^ 28
      → IsClear dst fsize
      → (m' : Memory) × (read_file fuel drive m dst fstart foff fsize ≡ some m')
        × IsLoaded disk dst fstart foff fsize m m'
  unfolding read_file
  read_file-IsLoaded zero m dst foff fsize enough small low clear =
      (m, ground arith, record { inside = λ i h. absurd (omega arith); outside = λ q h k. refl })
  read_file-IsLoaded (suc fuel) m dst foff fsize enough small low clear = elim (dec_lt 0 fsize) [
    | no p ↦
        (m, ground arith, record { inside = λ i h. absurd (omega arith); outside = λ q h k. refl })
    | yes p ↦
        let takes : (1 ≤ take_bytes foff fsize)
            × (take_bytes foff fsize ≤ fsize)
            × (foff % 512 + take_bytes foff fsize ≤ 512) =
          ground arith in
        read_on (take_bytes foff fsize) takes
          (read_file-IsLoaded fuel (round_memory drive m dst fstart foff (take_bytes foff fsize))
            (dst + take_bytes foff fsize) (foff + take_bytes foff fsize)
            (fsize - take_bytes foff fsize) (omega arith) (omega arith)
            (below (take_bytes foff fsize) takes.1) (omega arith))
          (λ m' e. first_round (take_bytes foff fsize) p takes.1 m' e)
  ]
    where
      below : (nb : ℕ) → nb ≤ fsize → fstart + (foff + nb + (fsize - nb)) / 512 < 2 ^ 28
      below nb h = let e : foff + nb + (fsize - nb) ≡ foff + fsize = omega arith in rw e low

      first_round :
          (nb : ℕ)
          → 0 < fsize
          → nb ≤ fsize
          → (m' : Memory)
          → read_file fuel drive
              (round_memory drive m dst fstart foff nb)
              (dst + nb)
              fstart
              (foff + nb)
              (fsize - nb)
            ≡ some m'
          → (if fsize == 0
              then some m
              else read_file fuel drive
                  (round_memory drive m dst fstart foff nb)
                  (dst + nb)
                  fstart
                  (u32 (foff + nb))
                  (fsize - nb))
            ≡ some m'
      first_round nb pos h m' e =
          let moved : (foff + nb) % 2 ^ 32 ≡ foff + nb = omega arith in rw moved (ground arith)

      read_on :
          (nb : ℕ)
          → (1 ≤ nb) × (nb ≤ fsize) × (foff % 512 + nb ≤ 512)
          → (m' : Memory) × (read_file fuel drive
                (round_memory drive m dst fstart foff nb)
                (dst + nb)
                fstart
                (foff + nb)
                (fsize - nb)
              ≡ some m')
            × IsLoaded disk
                (dst + nb)
                fstart
                (foff + nb)
                (fsize - nb)
                (round_memory drive m dst fstart foff nb)
                m'
          → ((m' : Memory)
              → read_file fuel drive
                  (round_memory drive m dst fstart foff nb)
                  (dst + nb)
                  fstart
                  (foff + nb)
                  (fsize - nb)
                ≡ some m'
              → read_file (suc fuel) drive m dst fstart foff fsize ≡ some m')
          → (m' : Memory) × (read_file (suc fuel) drive m dst fstart foff fsize ≡ some m')
            × IsLoaded disk dst fstart foff fsize m m'
      read_on nb takes (m', e, loaded) first = (
        m',
        first m' e,
        join_rounds m m' dst foff fsize nb takes.1 takes.2 (omega arith) clear loaded,
      )
