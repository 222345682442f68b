-- ===== src/Boot/Vmlinux/Segment.antt =====
-- bootloader/vmlinux.c: a segment in memory, once its header was followed.
use tlibc.Base.{
  ℕ, ◌+◌, ◌/◌, ◌^◌, ◌≤◌, ◌<◌, ◌≡◌, ◌⊎◌, refl, ◌∙◌, some, Memory, arith, memset, read_out-cong, ◌-◌,
}
use tlibc.Endian.{little, w64, size}
use tlibc.Endian.Laws.{load_le-cong}
use tlibc.Boot.Disk.{Drive, Disk, IsLba28, memzero, memzero-memset}
use tlibc.Boot.ReadFile.{
  u32, file_byte, read_file, read_file-IsLoaded, IsClear, IsLoaded, sector_data,
}
use tlibc.Boot.Vmlinux.{
  Phdr, p_offset, p_paddr, p_filesz, p_memsz, phdr_offset, get_phdr, zero_rest, load_segment,
}

-- An area of memory that is neither in the segment nor in the area for sectors.
pub record IsApart (dst n at size : ℕ) : Type 0 where
  pub segment : (at + size ≤ dst) ⊎ (dst + n ≤ at)
  pub sector : (at + size ≤ sector_data) ⊎ (sector_data + 512 ≤ at)

-- The numbers of a header for a segment below 4 GiB.
pub record IsSegment (m : Memory) (phdr offset paddr filesz memsz : ℕ) : Type 0 where
  pub offset_is : get_phdr m phdr p_offset ≡ offset
  pub paddr_is : get_phdr m phdr p_paddr ≡ paddr
  pub filesz_is : get_phdr m phdr p_filesz ≡ filesz
  pub memsz_is : get_phdr m phdr p_memsz ≡ memsz
  pub fits : filesz ≤ memsz
  pub file_small : offset + filesz < 2 ^ 32
  pub small : paddr + memsz < 2 ^ 32

-- What a segment should be in memory: the bytes of the file, and zeros behind them.
pub record IsImage (disk : Disk) (sector offset paddr filesz memsz : ℕ) (m : Memory) : Type 0 where
  pub bytes : (i : ℕ) → i < filesz → m (paddr + i) ≡ file_byte disk sector (offset + i)
  pub zeros : (i : ℕ) → filesz ≤ i → i < memsz → m (paddr + i) ≡ 0

header-kept :
    (disk : Disk) (sector offset paddr filesz memsz phdr : ℕ) (m m' : Memory) (f : Phdr)
    → IsLoaded disk paddr sector offset filesz m m'
    → IsApart paddr filesz phdr 56
    → get_phdr m' phdr f ≡ get_phdr m phdr f
unfolding size
header-kept disk sector offset paddr filesz memsz phdr m m' f loaded apart =
    let at : (phdr ≤ phdr + phdr_offset f) × (phdr + phdr_offset f + 8 ≤ phdr + 56) = field_lem f in
    load_le-cong little w64 m' m (phdr + phdr_offset f) (phdr + phdr_offset f) (
      read_out-cong m' m (phdr + phdr_offset f) 8 (λ q lo hi.
        loaded.outside q (omega (arith, at, apart.segment)) (omega (arith, at, apart.sector))))
  where
    field_lem : (f : Phdr) → (phdr ≤ phdr + phdr_offset f) × (phdr + phdr_offset f + 8 ≤ phdr + 56)
    field_lem p_offset = (omega arith, omega arith)
    field_lem p_paddr = (omega arith, omega arith)
    field_lem p_filesz = (omega arith, omega arith)
    field_lem p_memsz = (omega arith, omega arith)

-- The zeros behind the bytes of the file.
zeroed-IsImage :
    (disk : Disk) (sector offset paddr filesz memsz : ℕ) (m m' : Memory)
    → filesz ≤ memsz
    → IsLoaded disk paddr sector offset filesz m m'
    → IsImage disk sector offset paddr filesz memsz (memzero (memsz - filesz) m' (paddr + filesz))
zeroed-IsImage disk sector offset paddr filesz memsz m m' fits loaded = record {
  bytes = λ i h.
      memzero-memset (memsz - filesz) m' (paddr + filesz) (paddr + i)
      ∙ outside_lem i h
      ∙ loaded.inside i h;
  zeros = λ i lo hi.
      memzero-memset (memsz - filesz) m' (paddr + filesz) (paddr + i) ∙ inside_lem i lo hi;
}
  where
    outside_lem :
        (i : ℕ)
        → i < filesz
        → memset m' (paddr + filesz) 0 (memsz - filesz) (paddr + i) ≡ m' (paddr + i)
    outside_lem i h = ground (arith, h)

    inside_lem :
        (i : ℕ)
        → filesz ≤ i
        → i < memsz
        → memset m' (paddr + filesz) 0 (memsz - filesz) (paddr + i) ≡ 0
    inside_lem i lo hi = ground (arith, lo, hi)

-- The memory that a followed header leaves, from what the read of the file left.
load_segment-memzero :
    (drive : Drive) (sector phdr offset paddr filesz memsz : ℕ) (m m' : Memory)
    → IsSegment m phdr offset paddr filesz memsz
    → read_file filesz drive m paddr sector offset filesz ≡ some m'
    → get_phdr m' phdr p_paddr ≡ paddr
    → get_phdr m' phdr p_filesz ≡ filesz
    → get_phdr m' phdr p_memsz ≡ memsz
    → load_segment drive sector phdr m ≡ some (memzero (memsz - filesz) m' (paddr + filesz))
unfolding load_segment zero_rest
load_segment-memzero drive sector phdr offset paddr filesz memsz m m' seg e a b c =
    let size : u32 filesz ≡ filesz = omega (arith, seg.fits, seg.small) in
    let address : u32 paddr ≡ paddr = omega (arith, seg.small) in
    let from : u32 offset ≡ offset = omega (arith, seg.file_small) in
    let rest : u32 (memsz + 2 ^ 64 - filesz) ≡ memsz - filesz =
      omega (arith, seg.fits, seg.small) in
    let end : u32 (paddr + filesz) ≡ paddr + filesz = omega (arith, seg.fits, seg.small) in
    rw
      (
        seg.filesz_is, seg.paddr_is, seg.offset_is, size, address, from, e, a, b, c, size, address,
        rest, end,
      )
      refl

-- On a drive in 28-bit LBA mode, a header for a segment below 4 GiB is followed: memory holds the
-- bytes of the file at the segment's address, and zeros up to its size in memory. The segment, the
-- header and the area for sectors do not overlap, and the sectors lie below the 28 bits of an
-- address.
pub load_segment-IsImage :
    (drive : Drive) (disk : Disk) (sector phdr offset paddr filesz memsz : ℕ) (m : Memory)
    → IsLba28 drive disk
    → IsSegment m phdr offset paddr filesz memsz
    → sector + (offset + filesz) / 512 < 2 ^ 28
    → IsApart paddr memsz phdr 56
    → IsClear paddr memsz
    → (m' : Memory) × (load_segment drive sector phdr m ≡ some m')
      × IsImage disk sector offset paddr filesz memsz m'
load_segment-IsImage drive disk sector phdr offset paddr filesz memsz m ata seg low apart clear =
    let r =
      read_file-IsLoaded drive disk ata sector filesz m paddr offset filesz (omega arith)
        seg.file_small low (omega (arith, clear, seg.fits)) in
    let apart' : IsApart paddr filesz phdr 56 = record {
      segment = omega (arith, apart.segment, seg.fits);
      sector = apart.sector;
    } in
    let kept : (f : Phdr) → get_phdr (r.0) phdr f ≡ get_phdr m phdr f =
      λ f. header-kept disk sector offset paddr filesz memsz phdr m (r.0) f r.2 apart' in
    (
      memzero (memsz - filesz) (r.0) (paddr + filesz),
      load_segment-memzero drive sector phdr offset paddr filesz memsz m (r.0) seg r.1
          (kept p_paddr ∙ seg.paddr_is) (kept p_filesz ∙ seg.filesz_is)
          (kept p_memsz ∙ seg.memsz_is),
      zeroed-IsImage disk sector offset paddr filesz memsz m (r.0) seg.fits r.2,
    )
