-- ===== src/Install/Partitions.antt =====
-- gpt/installer.c on gpt/gpt.c: the two partitions that `mkpart` makes.
use tlibc.Base.{
  ℕ, ◌+◌, ◌-◌, ◌*◌, ◌/◌, ◌^◌, ◌≤◌, ◌<◌, ◌≡◌, refl, ap, ◌∙◌, true, false, some, [], ◌∷◌, Bytes,
  Memory, length, codes, arith, ltb, ◌==◌,
}
use tlibc.Endian.{ByteOrder}
use tlibc.Gpt.Layout.{PartitionConfig}
use tlibc.Gpt.{GptConfig, u64, Allocation, generated, sectors_for_array, sectors_for_fs}
use tlibc.Gpt.Alloc.{IsDisk, allocate-two, sectors_for_fs-rest}
use tlibc.Gpt.Generate.{disk, plan, gpt_generate-disk}
use tlibc.Install.{config_of, all_made, mkpart, efi_system_partition, my_disk_id}

-- A partition of the installer.
abbrev pub partition : ByteOrder → Bytes → ℕ → ℕ → PartitionConfig
partition o name start volume = record {
  part_type = efi_system_partition o;
  part_id = my_disk_id o;
  name = name;
  volume = volume;
  start_lba = start;
}

-- Of a disk of `volume` blocks, the partitions of `boot` blocks and of the rest.
abbrev pub both : ByteOrder → ℕ → ℕ → Allocation
both o volume boot = record {
  placed =
      partition o (codes "Boot Partition") 3 boot
      ∷ partition o (codes "Filesystem") (3 + boot) (volume - 5 - boot)
      ∷ [];
  left = [];
  start = volume - 2;
  remains = 0;
}

pub config-IsDisk :
    (o : ByteOrder) (buf disk_size boot_bytes : ℕ)
    → boot_bytes + 32768 ≤ disk_size
    → disk_size < 2 ^ 63
    → IsDisk (config_of o buf disk_size boot_bytes)
unfolding config_of sectors_for_array
config-IsDisk o buf disk_size boot_bytes fit small = record {
  some_partition = omega arith;
  few = omega arith;
  room = omega (arith, fit);
  small = omega (arith, small);
}

pub config-plan :
    (o : ByteOrder) (buf disk_size boot_bytes : ℕ)
    → boot_bytes + 32768 ≤ disk_size
    → disk_size < 2 ^ 63
    → plan (config_of o buf disk_size boot_bytes) ≡ both o (disk_size / 512) (boot_bytes / 512)
unfolding config_of sectors_for_array
config-plan o buf disk_size boot_bytes fit small =
    let v = disk_size / 512 in
    let b = boot_bytes / 512 in
    let rest : u64 (v + 2 ^ 64 - 5 + 2 ^ 64 - b) ≡ v - 5 - b = omega (arith, fit, small) in
    let space : sectors_for_fs (config_of o buf disk_size boot_bytes) ≡ v - 5 =
      sectors_for_fs-rest (config_of o buf disk_size boot_bytes)
        (config-IsDisk o buf disk_size boot_bytes fit small)
      ∙ omega arith in
    let end : 3 + (v - 5) ≡ v - 2 = omega (arith, fit) in
    rw (space, rest)
      (allocate-two (partition o (codes "Boot Partition") 0 b)
          (partition o (codes "Filesystem") 0 (v - 5 - b)) 3 (v - 5) (omega (arith, fit))
          (omega (arith, small))
        ∙ rw end refl)

all_made-both :
    (config : GptConfig) (m : Memory) (a a' : Allocation)
    → a ≡ a'
    → length a'.placed ≡ length config.partitions
    → all_made config (generated m a) ≡ some (m, a')
unfolding all_made
all_made-both config m a a' e n =
    let eq : (length a'.placed == length config.partitions) ≡ true = ground arith in rw (e, eq) refl

config-partitions :
    (o : ByteOrder) (buf disk_size boot_bytes : ℕ)
    → 2 ≡ length (config_of o buf disk_size boot_bytes).partitions
unfolding config_of
config-partitions o buf disk_size boot_bytes = refl

-- On a disk of less than 8 EiB with room for the boot partition of `boot_size` MiB and 64 blocks,
-- `mkpart` succeeds: the boot partition starts at block 3, the file system at the next one, and it
-- ends where the two last blocks begin.
pub mkpart-both :
    (o : ByteOrder) (m : Memory) (buf disk_size boot_size : ℕ)
    → boot_size * 1048576 + 32768 ≤ disk_size
    → disk_size < 2 ^ 63
    → mkpart o m buf disk_size boot_size
      ≡ some (
        disk o m (config_of o buf disk_size (boot_size * 1048576)),
        both o (disk_size / 512) (boot_size * 2048),
      )
unfolding mkpart
mkpart-both o m buf disk_size boot_size fit small =
    let bytes : u64 (boot_size * 1048576) ≡ boot_size * 1048576 = omega (arith, fit, small) in
    let blocks : boot_size * 1048576 / 512 ≡ boot_size * 2048 = omega arith in
    let room : ltb disk_size (u64 (boot_size * 1048576 + 512 * 64)) ≡ false =
      ground (arith, fit, small) in
    let config = config_of o buf disk_size (boot_size * 1048576) in
    let p = config-plan o buf disk_size (boot_size * 1048576) fit small in
    rw
      (
        bytes,
        room,
        gpt_generate-disk o m config
            (config-IsDisk o buf disk_size (boot_size * 1048576) fit small),
      )
      (all_made-both config (disk o m config) (plan config)
        (both o (disk_size / 512) (boot_size * 2048)) (p ∙ ap (both o (disk_size / 512)) blocks)
        (config-partitions o buf disk_size (boot_size * 1048576)))
