-- ===== src/Mkgpt.antt =====
-- gpt/mkgpt.c: the image of 256 MiB, and the header that says where its files lie.
pub mod Offsets
pub mod Boot
use tlibc.Base.{
  ℕ, zero, suc, ◌+◌, ◌-◌, ◌*◌, ◌/◌, ◌%◌, ◌^◌, Bool, true, false, not, Option, none, some, List, [],
  ◌∷◌, ◌++◌, Bytes, Memory, write_all, codes, length, take, ◌==◌, if◌then◌else◌, ◌>>=◌,
}
use tlibc.Endian.{ByteOrder}
use tlibc.Gpt.Layout.{PartitionConfig}
use tlibc.Gpt.{GptConfig, Generated, refused, generated, gpt_generate}
use tlibc.Fat.Copyin.{HostFile, Copyin, copied, failed, trapped, fat32_copyin}
use tlibc.Install.{efi_system_partition, my_disk_id, format}

abbrev pub disk_size : ℕ
disk_size = 1024 * 1024 * 256

abbrev pub volume : ℕ
volume = disk_size / 512

abbrev pub boot_volume : ℕ
boot_volume = 262140

-- The configuration that `main` fills in.
unfoldable pub config : ByteOrder → ℕ → GptConfig
config o buf = record {
  buf = buf;
  volume = volume;
  partitions =
      record {
        part_type = efi_system_partition o;
        part_id = my_disk_id o;
        name = codes "Boot Partition";
        volume = boot_volume;
        start_lba = 0;
      }
      ∷ record {
        part_type = efi_system_partition o;
        part_id = my_disk_id o;
        name = codes "Filesystem";
        volume = volume - 5 - boot_volume;
        start_lba = 0;
      }
      ∷ [];
  disk_id = my_disk_id o;
}

-- A line `#define NAME VALUE` of the output.
pub record Define : Type 0 where
  pub name : Bytes
  pub value : ℕ

-- How `main` ends: with 1, by a trap, or with 0; with the lines that it has printed, and the disk that it has
-- written.
pub data Ended : Type 0 where
  exited : List Define → Ended
  crashed : Ended
  finished : List Define → Memory → Ended

-- What the calls of the host return: whether `a.img` is opened and written, where the disk is
-- mapped, what the descriptors of the four files deliver, and what `read` of `mbr.img` gets.
pub record Calls : Type 0 where
  pub opened : Bool
  pub mapped : Option ℕ
  pub loader : HostFile
  pub kernel : HostFile
  pub busybox : HostFile
  pub init : HostFile
  pub mbr : Option Bytes
  pub written : Bool

-- `PARTITION_%ld_START`, of the two partitions.
abbrev starts : List PartitionConfig → List Define
starts [] = []
starts (p ∷ []) = record { name = codes "PARTITION_0_START"; value = p.start_lba } ∷ []
starts (p ∷ q ∷ ps) =
    record { name = codes "PARTITION_0_START"; value = p.start_lba }
    ∷ record { name = codes "PARTITION_1_START"; value = q.start_lba }
    ∷ []

abbrev first_start : List PartitionConfig → ℕ
first_start [] = 0
first_start (p ∷ ps) = p.start_lba

-- The sector that a call of `FAT32Copyin` returns, and the image behind it. An error is printed as
-- the offset 0, and the next file is copied. `none`: the call traps.
abbrev pub printed : Copyin → Option (ℕ × Memory)
printed (copied ret m) = some (ret, m)
printed (failed errno m) = some (0, m)
printed trapped = none

-- One file, with the name of its line and the name and attributes of its entry.
pub record Task : Type 0 where
  pub host : HostFile
  pub label : Bytes
  pub name : Bytes
  pub attributes : ℕ

-- `FAT_ATTR_READ_ONLY | FAT_ATTR_SYSTEM`, and `FAT_ATTR_READ_ONLY`
abbrev pub tasks : Calls → List Task
tasks calls =
    record {
      host = calls.loader;
      label = codes "BOOTLOADER_OFFSET";
      name = codes "linuz";
      attributes = 5;
    }
    ∷ record {
      host = calls.kernel;
      label = codes "KERNEL_OFFSET";
      name = codes "kernel";
      attributes = 5;
    }
    ∷ record {
      host = calls.busybox;
      label = codes "BUSYBOX_OFFSET";
      name = codes "busybox";
      attributes = 1;
    }
    ∷ record { host = calls.init; label = codes "INIT_OFFSET"; name = codes "init"; attributes = 1 }
    ∷ []

-- The calls of `FAT32Copyin`, one behind the other.
unfoldable pub copy_files : ℕ → ByteOrder → ℕ → List Task → Memory → Option (List Define × Memory)
copy_files fuel o fat [] m = some ([], m)
copy_files fuel o fat (t ∷ ts) m =
    printed (fat32_copyin fuel o m fat t.host t.name t.attributes) >>= λ (ret, m1).
    copy_files fuel o fat ts m1 >>= λ (lines, m2).
    some (record { name = t.label; value = ret } ∷ lines, m2)

-- `read(fatFd, buf, 440)`
abbrev boot_code : ℕ → Option Bytes → Memory → Memory
boot_code buf none m = m
boot_code buf (some bs) m = write_all m buf (take 440 bs)

-- From the copied files on.
unfoldable pub write_out : Calls → ℕ → List Define → Option (List Define × Memory) → Ended
write_out calls buf lines none = crashed
write_out calls buf lines (some (offsets, m)) =
    if calls.written
    then finished (lines ++ offsets) (boot_code buf calls.mbr m)
    else exited (lines ++ offsets)

-- From the generated partition table on.
unfoldable pub fill_disk : ℕ → ByteOrder → Calls → ℕ → Generated → Ended
fill_disk fuel o calls buf refused = exited []
fill_disk fuel o calls buf (generated m plan) =
    let fat = buf + 512 * first_start plan.placed in
    if not (length plan.placed == 2)
    then exited []
    else write_out calls buf (starts plan.placed)
        (format o fat boot_volume m >>= λ m1. copy_files fuel o fat (tasks calls) m1)

unfoldable pub main : ℕ → ByteOrder → Calls → Memory → Ended
main fuel o calls m =
    if calls.opened
    then elim calls.mapped [
      | none ↦ exited []
      | some buf ↦ fill_disk fuel o calls buf (gpt_generate o m (config o buf))
    ]
    else exited []
