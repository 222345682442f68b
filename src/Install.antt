-- ===== src/Install.antt =====
-- gpt/installer.c: the arguments, the partitions, and the copies onto the disk.
pub mod Args
pub mod Partitions
pub mod Files
use tlibc.Base.{
  ℕ, zero, suc, ◌+◌, ◌-◌, ◌*◌, ◌/◌, ◌%◌, ◌^◌, Bool, true, false, ◌&&◌, ◌||◌, not, Option, none,
  some, List, [], ◌∷◌, ◌++◌, Bytes, Memory, write_all, codes, length, take, ltb, leb, ◌==◌,
  if◌then◌else◌, ◌>>=◌, bit_and,
}
use tlibc.Endian.{ByteOrder, represent}
use tlibc.Gpt.Layout.{PartitionConfig}
use tlibc.Gpt.{GptConfig, u64, Generated, generated, Allocation, gpt_generate}
use tlibc.Fat.Create.{FatConfig, Created, refused, asserted, created, create_fat32}
use tlibc.Fat.Copyin.{HostFile, copied_memory, fat32_copyin}

-- What the command line says. `none` is `NULL`.
pub record Options : Type 0 where
  pub path_bzimage : Option Bytes
  pub path_busybox : Option Bytes
  pub dst : Option Bytes
  pub boot_size : ℕ

abbrev pub defaults : Options
defaults = record { path_bzimage = none; path_busybox = none; dst = none; boot_size = 64 }

-- `strcmp(a, b) == 0` of the C library.
unfoldable pub same : Bytes → Bytes → Bool
same [] [] = true
same [] (d ∷ t) = false
same (c ∷ s) [] = false
same (c ∷ s) (d ∷ t) = (c == d) && same s t

-- The arguments that the loop knows.
pub data Flag : Type 0 where
  help_flag kernel_flag dest_flag size_flag busybox_flag unknown : Flag

unfoldable pub flag : Bytes → Flag
flag cur =
    if same cur (codes "-h") || same cur (codes "--help")
    then help_flag
    else if same cur (codes "-k")
    then kernel_flag
    else if same cur (codes "-d")
    then dest_flag
    else if same cur (codes "-s")
    then size_flag
    else if same cur (codes "-busybox")
    then busybox_flag
    else unknown

-- How the loop over the arguments ends. `crashed`: `atoi(NULL)`; `spinning`: the fuel ran out.
pub data Parsed : Type 0 where
  parsed : Options → Parsed
  helped crashed spinning : Parsed

-- The values that the options set; `value` is `argv[i + 1]`.
pub set_value : (Bytes → ℕ) → Flag → Option Bytes → Options → Option Options
set_value atoi kernel_flag value o = some (record o { path_bzimage = value })
set_value atoi dest_flag value o = some (record o { dst = value })
set_value atoi busybox_flag value o = some (record o { path_busybox = value })
set_value atoi size_flag none o = none
set_value atoi size_flag (some s) o = some (record o { boot_size = atoi s })
set_value atoi help_flag value o = some o
set_value atoi unknown value o = some o

abbrev is_help : Flag → Bool
is_help help_flag = true
is_help _ = false

abbrev is_unknown : Flag → Bool
is_unknown unknown = true
is_unknown _ = false

abbrev pub first : List Bytes → Option Bytes
first [] = none
first (a ∷ args) = some a

-- `i += 2`, where the arguments from `i + 1` on are given.
abbrev pub after : List Bytes → List Bytes
after [] = []
after (a ∷ args) = args

go_on : Option Options → (Options → Parsed) → Parsed
go_on none next = crashed
go_on (some o) next = next o

-- The loop over the arguments from `argv[i]` on. An unknown argument leaves `i` as it is. `atoi` is
-- that of the C library.
pub parse : ℕ → (Bytes → ℕ) → Options → List Bytes → Parsed
parse fuel atoi o [] = parsed o
parse zero atoi o (cur ∷ rest) = spinning
parse (suc fuel) atoi o (cur ∷ rest) =
    let f = flag cur in
    let same_i = parse fuel atoi o (cur ∷ rest) in
    let next = go_on (set_value atoi f (first rest) o) (λ o'. parse fuel atoi o' (after rest)) in
    if is_help f then helped else if is_unknown f then same_i else next

-- The checks behind the loop: the three paths, in the order of the source; `none` is `return 1`.
required : Options → Option (Bytes × Bytes × Bytes)
required o = o.path_bzimage >>= λ k. o.dst >>= λ d. o.path_busybox >>= λ b. some (k, d, b)

-- `basename`: from the last slash on, or the whole path.
basename_from : Bytes → Bytes → Bytes
basename_from ret [] = ret
basename_from ret (c ∷ pt) = if c == b'/' then basename_from (c ∷ pt) pt else basename_from ret pt

pub basename : Bytes → Bytes
basename path = basename_from path path

-- What the calls on the destination find: `fstat`, and the number in a file of `/sys`.
pub record Host : Type 0 where
  pub mode : Option ℕ
  pub st_size : ℕ
  pub is_block : ℕ → Bool
  pub sectors_of : Bytes → Option ℕ

-- `fdsize`. `none`: it dies.
pub fdsize : Host → Bytes → Option ℕ
fdsize host path =
    let sectors = host.sectors_of (codes "/sys/class/block/" ++ (basename path ++ codes "/size")) in
    let blocks = sectors >>= λ n. some (u64 (n * 512)) in
    host.mode >>= λ mode.
    if bit_and mode 0x8000 == 0x8000
    then some host.st_size
    else if host.is_block mode
    then blocks
    else none

-- `disk_size`: a multiple of the page size.
abbrev round_down : ℕ → ℕ
round_down n = n / 4096 * 4096

-- The two constants of `struct GUID`.
abbrev pub efi_system_partition : ByteOrder → Bytes
efi_system_partition o =
    represent o 4 0xc12a7328
    ++ (represent o 2 0xf81f
        ++ (represent o 2 0x11d2 ++ (0xba ∷ 0x4b ∷ 0x00 ∷ 0xa0 ∷ 0xc9 ∷ 0x3e ∷ 0xc9 ∷ 0x3b ∷ [])))

abbrev pub my_disk_id : ByteOrder → Bytes
my_disk_id o =
    represent o 4 0x9e8d8d40
    ++ (represent o 2 0xe4d1
        ++ (represent o 2 0x3547 ++ (0xad ∷ 0x9e ∷ 0x86 ∷ 0x52 ∷ 0x3f ∷ 0x5e ∷ 0x2f ∷ 0x4a ∷ [])))

-- The configuration that `mkpart` fills in, for a boot partition of so many bytes.
unfoldable pub config_of : ByteOrder → ℕ → ℕ → ℕ → GptConfig
config_of o buf disk_size boot_bytes =
    let volume = disk_size / 512 in
    let boot = boot_bytes / 512 in
    record {
      buf = buf;
      volume = volume;
      partitions =
          record {
            part_type = efi_system_partition o;
            part_id = my_disk_id o;
            name = codes "Boot Partition";
            volume = boot;
            start_lba = 0;
          }
          ∷ record {
            part_type = efi_system_partition o;
            part_id = my_disk_id o;
            name = codes "Filesystem";
            volume = u64 (volume + 2 ^ 64 - 5 + 2 ^ 64 - boot);
            start_lba = 0;
          }
          ∷ [];
      disk_id = my_disk_id o;
    }

-- The check of the number of partitions made.
pub all_made : GptConfig → Generated → Option (Memory × Allocation)
all_made config Generated.refused = none
all_made config (generated m plan) =
    if length plan.placed == length config.partitions then some (m, plan) else none

-- `mkpart`. `none`: it fails, and the installer exits.
pub mkpart : ByteOrder → Memory → ℕ → ℕ → ℕ → Option (Memory × Allocation)
mkpart o m buf disk_size boot_size =
    let boot_bytes = u64 (boot_size * 1048576) in
    let config = config_of o buf disk_size boot_bytes in
    let made = all_made config (gpt_generate o m config) in
    if ltb disk_size (u64 (boot_bytes + 512 * 64)) then none else made

abbrev first_of : List PartitionConfig → Option PartitionConfig
first_of [] = none
first_of (p ∷ ps) = some p

-- `copyin`: the file is opened and copied. `none`: it dies, or `FAT32Copyin` does.
unfoldable pub copyin : ℕ → ByteOrder → ℕ → Option HostFile → Bytes → Memory → Option Memory
copyin fuel o fat none name m = none
copyin fuel o fat (some file) name m = copied_memory (fat32_copyin fuel o m fat file name 5)

-- The files that `main` opens, `none` where `open` fails, and what `read` of `mbr.img` gets.
pub record Sources : Type 0 where
  pub loader : Option HostFile
  pub kernel : Option HostFile
  pub busybox : Option HostFile
  pub init : Option HostFile
  pub mbr : Option Bytes

-- The result of `createFAT32` is not looked at. `none`: an assertion fails.
abbrev pub formatted : Memory → Created → Option Memory
formatted m refused = some m
formatted m asserted = none
formatted m (created m') = some m'

-- `createFAT32` on the first partition.
unfoldable pub format : ByteOrder → ℕ → ℕ → Memory → Option Memory
format o fat sectors m = formatted m (
    create_fat32 o m fat (record {
      n_sector = sectors;
      bytes_per_sector = 512;
      cluster_size = 8;
      write_random_data = false;
      is_fixed = true;
    }))

-- From the mapped disk on: the partitions, the file system on the first one, the four files, and
-- the boot code of at most 440 bytes. `none`: the installer exits before the end.
unfoldable pub install : ℕ → ByteOrder → Sources → ℕ → ℕ → ℕ → Memory → Option Memory
install fuel o files buf disk_size boot_size m =
    mkpart o m buf disk_size boot_size >>= λ (m1, plan). first_of plan.placed >>= λ p.
    let fat = buf + 512 * p.start_lba in
    format o fat (p.volume % 2 ^ 32) m1
    >>= copyin fuel o fat files.loader (codes "loader")
    >>= copyin fuel o fat files.kernel (codes "kernel")
    >>= copyin fuel o fat files.busybox (codes "busybox")
    >>= copyin fuel o fat files.init (codes "init")
    >>= λ m2. files.mbr >>= λ bs. some (write_all m2 buf (take 440 bs))
