-- ===== src/Fat/Copyin.antt =====
-- `FAT32Copyin` of gpt/fat.c: a file of the host becomes an entry of the root directory.
pub mod Chain
pub mod Entry
pub mod Errors
pub mod Frame
pub mod Outcome
pub mod Ways
pub mod Path
pub mod Several
pub mod Represented
pub mod Stages
pub mod Stored
use tlibc.Base.{
  ℕ, zero, suc, ◌+◌, ◌-◌, ◌*◌, ◌/◌, ◌%◌, ◌^◌, Bool, true, false, not, ◌&&◌, ◌||◌, Option, none,
  some, List, [], ◌∷◌, ◌++◌, Bytes, Memory, memset, write_all, length, ltb, leb, ◌==◌,
  if◌then◌else◌, ◌>>=◌, bit_and,
}
use tlibc.Endian.{ByteOrder, w32, store_le}
use tlibc.Fields.{Item, raw, put_items}
use tlibc.Fat.Time.{fat32_date, fat32_time}
use tlibc.Fat.Layout.{
  attr, ntres, create_time_tenth, create_time, create_date, last_access_date, first_cluster_high,
  write_time, write_date, first_cluster_low, file_size, set_entry, entry_size, free_count,
  next_free, get_fsi, set_fsi,
}
use tlibc.Fat.Create.{u32, cdiv}
use tlibc.Fat.Mount.{Super, get_sector, super_init, write_entry, super_free}

-- What the calls on the file descriptor return: the size of `fstat`, whether `lseek` returns 0,
-- and the bytes that `read` delivers of those asked for. `none` is a result of -1, and `errno` the
-- error number that the calls leave behind.
pub record HostFile : Type 0 where
  pub stat_size : Option ℕ
  pub seek_is_zero : Bool
  pub read_up_to : ℕ → Option Bytes
  pub errno : ℕ

abbrev pub edquot : ℕ
edquot = 122

-- `copied`: the sector returned. `failed`: 0 returned, with the value of `FAT32Errno`. `trapped`: a failed
-- assertion, an access through NULL, a division by 0, or a FAT whose root chain does not end.
pub data Copyin : Type 0 where
  copied failed : ℕ → Memory → Copyin
  trapped : Copyin

-- The name up to the first '.', and from it on.
unfoldable pub stem : Bytes → Bytes
stem [] = []
stem (c ∷ name) = if c == 46 then [] else c ∷ stem name

unfoldable pub suffix : Bytes → Bytes
suffix [] = []
suffix (c ∷ name) = if c == 46 then c ∷ name else suffix name

-- The directory entry after it was zeroed. `_generic_load_le(entry->writeTime, time)` converts the
-- value of `time` as a store does, and assigns it.
unfoldable pub entry_items : Bytes → ℕ → ℕ → ℕ → List Item
entry_items name attributes first bytes =
    let date = fat32_date 1995 2 21 in
    let time = fat32_time 8 30 25 in
    raw 0 (stem name)
    ∷ raw 8 (suffix name)
    ∷ set_entry attr attributes
    ∷ set_entry ntres 0
    ∷ set_entry create_time_tenth 42
    ∷ set_entry create_time time
    ∷ set_entry create_date date
    ∷ set_entry last_access_date date
    ∷ set_entry first_cluster_high (first / 2 ^ 16)
    ∷ set_entry write_time time
    ∷ set_entry write_date date
    ∷ set_entry first_cluster_low (bit_and first 0xFFFF)
    ∷ set_entry file_size bytes
    ∷ []

unfoldable pub put_entry : ByteOrder → Memory → ℕ → Bytes → ℕ → ℕ → ℕ → Memory
put_entry o m at name attributes first bytes =
    put_items o (memset m at 0 entry_size) at (entry_items name attributes first bytes)

-- The loop over the `more` clusters behind the first, and the entry that ends the chain.
unfoldable pub mark_chain : ByteOrder → Super → ℕ → ℕ → Memory → Option Memory
mark_chain o sb zero next m = write_entry o m sb next 0xFFFFFFFF
mark_chain o sb (suc more) next m =
    write_entry o m sb next (u32 (1 + next)) >>= λ m. mark_chain o sb more (u32 (next + 1)) m

-- From the directory entry to the return of `ret`.
unfoldable pub finish : ByteOrder → Super → Bytes → ℕ → ℕ → ℕ → ℕ → ℕ → ℕ → Memory → Copyin
finish o sb name attributes bytes clusters next free ret m =
    let at = sb.root_dir + sb.next_root_entry * entry_size in
    let m1 = put_entry o m at name attributes next bytes in
    if (sb.root_dir == 0) || not (m at == 0)
    then trapped
    else elim (mark_chain o sb (clusters - 1) next m1) [
      | none ↦ trapped
      | some m2 ↦
          let after = next + (clusters - 1) in
          let m3 =
            put_items o m2 sb.fs_info
              (set_fsi free_count (free - clusters) ∷ set_fsi next_free (u32 (after + 1)) ∷ []) in
          if ltb free clusters then trapped else copied ret (super_free m3 sb)
    ]

-- The error path, `err`.
unfoldable pub give_up : ℕ → Memory → Super → Copyin
give_up number m sb = failed number (super_free m sb)

-- From the allocation of the clusters on.
unfoldable pub fill_clusters :
    ByteOrder → HostFile → Super → Bytes → ℕ → ℕ → ℕ → ℕ → Memory → Copyin
fill_clusters o file sb name attributes bytes next free m =
    let clusters = cdiv bytes sb.bytes_per_cluster in
    let per_cluster = sb.bytes_per_cluster / sb.bytes_per_sector in
    let ret = u32 (u32 ((next - 2) * per_cluster) + u32 (sb.num_reserved + sb.num_fat)) in
    let addr = get_sector sb.buf sb.num_sector sb.bytes_per_sector ret in
    let cleared = memset m addr 0 (u32 (clusters * sb.bytes_per_cluster)) in
    if leb next 2 || ((addr == 0) && not (bytes == 0))
    then trapped
    else if not file.seek_is_zero
    then give_up file.errno cleared sb
    else elim (file.read_up_to bytes) [
      | none ↦ give_up file.errno cleared sb
      | some bs ↦
          let filled = write_all cleared addr bs in
          if not (length bs == bytes)
          then give_up file.errno filled sb
          else finish o sb name attributes bytes clusters next free ret filled
    ]

-- From the mounted image on.
unfoldable pub copy_to : ByteOrder → HostFile → Super → Bytes → ℕ → ℕ → Memory → Copyin
copy_to o file sb name attributes bytes m =
    let next = get_fsi o m sb.fs_info next_free in
    let free = get_fsi o m sb.fs_info free_count in
    if (sb.bytes_per_sector == 0)
      || (sb.bytes_per_cluster == 0)
      || (sb.fs_info == 0)
      || ltb sb.max_cluster next
    then trapped
    else if ltb (u32 (sb.bytes_per_cluster * (sb.max_cluster - next))) bytes
    then give_up edquot m sb
    else if sb.next_root_entry == sb.num_root_entry
    then give_up edquot m sb
    else fill_clusters o file sb name attributes bytes next free m

unfoldable pub fat32_copyin : ℕ → ByteOrder → Memory → ℕ → HostFile → Bytes → ℕ → Copyin
fat32_copyin fuel o m buf file name attributes = elim file.stat_size [
  | none ↦ failed file.errno m
  | some st_size ↦ elim (super_init fuel o m buf) [
    | none ↦ trapped
    | some sb ↦ copy_to o file sb name attributes (u32 st_size) m
  ]
]

-- The image that a call leaves; `none`: it fails.
abbrev pub copied_memory : Copyin → Option Memory
copied_memory (copied ret m) = some m
copied_memory (failed errno m) = none
copied_memory trapped = none
