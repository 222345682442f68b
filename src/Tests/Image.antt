-- ===== src/Tests/Image.antt =====
-- gpt/endian.h and gpt/fat.c at concrete inputs.
use tlibc.Base.{
  ◌+◌, ◌*◌, ◌≡◌, ◌≤◌, ◌↔◌, inl, inr, refl, false, true, some, Memory, arith, write_all,
}
use tlibc.Endian.{little, big, w32, w64, size, store_le, load_le, le_bytes}
use tlibc.Endian.Laws.{load_le-store_le, store_le-le_bytes}
use tlibc.Fat.Layout.{free_count, get_fsi}
use tlibc.Fat.Create.{FatConfig, create_fat32, refused, image, clusters_on_disk}
use tlibc.Fat.Create.Config.{IsAccepted, IsUsable, create_fat32-refused_iff}
use tlibc.Fat.Create.Image.{image-outside}
use tlibc.Fat.Create.Free.{free_count-image}
use tlibc.Fat.Mount.{super_init}
use tlibc.Fat.Mount.Fresh.{fresh_super, super_init-image}

abbrev empty : Memory
empty q = 0

-- Written on a big-endian host, read on a little-endian one.
load_le-store_le_example :
    load_le little w64 (store_le big w64 empty 40 0x0102030405060708) 40 ≡ 0x0102030405060708
unfolding size
load_le-store_le_example = load_le-store_le big little w64 empty 40 0x0102030405060708

store_le-le_bytes_example :
    store_le big w32 empty 8 0xAABBCCDD ≡ write_all empty 8 (le_bytes 4 0xAABBCCDD)
unfolding size
store_le-le_bytes_example = store_le-le_bytes big w32 empty 8 0xAABBCCDD

-- 64 sectors of 512 bytes, one to a cluster
abbrev small_disk : FatConfig
small_disk = record {
  n_sector = 64;
  bytes_per_sector = 512;
  cluster_size = 1;
  write_random_data = false;
  is_fixed = true;
}

small_disk-IsUsable : IsUsable small_disk
small_disk-IsUsable = record {
  accepted = record { sectors = omega arith; sector_size = inl refl; cluster = inl refl };
  clusters = omega arith;
  small = omega arith;
}

create_fat32-refused_iff_example :
    (create_fat32 little empty 4096 small_disk ≡ refused) ↔ (¬ IsAccepted small_disk)
create_fat32-refused_iff_example = create_fat32-refused_iff little empty 4096 small_disk

image-outside_example : image little small_disk 4096 empty (4096 + 512 * 64) ≡ 0
image-outside_example =
    image-outside little small_disk 4096 small_disk-IsUsable empty (4096 + 512 * 64)
      (inr (omega arith))

super_init-image_example :
    super_init 1 big (image big small_disk 4096 empty) 4096 ≡ some (fresh_super small_disk 4096)
super_init-image_example = super_init-image big small_disk 4096 small_disk-IsUsable empty 0

free_count-image_example :
    (get_fsi little (image little small_disk 4096 empty) (4096 + 512 * 1) free_count ≡ 253)
    × (clusters_on_disk small_disk ≤ 253)
free_count-image_example = free_count-image little small_disk 4096 small_disk-IsUsable empty
