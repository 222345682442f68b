-- ===== src/Fat/Volume/Mount.antt =====
-- `FAT32SuperInit` of gpt/fat.c on a volume in use.
use native.Mathlib.Decide.{dec_lt}
use tlibc.Base.{
  ℕ, zero, suc, ◌+◌, ◌*◌, ◌/◌, ◌≤◌, ◌<◌, ◌≡◌, ◌≢◌, refl, ap, true, false, some, ◌==◌, Memory, arith,
  read_out-cong,
}
use tlibc.Endian.{ByteOrder, size}
use tlibc.Endian.Laws.{load_le-cong}
use tlibc.Fat.Layout.{
  Bpb, bpb_offset, bpb_width, bytes_per_sector, num_sector_per_cluster, num_reserved_sectors,
  num_alloc_table, num_sectors_32, fat_size_32, root_cluster, get_bpb,
}
use tlibc.Fat.Create.{u32}
use tlibc.Fat.Create.Read.{bpb_fits}
use tlibc.Fat.Mount.{
  Super, super_init, super_numbers, walk_root, scan_root, with_root_entries, table_address,
}
use tlibc.Fat.Volume.{IsLaidOut, IsVolume}

-- The first 512 bytes of an image settle what the BPB says.
pub get_bpb-cong :
    (o : ByteOrder) (m m' : Memory) (buf : ℕ) (f : Bpb)
    → ((q : ℕ) → buf ≤ q → q < buf + 512 → m' q ≡ m q)
    → get_bpb o m' buf f ≡ get_bpb o m buf f
get_bpb-cong o m m' buf f h =
    load_le-cong o (bpb_width f) m' m (buf + bpb_offset f) (buf + bpb_offset f) (
      read_out-cong m' m (buf + bpb_offset f) (size (bpb_width f))
        (λ q lo hi. h q (omega arith) (omega (arith, bpb_fits f))))

pub super_numbers-cong :
    (o : ByteOrder) (m m' : Memory) (buf : ℕ)
    → ((q : ℕ) → buf ≤ q → q < buf + 512 → m' q ≡ m q)
    → super_numbers o m' buf ≡ super_numbers o m buf
unfolding super_numbers
super_numbers-cong o m m' buf h =
    rw
      (
        get_bpb-cong o m m' buf bytes_per_sector h,
        get_bpb-cong o m m' buf num_sector_per_cluster h,
        get_bpb-cong o m m' buf num_reserved_sectors h,
        get_bpb-cong o m m' buf num_alloc_table h,
        get_bpb-cong o m m' buf num_sectors_32 h,
        get_bpb-cong o m m' buf fat_size_32 h,
        get_bpb-cong o m m' buf root_cluster h,
      )
      refl

scan_root-used :
    (left : ℕ) (m : Memory) (root i k : ℕ)
    → i ≤ k
    → k ≤ i + left
    → ((j : ℕ) → i ≤ j → j < k → m (root + j * 32) ≢ 0)
    → (k < i + left → m (root + k * 32) ≡ 0)
    → scan_root left m root i ≡ k
unfolding scan_root
scan_root-used zero m root i k lo hi used free = omega arith
scan_root-used (suc left) m root i k lo hi used free = elim (dec_lt i k) [
  | yes p ↦
      let ne : (m (root + i * 32) == 0) ≡ false = ground (arith, used i (omega arith) p) in
      rw ne (
        scan_root-used left m root (i + 1) k (omega arith) (omega arith)
          (λ j a b. used j (omega arith) b) (λ h. free (omega arith)))
  | no p ↦
      let e : i ≡ k = omega arith in
      let eq : (m (root + i * 32) == 0) ≡ true = rw e (ground (arith, free (omega arith))) in
      rw eq e
]

module _ (o : ByteOrder) (sb : Super) (n free : ℕ) (m : Memory) (l : IsLaidOut sb)
    (v : IsVolume o sb n free m) where
  root_entries : with_root_entries m (record sb { next_root_entry = 0; num_root_entry = 0 }) 1 ≡ sb
  unfolding with_root_entries
  root_entries =
      let e : u32 (1 * sb.bytes_per_cluster) / 32 ≡ sb.num_root_entry = omega (arith, l.entries) in
      let k : scan_root sb.num_root_entry m sb.root_dir 0 ≡ sb.next_root_entry =
        scan_root-used sb.num_root_entry m sb.root_dir 0 sb.next_root_entry (omega arith)
          (omega (arith, v.entry_hi)) (λ j _ h. v.used j h)
          (λ h. v.unused sb.next_root_entry (omega arith) (omega arith)) in
      rw (e, k) refl

  walk_end : (fuel : ℕ) → walk_root (suc (suc fuel)) o m (table_address sb 0) 0xFFFFFFFF 1 ≡ some 1
  unfolding walk_root
  walk_end fuel = refl

  -- `FAT32SuperInit` finds the numbers of the volume, and the first entry of the root directory that is not in use.
  pub super_init-volume : (fuel : ℕ) → super_init (suc (suc fuel)) o m sb.buf ≡ some sb
  unfolding super_init
  super_init-volume fuel =
      let d : (get_bpb o m sb.buf num_sector_per_cluster == 0) ≡ false =
        ground (arith, v.divisor) in
      rw (v.numbers, d, v.root_end, walk_end fuel) (ap some root_entries)
