-- ===== src/Fat/Copyin/Represented.antt =====
-- Which images of gpt/fat.c hold a volume: a fresh one, and one whose first part is as before.
use tlibc.Base.{
  ℕ, ◌+◌, ◌-◌, ◌*◌, ◌/◌, ◌≤◌, ◌<◌, ◌≡◌, inl, sym, ◌∙◌, [], Memory, All-map, read_out-cong, arith,
}
use tlibc.Endian.{ByteOrder, w32, size, load_le}
use tlibc.Endian.Laws.{load_le-cong}
use tlibc.Fat.Layout.{num_sector_per_cluster}
use tlibc.Fat.Volume.Mount.{get_bpb-cong, super_numbers-cong}
use tlibc.Fat.Create.{FatConfig, fat_sectors, entries_per_sector, image}
use tlibc.Fat.Create.Config.{IsUsable}
use tlibc.Fat.Mount.Fresh.{fresh_super}
use tlibc.Fat.Volume.Fresh.{fresh-IsLaidOut, fresh-IsVolume}
use tlibc.Fat.Volume.{InFront}
use tlibc.Fat.Volume.Files.{below_root, slot_same, clusters_same, IsStored-same}
use tlibc.Fat.Copyin.Several.{Volume, Represents}

-- A fresh volume.
abbrev pub fresh_volume : FatConfig → ℕ → Volume
fresh_volume c buf = record {
  super = fresh_super c buf;
  next = 3;
  free = fat_sectors c * 2 * entries_per_sector c - 3;
  files = [];
}

pub image-Represents :
    (o : ByteOrder) (c : FatConfig) (buf : ℕ) (m : Memory)
    → IsUsable c
    → 3 ≤ (c.n_sector - 8 - fat_sectors c * 2) / c.cluster_size
    → Represents o (fresh_volume c buf) (image o c buf m)
image-Represents o c buf m u few = record {
  laid_out = fresh-IsLaidOut c buf u;
  holds = record { volume = fresh-IsVolume c buf u o m few; stored = tt };
}

-- What leaves the first part of the volume alone does not change it.
pub Represents-same :
    (o : ByteOrder) (volume : Volume) (m m' : Memory)
    → ((q : ℕ) → volume.super.buf ≤ q → InFront volume.super volume.next q → m' q ≡ m q)
    → Represents o volume m
    → Represents o volume m'
unfolding size
Represents-same o volume m m' same h =
    let sb = volume.super in
    let l = h.laid_out in
    let v = h.holds.volume in
    let boot : (q : ℕ) → sb.buf ≤ q → q < sb.buf + 512 → m' q ≡ m q =
      λ q lo hi. same q lo (inl (omega (arith, l.sector_lo))) in
    record {
      laid_out = l;
      holds = record {
        volume = record {
          numbers = super_numbers-cong o m m' sb.buf boot ∙ v.numbers;
          divisor =
              λ e. v.divisor (sym (get_bpb-cong o m m' sb.buf num_sector_per_cluster boot) ∙ e);
          root_end =
              slot_same o sb volume.next m m' l v.lo v.hi same 0 sb.root_cluster (omega arith)
                (omega (arith, l.root_is_2, v.lo))
              ∙ v.root_end;
          next = info 492 (omega arith) ∙ v.next;
          count = info 488 (omega arith) ∙ v.count;
          free_hi = v.free_hi;
          lo = v.lo;
          hi = v.hi;
          enough = v.enough;
          used = λ i hi e. v.used i hi (sym (entry i (omega (arith, v.entry_hi))) ∙ e);
          unused = λ i lo hi. entry i hi ∙ v.unused i lo hi;
          entry_hi = v.entry_hi;
        };
        stored =
            All-map
              (λ f s.
                IsStored-same o sb volume.next m m' l v.lo v.hi same f
                  (omega (arith, v.entry_hi, l.entries)) s)
              volume.files h.holds.stored;
      };
    }
  where
    info :
        (i : ℕ)
        → i + 4 ≤ 512
        → load_le o w32 m' (volume.super.fs_info + i) ≡ load_le o w32 m (volume.super.fs_info + i)
    info i fit = load_le-cong o w32 m' m (volume.super.fs_info + i) (volume.super.fs_info + i) (
        read_out-cong m' m (volume.super.fs_info + i) 4 (λ q lo hi.
          same q (omega (arith, h.laid_out.info))
            (inl (omega (arith, h.laid_out.info, h.laid_out.sector_lo)))))

    entry :
        (i : ℕ)
        → i < volume.super.num_root_entry
        → m' (volume.super.root_dir + i * 32) ≡ m (volume.super.root_dir + i * 32)
    entry i hi =
        clusters_same o volume.super volume.next m m' h.laid_out h.holds.volume.lo h.holds.volume.hi
          same (volume.super.root_dir + i * 32) (omega arith)
          (omega (arith, h.laid_out.entries, below_root volume.super volume.next h.holds.volume.lo))

-- In particular what is written in front of the volume.
pub Represents-above :
    (o : ByteOrder) (volume : Volume) (m m' : Memory)
    → ((q : ℕ) → volume.super.buf ≤ q → m' q ≡ m q)
    → Represents o volume m
    → Represents o volume m'
Represents-above o volume m m' same h = Represents-same o volume m m' (λ q lo _. same q lo) h
