-- ===== src/Fat/Copyin/Frame.antt =====
-- The memory that `FAT32Copyin` leaves: what is kept, and what stands in the new places.
use tlibc.Base.{
  ℕ, ◌+◌, ◌-◌, ◌*◌, ◌%◌, ◌^◌, ◌≤◌, ◌<◌, ◌≡◌, ◌⊎◌, inl, inr, ◌∙◌, some, [], ◌∷◌, Bytes, Memory,
  memset, length, Holds, Holds-cong, write_all-Holds, write_all-outside, memset-outside,
  read_out-cong, arith,
}
use tlibc.Endian.{ByteOrder, w32, size, load_le}
use tlibc.Endian.Laws.{load_le-cong}
use tlibc.Fields.{put_items, lookup_num}
use tlibc.Fields.Laws.{put_items-lookup_num}
use tlibc.Fat.Layout.{free_count, next_free, FsInfo, fsi_offset, set_fsi, get_fsi}
use tlibc.Fat.Create.{u32, cdiv}
use tlibc.Fat.Create.Image.{mul_mono}
use tlibc.Fat.Mount.{Super}
use tlibc.Fat.Mount.Tables.{slot}
use tlibc.Fat.Copyin.{put_entry, mark_chain}
use tlibc.Fat.Copyin.Chain.{IsChained}
use tlibc.Fat.Copyin.Stages.{
  IsName, put_entry-outside, mark_chain-outside, fsi-outside, super_free-outside,
}
use tlibc.Fat.Copyin.Path.{Fits, entry_address, filled, ended, count_bounds}
use tlibc.Fat.Volume.{data_address, IsLaidOut, IsVolume}
use tlibc.Fat.Volume.Files.{Keeps}

module _ (o : ByteOrder) (sb : Super) (n free : ℕ) (m : Memory) (l : IsLaidOut sb)
    (v : IsVolume o sb n free m) (name bs : Bytes) (attributes : ℕ) (fits : Fits sb n (length bs))
    (known : IsName name) where
  abbrev c : ℕ
  c = cdiv (length bs) sb.bytes_per_cluster

  -- The new entry lies in the cluster of the root directory, in front of all data.
  pub entry_in_root : entry_address sb + 32 ≤ sb.root_dir + sb.bytes_per_cluster
  entry_in_root = omega (arith, l.entries, fits.entry)

  pub data_behind : sb.root_dir + sb.bytes_per_cluster ≤ data_address sb n
  data_behind = omega (arith, mul_mono sb.bytes_per_cluster 1 (n - 2) (omega (arith, v.lo)), turn)
    where
      turn : sb.bytes_per_cluster * (n - 2) ≡ (n - 2) * sb.bytes_per_cluster
      turn = grind arith

  filled-outside : (q : ℕ) → q < data_address sb n → filled sb n bs m q ≡ m q
  filled-outside q h =
      write_all-outside (memset m (data_address sb n) 0 (u32 (c * sb.bytes_per_cluster)))
        (data_address sb n) bs q (inl h)
      ∙ memset-outside m (data_address sb n) 0 (u32 (c * sb.bytes_per_cluster)) q (inl h)

  pub entry_free : filled sb n bs m (entry_address sb) ≡ 0
  entry_free =
      filled-outside (entry_address sb) (omega (arith, entry_in_root, data_behind))
      ∙ v.unused sb.next_root_entry (omega arith) fits.entry

  abbrev pub entered : Memory
  entered = put_entry o (filled sb n bs m) (entry_address sb) name attributes n (length bs)

  entered-outside :
      (q : ℕ)
      → q < data_address sb n
      → (q < entry_address sb) ⊎ (entry_address sb + 32 ≤ q)
      → entered q ≡ m q
  entered-outside q h out =
      put_entry-outside o (filled sb n bs m) (entry_address sb) name attributes n (length bs) known
        q out
      ∙ filled-outside q h

  entered-filled : (q : ℕ) → data_address sb n ≤ q → entered q ≡ filled sb n bs m q
  entered-filled q h =
      put_entry-outside o (filled sb n bs m) (entry_address sb) name attributes n (length bs) known
        q (inr (omega (arith, entry_in_root, data_behind)))

  pub chain_room : n + (c - 1) < sb.max_cluster
  chain_room =
      chain_end c (count_bounds o sb n free m l v (length bs) fits).0
        (count_bounds o sb n free m l v (length bs) fits).1
    where
      chain_end : (c : ℕ) → 1 ≤ c → c ≤ sb.max_cluster - n → n + (c - 1) < sb.max_cluster
      chain_end c h k = omega arith

  module _ (m2 : Memory) (marked : mark_chain o sb (c - 1) n entered ≡ some m2)
      (chained : IsChained o sb l.room n (c - 1) entered m2) where
    abbrev final : Memory
    final = ended o sb n free c m2

    final-outside :
        (q : ℕ)
        → (q < sb.buf + sb.bytes_per_sector) ⊎ (sb.buf + sb.bytes_per_sector * 8 ≤ q)
        → final q ≡ m2 q
    final-outside q out =
        super_free-outside sb
          (put_items o m2 sb.fs_info
            (set_fsi free_count (free - c) ∷ set_fsi next_free (u32 (n + (c - 1) + 1)) ∷ []))
          q l (ground arith)
        ∙ fsi-outside o m2 sb.fs_info (free - c) (u32 (n + (c - 1) + 1)) q
            (ground (arith, l.info, l.sector_lo))

    chain-outside :
        (q : ℕ) → (q < sb.buf + sb.bytes_per_sector * 8) ⊎ (sb.root_dir ≤ q) → m2 q ≡ entered q
    chain-outside q out =
        mark_chain-outside o sb l.room (c - 1) n entered m2 q (omega (arith, l.clusters))
          (omega (arith, v.lo)) chain_room marked
          (λ t d ht hd. apart_lem (l.tables t d (omega (arith, l.two_tables)) hd))
      where
        apart_lem :
            {a : ℕ}
            → (sb.buf + sb.bytes_per_sector * 8 ≤ a) × (a + 4 ≤ sb.root_dir)
            → (q < a) ⊎ (a + 4 ≤ q)
        apart_lem h = ground arith

    -- Outside of sectors 1 to 7 and of the tables, nothing is changed after the entry.
    pub final-entered :
        (q : ℕ) → (q < sb.buf + sb.bytes_per_sector) ⊎ (sb.root_dir ≤ q) → final q ≡ entered q
    final-entered q out =
        final-outside q (ground (arith, l.root_lo)) ∙ chain-outside q (ground arith)

    pub slot-final :
        (t d : ℕ)
        → t < 2
        → d < sb.max_cluster
        → load_le o w32 final (slot sb t d) ≡ load_le o w32 m2 (slot sb t d)
    unfolding size
    slot-final t d ht hd = load_le-cong o w32 final m2 (slot sb t d) (slot sb t d) (
        read_out-cong final m2 (slot sb t d) 4
          (λ q lo hi. final-outside q (inr (omega (arith, (l.tables t d ht hd).0)))))

    slot-entered :
        (t d : ℕ)
        → t < 2
        → d < sb.max_cluster
        → load_le o w32 entered (slot sb t d) ≡ load_le o w32 m (slot sb t d)
    unfolding size
    slot-entered t d ht hd = load_le-cong o w32 entered m (slot sb t d) (slot sb t d) (
        read_out-cong entered m (slot sb t d) 4 (λ q lo hi.
          entered-outside q (omega (arith, data_behind, (l.tables t d ht hd).1))
            (inl (omega (arith, (l.tables t d ht hd).1)))))

    pub final-Keeps : Keeps o sb (entry_address sb) n m final
    final-Keeps = record {
      boot = λ q lo hi.
          final-entered q (inl (omega (arith, l.sector_lo)))
          ∙ entered-outside q (omega (arith, l.root_lo, l.sector_lo, data_behind))
              (inl (omega (arith, l.root_lo, l.sector_lo)));
      clusters = λ q lo hi out. final-entered q (inr lo) ∙ entered-outside q hi out;
      slots = λ t d ht hd.
          slot-final t d ht (omega (arith, v.hi))
          ∙ chained.others t d (omega (arith, v.hi)) (inl hd)
          ∙ slot-entered t d ht (omega (arith, v.hi));
    }

    pub final-Holds : Holds final (data_address sb n) bs
    final-Holds =
        Holds-cong (filled sb n bs m) final (data_address sb n) bs
          (write_all-Holds (memset m (data_address sb n) 0 (u32 (c * sb.bytes_per_cluster)))
            (data_address sb n) bs)
          (λ q lo hi. final-entered q (inr (omega (arith, data_behind))) ∙ entered-filled q lo)

    -- The entries behind the new one in the root directory stay unused.
    pub final-root :
        (q : ℕ) → entry_address sb + 32 ≤ q → q < sb.root_dir + sb.bytes_per_cluster → final q ≡ m q
    final-root q lo hi =
        final-entered q (inr (omega arith))
        ∙ entered-outside q (omega (arith, data_behind)) (inr lo)

    pub final-fsi :
        (f : FsInfo) (x : ℕ)
        → fsi_offset f + 4 ≤ 512
        → lookup_num
            (fsi_offset f)
            w32
            (set_fsi free_count (free - c) ∷ set_fsi next_free (u32 (n + (c - 1) + 1)) ∷ [])
          ≡ some x
        → get_fsi o final sb.fs_info f ≡ x % 2 ^ 32
    unfolding size
    final-fsi f x fit e =
        let items =
          set_fsi free_count (free - c) ∷ set_fsi next_free (u32 (n + (c - 1) + 1)) ∷ [] in
        let m3 = put_items o m2 sb.fs_info items in
        let at = sb.fs_info + fsi_offset f in
        load_le-cong o w32 final m3 at at (
          read_out-cong final m3 at 4
            (λ q lo hi. super_free-outside sb m3 q l (inl (omega (arith, l.info, l.sector_lo)))))
        ∙ put_items-lookup_num o m2 sb.fs_info (fsi_offset f) w32 x items e
