-- ===== src/Fat/Mount/Tables.antt =====
-- The FAT of a mounted image, `FAT32SuperWriteEntry`: an entry that is written is read back from
-- every table, and the others stay.
use native.Mathlib.Decide.{dec_lt}
use tlibc.Base.{
  ℕ, zero, suc, ◌+◌, ◌*◌, ◌/◌, ◌%◌, ◌^◌, ◌≤◌, ◌<◌, ◌≡◌, ◌≢◌, ◌⊎◌, inl, inr, refl, ◌∙◌, none, some,
  Memory, arith, read_out-cong,
}
use tlibc.Endian.{ByteOrder, w32, load_le, store_le, size}
use tlibc.Endian.Laws.{load_le-store_le, load_le-cong, store_le-outside}
use tlibc.Fat.Create.Image.{mul_mono}
use tlibc.Fat.Mount.{Super, table_address, write_tables, write_entry}

-- The address of the entry of a cluster in table `t`.
abbrev pub slot : Super → ℕ → ℕ → ℕ
slot sb t cluster = table_address sb t + cluster * 4

-- Each table has room for the entry of every cluster.
abbrev pub HasRoom : Super → Type 0
HasRoom sb = sb.max_cluster * 4 ≤ sb.bytes_per_fat / 4 * 4

pub write_tables-outside :
    (o : ByteOrder) (sb : Super) (left i c v : ℕ) (m : Memory) (q : ℕ)
    → ((t : ℕ) → i ≤ t → t < i + left → (q < slot sb t c) ⊎ (slot sb t c + 4 ≤ q))
    → write_tables o sb left i c v m q ≡ m q
unfolding write_tables
write_tables-outside o sb zero i c v m q h = refl
write_tables-outside o sb (suc left) i c v m q h =
    write_tables-outside o sb left (i + 1) c v (store_le o w32 m (slot sb i c) v) q
      (λ t lo hi. h t (omega arith) (omega arith))
    ∙ store_le-outside o m (slot sb i c) v q (h i (omega arith) (omega arith))

-- Entries of different tables, or of different clusters, do not overlap.
slots_apart :
    (r i j c d max : ℕ)
    → max * 4 ≤ r
    → c < max
    → d < max
    → (i < j) ⊎ (j < i) ⊎ (c < d) ⊎ (d < c)
    → (i * r + c * 4 + 4 ≤ j * r + d * 4) ⊎ (j * r + d * 4 + 4 ≤ i * r + c * 4)
slots_apart r i j c d max room hc hd h =
    ground (arith, mul_mono r (i + 1) j, mul_mono r (j + 1) i, mul_mono r i j, mul_mono r j i)

-- An address in the entry of `d` in table `j` is in no entry of `c` from table `i` on, unless it
-- is that entry.
slots-outside :
    (sb : Super) (t j c d q : ℕ)
    → HasRoom sb
    → c < sb.max_cluster
    → d < sb.max_cluster
    → (t < j) ⊎ (j < t) ⊎ (c < d) ⊎ (d < c)
    → slot sb j d ≤ q
    → q < slot sb j d + 4
    → (q < slot sb t c) ⊎ (slot sb t c + 4 ≤ q)
slots-outside sb t j c d q room hc hd h lo hi =
    from_base (slots_apart (sb.bytes_per_fat / 4 * 4) t j c d sb.max_cluster room hc hd h)
  where
    from_base :
        (t * (sb.bytes_per_fat / 4 * 4) + c * 4 + 4 ≤ j * (sb.bytes_per_fat / 4 * 4) + d * 4)
          ⊎ (j * (sb.bytes_per_fat / 4 * 4) + d * 4 + 4 ≤ t * (sb.bytes_per_fat / 4 * 4) + c * 4)
        → (q < slot sb t c) ⊎ (slot sb t c + 4 ≤ q)
    from_base (inl e) = inr (omega arith)
    from_base (inr e) = inl (omega arith)

module _ (o : ByteOrder) (sb : Super) (room : HasRoom sb) where
  -- Writing the entry of one cluster leaves those of the others as they are.
  pub write_tables-other :
      (left i c v : ℕ) (m : Memory) (j d : ℕ)
      → c < sb.max_cluster
      → d < sb.max_cluster
      → c ≢ d
      → load_le o w32 (write_tables o sb left i c v m) (slot sb j d) ≡ load_le o w32 m (slot sb j d)
  unfolding size
  write_tables-other left i c v m j d hc hd ne =
      load_le-cong o w32 (write_tables o sb left i c v m) m (slot sb j d) (slot sb j d) (
        read_out-cong (write_tables o sb left i c v m) m (slot sb j d) 4 (λ q lo hi.
          write_tables-outside o sb left i c v m q
            (λ t _ _. slots-outside sb t j c d q room hc hd (apart_lem ne) lo hi)))
    where
      apart_lem : {t : ℕ} → c ≢ d → (t < j) ⊎ (j < t) ⊎ (c < d) ⊎ (d < c)
      apart_lem ne = ground arith

  -- The entry that is written is read back from every table.
  pub write_tables_self :
      (left i c v : ℕ) (m : Memory) (j : ℕ)
      → c < sb.max_cluster
      → i ≤ j
      → j < i + left
      → load_le o w32 (write_tables o sb left i c v m) (slot sb j c) ≡ v % 2 ^ 32
  unfolding write_tables size
  write_tables_self zero i c v m j hc lo hi = absurd (omega arith)
  write_tables_self (suc left) i c v m j hc lo hi =
      let m1 = store_le o w32 m (slot sb i c) v in
      elim (dec_lt i j) [
        | yes p ↦ write_tables_self left (i + 1) c v m1 j hc (omega arith) (omega arith)
        | no p ↦
            let e : j ≡ i = omega arith in
            rw e (
              load_le-cong o w32 (write_tables o sb left (i + 1) c v m1) m1 (slot sb i c)
                (slot sb i c)
                (read_out-cong (write_tables o sb left (i + 1) c v m1) m1 (slot sb i c) 4
                  (λ q lo hi. write_tables-outside o sb left (i + 1) c v m1 q (λ t after _.
                    slots-outside sb t i c c q room hc hc (inr (inl (omega arith))) lo hi)))
              ∙ load_le-store_le o o w32 m (slot sb i c) v)
      ]

  pub write_entry-tables :
      (m : Memory) (c v : ℕ)
      → 1 ≤ c
      → c < sb.max_cluster
      → write_entry o m sb c v ≡ some (write_tables o sb sb.num_entry_table 0 c v m)
  unfolding write_entry
  write_entry-tables m c v lo hi = ground arith

  -- A cluster that the volume does not have makes the assertion fail.
  pub write_entry-none : (m : Memory) (c v : ℕ) → sb.max_cluster ≤ c → write_entry o m sb c v ≡ none
  unfolding write_entry
  write_entry-none m c v h = ground arith
