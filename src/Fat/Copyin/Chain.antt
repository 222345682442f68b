-- ===== src/Fat/Copyin/Chain.antt =====
-- The chain that `FAT32Copyin` marks in the FAT of a mounted image.
use tlibc.Base.{ℕ, zero, suc, ◌+◌, ◌^◌, ◌≤◌, ◌<◌, ◌≡◌, ◌⊎◌, inl, refl, ◌∙◌, some, Memory, arith}
use native.Mathlib.Decide.{dec_lt}
use tlibc.Endian.{ByteOrder, w32, load_le}
use tlibc.Fat.Create.{u32}
use tlibc.Fat.Mount.{Super, write_tables}
use tlibc.Fat.Mount.Tables.{
  slot, HasRoom, write_tables-other, write_tables_self, write_entry-tables,
}
use tlibc.Fat.Copyin.{mark_chain}

module _ (o : ByteOrder) (sb : Super) (room : HasRoom sb) where
  -- What marking a chain does to the tables: each of the first `more` clusters from `next` on is
  -- followed by the one behind it, the last ends the chain, and the others keep their entries.
  pub record IsChained (next more : ℕ) (m m' : Memory) : Type 0 where
    pub links :
        (j d : ℕ)
        → j < sb.num_entry_table
        → next ≤ d
        → d < next + more
        → load_le o w32 m' (slot sb j d) ≡ d + 1
    pub end :
        (j : ℕ) → j < sb.num_entry_table → load_le o w32 m' (slot sb j (next + more)) ≡ 0xFFFFFFFF
    pub others :
        (j d : ℕ)
        → d < sb.max_cluster
        → (d < next) ⊎ (next + more < d)
        → load_le o w32 m' (slot sb j d) ≡ load_le o w32 m (slot sb j d)

  pub chain_step :
      (more next : ℕ) (m : Memory)
      → sb.max_cluster < 2 ^ 32
      → 1 ≤ next
      → next < sb.max_cluster
      → mark_chain o sb (suc more) next m
        ≡ mark_chain o sb more (next + 1) (write_tables o sb sb.num_entry_table 0 next (next + 1) m)
  unfolding mark_chain
  chain_step more next m small pos fit =
      let e : u32 (1 + next) ≡ next + 1 = omega arith in
      let e' : u32 (next + 1) ≡ next + 1 = omega arith in
      rw (e, e', write_entry-tables o sb room m next (next + 1) pos fit) refl

  -- The loop of `FAT32Copyin` that marks the clusters of a file: on clusters that the volume has,
  -- no assertion fails, and afterwards the chain stands in every table.
  pub mark_chain-IsChained :
      (more next : ℕ) (m : Memory)
      → sb.max_cluster < 2 ^ 32
      → 1 ≤ next
      → next + more < sb.max_cluster
      → (m' : Memory) × (mark_chain o sb more next m ≡ some m') × IsChained next more m m'
  unfolding mark_chain
  mark_chain-IsChained zero next m small pos fit = (
    write_tables o sb sb.num_entry_table 0 next 0xFFFFFFFF m,
    write_entry-tables o sb room m next 0xFFFFFFFF pos (omega arith),
    record {
      links = λ j d _ lo hi. absurd (omega arith);
      end = λ j hj.
          at_zero j
          ∙ write_tables_self o sb room sb.num_entry_table 0 next 0xFFFFFFFF m j (omega arith)
              (omega arith) (omega arith);
      others = λ j d hd h.
          write_tables-other o sb room sb.num_entry_table 0 next 0xFFFFFFFF m j d (omega arith) hd
            (λ e. omega arith);
    },
  )
    where
      at_zero :
          (j : ℕ)
          → load_le o w32
              (write_tables o sb sb.num_entry_table 0 next 0xFFFFFFFF m)
              (slot sb j (next + 0))
            ≡ load_le o w32
                (write_tables o sb sb.num_entry_table 0 next 0xFFFFFFFF m)
                (slot sb j next)
      at_zero j = let e : next + 0 ≡ next = omega arith in rw e refl
  mark_chain-IsChained (suc more) next m small pos fit =
      let m1 = write_tables o sb sb.num_entry_table 0 next (next + 1) m in
      let (m', e, chained) =
        mark_chain-IsChained more (next + 1) m1 small (omega arith) (omega arith) in
      (
        m',
        chain_step more next m small pos (omega arith) ∙ e,
        record {
          links = λ j d hj lo hi. elim (dec_lt next d) [
            | yes p ↦ chained.links j d hj (omega arith) (omega arith)
            | no p ↦
                first m' j d hj (omega arith) (chained.others j d (omega arith) (inl (omega arith)))
          ];
          end = λ j hj.
              let e : next + suc more ≡ next + 1 + more = omega arith in rw e (chained.end j hj);
          others = λ j d hd h.
              chained.others j d hd (omega arith)
              ∙ write_tables-other o sb room sb.num_entry_table 0 next (next + 1) m j d
                  (omega arith) hd (λ e. omega arith);
        },
      )
    where
      first :
          (m' : Memory) (j d : ℕ)
          → j < sb.num_entry_table
          → d ≡ next
          → load_le o w32 m' (slot sb j d)
            ≡ load_le o w32 (write_tables o sb sb.num_entry_table 0 next (next + 1) m) (slot sb j d)
          → load_le o w32 m' (slot sb j d) ≡ d + 1
      first m' j d hj e k =
          k
          ∙ rw e (
              write_tables_self o sb room sb.num_entry_table 0 next (next + 1) m j (omega arith)
                (omega arith) (omega arith)
              ∙ omega arith)
