-- ===== src/Fat/Volume/Files.antt =====
-- The files that a mounted volume of gpt/fat.c holds, and when a change of its memory keeps them.
use tlibc.Base.{
  ℕ, ◌+◌, ◌-◌, ◌*◌, ◌≤◌, ◌<◌, ◌≡◌, ◌⊎◌, inl, inr, ◌∙◌, Bytes, Memory, length, Holds, Holds-cong,
  read_out, read_out-cong, arith, take, length-take_le,
}
use tlibc.Endian.{ByteOrder, w8, w16, w32, size, load_le}
use tlibc.Endian.Laws.{load_le-cong}
use tlibc.Fat.Create.{cdiv}
use tlibc.Fat.Create.Image.{mul_mono}
use tlibc.Fat.Mount.{Super}
use tlibc.Fat.Mount.Tables.{slot}
use tlibc.Fat.Copyin.{stem, suffix}
use tlibc.Fat.Copyin.Entry.{IsEntry}
use tlibc.Fat.Volume.{IsLaidOut, data_address, InFront}

-- A file: the number of its directory entry, its first cluster, its name, attributes and bytes.
pub record StoredFile : Type 0 where
  pub entry : ℕ
  pub first : ℕ
  pub name : Bytes
  pub attributes : ℕ
  pub contents : Bytes

-- How many clusters the file takes.
abbrev pub extent : Super → StoredFile → ℕ
extent sb f = cdiv (length f.contents) sb.bytes_per_cluster

-- The volume holds the file below cluster `n`: a directory entry in use describes it, its clusters
-- are chained one behind the other in both tables, and they hold its bytes.
pub record IsStored (o : ByteOrder) (sb : Super) (n : ℕ) (m : Memory) (f : StoredFile)
    : Type 0 where
  pub entry_hi : f.entry < sb.next_root_entry
  pub first_lo : 3 ≤ f.first
  pub first_hi : f.first + extent sb f ≤ n
  pub held : length f.contents ≤ extent sb f * sb.bytes_per_cluster
  pub stem_short : length (stem f.name) ≤ 8
  pub described :
      IsEntry o (sb.root_dir + f.entry * 32) f.name f.attributes f.first (length f.contents) m
  pub bytes : Holds m (sb.root_dir + (f.first - 2) * sb.bytes_per_cluster) f.contents
  pub links :
      (t d : ℕ)
      → t < 2
      → f.first ≤ d
      → d + 1 < f.first + extent sb f
      → load_le o w32 m (slot sb t d) ≡ d + 1
  pub ends :
      (t d : ℕ) → t < 2 → d + 1 ≡ f.first + extent sb f → load_le o w32 m (slot sb t d) ≡ 0xFFFFFFFF

-- What a change of the memory leaves alone that fills the root entry at `at` and the clusters from
-- `n` on: the BPB, the clusters below `n` but for that entry, and the table entries below `n`.
pub record Keeps (o : ByteOrder) (sb : Super) (at n : ℕ) (m m' : Memory) : Type 0 where
  pub boot : (q : ℕ) → sb.buf ≤ q → q < sb.buf + 512 → m' q ≡ m q
  pub clusters :
      (q : ℕ)
      → sb.root_dir ≤ q
      → q < sb.root_dir + (n - 2) * sb.bytes_per_cluster
      → (q < at) ⊎ (at + 32 ≤ q)
      → m' q ≡ m q
  pub slots :
      (t d : ℕ) → t < 2 → d < n → load_le o w32 m' (slot sb t d) ≡ load_le o w32 m (slot sb t d)

pub IsEntry-kept :
    (o : ByteOrder) (at : ℕ) (name : Bytes) (attributes first bytes : ℕ) (m m' : Memory)
    → length (stem name) ≤ 8
    → ((q : ℕ) → at ≤ q → q < at + 32 → m' q ≡ m q)
    → IsEntry o at name attributes first bytes m
    → IsEntry o at name attributes first bytes m'
unfolding size
IsEntry-kept o at name attributes first bytes m m' short same e = record {
  named = Holds-cong m m' at (stem name) e.named (λ q lo hi. same q lo (omega arith));
  extension =
      Holds-cong m m' (at + 8) (take 3 (suffix name)) e.extension
        (λ q lo hi. same q (omega arith) (omega (arith, length-take_le 3 (suffix name))));
  attribute = load_le-cong o w8 m' m (at + 11) (at + 11) (read 11 1 (omega arith)) ∙ e.attribute;
  high = load_le-cong o w16 m' m (at + 20) (at + 20) (read 20 2 (omega arith)) ∙ e.high;
  low = load_le-cong o w16 m' m (at + 26) (at + 26) (read 26 2 (omega arith)) ∙ e.low;
  sized = load_le-cong o w32 m' m (at + 28) (at + 28) (read 28 4 (omega arith)) ∙ e.sized;
  created = (word 14 (omega arith) ∙ (e.created).0, word 16 (omega arith) ∙ (e.created).1);
  accessed = word 18 (omega arith) ∙ e.accessed;
  written = (word 22 (omega arith) ∙ (e.written).0, word 24 (omega arith) ∙ (e.written).1);
}
  where
    read : (i k : ℕ) → i + k ≤ 32 → read_out m' (at + i) k ≡ read_out m (at + i) k
    read i k h = read_out-cong m' m (at + i) k (λ q lo hi. same q (omega arith) (omega arith))

    word : (i : ℕ) → i + 2 ≤ 32 → load_le o w16 m' (at + i) ≡ load_le o w16 m (at + i)
    word i h = load_le-cong o w16 m' m (at + i) (at + i) (read i 2 h)

pub below_root :
    (sb : Super) (n : ℕ) → 3 ≤ n → sb.bytes_per_cluster ≤ (n - 2) * sb.bytes_per_cluster
below_root sb n lo = omega (arith, mul_mono sb.bytes_per_cluster 1 (n - 2) (omega arith), turn)
  where
    turn : sb.bytes_per_cluster * (n - 2) ≡ (n - 2) * sb.bytes_per_cluster
    turn = grind arith

behind_root :
    (sb : Super) (f : StoredFile)
    → 3 ≤ f.first
    → sb.bytes_per_cluster ≤ (f.first - 2) * sb.bytes_per_cluster
behind_root sb f lo = below_root sb f.first lo

within_clusters :
    (sb : Super) (n : ℕ) (f : StoredFile)
    → 3 ≤ f.first
    → f.first + extent sb f ≤ n
    → length f.contents ≤ extent sb f * sb.bytes_per_cluster
    → (f.first - 2) * sb.bytes_per_cluster + length f.contents ≤ (n - 2) * sb.bytes_per_cluster
within_clusters sb n f lo hi held = by (extent sb f) hi held lo
  where
    by :
        (c : ℕ)
        → f.first + c ≤ n
        → length f.contents ≤ c * sb.bytes_per_cluster
        → 3 ≤ f.first
        → (f.first - 2) * sb.bytes_per_cluster + length f.contents ≤ (n - 2) * sb.bytes_per_cluster
    by c hi held lo =
        omega (
          arith,
          mul_mono sb.bytes_per_cluster (f.first - 2 + c) (n - 2) (omega arith),
          split,
          turn,
        )
      where
        split :
            sb.bytes_per_cluster * (f.first - 2 + c)
            ≡ (f.first - 2) * sb.bytes_per_cluster + c * sb.bytes_per_cluster
        split = grind arith

        turn : sb.bytes_per_cluster * (n - 2) ≡ (n - 2) * sb.bytes_per_cluster
        turn = grind arith

module _ (o : ByteOrder) (sb : Super) (n : ℕ) (m m' : Memory) (f : StoredFile)
    (entries : sb.next_root_entry * 32 + 32 ≤ sb.bytes_per_cluster) (lo : 3 ≤ n)
    (s : IsStored o sb n m f)
    (kept : Keeps o sb (sb.root_dir + sb.next_root_entry * 32) n m m') where
  -- Such a change keeps a file that is stored below cluster `n`.
  pub IsStored-kept :
      (n' : ℕ)
      → n ≤ n'
      → IsStored o (record sb { next_root_entry = sb.next_root_entry + 1 }) n' m' f
  IsStored-kept n' hn =
      let hi = s.entry_hi in
      let end = s.first_hi in
      let lo3 = s.first_lo in
      record {
        entry_hi = omega arith;
        first_lo = s.first_lo;
        first_hi = omega (arith, s.first_hi);
        held = s.held;
        stem_short = s.stem_short;
        described =
            IsEntry-kept o (sb.root_dir + f.entry * 32) f.name f.attributes f.first
              (length f.contents) m m' s.stem_short
              (λ q a b.
                kept.clusters q (omega arith) (omega (arith, below_root sb n lo))
                  (inl (omega arith)))
              s.described;
        bytes =
            Holds-cong m m' (sb.root_dir + (f.first - 2) * sb.bytes_per_cluster) f.contents s.bytes
              (λ q a b.
                kept.clusters q (omega arith)
                  (omega (arith, within_clusters sb n f s.first_lo s.first_hi s.held))
                  (inr (omega (arith, behind_root sb f s.first_lo))));
        links = λ t d ht a b. kept.slots t d ht (omega arith) ∙ s.links t d ht a b;
        ends = λ t d ht e. kept.slots t d ht (omega arith) ∙ s.ends t d ht e;
      }

-- A change of the memory that leaves the first part of the volume alone, all in front of cluster
-- `n` but for the sectors 6 and 7, keeps what lies there.
module _ (o : ByteOrder) (sb : Super) (n : ℕ) (m m' : Memory) (l : IsLaidOut sb) (lo : 3 ≤ n)
    (hi : n ≤ sb.max_cluster) (same : (q : ℕ) → sb.buf ≤ q → InFront sb n q → m' q ≡ m q) where
  pub slot_same :
      (t d : ℕ) → t < 2 → d < n → load_le o w32 m' (slot sb t d) ≡ load_le o w32 m (slot sb t d)
  unfolding size
  slot_same t d ht hd =
      let (a, b) = l.tables t d ht (omega arith) in
      load_le-cong o w32 m' m (slot sb t d) (slot sb t d) (
        read_out-cong m' m (slot sb t d) 4
          (λ q p r. same q (omega arith) (inr (omega arith, omega arith))))

  pub clusters_same : (q : ℕ) → sb.root_dir ≤ q → q < data_address sb n → m' q ≡ m q
  clusters_same q a b = same q (omega (arith, l.root_lo)) (inr (omega (arith, l.root_lo), b))

  pub IsStored-same :
      (f : StoredFile)
      → sb.next_root_entry * 32 ≤ sb.bytes_per_cluster
      → IsStored o sb n m f
      → IsStored o sb n m' f
  IsStored-same f room s =
      let h = s.entry_hi in
      let k = s.first_hi in
      record {
        entry_hi = s.entry_hi;
        first_lo = s.first_lo;
        first_hi = s.first_hi;
        held = s.held;
        stem_short = s.stem_short;
        described =
            IsEntry-kept o (sb.root_dir + f.entry * 32) f.name f.attributes f.first
              (length f.contents) m m' s.stem_short
              (λ q a b. clusters_same q (omega arith) (omega (arith, below_root sb n lo)))
              s.described;
        bytes =
            Holds-cong m m' (sb.root_dir + (f.first - 2) * sb.bytes_per_cluster) f.contents s.bytes
              (λ q a b.
                clusters_same q (omega arith)
                  (omega (arith, within_clusters sb n f s.first_lo s.first_hi s.held)));
        links = λ t d ht a b. slot_same t d ht (omega arith) ∙ s.links t d ht a b;
        ends = λ t d ht e. slot_same t d ht (omega arith) ∙ s.ends t d ht e;
      }
