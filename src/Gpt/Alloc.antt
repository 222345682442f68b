-- ===== src/Gpt/Alloc.antt =====
-- The allocation loop of `GPTGenerate`: first fit in order, from the block behind the entry array.
use tlibc.Base.{
  ℕ, ◌+◌, ◌-◌, ◌*◌, ◌/◌, ◌%◌, ◌^◌, ◌≤◌, ◌<◌, ◌≡◌, refl, ap, ◌∙◌, List, [], ◌∷◌, ◌++◌, map, All,
  All-map, arith, length,
}
use native.Mathlib.Decide.{dec_lt}
use tlibc.Gpt.Layout.{PartitionConfig}
use tlibc.Gpt.{Allocation, allocate, GptConfig, sectors_for_array, sectors_for_fs}

-- The partitions stand one behind the other, from block `start` to block `end`.
abbrev IsPacked : ℕ → List PartitionConfig → ℕ → Type 0
IsPacked start [] end = start ≡ end
IsPacked start (p ∷ ps) end = (p.start_lba ≡ start) × IsPacked (start + p.volume) ps end

-- The loop stops at the end of the partitions, or at the first that does not fit what remains.
abbrev IsStop : ℕ → List PartitionConfig → Type 0
IsStop remains [] = Unit
IsStop remains (p ∷ ps) = remains < p.volume

-- What a partition is apart from its start.
abbrev request : PartitionConfig → PartitionConfig
request p = record p { start_lba = 0 }

pub record IsFirstFit (cps : List PartitionConfig) (start remains : ℕ) (a : Allocation)
    : Type 0 where
  pub packed : IsPacked start a.placed a.start
  pub used : a.start + a.remains ≡ start + remains
  pub stops : IsStop a.remains a.left
  pub requests : map request (a.placed ++ a.left) ≡ map request cps

-- A round that places the partition `cp`.
abbrev placing : PartitionConfig → ℕ → Allocation → Allocation
placing cp start rest = record rest { placed = record cp { start_lba = start } ∷ rest.placed }

allocate-stops :
    (cp : PartitionConfig) (cps : List PartitionConfig) (start remains : ℕ)
    → remains < cp.volume
    → allocate (cp ∷ cps) start remains
      ≡ record { placed = []; left = cp ∷ cps; start = start; remains = remains }
unfolding allocate
allocate-stops cp cps start remains h = ground arith

allocate-places :
    (cp : PartitionConfig) (cps : List PartitionConfig) (start remains : ℕ)
    → cp.volume ≤ remains
    → start + remains < 2 ^ 64
    → allocate (cp ∷ cps) start remains
      ≡ placing cp start (allocate cps (start + cp.volume) (remains - cp.volume))
unfolding allocate
allocate-places cp cps start remains h small =
    let e : (start + cp.volume) % 2 ^ 64 ≡ start + cp.volume = omega arith in rw e (ground arith)

-- Two partitions that fill the space.
pub allocate-two :
    (p q : PartitionConfig) (start remains : ℕ)
    → p.volume + q.volume ≡ remains
    → start + remains < 2 ^ 64
    → allocate (p ∷ q ∷ []) start remains ≡ record {
      placed = record p { start_lba = start } ∷ record q { start_lba = start + p.volume } ∷ [];
      left = [];
      start = start + remains;
      remains = 0;
    }
unfolding allocate
allocate-two p q start remains e small =
    let total : start + p.volume + q.volume ≡ start + remains = omega arith in
    let spent : remains - p.volume - q.volume ≡ 0 = omega arith in
    rw
      (
        allocate-places p (q ∷ []) start remains (omega arith) small,
        allocate-places q [] (start + p.volume) (remains - p.volume) (omega arith) (omega arith),
        total,
        spent,
      )
      refl

placing-IsFirstFit :
    (cp : PartitionConfig) (cps : List PartitionConfig) (start remains : ℕ) (rest : Allocation)
    → cp.volume ≤ remains
    → IsFirstFit cps (start + cp.volume) (remains - cp.volume) rest
    → IsFirstFit (cp ∷ cps) start remains (placing cp start rest)
placing-IsFirstFit cp cps start remains rest h fit = record {
  packed = (refl, fit.packed);
  used = fit.used ∙ omega arith;
  stops = fit.stops;
  requests = ap (λ ps. request cp ∷ ps) fit.requests;
}

allocate-IsFirstFit :
    (cps : List PartitionConfig) (start remains : ℕ)
    → start + remains < 2 ^ 64
    → IsFirstFit cps start remains (allocate cps start remains)
unfolding allocate
allocate-IsFirstFit [] start remains h = record {
  packed = refl;
  used = refl;
  stops = tt;
  requests = refl;
}
allocate-IsFirstFit (cp ∷ cps) start remains h = elim (dec_lt remains cp.volume) [
  | yes p ↦
      rw (allocate-stops cp cps start remains p)
        (record { packed = refl; used = refl; stops = p; requests = refl })
  | no p ↦ rw (allocate-places cp cps start remains (omega arith) h) (
      placing-IsFirstFit cp cps start remains
        (allocate cps (start + cp.volume) (remains - cp.volume)) (omega arith)
        (allocate-IsFirstFit cps (start + cp.volume) (remains - cp.volume) (omega arith)))
]

-- Every partition of a packed list starts at or behind `start`, and ends at `end` or before.
packed-bounds :
    (ps : List PartitionConfig) (start end : ℕ)
    → IsPacked start ps end
    → All (λ p. (start ≤ p.start_lba) × (p.start_lba + p.volume ≤ end)) ps × (start ≤ end)
packed-bounds [] start end h = (tt, omega arith)
packed-bounds (p ∷ ps) start end (e, h) =
    let (bounds, le) = packed-bounds ps (start + p.volume) end h in
    (
      ((omega arith, omega arith), All-map (λ q k. (omega (arith, k.0), k.1)) ps bounds),
      omega arith,
    )

-- Of two partitions in a packed list, the earlier one ends where the later one starts, or before.
abbrev AreDisjoint : List PartitionConfig → Type 0
AreDisjoint [] = Unit
AreDisjoint (p ∷ ps) = All (λ q. p.start_lba + p.volume ≤ q.start_lba) ps × AreDisjoint ps

packed-AreDisjoint :
    (ps : List PartitionConfig) (start end : ℕ) → IsPacked start ps end → AreDisjoint ps
packed-AreDisjoint [] start end h = tt
packed-AreDisjoint (p ∷ ps) start end (e, h) = (
  All-map (λ q k. omega (arith, k.0)) ps (packed-bounds ps (start + p.volume) end h).0,
  packed-AreDisjoint ps (start + p.volume) end h,
)

-- A disk with room for four blocks and an entry of 128 bytes for each partition, of a size that a
-- `size_t` of bytes can say.
pub record IsDisk (config : GptConfig) : Type 0 where
  pub some_partition : 1 ≤ length config.partitions
  pub few : length config.partitions < 2 ^ 32
  pub room : 4 * 512 + 128 * length config.partitions ≤ 512 * config.volume
  pub small : config.volume < 2 ^ 55

-- What the plan of `GPTGenerate` promises: the partitions placed do not overlap, they lie behind
-- an entry of 128 bytes from block 2 on for each one asked for, and in front of the two last blocks, they are the first ones of those asked for,
-- and the next one, if any, is larger than what remains.
pub record IsPlan (config : GptConfig) (a : Allocation) : Type 0 where
  pub disjoint : AreDisjoint a.placed
  pub inside :
      All
        (λ p.
          (2 * 512 + 128 * length config.partitions ≤ 512 * p.start_lba)
          × (p.start_lba + p.volume ≤ config.volume - 2))
        a.placed
  pub in_order : map request (a.placed ++ a.left) ≡ map request config.partitions
  pub stops : IsStop (config.volume - 2 - a.start) a.left

pub sectors_for_array-round_up :
    (config : GptConfig)
    → length config.partitions < 2 ^ 32
    → sectors_for_array config ≡ (3 + length config.partitions) / 4
unfolding sectors_for_array
sectors_for_array-round_up config few = omega arith

pub IsDisk-room :
    (config : GptConfig) → IsDisk config → 4 + sectors_for_array config ≤ config.volume
IsDisk-room config d = omega (arith, d.room, sectors_for_array-round_up config d.few)

pub sectors_for_fs-rest :
    (config : GptConfig)
    → IsDisk config
    → sectors_for_fs config ≡ config.volume - 4 - sectors_for_array config
unfolding sectors_for_fs
sectors_for_fs-rest config d = omega (arith, IsDisk-room config d, d.small)

-- How many blocks the partitions take.
unfoldable pub total_volume : List PartitionConfig → ℕ
total_volume [] = 0
total_volume (p ∷ ps) = p.volume + total_volume ps

packed-total_volume :
    (ps : List PartitionConfig) (start end : ℕ)
    → IsPacked start ps end
    → end ≡ start + total_volume ps
unfolding total_volume
packed-total_volume [] start end h = omega arith
packed-total_volume (p ∷ ps) start end (e, h) =
    omega (arith, packed-total_volume ps (start + p.volume) end h)

-- The block behind the last partition placed, when the loop ends.
pub allocate-behind :
    (config : GptConfig)
    → IsDisk config
    → let a = allocate config.partitions (2 + sectors_for_array config) (sectors_for_fs config) in
      All (λ p. p.start_lba + p.volume ≤ a.start) a.placed
      × (a.start ≡ 2 + (3 + length config.partitions) / 4 + total_volume a.placed)
      × (a.start < 2 ^ 64)
allocate-behind config d =
    let n = sectors_for_array config in
    let a = allocate config.partitions (2 + n) (sectors_for_fs config) in
    let total = sectors_for_fs-rest config d in
    let room = IsDisk-room config d in
    let fit =
      allocate-IsFirstFit config.partitions (2 + n) (sectors_for_fs config)
        (omega (arith, d.small)) in
    let used = fit.used in
    (
      All-map (λ p k. k.1) a.placed (packed-bounds a.placed (2 + n) a.start fit.packed).0,
      omega (
        arith,
        packed-total_volume a.placed (2 + n) a.start fit.packed,
        sectors_for_array-round_up config d.few,
      ),
      omega (arith, d.small),
    )

-- The allocation of `GPTGenerate` is first fit, in order and without overlap, between the entry
-- array and the two last blocks.
pub allocate-IsPlan :
    (config : GptConfig)
    → IsDisk config
    → IsPlan config
        (allocate config.partitions (2 + sectors_for_array config) (sectors_for_fs config))
allocate-IsPlan config d =
    let n = sectors_for_array config in
    let total : 2 + n + sectors_for_fs config ≡ config.volume - 2 =
      omega (arith, sectors_for_fs-rest config d, IsDisk-room config d) in
    let fit =
      allocate-IsFirstFit config.partitions (2 + n) (sectors_for_fs config)
        (omega (arith, d.small)) in
    plan_of (2 + n) (allocate config.partitions (2 + n) (sectors_for_fs config)) total fit refl
  where
    plan_of :
        (start : ℕ) (a : Allocation)
        → start + sectors_for_fs config ≡ config.volume - 2
        → IsFirstFit config.partitions start (sectors_for_fs config) a
        → (start ≡ 2 + sectors_for_array config)
        → IsPlan config a
    plan_of start a total fit e = record {
      disjoint = packed-AreDisjoint a.placed start a.start fit.packed;
      inside =
          All-map
            (λ p k. (
              omega (arith, k.0, sectors_for_array-round_up config d.few),
              omega (arith, k.1, fit.used),
            ))
            a.placed (packed-bounds a.placed start a.start fit.packed).0;
      in_order = fit.requests;
      stops = rest_lem a.left fit.stops;
    }
      where
        rest_lem :
            (ps : List PartitionConfig)
            → IsStop a.remains ps
            → IsStop (config.volume - 2 - a.start) ps
        rest_lem [] h = tt
        rest_lem (p ∷ ps) h = omega (arith, fit.used)
