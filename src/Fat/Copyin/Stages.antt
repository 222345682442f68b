-- ===== src/Fat/Copyin/Stages.antt =====
-- What each stage of `FAT32Copyin` writes into the memory of a volume, and what it leaves alone.
use native.Mathlib.Decide.{dec_le}
use native.Mathlib.Nat.{div-mul-le_self, le-div_iff_mul-le}
use tlibc.Base.{
  ℕ, zero, suc, ◌+◌, ◌-◌, ◌*◌, ◌/◌, ◌^◌, ◌≤◌, ◌<◌, ◌≡◌, ◌≢◌, ◌⊎◌, refl, sym, ap, ◌∙◌, true, none,
  some, [], ◌∷◌, Bytes, Memory, memset, memcpy, length, memset-outside, memcpy-outside, arith,
}
use tlibc.Endian.{ByteOrder, size}
use tlibc.Fields.{put_items, fits_in, item_size}
use tlibc.Fields.Laws.{put_items-outside}
use tlibc.Fat.Layout.{free_count, next_free, set_fsi}
use tlibc.Fat.Create.{u32, cdiv}
use tlibc.Fat.Create.Image.{mul_mono}
use tlibc.Fat.Mount.{Super, get_sector, super_free}
use tlibc.Fat.Mount.Tables.{slot, HasRoom, write_tables-outside}
use tlibc.Fat.Copyin.{stem, suffix, entry_items, put_entry, mark_chain}
use tlibc.Fat.Copyin.Chain.{chain_step}
use tlibc.Fat.Mount.Tables.{write_entry-tables}
use tlibc.Fat.Volume.{IsLaidOut}

-- How many clusters of `k` bytes a file of `b` bytes takes, when `j` are left.
pub cdiv_bounds :
    (k b j : ℕ)
    → 1 ≤ k
    → 1 ≤ b
    → b ≤ k * j
    → k * j + k < 2 ^ 32
    → (1 ≤ cdiv b k) × (cdiv b k ≤ j) × (b ≤ cdiv b k * k)
cdiv_bounds k b j pos some_bytes fit small =
    let e : u32 (u32 (b + k) + 2 ^ 32 - 1) ≡ b + k - 1 = omega arith in
    rw e (quotient ((b + k - 1) / k) refl)
  where
    quotient : (c : ℕ) → c ≡ (b + k - 1) / k → (1 ≤ c) × (c ≤ j) × (b ≤ c * k)
    quotient c e = (
      rw e ((le-div_iff_mul-le (omega arith)).1 (omega arith)),
      not_more (dec_le c j),
      covers (dec_le b (c * k)),
    )
      where
        below : c * k ≤ b + k - 1
        below = rw e (div-mul-le_self (b + k - 1) k)

        not_more : Dec (c ≤ j) → c ≤ j
        not_more (yes p) = p
        not_more (no p) =
            absurd (omega (arith, below, mul_mono k (j + 1) c (omega (arith, p)), split, turn))
          where
            split : k * (j + 1) ≡ k * j + k
            split = grind arith

            turn : k * c ≡ c * k
            turn = grind arith

        covers : Dec (b ≤ c * k) → b ≤ c * k
        covers (yes p) = p
        covers (no p) = absurd (omega (arith, next, e))
          where
            split : (c + 1) * k ≡ c * k + k
            split = grind arith

            next : c + 1 ≤ (b + k - 1) / k
            next = (le-div_iff_mul-le (omega arith)).1 (omega (arith, p, split))

-- The ceiling of a quotient, which `CDIV` computes where its sum does not wrap around.
abbrev pub ceil_div : ℕ → ℕ → ℕ
ceil_div b k = (b + k - 1) / k

pub cdiv-ceil_div : (k b : ℕ) → 1 ≤ k → b + k < 2 ^ 32 → cdiv b k ≡ ceil_div b k
cdiv-ceil_div k b pos small =
    let e : u32 (u32 (b + k) + 2 ^ 32 - 1) ≡ b + k - 1 = omega arith in rw e refl

pub ceil_div-covers : (k b j : ℕ) → 1 ≤ k → ceil_div b k ≤ j → b ≤ k * j
ceil_div-covers k b j pos h = elim (dec_le b (k * j)) [
  | yes p ↦ p
  | no p ↦ absurd (omega (arith, h, (le-div_iff_mul-le pos).1 (more (omega (arith, p)))))
]
  where
    split : (j + 1) * k ≡ k * j + k
    split = grind arith

    more : k * j < b → (j + 1) * k ≤ b + k - 1
    more h = omega (arith, split, h)

-- A name whose entry stays within its 32 bytes, and does not begin like an unused one.
pub record IsName (name : Bytes) : Type 0 where
  pub begins : (c : ℕ) × (rest : Bytes) × (stem name ≡ c ∷ rest) × (c ≢ 0)
  pub stem_short : length (stem name) ≤ 8
  pub suffix_short : length (suffix name) ≤ 24

entry_items-fits_in :
    (name : Bytes) (attributes first bytes : ℕ)
    → IsName name
    → fits_in 32 (entry_items name attributes first bytes) ≡ true
unfolding entry_items fits_in item_size size
entry_items-fits_in name attributes first bytes h = ground (arith, h.stem_short, h.suffix_short)

module _ (o : ByteOrder) (m : Memory) (at : ℕ) (name : Bytes) (attributes first bytes : ℕ)
    (h : IsName name) where
  pub put_entry-outside :
      (q : ℕ) → (q < at) ⊎ (at + 32 ≤ q) → put_entry o m at name attributes first bytes q ≡ m q
  unfolding put_entry
  put_entry-outside q out =
      put_items-outside o (memset m at 0 32) at 32 q (entry_items name attributes first bytes)
        (entry_items-fits_in name attributes first bytes h) out
      ∙ memset-outside m at 0 32 q out

some_at : {m m' : Memory} → (q : ℕ) → some m ≡ some m' → m' q ≡ m q
some_at {m} {m'} q e = ap (λ x. elim x [ none ↦ 0 | some f ↦ f q ]) (sym e)

pub mark_chain-outside :
    (o : ByteOrder) (sb : Super)
    → HasRoom sb
    → (more next : ℕ) (m m' : Memory) (q : ℕ) → sb.max_cluster < 2 ^ 32
    → 1 ≤ next
    → next + more < sb.max_cluster
    → mark_chain o sb more next m ≡ some m'
    → ((t d : ℕ)
        → t < sb.num_entry_table
        → d < sb.max_cluster
        → (q < slot sb t d) ⊎ (slot sb t d + 4 ≤ q))
    → m' q ≡ m q
unfolding mark_chain
mark_chain-outside o sb room zero next m m' q small pos fit e out =
    some_at q (sym (write_entry-tables o sb room m next 0xFFFFFFFF pos (omega arith)) ∙ e)
    ∙ write_tables-outside o sb sb.num_entry_table 0 next 0xFFFFFFFF m q
        (λ t _ hi. out t next (omega arith) (omega arith))
mark_chain-outside o sb room (suc more) next m m' q small pos fit e out =
    mark_chain-outside o sb room more (next + 1) _ m' q small (omega arith) (omega arith)
      (sym (chain_step o sb room more next m small pos (omega arith)) ∙ e) out
    ∙ write_tables-outside o sb sb.num_entry_table 0 next (next + 1) m q
        (λ t _ hi. out t next (omega arith) (omega arith))

pub fsi-outside :
    (o : ByteOrder) (m : Memory) (at free next q : ℕ)
    → (q < at) ⊎ (at + 512 ≤ q)
    → put_items o m at (set_fsi free_count free ∷ set_fsi next_free next ∷ []) q ≡ m q
unfolding fits_in item_size size
fsi-outside o m at free next q out =
    put_items-outside o m at 512 q (set_fsi free_count free ∷ set_fsi next_free next ∷ []) fits out
  where
    fits : fits_in 512 (set_fsi free_count free ∷ set_fsi next_free next ∷ []) ≡ true
    fits = refl

-- Only the sectors 6 and 7 are written when the volume is released.
pub super_free-outside :
    (sb : Super) (m : Memory) (q : ℕ)
    → IsLaidOut sb
    → (q < sb.buf + sb.bytes_per_sector * 6) ⊎ (sb.buf + sb.bytes_per_sector * 8 ≤ q)
    → super_free m sb q ≡ m q
unfolding super_free
super_free-outside sb m q l out =
    rw (l.sector_6, l.sector_7)
      (memcpy-outside (memcpy m (sb.buf + sb.bytes_per_sector * 6) sb.buf sb.bytes_per_sector)
          (sb.buf + sb.bytes_per_sector * 7) (get_sector sb.buf sb.num_sector sb.bytes_per_sector 1)
          sb.bytes_per_sector q (second out)
        ∙ memcpy-outside m (sb.buf + sb.bytes_per_sector * 6) sb.buf sb.bytes_per_sector q
            (first out))
  where
    first :
        (q < sb.buf + sb.bytes_per_sector * 6) ⊎ (sb.buf + sb.bytes_per_sector * 8 ≤ q)
        → (q < sb.buf + sb.bytes_per_sector * 6)
          ⊎ (sb.buf + sb.bytes_per_sector * 6 + sb.bytes_per_sector ≤ q)
    first h = ground arith

    second :
        (q < sb.buf + sb.bytes_per_sector * 6) ⊎ (sb.buf + sb.bytes_per_sector * 8 ≤ q)
        → (q < sb.buf + sb.bytes_per_sector * 7)
          ⊎ (sb.buf + sb.bytes_per_sector * 7 + sb.bytes_per_sector ≤ q)
    second h = ground arith
