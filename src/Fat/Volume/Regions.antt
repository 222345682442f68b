-- ===== src/Fat/Volume/Regions.antt =====
-- Where the sectors, the tables and the clusters of a volume lie, without a wrap-around.
use tlibc.Base.{ℕ, zero, suc, ◌+◌, ◌-◌, ◌*◌, ◌/◌, ◌^◌, ◌≤◌, ◌<◌, ◌≡◌, inl, inr, ◌∙◌, arith}
use tlibc.Fat.Create.{u32}
use tlibc.Fat.Create.Config.{IsSectorSize}
use tlibc.Fat.Create.Image.{mul_mono}
use tlibc.Fat.Mount.{get_sector}

pub quarter : (f s : ℕ) → IsSectorSize s → (f * s / 4 * 4 ≡ s * f) × (f * (s / 4) * 4 ≡ s * f)
quarter f s (inl e) = rw e (omega arith)
quarter f s (inr (inl e)) = rw e (omega arith)
quarter f s (inr (inr (inl e))) = rw e (omega arith)
quarter f s (inr (inr (inr e))) = rw e (omega arith)

pub div_sector : (k s : ℕ) → IsSectorSize s → k * s / s ≡ k
div_sector k s (inl e) = rw e (omega arith)
div_sector k s (inr (inl e)) = rw e (omega arith)
div_sector k s (inr (inr (inl e))) = rw e (omega arith)
div_sector k s (inr (inr (inr e))) = rw e (omega arith)

swap_mul : (k cs s : ℕ) → k * (cs * s) ≡ s * (k * cs)
swap_mul k cs s = grind arith

-- The numbers of a volume of `n` sectors of `s` bytes, with tables of `f` sectors and clusters of
-- `cs`, of which `max` fit behind the tables.
module _ (s f cs n max buf : ℕ) (size : IsSectorSize s) (lo : 512 ≤ s) (pos : 1 ≤ cs)
    (few : n < 2 ^ 23) (small : s * n < 2 ^ 32) (regions : 8 + f * 2 + cs ≤ n)
    (fits : max * cs ≤ n - 8 - f * 2) where
  cluster_end : (k : ℕ) → k ≤ max → 8 + f * 2 + k * cs ≤ n
  cluster_end k h = omega (arith, regions, fits, mul_mono cs k max h, comm k cs, comm max cs)
    where
      comm : (a b : ℕ) → a * b ≡ b * a
      comm a b = grind arith

  pub sector-mul : (r : ℕ) → r < n → get_sector buf n s r ≡ buf + s * r
  unfolding get_sector
  sector-mul r h =
      let e : r * s ≡ s * r = comm r s in rw e (ground (arith, mul_mono s r n (omega arith), small))
    where
      comm : (a b : ℕ) → a * b ≡ b * a
      comm a b = grind arith

  pub clusters_small : (k : ℕ) → k ≤ max → k * (cs * s) < 2 ^ 32
  clusters_small k h =
      omega (arith, swap_mul k cs s, mul_mono s (k * cs) n (omega (arith, cluster_end k h)), small)

  pub clusters_inside : (k : ℕ) → k ≤ max → s * (8 + f * 2) + k * (cs * s) ≤ s * n
  clusters_inside k h =
      omega (arith, swap_mul k cs s, mul_mono s (8 + f * 2 + k * cs) n (cluster_end k h), split)
    where
      split : s * (8 + f * 2 + k * cs) ≡ s * (8 + f * 2) + s * (k * cs)
      split = grind arith

  pub data_sector :
      (k : ℕ)
      → 2 ≤ k
      → k < max
      → get_sector buf n s (u32 (u32 ((k - 2) * (cs * s / s)) + u32 (8 + f * 2)))
        ≡ buf + s * (8 + f * 2) + (k - 2) * (cs * s)
  data_sector k lo2 hi =
      let d : cs * s / s ≡ cs = div_sector cs s size in
      let e : 8 + f * 2 + (k - 2) * cs ≤ n = cluster_end (k - 2) (omega arith) in
      let e1 : 8 + f * 2 + (k - 2 + 1) * cs ≤ n = cluster_end (k - 2 + 1) (omega arith) in
      let step : (k - 2 + 1) * cs ≡ (k - 2) * cs + cs = next (k - 2) in
      let w : u32 (u32 ((k - 2) * cs) + u32 (8 + f * 2)) ≡ (k - 2) * cs + (8 + f * 2) =
        omega (arith, e, few) in
      rw (d, w)
        (sector-mul ((k - 2) * cs + (8 + f * 2)) (omega (arith, e1, step, pos))
          ∙ split ((k - 2) * cs))
    where
      next : (a : ℕ) → (a + 1) * cs ≡ a * cs + cs
      next a = grind arith

      split :
          (a : ℕ)
          → buf + s * ((k - 2) * cs + (8 + f * 2)) ≡ buf + s * (8 + f * 2) + (k - 2) * (cs * s)
      split a = grind arith

  pub root_behind : buf + s * 8 ≤ buf + s * (8 + f * 2)
  root_behind = omega (arith, mul_mono s 8 (8 + f * 2) (omega arith))

  pub cluster_whole : (512 ≤ cs * s) × (cs * s < 2 ^ 32)
  cluster_whole =
      let one : s * cs ≡ cs * s = grind arith in
      omega (arith, mul_mono s 1 cs pos, mul_mono s cs n (omega (arith, regions)), one, small, lo)

  pub max_small : max < 2 ^ 23
  max_small = omega (arith, few, regions, fits, mul_mono max 1 cs pos)

  -- Each entry of a table lies between sector 8 and the root directory.
  pub slot_inside :
      (t d : ℕ)
      → t < 2
      → d < max
      → max ≤ f * (s / 4)
      → s ≤ 4096
      → (buf + s * 8 ≤ buf + u32 (s * 8) + t * (f * s / 4 * 4) + d * 4)
        × (buf + u32 (s * 8) + t * (f * s / 4 * 4) + d * 4 + 4 ≤ buf + s * (8 + f * 2))
  slot_inside t d ht hd holds hi =
      let q = quarter f s size in rw q.0 (by_table t (s * f) ht (omega (arith, q.1)) split)
    where
      split : s * (8 + f * 2) ≡ s * 8 + s * f + s * f
      split = grind arith

      by_table :
          (t z : ℕ)
          → t < 2
          → d * 4 + 4 ≤ z
          → s * (8 + f * 2) ≡ s * 8 + z + z
          → (buf + s * 8 ≤ buf + u32 (s * 8) + t * z + d * 4)
            × (buf + u32 (s * 8) + t * z + d * 4 + 4 ≤ buf + s * (8 + f * 2))
      by_table zero z h k e = (omega (arith, hi), omega (arith, hi))
      by_table (suc zero) z h k e = (omega (arith, hi), omega (arith, hi))
      by_table (suc (suc t)) z h k e = absurd (omega (arith, h))
