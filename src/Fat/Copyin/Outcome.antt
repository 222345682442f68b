-- ===== src/Fat/Copyin/Outcome.antt =====
-- What `FAT32Copyin` leaves alone, on every way through it.
use native.Mathlib.Decide.{dec_lt}
use native.Mathlib.Nat.{div-eq_of_lt}
use tlibc.Base.{
  ℕ, zero, suc, ◌+◌, ◌-◌, ◌*◌, ◌^◌, ◌≤◌, ◌<◌, ◌≡◌, ◌⊎◌, inl, inr, refl, sym, ◌∙◌, Bool, true, false,
  not, ◌||◌, Option, none, some, [], ◌∷◌, Bytes, Memory, length, ltb, ◌==◌, if◌then◌else◌, arith,
}
use tlibc.Endian.{ByteOrder}
use tlibc.Fields.{put_items}
use tlibc.Fat.Layout.{free_count, next_free, set_fsi}
use tlibc.Fat.Create.{u32, cdiv}
use tlibc.Fat.Create.Image.{mul_mono}
use tlibc.Fat.Mount.{Super, super_free}
use tlibc.Fat.Mount.Tables.{write_entry-none}
use tlibc.Fat.Copyin.{
  HostFile, Copyin, copied, failed, trapped, put_entry, mark_chain, finish, give_up,
}
use tlibc.Fat.Copyin.Stages.{
  IsName, cdiv_bounds, put_entry-outside, mark_chain-outside, fsi-outside, super_free-outside,
}
use tlibc.Fat.Copyin.Path.{clusters_small}
use tlibc.Fat.Volume.{IsLaidOut, IsVolume, data_address, Outside, InFront}

-- `read` delivers at most the bytes that it is asked for.
pub record ReadsAtMost (file : HostFile) : Type 0 where
  pub bound : (k : ℕ) (bs : Bytes) → file.read_up_to k ≡ some bs → length bs ≤ k

-- A success changes nothing outside of the volume, and an error nothing in its first part, either.
abbrev pub Leaves : Super → ℕ → Memory → Bytes → ℕ → Copyin → Type 0
Leaves sb n m name q (copied ret m') = IsName name → Outside sb q → m' q ≡ m q
Leaves sb n m name q (failed errno m') = Outside sb q ⊎ InFront sb n q → m' q ≡ m q
Leaves sb n m name q trapped = Unit

pub if_lem {ℓ} :
    (P : Copyin → Type ℓ) (b : Bool) (x y : Copyin)
    → (b ≡ true → P x)
    → (b ≡ false → P y)
    → P (if b then x else y)
if_lem P true x y hx hy = hx refl
if_lem P false x y hx hy = hy refl

pub cdiv_zero : (k : ℕ) → 1 ≤ k → k < 2 ^ 32 → cdiv 0 k ≡ 0
cdiv_zero k pos small =
    let e : u32 (u32 (0 + k) + 2 ^ 32 - 1) ≡ k - 1 = omega arith in
    rw e (div-eq_of_lt (omega arith))

module _ (o : ByteOrder) (sb : Super) (n free : ℕ) (m : Memory) (l : IsLaidOut sb)
    (v : IsVolume o sb n free m) (name : Bytes) (q : ℕ) where
  pub data_behind : sb.root_dir + sb.bytes_per_cluster ≤ data_address sb n
  data_behind = omega (arith, mul_mono sb.bytes_per_cluster 1 (n - 2) (omega (arith, v.lo)), turn)
    where
      turn : sb.bytes_per_cluster * (n - 2) ≡ (n - 2) * sb.bytes_per_cluster
      turn = grind arith

  -- The clusters up to the last one end within the volume.
  data_end :
      (c : ℕ)
      → n + c ≤ sb.max_cluster
      → data_address sb n + c * sb.bytes_per_cluster ≤ sb.buf + sb.bytes_per_sector * sb.num_sector
  data_end c h = omega (
    arith,
    mul_mono sb.bytes_per_cluster (n - 2 + c) (sb.max_cluster - 2) (omega (arith, v.lo)),
    split,
    turn,
    l.inside,
  )
    where
      split :
          sb.bytes_per_cluster * (n - 2 + c)
          ≡ (n - 2) * sb.bytes_per_cluster + c * sb.bytes_per_cluster
      split = grind arith

      turn :
          sb.bytes_per_cluster * (sb.max_cluster - 2) ≡ (sb.max_cluster - 2) * sb.bytes_per_cluster
      turn = grind arith

  pub data_start : data_address sb n ≤ sb.buf + sb.bytes_per_sector * sb.num_sector
  data_start = omega (arith, data_end 0 (omega (arith, v.hi)))

  -- Releasing the volume writes the sectors 6 and 7 alone.
  pub super_free_lem : (m1 : Memory) → Outside sb q ⊎ InFront sb n q → super_free m1 sb q ≡ m1 q
  super_free_lem m1 h =
      super_free-outside sb m1 q l (ground (arith, l.root_lo, data_behind, data_start))

  pub give_up-Leaves :
      (m1 : Memory) (number : ℕ)
      → (Outside sb q ⊎ InFront sb n q → m1 q ≡ m q)
      → Leaves sb n m name q (give_up number m1 sb)
  unfolding give_up
  give_up-Leaves m1 number same h = super_free_lem m1 h ∙ same h

  -- A file that the check of the space lets pass gets clusters of the volume.
  pub count_fit :
      (bytes : ℕ)
      → bytes ≤ sb.bytes_per_cluster * (sb.max_cluster - n)
      → (n + cdiv bytes sb.bytes_per_cluster ≤ sb.max_cluster)
        × (bytes ≤ cdiv bytes sb.bytes_per_cluster * sb.bytes_per_cluster)
        × ((bytes ≡ 0) ⊎ (1 ≤ cdiv bytes sb.bytes_per_cluster))
  count_fit zero h =
      let e =
        cdiv_zero sb.bytes_per_cluster (omega (arith, l.cluster_lo))
          (omega (arith, clusters_small o sb n free m l v)) in
      (omega (arith, e, v.hi), omega arith, inl refl)
  count_fit (suc k) h =
      let b =
        cdiv_bounds sb.bytes_per_cluster (suc k) (sb.max_cluster - n) (omega (arith, l.cluster_lo))
          (omega arith) h (clusters_small o sb n free m l v) in
      (omega (arith, b.1, v.hi), b.2, inr b.0)

  -- The clusters from `n` on are not in what an error leaves alone.
  pub beyond :
      (at len c : ℕ)
      → ((at ≡ data_address sb n) × (len ≤ c * sb.bytes_per_cluster)) ⊎ (len ≡ 0)
      → n + c ≤ sb.max_cluster
      → Outside sb q ⊎ InFront sb n q
      → (q < at) ⊎ (at + len ≤ q)
  beyond at len c (inl (e, h)) fit out =
      ground (arith, e, h, data_end c fit, l.root_lo, data_behind)
  beyond at len c (inr e) fit out = elim (dec_lt q at) [ yes p ↦ inl p | no p ↦ inr (omega arith) ]

  abbrev pub P : Copyin → Type 0
  P = Leaves sb n m name q

  -- A chain that is marked lies on clusters of the volume.
  marked_room :
      (c : ℕ) (m1 m2 : Memory)
      → n + c ≤ sb.max_cluster
      → mark_chain o sb (c - 1) n m1 ≡ some m2
      → n + (c - 1) < sb.max_cluster
  unfolding mark_chain
  marked_room zero m1 m2 fit e = elim (dec_lt n sb.max_cluster) [
    | yes p ↦ omega arith
    | no p ↦ absurd (some_ne (sym (write_entry-none o sb l.room m1 n 0xFFFFFFFF (omega arith)) ∙ e))
  ]
    where
      some_ne : none ≡ some m2 → ⊥
      some_ne e = cc
  marked_room (suc c) m1 m2 fit e = omega arith

  module _ (attributes bytes c ret : ℕ) (m1 : Memory) (fit : n + c ≤ sb.max_cluster)
      (entry : sb.next_root_entry < sb.num_root_entry) (same : Outside sb q → m1 q ≡ m q) where
    abbrev entered : Memory
    entered = put_entry o m1 (sb.root_dir + sb.next_root_entry * 32) name attributes n bytes

    abbrev counted : Memory → Memory
    counted m2 =
        put_items o m2 sb.fs_info
          (set_fsi free_count (free - c) ∷ set_fsi next_free (u32 (n + (c - 1) + 1)) ∷ [])

    counted_same : (m2 : Memory) → Outside sb q → counted m2 q ≡ m2 q
    counted_same m2 out =
        fsi-outside o m2 sb.fs_info (free - c) (u32 (n + (c - 1) + 1)) q
          (ground (arith, l.info, l.sector_lo, l.root_lo, data_behind, data_start))

    marked_same :
        (m2 : Memory)
        → mark_chain o sb (c - 1) n entered ≡ some m2
        → Outside sb q
        → m2 q ≡ entered q
    marked_same m2 e out =
        mark_chain-outside o sb l.room (c - 1) n entered m2 q (omega (arith, l.clusters))
          (omega (arith, v.lo)) (marked_room c entered m2 fit e) e
          (λ t d ht hd. apart_lem (l.tables t d (omega (arith, l.two_tables)) hd))
      where
        apart_lem :
            {a : ℕ}
            → (sb.buf + sb.bytes_per_sector * 8 ≤ a) × (a + 4 ≤ sb.root_dir)
            → (q < a) ⊎ (a + 4 ≤ q)
        apart_lem h = ground (arith, data_behind, data_start)

    entered_same : IsName name → Outside sb q → entered q ≡ m1 q
    entered_same known out =
        put_entry-outside o m1 (sb.root_dir + sb.next_root_entry * 32) name attributes n bytes known
          q (ground (arith, l.entries, entry, l.root_lo, data_behind, data_start))

    marked-Leaves :
        (x : Option Memory)
        → mark_chain o sb (c - 1) n entered ≡ x
        → P (elim x [
          | none ↦ trapped
          | some m2 ↦ if ltb free c then trapped else copied ret (super_free (counted m2) sb)
        ])
    marked-Leaves none e = tt
    marked-Leaves (some m2) e =
        if_lem P (ltb free c) trapped (copied ret (super_free (counted m2) sb)) (λ _. tt)
          (λ _ known out.
            super_free_lem (counted m2) (inl out)
            ∙ counted_same m2 out
            ∙ marked_same m2 e out
            ∙ entered_same known out
            ∙ same out)

    pub finish-Leaves : P (finish o sb name attributes bytes c n free ret m1)
    unfolding finish
    finish-Leaves =
        if_lem P ((sb.root_dir == 0) || not (m1 (sb.root_dir + sb.next_root_entry * 32) == 0))
          trapped _ (λ _. tt) (λ _. marked-Leaves (mark_chain o sb (c - 1) n entered) refl)
