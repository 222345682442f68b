-- ===== src/Install/Files.antt =====
-- gpt/installer.c on gpt/gpt.c and gpt/fat.c: the disk that the installer leaves.
use tlibc.Base.{
  ℕ, suc, ◌+◌, ◌-◌, ◌*◌, ◌/◌, ◌%◌, ◌^◌, ◌≤◌, ◌<◌, ◌≡◌, inl, inr, refl, ap, ◌∙◌, ◌>>=◌, true, false,
  Option, some, List, [], ◌∷◌, Bytes, Memory, write_all, write_all-outside, write_all-Holds, Holds,
  codes, length, take, length-take_le, All, arith,
}
use native.Mathlib.Nat.{le_refl}
use tlibc.Endian.{ByteOrder}
use tlibc.Fat.Mount.Fresh.{fresh_super}
use tlibc.Gpt.Generate.{disk}
use tlibc.Fat.Create.{FatConfig, fat_sectors, image}
use tlibc.Fat.Create.Config.{IsUsable, create_fat32-image}
use tlibc.Fat.Copyin.{HostFile, copied_memory}
use tlibc.Fat.Copyin.Several.{
  Request, IsCopyable, Volume, Represents, HasSpace, add, add_each, HasSpace-add, fat32_copyin-add,
}
use tlibc.Fat.Copyin.Represented.{fresh_volume, image-Represents, Represents-above}
use tlibc.Install.{Sources, config_of, formatted, format, copyin, install}
use tlibc.Install.Partitions.{mkpart-both}

-- A file of the installer.
abbrev pub request : HostFile → Bytes → Bytes → Request
request host name bytes = record { host = host; name = name; attributes = 5; bytes = bytes }

-- The file system that the installer makes on `sectors` blocks.
abbrev pub boot_config : ℕ → FatConfig
boot_config sectors = record {
  n_sector = sectors;
  bytes_per_sector = 512;
  cluster_size = 8;
  write_random_data = false;
  is_fixed = true;
}

pub boot_config-IsUsable :
    (sectors : ℕ) → 2048 ≤ sectors → sectors < 2 ^ 23 → IsUsable (boot_config sectors)
boot_config-IsUsable sectors lo hi = record {
  accepted = record {
    sectors = omega arith;
    sector_size = inl refl;
    cluster = inr (inr (inr (inl refl)));
  };
  clusters = omega arith;
  small = omega arith;
}

pub boot_config-clusters :
    (sectors : ℕ)
    → 2048 ≤ sectors
    → sectors < 2 ^ 23
    → 3 ≤ (sectors - 8 - fat_sectors (boot_config sectors) * 2) / 8
boot_config-clusters sectors lo hi = omega arith

pub format-image :
    (o : ByteOrder) (fat sectors : ℕ) (m : Memory)
    → 2048 ≤ sectors
    → sectors < 2 ^ 23
    → format o fat sectors m ≡ some (image o (boot_config sectors) fat m)
unfolding format
format-image o fat sectors m lo hi =
    ap (formatted m)
      (create_fat32-image o m fat (boot_config sectors) (boot_config-IsUsable sectors lo hi))

pub copyin-add :
    (o : ByteOrder) (volume : Volume) (m : Memory) (host : HostFile) (name bytes : Bytes)
    (rs : List Request) (fuel : ℕ)
    → Represents o volume m
    → IsCopyable (request host name bytes)
    → HasSpace volume (request host name bytes ∷ rs)
    → (m' : Memory) × (copyin (suc (suc fuel)) o volume.super.buf (some host) name m ≡ some m')
      × Represents o (add (request host name bytes) volume) m'
      × HasSpace (add (request host name bytes) volume) rs
unfolding copyin
copyin-add o volume m host name bytes rs fuel h ok space =
    let (m', e, h') = fat32_copyin-add o volume m (request host name bytes) rs fuel h ok space in
    (m', ap copied_memory e, h', HasSpace-add volume (request host name bytes) rs space)

-- The host files in place, and the four requests of `main`.
abbrev pub sources : HostFile → HostFile → HostFile → HostFile → Bytes → Sources
sources loader kernel busybox init mbr = record {
  loader = some loader;
  kernel = some kernel;
  busybox = some busybox;
  init = some init;
  mbr = some mbr;
}

abbrev pub requests :
    HostFile → HostFile → HostFile → HostFile → Bytes → Bytes → Bytes → Bytes → List Request
requests loader kernel busybox init l k b i =
    request loader (codes "loader") l
    ∷ request kernel (codes "kernel") k
    ∷ request busybox (codes "busybox") b
    ∷ request init (codes "init") i
    ∷ []

chain_lem {ℓ} :
    {A : Type ℓ} (x : Option A) (a : A) (f g h i j : A → Option A) (b c d e z : A)
    → x ≡ some a
    → f a ≡ some b
    → g b ≡ some c
    → h c ≡ some d
    → i d ≡ some e
    → j e ≡ some z
    → (x >>= f >>= g >>= h >>= i >>= j) ≡ some z
chain_lem x a f g h i j b c d e z hx hf hg hh hi hj =
    ap (λ x. x >>= f >>= g >>= h >>= i >>= j) hx
    ∙ ap (λ x. x >>= g >>= h >>= i >>= j) hf
    ∙ ap (λ x. x >>= h >>= i >>= j) hg
    ∙ ap (λ x. x >>= i >>= j) hh
    ∙ ap (λ x. x >>= j) hi
    ∙ hj

-- The boot code, of at most 440 bytes, lies in front of the partition.
pub boot_code-Represents :
    (o : ByteOrder) (volume : Volume) (m : Memory) (buf : ℕ) (mbr : Bytes)
    → buf + 1536 ≤ volume.super.buf
    → Represents o volume m
    → Represents o volume (write_all m buf (take 440 mbr))
boot_code-Represents o volume m buf mbr lo h =
    Represents-above o volume m (write_all m buf (take 440 mbr))
      (λ q k. write_all-outside m buf (take 440 mbr) q (inr (before q k (length-take_le 440 mbr))))
      h
  where
    before :
        (q : ℕ)
        → volume.super.buf ≤ q
        → length (take 440 mbr) ≤ 440
        → buf + length (take 440 mbr) ≤ q
    before q k e = omega (arith, lo)

-- The installer, on a disk with room for the GPT and a boot partition of 1 to 4095 MiB, given four
-- files that can be copied and fit the partition together, and a boot sector: it runs to its end.
-- The boot partition, from block 3 on, then holds a volume with the four files, and the disk begins
-- with at most 440 bytes of the boot sector.
pub install-files :
    (o : ByteOrder) (m : Memory) (buf disk_size boot_size fuel : ℕ)
    (loader kernel busybox init : HostFile) (l k b i mbr : Bytes)
    → boot_size * 1048576 + 32768 ≤ disk_size
    → disk_size < 2 ^ 63
    → 1 ≤ boot_size
    → boot_size < 4096
    → All IsCopyable (requests loader kernel busybox init l k b i)
    → HasSpace
        (fresh_volume (boot_config (boot_size * 2048)) (buf + 512 * 3))
        (requests loader kernel busybox init l k b i)
    → (m' : Memory) × (install
          (suc (suc fuel))
          o
          (sources loader kernel busybox init mbr)
          buf
          disk_size
          boot_size
          m
        ≡ some m')
      × Represents o
          (add_each
            (requests loader kernel busybox init l k b i)
            (fresh_volume (boot_config (boot_size * 2048)) (buf + 512 * 3)))
          m'
      × Holds m' buf (take 440 mbr)
unfolding install fresh_super
install-files o m buf disk_size boot_size fuel loader kernel busybox init l k b i mbr fit small lo
      hi (ok1, (ok2, (ok3, (ok4, _)))) space =
    let n = boot_size * 2048 in
    let fat = buf + 512 * 3 in
    let m1 = disk o m (config_of o buf disk_size (boot_size * 1048576)) in
    let v0 = fresh_volume (boot_config n) fat in
    let h0 : Represents o v0 (image o (boot_config n) fat m1) =
      image-Represents o (boot_config n) fat m1 (boot_config-IsUsable n (omega arith) (omega arith))
        (boot_config-clusters n (omega arith) (omega arith)) in
    let (m2, e2, h2, s2) =
      copyin-add o v0 (image o (boot_config n) fat m1) loader (codes "loader") l _ fuel h0 ok1
        space in
    let (m3, e3, h3, s3) = copyin-add o _ m2 kernel (codes "kernel") k _ fuel h2 ok2 s2 in
    let (m4, e4, h4, s4) = copyin-add o _ m3 busybox (codes "busybox") b _ fuel h3 ok3 s3 in
    let (m5, e5, h5, s5) = copyin-add o _ m4 init (codes "init") i [] fuel h4 ok4 s4 in
    let whole : n % 2 ^ 32 ≡ n = omega arith in
    (
      write_all m5 buf (take 440 mbr),
      rw (mkpart-both o m buf disk_size boot_size fit small, whole)
          (chain_lem (format o fat n m1) (image o (boot_config n) fat m1) _ _ _ _ _ m2 m3 m4 m5
            (write_all m5 buf (take 440 mbr)) (format-image o fat n m1 (omega arith) (omega arith))
            e2 e3 e4 e5 refl),
      boot_code-Represents o _ m5 buf mbr (le_refl (buf + 1536)) h5,
      write_all-Holds m5 buf (take 440 mbr),
    )
