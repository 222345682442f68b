-- ===== src/Tests/Volume.antt =====
-- Files copied to volumes of gpt/fat.c at concrete inputs.
use mathlib.Core.Path.{subst}
use tlibc.Base.{
  ◌^◌, ◌%◌, inr, none, length-take_le, ℕ, ◌+◌, ◌-◌, ◌*◌, ◌/◌, ◌<◌, ◌≤◌, ◌≡◌, ◌≢◌, inl, refl, true,
  false, some, List, [], ◌∷◌, ◌++◌, map, Bytes, Memory, Holds, codes, length, take, All, arith,
}
use tlibc.Endian.{little}
use tlibc.Fat.Create.{FatConfig, cdiv, image}
use tlibc.Fat.Create.Config.{IsUsable}
use tlibc.Fat.Mount.Fresh.{fresh_super}
use tlibc.Fat.Copyin.{HostFile, copied, failed, edquot, stem, suffix, fat32_copyin}
use tlibc.Fat.Copyin.Path.{first_sector}
use tlibc.Fat.Copyin.Stored.{with_entry, HoldsFiles, fat32_copyin-HoldsFiles}
use tlibc.Fat.Copyin.Several.{
  Request, IsCopyable, Represents, add, add_each, fat32_copyin-add, copy_each, copy_each-add_each,
}
use tlibc.Fat.Copyin.Represented.{fresh_volume, image-Represents}
use tlibc.Fat.Mount.{super_free}
use tlibc.Fat.Copyin.Outcome.{ReadsAtMost}
use tlibc.Fat.Copyin.Errors.{fat32_copyin-failed, fat32_copyin-Outside, fat32_copyin-full}

abbrev empty : Memory
empty q = 0

-- 64 sectors of 512 bytes, one to a cluster
abbrev small_disk : FatConfig
small_disk = record {
  n_sector = 64;
  bytes_per_sector = 512;
  cluster_size = 1;
  write_random_data = false;
  is_fixed = true;
}

small_disk-IsUsable : IsUsable small_disk
small_disk-IsUsable = record {
  accepted = record { sectors = omega arith; sector_size = inl refl; cluster = inl refl };
  clusters = omega arith;
  small = omega arith;
}

-- A host file of these bytes.
abbrev host_file : Bytes → HostFile
host_file bs = record {
  stat_size = some (length bs);
  seek_is_zero = true;
  read_up_to = λ n. some (take n bs);
  errno = 0;
}

abbrev a_request : Request
a_request = record {
  host = host_file (codes "abc");
  name = codes "a.txt";
  attributes = 32;
  bytes = codes "abc";
}

a_request-IsCopyable : IsCopyable a_request
unfolding stem suffix tlibc.Base.Lists.take
a_request-IsCopyable = record {
  delivers = record { stat = refl; seek = refl; read = refl };
  known = record {
    begins = (97, [], refl, λ e. absurd (omega arith));
    stem_short = omega arith;
    suffix_short = omega arith;
  };
  byte = omega arith;
  some_bytes = omega arith;
}

-- The same file twice, on a fresh volume
copy_each-add_each_example :
    (m' : Memory) × (copy_each 2 little 4096
        (a_request ∷ a_request ∷ [])
        (image little small_disk 4096 empty)
      ≡ some m')
    × Represents little (add_each (a_request ∷ a_request ∷ []) (fresh_volume small_disk 4096)) m'
unfolding fresh_super
copy_each-add_each_example =
    copy_each-add_each little (a_request ∷ a_request ∷ []) (fresh_volume small_disk 4096)
      (image little small_disk 4096 empty) 0
      (image-Represents little small_disk 4096 empty small_disk-IsUsable (omega arith))
      (a_request-IsCopyable, (a_request-IsCopyable, tt))
      (record { clusters = omega arith; entries = omega arith })

-- One more file, on the volume that the fresh one is.
fat32_copyin-HoldsFiles_example :
    (m' : Memory) × (fat32_copyin 2 little
        (image little small_disk 4096 empty)
        4096
        a_request.host
        (codes "a.txt")
        32
      ≡ copied (first_sector (fresh_super small_disk 4096) 3) m')
    × HoldsFiles little
        (with_entry (fresh_super small_disk 4096))
        (3 + cdiv 3 512)
        ((fresh_volume small_disk 4096).free - cdiv 3 512)
        m'
        (record {
          entry = 0;
          first = 3;
          name = codes "a.txt";
          attributes = 32;
          contents = codes "abc";
        }
          ∷ [])
unfolding fresh_super
fat32_copyin-HoldsFiles_example =
    let h = image-Represents little small_disk 4096 empty small_disk-IsUsable (omega arith) in
    fat32_copyin-HoldsFiles little (fresh_super small_disk 4096) 3
      (fresh_volume small_disk 4096).free (image little small_disk 4096 empty) [] a_request.host
      (codes "a.txt") (codes "abc") 32 0 h.laid_out h.holds a_request-IsCopyable.delivers
      (record { some_bytes = omega arith; clusters = omega arith; entry = omega arith })
      a_request-IsCopyable.known (omega arith)

host_file-ReadsAtMost : (bs : Bytes) → ReadsAtMost (host_file bs)
host_file-ReadsAtMost bs = record {
  bound = λ k bs' e. subst (λ t. length t ≤ k) (some_lem e) (length-take_le k bs);
}
  where
    some_lem : {xs ys : Bytes} → some xs ≡ some ys → xs ≡ ys
    some_lem e = cc

fresh_small : Represents little (fresh_volume small_disk 4096) (image little small_disk 4096 empty)
fresh_small = image-Represents little small_disk 4096 empty small_disk-IsUsable (omega arith)

a_copied :
    (m' : Memory) × (fat32_copyin 2 little
        (image little small_disk 4096 empty)
        4096
        a_request.host
        (codes "a.txt")
        32
      ≡ copied (first_sector (fresh_super small_disk 4096) 3) m')
    × Represents little (add a_request (fresh_volume small_disk 4096)) m'
unfolding fresh_super
a_copied =
    fat32_copyin-add little (fresh_volume small_disk 4096) (image little small_disk 4096 empty)
      a_request [] 0 fresh_small a_request-IsCopyable
      (record { clusters = omega arith; entries = omega arith })

-- The byte behind the volume
fat32_copyin-Outside_example :
    a_copied.0 (4096 + 512 * 64) ≡ image little small_disk 4096 empty (4096 + 512 * 64)
unfolding fresh_super
fat32_copyin-Outside_example =
    fat32_copyin-Outside little (fresh_volume small_disk 4096) 0
      (first_sector (fresh_super small_disk 4096) 3) (image little small_disk 4096 empty) a_copied.0
      a_request.host (codes "a.txt") 32 (4096 + 512 * 64) fresh_small
      (host_file-ReadsAtMost (codes "abc")) a_request-IsCopyable.known (inr (omega arith))
      a_copied.1

-- A file of a million bytes, which cannot be read, either
abbrev large : HostFile
large = record { stat_size = some 1000000; seek_is_zero = true; read_up_to = λ n. none; errno = 5 }

large-ReadsAtMost : ReadsAtMost large
large-ReadsAtMost = record { bound = λ k bs e. absurd (none_lem e) }
  where
    none_lem : {bs : Bytes} → none ≡ some bs → ⊥
    none_lem e = cc

fat32_copyin-full_example :
    fat32_copyin 2 little (image little small_disk 4096 empty) 4096 large (codes "a.txt") 32
    ≡ failed edquot (super_free (image little small_disk 4096 empty) (fresh_super small_disk 4096))
unfolding fresh_super
fat32_copyin-full_example =
    fat32_copyin-full little (fresh_volume small_disk 4096) 0 1000000
      (image little small_disk 4096 empty) large (codes "a.txt") 32 fresh_small refl
      (inl (omega arith))

large_fails :
    fat32_copyin 2 little (image little small_disk 4096 empty) 4096 large (codes "a.txt") 32
    ≡ failed edquot (super_free (image little small_disk 4096 empty) (fresh_super small_disk 4096))
unfolding fresh_super
large_fails =
    fat32_copyin-full little (fresh_volume small_disk 4096) 0 1000000
      (image little small_disk 4096 empty) large (codes "a.txt") 32 fresh_small refl
      (inl (omega arith))

fat32_copyin-failed_example :
    Represents little
      (fresh_volume small_disk 4096)
      (super_free (image little small_disk 4096 empty) (fresh_super small_disk 4096))
unfolding fresh_super
fat32_copyin-failed_example =
    fat32_copyin-failed little (fresh_volume small_disk 4096) 0 edquot
      (image little small_disk 4096 empty)
      (super_free (image little small_disk 4096 empty) (fresh_super small_disk 4096)) large
      (codes "a.txt") 32 fresh_small large-ReadsAtMost large_fails
