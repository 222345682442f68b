-- ===== src/Tests/Start.antt =====
-- gpt/installer.c, gpt/mkgpt.c and bootloader/mbr.c at concrete inputs.
use tlibc.Base.{
  ◌^◌, ◌%◌, inr, none, length-take_le, ℕ, ◌+◌, ◌-◌, ◌*◌, ◌/◌, ◌<◌, ◌≤◌, ◌≡◌, ◌≢◌, inl, refl, true,
  false, some, List, [], ◌∷◌, ◌++◌, map, Bytes, Memory, Holds, codes, length, take, All, arith,
}
use tlibc.Endian.{little, of_le_bytes}
use tlibc.Boot.Disk.{Registers, Drive, Disk, IsLba28}
use tlibc.Boot.Mbr.{elf_start}
use tlibc.Mkgpt.Boot.{sectors, main-elf_start}
use tlibc.Fat.Mount.Fresh.{fresh_super}
use tlibc.Fat.Copyin.{HostFile, stem, suffix}
use tlibc.Fat.Copyin.Stages.{IsName}
use tlibc.Fat.Copyin.Several.{IsCopyable, Represents, add_each}
use tlibc.Fat.Copyin.Represented.{fresh_volume}
use tlibc.Install.{install}
use tlibc.Install.Files.{sources, requests, boot_config, install-files}
use tlibc.Mkgpt.{boot_volume, Calls, finished, main}
use tlibc.Mkgpt.Offsets
use tlibc.Mkgpt.Offsets.{Job, AllWell, jobs_of, lines, Located, partition_lines, main-Located}

abbrev empty : Memory
empty q = 0

abbrev hello : HostFile
hello = record {
  stat_size = some 5;
  seek_is_zero = true;
  read_up_to = λ n. some (take n (codes "hello"));
  errno = 0;
}

hello-IsCopyable :
    (name : Bytes) (attributes : ℕ)
    → IsName name
    → attributes < 256
    → IsCopyable
        (record { host = hello; name = name; attributes = attributes; bytes = codes "hello" })
unfolding tlibc.Base.Lists.take
hello-IsCopyable name attributes known byte = record {
  delivers = record { stat = refl; seek = refl; read = refl };
  known = known;
  byte = byte;
  some_bytes = omega arith;
}

plain-IsName :
    (name : Bytes) (c : ℕ) (rest : Bytes)
    → stem name ≡ c ∷ rest
    → c ≢ 0
    → length (stem name) ≤ 8
    → length (suffix name) ≤ 24
    → IsName name
plain-IsName name c rest e ne short tail_short = record {
  begins = (c, rest, e, ne);
  stem_short = short;
  suffix_short = tail_short;
}

loader-IsName : IsName (codes "loader")
unfolding stem suffix
loader-IsName =
    plain-IsName (codes "loader") 108 (codes "oader") refl (λ e. absurd (omega arith)) (omega arith)
      (omega arith)

linuz-IsName : IsName (codes "linuz")
unfolding stem suffix
linuz-IsName =
    plain-IsName (codes "linuz") 108 (codes "inuz") refl (λ e. absurd (omega arith)) (omega arith)
      (omega arith)

kernel-IsName : IsName (codes "kernel")
unfolding stem suffix
kernel-IsName =
    plain-IsName (codes "kernel") 107 (codes "ernel") refl (λ e. absurd (omega arith)) (omega arith)
      (omega arith)

busybox-IsName : IsName (codes "busybox")
unfolding stem suffix
busybox-IsName =
    plain-IsName (codes "busybox") 98 (codes "usybox") refl (λ e. absurd (omega arith))
      (omega arith) (omega arith)

init-IsName : IsName (codes "init")
unfolding stem suffix
init-IsName =
    plain-IsName (codes "init") 105 (codes "nit") refl (λ e. absurd (omega arith)) (omega arith)
      (omega arith)

requests-IsCopyable : All IsCopyable (
    requests hello hello hello hello
      (codes "hello")
      (codes "hello")
      (codes "hello")
      (codes "hello"))
requests-IsCopyable = (
  hello-IsCopyable (codes "loader") 5 loader-IsName (omega arith),
  (
    hello-IsCopyable (codes "kernel") 5 kernel-IsName (omega arith),
    (
      hello-IsCopyable (codes "busybox") 5 busybox-IsName (omega arith),
      (hello-IsCopyable (codes "init") 5 init-IsName (omega arith), tt),
    ),
  ),
)

-- A boot partition of 64 MiB on a disk of 128 MiB
install-files_example :
    (m' : Memory) × (install 2 little
        (sources hello hello hello hello (codes "boot"))
        4096
        134217728
        64
        empty
      ≡ some m')
    × Represents little
        (add_each
          (requests hello hello hello hello
            (codes "hello")
            (codes "hello")
            (codes "hello")
            (codes "hello"))
          (fresh_volume (boot_config (64 * 2048)) (4096 + 512 * 3)))
        m'
    × Holds m' 4096 (take 440 (codes "boot"))
unfolding fresh_super
install-files_example =
    install-files little empty 4096 134217728 64 0 hello hello hello hello (codes "hello")
      (codes "hello") (codes "hello") (codes "hello") (codes "boot") (omega arith) (omega arith)
      (omega arith) (omega arith) requests-IsCopyable
      (record { clusters = omega arith; entries = omega arith })

abbrev calls : Calls
calls = record {
  opened = true;
  mapped = some 4096;
  loader = hello;
  kernel = hello;
  busybox = hello;
  init = hello;
  mbr = some (codes "boot");
  written = true;
}

abbrev jobs : List Job
jobs = jobs_of calls (codes "hello") (codes "hello") (codes "hello") (codes "hello")

jobs-IsCopyable : All IsCopyable (map Offsets.request jobs)
jobs-IsCopyable = (
  hello-IsCopyable (codes "linuz") 5 linuz-IsName (omega arith),
  (
    hello-IsCopyable (codes "kernel") 5 kernel-IsName (omega arith),
    (
      hello-IsCopyable (codes "busybox") 1 busybox-IsName (omega arith),
      (hello-IsCopyable (codes "init") 1 init-IsName (omega arith), tt),
    ),
  ),
)

main-Located_example :
    (m' : Memory) × (main 2 little calls empty ≡ finished (partition_lines ++ lines 3 jobs) m')
    × Located (4096 + 512 * 3) m' 3 jobs
    × Represents little
        (add_each
          (map Offsets.request jobs)
          (fresh_volume (boot_config boot_volume) (4096 + 512 * 3)))
        m'
    × Holds m' 4096 (take 440 (codes "boot"))
unfolding fresh_super
main-Located_example =
    main-Located little empty calls 4096 0 (codes "hello") (codes "hello") (codes "hello")
      (codes "hello") (codes "boot")
      (record { opened = refl; mapped = refl; read = refl; written = refl }) jobs-IsCopyable
      (record { clusters = omega arith; entries = omega arith })

-- The disk that is written, and a drive with it.
written :
    (m' : Memory) × (main 2 little calls empty ≡ finished (partition_lines ++ lines 3 jobs) m')
    × Located (4096 + 512 * 3) m' 3 jobs
    × Represents little
        (add_each
          (map Offsets.request jobs)
          (fresh_volume (boot_config boot_volume) (4096 + 512 * 3)))
        m'
    × Holds m' 4096 (take 440 (codes "boot"))
unfolding fresh_super
written =
    main-Located little empty calls 4096 0 (codes "hello") (codes "hello") (codes "hello")
      (codes "hello") (codes "boot")
      (record { opened = refl; mapped = refl; read = refl; written = refl }) jobs-IsCopyable
      (record { clusters = omega arith; entries = omega arith })

abbrev lba : Registers → ℕ
lba r = r.lba_low + r.lba_mid * 2 ^ 8 + r.lba_high * 2 ^ 16 + (r.drive_select - 0xE0) * 2 ^ 24

abbrev drive_of : Disk → Drive
drive_of disk r i = of_le_bytes (
    disk (lba r) (i * 4)
    ∷ disk (lba r) (i * 4 + 1)
    ∷ disk (lba r) (i * 4 + 2)
    ∷ disk (lba r) (i * 4 + 3)
    ∷ [])

drive_of-IsLba28 : (m : Memory) (buf : ℕ) → IsLba28 (drive_of (sectors m buf)) (sectors m buf)
drive_of-IsLba28 m buf = record {
  is_byte = λ s i. omega arith;
  words = λ low mid high top i ht hi. let e : 0xE0 + top - 0xE0 ≡ top = omega arith in rw e refl;
}

-- The letter 'e' of the loader, and the kernel behind it
main-elf_start_example :
    ((elf_start (drive_of (sectors written.0 4096)) empty).memory
        ((elf_start (drive_of (sectors written.0 4096)) empty).entry + 1)
      ≡ 101)
    × Holds written.0
        (4096 + 512 * (elf_start (drive_of (sectors written.0 4096)) empty).argument)
        (codes "hello")
unfolding fresh_super
main-elf_start_example =
    main-elf_start little empty written.0 empty calls 4096 0 (codes "hello") (codes "hello")
      (codes "hello") (codes "hello") (codes "boot") (partition_lines ++ lines 3 jobs)
      (drive_of (sectors written.0 4096)) 1
      (record { opened = refl; mapped = refl; read = refl; written = refl }) jobs-IsCopyable
      (record { clusters = omega arith; entries = omega arith }) written.1
      (drive_of-IsLba28 written.0 4096) (omega arith) (omega arith) (omega arith)
