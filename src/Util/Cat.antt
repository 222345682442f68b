-- ===== src/Util/Cat.antt =====
-- tlibc/cat.c and tlibc/echo.c: what they write.
use tlibc.Base.{
  ℕ, ◌-◌, ◌%◌, ◌^◌, ◌≤◌, ◌<◌, ◌≡◌, Bool, not, ◌||◌, List, [], ◌∷◌, ◌++◌, Bytes, codes, ◌==◌,
  if◌then◌else◌, bit_and, arith,
}
use tlibc.Base.Bits.{bit_and_low}

-- What a program leaves on its two outputs, and its exit code.
pub record Output : Type 0 where
  pub out : Bytes
  pub err : Bytes
  pub code : ℕ

-- The loop over `sys_read(0, buf, sizeof(buf))`: it stops at a read of no byte, and at one that
-- fails, where the list ends.
pub copy_input : List Bytes → Bytes
copy_input [] = []
copy_input ([] ∷ reads) = []
copy_input ((c ∷ pool) ∷ reads) = (c ∷ pool) ++ copy_input reads

-- A file that is open: its bytes, and the word that `sys_mmap` returns.
pub record Opened : Type 0 where
  pub contents : Bytes
  pub mapped : ℕ

abbrev is_bad : ℕ → Bool
is_bad word = (word == 2 ^ 64 - 1) || not (bit_and word 0xfff == 0)

pub write_file : Opened → Output
write_file f =
    if is_bad f.mapped
    then record { out = []; err = codes "Bad mmap, abort\n"; code = 1 }
    else record { out = f.contents; err = []; code = 0 }

-- `main` of cat.c: without an argument, with one that cannot be opened, and with one that can.
pub data Source : Type 0 where
  input : List Bytes → Source
  missing : Source
  file : Opened → Source

pub cat : Source → Output
cat (input reads) = record { out = copy_input reads; err = []; code = 0 }
cat missing = record { out = []; err = []; code = 1 }
cat (file f) = write_file f

-- A file is written as it is when it is mapped to a page, and not at all when `sys_mmap` returns an
-- error number, negated, in 64 bits.
pub cat-file :
    (f : Opened)
    → ((f.mapped % 4096 ≡ 0) → (cat (file f)).out ≡ f.contents)
      × ((2 ^ 64 - 4095 ≤ f.mapped)
          → f.mapped < 2 ^ 64
          → cat (file f) ≡ record { out = []; err = codes "Bad mmap, abort\n"; code = 1 })
unfolding cat write_file
cat-file f =
    (λ h. ground (arith, bit_and_low 12 f.mapped), λ lo hi. ground (arith, bit_and_low 12 f.mapped))

-- `main` of echo.c: each argument, and a blank behind it.
pub echo : List Bytes → Bytes
echo [] = codes "\n"
echo (a ∷ args) = a ++ (codes " " ++ echo args)
