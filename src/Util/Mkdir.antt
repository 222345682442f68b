-- ===== src/Util/Mkdir.antt =====
-- tlibc/mkdir.c: a directory and the ones above it.
pub mod Paths
pub mod Missing
use tlibc.Base.{
  ℕ, zero, suc, ◌+◌, Bool, true, false, not, Option, none, some, List, [], ◌∷◌, ◌++◌, Bytes, length,
  ltb, ◌==◌, if◌then◌else◌, ◌>>=◌, bit_or,
}

-- The kernel's answers to `sys_mkdir`: its result, an `int` as its bit pattern, 0 for success.
abbrev pub Answers : Type 0
Answers = Bytes → ℕ

-- The paths that `sys_open` finds, and those that `sys_mkdir` was called for, in order.
pub record World : Type 0 where
  pub found : Bytes → Bool
  pub asked : List Bytes

-- Equality of paths.
pub same : Bytes → Bytes → Bool
same [] [] = true
same [] (d ∷ t) = false
same (c ∷ s) [] = false
same (c ∷ s) (d ∷ t) = let rest = same s t in if c == d then rest else false

-- `sys_mkdir`: a directory that was made is found from then on.
abbrev pub made : Answers → World → Bytes → World
made answers w path = record {
  found = λ p. if same p path then (if answers path == 0 then true else w.found p) else w.found p;
  asked = w.asked ++ path ∷ [];
}

-- `sys_open`, and `sys_mkdir` if it fails; `ret |= ...`.
pub ensure : Answers → ℕ × World → Bytes → ℕ × World
ensure answers (ret, w) path =
    if w.found path then (ret, w) else (bit_or ret (answers path), made answers w path)

-- The string in an array. `none`: no NUL stands in it, and a read goes on behind it.
unfoldable pub string_in : Bytes → Option Bytes
string_in [] = none
string_in (c ∷ s) = if c == 0 then some [] else string_in s >>= λ t. some (c ∷ t)

-- What `mkdir` leaves: the bits of its results, the directories, and its static array, for the
-- next call.
pub record Made : Type 0 where
  pub ret : ℕ
  pub world : World
  pub buf : Bytes

-- "make dir at last level"
make_last : Answers → Bytes → Bool → ℕ × World → Option Made
make_last answers buf true (ret, w) = some (record { ret = ret; world = w; buf = buf })
make_last answers buf false (ret, w) = string_in buf >>= λ path.
    let done = ensure answers (ret, w) path in
    some (record { ret = done.0; world = done.1; buf = buf })

-- The loop at `i`, from `dir[i]` on: the bytes of `buf` below `i`, and those from `i` on. `none`: a
-- write or a read behind the array.
pub mkdir_from : Answers → Bytes → Bytes → Bytes → Bool → ℕ × World → Option Made
mkdir_from answers [] below above is_end s = make_last answers (below ++ above) is_end s
mkdir_from answers (c ∷ dir) below [] is_end s = none
mkdir_from answers (c ∷ dir) below (old ∷ above) is_end s =
    let cut = string_in (below ++ 0 ∷ above) >>= λ path.
    mkdir_from answers dir (below ++ c ∷ []) above true (ensure answers s path) in
    let rest = mkdir_from answers dir (below ++ c ∷ []) above false s in
    if c == b'/' then cut else rest

-- `mkdir`: the first slash of an absolute path is copied before the loop.
pub mkdir : Answers → World → Bytes → Bytes → Option Made
mkdir answers w [] buf = mkdir_from answers [] [] buf true (0, w)
mkdir answers w (c ∷ dir) [] = none
mkdir answers w (c ∷ dir) (old ∷ buf) =
    let absolute = mkdir_from answers dir (c ∷ []) buf true (0, w) in
    let relative = mkdir_from answers (c ∷ dir) [] (old ∷ buf) true (0, w) in
    if c == b'/' then absolute else relative

-- `main` over the arguments: 0, or 1 if a call failed.
main_from : Answers → List Bytes → ℕ → World → Bytes → Option (ℕ × World)
main_from answers [] ret w buf = some (ret, w)
main_from answers (dir ∷ dirs) ret w buf = mkdir answers w dir buf >>= λ r.
    main_from answers dirs (bit_or ret (if r.ret == 0 then 0 else 1)) r.world r.buf

abbrev zeros : ℕ → Bytes
zeros zero = []
zeros (suc n) = 0 ∷ zeros n

-- With no argument, the usage is printed, and the result is 1.
pub main : Answers → World → List Bytes → Option (ℕ × World)
main answers w [] = some (1, w)
main answers w (dir ∷ dirs) = main_from answers (dir ∷ dirs) 0 w (zeros 256)
