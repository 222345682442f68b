-- ===== src/Util/Mkdir/Missing.antt =====
-- tlibc/mkdir.c: which of the directories of a path `sys_mkdir` is called for, and what is returned.
use tlibc.Base.{ℕ, ◌<◌, Bool, List, [], ◌∷◌, Bytes, length, if◌then◌else◌, bit_or}
use tlibc.Util.Mkdir.{Answers}

-- The paths of a list that are not found.
unfoldable pub missing : (Bytes → Bool) → List Bytes → List Bytes
missing found [] = []
missing found (p ∷ ps) = if found p then missing found ps else p ∷ missing found ps

-- The bits of the answers for the paths of a list, and of `ret`.
unfoldable pub or_all : Answers → ℕ → List Bytes → ℕ
or_all answers ret [] = ret
or_all answers ret (p ∷ ps) = or_all answers (bit_or ret (answers p)) ps

-- Each path is longer than the one in front of it, and the first one longer than `n`.
abbrev IsRising : ℕ → List Bytes → Type 0
IsRising n [] = Unit
IsRising n (p ∷ ps) = (n < length p) × IsRising (length p) ps
