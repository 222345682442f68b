-- ===== src/Base/Mem.antt =====
-- A flat memory: what `memset`, `memcpy` and the stores of C do to bytes at addresses.
use Prim.Native.Nat.{ℕ, zero, suc, ◌+◌, ◌-◌, ◌≤◌, ◌<◌}
use mathlib.Core.Path.{◌≡◌, refl, ap₂, ◌∙◌}
use mathlib.Core.Bool.{Bool, ◌&&◌}
use mathlib.Core.Logic.{◌⊎◌}
use mathlib.Core.List.{[], ◌∷◌, ◌++◌, append-nil}
use native.Mathlib.Omega.{arith}
use tlibc.Base.Tests.{ltb, leb, ◌==◌, if◌then◌else◌}
use tlibc.Base.Lists.{Bytes, length}

abbrev pub Memory : Type 0
Memory = ℕ → ℕ

abbrev pub store : Memory → ℕ → ℕ → Memory
store m a v q = if q == a then v else m q

-- Is `q` one of the `n` addresses from `a` on?
abbrev pub within : ℕ → ℕ → ℕ → Bool
within a n q = leb a q && ltb q (a + n)

abbrev pub memset : Memory → ℕ → ℕ → ℕ → Memory
memset m a v n q = if within a n q then v else m q

-- The two areas do not overlap where the program copies.
abbrev pub memcpy : Memory → ℕ → ℕ → ℕ → Memory
memcpy m dst src n q = if within dst n q then m (src + (q - dst)) else m q

-- Bytes written one after the other, from address `a` on.
unfoldable pub write_all : Memory → ℕ → Bytes → Memory
write_all m a [] = m
write_all m a (b ∷ bs) = write_all (store m a b) (a + 1) bs

-- The bytes `bs` lie at address `a`.
abbrev pub Holds : Memory → ℕ → Bytes → Type 0
Holds m a [] = Unit
Holds m a (b ∷ bs) = (m a ≡ b) × Holds m (a + 1) bs

pub write_all-outside :
    (m : Memory) (a : ℕ) (bs : Bytes) (q : ℕ)
    → (q < a) ⊎ (a + length bs ≤ q)
    → write_all m a bs q ≡ m q
unfolding write_all
write_all-outside m a [] q h = refl
write_all-outside m a (b ∷ bs) q h = ground (arith, write_all-outside (store m a b) (a + 1) bs q)

write_all_self : (m : Memory) (a : ℕ) (b : ℕ) (bs : Bytes) → write_all m a (b ∷ bs) a ≡ b
unfolding write_all
write_all_self m a b bs = ground (arith, write_all-outside (store m a b) (a + 1) bs a)

pub write_all-Holds : (m : Memory) (a : ℕ) (bs : Bytes) → Holds (write_all m a bs) a bs
unfolding write_all
write_all-Holds m a [] = tt
write_all-Holds m a (b ∷ bs) = (write_all_self m a b bs, write_all-Holds (store m a b) (a + 1) bs)

pub write_all-append :
    (m : Memory) (a : ℕ) (bs cs : Bytes)
    → write_all m a (bs ++ cs) ≡ write_all (write_all m a bs) (a + length bs) cs
unfolding write_all
write_all-append m a [] cs = λ i. write_all m (omega_zero a i) cs
  where
    omega_zero : (a : ℕ) → a ≡ a + 0
    omega_zero a = omega arith
write_all-append m a (b ∷ bs) cs = ground (arith, write_all-append (store m a b) (a + 1) bs cs)

-- The `n` bytes from address `a` on.
unfoldable pub read_out : Memory → ℕ → ℕ → Bytes
read_out m a zero = []
read_out m a (suc n) = m a ∷ read_out m (a + 1) n

pub read_out-Holds :
    (m : Memory) (a : ℕ) (bs cs : Bytes) → Holds m a (bs ++ cs) → read_out m a (length bs) ≡ bs
unfolding read_out
read_out-Holds m a [] cs h = refl
read_out-Holds m a (b ∷ bs) cs (e, h) = ground (arith, read_out-Holds m (a + 1) bs cs h)

pub read_out-write_all :
    (m : Memory) (a : ℕ) (bs : Bytes) → read_out (write_all m a bs) a (length bs) ≡ bs
read_out-write_all m a bs =
    read_out-Holds (write_all m a bs) a bs [] (rw append-nil (write_all-Holds m a bs))

-- Only the bytes that are read matter.
pub read_out-cong :
    (m m' : Memory) (a n : ℕ)
    → ((q : ℕ) → a ≤ q → q < a + n → m q ≡ m' q)
    → read_out m a n ≡ read_out m' a n
unfolding read_out
read_out-cong m m' a zero h = refl
read_out-cong m m' a (suc n) h =
    ap₂ ◌∷◌ (h a (omega arith) (omega arith))
      (read_out-cong m m' (a + 1) n (λ q lo hi. h q (omega arith) (omega arith)))

pub Holds-cong :
    (m m' : Memory) (a : ℕ) (bs : Bytes)
    → Holds m a bs
    → ((q : ℕ) → a ≤ q → q < a + length bs → m' q ≡ m q)
    → Holds m' a bs
Holds-cong m m' a [] _ h = tt
Holds-cong m m' a (b ∷ bs) (e, k) h = (
  h a (omega arith) (omega arith) ∙ e,
  Holds-cong m m' (a + 1) bs k (λ q lo hi. h q (omega arith) (omega arith)),
)

pub memset-outside : (m : Memory) (a v n q : ℕ) → (q < a) ⊎ (a + n ≤ q) → memset m a v n q ≡ m q
memset-outside m a v n q h = ground arith

pub memcpy-outside :
    (m : Memory) (dst src n q : ℕ) → (q < dst) ⊎ (dst + n ≤ q) → memcpy m dst src n q ≡ m q
memcpy-outside m dst src n q h = ground arith

pub memset-inside : (m : Memory) (a v n q : ℕ) → a ≤ q → q < a + n → memset m a v n q ≡ v
memset-inside m a v n q lo hi = ground arith

pub memcpy-inside :
    (m : Memory) (dst src n q : ℕ)
    → dst ≤ q
    → q < dst + n
    → memcpy m dst src n q ≡ m (src + (q - dst))
memcpy-inside m dst src n q lo hi = ground arith
