-- ===== src/Str/Laws.antt =====
-- The string routines against their descriptions: a C string is its bytes before the first NUL.
use tlibc.Base.{
  ℕ, zero, suc, ◌+◌, ◌-◌, ◌*◌, ◌^◌, ◌≤◌, ◌<◌, ◌≡◌, ◌≢◌, refl, ◌⊎◌, inl, inr, some, [], ◌∷◌, ◌++◌,
  Bytes, Memory, store, memset, write_all, length, arith, bit_and, if◌then◌else◌,
}
use mathlib.Core.Path.{fun_ext}
use tlibc.Str.{strlen, strlen_from, memset_loop, memset_from, strcpy, strcpy_from}
use tlibc.Str.{atoi, atoi_from, add_digit, is_digit}

-- `bs` is the C string at address `a`: its bytes, none of them NUL, and a NUL behind them.
abbrev pub IsCString : Memory → ℕ → Bytes → Type 0
IsCString m a [] = m a ≡ 0
IsCString m a (b ∷ bs) = (m a ≡ b) × (b ≢ 0) × IsCString m (a + 1) bs

strlen_from-length :
    (fuel : ℕ) (m : Memory) (s i a : ℕ) (bs : Bytes)
    → a ≡ s + i
    → IsCString m a bs
    → length bs < fuel
    → strlen_from fuel m s i ≡ some (i + length bs)
unfolding strlen_from
strlen_from-length zero m s i a bs at h lt = absurd (omega arith)
strlen_from-length (suc fuel) m s i a [] at h lt = ground arith
strlen_from-length (suc fuel) m s i a (b ∷ bs) at (e, ne, h) lt =
    ground (arith, strlen_from-length fuel m s (i + 1) (a + 1) bs (omega arith) h (omega arith))

-- `Strlen` of a C string ends and returns the number of its bytes; one round more than that is
-- enough fuel.
strlen-length :
    (m : Memory) (s : ℕ) (bs : Bytes) (fuel : ℕ)
    → IsCString m s bs
    → length bs < fuel
    → strlen fuel m s ≡ some (length bs)
unfolding strlen
strlen-length m s bs fuel h lt =
    ground (arith, strlen_from-length fuel m s 0 s bs (omega arith) h lt)

memset_from-memset :
    (left : ℕ) (m : Memory) (a val i q : ℕ)
    → memset_from left m a val i q ≡ memset m (a + i) (bit_and val 0xff) left q
unfolding memset_from
memset_from-memset zero m a val i q = ground arith
memset_from-memset (suc left) m a val i q =
    ground (arith, memset_from-memset left (store m (a + i) (bit_and val 0xff)) a val (i + 1) q)

-- `Memset` returns its address, and puts the low byte of `val` at exactly the `len` addresses
-- from there on.
memset_loop-memset :
    (m : Memory) (a val len : ℕ)
    → ((memset_loop m a val len).0 ≡ a)
      × ((memset_loop m a val len).1 ≡ memset m a (bit_and val 0xff) len)
unfolding memset_loop
memset_loop-memset m a val len =
    (refl, fun_ext λ q. ground (arith, memset_from-memset len m a val 0 q))

IsCString-store :
    (m : Memory) (a p v : ℕ) (bs : Bytes)
    → (p < a) ⊎ (a + length bs < p)
    → IsCString m a bs
    → IsCString (store m p v) a bs
IsCString-store m a p v [] apart h = ground arith
IsCString-store m a p v (b ∷ bs) apart (e, ne, h) =
    (ground arith, ne, IsCString-store m (a + 1) p v bs (step apart) h)
  where
    step : (p < a) ⊎ (a + length (b ∷ bs) < p) → (p < a + 1) ⊎ (a + 1 + length bs < p)
    step (inl l) = inl (omega arith)
    step (inr r) = inr (omega arith)

strcpy_from-write_all :
    (fuel : ℕ) (m : Memory) (dst src : ℕ) (bs : Bytes)
    → IsCString m src bs
    → length bs < fuel
    → (dst < src) ⊎ (src + length bs < dst)
    → strcpy_from fuel m dst src ≡ some (dst + length bs, write_all m dst (bs ++ 0 ∷ []))
unfolding strcpy_from write_all
strcpy_from-write_all zero m dst src bs h lt apart = absurd (omega arith)
strcpy_from-write_all (suc fuel) m dst src [] h lt apart = ground arith
strcpy_from-write_all (suc fuel) m dst src (b ∷ bs) (e, ne, h) lt apart = rw e (
    ground (
      arith,
      strcpy_from-write_all fuel (store m dst b) (dst + 1) (src + 1) bs
          (IsCString-store m (src + 1) dst b bs (before apart) h) (omega arith) (after apart),
    ))
  where
    before :
        (dst < src) ⊎ (src + length (b ∷ bs) < dst) → (dst < src + 1) ⊎ (src + 1 + length bs < dst)
    before (inl l) = inl (omega arith)
    before (inr r) = inr (omega arith)

    after :
        (dst < src) ⊎ (src + length (b ∷ bs) < dst)
        → (dst + 1 < src + 1) ⊎ (src + 1 + length bs < dst + 1)
    after (inl l) = inl (omega arith)
    after (inr r) = inr (omega arith)

-- `Strcpy` to an address that is not NULL, from a C string that the copy does not run into (the
-- destination stands below the source or beyond its NUL), ends. It writes the bytes and a NUL,
-- changes no other address, and returns the address of the NUL.
pub strcpy-write_all :
    (m : Memory) (dst src : ℕ) (bs : Bytes) (fuel : ℕ)
    → dst ≢ 0
    → IsCString m src bs
    → length bs < fuel
    → (dst < src) ⊎ (src + length bs < dst)
    → strcpy fuel m dst src ≡ some (dst + length bs, write_all m dst (bs ++ 0 ∷ []))
unfolding strcpy
strcpy-write_all m dst src bs fuel ne h lt apart =
    ground (arith, strcpy_from-write_all fuel m dst src bs h lt apart)

-- The number that the digits among the bytes spell behind `n`, with no bound.
unfoldable pub digits_value : ℕ → Bytes → ℕ
digits_value n [] = n
digits_value n (c ∷ s) = digits_value (if is_digit c then n * 10 + (c - b'0') else n) s

pub le-digits_value : (s : Bytes) (n : ℕ) → n ≤ digits_value n s
unfolding digits_value
le-digits_value [] n = omega arith
le-digits_value (c ∷ s) n =
    ground (arith, le-digits_value s (n * 10 + (c - b'0')), le-digits_value s n)

atoi_from-digits_value :
    (s : Bytes) (n : ℕ) → digits_value n s < 2 ^ 31 → atoi_from n s ≡ some (digits_value n s)
unfolding atoi_from add_digit digits_value
atoi_from-digits_value [] n h = refl
atoi_from-digits_value (c ∷ s) n h = ground (
  arith,
  le-digits_value s (n * 10 + (c - b'0')),
  atoi_from-digits_value s (n * 10 + (c - b'0')),
  atoi_from-digits_value s n,
)

-- `atoi` of any text whose digits, all others left out, spell a number below 2 ^ 31 returns that
-- number: a sign is skipped like every byte that is no digit.
pub atoi-digits_value : (s : Bytes) → digits_value 0 s < 2 ^ 31 → atoi s ≡ some (digits_value 0 s)
unfolding atoi
atoi-digits_value s h = atoi_from-digits_value s 0 h
