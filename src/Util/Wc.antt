-- ===== src/Util/Wc.antt =====
-- tlibc/wc.c: lines, words and bytes, counted in pieces as `sys_read` hands them out.
use tlibc.Base.{
  ℕ, suc, ◌+◌, ◌-◌, ◌%◌, ◌^◌, ◌≤◌, ◌≡◌, refl, ap, ◌∙◌, Bool, true, false, ◌&&◌, ◌||◌, not, Option,
  none, some, List, [], ◌∷◌, ◌++◌, append_assoc, append-nil, Bytes, codes, length, length-append,
  All, arith, ltb, leb, ◌==◌, if◌then◌else◌,
}

-- The characters that stand in the loop over the miscellaneous ones.
abbrev misc : Bytes
misc = codes "~`!@#$%^&*()-_[]{}\"'':<>,.\\/?"

abbrev is_any : Bytes → ℕ → Bool
is_any [] c = false
is_any (d ∷ ds) c = (c == d) || is_any ds c

-- `chtype[pool[i]]`. A `char` is signed: a byte of 128 or more reads what lies below the array,
-- which the parameter stands for.
pub is_word_char : (ℕ → Bool) → ℕ → Bool
is_word_char below c =
    if ltb c 0x80
    then (leb b'a' c && leb c b'z')
      || (leb b'A' c && leb c b'Z')
      || (leb b'0' c && leb c b'9')
      || is_any misc c
    else below (0x100 - c)

-- The variables of `wc`.
pub record Counts : Type 0 where
  pub nbyte : ℕ
  pub nword : ℕ
  pub nline : ℕ
  pub white : Bool
  pub ended : Bool

-- The body of the inner loop. The counters are `uint32_t`; `white` ends as "no word character",
-- whatever it was.
count_byte : (ℕ → Bool) → Counts → ℕ → Counts
count_byte below s c =
    let line = c == 10 in
    let word = is_word_char below c in
    record {
      nbyte = s.nbyte;
      nword = if s.white && word then (s.nword + 1) % 2 ^ 32 else s.nword;
      nline = if line then (s.nline + 1) % 2 ^ 32 else s.nline;
      white = not word;
      ended = s.ended || line;
    }

count_pool : (ℕ → Bool) → Counts → Bytes → Counts
count_pool below s [] = s
count_pool below s (c ∷ pool) = count_pool below (count_byte below s c) pool

-- `nbyte += nread`
add_nread : ℕ → Counts → Counts
add_nread nread s = record {
  nbyte = (s.nbyte + nread) % 2 ^ 32;
  nword = s.nword;
  nline = s.nline;
  white = s.white;
  ended = s.ended;
}

-- The outer loop: it stops at a read of no byte, and at one that fails, where the list ends.
count_reads : (ℕ → Bool) → Counts → List Bytes → Counts
count_reads below s [] = s
count_reads below s ([] ∷ reads) = s
count_reads below s ((c ∷ pool) ∷ reads) =
    count_reads below (add_nread (suc (length pool)) (count_pool below s (c ∷ pool))) reads

-- Is there nothing to read at all?
abbrev is_empty : List Bytes → Bool
is_empty [] = false
is_empty ([] ∷ reads) = true
is_empty (pool ∷ reads) = false

-- `if (!end) { nline++; }`
pub finish : Counts → ℕ × ℕ × ℕ
finish s = (if s.ended then s.nline else (s.nline + 1) % 2 ^ 32, s.nword, s.nbyte)

-- `wc`: the numbers of lines, words and bytes that it prints. `none`: the first read fails.
pub wc : (ℕ → Bool) → List Bytes → Option (ℕ × ℕ × ℕ)
wc below [] = none
wc below (pool ∷ reads) = some (
    finish (
      count_reads below
        (record { nbyte = 0; nword = 0; nline = 0; white = true; ended = is_empty (pool ∷ reads) })
        (pool ∷ reads)))

-- The reference: newlines, and words as the places where a word begins, of a whole text.
unfoldable pub newlines : Bytes → ℕ
newlines [] = 0
newlines (c ∷ s) = (if c == 10 then 1 else 0) + newlines s

-- `before` is the byte before the text.
unfoldable pub word_starts : (ℕ → Bool) → ℕ → Bytes → ℕ
word_starts below before [] = 0
word_starts below before (c ∷ s) =
    (if is_word_char below c && not (is_word_char below before) then 1 else 0)
    + word_starts below c s

unfoldable pub concat : List Bytes → Bytes
concat [] = []
concat (s ∷ ss) = s ++ concat ss

abbrev IsRead : Bytes → Type 0
IsRead s = 1 ≤ length s

unfoldable last_byte : ℕ → Bytes → ℕ
last_byte before [] = before
last_byte before (c ∷ s) = last_byte c s

-- The variables when `t` was counted, of which `n` bytes were added up.
abbrev counted : (ℕ → Bool) → Bytes → ℕ → Counts
counted below t n = record {
  nbyte = n;
  nword = word_starts below 32 t % 2 ^ 32;
  nline = newlines t % 2 ^ 32;
  white = not (is_word_char below (last_byte 32 t));
  ended = not (newlines t == 0);
}

newlines-append : (s t : Bytes) → newlines (s ++ t) ≡ newlines s + newlines t
unfolding newlines
newlines-append [] t = omega arith
newlines-append (c ∷ s) t = omega (arith, newlines-append s t)

word_starts-append :
    (below : ℕ → Bool) (before : ℕ) (s t : Bytes)
    → word_starts below before (s ++ t)
      ≡ word_starts below before s + word_starts below (last_byte before s) t
unfolding word_starts last_byte
word_starts-append below before [] t = omega arith
word_starts-append below before (c ∷ s) t = omega (arith, word_starts-append below c s t)

last_byte-append :
    (before : ℕ) (s t : Bytes) → last_byte before (s ++ t) ≡ last_byte (last_byte before s) t
unfolding last_byte
last_byte-append before [] t = refl
last_byte-append before (c ∷ s) t = last_byte-append c s t

next-word :
    (w v : Bool) (n : ℕ)
    → (if not w && v then (n % 2 ^ 32 + 1) % 2 ^ 32 else n % 2 ^ 32)
      ≡ (n + ((if v && not w then 1 else 0) + 0)) % 2 ^ 32
next-word true true n = ground arith
next-word true false n = ground arith
next-word false true n = ground arith
next-word false false n = ground arith

next-line :
    (c n : ℕ)
    → (if c == 10 then (n % 2 ^ 32 + 1) % 2 ^ 32 else n % 2 ^ 32)
      ≡ (n + ((if c == 10 then 1 else 0) + 0)) % 2 ^ 32
next-line c n = ground arith

next-ended :
    (c n : ℕ) → (not (n == 0) || (c == 10)) ≡ not (n + ((if c == 10 then 1 else 0) + 0) == 0)
next-ended c n = ground arith

count_byte-counted :
    (below : ℕ → Bool) (t : Bytes) (n c : ℕ)
    → count_byte below (counted below t n) c ≡ counted below (t ++ c ∷ []) n
unfolding count_byte newlines word_starts last_byte
count_byte-counted below t n c =
    rw
      (
        newlines-append t (c ∷ []),
        word_starts-append below 32 t (c ∷ []),
        last_byte-append 32 t (c ∷ []),
        next-word (is_word_char below (last_byte 32 t)) (is_word_char below c)
            (word_starts below 32 t),
        next-line c (newlines t),
        next-ended c (newlines t),
      )
      refl

count_pool-counted :
    (below : ℕ → Bool) (t pool : Bytes) (n : ℕ)
    → count_pool below (counted below t n) pool ≡ counted below (t ++ pool) n
unfolding count_pool
count_pool-counted below t [] n = rw (append-nil t) refl
count_pool-counted below t (c ∷ pool) n =
    ap (λ s. count_pool below s pool) (count_byte-counted below t n c)
    ∙ count_pool-counted below (t ++ c ∷ []) pool n
    ∙ ap (λ u. counted below u n) (append_assoc t (c ∷ []) pool)

count_reads-counted :
    (below : ℕ → Bool) (t : Bytes) (reads : List Bytes)
    → All IsRead reads
    → count_reads below (counted below t (length t % 2 ^ 32)) reads
      ≡ counted below (t ++ concat reads) (length (t ++ concat reads) % 2 ^ 32)
unfolding count_reads concat add_nread
count_reads-counted below t [] h = rw (append-nil t) refl
count_reads-counted below t ([] ∷ reads) h = absurd (omega (arith, h.0))
count_reads-counted below t ((c ∷ pool) ∷ reads) h =
    let e : (length t % 2 ^ 32 + suc (length pool)) % 2 ^ 32 ≡ length (t ++ c ∷ pool) % 2 ^ 32 =
      omega (arith, length-append t (c ∷ pool)) in
    rw (count_pool-counted below t (c ∷ pool) (length t % 2 ^ 32), e)
      (count_reads-counted below (t ++ c ∷ pool) reads h.1
        ∙ ap (λ u. counted below u (length u % 2 ^ 32)) (append_assoc t (c ∷ pool) (concat reads)))

-- What `wc` prints of a text.
abbrev pub summary : (ℕ → Bool) → Bytes → ℕ × ℕ × ℕ
summary below t = (
  (if newlines t == 0 then 1 else newlines t % 2 ^ 32),
  word_starts below 32 t % 2 ^ 32,
  length t % 2 ^ 32,
)

start :
    (below : ℕ → Bool) (reads : List Bytes)
    → count_reads below
        (record { nbyte = 0; nword = 0; nline = 0; white = true; ended = false })
        reads
      ≡ count_reads below (counted below [] (0 % 2 ^ 32)) reads
unfolding newlines word_starts last_byte is_word_char
start below reads = refl

finish-counted :
    (below : ℕ → Bool) (t : Bytes) → finish (counted below t (length t % 2 ^ 32)) ≡ summary below t
unfolding finish
finish-counted below t = ground arith

-- However `sys_read` cuts an input that is not empty into pieces, `wc` prints its newlines, or 1
-- when it has none, its words and its bytes, each modulo 2 ^ 32. A word is a run of bytes that the
-- program's own table has as letters.
pub wc-summary :
    (below : ℕ → Bool) (pool : Bytes) (reads : List Bytes)
    → All IsRead (pool ∷ reads)
    → wc below (pool ∷ reads) ≡ some (summary below (concat (pool ∷ reads)))
unfolding wc finish
wc-summary below [] reads h = absurd (omega (arith, h.0))
wc-summary below (c ∷ pool) reads h =
    let t = concat ((c ∷ pool) ∷ reads) in
    ap (λ s. some (finish s))
      (start below ((c ∷ pool) ∷ reads) ∙ count_reads-counted below [] ((c ∷ pool) ∷ reads) h)
    ∙ ap some (finish-counted below t)
