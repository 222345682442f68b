-- ===== src/Util/Seq.antt =====
-- tlibc/seq.c: the numbers from the first to the last, a line each.
use tlibc.Base.{
  ℕ, zero, suc, ◌+◌, ◌-◌, ◌^◌, ◌≤◌, ◌<◌, ◌≡◌, refl, sym, ap, ◌∙◌, true, false, Option, none, some,
  List, [], ◌∷◌, ◌++◌, append-nil, append_assoc, ◌≢◌, Bytes, Memory, codes, length, length-append,
  arith, ltb, leb, if◌then◌else◌, ◌>>=◌, inl, inr, Bool-cases,
}
use tlibc.Str.{atoi}
use tlibc.Stdio.Atoi.{atoi-signed}
use tlibc.Stdio.{word32, printf}
use tlibc.Stdio.Put.{decimal, signed}
use tlibc.Stdio.Digits.{length-digits}
use tlibc.Stdio.Format.{printf-pieces, plain, int, spelling, printed, taken}

-- `i++` of an `int` that is not negative. `none`: it leaves the range, which C leaves undefined.
increment : ℕ → Option ℕ
increment i = if ltb (i + 1) (2 ^ 31) then some (i + 1) else none

-- The loop, with what was printed so far; `buf` is the address of the array of `Printf`. `none`:
-- `i++` leaves the range of `int`, or the fuel ran out.
seq_loop : ℕ → Memory → ℕ → ℕ → ℕ → Bytes → Option Bytes
seq_loop zero m buf i last out = if leb i last then none else some out
seq_loop (suc fuel) m buf i last out =
    let rest = printf m buf (codes "%d\n") (word32 i ∷ []) >>= λ (n, line).
    increment i >>= λ next. seq_loop fuel m buf next last (out ++ line) in
    if leb i last then rest else some out

-- `main`: one or two arguments. `none` in the first place: the usage is printed.
pub seq : ℕ → Memory → ℕ → List Bytes → Option (Option Bytes)
seq fuel m buf (b ∷ []) = some (atoi b >>= λ last. seq_loop fuel m buf 1 last [])
seq fuel m buf (a ∷ b ∷ []) =
    some (atoi a >>= λ first. atoi b >>= λ last. seq_loop fuel m buf first last [])
seq fuel m buf _ = none

-- The lines of `n` numbers from `i` on.
unfoldable pub lines : ℕ → ℕ → Bytes
lines i zero = []
lines i (suc n) = (decimal i ++ 10 ∷ []) ++ lines (i + 1) n

length-decimal : (v : ℕ) → v < 2 ^ 31 → length (decimal v) ≤ 10
unfolding decimal
length-decimal v h = ground (arith, length-digits 10 v 10 (inl refl) (omega arith))

signed-small : (i : ℕ) → i < 2 ^ 31 → signed 32 decimal i ≡ decimal i
unfolding signed
signed-small i h = let lt : ltb i (2 ^ 31) ≡ true = ground arith in rw lt refl

printf-line :
    (m : Memory) (buf i : ℕ)
    → i < 2 ^ 31
    → printf m buf (codes "%d\n") (word32 i ∷ [])
      ≡ some (length (decimal i ++ 10 ∷ []), decimal i ++ 10 ∷ [])
unfolding printed spelling taken
printf-line m buf i h =
    let small = signed-small i h in
    let short : length (signed 32 decimal i ++ 10 ∷ []) < 2048 =
      rw small (omega (arith, length-append (decimal i) (10 ∷ []), length-decimal i h)) in
    let p =
      printf-pieces (int i ∷ plain 10 ∷ []) m buf (omega (arith, h), (omega arith, tt))
        (omega (arith, short)) in
    let fits : ltb (length (signed 32 decimal i ++ 10 ∷ [])) 2048 ≡ true = ground arith in
    p
    ∙ ap
        (λ b.
          if b
          then some (length (signed 32 decimal i ++ 10 ∷ []), signed 32 decimal i ++ 10 ∷ [])
          else none)
        fits
    ∙ rw small refl

-- With enough fuel, the loop ends, and prints each number in decimal on a line of its own, in
-- order.
seq_loop-lines :
    (n fuel : ℕ) (m : Memory) (buf i last : ℕ) (out : Bytes)
    → n ≡ last + 1 - i
    → last + 1 < 2 ^ 31
    → n ≤ fuel
    → seq_loop fuel m buf i last out ≡ some (out ++ lines i n)
unfolding seq_loop lines increment
seq_loop-lines zero zero m buf i last out e h enough =
    let gt : leb i last ≡ false = ground arith in rw (gt, append-nil out) refl
seq_loop-lines zero (suc fuel) m buf i last out e h enough =
    let gt : leb i last ≡ false = ground arith in rw (gt, append-nil out) refl
seq_loop-lines (suc n) zero m buf i last out e h enough = absurd (omega arith)
seq_loop-lines (suc n) (suc fuel) m buf i last out e h enough =
    let le : leb i last ≡ true = ground arith in
    let lt : ltb (i + 1) (2 ^ 31) ≡ true = ground arith in
    rw
      (
        le,
        printf-line m buf i (omega arith),
        lt,
        seq_loop-lines n fuel m buf (i + 1) last (out ++ (decimal i ++ 10 ∷ [])) (omega arith) h
            (omega arith),
      )
      (ap some (append_assoc out (decimal i ++ 10 ∷ []) (lines (i + 1) n)))

pub atoi-decimal : (v : ℕ) → v < 2 ^ 31 → atoi (decimal v) ≡ some v
atoi-decimal v h =
    let small = signed-small v h in
    let lt : ltb v (2 ^ 31) ≡ true = ground arith in
    let far : v ≢ 2 ^ 31 = λ e. absurd (omega arith) in
    ap atoi (sym small) ∙ atoi-signed v (omega arith) far ∙ rw lt refl

-- `seq` of two numbers in decimal ends, and prints the numbers from the first to the second, each
-- in decimal on a line of its own, and nothing if there are none; the second is less than the
-- largest `int`, and the fuel is the count of the numbers or more.
pub seq-lines :
    (fuel : ℕ) (m : Memory) (buf first last : ℕ)
    → first < 2 ^ 31
    → last + 1 < 2 ^ 31
    → last + 1 - first ≤ fuel
    → seq fuel m buf (decimal first ∷ decimal last ∷ [])
      ≡ some (some (lines first (last + 1 - first)))
unfolding seq
seq-lines fuel m buf first last hf hl enough =
    rw (atoi-decimal first hf, atoi-decimal last (omega arith))
      (ap some (seq_loop-lines (last + 1 - first) fuel m buf first last [] refl hl enough))

-- Up to the largest `int`, the loop does not end as C defines it: whatever the fuel, `i++` comes to
-- leave the range.
seq_loop-overflow :
    (fuel : ℕ) (m : Memory) (buf i : ℕ) (out : Bytes)
    → i < 2 ^ 31
    → seq_loop fuel m buf i (2 ^ 31 - 1) out ≡ none
unfolding seq_loop increment
seq_loop-overflow zero m buf i out h =
    let le : leb i (2 ^ 31 - 1) ≡ true = ground arith in rw le refl
seq_loop-overflow (suc fuel) m buf i out h = elim (Bool-cases (ltb (i + 1) (2 ^ 31))) [
  | inl lt ↦
      let le : leb i (2 ^ 31 - 1) ≡ true = ground arith in
      rw (le, printf-line m buf i h, lt)
        (seq_loop-overflow fuel m buf (i + 1) (out ++ (decimal i ++ 10 ∷ [])) (ground arith))
  | inr ge ↦
      let le : leb i (2 ^ 31 - 1) ≡ true = ground arith in rw (le, printf-line m buf i h, ge) refl
]
