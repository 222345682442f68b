-- ===== src/Stdio/Digits.antt =====
-- The digit loop that the number writers of tlibc/stdio.c share: what it leaves in its local
-- array spells the number, fits the array and has no leading zero.
use native.Mathlib.Nat.{pow-suc}
use tlibc.Base.{
  ℕ, zero, suc, ◌+◌, ◌-◌, ◌*◌, ◌/◌, ◌%◌, ◌^◌, ◌≤◌, ◌<◌, ◌≡◌, ◌≢◌, refl, ◌⊎◌, inl, inr, [], ◌∷◌,
  Bytes, some, length, arith, leb, ◌==◌, if◌then◌else◌, Bool-cases, sym, ap, ◌∙◌,
}
use tlibc.Stdio.{
  digit_char, push_digits, digits, fill_from, fill_digits, array_size, Directive, int_d, uint_u,
  hex_x, ptr_p, long_l, string_s, ulong_L, other,
}

-- The two bases in use.
abbrev IsBase : ℕ → Type 0
IsBase base = (base ≡ 10) ⊎ (base ≡ 16)

-- The number that a digit stands for, `a` to `f` too.
unfoldable pub digit_of : ℕ → ℕ
digit_of c = if leb c b'9' then c - b'0' else c - b'a' + 10

-- The number that a text of digits spells behind `n`.
unfoldable pub value : ℕ → ℕ → Bytes → ℕ
value base n [] = n
value base n (c ∷ s) = value base (n * base + digit_of c) s

digit_of-digit_char : (d : ℕ) → d < 16 → digit_of (digit_char d) ≡ d
unfolding digit_of
digit_of-digit_char zero h = refl
digit_of-digit_char (suc zero) h = refl
digit_of-digit_char (suc (suc zero)) h = refl
digit_of-digit_char (suc (suc (suc zero))) h = refl
digit_of-digit_char (suc (suc (suc (suc zero)))) h = refl
digit_of-digit_char (suc (suc (suc (suc (suc zero))))) h = refl
digit_of-digit_char (suc (suc (suc (suc (suc (suc zero)))))) h = refl
digit_of-digit_char (suc (suc (suc (suc (suc (suc (suc zero))))))) h = refl
digit_of-digit_char (suc (suc (suc (suc (suc (suc (suc (suc zero)))))))) h = refl
digit_of-digit_char (suc (suc (suc (suc (suc (suc (suc (suc (suc zero))))))))) h = refl
digit_of-digit_char (suc (suc (suc (suc (suc (suc (suc (suc (suc (suc zero)))))))))) h = refl
digit_of-digit_char (suc (suc (suc (suc (suc (suc (suc (suc (suc (suc (suc zero))))))))))) h = refl
digit_of-digit_char (suc (suc (suc (suc (suc (suc (suc (suc (suc (suc (suc (suc zero)))))))))))) h =
    refl
digit_of-digit_char
      (suc (suc (suc (suc (suc (suc (suc (suc (suc (suc (suc (suc (suc zero))))))))))))) h =
    refl
digit_of-digit_char
      (suc (suc (suc (suc (suc (suc (suc (suc (suc (suc (suc (suc (suc (suc zero)))))))))))))) h =
    refl
digit_of-digit_char
      (suc (suc (suc (suc (suc (suc (suc (suc (suc (suc (suc (suc (suc (suc (suc zero)))))))))))))))
      h =
    refl
digit_of-digit_char
      (suc
        (suc (suc (suc (suc (suc (suc (suc (suc (suc (suc (suc (suc (suc (suc (suc d))))))))))))))))
      h =
    absurd (omega arith)

-- What one round does to the number: the last digit, and a smaller rest.
record IsDivided (base v : ℕ) : Type 0 where
  joined : v / base * base + v % base ≡ v
  digit : v % base < 16
  smaller : v ≢ 0 → v / base < v
  last : v / base ≡ 0 → v % base ≡ v

IsBase-IsDivided : (base v : ℕ) → IsBase base → IsDivided base v
IsBase-IsDivided base v (inl e) = rw e (record {
  joined = omega arith;
  digit = omega arith;
  smaller = omega arith;
  last = omega arith;
})
IsBase-IsDivided base v (inr e) = rw e (record {
  joined = omega arith;
  digit = omega arith;
  smaller = omega arith;
  last = omega arith;
})

value-push_digits :
    (fuel base v : ℕ) (stack : Bytes)
    → IsBase base
    → v < fuel
    → value base 0 (push_digits fuel base v stack) ≡ value base v stack
unfolding push_digits value
value-push_digits zero base v stack hb lt = absurd (omega arith)
value-push_digits (suc fuel) base v stack hb lt = ground (
  arith,
  (IsBase-IsDivided base v hb).joined,
  (IsBase-IsDivided base v hb).smaller,
  digit_of-digit_char (v % base) (IsBase-IsDivided base v hb).digit,
  value-push_digits fuel base (v / base) (digit_char (v % base) ∷ stack) hb,
)

-- In base 10 and in base 16 the digits spell the number that they were made from.
pub value-digits : (base v : ℕ) → IsBase base → value base 0 (digits base v) ≡ v
unfolding digits value
value-digits base v hb = value-push_digits (suc v) base v [] hb (omega arith)

div-lt-pow : (base v k : ℕ) → IsBase base → v < base ^ suc k → v / base < base ^ k
div-lt-pow base v k (inl e) lt = rw e (omega (arith, pow-suc 10 k, rw e at lt))
div-lt-pow base v k (inr e) lt = rw e (omega (arith, pow-suc 16 k, rw e at lt))

length-push_digits :
    (fuel base v k : ℕ) (stack : Bytes)
    → IsBase base
    → v < base ^ k
    → length (push_digits fuel base v stack) ≤ length stack + k
unfolding push_digits
length-push_digits zero base v k stack hb lt = omega arith
length-push_digits (suc fuel) base v zero stack hb lt = ground arith
length-push_digits (suc fuel) base v (suc k) stack hb lt = ground (
  arith,
  length-push_digits fuel base (v / base) k (digit_char (v % base) ∷ stack) hb
      (div-lt-pow base v k hb lt),
)

-- A number below `base ^ k` has at most `k` digits.
pub length-digits : (base v k : ℕ) → IsBase base → v < base ^ k → length (digits base v) ≤ k
unfolding digits
length-digits base v k hb lt = omega (arith, length-push_digits (suc v) base v k [] hb lt)

fill_from-push_digits :
    (size fuel base v k : ℕ) (stack : Bytes)
    → IsBase base
    → v < base ^ k
    → length stack + k ≤ size
    → fill_from size fuel base v stack ≡ some (push_digits fuel base v stack)
unfolding fill_from push_digits
fill_from-push_digits size zero base v k stack hb lt room = refl
fill_from-push_digits size (suc fuel) base v zero stack hb lt room = ground arith
fill_from-push_digits size (suc fuel) base v (suc k) stack hb lt room = ground (
  arith,
  fill_from-push_digits size fuel base (v / base) k (digit_char (v % base) ∷ stack) hb
      (div-lt-pow base v k hb lt),
)

-- The base and the width of the numbers that the writer of a directive gets.
abbrev pub number_base : Directive → ℕ
number_base hex_x = 16
number_base ptr_p = 16
number_base d = 10

abbrev pub number_width : Directive → ℕ
number_width int_d = 32
number_width uint_u = 32
number_width hex_x = 32
number_width ptr_p = 64
number_width long_l = 64
number_width ulong_L = 64
number_width string_s = 0
number_width other = 0

-- The digit loop of each number writer stays in the writer's local array, for every number of the
-- width of its argument, and leaves all digits there: the array of 8 bytes in `puthex`, those of 16
-- in `putint`, `putuint` and `putptr`, and those of 24 in `putl` and `putul`.
pub fill_digits-digits :
    (d : Directive) (v : ℕ)
    → v < 2 ^ number_width d
    → fill_digits (array_size d) (number_base d) v ≡ some (digits (number_base d) v)
unfolding fill_digits digits array_size
fill_digits-digits int_d v h =
    fill_from-push_digits 16 (suc v) 10 v 10 [] (inl refl) (omega arith) (omega arith)
fill_digits-digits uint_u v h =
    fill_from-push_digits 16 (suc v) 10 v 10 [] (inl refl) (omega arith) (omega arith)
fill_digits-digits hex_x v h =
    fill_from-push_digits 8 (suc v) 16 v 8 [] (inr refl) (omega arith) (omega arith)
fill_digits-digits ptr_p v h =
    fill_from-push_digits 16 (suc v) 16 v 16 [] (inr refl) (omega arith) (omega arith)
fill_digits-digits long_l v h =
    fill_from-push_digits 24 (suc v) 10 v 20 [] (inl refl) (omega arith) (omega arith)
fill_digits-digits ulong_L v h =
    fill_from-push_digits 24 (suc v) 10 v 20 [] (inl refl) (omega arith) (omega arith)
fill_digits-digits string_s v h =
    fill_from-push_digits 0 (suc v) 10 v 0 [] (inl refl) (omega arith) (omega arith)
fill_digits-digits other v h =
    fill_from-push_digits 0 (suc v) 10 v 0 [] (inl refl) (omega arith) (omega arith)

abbrev NoLeadingZero : Bytes → Type 0
NoLeadingZero [] = Unit
NoLeadingZero (c ∷ s) = c ≢ b'0'

digit_char-zero : (d : ℕ) → d < 16 → d ≢ 0 → digit_char d ≢ b'0'
unfolding digit_of
digit_char-zero d lt ne e = ne (sym (digit_of-digit_char d lt) ∙ (ap digit_of e))

push_digits-NoLeadingZero :
    (fuel base v : ℕ) (stack : Bytes)
    → IsBase base
    → v < fuel
    → v ≢ 0
    → NoLeadingZero (push_digits fuel base v stack)
unfolding push_digits
push_digits-NoLeadingZero zero base v stack hb lt ne = absurd (omega arith)
push_digits-NoLeadingZero (suc fuel) base v stack hb lt ne = elim (Bool-cases (v == 0)) [
  | inl z ↦ absurd (ne (ground arith))
  | inr z ↦ rw z (elim (Bool-cases (v / base == 0)) [
    | inl last ↦ rw (push_digits-zero fuel (v / base) base (ground arith)) (
        digit_char-zero (v % base) (IsBase-IsDivided base v hb).digit
          (ground (arith, (IsBase-IsDivided base v hb).last)))
    | inr more ↦
        push_digits-NoLeadingZero fuel base (v / base) (digit_char (v % base) ∷ stack) hb
          (omega (arith, (IsBase-IsDivided base v hb).smaller ne)) (ground arith)
  ])
]
  where
    push_digits-zero :
        (fuel v base : ℕ) {stack : Bytes} → v ≡ 0 → push_digits fuel base v stack ≡ stack
    push_digits-zero zero v base z = refl
    push_digits-zero (suc fuel) v base z = ground arith

-- The digits of a number other than 0 do not begin with 0.
digits-NoLeadingZero : (base v : ℕ) → IsBase base → v ≢ 0 → NoLeadingZero (digits base v)
unfolding digits
digits-NoLeadingZero base v hb ne = push_digits-NoLeadingZero (suc v) base v [] hb (omega arith) ne
