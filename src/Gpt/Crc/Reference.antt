-- ===== src/Gpt/Crc/Reference.antt =====
-- The table of gpt/gpt.c against the CRC32 of one bit at a time.
use tlibc.Base.{
  ℕ, zero, suc, ◌+◌, ◌*◌, ◌/◌, ◌%◌, ◌^◌, ◌<◌, ◌≡◌, refl, sym, ap, ap₂, ◌∙◌, Bool, true, ◌&&◌, ◌==◌,
  [], ◌∷◌, Bytes, All, get_or, bit_and, bit_xor, arith, ==_iff,
}
use native.Mathlib.Decide.{dec_lt}
use tlibc.Base.Bits.{bit_and_low}
use tlibc.Base.Xor.{xor-half, xor_parity, xor_zero_right, xor_swap, xor_join}
use tlibc.Gpt.Crc.{crc32_tab, efi_crc32, crc32}

-- The polynomial of CRC32, its lowest coefficient in the highest bit, for a 1 that is shifted out.
feedback : ℕ → ℕ
feedback zero = 0
feedback (suc b) = 0xEDB88320

-- One bit is shifted out of the register.
shift_out : ℕ → ℕ
shift_out x = bit_xor (x / 2) (feedback (x % 2))

shift_bits : ℕ → ℕ → ℕ
shift_bits zero x = x
shift_bits (suc k) x = shift_bits k (shift_out x)

-- CRC32 as the standard has it: each byte is added to the register, which then moves by 8 bits.
register_of : Bytes → ℕ → ℕ
register_of [] crc = crc
register_of (b ∷ bs) crc = register_of bs (shift_bits 8 (bit_xor crc b))

pub reference_crc32 : Bytes → ℕ
reference_crc32 bs = bit_xor (register_of bs 0xFFFFFFFF) 0xFFFFFFFF

feedback_xor :
    (a b : ℕ) → feedback ((a % 2 + b % 2) % 2) ≡ bit_xor (feedback (a % 2)) (feedback (b % 2))
unfolding feedback
feedback_xor a b = bits (a % 2) (b % 2) (omega arith) (omega arith)
  where
    bits : (p q : ℕ) → p < 2 → q < 2 → feedback ((p + q) % 2) ≡ bit_xor (feedback p) (feedback q)
    bits zero zero h k = refl
    bits zero (suc zero) h k = refl
    bits (suc zero) zero h k = refl
    bits (suc zero) (suc zero) h k = refl
    bits (suc (suc p)) q h k = absurd (omega arith)
    bits zero (suc (suc q)) h k = absurd (omega arith)
    bits (suc zero) (suc (suc q)) h k = absurd (omega arith)

shift_out_xor : (a b : ℕ) → shift_out (bit_xor a b) ≡ bit_xor (shift_out a) (shift_out b)
unfolding shift_out
shift_out_xor a b =
    ap₂ bit_xor (xor-half a b) (ap feedback (xor_parity a b) ∙ feedback_xor a b)
    ∙ xor_swap (a / 2) (b / 2) (feedback (a % 2)) (feedback (b % 2))

shift_bits_xor :
    (k a b : ℕ) → shift_bits k (bit_xor a b) ≡ bit_xor (shift_bits k a) (shift_bits k b)
unfolding shift_bits
shift_bits_xor zero a b = refl
shift_bits_xor (suc k) a b =
    ap (shift_bits k) (shift_out_xor a b) ∙ shift_bits_xor k (shift_out a) (shift_out b)

-- Zeros are shifted out without feedback.
shift_out_even : (y : ℕ) → shift_out (y * 2) ≡ y
unfolding shift_out feedback
shift_out_even y =
    let e : y * 2 % 2 ≡ 0 = omega arith in
    let e' : y * 2 / 2 ≡ y = omega arith in rw (e, e') (xor_zero_right y)

shift_byte_zeros : (q : ℕ) → shift_bits 8 (q * 256) ≡ q
unfolding shift_bits
shift_byte_zeros q =
    ap (shift_bits 8) (doubled q)
    ∙ ap (shift_bits 7) (shift_out_even (q * 2 * 2 * 2 * 2 * 2 * 2 * 2))
    ∙ ap (shift_bits 6) (shift_out_even (q * 2 * 2 * 2 * 2 * 2 * 2))
    ∙ ap (shift_bits 5) (shift_out_even (q * 2 * 2 * 2 * 2 * 2))
    ∙ ap (shift_bits 4) (shift_out_even (q * 2 * 2 * 2 * 2))
    ∙ ap (shift_bits 3) (shift_out_even (q * 2 * 2 * 2))
    ∙ ap (shift_bits 2) (shift_out_even (q * 2 * 2))
    ∙ ap (shift_bits 1) (shift_out_even (q * 2))
    ∙ shift_out_even q
  where
    doubled : (q : ℕ) → q * 256 ≡ q * 2 * 2 * 2 * 2 * 2 * 2 * 2 * 2
    doubled q = omega arith

-- Eight shifts are one look at the low byte, and a shift of the others.
shift_byte : (x : ℕ) → shift_bits 8 x ≡ bit_xor (shift_bits 8 (x % 256)) (x / 256)
shift_byte x =
    ap (shift_bits 8) (split x ∙ sym (xor_join 8 (x / 256) (x % 256) (omega arith)))
    ∙ shift_bits_xor 8 (x % 256) (x / 256 * 256)
    ∙ ap (bit_xor (shift_bits 8 (x % 256))) (shift_byte_zeros (x / 256))
  where
    split : (x : ℕ) → x ≡ x % 256 + x / 256 * 256
    split x = omega arith

all_below : ℕ → (ℕ → Bool) → Bool
all_below zero p = true
all_below (suc n) p = p n && all_below n p

all_below-true : (n : ℕ) (p : ℕ → Bool) → all_below n p ≡ true → (i : ℕ) → i < n → p i ≡ true
unfolding all_below
all_below-true zero p h i lt = absurd (omega arith)
all_below-true (suc n) p h i lt = elim (dec_lt i n) [
  | yes q ↦ all_below-true n p (ground arith) i q
  | no q ↦ let e : i ≡ n = omega arith in rw e (ground arith)
]

-- The 256 numbers of `crc32_tab` are what 8 shifts make of a byte.
crc32_tab_entries : all_below 256 (λ i. get_or crc32_tab i 0 == shift_bits 8 i) ≡ true
unfolding all_below shift_bits shift_out feedback
crc32_tab_entries = refl

crc32_tab_entry : (i : ℕ) → i < 256 → get_or crc32_tab i 0 ≡ shift_bits 8 i
crc32_tab_entry i h =
    (==_iff (get_or crc32_tab i 0) (shift_bits 8 i)).0
      (all_below-true 256 (λ i. get_or crc32_tab i 0 == shift_bits 8 i) crc32_tab_entries i h)

halve : ℕ → ℕ → ℕ
halve zero x = x
halve (suc k) x = halve k (x / 2)

halve_xor : (k a b : ℕ) → halve k (bit_xor a b) ≡ bit_xor (halve k a) (halve k b)
unfolding halve
halve_xor zero a b = refl
halve_xor (suc k) a b = ap (halve k) (xor-half a b) ∙ halve_xor k (a / 2) (b / 2)

halve_byte : (x : ℕ) → x / 256 ≡ halve 8 x
unfolding halve
halve_byte x = omega arith

-- The bytes above the lowest are those of the register alone.
high_bytes : (crc b : ℕ) → b < 256 → bit_xor crc b / 256 ≡ crc / 256
high_bytes crc b h =
    let e : b / 256 ≡ 0 = omega arith in
    halve_byte (bit_xor crc b)
    ∙ halve_xor 8 crc b
    ∙ ap₂ bit_xor (sym (halve_byte crc)) (sym (halve_byte b) ∙ e)
    ∙ xor_zero_right (crc / 256)

efi_crc32-register_of :
    (bs : Bytes) (crc : ℕ) → All (λ b. b < 256) bs → efi_crc32 bs crc ≡ register_of bs crc
unfolding efi_crc32 register_of
efi_crc32-register_of [] crc h = refl
efi_crc32-register_of (b ∷ bs) crc (hb, h) =
    ap (efi_crc32 bs) (round_lem crc b hb)
    ∙ efi_crc32-register_of bs (shift_bits 8 (bit_xor crc b)) h
  where
    round_lem :
        (crc b : ℕ)
        → b < 256
        → bit_xor (get_or crc32_tab (bit_and (bit_xor crc b) 0xff) 0) (crc / 2 ^ 8)
          ≡ shift_bits 8 (bit_xor crc b)
    round_lem crc b h =
        ap (λ i. bit_xor (get_or crc32_tab i 0) (crc / 256)) (bit_and_low 8 (bit_xor crc b))
        ∙ ap₂ bit_xor (crc32_tab_entry (bit_xor crc b % 256) (omega arith))
            (sym (high_bytes crc b h))
        ∙ sym (shift_byte (bit_xor crc b))

-- `crc32`, which looks up a table of 256 numbers for each byte, computes the CRC32 that adds each
-- byte to a register and shifts it out bit by bit.
pub crc32-reference_crc32 : (bs : Bytes) → All (λ b. b < 256) bs → crc32 bs ≡ reference_crc32 bs
unfolding crc32 reference_crc32
crc32-reference_crc32 bs h = ap (λ r. bit_xor r 0xFFFFFFFF) (efi_crc32-register_of bs 0xFFFFFFFF h)
