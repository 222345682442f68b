-- ===== src/Base/Bits.antt =====
-- `&` with a low mask and `|` of disjoint fields, as arithmetic.
use Prim.Native.Nat.{
  ℕ, zero, suc, ◌+◌, ◌-◌, ◌*◌, ◌/◌, ◌%◌, ◌^◌, ◌≤◌, ◌<◌, min, max, bit_and, bit_or, digits,
  bit_and-bitwise, bit_or-bitwise,
}
use mathlib.Core.Path.{◌≡◌, refl, sym, ap, ap₂, ◌∙◌}
use native.Mathlib.Nat.{pow-suc, one-le-pow, div-add-mod', mod-lt, le_refl}
use native.Mathlib.Omega.{arith}

-- The fuel of the digit recursion does not show in its value.
module _ (rest : ℕ → ℕ) (bit : ℕ → ℕ → ℕ) where
  pub digits_enough : (j k a b : ℕ) → a ≤ j → a ≤ k → digits rest bit j a b ≡ digits rest bit k a b
  digits_enough zero zero a b h g = refl
  digits_enough zero (suc k) zero b h g = refl
  digits_enough (suc j) zero zero b h g = refl
  digits_enough (suc j) (suc k) zero b h g = refl
  digits_enough zero (suc k) (suc a) b h g = absurd (omega arith)
  digits_enough (suc j) zero (suc a) b h g = absurd (omega arith)
  digits_enough (suc j) (suc k) (suc a) b h g =
      rw (digits_enough j k (suc a / 2) (b / 2) (omega arith) (omega arith))

and_step : (a b : ℕ) → bit_and a b ≡ bit_and (a / 2) (b / 2) * 2 + min (a % 2) (b % 2)
and_step zero b = simp bit_and-bitwise (omega arith)
and_step (suc a) b = simp bit_and-bitwise (
    omega (
      arith,
      digits_enough (λ y. 0) min a (suc a / 2) (suc a / 2) (b / 2) (omega arith) (omega arith),
    ))

or_step : (a b : ℕ) → bit_or a b ≡ bit_or (a / 2) (b / 2) * 2 + max (a % 2) (b % 2)
or_step zero b = simp bit_or-bitwise (omega arith)
or_step (suc a) b = simp bit_or-bitwise (
    omega (
      arith,
      digits_enough (λ y. y) max a (suc a / 2) (suc a / 2) (b / 2) (omega arith) (omega arith),
    ))

and_zero : (n a : ℕ) → a ≤ n → bit_and a 0 ≡ 0
and_zero n zero h = refl
and_zero zero (suc a) h = absurd (omega arith)
and_zero (suc n) (suc a) h = omega (arith, and_step (suc a) 0, and_zero n (suc a / 2) (omega arith))

or_zero : (n a : ℕ) → a ≤ n → bit_or a 0 ≡ a
or_zero n zero h = refl
or_zero zero (suc a) h = absurd (omega arith)
or_zero (suc n) (suc a) h = omega (arith, or_step (suc a) 0, or_zero n (suc a / 2) (omega arith))

pub double : (q k : ℕ) → q * 2 ^ suc k ≡ 2 * (q * 2 ^ k)
double q k = omega (arith, ap (λ (t : ℕ). q * t) (pow-suc 2 k))

and_mask_joined : (k q r : ℕ) → r < 2 ^ k → bit_and (q * 2 ^ k + r) (2 ^ k - 1) ≡ r
and_mask_joined zero q r h = omega (arith, and_zero (q * 1 + r) (q * 1 + r) (omega arith))
and_mask_joined (suc k) q r h =
    let top : min ((q * 2 ^ suc k + r) % 2) ((2 ^ suc k - 1) % 2) ≡ r % 2 =
      omega (arith, double q k, pow-suc 2 k, one-le-pow k 2) in
    and_step (q * 2 ^ suc k + r) (2 ^ suc k - 1)
    ∙ ap₂ (λ (s t : ℕ). s * 2 + t)
        (ap₂ bit_and (omega (arith, double q k)) (omega (arith, pow-suc 2 k))
          ∙ and_mask_joined k q (r / 2) (omega (arith, pow-suc 2 k)))
        top
    ∙ omega arith

-- A mask of `k` low bits is the remainder by `2 ^ k`.
pub bit_and_low : (k a : ℕ) → bit_and a (2 ^ k - 1) ≡ a % 2 ^ k
bit_and_low k a =
    ap (λ t. bit_and t (2 ^ k - 1)) (sym (div-add-mod' a (2 ^ k)))
    ∙ and_mask_joined k (a / 2 ^ k) (a % 2 ^ k) (mod-lt a (one-le-pow k 2 (omega arith)))

-- A field of `k` bits below a shifted one adds up with it.
pub bit_or_high : (k q r : ℕ) → r < 2 ^ k → bit_or r (q * 2 ^ k) ≡ r + q * 2 ^ k
bit_or_high zero q r h = let e : r ≡ 0 = omega arith in rw e (simp bit_or-bitwise (omega arith))
bit_or_high (suc k) q r h =
    let top : max (r % 2) (q * 2 ^ suc k % 2) ≡ r % 2 = omega (arith, double q k) in
    or_step r (q * 2 ^ suc k)
    ∙ ap₂ (λ (s t : ℕ). s * 2 + t)
        (ap (bit_or (r / 2)) (omega (arith, double q k))
          ∙ bit_or_high k q (r / 2) (omega (arith, pow-suc 2 k)))
        top
    ∙ omega (arith, double q k)

pub zero-bit_or : (a : ℕ) → bit_or 0 a ≡ a
zero-bit_or a = simp bit_or-bitwise (omega arith)

-- A field of `k` bits joined to a shifted one adds up with it.
pub bit_or_low : (k q r : ℕ) → r < 2 ^ k → bit_or (q * 2 ^ k) r ≡ q * 2 ^ k + r
bit_or_low zero q r h =
    let e : r ≡ 0 = omega arith in rw e (omega (arith, or_zero (q * 1) (q * 1) (le_refl _)))
bit_or_low (suc k) q r h =
    let top : max (q * 2 ^ suc k % 2) (r % 2) ≡ r % 2 = omega (arith, double q k) in
    or_step (q * 2 ^ suc k) r
    ∙ ap₂ (λ (s t : ℕ). s * 2 + t)
        (ap (λ t. bit_or t (r / 2)) (omega (arith, double q k))
          ∙ bit_or_low k q (r / 2) (omega (arith, pow-suc 2 k)))
        top
    ∙ omega (arith, double q k)
