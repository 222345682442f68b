-- ===== src/Base/Xor.antt =====
-- Laws of the exclusive or of numbers, `^` in C.
use Prim.Native.Nat.{
  ℕ, zero, suc, ◌+◌, ◌*◌, ◌/◌, ◌%◌, ◌^◌, ◌≤◌, ◌<◌, bit_xor, bit_xor-bitwise, differ,
}
use mathlib.Core.Path.{◌≡◌, refl, sym, ap, ◌∙◌}
use native.Mathlib.Omega.{arith}
use native.Mathlib.Nat.{pow-suc}
use tlibc.Base.Bits.{digits_enough, double}

differ_bits : (p q : ℕ) → differ (p % 2) (q % 2) ≡ (p % 2 + q % 2) % 2
differ_bits p q = bits (p % 2) (q % 2) (omega arith) (omega arith)
  where
    bits : (a b : ℕ) → a < 2 → b < 2 → differ a b ≡ (a + b) % 2
    bits zero zero h k = refl
    bits zero (suc zero) h k = refl
    bits (suc zero) zero h k = refl
    bits (suc zero) (suc zero) h k = refl
    bits (suc (suc a)) b h k = absurd (omega arith)
    bits zero (suc (suc b)) h k = absurd (omega arith)
    bits (suc zero) (suc (suc b)) h k = absurd (omega arith)

xor_zero_left : (a : ℕ) → bit_xor 0 a ≡ a
xor_zero_left a = simp bit_xor-bitwise (omega arith)

-- The lowest digit apart from the others.
xor_step : (a b : ℕ) → bit_xor a b ≡ bit_xor (a / 2) (b / 2) * 2 + (a % 2 + b % 2) % 2
xor_step zero b = rw (xor_zero_left b, xor_zero_left (b / 2)) (omega arith)
xor_step (suc a) b = simp bit_xor-bitwise (
    omega (
      arith,
      differ_bits (suc a) b,
      digits_enough (λ y. y) differ a (suc a / 2) (suc a / 2) (b / 2) (omega arith) (omega arith),
    ))

pub xor-half : (a b : ℕ) → bit_xor a b / 2 ≡ bit_xor (a / 2) (b / 2)
xor-half a b = omega (arith, xor_step a b)

pub xor_parity : (a b : ℕ) → bit_xor a b % 2 ≡ (a % 2 + b % 2) % 2
xor_parity a b = omega (arith, xor_step a b)

comm_below : (n a b : ℕ) → a ≤ n → b ≤ n → bit_xor a b ≡ bit_xor b a
comm_below zero a b h k =
    let e : a ≡ 0 = omega arith in let e' : b ≡ 0 = omega arith in rw (e, e') refl
comm_below (suc n) a b h k =
    omega
      (arith, xor_step a b, xor_step b a, comm_below n (a / 2) (b / 2) (omega arith) (omega arith))

xor_comm : (a b : ℕ) → bit_xor a b ≡ bit_xor b a
xor_comm a b = comm_below (a + b) a b (omega arith) (omega arith)

assoc_below :
    (n a b c : ℕ) → a ≤ n → b ≤ n → c ≤ n → bit_xor (bit_xor a b) c ≡ bit_xor a (bit_xor b c)
assoc_below zero a b c h k l =
    let e : a ≡ 0 = omega arith in
    let e' : b ≡ 0 = omega arith in let e'' : c ≡ 0 = omega arith in rw (e, e', e'') refl
assoc_below (suc n) a b c h k l = omega (
  arith,
  xor_step (bit_xor a b) c,
  xor_step a (bit_xor b c),
  xor_parity a b,
  xor_parity b c,
  ap (λ t. bit_xor t (c / 2)) (xor-half a b),
  ap (bit_xor (a / 2)) (xor-half b c),
  assoc_below n (a / 2) (b / 2) (c / 2) (omega arith) (omega arith) (omega arith),
)

xor_assoc : (a b c : ℕ) → bit_xor (bit_xor a b) c ≡ bit_xor a (bit_xor b c)
xor_assoc a b c = assoc_below (a + b + c) a b c (omega arith) (omega arith) (omega arith)

pub xor_zero_right : (a : ℕ) → bit_xor a 0 ≡ a
xor_zero_right a = xor_comm a 0 ∙ xor_zero_left a

-- The two middle ones change places.
pub xor_swap :
    (a b c d : ℕ) → bit_xor (bit_xor a b) (bit_xor c d) ≡ bit_xor (bit_xor a c) (bit_xor b d)
xor_swap a b c d =
    xor_assoc a b (bit_xor c d)
    ∙ ap (bit_xor a)
        (sym (xor_assoc b c d) ∙ ap (λ t. bit_xor t d) (xor_comm b c) ∙ xor_assoc c b d)
    ∙ sym (xor_assoc a c (bit_xor b d))

-- A number of `k` digits joined to a shifted one adds up with it.
pub xor_join : (k q r : ℕ) → r < 2 ^ k → bit_xor r (q * 2 ^ k) ≡ r + q * 2 ^ k
xor_join zero q r h = let e : r ≡ 0 = omega arith in rw e (omega (arith, xor_zero_left (q * 1)))
xor_join (suc k) q r h =
    let half : q * 2 ^ suc k / 2 ≡ q * 2 ^ k = omega (arith, double q k) in
    omega (
      arith,
      double q k,
      xor_step r (q * 2 ^ suc k),
      ap (bit_xor (r / 2)) half,
      xor_join k q (r / 2) (omega (arith, pow-suc 2 k)),
    )
