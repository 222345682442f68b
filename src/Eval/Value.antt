-- ===== src/Eval/Value.antt =====
-- What tlibc/eval.c stands for: the operators on 64-bit numbers, written without its functions, and
-- the value of a line of them from the left to the right.
use tlibc.Base.{
  ℕ, zero, suc, ◌+◌, ◌-◌, ◌*◌, ◌/◌, ◌%◌, ◌^◌, ◌<◌, ◌≡◌, refl, ap, ◌&&◌, Option, none, some, List,
  [], ◌∷◌, ◌++◌, Bytes, arith, ltb, ◌==◌, if◌then◌else◌, ◌>>=◌,
}
use tlibc.Stdio.Put.{decimal}
use tlibc.Eval.{
  Oper, op_plus, op_sub, op_mult, op_div, operator, token, eval_simple, div_long, long_mod,
}

-- An operator and the number behind it.
pub data Sign : Type 0 where
  plus minus times over : Sign

pub sign_byte : Sign → ℕ
sign_byte plus = b'+'
sign_byte minus = b'-'
sign_byte times = b'*'
sign_byte over = b'/'

pub sign_oper : Sign → Oper
sign_oper plus = op_plus
sign_oper minus = op_sub
sign_oper times = op_mult
sign_oper over = op_div

pub token-sign_byte : (g : Sign) → token (sign_byte g) ≡ operator (sign_oper g)
unfolding token sign_byte sign_oper
token-sign_byte plus = refl
token-sign_byte minus = refl
token-sign_byte times = refl
token-sign_byte over = refl

-- How links are spelled, in front of a last byte.
unfoldable pub spelled : List (Sign × ℕ) → ℕ → Bytes
spelled [] c = c ∷ []
spelled ((g, v) ∷ links) c = sign_byte g ∷ decimal v ++ spelled links c

-- How far a 64-bit pattern, read as a signed number, is from 0.
unfoldable pub distance : ℕ → ℕ
distance a = if ltb a (2 ^ 63) then a else 2 ^ 64 - a

-- The quotient of two signed numbers, rounded toward 0: it is negative where only one of them is.
-- There is none by 0, nor of the least one by -1.
unfoldable pub quotient : ℕ → ℕ → Option ℕ
quotient n zero = none
quotient n (suc d) =
    let v = suc d in
    let q = distance n / distance v in
    if (n == 0x8000000000000000) && (v == 0xFFFFFFFFFFFFFFFF)
    then none
    else if ltb n (2 ^ 63)
    then some (if ltb v (2 ^ 63) then q else (2 ^ 64 - q) % 2 ^ 64)
    else some (if ltb v (2 ^ 63) then (2 ^ 64 - q) % 2 ^ 64 else q)

-- What an operator stands for: sums, differences and products are modulo 2 ^ 64.
unfoldable pub applied : Sign → ℕ → ℕ → Option ℕ
applied plus n v = some ((n + v) % 2 ^ 64)
applied minus n v = some ((n + (2 ^ 64 - v)) % 2 ^ 64)
applied times n v = some (n * v % 2 ^ 64)
applied over n v = quotient n v

-- The value from the left to the right: no operator binds tighter than another.
unfoldable pub from_left : ℕ → List (Sign × ℕ) → Option ℕ
from_left n [] = some n
from_left n ((g, v) ∷ links) = applied g n v >>= λ n'. from_left n' links

eval_simple-quotient : (n v : ℕ) → v < long_mod → eval_simple op_div n v ≡ quotient n v
unfolding eval_simple div_long quotient distance
eval_simple-quotient n zero h = ground arith
eval_simple-quotient n (suc d) h = ground arith

-- The code's operators do what they stand for.
pub eval_simple-applied :
    (g : Sign) (n v : ℕ) → v < long_mod → eval_simple (sign_oper g) n v ≡ applied g n v
unfolding eval_simple applied sign_oper
eval_simple-applied plus n v h = refl
eval_simple-applied minus n v h = ap some (omega arith)
eval_simple-applied times n v h = refl
eval_simple-applied over n v h = eval_simple-quotient n v h
