-- ===== src/Eval.antt =====
-- tlibc/eval.c: the calculator. A `long` is its bit pattern below 2 ^ 64, and its arithmetic
-- wraps around; division is that of the signed numbers. An expression is its bytes up to the NUL.
pub mod Total
pub mod Chain
pub mod Value
pub mod Brackets
use tlibc.Base.{
  ℕ, zero, suc, ◌+◌, ◌-◌, ◌*◌, ◌/◌, ◌%◌, ◌^◌, Bool, true, false, ◌&&◌, Option, none, some, List, [],
  ◌∷◌, Bytes, ltb, leb, ◌==◌, if◌then◌else◌, ◌≡◌, refl, codes, length,
}

-- `enum oper`
pub data Oper : Type 0 where
  op_null op_plus op_sub op_mult op_div : Oper

abbrev pub long_mod : ℕ
long_mod = 2 ^ 64

abbrev pub is_negative : ℕ → Bool
is_negative a = leb (2 ^ 63) a

abbrev pub negate : ℕ → ℕ
negate a = (long_mod - a) % long_mod

abbrev pub magnitude : ℕ → ℕ
magnitude a = if is_negative a then negate a else a

-- Truncating division of signed numbers. `none` is a trap of the processor: a divisor of 0, or
-- the least `long` by -1.
pub div_long : ℕ → ℕ → Option ℕ
div_long a b =
    let q = magnitude a / magnitude b in
    let signed_q =
      if is_negative a
      then (if is_negative b then q else negate q)
      else (if is_negative b then negate q else q) in
    if b == 0 then none else if (a == 2 ^ 63) && (b == long_mod - 1) then none else some signed_q

-- The new `*left`; `*right` becomes 0 in each case.
pub eval_simple : Oper → ℕ → ℕ → Option ℕ
eval_simple op_null left right = some right
eval_simple op_plus left right = some ((left + right) % long_mod)
eval_simple op_sub left right = some ((left + long_mod - right) % long_mod)
eval_simple op_mult left right = some ((left * right) % long_mod)
eval_simple op_div left right = div_long left right

-- `returns` has the value and the text at the returned pointer. `past_end`: the loop reads beyond
-- the NUL, which C leaves undefined.
pub data Outcome : Type 0 where
  returns : ℕ → Bytes → Outcome
  trap past_end no_fuel : Outcome

-- The cases of the `switch`.
pub data Token : Type 0 where
  digit : ℕ → Token
  open_bracket close_bracket other : Token
  operator : Oper → Token

unfoldable pub token : ℕ → Token
token c =
    if leb b'0' c && leb c b'9'
    then digit (c - b'0')
    else if c == b')'
    then close_bracket
    else if c == b'('
    then open_bracket
    else if c == b'+'
    then operator op_plus
    else if c == b'-'
    then operator op_sub
    else if c == b'*'
    then operator op_mult
    else if c == b'/'
    then operator op_div
    else other

-- `eval_simple(&ret, &cur, op)`, and what follows it.
abbrev pub with_simple : Oper → ℕ → ℕ → (ℕ → Outcome) → Outcome
with_simple op ret cur next = elim (eval_simple op ret cur) [ none ↦ trap | some ret' ↦ next ret' ]

-- The round of the loop after a bracket: `expr` points behind the `)`, and then `expr++` goes one
-- byte further.
abbrev pub after_bracket : Oper → ℕ → (ℕ → Bytes → Outcome) → Outcome → Outcome
after_bracket op ret next (returns v []) = with_simple op ret v (λ _. past_end)
after_bracket op ret next (returns v (c ∷ rest)) = with_simple op ret v (λ ret'. next ret' rest)
after_bracket op ret next r = r

-- One round of the loop of `eval_recur` behind a byte; `recur` is the loop, or a call, from a
-- text, `ret`, `cur` and `op` on.
pub round : (Bytes → ℕ → ℕ → Oper → Outcome) → Token → Bytes → ℕ → ℕ → Oper → Outcome
round recur (digit d) s ret cur op = recur s ret ((cur * 10 + d) % long_mod) op
round recur close_bracket s ret cur op = with_simple op ret cur (λ ret'. returns ret' s)
round recur open_bracket s ret cur op =
    after_bracket op ret (λ ret' rest. recur rest ret' 0 op) (recur s 0 0 op_null)
round recur (operator op') s ret cur op = with_simple op ret cur (λ ret'. recur s ret' 0 op')
round recur other s ret cur op = with_simple op ret cur (λ ret'. recur s ret' 0 op)

pub eval_from : ℕ → Bytes → ℕ → ℕ → Oper → Outcome
eval_from zero s ret cur op = no_fuel
eval_from (suc fuel) [] ret cur op = returns ret []
eval_from (suc fuel) (c ∷ s) ret cur op = round (eval_from fuel) (token c) s ret cur op

-- Each round goes at least one byte further, so the length of the text bounds the rounds and the
-- depth.
pub eval : Bytes → Outcome
eval expr = eval_from (suc (length expr)) expr 0 0 op_null

eval_runs :
    (eval (codes "1+2*3\n") ≡ returns 9 [])
    × (eval (codes "7/2-5\n") ≡ returns (long_mod - 2) [])
    × (eval (codes "1 + 2\n") ≡ returns 2 [])
    × (eval (codes "(1)+2\n") ≡ returns 2 [])
    × (eval (codes "(2+3)") ≡ past_end)
    × (eval (codes "1/0\n") ≡ trap)
unfolding eval eval_from round eval_simple div_long token
eval_runs = (refl, refl, refl, refl, refl, refl)
