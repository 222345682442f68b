-- ===== src/Eval/Total.antt =====
-- How the calculator ends on a text with no opening bracket.
use tlibc.Base.{
  ℕ, zero, suc, ◌<◌, ◌≡◌, ◌≢◌, refl, [], ◌∷◌, Bytes, Option, none, some, length, All, arith, ◌==◌,
  if◌then◌else◌, Bool-cases, inl, inr, sym,
}
use mathlib.Core.Path.{subst}
use tlibc.Eval.{
  Oper, Outcome, returns, trap, past_end, no_fuel, Token, digit, open_bracket, close_bracket, other,
  operator, token, with_simple, round, eval_simple, eval_from, eval, op_null,
}

-- The text behind its first closing bracket, or the end of it.
unfoldable pub behind_bracket : Bytes → Bytes
behind_bracket [] = []
behind_bracket (c ∷ s) = if c == b')' then s else behind_bracket s

abbrev pub IsNotOpen : ℕ → Type 0
IsNotOpen c = c ≢ b'('

-- A trap, or a value with a pointer to the text `t`.
abbrev pub EndsAt : Bytes → Outcome → Type 0
EndsAt t (returns v rest) = rest ≡ t
EndsAt t trap = Unit
EndsAt t past_end = ⊥
EndsAt t no_fuel = ⊥

abbrev IsNoBracket : Token → Type 0
IsNoBracket open_bracket = ⊥
IsNoBracket close_bracket = ⊥
IsNoBracket t = Unit

token-IsNoBracket : (c : ℕ) → c ≢ b'(' → c ≢ b')' → IsNoBracket (token c)
unfolding token
token-IsNoBracket c h k = ground arith

token-close : (c : ℕ) → c ≡ b')' → token c ≡ close_bracket
unfolding token
token-close c h = rw h refl

with_simple-EndsAt :
    (op : Oper) (ret cur : ℕ) (t : Bytes) (next : ℕ → Outcome)
    → ((v : ℕ) → EndsAt t (next v))
    → EndsAt t (with_simple op ret cur next)
with_simple-EndsAt op ret cur t next h = go (eval_simple op ret cur)
  where
    go : (o : Option ℕ) → EndsAt t (elim o [ none ↦ trap | some ret' ↦ next ret' ])
    go none = tt
    go (some v) = h v

round-EndsAt :
    (recur : Bytes → ℕ → ℕ → Oper → Outcome) (k : Token) (s t : Bytes) (ret cur : ℕ) (op : Oper)
    → IsNoBracket k
    → ((ret' cur' : ℕ) (op' : Oper) → EndsAt t (recur s ret' cur' op'))
    → EndsAt t (round recur k s ret cur op)
unfolding round
round-EndsAt recur (digit d) s t ret cur op h next = next ret _ op
round-EndsAt recur open_bracket s t ret cur op h next = absurd h
round-EndsAt recur close_bracket s t ret cur op h next = absurd h
round-EndsAt recur (operator op') s t ret cur op h next =
    with_simple-EndsAt op ret cur t _ (λ ret'. next ret' 0 op')
round-EndsAt recur other s t ret cur op h next =
    with_simple-EndsAt op ret cur t _ (λ ret'. next ret' 0 op)

-- The round at a closing bracket is the last one.
round-close-EndsAt :
    (recur : Bytes → ℕ → ℕ → Oper → Outcome) (c : ℕ) (s : Bytes) (ret cur : ℕ) (op : Oper)
    → c ≡ b')'
    → EndsAt s (round recur (token c) s ret cur op)
unfolding round
round-close-EndsAt recur c s ret cur op e =
    subst (λ k. EndsAt s (round recur k s ret cur op)) (sym (token-close c e))
      (with_simple-EndsAt op ret cur s _ (λ ret'. refl))

eval_from-EndsAt :
    (fuel : ℕ) (s : Bytes) (ret cur : ℕ) (op : Oper)
    → All IsNotOpen s
    → length s < fuel
    → EndsAt (behind_bracket s) (eval_from fuel s ret cur op)
unfolding eval_from behind_bracket
eval_from-EndsAt zero s ret cur op h lt = absurd (omega arith)
eval_from-EndsAt (suc fuel) [] ret cur op h lt = refl
eval_from-EndsAt (suc fuel) (c ∷ s) ret cur op (hc, h) lt = elim (Bool-cases (c == b')')) [
  | inl t ↦
      subst
        (λ b.
          EndsAt (if b then s else behind_bracket s)
            (round (eval_from fuel) (token c) s ret cur op))
        (sym t) (round-close-EndsAt (eval_from fuel) c s ret cur op (ground arith))
  | inr f ↦
      subst
        (λ b.
          EndsAt (if b then s else behind_bracket s)
            (round (eval_from fuel) (token c) s ret cur op))
        (sym f)
        (round-EndsAt (eval_from fuel) (token c) s (behind_bracket s) ret cur op
          (token-IsNoBracket c hc (ground arith))
          (λ ret' cur' op'. eval_from-EndsAt fuel s ret' cur' op' h (omega arith)))
]

-- On a text with no opening bracket, `eval` ends, within a round for each byte and one more, and
-- without a read behind the NUL: a division traps, or it returns a value, and the pointer behind
-- the first closing bracket or to the NUL.
pub eval-EndsAt : (s : Bytes) → All IsNotOpen s → EndsAt (behind_bracket s) (eval s)
unfolding eval
eval-EndsAt s h = eval_from-EndsAt (suc (length s)) s 0 0 op_null h (omega arith)
