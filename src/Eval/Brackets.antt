-- ===== src/Eval/Brackets.antt =====
-- What the calculator does with a number in brackets.
use tlibc.Base.{
  ℕ, suc, ◌+◌, ◌-◌, ◌<◌, ◌≡◌, ap, ◌∙◌, List, ◌∷◌, ◌++◌, Bytes, length, length-append, arith, refl,
}
use tlibc.Stdio.Put.{decimal}
use tlibc.Eval.Value.{Sign, spelled, from_left}
use tlibc.Eval.Chain.{AreLongs, outcome, eval_from-cons, eval_from-decimal, eval_from-spelled}
use tlibc.Eval.{
  op_null, returns, open_bracket, close_bracket, other, token, after_bracket, round, eval_simple,
  eval_from, eval, long_mod,
}

eval_from-bracket :
    (n c fuel : ℕ) (rest : Bytes)
    → n < long_mod
    → length (decimal n) + 1 < fuel
    → eval_from (suc fuel) (b'(' ∷ decimal n ++ b')' ∷ c ∷ rest) 0 0 op_null
      ≡ eval_from fuel rest n 0 op_null
unfolding round eval_simple token
eval_from-bracket n c fuel rest hn lt =
    let s = decimal n ++ b')' ∷ c ∷ rest in
    let k = fuel - length (decimal n) in
    let whole : fuel ≡ length (decimal n) + k = omega arith in
    let again : k ≡ suc (k - 1) = omega arith in
    let inner : eval_from fuel s 0 0 op_null ≡ returns n (c ∷ rest) =
      ap (λ f. eval_from f s 0 0 op_null) whole
      ∙ eval_from-decimal n (b')' ∷ c ∷ rest) k 0 op_null hn
      ∙ ap (λ f. eval_from f (b')' ∷ c ∷ rest) 0 n op_null) again
      ∙ eval_from-cons (k - 1) b')' (c ∷ rest) 0 n op_null close_bracket refl in
    eval_from-cons fuel b'(' s 0 0 op_null open_bracket refl
    ∙ ap (after_bracket op_null 0 (λ ret' r. eval_from fuel r ret' 0 op_null)) inner

-- A number in brackets at the start of a line and the byte behind its bracket, an operator or any
-- other byte, are lost: where the number `v` stands behind them, then numbers joined by operators,
-- with no blank and no bracket, and one byte that is no digit, bracket or operator, `eval` returns
-- the value of the line from `v` on, or traps where one of its divisions does.
pub eval_skips :
    (n v c d : ℕ) (links : List (Sign × ℕ))
    → n < long_mod
    → v < long_mod
    → AreLongs links
    → token d ≡ other
    → eval (b'(' ∷ decimal n ++ b')' ∷ c ∷ (decimal v ++ spelled links d))
      ≡ outcome (from_left v links)
unfolding eval eval_simple
eval_skips n v c d links hn hv hl hd =
    let line = decimal v ++ spelled links d in
    let k = suc (suc (suc (length (decimal n) + length (spelled links d)))) in
    let long = length-append (decimal n) (b')' ∷ c ∷ line) in
    let long' = length-append (decimal v) (spelled links d) in
    let whole : length (b'(' ∷ decimal n ++ b')' ∷ c ∷ line) ≡ length (decimal v) + k =
      omega arith in
    eval_from-bracket n c (length (b'(' ∷ decimal n ++ b')' ∷ c ∷ line)) line hn (omega arith)
    ∙ ap (λ f. eval_from f line n 0 op_null) whole
    ∙ eval_from-decimal v (spelled links d) k n op_null hv
    ∙ eval_from-spelled links d k n v op_null hl hd (omega arith)
