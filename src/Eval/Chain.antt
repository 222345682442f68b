-- ===== src/Eval/Chain.antt =====
-- What the calculator does with its plain input: numbers joined by operators, with no blank and
-- no bracket, and the byte behind them; and one with a blank.
use tlibc.Base.{
  ℕ, zero, suc, ◌+◌, ◌-◌, ◌*◌, ◌<◌, ◌≡◌, refl, ap, ◌∙◌, true, Option, none, some, List, [], ◌∷◌,
  ◌++◌, Bytes, length, length-append, arith, ◌>>=◌,
}
use tlibc.Stdio.Put.{decimal}
use tlibc.Stdio.Atoi.{AreDigits, decimal-AreDigits, digits_value-decimal}
use tlibc.Str.{is_digit}
use tlibc.Str.Laws.{digits_value, le-digits_value}
use tlibc.Eval.Value.{
  Sign, sign_byte, sign_oper, token-sign_byte, spelled, applied, from_left, eval_simple-applied,
}
use tlibc.Eval.{
  Oper, op_null, Outcome, returns, trap, Token, digit, other, operator, token, with_simple, round,
  eval_simple, eval_from, eval, long_mod,
}

token-digit : (c : ℕ) → is_digit c ≡ true → token c ≡ digit (c - b'0')
unfolding token
token-digit c h = ground arith

pub eval_from-cons :
    (fuel c : ℕ) (s : Bytes) (ret cur : ℕ) (op : Oper) (t : Token)
    → token c ≡ t
    → eval_from (suc fuel) (c ∷ s) ret cur op ≡ round (eval_from fuel) t s ret cur op
unfolding eval_from
eval_from-cons fuel c s ret cur op t e = ap (λ t. round (eval_from fuel) t s ret cur op) e

eval_from-digit :
    (fuel c : ℕ) (s : Bytes) (ret cur : ℕ) (op : Oper)
    → is_digit c ≡ true
    → cur * 10 + (c - b'0') < long_mod
    → eval_from (suc fuel) (c ∷ s) ret cur op ≡ eval_from fuel s ret (cur * 10 + (c - b'0')) op
unfolding round
eval_from-digit fuel c s ret cur op h fits =
    eval_from-cons fuel c s ret cur op (digit (c - b'0')) (token-digit c h)
    ∙ ap (λ k. eval_from fuel s ret k op) (omega arith)

-- A run of digits is read into `cur`.
eval_from-digits :
    (ds rest : Bytes) (fuel fuel' ret cur : ℕ) (op : Oper)
    → AreDigits ds
    → digits_value cur ds < long_mod
    → fuel' ≡ length ds + fuel
    → eval_from fuel' (ds ++ rest) ret cur op ≡ eval_from fuel rest ret (digits_value cur ds) op
unfolding digits_value
eval_from-digits [] rest fuel fuel' ret cur op hd fits e =
    let e' : fuel' ≡ fuel = omega arith in rw e'
eval_from-digits (c ∷ ds) rest fuel zero ret cur op hd fits e = absurd (omega arith)
eval_from-digits (c ∷ ds) rest fuel (suc fuel') ret cur op (hc, hd) fits e = rw hc (
    eval_from-digit fuel' c (ds ++ rest) ret cur op hc
      (omega (arith, le-digits_value ds (cur * 10 + (c - b'0')), rw hc at fits))
    ∙ eval_from-digits ds rest fuel fuel' ret (cur * 10 + (c - b'0')) op hd (rw hc at fits)
        (omega arith))

-- A printed number is read into `cur`.
pub eval_from-decimal :
    (v : ℕ) (rest : Bytes) (fuel ret : ℕ) (op : Oper)
    → v < long_mod
    → eval_from (length (decimal v) + fuel) (decimal v ++ rest) ret 0 op
      ≡ eval_from fuel rest ret v op
eval_from-decimal v rest fuel ret op fits =
    eval_from-digits (decimal v) rest fuel _ ret 0 op (decimal-AreDigits v)
      (rw digits_value-decimal fits) refl
    ∙ ap (λ k. eval_from fuel rest ret k op) (digits_value-decimal v)

abbrev pub AreLongs : List (Sign × ℕ) → Type 0
AreLongs [] = Unit
AreLongs ((g, v) ∷ links) = (v < long_mod) × AreLongs links

abbrev pub outcome : Option ℕ → Outcome
outcome none = trap
outcome (some v) = returns v []

with_simple-outcome :
    (op : Oper) (ret cur : ℕ) (f : ℕ → Outcome) (g : ℕ → Option ℕ)
    → ((v : ℕ) → f v ≡ outcome (g v))
    → with_simple op ret cur f ≡ outcome (eval_simple op ret cur >>= g)
with_simple-outcome op ret cur f g h = go (eval_simple op ret cur)
  where
    go : (o : Option ℕ) → (elim o [ none ↦ trap | some v ↦ f v ]) ≡ outcome (o >>= g)
    go none = refl
    go (some v) = h v

eval_from-nil :
    (fuel ret cur : ℕ) (op : Oper) → 0 < fuel → eval_from fuel [] ret cur op ≡ returns ret []
unfolding eval_from
eval_from-nil zero ret cur op h = absurd (omega arith)
eval_from-nil (suc fuel) ret cur op h = refl

pub eval_from-spelled :
    (links : List (Sign × ℕ)) (c fuel ret cur : ℕ) (op : Oper)
    → AreLongs links
    → token c ≡ other
    → length (spelled links c) < fuel
    → eval_from fuel (spelled links c) ret cur op
      ≡ outcome (eval_simple op ret cur >>= λ n. from_left n links)
unfolding spelled from_left round
eval_from-spelled links c zero ret cur op hl hc lt = absurd (omega arith)
eval_from-spelled [] c (suc fuel) ret cur op hl hc lt =
    eval_from-cons fuel c [] ret cur op other hc
    ∙ with_simple-outcome op ret cur _ _ (λ v. eval_from-nil fuel v 0 op (omega arith))
eval_from-spelled ((g, v) ∷ links) c (suc fuel) ret cur op (hv, hl) hc lt =
    let k = fuel - length (decimal v) in
    let enough : length (decimal v) + length (spelled links c) < fuel =
      omega (arith, length-append (decimal v) (spelled links c)) in
    let whole : fuel ≡ length (decimal v) + k = omega arith in
    eval_from-cons fuel (sign_byte g) _ ret cur op (operator (sign_oper g)) (token-sign_byte g)
    ∙ with_simple-outcome op ret cur _ (λ n. applied g n v >>= λ n'. from_left n' links)
        (λ n.
          ap (λ f. eval_from f (decimal v ++ spelled links c) n 0 (sign_oper g)) whole
          ∙ eval_from-decimal v (spelled links c) k n (sign_oper g) hv
          ∙ eval_from-spelled links c k n v (sign_oper g) hl hc (omega arith)
          ∙ ap (λ x. outcome (x >>= λ n'. from_left n' links)) (eval_simple-applied g n v hv))

-- A line of numbers joined by operators, with no blank and no bracket, and one byte behind it that
-- is no digit, bracket or operator, such as a newline: `eval` returns the value from the left to
-- the right, or traps where a division does. Sums, differences and products are modulo 2 ^ 64,
-- quotients are those of the signed numbers, rounded toward 0, and no operator binds tighter than
-- another.
pub eval-spelled :
    (n : ℕ) (links : List (Sign × ℕ)) (c : ℕ)
    → n < long_mod
    → AreLongs links
    → token c ≡ other
    → eval (decimal n ++ spelled links c) ≡ outcome (from_left n links)
unfolding eval eval_simple
eval-spelled n links c hn hl hc =
    let k = suc (length (spelled links c)) in
    ap (λ f. eval_from f (decimal n ++ spelled links c) 0 0 op_null) whole
    ∙ eval_from-decimal n (spelled links c) k 0 op_null hn
    ∙ eval_from-spelled links c k 0 n op_null hl hc (omega arith)
  where
    whole :
        suc (length (decimal n ++ spelled links c))
        ≡ length (decimal n) + suc (length (spelled links c))
    whole = omega (arith, length-append (decimal n) (spelled links c))

-- A blank between a number and an operator loses the number: `eval` of the number `n`, a blank, an
-- operator, the number `v` and a last byte is the value of the operator at 0 and `v`.
pub eval_blank :
    (n v : ℕ) (g : Sign) (c : ℕ)
    → n < long_mod
    → v < long_mod
    → token c ≡ other
    → eval (decimal n ++ b' ' ∷ spelled ((g, v) ∷ []) c) ≡ outcome (applied g 0 v)
unfolding eval eval_simple round token spelled
eval_blank n v g c hn hv hc =
    let rest = spelled ((g, v) ∷ []) c in
    let k = suc (length (b' ' ∷ rest)) in
    let whole : suc (length (decimal n ++ b' ' ∷ rest)) ≡ length (decimal n) + k =
      omega (arith, length-append (decimal n) (b' ' ∷ rest)) in
    ap (λ f. eval_from f (decimal n ++ b' ' ∷ rest) 0 0 op_null) whole
    ∙ eval_from-decimal n (b' ' ∷ rest) k 0 op_null hn
    ∙ eval_from-cons (length (b' ' ∷ rest)) b' ' rest 0 n op_null other refl
    ∙ eval_from-spelled ((g, v) ∷ []) c (length (b' ' ∷ rest)) n 0 op_null (hv, tt) hc (omega arith)
    ∙ last
  where
    last : outcome (from_left 0 ((g, v) ∷ [])) ≡ outcome (applied g 0 v)
    last = unfold from_left in go (applied g 0 v)
      where
        go : (o : Option ℕ) → outcome (o >>= λ n'. some n') ≡ outcome o
        go none = refl
        go (some x) = refl
