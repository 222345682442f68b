-- ===== src/Tests/Eval.antt =====
-- tlibc/eval.c at concrete inputs.
use tlibc.Base.{ℕ, ◌≡◌, refl, List, [], ◌∷◌, ◌++◌, codes, arith}
use tlibc.Stdio.Put.{decimal}
use tlibc.Eval.{eval, token, other}
use tlibc.Eval.Total.{EndsAt, behind_bracket, eval-EndsAt}
use tlibc.Eval.Value.{Sign, plus, minus, times, over, spelled, from_left}
use tlibc.Eval.Chain.{outcome, eval-spelled}
use tlibc.Eval.Brackets.{eval_skips}

newline_ends : token b'\n' ≡ other
unfolding token
newline_ends = refl

eval-EndsAt_example : EndsAt (behind_bracket (codes "7/2)x\n")) (eval (codes "7/2)x\n"))
eval-EndsAt_example = eval-EndsAt (codes "7/2)x\n") (
  (λ e. absurd (omega arith)),
  (
    (λ e. absurd (omega arith)),
    (
      (λ e. absurd (omega arith)),
      (
        (λ e. absurd (omega arith)),
        ((λ e. absurd (omega arith)), ((λ e. absurd (omega arith)), tt)),
      ),
    ),
  ),
)

abbrev links : List (Sign × ℕ)
links = (plus, 2) ∷ (times, 3) ∷ (minus, 30) ∷ (over, 2) ∷ []

eval-spelled_example : eval (decimal 1 ++ spelled links b'\n') ≡ outcome (from_left 1 links)
eval-spelled_example = eval-spelled 1 links b'\n' (omega arith) (omega arith) newline_ends

-- `(1)+2*3`
eval_skips_example :
    eval (b'(' ∷ decimal 1 ++ b')' ∷ b'+' ∷ (decimal 2 ++ spelled ((times, 3) ∷ []) b'\n'))
    ≡ outcome (from_left 2 ((times, 3) ∷ []))
eval_skips_example =
    eval_skips 1 2 b'+' b'\n' ((times, 3) ∷ []) (omega arith) (omega arith) (omega arith)
      newline_ends
