-- ===== src/Install/Args.antt =====
-- gpt/installer.c: what the loop over the arguments makes of a command line.
use tlibc.Base.{
  ℕ, zero, suc, ◌≤◌, ◌≡◌, refl, ap, ◌∙◌, some, List, [], ◌∷◌, ◌++◌, append_assoc, Bytes, codes,
  length, arith,
}
use tlibc.Install.{Options, unknown, flag, parsed, spinning, set_value, go_on, parse, same}

-- An option with its value, as a user writes it.
pub data Setting : Type 0 where
  kernel dest busybox size : Bytes → Setting

abbrev pub spell : Setting → List Bytes
spell (kernel v) = codes "-k" ∷ v ∷ []
spell (dest v) = codes "-d" ∷ v ∷ []
spell (busybox v) = codes "-busybox" ∷ v ∷ []
spell (size v) = codes "-s" ∷ v ∷ []

abbrev apply : (Bytes → ℕ) → Setting → Options → Options
apply atoi (kernel v) o = record o { path_bzimage = some v }
apply atoi (dest v) o = record o { dst = some v }
apply atoi (busybox v) o = record o { path_busybox = some v }
apply atoi (size v) o = record o { boot_size = atoi v }

abbrev pub spell_all : List Setting → List Bytes
spell_all [] = []
spell_all (s ∷ ss) = spell s ++ spell_all ss

abbrev pub apply_all : (Bytes → ℕ) → List Setting → Options → Options
apply_all atoi [] o = o
apply_all atoi (s ∷ ss) o = apply_all atoi ss (apply atoi s o)

-- A round of the loop at an option with a value.
parse-setting :
    (fuel : ℕ) (atoi : Bytes → ℕ) (o : Options) (s : Setting) (rest : List Bytes)
    → parse (suc fuel) atoi o (spell s ++ rest) ≡ parse fuel atoi (apply atoi s o) rest
unfolding parse flag same set_value go_on
parse-setting fuel atoi o (kernel v) rest = refl
parse-setting fuel atoi o (dest v) rest = refl
parse-setting fuel atoi o (busybox v) rest = refl
parse-setting fuel atoi o (size v) rest = refl

-- Options in any order, each with its value, are parsed in as many rounds: the last value of each
-- option counts, and what was not named keeps its default.
pub parse-settings :
    (ss : List Setting) (fuel : ℕ) (atoi : Bytes → ℕ) (o : Options)
    → length ss ≤ fuel
    → parse fuel atoi o (spell_all ss) ≡ parsed (apply_all atoi ss o)
parse-settings [] zero atoi o h = unfold parse in refl
parse-settings [] (suc fuel) atoi o h = unfold parse in refl
parse-settings (s ∷ ss) zero atoi o h = absurd (omega (arith, h))
parse-settings (s ∷ ss) (suc fuel) atoi o h =
    parse-setting fuel atoi o s (spell_all ss)
    ∙ parse-settings ss fuel atoi (apply atoi s o) (omega (arith, h))

parse-stuck :
    (fuel : ℕ) (atoi : Bytes → ℕ) (o : Options) (a : Bytes) (rest : List Bytes)
    → flag a ≡ unknown
    → parse fuel atoi o (a ∷ rest) ≡ spinning
unfolding parse
parse-stuck zero atoi o a rest h = refl
parse-stuck (suc fuel) atoi o a rest h = rw (h, parse-stuck fuel atoi o a rest h) refl

parse-zero :
    {args : List Bytes} (atoi : Bytes → ℕ) (o : Options) (s : Setting) (rest : List Bytes)
    → args ≡ spell s ++ rest
    → parse zero atoi o args ≡ spinning
parse-zero atoi o s rest e = ap (λ t. parse zero atoi o t) e ∙ zero_lem s
  where
    zero_lem : (s : Setting) → parse zero atoi o (spell s ++ rest) ≡ spinning
    zero_lem (kernel v) = unfold parse in refl
    zero_lem (dest v) = unfold parse in refl
    zero_lem (busybox v) = unfold parse in refl
    zero_lem (size v) = unfold parse in refl

-- At an argument that is no option the loop never ends: however many rounds it is given, behind
-- whatever options with their values, it is not done.
pub parse-unknown :
    (ss : List Setting) (fuel : ℕ) (atoi : Bytes → ℕ) (o : Options) (a : Bytes) (rest : List Bytes)
    → flag a ≡ unknown
    → parse fuel atoi o (spell_all ss ++ a ∷ rest) ≡ spinning
parse-unknown [] fuel atoi o a rest h = parse-stuck fuel atoi o a rest h
parse-unknown (s ∷ ss) zero atoi o a rest h =
    parse-zero atoi o s (spell_all ss ++ a ∷ rest)
      (append_assoc (spell s) (spell_all ss) (a ∷ rest))
parse-unknown (s ∷ ss) (suc fuel) atoi o a rest h =
    ap (λ t. parse (suc fuel) atoi o t) (append_assoc (spell s) (spell_all ss) (a ∷ rest))
    ∙ parse-setting fuel atoi o s (spell_all ss ++ a ∷ rest)
    ∙ parse-unknown ss fuel atoi (apply atoi s o) a rest h
