-- ===== src/Shell/Words.antt =====
-- The tokens of a command that is spelled word by word.
use tlibc.Base.{
  ap₂, ◌↔◌, inl, inr, Bool-cases, ==_iff, ℕ, zero, suc, ◌≤◌, ◌≡◌, refl, sym, ap, ◌∙◌, true, false,
  Option, none, some, List, [], ◌∷◌, ◌++◌, Bytes, length, All, length-append, arith, ◌==◌, ◌>>=◌,
}
use tlibc.Shell.{
  Parser, contains, blank, strcmp, char_difference, skip_blanks, token, accept_token, accept, parse,
}

-- A byte of a token.
abbrev IsInk : ℕ → Type 0
IsInk c = contains blank c ≡ false

-- A token: bytes that are no blanks, at least one.
abbrev pub IsToken : Bytes → Type 0
IsToken [] = ⊥
IsToken (c ∷ w) = IsInk c × All IsInk w

-- The words, each with a space behind it.
unfoldable pub spaced : List Bytes → Bytes
spaced [] = []
spaced (w ∷ ws) = w ++ 32 ∷ spaced ws

token-ink : (w rest : Bytes) → All IsInk w → token (w ++ 32 ∷ rest) ≡ (w, 32 ∷ rest)
unfolding token contains
token-ink [] rest h = refl
token-ink (c ∷ w) rest (hc, h) = rw (hc, token-ink w rest h) refl

-- What the loop does with the tokens, one after the other.
unfoldable pub accept_all : Parser → List Bytes → Option Parser
accept_all p [] = some p
accept_all p (w ∷ ws) = accept p w >>= λ q. accept_all q ws

skip-space : (rest : Bytes) → skip_blanks (32 ∷ rest) ≡ skip_blanks rest
unfolding skip_blanks contains
skip-space rest = refl

bind-cong {ℓ κ} :
    {A : Type ℓ} {B : Type κ} (o : Option A) (f g : A → Option B)
    → ((a : A) → f a ≡ g a)
    → (o >>= f) ≡ (o >>= g)
bind-cong none f g h = refl
bind-cong (some a) f g h = h a

skip-ink : (c : ℕ) (s : Bytes) → IsInk c → skip_blanks (c ∷ s) ≡ c ∷ s
unfolding skip_blanks
skip-ink c s h = rw h refl

first-token :
    (c : ℕ) (w rest : Bytes)
    → IsToken (c ∷ w)
    → token (skip_blanks (c ∷ w ++ 32 ∷ rest)) ≡ (c ∷ w, 32 ∷ rest)
first-token c w rest h = rw (skip-ink c (w ++ 32 ∷ rest) h.0) (token-ink (c ∷ w) rest h)

-- A round of the loop that finds a token.
parse-round :
    (fuel : ℕ) (p : Parser) (b : ℕ) (s old rest : Bytes) (c : ℕ)
    → token (skip_blanks (b ∷ s)) ≡ (c ∷ old, rest)
    → parse (suc fuel) p (b ∷ s) ≡ (accept p (c ∷ old) >>= λ q. parse fuel q rest)
unfolding parse accept_token
parse-round fuel p b s old rest c e = rw e refl

parse-nothing : (fuel : ℕ) (p : Parser) → parse fuel p [] ≡ some p
unfolding parse
parse-nothing zero p = refl
parse-nothing (suc fuel) p = refl

parse-end : (fuel : ℕ) (p : Parser) → parse (suc fuel) p (32 ∷ []) ≡ some p
unfolding parse accept_token token skip_blanks contains
parse-end fuel p = parse-nothing fuel p

skip-space-token : (s : Bytes) → token (skip_blanks (32 ∷ s)) ≡ token (skip_blanks s)
skip-space-token s = ap token (skip-space s)

-- Behind a token, the loop goes on with the tokens that are left.
parse-spaced :
    (fuel : ℕ) (p : Parser) (ws : List Bytes)
    → All IsToken ws
    → suc (length (spaced ws)) ≤ fuel
    → parse fuel p (32 ∷ spaced ws) ≡ accept_all p ws
unfolding accept_all spaced
parse-spaced zero p ws h enough = absurd (omega (arith, enough))
parse-spaced (suc fuel) p [] h enough = parse-end fuel p
parse-spaced (suc fuel) p ([] ∷ ws) h enough = absurd h.0
parse-spaced (suc fuel) p ((c ∷ w) ∷ ws) h enough =
    parse-round fuel p 32 ((c ∷ w) ++ 32 ∷ spaced ws) w (32 ∷ spaced ws) c
      (skip-space-token (c ∷ w ++ 32 ∷ spaced ws) ∙ first-token c w (spaced ws) h.0)
    ∙ bind-cong (accept p (c ∷ w)) (λ q. parse fuel q (32 ∷ spaced ws)) (λ q. accept_all q ws)
        (λ q. parse-spaced fuel q ws h.1 (omega (arith, enough, length-append w (32 ∷ spaced ws))))

-- The loop on words that stand one behind the other does what the words do, in order.
pub parse-words :
    (fuel : ℕ) (p : Parser) (ws : List Bytes)
    → All IsToken ws
    → length (spaced ws) ≤ fuel
    → parse fuel p (spaced ws) ≡ accept_all p ws
unfolding accept_all spaced
parse-words fuel p [] h enough = parse-nothing fuel p
parse-words fuel p ([] ∷ ws) h enough = absurd h.0
parse-words zero p ((c ∷ w) ∷ ws) h enough = absurd (omega (arith, enough))
parse-words (suc fuel) p ((c ∷ w) ∷ ws) h enough =
    parse-round fuel p c (w ++ 32 ∷ spaced ws) w (32 ∷ spaced ws) c
      (first-token c w (spaced ws) h.0)
    ∙ bind-cong (accept p (c ∷ w)) (λ q. parse fuel q (32 ∷ spaced ws)) (λ q. accept_all q ws)
        (λ q. parse-spaced fuel q ws h.1 (omega (arith, enough, length-append w (32 ∷ spaced ws))))

-- `Strcmp` finds no difference exactly between equal strings of bytes.
abbrev IsByte : ℕ → Type 0
IsByte c = (1 ≤ c) × (c ≤ 0xff)

char_difference-same : (a : ℕ) → IsByte a → char_difference a a ≡ 0
char_difference-same a h = ground arith

char_difference-zero : (a b : ℕ) → a ≤ 0xff → b ≤ 0xff → char_difference a b ≡ 0 → a ≡ b
char_difference-zero a b ha hb e = ground arith

strcmp_refl : (s : Bytes) → All IsByte s → strcmp s s ≡ 0
unfolding strcmp
strcmp_refl [] h = refl
strcmp_refl (a ∷ s) (ha, h) = let e : (a == a) ≡ true = ground arith in rw e (strcmp_refl s h)

differs {ℓ} : {A : Type ℓ} (a b : ℕ) → a ≡ b → (a == b) ≡ false → A
differs a b e ne = absurd (ground arith)

strcmp-step :
    (a b : ℕ) (s t : Bytes)
    → IsByte a
    → IsByte b
    → strcmp (a ∷ s) (b ∷ t) ≡ 0
    → (strcmp s t ≡ 0 → s ≡ t)
    → a ∷ s ≡ b ∷ t
unfolding strcmp
strcmp-step a b s t ha hb e ih = elim (Bool-cases (a == b)) [
  | inl eq ↦ ap₂ (λ x y. x ∷ y) ((==_iff a b).0 eq) (ih (rw eq at e))
  | inr ne ↦
      differs a b (char_difference-zero a b (omega (arith, ha)) (omega (arith, hb)) (rw ne at e)) ne
]

strcmp-zero : (s t : Bytes) → All IsByte s → All IsByte t → strcmp s t ≡ 0 → s ≡ t
unfolding strcmp
strcmp-zero [] [] h k e = refl
strcmp-zero [] (b ∷ t) h (kb, k) e =
    let z : 0 ≡ b = char_difference-zero 0 b (omega arith) (omega (arith, kb)) e in
    absurd (omega (arith, z, kb))
strcmp-zero (a ∷ s) [] (ha, h) k e =
    let z : a ≡ 0 = char_difference-zero a 0 (omega (arith, ha)) (omega arith) e in
    absurd (omega (arith, z, ha))
strcmp-zero (a ∷ s) (b ∷ t) (ha, h) (kb, k) e = strcmp-step a b s t ha kb e (strcmp-zero s t h k)

-- `Strcmp` returns 0 exactly for equal strings of bytes other than NUL, although it compares them
-- as signed numbers.
strcmp_iff : (s t : Bytes) → All IsByte s → All IsByte t → (strcmp s t ≡ 0) ↔ (s ≡ t)
strcmp_iff s t h k = (strcmp-zero s t h k, λ e. rw (sym e) (strcmp_refl s h))
