-- ===== src/Util/Mkdir/Paths.antt =====
-- tlibc/mkdir.c: which directories are made, and in which order.
use tlibc.Base.{
  ℕ, zero, suc, ◌≤◌, ◌≡◌, ◌≢◌, refl, sym, ap, ◌∙◌, Bool, true, false, some, List, [], ◌∷◌, ◌++◌,
  append_assoc, append-nil, Bytes, length, length-append, All, All-append, All-map, arith, ◌==◌,
}
use tlibc.Util.Mkdir.{Answers, World, ensure, string_in, Made, make_last, mkdir_from, mkdir}

-- A component of a path: one byte or more, and none of them NUL or a slash.
abbrev IsLetter : ℕ → Type 0
IsLetter c = (c ≢ 0) × (c ≢ b'/')

abbrev pub IsName : Bytes → Type 0
IsName [] = ⊥
IsName (c ∷ w) = IsLetter c × All IsLetter w

unfoldable pub joined : Bytes → List Bytes → Bytes
joined w [] = w
joined w (v ∷ vs) = w ++ b'/' ∷ joined v vs

-- The directories down to the last one, from the top; `stale` is what the array holds behind it.
unfoldable pub chain : Bytes → Bytes → List Bytes → Bytes → List Bytes
chain base w [] stale = (base ++ (w ++ stale)) ∷ []
chain base w (v ∷ vs) stale = (base ++ w) ∷ chain (base ++ (w ++ b'/' ∷ [])) v vs stale

unfoldable pub ensure_all : Answers → ℕ × World → List Bytes → ℕ × World
ensure_all answers s [] = s
ensure_all answers s (p ∷ ps) = ensure_all answers (ensure answers s p) ps

abbrev NotNul : ℕ → Type 0
NotNul c = c ≢ 0

-- The string in an array that begins with a text without a NUL.
string_in-append :
    (s t stale : Bytes)
    → All NotNul s
    → string_in t ≡ some stale
    → string_in (s ++ t) ≡ some (s ++ stale)
unfolding string_in
string_in-append [] t stale h e = e
string_in-append (c ∷ s) t stale (hc, h) e =
    let ne : (c == 0) ≡ false = ground arith in rw (ne, string_in-append s t stale h e) refl

-- The loop on bytes without a slash copies them.
mkdir_from-name :
    (answers : Answers) (w rest below over above : Bytes) (is_end : Bool) (s : ℕ × World)
    → IsName w
    → length over ≡ length w
    → mkdir_from answers (w ++ rest) below (over ++ above) is_end s
      ≡ mkdir_from answers rest (below ++ w) above false s
unfolding mkdir_from
mkdir_from-name answers [] rest below over above is_end s h e = absurd h
mkdir_from-name answers (c ∷ w) rest below [] above is_end s h e = absurd (omega (arith, e))
mkdir_from-name answers (c ∷ []) rest below (o ∷ []) above is_end s h e =
    let ne : (c == b'/') ≡ false = ground (arith, h.0) in rw ne refl
mkdir_from-name answers (c ∷ []) rest below (o ∷ o2 ∷ over) above is_end s h e =
    absurd (omega (arith, e))
mkdir_from-name answers (c ∷ d ∷ w) rest below (o ∷ over) above is_end s h e =
    let ne : (c == b'/') ≡ false = ground (arith, h.0) in
    rw ne (
      mkdir_from-name answers (d ∷ w) rest (below ++ c ∷ []) over above false s h.1
        (omega (arith, e))
      ∙ ap (λ b. mkdir_from answers rest b above false s) (append_assoc below (c ∷ []) (d ∷ w)))

split-at :
    (n : ℕ) (xs : Bytes)
    → n ≤ length xs
    → (ys : Bytes) × (zs : Bytes) × (xs ≡ ys ++ zs) × (length ys ≡ n)
split-at zero xs h = ([], xs, refl, refl)
split-at (suc n) [] h = absurd (omega (arith, h))
split-at (suc n) (x ∷ xs) h =
    let r = split-at n xs (omega (arith, h)) in (x ∷ r.0, r.1, ap (λ t. x ∷ t) r.2, ap suc r.3)

name-NotNul : (w : Bytes) → IsName w → All NotNul w
name-NotNul [] h = absurd h
name-NotNul (c ∷ w) (hc, h) = (hc.0, All-map (λ a k. k.0) w h)

-- The loop on a slash opens the path so far.
mkdir_from-slash :
    (answers : Answers) (rest below above : Bytes) (old : ℕ) (is_end : Bool) (s : ℕ × World)
    → All NotNul below
    → mkdir_from answers (b'/' ∷ rest) below (old ∷ above) is_end s
      ≡ mkdir_from answers rest (below ++ b'/' ∷ []) above true (ensure answers s below)
unfolding mkdir_from
mkdir_from-slash answers rest below above old is_end s h =
    let e : string_in (below ++ 0 ∷ above) ≡ some (below ++ []) =
      string_in-append below (0 ∷ above) [] h (unfold string_in in refl) in
    rw (e, append-nil below) refl

abbrev pub left_by : Answers → ℕ × World → List Bytes → Bytes → Made
left_by answers s paths buf =
    let r = ensure_all answers s paths in record { ret = r.0; world = r.1; buf = buf }

mkdir_from-end :
    (answers : Answers) (w below above stale : Bytes) (s : ℕ × World)
    → IsName w
    → All NotNul below
    → string_in above ≡ some stale
    → mkdir_from answers [] (below ++ w) above false s
      ≡ some (left_by answers s ((below ++ (w ++ stale)) ∷ []) (below ++ (w ++ above)))
unfolding mkdir_from make_last ensure_all
mkdir_from-end answers w below above stale s hw hb z =
    let e =
      string_in-append (below ++ w) above stale (All-append NotNul below w hb (name-NotNul w hw))
        z in
    rw (e, append_assoc below w stale, append_assoc below w above) refl

mkdir_from-last :
    (answers : Answers) (w below over above stale : Bytes) (is_end : Bool) (s : ℕ × World)
    → IsName w
    → All NotNul below
    → length over ≡ length w
    → string_in above ≡ some stale
    → mkdir_from answers w below (over ++ above) is_end s
      ≡ some (left_by answers s ((below ++ (w ++ stale)) ∷ []) (below ++ (w ++ above)))
unfolding ensure_all
mkdir_from-last answers w below over above stale is_end s hw hb e z =
    ap (λ d. mkdir_from answers d below (over ++ above) is_end s) (sym (append-nil w))
    ∙ mkdir_from-name answers w [] below over above is_end s hw e
    ∙ mkdir_from-end answers w below above stale s hw hb z

-- A component and a slash, where `ih` is what the loop does with the rest.
chain-step :
    (answers : Answers) (w v : Bytes) (vs : List Bytes)
    (below over first second above stale : Bytes) (is_end : Bool) (s : ℕ × World)
    → IsName w
    → All NotNul below
    → over ≡ first ++ second
    → length first ≡ length w
    → length over ≡ length (joined w (v ∷ vs))
    → ((over2 : Bytes)
        → length over2 ≡ length (joined v vs)
        → mkdir_from answers
            (joined v vs)
            ((below ++ w) ++ b'/' ∷ [])
            (over2 ++ above)
            true
            (ensure answers s (below ++ w))
          ≡ some (
              left_by answers
                (ensure answers s (below ++ w))
                (chain ((below ++ w) ++ b'/' ∷ []) v vs stale)
                (((below ++ w) ++ b'/' ∷ []) ++ (joined v vs ++ above))))
    → mkdir_from answers (joined w (v ∷ vs)) below (over ++ above) is_end s
      ≡ some
          (left_by answers s (chain below w (v ∷ vs) stale) (below ++ (joined w (v ∷ vs) ++ above)))
unfolding joined chain ensure_all
chain-step answers w v vs below over first [] above stale is_end s hw hb split len e ih = absurd (
    omega (
      arith,
      e,
      len,
      ap length split,
      length-append first [],
      length-append w (b'/' ∷ joined v vs),
    ))
chain-step answers w v vs below over first (o ∷ over2) above stale is_end s hw hb split len e ih =
    let slash : Bytes = b'/' ∷ [] in
    let here : over ++ above ≡ first ++ (o ∷ (over2 ++ above)) =
      ap (λ t. t ++ above) split ∙ append_assoc first (o ∷ over2) above in
    let short : length over2 ≡ length (joined v vs) = omega (
      arith,
      e,
      len,
      ap length split,
      length-append first (o ∷ over2),
      length-append w (b'/' ∷ joined v vs),
    ) in
    let base : (below ++ w) ++ slash ≡ below ++ (w ++ slash) = append_assoc below w slash in
    let all : (below ++ (w ++ slash)) ++ (joined v vs ++ above)
        ≡ below ++ ((w ++ b'/' ∷ joined v vs) ++ above) =
      append_assoc below (w ++ slash) (joined v vs ++ above)
      ∙ ap (λ t. below ++ t)
          (append_assoc w slash (joined v vs ++ above)
            ∙ sym (append_assoc w (b'/' ∷ joined v vs) above)) in
    ap (λ t. mkdir_from answers (w ++ b'/' ∷ joined v vs) below t is_end s) here
    ∙ mkdir_from-name answers w (b'/' ∷ joined v vs) below first (o ∷ (over2 ++ above)) is_end s hw
        len
    ∙ mkdir_from-slash answers (joined v vs) (below ++ w) (over2 ++ above) o false s
        (All-append NotNul below w hb (name-NotNul w hw))
    ∙ ih over2 short
    ∙ ap
        (λ b. some (
          left_by answers (ensure answers s (below ++ w)) (chain b v vs stale)
            (b ++ (joined v vs ++ above))))
        base
    ∙ ap
        (λ b. some (
          left_by answers (ensure answers s (below ++ w)) (chain (below ++ (w ++ slash)) v vs stale)
            b))
        all

mkdir_from-chain :
    (answers : Answers) (w : Bytes) (ws : List Bytes) (below over above stale : Bytes)
    (is_end : Bool) (s : ℕ × World)
    → All IsName (w ∷ ws)
    → All NotNul below
    → length over ≡ length (joined w ws)
    → string_in above ≡ some stale
    → mkdir_from answers (joined w ws) below (over ++ above) is_end s
      ≡ some (left_by answers s (chain below w ws stale) (below ++ (joined w ws ++ above)))
unfolding joined chain ensure_all
mkdir_from-chain answers w [] below over above stale is_end s (hw, hs) hb e z =
    mkdir_from-last answers w below over above stale is_end s hw hb e z
mkdir_from-chain answers w (v ∷ vs) below over above stale is_end s (hw, hs) hb e z =
    let r = split-at (length w) over (omega (arith, e, length-append w (b'/' ∷ joined v vs))) in
    let base-NotNul =
      All-append NotNul (below ++ w) (b'/' ∷ []) (All-append NotNul below w hb (name-NotNul w hw))
        ((λ h. absurd (omega arith)), tt) in
    chain-step answers w v vs below over r.0 r.1 above stale is_end s hw hb r.2 r.3 e (λ over2 k.
      mkdir_from-chain answers v vs ((below ++ w) ++ b'/' ∷ []) over2 above stale true
        (ensure answers s (below ++ w)) hs base-NotNul k z)

joined-cons : (c : ℕ) (w : Bytes) (ws : List Bytes) → joined (c ∷ w) ws ≡ c ∷ joined w ws
unfolding joined
joined-cons c w [] = refl
joined-cons c w (v ∷ vs) = refl

mkdir-relative :
    (answers : Answers) (world : World) (c : ℕ) (dir : Bytes) (o : ℕ) (buf : Bytes)
    → c ≢ b'/'
    → mkdir answers world (c ∷ dir) (o ∷ buf)
      ≡ mkdir_from answers (c ∷ dir) [] (o ∷ buf) true (0, world)
unfolding mkdir
mkdir-relative answers world c dir o buf h =
    let ne : (c == b'/') ≡ false = ground (arith, h) in rw ne refl

-- `mkdir` of a path of components makes sure of every directory of its chain.
pub mkdir-left_by :
    (answers : Answers) (world : World) (w : Bytes) (ws : List Bytes) (over above stale : Bytes)
    → All IsName (w ∷ ws)
    → length over ≡ length (joined w ws)
    → string_in above ≡ some stale
    → mkdir answers world (joined w ws) (over ++ above)
      ≡ some (left_by answers (0, world) (chain [] w ws stale) (joined w ws ++ above))
mkdir-left_by answers world [] ws over above stale h e z = absurd h.0
mkdir-left_by answers world (c ∷ w) ws [] above stale h e z =
    absurd (omega (arith, e, ap length (joined-cons c w ws)))
mkdir-left_by answers world (c ∷ w) ws (o ∷ over) above stale h e z =
    ap (λ d. mkdir answers world d (o ∷ (over ++ above))) (joined-cons c w ws)
    ∙ mkdir-relative answers world c (joined w ws) o (over ++ above) (h.0).0.1
    ∙ ap (λ d. mkdir_from answers d [] (o ∷ (over ++ above)) true (0, world))
        (sym (joined-cons c w ws))
    ∙ mkdir_from-chain answers (c ∷ w) ws [] (o ∷ over) above stale true (0, world) h tt e z
