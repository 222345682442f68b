-- ===== src/Tests/Util.antt =====
-- The utilities of tlibc/ and the zero device at concrete inputs.
use tlibc.Base.{ℕ, ◌≡◌, refl, false, true, some, [], ◌∷◌, Memory, memset, codes, arith}
use tlibc.Stdio.Put.{decimal}
use tlibc.Util.Wc.{wc, wc-summary, summary, concat}
use tlibc.Util.Seq.{seq, seq-lines, lines}
use tlibc.Util.Mkdir.{World}
use tlibc.Device.{zero_read, moved, zero_read-memset}

abbrev empty : Memory
empty q = 0

wc-summary_example :
    wc (λ n. false) (codes "two wo" ∷ codes "rds\n" ∷ [])
    ≡ some (summary (λ n. false) (concat (codes "two wo" ∷ codes "rds\n" ∷ [])))
wc-summary_example =
    wc-summary (λ n. false) (codes "two wo") (codes "rds\n" ∷ []) (omega arith, (omega arith, tt))

seq-lines_example : seq 10 empty 100 (decimal 8 ∷ decimal 11 ∷ []) ≡ some (some (lines 8 4))
seq-lines_example = seq-lines 10 empty 100 8 11 (omega arith) (omega arith) (omega arith)

abbrev nothing : World
nothing = record { found = λ p. false; asked = [] }

zero_read-memset_example :
    (m' : Memory) × (zero_read 600 (λ a n. true) (λ q. q) 50 600 7 ≡ moved 600 m' 607)
    × ((q : ℕ) → m' q ≡ memset (λ q. q) 50 0 600 q)
zero_read-memset_example = zero_read-memset (λ a n. true) (λ q. q) 50 600 7 (λ a n. refl)
