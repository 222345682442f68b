-- ===== src/Util/Kill.antt =====
-- tlibc/kill.c: which signal goes to which process.
use tlibc.Base.{
  ℕ, ◌-◌, ◌^◌, ◌<◌, ◌≡◌, refl, Bool, true, false, Option, none, some, List, [], ◌∷◌, Bytes, codes,
  arith, if◌then◌else◌,
}
use tlibc.Str.{atoi}
use tlibc.Shell.{strcmp, is_word, char_difference, int_of_char}
use tlibc.Stdio.Put.{decimal}
use tlibc.Stdio.Atoi.{AreDigits, decimal-AreDigits}
use tlibc.Util.Seq.{atoi-decimal}

-- How `main` ends: with the usage and 1, with the help and 0, or with `sys_kill`. `crash`:
-- `atoi(NULL)`, or a number outside the range of `int`.
pub data Outcome : Type 0 where
  usage helped crash : Outcome
  sent : ℕ → ℕ → Outcome

-- `signo = atoi(argv[i])`
to_number : Option ℕ → (ℕ → Outcome) → Outcome
to_number none next = crash
to_number (some n) next = next n

-- The loop over the arguments, with `h`, `pid` and `signo`. Behind `-s`, the next argument is taken
-- whatever it is.
kill_from : List Bytes → Bool → ℕ → ℕ → Outcome
kill_from [] h pid signo = if h then helped else sent pid signo
kill_from (a ∷ []) h pid signo =
    let number = to_number (atoi a) (λ n. kill_from [] h n signo) in
    if is_word a (codes "-h")
    then kill_from [] true pid signo
    else if is_word a (codes "-s")
    then crash
    else number
kill_from (a ∷ b ∷ args) h pid signo =
    let help = kill_from (b ∷ args) true pid signo in
    let signal = to_number (atoi b) (λ n. kill_from args h pid n) in
    let number = to_number (atoi a) (λ n. kill_from (b ∷ args) h n signo) in
    if is_word a (codes "-h") then help else if is_word a (codes "-s") then signal else number

-- `main`: `SIGKILL` and the process -1, where no argument says anything else.
pub kill : List Bytes → Outcome
kill [] = usage
kill (a ∷ args) = kill_from (a ∷ args) false (2 ^ 32 - 1) 9

dash-digits : (s : Bytes) (c : ℕ) → AreDigits s → is_word s (b'-' ∷ c ∷ []) ≡ false
unfolding tlibc.Shell.strcmp
dash-digits [] c h = refl
dash-digits (d ∷ s) c (hd, h) = ground (arith, hd)

-- A signal and a process, as decimal numbers that an `int` can say, are found in either order; the
-- signal is `SIGKILL` where none is named; and `-h` behind them sends nothing.
pub kill-decimal :
    (pid signo : ℕ)
    → pid < 2 ^ 31
    → signo < 2 ^ 31
    → (kill (decimal pid ∷ []) ≡ sent pid 9)
      × (kill (codes "-s" ∷ decimal signo ∷ decimal pid ∷ []) ≡ sent pid signo)
      × (kill (decimal pid ∷ codes "-s" ∷ decimal signo ∷ []) ≡ sent pid signo)
      × (kill (codes "-s" ∷ decimal signo ∷ decimal pid ∷ codes "-h" ∷ []) ≡ helped)
unfolding kill kill_from to_number tlibc.Shell.strcmp
kill-decimal pid signo hp hs =
    let a = atoi-decimal pid hp in
    let b = atoi-decimal signo hs in
    let h = dash-digits (decimal pid) b'h' (decimal-AreDigits pid) in
    let s = dash-digits (decimal pid) b's' (decimal-AreDigits pid) in
    (rw (a, h, s) refl, rw (a, b, h, s) refl, rw (a, b, h, s) refl, rw (a, b, h, s) refl)
