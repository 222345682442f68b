-- ===== src/Shell/Line.antt =====
-- tlibc/sh.c: a line of several commands, and what it runs.
use tlibc.Base.{
  length-append, ℕ, zero, suc, ◌≤◌, ◌≡◌, refl, ap, ◌∙◌, false, List, [], ◌∷◌, ◌++◌, map, Bytes,
  length, All, All-append, arith,
}
use tlibc.Shell.{
  Job, contains, eoc, command, system, system_single, goes_on, run, buf_size, jobs_size,
}
use tlibc.Shell.Words.{IsToken, spaced}
use tlibc.Shell.Spelling.{Typed, taken, job_of}
use tlibc.Shell.Parse.{IsTyped, IsProgram, command_words, system_single-typed}

-- A byte that does not end a command.
abbrev pub IsInside : ℕ → Type 0
IsInside c = contains eoc c ≡ false

-- A pipeline that `system_single` has room for, and that holds no end of a command.
pub record IsCommand (l : Typed × List Typed) : Type 0 where
  pub tokens : All IsToken (command_words l.0 l.1)
  pub inside : All (All IsInside) (command_words l.0 l.1)
  pub typed : All IsTyped (l.0 ∷ l.1)
  pub program : IsProgram (l.0).name
  pub fits : taken (command_words l.0 l.1) ≤ buf_size
  pub few : length (l.0 ∷ l.1) ≤ jobs_size

abbrev pub command_text : Typed × List Typed → Bytes
command_text l = spaced (command_words l.0 l.1)

-- The commands, each with a semicolon behind it.
unfoldable pub line_text : List (Typed × List Typed) → Bytes
line_text [] = []
line_text (l ∷ ls) = command_text l ++ b';' ∷ line_text ls

command-inside : (s rest : Bytes) → All IsInside s → command (s ++ b';' ∷ rest) ≡ (s, rest)
unfolding command contains
command-inside [] rest h = refl
command-inside (c ∷ s) rest (hc, h) = rw (hc, command-inside s rest h) refl

spaced-IsInside : (ws : List Bytes) → All (All IsInside) ws → All IsInside (spaced ws)
unfolding spaced contains
spaced-IsInside [] h = tt
spaced-IsInside (w ∷ ws) (hw, h) =
    All-append IsInside w (32 ∷ spaced ws) hw (refl, spaced-IsInside ws h)

-- A round of `system`, on a command that is run.
system-round :
    (fuel : ℕ) (s rest : Bytes) (c : ℕ) (js : List Job)
    → All IsInside (c ∷ s)
    → system_single (c ∷ s) ≡ run js
    → system (suc fuel) (c ∷ s ++ b';' ∷ rest) ≡ run js ∷ system fuel rest
unfolding system goes_on
system-round fuel s rest c js h e = rw (command-inside (c ∷ s) rest h, e) refl

system-command :
    (fuel : ℕ) (text rest : Bytes) (js : List Job)
    → 1 ≤ length text
    → All IsInside text
    → system_single text ≡ run js
    → system (suc fuel) (text ++ b';' ∷ rest) ≡ run js ∷ system fuel rest
system-command fuel [] rest js n h e = absurd (omega (arith, n))
system-command fuel (c ∷ s) rest js n h e = system-round fuel s rest c js h e

spaced-some : (w : Bytes) (ws : List Bytes) → 1 ≤ length (spaced (w ∷ ws))
unfolding spaced
spaced-some w ws = omega (arith, length-append w (32 ∷ spaced ws))

-- A line of pipelines, each with a semicolon behind it, runs them in order, as they were typed, and
-- nothing else; a round for each is enough.
pub system-typed :
    (ls : List (Typed × List Typed)) (fuel : ℕ)
    → All IsCommand ls
    → length ls ≤ fuel
    → system fuel (line_text ls) ≡ map (λ l. run (map job_of (l.0 ∷ l.1))) ls
unfolding line_text system
system-typed [] fuel h enough = refl
system-typed (l ∷ ls) zero h enough = absurd (omega (arith, enough))
system-typed (l ∷ ls) (suc fuel) (hl, h) enough =
    system-command fuel (command_text l) (line_text ls) (map job_of (l.0 ∷ l.1)) (spaced-some _ _)
      (spaced-IsInside (command_words l.0 l.1) hl.inside)
      (system_single-typed l.0 l.1 hl.tokens hl.typed hl.program hl.fits hl.few)
    ∙ ap (λ t. run (map job_of (l.0 ∷ l.1)) ∷ t) (system-typed ls fuel h (omega (arith, enough)))
