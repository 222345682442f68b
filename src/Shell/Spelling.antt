-- ===== src/Shell/Spelling.antt =====
-- Pipelines as they are typed, and the jobs of tlibc/sh.c that they stand for.
use tlibc.Base.{ℕ, ◌+◌, ◌≡◌, false, Option, none, some, List, [], ◌∷◌, ◌++◌, Bytes, codes, length}
use tlibc.Shell.{Job, Parser, is_word}

-- A word that is no operator.
abbrev pub IsPlain : Bytes → Type 0
IsPlain w =
    (is_word w (codes "|") ≡ false)
    × (is_word w (codes "<") ≡ false)
    × (is_word w (codes ">") ≡ false)
    × (is_word w (codes "2>") ≡ false)

-- A pipeline as it is typed: of each job, the arguments, the program's name first, and the three
-- redirections.
pub record Typed : Type 0 where
  pub name : Bytes
  pub args : List Bytes
  pub from : Option Bytes
  pub to : Option Bytes
  pub err : Option Bytes

abbrev pub option_words : Bytes → Option Bytes → List Bytes
option_words op none = []
option_words op (some f) = op ∷ f ∷ []

abbrev pub job_words : Typed → List Bytes
job_words t =
    t.name
    ∷ (t.args
        ++ (option_words (codes "<") t.from
            ++ (option_words (codes ">") t.to ++ option_words (codes "2>") t.err)))

abbrev pub option_list : Option Bytes → List Bytes
option_list none = []
option_list (some f) = f ∷ []

-- The job that `job_t` should hold.
abbrev pub job_of : Typed → Job
job_of t = record {
  stdin_fo = t.from;
  stdout_fo = t.to;
  stderr_fo = t.err;
  exe = some t.name;
  argv = t.name ∷ t.args;
}

unfoldable pub more_words : List Typed → List Bytes
more_words [] = []
more_words (t ∷ ts) = codes "|" ∷ job_words t ++ more_words ts

-- The bytes that the tokens take in the buffer, with their NULs.
unfoldable pub taken : List Bytes → ℕ
taken [] = 0
taken (w ∷ ws) = length w + 1 + taken ws

-- A parser between two tokens, with no redirection open.
abbrev pub at_rest : List Job → Job → ℕ → Parser
at_rest js j n = record {
  jobs = js;
  cur = j;
  prein = false;
  preout = false;
  preerr = false;
  used = n;
}

abbrev pub named_job : Bytes → Job
named_job w = record {
  stdin_fo = none;
  stdout_fo = none;
  stderr_fo = none;
  exe = some w;
  argv = w ∷ [];
}

abbrev pub with_args : Job → List Bytes → Job
with_args j ws = record {
  stdin_fo = j.stdin_fo;
  stdout_fo = j.stdout_fo;
  stderr_fo = j.stderr_fo;
  exe = j.exe;
  argv = j.argv ++ ws;
}
