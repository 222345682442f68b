-- ===== src/Shell.antt =====
-- tlibc/sh.c: a command line is cut into commands, and each command into jobs.
pub mod Words
pub mod Spelling
pub mod Accept
pub mod Parse
pub mod Line
pub mod Exec
use tlibc.Base.{
  ◌≡◌, refl, ℕ, zero, suc, ◌+◌, ◌-◌, ◌%◌, ◌^◌, Bool, true, false, ◌&&◌, ◌||◌, not, Option, none,
  some, List, [], ◌∷◌, ◌++◌, Bytes, codes, length, get_or, ltb, leb, ◌==◌, if◌then◌else◌, ◌>>=◌,
}

-- `contains`: the NUL is in every string.
unfoldable pub contains : Bytes → ℕ → Bool
contains [] ch = ch == 0
contains (c ∷ s) ch = (c == ch) || contains s ch

-- `(int)*s`: a `char` is signed.
abbrev pub int_of_char : ℕ → ℕ
int_of_char c = if ltb c 0x80 then c else c + (2 ^ 32 - 0x100)

-- `(int)*s1 - (int)*s2`, an `int` as its bit pattern.
abbrev pub char_difference : ℕ → ℕ → ℕ
char_difference a b = (int_of_char a + (2 ^ 32 - int_of_char b)) % 2 ^ 32

-- `Strcmp` of strings without their NULs.
unfoldable pub strcmp : Bytes → Bytes → ℕ
strcmp [] [] = char_difference 0 0
strcmp [] (b ∷ t) = char_difference 0 b
strcmp (a ∷ s) [] = char_difference a 0
strcmp (a ∷ s) (b ∷ t) = let rest = strcmp s t in if a == b then rest else char_difference a b

-- `Strcmp(old, "...") == 0`
abbrev pub is_word : Bytes → Bytes → Bool
is_word old word = strcmp old word == 0

-- `job_t`. `none` is `NULL`; of `argv`, the part that is filled, `narg` long.
pub record Job : Type 0 where
  pub stdin_fo : Option Bytes
  pub stdout_fo : Option Bytes
  pub stderr_fo : Option Bytes
  pub exe : Option Bytes
  pub argv : List Bytes

abbrev pub no_job : Job
no_job = record { stdin_fo = none; stdout_fo = none; stderr_fo = none; exe = none; argv = [] }

-- The variables of `system_single`: the jobs before `cur`, `*cur`, the three flags, and how much
-- of the buffer lies below `cp`.
pub record Parser : Type 0 where
  pub jobs : List Job
  pub cur : Job
  pub prein : Bool
  pub preout : Bool
  pub preerr : Bool
  pub used : ℕ

abbrev pub parser : Parser
parser = record { jobs = []; cur = no_job; prein = false; preout = false; preerr = false; used = 0 }

-- The bytes of `buf`, the entries of `argv` and of `jobs`.
abbrev pub buf_size : ℕ
buf_size = 3545

abbrev pub argv_size : ℕ
argv_size = 64

abbrev pub jobs_size : ℕ
jobs_size = 4

-- `" \t\r\n"`
abbrev pub blank : Bytes
blank = 32 ∷ 9 ∷ 13 ∷ 10 ∷ []

-- `*cp = cmd[k]; cp++` for the token and its NUL. `none`, here and below: a write behind the end
-- of an array.
pub record_token : Parser → Bytes → Option Parser
record_token p old =
    let used = p.used + length old + 1 in
    if leb used buf_size
    then some (record {
      jobs = p.jobs;
      cur = p.cur;
      prein = p.prein;
      preout = p.preout;
      preerr = p.preerr;
      used = used;
    })
    else none

-- `cur++`
pub next_job : Parser → Option Parser
next_job p =
    if ltb (length p.jobs + 1) jobs_size
    then some (record {
      jobs = p.jobs ++ p.cur ∷ [];
      cur = no_job;
      prein = p.prein;
      preout = p.preout;
      preerr = p.preerr;
      used = p.used;
    })
    else none

-- The destination of a redirection that the token before asked for.
pub redirect : Parser → Bytes → Parser
redirect p old =
    let j = p.cur in
    record {
      jobs = p.jobs;
      cur = record {
        stdin_fo = if p.prein then some old else j.stdin_fo;
        stdout_fo = if p.preout then some old else j.stdout_fo;
        stderr_fo = if p.preerr then some old else j.stderr_fo;
        exe = j.exe;
        argv = j.argv;
      };
      prein = false;
      preout = false;
      preerr = false;
      used = p.used;
    }

-- `cur->argv[narg++] = old`, and `exe` at the first.
pub add_argument : Parser → Bytes → Option Parser
add_argument p old =
    let j = p.cur in
    if ltb (length j.argv) argv_size
    then some (record {
      jobs = p.jobs;
      cur = record {
        stdin_fo = j.stdin_fo;
        stdout_fo = j.stdout_fo;
        stderr_fo = j.stderr_fo;
        exe = if length j.argv == 0 then some old else j.exe;
        argv = j.argv ++ old ∷ [];
      };
      prein = p.prein;
      preout = p.preout;
      preerr = p.preerr;
      used = p.used;
    })
    else none

-- Which redirection the token asks for: the flags that the next token finds.
pub ask : Parser → Bytes → Parser
ask p old = record {
  jobs = p.jobs;
  cur = p.cur;
  prein = p.prein || is_word old (codes "<");
  preout = p.preout || is_word old (codes ">");
  preerr = p.preerr || is_word old (codes "2>");
  used = p.used;
}

abbrev pub is_redirection : Bytes → Bool
is_redirection old = is_word old (codes "<") || is_word old (codes ">") || is_word old (codes "2>")

-- The body of the loop behind the search: the token is recorded and takes effect.
pub accept : Parser → Bytes → Option Parser
accept p old = record_token p old >>= λ p1.
    (if is_word old (codes "|") then next_job p1 else some p1) >>= λ p2.
    let p3 = ask (redirect p2 old) old in
    let is_argv =
      not (is_word old (codes "|") || p2.prein || p2.preout || p2.preerr || is_redirection old) in
    if is_argv then add_argument p3 old else some p3

-- The search for the begin of a token.
pub skip_blanks : Bytes → Bytes
skip_blanks [] = []
skip_blanks (c ∷ s) = if contains blank c then skip_blanks s else c ∷ s

-- The search for the end of a token: the token, and what follows it.
pub token : Bytes → Bytes × Bytes
token [] = ([], [])
token (c ∷ s) = let t = token s in if contains blank c then ([], c ∷ s) else (c ∷ t.0, t.1)

-- `if (next > i)`
pub accept_token : Parser → Bytes → Option Parser
accept_token p [] = some p
accept_token p (c ∷ old) = accept p (c ∷ old)

-- The loop over the command. A round takes a byte or more, so the length is enough fuel.
pub parse : ℕ → Parser → Bytes → Option Parser
parse fuel p [] = some p
parse zero p (c ∷ s) = none
parse (suc fuel) p (c ∷ s) =
    let t = token (skip_blanks (c ∷ s)) in accept_token p t.0 >>= λ q. parse fuel q t.1

-- What a command does: one of the built-in commands, or a pipeline for `exec_job`. `crash`: a
-- write behind an array, or `Strcmp` of `NULL`.
pub data Action : Type 0 where
  change_dir : Option Bytes → Action
  bye : Action
  print_pid : Action
  run : List Job → Action
  crash : Action

abbrev pub argument : List Bytes → ℕ → Option Bytes
argument [] i = none
argument (a ∷ rest) zero = some a
argument (a ∷ rest) (suc i) = argument rest i

-- The built-in commands, looked for in the first job.
pub dispatch : Job → List Job → Action
dispatch j all = elim j.exe [
  | none ↦ crash
  | some exe ↦
      if is_word (codes "cd") exe
      then change_dir (argument j.argv 1)
      else if is_word (codes "exit") exe || is_word (codes "q") exe
      then bye
      else if is_word (codes "pid") exe
      then print_pid
      else run all
]

-- `jobs` up to `jobcnt`.
pub jobs_of : Parser → List Job
jobs_of p = p.jobs ++ p.cur ∷ []

pub start_jobs : List Job → Action
start_jobs [] = crash
start_jobs (j ∷ js) = dispatch j (j ∷ js)

-- `system_single` of a command that is not empty: the bytes up to `end`.
pub system_single : Bytes → Action
system_single cmd = elim (parse (length cmd) parser cmd) [
  | none ↦ crash
  | some p ↦ start_jobs (jobs_of p)
]

-- `"\n;&\0"`
abbrev pub eoc : Bytes
eoc = 10 ∷ b';' ∷ b'&' ∷ []

-- The search for the end of a command: the command, and what follows the end's byte.
pub command : Bytes → Bytes × Bytes
command [] = ([], [])
command (c ∷ s) = let t = command s in if contains eoc c then ([], s) else (c ∷ t.0, t.1)

-- Does the shell go on after this command?
pub goes_on : Action → Bool
goes_on bye = false
goes_on crash = false
goes_on _ = true

-- `system`: what the commands of a line do, in order. A round takes a byte or more.
pub system : ℕ → Bytes → List Action
system fuel [] = []
system zero (c ∷ s) = []
system (suc fuel) (c ∷ s) =
    let t = command (c ∷ s) in
    let a = system_single t.0 in let rest = system fuel t.1 in a ∷ (if goes_on a then rest else [])

-- A line of one newline is an empty command: `Strcmp` of `NULL`.
empty_line : system 1 (10 ∷ []) ≡ crash ∷ []
unfolding system command contains system_single parse start_jobs dispatch jobs_of goes_on
empty_line = refl
