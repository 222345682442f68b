-- ===== src/Shell/Parse.antt =====
-- A pipeline that is spelled out, its words and redirections, parses to the same pipeline.
use tlibc.Base.{
  map, ℕ, ◌+◌, ◌≤◌, ◌<◌, ◌≡◌, refl, ap, ◌∙◌, true, false, Option, none, some, List, [], ◌∷◌, ◌++◌,
  append_assoc, Bytes, codes, length, All, length-append, arith, ltb, leb, ◌>>=◌,
}
use tlibc.Shell.{
  crash, Job, no_job, Parser, parser, is_word, is_redirection, record_token, next_job, redirect,
  add_argument, ask, accept, buf_size, argv_size, jobs_size, Action, run, parse, system_single,
  start_jobs, jobs_of, dispatch,
}
use tlibc.Shell.Words.{IsToken, spaced, accept_all, parse-words}
use tlibc.Shell.Spelling.{
  IsPlain, Typed, option_words, job_words, option_list, job_of, more_words, taken, at_rest,
  named_job,
}
use tlibc.Shell.Accept.{accept-name, accept-from, accept-to, accept-err, taken-append, accept-args}

-- The words of a job are no operators, and there is room for its arguments.
pub record IsTyped (t : Typed) : Type 0 where
  pub name : IsPlain t.name
  pub args : All IsPlain t.args
  pub from : All IsPlain (option_list t.from)
  pub to : All IsPlain (option_list t.to)
  pub err : All IsPlain (option_list t.err)
  pub room : length t.args < argv_size

words_assoc :
    (a f o e rest : List Bytes) → (a ++ (f ++ (o ++ e))) ++ rest ≡ a ++ (f ++ (o ++ (e ++ rest)))
words_assoc a f o e rest =
    append_assoc a (f ++ (o ++ e)) rest
    ∙ ap (λ t. a ++ t) (append_assoc f (o ++ e) rest ∙ ap (λ t. f ++ t) (append_assoc o e rest))

taken-job :
    (t : Typed)
    → taken (job_words t)
      ≡ length t.name
        + 1
        + taken t.args
        + taken (option_words (codes "<") t.from)
        + taken (option_words (codes ">") t.to)
        + taken (option_words (codes "2>") t.err)
unfolding taken
taken-job t =
    let fs = option_words (codes "<") t.from in
    let os = option_words (codes ">") t.to in
    let es = option_words (codes "2>") t.err in
    omega (
      arith,
      taken-append t.args (fs ++ (os ++ es)),
      taken-append fs (os ++ es),
      taken-append os es,
    )

accept-job :
    (js : List Job) (t : Typed) (n : ℕ) (rest : List Bytes)
    → IsTyped t
    → n + taken (job_words t) ≤ buf_size
    → accept_all (at_rest js no_job n) (job_words t ++ rest)
      ≡ accept_all (at_rest js (job_of t) (n + taken (job_words t))) rest
unfolding accept_all taken
accept-job js t n rest h fit =
    let fs = option_words (codes "<") t.from in
    let os = option_words (codes ">") t.to in
    let es = option_words (codes "2>") t.err in
    let total = taken-job t in
    let n1 = n + length t.name + 1 in
    let n2 = n1 + taken t.args in
    let n3 = n2 + taken fs in
    let n4 = n3 + taken os in
    let u : n4 + taken es ≡ n + taken (job_words t) = omega (arith, total) in
    rw
      (words_assoc t.args fs os es rest, accept-name js t.name n h.name (omega (arith, fit, total)))
      (accept-args js (named_job t.name) t.args n1 (fs ++ (os ++ (es ++ rest))) h.args
          (omega (arith, fit, total)) (omega arith) (omega (arith, h.room))
        ∙ accept-from js none none (some t.name) (t.name ∷ t.args) t.from n2 (os ++ (es ++ rest))
            h.from (omega (arith, fit, total))
        ∙ accept-to js t.from none (some t.name) (t.name ∷ t.args) t.to n3 (es ++ rest) h.to
            (omega (arith, fit, total))
        ∙ accept-err js t.from t.to (some t.name) (t.name ∷ t.args) t.err n4 rest h.err
            (omega (arith, fit, total))
        ∙ ap (λ k. accept_all (at_rest js (job_of t) k) rest) u)

accept-pipe :
    (js : List Job) (j : Job) (n : ℕ)
    → n + 2 ≤ buf_size
    → length js + 1 < jobs_size
    → accept (at_rest js j n) (codes "|") ≡ some (at_rest (js ++ j ∷ []) no_job (n + 2))
unfolding accept record_token next_job redirect ask add_argument tlibc.Shell.strcmp
accept-pipe js j n fit room =
    let e : leb (n + 1 + 1) buf_size ≡ true = ground arith in
    let f : ltb (length js + 1) jobs_size ≡ true = ground arith in
    let u : n + 1 + 1 ≡ n + 2 = omega arith in rw (e, f, u) refl

accept-more :
    (js : List Job) (j : Job) (ts : List Typed) (n : ℕ)
    → All IsTyped ts
    → n + taken (more_words ts) ≤ buf_size
    → length js + 1 + length ts ≤ jobs_size
    → (accept_all (at_rest js j n) (more_words ts) >>= λ p. some (jobs_of p))
      ≡ some (js ++ j ∷ map job_of ts)
unfolding accept_all more_words taken jobs_of
accept-more js j [] n h fit room = refl
accept-more js j (t ∷ ts) n (h, hs) fit room =
    let total = taken-append (job_words t) (more_words ts) in
    rw
      (
        accept-pipe js j n (omega (arith, fit)) (omega (arith, room)),
        accept-job (js ++ j ∷ []) t (n + 2) (more_words ts) h (omega (arith, fit, total)),
      )
      (accept-more (js ++ j ∷ []) (job_of t) ts (n + 2 + taken (job_words t)) hs
          (omega (arith, fit, total)) (omega (arith, room, length-append js (j ∷ [])))
        ∙ ap some (append_assoc js (j ∷ []) (map job_of (t ∷ ts))))

-- No built-in command.
abbrev pub IsProgram : Bytes → Type 0
IsProgram w =
    (is_word (codes "cd") w ≡ false)
    × (is_word (codes "exit") w ≡ false)
    × (is_word (codes "q") w ≡ false)
    × (is_word (codes "pid") w ≡ false)

abbrev pub command_words : Typed → List Typed → List Bytes
command_words t ts = job_words t ++ more_words ts

start_option : Option (List Job) → Action
start_option none = crash
start_option (some js) = start_jobs js

start-option :
    (o : Option Parser)
    → elim o as (λ _. Action) [ none ↦ crash | some p ↦ start_jobs (jobs_of p) ]
      ≡ start_option (o >>= λ p. some (jobs_of p))
unfolding start_option
start-option none = refl
start-option (some p) = refl

start-typed :
    (t : Typed) (ts : List Typed)
    → IsProgram t.name
    → start_option (some (map job_of (t ∷ ts))) ≡ run (map job_of (t ∷ ts))
unfolding start_option start_jobs dispatch
start-typed t ts (c, x, q, d) = rw (c, x, q, d) refl

-- A pipeline of up to four jobs that is spelled out, with its redirections, parses to that
-- pipeline, and is run.
pub system_single-typed :
    (t : Typed) (ts : List Typed)
    → All IsToken (command_words t ts)
    → All IsTyped (t ∷ ts)
    → IsProgram t.name
    → taken (command_words t ts) ≤ buf_size
    → length (t ∷ ts) ≤ jobs_size
    → system_single (spaced (command_words t ts)) ≡ run (map job_of (t ∷ ts))
unfolding system_single
system_single-typed t ts tok (h, hs) prog fit few =
    let text = spaced (command_words t ts) in
    let total = taken-append (job_words t) (more_words ts) in
    start-option (parse (length text) parser text)
    ∙ ap start_option (
        ap (λ o. o >>= λ p. some (jobs_of p))
          (parse-words (length text) parser (command_words t ts) tok (omega arith)
            ∙ accept-job [] t 0 (more_words ts) h (omega (arith, fit, total)))
        ∙ accept-more [] (job_of t) ts (0 + taken (job_words t)) hs (omega (arith, fit, total))
            (omega (arith, few)))
    ∙ start-typed t ts prog
