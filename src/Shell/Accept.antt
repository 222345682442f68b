-- ===== src/Shell/Accept.antt =====
-- What one token does to the variables of system_single in tlibc/sh.c.
use tlibc.Base.{
  ℕ, ◌+◌, ◌≤◌, ◌<◌, ◌≡◌, refl, ap, ◌∙◌, true, false, Option, none, some, List, [], ◌∷◌, ◌++◌,
  append_assoc, append-nil, Bytes, codes, length, All, length-append, arith, ltb, leb, ◌==◌,
}
use tlibc.Shell.{
  crash, Job, no_job, Parser, parser, is_word, is_redirection, record_token, next_job, redirect,
  add_argument, ask, accept, buf_size, argv_size, jobs_size, Action, run, parse, system_single,
  start_jobs, jobs_of, dispatch,
}
use tlibc.Shell.Words.{accept_all}
use tlibc.Shell.Spelling.{IsPlain, option_words, option_list, taken, at_rest, named_job, with_args}

pub accept-name :
    (js : List Job) (w : Bytes) (n : ℕ)
    → IsPlain w
    → n + length w + 1 ≤ buf_size
    → accept (at_rest js no_job n) w ≡ some (at_rest js (named_job w) (n + length w + 1))
unfolding accept record_token next_job redirect ask add_argument
accept-name js w n (h0, h1, h2, h3) fit =
    let e : leb (n + length w + 1) buf_size ≡ true = ground arith in rw (e, h0, h1, h2, h3) refl

pub accept-arg :
    (js : List Job) (j : Job) (w : Bytes) (n : ℕ)
    → IsPlain w
    → n + length w + 1 ≤ buf_size
    → 1 ≤ length j.argv
    → length j.argv < argv_size
    → accept (at_rest js j n) w ≡ some (at_rest js (with_args j (w ∷ [])) (n + length w + 1))
unfolding accept record_token next_job redirect ask add_argument
accept-arg js j w n (h0, h1, h2, h3) fit one room =
    let e : leb (n + length w + 1) buf_size ≡ true = ground arith in
    let f : ltb (length j.argv) argv_size ≡ true = ground arith in
    let g : (length j.argv == 0) ≡ false = ground arith in rw (e, h0, h1, h2, h3, f, g) refl

pub accept-from :
    (js : List Job) (out err exe : Option Bytes) (argv : List Bytes) (o : Option Bytes) (n : ℕ)
    (rest : List Bytes)
    → All IsPlain (option_list o)
    → n + taken (option_words (codes "<") o) ≤ buf_size
    → accept_all
        (at_rest js
          (record { stdin_fo = none; stdout_fo = out; stderr_fo = err; exe = exe; argv = argv })
          n)
        (option_words (codes "<") o ++ rest)
      ≡ accept_all
          (at_rest js
            (record { stdin_fo = o; stdout_fo = out; stderr_fo = err; exe = exe; argv = argv })
            (n + taken (option_words (codes "<") o)))
          rest
unfolding accept record_token redirect ask accept_all taken tlibc.Shell.strcmp
accept-from js out err exe argv none n rest h fit = let z : n + 0 ≡ n = omega arith in rw z refl
accept-from js out err exe argv (some w) n rest ((h0, h1, h2, h3), _) fit =
    let e : leb (n + 1 + 1) buf_size ≡ true = ground arith in
    let f : leb (n + 1 + 1 + length w + 1) buf_size ≡ true = ground arith in
    let u : n + 1 + 1 + length w + 1 ≡ n + (1 + 1 + (length w + 1 + 0)) = omega arith in
    rw (e, f, h0, h1, h2, h3, u) refl

pub accept-to :
    (js : List Job) (inp err exe : Option Bytes) (argv : List Bytes) (o : Option Bytes) (n : ℕ)
    (rest : List Bytes)
    → All IsPlain (option_list o)
    → n + taken (option_words (codes ">") o) ≤ buf_size
    → accept_all
        (at_rest js
          (record { stdin_fo = inp; stdout_fo = none; stderr_fo = err; exe = exe; argv = argv })
          n)
        (option_words (codes ">") o ++ rest)
      ≡ accept_all
          (at_rest js
            (record { stdin_fo = inp; stdout_fo = o; stderr_fo = err; exe = exe; argv = argv })
            (n + taken (option_words (codes ">") o)))
          rest
unfolding accept record_token redirect ask accept_all taken tlibc.Shell.strcmp
accept-to js inp err exe argv none n rest h fit = let z : n + 0 ≡ n = omega arith in rw z refl
accept-to js inp err exe argv (some w) n rest ((h0, h1, h2, h3), _) fit =
    let e : leb (n + 1 + 1) buf_size ≡ true = ground arith in
    let f : leb (n + 1 + 1 + length w + 1) buf_size ≡ true = ground arith in
    let u : n + 1 + 1 + length w + 1 ≡ n + (1 + 1 + (length w + 1 + 0)) = omega arith in
    rw (e, f, h0, h1, h2, h3, u) refl

pub accept-err :
    (js : List Job) (inp out exe : Option Bytes) (argv : List Bytes) (o : Option Bytes) (n : ℕ)
    (rest : List Bytes)
    → All IsPlain (option_list o)
    → n + taken (option_words (codes "2>") o) ≤ buf_size
    → accept_all
        (at_rest js
          (record { stdin_fo = inp; stdout_fo = out; stderr_fo = none; exe = exe; argv = argv })
          n)
        (option_words (codes "2>") o ++ rest)
      ≡ accept_all
          (at_rest js
            (record { stdin_fo = inp; stdout_fo = out; stderr_fo = o; exe = exe; argv = argv })
            (n + taken (option_words (codes "2>") o)))
          rest
unfolding accept record_token redirect ask accept_all taken tlibc.Shell.strcmp
accept-err js inp out exe argv none n rest h fit = let z : n + 0 ≡ n = omega arith in rw z refl
accept-err js inp out exe argv (some w) n rest ((h0, h1, h2, h3), _) fit =
    let e : leb (n + 2 + 1) buf_size ≡ true = ground arith in
    let f : leb (n + 2 + 1 + length w + 1) buf_size ≡ true = ground arith in
    let u : n + 2 + 1 + length w + 1 ≡ n + (2 + 1 + (length w + 1 + 0)) = omega arith in
    rw (e, f, h0, h1, h2, h3, u) refl

pub taken-append : (xs ys : List Bytes) → taken (xs ++ ys) ≡ taken xs + taken ys
unfolding taken
taken-append [] ys = omega arith
taken-append (w ∷ xs) ys = omega (arith, taken-append xs ys)

pub accept-args :
    (js : List Job) (j : Job) (ws : List Bytes) (n : ℕ) (rest : List Bytes)
    → All IsPlain ws
    → n + taken ws ≤ buf_size
    → 1 ≤ length j.argv
    → length j.argv + length ws ≤ argv_size
    → accept_all (at_rest js j n) (ws ++ rest)
      ≡ accept_all (at_rest js (with_args j ws) (n + taken ws)) rest
unfolding accept_all taken
accept-args js j [] n rest h fit one room =
    let z : n + 0 ≡ n = omega arith in rw (z, append-nil j.argv) refl
accept-args js j (w ∷ ws) n rest (h, hs) fit one room =
    let u : n + (length w + 1 + taken ws) ≡ n + length w + 1 + taken ws = omega arith in
    rw (accept-arg js j w n h (omega (arith, fit)) one (omega (arith, room)), u)
      (accept-args js (with_args j (w ∷ [])) ws (n + length w + 1) rest hs (omega (arith, fit))
          (omega (arith, length-append j.argv (w ∷ [])))
          (omega (arith, room, length-append j.argv (w ∷ [])))
        ∙ ap
            (λ a.
              accept_all
                (at_rest js
                  (record {
                    stdin_fo = j.stdin_fo;
                    stdout_fo = j.stdout_fo;
                    stderr_fo = j.stderr_fo;
                    exe = j.exe;
                    argv = a;
                  })
                  (n + length w + 1 + taken ws))
                rest)
            (append_assoc j.argv (w ∷ []) ws))
