-- ===== src/Shell/Exec/Pipes.antt =====
-- tlibc/system.c: which pipe joins which programs of a pipeline.
use tlibc.Base.{
  ℕ, zero, suc, ◌+◌, ◌-◌, ◌≤◌, ◌<◌, ◌≡◌, refl, sym, ap, ◌∙◌, Bool, true, false, List, [], ◌∷◌, ◌++◌,
  append_assoc, length, length-take, get_or, take, arith, if◌then◌else◌,
}
use tlibc.Shell.{Job, no_job}
use tlibc.Shell.Exec.{
  File, inherited, pipe_read, pipe_write, Kernel, Process, exec_single, exec_recur_noret, exec_job,
}

-- No call of `sys_pipe` and `sys_fork` fails.
pub record IsUnlimited (k : Kernel) : Type 0 where
  pub pipes : (n : ℕ) → k.pipes n ≡ true
  pub forks : (n : ℕ) → k.forks n ≡ true

-- A pipeline from its front: the first program reads `inp`, the last writes `out`, and the job
-- that stands at `i` and the one behind it share the pipe `i + 1`.
unfoldable pub wired : Kernel → ℕ → File → File → File → Job → List Job → List Process
wired k i inp out err j [] = exec_single k j (record { stdin = inp; stdout = out; stderr = err })
wired k i inp out err j (j' ∷ js) =
    exec_single k j (record { stdin = inp; stdout = pipe_write (i + 1); stderr = err })
    ++ wired k (i + 1) (pipe_read (i + 1)) out err j' js

wired-last :
    (k : Kernel) (i : ℕ) (inp out err : File) (j : Job) (js : List Job) (last : Job)
    → wired k i inp out err j (js ++ last ∷ [])
      ≡ wired k i inp (pipe_write (i + length js + 1)) err j js
        ++ exec_single k last
            (record { stdin = pipe_read (i + length js + 1); stdout = out; stderr = err })
unfolding wired
wired-last k i inp out err j [] last = let z : i + 0 + 1 ≡ i + 1 = omega arith in rw z refl
wired-last k i inp out err j (j' ∷ js) last =
    let z : i + suc (length js) + 1 ≡ i + 1 + length js + 1 = omega arith in
    rw (z, wired-last k (i + 1) (pipe_read (i + 1)) out err j' js last)
      (sym (
        append_assoc
          (exec_single k j (record { stdin = inp; stdout = pipe_write (i + 1); stderr = err }))
          (wired k (i + 1) (pipe_read (i + 1)) (pipe_write (i + 1 + length js + 1)) err j' js)
          (exec_single k last
            (record { stdin = pipe_read (i + 1 + length js + 1); stdout = out; stderr = err }))))

take-last :
    (n : ℕ) (js : List Job) → n < length js → take (suc n) js ≡ take n js ++ get_or js n no_job ∷ []
unfolding tlibc.Base.Lists.take
take-last n [] h = absurd (omega (arith, h))
take-last zero (j ∷ js) h = refl
take-last (suc n) (j ∷ js) h = ap (λ t. j ∷ t) (take-last n js (omega (arith, h)))

take-all : (js : List Job) → take (length js) js ≡ js
unfolding tlibc.Base.Lists.take
take-all [] = refl
take-all (j ∷ js) = ap (λ t. j ∷ t) (take-all js)

exec-wired :
    (k : Kernel) (j : Job) (js : List Job) (cur : ℕ) (inp out err : File)
    → IsUnlimited k
    → cur ≤ length js
    → exec_recur_noret k (j ∷ js) cur (record { stdin = inp; stdout = out; stderr = err })
      ≡ wired k 0 inp out err j (take cur js)
unfolding exec_recur_noret wired tlibc.Base.Lists.take
exec-wired k j js zero inp out err u h = refl
exec-wired k j js (suc cur) inp out err u h =
    let z : 0 + cur + 1 ≡ suc cur = omega arith in
    rw
      (
        u.pipes (suc cur),
        u.forks (suc cur),
        exec-wired k j js cur inp (pipe_write (suc cur)) err u (omega (arith, h)),
        take-last cur js (omega (arith, h)),
        wired-last k 0 inp out err j (take cur js) (get_or js cur no_job),
        length-take cur js (omega (arith, h)),
        z,
      )
      refl

-- When no pipe and no fork fails, the programs of a pipeline run joined by its pipes: each but the
-- first reads the pipe that the one before it writes, the first reads the shell's input, and the
-- last writes the shell's output, but for what the redirections of a job say.
pub exec_job-wired :
    (k : Kernel) (j : Job) (js : List Job)
    → IsUnlimited k
    → exec_job k true (j ∷ js) ≡ wired k 0 (inherited 0) (inherited 1) (inherited 2) j js
unfolding exec_job
exec_job-wired k j js u =
    let z : suc (length js) - 1 ≡ length js = omega arith in
    rw z (
      exec-wired k j js (length js) (inherited 0) (inherited 1) (inherited 2) u (omega arith)
      ∙ ap (λ t. wired k 0 (inherited 0) (inherited 1) (inherited 2) j t) (take-all js))
