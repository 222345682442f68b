-- ===== src/Tests/Shell.antt =====
-- tlibc/sh.c and tlibc/system.c at concrete inputs.
use tlibc.Base.{◌≡◌, refl, true, none, some, [], ◌∷◌, codes, arith}
use tlibc.Shell.{Job, run, system, system_single}
use tlibc.Shell.Line.{IsCommand, line_text, system-typed}
use tlibc.Shell.Spelling.{Typed, taken, job_of}
use tlibc.Shell.Exec.{Kernel, inherited, exec_job}
use tlibc.Shell.Exec.Pipes.{wired, exec_job-wired}

-- `cat -n < in | wc > out`
abbrev cat : Typed
cat = record {
  name = codes "cat";
  args = codes "-n" ∷ [];
  from = some (codes "in");
  to = none;
  err = none;
}

abbrev wc : Typed
wc = record { name = codes "wc"; args = []; from = none; to = some (codes "out"); err = none }

piped-IsCommand : IsCommand (cat, wc ∷ [])
unfolding taken tlibc.Shell.strcmp tlibc.Shell.contains tlibc.Shell.Spelling.more_words
piped-IsCommand = record {
  tokens = (
    (refl, (refl, (refl, tt))),
    (
      (refl, (refl, tt)),
      (
        (refl, tt),
        (
          (refl, (refl, tt)),
          ((refl, tt), ((refl, (refl, tt)), ((refl, tt), ((refl, (refl, (refl, tt))), tt)))),
        ),
      ),
    ),
  );
  inside = (
    (refl, (refl, (refl, tt))),
    (
      (refl, (refl, tt)),
      (
        (refl, tt),
        (
          (refl, (refl, tt)),
          ((refl, tt), ((refl, (refl, tt)), ((refl, tt), ((refl, (refl, (refl, tt))), tt)))),
        ),
      ),
    ),
  );
  typed = (
    record {
      name = (refl, refl, refl, refl);
      args = ((refl, refl, refl, refl), tt);
      from = ((refl, refl, refl, refl), tt);
      to = tt;
      err = tt;
      room = omega arith;
    },
    (
      record {
        name = (refl, refl, refl, refl);
        args = tt;
        from = tt;
        to = ((refl, refl, refl, refl), tt);
        err = tt;
        room = omega arith;
      },
      tt,
    ),
  );
  program = (refl, refl, refl, refl);
  fits = omega arith;
  few = omega arith;
}

wc-IsCommand : IsCommand (wc, [])
unfolding taken tlibc.Shell.strcmp tlibc.Shell.contains tlibc.Shell.Spelling.more_words
wc-IsCommand = record {
  tokens = ((refl, (refl, tt)), ((refl, tt), ((refl, (refl, (refl, tt))), tt)));
  inside = ((refl, (refl, tt)), ((refl, tt), ((refl, (refl, (refl, tt))), tt)));
  typed = (
    record {
      name = (refl, refl, refl, refl);
      args = tt;
      from = tt;
      to = ((refl, refl, refl, refl), tt);
      err = tt;
      room = omega arith;
    },
    tt,
  );
  program = (refl, refl, refl, refl);
  fits = omega arith;
  few = omega arith;
}

-- `cat -n < in | wc > out ;wc > out ;`
system-typed_example :
    system 2 (line_text ((cat, wc ∷ []) ∷ (wc, []) ∷ []))
    ≡ run (job_of cat ∷ job_of wc ∷ []) ∷ run (job_of wc ∷ []) ∷ []
system-typed_example =
    system-typed ((cat, wc ∷ []) ∷ (wc, []) ∷ []) 2 (piped-IsCommand, (wc-IsCommand, tt))
      (omega arith)

abbrev kernel : Kernel
kernel = record {
  opens = λ p. true;
  creates = λ p. true;
  executes = λ p. true;
  pipes = λ n. true;
  forks = λ n. true;
}

exec_job-wired_example :
    exec_job kernel true (job_of cat ∷ job_of wc ∷ [])
    ≡ wired kernel 0 (inherited 0) (inherited 1) (inherited 2) (job_of cat) (job_of wc ∷ [])
exec_job-wired_example =
    exec_job-wired kernel (job_of cat) (job_of wc ∷ [])
      (record { pipes = λ n. refl; forks = λ n. refl })
