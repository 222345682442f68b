-- ===== src/Shell/Exec.antt =====
-- tlibc/system.c: a pipeline as the programs it starts, each with its three files.
pub mod Pipes
use tlibc.Base.{
  ℕ, zero, suc, ◌+◌, ◌-◌, Bool, true, false, Option, none, some, List, [], ◌∷◌, ◌++◌, Bytes, codes,
  length, get_or, if◌then◌else◌,
}
use tlibc.Shell.{Job, no_job}

-- What a descriptor stands for: the shell's own one, a named file, or an end of a pipe.
pub data File : Type 0 where
  inherited : ℕ → File
  named : Bytes → File
  pipe_read : ℕ → File
  pipe_write : ℕ → File

-- The descriptors 0, 1 and 2 of a process.
pub record Files : Type 0 where
  pub stdin : File
  pub stdout : File
  pub stderr : File

abbrev shell_files : Files
shell_files = record { stdin = inherited 0; stdout = inherited 1; stderr = inherited 2 }

-- The calls of the kernel: does `sys_open` succeed for reading and for writing, does `sys_execve`
-- find a program, do `sys_pipe` and `sys_fork` succeed for the job `cur`?
pub record Kernel : Type 0 where
  pub opens : Bytes → Bool
  pub creates : Bytes → Bool
  pub executes : Bytes → Bool
  pub pipes : ℕ → Bool
  pub forks : ℕ → Bool

abbrev pub dirs : List Bytes
dirs = codes "/" ∷ codes "/bin/" ∷ codes "/usr/bin/" ∷ codes "/usr/local/bin/" ∷ []

search_dirs : Kernel → List Bytes → Bytes → Option Bytes
search_dirs k [] exe = none
search_dirs k (d ∷ ds) exe =
    let rest = search_dirs k ds exe in if k.executes (d ++ exe) then some (d ++ exe) else rest

-- `Execve`: the program that runs. `none`: every call returned. What a path does that is longer
-- than the buffer of 128 bytes is not shown.
execve : Kernel → Bytes → Option Bytes
execve k exe = if k.executes exe then some exe else search_dirs k dirs exe

-- A program that runs, with its arguments and its files.
pub record Process : Type 0 where
  pub path : Bytes
  pub argv : List Bytes
  pub files : Files

-- `sys_dup2(fd, n)` of a file just opened; after a failed open, nothing changes.
abbrev pub opened : (Bytes → Bool) → Option Bytes → File → File
opened ok none f = f
opened ok (some path) f = if ok path then named path else f

-- The redirections of `exec_single`.
redirected : Kernel → Job → Files → Files
redirected k j fs = record {
  stdin = opened k.opens j.stdin_fo fs.stdin;
  stdout = opened k.creates j.stdout_fo fs.stdout;
  stderr = opened k.creates j.stderr_fo fs.stderr;
}

-- `exec_single`, then `sys_exit(1)`: at most one program.
pub exec_single : Kernel → Job → Files → List Process
exec_single k j fs = elim j.exe [
  | none ↦ []
  | some exe ↦ elim (execve k exe) [
    | none ↦ []
    | some path ↦ record { path = path; argv = j.argv; files = redirected k j fs } ∷ []
  ]
]

-- `sys_dup2(pip[1], 1)` in the child, `sys_dup2(pip[0], 0)` in the parent.
abbrev child_files : ℕ → Files → Files
child_files cur fs = record { stdin = fs.stdin; stdout = pipe_write cur; stderr = fs.stderr }

abbrev parent_files : ℕ → Files → Files
parent_files cur fs = record { stdin = pipe_read cur; stdout = fs.stdout; stderr = fs.stderr }

-- `exec_recur_noret`: the programs of the jobs 0 to `cur`, in that order; the pipe that the round
-- for `cur` makes is numbered `cur`.
pub exec_recur_noret : Kernel → List Job → ℕ → Files → List Process
exec_recur_noret k jobs zero fs = exec_single k (get_or jobs 0 no_job) fs
exec_recur_noret k jobs (suc cur) fs =
    let below = exec_recur_noret k jobs cur (child_files (suc cur) fs) in
    let this = exec_single k (get_or jobs (suc cur) no_job) (parent_files (suc cur) fs) in
    if k.pipes (suc cur) then (if k.forks (suc cur) then below ++ this else []) else []

-- `exec_job`, with the result of its own `sys_fork`.
pub exec_job : Kernel → Bool → List Job → List Process
exec_job k false jobs = []
exec_job k true jobs = exec_recur_noret k jobs (length jobs - 1) shell_files
