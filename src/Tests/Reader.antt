-- ===== src/Tests/Reader.antt =====
-- The buffered reader of tlibc/stdio.c at concrete inputs.
use tlibc.Base.{
  ℕ, ◌≡◌, some, true, refl, [], ◌∷◌, ◌++◌, Bytes, codes, arith, length, write_all, write_all-Holds,
}
use tlibc.Stdio.Reader.{Input, fdgets, fill_buf, copy_buf}
use tlibc.Stdio.Reader.Lines.{IsBuffered, got_line, fdgets-line, fill_buf_full}

abbrev two_lines : Bytes
two_lines = codes "ls" ++ b'\n' ∷ codes "pwd\n"

abbrev loaded : Input
loaded = record {
  reader = record { buf = write_all (λ _. 0) 5 two_lines; start = 5; end = 12 };
  chunks = [];
}

loaded-IsBuffered : IsBuffered loaded.reader two_lines
loaded-IsBuffered = record {
  holds = write_all-Holds (λ _. 0) 5 two_lines;
  whole = refl;
  fits = omega arith;
}

fdgets-line_example :
    (fdgets loaded (λ _. 9) 100 ≡ some (got_line loaded.reader [] (λ _. 9) 100 (codes "ls")))
    × IsBuffered (got_line loaded.reader [] (λ _. 9) 100 (codes "ls")).input.reader (codes "pwd\n")
fdgets-line_example =
    fdgets-line loaded (λ _. 9) 100 (codes "ls") (codes "pwd\n") (omega arith) loaded-IsBuffered

abbrev waiting : Bytes → Input
waiting chunk = record { reader = record { buf = λ _. 0; start = 7; end = 7 }; chunks = chunk ∷ [] }

-- 2048 bytes
double : Bytes → ℕ → Bytes
double bs ℕ.zero = bs
double bs (ℕ.suc n) = double (bs ++ bs) n

abbrev full : Bytes
full = double (b'x' ∷ []) 11

full-length : length full ≡ 2048
unfolding double
full-length = refl

fill_buf_full_example :
    ((fill_buf (waiting full)).0 ≡ true)
    × ((fill_buf (waiting full)).1.chunks ≡ [])
    × ((copy_buf (fill_buf (waiting full)).1.reader (λ _. 9) 100).memory ≡ (λ _. 9))
    × ((copy_buf (fill_buf (waiting full)).1.reader (λ _. 9) 100).position ≡ 100)
fill_buf_full_example = fill_buf_full (waiting full) full [] (λ _. 9) 100 refl refl full-length
