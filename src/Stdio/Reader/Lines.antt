-- ===== src/Stdio/Reader/Lines.antt =====
-- `fdgets` hands out the lines of what is read, one for each call.
use tlibc.Base.{
  ℕ, zero, suc, ◌+◌, ◌%◌, ◌<◌, ◌≡◌, ◌≢◌, refl, true, some, List, [], ◌∷◌, ◌++◌, Bytes, Memory, All,
  Holds, write_all, write_all-Holds, length, length-append, store, arith, ◌==◌, if◌then◌else◌,
  append_assoc,
}
use tlibc.Stdio.Reader.{
  BufferedReader, Input, Copied, Got, buf_size, fill_buf, fill, copy_buf, copy_from, advance,
  fdgets, fdgets_from,
}

-- The bytes of a line that reach the caller: all but the NULs.
pub visible : Bytes → Bytes
visible [] = []
visible (c ∷ s) = if c == 0 then visible s else c ∷ visible s

-- The buffer holds the bytes `bs`, and nothing else, ready to be copied.
pub record IsBuffered (br : BufferedReader) (bs : Bytes) : Type 0 where
  pub holds : Holds br.buf br.start bs
  pub whole : br.start + length bs ≡ br.end
  pub fits : br.end < buf_size

abbrev IsLine : Bytes → Type 0
IsLine = All (λ c. c ≢ b'\n')

-- `copy_buf` at a buffered line: what it leaves and returns.
abbrev line_copied : BufferedReader → Memory → ℕ → Bytes → Copied
line_copied br m dst line = record {
  from = record br { start = br.start + (length line + 1) };
  memory = write_all m dst (visible line ++ b'\n' ∷ 0 ∷ []);
  position = dst + (length (visible line) + 1);
}

copy_from-line :
    (fuel : ℕ) (br : BufferedReader) (m : Memory) (dst : ℕ) (line rest : Bytes)
    → IsLine line
    → Holds br.buf br.start (line ++ b'\n' ∷ rest)
    → br.start + length (line ++ b'\n' ∷ rest) ≡ br.end
    → br.end < buf_size
    → length line < fuel
    → copy_from fuel br m dst ≡ line_copied br m dst line
unfolding copy_from advance visible write_all
copy_from-line zero br m dst line rest hl h whole fits lt = absurd (omega arith)
copy_from-line (suc fuel) br m dst [] rest hl h whole fits lt = ground arith
copy_from-line (suc fuel) br m dst (c ∷ line) rest (hc, hl) (e, h) whole fits lt = ground (
  arith,
  copy_from-line fuel (record br { start = br.start + 1 }) m dst line rest hl h (omega arith) fits
      (omega arith),
  copy_from-line fuel (record br { start = br.start + 1 }) (store m dst c) (dst + 1) line rest hl h
      (omega arith) fits (omega arith),
)

Holds-drop :
    (m : Memory) (a b : ℕ) (bs cs : Bytes) → b ≡ a + length bs → Holds m a (bs ++ cs) → Holds m b cs
Holds-drop m a b [] cs e h = let e' : b ≡ a = omega arith in rw e' h
Holds-drop m a b (x ∷ bs) cs e (_, h) = Holds-drop m (a + 1) b bs cs (omega arith) h

-- The NUL behind a line lies where `copy_buf` returns.
ends_with_nul :
    (m : Memory) (dst : ℕ) (bs : Bytes)
    → write_all m dst (bs ++ b'\n' ∷ 0 ∷ []) (dst + (length bs + 1)) ≡ 0
ends_with_nul m dst bs =
    (Holds-drop (write_all m dst (bs ++ b'\n' ∷ 0 ∷ [])) dst (dst + (length bs + 1))
      (bs ++ b'\n' ∷ []) (0 ∷ []) (omega (arith, length-append bs (b'\n' ∷ [])))
      (rw append_assoc (write_all-Holds m dst (bs ++ b'\n' ∷ 0 ∷ [])))).0

-- What `fdgets` returns for a line from a reader that buffers it.
abbrev pub got_line : BufferedReader → List Bytes → Memory → ℕ → Bytes → Got
got_line br chunks m dst line =
    let c = line_copied br m dst line in
    record {
      success = true;
      input = record { reader = c.from; chunks = chunks };
      memory = c.memory;
    }

fdgets_from-line :
    (fuel : ℕ) (i j : Input) (m : Memory) (dst : ℕ) (line rest : Bytes)
    → IsLine line
    → fill_buf i ≡ (true, j)
    → IsBuffered j.reader (line ++ b'\n' ∷ rest)
    → fdgets_from (suc fuel) i m dst ≡ some (got_line j.reader j.chunks m dst line)
unfolding fdgets_from copy_buf
fdgets_from-line fuel i j m dst line rest hl filled h =
    rw
      (
        filled,
        copy_from-line buf_size j.reader m dst line rest hl h.holds h.whole h.fits
            (omega (arith, h.whole, h.fits, length-append line (b'\n' ∷ rest))),
        ends_with_nul m dst (visible line),
      )
      refl

IsBuffered-rest :
    (br : BufferedReader) (line rest : Bytes)
    → IsBuffered br (line ++ b'\n' ∷ rest)
    → IsBuffered (record br { start = br.start + (length line + 1) }) rest
IsBuffered-rest br line rest h = record {
  holds =
      Holds-drop br.buf br.start (br.start + (length line + 1)) (line ++ b'\n' ∷ []) rest
        (omega (arith, length-append line (b'\n' ∷ []))) (rw append_assoc h.holds);
  whole = omega (arith, h.whole, length-append line (b'\n' ∷ rest));
  fits = h.fits;
}

fill_buf-buffered :
    (i : Input) (line rest : Bytes)
    → IsBuffered i.reader (line ++ b'\n' ∷ rest)
    → fill_buf i ≡ (true, i)
unfolding fill_buf
fill_buf-buffered i line rest h = ground (arith, h.whole, length-append line (b'\n' ∷ rest))

-- A reader whose buffer is used up, before a chunk that is smaller than the buffer.
pub record IsFresh (i : Input) (chunk : Bytes) (later : List Bytes) : Type 0 where
  pub used_up : i.reader.start ≡ i.reader.end
  pub next : i.chunks ≡ chunk ∷ later
  pub small : length chunk < buf_size

abbrev pub filled_with : Input → Bytes → List Bytes → Input
filled_with i chunk later = record {
  reader = record {
    buf = write_all i.reader.buf 0 chunk;
    start = 0;
    end = (0 + length chunk) % buf_size;
  };
  chunks = later;
}

fill_buf-fresh :
    (i : Input) (chunk : Bytes) (later : List Bytes)
    → chunk ≢ []
    → i.reader.start ≡ i.reader.end
    → i.chunks ≡ chunk ∷ later
    → fill_buf i ≡ (true, filled_with i chunk later)
unfolding fill_buf fill
fill_buf-fresh i [] later ne used next = absurd (ne refl)
fill_buf-fresh i (b ∷ bs) later ne used next = ground arith

filled_with-IsBuffered :
    (i : Input) (chunk : Bytes) (later : List Bytes)
    → IsFresh i chunk later
    → IsBuffered (filled_with i chunk later).reader chunk
filled_with-IsBuffered i chunk later h = record {
  holds = write_all-Holds i.reader.buf 0 chunk;
  whole = omega (arith, h.small);
  fits = omega (arith, h.small);
}

-- A reader that buffers a line, a newline and a rest hands out the line: `fdgets` returns true
-- without a read, puts the line's bytes but its NULs, the newline and a NUL at `dst`, changes no
-- other address, and leaves the rest buffered.
pub fdgets-line :
    (i : Input) (m : Memory) (dst : ℕ) (line rest : Bytes)
    → IsLine line
    → IsBuffered i.reader (line ++ b'\n' ∷ rest)
    → (fdgets i m dst ≡ some (got_line i.reader i.chunks m dst line))
      × IsBuffered (got_line i.reader i.chunks m dst line).input.reader rest
unfolding fdgets
fdgets-line i m dst line rest hl h = (
  fdgets_from-line (suc (length i.chunks)) i i m dst line rest hl (fill_buf-buffered i line rest h)
      h,
  IsBuffered-rest i.reader line rest h,
)

append-ne-nil : (line : Bytes) (c : ℕ) (rest : Bytes) → line ++ c ∷ rest ≢ []
append-ne-nil [] c rest e = cc
append-ne-nil (x ∷ line) c rest e = cc

-- A reader whose buffer is used up reads the next chunk, one that is smaller than the buffer, and
-- hands out the line that the chunk begins with; what follows it is left buffered.
pub fdgets-fresh :
    (i : Input) (m : Memory) (dst : ℕ) (line rest : Bytes) (later : List Bytes)
    → IsLine line
    → IsFresh i (line ++ b'\n' ∷ rest) later
    → let j = filled_with i (line ++ b'\n' ∷ rest) later in
      (fdgets i m dst ≡ some (got_line j.reader later m dst line))
      × IsBuffered (got_line j.reader later m dst line).input.reader rest
unfolding fdgets
fdgets-fresh i m dst line rest later hl h = (
  fdgets_from-line (suc (length i.chunks)) i (filled_with i (line ++ b'\n' ∷ rest) later) m dst line
      rest hl (fill_buf-fresh i _ later (append-ne-nil line b'\n' rest) h.used_up h.next)
      (filled_with-IsBuffered i _ later h),
  IsBuffered-rest (filled_with i (line ++ b'\n' ∷ rest) later).reader line rest
      (filled_with-IsBuffered i _ later h),
)

copy_buf-empty :
    (br : BufferedReader) (m : Memory) (dst : ℕ)
    → br.start ≡ br.end
    → copy_buf br m dst ≡ record { from = br; memory = m; position = dst }
unfolding copy_buf
copy_buf-empty br m dst e = step 2047
  where
    step :
        (fuel : ℕ)
        → copy_from (suc fuel) br m dst ≡ record { from = br; memory = m; position = dst }
    step fuel = unfold copy_from in ground arith

-- A read that fills the whole buffer is lost: `fill_buf` reports success, and `copy_buf` then
-- finds the buffer empty and copies nothing.
pub fill_buf_full :
    (i : Input) (chunk : Bytes) (later : List Bytes) (m : Memory) (dst : ℕ)
    → i.reader.start ≡ i.reader.end
    → i.chunks ≡ chunk ∷ later
    → length chunk ≡ buf_size
    → ((fill_buf i).0 ≡ true)
      × ((fill_buf i).1.chunks ≡ later)
      × ((copy_buf (fill_buf i).1.reader m dst).memory ≡ m)
      × ((copy_buf (fill_buf i).1.reader m dst).position ≡ dst)
fill_buf_full i chunk later m dst used next full =
    rw
      (
        fill_buf-fresh i chunk later (ne chunk full) used next,
        copy_buf-empty (filled_with i chunk later).reader m dst (rw full refl),
      )
      (refl, refl, refl, refl)
  where
    ne : (c : Bytes) → length c ≡ buf_size → c ≢ []
    ne [] e p = absurd (omega arith)
    ne (x ∷ c) e p = cc
