-- ===== src/Stdio/Reader.antt =====
-- The input half of tlibc/stdio.c: the buffered reader. What `sys_read` returns is the list of
-- the chunks that the kernel delivers, one for each call; the end of the list, and an empty
-- chunk, stand for a result of 0 or less.
pub mod Lines
use tlibc.Base.{
  ℕ, zero, suc, ◌+◌, ◌%◌, Bool, true, false, Option, none, some, List, [], ◌∷◌, Bytes, Memory,
  write_all, length, store, ◌==◌, if◌then◌else◌, ◌≡◌, refl, codes, not,
}

pub record BufferedReader : Type 0 where
  pub buf : Memory
  pub start : ℕ
  pub end : ℕ

abbrev pub buf_size : ℕ
buf_size = 2048

-- The reader with what `sys_read` will deliver to it.
pub record Input : Type 0 where
  pub reader : BufferedReader
  pub chunks : List Bytes

abbrev empty_reader : BufferedReader → BufferedReader
empty_reader br = record br { start = 0; end = 0 }

-- `br->end += ret; br->end = br->end % sizeof(br->buf)`, with `end` at 0.
fill : BufferedReader → List Bytes → Bool × Input
fill br [] = (false, record { reader = empty_reader br; chunks = [] })
fill br ([] ∷ chunks) = (false, record { reader = empty_reader br; chunks = chunks })
fill br ((b ∷ bs) ∷ chunks) = (
  true,
  record {
    reader = record {
      buf = write_all br.buf 0 (b ∷ bs);
      start = 0;
      end = (0 + length (b ∷ bs)) % buf_size;
    };
    chunks = chunks;
  },
)

pub fill_buf : Input → Bool × Input
unfolding fill
fill_buf i = if i.reader.start == i.reader.end then fill i.reader i.chunks else (true, i)

-- The reader, the memory and the position that `copy_buf` returns.
pub record Copied : Type 0 where
  pub from : BufferedReader
  pub memory : Memory
  pub position : ℕ

advance : BufferedReader → BufferedReader
advance br = record br { start = (br.start + 1) % buf_size }

-- The loop ends at a newline, behind which it puts a NUL, or when the buffer is empty. NULs are
-- not copied. The start goes round the buffer, so `buf_size` rounds are enough fuel.
copy_from : ℕ → BufferedReader → Memory → ℕ → Copied
copy_from zero br m dst = record { from = br; memory = m; position = dst }
copy_from (suc fuel) br m dst =
    let c = br.buf br.start in
    let skip = copy_from fuel (advance br) m dst in
    let go_on = copy_from fuel (advance br) (store m dst c) (dst + 1) in
    if br.start == br.end
    then record { from = br; memory = m; position = dst }
    else if c == 0
    then skip
    else if c == b'\n'
    then record {
      from = advance br;
      memory = store (store m dst c) (dst + 1) 0;
      position = dst + 1;
    }
    else go_on

pub copy_buf : BufferedReader → Memory → ℕ → Copied
copy_buf br m dst = copy_from buf_size br m dst

-- What `fdgets` returns, and the state that it leaves.
pub record Got : Type 0 where
  pub success : Bool
  pub input : Input
  pub memory : Memory

-- `while (1)`; each round but the last empties the buffer and reads one more chunk. `none`: the
-- fuel ran out.
fdgets_from : ℕ → Input → Memory → ℕ → Option Got
fdgets_from zero i m dst = none
fdgets_from (suc fuel) i m dst =
    let (filled, i') = fill_buf i in
    let c = copy_buf i'.reader m dst in
    let i'' : Input = record { reader = c.from; chunks = i'.chunks } in
    let again = fdgets_from fuel i'' c.memory c.position in
    if not filled
    then some (record { success = false; input = i'; memory = m })
    else if c.memory c.position == 0
    then some (record { success = true; input = i''; memory = c.memory })
    else again

-- One round for what is buffered, one for each chunk, and one for the end of the input.
pub fdgets : Input → Memory → ℕ → Option Got
fdgets i m dst = fdgets_from (suc (suc (length i.chunks))) i m dst
