-- ===== src/Boot/GetText.antt =====
-- bootloader/gettext.c: the executable segments of an ELF file, one behind the other.
use tlibc.Base.{
  ℕ, zero, suc, ◌+◌, ◌-◌, ◌*◌, ◌/◌, ◌%◌, ◌^◌, ◌≤◌, ◌<◌, ◌≡◌, refl, sym, ap, ◌∙◌, Bool, true, false,
  ◌&&◌, not, Option, none, some, List, [], ◌∷◌, ◌++◌, append_assoc, append-nil, Bytes, length, take,
  drop, take-add, drop-add, arith, ltb, ◌==◌, if◌then◌else◌, ◌>>=◌, bit_and,
}
use tlibc.Endian.{of_le_bytes}

-- What the calls on the two files do. `read_at`: the bytes that `xreadat` finds at an offset, if
-- the seek and the read of so many bytes succeed. `takes`: does the write of so many bytes behind
-- those already written succeed?
pub record HostFiles : Type 0 where
  pub read_at : ℕ → ℕ → Option Bytes
  pub takes : ℕ → ℕ → Bool

abbrev pub slice : Bytes → ℕ → ℕ → Bytes
slice bs off n = take n (drop off bs)

-- A number of `n` bytes in a header that was read.
abbrev number_at : Bytes → ℕ → ℕ → ℕ
number_at bs off n = of_le_bytes (slice bs off n)

-- What a round of `xfcopy` copies: at most the size of its buffer.
abbrev pub piece : ℕ → ℕ
piece count = if ltb 512 count then 512 else count

-- `xfcopy`, with what was written so far. `none`: `_exit(1)`. Each round copies a byte or more, so
-- `count` is enough fuel.
pub xfcopy : ℕ → HostFiles → ℕ → ℕ → Bytes → Option Bytes
xfcopy zero files count offset out = if count == 0 then some out else none
xfcopy (suc fuel) files count offset out =
    let nr = piece count in
    let rest = files.read_at offset nr >>= λ bs.
    (if files.takes (length out) nr then some (out ++ bs) else none) >>= λ out'.
    xfcopy fuel files (count - nr) (offset + nr) out' in
    if count == 0 then some out else rest

-- The two kinds of ELF file: where the numbers of the headers stand.
pub record Format : Type 0 where
  pub ehdr_size : ℕ
  pub phoff_at : ℕ
  pub phoff_size : ℕ
  pub phnum_at : ℕ
  pub phdr_size : ℕ
  pub flags_at : ℕ
  pub offset_at : ℕ
  pub filesz_at : ℕ
  pub word_size : ℕ

abbrev elf64 : Format
elf64 = record {
  ehdr_size = 64;
  phoff_at = 32;
  phoff_size = 8;
  phnum_at = 56;
  phdr_size = 56;
  flags_at = 4;
  offset_at = 8;
  filesz_at = 32;
  word_size = 8;
}

abbrev elf32 : Format
elf32 = record {
  ehdr_size = 52;
  phoff_at = 28;
  phoff_size = 4;
  phnum_at = 44;
  phdr_size = 32;
  flags_at = 24;
  offset_at = 4;
  filesz_at = 16;
  word_size = 4;
}

-- `(p.p_flags & PF_X) && p.p_type == PT_LOAD`
abbrev is_text : Format → Bytes → Bool
is_text f phdr = not (bit_and (number_at phdr f.flags_at 4) 1 == 0) && (number_at phdr 0 4 == 1)

copy_segment : Format → HostFiles → Bytes → Bytes → Option Bytes
copy_segment f files phdr out =
    let count = number_at phdr f.filesz_at f.word_size in
    if is_text f phdr
    then xfcopy count files count (number_at phdr f.offset_at f.word_size) out
    else some out

-- The loop over the program headers.
copy_segments : Format → HostFiles → ℕ → ℕ → ℕ → Bytes → Option Bytes
copy_segments f files phoff zero i out = some out
copy_segments f files phoff (suc left) i out =
    files.read_at (phoff + f.phdr_size * i) f.phdr_size >>= λ phdr.
    copy_segment f files phdr out >>= copy_segments f files phoff left (i + 1)

-- `main` behind the opening of the files: `EM_X86_64` decides on the kind of file.
get_text : HostFiles → Option Bytes
get_text files = files.read_at 0 52 >>= λ e32.
    let f = if number_at e32 18 2 == 62 then elf64 else elf32 in
    files.read_at 0 f.ehdr_size >>= λ ehdr.
    copy_segments f files (number_at ehdr f.phoff_at f.phoff_size) (number_at ehdr f.phnum_at 2) 0
      []

-- A regular file with these bytes, of which any part can be read, and an output with room.
pub record IsFile (files : HostFiles) (file : Bytes) : Type 0 where
  pub reads : (off n : ℕ) → off + n ≤ length file → files.read_at off n ≡ some (slice file off n)
  pub writes : (len n : ℕ) → files.takes len n ≡ true

-- Each round copies a byte or more, and no more than is left.
piece-bounds : (count : ℕ) → (piece (suc count) ≤ suc count) × (1 ≤ piece (suc count))
piece-bounds count = ground arith

-- A part of a file is a shorter part and what follows it.
slice-add :
    (file : Bytes) (offset n k m : ℕ)
    → n + k ≡ m
    → slice file offset n ++ slice file (offset + n) k ≡ slice file offset m
slice-add file offset n k m e =
    rw (drop-add offset n file, sym e) (sym (take-add n k (drop offset file)))

xfcopy-round :
    (fuel : ℕ) (files : HostFiles) (file : Bytes) (count offset : ℕ) (out : Bytes) (nr : ℕ)
    → IsFile files file
    → nr ≤ suc count
    → offset + suc count ≤ length file
    → xfcopy fuel files (suc count - nr) (offset + nr) (out ++ slice file offset nr)
      ≡ some ((out ++ slice file offset nr) ++ slice file (offset + nr) (suc count - nr))
    → (files.read_at offset nr >>= λ bs.
        (if files.takes (length out) nr then some (out ++ bs) else none) >>= λ out'.
        xfcopy fuel files (suc count - nr) (offset + nr) out')
      ≡ some (out ++ slice file offset (suc count))
xfcopy-round fuel files file count offset out nr h le fit ih =
    rw (h.reads offset nr (omega arith), h.writes (length out) nr)
      (ih
        ∙ ap some (
            append_assoc out (slice file offset nr) (slice file (offset + nr) (suc count - nr))
            ∙ ap (λ t. out ++ t)
                (slice-add file offset nr (suc count - nr) (suc count) (omega (arith, le)))))

-- `xfcopy` of a part that the file has ends, and appends that part to the output, whatever the
-- size of its buffer.
pub xfcopy-slice :
    (fuel : ℕ) (files : HostFiles) (file : Bytes) (count offset : ℕ) (out : Bytes)
    → IsFile files file
    → count ≤ fuel
    → offset + count ≤ length file
    → xfcopy fuel files count offset out ≡ some (out ++ slice file offset count)
unfolding xfcopy tlibc.Base.Lists.take
xfcopy-slice zero files file zero offset out h enough fit = sym (ap some (append-nil out))
xfcopy-slice zero files file (suc count) offset out h enough fit = absurd (omega arith)
xfcopy-slice (suc fuel) files file zero offset out h enough fit = sym (ap some (append-nil out))
xfcopy-slice (suc fuel) files file (suc count) offset out h enough fit =
    let nr = piece (suc count) in
    let le : (nr ≤ suc count) × (1 ≤ nr) = piece-bounds count in
    let ne : (suc count == 0) ≡ false = ground arith in
    rw ne (
      xfcopy-round fuel files file count offset out nr h le.0 fit (
        xfcopy-slice fuel files file (suc count - nr) (offset + nr) (out ++ slice file offset nr) h
          (omega (arith, le)) (omega (arith, le))))
