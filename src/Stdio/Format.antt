-- ===== src/Stdio/Format.antt =====
-- `Sprintf` and `Printf` against a description of a format as a list of pieces.
use tlibc.Base.{
  ℕ, ◌+◌, ◌%◌, ◌^◌, ◌<◌, ◌≡◌, ◌≢◌, refl, Option, some, List, [], ◌∷◌, ◌++◌, Bytes, Memory, store,
  write_all, write_all-append, length, length-append, codes, arith, append_assoc, write_all-Holds,
  read_out-Holds, ◌==◌, false, ◌∙◌, none, ltb, if◌then◌else◌,
}
use tlibc.Stdio.{
  Arg, word32, word64, text, sprintf, sprintf_from, put_arg, directive, printf, digits,
}
use tlibc.Stdio.Put.{
  decimal, signed, prefixed, string_text, putuint-wrote, putul-wrote, putint-wrote, putl-wrote,
  puthex-wrote, putptr-wrote, putstr-wrote,
}

-- A piece of a format: a byte that is printed as it is, or a directive with its argument.
pub data Piece : Type 0 where
  plain int uint hex long ulong pointer : ℕ → Piece
  string : Option Bytes → Piece

-- How a piece is spelled in the format.
unfoldable pub spelling : Piece → Bytes
spelling (plain c) = c ∷ []
spelling (int w) = codes "%d"
spelling (uint w) = codes "%u"
spelling (hex w) = codes "%x"
spelling (long w) = codes "%l"
spelling (ulong w) = codes "%L"
spelling (pointer w) = codes "%p"
spelling (string s) = codes "%s"

-- What it is printed as.
unfoldable pub printed : Piece → Bytes
printed (plain c) = c ∷ []
printed (int w) = signed 32 decimal w
printed (uint w) = decimal w
printed (hex w) = prefixed w
printed (long w) = signed 64 (digits 10) w
printed (ulong w) = decimal w
printed (pointer w) = prefixed w
printed (string s) = string_text s

unfoldable pub taken : Piece → List Arg
taken (plain c) = []
taken (int w) = word32 w ∷ []
taken (uint w) = word32 w ∷ []
taken (hex w) = word32 w ∷ []
taken (long w) = word64 w ∷ []
taken (ulong w) = word64 w ∷ []
taken (pointer w) = word64 w ∷ []
taken (string s) = text s ∷ []

-- A plain byte is no `%`, a signed number fits its width, and a pointer is not null.
abbrev IsPiece : Piece → Type 0
IsPiece (plain c) = c ≢ b'%'
IsPiece (int w) = w < 2 ^ 32
IsPiece (long w) = w < 2 ^ 64
IsPiece (pointer w) = w ≢ 0
IsPiece p = Unit

module _ {ℓ} {A : Type ℓ} (f : Piece → List A) where
  abbrev pub concat_map : List Piece → List A
  concat_map [] = []
  concat_map (p ∷ ps) = f p ++ concat_map ps

abbrev ArePieces : List Piece → Type 0
ArePieces [] = Unit
ArePieces (p ∷ ps) = IsPiece p × ArePieces ps

sprintf_from-plain :
    (c : ℕ) (fmt : Bytes) (args : List Arg) (m : Memory) (dst ret : ℕ)
    → c ≢ b'%'
    → sprintf_from (c ∷ fmt) args m dst ret
      ≡ sprintf_from fmt args (store m (dst + ret) c) dst ((ret + 1) % 2 ^ 32)
unfolding sprintf_from
sprintf_from-plain c [] args m dst ret ne = refl
sprintf_from-plain c (k ∷ fmt) args m dst ret ne =
    let e : (c == b'%') ≡ false = ground arith in rw e refl

-- One piece moves the loop on over its spelling and its argument, and writes what it prints.
sprintf_from-piece :
    (p : Piece) (fmt : Bytes) (args : List Arg) (m : Memory) (dst ret a : ℕ)
    → IsPiece p
    → a ≡ dst + ret
    → ret + length (printed p) < 2 ^ 32
    → sprintf_from (spelling p ++ fmt) (taken p ++ args) m dst ret
      ≡ sprintf_from fmt args (write_all m a (printed p)) dst (ret + length (printed p))
unfolding sprintf_from put_arg directive spelling printed taken write_all
sprintf_from-piece (plain c) fmt args m dst ret a hp at fits =
    sprintf_from-plain c fmt args m dst ret hp ∙ ground arith
sprintf_from-piece (int w) fmt args m dst ret a hp at fits = ground (arith, putint-wrote m a w)
sprintf_from-piece (uint w) fmt args m dst ret a hp at fits = ground (arith, putuint-wrote m a w)
sprintf_from-piece (hex w) fmt args m dst ret a hp at fits = ground (arith, puthex-wrote m a w)
sprintf_from-piece (long w) fmt args m dst ret a hp at fits = ground (arith, putl-wrote m a w)
sprintf_from-piece (ulong w) fmt args m dst ret a hp at fits = ground (arith, putul-wrote m a w)
sprintf_from-piece (pointer w) fmt args m dst ret a hp at fits = ground (arith, putptr-wrote m a w)
sprintf_from-piece (string s) fmt args m dst ret a hp at fits = ground (arith, putstr-wrote m a s)

sprintf_from-pieces :
    (ps : List Piece) (m : Memory) (dst ret a : ℕ)
    → ArePieces ps
    → a ≡ dst + ret
    → ret + length (concat_map printed ps) < 2 ^ 32
    → sprintf_from (concat_map spelling ps) (concat_map taken ps) m dst ret
      ≡ some (ret + length (concat_map printed ps), write_all m a (concat_map printed ps ++ 0 ∷ []))
sprintf_from-pieces [] m dst ret a hps at fits = unfold sprintf_from write_all in ground arith
sprintf_from-pieces (p ∷ ps) m dst ret a (hp, hps) at fits =
    rw
      (
        sprintf_from-piece p (concat_map spelling ps) (concat_map taken ps) m dst ret a hp at
            (omega (arith, length-append (printed p) (concat_map printed ps))),
        sprintf_from-pieces ps (write_all m a (printed p)) dst (ret + length (printed p))
            (a + length (printed p)) hps (omega arith)
            (omega (arith, length-append (printed p) (concat_map printed ps))),
        append_assoc,
        write_all-append m a (printed p) (concat_map printed ps ++ 0 ∷ []),
        length-append,
      )
      (ground arith)

-- `Sprintf` ends on every format that is spelled from pieces, if the printed text is shorter than
-- 4 GiB and the arguments are those of the pieces. It writes what the pieces print, one after the
-- other, and a NUL, changes no other address, and returns the length of the text.
pub sprintf-pieces :
    (ps : List Piece) (m : Memory) (dst : ℕ)
    → ArePieces ps
    → length (concat_map printed ps) < 2 ^ 32
    → sprintf m dst (concat_map spelling ps) (concat_map taken ps)
      ≡ some (length (concat_map printed ps), write_all m dst (concat_map printed ps ++ 0 ∷ []))
unfolding sprintf
sprintf-pieces ps m dst hps fits =
    ground (arith, sprintf_from-pieces ps m dst 0 dst hps (omega arith) (omega arith))

-- `Printf` of pieces with their arguments, which print less than 4 GiB: a text of less than 2048
-- bytes goes to file descriptor 1 exactly as the pieces print it, with its length as the result; a
-- longer one, with its NUL, does not fit the static array, and `Printf` writes behind it.
pub printf-pieces :
    (ps : List Piece) (m : Memory) (buf : ℕ)
    → ArePieces ps
    → length (concat_map printed ps) < 2 ^ 32
    → printf m buf (concat_map spelling ps) (concat_map taken ps) ≡ (
        if ltb (length (concat_map printed ps)) 2048
        then some (length (concat_map printed ps), concat_map printed ps)
        else none)
unfolding printf
printf-pieces ps m buf hps fits =
    rw (sprintf_from-pieces ps m buf 0 buf hps (omega arith) (omega arith)) (
      ground (
        arith,
        read_out-Holds (write_all m buf (concat_map printed ps ++ 0 ∷ [])) buf
            (concat_map printed ps) (0 ∷ [])
            (write_all-Holds m buf (concat_map printed ps ++ 0 ∷ [])),
      ))
