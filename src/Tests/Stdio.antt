-- ===== src/Tests/Stdio.antt =====
-- The output of tlibc/stdio.c at concrete inputs.
use tlibc.Base.{
  ◌≡◌, ◌^◌, ◌-◌, some, none, refl, List, [], ◌∷◌, ◌++◌, write_all, codes, arith, length,
  if◌then◌else◌, ltb,
}
use tlibc.Str.{atoi}
use tlibc.Stdio.{sprintf, printf, digits, fill_digits, array_size, hex_x}
use tlibc.Stdio.Put.{signed, decimal, string_text}
use tlibc.Stdio.Format.{
  Piece, plain, int, string, spelling, printed, taken, concat_map, sprintf-pieces, printf-pieces,
}
use tlibc.Stdio.Atoi.{atoi-signed}
use tlibc.Stdio.Digits.{number_base, fill_digits-digits}

abbrev pieces : List Piece
pieces = int (2 ^ 32 - 42) ∷ plain b':' ∷ string (some (codes "ok")) ∷ []

short : length (concat_map printed pieces) ≡ 6
unfolding printed signed decimal digits string_text
short = refl

sprintf-pieces_example :
    sprintf (λ _. 7) 50 (concat_map spelling pieces) (concat_map taken pieces)
    ≡ some (
      length (concat_map printed pieces),
      write_all (λ _. 7) 50 (concat_map printed pieces ++ 0 ∷ []),
    )
sprintf-pieces_example = sprintf-pieces pieces (λ _. 7) 50 (omega arith) (omega (arith, short))

printf-pieces_example :
    printf (λ _. 7) 50 (concat_map spelling pieces) (concat_map taken pieces) ≡ (
      if ltb (length (concat_map printed pieces)) 2048
      then some (length (concat_map printed pieces), concat_map printed pieces)
      else none)
printf-pieces_example = printf-pieces pieces (λ _. 7) 50 (omega arith) (omega (arith, short))

atoi-signed_example :
    atoi (signed 32 decimal (2 ^ 32 - 42))
    ≡ some (if ltb (2 ^ 32 - 42) (2 ^ 31) then 2 ^ 32 - 42 else 2 ^ 32 - (2 ^ 32 - 42))
atoi-signed_example = atoi-signed (2 ^ 32 - 42) (omega arith) (omega arith)

-- The largest number takes the whole array of `puthex`.
fill_digits-digits_example :
    fill_digits (array_size hex_x) (number_base hex_x) 0xFFFFFFFF
    ≡ some (digits (number_base hex_x) 0xFFFFFFFF)
fill_digits-digits_example = fill_digits-digits hex_x 0xFFFFFFFF (omega arith)
