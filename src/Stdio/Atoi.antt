-- ===== src/Stdio/Atoi.antt =====
-- `atoi` reads back what the number writers of tlibc/stdio.c print.
use tlibc.Base.{
  ℕ, zero, suc, ◌+◌, ◌-◌, ◌*◌, ◌/◌, ◌%◌, ◌^◌, ◌<◌, ◌≡◌, ◌≢◌, refl, inl, some, true, [], ◌∷◌, ◌∙◌,
  Bytes, All, arith, ltb, if◌then◌else◌,
}
use tlibc.Stdio.{digit_char, push_digits, digits}
use tlibc.Stdio.Digits.{value, digit_of, value-digits}
use tlibc.Stdio.Put.{decimal, signed}
use tlibc.Str.{atoi, is_digit}
use tlibc.Str.Laws.{digits_value, atoi-digits_value}

digit_char-is_digit : (d : ℕ) → d < 10 → is_digit (digit_char d) ≡ true
digit_char-is_digit zero h = refl
digit_char-is_digit (suc zero) h = refl
digit_char-is_digit (suc (suc zero)) h = refl
digit_char-is_digit (suc (suc (suc zero))) h = refl
digit_char-is_digit (suc (suc (suc (suc zero)))) h = refl
digit_char-is_digit (suc (suc (suc (suc (suc zero))))) h = refl
digit_char-is_digit (suc (suc (suc (suc (suc (suc zero)))))) h = refl
digit_char-is_digit (suc (suc (suc (suc (suc (suc (suc zero))))))) h = refl
digit_char-is_digit (suc (suc (suc (suc (suc (suc (suc (suc zero)))))))) h = refl
digit_char-is_digit (suc (suc (suc (suc (suc (suc (suc (suc (suc zero))))))))) h = refl
digit_char-is_digit (suc (suc (suc (suc (suc (suc (suc (suc (suc (suc d)))))))))) h =
    absurd (omega arith)

abbrev pub AreDigits : Bytes → Type 0
AreDigits = All (λ c. is_digit c ≡ true)

push_digits-AreDigits :
    (fuel v : ℕ) (stack : Bytes) → AreDigits stack → AreDigits (push_digits fuel 10 v stack)
unfolding push_digits
push_digits-AreDigits zero v stack h = h
push_digits-AreDigits (suc fuel) v stack h = ground (
  arith,
  push_digits-AreDigits fuel (v / 10) (digit_char (v % 10) ∷ stack)
      (digit_char-is_digit (v % 10) (omega arith), h),
)

digits_value-value : (s : Bytes) (n : ℕ) → AreDigits s → digits_value n s ≡ value 10 n s
unfolding digits_value value digit_of
digits_value-value [] n h = refl
digits_value-value (c ∷ s) n (hc, hs) =
    ground (arith, digits_value-value s (n * 10 + (c - b'0')) hs)

digits_value-digits : (v : ℕ) → digits_value 0 (digits 10 v) ≡ v
unfolding digits
digits_value-digits v =
    digits_value-value (push_digits (suc v) 10 v []) 0 (push_digits-AreDigits (suc v) v [] tt)
    ∙ value-digits 10 v (inl refl)

pub digits_value-decimal : (v : ℕ) → digits_value 0 (decimal v) ≡ v
unfolding decimal digits_value
digits_value-decimal v = ground (arith, digits_value-digits v)

pub decimal-AreDigits : (v : ℕ) → AreDigits (decimal v)
unfolding decimal digits
decimal-AreDigits v = ground (arith, push_digits-AreDigits (suc v) v [] tt)

-- Every `int` that is not negative is read back from its decimal print; of a negative one other
-- than the least, `atoi` returns the absolute value.
pub atoi-signed :
    (val : ℕ)
    → val < 2 ^ 32
    → val ≢ 2 ^ 31
    → atoi (signed 32 decimal val) ≡ some (if ltb val (2 ^ 31) then val else 2 ^ 32 - val)
unfolding signed digits_value
atoi-signed val h ne = ground (
  arith,
  digits_value-decimal val,
  digits_value-decimal (2 ^ 32 - val),
  atoi-digits_value (decimal val),
  atoi-digits_value (b'-' ∷ decimal (2 ^ 32 - val)),
)
