-- ===== src/Scan/Decimal.antt =====
-- Decimal numbers: `snprintf` with %d and %u for numbers that are not negative, and what `sscanf` and
-- `strtol` make of them.
use datacard.Base.{
  true≢false, ℕ, zero, suc, ◌+◌, ◌/◌, ◌%◌, ◌^◌, ◌<◌, ◌≡◌, refl, ap, ◌∙◌, true, false, [], ◌∷◌, ◌++◌,
  if◌then◌else◌, ltb, ◌==◌, Bool-cases, inl, inr, ltb→lt, arith, All, some,
}
use datacard.Bytes.{Bytes}
use datacard.Scan.{
  long_of, uint_of, int_of, is_space, is_digit, skip_spaces, span_digits, digits_value, scan_sign,
  scan_number, strtol, scan_d, scan_u, is_empty,
}

-- The digits of a number, for as many rounds as it has digits at most.
unfoldable pub decimal_loop : ℕ → ℕ → Bytes → Bytes
decimal_loop zero n acc = acc
decimal_loop (suc rounds) n acc =
    let acc' = (b'0' + n % 10) ∷ acc in
    let rest = decimal_loop rounds (n / 10) acc' in if ltb n 10 then acc' else rest

-- `%u` and `%d`; a number below 2 ^ 64 has at most 20 digits.
unfoldable pub print_decimal : ℕ → Bytes
unfolding decimal_loop
print_decimal n = decimal_loop 20 n []

abbrev pub AreDigits : Bytes → Type 0
AreDigits = All (λ c. is_digit c ≡ true)

-- The text does not go on with a digit.
abbrev pub Stops : Bytes → Type 0
Stops [] = Unit
Stops (c ∷ cs) = is_digit c ≡ false

digit-is_digit : (d : ℕ) → d < 10 → is_digit (b'0' + d) ≡ true
digit-is_digit d h = ground arith

decimal_loop-AreDigits :
    (rounds n : ℕ) (acc : Bytes) → AreDigits acc → AreDigits (decimal_loop rounds n acc)
unfolding decimal_loop
decimal_loop-AreDigits zero n acc h = h
decimal_loop-AreDigits (suc rounds) n acc h = elim (Bool-cases (ltb n 10)) [
  | inl e ↦ rw e (digit-is_digit (n % 10) (omega arith), h)
  | inr e ↦
      rw e (decimal_loop-AreDigits rounds (n / 10) _ (digit-is_digit (n % 10) (omega arith), h))
]

-- Each round multiplies the bound of the numbers that it suffices for by ten.
decimal_loop-value :
    (rounds n : ℕ) (acc : Bytes)
    → n < 10 ^ rounds
    → digits_value 0 (decimal_loop rounds n acc) ≡ digits_value n acc
unfolding decimal_loop digits_value
decimal_loop-value zero n acc h = ap (λ k. digits_value k acc) (omega arith)
decimal_loop-value (suc rounds) n acc h = elim (Bool-cases (ltb n 10)) [
  | inl e ↦ rw e (ap (λ k. digits_value k acc) (omega (arith, ltb→lt n 10 e)))
  | inr e ↦ rw e (
      decimal_loop-value rounds (n / 10) _ (omega arith)
      ∙ ap (λ k. digits_value k acc) (omega arith))
]

span_digits-append :
    (ds rest : Bytes) → AreDigits ds → Stops rest → span_digits (ds ++ rest) ≡ (ds, rest)
unfolding span_digits
span_digits-append [] [] h s = refl
span_digits-append [] (c ∷ cs) h s = rw s refl
span_digits-append (d ∷ ds) rest h s = rw (h.0, span_digits-append ds rest h.1 s) refl

not_space : (c : ℕ) → is_digit c ≡ true → is_space c ≡ false
not_space c h = ground arith

not_sign : (c : ℕ) → is_digit c ≡ true → ((c == b'-') ≡ false) × ((c == b'+') ≡ false)
not_sign c h = ground arith

-- Digits are read as they stand, up to the first character that is none.
pub scan_number-digits :
    (ds rest : Bytes)
    → AreDigits ds
    → is_empty ds ≡ false
    → Stops rest
    → scan_number (ds ++ rest) ≡ some (false, ds, rest)
unfolding scan_number skip_spaces scan_sign
scan_number-digits [] rest h n s = absurd (true≢false n)
scan_number-digits (d ∷ ds) rest h n s =
    rw (not_space d h.0)
      (rw ((not_sign d h.0).0, (not_sign d h.0).1) (rw (span_digits-append (d ∷ ds) rest h s) refl))

decimal_loop_nonempty :
    (rounds n d : ℕ) (acc : Bytes) → is_empty (decimal_loop rounds n (d ∷ acc)) ≡ false
unfolding decimal_loop
decimal_loop_nonempty zero n d acc = refl
decimal_loop_nonempty (suc rounds) n d acc = elim (Bool-cases (ltb n 10)) [
  | inl e ↦ rw e refl
  | inr e ↦ rw e (decimal_loop_nonempty rounds (n / 10) _ (d ∷ acc))
]

pub print_decimal_nonempty : (n : ℕ) → is_empty (print_decimal n) ≡ false
unfolding print_decimal decimal_loop
print_decimal_nonempty n = elim (Bool-cases (ltb n 10)) [
  | inl e ↦ rw e refl
  | inr e ↦ rw e (decimal_loop_nonempty 19 (n / 10) _ [])
]

pub print_decimal-AreDigits : (n : ℕ) → AreDigits (print_decimal n)
unfolding print_decimal
print_decimal-AreDigits n = decimal_loop-AreDigits 20 n [] tt

pub print_decimal-value : (n : ℕ) → n < 2 ^ 64 → digits_value 0 (print_decimal n) ≡ n
unfolding print_decimal digits_value
print_decimal-value n h = decimal_loop-value 20 n [] (omega arith)

pub scan_number-print_decimal :
    (n : ℕ) (rest : Bytes)
    → Stops rest
    → scan_number (print_decimal n ++ rest) ≡ some (false, print_decimal n, rest)
scan_number-print_decimal n rest s =
    scan_number-digits (print_decimal n) rest (print_decimal-AreDigits n) (print_decimal_nonempty n)
      s

-- A number that is printed is read again.
pub strtol-print_decimal :
    (n : ℕ) (rest : Bytes) → n < 2 ^ 63 → Stops rest → strtol (print_decimal n ++ rest) ≡ (n, rest)
unfolding strtol long_of
strtol-print_decimal n rest h s =
    rw (scan_number-print_decimal n rest s)
      (ap (λ k. (k, rest)) (omega (arith, print_decimal-value n)))

pub scan_u-print_decimal :
    (n : ℕ) (rest : Bytes)
    → n < 2 ^ 32
    → Stops rest
    → scan_u (print_decimal n ++ rest) ≡ some (n, rest)
unfolding scan_u uint_of
scan_u-print_decimal n rest h s =
    rw (scan_number-print_decimal n rest s)
      (ap (λ k. some (k, rest)) (omega (arith, print_decimal-value n)))

pub scan_d-print_decimal :
    (n : ℕ) (rest : Bytes)
    → n < 2 ^ 31
    → Stops rest
    → scan_d (print_decimal n ++ rest) ≡ some (n, rest)
unfolding scan_d int_of
scan_d-print_decimal n rest h s =
    rw (scan_number-print_decimal n rest s)
      (ap (λ k. some (k, rest)) (omega (arith, print_decimal-value n)))
