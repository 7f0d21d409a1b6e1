-- ===== src/Pdu/Digits.antt =====
-- Phone numbers in a PDU: `pdu_store_number` and `pdu_parse_number`.
use datacard.Base.{
  ℕ, zero, suc, ◌+◌, ◌/◌, ◌%◌, ◌≤◌, ◌<◌, ◌≡◌, ◌⊎◌, refl, ap, Bool, true, false, not, ◌&&◌, [], ◌∷◌,
  ◌++◌, some, arith, ltb, leb, ◌==◌, length, length-append, append-nil, All,
}
use datacard.Bytes.{Bytes}
use datacard.CharConv.{print_byte}
use datacard.CharConv.Hex.{parse_hexdigit-table}
use datacard.Pdu.{
  international, digit2code, code2digit, digits_byte, parse_byte, store_number, two_digits,
  put_digits, number_loop, finish_number, number_after, parse_number, round_up2,
}

-- The digits that a number can have, letters in upper case.
abbrev pub IsDigit : ℕ → Type 0
IsDigit d = ((b'0' ≤ d) × (d ≤ b'9')) ⊎ (d ≡ b'*') ⊎ (d ≡ b'#') ⊎ ((b'A' ≤ d) × (d ≤ b'C'))

pub code2digit-digit2code : (d : ℕ) → IsDigit d → (code2digit (digit2code d) ≡ some d) × (0 < d)
unfolding code2digit digit2code
code2digit-digit2code d h = ground arith

-- A byte printed as two hex digits is parsed again.
pub parse_byte-print_byte :
    (c : ℕ) (rest : Bytes) → c < 256 → parse_byte (print_byte c ++ rest) ≡ (some c, rest)
unfolding parse_byte digits_byte
parse_byte-print_byte c rest h =
    rw (parse_hexdigit-table (c / 16) (omega arith), parse_hexdigit-table (c % 16) (omega arith))
      (ap (λ d. (some d, rest)) (omega arith))

two_digits-some :
    (ends : Bool) (d1 d2 : ℕ)
    → 0 < d1
    → 0 < d2
    → two_digits ends (some d1) (some d2) ≡ some (d1, d2)
unfolding two_digits
two_digits-some ends zero d2 p q = absurd (omega arith)
two_digits-some ends (suc d1) zero p q = absurd (omega arith)
two_digits-some ends (suc d1) (suc d2) p q = refl

two_digits_filler : (d1 : ℕ) → 0 < d1 → two_digits true (some d1) (some 0) ≡ some (d1, 0)
unfolding two_digits
two_digits_filler zero p = absurd (omega arith)
two_digits_filler (suc d1) p = refl

code2digit-filler : code2digit b'F' ≡ some 0
unfolding code2digit
code2digit-filler = refl

abbrev filler : Bool → Bytes
filler true = 0 ∷ []
filler false = []

number_loop-store_number :
    (odd : Bool) (n : ℕ) (number rest : Bytes)
    → odd ≡ not (length number % 2 == 0)
    → n ≡ (length number + 1) / 2
    → All IsDigit number
    → number_loop odd n (store_number number ++ rest) ≡ some (number ++ filler odd, rest)
unfolding number_loop store_number put_digits
number_loop-store_number true zero [] rest o e d = absurd (ground arith)
number_loop-store_number false zero [] rest o e d = refl
number_loop-store_number odd (suc n) [] rest o e d = absurd (omega arith)
number_loop-store_number odd zero (a ∷ number) rest o e d = absurd (omega arith)
number_loop-store_number false (suc n) (a ∷ []) rest o e d = absurd (ground arith)
number_loop-store_number true (suc (suc n)) (a ∷ []) rest o e d = absurd (omega arith)
number_loop-store_number true (suc zero) (a ∷ []) rest o e d =
    let (f, p) = code2digit-digit2code a d.0 in
    let filled : code2digit b'F' ≡ some 0 = code2digit-filler in
    rw (f, filled, two_digits_filler a p) refl
number_loop-store_number odd (suc n) (a ∷ b ∷ number) rest o e d =
    let (f, p) = code2digit-digit2code a d.0 in
    let (g, q) = code2digit-digit2code b d.1.0 in
    let later = number_loop-store_number odd n number rest (ground arith) (omega arith) d.1.1 in
    rw (f, g, two_digits-some (n == 0 && odd) a b p q, later) refl

length-store_number : (number : Bytes) → length (store_number number) ≡ round_up2 (length number)
unfolding store_number
length-store_number [] = omega arith
length-store_number (a ∷ []) = omega arith
length-store_number (a ∷ b ∷ number) = omega (arith, length-store_number number)

finish_number-filler :
    (odd : Bool) (number rest : Bytes)
    → finish_number odd international (some (number ++ filler odd, rest))
      ≡ some (b'+' ∷ (number ++ (0 ∷ [])), rest)
unfolding finish_number
finish_number-filler true number rest = ap (λ t. some (b'+' ∷ t, rest)) (append-nil _)
finish_number-filler false number rest =
    ap (λ t. some (b'+' ∷ (t ++ (0 ∷ [])), rest)) (append-nil number)

-- A number of up to `num_len - 1` digits in the international format, stored in a PDU, is parsed
-- again, with '+' before it and a final 0 after it, and the parser stands behind it.
pub parse_number-store_number :
    (number rest : Bytes) (num_len : ℕ)
    → All IsDigit number
    → length number < num_len
    → parse_number
        (print_byte international ++ (store_number number ++ rest))
        (length number)
        num_len
      ≡ some (b'+' ∷ (number ++ (0 ∷ [])), rest)
unfolding parse_number number_after
parse_number-store_number number rest num_len d h =
    let odd = not (length number % 2 == 0) in
    let large : ltb num_len (length number + 1) ≡ false = ground arith in
    let byte = parse_byte-print_byte international (store_number number ++ rest) (omega arith) in
    let long = length-append (store_number number) rest in
    let stored = length-store_number number in
    let there : leb (round_up2 (length number)) (length (store_number number ++ rest)) ≡ true =
      ground arith in
    let loop =
      number_loop-store_number odd (round_up2 (length number) / 2) number rest refl (omega arith)
        d in
    rw (large, byte, there, loop) (finish_number-filler odd number rest)
