-- ===== src/Scan.antt =====
-- The functions of the C library on texts that the driver uses: `strtol` with base 10, the number
-- conversions of `sscanf`, `strchr`, `strcmp`, `strncmp` and `strcasecmp`. A text is the list of its
-- characters before the final 0. A `long` is given as its 64 bits, an `int` as its 32.
pub mod Decimal
use datacard.Base.{
  ℕ, zero, suc, ◌+◌, ◌-◌, ◌*◌, ◌%◌, ◌^◌, min, Bool, true, false, not, ◌&&◌, ◌||◌, List, [], ◌∷◌,
  Option, none, some, leb, ltb, ◌==◌, if◌then◌else◌, length, take, drop,
}
use datacard.Bytes.{Bytes}

-- `isspace` and `isdigit` in the C locale
abbrev pub is_space : ℕ → Bool
is_space c = c == 32 || (leb 9 c && leb c 13)

abbrev pub is_digit : ℕ → Bool
is_digit c = leb b'0' c && leb c b'9'

unfoldable pub skip_spaces : Bytes → Bytes
skip_spaces [] = []
skip_spaces (c ∷ cs) = if is_space c then skip_spaces cs else c ∷ cs

-- The digits at the start, and what follows them.
unfoldable pub span_digits : Bytes → Bytes × Bytes
span_digits [] = ([], [])
span_digits (c ∷ cs) =
    let (ds, rest) = span_digits cs in if is_digit c then (c ∷ ds, rest) else ([], c ∷ cs)

unfoldable pub digits_value : ℕ → Bytes → ℕ
digits_value n [] = n
digits_value n (c ∷ cs) = digits_value (10 * n + (c - b'0')) cs

-- A sign, if there is one: whether it is '-', and the rest.
unfoldable pub scan_sign : Bytes → Bool × Bytes
scan_sign [] = (false, [])
scan_sign (c ∷ cs) =
    if c == b'-' then (true, cs) else if c == b'+' then (false, cs) else (false, c ∷ cs)

-- The bits of a value that is held to the range of `long`.
abbrev pub long_bits : Bool → ℕ → ℕ
long_bits negative n = if negative then (2 ^ 64 - min n (2 ^ 63)) % 2 ^ 64 else min n (2 ^ 63 - 1)

abbrev pub is_empty : Bytes → Bool
is_empty [] = true
is_empty (c ∷ cs) = false

-- A sign and digits after white space: the sign, the digits and the rest.
unfoldable pub scan_number : Bytes → Option (Bool × Bytes × Bytes)
unfolding skip_spaces scan_sign span_digits
scan_number b =
    let (negative, t) = scan_sign (skip_spaces b) in
    let (ds, rest) = span_digits t in if is_empty ds then none else some (negative, ds, rest)

-- `strtol (b, &end, 10)`: without digits it gives 0 and the whole text.
unfoldable pub long_of : Bytes → Option (Bool × Bytes × Bytes) → ℕ × Bytes
long_of b none = (0, b)
long_of b (some (negative, ds, rest)) = (long_bits negative (digits_value 0 ds), rest)

unfoldable pub strtol : Bytes → ℕ × Bytes
unfolding scan_number long_of
strtol b = long_of b (scan_number b)

-- `(int)` of a `long`
abbrev pub to_int : ℕ → ℕ
to_int n = n % 2 ^ 32

abbrev pub is_negative : ℕ → Bool
is_negative n = leb (2 ^ 31) n

abbrev pub minus_one : ℕ
minus_one = 2 ^ 32 - 1

-- The conversions %d and %u of `sscanf`, with the rest of the text. %u holds the value to the range of
-- `unsigned long` before it takes its low bits.
unfoldable pub int_of : Option (Bool × Bytes × Bytes) → Option (ℕ × Bytes)
int_of none = none
int_of (some (negative, ds, rest)) = some (to_int (long_bits negative (digits_value 0 ds)), rest)

unfoldable pub scan_d : Bytes → Option (ℕ × Bytes)
unfolding scan_number int_of
scan_d b = int_of (scan_number b)

unfoldable pub uint_of : Option (Bool × Bytes × Bytes) → Option (ℕ × Bytes)
uint_of none = none
uint_of (some (negative, ds, rest)) =
    let n = min (digits_value 0 ds) (2 ^ 64 - 1) in
    some (to_int (if negative then 2 ^ 64 - n else n), rest)

unfoldable pub scan_u : Bytes → Option (ℕ × Bytes)
unfolding scan_number uint_of
scan_u b = uint_of (scan_number b)

-- The conversion %2d reads two characters at most after white space.
unfoldable pub scan_2d : Bytes → Option ℕ
unfolding scan_d skip_spaces
scan_2d b = elim (scan_d (take 2 (skip_spaces b))) [ none ↦ none | some (n, rest) ↦ some n ]

-- The characters of a format that stand for themselves; white space in it matches any white space.
unfoldable pub scan_literal : Bytes → Bytes → Option Bytes
unfolding skip_spaces
scan_literal [] b = some b
scan_literal (f ∷ fs) [] = if is_space f then scan_literal fs [] else none
scan_literal (f ∷ fs) (c ∷ cs) =
    let spaced = scan_literal fs (skip_spaces (c ∷ cs)) in
    let same = scan_literal fs cs in if is_space f then spaced else if f == c then same else none

-- `strchr`, as the text before the first `c` and the text behind it
unfoldable pub split_at : ℕ → Bytes → Option (Bytes × Bytes)
split_at c [] = none
split_at c (x ∷ xs) =
    let rest = split_at c xs in
    if x == c
    then some ([], xs)
    else elim rest [ none ↦ none | some (front, back) ↦ some (x ∷ front, back) ]

-- `strcmp (a, b) == 0` and `strncmp (a, b, n) == 0`; the character behind a text is 0.
unfoldable pub str_equal : Bytes → Bytes → Bool
str_equal [] [] = true
str_equal [] (y ∷ ys) = false
str_equal (x ∷ xs) [] = false
str_equal (x ∷ xs) (y ∷ ys) = x == y && str_equal xs ys

unfoldable pub strn_equal : ℕ → Bytes → Bytes → Bool
strn_equal zero a b = true
strn_equal (suc n) [] [] = true
strn_equal (suc n) [] (y ∷ ys) = false
strn_equal (suc n) (x ∷ xs) [] = false
strn_equal (suc n) (x ∷ xs) (y ∷ ys) = x == y && strn_equal n xs ys

-- `tolower`, and `strcasecmp (a, b) == 0`
abbrev pub to_lower : ℕ → ℕ
to_lower c = if leb b'A' c && leb c b'Z' then c + 32 else c

unfoldable pub strcase_equal : Bytes → Bytes → Bool
strcase_equal [] [] = true
strcase_equal [] (y ∷ ys) = false
strcase_equal (x ∷ xs) [] = false
strcase_equal (x ∷ xs) (y ∷ ys) = to_lower x == to_lower y && strcase_equal xs ys
