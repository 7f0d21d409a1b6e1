-- ===== src/Pdu.antt =====
-- pdu.c: the PDUs of short messages. `*pdu` with `*length` is the rest of the text; a result of -1 is
-- `none`, and an error of `pdu_parse` is named for its message.
pub mod Digits
pub mod Bounds
pub mod Validity
pub mod Parse
pub mod Build
pub mod Tests
use datacard.Base.{
  ℕ, zero, suc, ◌+◌, ◌-◌, ◌*◌, ◌/◌, ◌%◌, ◌^◌, bit_and, Bool, true, false, not, ◌&&◌, ◌||◌, List, [],
  ◌∷◌, ◌++◌, Option, none, some, ltb, leb, ◌==◌, if◌then◌else◌, length, drop,
}
use datacard.Bytes.{Bytes}
use datacard.CharConv.{parse_hexdigit, StrEncoding, bit7_hex, bit8_hex, ucs2_hex, unknown}

abbrev pub international : ℕ
international = 145

-- `pdu_digit2code`
pub digit2code : ℕ → ℕ
digit2code digit =
    if leb b'0' digit && leb digit b'9'
    then digit
    else if digit == b'*'
    then b'A'
    else if digit == b'#'
    then b'B'
    else if digit == b'a' || digit == b'A'
    then b'C'
    else if digit == b'b' || digit == b'B'
    then b'D'
    else if digit == b'c' || digit == b'C'
    then b'E'
    else 0

-- `pdu_code2digit`
pub code2digit : ℕ → Option ℕ
code2digit code =
    if leb b'0' code && leb code b'9'
    then some code
    else if code == b'a' || code == b'A'
    then some b'*'
    else if code == b'b' || code == b'B'
    then some b'#'
    else if code == b'c' || code == b'C'
    then some b'A'
    else if code == b'd' || code == b'D'
    then some b'B'
    else if code == b'e' || code == b'E'
    then some b'C'
    else if code == b'F'
    then some 0
    else none

abbrev div_up : ℕ → ℕ → ℕ
div_up x y = (x + y - 1) / y

-- `pdu_relative_validity` of an `unsigned`, as it is printed: 2 ^ 32 - 1 stands for -1.
pub relative_validity : ℕ → ℕ
relative_validity minutes =
    if leb minutes 720
    then (div_up minutes 5 + 2 ^ 32 - 1) % 2 ^ 32
    else if leb minutes 1440
    then div_up minutes 30 + 119
    else if leb minutes 43200
    then div_up minutes 1440 + 166
    else if leb minutes 635040
    then div_up minutes 10080 + 192
    else 255

-- `pdu_parse_byte`: with a wrong second digit it gives the first and steps over it.
pub digits_byte : Option ℕ → Option ℕ → ℕ → ℕ → Bytes → Option ℕ × Bytes
digits_byte none d2 a b rest = (none, a ∷ b ∷ rest)
digits_byte (some d1) none a b rest = (some d1, b ∷ rest)
digits_byte (some d1) (some d2) a b rest = (some (d1 * 16 + d2), rest)

pub parse_byte : Bytes → Option ℕ × Bytes
parse_byte [] = (none, [])
parse_byte (a ∷ []) = (none, a ∷ [])
parse_byte (a ∷ b ∷ rest) = digits_byte (parse_hexdigit a) (parse_hexdigit b) a b rest

-- `pdu_store_number`
pub store_number : Bytes → Bytes
store_number [] = []
store_number (a ∷ []) = b'F' ∷ digit2code a ∷ []
store_number (a ∷ b ∷ number) = digit2code b ∷ digit2code a ∷ store_number number

-- Two characters of the loop of `pdu_parse_number`: `ends` is whether a filler is right here.
pub two_digits : Bool → Option ℕ → Option ℕ → Option (ℕ × ℕ)
two_digits ends none d2 = none
two_digits ends (some zero) d2 = none
two_digits ends (some (suc d1)) none = none
two_digits ends (some (suc d1)) (some zero) = if ends then some (suc d1, 0) else none
two_digits ends (some (suc d1)) (some (suc d2)) = some (suc d1, suc d2)

pub put_digits : Option (ℕ × ℕ) → Option (Bytes × Bytes) → Option (Bytes × Bytes)
put_digits none later = none
put_digits (some (d1, d2)) none = none
put_digits (some (d1, d2)) (some (number, rest)) = some (d1 ∷ d2 ∷ number, rest)

-- The loop of `n` rounds, with the characters it writes to `number`.
pub number_loop : Bool → ℕ → Bytes → Option (Bytes × Bytes)
number_loop odd zero pdu = some ([], pdu)
number_loop odd (suc n) [] = none
number_loop odd (suc n) (x ∷ []) = none
number_loop odd (suc n) (x ∷ y ∷ pdu) =
    put_digits (two_digits (n == 0 && odd) (code2digit y) (code2digit x)) (number_loop odd n pdu)

abbrev pub round_up2 : ℕ → ℕ
round_up2 x = (x + 1) / 2 * 2

-- What `pdu_parse_number` writes to `number`, and where it leaves `*pdu`.
pub finish_number : Bool → ℕ → Option (Bytes × Bytes) → Option (Bytes × Bytes)
finish_number odd toa none = none
finish_number odd toa (some (number, rest)) =
    let plus = if toa == international then b'+' ∷ [] else [] in
    let end = if odd then [] else 0 ∷ [] in some (plus ++ (number ++ end), rest)

pub number_after : ℕ → Option ℕ × Bytes → Option (Bytes × Bytes)
number_after digits (none, pdu) = none
number_after digits (some toa, pdu) =
    let odd = not (digits % 2 == 0) in
    if leb (round_up2 digits) (length pdu)
    then finish_number odd toa (number_loop odd (round_up2 digits / 2) pdu)
    else none

pub parse_number : Bytes → ℕ → ℕ → Option (Bytes × Bytes)
parse_number pdu digits num_len =
    if ltb num_len (digits + 1) then none else number_after digits (parse_byte pdu)

-- `pdu_parse_sca`
pub skip_sca : Option ℕ × Bytes → Option Bytes
skip_sca (none, pdu) = none
skip_sca (some n, pdu) = if leb (n * 2) (length pdu) then some (drop (n * 2) pdu) else none

pub parse_sca : Bytes → Option Bytes
parse_sca pdu = skip_sca (parse_byte pdu)

-- `pdu_parse_timestamp`
pub parse_timestamp : Bytes → Option Bytes
parse_timestamp pdu = if leb 14 (length pdu) then some (drop 14 pdu) else none

-- `pdu_dcs_alpabet2encoding`
pub dcs_alpabet2encoding : ℕ → StrEncoding
dcs_alpabet2encoding alpabet =
    if alpabet / 4 == 0
    then StrEncoding.bit7_hex
    else if alpabet / 4 == 1
    then StrEncoding.bit8_hex
    else if alpabet / 4 == 2
    then StrEncoding.ucs2_hex
    else StrEncoding.unknown
