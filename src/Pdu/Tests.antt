-- ===== src/Pdu/Tests.antt =====
-- The message "hi" from the number 12345, and a message to it.
use datacard.Base.{
  ℕ, ◌+◌, ◌-◌, ◌≤◌, ◌<◌, ◌≡◌, inl, inr, refl, ap, ◌*◌, false, [], ◌∷◌, ◌++◌, Option, none, some,
  arith, length, if◌then◌else◌, ◌==◌, All,
}
use datacard.Bytes.{Bytes}
use datacard.CharConv.{
  StrEncoding, str_recode, char_to_hexstr_7bit, pack_loop, text, Charset, print_byte,
}
use datacard.Pdu.{international, store_number, parse_number, parse_byte, relative_validity}
use datacard.Pdu.Digits.{IsDigit, parse_byte-print_byte, parse_number-store_number}
use datacard.Pdu.Bounds.{parse_number-length}
use datacard.Pdu.Validity.{period, relative_validity-period}
use datacard.Pdu.Parse.{message, parse}
use datacard.Pdu.Parse.RoundTrip.{Deliver, IsValid, tpdu, pdu, parse-pdu}
use datacard.Pdu.Build.{built, build, skip_plus, needed}
use datacard.Pdu.Build.Octets.{alphabet, is_wide}
use datacard.Pdu.Build.Layout.{submit, announced, recode, sca_octets, build-submit}

abbrev pub number : Bytes
number = b'1' ∷ b'2' ∷ b'3' ∷ b'4' ∷ b'5' ∷ []

digits : All IsDigit number
digits = (
  inl (omega arith, omega arith),
  (
    inl (omega arith, omega arith),
    (
      inl (omega arith, omega arith),
      (inl (omega arith, omega arith), (inl (omega arith, omega arith), tt)),
    ),
  ),
)

parse_number-store_number_example :
    parse_number (print_byte international ++ (store_number number ++ (7 ∷ []))) 5 6
    ≡ some (b'+' ∷ (number ++ (0 ∷ [])), 7 ∷ [])
parse_number-store_number_example = parse_number-store_number number (7 ∷ []) 6 digits (omega arith)

parsed_type :
    (parse_byte (print_byte international ++ (store_number number ++ (7 ∷ [])))).0
    ≡ some international
parsed_type =
    ap (λ r. r.0)
      (parse_byte-print_byte international (store_number number ++ (7 ∷ [])) (omega arith))

parse_number-length_example : (5 + 1 ≤ 6) × (length (b'+' ∷ (number ++ (0 ∷ []))) ≡ 1 + (5 + 1))
parse_number-length_example =
    parse_number-length (print_byte international ++ (store_number number ++ (7 ∷ []))) 5 6
      international (b'+' ∷ (number ++ (0 ∷ []))) (7 ∷ []) parsed_type
      parse_number-store_number_example

relative_validity-period_example :
    let vp = relative_validity 1000 in
    (vp ≤ 255) × (1000 ≤ period vp) × (0 < vp → period (vp - 1) < 1000)
relative_validity-period_example = relative_validity-period 1000 (omega arith) (omega arith)

abbrev pub hi : Deliver
hi = record {
  sca = b'9' ∷ b'1' ∷ b'2' ∷ b'1' ∷ [];
  type_ = 4;
  number = number;
  dcs = 4;
  timestamp =
      b'1' ∷ b'1' ∷ b'1' ∷ b'1' ∷ b'1' ∷ b'1' ∷ b'1' ∷ b'1' ∷ b'1' ∷ b'1' ∷ b'1' ∷ b'1' ∷ b'0'
      ∷ b'0' ∷ [];
  udl = 2;
  header = none;
  encoding = StrEncoding.bit8_hex;
  text = b'6' ∷ b'8' ∷ b'6' ∷ b'9' ∷ [];
}

pub hi-IsValid : IsValid hi
hi-IsValid = record {
  sca = (refl, omega arith);
  type_byte = omega arith;
  delivers = refl;
  announced = refl;
  digits = digits;
  some_digits = omega arith;
  number_byte = omega arith;
  dcs_byte = omega arith;
  general = refl;
  not_compressed = refl;
  alpabet = inr (inl (refl, refl));
  timestamp = refl;
  udl_byte = omega arith;
  header = tt;
  even = refl;
  whole = refl;
}

pub tpdu_octets : 18 * 2 ≡ length (tpdu hi)
unfolding store_number
tpdu_octets = refl

parse-pdu_example :
    parse (pdu hi) 18 64 ≡ message (b'+' ∷ (number ++ (0 ∷ []))) StrEncoding.bit8_hex hi.text
parse-pdu_example = parse-pdu hi 18 64 hi-IsValid (omega arith) (omega arith) tpdu_octets

-- No conversion is there; the text is one of 7-bit characters.
abbrev iconv : Charset → Charset → Option (Bytes → ℕ → Option Bytes)
iconv from to = none

abbrev msg : Bytes
msg = b'h' ∷ b'i' ∷ []

abbrev packed : Bytes
packed = b'E' ∷ b'8' ∷ b'3' ∷ b'4' ∷ []

is_7bit : alphabet msg ≡ 0
unfolding alphabet is_wide
is_7bit = refl

recoded : recode iconv 200 [] (b'+' ∷ number) msg false ≡ text packed
unfolding alphabet is_wide str_recode char_to_hexstr_7bit pack_loop skip_plus
recoded = refl

short : length msg ≤ (if alphabet msg == 8 then 70 else 160)
short = rw is_7bit (omega arith)

fits : needed (skip_plus []) (skip_plus (b'+' ∷ number)) 2 ≤ 200
unfolding skip_plus
fits = omega arith

below : length (skip_plus (b'+' ∷ number)) < 256
unfolding skip_plus
below = omega arith

no_center : length (skip_plus []) < 256
unfolding skip_plus
no_center = omega arith

announced_byte : announced msg packed < 256
announced_byte = rw is_7bit (omega arith)

plain : All IsDigit (skip_plus (b'+' ∷ number))
unfolding skip_plus
plain = digits

no_digits : All IsDigit (skip_plus [])
unfolding skip_plus
no_digits = tt

build-submit_example :
    let all =
      submit
        (skip_plus [])
        (skip_plus (b'+' ∷ number))
        false
        (alphabet msg)
        (relative_validity 60)
        (announced msg packed)
        packed in
    build iconv 200 [] (b'+' ∷ number) msg 60 false
    ≡ built all (length all) (length (sca_octets (skip_plus [])))
build-submit_example =
    build-submit iconv 200 [] (b'+' ∷ number) msg 60 false packed short (omega arith) (omega arith)
      no_center below no_digits plain fits announced_byte recoded
