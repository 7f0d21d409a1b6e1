-- ===== src/CharConv.antt =====
-- char_conv.h and char_conv.c: texts between UTF-8 and the encodings of the modem. A `char` is its
-- byte, 0 to 255; what a call that fails has left in `out` is not modelled. The conversions of
-- iconv are the section's parameter.
pub mod Bits
pub mod Octets
pub mod Packed
pub mod Hex
pub mod Encoding
mod Tests
use datacard.Base.{
  ℕ, zero, suc, ◌+◌, ◌-◌, ◌*◌, ◌/◌, ◌%◌, ◌^◌, bit_or, Bool, true, false, not, ◌&&◌, ◌||◌, List, [],
  ◌∷◌, ◌++◌, Option, none, some, ltb, leb, ◌==◌, if◌then◌else◌, take, sub_size, length,
}
use datacard.Bytes.{Bytes, byte_at}

-- The negative results: -EINVAL, -ENOMEM, -1, -2 and -3.
pub data Failure : Type 0 where
  einval enomem failure no_converter not_converted : Failure

-- The text in `out` up to its final 0, whose length is the result, or the negative result.
pub data Recoded : Type 0 where
  text : Bytes → Recoded
  failed : Failure → Recoded

pub parse_hexdigit : ℕ → Option ℕ
parse_hexdigit hex =
    if leb b'0' hex && leb hex b'9'
    then some (hex - b'0')
    else if leb b'a' hex && leb hex b'f'
    then some (hex - b'a' + 10)
    else if leb b'A' hex && leb hex b'F'
    then some (hex - b'A' + 10)
    else none

-- `(d1 << 4) | d2`, where `d2` is a hex digit, put before what follows.
pub join_digits : Option ℕ → Option ℕ → Option Bytes → Option Bytes
join_digits none d2 rest = none
join_digits (some d1) none rest = none
join_digits (some d1) (some d2) none = none
join_digits (some d1) (some d2) (some rest) = some ((d1 * 16 + d2) ∷ rest)

-- The loop of `hexstr_to_8bitchars`, of `n` rounds.
pub hex_loop : ℕ → Bytes → Option Bytes
hex_loop zero in_ = some []
hex_loop (suc n) [] = none
hex_loop (suc n) (a ∷ []) = none
hex_loop (suc n) (a ∷ b ∷ rest) =
    join_digits (parse_hexdigit a) (parse_hexdigit b) (hex_loop n rest)

abbrev text_or : Failure → Option Bytes → Recoded
text_or e none = failed e
text_or e (some out) = text out

pub hexstr_to_8bitchars : Bytes → ℕ → ℕ → Recoded
hexstr_to_8bitchars in_ in_length out_size =
    if not (in_length % 2 == 0)
    then failed Failure.einval
    else if ltb (sub_size out_size 1) (in_length / 2)
    then failed Failure.enomem
    else text_or Failure.einval (hex_loop (in_length / 2) in_)

abbrev pub hex_table : Bytes
hex_table =
    b'0' ∷ b'1' ∷ b'2' ∷ b'3' ∷ b'4' ∷ b'5' ∷ b'6' ∷ b'7' ∷ b'8' ∷ b'9' ∷ b'A' ∷ b'B' ∷ b'C' ∷ b'D'
    ∷ b'E' ∷ b'F' ∷ []

-- The loop of `chars8bit_to_hexstr`
pub table_loop : ℕ → Bytes → Bytes
table_loop zero in_ = []
table_loop (suc n) [] = []
table_loop (suc n) (c ∷ rest) =
    byte_at hex_table (c / 16) ∷ byte_at hex_table (c % 16) ∷ table_loop n rest

pub chars8bit_to_hexstr : Bytes → ℕ → ℕ → Recoded
chars8bit_to_hexstr in_ in_length out_size =
    if ltb (sub_size out_size 1) (in_length * 2 % 2 ^ 64)
    then failed Failure.failure
    else text (table_loop in_length in_)

-- `in[i] >> s` of a signed `char`, and `in[i] << n`, as an `unsigned char`.
abbrev pub shift_right : ℕ → ℕ → ℕ
shift_right c s = (if ltb c 128 then c else c + (2 ^ 32 - 256)) / 2 ^ s % 256

abbrev pub shift_left : ℕ → ℕ → ℕ
shift_left c n = c * 2 ^ n % 256

-- "%.2X"
abbrev pub print_byte : ℕ → Bytes
print_byte c = byte_at hex_table (c / 16) ∷ byte_at hex_table (c % 16) ∷ []

-- The loop of `char_to_hexstr_7bit` over the characters from one on, and its last octet.
unfoldable pub pack_loop : Bytes → ℕ → Bytes
pack_loop [] s = []
pack_loop (c ∷ []) s = print_byte (shift_right c s)
pack_loop (c ∷ d ∷ rest) s =
    let later = pack_loop (d ∷ rest) (if s == 7 then 0 else suc s) in
    if s == 7 then later else print_byte (bit_or (shift_right c s) (shift_left d (7 - s))) ++ later

unfoldable pub char_to_hexstr_7bit : Bytes → ℕ → ℕ → Recoded
char_to_hexstr_7bit in_ in_length out_size =
    if ltb (sub_size out_size 1) ((in_length - in_length / 8) * 2 % 2 ^ 64)
    then failed Failure.failure
    else text (pack_loop (take in_length in_) 0)

-- `sscanf (buf, "%x", &hexval)` of two characters, as an `unsigned char`: white space and a sign may
-- come first, and what follows the digits is left.
abbrev skips : ℕ → Bool
skips c = c == b' ' || (leb 9 c && leb c 13) || c == b'+'

pub scan_digit : ℕ → ℕ → Option ℕ → Option ℕ
scan_digit a b none = none
scan_digit a b (some d) =
    if skips a then some d else if a == b'-' then some ((256 - d) % 256) else none

pub scan_byte : ℕ → ℕ → Option ℕ → Option ℕ → Option ℕ
scan_byte a b none d2 = scan_digit a b d2
scan_byte a b (some d1) (some d2) = some (d1 * 16 + d2)
scan_byte a b (some d1) none = if a == b'0' && (b == b'x' || b == b'X') then none else some d1

-- The characters that one octet gives, with what is carried to the next.
abbrev pub unpack_octet : ℕ → ℕ → ℕ → Bytes
unpack_octet v s b =
    let c = bit_or (v * 2 ^ s % 256 / 2) b in if s == 7 then c ∷ v / 2 ^ (8 - s) ∷ [] else c ∷ []

unpack_then : Option ℕ → ℕ → ℕ → (ℕ → ℕ → Option Bytes) → Option Bytes
unpack_then none s b later = none
unpack_then (some v) s b later =
    elim (later (if s == 7 then 1 else suc s) (if s == 7 then 0 else v / 2 ^ (8 - s))) [
      | none ↦ none
      | some out ↦ some (unpack_octet v s b ++ out)
    ]

-- The loop of `hexstr_7bit_to_char`, of `n` rounds.
pub unpack_loop : ℕ → Bytes → ℕ → ℕ → Option Bytes
unpack_loop zero in_ s b = some []
unpack_loop (suc n) [] s b = none
unpack_loop (suc n) (x ∷ []) s b = none
unpack_loop (suc n) (x ∷ y ∷ rest) s b =
    unpack_then (scan_byte x y (parse_hexdigit x) (parse_hexdigit y)) s b (unpack_loop n rest)

pub hexstr_7bit_to_char : Bytes → ℕ → ℕ → Recoded
hexstr_7bit_to_char in_ in_length out_size =
    if ltb (sub_size out_size 1) (in_length / 2 + in_length / 2 / 7)
    then failed Failure.failure
    else text_or Failure.failure (unpack_loop (in_length / 2) in_ 1 0)

pub just_copy : Bytes → ℕ → ℕ → Recoded
just_copy in_ in_length out_size =
    if leb in_length (sub_size out_size 1) then text (take in_length in_) else failed Failure.enomem

pub data StrEncoding : Type 0 where
  bit7_hex bit8_hex ucs2_hex bit7 unknown : StrEncoding

pub data Direction : Type 0 where
  decode encode : Direction

-- The two loops of `get_encoding`
unfoldable pub encode_hint : Bytes → StrEncoding
encode_hint [] = StrEncoding.bit7_hex
encode_hint (c ∷ rest) =
    let later = encode_hint rest in if leb 128 c then StrEncoding.ucs2_hex else later

abbrev is_hexdigit : Option ℕ → Bool
is_hexdigit none = false
is_hexdigit (some d) = true

pub decode_hint : Bytes → StrEncoding
decode_hint [] = StrEncoding.unknown
decode_hint (c ∷ rest) =
    let later = decode_hint rest in
    if is_hexdigit (parse_hexdigit c) then later else StrEncoding.bit7

unfoldable pub get_encoding : Direction → Bytes → ℕ → StrEncoding
get_encoding encode in_ n = encode_hint (take n in_)
get_encoding decode in_ n = decode_hint (take n in_)

pub data Charset : Type 0 where
  ucs2be utf8 : Charset

abbrev converted : Option Bytes → Recoded
converted none = failed Failure.not_converted
converted (some out) = text out

-- `iconv from to` is `none` where `iconv_open` fails. Otherwise it converts a text to one of at
-- most so many bytes, or fails.
module _ (iconv : Charset → Charset → Option (Bytes → ℕ → Option Bytes)) where
  pub convert_string : Bytes → ℕ → ℕ → Charset → Charset → Recoded
  convert_string in_ in_length out_size from to = elim (iconv from to) [
    | none ↦ failed Failure.no_converter
    | some run ↦ converted (run (take in_length in_) (sub_size out_size 1))
  ]

  pub hexstr_ucs2_to_utf8 : Bytes → ℕ → ℕ → Recoded
  hexstr_ucs2_to_utf8 in_ in_length out_size =
      if ltb (sub_size out_size 1) (in_length / 2)
      then failed Failure.failure
      else elim (hexstr_to_8bitchars in_ in_length out_size) [
        | failed e ↦ failed e
        | text buf ↦ convert_string buf (length buf) out_size Charset.ucs2be Charset.utf8
      ]

  pub utf8_to_hexstr_ucs2 : Bytes → ℕ → ℕ → Recoded
  utf8_to_hexstr_ucs2 in_ in_length out_size =
      if ltb (sub_size out_size 1) (in_length * 4 % 2 ^ 64)
      then failed Failure.failure
      else elim (convert_string in_ in_length out_size Charset.utf8 Charset.ucs2be) [
        | failed e ↦ failed e
        | text buf ↦ chars8bit_to_hexstr buf (length buf) out_size
      ]

  -- `str_recode`, with the table `recoders`
  unfoldable pub str_recode : Direction → StrEncoding → Bytes → ℕ → ℕ → Recoded
  str_recode decode bit7_hex = hexstr_7bit_to_char
  str_recode encode bit7_hex = char_to_hexstr_7bit
  str_recode decode bit8_hex = hexstr_to_8bitchars
  str_recode encode bit8_hex = chars8bit_to_hexstr
  str_recode decode ucs2_hex = hexstr_ucs2_to_utf8
  str_recode encode ucs2_hex = utf8_to_hexstr_ucs2
  str_recode decode bit7 = just_copy
  str_recode encode bit7 = just_copy
  str_recode decode unknown = λ in_ in_length out_size. failed Failure.einval
  str_recode encode unknown = λ in_ in_length out_size. failed Failure.einval
