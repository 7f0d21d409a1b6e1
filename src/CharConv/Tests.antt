-- ===== src/CharConv/Tests.antt =====
-- Short texts.
use datacard.Base.{◌++◌, ◌<◌, ◌≡◌, [], ◌∷◌, arith, length, All, take}
use datacard.Bytes.{Bytes}
use datacard.CharConv.{
  char_to_hexstr_7bit, hexstr_7bit_to_char, text, chars8bit_to_hexstr, hexstr_to_8bitchars,
  StrEncoding, decode, encode, get_encoding,
}
use datacard.CharConv.Hex.{hexstr_to_8bitchars-chars8bit_to_hexstr}
use datacard.CharConv.Packed.{IsPadding, hexstr_7bit_to_char-char_to_hexstr_7bit}
use datacard.CharConv.Encoding.{Outcomes, AllHex, get_encoding-Outcomes}

abbrev sample : Bytes
sample = 0 ∷ 65 ∷ 255 ∷ []

hexstr_to_8bitchars-chars8bit_to_hexstr_example :
    (h : Bytes) × (length h ≡ 6)
    × (chars8bit_to_hexstr sample 3 16 ≡ text h)
    × (hexstr_to_8bitchars h (length h) 8 ≡ text sample)
hexstr_to_8bitchars-chars8bit_to_hexstr_example =
    hexstr_to_8bitchars-chars8bit_to_hexstr sample 16 8
      (omega arith, (omega arith, (omega arith, tt))) (omega arith) (omega arith) (omega arith)
      (omega arith)

get_encoding-Outcomes_example :
    Outcomes
      (get_encoding encode sample 3)
      (All (λ c. c < 128) (take 3 sample))
      StrEncoding.bit7_hex
      StrEncoding.ucs2_hex
    × Outcomes
        (get_encoding decode sample 3)
        (AllHex (take 3 sample))
        StrEncoding.unknown
        StrEncoding.bit7
get_encoding-Outcomes_example = get_encoding-Outcomes sample 3

abbrev hello : Bytes
hello = b'h' ∷ b'e' ∷ b'l' ∷ b'l' ∷ b'o' ∷ []

hexstr_7bit_to_char-char_to_hexstr_7bit_example :
    (h : Bytes) × (z : Bytes) × IsPadding z
    × (char_to_hexstr_7bit hello 5 32 ≡ text h)
    × (hexstr_7bit_to_char h (length h) 32 ≡ text (hello ++ z))
hexstr_7bit_to_char-char_to_hexstr_7bit_example =
    hexstr_7bit_to_char-char_to_hexstr_7bit hello 32 32
      (omega arith, (omega arith, (omega arith, (omega arith, (omega arith, tt))))) (omega arith)
      (omega arith) (omega arith) (omega arith)
