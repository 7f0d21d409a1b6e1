-- ===== src/Pdu/Build.antt =====
-- `pdu_build`: the text of an SMS-SUBMIT PDU. `str_recode` is CharConv's, over the conversions of
-- iconv that are the section's parameter.
pub mod Octets
pub mod Layout
use datacard.Base.{
  ℕ, zero, suc, ◌+◌, ◌-◌, ◌*◌, ◌/◌, ◌%◌, ◌^◌, Bool, true, false, not, ◌&&◌, ◌||◌, List, [], ◌∷◌,
  ◌++◌, Option, none, some, ltb, leb, ◌==◌, if◌then◌else◌, length, take, drop, sub_size,
}
use datacard.Bytes.{Bytes, byte_at}
use datacard.CharConv.{
  StrEncoding, bit7_hex, bit8_hex, ucs2_hex, bit7, unknown, encode, get_encoding, hex_table,
  Recoded, text, failed, Charset, str_recode,
}
use datacard.Pdu.{international, store_number, relative_validity, round_up2}

-- "%02X" of an `unsigned`: at least two digits, eight at most.
hex_digits : ℕ → ℕ → Bytes → Bytes
hex_digits zero n later = later
hex_digits (suc fuel) n later =
    let front = hex_digits fuel (n / 16) (byte_at hex_table (n % 16) ∷ later) in
    if ltb n 16 then byte_at hex_table n ∷ later else front

pub print_uint : ℕ → Bytes
unfolding hex_digits
print_uint n = if ltb n 16 then b'0' ∷ byte_at hex_table n ∷ [] else hex_digits 8 n []

pub data BuildError : Type 0 where
  too_big no_memory invalid : BuildError

-- The text without its end, with the result and `*sca_len`.
pub data Built : Type 0 where
  failed_build : BuildError → Built
  built : Bytes → ℕ → ℕ → Built

-- `check_encoding`
unfoldable pub alpabet_of : StrEncoding → ℕ
alpabet_of bit7_hex = 0
alpabet_of bit8_hex = 8
alpabet_of ucs2_hex = 8
alpabet_of bit7 = 8
alpabet_of unknown = 8

unfoldable pub check_encoding : Bytes → ℕ
check_encoding msg = alpabet_of (get_encoding encode msg (length msg))

-- A number without its leading '+'
unfoldable pub skip_plus : Bytes → Bytes
skip_plus [] = []
skip_plus (c ∷ rest) = if c == b'+' then rest else c ∷ rest

-- SCA length, type of address and address of the center
pub sca_part : Bytes → Bytes
sca_part [] = b'0' ∷ b'0' ∷ []
sca_part (c ∷ rest) =
    print_uint (1 + (length (c ∷ rest) + 1) / 2)
    ++ (print_uint international ++ store_number (c ∷ rest))

-- PDU type with the request of a status report, message reference, and the destination
pub dst_part : Bytes → Bool → Bytes
dst_part dst srr =
    print_uint (if srr then 49 else 17)
    ++ (print_uint 0 ++ (print_uint (length dst) ++ (print_uint international ++ store_number dst)))

-- PID, DCS, validity period and length of the user data
pub data_head : ℕ → ℕ → ℕ → Bytes
data_head dcs valid_minutes udl =
    print_uint 0
    ++ (print_uint dcs ++ (print_uint (relative_validity valid_minutes) ++ print_uint udl))

-- The head printed over the place of eight characters before the data, whose first character is
-- saved and put back behind the head.
pub overlay : Bytes → Bytes → Bytes
overlay head data_ =
    take (length head + length data_) (head ++ (byte_at data_ 0 ∷ drop (length head + 1 - 8) data_))

pub with_data : Bytes → Bytes → ℕ → ℕ → ℕ → Recoded → Built
with_data front sca dcs valid_minutes msg_len (failed e) = failed_build BuildError.invalid
with_data front sca dcs valid_minutes msg_len (text data_) =
    let udl = if dcs == 8 then length data_ / 2 else msg_len in
    let head = data_head dcs valid_minutes udl in
    built (front ++ overlay head data_) (length front + length head + length data_) (length sca)

abbrev pub needed : Bytes → Bytes → ℕ → ℕ
needed csca dst msg_len =
    (if length csca == 0 then 2 else 4 + round_up2 (length csca))
    + 8
    + round_up2 (length dst)
    + 8
    + msg_len * 4
    + 4

module _ (iconv : Charset → Charset → Option (Bytes → ℕ → Option Bytes)) where
  pub build_numbers : ℕ → Bytes → Bytes → Bytes → ℕ → Bool → Built
  build_numbers size csca dst msg valid_minutes srr =
      let dcs = check_encoding msg in
      let sca = sca_part csca in
      let front = sca ++ dst_part dst srr in
      if ltb size (needed csca dst (length msg))
      then failed_build BuildError.no_memory
      else with_data front sca dcs valid_minutes (length msg) (
          str_recode iconv encode (if dcs == 8 then StrEncoding.ucs2_hex else StrEncoding.bit7_hex)
            msg (length msg) (sub_size (sub_size size (length front)) 11))

  pub build : ℕ → Bytes → Bytes → Bytes → ℕ → Bool → Built
  build size csca dst msg valid_minutes srr =
      let dcs = check_encoding msg in
      if (dcs == 8 && ltb 70 (length msg))
        || (dcs == 4 && ltb 140 (length msg))
        || ltb 160 (length msg)
      then failed_build BuildError.too_big
      else build_numbers size (skip_plus csca) (skip_plus dst) msg valid_minutes srr
