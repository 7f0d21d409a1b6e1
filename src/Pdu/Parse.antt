-- ===== src/Pdu/Parse.antt =====
-- `pdu_parse`, one function for each field.
pub mod RoundTrip
use datacard.Base.{
  ℕ, zero, suc, ◌+◌, ◌-◌, ◌*◌, ◌/◌, ◌%◌, ◌^◌, bit_and, Bool, true, false, not, ◌&&◌, ◌||◌, List, [],
  ◌∷◌, ◌++◌, Option, none, some, ltb, leb, ◌==◌, if◌then◌else◌, length, drop,
}
use datacard.Bytes.{Bytes}
use datacard.CharConv.{StrEncoding}
use datacard.Pdu.{parse_byte, parse_number, parse_sca, parse_timestamp, dcs_alpabet2encoding}

pub data PduError : Type 0 where
  bad_sca bad_tpdu_length bad_pdu_type bad_mti bad_oa_length bad_oa bad_pid bad_pid_value bad_dcs
        bad_dcs_value bad_timestamp bad_udl bad_ud_length bad_udhl bad_udh :
      PduError

-- `oa` holds the characters written to the caller's buffer.
pub data Parsed : Type 0 where
  refused : PduError → Parsed
  message : Bytes → StrEncoding → Bytes → Parsed

-- The user data, behind a header if there is one.
pub skip_header : Bytes → StrEncoding → Option ℕ × Bytes → Parsed
skip_header oa enc (none, pdu) = refused PduError.bad_udhl
skip_header oa enc (some n, pdu) =
    if leb (n * 2) (length pdu) then message oa enc (drop (n * 2) pdu) else refused PduError.bad_udh

pub parse_data : ℕ → Bytes → StrEncoding → Bytes → Parsed
parse_data type_ oa enc pdu =
    if bit_and type_ 64 == 64 then skip_header oa enc (parse_byte pdu) else message oa enc pdu

-- The number of octets that hold `udl` characters.
abbrev pub octets : ℕ → ℕ → ℕ
octets alpabet udl = if alpabet == 0 then (udl + 1) * 7 / 8 else udl

pub parse_udl : ℕ → ℕ → Bytes → Option ℕ × Bytes → Parsed
parse_udl type_ alpabet oa (none, pdu) = refused PduError.bad_udl
parse_udl type_ alpabet oa (some n, pdu) =
    if octets alpabet n * 2 == length pdu
    then parse_data type_ oa (dcs_alpabet2encoding alpabet) pdu
    else refused PduError.bad_ud_length

pub after_timestamp : ℕ → ℕ → Bytes → Option Bytes → Parsed
after_timestamp type_ alpabet oa none = refused PduError.bad_timestamp
after_timestamp type_ alpabet oa (some pdu) = parse_udl type_ alpabet oa (parse_byte pdu)

pub parse_dcs : ℕ → Bytes → Option ℕ × Bytes → Parsed
parse_dcs type_ oa (none, pdu) = refused PduError.bad_dcs
parse_dcs type_ oa (some n, pdu) =
    let alpabet = bit_and n 12 in
    if bit_and n 192 == 0 && bit_and n 32 == 0 && (alpabet == 0 || alpabet == 4 || alpabet == 8)
    then after_timestamp type_ alpabet oa (parse_timestamp pdu)
    else refused PduError.bad_dcs_value

pub parse_pid : ℕ → Bytes → Option ℕ × Bytes → Parsed
parse_pid type_ oa (none, pdu) = refused PduError.bad_pid
parse_pid type_ oa (some n, pdu) =
    if n == 0 then parse_dcs type_ oa (parse_byte pdu) else refused PduError.bad_pid_value

pub after_number : ℕ → Option (Bytes × Bytes) → Parsed
after_number type_ none = refused PduError.bad_oa
after_number type_ (some (oa, pdu)) = parse_pid type_ oa (parse_byte pdu)

pub parse_oa : ℕ → ℕ → Option ℕ × Bytes → Parsed
parse_oa type_ oa_len (none, pdu) = refused PduError.bad_oa_length
parse_oa type_ oa_len (some n, pdu) =
    if ltb 0 n
    then after_number type_ (parse_number pdu n oa_len)
    else refused PduError.bad_oa_length

pub parse_type : ℕ → Option ℕ × Bytes → Parsed
parse_type oa_len (none, pdu) = refused PduError.bad_pdu_type
parse_type oa_len (some n, pdu) =
    if bit_and n 3 == 0 then parse_oa n oa_len (parse_byte pdu) else refused PduError.bad_mti

pub after_sca : ℕ → ℕ → Option Bytes → Parsed
after_sca tpdu_length oa_len none = refused PduError.bad_sca
after_sca tpdu_length oa_len (some pdu) =
    if tpdu_length * 2 % 2 ^ 64 == length pdu
    then parse_type oa_len (parse_byte pdu)
    else refused PduError.bad_tpdu_length

pub parse : Bytes → ℕ → ℕ → Parsed
parse pdu tpdu_length oa_len = after_sca tpdu_length oa_len (parse_sca pdu)
