-- ===== src/AtParse/Cmgr.antt =====
-- `at_parse_cmgr`: a message that was read from the modem's store, in text or in PDU mode. The encoding
-- of the number of a PDU is always that of plain text.
pub mod Deliver
use datacard.Base.{
  ℕ, zero, suc, ◌+◌, ◌-◌, Bool, true, false, not, ◌&&◌, ◌||◌, List, [], ◌∷◌, ◌++◌, ltb, ◌==◌,
  if◌then◌else◌, length, set, take, drop, sub_size,
}
use datacard.Bytes.{Bytes, byte_at}
use datacard.CharConv.{StrEncoding, decode, get_encoding}
use datacard.Pdu.Parse.{Parsed, parse}
use datacard.Scan.{strtol}
use datacard.AtParse.{mark_line, field_start, field_end}

pub data CmgrError : Type 0 where
  bad_line bad_text no_space bad_length bad_response : CmgrError

-- `cmgr_text` has the characters written to the buffer of the number, and the message.
pub data Cmgr : Type 0 where
  cmgr_refused : CmgrError → Cmgr
  cmgr_text : (oa : Bytes) (oa_enc : StrEncoding) (msg : Bytes) (msg_enc : StrEncoding) → Cmgr
  cmgr_pdu : Parsed → Cmgr

-- `parse_cmgr_text`, with the delimiters ",,,\n"
unfoldable pub text_marks : Bytes → ℕ → ℕ → List ℕ → Cmgr
text_marks str len oa_len (m0 ∷ m1 ∷ m2 ∷ m3 ∷ []) =
    let start = field_start str m0 in
    let end_ = field_end str m1 in
    let n = sub_size (suc end_) start in
    let msg = drop (suc m3) str in
    if ltb oa_len n
    then cmgr_refused CmgrError.no_space
    else cmgr_text (take n (drop start (set str end_ 0)))
        (get_encoding decode (drop start str) (sub_size n 1)) msg
        (get_encoding decode msg (sub_size len (suc m3)))
text_marks str len oa_len _ = cmgr_refused CmgrError.bad_text

abbrev pub text_delimiters : Bytes
text_delimiters = b',' ∷ b',' ∷ b',' ∷ 10 ∷ []

unfoldable pub parse_cmgr_text : Bytes → ℕ → ℕ → Cmgr
unfolding text_marks mark_line
parse_cmgr_text str len oa_len = text_marks str len oa_len (mark_line str text_delimiters 0)

-- `parse_cmgr_pdu`, with the delimiters ",,\n"; the length is followed by '\r'.
unfoldable pub pdu_length : Bytes → ℕ → ℕ → ℕ × Bytes → Cmgr
pdu_length str m2 oa_len (tpdu_length, end_) =
    if tpdu_length == 0 || not (byte_at end_ 0 == 13)
    then cmgr_refused CmgrError.bad_length
    else cmgr_pdu (parse (drop (suc m2) str) tpdu_length oa_len)

unfoldable pub pdu_marks : Bytes → ℕ → List ℕ → Cmgr
unfolding pdu_length
pdu_marks str oa_len (m0 ∷ m1 ∷ m2 ∷ []) = pdu_length str m2 oa_len (strtol (drop (suc m1) str))
pdu_marks str oa_len _ = cmgr_refused CmgrError.bad_response

abbrev pub pdu_delimiters : Bytes
pdu_delimiters = b',' ∷ b',' ∷ 10 ∷ []

unfoldable pub parse_cmgr_pdu : Bytes → ℕ → Cmgr
unfolding pdu_marks mark_line
parse_cmgr_pdu str oa_len = pdu_marks str oa_len (mark_line str pdu_delimiters 0)

-- The loop over leading spaces.
unfoldable pub skip_blanks : Bytes → ℕ → Bytes × ℕ
skip_blanks [] len = ([], len)
skip_blanks (c ∷ cs) len =
    let rest = skip_blanks cs (len - 1) in if ltb 0 len && c == b' ' then rest else (c ∷ cs, len)

unfoldable pub parse_cmgr_line : ℕ → Bytes × ℕ → Cmgr
unfolding parse_cmgr_text parse_cmgr_pdu
parse_cmgr_line oa_len (str, len) =
    if ltb 0 len
    then (if byte_at str 0 == b'"'
        then parse_cmgr_text str len oa_len
        else parse_cmgr_pdu str oa_len)
    else cmgr_refused CmgrError.bad_line

-- `at_parse_cmgr`: the first six characters are "+CMGR:".
unfoldable pub parse_cmgr : Bytes → ℕ → ℕ → Cmgr
unfolding skip_blanks parse_cmgr_line
parse_cmgr str len oa_len = parse_cmgr_line oa_len (skip_blanks (drop 6 str) (sub_size len 6))
