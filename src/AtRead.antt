-- ===== src/AtRead.antt =====
-- at_read.h and at_read.c: lines of the modem's answers out of the ring buffer, and the list of
-- answers of at_response.h and at_response.c by which they are told apart.
pub mod Consume
pub mod Framing
mod Tests
use datacard.Base.{
  ℕ, zero, suc, ◌+◌, Bool, true, false, ◌||◌, List, [], ◌∷◌, Option, none, some, ltb, ◌==◌,
  if◌then◌else◌, length, add_size,
}
use datacard.Bytes.{Bytes}
use datacard.RingBuffer.{
  RingBuffer, Iov, Compare, same, differs, short, mem_compare, read_n_iov, read_until_char_iov,
  read_until_mem_iov, read_upd,
}

-- `at_res_t`
pub data AtRes : Type 0 where
  parse_error unknown boot busy cend cmgr cms_error cmti cnum conf conn cops cpin creg csq cssi cssu
        cusd error mode no_carrier no_dialtone ok orig ring rssi smmemfull sms_prompt srvst cvoice
        cmgs cpms csca clcc ccwa :
      AtRes

-- `at_responses_list` from `ids_first` on
pub at_responses : List (AtRes × Bytes)
at_responses =
    (AtRes.boot, b'^' ∷ b'B' ∷ b'O' ∷ b'O' ∷ b'T' ∷ b':' ∷ [])
    ∷ (AtRes.busy, b'B' ∷ b'U' ∷ b'S' ∷ b'Y' ∷ 13 ∷ [])
    ∷ (AtRes.cend, b'^' ∷ b'C' ∷ b'E' ∷ b'N' ∷ b'D' ∷ b':' ∷ [])
    ∷ (AtRes.cmgr, b'+' ∷ b'C' ∷ b'M' ∷ b'G' ∷ b'R' ∷ b':' ∷ [])
    ∷ (
      AtRes.cms_error,
      b'+' ∷ b'C' ∷ b'M' ∷ b'S' ∷ b' ' ∷ b'E' ∷ b'R' ∷ b'R' ∷ b'O' ∷ b'R' ∷ b':' ∷ [],
    )
    ∷ (AtRes.cmti, b'+' ∷ b'C' ∷ b'M' ∷ b'T' ∷ b'I' ∷ b':' ∷ [])
    ∷ (AtRes.cnum, b'+' ∷ b'C' ∷ b'N' ∷ b'U' ∷ b'M' ∷ b':' ∷ [])
    ∷ (AtRes.conf, b'^' ∷ b'C' ∷ b'O' ∷ b'N' ∷ b'F' ∷ b':' ∷ [])
    ∷ (AtRes.conn, b'^' ∷ b'C' ∷ b'O' ∷ b'N' ∷ b'N' ∷ b':' ∷ [])
    ∷ (AtRes.cops, b'+' ∷ b'C' ∷ b'O' ∷ b'P' ∷ b'S' ∷ b':' ∷ [])
    ∷ (AtRes.cpin, b'+' ∷ b'C' ∷ b'P' ∷ b'I' ∷ b'N' ∷ b':' ∷ [])
    ∷ (AtRes.creg, b'+' ∷ b'C' ∷ b'R' ∷ b'E' ∷ b'G' ∷ b':' ∷ [])
    ∷ (AtRes.csq, b'+' ∷ b'C' ∷ b'S' ∷ b'Q' ∷ b':' ∷ [])
    ∷ (AtRes.cssi, b'+' ∷ b'C' ∷ b'S' ∷ b'S' ∷ b'I' ∷ b':' ∷ [])
    ∷ (AtRes.cssu, b'+' ∷ b'C' ∷ b'S' ∷ b'S' ∷ b'U' ∷ b':' ∷ [])
    ∷ (AtRes.cusd, b'+' ∷ b'C' ∷ b'U' ∷ b'S' ∷ b'D' ∷ b':' ∷ [])
    ∷ (AtRes.error, b'E' ∷ b'R' ∷ b'R' ∷ b'O' ∷ b'R' ∷ 13 ∷ [])
    ∷ (AtRes.mode, b'^' ∷ b'M' ∷ b'O' ∷ b'D' ∷ b'E' ∷ b':' ∷ [])
    ∷ (
      AtRes.no_carrier,
      b'N' ∷ b'O' ∷ b' ' ∷ b'C' ∷ b'A' ∷ b'R' ∷ b'R' ∷ b'I' ∷ b'E' ∷ b'R' ∷ 13 ∷ [],
    )
    ∷ (
      AtRes.no_dialtone,
      b'N' ∷ b'O' ∷ b' ' ∷ b'D' ∷ b'I' ∷ b'A' ∷ b'L' ∷ b'T' ∷ b'O' ∷ b'N' ∷ b'E' ∷ 13 ∷ [],
    )
    ∷ (AtRes.ok, b'O' ∷ b'K' ∷ 13 ∷ [])
    ∷ (AtRes.orig, b'^' ∷ b'O' ∷ b'R' ∷ b'I' ∷ b'G' ∷ b':' ∷ [])
    ∷ (AtRes.ring, b'R' ∷ b'I' ∷ b'N' ∷ b'G' ∷ 13 ∷ [])
    ∷ (AtRes.rssi, b'^' ∷ b'R' ∷ b'S' ∷ b'S' ∷ b'I' ∷ b':' ∷ [])
    ∷ (
      AtRes.smmemfull,
      b'^' ∷ b'S' ∷ b'M' ∷ b'M' ∷ b'E' ∷ b'M' ∷ b'F' ∷ b'U' ∷ b'L' ∷ b'L' ∷ b':' ∷ [],
    )
    ∷ (AtRes.sms_prompt, b'>' ∷ b' ' ∷ [])
    ∷ (AtRes.srvst, b'^' ∷ b'S' ∷ b'R' ∷ b'V' ∷ b'S' ∷ b'T' ∷ b':' ∷ [])
    ∷ (AtRes.cvoice, b'^' ∷ b'C' ∷ b'V' ∷ b'O' ∷ b'I' ∷ b'C' ∷ b'E' ∷ b':' ∷ [])
    ∷ (AtRes.cmgs, b'+' ∷ b'C' ∷ b'M' ∷ b'G' ∷ b'S' ∷ b':' ∷ [])
    ∷ (AtRes.cmgs, b'+' ∷ b'C' ∷ b'P' ∷ b'M' ∷ b'S' ∷ b':' ∷ [])
    ∷ (AtRes.csca, b'+' ∷ b'C' ∷ b'S' ∷ b'C' ∷ b'A' ∷ b':' ∷ [])
    ∷ (AtRes.clcc, b'+' ∷ b'C' ∷ b'L' ∷ b'C' ∷ b'C' ∷ b':' ∷ [])
    ∷ (AtRes.ccwa, b'+' ∷ b'C' ∷ b'C' ∷ b'W' ∷ b'A' ∷ b':' ∷ [])
    ∷ (AtRes.cnum, b'E' ∷ b'R' ∷ b'R' ∷ b'O' ∷ b'R' ∷ b'+' ∷ b'C' ∷ b'N' ∷ b'U' ∷ b'M' ∷ b':' ∷ [])
    ∷ (
      AtRes.error,
      b'C' ∷ b'O' ∷ b'M' ∷ b'M' ∷ b'A' ∷ b'N' ∷ b'D' ∷ b' ' ∷ b'N' ∷ b'O' ∷ b'T' ∷ b' ' ∷ b'S'
          ∷ b'U' ∷ b'P' ∷ b'P' ∷ b'O' ∷ b'R' ∷ b'T' ∷ 13 ∷ [],
    )
    ∷ []

abbrev pub crlf : Bytes
crlf = 13 ∷ 10 ∷ []

abbrev pub line_feed : Bytes
line_feed = 10 ∷ []

abbrev pub text_cssi : Bytes
text_cssi = b'+' ∷ b'C' ∷ b'S' ∷ b'S' ∷ b'I' ∷ b':' ∷ []

abbrev pub text_cssu : Bytes
text_cssu = 13 ∷ 10 ∷ b'+' ∷ b'C' ∷ b'S' ∷ b'S' ∷ b'U' ∷ b':' ∷ []

abbrev pub text_cms_error : Bytes
text_cms_error =
    13 ∷ 10 ∷ b'+' ∷ b'C' ∷ b'M' ∷ b'S' ∷ b' ' ∷ b'E' ∷ b'R' ∷ b'R' ∷ b'O' ∷ b'R' ∷ b':' ∷ []

abbrev pub text_cmgs : Bytes
text_cmgs = 13 ∷ 10 ∷ b'+' ∷ b'C' ∷ b'M' ∷ b'G' ∷ b'S' ∷ b':' ∷ []

abbrev pub text_prompt : Bytes
text_prompt = b'>' ∷ b' ' ∷ []

abbrev pub text_cmgr : Bytes
text_cmgr = b'+' ∷ b'C' ∷ b'M' ∷ b'G' ∷ b'R' ∷ b':' ∷ []

abbrev pub text_cnum : Bytes
text_cnum = b'+' ∷ b'C' ∷ b'N' ∷ b'U' ∷ b'M' ∷ b':' ∷ []

abbrev pub text_error_cnum : Bytes
text_error_cnum = b'E' ∷ b'R' ∷ b'R' ∷ b'O' ∷ b'R' ∷ b'+' ∷ b'C' ∷ b'N' ∷ b'U' ∷ b'M' ∷ b':' ∷ []

abbrev pub text_clcc : Bytes
text_clcc = b'+' ∷ b'C' ∷ b'L' ∷ b'C' ∷ b'C' ∷ b':' ∷ []

-- `rb_memcmp (rb, text, length text) == 0`
abbrev is_same : Compare → Bool
is_same same = true
is_same differs = false
is_same short = false

abbrev pub starts : RingBuffer → Bytes → Bool
starts rb text = is_same (mem_compare rb text (length text))

-- `*read_result` is 0 or 1. One activation of `at_read_result_iov`: it returns, with `*read_result`, or calls itself.
pub data Round : Type 0 where
  returns : ℕ → Bool → RingBuffer → Iov → Round
  calls : Bool → RingBuffer → Iov → Round

-- What a line that does not start with "\r\n" or "\n" is long, up to its '\r'.
pub line_length : RingBuffer → ℕ × Iov → ℕ
line_length rb (count, iov) =
    if ltb 0 count then add_size (add_size iov.len0 iov.len1) 1 else rb.used

pub skip_line : RingBuffer → Iov → Round
skip_line rb iov =
    if starts rb line_feed
    then calls false (read_upd rb 1).1 iov
    else (let found = read_until_char_iov rb iov 13 in
        calls false (read_upd rb (line_length rb found)).1 found.1)

pub before_answer : RingBuffer → Iov → Compare → Round
before_answer rb iov same = calls true (read_upd rb 2).1 iov
before_answer rb iov differs = skip_line rb iov
before_answer rb iov short = returns 0 false rb iov

-- `*read_result` stays 1 where there are no vectors.
pub when_found : RingBuffer → ℕ × Iov → Round
when_found rb (zero, iov) = returns 0 true rb iov
when_found rb (suc n, iov) = returns (suc n) false rb iov

pub return_n : RingBuffer → ℕ × Iov → Round
return_n rb (count, iov) = returns count false rb iov

pub return_line : RingBuffer → ℕ × Iov → Round
return_line rb (zero, iov) = returns 0 true rb iov
return_line rb (suc n, iov) =
    return_n rb (read_n_iov rb iov (add_size (add_size iov.len0 iov.len1) 1))

pub in_answer : RingBuffer → Iov → Round
in_answer rb iov =
    if starts rb text_cssi
    then when_found rb (read_n_iov rb iov 8)
    else if starts rb text_cssu || starts rb text_cms_error || starts rb text_cmgs
    then calls true (read_upd rb 2).1 iov
    else if starts rb text_prompt
    then return_n rb (read_n_iov rb iov 2)
    else if starts rb text_cmgr
        || starts rb text_cnum
        || starts rb text_error_cnum
        || starts rb text_clcc
    then when_found rb (read_until_mem_iov rb iov (10 ∷ 13 ∷ 10 ∷ b'O' ∷ b'K' ∷ 13 ∷ 10 ∷ []) 7)
    else return_line rb (read_until_mem_iov rb iov crlf 2)

pub round : Bool → RingBuffer → Iov → Round
round read_result rb iov =
    if ltb 0 rb.used
    then (if read_result then in_answer rb iov else before_answer rb iov (mem_compare rb crlf 2))
    else returns 0 read_result rb iov

-- `at_read_result_iov`: the number of vectors, `*read_result`, the buffer and the vectors; `none`
-- means that the fuel ran out.
pub read_result_iov : ℕ → Bool → RingBuffer → Iov → Option (ℕ × Bool × RingBuffer × Iov)
read_result_iov zero read_result rb iov = none
read_result_iov (suc fuel) read_result rb iov = elim (round read_result rb iov) [
  | returns count result rb' iov' ↦ some (count, result, rb', iov')
  | calls result rb' iov' ↦ read_result_iov fuel result rb' iov'
]

-- `at_read_result_classification`: the first entry whose text the buffer starts with.
pub classify : RingBuffer → List (AtRes × Bytes) → AtRes
classify rb [] = AtRes.unknown
classify rb ((res, id) ∷ rest) = if starts rb id then res else classify rb rest

pub answer_length : AtRes → ℕ → ℕ
answer_length res len = elim res [
  | AtRes.sms_prompt ↦ 2
  | AtRes.cmgr ↦ add_size len 7
  | AtRes.cssi ↦ 8
  | _ ↦ add_size len 1
]

pub read_result_classification : RingBuffer → ℕ → AtRes × RingBuffer
read_result_classification rb len =
    let res = classify rb at_responses in (res, (read_upd rb (answer_length res len)).1)
