-- ===== src/AtParse/Cmgr/Deliver.antt =====
-- A message in PDU mode, from the modem's answer to the text of the message.
use datacard.Base.{
  ℕ, suc, ◌+◌, ◌-◌, ◌*◌, ◌^◌, ◌≡◌, ◌<◌, ◌≤◌, refl, ap, ◌∙◌, true, false, List, [], ◌∷◌, ◌++◌, arith,
  lt→ltb, ◌==◌, length, All-map, All-append, append_assoc, sub_size,
}
use datacard.Bytes.{Bytes}
use datacard.Scan.{is_digit, strtol}
use datacard.Scan.Decimal.{print_decimal, print_decimal-AreDigits, strtol-print_decimal}
use datacard.Pdu.Parse.{message, parse}
use datacard.Pdu.Parse.RoundTrip.{Deliver, tpdu, pdu, parse-pdu}
use datacard.Pdu.Parse.RoundTrip
use datacard.AtParse.Marks.{joined, Lacks, mark_line-all, joined-Behind}
use datacard.AtParse.Cmgr.{
  cmgr_pdu, pdu_length, pdu_marks, parse_cmgr_pdu, skip_blanks, parse_cmgr_line, parse_cmgr,
}

abbrev status_fields : Bytes → Bytes → ℕ → List (Bytes × ℕ)
status_fields stat alpha n = (stat, b',') ∷ (alpha, b',') ∷ (print_decimal n ++ (13 ∷ []), 10) ∷ []

-- The answer to AT+CMGR in PDU mode: the status, the name, the length of the TPDU, and the PDU.
abbrev pub print_cmgr : Bytes → Bytes → ℕ → Bytes → Bytes
print_cmgr stat alpha n body = joined (status_fields stat alpha n) body

length_line_Lacks : (n : ℕ) → Lacks 10 (print_decimal n ++ (13 ∷ []))
length_line_Lacks n =
    All-append _ (print_decimal n) (13 ∷ [])
      (All-map _ _ (print_decimal n) digit_not_newline (print_decimal-AreDigits n)) (refl, tt)
  where
    digit_not_newline : (c : ℕ) → is_digit c ≡ true → (c == 10) ≡ false
    digit_not_newline c h = ground arith

not_zero : (n : ℕ) → 0 < n → (n == 0) ≡ false
not_zero n h = ground arith

parse_cmgr_pdu-print_cmgr :
    (stat alpha body : Bytes) (n oa_len : ℕ)
    → Lacks b',' stat
    → Lacks b',' alpha
    → 0 < n
    → n < 2 ^ 63
    → parse_cmgr_pdu (print_cmgr stat alpha n body) oa_len ≡ cmgr_pdu (parse body n oa_len)
unfolding parse_cmgr_pdu pdu_marks pdu_length
parse_cmgr_pdu-print_cmgr stat alpha body n oa_len hs ha p h =
    let ps = status_fields stat alpha n in
    let str = joined ps body in
    let behind = joined-Behind [] ps body 0 refl in
    let m2 = suc (suc (0 + length stat) + length alpha) + length (print_decimal n ++ (13 ∷ [])) in
    ap (pdu_marks str oa_len) (mark_line-all ps body (hs, (ha, (length_line_Lacks n, tt))))
    ∙ ap (pdu_length str m2 oa_len) (
        ap strtol (behind.1.0 ∙ append_assoc (print_decimal n) (13 ∷ []) (10 ∷ body))
        ∙ strtol-print_decimal n (13 ∷ 10 ∷ body) h refl)
    ∙ rw (not_zero n p) (ap (λ t. cmgr_pdu (parse t n oa_len)) behind.1.1.0)

-- The text starts with neither a space nor a quote, as a status that is a number does.
abbrev pub StartsPlain : Bytes → Type 0
StartsPlain [] = Unit
StartsPlain (c ∷ cs) = ((c == b' ') ≡ false) × ((c == b'"') ≡ false)

abbrev pub cmgr_name : Bytes
cmgr_name = b'+' ∷ b'C' ∷ b'M' ∷ b'G' ∷ b'R' ∷ b':' ∷ []

skip_blanks_plain :
    (s : Bytes) (c len : ℕ)
    → (c == b' ') ≡ false
    → 1 < len
    → skip_blanks (b' ' ∷ c ∷ s) len ≡ (c ∷ s, len - 1)
unfolding skip_blanks
skip_blanks_plain s c len h l = ground arith

pdu_line :
    (s : Bytes) (c len oa_len : ℕ)
    → (c == b' ') ≡ false
    → (c == b'"') ≡ false
    → 1 < len
    → parse_cmgr_line oa_len (skip_blanks (b' ' ∷ c ∷ s) len) ≡ parse_cmgr_pdu (c ∷ s) oa_len
unfolding parse_cmgr_line
pdu_line s c len oa_len h q l =
    ap (parse_cmgr_line oa_len) (skip_blanks_plain s c len h l)
    ∙ rw (lt→ltb 0 (len - 1) (omega arith), q) refl

print_cmgr_line :
    (stat alpha body : Bytes) (n len oa_len : ℕ)
    → StartsPlain stat
    → 1 < len
    → parse_cmgr_line oa_len (skip_blanks (b' ' ∷ print_cmgr stat alpha n body) len)
      ≡ parse_cmgr_pdu (print_cmgr stat alpha n body) oa_len
print_cmgr_line [] alpha body n len oa_len st l = pdu_line _ b',' len oa_len refl refl l
print_cmgr_line (c ∷ stat) alpha body n len oa_len st l = pdu_line _ c len oa_len st.0 st.1 l

tpdu_some : (m : Deliver) → 0 < length (tpdu m)
tpdu_some m = omega arith

-- A stored message, valid as for `pdu_parse`, that the modem gives in PDU mode: the number and the text
-- that `at_parse_cmgr` returns are those of the message.
pub parse_cmgr-pdu :
    (m : Deliver) (stat alpha : Bytes) (n oa_len len : ℕ)
    → RoundTrip.IsValid m
    → length m.number < oa_len
    → n * 2 ≡ length (tpdu m)
    → n < 2 ^ 32
    → Lacks b',' stat
    → StartsPlain stat
    → Lacks b',' alpha
    → 8 ≤ len
    → len < 2 ^ 64
    → parse_cmgr (cmgr_name ++ (b' ' ∷ print_cmgr stat alpha n (pdu m))) len oa_len
      ≡ cmgr_pdu (message (b'+' ∷ (m.number ++ (0 ∷ []))) m.encoding m.text)
unfolding parse_cmgr
parse_cmgr-pdu m stat alpha n oa_len len v h e r hs st ha small big =
    print_cmgr_line stat alpha (pdu m) n (sub_size len 6) oa_len st (omega arith)
    ∙ parse_cmgr_pdu-print_cmgr stat alpha (pdu m) n oa_len hs ha (omega (arith, tpdu_some m, e))
        (omega arith)
    ∙ ap cmgr_pdu (parse-pdu m n oa_len v h r e)
