-- ===== src/AtParse/Tests.antt =====
-- Answers of the modem.
use datacard.Base.{◌≡◌, refl, true, [], ◌∷◌, ◌++◌, some, length, arith}
use datacard.Bytes.{Bytes}
use datacard.CharConv.{StrEncoding}
use datacard.Pdu.Parse.{message}
use datacard.Pdu.Parse.RoundTrip.{pdu}
use datacard.Pdu.Tests.{hi, number, hi-IsValid, tpdu_octets}
use datacard.Scan.{split_at}
use datacard.AtParse.{Clcc, parse_clcc}
use datacard.AtParse.Marks.{IsText}
use datacard.AtParse.Lines.{print_clcc, ClccFits, parse_clcc-print_clcc}
use datacard.AtParse.Creg.{parse_creg}
use datacard.AtParse.Creg.Fields.{creg_of_fields, behind_colon, parse_creg-fields}
use datacard.AtParse.Cmgr.{parse_cmgr, cmgr_pdu}
use datacard.AtParse.Cmgr.Deliver.{cmgr_name, print_cmgr, parse_cmgr-pdu}

abbrev call : Clcc
call = record {
  call_idx = 1;
  dir = 0;
  state = 2;
  mode = 0;
  mpty = 0;
  number = b'1' ∷ b'1' ∷ b'2' ∷ [];
  toa = 129;
}

call-Fits : ClccFits call
call-Fits = record {
  call_idx = omega arith;
  dir = omega arith;
  state = omega arith;
  mode = omega arith;
  mpty = omega arith;
  toa = omega arith;
  number = (omega arith, (omega arith, (omega arith, tt)));
  plain = (refl, (refl, (refl, tt)));
}

parse_clcc-print_clcc_example : parse_clcc (print_clcc call (13 ∷ [])) ≡ some call
parse_clcc-print_clcc_example = parse_clcc-print_clcc call (13 ∷ []) call-Fits refl

abbrev registered : Bytes
registered = b'+' ∷ b'C' ∷ b'R' ∷ b'E' ∷ b'G' ∷ b':' ∷ b' ' ∷ b'2' ∷ b',' ∷ b'1' ∷ []

registered-IsText : IsText registered
registered-IsText = (
  omega arith,
  (
    omega arith,
    (
      omega arith,
      (
        omega arith,
        (
          omega arith,
          (omega arith, (omega arith, (omega arith, (omega arith, (omega arith, tt))))),
        ),
      ),
    ),
  ),
)

parse_creg-fields_example :
    parse_creg true registered (length registered)
    ≡ creg_of_fields true (behind_colon (split_at b':' registered))
parse_creg-fields_example = parse_creg-fields true registered registered-IsText

parse_cmgr-pdu_example :
    parse_cmgr (cmgr_name ++ (b' ' ∷ print_cmgr (b'1' ∷ []) [] 18 (pdu hi))) 80 64
    ≡ cmgr_pdu (message (b'+' ∷ (number ++ (0 ∷ []))) StrEncoding.bit8_hex hi.text)
parse_cmgr-pdu_example =
    parse_cmgr-pdu hi (b'1' ∷ []) [] 18 64 80 hi-IsValid (omega arith) tpdu_octets (omega arith)
      (refl, tt) (refl, refl) tt (omega arith) (omega arith)
