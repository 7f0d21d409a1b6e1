-- ===== src/AtParse/Lines.antt =====
-- The answers +CNUM, +CSCA and +CLCC as the modem writes them, and what their parsers give.
use datacard.Base.{
  ℕ, suc, ◌+◌, ◌^◌, ◌≡◌, ◌<◌, refl, ap, ◌∙◌, true, false, List, [], ◌∷◌, ◌++◌, some, arith, ◌==◌,
  length, drop, All-map, All-append, append_assoc,
}
use datacard.Bytes.{Bytes}
use datacard.Scan.{is_digit, skip_spaces, scan_number, scan_u}
use datacard.Scan.Decimal.{
  AreDigits, Stops, print_decimal, print_decimal-AreDigits, scan_u-print_decimal,
}
use datacard.AtParse.{
  c_string, unquote, value_of, uint_at, cnum_marks, parse_cnum, csca_marks, parse_csca, Clcc,
  clcc_marks, parse_clcc,
}
use datacard.AtParse.Marks.{
  joined, Lacks, mark_line-all, joined-Behind, IsText, quoted, unquote-quoted, joined-Between,
  set-append, drop-append, c_string-append,
}

quoted-Lacks : (d : ℕ) (s : Bytes) → (b'"' == d) ≡ false → Lacks d s → Lacks d (quoted s)
quoted-Lacks d s e h = (e, All-append _ s (b'"' ∷ []) h (e, tt))

digits-Lacks : (s : Bytes) → AreDigits s → Lacks b',' s
digits-Lacks s h = All-map _ _ s digit_not_comma h
  where
    digit_not_comma : (c : ℕ) → is_digit c ≡ true → (c == b',') ≡ false
    digit_not_comma c h = ground arith

decimal-Lacks : (n : ℕ) → Lacks b',' (print_decimal n)
decimal-Lacks n = digits-Lacks (print_decimal n) (print_decimal-AreDigits n)

abbrev cnum_fields : Bytes → Bytes → Bytes → List (Bytes × ℕ)
cnum_fields front name number = (front, b':') ∷ (name, b',') ∷ (quoted number, b',') ∷ []

quoted_between :
    (d : ℕ) (number t : Bytes)
    → IsText number
    → unquote (d ∷ (quoted number ++ t)) 0 (suc (length (quoted number))) ≡ number
quoted_between d number t h =
    ap (λ u. unquote (d ∷ b'"' ∷ u) 0 (suc (length (quoted number))))
      (append_assoc number (b'"' ∷ []) t)
    ∙ unquote-quoted d number t h

-- The number in quotes behind the subscriber's name is the result of `at_parse_cnum`.
pub parse_cnum-quoted :
    (front name number rest : Bytes)
    → Lacks b':' front
    → Lacks b',' name
    → Lacks b',' number
    → IsText number
    → parse_cnum (front ++ (b':' ∷ (name ++ (b',' ∷ (quoted number ++ (b',' ∷ rest))))))
      ≡ some number
unfolding parse_cnum cnum_marks
parse_cnum-quoted front name number rest hf hn hm h =
    let ps = cnum_fields front name number in
    ap (cnum_marks (joined ps rest))
      (mark_line-all ps rest (hf, (hn, (quoted-Lacks b',' number refl hm, tt))))
    ∙ ap some ((joined-Between [] ps rest 0 refl).1.0 ∙ quoted_between b',' number (b',' ∷ rest) h)

abbrev csca_fields : Bytes → Bytes → List (Bytes × ℕ)
csca_fields front number = (front, b'"') ∷ (number, b'"') ∷ []

-- `at_parse_csca` gives the first text in quotes.
pub parse_csca-quoted :
    (front number rest : Bytes)
    → Lacks b'"' front
    → Lacks b'"' number
    → IsText number
    → parse_csca (front ++ (b'"' ∷ (number ++ (b'"' ∷ rest)))) ≡ some number
unfolding parse_csca csca_marks
parse_csca-quoted front number rest hf hm h =
    let str = front ++ (b'"' ∷ (number ++ (b'"' ∷ rest))) in
    let m1 = suc (0 + length front) + length number in
    ap (csca_marks str) (mark_line-all (csca_fields front number) rest (hf, (hm, tt)))
    ∙ ap (λ u. some (c_string (drop (suc (0 + length front)) u)))
        (set-append front (b'"' ∷ (number ++ (b'"' ∷ rest))) m1 (suc (length number)) 0
            (omega arith)
          ∙ ap (λ u. front ++ (b'"' ∷ u))
              (set-append number (b'"' ∷ rest) (length number) 0 0 (omega arith)))
    ∙ ap (λ u. some (c_string u))
        (drop-append front (b'"' ∷ (number ++ (0 ∷ rest))) (suc (0 + length front)) 1 (omega arith))
    ∙ ap some (c_string-append number rest h)

-- A line of +CLCC as the modem prints it.
abbrev pub clcc_name : Bytes
clcc_name = b'+' ∷ b'C' ∷ b'L' ∷ b'C' ∷ b'C' ∷ []

abbrev clcc_fields : Clcc → List (Bytes × ℕ)
clcc_fields c =
    (clcc_name, b':')
    ∷ (b' ' ∷ print_decimal c.call_idx, b',')
    ∷ (print_decimal c.dir, b',')
    ∷ (print_decimal c.state, b',')
    ∷ (print_decimal c.mode, b',')
    ∷ (print_decimal c.mpty, b',')
    ∷ (quoted c.number, b',')
    ∷ []

abbrev pub print_clcc : Clcc → Bytes → Bytes
print_clcc c rest = joined (clcc_fields c) (print_decimal c.toa ++ rest)

pub record ClccFits (c : Clcc) : Type 0 where
  pub call_idx : c.call_idx < 2 ^ 32
  pub dir : c.dir < 2 ^ 32
  pub state : c.state < 2 ^ 32
  pub mode : c.mode < 2 ^ 32
  pub mpty : c.mpty < 2 ^ 32
  pub toa : c.toa < 2 ^ 32
  pub number : IsText c.number
  pub plain : Lacks b',' c.number

uint_at-print_decimal :
    (str : Bytes) (m n : ℕ) (rest : Bytes)
    → n < 2 ^ 32
    → Stops rest
    → drop (suc m) str ≡ print_decimal n ++ rest
    → uint_at str m ≡ some n
uint_at-print_decimal str m n rest h s e =
    ap (λ t. value_of (scan_u t)) e ∙ ap value_of (scan_u-print_decimal n rest h s)

uint_at_space :
    (str : Bytes) (m n : ℕ) (rest : Bytes)
    → n < 2 ^ 32
    → Stops rest
    → drop (suc m) str ≡ b' ' ∷ (print_decimal n ++ rest)
    → uint_at str m ≡ some n
unfolding scan_u scan_number skip_spaces
uint_at_space str m n rest h s e =
    ap (λ t. value_of (scan_u t)) e ∙ ap value_of (scan_u-print_decimal n rest h s)

clcc_marks-some :
    (str : Bytes) (m0 m1 m2 m3 m4 m5 m6 : ℕ) (c : Clcc)
    → uint_at str m0 ≡ some c.call_idx
    → uint_at str m1 ≡ some c.dir
    → uint_at str m2 ≡ some c.state
    → uint_at str m3 ≡ some c.mode
    → uint_at str m4 ≡ some c.mpty
    → unquote str m5 m6 ≡ c.number
    → uint_at str m6 ≡ some c.toa
    → clcc_marks str (m0 ∷ m1 ∷ m2 ∷ m3 ∷ m4 ∷ m5 ∷ m6 ∷ []) ≡ some c
unfolding clcc_marks
clcc_marks-some str m0 m1 m2 m3 m4 m5 m6 c e0 e1 e2 e3 e4 e5 e6 =
    rw (e0, e1, e2, e3, e4, e5, e6) refl

-- A line of +CLCC is parsed to the values that it was printed from, whatever stands behind the
-- type of the number, if it is no digit.
pub parse_clcc-print_clcc :
    (c : Clcc) (rest : Bytes) → ClccFits c → Stops rest → parse_clcc (print_clcc c rest) ≡ some c
unfolding parse_clcc clcc_marks
parse_clcc-print_clcc c rest v s =
    let ps = clcc_fields c in
    let end_ = print_decimal c.toa ++ rest in
    let behind = joined-Behind [] ps end_ 0 refl in
    let str = joined ps end_ in
    let m1 = 6 + length (b' ' ∷ print_decimal c.call_idx) in
    let m2 = suc m1 + length (print_decimal c.dir) in
    let m3 = suc m2 + length (print_decimal c.state) in
    let m4 = suc m3 + length (print_decimal c.mode) in
    let m5 = suc m4 + length (print_decimal c.mpty) in
    let m6 = suc m5 + length (quoted c.number) in
    ap (clcc_marks (joined ps end_)) (
      mark_line-all ps end_ (
        (refl, (refl, (refl, (refl, (refl, tt))))),
        (
          (refl, decimal-Lacks c.call_idx),
          (
            decimal-Lacks c.dir,
            (
              decimal-Lacks c.state,
              (
                decimal-Lacks c.mode,
                (decimal-Lacks c.mpty, (quoted-Lacks b',' c.number refl v.plain, tt)),
              ),
            ),
          ),
        ),
      ))
    ∙ clcc_marks-some str 5 m1 m2 m3 m4 m5 m6 c
        (uint_at_space str 5 c.call_idx _ v.call_idx refl behind.0)
        (uint_at-print_decimal str m1 c.dir _ v.dir refl behind.1.0)
        (uint_at-print_decimal str m2 c.state _ v.state refl behind.1.1.0)
        (uint_at-print_decimal str m3 c.mode _ v.mode refl behind.1.1.1.0)
        (uint_at-print_decimal str m4 c.mpty _ v.mpty refl behind.1.1.1.1.0)
        ((joined-Between [] ps end_ 0 refl).1.1.1.1.1.0
          ∙ quoted_between b',' c.number (b',' ∷ end_) v.number)
        (uint_at-print_decimal str m6 c.toa rest v.toa s behind.1.1.1.1.1.1.0)
