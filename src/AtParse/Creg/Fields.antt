-- ===== src/AtParse/Creg/Fields.antt =====
-- The loop of `at_parse_creg` splits the answer at commas.
use datacard.Base.{
  ℕ, suc, ◌≡◌, ◌<◌, refl, ap, ap₂, sym, ◌∙◌, inl, inr, Bool, false, List, [], ◌∷◌, ◌++◌, Option,
  none, some, arith, leb, ◌==◌, Bool-cases, length, take-length, append-nil, subst,
}
use datacard.Bytes.{Bytes}
use datacard.Scan.{split_at}
use datacard.AtParse.Marks.{IsText}
use datacard.AtParse.Creg.{
  before_colon, starting, within, CregScan, creg_char, creg_loop, early, Creg, creg_result,
  creg_status, parse_creg,
}
use datacard.AtParse.Creg.Reading.{
  cut_field, creg_fields, no_field, scan, loop_on, after_comma, longer, split_at-longer,
  within_loop, strings, Reads, Reading, Reads-space, creg_fields-space, Reading-zero, Reads-field,
  Reads-last,
}

abbrev PartsAreText : Option (Bytes × Bytes) → Type 0
PartsAreText none = Unit
PartsAreText (some (f, r)) = IsText f × IsText r

longer-PartsAreText :
    (c : ℕ) (o : Option (Bytes × Bytes)) → 0 < c → PartsAreText o → PartsAreText (longer c o)
longer-PartsAreText c none p h = tt
longer-PartsAreText c (some (f, r)) p h = ((p, h.0), h.1)

split_at-PartsAreText : (cs : Bytes) → IsText cs → PartsAreText (split_at b',' cs)
unfolding split_at
split_at-PartsAreText [] h = tt
split_at-PartsAreText (c ∷ cs) h = elim (Bool-cases (c == b',')) [
  | inl e ↦ rw e (tt, h.1)
  | inr e ↦
      subst PartsAreText (sym (split_at-longer c cs e))
        (longer-PartsAreText c (split_at b',' cs) h.0 (split_at-PartsAreText cs h.1))
]

-- The first field, by what the next comma leaves.
Reads-within :
    {k : ℕ} (pre : Bytes) (marks : List ℕ) (c : ℕ) (cs : Bytes) (o : Option (Bytes × Bytes))
    → leb 3 k ≡ false
    → Reading k
    → IsText (c ∷ cs)
    → split_at b',' (c ∷ cs) ≡ o
    → creg_fields (suc k) (c ∷ cs) ≡ cut_field (creg_fields k) (c ∷ cs) o
    → Reads (suc k) pre marks (c ∷ cs) (after_comma k pre (marks ++ (length pre ∷ [])) (c ∷ cs) o)
Reads-within pre marks c cs none few rec h s e = Reads-last h e
Reads-within pre marks c cs (some (f, r)) few rec h s e =
    let (hf, hr) = subst PartsAreText s (split_at-PartsAreText (c ∷ cs) h) in
    Reads-field few hf e (rec r (pre ++ (f ++ (0 ∷ []))) (marks ++ (length pre ∷ [])) hr)

-- A field starts as it goes on.
start_within :
    (k c i : ℕ) (cs : Bytes) (marks : List ℕ) (text : Bytes)
    → (c == b' ') ≡ false
    → creg_char (starting (suc k)) i c (scan (starting (suc k)) marks text)
      ≡ creg_char (within k) i c (scan (within k) (marks ++ (i ∷ [])) text)
unfolding creg_char
start_within k c i cs marks text h = elim (Bool-cases (c == b',')) [
  | inl e ↦ rw (h, e) refl
  | inr e ↦ rw (h, e) refl
]

Reading-suc : (k : ℕ) → leb 3 k ≡ false → Reading k → Reading (suc k)
unfolding creg_loop creg_char
Reading-suc k few rec [] pre marks h = record {
  left = [];
  new = [];
  text_is = refl;
  marks_are = sym (append-nil marks);
  fields_are = refl;
  at_start = ground arith;
}
Reading-suc k few rec (c ∷ cs) pre marks h = elim (Bool-cases (c == b' ')) [
  | inl e ↦ rw e (
      Reads-space e (creg_fields-space (suc k) c cs e) (
        subst (Reads (suc k) (pre ++ (c ∷ [])) marks cs)
          (sym (loop_on (starting (suc k)) marks pre cs c))
          (Reading-suc k few rec cs (pre ++ (c ∷ [])) marks h.1)))
  | inr e ↦
      subst (Reads (suc k) pre marks (c ∷ cs))
        (sym (
          ap (creg_loop cs (suc (length pre)))
            (start_within k c (length pre) cs marks (pre ++ (c ∷ cs)) e)
          ∙ within_loop k (c ∷ cs) pre (marks ++ (length pre ∷ []))))
        (Reads-within pre marks c cs (split_at b',' (c ∷ cs)) few rec h refl (rw e refl))
]

-- The text behind the first colon.
abbrev pub behind_colon : Option (Bytes × Bytes) → List Bytes
behind_colon none = []
behind_colon (some (f, r)) = creg_fields 3 r

-- What the fields mean: of two, or of four, the first is the mode of the report and the second the
-- status; the last two of three or four are the area and the cell.
abbrev pub creg_of_fields : Bool → List Bytes → Option Creg
creg_of_fields einval [] = none
creg_of_fields einval (p1 ∷ []) = creg_status einval (some p1) (none, none)
creg_of_fields einval (p1 ∷ p2 ∷ []) = creg_status einval (some p2) (none, none)
creg_of_fields einval (p1 ∷ p2 ∷ p3 ∷ []) = creg_status einval (some p1) (some p2, some p3)
creg_of_fields einval (p1 ∷ p2 ∷ p3 ∷ p4 ∷ ps) = creg_status einval (some p2) (some p3, some p4)

creg_result-fields :
    (einval : Bool) (fs : List Bytes)
    → creg_result einval (no_field fs) fs ≡ creg_of_fields einval fs
unfolding creg_result
creg_result-fields einval [] = refl
creg_result-fields einval (p1 ∷ []) = refl
creg_result-fields einval (p1 ∷ p2 ∷ []) = refl
creg_result-fields einval (p1 ∷ p2 ∷ p3 ∷ []) = refl
creg_result-fields einval (p1 ∷ p2 ∷ p3 ∷ p4 ∷ ps) = refl

Reading-three : Reading 3
Reading-three = Reading-suc 2 refl (Reading-suc 1 refl (Reading-suc 0 refl Reading-zero))

finish : Bool → CregScan → Option Creg
finish einval m = creg_result einval (early m.at_) (strings m.text m.marks)

finish-Reads :
    (einval : Bool) (pre cs : Bytes) (m : CregScan)
    → Reads 3 pre [] cs m
    → finish einval m ≡ creg_of_fields einval (creg_fields 3 cs)
unfolding finish
finish-Reads einval pre cs m r =
    ap₂ (creg_result einval) r.at_start (ap₂ strings r.text_is r.marks_are ∙ r.fields_are)
    ∙ creg_result-fields einval (creg_fields 3 cs)

behind_colon-longer :
    (c : ℕ) (o : Option (Bytes × Bytes)) → behind_colon (longer c o) ≡ behind_colon o
behind_colon-longer c none = refl
behind_colon-longer c (some (f, r)) = refl

colon_missing :
    (einval : Bool) (pre : Bytes) → finish einval (scan before_colon [] (pre ++ [])) ≡ none
unfolding finish creg_result
colon_missing einval pre = refl

-- Before the colon nothing is kept.
colon_loop :
    (einval : Bool) (cs pre : Bytes)
    → IsText cs
    → finish einval (creg_loop cs (length pre) (scan before_colon [] (pre ++ cs)))
      ≡ creg_of_fields einval (behind_colon (split_at b':' cs))
unfolding creg_loop creg_char split_at
colon_loop einval [] pre h = colon_missing einval pre
colon_loop einval (c ∷ cs) pre h = elim (Bool-cases (c == b':')) [
  | inl e ↦ rw e (
      ap (finish einval) (loop_on (starting 3) [] pre cs c)
      ∙ finish-Reads einval (pre ++ (c ∷ [])) cs _ (Reading-three cs (pre ++ (c ∷ [])) [] h.1))
  | inr e ↦ rw e (
      ap (finish einval) (loop_on before_colon [] pre cs c)
      ∙ colon_loop einval cs (pre ++ (c ∷ [])) h.1
      ∙ ap (creg_of_fields einval) (sym (behind_colon-longer c (split_at b':' cs))))
]

-- The state machine of `at_parse_creg`, run over the whole answer, gives what the fields mean that
-- commas separate behind the first colon, the last of four going to the end of the answer; leading
-- spaces of a field are no part of it. Without a field the result is -1.
pub parse_creg-fields :
    (einval : Bool) (str : Bytes)
    → IsText str
    → parse_creg einval str (length str) ≡ creg_of_fields einval (behind_colon (split_at b':' str))
unfolding parse_creg finish
parse_creg-fields einval str h =
    ap (λ cs. finish einval (creg_loop cs 0 (scan before_colon [] str))) (take-length str)
    ∙ colon_loop einval str [] h
