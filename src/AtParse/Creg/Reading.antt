-- ===== src/AtParse/Creg/Reading.antt =====
-- The loop of `at_parse_creg` on a field, from its first character to the comma behind it.
use datacard.Base.{
  ℕ, zero, suc, ◌≡◌, refl, ap, ap₂, sym, ◌∙◌, inl, inr, Bool, true, false, ◌&&◌, List, [], ◌∷◌,
  ◌++◌, map, Option, none, some, arith, leb, ◌==◌, if◌then◌else◌, Bool-cases, length, length-append,
  set, drop, append-nil, append_assoc, subst,
}
use datacard.Bytes.{Bytes}
use datacard.Scan.{split_at}
use datacard.AtParse.{c_string}
use datacard.AtParse.Marks.{IsText, c_string-append, set-append, drop-append}
use datacard.AtParse.Creg.{
  CregAt, starting, within, all_read, CregScan, creg_char, creg_loop, early,
}

abbrev pub trim : Bytes → Bytes
trim [] = []
trim (c ∷ cs) = if c == b' ' then trim cs else c ∷ cs

-- The fields of a text, at most `k + 1` of them: each without leading spaces, up to the next comma, the
-- last one up to the end of the text. Spaces alone are no field.
abbrev whole_field : Bytes → List Bytes
whole_field [] = []
whole_field (c ∷ cs) = (c ∷ cs) ∷ []

abbrev pub cut_field : (Bytes → List Bytes) → Bytes → Option (Bytes × Bytes) → List Bytes
cut_field rest s none = s ∷ []
cut_field rest s (some (f, r)) = f ∷ rest r

abbrev first_field : (Bytes → List Bytes) → Bytes → List Bytes
first_field rest [] = []
first_field rest (c ∷ cs) = cut_field rest (c ∷ cs) (split_at b',' (c ∷ cs))

abbrev pub creg_fields : ℕ → Bytes → List Bytes
creg_fields zero t = whole_field (trim t)
creg_fields (suc k) t = first_field (creg_fields k) (trim t)

abbrev pub no_field : List Bytes → Bool
no_field [] = true
no_field (f ∷ fs) = false

append_one : (pre cs : Bytes) (c : ℕ) → (pre ++ (c ∷ [])) ++ cs ≡ pre ++ (c ∷ cs)
append_one pre cs c = append_assoc pre (c ∷ []) cs

length_one : (pre : Bytes) (c : ℕ) → suc (length pre) ≡ length (pre ++ (c ∷ []))
length_one pre c = omega (arith, length-append pre (c ∷ []))

abbrev pub scan : CregAt → List ℕ → Bytes → CregScan
scan at_ marks text = record { at_ = at_; marks = marks; text = text }

-- The loop goes on from a longer part that is done.
pub loop_on :
    (at_ : CregAt) (marks : List ℕ) (pre cs : Bytes) (c : ℕ)
    → creg_loop cs (suc (length pre)) (scan at_ marks (pre ++ (c ∷ cs)))
      ≡ creg_loop cs (length (pre ++ (c ∷ []))) (scan at_ marks ((pre ++ (c ∷ [])) ++ cs))
loop_on at_ marks pre cs c =
    ap (λ i. creg_loop cs i (scan at_ marks (pre ++ (c ∷ cs)))) (length_one pre c)
    ∙ ap (λ t. creg_loop cs (length (pre ++ (c ∷ []))) (scan at_ marks t))
        (sym (append_one pre cs c))

set_here : (pre cs : Bytes) (c : ℕ) → set (pre ++ (c ∷ cs)) (length pre) 0 ≡ pre ++ (0 ∷ cs)
set_here pre cs c = set-append pre (c ∷ cs) (length pre) 0 0 (omega arith)

abbrev pub after_comma : ℕ → Bytes → List ℕ → Bytes → Option (Bytes × Bytes) → CregScan
after_comma k pre marks cs none = scan (within k) marks (pre ++ cs)
after_comma k pre marks cs (some (f, r)) =
    let pre' = pre ++ (f ++ (0 ∷ [])) in
    creg_loop r (length pre') (scan (starting k) marks (pre' ++ r))

abbrev pub longer : ℕ → Option (Bytes × Bytes) → Option (Bytes × Bytes)
longer c none = none
longer c (some (f, r)) = some (c ∷ f, r)

after_comma-longer :
    (k : ℕ) (pre : Bytes) (marks : List ℕ) (c : ℕ) (cs : Bytes) (o : Option (Bytes × Bytes))
    → after_comma k (pre ++ (c ∷ [])) marks cs o ≡ after_comma k pre marks (c ∷ cs) (longer c o)
after_comma-longer k pre marks c cs none = ap (scan (within k) marks) (append_one pre cs c)
after_comma-longer k pre marks c cs (some (f, r)) =
    ap (λ p. creg_loop r (length p) (scan (starting k) marks (p ++ r)))
      (append_one pre (f ++ (0 ∷ [])) c)

pub split_at-longer :
    (c : ℕ) (cs : Bytes)
    → (c == b',') ≡ false
    → split_at b',' (c ∷ cs) ≡ longer c (split_at b',' cs)
unfolding split_at
split_at-longer c cs h = rw h refl

-- Within a field the loop goes to the next comma.
pub within_loop :
    (k : ℕ) (cs pre : Bytes) (marks : List ℕ)
    → creg_loop cs (length pre) (scan (within k) marks (pre ++ cs))
      ≡ after_comma k pre marks cs (split_at b',' cs)
unfolding creg_loop creg_char split_at
within_loop k [] pre marks = refl
within_loop k (c ∷ cs) pre marks = elim (Bool-cases (c == b',')) [
  | inl e ↦ rw e (
      ap (λ t. creg_loop cs (suc (length pre)) (scan (starting k) marks t)) (set_here pre cs c)
      ∙ loop_on (starting k) marks pre cs 0)
  | inr e ↦ rw e (
      loop_on (within k) marks pre cs c
      ∙ within_loop k cs (pre ++ (c ∷ [])) marks
      ∙ after_comma-longer k pre marks c cs (split_at b',' cs))
]

-- The strings at some offsets of a text.
abbrev pub strings : Bytes → List ℕ → List Bytes
strings text ps = map (λ p. c_string (drop p text)) ps

-- What the loop makes of `cs` behind `pre`, from the state before a field that `k` may follow.
pub record Reads (k : ℕ) (pre : Bytes) (marks : List ℕ) (cs : Bytes) (m : CregScan) : Type 0 where
  pub left : Bytes
  pub new : List ℕ
  pub text_is : m.text ≡ pre ++ left
  pub marks_are : m.marks ≡ marks ++ new
  pub fields_are : strings (pre ++ left) new ≡ creg_fields k cs
  pub at_start : early m.at_ ≡ (leb 3 k && no_field (creg_fields k cs))

abbrev pub Reading : ℕ → Type 0
Reading k =
    (cs pre : Bytes) (marks : List ℕ)
    → IsText cs
    → Reads k pre marks cs (creg_loop cs (length pre) (scan (starting k) marks (pre ++ cs)))

-- A space before a field changes nothing.
pub Reads-space :
    {k : ℕ} {pre : Bytes} {marks : List ℕ} {c : ℕ} {cs : Bytes} {m : CregScan}
    → (c == b' ') ≡ true
    → creg_fields k (c ∷ cs) ≡ creg_fields k cs
    → Reads k (pre ++ (c ∷ [])) marks cs m
    → Reads k pre marks (c ∷ cs) m
Reads-space {k} {pre} {marks} {c} {cs} {m} h e r = record {
  left = c ∷ r.left;
  new = r.new;
  text_is = r.text_is ∙ append_one pre r.left c;
  marks_are = r.marks_are;
  fields_are = ap (λ t. strings t r.new) (sym (append_one pre r.left c)) ∙ r.fields_are ∙ sym e;
  at_start = r.at_start ∙ ap (λ fs. leb 3 k && no_field fs) (sym e);
}

pub creg_fields-space :
    (k c : ℕ) (cs : Bytes) → (c == b' ') ≡ true → creg_fields k (c ∷ cs) ≡ creg_fields k cs
creg_fields-space zero c cs h = rw h refl
creg_fields-space (suc k) c cs h = rw h refl

all_read_stays :
    (cs : Bytes) (i : ℕ) (marks : List ℕ) (text : Bytes)
    → creg_loop cs i (scan all_read marks text) ≡ scan all_read marks text
unfolding creg_loop creg_char
all_read_stays [] i marks text = refl
all_read_stays (c ∷ cs) i marks text = all_read_stays cs (suc i) marks text

-- The text at the end of what is done.
string_here : (pre s : Bytes) → c_string (drop (length pre) (pre ++ s)) ≡ c_string s
string_here pre s = ap c_string (drop-append pre s (length pre) 0 (omega arith))

c_string-text : (s : Bytes) → IsText s → c_string s ≡ s
c_string-text [] h = refl
c_string-text (zero ∷ s) h = absurd (omega (arith, h.0))
c_string-text (suc c ∷ s) h = ap (λ u. suc c ∷ u) (c_string-text s h.1)

pub Reading-zero : Reading 0
unfolding creg_loop creg_char
Reading-zero [] pre marks h = record {
  left = [];
  new = [];
  text_is = refl;
  marks_are = sym (append-nil marks);
  fields_are = refl;
  at_start = refl;
}
Reading-zero (c ∷ cs) pre marks h = elim (Bool-cases (c == b' ')) [
  | inl e ↦ rw e (
      Reads-space e (creg_fields-space 0 c cs e) (
        subst (Reads 0 (pre ++ (c ∷ [])) marks cs) (sym (loop_on (starting 0) marks pre cs c))
          (Reading-zero cs (pre ++ (c ∷ [])) marks h.1)))
  | inr e ↦ rw e (
      subst (Reads 0 pre marks (c ∷ cs))
        (sym (all_read_stays cs (suc (length pre)) (marks ++ (length pre ∷ [])) (pre ++ (c ∷ cs))))
        (record {
          left = c ∷ cs;
          new = length pre ∷ [];
          text_is = refl;
          marks_are = refl;
          fields_are =
              rw e (ap (λ s. s ∷ []) (string_here pre (c ∷ cs) ∙ c_string-text (c ∷ cs) h));
          at_start = refl;
        }))
]

and_false : (b : Bool) → (b && false) ≡ false
and_false true = refl
and_false false = refl

-- A field `f` that a comma ends, and what is read behind it.
pub Reads-field :
    {k : ℕ} {pre : Bytes} {marks : List ℕ} {cs f r : Bytes} {m : CregScan}
    → leb 3 k ≡ false
    → IsText f
    → creg_fields (suc k) cs ≡ f ∷ creg_fields k r
    → Reads k (pre ++ (f ++ (0 ∷ []))) (marks ++ (length pre ∷ [])) r m
    → Reads (suc k) pre marks cs m
Reads-field {k} {pre} {marks} {cs} {f} {r} {m} few h e v = record {
  left = f ++ (0 ∷ v.left);
  new = length pre ∷ v.new;
  text_is = v.text_is ∙ shape;
  marks_are = v.marks_are ∙ append_assoc marks (length pre ∷ []) v.new;
  fields_are =
      ap₂ (λ s ss. s ∷ ss) (string_here pre (f ++ (0 ∷ v.left)) ∙ c_string-append f v.left h)
        (ap (λ t. strings t v.new) (sym shape) ∙ v.fields_are)
      ∙ sym e;
  at_start =
      v.at_start
      ∙ ap (λ b. b && no_field (creg_fields k r)) few
      ∙ sym (and_false (leb 3 (suc k)))
      ∙ ap (λ fs. leb 3 (suc k) && no_field fs) (sym e);
}
  where
    shape : (pre ++ (f ++ (0 ∷ []))) ++ v.left ≡ pre ++ (f ++ (0 ∷ v.left))
    shape =
        append_assoc pre (f ++ (0 ∷ [])) v.left
        ∙ ap (λ s. pre ++ s) (append_assoc f (0 ∷ []) v.left)

-- A field up to the end of the text.
pub Reads-last :
    {k : ℕ} {pre : Bytes} {marks : List ℕ} {cs : Bytes}
    → IsText cs
    → creg_fields (suc k) cs ≡ cs ∷ []
    → Reads (suc k) pre marks cs (scan (within k) (marks ++ (length pre ∷ [])) (pre ++ cs))
Reads-last {k} {pre} {marks} {cs} h e = record {
  left = cs;
  new = length pre ∷ [];
  text_is = refl;
  marks_are = refl;
  fields_are = ap (λ s. s ∷ []) (string_here pre cs ∙ c_string-text cs h) ∙ sym e;
  at_start = sym (and_false (leb 3 (suc k))) ∙ ap (λ fs. leb 3 (suc k) && no_field fs) (sym e);
}
