-- ===== src/AtParse/Marks.antt =====
-- What `mark_line` finds in a text that is put together from fields and delimiters, and the fields
-- between the marks.
use datacard.Base.{
  ℕ, zero, suc, ◌+◌, ◌-◌, ◌≡◌, ◌<◌, refl, ap, sym, ◌∙◌, true, false, List, [], ◌∷◌, ◌++◌, arith,
  ◌==◌, if◌then◌else◌, length, length-append, set, drop, get_or-append_right, All, append-nil,
  append_assoc, subst,
}
use datacard.Bytes.{Bytes, byte_at}
use datacard.AtParse.{mark_line, c_string, unquote, past_quote, before_quote}

-- Fields, each with the delimiter behind it, and a rest.
abbrev pub joined : List (Bytes × ℕ) → Bytes → Bytes
joined [] rest = rest
joined ((p, d) ∷ ps) rest = p ++ (d ∷ joined ps rest)

abbrev pub delimiters : List (Bytes × ℕ) → Bytes
delimiters [] = []
delimiters ((p, d) ∷ ps) = d ∷ delimiters ps

-- The offsets of the delimiters.
abbrev pub positions : ℕ → List (Bytes × ℕ) → List ℕ
positions i [] = []
positions i ((p, d) ∷ ps) = (i + length p) ∷ positions (suc (i + length p)) ps

abbrev pub end_of : ℕ → List (Bytes × ℕ) → ℕ
end_of i [] = i
end_of i ((p, d) ∷ ps) = end_of (suc (i + length p)) ps

-- A character does not occur in a text.
abbrev pub Lacks : ℕ → Bytes → Type 0
Lacks d = All (λ c. (c == d) ≡ false)

-- No field has the delimiter that ends it.
abbrev pub Separated : List (Bytes × ℕ) → Type 0
Separated [] = Unit
Separated ((p, d) ∷ ps) = Lacks d p × Separated ps

==_self : (d : ℕ) → (d == d) ≡ true
==_self d = ground arith

mark_line-Lacks :
    (p : Bytes) (d : ℕ) (t ds : Bytes) (i : ℕ)
    → Lacks d p
    → mark_line (p ++ (d ∷ t)) (d ∷ ds) i ≡ (i + length p) ∷ mark_line t ds (suc (i + length p))
unfolding mark_line
mark_line-Lacks [] d t ds i h = rw (==_self d) (ap (λ k. k ∷ mark_line t ds (suc k)) (omega arith))
mark_line-Lacks (c ∷ p) d t ds i h =
    rw h.0
      (mark_line-Lacks p d t ds (suc i) h.1 ∙ ap (λ k. k ∷ mark_line t ds (suc k)) (omega arith))

-- The delimiters between the fields are found where they stand, and the search goes on behind them.
pub mark_line-joined :
    (ps : List (Bytes × ℕ)) (rest ds : Bytes) (i : ℕ)
    → Separated ps
    → mark_line (joined ps rest) (delimiters ps ++ ds) i
      ≡ positions i ps ++ mark_line rest ds (end_of i ps)
mark_line-joined [] rest ds i h = refl
mark_line-joined ((p, d) ∷ ps) rest ds i h =
    mark_line-Lacks p d (joined ps rest) (delimiters ps ++ ds) i h.0
    ∙ ap (λ ms. (i + length p) ∷ ms) (mark_line-joined ps rest ds (suc (i + length p)) h.1)

mark_line-nil : (t : Bytes) (i : ℕ) → mark_line t [] i ≡ []
unfolding mark_line
mark_line-nil [] i = refl
mark_line-nil (c ∷ t) i = refl

pub mark_line-all :
    (ps : List (Bytes × ℕ)) (rest : Bytes)
    → Separated ps
    → mark_line (joined ps rest) (delimiters ps) 0 ≡ positions 0 ps
mark_line-all ps rest h =
    ap (λ ds. mark_line (joined ps rest) ds 0) (sym (append-nil (delimiters ps)))
    ∙ mark_line-joined ps rest [] 0 h
    ∙ ap (λ ms. positions 0 ps ++ ms) (mark_line-nil rest (end_of 0 ps))
    ∙ append-nil (positions 0 ps)

-- What stands behind each mark.
abbrev pub Behind : Bytes → List ℕ → List (Bytes × ℕ) → Bytes → Type 0
Behind str [] ps rest = Unit
Behind str (m ∷ ms) [] rest = Unit
Behind str (m ∷ ms) ((p, d) ∷ ps) rest = (drop (suc m) str ≡ joined ps rest) × Behind str ms ps rest

drop_past : (s : Bytes) (d : ℕ) (t : Bytes) (k : ℕ) → k ≡ length s → drop (suc k) (s ++ (d ∷ t)) ≡ t
drop_past [] d t zero e = refl
drop_past [] d t (suc k) e = absurd (omega arith)
drop_past (c ∷ s) d t zero e = absurd (omega arith)
drop_past (c ∷ s) d t (suc k) e = drop_past s d t k (omega arith)

-- A text with one more field before the rest.
append_field :
    (base p : Bytes) (d : ℕ) (t : Bytes) → (base ++ (p ++ (d ∷ []))) ++ t ≡ base ++ (p ++ (d ∷ t))
append_field [] [] d t = refl
append_field [] (c ∷ p) d t = ap (λ s. c ∷ s) (append_field [] p d t)
append_field (c ∷ base) p d t = ap (λ s. c ∷ s) (append_field base p d t)

length-append_field :
    (base p : Bytes) (d i : ℕ)
    → length base ≡ i
    → length (base ++ (p ++ (d ∷ []))) ≡ suc (i + length p)
length-append_field base p d i e =
    omega (arith, length-append base (p ++ (d ∷ [])), length-append p (d ∷ []))

pub joined-Behind :
    (base : Bytes) (ps : List (Bytes × ℕ)) (rest : Bytes) (i : ℕ)
    → length base ≡ i
    → Behind (base ++ joined ps rest) (positions i ps) ps rest
joined-Behind base [] rest i e = tt
joined-Behind base ((p, d) ∷ ps) rest i e = (
  ap (drop (suc (i + length p))) (sym (append_assoc base p (d ∷ joined ps rest)))
      ∙ drop_past (base ++ p) d (joined ps rest) (i + length p)
          (omega (arith, length-append base p)),
  subst (λ s. Behind s (positions (suc (i + length p)) ps) ps rest)
      (append_field base p d (joined ps rest))
      (joined-Behind (base ++ (p ++ (d ∷ []))) ps rest (suc (i + length p))
        (length-append_field base p d i e)),
)

-- The field between two marks, as `unquote` reads it.
byte_at-append : (s t : Bytes) (i j : ℕ) → i ≡ length s + j → byte_at (s ++ t) i ≡ byte_at t j
byte_at-append s t i j e = get_or-append_right s t i j 0 e

pub set-append : (s t : Bytes) (i j v : ℕ) → i ≡ length s + j → set (s ++ t) i v ≡ s ++ set t j v
set-append [] t i j v e = ap (λ k. set t k v) (omega arith)
set-append (c ∷ s) t zero j v e = absurd (omega arith)
set-append (c ∷ s) t (suc i) j v e = ap (λ u. c ∷ u) (set-append s t i j v (omega arith))

pub drop-append : (s t : Bytes) (i j : ℕ) → i ≡ length s + j → drop i (s ++ t) ≡ drop j t
drop-append [] t i j e = ap (λ k. drop k t) (omega arith)
drop-append (c ∷ s) t zero j e = absurd (omega arith)
drop-append (c ∷ s) t (suc i) j e = drop-append s t i j (omega arith)

past_quote_shift : (c n a a' : ℕ) → a ≡ n + a' → past_quote c a ≡ n + past_quote c a'
past_quote_shift c n a a' e = ground arith

before_quote_shift :
    (c n b b' : ℕ) → b ≡ n + suc b' → before_quote c b ≡ n + before_quote c (suc b')
before_quote_shift c n b b' e = ground arith

-- `unquote` by the characters behind the first mark and before the second.
unquote_by :
    (str : Bytes) (a b x y : ℕ)
    → byte_at str (suc a) ≡ x
    → byte_at str (b - 1) ≡ y
    → unquote str a b ≡ c_string (drop (past_quote x a) (set str (before_quote y b) 0))
unfolding unquote
unquote_by str a b x y ex ey =
    ap (λ k. c_string (drop (past_quote k a) (set str (before_quote (byte_at str (b - 1)) b) 0))) ex
    ∙ ap (λ k. c_string (drop (past_quote x a) (set str (before_quote k b) 0))) ey

-- A field does not depend on what stands before it.
pub unquote-append :
    (s t : Bytes) (a b a' b' : ℕ)
    → a ≡ length s + a'
    → b ≡ length s + suc b'
    → unquote (s ++ t) a b ≡ unquote t a' (suc b')
unquote-append s t a b a' b' ea eb =
    let x = byte_at t (suc a') in
    let y = byte_at t b' in
    unquote_by (s ++ t) a b x y (byte_at-append s t (suc a) (suc a') (omega arith))
      (byte_at-append s t (b - 1) b' (omega arith))
    ∙ ap (λ u. c_string (drop (past_quote x a) u))
        (set-append s t (before_quote y b) (before_quote y (suc b')) 0
          (before_quote_shift y (length s) b b' eb))
    ∙ ap c_string (
        drop-append s (set t (before_quote y (suc b')) 0) (past_quote x a) (past_quote x a')
          (past_quote_shift x (length s) a a' ea))
    ∙ sym (unquote_by t a' (suc b') x y refl (ap (byte_at t) (omega arith)))

-- A text has no final 0 within it.
abbrev pub IsText : Bytes → Type 0
IsText = All (λ c. 0 < c)

pub c_string-append : (s t : Bytes) → IsText s → c_string (s ++ (0 ∷ t)) ≡ s
c_string-append [] t h = refl
c_string-append (zero ∷ s) t h = absurd (omega (arith, h.0))
c_string-append (suc c ∷ s) t h = ap (λ u. suc c ∷ u) (c_string-append s t h.1)

abbrev pub quoted : Bytes → Bytes
quoted s = b'"' ∷ (s ++ (b'"' ∷ []))

-- A text in quotes between two delimiters is read without them.
pub unquote-quoted :
    (d : ℕ) (s t : Bytes)
    → IsText s
    → unquote (d ∷ b'"' ∷ (s ++ (b'"' ∷ t))) 0 (suc (length (quoted s))) ≡ s
unquote-quoted d s t h =
    let str = d ∷ b'"' ∷ (s ++ (b'"' ∷ t)) in
    let len = length-append s (b'"' ∷ []) in
    unquote_by str 0 (suc (length (quoted s))) b'"' b'"' refl
      (byte_at-append (d ∷ b'"' ∷ s) (b'"' ∷ t) _ 0 (omega arith))
    ∙ ap (λ u. c_string (drop 2 u)) (set-append (d ∷ b'"' ∷ s) (b'"' ∷ t) _ 0 0 (omega arith))
    ∙ c_string-append s t h

first_unquoted :
    (s t : Bytes) (e : ℕ)
    → (e == b'"') ≡ false
    → Lacks b'"' s
    → (byte_at (s ++ (e ∷ t)) 0 == b'"') ≡ false
first_unquoted [] t e he hs = he
first_unquoted (c ∷ s) t e he hs = hs.0

last_unquoted :
    (d : ℕ) (s t : Bytes)
    → (d == b'"') ≡ false
    → Lacks b'"' s
    → (byte_at (d ∷ (s ++ t)) (length s) == b'"') ≡ false
last_unquoted d [] t hd hs = hd
last_unquoted d (c ∷ s) t hd hs = last_unquoted c s t hs.0 hs.1

-- A text without quotes is read as it is.
pub unquote-plain :
    (d : ℕ) (s t : Bytes) (e : ℕ)
    → (d == b'"') ≡ false
    → (e == b'"') ≡ false
    → Lacks b'"' s
    → IsText s
    → unquote (d ∷ (s ++ (e ∷ t))) 0 (suc (length s)) ≡ s
unquote-plain d s t e hd he hs h =
    let str = d ∷ (s ++ (e ∷ t)) in
    let x = byte_at str 1 in
    let y = byte_at str (length s) in
    unquote_by str 0 (suc (length s)) x y refl (ap (byte_at str) (omega arith))
    ∙ ap (λ n. c_string (drop n (set str (before_quote y (suc (length s))) 0)))
        (ap (λ b. if b then 2 else 1) (first_unquoted s t e he hs))
    ∙ ap (λ n. c_string (drop 1 (set str n 0)))
        (ap (λ b. if b then suc (length s) - 1 else suc (length s))
          (last_unquoted d s (e ∷ t) hd hs))
    ∙ ap c_string (set-append s (e ∷ t) (length s) 0 0 (omega arith))
    ∙ c_string-append s t h

-- The fields between neighbouring marks.
abbrev pub Between : Bytes → List ℕ → List (Bytes × ℕ) → Bytes → Type 0
Between str (m ∷ m' ∷ ms) ((p, d) ∷ (q, e) ∷ ps) rest =
    (unquote str m m' ≡ unquote (d ∷ (q ++ (e ∷ joined ps rest))) 0 (suc (length q)))
    × Between str (m' ∷ ms) ((q, e) ∷ ps) rest
Between str _ _ rest = Unit

pub joined-Between :
    (base : Bytes) (ps : List (Bytes × ℕ)) (rest : Bytes) (i : ℕ)
    → length base ≡ i
    → Between (base ++ joined ps rest) (positions i ps) ps rest
joined-Between base [] rest i e = tt
joined-Between base ((p, d) ∷ []) rest i e = tt
joined-Between base ((p, d) ∷ (q, e) ∷ ps) rest i l = (
  ap (λ s. unquote s (i + length p) (suc (i + length p) + length q))
        (sym (append_assoc base p (d ∷ (q ++ (e ∷ joined ps rest)))))
      ∙ unquote-append (base ++ p) (d ∷ (q ++ (e ∷ joined ps rest))) (i + length p)
          (suc (i + length p) + length q) 0 (length q) (omega (arith, length-append base p))
          (omega (arith, length-append base p)),
  subst (λ s. Between s (positions (suc (i + length p)) ((q, e) ∷ ps)) ((q, e) ∷ ps) rest)
      (append_field base p d (q ++ (e ∷ joined ps rest)))
      (joined-Between (base ++ (p ++ (d ∷ []))) ((q, e) ∷ ps) rest (suc (i + length p))
        (length-append_field base p d i l)),
)
