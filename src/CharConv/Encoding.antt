-- ===== src/CharConv/Encoding.antt =====
-- What `get_encoding` tells of a text.
use datacard.Base.{
  ℕ, ◌<◌, ◌≡◌, ◌⊎◌, inl, inr, refl, ◌∙◌, sym, [], ◌∷◌, some, arith, leb, Bool-cases, Option-cases,
  All, take, none≢some, leb→le,
}
use datacard.Bytes.{Bytes}
use datacard.CharConv.{
  StrEncoding, decode, encode, get_encoding, encode_hint, decode_hint, parse_hexdigit,
}

abbrev pub AllHex : Bytes → Type 0
AllHex = All (λ c. (d : ℕ) × (parse_hexdigit c ≡ some d))

-- The two outcomes of a hint.
abbrev pub Outcomes : StrEncoding → Type 0 → StrEncoding → StrEncoding → Type 0
Outcomes e P when_all otherwise = (P × (e ≡ when_all)) ⊎ ((¬ P) × (e ≡ otherwise))

encode_hint-Outcomes :
    (in_ : Bytes)
    → Outcomes (encode_hint in_) (All (λ c. c < 128) in_) StrEncoding.bit7_hex StrEncoding.ucs2_hex
unfolding encode_hint
encode_hint-Outcomes [] = inl (tt, refl)
encode_hint-Outcomes (c ∷ rest) = elim (Bool-cases (leb 128 c)) [
  | inl b ↦ inr ((λ h. omega (arith, h.0, leb→le 128 c b)), rw b refl)
  | inr b ↦ elim (encode_hint-Outcomes rest) [
    | inl (a, e) ↦ inl ((ground arith, a), rw b e)
    | inr (n, e) ↦ inr ((λ h. n h.1), rw b e)
  ]
]

decode_hint-Outcomes :
    (in_ : Bytes) → Outcomes (decode_hint in_) (AllHex in_) StrEncoding.unknown StrEncoding.bit7
unfolding decode_hint
decode_hint-Outcomes [] = inl (tt, refl)
decode_hint-Outcomes (c ∷ rest) = elim (Option-cases (parse_hexdigit c)) [
  | inl e ↦ inr ((λ h. none≢some (sym e ∙ h.0.1)), rw e refl)
  | inr (d, e) ↦ elim (decode_hint-Outcomes rest) [
    | inl (a, f) ↦ inl (((d, e), a), rw e f)
    | inr (n, f) ↦ inr ((λ h. n h.1), rw e f)
  ]
]

-- A text to be sent goes as 7-bit characters exactly when all its bytes are below 128, and as UCS-2
-- otherwise. A text received is taken for plain 7-bit characters when some character is no hex
-- digit, and is of unknown encoding when all are.
pub get_encoding-Outcomes :
    (in_ : Bytes) (n : ℕ)
    → Outcomes
        (get_encoding encode in_ n)
        (All (λ c. c < 128) (take n in_))
        StrEncoding.bit7_hex
        StrEncoding.ucs2_hex
      × Outcomes
          (get_encoding decode in_ n)
          (AllHex (take n in_))
          StrEncoding.unknown
          StrEncoding.bit7
unfolding get_encoding
get_encoding-Outcomes in_ n = (encode_hint-Outcomes (take n in_), decode_hint-Outcomes (take n in_))
