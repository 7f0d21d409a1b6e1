-- ===== src/Pdu/Build/Octets.antt =====
-- The address digits and the alphabet of a short message by GSM 03.40, and that `pdu_store_number` and
-- `check_encoding` write just these.
use native.Mathlib.Decide.{ℕ_discrete}
use datacard.Base.{
  ℕ, suc, ◌+◌, ◌-◌, ◌*◌, ◌/◌, ◌%◌, ◌<◌, ◌≡◌, inl, inr, refl, ap, ap₂, lt→ltb, sym, ◌∙◌, Bool, false,
  ◌&&◌, ◌||◌, [], ◌∷◌, arith, ltb, leb, ◌==◌, if◌then◌else◌, Bool-cases, length, take_of_le,
  tabulate, tabulate_ext, All, get_or-take, get_or-tabulate, length-tabulate, ◌⊎◌,
}
use datacard.Bytes.{Bytes, byte_at}
use datacard.CharConv.{hex_table, encode_hint, get_encoding}
use datacard.Pdu.{digit2code, store_number}
use datacard.Pdu.Build.{alpabet_of, check_encoding}
use datacard.Pdu.Digits.{IsDigit}

-- The value of a digit in four bits: 0 to 9, then '*', '#' and the letters from 'A' on.
abbrev pub digit_value : ℕ → ℕ
digit_value d =
    if leb b'0' d && leb d b'9'
    then d - b'0'
    else if d == b'*'
    then 10
    else if d == b'#'
    then 11
    else d - b'A' + 12

-- Half octet `i` of a number, where 15 fills the last octet up.
abbrev pub half_octet : Bytes → ℕ → ℕ
half_octet number i = if ltb i (length number) then digit_value (byte_at number i) else 15

-- Each octet has an even number of the digits before it and the digit at the even place in its low
-- half, and is written with the high half first.
abbrev pub address_digits : Bytes → Bytes
address_digits number =
    tabulate ((length number + 1) / 2 * 2)
      (λ i. byte_at hex_table (half_octet number (if i % 2 == 0 then i + 1 else i - 1)))

table_digit : (k : ℕ) → k < 10 → byte_at hex_table k ≡ b'0' + k
table_digit k h = sym (get_or-take 10 hex_table k 0 h) ∙ get_or-tabulate 10 (λ i. b'0' + i) k 0 h

digit2code-digit_value : (d : ℕ) → IsDigit d → digit2code d ≡ byte_at hex_table (digit_value d)
unfolding digit2code
digit2code-digit_value d h = elim h [
  | inl r ↦ ground (arith, table_digit (d - b'0'))
  | inr (inl e) ↦ rw e refl
  | inr (inr (inl e)) ↦ rw e refl
  | inr (inr (inr (l, m))) ↦ elim (ℕ_discrete d b'A') [
    | yes e ↦ rw e refl
    | no n ↦ elim (ℕ_discrete d b'B') [
      | yes e ↦ rw e refl
      | no o ↦ let e : d ≡ b'C' = omega arith in rw e refl
    ]
  ]
]

-- The digits behind the first two stand in the octets behind the first.
address_digits-later :
    (a b : ℕ) (number : Bytes)
    → address_digits (a ∷ b ∷ number)
      ≡ byte_at hex_table (digit_value b)
        ∷ byte_at hex_table (digit_value a)
        ∷ address_digits number
address_digits-later a b number =
    let n : (suc (suc (length number)) + 1) / 2 * 2 ≡ suc (suc ((length number + 1) / 2 * 2)) =
      omega arith in
    let second : half_octet (a ∷ b ∷ number) 1 ≡ digit_value b =
      rw (lt→ltb 1 (suc (suc (length number))) (omega arith)) refl in
    let first : half_octet (a ∷ b ∷ number) 0 ≡ digit_value a =
      rw (lt→ltb 0 (suc (suc (length number))) (omega arith)) refl in
    rw n (
      ap₂ (λ x t. byte_at hex_table x ∷ t) second
        (ap₂ (λ x t. byte_at hex_table x ∷ t) first
          (tabulate_ext ((length number + 1) / 2 * 2) _ _
            (λ i p. ap (byte_at hex_table) (moved i)))))
  where
    place : ℕ → ℕ
    place i = if i % 2 == 0 then i + 1 else i - 1

    moved :
        (i : ℕ) → half_octet (a ∷ b ∷ number) (place (suc (suc i))) ≡ half_octet number (place i)
    moved i =
        let e : place (suc (suc i)) ≡ suc (suc (place i)) = ground arith in rw e (ground arith)

-- `pdu_store_number` writes the digits of an address.
pub store_number-address_digits :
    (number : Bytes) → All IsDigit number → store_number number ≡ address_digits number
unfolding store_number
store_number-address_digits [] h = refl
store_number-address_digits (a ∷ []) h = ap (λ t. b'F' ∷ t ∷ []) (digit2code-digit_value a h.0)
store_number-address_digits (a ∷ b ∷ number) h =
    rw
      (
        digit2code-digit_value a h.0,
        digit2code-digit_value b h.1.0,
        store_number-address_digits number h.1.1,
      )
      (sym (address_digits-later a b number))

pub length-address_digits :
    (number : Bytes) → length (address_digits number) ≡ (length number + 1) / 2 * 2
length-address_digits number =
    length-tabulate ((length number + 1) / 2 * 2)
      (λ i. byte_at hex_table (half_octet number (if i % 2 == 0 then i + 1 else i - 1)))

-- Some byte is no 7-bit character.
unfoldable pub is_wide : Bytes → Bool
is_wide [] = false
is_wide (c ∷ rest) = leb 128 c || is_wide rest

-- The alphabet: UCS-2 for a text with such a byte, and 7-bit characters for any other.
unfoldable pub alphabet : Bytes → ℕ
unfolding is_wide
alphabet msg = if is_wide msg then 8 else 0

alpabet_of-alphabet : (msg : Bytes) → alpabet_of (encode_hint msg) ≡ alphabet msg
unfolding alpabet_of encode_hint alphabet is_wide
alpabet_of-alphabet [] = refl
alpabet_of-alphabet (c ∷ rest) = elim (Bool-cases (leb 128 c)) [
  | inl e ↦ rw e refl
  | inr e ↦ rw e (alpabet_of-alphabet rest)
]

pub check_encoding-alphabet : (msg : Bytes) → check_encoding msg ≡ alphabet msg
unfolding check_encoding get_encoding
check_encoding-alphabet msg =
    ap (λ t. alpabet_of (encode_hint t)) (take_of_le (length msg) msg (omega arith))
    ∙ alpabet_of-alphabet msg

pub alphabet-cases : (msg : Bytes) → (alphabet msg ≡ 0) ⊎ (alphabet msg ≡ 8)
unfolding alphabet
alphabet-cases msg = elim (Bool-cases (is_wide msg)) [
  | inl e ↦ inr (rw e refl)
  | inr e ↦ inl (rw e refl)
]
