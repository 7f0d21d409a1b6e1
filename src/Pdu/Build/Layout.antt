-- ===== src/Pdu/Build/Layout.antt =====
-- The SMS-SUBMIT PDUs of GSM 03.40, and the text that `pdu_build` writes.
use datacard.Base.{
  All, ℕ, ◌+◌, ◌/◌, ◌%◌, ◌≤◌, ◌<◌, ◌≡◌, inl, inr, refl, ap, Bool, true, false, ◌&&◌, ◌||◌, [], ◌∷◌,
  ◌++◌, Option, arith, ltb, ◌==◌, if◌then◌else◌, Bool-cases, le→ltb, length, length-append,
  take_of_le, sub_size,
}
use datacard.Bytes.{Bytes}
use datacard.CharConv.{StrEncoding, encode, print_byte, Recoded, text, Charset, str_recode}
use datacard.Pdu.{international, relative_validity}
use datacard.Pdu.Digits.{IsDigit}
use datacard.Pdu.Build.Octets.{
  address_digits, store_number-address_digits, alphabet, alphabet-cases, check_encoding-alphabet,
}
use datacard.Pdu.Validity.{relative_validity-period}
use datacard.Pdu.Build.{
  hex_digits, print_uint, built, skip_plus, sca_part, dst_part, data_head, overlay, with_data,
  needed, build_numbers, build,
}

pub print_uint-print_byte : (n : ℕ) → n < 256 → print_uint n ≡ print_byte n
unfolding print_uint hex_digits
print_uint-print_byte n h = elim (Bool-cases (ltb n 16)) [
  | inl b ↦
      let high : n / 16 ≡ 0 = ground arith in
      let low : n % 16 ≡ n = ground arith in rw (b, high, low) refl
  | inr b ↦ let last : ltb (n / 16) 16 ≡ true = ground arith in rw (b, last) refl
]

-- The fields as octets.
abbrev pub sca_octets : Bytes → Bytes
sca_octets [] = print_byte 0
sca_octets (c ∷ rest) =
    print_byte (1 + (length (c ∷ rest) + 1) / 2) ++ (print_byte 145 ++ address_digits (c ∷ rest))

abbrev pub dst_octets : Bytes → Bool → Bytes
dst_octets dst srr =
    print_byte (if srr then 49 else 17)
    ++ (print_byte 0 ++ (print_byte (length dst) ++ (print_byte 145 ++ address_digits dst)))

abbrev pub head_octets : ℕ → ℕ → ℕ → Bytes
head_octets dcs vp udl = print_byte 0 ++ (print_byte dcs ++ (print_byte vp ++ print_byte udl))

sca_part-sca_octets :
    (csca : Bytes) → length csca < 256 → All IsDigit csca → sca_part csca ≡ sca_octets csca
unfolding sca_part
sca_part-sca_octets [] h d = refl
sca_part-sca_octets (c ∷ rest) h d =
    rw
      (
        print_uint-print_byte (1 + (length (c ∷ rest) + 1) / 2) (omega arith),
        print_uint-print_byte international (omega arith),
        store_number-address_digits (c ∷ rest) d,
      )
      refl

dst_part-dst_octets :
    (dst : Bytes) (srr : Bool)
    → length dst < 256
    → All IsDigit dst
    → dst_part dst srr ≡ dst_octets dst srr
unfolding dst_part
dst_part-dst_octets dst srr h d =
    rw
      (
        print_uint-print_byte (if srr then 49 else 17) (small srr),
        print_uint-print_byte 0 (omega arith),
        print_uint-print_byte (length dst) h,
        print_uint-print_byte international (omega arith),
        store_number-address_digits dst d,
      )
      refl
  where
    small : (s : Bool) → (if s then 49 else 17) < 256
    small true = omega arith
    small false = omega arith

data_head-head_octets :
    (dcs valid_minutes udl : ℕ)
    → dcs < 256
    → relative_validity valid_minutes < 256
    → udl < 256
    → data_head dcs valid_minutes udl ≡ head_octets dcs (relative_validity valid_minutes) udl
unfolding data_head
data_head-head_octets dcs valid_minutes udl p q r =
    rw
      (
        print_uint-print_byte 0 (omega arith),
        print_uint-print_byte dcs p,
        print_uint-print_byte (relative_validity valid_minutes) q,
        print_uint-print_byte udl r,
      )
      refl

-- Where the head has its eight characters, the data stand behind it.
overlay-head_octets :
    (dcs vp udl : ℕ) (data_ : Bytes)
    → overlay (head_octets dcs vp udl) data_ ≡ head_octets dcs vp udl ++ data_
unfolding overlay
overlay-head_octets dcs vp udl [] = refl
overlay-head_octets dcs vp udl (c ∷ data_) =
    take_of_le (8 + length (c ∷ data_)) (head_octets dcs vp udl ++ (c ∷ data_)) (omega arith)

-- The length of the user data that is announced: characters, or octets of UCS-2.
abbrev pub announced : Bytes → Bytes → ℕ
announced msg data_ = if alphabet msg == 8 then length data_ / 2 else length msg

-- The whole text
abbrev pub submit : Bytes → Bytes → Bool → ℕ → ℕ → ℕ → Bytes → Bytes
submit csca dst srr dcs vp udl data_ =
    (sca_octets csca ++ dst_octets dst srr) ++ (head_octets dcs vp udl ++ data_)

-- The text recoded into what is left of the buffer.
abbrev pub recode :
    (Charset → Charset → Option (Bytes → ℕ → Option Bytes))
    → ℕ
    → Bytes
    → Bytes
    → Bytes
    → Bool
    → Recoded
recode iconv size csca dst msg srr =
    str_recode iconv encode
      (if alphabet msg == 8 then StrEncoding.ucs2_hex else StrEncoding.bit7_hex) msg (length msg)
      (sub_size
        (sub_size size (length (sca_octets (skip_plus csca) ++ dst_octets (skip_plus dst) srr))) 11)

module _ (iconv : Charset → Charset → Option (Bytes → ℕ → Option Bytes)) where
  -- A message of at most 160 bytes, or 70 where one is not a 7-bit character, with a validity period of
  -- 1 to 635040 minutes, numbers of less than 256 digits (0 to 9, *, #, A to C, behind a '+' that may be
  -- there) and a buffer of the size that the code wants: once the text is recoded and its announced
  -- length fits an octet, `pdu_build` writes the fields of SMS-SUBMIT in the order of GSM 03.40, each
  -- octet as two hex digits: the digits of the numbers in swapped pairs, filled up with F, behind the
  -- type of address and the length in octets for the center and in digits for the destination; the
  -- alphabet by whether all bytes are 7-bit characters; the validity that `pdu_relative_validity`
  -- gives; and then the recoded text. It returns the number of characters written, and `*sca_len` is
  -- the number of those of the center's address with its length.
  pub build-submit :
      (size : ℕ) (csca dst msg : Bytes) (valid_minutes : ℕ) (srr : Bool) (data_ : Bytes)
      → length msg ≤ (if alphabet msg == 8 then 70 else 160)
      → 0 < valid_minutes
      → valid_minutes ≤ 635040
      → length (skip_plus csca) < 256
      → length (skip_plus dst) < 256
      → All IsDigit (skip_plus csca)
      → All IsDigit (skip_plus dst)
      → needed (skip_plus csca) (skip_plus dst) (length msg) ≤ size
      → announced msg data_ < 256
      → recode iconv size csca dst msg srr ≡ text data_
      → let all =
          submit
            (skip_plus csca)
            (skip_plus dst)
            srr
            (alphabet msg)
            (relative_validity valid_minutes)
            (announced msg data_)
            data_ in
        build iconv size csca dst msg valid_minutes srr
        ≡ built all (length all) (length (sca_octets (skip_plus csca)))
  unfolding build build_numbers with_data
  build-submit size csca dst msg valid_minutes srr data_ short p q c d k l fits udl recoded =
      let a = sca_part-sca_octets (skip_plus csca) c k in
      let b = dst_part-dst_octets (skip_plus dst) srr d l in
      let vp = relative_validity-period valid_minutes p q in
      let dcs : alphabet msg < 256 = elim (alphabet-cases msg) [
        | inl e ↦ omega arith
        | inr e ↦ omega arith
      ] in
      let h =
        data_head-head_octets (alphabet msg) valid_minutes (announced msg data_) dcs
          (omega (arith, vp.0)) udl in
      let o =
        overlay-head_octets (alphabet msg) (relative_validity valid_minutes) (announced msg data_)
          data_ in
      let room : ltb size (needed (skip_plus csca) (skip_plus dst) (length msg)) ≡ false =
        le→ltb _ _ fits in
      let not_long : ((alphabet msg == 8 && ltb 70 (length msg))
            || (alphabet msg == 4 && ltb 140 (length msg))
            || ltb 160 (length msg))
          ≡ false =
        elim (alphabet-cases msg) [ inl e ↦ ground arith | inr e ↦ ground arith ] in
      let front = sca_octets (skip_plus csca) ++ dst_octets (skip_plus dst) srr in
      let head =
        head_octets (alphabet msg) (relative_validity valid_minutes) (announced msg data_) in
      let whole : length front + length head + length data_ ≡ length (front ++ (head ++ data_)) =
        omega (arith, length-append front (head ++ data_)) in
      rw (check_encoding-alphabet msg, not_long, room, a, b, recoded, h, o)
        (ap (λ n. built (front ++ (head ++ data_)) n (length (sca_octets (skip_plus csca)))) whole)
