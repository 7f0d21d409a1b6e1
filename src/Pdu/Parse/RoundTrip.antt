-- ===== src/Pdu/Parse/RoundTrip.antt =====
-- SMS-DELIVER PDUs as GSM 03.40 writes them, and what `pdu_parse` makes of them.
use datacard.Base.{
  suc, zero, inl, inr, ◌≤◌, ◌+◌, ℕ, ◌*◌, ◌/◌, ◌%◌, ◌^◌, ◌<◌, ◌≡◌, ◌⊎◌, refl, ap, ◌∙◌, sym, bit_and,
  Bool, true, false, ◌&&◌, ◌||◌, List, [], ◌∷◌, ◌++◌, Option, none, some, arith, ltb, leb, ◌==◌,
  length, length-append, drop, drop-append_left, All, ==_iff, lt→ltb,
}
use datacard.Bytes.{Bytes}
use datacard.CharConv.{StrEncoding, print_byte}
use datacard.Pdu.{
  international, parse_byte, skip_sca, parse_sca, parse_timestamp, dcs_alpabet2encoding,
  store_number,
}
use datacard.Pdu.Digits.{IsDigit, parse_byte-print_byte, parse_number-store_number}
use datacard.Pdu.Parse.{
  message, skip_header, parse_data, octets, parse_udl, after_timestamp, parse_dcs, parse_pid,
  after_number, parse_oa, parse_type, after_sca, parse,
}

-- The fields of a message: two characters stand for an octet.
pub record Deliver : Type 0 where
  pub sca : Bytes
  pub type_ : ℕ
  pub number : Bytes
  pub dcs : ℕ
  pub timestamp : Bytes
  pub udl : ℕ
  pub header : Option Bytes
  pub encoding : StrEncoding
  pub text : Bytes

abbrev pub user_data : Option Bytes → Bytes → Bytes
user_data none data_ = data_
user_data (some header) data_ = print_byte (length header / 2) ++ (header ++ data_)

abbrev pub has_header : Option Bytes → Bool
has_header none = false
has_header (some header) = true

abbrev pub behind_number : Deliver → Bytes
behind_number m =
    print_byte 0
    ++ (print_byte m.dcs ++ (m.timestamp ++ (print_byte m.udl ++ user_data m.header m.text)))

abbrev pub tpdu : Deliver → Bytes
tpdu m =
    print_byte m.type_
    ++ (print_byte (length m.number)
        ++ (print_byte international ++ (store_number m.number ++ behind_number m)))

abbrev pub pdu : Deliver → Bytes
pdu m = print_byte (length m.sca / 2) ++ (m.sca ++ tpdu m)

-- Whole octets, of which a length can be written.
abbrev pub IsOctets : Bytes → Type 0
IsOctets b = (length b % 2 ≡ 0) × (length b < 512)

abbrev pub HeaderIsValid : Option Bytes → Type 0
HeaderIsValid none = Unit
HeaderIsValid (some header) = IsOctets header

-- Bits 3 and 2 of the DCS name an encoding.
abbrev pub Names : ℕ → StrEncoding → Type 0
Names alpabet enc =
    ((alpabet ≡ 0) × (enc ≡ StrEncoding.bit7_hex))
    ⊎ ((alpabet ≡ 4) × (enc ≡ StrEncoding.bit8_hex))
    ⊎ ((alpabet ≡ 8) × (enc ≡ StrEncoding.ucs2_hex))

-- `n` octets are what `udl` characters of seven bits need, or `udl` octets.
abbrev pub Fills : ℕ → ℕ → ℕ → Type 0
Fills zero udl n = (7 * udl ≤ 8 * n) × (8 * n < 7 * udl + 8)
Fills (suc alpabet) udl n = n ≡ udl

-- A message of the kind that the driver handles: SMS-DELIVER, not compressed, with the header that
-- its type announces, and as much user data as its length says.
pub record IsValid (m : Deliver) : Type 0 where
  pub sca : IsOctets m.sca
  pub type_byte : m.type_ < 256
  pub delivers : bit_and m.type_ 3 ≡ 0
  pub announced : (bit_and m.type_ 64 == 64) ≡ has_header m.header
  pub digits : All IsDigit m.number
  pub some_digits : 0 < length m.number
  pub number_byte : length m.number < 256
  pub dcs_byte : m.dcs < 256
  pub general : bit_and m.dcs 192 ≡ 0
  pub not_compressed : bit_and m.dcs 32 ≡ 0
  pub alpabet : Names (bit_and m.dcs 12) m.encoding
  pub timestamp : length m.timestamp ≡ 14
  pub udl_byte : m.udl < 256
  pub header : HeaderIsValid m.header
  pub even : length (user_data m.header m.text) % 2 ≡ 0
  pub whole : Fills (bit_and m.dcs 12) m.udl (length (user_data m.header m.text) / 2)

drop_exact {ℓ} : {A : Type ℓ} (n : ℕ) (xs ys : List A) → n ≡ length xs → drop n (xs ++ ys) ≡ ys
drop_exact n xs ys e = ap (λ k. drop k (xs ++ ys)) e ∙ drop-append_left xs ys

parse_data-user_data :
    (type_ : ℕ) (oa : Bytes) (enc : StrEncoding) (header : Option Bytes) (data_ : Bytes)
    → (bit_and type_ 64 == 64) ≡ has_header header
    → HeaderIsValid header
    → parse_data type_ oa enc (user_data header data_) ≡ message oa enc data_
unfolding parse_data skip_header
parse_data-user_data type_ oa enc none data_ e h = rw e refl
parse_data-user_data type_ oa enc (some header) data_ e h =
    let byte = parse_byte-print_byte (length header / 2) (header ++ data_) (omega (arith, h.1)) in
    let long = length-append header data_ in
    let there : leb (length header / 2 * 2) (length (header ++ data_)) ≡ true = ground arith in
    let skipped = drop_exact (length header / 2 * 2) header data_ (omega (arith, h.0)) in
    rw (e, byte, there, skipped) refl

octets-Fills : (alpabet udl n : ℕ) → Fills alpabet udl n → octets alpabet udl ≡ n
octets-Fills zero udl n h = omega arith
octets-Fills (suc alpabet) udl n h = ground arith

dcs_alpabet2encoding-Names :
    (alpabet : ℕ) (enc : StrEncoding) → Names alpabet enc → dcs_alpabet2encoding alpabet ≡ enc
unfolding dcs_alpabet2encoding
dcs_alpabet2encoding-Names alpabet enc (inl (e, f)) = rw (e, f) refl
dcs_alpabet2encoding-Names alpabet enc (inr (inl (e, f))) = rw (e, f) refl
dcs_alpabet2encoding-Names alpabet enc (inr (inr (e, f))) = rw (e, f) refl

known_alpabet :
    (alpabet : ℕ) (enc : StrEncoding)
    → Names alpabet enc
    → (alpabet == 0 || alpabet == 4 || alpabet == 8) ≡ true
known_alpabet alpabet enc (inl (e, f)) = rw e refl
known_alpabet alpabet enc (inr (inl (e, f))) = rw e refl
known_alpabet alpabet enc (inr (inr (e, f))) = rw e refl

parse_pid-behind_number :
    (m : Deliver) (oa : Bytes)
    → IsValid m
    → parse_pid m.type_ oa (parse_byte (behind_number m)) ≡ message oa m.encoding m.text
unfolding parse_pid parse_dcs parse_timestamp after_timestamp parse_udl
parse_pid-behind_number m oa v =
    let behind_udl = user_data m.header m.text in
    let behind_time = print_byte m.udl ++ behind_udl in
    let behind_dcs = m.timestamp ++ behind_time in
    let pid = parse_byte-print_byte 0 (print_byte m.dcs ++ behind_dcs) (omega arith) in
    let dcs = parse_byte-print_byte m.dcs behind_dcs v.dcs_byte in
    let udl = parse_byte-print_byte m.udl behind_udl v.udl_byte in
    let ok : (bit_and m.dcs 192 == 0
          && bit_and m.dcs 32 == 0
          && (bit_and m.dcs 12 == 0 || bit_and m.dcs 12 == 4 || bit_and m.dcs 12 == 8))
        ≡ true =
      ground (
        arith,
        v.general,
        v.not_compressed,
        known_alpabet (bit_and m.dcs 12) m.encoding v.alpabet,
      ) in
    let long = length-append m.timestamp behind_time in
    let there : leb 14 (length behind_dcs) ≡ true = ground (arith, v.timestamp) in
    let skipped = drop_exact 14 m.timestamp behind_time (sym v.timestamp) in
    let whole : (octets (bit_and m.dcs 12) m.udl * 2 == length behind_udl) ≡ true =
      (==_iff (octets (bit_and m.dcs 12) m.udl * 2) (length behind_udl)).1 (
        omega
          (arith, octets-Fills (bit_and m.dcs 12) m.udl (length behind_udl / 2) v.whole, v.even)) in
    let enc = dcs_alpabet2encoding-Names (bit_and m.dcs 12) m.encoding v.alpabet in
    rw (pid, dcs, ok, there, skipped, udl, whole, enc)
      (parse_data-user_data m.type_ oa m.encoding m.header m.text v.announced v.header)

parse_type-tpdu :
    (m : Deliver) (oa_len : ℕ)
    → IsValid m
    → length m.number < oa_len
    → parse_type oa_len (parse_byte (tpdu m))
      ≡ message (b'+' ∷ (m.number ++ (0 ∷ []))) m.encoding m.text
unfolding parse_type parse_oa after_number
parse_type-tpdu m oa_len v h =
    let behind_length = print_byte international ++ (store_number m.number ++ behind_number m) in
    let type_ =
      parse_byte-print_byte m.type_ (print_byte (length m.number) ++ behind_length) v.type_byte in
    let digits = parse_byte-print_byte (length m.number) behind_length v.number_byte in
    let some_digits : ltb 0 (length m.number) ≡ true = lt→ltb 0 (length m.number) v.some_digits in
    let delivers : (bit_and m.type_ 3 == 0) ≡ true = (==_iff _ _).1 v.delivers in
    let number = parse_number-store_number m.number (behind_number m) oa_len v.digits h in
    rw (type_, delivers, digits, some_digits, number)
      (parse_pid-behind_number m (b'+' ∷ (m.number ++ (0 ∷ []))) v)

-- Every valid SMS-DELIVER message, with an international number as `pdu_store_number` stores it,
-- uncompressed and with or without a user data header, is parsed: `pdu_parse` gives the number with
-- '+' before it and a final 0, the encoding that the DCS names, and exactly the text's characters.
pub parse-pdu :
    (m : Deliver) (tpdu_length oa_len : ℕ)
    → IsValid m
    → length m.number < oa_len
    → tpdu_length < 2 ^ 32
    → tpdu_length * 2 ≡ length (tpdu m)
    → parse (pdu m) tpdu_length oa_len ≡ message (b'+' ∷ (m.number ++ (0 ∷ []))) m.encoding m.text
unfolding parse after_sca parse_sca skip_sca
parse-pdu m tpdu_length oa_len v h r e =
    let byte =
      parse_byte-print_byte (length m.sca / 2) (m.sca ++ tpdu m) (omega (arith, v.sca.1)) in
    let long = length-append m.sca (tpdu m) in
    let there : leb (length m.sca / 2 * 2) (length (m.sca ++ tpdu m)) ≡ true = ground arith in
    let skipped = drop_exact (length m.sca / 2 * 2) m.sca (tpdu m) (omega (arith, v.sca.0)) in
    let matched : (tpdu_length * 2 % 2 ^ 64 == length (tpdu m)) ≡ true = ground arith in
    rw (byte, there, skipped, matched) (parse_type-tpdu m oa_len v h)
