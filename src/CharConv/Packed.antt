-- ===== src/CharConv/Packed.antt =====
-- The round trip of `char_to_hexstr_7bit` and `hexstr_7bit_to_char`.
use datacard.Base.{
  ℕ, suc, ◌+◌, ◌-◌, ◌*◌, ◌/◌, ◌%◌, ◌^◌, ◌≤◌, ◌<◌, ◌≡◌, ◌⊎◌, inl, inr, refl, ap, ◌∙◌, sym, true,
  false, [], ◌∷◌, ◌++◌, some, arith, ltb, ltb→lt, ltb→le, ◌==◌, if◌then◌else◌, Bool-cases, lt→ltb,
  length, take-length, All, sub_size, subst,
}
use datacard.Bytes.{Bytes, byte_at}
use datacard.CharConv.{
  text, parse_hexdigit, hex_table, print_byte, shift_right, shift_left, pack_loop,
  char_to_hexstr_7bit, scan_byte, unpack_octet, unpack_then, unpack_loop, hexstr_7bit_to_char,
}
use datacard.CharConv.Hex.{parse_hexdigit-table}
use datacard.CharConv.Bits.{bit_or_1}
use datacard.CharConv.Octets.{octet, Unpacks, octet-Unpacks}

-- The characters of the 7-bit alphabet.
abbrev pub AllSevenBit : Bytes → Type 0
AllSevenBit = All (λ c. c < 128)

scan-print_byte :
    (v : ℕ)
    → v < 256
    → scan_byte
        (byte_at hex_table (v / 16))
        (byte_at hex_table (v % 16))
        (parse_hexdigit (byte_at hex_table (v / 16)))
        (parse_hexdigit (byte_at hex_table (v % 16)))
      ≡ some v
unfolding scan_byte
scan-print_byte v h =
    rw (parse_hexdigit-table (v / 16) (omega arith), parse_hexdigit-table (v % 16) (omega arith))
      (ap some (omega arith))

-- The hex digits `p` decode to `out` from the decoder's state on.
abbrev Decodes : Bytes → ℕ → ℕ → Bytes → Type 0
Decodes p s b out = (n : ℕ) × (length p ≡ 2 * n) × (unpack_loop n p s b ≡ some out)

Decodes-octet :
    (v s b : ℕ) (p out : Bytes)
    → v < 256
    → Decodes p (if s == 7 then 1 else suc s) (if s == 7 then 0 else v / 2 ^ (8 - s)) out
    → Decodes (print_byte v ++ p) s b (unpack_octet v s b ++ out)
unfolding unpack_loop unpack_then
Decodes-octet v s b p out h (n, l, e) = (suc n, omega arith, rw (scan-print_byte v h, e) refl)

-- Padding that the decoder may add.
abbrev pub IsPadding : Bytes → Type 0
IsPadding z = (z ≡ []) ⊎ (z ≡ 0 ∷ [])

-- What is decoded when `s` bits of `c` were, and when all of it was.
abbrev Continues : ℕ → ℕ → Bytes → Type 0
Continues s c rest =
    (z : Bytes) × IsPadding z
    × Decodes (pack_loop (c ∷ rest) s) (suc s) (c % 2 ^ s) (c ∷ (rest ++ z))

abbrev Restarts : ℕ → Bytes → Type 0
Restarts c rest = (z : Bytes) × IsPadding z × Decodes (pack_loop (c ∷ rest) 7) 1 0 (rest ++ z)

octet-nothing : (s c : ℕ) → octet s c 0 ≡ shift_right c s
octet-nothing s c =
    let none_left : shift_left 0 (7 - s) ≡ 0 = omega arith in
    rw none_left (bit_or_1 (shift_right c s) 0 (omega arith) ∙ omega arith)

last-Unpacks : (s c : ℕ) → s < 7 → c < 128 → Unpacks s c 0 (shift_right c s)
last-Unpacks s c h p =
    subst (Unpacks s c 0) (octet-nothing s c) (octet-Unpacks s c 0 h p (omega arith))

empty-Decodes : (s b : ℕ) → Decodes [] s b []
unfolding unpack_loop
empty-Decodes s b = (0, refl, refl)

-- One octet that carries the rest of `c`, in the middle of a round of eight characters.
middle-Decodes :
    (s c d v : ℕ) (p out : Bytes)
    → s < 6
    → Unpacks s c d v
    → Decodes p (suc (suc s)) (d % 2 ^ suc s) out
    → Decodes (print_byte v ++ p) (suc s) (c % 2 ^ s) (c ∷ out)
middle-Decodes s c d v p out h (small, whole, left) later =
    let going : (suc s == 7) ≡ false = ground arith in
    let step = Decodes-octet v (suc s) (c % 2 ^ s) p out small in
    rw (going, whole, left) at step later

-- The seventh octet carries all of `d` too.
seventh-Decodes :
    (c d v : ℕ) (p out : Bytes)
    → d < 128
    → Unpacks 6 c d v
    → Decodes p 1 0 out
    → Decodes (print_byte v ++ p) 7 (c % 64) (c ∷ d ∷ out)
seventh-Decodes c d v p out h (small, whole, left) later =
    let all : v / 2 ≡ d = left ∙ omega arith in
    let step = Decodes-octet v 7 (c % 64) p out small in rw (whole, all) at step later

pack_loop-next :
    (s c d : ℕ) (rest : Bytes)
    → s < 7
    → pack_loop (c ∷ d ∷ rest) s ≡ print_byte (octet s c d) ++ pack_loop (d ∷ rest) (suc s)
unfolding pack_loop
pack_loop-next s c d rest h = let going : (s == 7) ≡ false = ground arith in rw going refl

-- The last character
last-Continues : (s c : ℕ) → s < 7 → c < 128 → Continues s c []
unfolding pack_loop
last-Continues s c h p = elim (Bool-cases (ltb s 6)) [
  | inl b ↦ (
    [],
    inl refl,
    middle-Decodes s c 0 (shift_right c s) [] [] (ltb→lt s 6 b) (last-Unpacks s c h p)
        (empty-Decodes (suc (suc s)) (0 % 2 ^ suc s)),
  )
  | inr b ↦
      let six : 6 ≡ s = omega (arith, ltb→le s 6 b) in
      subst (λ k. Continues k c []) six
        (
          0 ∷ [],
          inr refl,
          seventh-Decodes c 0 (shift_right c 6) [] [] (omega arith)
              (last-Unpacks 6 c (omega arith) p) (empty-Decodes 1 0),
        )
]

last-Restarts : (c : ℕ) → c < 128 → Restarts c []
unfolding pack_loop
last-Restarts c p =
    let small : ltb c 128 ≡ true = lt→ltb c 128 p in
    let none_left : c / 128 % 256 ≡ 0 = omega arith in
    let zero_octet : shift_right c 7 ≡ 0 = rw (small, none_left) refl in
    (
      0 ∷ [],
      inr refl,
      subst (λ v. Decodes (print_byte v) 1 0 (0 ∷ [])) (sym zero_octet)
          (Decodes-octet 0 1 0 [] [] (omega arith) (empty-Decodes 2 0)),
    )

next-Continues :
    (s c d : ℕ) (rest : Bytes)
    → s < 7
    → c < 128
    → d < 128
    → ((k : ℕ) → k < 7 → Continues k d rest)
    → Restarts d rest
    → Continues s c (d ∷ rest)
next-Continues s c d rest h p q continues (z, pad, decodes) = elim (Bool-cases (ltb s 6)) [
  | inl b ↦
      let (y, pad', later) = continues (suc s) (omega (arith, ltb→lt s 6 b)) in
      (
        y,
        pad',
        subst (λ t. Decodes t (suc s) (c % 2 ^ s) (c ∷ d ∷ (rest ++ y)))
            (sym (pack_loop-next s c d rest h))
            (middle-Decodes s c d (octet s c d) _ (d ∷ (rest ++ y)) (ltb→lt s 6 b)
              (octet-Unpacks s c d h p q) later),
      )
  | inr b ↦
      let six : 6 ≡ s = omega (arith, ltb→le s 6 b) in
      subst (λ k. Continues k c (d ∷ rest)) six
        (
          z,
          pad,
          subst (λ t. Decodes t 7 (c % 64) (c ∷ d ∷ (rest ++ z)))
              (sym (pack_loop-next 6 c d rest (omega arith)))
              (seventh-Decodes c d (octet 6 c d) _ (rest ++ z) q
                (octet-Unpacks 6 c d (omega arith) p q) decodes),
        )
]

next-Restarts : (c d : ℕ) (rest : Bytes) → Continues 0 d rest → Restarts c (d ∷ rest)
unfolding pack_loop
next-Restarts c d rest (z, pad, decodes) =
    let nothing : d % 1 ≡ 0 = omega arith in
    (z, pad, subst (λ b. Decodes (pack_loop (d ∷ rest) 0) 1 b (d ∷ (rest ++ z))) nothing decodes)

decodes-all :
    (c : ℕ) (rest : Bytes)
    → AllSevenBit (c ∷ rest)
    → ((s : ℕ) → s < 7 → Continues s c rest) × Restarts c rest
decodes-all c [] h = ((λ s l. last-Continues s c l h.0), last-Restarts c h.0)
decodes-all c (d ∷ rest) h =
    let (continues, restarts) = decodes-all d rest h.1 in
    (
      (λ s l. next-Continues s c d rest l h.0 h.1.0 continues restarts),
      next-Restarts c d rest (continues 0 (omega arith)),
    )

length-pack_loop : (in_ : Bytes) (s : ℕ) → length (pack_loop in_ s) ≤ 2 * length in_
unfolding pack_loop
length-pack_loop [] s = omega arith
length-pack_loop (c ∷ []) s = omega arith
length-pack_loop (c ∷ d ∷ rest) s =
    let later = length-pack_loop (d ∷ rest) (if s == 7 then 0 else suc s) in
    elim (Bool-cases (s == 7)) [
      | inl b ↦ rw b (omega (arith, length-pack_loop (d ∷ rest) 0))
      | inr b ↦ rw b (omega (arith, length-pack_loop (d ∷ rest) (suc s)))
    ]

text-Decodes :
    (in_ : Bytes)
    → AllSevenBit in_
    → (z : Bytes) × IsPadding z × Decodes (pack_loop in_ 0) 1 0 (in_ ++ z)
unfolding pack_loop
text-Decodes [] h = ([], inl refl, empty-Decodes 1 0)
text-Decodes (c ∷ rest) h =
    let (z, pad, decodes) = (decodes-all c rest h).0 0 (omega arith) in
    let nothing : c % 1 ≡ 0 = omega arith in
    (z, pad, subst (λ b. Decodes (pack_loop (c ∷ rest) 0) 1 b (c ∷ (rest ++ z))) nothing decodes)

-- A text of 7-bit characters is packed, in a buffer of more than two characters for each of them,
-- and unpacked again to the same characters, with one character 0 behind them at most.
pub hexstr_7bit_to_char-char_to_hexstr_7bit :
    (in_ : Bytes) (out_size back_size : ℕ)
    → AllSevenBit in_
    → 2 * length in_ < out_size
    → out_size < 2 ^ 64
    → 2 * length in_ < back_size
    → back_size < 2 ^ 64
    → (h : Bytes) × (z : Bytes) × IsPadding z
      × (char_to_hexstr_7bit in_ (length in_) out_size ≡ text h)
      × (hexstr_7bit_to_char h (length h) back_size ≡ text (in_ ++ z))
unfolding char_to_hexstr_7bit hexstr_7bit_to_char
hexstr_7bit_to_char-char_to_hexstr_7bit in_ out_size back_size b p q r t =
    let (z, pad, (n, l, e)) = text-Decodes in_ b in
    let h = pack_loop in_ 0 in
    let fits : ltb (sub_size out_size 1) ((length in_ - length in_ / 8) * 2 % 2 ^ 64) ≡ false =
      ground arith in
    let bound = length-pack_loop in_ 0 in
    let half : length h / 2 ≡ n = omega arith in
    let back_fits : ltb (sub_size back_size 1) (n + n / 7) ≡ false = ground arith in
    (h, z, pad, rw (fits, take-length in_) refl, rw (half, back_fits, e) refl)
