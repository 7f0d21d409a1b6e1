-- ===== src/CharConv/Octets.antt =====
-- The octets of packed 7-bit characters.
use datacard.Base.{
  ℕ, zero, suc, ◌+◌, ◌-◌, ◌*◌, ◌/◌, ◌%◌, ◌^◌, ◌<◌, ◌≡◌, ◌∙◌, bit_or, ltb, lt→ltb, arith, true,
}
use datacard.CharConv.{shift_right, shift_left}
use datacard.CharConv.Bits.{
  bit_or_1, bit_or_2, bit_or_4, bit_or_8, bit_or_16, bit_or_32, bit_or_64, or_bit_2, or_bit_4,
  or_bit_8, or_bit_16, or_bit_32, or_bit_64, or_bit_128,
}

-- The octet that is sent when `s` bits of the character `c` are sent already, with bits of `d`.
abbrev pub octet : ℕ → ℕ → ℕ → ℕ
octet s c d = bit_or (shift_right c s) (shift_left d (7 - s))

-- From the octet and the bits that came before it the decoder has `c`, and the bits of `d` are left.
abbrev pub Unpacks : ℕ → ℕ → ℕ → ℕ → Type 0
Unpacks s c d v =
    (v < 256)
    × (bit_or (v * 2 ^ suc s % 256 / 2) (c % 2 ^ s) ≡ c)
    × (v / 2 ^ (8 - suc s) ≡ d % 2 ^ suc s)

octet_0 : (c d : ℕ) → c < 128 → d < 128 → Unpacks 0 c d (octet 0 c d)
octet_0 c d p q =
    let small : ltb c 128 ≡ true = lt→ltb c 128 p in
    let low : c / 1 % 256 ≡ c / 1 = omega arith in
    let sum : bit_or (c / 1 % 256) (d * 128 % 256) ≡ c / 1 + d * 128 % 256 =
      rw low (or_bit_128 (c / 1) (d * 128 % 256) (omega arith) (omega arith)) in
    rw (small, sum)
      (
        omega arith,
        bit_or_1 ((c / 1 + d * 128 % 256) * 2 % 256 / 2) (c % 1) (omega arith) ∙ omega arith,
        omega arith,
      )

octet_1 : (c d : ℕ) → c < 128 → d < 128 → Unpacks 1 c d (octet 1 c d)
octet_1 c d p q =
    let small : ltb c 128 ≡ true = lt→ltb c 128 p in
    let low : c / 2 % 256 ≡ c / 2 = omega arith in
    let sum : bit_or (c / 2 % 256) (d * 64 % 256) ≡ c / 2 + d * 64 % 256 =
      rw low (or_bit_64 (c / 2) (d * 64 % 256) (omega arith) (omega arith)) in
    rw (small, sum)
      (
        omega arith,
        bit_or_2 ((c / 2 + d * 64 % 256) * 4 % 256 / 2) (c % 2) (omega arith) (omega arith)
            ∙ omega arith,
        omega arith,
      )

octet_2 : (c d : ℕ) → c < 128 → d < 128 → Unpacks 2 c d (octet 2 c d)
octet_2 c d p q =
    let small : ltb c 128 ≡ true = lt→ltb c 128 p in
    let low : c / 4 % 256 ≡ c / 4 = omega arith in
    let sum : bit_or (c / 4 % 256) (d * 32 % 256) ≡ c / 4 + d * 32 % 256 =
      rw low (or_bit_32 (c / 4) (d * 32 % 256) (omega arith) (omega arith)) in
    rw (small, sum)
      (
        omega arith,
        bit_or_4 ((c / 4 + d * 32 % 256) * 8 % 256 / 2) (c % 4) (omega arith) (omega arith)
            ∙ omega arith,
        omega arith,
      )

octet_3 : (c d : ℕ) → c < 128 → d < 128 → Unpacks 3 c d (octet 3 c d)
octet_3 c d p q =
    let small : ltb c 128 ≡ true = lt→ltb c 128 p in
    let low : c / 8 % 256 ≡ c / 8 = omega arith in
    let sum : bit_or (c / 8 % 256) (d * 16 % 256) ≡ c / 8 + d * 16 % 256 =
      rw low (or_bit_16 (c / 8) (d * 16 % 256) (omega arith) (omega arith)) in
    rw (small, sum)
      (
        omega arith,
        bit_or_8 ((c / 8 + d * 16 % 256) * 16 % 256 / 2) (c % 8) (omega arith) (omega arith)
            ∙ omega arith,
        omega arith,
      )

octet_4 : (c d : ℕ) → c < 128 → d < 128 → Unpacks 4 c d (octet 4 c d)
octet_4 c d p q =
    let small : ltb c 128 ≡ true = lt→ltb c 128 p in
    let low : c / 16 % 256 ≡ c / 16 = omega arith in
    let sum : bit_or (c / 16 % 256) (d * 8 % 256) ≡ c / 16 + d * 8 % 256 =
      rw low (or_bit_8 (c / 16) (d * 8 % 256) (omega arith) (omega arith)) in
    rw (small, sum)
      (
        omega arith,
        bit_or_16 ((c / 16 + d * 8 % 256) * 32 % 256 / 2) (c % 16) (omega arith) (omega arith)
            ∙ omega arith,
        omega arith,
      )

octet_5 : (c d : ℕ) → c < 128 → d < 128 → Unpacks 5 c d (octet 5 c d)
octet_5 c d p q =
    let small : ltb c 128 ≡ true = lt→ltb c 128 p in
    let low : c / 32 % 256 ≡ c / 32 = omega arith in
    let sum : bit_or (c / 32 % 256) (d * 4 % 256) ≡ c / 32 + d * 4 % 256 =
      rw low (or_bit_4 (c / 32) (d * 4 % 256) (omega arith) (omega arith)) in
    rw (small, sum)
      (
        omega arith,
        bit_or_32 ((c / 32 + d * 4 % 256) * 64 % 256 / 2) (c % 32) (omega arith) (omega arith)
            ∙ omega arith,
        omega arith,
      )

octet_6 : (c d : ℕ) → c < 128 → d < 128 → Unpacks 6 c d (octet 6 c d)
octet_6 c d p q =
    let small : ltb c 128 ≡ true = lt→ltb c 128 p in
    let low : c / 64 % 256 ≡ c / 64 = omega arith in
    let sum : bit_or (c / 64 % 256) (d * 2 % 256) ≡ c / 64 + d * 2 % 256 =
      rw low (or_bit_2 (c / 64) (d * 2 % 256) (omega arith) (omega arith)) in
    rw (small, sum)
      (
        omega arith,
        bit_or_64 ((c / 64 + d * 2 % 256) * 128 % 256 / 2) (c % 64) (omega arith) (omega arith)
            ∙ omega arith,
        omega arith,
      )

pub octet-Unpacks : (s c d : ℕ) → s < 7 → c < 128 → d < 128 → Unpacks s c d (octet s c d)
octet-Unpacks zero c d h p q = octet_0 c d p q
octet-Unpacks (suc zero) c d h p q = octet_1 c d p q
octet-Unpacks (suc (suc zero)) c d h p q = octet_2 c d p q
octet-Unpacks (suc (suc (suc zero))) c d h p q = octet_3 c d p q
octet-Unpacks (suc (suc (suc (suc zero)))) c d h p q = octet_4 c d p q
octet-Unpacks (suc (suc (suc (suc (suc zero))))) c d h p q = octet_5 c d p q
octet-Unpacks (suc (suc (suc (suc (suc (suc zero)))))) c d h p q = octet_6 c d p q
octet-Unpacks (suc (suc (suc (suc (suc (suc (suc s))))))) c d h p q = absurd (omega arith)
