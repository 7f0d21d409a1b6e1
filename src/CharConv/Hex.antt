-- ===== src/CharConv/Hex.antt =====
-- The round trip of `chars8bit_to_hexstr` and `hexstr_to_8bitchars`.
use datacard.Base.{
  ℕ, zero, suc, ◌*◌, ◌/◌, ◌%◌, ◌^◌, ◌<◌, ◌≡◌, refl, ap, true, false, [], ◌∷◌, some, arith, ltb,
  ◌==◌, length, All, sub_size,
}
use datacard.Bytes.{Bytes, byte_at}
use datacard.CharConv.{
  text, parse_hexdigit, join_digits, hex_loop, hexstr_to_8bitchars, hex_table, table_loop,
  chars8bit_to_hexstr,
}

-- Each character is a byte.
abbrev pub AllBytes : Bytes → Type 0
AllBytes = All (λ c. c < 256)

pub parse_hexdigit-table : (d : ℕ) → d < 16 → parse_hexdigit (byte_at hex_table d) ≡ some d
unfolding parse_hexdigit
parse_hexdigit-table zero h = refl
parse_hexdigit-table (suc zero) h = refl
parse_hexdigit-table (suc (suc zero)) h = refl
parse_hexdigit-table (suc (suc (suc zero))) h = refl
parse_hexdigit-table (suc (suc (suc (suc zero)))) h = refl
parse_hexdigit-table (suc (suc (suc (suc (suc zero))))) h = refl
parse_hexdigit-table (suc (suc (suc (suc (suc (suc zero)))))) h = refl
parse_hexdigit-table (suc (suc (suc (suc (suc (suc (suc zero))))))) h = refl
parse_hexdigit-table (suc (suc (suc (suc (suc (suc (suc (suc zero)))))))) h = refl
parse_hexdigit-table (suc (suc (suc (suc (suc (suc (suc (suc (suc zero))))))))) h = refl
parse_hexdigit-table (suc (suc (suc (suc (suc (suc (suc (suc (suc (suc zero)))))))))) h = refl
parse_hexdigit-table (suc (suc (suc (suc (suc (suc (suc (suc (suc (suc (suc zero))))))))))) h = refl
parse_hexdigit-table (suc (suc (suc (suc (suc (suc (suc (suc (suc (suc (suc (suc zero))))))))))))
      h =
    refl
parse_hexdigit-table
      (suc (suc (suc (suc (suc (suc (suc (suc (suc (suc (suc (suc (suc zero))))))))))))) h =
    refl
parse_hexdigit-table
      (suc (suc (suc (suc (suc (suc (suc (suc (suc (suc (suc (suc (suc (suc zero)))))))))))))) h =
    refl
parse_hexdigit-table
      (suc (suc (suc (suc (suc (suc (suc (suc (suc (suc (suc (suc (suc (suc (suc zero)))))))))))))))
      h =
    refl
parse_hexdigit-table
      (suc
        (suc (suc (suc (suc (suc (suc (suc (suc (suc (suc (suc (suc (suc (suc (suc d))))))))))))))))
      h =
    absurd (omega arith)

table-hex_loop :
    (in_ : Bytes) → AllBytes in_ → hex_loop (length in_) (table_loop (length in_) in_) ≡ some in_
unfolding hex_loop table_loop join_digits
table-hex_loop [] h = refl
table-hex_loop (c ∷ rest) h =
    rw
      (
        parse_hexdigit-table (c / 16) (omega (arith, h.0)),
        parse_hexdigit-table (c % 16) (omega arith),
        table-hex_loop rest h.1,
      )
      (joined c rest)
  where
    joined :
        (c : ℕ) (rest : Bytes)
        → join_digits (some (c / 16)) (some (c % 16)) (some rest) ≡ some (c ∷ rest)
    joined c rest = ap (λ d. some (d ∷ rest)) (omega arith)

length-table_loop : (in_ : Bytes) → length (table_loop (length in_) in_) ≡ 2 * length in_
unfolding table_loop
length-table_loop [] = refl
length-table_loop (c ∷ rest) = omega (arith, length-table_loop rest)

-- A text of bytes that fits becomes twice as many hex digits, and these become the text again, in any
-- buffer that is large enough for it.
pub hexstr_to_8bitchars-chars8bit_to_hexstr :
    (in_ : Bytes) (out_size back_size : ℕ)
    → AllBytes in_
    → 2 * length in_ < out_size
    → out_size < 2 ^ 64
    → length in_ < back_size
    → back_size < 2 ^ 64
    → (h : Bytes) × (length h ≡ 2 * length in_)
      × (chars8bit_to_hexstr in_ (length in_) out_size ≡ text h)
      × (hexstr_to_8bitchars h (length h) back_size ≡ text in_)
unfolding chars8bit_to_hexstr hexstr_to_8bitchars
hexstr_to_8bitchars-chars8bit_to_hexstr in_ out_size back_size b p q r t =
    let h = table_loop (length in_) in_ in
    let n = length-table_loop in_ in
    let fits : ltb (sub_size out_size 1) (length in_ * 2 % 2 ^ 64) ≡ false = ground arith in
    let even : (2 * length in_ % 2 == 0) ≡ true = ground arith in
    let back_fits : ltb (sub_size back_size 1) (2 * length in_ / 2) ≡ false = ground arith in
    let half : 2 * length in_ / 2 ≡ length in_ = omega arith in
    (h, n, rw fits refl, rw (n, even, back_fits, half, table-hex_loop in_ b) refl)
