-- ===== src/Pdu/Bounds.antt =====
-- How much `pdu_parse_number` writes to the caller's buffer.
use datacard.Base.{
  ℕ, zero, suc, ◌+◌, ◌*◌, ◌/◌, ◌%◌, ◌≤◌, ◌≡◌, refl, ap, ◌∙◌, sym, Bool, true, false, not, [], ◌∷◌,
  ◌++◌, Option, none, some, arith, subst, ◌&&◌, ltb, leb, ◌==◌, if◌then◌else◌, length,
  length-append, none≢some, Bool-cases, inl, inr,
}
use datacard.Bytes.{Bytes}
use datacard.Pdu.{
  international, code2digit, parse_byte, two_digits, put_digits, number_loop, finish_number,
  number_after, parse_number, round_up2,
}

-- A number of characters that a successful step has written.
abbrev Writes : ℕ → Option (Bytes × Bytes) → Type 0
Writes n none = Unit
Writes n (some (number, rest)) = length number ≡ n

put_digits-Writes :
    (n : ℕ) (d : Option (ℕ × ℕ)) (later : Option (Bytes × Bytes))
    → Writes n later
    → Writes (suc (suc n)) (put_digits d later)
unfolding put_digits
put_digits-Writes n none later h = tt
put_digits-Writes n (some d) none h = tt
put_digits-Writes n (some d) (some r) h = omega arith

number_loop-Writes : (odd : Bool) (n : ℕ) (pdu : Bytes) → Writes (2 * n) (number_loop odd n pdu)
unfolding number_loop
number_loop-Writes odd zero pdu = refl
number_loop-Writes odd (suc n) [] = tt
number_loop-Writes odd (suc n) (x ∷ []) = tt
number_loop-Writes odd (suc n) (x ∷ y ∷ pdu) =
    let e : suc (suc (2 * n)) ≡ 2 * suc n = omega arith in
    subst (λ k. Writes k (number_loop odd (suc n) (x ∷ y ∷ pdu))) e
      (put_digits-Writes (2 * n) (two_digits (n == 0 && odd) (code2digit y) (code2digit x)) _
        (number_loop-Writes odd n pdu))

finish_number-Writes :
    (odd : Bool) (toa n : ℕ) (r : Option (Bytes × Bytes))
    → Writes n r
    → Writes
        ((if toa == international then 1 else 0) + (n + (if odd then 0 else 1)))
        (finish_number odd toa r)
unfolding finish_number
finish_number-Writes odd toa n none h = tt
finish_number-Writes odd toa n (some (number, rest)) h = plus (toa == international) odd
  where
    plus :
        (p o : Bool)
        → length ((if p then b'+' ∷ [] else []) ++ (number ++ (if o then [] else 0 ∷ [])))
          ≡ (if p then 1 else 0) + (n + (if o then 0 else 1))
    plus true true = omega (arith, length-append number [])
    plus true false = omega (arith, length-append number (0 ∷ []))
    plus false true = omega (arith, length-append number [])
    plus false false = omega (arith, length-append number (0 ∷ []))

number_after-Writes :
    (digits toa : ℕ) (pdu : Bytes)
    → Writes
        ((if toa == international then 1 else 0) + (digits + 1))
        (number_after digits (some toa, pdu))
unfolding number_after
number_after-Writes digits toa pdu =
    let odd = not (digits % 2 == 0) in
    let n = round_up2 digits / 2 in
    elim (Bool-cases (leb (round_up2 digits) (length pdu))) [
      | inl b ↦ rw b (
          subst
            (λ k.
              Writes ((if toa == international then 1 else 0) + k)
                (finish_number odd toa (number_loop odd n pdu)))
            (rounded digits)
            (finish_number-Writes odd toa (2 * n) (number_loop odd n pdu)
              (number_loop-Writes odd n pdu)))
      | inr b ↦ rw b tt
    ]
  where
    rounded : (k : ℕ) → 2 * (round_up2 k / 2) + (if not (k % 2 == 0) then 0 else 1) ≡ k + 1
    rounded k = ground arith

-- For a number that it accepts, `pdu_parse_number` writes one character more than the number has
-- digits, and one more still where the type of address is the international one. The buffer was
-- tested for `digits + 1`, so that a buffer of exactly this size is overrun by one character for an
-- international number.
pub parse_number-length :
    (pdu : Bytes) (digits num_len toa : ℕ) (number rest : Bytes)
    → (parse_byte pdu).0 ≡ some toa
    → parse_number pdu digits num_len ≡ some (number, rest)
    → (digits + 1 ≤ num_len)
      × (length number ≡ (if toa == international then 1 else 0) + (digits + 1))
unfolding parse_number
parse_number-length pdu digits num_len toa number rest t e =
    elim (Bool-cases (ltb num_len (digits + 1))) [
      | inl b ↦ absurd (none≢some (rw b at e))
      | inr b ↦
          let f : number_after digits (some toa, (parse_byte pdu).1) ≡ some (number, rest) =
            ap (λ o. number_after digits (o, (parse_byte pdu).1)) (sym t) ∙ rw b at e in
          (
            ground arith,
            subst (Writes ((if toa == international then 1 else 0) + (digits + 1))) f
                (number_after-Writes digits toa (parse_byte pdu).1),
          )
    ]
