-- ===== src/AtRead/Framing.antt =====
-- `at_read_result_iov` returns, and what its vectors hold.
use datacard.Base.{
  ℕ, zero, suc, ◌+◌, ◌-◌, ◌<◌, ◌≡◌, inr, refl, ap, ◌∙◌, sym, Bool, true, false, ◌||◌, List, [], ◌∷◌,
  Option, none, some, arith, ltb, length, take, drop, length-drop, length-take, le→ltb, add_size,
  subst,
}
use datacard.Bytes.Occurs.{Occurs}
use datacard.RingBuffer.{RingBuffer, Iov, read_n_iov, read_until_mem_iov}
use datacard.RingBuffer.Valid.{IsValid, contents}
use datacard.RingBuffer.Read.{gather, length-contents, read_n_iov-gather}
use datacard.RingBuffer.Search.{Reports}
use datacard.RingBuffer.FindPair.{read_until_mem_iov-Reports}
use datacard.AtRead.{
  Round, returns, calls, starts, return_n, return_line, in_answer, round, read_result_iov, crlf,
  text_cssi, text_cssu, text_cms_error, text_cmgs, text_prompt, text_cmgr, text_cnum,
  text_error_cnum, text_clcc,
}
use datacard.AtRead.Consume.{Left, Consumes, round-Consumes}

drop-drop {ℓ} : {A : Type ℓ} (n m k : ℕ) (xs : List A) → k ≡ n + m → drop m (drop n xs) ≡ drop k xs
drop-drop zero m k xs e = ap (λ j. drop j xs) (omega arith)
drop-drop (suc n) m zero xs e = absurd (omega arith)
drop-drop (suc n) zero (suc k) [] e = refl
drop-drop (suc n) (suc m) (suc k) [] e = refl
drop-drop (suc n) m (suc k) (x ∷ xs) e = drop-drop n m k xs (omega arith)

-- The result of the loop `r` from `rb` on: a round that returned, on what was left of the buffer.
abbrev pub Ends : RingBuffer → Option (ℕ × Bool × RingBuffer × Iov) → Type 0
Ends rb none = Unit × ⊥
Ends rb (some (count, out, rb', iov')) =
    ((k : ℕ) × Left rb k rb')
    × ((result : Bool) × (iov : Iov) × (round result rb' iov ≡ returns count out rb' iov'))

Ends-later :
    (rb mid : RingBuffer) (k : ℕ) (r : Option (ℕ × Bool × RingBuffer × Iov))
    → Left rb k mid
    → Ends mid r
    → Ends rb r
Ends-later rb mid k none l h = h
Ends-later rb mid k (some (count, out, rb', iov')) (v, e) ((m, (w, f)), rest) =
    ((k + m, (w, f ∙ ap (drop m) e ∙ drop-drop k m (k + m) (contents rb) refl)), rest)

used-Left : (rb rb' : RingBuffer) (k : ℕ) → Left rb k rb' → rb'.used ≡ rb.used - k
used-Left rb rb' k (v, e) =
    sym (length-contents rb')
    ∙ ap length e
    ∙ length-drop k (contents rb)
    ∙ ap (λ n. n - k) (length-contents rb)

-- A round, and then what the calls of fewer rounds give.
round-Ends :
    (fuel : ℕ) (result : Bool) (rb : RingBuffer) (iov : Iov) (r : Round)
    → IsValid rb
    → rb.used < suc fuel
    → ((out : Bool) (rb' : RingBuffer) (iov' : Iov)
        → IsValid rb'
        → rb'.used < fuel
        → Ends rb' (read_result_iov fuel out rb' iov'))
    → round result rb iov ≡ r
    → Consumes rb r
    → Ends rb (elim r [
      | returns count out rb' iov' ↦ some (count, out, rb', iov')
      | calls out rb' iov' ↦ read_result_iov fuel out rb' iov'
    ])
round-Ends fuel result rb iov (returns count out rb' iov') v h later e c =
    subst (λ b. Ends rb (some (count, out, b, iov'))) (sym c)
      ((0, (v, refl)), (result, iov, e ∙ ap (λ b. returns count out b iov') c))
round-Ends fuel result rb iov (calls out rb' iov') v h later e (k, p, u, l) =
    Ends-later rb rb' k (read_result_iov fuel out rb' iov') l
      (later out rb' iov' l.0 (omega (arith, used-Left rb rb' k l)))

-- With more rounds than there are bytes in a valid buffer, `at_read_result_iov` returns: each call
-- of itself comes after some bytes were taken. The buffer is then valid and holds an end of the bytes
-- that it held, and the result is that of its last activation on them.
pub read_result_iov-Ends :
    (fuel : ℕ) (result : Bool) (rb : RingBuffer) (iov : Iov)
    → IsValid rb
    → rb.used < fuel
    → Ends rb (read_result_iov fuel result rb iov)
unfolding read_result_iov
read_result_iov-Ends zero result rb iov v h = absurd (omega arith)
read_result_iov-Ends (suc fuel) result rb iov v h =
    round-Ends fuel result rb iov (round result rb iov) v h
      (λ out rb' iov' w l. read_result_iov-Ends fuel out rb' iov' w l) refl
      (round-Consumes result rb iov v)

-- A round that looks for the end of a line.
abbrev pub Line : RingBuffer → Round → Type 0
Line rb (returns zero out rb' iov) =
    (out ≡ true) × (rb' ≡ rb) × ((q : ℕ) → ¬ Occurs crlf 2 (contents rb) q)
Line rb (returns (suc n) out rb' iov) =
    (out ≡ false)
    × (rb' ≡ rb)
    × ((p : ℕ) × Occurs crlf 2 (contents rb) p
        × ((q : ℕ) → q < p → ¬ Occurs crlf 2 (contents rb) q)
        × (gather rb.buffer (suc n, iov) ≡ take (p + 1) (contents rb)))
Line rb (calls out rb' iov) = Unit × ⊥

return_n-Line :
    (rb : RingBuffer) (p : ℕ) (r : ℕ × Iov)
    → Occurs crlf 2 (contents rb) p
    → ((q : ℕ) → q < p → ¬ Occurs crlf 2 (contents rb) q)
    → gather rb.buffer r ≡ take (p + 1) (contents rb)
    → Line rb (return_n rb r)
unfolding return_n
return_n-Line rb p (zero, iov) o f g =
    absurd (omega (arith, ap length g, length-take (p + 1) (contents rb), o.0))
return_n-Line rb p (suc n, iov) o f g = (refl, refl, (p, o, f, g))

return_line-Line :
    (rb : RingBuffer) (r : ℕ × Iov)
    → IsValid rb
    → Reports rb (Occurs crlf 2 (contents rb)) r
    → Line rb (return_line rb r)
unfolding return_line
return_line-Line rb (zero, iov) v h = (refl, refl, h)
return_line-Line rb (suc n, iov) v h =
    let p = iov.len0 + iov.len1 in
    let inside = h.0.0 in
    let sum : add_size (add_size iov.len0 iov.len1) 1 ≡ p + 1 =
      ground (arith, length-contents rb, v.fits, v.small) in
    let there : ltb rb.used (p + 1) ≡ false =
      le→ltb rb.used (p + 1) (omega (arith, length-contents rb)) in
    rw sum (
      return_n-Line rb p (read_n_iov rb iov (p + 1)) h.0 h.1
        (read_n_iov-gather rb iov (p + 1) v ∙ rw there refl))

-- In an answer that is none of the special ones, the vectors are those of the line up to the first
-- "\r\n", its '\r' included, wherever the line lies in the buffer, and a new answer is awaited. Where
-- there is no "\r\n" yet no vectors are given and the answer goes on.
pub in_answer-Line :
    (rb : RingBuffer) (iov : Iov)
    → IsValid rb
    → starts rb text_cssi ≡ false
    → (starts rb text_cssu || starts rb text_cms_error || starts rb text_cmgs) ≡ false
    → starts rb text_prompt ≡ false
    → (starts rb text_cmgr
        || starts rb text_cnum
        || starts rb text_error_cnum
        || starts rb text_clcc)
      ≡ false
    → Line rb (in_answer rb iov)
unfolding in_answer
in_answer-Line rb iov v a b c d =
    rw (a, b, c, d)
      (return_line-Line rb (read_until_mem_iov rb iov crlf 2) v
        (read_until_mem_iov-Reports rb iov crlf 2 v (omega arith) (inr (omega arith))))
