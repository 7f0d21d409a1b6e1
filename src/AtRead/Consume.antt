-- ===== src/AtRead/Consume.antt =====
-- What one activation of `at_read_result_iov` takes out of the buffer, and that it returns.
use datacard.Base.{
  ℕ, zero, suc, ◌<◌, ◌≡◌, inl, inr, refl, Bool, true, false, ◌||◌, arith, ltb, if◌then◌else◌,
  Bool-cases, drop, ltb→lt,
}
use datacard.RingBuffer.{
  RingBuffer, Iov, Compare, same, differs, short, mem_compare, read_n_iov, read_until_char_iov,
  read_until_mem_iov, read_upd,
}
use datacard.RingBuffer.Valid.{IsValid, contents, read_upd-IsValid}
use datacard.RingBuffer.Read.{read_upd-contents}
use datacard.RingBuffer.Search.{Reports, Holds}
use datacard.RingBuffer.FindChar.{read_until_char_iov-Reports}
use datacard.AtRead.{
  Round, returns, calls, starts, line_feed, line_length, skip_line, before_answer, when_found,
  return_n, return_line, in_answer, round, crlf, text_cssi, text_cssu, text_cms_error, text_cmgs,
  text_prompt, text_cmgr, text_cnum, text_error_cnum, text_clcc,
}

-- `rb'` is what is left of `rb` after `k` bytes.
abbrev pub Left : RingBuffer → ℕ → RingBuffer → Type 0
Left rb k rb' = IsValid rb' × (contents rb' ≡ drop k (contents rb))

-- A round that returns leaves the buffer as it is, and one that goes on has taken some bytes.
abbrev pub Consumes : RingBuffer → Round → Type 0
Consumes rb (returns count result rb' iov) = rb' ≡ rb
Consumes rb (calls result rb' iov) = (k : ℕ) × (0 < k) × (0 < rb.used) × Left rb k rb'

calls-Consumes :
    (rb : RingBuffer) (result : Bool) (k : ℕ) (iov : Iov)
    → IsValid rb
    → 0 < rb.used
    → 0 < k
    → Consumes rb (calls result (read_upd rb k).1 iov)
calls-Consumes rb result k iov v u p = (k, p, u, (read_upd-IsValid k v, (read_upd-contents k v).1))

line_length_positive :
    (rb : RingBuffer) (r : ℕ × Iov)
    → IsValid rb
    → 0 < rb.used
    → Reports rb (Holds rb 13) r
    → 0 < line_length rb r
unfolding line_length
line_length_positive rb (zero, iov) v u h = u
line_length_positive rb (suc n, iov) v u h = ground (arith, h.0, v.fits, v.small)

skip_line-Consumes :
    (rb : RingBuffer) (iov : Iov) → IsValid rb → 0 < rb.used → Consumes rb (skip_line rb iov)
unfolding skip_line
skip_line-Consumes rb iov v u = elim (Bool-cases (starts rb line_feed)) [
  | inl b ↦ rw b (calls-Consumes rb false 1 iov v u (omega arith))
  | inr b ↦ rw b (
      calls-Consumes rb false (line_length rb (read_until_char_iov rb iov 13))
        (read_until_char_iov rb iov 13).1 v u
        (line_length_positive rb (read_until_char_iov rb iov 13) v u
          (read_until_char_iov-Reports rb iov 13 v)))
]

before_answer-Consumes :
    (rb : RingBuffer) (iov : Iov) (c : Compare)
    → IsValid rb
    → 0 < rb.used
    → Consumes rb (before_answer rb iov c)
unfolding before_answer
before_answer-Consumes rb iov same v u = calls-Consumes rb true 2 iov v u (omega arith)
before_answer-Consumes rb iov differs v u = skip_line-Consumes rb iov v u
before_answer-Consumes rb iov short v u = refl

when_found-Consumes : (rb : RingBuffer) (r : ℕ × Iov) → Consumes rb (when_found rb r)
unfolding when_found
when_found-Consumes rb (zero, iov) = refl
when_found-Consumes rb (suc n, iov) = refl

return_line-Consumes : (rb : RingBuffer) (r : ℕ × Iov) → Consumes rb (return_line rb r)
unfolding return_line return_n
return_line-Consumes rb (zero, iov) = refl
return_line-Consumes rb (suc n, iov) = refl

-- A conditional round
if-Consumes :
    (rb : RingBuffer) (b : Bool) (r s : Round)
    → Consumes rb r
    → Consumes rb s
    → Consumes rb (if b then r else s)
if-Consumes rb true r s f g = f
if-Consumes rb false r s f g = g

in_answer-Consumes :
    (rb : RingBuffer) (iov : Iov) → IsValid rb → 0 < rb.used → Consumes rb (in_answer rb iov)
unfolding in_answer return_n
in_answer-Consumes rb iov v u =
    if-Consumes rb (starts rb text_cssi) _ _ (when_found-Consumes rb (read_n_iov rb iov 8)) (
      if-Consumes rb (starts rb text_cssu || starts rb text_cms_error || starts rb text_cmgs) _ _
        (calls-Consumes rb true 2 iov v u (omega arith))
        (if-Consumes rb (starts rb text_prompt) _ _ refl (
          if-Consumes rb
            (starts rb text_cmgr
              || starts rb text_cnum
              || starts rb text_error_cnum
              || starts rb text_clcc)
            _ _ (when_found-Consumes rb _)
            (return_line-Consumes rb (read_until_mem_iov rb iov crlf 2)))))

pub round-Consumes :
    (result : Bool) (rb : RingBuffer) (iov : Iov) → IsValid rb → Consumes rb (round result rb iov)
unfolding round
round-Consumes result rb iov v = elim (Bool-cases (ltb 0 rb.used)) [
  | inl b ↦ rw b (
      if-Consumes rb result _ _ (in_answer-Consumes rb iov v (ltb→lt 0 rb.used b))
        (before_answer-Consumes rb iov (mem_compare rb crlf 2) v (ltb→lt 0 rb.used b)))
  | inr b ↦ rw b refl
]
