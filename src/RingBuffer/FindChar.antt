-- ===== src/RingBuffer/FindChar.antt =====
-- `rb_read_until_char_iov` finds the first such byte held.
use native.Mathlib.Decide.{dec_lt}
use datacard.Base.{
  ℕ, ◌+◌, ◌-◌, ◌≤◌, ◌<◌, ◌≡◌, Option, none, some, refl, arith, ltb, Bool-cases, inl, inr, ltb→lt,
  ltb→le, add_size, sub_size,
}
use datacard.Bytes.Occurs.{IsFirst, IsFirst-iff}
use datacard.RingBuffer.{RingBuffer, Iov, read_until_char_iov, found_first}
use datacard.RingBuffer.Valid.{IsValid}
use datacard.RingBuffer.Search.{Reports, Holds}
use datacard.RingBuffer.Find.{report_first, report_both, flat-Reports, IsFirst-Holds, second-Holds}

module _ (rb : RingBuffer) (iov : Iov) (c : ℕ) (v : IsValid rb) where
  below : (q : ℕ) → Holds rb c q → q < rb.used
  below q h = h.0

  wrapped-Reports :
      (n : ℕ) (r s : Option ℕ)
      → n ≡ rb.size - rb.read
      → rb.size ≤ rb.read + rb.used
      → IsFirst (λ q. (q < rb.size - rb.read) × Holds rb c q) r
      → IsFirst (λ q. Holds rb c (rb.size - rb.read + q)) s
      → let first = record iov { base0 = rb.read; len0 = n } in
        Reports rb (Holds rb c) (elim r [
          | some p ↦ found_first first p
          | none ↦ elim s [ some p ↦ (2, record first { base1 = 0; len1 = p }) | none ↦ (0, first) ]
        ])
  wrapped-Reports n (some p) s e l h k =
      report_first rb (Holds rb c) v below (record iov { base0 = rb.read; len0 = n }) p refl h.0.1
        (λ q m a. h.1 q m (omega (arith, h.0.0), a)) (omega (arith, h.0.0))
  wrapped-Reports n none (some p) e l h k = rw e (
      report_both rb (Holds rb c) v below p k.0 (λ q m a. elim (dec_lt q (rb.size - rb.read)) [
        | yes o ↦ h q (o, a)
        | no o ↦
            let f : rb.size - rb.read + (q - (rb.size - rb.read)) ≡ q = omega arith in
            k.1 (q - (rb.size - rb.read)) (omega arith) (rw f a)
      ]))
  wrapped-Reports n none none e l h k = λ q a. elim (dec_lt q (rb.size - rb.read)) [
    | yes o ↦ h q (o, a)
    | no o ↦
        let f : rb.size - rb.read + (q - (rb.size - rb.read)) ≡ q = omega arith in
        k (q - (rb.size - rb.read)) (rw f a)
  ]

  -- `rb_read_until_char_iov` reports the vectors up to the first byte `c` held, going round the end
  -- of the buffer, and returns 0 exactly when there is none.
  pub read_until_char_iov-Reports : Reports rb (Holds rb c) (read_until_char_iov rb iov c)
  unfolding read_until_char_iov
  read_until_char_iov-Reports =
      let end : add_size rb.read rb.used ≡ rb.read + rb.used = omega arith in
      elim (Bool-cases (ltb 0 rb.used)) [
        | inr z ↦ rw z (λ q h. absurd (omega (arith, h.0, ltb→le _ _ z)))
        | inl z ↦ elim (Bool-cases (ltb rb.size (rb.read + rb.used))) [
          | inr e ↦
              rw (z, end, e)
                (flat-Reports rb (Holds rb c) v below
                  (record iov { base0 = rb.read; len0 = rb.used }) _ refl (ltb→le _ _ e)
                  (IsFirst-iff _ _ _ (λ q. (λ a. a.1, λ a. (a.0, a)))
                    (IsFirst-Holds rb iov c v rb.used (omega arith) (ltb→le _ _ e))))
          | inl e ↦
              let l = ltb→lt _ _ e in
              let n = sub_size rb.size rb.read in
              rw (z, end, e)
                (wrapped-Reports n _ _ (omega arith) (omega arith)
                  (IsFirst-iff _ _ _
                    (λ q. (λ a. (omega (arith, a.0), a.1), λ a. (omega (arith, a.0), a.1)))
                    (IsFirst-Holds rb iov c v n (omega arith) (omega arith)))
                  (second-Holds rb iov c v (sub_size rb.used n) (omega arith) (omega arith)))
        ]
      ]
