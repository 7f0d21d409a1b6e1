-- ===== src/RingBuffer/Read.antt =====
-- What a reader of `struct ringbuffer` sees: the pieces of `rb_read_all_iov` and `rb_read_n_iov`,
-- and the bytes that `rb_read_upd` leaves.
use native.Mathlib.Decide.{ℕ_discrete}
use datacard.Base.{
  ℕ, zero, suc, ◌+◌, ◌-◌, ◌≤◌, ◌<◌, ◌≡◌, refl, ap, ◌∙◌, sym, [], ◌++◌, arith, ltb, if◌then◌else◌,
  Bool-cases, inl, inr, ltb→lt, ltb→le, lt→ltb, le→ltb, take_of_le, ◌≢◌, true, false, length, take,
  drop, length-tabulate, get_or-tabulate, list_ext, add_size, length-take, length-drop, get_or-take,
  min,
}
use datacard.Bytes.{Bytes, byte_at, slice}
use datacard.Bytes.Occurs.{byte_at-drop}
use datacard.RingBuffer.{RingBuffer, Iov, read_all_iov, read_n_iov, read_upd}
use datacard.RingBuffer.Valid.{IsValid, wrap, window, contents, slice-window, slices-window}

-- The bytes that the first `count` vectors of an `iov` array point at.
abbrev pub gather : Bytes → ℕ × Iov → Bytes
gather b (zero, iov) = []
gather b (suc zero, iov) = slice b iov.base0 iov.len0
gather b (suc (suc n), iov) = slice b iov.base0 iov.len0 ++ slice b iov.base1 iov.len1

pub length-contents : (rb : RingBuffer) → length (contents rb) ≡ rb.used
length-contents rb = length-tabulate rb.used _

pub byte_at-contents :
    (rb : RingBuffer) (i : ℕ)
    → i < rb.used
    → byte_at (contents rb) i ≡ byte_at rb.buffer (wrap rb.size (rb.read + i))
byte_at-contents rb i h = get_or-tabulate rb.used _ i 0 h

pub take-window :
    (b : Bytes) (size start n k : ℕ)
    → k ≤ n
    → take k (window b size start n) ≡ window b size start k
take-window b size start n k h =
    list_ext _ _ 0
      (omega (
        arith,
        length-take k (window b size start n),
        length-tabulate n (λ i. byte_at b (wrap size (start + i))),
        length-tabulate k (λ i. byte_at b (wrap size (start + i))),
      ))
      (λ i p.
        let q : i < k = omega (arith, length-take k (window b size start n)) in
        get_or-take k (window b size start n) i 0 q
        ∙ get_or-tabulate n _ i 0 (omega arith)
        ∙ sym (get_or-tabulate k _ i 0 q))

-- `rb_read_n_iov` with the `size_t` sums resolved.
read_n_iov_lem :
    (rb : RingBuffer) (iov : Iov) (n : ℕ)
    → IsValid rb
    → 0 < n
    → n ≤ rb.used
    → read_n_iov rb iov n ≡ (
        if ltb rb.size (rb.read + n)
        then (
          2,
          record {
            base0 = rb.read;
            len0 = rb.size - rb.read;
            base1 = 0;
            len1 = n - (rb.size - rb.read);
          },
        )
        else (1, record iov { base0 = rb.read; len0 = n; len1 = 0 }))
unfolding read_n_iov
read_n_iov_lem rb iov n v p h =
    let enough : ltb rb.used n ≡ false = le→ltb _ _ h in
    let positive : ltb 0 n ≡ true = lt→ltb _ _ p in
    let end : add_size rb.read n ≡ rb.read + n = omega arith in
    rw (enough, positive, end) (ground arith)

gather_n :
    (rb : RingBuffer) (iov : Iov) (n : ℕ)
    → IsValid rb
    → 0 < n
    → n ≤ rb.used
    → gather rb.buffer (read_n_iov rb iov n) ≡ window rb.buffer rb.size rb.read n
gather_n rb iov n v p h =
    rw (read_n_iov_lem rb iov n v p h) (elim (Bool-cases (ltb rb.size (rb.read + n))) [
      | inl e ↦ rw e (
          slices-window rb.buffer rb.size rb.read n v.whole (omega arith)
            (omega (arith, ltb→lt _ _ e)) (omega arith))
      | inr e ↦
          rw e (slice-window rb.buffer rb.size rb.read n v.whole (omega (arith, ltb→le _ _ e)))
    ])

read_n_iov_zero : (rb : RingBuffer) (iov : Iov) (n : ℕ) → n ≡ 0 → read_n_iov rb iov n ≡ (0, iov)
unfolding read_n_iov
read_n_iov_zero rb iov n h = ground arith

read_n_iov_short :
    (rb : RingBuffer) (iov : Iov) (n : ℕ) → rb.used < n → read_n_iov rb iov n ≡ (0, iov)
unfolding read_n_iov
read_n_iov_short rb iov n h = ground arith

take_none : (b : Bytes) (n : ℕ) → n ≡ 0 → take n b ≡ []
take_none b zero h = refl
take_none b (suc n) h = absurd (omega arith)

-- The vectors of `rb_read_n_iov` hold the oldest `len` bytes, in order, or none if there are not
-- so many.
pub read_n_iov-gather :
    (rb : RingBuffer) (iov : Iov) (n : ℕ)
    → IsValid rb
    → gather rb.buffer (read_n_iov rb iov n) ≡ (if ltb rb.used n then [] else take n (contents rb))
read_n_iov-gather rb iov n v = elim (Bool-cases (ltb rb.used n)) [
  | inl e ↦ rw (e, read_n_iov_short rb iov n (ltb→lt _ _ e)) refl
  | inr e ↦ rw e (elim (ℕ_discrete n 0) [
    | yes z ↦ rw (read_n_iov_zero rb iov n z) (sym (take_none (contents rb) n z))
    | no z ↦
        gather_n rb iov n v (omega arith) (ltb→le _ _ e)
        ∙ sym (take-window rb.buffer rb.size rb.read rb.used n (ltb→le _ _ e))
  ])
]

read_all_iov-eq-read_n_iov :
    (rb : RingBuffer) (iov : Iov) → read_all_iov rb iov ≡ read_n_iov rb iov rb.used
unfolding read_all_iov read_n_iov
read_all_iov-eq-read_n_iov rb iov = ground arith

-- The vectors of `rb_read_all_iov` hold exactly the bytes of the buffer, oldest first.
pub read_all_iov-gather :
    (rb : RingBuffer) (iov : Iov)
    → IsValid rb
    → gather rb.buffer (read_all_iov rb iov) ≡ contents rb
read_all_iov-gather rb iov v =
    ap (gather rb.buffer) (read_all_iov-eq-read_n_iov rb iov)
    ∙ read_n_iov-gather rb iov rb.used v
    ∙ whole
  where
    whole : (if ltb rb.used rb.used then [] else take rb.used (contents rb)) ≡ contents rb
    whole =
        let e : ltb rb.used rb.used ≡ false = le→ltb _ _ (omega arith) in
        rw e (take_of_le rb.used (contents rb) (omega (arith, length-contents rb)))

-- The number of bytes that `rb_read_upd` drops.
pub read_upd_fields :
    (rb : RingBuffer) (n : ℕ)
    → IsValid rb
    → ((read_upd rb n).0 ≡ min n rb.used)
      × ((read_upd rb n).1.buffer ≡ rb.buffer)
      × ((read_upd rb n).1.size ≡ rb.size)
      × ((read_upd rb n).1.used ≡ rb.used - n)
      × ((read_upd rb n).1.used ≢ 0 → (read_upd rb n).1.read ≡ wrap rb.size (rb.read + n))
unfolding read_upd
read_upd_fields rb n v = (ground arith, ground arith, ground arith, ground arith, ground arith)

-- `rb_read_upd` drops the oldest `len` bytes, or all if there are fewer, and returns how many.
pub read_upd-contents :
    {rb : RingBuffer} (n : ℕ)
    → IsValid rb
    → ((read_upd rb n).0 ≡ min n rb.used) × (contents (read_upd rb n).1 ≡ drop n (contents rb))
read_upd-contents {rb} n v =
    let f = read_upd_fields rb n v in
    let q = (read_upd rb n).1 in
    let len = length-drop n (contents rb) in
    (
      f.0,
      list_ext (contents q) (drop n (contents rb)) 0
          (omega (arith, length-contents q, length-contents rb, len, f.3))
          (λ i p.
            let l : i < q.used = omega (arith, length-contents q) in
            let r : q.read ≡ wrap rb.size (rb.read + n) = f.4 (λ z. absurd (omega arith)) in
            let w : wrap q.size (q.read + i) ≡ wrap rb.size (rb.read + (n + i)) =
              ground (arith, f) in
            byte_at-contents q i l
            ∙ ap (λ b. byte_at b (wrap q.size (q.read + i))) f.1
            ∙ ap (byte_at rb.buffer) w
            ∙ sym (byte_at-contents rb (n + i) (omega (arith, f.3)))
            ∙ sym (byte_at-drop n (contents rb) i)),
    )
