-- ===== src/RingBuffer/Append.antt =====
-- The writers of `struct ringbuffer` as appends to the bytes held: `rb_write_core`, `rb_write`,
-- and a scatter into the vectors of `rb_write_iov` with `rb_write_upd`.
use native.Mathlib.Decide.{dec_lt}
use datacard.Base.{
  ℕ, zero, suc, ◌+◌, ◌-◌, ◌≤◌, ◌<◌, ◌≡◌, refl, ap, ◌∙◌, sym, ◌++◌, arith, ltb, if◌then◌else◌,
  Bool-cases, inl, inr, ltb→le, lt→ltb, length, take, drop, add_size, sub_size, length-take,
  length-drop, ◌==◌, min, true, take_of_le, length-tabulate,
}
use datacard.Bytes.{Bytes, blit}
use datacard.Bytes.Pieces.{KeepsLength, length-blit}
use datacard.RingBuffer.{RingBuffer, Iov, free, write_iov, write_upd, write_core, write_bytes, copy}
use datacard.RingBuffer.Valid.{
  IsValid, window, contents, taken, write_core-IsValid, write_upd-IsValid,
}
use datacard.RingBuffer.Write.{
  Replaced, SplitsAt, region_of, write_core_fields, write_core-Replaced, Replaced-window,
  flat-Replaced, split-Replaced,
}

copy-KeepsLength : KeepsLength copy
copy-KeepsLength d s e = sym e

copy-SplitsAt : (first : ℕ) → SplitsAt first copy
copy-SplitsAt first d d' s s' e f g = refl

length-window : (b : Bytes) (size start n : ℕ) → length (window b size start n) ≡ n
length-window b size start n = length-tabulate n _

-- `rb_write_core` appends to the bytes held what the method makes of the free bytes and the
-- source, as many bytes as fit.
pub write_core-contents :
    {rb : RingBuffer} (buf : Bytes) (n : ℕ) (method : Bytes → Bytes → Bytes)
    → KeepsLength method
    → n ≤ length buf
    → IsValid rb
    → (rb.size < rb.write + taken rb n → SplitsAt (rb.size - rb.write) method)
    → contents (write_core rb buf n method).1 ≡ contents rb ++ region_of rb buf (taken rb n) method
write_core-contents {rb} buf n method keep given v splits =
    let k = taken rb n in
    let q = (write_core rb buf n method).1 in
    let (c, z, r, u) = write_core_fields buf n method v in
    let made =
      keep (window rb.buffer rb.size rb.write k) (take k buf)
        (length-window rb.buffer rb.size rb.write k ∙ ground (arith, length-take k buf)) in
    rw (z, r, u)
      (Replaced-window rb.buffer q.buffer rb.size rb.read rb.used rb.write k
        (region_of rb buf k method) v.read_in v.write_in (ground arith) v.write_at
        (made ∙ length-window rb.buffer rb.size rb.write k)
        (write_core-Replaced buf n method keep given v splits))

-- `rb_write` takes as many of the `n` bytes as are free, returns their number, and appends exactly
-- those, in order.
pub write_bytes-contents :
    {rb : RingBuffer} (buf : Bytes) (n : ℕ)
    → n ≤ length buf
    → IsValid rb
    → let (k, q) = write_bytes rb buf n in
      (k ≡ min n (rb.size - rb.used)) × (contents q ≡ contents rb ++ take k buf) × IsValid q
unfolding write_bytes
write_bytes-contents {rb} buf n given v =
    let w = write_core_fields buf n copy v in
    (
      w.0 ∙ ground arith,
      write_core-contents buf n copy copy-KeepsLength given v (λ h. copy-SplitsAt _)
          ∙ ap (λ m. contents rb ++ take m buf) (sym w.0),
      write_core-IsValid buf n copy copy-KeepsLength given v,
    )

-- `readv`: the bytes read fill the first vector, then the second.
abbrev pub scatter : Bytes → ℕ × Iov → Bytes → Bytes
scatter b (zero, iov) src = b
scatter b (suc zero, iov) src = blit copy b iov.base0 src (min (length src) iov.len0)
scatter b (suc (suc n), iov) src =
    let first = min (length src) iov.len0 in
    blit copy (blit copy b iov.base0 src first) iov.base1 (drop first src)
      (min (length src - first) iov.len1)

write_iov_lem :
    (rb : RingBuffer) (iov : Iov)
    → IsValid rb
    → rb.used < rb.size
    → write_iov rb iov ≡ (
        if ltb rb.size (rb.write + (rb.size - rb.used))
        then (
          2,
          record {
            base0 = rb.write;
            len0 = rb.size - rb.write;
            base1 = 0;
            len1 = rb.size - rb.used - (rb.size - rb.write);
          },
        )
        else (1, record iov { base0 = rb.write; len0 = rb.size - rb.used }))
unfolding write_iov free
write_iov_lem rb iov v h =
    let room : sub_size rb.size rb.used ≡ rb.size - rb.used = omega arith in
    let positive : ltb 0 (rb.size - rb.used) ≡ true = lt→ltb _ _ (omega arith) in
    let end : add_size rb.write (rb.size - rb.used) ≡ rb.write + (rb.size - rb.used) =
      omega arith in
    rw (room, positive, end) (ground arith)

length-scatter :
    (b : Bytes) (count : ℕ) (iov : Iov) (src : Bytes)
    → iov.base0 + iov.len0 ≤ length b
    → (count ≡ 2 → iov.base1 + iov.len1 ≤ length b)
    → count ≤ 2
    → length (scatter b (count, iov) src) ≡ length b
length-scatter b zero iov src h k c = refl
length-scatter b (suc zero) iov src h k c =
    length-blit copy copy-KeepsLength b iov.base0 src (min (length src) iov.len0) (omega arith)
      (omega arith)
length-scatter b (suc (suc n)) iov src h k c =
    let first = min (length src) iov.len0 in
    let two : suc (suc n) ≡ 2 = omega arith in
    let once =
      length-blit copy copy-KeepsLength b iov.base0 src first (omega arith) (omega arith) in
    length-blit copy copy-KeepsLength (blit copy b iov.base0 src first) iov.base1 (drop first src)
      (min (length src - first) iov.len1) (omega (arith, k two))
      (omega (arith, length-drop first src))
    ∙ once

-- The vectors of `rb_write_iov` lie in the buffer, and hold as many bytes as are free.
pub write_iov_bounds :
    (rb : RingBuffer) (iov : Iov)
    → IsValid rb
    → rb.used < rb.size
    → let (count, w) = write_iov rb iov in
      (0 < count)
      × (count ≤ 2)
      × (w.base0 + w.len0 ≤ rb.size)
      × (count ≡ 2 → w.base1 + w.len1 ≤ rb.size)
      × (w.len0 + (if count == 2 then w.len1 else 0) ≡ rb.size - rb.used)
write_iov_bounds rb iov v h = rw (write_iov_lem rb iov v h) (ground arith)

scatter-IsValid :
    {rb : RingBuffer} (iov : Iov) (src : Bytes)
    → IsValid rb
    → rb.used < rb.size
    → IsValid (record rb { buffer = scatter rb.buffer (write_iov rb iov) src })
scatter-IsValid {rb} iov src v h =
    let w = write_iov rb iov in
    let (p, c, f, s, t) = write_iov_bounds rb iov v h in
    let len =
      length-scatter rb.buffer w.0 w.1 src (omega (arith, v.whole)) (λ e. omega (arith, s e)) c in
    record {
      whole = len ∙ v.whole;
      small = v.small;
      read_in = v.read_in;
      fits = v.fits;
      write_in = v.write_in;
      write_at = v.write_at;
    }

-- `write` may be `size` here, so the first vector may be empty.
scatter-Replaced :
    (rb : RingBuffer) (iov : Iov) (src : Bytes)
    → IsValid rb
    → 0 < length src
    → length src ≤ rb.size - rb.used
    → Replaced rb.buffer
        (scatter rb.buffer (write_iov rb iov) src)
        rb.size
        rb.write
        (length src)
        (take (length src) src)
scatter-Replaced rb iov src v p h =
    rw (write_iov_lem rb iov v (omega arith))
      (elim (Bool-cases (ltb rb.size (rb.write + (rb.size - rb.used)))) [
        | inr e ↦ rw e (
            let all : min (length src) (rb.size - rb.used) ≡ length src = omega arith in
            rw all (
              flat-Replaced rb.buffer rb.size rb.write (length src) src copy copy-KeepsLength
                v.whole (omega arith) (omega (arith, ltb→le _ _ e))))
        | inl e ↦ rw e (elim (dec_lt rb.size (rb.write + length src)) [
          | yes l ↦
              let first : min (length src) (rb.size - rb.write) ≡ rb.size - rb.write =
                omega arith in
              let second : min (length src - (rb.size - rb.write))
                    (rb.size - rb.used - (rb.size - rb.write))
                  ≡ rb.write + length src - rb.size =
                omega arith in
              rw (first, second)
                (split-Replaced rb.buffer rb.size rb.write (length src) src copy copy-KeepsLength
                  v.whole (omega arith) v.write_in l (omega arith) (copy-SplitsAt _))
          | no l ↦
              let first : min (length src) (rb.size - rb.write) ≡ length src = omega arith in
              let second : min (length src - length src) (rb.size - rb.used - (rb.size - rb.write))
                  ≡ 0 =
                omega arith in
              rw (first, second)
                (flat-Replaced rb.buffer rb.size rb.write (length src) src copy copy-KeepsLength
                  v.whole (omega arith) (omega arith))
        ])
      ])

write_upd_fields :
    (rb : RingBuffer) (n : ℕ)
    → IsValid rb
    → n ≤ rb.size - rb.used
    → ((write_upd rb n).1.buffer ≡ rb.buffer)
      × ((write_upd rb n).1.size ≡ rb.size)
      × ((write_upd rb n).1.read ≡ rb.read)
      × ((write_upd rb n).1.used ≡ rb.used + n)
unfolding write_upd free
write_upd_fields rb n v h = (ground arith, ground arith, ground arith, ground arith)

-- `readv` into the vectors of `rb_write_iov`, then `rb_write_upd` by the number of bytes read,
-- appends exactly the bytes read.
pub scatter-contents :
    {rb : RingBuffer} (iov : Iov) (src : Bytes)
    → IsValid rb
    → 0 < length src
    → length src ≤ rb.size - rb.used
    → let filled : RingBuffer = record rb { buffer = scatter rb.buffer (write_iov rb iov) src } in
      (contents (write_upd filled (length src)).1 ≡ contents rb ++ src)
      × IsValid (write_upd filled (length src)).1
scatter-contents {rb} iov src v p h =
    let b' = scatter rb.buffer (write_iov rb iov) src in
    let filled : RingBuffer = record rb { buffer = b' } in
    let v' : IsValid filled = scatter-IsValid iov src v (omega arith) in
    let (f, g, r, u) = write_upd_fields filled (length src) v' h in
    (
      rw (f, g, r, u)
          (Replaced-window rb.buffer b' rb.size rb.read rb.used rb.write (length src)
              (take (length src) src) v.read_in v.write_in (omega arith) v.write_at
              (ap length (take_of_le (length src) src (omega arith)))
              (scatter-Replaced rb iov src v p h)
            ∙ ap (λ t. contents rb ++ t) (take_of_le (length src) src (omega arith))),
      write_upd-IsValid (length src) v',
    )

-- The positions that `rb_write` leaves.
pub write_bytes_fields :
    {rb : RingBuffer} (buf : Bytes) (n : ℕ)
    → n ≤ length buf
    → IsValid rb
    → let (k, q) = write_bytes rb buf n in
      (q.size ≡ rb.size) × (q.read ≡ rb.read) × (q.used ≡ rb.used + k)
unfolding write_bytes
write_bytes_fields {rb} buf n given v =
    let w = write_core_fields buf n copy v in (w.1, w.2, w.3 ∙ ap (λ m. rb.used + m) (sym w.0))
