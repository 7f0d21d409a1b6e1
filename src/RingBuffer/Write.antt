-- ===== src/RingBuffer/Write.antt =====
-- What a writer of `struct ringbuffer` does to the bytes held: `rb_write_core` with any method,
-- `rb_write`, and a scatter into the vectors of `rb_write_iov` followed by `rb_write_upd`.
use datacard.Base.{
  ℕ, zero, suc, ◌+◌, ◌-◌, ◌≤◌, ◌<◌, ◌≡◌, refl, ap, ap₂, ◌∙◌, sym, [], ◌∷◌, ◌++◌, arith, ltb, leb,
  if◌then◌else◌, length, take, drop, length-tabulate, get_or-tabulate, list_ext, length-take,
  length-drop, get_or-take, ◌&&◌, length-append,
}
use datacard.Bytes.{Bytes, byte_at, slice, blit}
use datacard.Bytes.Pieces.{
  KeepsLength, byte_at-append, byte_at-blit, length-blit, length-made, length-slice,
}
use datacard.RingBuffer.{RingBuffer, write_core}
use datacard.RingBuffer.Valid.{
  IsValid, wrap, window, taken, write_core_cases, slice-window, slices-window,
}

-- `b'` is `b` with the `n` bytes from `start` on, going round the end, replaced by `made`.
abbrev pub Replaced : Bytes → Bytes → ℕ → ℕ → ℕ → Bytes → Type 0
Replaced b b' size start n made =
    (j : ℕ)
    → j < size
    → byte_at b' j ≡ (
        if leb start j && ltb j (start + n)
        then byte_at made (j - start)
        else if ltb j (start + n - size)
        then byte_at made (j + size - start)
        else byte_at b j)

-- The method works on two adjacent pieces as on the whole; `first` is where they meet.
abbrev pub SplitsAt : ℕ → (Bytes → Bytes → Bytes) → Type 0
SplitsAt first method =
    (d d' s s' : Bytes)
    → length d ≡ first
    → length s ≡ first
    → length d' ≡ length s'
    → method (d ++ d') (s ++ s') ≡ method d s ++ method d' s'

take_of_nil : (m : ℕ) → take {A = ℕ} m [] ≡ []
take_of_nil zero = refl
take_of_nil (suc m) = refl

take-take-drop : (s : Bytes) (n k : ℕ) → take n s ++ take k (drop n s) ≡ take (n + k) s
take-take-drop s zero k = ap (λ m. take m s) {x = k} (omega arith)
take-take-drop [] (suc n) k = take_of_nil k ∙ sym (take_of_nil (suc n + k))
take-take-drop (x ∷ s) (suc n) k =
    let e : suc n + k ≡ suc (n + k) = omega arith in rw e (ap (λ t. x ∷ t) (take-take-drop s n k))

slice-blit_before :
    (method : Bytes → Bytes → Bytes) (keep : KeepsLength method) (b : Bytes) (off : ℕ) (src : Bytes)
    (n m : ℕ)
    → off + n ≤ length b
    → n ≤ length src
    → m ≤ off
    → slice (blit method b off src n) 0 m ≡ slice b 0 m
slice-blit_before method keep b off src n m fits given h =
    let b' = blit method b off src n in
    let len = length-blit method keep b off src n fits given in
    list_ext _ _ 0
      (omega (arith, length-slice b' 0 m (omega arith), length-slice b 0 m (omega arith)))
      (λ i p.
        let q : i < m = omega (arith, length-slice b' 0 m (omega arith)) in
        get_or-take m b' i 0 q
        ∙ ground (arith, byte_at-blit method keep b off src n fits given i)
        ∙ sym (get_or-take m b i 0 q))

module _ (b : Bytes) (size start n : ℕ) (src : Bytes) (method : Bytes → Bytes → Bytes)
    (keep : KeepsLength method) (whole : length b ≡ size) (given : n ≤ length src) where
  -- What the method makes of the region.
  abbrev pub region : Bytes
  region = method (window b size start n) (take n src)

  pub flat-Replaced : start + n ≤ size → Replaced b (blit method b start src n) size start n region
  flat-Replaced h =
      rw (← slice-window b size start n whole h)
        (λ j p. ground (arith, byte_at-blit method keep b start src n (omega arith) given j))

  abbrev split_blit : Bytes
  split_blit =
      blit method (blit method b start src (size - start)) 0 (drop (size - start) src)
        (start + n - size)

  split-region :
      start ≤ size
      → size < start + n
      → n ≤ size
      → SplitsAt (size - start) method
      → region
        ≡ method (slice b start (size - start)) (take (size - start) src)
          ++ method
              (slice b 0 (start + n - size))
              (take (start + n - size) (drop (size - start) src))
  split-region h k l splits =
      let second : n - (size - start) ≡ start + n - size = omega arith in
      let total : size - start + (start + n - size) ≡ n = omega arith in
      ap₂ method
        (sym (slices-window b size start n whole h (omega arith) l)
          ∙ ap (λ m. slice b start (size - start) ++ slice b 0 m) second)
        (ap (λ m. take m src) (sym total)
          ∙ sym (take-take-drop src (size - start) (start + n - size)))
      ∙ splits _ _ _ _ (length-slice b start (size - start) (omega arith))
          (omega (arith, length-take (size - start) src))
          (omega (
            arith,
            length-slice b 0 (start + n - size) (omega arith),
            length-take (start + n - size) (drop (size - start) src),
            length-drop (size - start) src,
          ))

  pub split-Replaced :
      start ≤ size
      → size < start + n
      → n ≤ size
      → SplitsAt (size - start) method
      → Replaced b split_blit size start n region
  split-Replaced h k l splits = rw (split-region h k l splits) (λ j p.
      let first = size - start in
      let second = start + n - size in
      let once = blit method b start src first in
      let fits : start + first ≤ length b = omega arith in
      let given1 : first ≤ length src = omega arith in
      let len = length-blit method keep b start src first fits given1 in
      let fits2 : 0 + second ≤ length once = omega arith in
      let given2 : second ≤ length (drop first src) = omega (arith, length-drop first src) in
      let before =
        slice-blit_before method keep b start src first second fits given1 (omega arith) in
      let one = method (slice b start first) (take first src) in
      let two = method (slice b 0 second) (take second (drop first src)) in
      ground (
        arith,
        byte_at-blit method keep once 0 (drop first src) second fits2 given2 j,
        ap (λ x. byte_at (method x (take second (drop first src))) j) before,
        byte_at-blit method keep b start src first fits given1 j,
        byte_at-append one two (j - start),
        byte_at-append one two (j + size - start),
        length-made method keep b start src first fits given1,
      ))

-- A longer window over the new buffer is the old one and what was made.
pub Replaced-window :
    (b b' : Bytes) (size read used start n : ℕ) (made : Bytes)
    → read < size
    → start ≤ size
    → used + n ≤ size
    → wrap size start ≡ wrap size (read + used)
    → length made ≡ n
    → Replaced b b' size start n made
    → window b' size read (used + n) ≡ window b size read used ++ made
Replaced-window b b' size read used start n made r h f e m rep =
    let len = length-tabulate used (λ i. byte_at b (wrap size (read + i))) in
    let len' = length-tabulate (used + n) (λ i. byte_at b' (wrap size (read + i))) in
    list_ext _ _ 0 (omega (arith, len, len', length-append (window b size read used) made)) (λ i p.
      let q : i < used + n = omega arith in
      get_or-tabulate (used + n) (λ j. byte_at b' (wrap size (read + j))) i 0 q
      ∙ rep (wrap size (read + i)) (ground arith)
      ∙ place i q
      ∙ sym (byte_at-append (window b size read used) made i))
  where
    place :
        (i : ℕ)
        → i < used + n
        → (if leb start (wrap size (read + i)) && ltb (wrap size (read + i)) (start + n)
            then byte_at made (wrap size (read + i) - start)
            else if ltb (wrap size (read + i)) (start + n - size)
            then byte_at made (wrap size (read + i) + size - start)
            else byte_at b (wrap size (read + i)))
          ≡ (if ltb i (length (window b size read used))
              then byte_at (window b size read used) i
              else byte_at made (i - length (window b size read used)))
    place i q = ground (
      arith,
      e,
      length-tabulate used (λ j. byte_at b (wrap size (read + j))),
      get_or-tabulate used (λ j. byte_at b (wrap size (read + j))) i 0,
    )

-- What `rb_write_core` makes of the `n` bytes behind those held.
abbrev pub region_of : RingBuffer → Bytes → ℕ → (Bytes → Bytes → Bytes) → Bytes
region_of rb buf n method = method (window rb.buffer rb.size rb.write n) (take n buf)

-- The positions that `rb_write_core` leaves.
pub write_core_fields :
    {rb : RingBuffer} (buf : Bytes) (n : ℕ) (method : Bytes → Bytes → Bytes)
    → IsValid rb
    → let (k, q) = write_core rb buf n method in
      (k ≡ taken rb n) × (q.size ≡ rb.size) × (q.read ≡ rb.read) × (q.used ≡ rb.used + taken rb n)
write_core_fields {rb} buf n method v =
    write_core_cases buf n method v
      (λ r.
        (r.0 ≡ taken rb n)
        × (r.1.size ≡ rb.size)
        × (r.1.read ≡ rb.read)
        × (r.1.used ≡ rb.used + taken rb n))
      (λ z. (sym z, refl, refl, omega arith)) (λ p h. (refl, refl, refl, refl))
      (λ p h. (refl, refl, refl, refl))

-- `rb_write_core` replaces the bytes behind those held by what the method makes of them, as many as
-- fit, and no others.
pub write_core-Replaced :
    {rb : RingBuffer} (buf : Bytes) (n : ℕ) (method : Bytes → Bytes → Bytes)
    → KeepsLength method
    → n ≤ length buf
    → IsValid rb
    → (rb.size < rb.write + taken rb n → SplitsAt (rb.size - rb.write) method)
    → Replaced rb.buffer
        (write_core rb buf n method).1.buffer
        rb.size
        rb.write
        (taken rb n)
        (region_of rb buf (taken rb n) method)
write_core-Replaced {rb} buf n method keep given v splits =
    write_core_cases buf n method v
      (λ r.
        Replaced rb.buffer r.1.buffer rb.size rb.write (taken rb n)
          (region_of rb buf (taken rb n) method))
      (λ z j p. ground arith)
      (λ p h.
        flat-Replaced rb.buffer rb.size rb.write (taken rb n) buf method keep v.whole (ground arith)
          h)
      (λ p h.
        split-Replaced rb.buffer rb.size rb.write (taken rb n) buf method keep v.whole
          (ground arith) v.write_in h (ground arith) (splits h))
