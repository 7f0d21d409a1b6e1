-- ===== src/MixBuffer/Mix.antt =====
-- `mixb_write`: what a stream's write makes of the bytes of the ring buffer.
use datacard.Base.{
  ℕ, zero, suc, ◌+◌, ◌-◌, ◌%◌, ◌≡◌, ◌≢◌, ◌≤◌, ◌<◌, refl, ap, ◌∙◌, sym, [], ◌∷◌, ◌++◌, arith, length,
  length-append, length-take, length-tabulate, list_ext, get_or-tabulate, get_or-take, length-drop,
  drop, take, subst,
}
use datacard.Bytes.{Bytes, byte_at, slice}
use datacard.Bytes.Occurs.{byte_at-drop}
use datacard.Bytes.Pieces.{byte_at-append}
use datacard.RingBuffer
use datacard.RingBuffer.{RingBuffer}
use datacard.RingBuffer.Valid.{wrap, window, contents, taken, write_core-IsValid}
use datacard.RingBuffer.Valid as RingValid
use datacard.RingBuffer.Read.{length-contents, byte_at-contents}
use datacard.RingBuffer.Write.{Replaced, region_of, write_core_fields, write_core-Replaced}
use datacard.MixBuffer.{MixStream, MixBuffer, local, saturated_sum, mix_write}
use datacard.MixBuffer.Samples.{
  saturated_sum-KeepsLength, saturated_sum-SplitsAt, sample_sum, saturated_sum-sample_sum,
}
use datacard.MixBuffer.Valid.{StreamIsValid, local-IsValid, update_self, update_ne}

-- The position of one stream has moved on by `k`, and nothing else but the end of the ring buffer.
pub record Moved (mb : MixBuffer) (stream : ℕ) (k : ℕ) (mb' : MixBuffer) : Type 0 where
  pub ring : RingValid.IsValid mb'.rb
  pub size : mb'.rb.size ≡ mb.rb.size
  pub read : mb'.rb.read ≡ mb.rb.read
  pub used : mb.rb.used ≤ mb'.rb.used
  pub self : StreamIsValid mb'.rb (mb'.store stream)
  pub self_used : (mb'.store stream).used ≡ (mb.store stream).used + k
  pub others : (p : ℕ) → p ≢ stream → mb'.store p ≡ mb.store p
  pub streams : mb'.streams ≡ mb.streams
  pub attached : mb'.attached ≡ mb.attached

pub none-Moved :
    {mb : MixBuffer} (stream : ℕ)
    → RingValid.IsValid mb.rb
    → StreamIsValid mb.rb (mb.store stream)
    → Moved mb stream 0 mb
none-Moved stream ring valid = record {
  ring = ring;
  size = refl;
  read = refl;
  used = omega arith;
  self = valid;
  self_used = omega arith;
  others = λ p h. refl;
  streams = refl;
  attached = refl;
}

-- Bytes replaced within the window.
Replaced-within :
    (b b' : Bytes) (size read used start u n : ℕ) (made : Bytes)
    → read < size
    → start ≤ size
    → u + n ≤ used
    → used ≤ size
    → wrap size start ≡ wrap size (read + u)
    → length made ≡ n
    → Replaced b b' size start n made
    → window b' size read used
      ≡ take u (window b size read used) ++ (made ++ drop (u + n) (window b size read used))
Replaced-within b b' size read used start u n made r h f g e m rep =
    let w = window b size read used in
    let len = length-tabulate used (λ i. byte_at b (wrap size (read + i))) in
    let len' = length-tabulate used (λ i. byte_at b' (wrap size (read + i))) in
    list_ext _ _ 0
      (omega (
        arith,
        len,
        len',
        length-append (take u w) (made ++ drop (u + n) w),
        length-append made (drop (u + n) w),
        length-take u w,
        length-drop (u + n) w,
      ))
      (λ i p.
        let q : i < used = omega arith in
        get_or-tabulate used (λ j. byte_at b' (wrap size (read + j))) i 0 q
        ∙ rep (wrap size (read + i)) (ground arith)
        ∙ ground (
          arith,
          e,
          len,
          byte_at-append (take u w) (made ++ drop (u + n) w) i,
          byte_at-append made (drop (u + n) w) (i - length (take u w)),
          length-take u w,
          get_or-take u w i 0,
          byte_at-drop (u + n) w (i - length (take u w) - length made),
          get_or-tabulate used (λ j. byte_at b (wrap size (read + j))) i 0 q,
        ))

-- A window that starts behind `u` of the bytes held is a slice of them.
window-slice :
    (rb : RingBuffer) (start u n : ℕ)
    → RingValid.IsValid rb
    → start ≤ rb.size
    → u + n ≤ rb.used
    → wrap rb.size start ≡ wrap rb.size (rb.read + u)
    → window rb.buffer rb.size start n ≡ slice (contents rb) u n
window-slice rb start u n v h l e =
    let c = contents rb in
    let len = length-tabulate n (λ i. byte_at rb.buffer (wrap rb.size (start + i))) in
    let held = length-contents rb in
    list_ext _ _ 0 (omega (arith, len, length-take n (drop u c), length-drop u c, held)) (λ i p.
      let q : i < n = omega arith in
      get_or-tabulate n (λ j. byte_at rb.buffer (wrap rb.size (start + j))) i 0 q
      ∙ ap (byte_at rb.buffer) {y = wrap rb.size (rb.read + (u + i))} (ground (arith, v, e))
      ∙ sym (byte_at-contents rb (u + i) (omega arith))
      ∙ sym (byte_at-drop u c i)
      ∙ sym (get_or-take n (drop u c) i 0 q))

module _ (add : ℕ → ℕ → ℕ → ℕ → ℕ × ℕ) where
  -- The bytes held after `m` bytes of the source are added to those behind the first `u`, by the
  -- samples that stand at each place.
  abbrev pub mixed : Bytes → ℕ → Bytes → ℕ → Bytes
  mixed c u src m = take u c ++ (sample_sum add (slice c u m) (take m src) ++ drop (u + m) c)

  take-append-drop : (n : ℕ) (xs : Bytes) → take n xs ++ drop n xs ≡ xs
  take-append-drop zero xs = refl
  take-append-drop (suc n) [] = refl
  take-append-drop (suc n) (x ∷ xs) = ap (λ t. x ∷ t) (take-append-drop n xs)

  pub mixed_none : (c : Bytes) (u : ℕ) (src : Bytes) → mixed c u src 0 ≡ c
  mixed_none c u src =
      ap (λ k. take u c ++ drop k c) {x = u + 0} {y = u} (omega arith) ∙ take-append-drop u c

  module _ (mb : MixBuffer) (stream : ℕ) (src : Bytes) (ring : RingValid.IsValid mb.rb)
      (valid : StreamIsValid mb.rb (mb.store stream)) (n : ℕ) (given : n ≤ length src)
      (h : (mb.store stream).used + n ≤ mb.rb.used) where
    open mb use {rb, store}

    abbrev from : RingBuffer
    from = local mb stream

    from-IsValid : RingValid.IsValid from
    from-IsValid = local-IsValid mb stream ring valid

    all_taken : taken from n ≡ n
    all_taken = ground (arith, ring)

    -- `mixb_mix_write` over bytes that the buffer already holds moves the stream's position on by
    -- all of them, and changes no other position.
    pub mix_write-Moved :
        ((mix_write add mb stream src n).0 ≡ n)
        × Moved mb stream n (mix_write add mb stream src n).1
        × ((mix_write add mb stream src n).1.rb.used ≡ rb.used)
    unfolding mix_write
    mix_write-Moved =
        let s = store stream in
        let sum = saturated_sum add in
        let q = (RingBuffer.write_core from src n sum).1 in
        let (k, z, r, u) = write_core_fields src n sum from-IsValid in
        let v = write_core-IsValid src n sum (saturated_sum-KeepsLength add) given from-IsValid in
        let t : MixStream = record { used = q.used; write = q.write } in
        (
          k ∙ all_taken,
          record {
            ring = record {
              whole = v.whole;
              small = v.small;
              read_in = v.read_in;
              fits = omega (arith, z, ring.fits);
              write_in = omega (arith, z, ring.write_in);
              write_at = rw (z, r) ring.write_at;
            };
            size = z;
            read = r;
            used = omega arith;
            self = rw (update_self store stream t) (record {
              within = omega (arith, u, all_taken);
              write_in = v.write_in;
              place = v.write_at;
            });
            self_used = ap (λ x. x.used) (update_self store stream t) ∙ omega (arith, u, all_taken);
            others = update_ne store stream t;
            streams = refl;
            attached = refl;
          },
          refl,
        )

    -- The sum takes the place of the bytes that it is made of.
    pub mix_write-bytes :
        rb.size % 2 ≡ 0
        → (store stream).write % 2 ≡ 0
        → contents (mix_write add mb stream src n).1.rb
          ≡ mixed (contents rb) (store stream).used src n
    unfolding mix_write
    mix_write-bytes a b =
        let s = store stream in
        let sum = saturated_sum add in
        let keep = saturated_sum-KeepsLength add in
        let q = (RingBuffer.write_core from src n sum).1 in
        let (k, z, r, u) = write_core_fields src n sum from-IsValid in
        let rep =
          write_core-Replaced src n sum keep given from-IsValid
            (λ o. saturated_sum-SplitsAt add (rb.size - s.write) (omega (arith, valid.write_in))) in
        let place = window-slice rb s.write s.used n ring valid.write_in h valid.place in
        let made = sum (slice (contents rb) s.used n) (take n src) in
        let long : length (slice (contents rb) s.used n) ≡ n = omega (
          arith,
          length-take n (drop s.used (contents rb)),
          length-drop s.used (contents rb),
          length-contents rb,
        ) in
        let fits : length made ≡ n =
          keep (slice (contents rb) s.used n) (take n src) (omega (arith, long, length-take n src))
          ∙ long in
        let region : region_of from src (taken from n) sum ≡ made =
          ap (λ k. region_of from src k sum) all_taken ∙ ap (λ x. sum x (take n src)) place in
        let rep' : Replaced rb.buffer q.buffer rb.size s.write n made =
          subst (λ k. Replaced rb.buffer q.buffer rb.size s.write k made) all_taken
            (subst (Replaced rb.buffer q.buffer rb.size s.write (taken from n)) region rep) in
        let c = contents rb in
        rw (z, r)
          (Replaced-within rb.buffer q.buffer rb.size rb.read rb.used s.write s.used n made
              ring.read_in valid.write_in h ring.fits valid.place fits rep'
            ∙ ap (λ t. take s.used c ++ (t ++ drop (s.used + n) c))
                (saturated_sum-sample_sum add (slice c s.used n) (take n src)
                  (omega (arith, long, length-take n src))))
