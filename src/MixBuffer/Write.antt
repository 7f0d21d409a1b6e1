-- ===== src/MixBuffer/Write.antt =====
-- `mixb_write` as a whole: the sum with the bytes that are held, then a copy of the rest.
use datacard.Base.{
  ℕ, zero, suc, ◌+◌, ◌-◌, ◌%◌, ◌≡◌, ◌≤◌, ◌<◌, refl, ap, ap₂, ◌∙◌, sym, inl, inr, [], ◌++◌, arith,
  length, ltb, ◌==◌, if◌then◌else◌, Bool-cases, length-drop, drop, take, min, ltb→lt, ltb→le,
  append-nil, sub_size,
}
use datacard.Bytes.{Bytes, slice}
use datacard.RingBuffer
use datacard.RingBuffer.Valid.{contents}
use datacard.RingBuffer.Valid as RingValid
use datacard.RingBuffer.Append.{write_bytes-contents, write_bytes_fields}
use datacard.MixBuffer.{MixStream, MixBuffer, mix_write, copy_rest, write, free}
use datacard.MixBuffer.Valid.{StreamIsValid, update_self, update_ne}
use datacard.MixBuffer.Mix.{mixed, mixed_none, Moved, none-Moved, mix_write-Moved, mix_write-bytes}

-- How many of `k` bytes behind the stream's position the buffer already holds.
abbrev pub overlap : MixBuffer → ℕ → ℕ → ℕ
overlap mb stream k = min k (mb.rb.used - (mb.store stream).used)

slice_none : (b : Bytes) (off n : ℕ) → n ≡ 0 → slice b off n ≡ []
slice_none b off zero h = refl
slice_none b off (suc n) h = absurd (omega arith)

-- The copy of `k - m` bytes behind the end of the buffer, after `m` have been added.
copy_rest-Moved :
    {mb : MixBuffer} (stream : ℕ) (src : Bytes) (m k : ℕ) (mb' : MixBuffer)
    → m ≡ mb.rb.used - (mb.store stream).used
    → StreamIsValid mb.rb (mb.store stream)
    → m ≤ k
    → (mb.store stream).used + k ≤ mb.rb.size
    → k ≤ length src
    → Moved mb stream m mb'
    → mb'.rb.used ≡ mb.rb.used
    → let after = copy_rest mb' stream (drop m src) (k - m) in
      Moved mb stream k after × (contents after.rb ≡ contents mb'.rb ++ slice src m (k - m))
unfolding copy_rest
copy_rest-Moved {mb} stream src m k mb' e valid h room given moved same =
    let fits : k - m ≤ length (drop m src) = omega (arith, length-drop m src) in
    let (count, more, v) = write_bytes-contents (drop m src) (k - m) fits moved.ring in
    let (z, r, u) = write_bytes_fields (drop m src) (k - m) fits moved.ring in
    let q = (RingBuffer.write_bytes mb'.rb (drop m src) (k - m)).1 in
    let t : MixStream = record { used = q.used; write = q.write } in
    let exact : min (k - m) (mb'.rb.size - mb'.rb.used) ≡ k - m =
      omega (arith, moved.size, valid.within) in
    (
      record {
        ring = v;
        size = z ∙ moved.size;
        read = r ∙ moved.read;
        used = omega (arith, u);
        self =
            rw (update_self mb'.store stream t)
              (record { within = omega arith; write_in = v.write_in; place = v.write_at });
        self_used =
            ap (λ x. x.used) (update_self mb'.store stream t)
            ∙ omega (arith, u, count, exact, valid.within);
        others = λ p o. update_ne mb'.store stream t p o ∙ moved.others p o;
        streams = moved.streams;
        attached = moved.attached;
      },
      more ∙ ap (λ j. contents mb'.rb ++ take j (drop m src)) (count ∙ exact),
    )

module _ (add : ℕ → ℕ → ℕ → ℕ → ℕ × ℕ) where
  -- What `mixb_write` has done before the copy.
  abbrev first_part : MixBuffer → ℕ → Bytes → ℕ → MixBuffer
  first_part mb stream src m = if m == 0 then mb else (mix_write add mb stream src m).1

  -- The bytes after a write of `k` bytes of the source at the stream's position: the sum over those
  -- held, then the rest of the source.
  abbrev pub written : MixBuffer → ℕ → Bytes → ℕ → Bytes
  written mb stream src k =
      let m = overlap mb stream k in
      mixed add (contents mb.rb) (mb.store stream).used src m ++ slice src m (k - m)

  module _ (mb : MixBuffer) (stream : ℕ) (src : Bytes) (n : ℕ) (ring : RingValid.IsValid mb.rb)
      (valid : StreamIsValid mb.rb (mb.store stream)) (given : n ≤ length src) where
    -- The number of bytes that a write takes, and the number of bytes held behind the stream.
    abbrev count : ℕ
    count = min n (mb.rb.size - (mb.store stream).used)

    abbrev ahead : ℕ
    ahead = mb.rb.used - (mb.store stream).used

    first_part-Moved :
        (m : ℕ)
        → m ≤ length src
        → (mb.store stream).used + m ≤ mb.rb.used
        → Moved mb stream m (first_part mb stream src m)
          × ((first_part mb stream src m).rb.used ≡ mb.rb.used)
    first_part-Moved m h l = elim (Bool-cases (m == 0)) [
      | inl z ↦ let o : m ≡ 0 = ground arith in rw o (none-Moved stream ring valid, refl)
      | inr z ↦
          let (k, moved, same) = mix_write-Moved add mb stream src ring valid m h l in
          rw z (moved, same)
    ]

    first_part-bytes :
        (m : ℕ)
        → m ≤ length src
        → (mb.store stream).used + m ≤ mb.rb.used
        → mb.rb.size % 2 ≡ 0
        → (mb.store stream).write % 2 ≡ 0
        → contents (first_part mb stream src m).rb
          ≡ mixed add (contents mb.rb) (mb.store stream).used src m
    first_part-bytes m h l a b = elim (Bool-cases (m == 0)) [
      | inl z ↦
          let o : m ≡ 0 = ground arith in
          rw o (sym (mixed_none add (contents mb.rb) (mb.store stream).used src))
      | inr z ↦ rw z (mix_write-bytes add mb stream src ring valid m h l a b)
    ]

    -- The three ways through `mixb_write`, with the `size_t` sums resolved.
    write_cases {κ} :
        (P : ℕ × MixBuffer → Type κ)
        → (count ≡ 0 → P (count, mb))
        → (0 < count → count ≤ ahead → P (count, (mix_write add mb stream src count).1))
        → (ahead < count
            → P (
              count,
              copy_rest (first_part mb stream src ahead) stream (drop ahead src) (count - ahead),
            ))
        → P (write add mb stream src n)
    unfolding write free
    write_cases P none_taken within past =
        let u = (mb.store stream).used in
        let room : sub_size mb.rb.size u ≡ mb.rb.size - u = omega (arith, valid.within, ring) in
        let held : sub_size mb.rb.used u ≡ ahead = omega (arith, valid.within, ring) in
        let taken : (if ltb (mb.rb.size - u) n then mb.rb.size - u else n) ≡ count = ground arith in
        rw (room, held, taken)
          (elim (Bool-cases (ltb 0 count)) [
            | inr z ↦ rw z (none_taken (omega (arith, ltb→le _ _ z)))
            | inl z ↦ elim (Bool-cases (ltb ahead count)) [
              | inr f ↦ rw (z, f) (within (ltb→lt _ _ z) (ltb→le _ _ f))
              | inl f ↦
                  let rest : sub_size count ahead ≡ count - ahead =
                    omega (arith, ring.small, ring.fits, ltb→lt _ _ f) in
                  rw (z, f, rest) (past (ltb→lt _ _ f))
            ]
          ])

    -- `mixb_write` takes as many of the `n` bytes as the stream has free, and returns their number.
    -- The stream's position moves on by all of them, the buffer's end where the stream passes it,
    -- and no other stream changes.
    pub write-Moved :
        ((write add mb stream src n).0 ≡ count)
        × Moved mb stream count (write add mb stream src n).1
    write-Moved =
        write_cases (λ r. (r.0 ≡ count) × Moved mb stream count r.1)
          (λ z. (refl, rw z (none-Moved stream ring valid)))
          (λ p h. (
            refl,
            (mix_write-Moved add mb stream src ring valid count (omega arith)
                (omega (arith, valid.within))).1,
          ))
          (λ h.
            let first = first_part-Moved ahead (omega arith) (omega (arith, valid.within)) in
            (
              refl,
              (copy_rest-Moved stream src ahead count _ refl valid (omega arith)
                  (omega (arith, valid.within, ring.fits)) (omega arith) first.0 first.1).0,
            ))

    -- Where the buffer and the stream's position are whole samples, the source has the `n` bytes, and
    -- the buffer and the stream are valid, `mixb_write` leaves the bytes before the stream's position,
    -- and adds the bytes that it takes to those held from there on: at each place of the overlap stands
    -- the low or the high byte of the sum that `ast_slinear_saturated_add` gives for the two samples of
    -- that place (an odd last byte is left as it is). The bytes held behind the overlap stay, and the
    -- bytes taken beyond it are appended as they are.
    pub write-bytes :
        mb.rb.size % 2 ≡ 0
        → (mb.store stream).write % 2 ≡ 0
        → let (k, mb') = write add mb stream src n in contents mb'.rb ≡ written mb stream src k
    write-bytes a b =
        write_cases (λ r. contents r.1.rb ≡ written mb stream src r.0)
          (λ z.
            let none_over : overlap mb stream count ≡ 0 = omega arith in
            rw (none_over, slice_none src 0 (count - 0) (omega arith))
              (sym (
                ap₂ ◌++◌ (mixed_none add (contents mb.rb) (mb.store stream).used src) refl
                ∙ append-nil (contents mb.rb))))
          (λ p h.
            let all : overlap mb stream count ≡ count = omega arith in
            rw (all, slice_none src count (count - count) (omega arith), append-nil)
              (mix_write-bytes add mb stream src ring valid count (omega arith)
                (omega (arith, valid.within)) a b))
          (λ h.
            let all : overlap mb stream count ≡ ahead = omega arith in
            let first = first_part-Moved ahead (omega arith) (omega (arith, valid.within)) in
            rw all (
              (copy_rest-Moved stream src ahead count _ refl valid (omega arith)
                (omega (arith, valid.within, ring.fits)) (omega arith) first.0 first.1).1
              ∙ ap (λ t. t ++ slice src ahead (count - ahead))
                  (first_part-bytes ahead (omega arith) (omega (arith, valid.within)) a b)))
