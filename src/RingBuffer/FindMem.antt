-- ===== src/RingBuffer/FindMem.antt =====
-- The parts of the search of `rb_read_until_mem_iov`: the piece up to the end of the buffer, and
-- the piece from its beginning.
use native.Mathlib.Decide.{dec_lt}
use datacard.Base.{
  ℕ, zero, suc, ◌+◌, ◌-◌, ◌≤◌, ◌<◌, ◌≡◌, ◌↔◌, Option, none, some, refl, ap, ◌∙◌, sym, arith,
  if◌then◌else◌, ◌==◌, false,
}
use datacard.Bytes.{Bytes, byte_at, slice, memmem}
use datacard.Bytes.Pieces.{length-slice}
use datacard.Bytes.Occurs.{IsFirst, IsFirst-iff, Occurs, memmem_nonempty-IsFirst}
use datacard.RingBuffer.{RingBuffer, Iov}
use datacard.RingBuffer.Valid.{IsValid, contents}
use datacard.RingBuffer.Read.{length-contents}
use datacard.RingBuffer.Search.{Reports}
use datacard.RingBuffer.Find.{report_first, report_both, byte_slice_first, byte_slice_second}

pub Reports-iff :
    (rb : RingBuffer) (P Q : ℕ → Type 0) (r : ℕ × Iov)
    → ((q : ℕ) → P q ↔ Q q)
    → Reports rb P r
    → Reports rb Q r
Reports-iff rb P Q (zero, iov) e h = λ q b. h q ((e q).1 b)
Reports-iff rb P Q (suc n, iov) e h = ((e _).0 h.0, λ q l b. h.1 q l ((e q).1 b), h.2)

module _ (rb : RingBuffer) (iov : Iov) (mem : Bytes) (len : ℕ) (v : IsValid rb)
    (some_bytes : 0 < len) where
  abbrev pub P : ℕ → Type 0
  P = Occurs mem len (contents rb)

  pub below : (q : ℕ) → P q → q < rb.used
  below q h = omega (arith, h.0, length-contents rb)

  pub IsFirst-occurs :
      (n : ℕ)
      → n ≤ rb.used
      → rb.read + n ≤ rb.size
      → IsFirst (λ q. (q + len ≤ n) × P q) (memmem (slice rb.buffer rb.read n) mem len)
  IsFirst-occurs n h l =
      let width = length-slice rb.buffer rb.read n (omega (arith, v.whole)) in
      let held = length-contents rb in
      IsFirst-iff _ _ _
        (λ q. (
          λ a. (
            omega (arith, a.0, width),
            (
              omega (arith, a.0, width, held),
              λ i p.
                  sym (
                    byte_slice_first rb n (q + i) (omega (arith, a.0, width))
                      (omega (arith, a.0, width)) (omega (arith, a.0, width)))
                  ∙ a.1 i p,
            ),
          ),
          λ a. (
            omega (arith, a.0, width),
            λ i p.
                byte_slice_first rb n (q + i) (omega (arith, a.0)) (omega (arith, a.0))
                  (omega (arith, a.0))
                ∙ a.1.1 i p,
          ),
        ))
        (memmem_nonempty-IsFirst (slice rb.buffer rb.read n) mem len some_bytes)

  pub second_occurs :
      (n : ℕ)
      → n ≡ rb.used - (rb.size - rb.read)
      → rb.size ≤ rb.read + rb.used
      → IsFirst (λ q. P (rb.size - rb.read + q)) (memmem (slice rb.buffer 0 n) mem len)
  second_occurs n e l =
      let width = length-slice rb.buffer 0 n (omega (arith, v.whole)) in
      let held = length-contents rb in
      IsFirst-iff _ _ _
        (λ q. (
          λ a. (
            omega (arith, a.0, width, held),
            λ i p.
                ap (byte_at (contents rb)) {y = rb.size - rb.read + (q + i)} (omega arith)
                ∙ sym (
                    byte_slice_second rb n (q + i) (omega (arith, a.0, width))
                      (omega (arith, a.0, width)) (omega arith))
                ∙ a.1 i p,
          ),
          λ a. (
            omega (arith, a.0, width, held),
            λ i p.
                byte_slice_second rb n (q + i) (omega (arith, a.0, held)) (omega (arith, a.0, held))
                  (omega arith)
                ∙ ap (byte_at (contents rb)) {y = rb.size - rb.read + q + i} (omega arith)
                ∙ a.1 i p,
          ),
        ))
        (memmem_nonempty-IsFirst (slice rb.buffer 0 n) mem len some_bytes)

  -- The search of the second part, with nothing found before it.
  pub second-Reports :
      (n b : ℕ) (r : Option ℕ)
      → n ≡ rb.size - rb.read
      → ((q : ℕ) → q < n → ¬ P q)
      → IsFirst (λ q. P (rb.size - rb.read + q)) r
      → let first = record iov { base0 = rb.read; len0 = n; base1 = b } in
        Reports rb P (elim r [
          | some p ↦
              if p == 0
              then (1, record first { len1 = 0 })
              else (2, record first { base1 = 0; len1 = p })
          | none ↦ (0, first)
        ])
  second-Reports n b none e before h = λ q a. elim (dec_lt q n) [
    | yes o ↦ before q o a
    | no o ↦ let f : rb.size - rb.read + (q - n) ≡ q = omega arith in h (q - n) (rw f a)
  ]
  second-Reports n b (some zero) e before h =
      let z : rb.size - rb.read + 0 ≡ n = omega arith in
      report_first rb P v below (record iov { base0 = rb.read; len0 = n; base1 = b }) n refl
        (rw z at h.0) before (omega arith)
  second-Reports n b (some (suc p)) e before h =
      let f : (suc p == 0) ≡ false = ground arith in
      rw (e, f)
        (report_both rb P v below (suc p) h.0 (λ q m a. elim (dec_lt q n) [
          | yes o ↦ before q o a
          | no o ↦
              let f : rb.size - rb.read + (q - n) ≡ q = omega arith in
              h.1 (q - n) (omega arith) (rw f a)
        ]))
