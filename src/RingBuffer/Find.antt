-- ===== src/RingBuffer/Find.antt =====
-- The searches of `struct ringbuffer` for a byte and for a byte string, with the vectors that they
-- report: `rb_read_until_char_iov` and `rb_read_until_mem_iov`.
use datacard.Base.{ℕ, ◌+◌, ◌-◌, ◌≤◌, ◌<◌, ◌≡◌, Option, none, some, refl, ap, ◌∙◌, sym, arith}
use datacard.Bytes.{byte_at, slice, memchr}
use datacard.Bytes.Pieces.{length-slice, byte_at-slice}
use datacard.Bytes.Occurs.{IsFirst, IsFirst-iff, memchr-IsFirst}
use datacard.RingBuffer.{RingBuffer, Iov, found_first}
use datacard.RingBuffer.Valid.{IsValid, contents}
use datacard.RingBuffer.Search.{Reports, Holds, gather_first, gather_both, byte_first, byte_second}

module _ (rb : RingBuffer) (P : ℕ → Type 0) (v : IsValid rb)
    (below : (q : ℕ) → P q → q < rb.used) where
  pub report_first :
      (iov : Iov) (p : ℕ)
      → iov.base0 ≡ rb.read
      → P p
      → ((q : ℕ) → q < p → ¬ P q)
      → rb.read + p ≤ rb.size
      → Reports rb P (found_first iov p)
  report_first iov p e h k l =
      let z : p + 0 ≡ p = omega arith in
      rw (z, e) (h, k, gather_first rb p v (omega (arith, below p h)) l)

  pub report_both :
      (k : ℕ)
      → P (rb.size - rb.read + k)
      → ((q : ℕ) → q < rb.size - rb.read + k → ¬ P q)
      → Reports rb P (2, record { base0 = rb.read; len0 = rb.size - rb.read; base1 = 0; len1 = k })
  report_both k h l =
      (h, l, gather_both rb (rb.size - rb.read + k) k v (omega (arith, below _ h)) refl)

  pub flat-Reports :
      (iov : Iov) (r : Option ℕ)
      → iov.base0 ≡ rb.read
      → rb.read + rb.used ≤ rb.size
      → IsFirst P r
      → Reports rb P (elim r [ some p ↦ found_first iov p | none ↦ (0, iov) ])
  flat-Reports iov none e l h = h
  flat-Reports iov (some p) e l h = report_first iov p e h.0 h.1 (omega (arith, below p h.0))

-- The slices that are searched hold the bytes of the buffer.
pub byte_slice_first :
    (rb : RingBuffer) (n q : ℕ)
    → q < n
    → q < rb.used
    → rb.read + q < rb.size
    → byte_at (slice rb.buffer rb.read n) q ≡ byte_at (contents rb) q
byte_slice_first rb n q h u l = byte_at-slice rb.buffer rb.read n q h ∙ byte_first rb q u l

pub byte_slice_second :
    (rb : RingBuffer) (n q : ℕ)
    → q < n
    → rb.size - rb.read + q < rb.used
    → rb.read ≤ rb.size
    → byte_at (slice rb.buffer 0 n) q ≡ byte_at (contents rb) (rb.size - rb.read + q)
byte_slice_second rb n q h u l =
    byte_at-slice rb.buffer 0 n q h
    ∙ ap (byte_at rb.buffer) {x = 0 + q} {y = q} (omega arith)
    ∙ byte_second rb (rb.size - rb.read + q) q u refl l

module _ (rb : RingBuffer) (iov : Iov) (c : ℕ) (v : IsValid rb) where
  pub IsFirst-Holds :
      (n : ℕ)
      → n ≤ rb.used
      → rb.read + n ≤ rb.size
      → IsFirst (λ q. (q < n) × Holds rb c q) (memchr (slice rb.buffer rb.read n) c)
  IsFirst-Holds n h l =
      let len = length-slice rb.buffer rb.read n (omega (arith, v.whole)) in
      IsFirst-iff _ _ _
        (λ q. (
          λ a. (
            omega (arith, a.0, len),
            (
              omega (arith, a.0, len),
              sym (
                    byte_slice_first rb n q (omega (arith, a.0, len)) (omega (arith, a.0, len))
                      (omega (arith, a.0, len)))
                  ∙ a.1,
            ),
          ),
          λ a. (
            omega (arith, a.0, len),
            byte_slice_first rb n q a.0 a.1.0 (omega (arith, a.0)) ∙ a.1.1,
          ),
        ))
        (memchr-IsFirst (slice rb.buffer rb.read n) c)

  pub second-Holds :
      (n : ℕ)
      → n ≡ rb.used - (rb.size - rb.read)
      → rb.size ≤ rb.read + rb.used
      → IsFirst (λ q. Holds rb c (rb.size - rb.read + q)) (memchr (slice rb.buffer 0 n) c)
  second-Holds n e l =
      let len = length-slice rb.buffer 0 n (omega (arith, v.whole)) in
      IsFirst-iff _ _ _
        (λ q. (
          λ a. (
            omega (arith, a.0, len),
            sym (
                  byte_slice_second rb n q (omega (arith, a.0, len)) (omega (arith, a.0, len))
                    (omega arith))
                ∙ a.1,
          ),
          λ a. (
            omega (arith, a.0, len),
            byte_slice_second rb n q (omega (arith, a.0)) a.0 (omega arith) ∙ a.1,
          ),
        ))
        (memchr-IsFirst (slice rb.buffer 0 n) c)
