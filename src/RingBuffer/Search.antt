-- ===== src/RingBuffer/Search.antt =====
-- The comparisons and searches of `struct ringbuffer` against the bytes that it holds:
-- `rb_memcmp` and `rb_read_until_char_iov`.
use native.Mathlib.Decide.{dec_lt}
use datacard.Base.{
  ℕ, zero, suc, ◌+◌, ◌-◌, ◌≤◌, ◌<◌, ◌≡◌, ◌≢◌, ◌⊎◌, ◌↔◌, ap, ◌∙◌, sym, ◌++◌, arith, ltb,
  if◌then◌else◌, Bool-cases, inl, inr, ltb→lt, ltb→le, length, take, drop, add_size, sub_size, true,
  ◌&&◌,
}
use datacard.Bytes.{Bytes, byte_at, slice, mem_equal}
use datacard.Bytes.Occurs.{byte_at-drop, mem_equal-agree, agree-mem_equal}
use datacard.RingBuffer.{RingBuffer, Iov, same, differs, short, mem_compare}
use datacard.RingBuffer.Valid.{IsValid, contents, slice-window, slices-window}
use datacard.RingBuffer.Read.{gather, length-contents, byte_at-contents, take-window}

-- The byte `i` held, found before the end of the buffer or from its beginning.
pub byte_first :
    (rb : RingBuffer) (i : ℕ)
    → i < rb.used
    → rb.read + i < rb.size
    → byte_at rb.buffer (rb.read + i) ≡ byte_at (contents rb) i
byte_first rb i h l = ap (byte_at rb.buffer) (ground arith) ∙ sym (byte_at-contents rb i h)

pub byte_second :
    (rb : RingBuffer) (i k : ℕ)
    → i < rb.used
    → i ≡ rb.size - rb.read + k
    → rb.read ≤ rb.size
    → byte_at rb.buffer k ≡ byte_at (contents rb) i
byte_second rb i k h l r = ap (byte_at rb.buffer) (ground arith) ∙ sym (byte_at-contents rb i h)

-- `memcmp` over the end of the buffer, in two parts, compares the bytes held.
module _ (rb : RingBuffer) (mem : Bytes) (len : ℕ) (v : IsValid rb) (h : len ≤ rb.used) where
  flat_equal :
      rb.read + len ≤ rb.size
      → (mem_equal len (drop rb.read rb.buffer) mem ≡ true)
        ↔ ((i : ℕ) → i < len → byte_at (contents rb) i ≡ byte_at mem i)
  flat_equal f = (
    λ e i p.
        sym (byte_first rb i (omega arith) (omega arith))
        ∙ sym (byte_at-drop rb.read rb.buffer i)
        ∙ mem_equal-agree len (drop rb.read rb.buffer) mem e i p,
    λ a. agree-mem_equal len (drop rb.read rb.buffer) mem (λ i p.
        byte_at-drop rb.read rb.buffer i ∙ byte_first rb i (omega arith) (omega arith) ∙ a i p),
  )

  split_equal :
      (first second base : ℕ)
      → first + second ≡ len
      → rb.read + first ≡ rb.size
      → ((mem_equal first (drop rb.read rb.buffer) mem ≡ true)
          × (mem_equal second rb.buffer (drop first mem) ≡ true))
        ↔ ((i : ℕ) → i < len → byte_at (contents rb) i ≡ byte_at mem i)
  split_equal first second base f g = (
    λ e i p. elim (dec_lt i first) [
      | yes q ↦
          sym (byte_first rb i (omega arith) (omega arith))
          ∙ sym (byte_at-drop rb.read rb.buffer i)
          ∙ mem_equal-agree first (drop rb.read rb.buffer) mem e.0 i q
      | no q ↦
          sym (byte_second rb i (i - first) (omega arith) (omega arith) (omega arith))
          ∙ mem_equal-agree second rb.buffer (drop first mem) e.1 (i - first) (omega arith)
          ∙ byte_at-drop first mem (i - first)
          ∙ ap (byte_at mem) (omega arith)
    ],
    λ a. (
      agree-mem_equal first (drop rb.read rb.buffer) mem (λ i p.
          byte_at-drop rb.read rb.buffer i
          ∙ byte_first rb i (omega arith) (omega arith)
          ∙ a i (omega arith)),
      agree-mem_equal second rb.buffer (drop first mem) (λ i p.
          byte_second rb (first + i) i (omega arith) (omega arith) (omega arith)
          ∙ a (first + i) (omega arith)
          ∙ sym (byte_at-drop first mem i)),
    ),
  )

-- `rb_memcmp` with the `size_t` sums resolved, where there are `len` bytes to compare.
mem_compare_resolved :
    (rb : RingBuffer) (mem : Bytes) (len : ℕ)
    → IsValid rb
    → 0 < len
    → len ≤ rb.used
    → mem_compare rb mem len ≡ (
        if ltb rb.size (rb.read + len)
        then (if mem_equal (rb.size - rb.read) (drop rb.read rb.buffer) mem
              && mem_equal (len - (rb.size - rb.read)) rb.buffer (drop (rb.size - rb.read) mem)
            then same
            else differs)
        else if mem_equal len (drop rb.read rb.buffer) mem
        then same
        else differs)
unfolding mem_compare
mem_compare_resolved rb mem len v p h =
    let end : add_size rb.read len ≡ rb.read + len = omega arith in
    let tmp : sub_size rb.size rb.read ≡ rb.size - rb.read = omega arith in
    elim (Bool-cases (ltb rb.size (rb.read + len))) [
      | inl e ↦
          let rest : sub_size len (rb.size - rb.read) ≡ len - (rb.size - rb.read) =
            omega (arith, ltb→lt _ _ e) in
          rw (end, tmp, rest, e) (ground arith)
      | inr e ↦ rw (end, e) (ground arith)
    ]

-- The first `n` bytes of `m` are the first of `c`.
abbrev pub Starts : Bytes → ℕ → Bytes → Type 0
Starts m n c = (n ≤ length c) × ((i : ℕ) → i < n → byte_at c i ≡ byte_at m i)

mem_compare-long :
    (rb : RingBuffer) (mem : Bytes) (len : ℕ)
    → IsValid rb
    → 0 < len
    → len ≤ rb.used
    → ((mem_compare rb mem len ≡ same)
        ↔ ((i : ℕ) → i < len → byte_at (contents rb) i ≡ byte_at mem i))
      × (mem_compare rb mem len ≢ short)
mem_compare-long rb mem len v p h =
    rw (mem_compare_resolved rb mem len v p h) (elim (Bool-cases (ltb rb.size (rb.read + len))) [
      | inl e ↦
          let l : rb.size < rb.read + len = ltb→lt _ _ e in
          let (there, back) =
            split_equal rb mem len v h (rb.size - rb.read) (len - (rb.size - rb.read)) 0
              (omega arith) (omega arith) in
          rw e (
            (
              λ t. there (ground arith, ground arith),
              λ a. let both = back a in ground (arith, both),
            ),
            ground arith,
          )
      | inr e ↦
          let (there, back) = flat_equal rb mem len v h (ltb→le _ _ e) in
          rw e (
            (λ t. there (ground arith), λ a. let both = back a in ground (arith, both)),
            ground arith,
          )
    ])

mem_compare-short :
    (rb : RingBuffer) (mem : Bytes) (len : ℕ)
    → ((len ≡ 0) ⊎ (rb.used < len))
    → mem_compare rb mem len ≡ short
unfolding mem_compare
mem_compare-short rb mem len h = ground arith

-- `rb_memcmp` gives 0 exactly when the bytes held start with the `len > 0` bytes of `mem`, and -1
-- exactly when `len` is 0 or more than the bytes held.
pub mem_compare-Starts :
    (rb : RingBuffer) (mem : Bytes) (len : ℕ)
    → IsValid rb
    → ((mem_compare rb mem len ≡ same) ↔ ((0 < len) × Starts mem len (contents rb)))
      × ((mem_compare rb mem len ≡ short) ↔ ((len ≡ 0) ⊎ (rb.used < len)))
mem_compare-Starts rb mem len v = elim (dec_lt rb.used len) [
  | yes l ↦
      let e = mem_compare-short rb mem len (inr l) in
      (
        (λ s. absurd (cc (e, s)), λ s. absurd (omega (arith, s.1.0, length-contents rb))),
        (λ s. inr l, λ s. e),
      )
  | no l ↦ elim (dec_lt 0 len) [
    | no z ↦
        let o : len ≡ 0 = omega arith in
        let e = mem_compare-short rb mem len (inl o) in
        ((λ s. absurd (cc (e, s)), λ s. absurd (omega (arith, s.0))), (λ s. inl o, λ s. e))
    | yes p ↦
        let (iff, ne) = mem_compare-long rb mem len v p (omega arith) in
        (
          (λ s. (p, (omega (arith, length-contents rb), iff.0 s)), λ s. iff.1 s.1.1),
          (λ s. absurd (ne s), λ s. absurd (omega arith)),
        )
  ]
]

-- What a search reports: no vector when there is no such position, else vectors that hold the bytes
-- before the first one.
abbrev pub Reports : RingBuffer → (ℕ → Type 0) → ℕ × Iov → Type 0
Reports rb P (zero, iov) = (q : ℕ) → ¬ P q
Reports rb P (suc n, iov) =
    P (iov.len0 + iov.len1)
    × ((q : ℕ) → q < iov.len0 + iov.len1 → ¬ P q)
    × (gather rb.buffer (suc n, iov) ≡ take (iov.len0 + iov.len1) (contents rb))

-- The byte `c` is held at position `q`.
abbrev pub Holds : RingBuffer → ℕ → ℕ → Type 0
Holds rb c q = (q < rb.used) × (byte_at (contents rb) q ≡ c)

pub gather_first :
    (rb : RingBuffer) (p : ℕ)
    → IsValid rb
    → p ≤ rb.used
    → rb.read + p ≤ rb.size
    → slice rb.buffer rb.read p ≡ take p (contents rb)
gather_first rb p v h l =
    slice-window rb.buffer rb.size rb.read p v.whole l
    ∙ sym (take-window rb.buffer rb.size rb.read rb.used p h)

pub gather_both :
    (rb : RingBuffer) (p k : ℕ)
    → IsValid rb
    → p ≤ rb.used
    → p ≡ rb.size - rb.read + k
    → slice rb.buffer rb.read (rb.size - rb.read) ++ slice rb.buffer 0 k ≡ take p (contents rb)
gather_both rb p k v h l =
    let e : k ≡ p - (rb.size - rb.read) = omega arith in
    rw e (
      slices-window rb.buffer rb.size rb.read p v.whole (omega arith) (omega arith) (omega arith)
      ∙ sym (take-window rb.buffer rb.size rb.read rb.used p h))
