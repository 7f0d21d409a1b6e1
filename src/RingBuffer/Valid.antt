-- ===== src/RingBuffer/Valid.antt =====
-- The representation invariant of `struct ringbuffer`, and the bytes that it holds.
use native.Mathlib.Decide.{ℕ_discrete, dec_lt}
use datacard.Base.{
  ℕ, ◌+◌, ◌-◌, ◌≤◌, ◌<◌, true, ◌≡◌, ap, ◌∙◌, sym, ◌++◌, arith, ltb, lt→ltb, if◌then◌else◌, length,
  drop, tabulate, length-tabulate, get_or-tabulate, list_ext, size_max, add_size, sub_size,
  length-append, length-drop,
}
use datacard.Bytes.{Bytes, byte_at, slice, blit}
use datacard.Bytes.Pieces.{KeepsLength, length-blit, length-slice, byte_at-slice, byte_at-append}
use datacard.RingBuffer.{RingBuffer, init, free, read_upd, write_upd, write_core}

-- A position moved on, taken round the end of the buffer.
abbrev pub wrap : ℕ → ℕ → ℕ
wrap size i = if ltb i size then i else i - size

-- `size` stands below half the address space. `write` may be `size`, where `rb_write_upd` leaves
-- it, and then stands for 0.
pub record IsValid (rb : RingBuffer) : Type 0 where
  pub whole : length rb.buffer ≡ rb.size
  pub small : rb.size < size_max
  pub read_in : rb.read < rb.size
  pub fits : rb.used ≤ rb.size
  pub write_in : rb.write ≤ rb.size
  pub write_at : wrap rb.size rb.write ≡ wrap rb.size (rb.read + rb.used)

-- The `n` bytes from `start` on, going round the end.
abbrev pub window : Bytes → ℕ → ℕ → ℕ → Bytes
window buffer size start n = tabulate n (λ i. byte_at buffer (wrap size (start + i)))

-- The bytes held, oldest first.
abbrev pub contents : RingBuffer → Bytes
contents rb = window rb.buffer rb.size rb.read rb.used

pub init-IsValid :
    (buf : Bytes) (size : ℕ)
    → length buf ≡ size
    → 0 < size
    → size < size_max
    → IsValid (init buf size)
unfolding init
init-IsValid buf size e p m = ground arith

pub read_upd-IsValid : {rb : RingBuffer} (n : ℕ) → IsValid rb → IsValid (read_upd rb n).1
unfolding read_upd
read_upd-IsValid n v = ground arith

pub write_upd-IsValid : {rb : RingBuffer} (n : ℕ) → IsValid rb → IsValid (write_upd rb n).1
unfolding write_upd free
write_upd-IsValid n v = ground arith

-- The bytes that `write_core` takes of `n`.
abbrev pub taken : RingBuffer → ℕ → ℕ
taken rb n = if ltb (rb.size - rb.used) n then rb.size - rb.used else n

-- The three ways through `write_core`, with the `size_t` sums resolved.
module _ {rb : RingBuffer} (buf : Bytes) (n : ℕ) (method : Bytes → Bytes → Bytes)
    (v : IsValid rb) where
  abbrev pub flat_write : RingBuffer
  flat_write = record rb {
    buffer = blit method rb.buffer rb.write buf (taken rb n);
    write = wrap rb.size (rb.write + taken rb n);
    used = rb.used + taken rb n;
  }

  abbrev pub split_write : RingBuffer
  split_write = record rb {
    buffer =
        blit method (blit method rb.buffer rb.write buf (rb.size - rb.write)) 0
          (drop (rb.size - rb.write) buf) (rb.write + taken rb n - rb.size);
    write = rb.write + taken rb n - rb.size;
    used = rb.used + taken rb n;
  }

  write_core_none : taken rb n ≡ 0 → write_core rb buf n method ≡ (0, rb)
  unfolding write_core free
  write_core_none e = ground arith

  write_core_flat :
      0 < taken rb n
      → rb.write + taken rb n ≤ rb.size
      → write_core rb buf n method ≡ (taken rb n, flat_write)
  unfolding write_core free
  write_core_flat p h = ground arith

  write_core_split :
      rb.size < rb.write + taken rb n → write_core rb buf n method ≡ (taken rb n, split_write)
  unfolding write_core free
  write_core_split h =
      let room : sub_size rb.size rb.used ≡ rb.size - rb.used = omega arith in
      let some_taken : ltb 0 (taken rb n) ≡ true = ground arith in
      let s : add_size rb.write (taken rb n) ≡ rb.write + taken rb n = ground arith in
      let split : ltb rb.size (rb.write + taken rb n) ≡ true = lt→ltb _ _ h in
      let first : sub_size rb.size rb.write ≡ rb.size - rb.write = omega arith in
      let second : sub_size (rb.write + taken rb n) rb.size ≡ rb.write + taken rb n - rb.size =
        ground arith in
      let used : add_size rb.used (taken rb n) ≡ rb.used + taken rb n = ground arith in
      rw (room, some_taken, s, split, first, second, used)

  -- A property of the results of the three ways holds of the result.
  pub write_core_cases {κ} :
      (P : ℕ × RingBuffer → Type κ)
      → (taken rb n ≡ 0 → P (0, rb))
      → (0 < taken rb n → rb.write + taken rb n ≤ rb.size → P (taken rb n, flat_write))
      → (0 < taken rb n → rb.size < rb.write + taken rb n → P (taken rb n, split_write))
      → P (write_core rb buf n method)
  write_core_cases P h k l = elim (ℕ_discrete (taken rb n) 0) [
    | yes e ↦ rw (write_core_none e) (h e)
    | no e ↦ elim (dec_lt rb.size (rb.write + taken rb n)) [
      | yes f ↦ rw (write_core_split f) (l (omega arith) f)
      | no f ↦ rw (write_core_flat (omega arith) (omega arith)) (k (omega arith) (omega arith))
    ]
  ]

pub write_core-IsValid :
    {rb : RingBuffer} (buf : Bytes) (n : ℕ) (method : Bytes → Bytes → Bytes)
    → KeepsLength method
    → n ≤ length buf
    → IsValid rb
    → IsValid (write_core rb buf n method).1
write_core-IsValid {rb} buf n method keep given v =
    let len = taken rb n in
    let first = rb.size - rb.write in
    let once = blit method rb.buffer rb.write buf first in
    write_core_cases buf n method v (λ r. IsValid r.1) (λ e. v)
      (λ p h. ground (arith, length-blit method keep rb.buffer rb.write buf len))
      (λ p h. ground (
        arith,
        length-drop first buf,
        length-blit method keep rb.buffer rb.write buf first,
        length-blit method keep once 0 (drop first buf) (rb.write + len - rb.size),
      ))

-- Pieces of the buffer as parts of the cycle.
pub slice-window :
    (b : Bytes) (size start n : ℕ)
    → length b ≡ size
    → start + n ≤ size
    → slice b start n ≡ window b size start n
slice-window b size start n e h =
    list_ext _ _ 0 (length-slice b start n (omega arith) ∙ sym (length-tabulate n _)) (λ i p.
      let q : i < n = omega (arith, length-slice b start n (omega arith)) in
      byte_at-slice b start n i q
      ∙ ap (byte_at b) (ground arith)
      ∙ sym (get_or-tabulate n (λ j. byte_at b (wrap size (start + j))) i 0 q))

pub slices-window :
    (b : Bytes) (size start n : ℕ)
    → length b ≡ size
    → start ≤ size
    → size ≤ start + n
    → n ≤ size
    → slice b start (size - start) ++ slice b 0 (n - (size - start)) ≡ window b size start n
slices-window b size start n e h k l =
    let first = size - start in
    let a = length-slice b start first (omega arith) in
    let c = length-slice b 0 (n - first) (omega arith) in
    list_ext _ _ 0
      (omega (
        arith,
        length-append (slice b start first) (slice b 0 (n - first)),
        a,
        c,
        length-tabulate n (λ j. byte_at b (wrap size (start + j))),
      ))
      (λ i p.
        let q : i < n =
          omega (arith, length-append (slice b start first) (slice b 0 (n - first)), a, c) in
        ground (
          arith,
          byte_at-append (slice b start first) (slice b 0 (n - first)) i,
          a,
          byte_at-slice b start first i,
          byte_at-slice b 0 (n - first) (i - first),
          get_or-tabulate n (λ j. byte_at b (wrap size (start + j))) i 0,
        ))
