-- ===== src/MixBuffer/Valid.antt =====
-- The invariant of `struct mixbuffer`: every attached stream stands between the read and the write
-- position of the ring buffer.
use datacard.Base.{
  ℕ, ◌+◌, ◌^◌, ◌≡◌, ◌≢◌, ◌≤◌, ◌<◌, refl, ap, inl, inr, List, [], ◌∷◌, arith, length, length-append,
  All, In, All-map, All-append, ◌==◌, Bool-cases, true, false,
}
use datacard.RingBuffer
use datacard.RingBuffer.{RingBuffer}
use datacard.RingBuffer.Valid.{
  wrap, taken, write_core-IsValid, write_core_cases, flat_write, split_write,
}
use datacard.RingBuffer.Valid as RingValid
use datacard.RingBuffer.Read.{read_upd_fields}
use datacard.MixBuffer.{
  MixStream, MixBuffer, update, attach, remove, detach, local, advance, advance_all, read_upd,
}

pub record StreamIsValid (rb : RingBuffer) (s : MixStream) : Type 0 where
  pub within : s.used ≤ rb.used
  pub write_in : s.write ≤ rb.size
  pub place : wrap rb.size s.write ≡ wrap rb.size (rb.read + s.used)

abbrev pub AllValid : MixBuffer → Type 0
AllValid mb = All (λ p. StreamIsValid mb.rb (mb.store p)) mb.streams

pub record IsValid (mb : MixBuffer) : Type 0 where
  pub ring : RingValid.IsValid mb.rb
  pub all : AllValid mb
  pub count : mb.attached ≡ length mb.streams
  pub count_in : length mb.streams < 2 ^ 32

-- The ring buffer that a stream writes to.
pub local-IsValid :
    (mb : MixBuffer) (stream : ℕ)
    → RingValid.IsValid mb.rb
    → StreamIsValid mb.rb (mb.store stream)
    → RingValid.IsValid (local mb stream)
local-IsValid mb stream r s = record {
  whole = r.whole;
  small = r.small;
  read_in = r.read_in;
  fits = omega (arith, s.within, r.fits);
  write_in = s.write_in;
  write_at = s.place;
}

-- A property of the streams is kept by a write of one stream that has it.
pub update-keeps :
    (Q : MixStream → Type 0) (store : ℕ → MixStream) (stream : ℕ) (s : MixStream) (p : ℕ)
    → Q s
    → Q (store p)
    → Q (update store stream s p)
update-keeps Q store stream s p f g = elim (Bool-cases (p == stream)) [
  | inl e ↦ rw e f
  | inr e ↦ rw e g
]

pub update_self :
    (store : ℕ → MixStream) (stream : ℕ) (s : MixStream) → update store stream s stream ≡ s
update_self store stream s = let e : (stream == stream) ≡ true = ground arith in rw e refl

pub update_ne :
    (store : ℕ → MixStream) (stream : ℕ) (s : MixStream) (p : ℕ)
    → p ≢ stream
    → update store stream s p ≡ store p
update_ne store stream s p h = let e : (p == stream) ≡ false = ground arith in rw e refl

-- `mixb_attach` keeps the invariant.
pub attach-IsValid :
    {mb : MixBuffer} (stream : ℕ)
    → length mb.streams + 1 < 2 ^ 32
    → IsValid mb
    → IsValid (attach mb stream)
unfolding attach
attach-IsValid {mb} stream h v =
    let s : MixStream = record { used = 0; write = mb.rb.read } in
    let fresh : StreamIsValid mb.rb s = record {
      within = omega arith;
      write_in = omega (arith, v.ring.read_in);
      place = ap (wrap mb.rb.size) (omega arith);
    } in
    record {
      ring = v.ring;
      all =
          All-append _ mb.streams (stream ∷ [])
            (All-map _ _ mb.streams
              (λ p. update-keeps (StreamIsValid mb.rb) mb.store stream s p fresh) v.all)
            (rw (update_self mb.store stream s) fresh, tt);
      count = omega (arith, v.count, length-append mb.streams (stream ∷ []));
      count_in = omega (arith, length-append mb.streams (stream ∷ []));
    }

length-remove : (p : ℕ) (ps : List ℕ) → In p ps → length (remove p ps) + 1 ≡ length ps
unfolding remove
length-remove p [] m = absurd m.1
length-remove p (q ∷ ps) (inl e) = let f : (q == p) ≡ true = ground arith in rw f (omega arith)
length-remove p (q ∷ ps) (inr m) = elim (Bool-cases (q == p)) [
  | inl e ↦ rw e (omega arith)
  | inr e ↦ rw e (omega (arith, length-remove p ps m))
]

All-remove : (P : ℕ → Type 0) (p : ℕ) (ps : List ℕ) → All P ps → All P (remove p ps)
unfolding remove
All-remove P p [] h = tt
All-remove P p (q ∷ ps) h = elim (Bool-cases (q == p)) [
  | inl e ↦ rw e h.1
  | inr e ↦ rw e (h.0, All-remove P p ps h.1)
]

-- `mixb_detach` of an attached stream keeps the invariant.
pub detach-IsValid :
    {mb : MixBuffer} (stream : ℕ) → In stream mb.streams → IsValid mb → IsValid (detach mb stream)
unfolding detach
detach-IsValid {mb} stream m v =
    let l = length-remove stream mb.streams m in
    record {
      ring = v.ring;
      all = All-remove _ stream mb.streams v.all;
      count = omega (arith, l, v.count, v.count_in);
      count_in = omega (arith, l, v.count_in);
    }

-- A stream that is not ahead of the buffer stays so, wherever it stands.
advance-StreamIsValid :
    (rb : RingBuffer) (len : ℕ) (s : MixStream)
    → RingValid.IsValid rb
    → s.used ≤ rb.used + len
    → StreamIsValid rb (advance rb len s)
unfolding advance
advance-StreamIsValid rb len s v h = ground arith

advance_all-AllValid :
    (rb : RingBuffer) (len : ℕ) (ps qs : List ℕ) (store : ℕ → MixStream)
    → RingValid.IsValid rb
    → All (λ p. (store p).used ≤ rb.used + len) ps
    → All (λ p. StreamIsValid rb (store p)) qs
    → All (λ p. StreamIsValid rb (advance_all rb len ps store p)) (qs)
      × All (λ p. StreamIsValid rb (advance_all rb len ps store p)) ps
unfolding advance_all
advance_all-AllValid rb len [] qs store v h k = (k, tt)
advance_all-AllValid rb len (p ∷ ps) qs store v h k =
    let s = advance rb len (store p) in
    let f = advance-StreamIsValid rb len (store p) v h.0 in
    let rest =
      advance_all-AllValid rb len ps (p ∷ qs) (update store p s) v
        (All-map _ _ ps
          (λ q. update-keeps (λ t. t.used ≤ rb.used + len) store p s q (omega (arith, f.within)))
          h.1)
        (
          rw (update_self store p s) f,
          All-map _ _ qs (λ q. update-keeps (StreamIsValid rb) store p s q f) k,
        ) in
    (rest.0.1, (rest.0.0, rest.1))

-- `mixb_read_upd` keeps the invariant.
pub read_upd-IsValid : {mb : MixBuffer} (len : ℕ) → IsValid mb → IsValid (read_upd mb len).1
unfolding read_upd
read_upd-IsValid {mb} len v =
    let rb = (RingBuffer.read_upd mb.rb len).1 in
    let ring = RingValid.read_upd-IsValid len v.ring in
    let f = read_upd_fields mb.rb len v.ring in
    record {
      ring = ring;
      all =
          (advance_all-AllValid rb len mb.streams [] mb.store ring
            (All-map _ _ mb.streams (λ p s. omega (arith, s.within, f.3)) v.all) tt).1;
      count = v.count;
      count_in = v.count_in;
    }
