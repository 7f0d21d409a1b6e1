-- ===== src/MixBuffer.antt =====
-- mixbuffer.h and mixbuffer.c: a ring buffer into which several streams are mixed. A stream is a
-- pointer (a number), its `struct mixstream` stands in a store, and the buffer holds the list of
-- pointers. `ast_slinear_saturated_add` of Asterisk is the section's parameter: it gives the two
-- bytes of the sum of two samples of two bytes.
pub mod Samples
pub mod Valid
pub mod Mix
pub mod Write
pub mod Run
pub mod Streams
mod Tests
use datacard.Base.{
  ℕ, zero, suc, ◌+◌, ◌-◌, Bool, true, false, List, [], ◌∷◌, ◌++◌, ltb, leb, ◌==◌, if◌then◌else◌,
  drop, add_size, sub_size, add_uint, sub_uint,
}
use datacard.Bytes.{Bytes}
use datacard.RingBuffer
use datacard.RingBuffer.{RingBuffer}

pub record MixStream : Type 0 where
  pub used : ℕ
  pub write : ℕ

pub record MixBuffer : Type 0 where
  pub streams : List ℕ
  pub store : ℕ → MixStream
  pub rb : RingBuffer
  pub attached : ℕ

-- A write to one `struct mixstream`.
abbrev pub update : (ℕ → MixStream) → ℕ → MixStream → ℕ → MixStream
update store stream s p = if p == stream then s else store p

-- `mixb_init` leaves `attached` as it is.
pub init : MixBuffer → Bytes → ℕ → MixBuffer
init mb buf len = record mb { streams = []; rb = RingBuffer.init buf len }

pub attach : MixBuffer → ℕ → MixBuffer
attach mb stream = record mb {
  store = update mb.store stream (record { used = 0; write = mb.rb.read });
  streams = mb.streams ++ (stream ∷ []);
  attached = add_uint mb.attached 1;
}

-- AST_LIST_REMOVE takes the first such entry out.
pub remove : ℕ → List ℕ → List ℕ
remove stream [] = []
remove stream (p ∷ ps) = if p == stream then ps else p ∷ remove stream ps

pub detach : MixBuffer → ℕ → MixBuffer
detach mb stream = record mb {
  streams = remove stream mb.streams;
  attached = sub_uint mb.attached 1;
}

pub free : MixBuffer → ℕ → ℕ
free mb stream = sub_size mb.rb.size (mb.store stream).used

-- `struct ringbuffer` with the stream's position in place of its own.
abbrev pub local : MixBuffer → ℕ → RingBuffer
local mb stream = record mb.rb { write = (mb.store stream).write; used = (mb.store stream).used }

-- The position of one stream after a read.
pub advance : RingBuffer → ℕ → MixStream → MixStream
advance rb len s =
    let used = if ltb len s.used then sub_size s.used len else 0 in
    let write = add_size rb.read used in
    record { used = used; write = if leb rb.size write then sub_size write rb.size else write }

-- AST_LIST_TRAVERSE of `mixb_read_upd`
pub advance_all : RingBuffer → ℕ → List ℕ → (ℕ → MixStream) → ℕ → MixStream
advance_all rb len [] store = store
advance_all rb len (p ∷ ps) store =
    advance_all rb len ps (update store p (advance rb len (store p)))

pub read_upd : MixBuffer → ℕ → ℕ × MixBuffer
read_upd mb len =
    let (rv, rb) = RingBuffer.read_upd mb.rb len in
    (rv, record mb { rb = rb; store = advance_all rb len mb.streams mb.store })

-- The tail of `mixb_write` that copies what lies behind the bytes of the buffer.
pub copy_rest : MixBuffer → ℕ → Bytes → ℕ → MixBuffer
copy_rest mb stream src len =
    let (rv, rb) = RingBuffer.write_bytes mb.rb src len in
    record mb {
      rb = rb;
      store = update mb.store stream (record { used = rb.used; write = rb.write });
    }

module _ (saturated_add : ℕ → ℕ → ℕ → ℕ → ℕ × ℕ) where
  -- An odd last byte is left as it is.
  pub saturated_sum : Bytes → Bytes → Bytes
  saturated_sum (a ∷ b ∷ d) (x ∷ y ∷ s) =
      let (u, v) = saturated_add a b x y in u ∷ v ∷ saturated_sum d s
  saturated_sum d s = d

  pub mix_write : MixBuffer → ℕ → Bytes → ℕ → ℕ × MixBuffer
  mix_write mb stream src len =
      let (rv, rb) = RingBuffer.write_core (local mb stream) src len saturated_sum in
      (
        rv,
        record mb {
          store = update mb.store stream (record { used = rb.used; write = rb.write });
          rb = record rb { used = mb.rb.used; write = mb.rb.write };
        },
      )

  pub write : MixBuffer → ℕ → Bytes → ℕ → ℕ × MixBuffer
  write mb stream src n =
      let room = free mb stream in
      let len = if ltb room n then room else n in
      let max_mix = sub_size mb.rb.used (mb.store stream).used in
      if ltb 0 len
      then (if ltb max_mix len
          then (let mixed = if max_mix == 0 then mb else (mix_write mb stream src max_mix).1 in
              (len, copy_rest mixed stream (drop max_mix src) (sub_size len max_mix)))
          else (len, (mix_write mb stream src len).1))
      else (len, mb)
