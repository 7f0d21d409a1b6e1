-- ===== src/RingBuffer.antt =====
-- ringbuffer.h and ringbuffer.c. A pointer into the buffer is an offset; a function that writes
-- the caller's `iov` array or `*rb` returns it beside its result.
pub mod Valid
pub mod Read
pub mod Write
pub mod Append
pub mod Search
pub mod Find
pub mod FindChar
pub mod FindMem
pub mod FindPair
pub mod Missed
mod Tests
use datacard.Base.{
  ℕ, zero, suc, ◌+◌, ◌-◌, Bool, true, false, ◌&&◌, ◌||◌, Option, none, some, ltb, leb, ◌==◌,
  if◌then◌else◌, take, drop, add_size, sub_size,
}
use datacard.Bytes.{Bytes, byte_at, mem_equal, memchr, memmem, slice, blit}

pub record RingBuffer : Type 0 where
  pub buffer : Bytes
  pub size : ℕ
  pub used : ℕ
  pub read : ℕ
  pub write : ℕ

-- `struct iovec iov[2]`
pub record Iov : Type 0 where
  pub base0 : ℕ
  pub len0 : ℕ
  pub base1 : ℕ
  pub len1 : ℕ

pub init : Bytes → ℕ → RingBuffer
init buf size = record { buffer = buf; size = size; used = 0; read = 0; write = 0 }

pub free : RingBuffer → ℕ
free rb = sub_size rb.size rb.used

-- The results 0, 1 and -1 of `rb_memcmp`.
pub data Compare : Type 0 where
  same differs short : Compare

unfoldable pub mem_compare : RingBuffer → Bytes → ℕ → Compare
mem_compare rb mem len =
    if ltb 0 rb.used && ltb 0 len && leb len rb.used
    then (if ltb rb.size (add_size rb.read len)
        then (let tmp = sub_size rb.size rb.read in
            if mem_equal tmp (drop rb.read rb.buffer) mem
            then (if mem_equal (sub_size len tmp) rb.buffer (drop tmp mem) then same else differs)
            else differs)
        else if mem_equal len (drop rb.read rb.buffer) mem
        then same
        else differs)
    else short

-- Two pieces, from `start` to the end of the buffer and from its beginning, `n` bytes in all.
abbrev split_iov : RingBuffer → ℕ → ℕ → Iov
split_iov rb start n =
    let first = sub_size rb.size start in
    record { base0 = start; len0 = first; base1 = 0; len1 = sub_size n first }

pub read_all_iov : RingBuffer → Iov → ℕ × Iov
read_all_iov rb iov =
    if ltb 0 rb.used
    then (if ltb rb.size (add_size rb.read rb.used)
        then (2, split_iov rb rb.read rb.used)
        else (1, record iov { base0 = rb.read; len0 = rb.used; len1 = 0 }))
    else (0, iov)

pub read_n_iov : RingBuffer → Iov → ℕ → ℕ × Iov
read_n_iov rb iov len =
    if ltb rb.used len
    then (0, iov)
    else if ltb 0 len
    then (if ltb rb.size (add_size rb.read len)
        then (2, split_iov rb rb.read len)
        else (1, record iov { base0 = rb.read; len0 = len; len1 = 0 }))
    else (0, iov)

-- The search over one unwrapped piece, shared by the two branches of `rb_read_until_char_iov`.
abbrev found_first : Iov → ℕ → ℕ × Iov
found_first iov p = (1, record iov { len0 = p; len1 = 0 })

pub read_until_char_iov : RingBuffer → Iov → ℕ → ℕ × Iov
read_until_char_iov rb iov c =
    if ltb 0 rb.used
    then (if ltb rb.size (add_size rb.read rb.used)
        then (let first = record iov { base0 = rb.read; len0 = sub_size rb.size rb.read } in
            elim (memchr (slice rb.buffer rb.read first.len0) c) [
              | some p ↦ found_first first p
              | none ↦ elim (memchr (slice rb.buffer 0 (sub_size rb.used first.len0)) c) [
                | some p ↦ (2, record first { base1 = 0; len1 = p })
                | none ↦ (0, first)
              ]
            ])
        else (let first = record iov { base0 = rb.read; len0 = rb.used } in
            elim (memchr (slice rb.buffer rb.read rb.used) c) [
              | some p ↦ found_first first p
              | none ↦ (0, first)
            ]))
    else (0, iov)

pub data Straddle : Type 0 where
  found : ℕ → Straddle
  stopped : ℕ → Straddle
  ended : ℕ → Straddle

-- `while (i < len)`: the search for an occurrence that crosses the end of the buffer, with
-- `iov[1].iov_base` and `i`. The rounds are `len - i`.
pub straddle_loop : ℕ → RingBuffer → ℕ → Bytes → ℕ → ℕ → ℕ → Straddle
straddle_loop zero rb len0 mem len base i = ended base
straddle_loop (suc rounds) rb len0 mem len base i =
    let rest = straddle_loop rounds rb len0 mem len (add_size base 1) (add_size i 1) in
    if mem_equal (sub_size len i) (drop base rb.buffer) mem && mem_equal i rb.buffer (drop i mem)
    then found base
    else if rb.used == add_size len0 i
    then stopped base
    else rest

-- The search in the part that starts at the beginning of the buffer; `iov[0]` is the whole first
-- part.
abbrev search_second : RingBuffer → Iov → Bytes → ℕ → ℕ × Iov
search_second rb iov mem len =
    if leb (add_size iov.len0 len) rb.used
    then elim (memmem (slice rb.buffer 0 (sub_size rb.used iov.len0)) mem len) [
      | some p ↦
          if p == 0 then (1, record iov { len1 = 0 }) else (2, record iov { base1 = 0; len1 = p })
      | none ↦ (0, iov)
    ]
    else (0, iov)

pub search_straddle : RingBuffer → Iov → Bytes → ℕ → ℕ → ℕ → ℕ × Iov
search_straddle rb iov mem len base i = elim (straddle_loop (len - i) rb iov.len0 mem len base i) [
  | found b ↦ (1, record iov { len0 = sub_size b iov.base0; base1 = b; len1 = 0 })
  | stopped b ↦ (0, record iov { base1 = b })
  | ended b ↦ search_second rb (record iov { base1 = b }) mem len
]

pub search_wrapped : RingBuffer → Iov → Bytes → ℕ → ℕ × Iov
search_wrapped rb iov mem len =
    let first = record iov { base0 = rb.read; len0 = sub_size rb.size rb.read } in
    if leb len first.len0
    then elim (memmem (slice rb.buffer rb.read first.len0) mem len) [
      | some p ↦ found_first first p
      | none ↦
          search_straddle rb first mem len (add_size (sub_size (add_size rb.read first.len0) len) 1)
            1
    ]
    else search_straddle rb first mem len rb.read (sub_size len first.len0)

pub read_until_mem_iov : RingBuffer → Iov → Bytes → ℕ → ℕ × Iov
read_until_mem_iov rb iov mem len =
    if len == 1
    then read_until_char_iov rb iov (byte_at mem 0)
    else if ltb 0 rb.used && ltb 0 len && leb len rb.used
    then (if ltb rb.size (add_size rb.read rb.used)
        then search_wrapped rb iov mem len
        else (let first = record iov { base0 = rb.read; len0 = rb.used } in
            elim (memmem (slice rb.buffer rb.read rb.used) mem len) [
              | some p ↦ found_first first p
              | none ↦ (0, first)
            ]))
    else (0, iov)

pub read_upd : RingBuffer → ℕ → ℕ × RingBuffer
read_upd rb n =
    let len = if ltb rb.used n then rb.used else n in
    if ltb 0 len
    then (let used = sub_size rb.used len in
        if used == 0
        then (len, record rb { used = used; read = 0; write = 0 })
        else (let s = add_size rb.read len in
            (
              len,
              record rb { used = used; read = if leb rb.size s then sub_size s rb.size else s },
            )))
    else (len, rb)

pub write_iov : RingBuffer → Iov → ℕ × Iov
write_iov rb iov =
    let room = free rb in
    if ltb 0 room
    then (if ltb rb.size (add_size rb.write room)
        then (2, split_iov rb rb.write room)
        else (1, record iov { base0 = rb.write; len0 = room }))
    else (0, iov)

pub write_upd : RingBuffer → ℕ → ℕ × RingBuffer
write_upd rb n =
    let room = free rb in
    let len = if ltb room n then room else n in
    if ltb 0 len
    then (let s = add_size rb.write len in
        (
          len,
          record rb {
            write = if ltb rb.size s then sub_size s rb.size else s;
            used = add_size rb.used len;
          },
        ))
    else (len, rb)

-- `method (dst, src, n)` replaces the `n` bytes at `dst` by its result.
pub write_core : RingBuffer → Bytes → ℕ → (Bytes → Bytes → Bytes) → ℕ × RingBuffer
write_core rb buf n method =
    let room = free rb in
    let len = if ltb room n then room else n in
    if ltb 0 len
    then (let s = add_size rb.write len in
        if ltb rb.size s
        then (let first = sub_size rb.size rb.write in
            let second = sub_size s rb.size in
            (
              len,
              record rb {
                buffer =
                    blit method (blit method rb.buffer rb.write buf first) 0 (drop first buf)
                      second;
                write = second;
                used = add_size rb.used len;
              },
            ))
        else (
          len,
          record rb {
            buffer = blit method rb.buffer rb.write buf len;
            write = if s == rb.size then 0 else s;
            used = add_size rb.used len;
          },
        ))
    else (len, rb)

-- `memmove` as a method: the bytes of the source.
abbrev pub copy : Bytes → Bytes → Bytes
copy dst src = src

-- `rb_write`
pub write_bytes : RingBuffer → Bytes → ℕ → ℕ × RingBuffer
write_bytes rb buf len = write_core rb buf len copy
