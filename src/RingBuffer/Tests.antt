-- ===== src/RingBuffer/Tests.antt =====
-- A ring buffer of 8 bytes that holds 4 from offset 6 on, and one that holds the end of a +CMGR
-- response across its end.
use datacard.Base.{
  ℕ, ◌+◌, ◌<◌, ◌≡◌, ◌↔◌, ◌⊎◌, inr, refl, sym, ◌∙◌, true, [], ◌∷◌, ◌++◌, arith, take, drop, min,
}
use datacard.Bytes.{Bytes, memmem, mem_equal}
use datacard.Bytes.Occurs.{IsFirst, Occurs, byte_at-drop, mem_equal-agree, memmem-IsFirst}
use datacard.Bytes.Pieces.{KeepsLength}
use datacard.RingBuffer.{
  RingBuffer, Iov, mem_compare, same, short, read_until_char_iov, read_until_mem_iov, read_upd,
  write_iov, write_upd, copy, write_bytes,
}
use datacard.RingBuffer.Valid.{IsValid, contents}
use datacard.RingBuffer.Read.{read_upd-contents}
use datacard.RingBuffer.Append.{write_bytes-contents, scatter, scatter-contents}
use datacard.RingBuffer.Search.{Starts, mem_compare-Starts, Reports, Holds}
use datacard.RingBuffer.FindChar.{read_until_char_iov-Reports}
use datacard.RingBuffer.FindPair.{read_until_mem_iov-Reports}
use datacard.RingBuffer.Missed.{cmgr_end, read_until_mem_iov_misses}

abbrev ring : RingBuffer
ring = record {
  buffer = b'c' ∷ b'd' ∷ 0 ∷ 0 ∷ 0 ∷ 0 ∷ b'a' ∷ b'b' ∷ [];
  size = 8;
  used = 4;
  read = 6;
  write = 2;
}

ring-IsValid : IsValid ring
ring-IsValid = record {
  whole = refl;
  small = omega arith;
  read_in = omega arith;
  fits = omega arith;
  write_in = omega arith;
  write_at = refl;
}

abbrev no_iov : Iov
no_iov = record { base0 = 0; len0 = 0; base1 = 0; len1 = 0 }

abbrev src : Bytes
src = 1 ∷ 2 ∷ 3 ∷ 4 ∷ 5 ∷ 6 ∷ []

memmem-IsFirst_example :
    IsFirst (λ q. (0 < 2) × Occurs (2 ∷ 3 ∷ []) 2 src q) (memmem src (2 ∷ 3 ∷ []) 2)
memmem-IsFirst_example = memmem-IsFirst src (2 ∷ 3 ∷ []) 2

read_upd-contents_example :
    ((read_upd ring 3).0 ≡ min 3 4) × (contents (read_upd ring 3).1 ≡ b'd' ∷ [])
read_upd-contents_example = read_upd-contents {rb = ring} 3 ring-IsValid

write_bytes-contents_example :
    let (k, q) = write_bytes ring src 6 in
    (k ≡ min 6 4) × (contents q ≡ contents ring ++ take k src) × IsValid q
write_bytes-contents_example = write_bytes-contents {rb = ring} src 6 (omega arith) ring-IsValid

copy-KeepsLength : KeepsLength copy
copy-KeepsLength dst s e = omega arith

scatter-contents_example :
    let filled : RingBuffer = record ring {
      buffer = scatter ring.buffer (write_iov ring no_iov) (7 ∷ 8 ∷ []);
    } in
    (contents (write_upd filled 2).1 ≡ contents ring ++ (7 ∷ 8 ∷ []))
    × IsValid (write_upd filled 2).1
scatter-contents_example =
    scatter-contents {rb = ring} no_iov (7 ∷ 8 ∷ []) ring-IsValid (omega arith) (omega arith)

mem_compare-Starts_example :
    ((mem_compare ring (b'a' ∷ b'b' ∷ b'c' ∷ []) 3 ≡ same)
      ↔ ((0 < 3) × Starts (b'a' ∷ b'b' ∷ b'c' ∷ []) 3 (contents ring)))
    × ((mem_compare ring (b'a' ∷ b'b' ∷ b'c' ∷ []) 3 ≡ short) ↔ (◌≡◌ {A = ℕ} 3 0 ⊎ (ring.used < 3)))
mem_compare-Starts_example = mem_compare-Starts ring (b'a' ∷ b'b' ∷ b'c' ∷ []) 3 ring-IsValid

read_until_char_iov-Reports_example :
    Reports ring (Holds ring b'd') (read_until_char_iov ring no_iov b'd')
read_until_char_iov-Reports_example = read_until_char_iov-Reports ring no_iov b'd' ring-IsValid

read_until_mem_iov-Reports_example :
    Reports ring
      (Occurs (b'b' ∷ b'c' ∷ []) 2 (contents ring))
      (read_until_mem_iov ring no_iov (b'b' ∷ b'c' ∷ []) 2)
read_until_mem_iov-Reports_example =
    read_until_mem_iov-Reports ring no_iov (b'b' ∷ b'c' ∷ []) 2 ring-IsValid (omega arith)
      (inr (omega arith))

-- "x\n\r\nOK\r\n" from offset 4 of 8 bytes on.
abbrev response : RingBuffer
response = record {
  buffer = b'O' ∷ b'K' ∷ 13 ∷ 10 ∷ b'x' ∷ 10 ∷ 13 ∷ 10 ∷ [];
  size = 8;
  used = 8;
  read = 4;
  write = 4;
}

response-IsValid : IsValid response
response-IsValid = record {
  whole = refl;
  small = omega arith;
  read_in = omega arith;
  fits = omega arith;
  write_in = omega arith;
  write_at = refl;
}

end_there : Occurs cmgr_end 7 (contents response) 1
unfolding mem_equal
end_there =
    let same_bytes : mem_equal 7 (drop 1 (contents response)) cmgr_end ≡ true = refl in
    (
      omega arith,
      λ i l.
          sym (byte_at-drop 1 (contents response) i)
          ∙ mem_equal-agree 7 (drop 1 (contents response)) cmgr_end same_bytes i l,
    )

read_until_mem_iov_misses_example :
    let (count, w) = read_until_mem_iov response no_iov cmgr_end 7 in
    ¬ ((0 < count) × (w.len0 + w.len1 ≡ 1))
read_until_mem_iov_misses_example =
    read_until_mem_iov_misses response no_iov response-IsValid 1 end_there (omega arith)
      (omega arith)
