-- ===== src/MixBuffer/Tests.antt =====
-- Two streams over a buffer of 8 bytes: stream 1 has written 4 bytes, stream 2 none.
use datacard.Base.{
  ℕ, ◌+◌, ◌-◌, ◌≡◌, inl, inr, refl, [], ◌∷◌, arith, min, drop, if◌then◌else◌, ◌==◌, In,
}
use datacard.Bytes.{Bytes}
use datacard.RingBuffer.{RingBuffer}
use datacard.RingBuffer.Valid.{contents}
use datacard.RingBuffer.Valid as RingValid
use datacard.MixBuffer.{MixStream, MixBuffer, read_upd, write}
use datacard.MixBuffer.Valid.{IsValid, StreamIsValid}
use datacard.MixBuffer.Mix.{Moved}
use datacard.MixBuffer.Write.{written, write-Moved, write-bytes}
use datacard.MixBuffer.Run.{here, next, Step, been_read, Reach-IsValid, Distinct, read_upd-streams}

abbrev ring : RingBuffer
ring = record {
  buffer = 5 ∷ 6 ∷ 0 ∷ 0 ∷ 0 ∷ 0 ∷ 1 ∷ 2 ∷ [];
  size = 8;
  used = 4;
  read = 6;
  write = 2;
}

ring-IsValid : RingValid.IsValid ring
ring-IsValid = record {
  whole = refl;
  small = omega arith;
  read_in = omega arith;
  fits = omega arith;
  write_in = omega arith;
  write_at = refl;
}

abbrev store : ℕ → MixStream
store p = if p == 1 then record { used = 4; write = 2 } else record { used = 0; write = 6 }

abbrev mix : MixBuffer
mix = record { streams = 1 ∷ 2 ∷ []; store = store; rb = ring; attached = 2 }

stream_1-IsValid : StreamIsValid ring (store 1)
stream_1-IsValid = record { within = omega arith; write_in = omega arith; place = refl }

stream_2-IsValid : StreamIsValid ring (store 2)
stream_2-IsValid = record { within = omega arith; write_in = omega arith; place = refl }

mix-IsValid : IsValid mix
mix-IsValid = record {
  ring = ring-IsValid;
  all = (stream_1-IsValid, (stream_2-IsValid, tt));
  count = refl;
  count_in = omega arith;
}

-- Addition of bytes without carry stands for Asterisk's sum of samples.
abbrev sum : ℕ → ℕ → ℕ → ℕ → ℕ × ℕ
sum a b x y = (a + x, b + y)

abbrev src : Bytes
src = 10 ∷ 20 ∷ 30 ∷ 40 ∷ 50 ∷ 60 ∷ []

write-Moved_example : ((write sum mix 2 src 6).0 ≡ 6) × Moved mix 2 6 (write sum mix 2 src 6).1
write-Moved_example = write-Moved sum mix 2 src 6 ring-IsValid stream_2-IsValid (omega arith)

write-bytes_example :
    let (k, mb') = write sum mix 2 src 6 in contents mb'.rb ≡ written sum mix 2 src k
write-bytes_example =
    write-bytes sum mix 2 src 6 ring-IsValid stream_2-IsValid (omega arith) refl refl

not-In_2 : ¬ In {A = ℕ} 1 (2 ∷ [])
not-In_2 (inl e) = omega arith
not-In_2 (inr m) = m.1

distinct : Distinct mix.streams
distinct = (not-In_2, (λ m. m.1, tt))

read_upd-streams_example :
    let (rv, mb') = read_upd mix 3 in
    (rv ≡ min 3 4)
    × (contents mb'.rb ≡ drop 3 (contents ring))
    × ((p : ℕ) → In p mix.streams → (mb'.store p).used ≡ (store p).used - 3)
read_upd-streams_example = read_upd-streams {mb = mix} 3 mix-IsValid distinct

Reach-IsValid_example : IsValid (read_upd (write sum mix 2 src 6).1 3).1
Reach-IsValid_example =
    Reach-IsValid sum mix-IsValid
      (next (next here (Step.written 2 src 6 (omega arith) (inr (inl refl)))) (been_read 3))
