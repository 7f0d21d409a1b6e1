-- ===== src/AtRead/Tests.antt =====
-- A buffer with one answer, "\r\nOK\r\n", across its end.
use datacard.Base.{refl, false, [], ◌∷◌, arith}
use datacard.Bytes.{mem_equal}
use datacard.RingBuffer.{RingBuffer, Iov, mem_compare}
use datacard.RingBuffer.Valid.{IsValid}
use datacard.AtRead.{in_answer, read_result_iov}
use datacard.AtRead.Framing.{Ends, Line, read_result_iov-Ends, in_answer-Line}

abbrev rb : RingBuffer
rb = record {
  buffer = b'K' ∷ 13 ∷ 10 ∷ 0 ∷ 0 ∷ 13 ∷ 10 ∷ b'O' ∷ [];
  size = 8;
  used = 6;
  read = 5;
  write = 3;
}

rb-IsValid : IsValid rb
rb-IsValid = record {
  whole = refl;
  small = omega arith;
  read_in = omega arith;
  fits = omega arith;
  write_in = omega arith;
  write_at = refl;
}

-- Behind the first "\r\n"
abbrev answer : RingBuffer
answer = record rb { used = 4; read = 7 }

answer-IsValid : IsValid answer
answer-IsValid = record {
  whole = refl;
  small = omega arith;
  read_in = omega arith;
  fits = omega arith;
  write_in = omega arith;
  write_at = refl;
}

abbrev no_iov : Iov
no_iov = record { base0 = 0; len0 = 0; base1 = 0; len1 = 0 }

read_result_iov-Ends_example : Ends rb (read_result_iov 7 false rb no_iov)
read_result_iov-Ends_example = read_result_iov-Ends 7 false rb no_iov rb-IsValid (omega arith)

in_answer-Line_example : Line answer (in_answer answer no_iov)
unfolding mem_compare mem_equal
in_answer-Line_example = in_answer-Line answer no_iov answer-IsValid refl refl refl refl
