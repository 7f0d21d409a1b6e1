-- ===== src/MixBuffer/Samples.antt =====
-- `saturated_sum` as a method of the ring buffer: it keeps the length, and works on two pieces as
-- on the whole where they meet between two samples.
use datacard.Base.{
  ℕ, zero, suc, ◌+◌, ◌*◌, ◌/◌, ◌%◌, ◌<◌, ◌≡◌, refl, ap, sym, ◌∙◌, [], ◌∷◌, ◌++◌, arith, length,
  ◌==◌, if◌then◌else◌, tabulate, length-tabulate, list_ext, get_or-tabulate,
}
use datacard.Bytes.{Bytes, byte_at}
use datacard.Bytes.Pieces.{KeepsLength}
use datacard.RingBuffer.Write.{SplitsAt}
use datacard.MixBuffer.{saturated_sum}

module _ (add : ℕ → ℕ → ℕ → ℕ → ℕ × ℕ) where
  pub saturated_sum-KeepsLength : KeepsLength (saturated_sum add)
  unfolding saturated_sum
  saturated_sum-KeepsLength (a ∷ b ∷ d) (x ∷ y ∷ s) e =
      omega (arith, saturated_sum-KeepsLength d s (omega arith))
  saturated_sum-KeepsLength _ _ e = refl

  sum_pieces :
      (d d' s s' : Bytes)
      → length d ≡ length s
      → length d % 2 ≡ 0
      → saturated_sum add (d ++ d') (s ++ s') ≡ saturated_sum add d s ++ saturated_sum add d' s'
  unfolding saturated_sum
  sum_pieces [] d' [] s' e h = refl
  sum_pieces [] d' (x ∷ s) s' e h = absurd (omega arith)
  sum_pieces (a ∷ []) d' s s' e h = absurd (omega arith)
  sum_pieces (a ∷ b ∷ d) d' [] s' e h = absurd (omega arith)
  sum_pieces (a ∷ b ∷ d) d' (x ∷ []) s' e h = absurd (omega arith)
  sum_pieces (a ∷ b ∷ d) d' (x ∷ y ∷ s) s' e h =
      let (u, v) = add a b x y in
      ap (λ t. u ∷ v ∷ t) (sum_pieces d d' s s' (omega arith) (omega arith))

  pub saturated_sum-SplitsAt : (first : ℕ) → first % 2 ≡ 0 → SplitsAt first (saturated_sum add)
  saturated_sum-SplitsAt first h d d' s s' e f g = sum_pieces d d' s s' (omega arith) (omega arith)

  -- Byte `i` of the sum of two strings of samples of two bytes: it is the low or the high byte of the
  -- sum of the samples that stand at its place. An odd last byte is no sample, and stays.
  abbrev pub sample_byte : Bytes → Bytes → ℕ → ℕ
  sample_byte d s i =
      let k = i / 2 * 2 in
      let (low, high) = add (byte_at d k) (byte_at d (k + 1)) (byte_at s k) (byte_at s (k + 1)) in
      if k + 1 == length d then byte_at d i else if i % 2 == 0 then low else high

  abbrev pub sample_sum : Bytes → Bytes → Bytes
  sample_sum d s = tabulate (length d) (sample_byte d s)

  sample_byte-later :
      (a b x y : ℕ) (d s : Bytes) (i : ℕ)
      → sample_byte (a ∷ b ∷ d) (x ∷ y ∷ s) (suc (suc i)) ≡ sample_byte d s i
  sample_byte-later a b x y d s i =
      let k : suc (suc i) / 2 * 2 ≡ suc (suc (i / 2 * 2)) = omega arith in
      let m : suc (suc i) % 2 ≡ i % 2 = omega arith in rw (k, m) (ground arith)

  byte_at-saturated_sum :
      (d s : Bytes) (i : ℕ)
      → length d ≡ length s
      → i < length d
      → byte_at (saturated_sum add d s) i ≡ sample_byte d s i
  unfolding saturated_sum
  byte_at-saturated_sum [] s i e h = absurd (omega arith)
  byte_at-saturated_sum (a ∷ []) s zero e h = refl
  byte_at-saturated_sum (a ∷ []) s (suc i) e h = absurd (omega arith)
  byte_at-saturated_sum (a ∷ b ∷ d) [] i e h = absurd (omega arith)
  byte_at-saturated_sum (a ∷ b ∷ d) (x ∷ []) i e h = absurd (omega arith)
  byte_at-saturated_sum (a ∷ b ∷ d) (x ∷ y ∷ s) zero e h = ground arith
  byte_at-saturated_sum (a ∷ b ∷ d) (x ∷ y ∷ s) (suc zero) e h = ground arith
  byte_at-saturated_sum (a ∷ b ∷ d) (x ∷ y ∷ s) (suc (suc i)) e h =
      byte_at-saturated_sum d s i (omega arith) (omega arith)
      ∙ sym (sample_byte-later a b x y d s i)

  pub saturated_sum-sample_sum :
      (d s : Bytes) → length d ≡ length s → saturated_sum add d s ≡ sample_sum d s
  saturated_sum-sample_sum d s e =
      list_ext _ _ 0
        (saturated_sum-KeepsLength d s e ∙ sym (length-tabulate (length d) (sample_byte d s)))
        (λ i p.
          let q : i < length d = omega (arith, saturated_sum-KeepsLength d s e) in
          byte_at-saturated_sum d s i e q
          ∙ sym (get_or-tabulate (length d) (sample_byte d s) i 0 q))
