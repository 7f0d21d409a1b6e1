-- ===== src/Bytes/Pieces.antt =====
-- Slices and block writes, byte by byte.
use datacard.Base.{
  ℕ, ◌+◌, ◌-◌, ◌≤◌, ◌<◌, ◌≡◌, refl, ◌∙◌, ◌++◌, arith, ltb, leb, if◌then◌else◌, Bool-cases, inl, inr,
  ltb→lt, ltb→le, length, take, drop, length-append, length-take, length-drop, get_or-append_left,
  get_or-append_right, get_or-take, get_or-drop, ◌&&◌,
}
use datacard.Bytes.{Bytes, byte_at, slice, blit}

pub length-slice : (b : Bytes) (off n : ℕ) → off + n ≤ length b → length (slice b off n) ≡ n
length-slice b off n h = omega (arith, length-take n (drop off b), length-drop off b)

pub byte_at-slice :
    (b : Bytes) (off n i : ℕ) → i < n → byte_at (slice b off n) i ≡ byte_at b (off + i)
byte_at-slice b off n i h = get_or-take n (drop off b) i 0 h ∙ get_or-drop off b i (off + i) 0 refl

pub byte_at-append :
    (a b : Bytes) (i : ℕ)
    → byte_at (a ++ b) i ≡ (if ltb i (length a) then byte_at a i else byte_at b (i - length a))
byte_at-append a b i = elim (Bool-cases (ltb i (length a))) [
  | inl e ↦ rw e (get_or-append_left a b i 0 (ltb→lt i (length a) e))
  | inr e ↦ rw e (get_or-append_right a b i (i - length a) 0 (omega (arith, ltb→le i (length a) e)))
]

-- A method keeps the length of its destination, given as many source bytes.
abbrev pub KeepsLength : (Bytes → Bytes → Bytes) → Type 0
KeepsLength method = (d s : Bytes) → length d ≡ length s → length (method d s) ≡ length d

module _ (method : Bytes → Bytes → Bytes) (keep : KeepsLength method) where
  module _ (b : Bytes) (off : ℕ) (src : Bytes) (n : ℕ) (fits : off + n ≤ length b)
      (given : n ≤ length src) where
    -- What the method makes of the `n` bytes.
    abbrev pub made : Bytes
    made = method (slice b off n) (take n src)

    pub length-made : length made ≡ n
    length-made = omega (
      arith,
      keep (slice b off n) (take n src)
          (omega (arith, length-slice b off n fits, length-take n src)),
      length-slice b off n fits,
    )

    pub length-blit : length (blit method b off src n) ≡ length b
    length-blit = omega (
      arith,
      length-append (take off b) (made ++ drop (off + n) b),
      length-append made (drop (off + n) b),
      length-made,
      length-take off b,
      length-drop (off + n) b,
    )

    pub byte_at-blit :
        (i : ℕ)
        → byte_at (blit method b off src n) i
          ≡ (if leb off i && ltb i (off + n) then byte_at made (i - off) else byte_at b i)
    byte_at-blit i = ground (
      arith,
      byte_at-append (take off b) (made ++ drop (off + n) b) i,
      byte_at-append made (drop (off + n) b) (i - length (take off b)),
      length-take off b,
      length-made,
      get_or-take off b i 0,
      get_or-drop (off + n) b (i - length (take off b) - length made) i 0,
    )
