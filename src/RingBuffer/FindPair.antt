-- ===== src/RingBuffer/FindPair.antt =====
-- `rb_read_until_mem_iov` as a whole: the first occurrence of a byte string in the bytes held,
-- where the occurrence does not go round the end of the buffer or has at most two bytes.
use native.Mathlib.Decide.{ℕ_discrete, dec_lt}
use datacard.Base.{
  ℕ, ◌+◌, ◌-◌, ◌≤◌, ◌<◌, ◌≡◌, ◌⊎◌, Option, none, some, refl, ap, ◌∙◌, sym, arith, ltb, leb,
  if◌then◌else◌, Bool-cases, inl, inr, ltb→lt, ltb→le, length, drop, add_size, sub_size, ◌==◌, true,
  false, ◌&&◌,
}
use datacard.Bytes.{Bytes, byte_at, mem_equal}
use datacard.Bytes.Occurs.{
  IsFirst, IsFirst-iff, Occurs, byte_at-drop, mem_equal-agree, agree-mem_equal,
}
use datacard.RingBuffer.{
  RingBuffer, Iov, Straddle, found, stopped, ended, read_until_mem_iov, found_first, straddle_loop,
  search_straddle, search_second, search_wrapped,
}
use datacard.RingBuffer.Valid.{IsValid, contents}
use datacard.RingBuffer.Read.{length-contents}
use datacard.RingBuffer.Search.{Reports, Holds, byte_first, byte_second}
use datacard.RingBuffer.Find.{report_first, flat-Reports}
use datacard.RingBuffer.FindChar.{read_until_char_iov-Reports}
use datacard.RingBuffer.FindMem.{Reports-iff, IsFirst-occurs, second_occurs, second-Reports}
use datacard.RingBuffer.FindMem

module _ (rb : RingBuffer) (iov : Iov) (mem : Bytes) (v : IsValid rb)
    (wrapped : rb.size < rb.read + rb.used) where
  abbrev P : ℕ → Type 0
  P = Occurs mem 2 (contents rb)

  below : (q : ℕ) → P q → q < rb.used
  below q h = omega (arith, h.0, length-contents rb)

  -- The one position whose two bytes lie on both sides of the end.
  abbrev last : ℕ
  last = rb.size - rb.read - 1

  test_occurs :
      (base : ℕ)
      → base ≡ rb.size - 1
      → (mem_equal 1 (drop base rb.buffer) mem && mem_equal 1 rb.buffer (drop 1 mem)) ≡ true
      → P last
  test_occurs base e t = (
    omega (arith, length-contents rb),
    λ i p. elim (ℕ_discrete i 0) [
      | yes z ↦
          let f : last + i ≡ last = omega arith in
          rw (z) (
            ap (byte_at (contents rb)) {x = last + 0} {y = last} (omega arith)
            ∙ sym (byte_first rb last (omega arith) (omega arith))
            ∙ ap (byte_at rb.buffer) {y = base + 0} (omega arith)
            ∙ sym (byte_at-drop base rb.buffer 0)
            ∙ mem_equal-agree 1 (drop base rb.buffer) mem (ground arith) 0 (omega arith))
      | no z ↦
          let o : i ≡ 1 = omega arith in
          rw o (
            sym (byte_second rb (last + 1) 0 (omega arith) (omega arith) (omega arith))
            ∙ mem_equal-agree 1 rb.buffer (drop 1 mem) (ground arith) 0 (omega arith)
            ∙ byte_at-drop 1 mem 0)
    ],
  )

  occurs_test :
      (base : ℕ)
      → base ≡ rb.size - 1
      → P last
      → (mem_equal 1 (drop base rb.buffer) mem && mem_equal 1 rb.buffer (drop 1 mem)) ≡ true
  occurs_test base e h =
      let one = agree-mem_equal 1 (drop base rb.buffer) mem (λ i p.
        let z : i ≡ 0 = omega arith in
        rw z (
          byte_at-drop base rb.buffer 0
          ∙ ap (byte_at rb.buffer) {y = rb.read + last} (omega arith)
          ∙ byte_first rb last (omega arith) (omega arith)
          ∙ ap (byte_at (contents rb)) {y = last + 0} (omega arith)
          ∙ h.1 0 (omega arith))) in
      let two = agree-mem_equal 1 rb.buffer (drop 1 mem) (λ i p.
        let z : i ≡ 0 = omega arith in
        rw z (
          byte_second rb (last + 1) 0 (omega arith) (omega arith) (omega arith)
          ∙ h.1 1 (omega arith)
          ∙ sym (byte_at-drop 1 mem 0))) in
      ground (arith, one, two)

  search_second-Reports :
      (n b : ℕ)
      → n ≡ rb.size - rb.read
      → ((q : ℕ) → q < n → ¬ P q)
      → Reports rb P (search_second rb (record iov { base0 = rb.read; len0 = n; base1 = b }) mem 2)
  search_second-Reports n b e before = elim (Bool-cases (leb (add_size n 2) rb.used)) [
    | inl f ↦ rw f (
        second-Reports rb iov mem 2 v (omega arith) n b _ e before (
          second_occurs rb iov mem 2 v (omega arith) (sub_size rb.used n) (omega arith)
            (omega arith)))
    | inr f ↦
        rw f (λ q h. elim (dec_lt q n) [ yes o ↦ before q o h | no o ↦ absurd (short q f o h.0) ])
  ]
    where
      short :
          (q : ℕ)
          → leb (add_size n 2) rb.used ≡ false
          → ¬ (q < n)
          → q + 2 ≤ length (contents rb)
          → ⊥
      short q f o h = ground (arith, length-contents rb)

  one_round :
      (n base : ℕ)
      → straddle_loop 1 rb n mem 2 base 1 ≡ (
          if mem_equal 1 (drop base rb.buffer) mem && mem_equal 1 rb.buffer (drop 1 mem)
          then found base
          else if rb.used == add_size n 1
          then stopped base
          else ended (add_size base 1))
  unfolding straddle_loop
  one_round n base = refl

  abbrev Outcome : ℕ → ℕ → Straddle → Type 0
  Outcome n base s = straddle_loop 1 rb n mem 2 base 1 ≡ s

  search_straddle-Reports :
      (n base : ℕ)
      → n ≡ rb.size - rb.read
      → base ≡ rb.size - 1
      → ((q : ℕ) → q + 2 ≤ n → ¬ P q)
      → Reports rb P (search_straddle rb (record iov { base0 = rb.read; len0 = n }) mem 2 base 1)
  unfolding search_straddle
  search_straddle-Reports n base e f before =
      let to_last : sub_size base rb.read ≡ last = omega arith in
      elim (Bool-cases
        (mem_equal 1 (drop base rb.buffer) mem && mem_equal 1 rb.buffer (drop 1 mem))) [
          | inl t ↦
              let s : Outcome n base (found base) = rw (one_round n base, t) refl in
              rw (s, search_straddle, to_last)
                (report_first rb P v below (record iov { base0 = rb.read; len0 = n; base1 = base })
                  last refl (test_occurs base f t) (λ q l. before q (omega arith)) (omega arith))
          | inr t ↦
              let no_last : (q : ℕ) → q < n → ¬ P q = λ q l h. elim (ℕ_discrete q last) [
                | yes z ↦ cc (t, occurs_test base f (rw z at h))
                | no z ↦ before q (omega arith) h
              ] in
              elim (Bool-cases (rb.used == add_size n 1)) [
                | inl u ↦
                    let s : Outcome n base (stopped base) = rw (one_round n base, t, u) refl in
                    rw (s, search_straddle)
                      (λ q h. no_last q (ground (arith, h.0, length-contents rb)) h)
                | inr u ↦
                    let s : Outcome n base (ended (add_size base 1)) =
                      rw (one_round n base, t, u) refl in
                    rw (s, search_straddle) (search_second-Reports n (add_size base 1) e no_last)
              ]
        ]

  search_wrapped-Reports : 2 ≤ rb.used → Reports rb P (search_wrapped rb iov mem 2)
  unfolding search_wrapped
  search_wrapped-Reports two =
      let n = sub_size rb.size rb.read in
      let width : n ≡ rb.size - rb.read = omega arith in
      elim (Bool-cases (leb 2 n)) [
        | inr e ↦ rw e (one_left n width (ground arith))
        | inl e ↦ rw e (
            in_first n (add_size (sub_size (add_size rb.read n) 2) 1) width (ground arith) _
              (IsFirst-occurs rb iov mem 2 v (omega arith) n (omega arith) (omega arith)))
      ]
    where
      one_left :
          (n : ℕ)
          → n ≡ rb.size - rb.read
          → n < 2
          → Reports rb P (
              search_straddle rb
                (record iov { base0 = rb.read; len0 = n })
                mem
                2
                rb.read
                (sub_size 2 n))
      one_left n width l =
          let o : sub_size 2 n ≡ 1 = omega arith in
          rw o (search_straddle-Reports n rb.read width (omega arith) (λ q h. absurd (omega arith)))

      in_first :
          (n base : ℕ)
          → n ≡ rb.size - rb.read
          → base ≡ rb.size - 1
          → (r : Option ℕ) → IsFirst (λ q. (q + 2 ≤ n) × P q) r
          → let first = record iov { base0 = rb.read; len0 = n } in
            Reports rb P (elim r [
              | some p ↦ found_first first p
              | none ↦ search_straddle rb first mem 2 base 1
            ])
      in_first n base width f none h = search_straddle-Reports n base width f (λ q l a. h q (l, a))
      in_first n base width f (some p) h =
          report_first rb P v below (record iov { base0 = rb.read; len0 = n }) p refl h.0.1
            (λ q l a. h.1 q l (omega (arith, h.0.0), a)) (omega (arith, h.0.0))

-- `rb_read_until_mem_iov` reports the vectors up to the first occurrence of the `len > 0` bytes of
-- `mem` in the bytes held, and returns 0 exactly when they do not occur: for a buffer whose bytes do
-- not go round its end, and, at any place of the bytes, for `len` at most 2.
pub read_until_mem_iov-Reports :
    (rb : RingBuffer) (iov : Iov) (mem : Bytes) (len : ℕ)
    → IsValid rb
    → 0 < len
    → (rb.read + rb.used ≤ rb.size) ⊎ (len ≤ 2)
    → Reports rb (Occurs mem len (contents rb)) (read_until_mem_iov rb iov mem len)
unfolding read_until_mem_iov
read_until_mem_iov-Reports rb iov mem len v p h = elim (ℕ_discrete len 1) [
  | yes o ↦
      let e : (len == 1) ≡ true = ground arith in
      rw e (
        Reports-iff rb (Holds rb (byte_at mem 0)) (Occurs mem len (contents rb)) _
          (λ q. (
            λ a. (
              omega (arith, a.0, length-contents rb),
              λ i l.
                  let z : i ≡ 0 = omega arith in
                  rw z (ap (byte_at (contents rb)) {x = q + 0} {y = q} (omega arith) ∙ a.1),
            ),
            λ a. (
              omega (arith, a.0, length-contents rb),
              ap (byte_at (contents rb)) {x = q} {y = q + 0} (omega arith) ∙ a.1 0 p,
            ),
          ))
          (read_until_char_iov-Reports rb iov (byte_at mem 0) v))
  | no o ↦
      let e : (len == 1) ≡ false = ground arith in
      elim (Bool-cases (ltb 0 rb.used && ltb 0 len && leb len rb.used)) [
        | inr f ↦ rw (e, f) (λ q a. absurd (too_short f q (omega (arith, a.0, length-contents rb))))
        | inl f ↦
            let end : add_size rb.read rb.used ≡ rb.read + rb.used = omega arith in
            elim (Bool-cases (ltb rb.size (rb.read + rb.used))) [
              | inr g ↦
                  let flat : rb.read + rb.used ≤ rb.size = ltb→le _ _ g in
                  rw (e, f, end, g)
                    (flat-Reports rb (Occurs mem len (contents rb)) v
                      (FindMem.below rb iov mem len v p)
                      (record iov { base0 = rb.read; len0 = rb.used }) _ refl flat
                      (IsFirst-iff _ _ _
                        (λ q. (λ a. a.1, λ a. (omega (arith, a.0, length-contents rb), a)))
                        (IsFirst-occurs rb iov mem len v p rb.used (omega arith) flat)))
              | inl g ↦
                  let l : rb.size < rb.read + rb.used = ltb→lt _ _ g in
                  let pair : len ≡ 2 = omega arith in
                  let held : 2 ≤ rb.used = ground arith in
                  rw (e, f, end, g) (rw pair (search_wrapped-Reports rb iov mem v l held))
            ]
      ]
]
  where
    too_short :
        (ltb 0 rb.used && ltb 0 len && leb len rb.used) ≡ false → (q : ℕ) → q + len ≤ rb.used → ⊥
    too_short f q l = ground arith
