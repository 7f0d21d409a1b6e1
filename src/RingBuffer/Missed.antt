-- ===== src/RingBuffer/Missed.antt =====
-- `rb_read_until_mem_iov` and the seven bytes that end a +CMGR response, where they go round the
-- end of the buffer: the second comparison of the loop starts at `mem + i`.
use datacard.Base.{
  ℕ, zero, suc, ◌+◌, ◌-◌, ◌≤◌, ◌<◌, ◌≡◌, ◌≢◌, Option, none, some, refl, ap, ◌∙◌, sym, [], ◌∷◌,
  arith, ltb, leb, if◌then◌else◌, Bool-cases, inl, inr, drop, add_size, sub_size, ◌==◌, true, false,
  ◌&&◌,
}
use datacard.Bytes.{Bytes, byte_at, slice, mem_equal, memmem}
use datacard.Bytes.Occurs.{IsFirst, Occurs, byte_at-drop, mem_equal-agree}
use datacard.RingBuffer.{
  RingBuffer, Iov, Straddle, found, stopped, ended, read_until_mem_iov, found_first, straddle_loop,
  search_straddle, search_second, search_wrapped,
}
use datacard.RingBuffer.Valid.{IsValid, contents}
use datacard.RingBuffer.Read.{length-contents}
use datacard.RingBuffer.Search.{byte_second}
use datacard.RingBuffer.FindMem.{IsFirst-occurs}

-- "\n\r\nOK\r\n"
abbrev pub cmgr_end : Bytes
cmgr_end = 10 ∷ 13 ∷ 10 ∷ b'O' ∷ b'K' ∷ 13 ∷ 10 ∷ []

-- The result is not position `q`.
abbrev Misses : ℕ → ℕ × Iov → Type 0
Misses q (count, iov) = 0 < count → iov.len0 + iov.len1 ≢ q

cmgr_end_differs : (j : ℕ) → 0 < j → j < 7 → byte_at cmgr_end (7 - j) ≢ byte_at cmgr_end j
cmgr_end_differs zero p h = absurd (omega arith)
cmgr_end_differs (suc zero) p h = omega arith
cmgr_end_differs (suc (suc zero)) p h = omega arith
cmgr_end_differs (suc (suc (suc zero))) p h = omega arith
cmgr_end_differs (suc (suc (suc (suc zero)))) p h = omega arith
cmgr_end_differs (suc (suc (suc (suc (suc zero))))) p h = omega arith
cmgr_end_differs (suc (suc (suc (suc (suc (suc zero)))))) p h = omega arith
cmgr_end_differs (suc (suc (suc (suc (suc (suc (suc j))))))) p h = absurd (omega arith)

module _ (rb : RingBuffer) (iov : Iov) (v : IsValid rb) (q : ℕ)
    (there : Occurs cmgr_end 7 (contents rb) q) (before : q < rb.size - rb.read)
    (past : rb.size - rb.read < q + 7) where
  -- The loop's test fails where the bytes are.
  not_found :
      (j : ℕ) → q + 7 ≡ rb.size - rb.read + j → mem_equal j rb.buffer (drop j cmgr_end) ≢ true
  not_found j e t =
      let k : 7 - j + q ≡ rb.size - rb.read = omega arith in
      cmgr_end_differs j (omega arith) (omega arith) (
        sym (there.1 (7 - j) (omega arith))
        ∙ ap (byte_at (contents rb)) {y = rb.size - rb.read} (omega arith)
        ∙ sym (
            byte_second rb (rb.size - rb.read) 0 (omega (arith, there.0, length-contents rb))
              (omega arith) (omega arith))
        ∙ mem_equal-agree j rb.buffer (drop j cmgr_end) t 0 (omega arith)
        ∙ byte_at-drop j cmgr_end 0
        ∙ ap (byte_at cmgr_end) {x = j + 0} {y = j} (omega arith))

  -- The position of `base` is `q`, or the loop has not come to it, or has passed it.
  loop_misses :
      (rounds base i b : ℕ)
      → rb.read ≤ base
      → base + 7 ≡ rb.size + i
      → i + rounds ≤ 7
      → straddle_loop rounds rb (rb.size - rb.read) cmgr_end 7 base i ≡ found b
      → (rb.read ≤ b) × (b ≤ rb.size) × (b - rb.read ≢ q)
  unfolding straddle_loop
  loop_misses zero base i b r e l h = cc
  loop_misses (suc rounds) base i b r e l h =
      let test =
        mem_equal (sub_size 7 i) (drop base rb.buffer) cmgr_end
        && mem_equal i rb.buffer (drop i cmgr_end) in
      elim (Bool-cases test) [
        | inl t ↦
            let s : b ≡ base = ground arith in
            (omega arith, omega arith, λ z. not_found i (omega arith) (ground arith))
        | inr t ↦ elim (Bool-cases (rb.used == add_size (rb.size - rb.read) i)) [
          | inl u ↦ ground arith
          | inr u ↦
              loop_misses rounds (add_size base 1) (add_size i 1) b (omega (arith, v.small))
                (omega (arith, v.small)) (omega (arith, v.small)) (ground arith)
        ]
      ]

  second-Misses :
      (n b : ℕ) (r : Option ℕ)
      → n ≡ rb.size - rb.read
      → let first = record iov { base0 = rb.read; len0 = n; base1 = b } in
        Misses q (elim r [
          | some p ↦
              if p == 0
              then (1, record first { len1 = 0 })
              else (2, record first { base1 = 0; len1 = p })
          | none ↦ (0, first)
        ])
  second-Misses n b none e = λ c. absurd (omega arith)
  second-Misses n b (some zero) e = λ c. omega arith
  second-Misses n b (some (suc p)) e =
      let f : (suc p == 0) ≡ false = ground arith in rw f (λ c. omega arith)

  search_second-Misses :
      (n b : ℕ)
      → n ≡ rb.size - rb.read
      → Misses q (search_second rb (record iov { base0 = rb.read; len0 = n; base1 = b }) cmgr_end 7)
  search_second-Misses n b e = elim (Bool-cases (leb (add_size n 7) rb.used)) [
    | inl f ↦
        rw f (second-Misses n b (memmem (slice rb.buffer 0 (sub_size rb.used n)) cmgr_end 7) e)
    | inr f ↦ rw f (λ c. absurd (omega arith))
  ]

  straddle-Misses :
      (n base i : ℕ)
      → n ≡ rb.size - rb.read
      → rb.read ≤ base
      → base + 7 ≡ rb.size + i
      → i ≤ 7
      → Misses q (search_straddle rb (record iov { base0 = rb.read; len0 = n }) cmgr_end 7 base i)
  unfolding search_straddle
  straddle-Misses n base i e r f l = by_outcome (straddle_loop (7 - i) rb n cmgr_end 7 base i) refl
    where
      by_outcome :
          (s : Straddle)
          → straddle_loop (7 - i) rb n cmgr_end 7 base i ≡ s
          → Misses q
              (search_straddle rb (record iov { base0 = rb.read; len0 = n }) cmgr_end 7 base i)
      by_outcome (found b) h =
          let (r', u, d) = loop_misses (7 - i) base i b r f (omega arith) (rw e at h) in
          rw (h, search_straddle) (λ c z. d (omega (arith, v.small)))
      by_outcome (stopped b) h = rw (h, search_straddle) (λ c. absurd (omega arith))
      by_outcome (ended b) h = rw (h, search_straddle) (search_second-Misses n b e)

  search_wrapped-Misses : Misses q (search_wrapped rb iov cmgr_end 7)
  unfolding search_wrapped
  search_wrapped-Misses =
      let n = sub_size rb.size rb.read in
      let width : n ≡ rb.size - rb.read = omega arith in
      elim (Bool-cases (leb 7 n)) [
        | inr e ↦ rw e (
            straddle-Misses n rb.read (sub_size 7 n) width (omega arith) (ground arith)
              (ground arith))
        | inl e ↦ rw e (
            in_first n (add_size (sub_size (add_size rb.read n) 7) 1) width (ground arith)
              (ground arith) _
              (IsFirst-occurs rb iov cmgr_end 7 v (omega arith) n
                (omega (arith, there.0, length-contents rb)) (omega arith)))
      ]
    where
      in_first :
          (n base : ℕ)
          → n ≡ rb.size - rb.read
          → rb.read ≤ base
          → base + 7 ≡ rb.size + 1
          → (r : Option ℕ) → IsFirst (λ p. (p + 7 ≤ n) × Occurs cmgr_end 7 (contents rb) p) r
          → let first = record iov { base0 = rb.read; len0 = n } in
            Misses q (elim r [
              | some p ↦ found_first first p
              | none ↦ search_straddle rb first cmgr_end 7 base 1
            ])
      in_first n base width r f none h = straddle-Misses n base 1 width r f (omega arith)
      in_first n base width r f (some p) h = λ c. omega (arith, h.0.0)

  read_until_mem_iov-Misses : Misses q (read_until_mem_iov rb iov cmgr_end 7)
  unfolding read_until_mem_iov
  read_until_mem_iov-Misses =
      let held : (ltb 0 rb.used && ltb 0 7 && leb 7 rb.used) ≡ true =
        ground (arith, there.0, length-contents rb) in
      let end : ltb rb.size (add_size rb.read rb.used) ≡ true =
        ground (arith, there.0, length-contents rb) in
      rw (held, end) search_wrapped-Misses

  -- Where the seven bytes "\n\r\nOK\r\n" that end a +CMGR response are held with the end of the
  -- buffer among them, `rb_read_until_mem_iov` does not report their position.
  pub read_until_mem_iov_misses :
      let (count, w) = read_until_mem_iov rb iov cmgr_end 7 in
      ¬ ((0 < count) × (w.len0 + w.len1 ≡ q))
  read_until_mem_iov_misses (some_iov, at) = read_until_mem_iov-Misses some_iov at
