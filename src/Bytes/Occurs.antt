-- ===== src/Bytes/Occurs.antt =====
-- Occurrences of a byte string in another: what `memcmp`, `memchr` and memmem.c compute.
use native.Mathlib.Decide.{ℕ_discrete}
use datacard.Base.{
  ℕ, zero, suc, ◌+◌, ◌-◌, ◌≤◌, ◌<◌, true, false, ◌&&◌, ◌||◌, ◌≡◌, ◌≢◌, ◌↔◌, inl, inr, refl, ap, ◌∙◌,
  sym, [], ◌∷◌, Option, none, some, arith, ltb, ◌==◌, Bool-cases, length, drop, get_or-drop, ==_iff,
  ltb→le,
}
use datacard.Bytes.{Bytes, byte_at, mem_equal, memchr, memmem_loop, memmem}

-- `r` is the least number with property `P`, or `none` and there is no such number.
abbrev pub IsFirst : (ℕ → Type 0) → Option ℕ → Type 0
IsFirst P none = (q : ℕ) → ¬ P q
IsFirst P (some p) = P p × ((q : ℕ) → q < p → ¬ P q)

pub IsFirst-iff :
    (P Q : ℕ → Type 0) (r : Option ℕ) → ((q : ℕ) → P q ↔ Q q) → IsFirst P r → IsFirst Q r
IsFirst-iff P Q none e h = λ q b. h q ((e q).1 b)
IsFirst-iff P Q (some p) e h = ((e p).0 h.0, λ q l b. h.1 q l ((e q).1 b))

-- The first `n` bytes of `m` stand in `c` at offset `q`.
abbrev pub Occurs : Bytes → ℕ → Bytes → ℕ → Type 0
Occurs m n c q = (q + n ≤ length c) × ((i : ℕ) → i < n → byte_at c (q + i) ≡ byte_at m i)

pub byte_at-drop : (n : ℕ) (b : Bytes) (i : ℕ) → byte_at (drop n b) i ≡ byte_at b (n + i)
byte_at-drop n b i = get_or-drop n b i (n + i) 0 refl

byte_at-tail : (b : Bytes) (i : ℕ) → byte_at (drop 1 b) i ≡ byte_at b (suc i)
byte_at-tail b i = get_or-drop 1 b i (suc i) 0 (omega arith)

pub mem_equal-agree :
    (n : ℕ) (a b : Bytes) → mem_equal n a b ≡ true → (i : ℕ) → i < n → byte_at a i ≡ byte_at b i
unfolding mem_equal
mem_equal-agree zero a b h i l = absurd (omega arith)
mem_equal-agree (suc n) a b h zero l = ground arith
mem_equal-agree (suc n) a b h (suc i) l =
    let rest : mem_equal n (drop 1 a) (drop 1 b) ≡ true = ground arith in
    sym (byte_at-tail a i)
    ∙ mem_equal-agree n (drop 1 a) (drop 1 b) rest i (omega arith)
    ∙ byte_at-tail b i

pub agree-mem_equal :
    (n : ℕ) (a b : Bytes) → ((i : ℕ) → i < n → byte_at a i ≡ byte_at b i) → mem_equal n a b ≡ true
unfolding mem_equal
agree-mem_equal zero a b h = refl
agree-mem_equal (suc n) a b h =
    let rest =
      agree-mem_equal n (drop 1 a) (drop 1 b)
        (λ i l. byte_at-tail a i ∙ h (suc i) (omega arith) ∙ sym (byte_at-tail b i)) in
    ground (arith, rest, h 0 (omega arith))

memchr_later :
    (x c : ℕ) (xs : Bytes) (r : Option ℕ)
    → x ≢ c
    → IsFirst (λ q. (q < length xs) × (byte_at xs q ≡ c)) r
    → IsFirst
        (λ q. (q < suc (length xs)) × (byte_at (x ∷ xs) q ≡ c))
        (elim r [ none ↦ none | some i ↦ some (suc i) ])
memchr_later x c xs none d h = elim [
  | zero ↦ λ p. d p.1
  | suc q ↦ λ p. h q (omega (arith, p.0), p.1)
]
memchr_later x c xs (some i) d h = (
  (omega (arith, h.0.0), h.0.1),
  elim [ zero ↦ λ l p. d p.1 | suc q ↦ λ l p. h.1 q (omega arith) (omega (arith, p.0), p.1) ],
)

-- `memchr` gives the first offset of the byte.
pub memchr-IsFirst :
    (b : Bytes) (c : ℕ) → IsFirst (λ q. (q < length b) × (byte_at b q ≡ c)) (memchr b c)
unfolding memchr
memchr-IsFirst [] c = λ q h. absurd (omega (arith, h.0))
memchr-IsFirst (x ∷ xs) c = elim (Bool-cases (x == c)) [
  | inl e ↦ rw e ((omega arith, (==_iff x c).0 e), λ q l h. absurd (omega arith))
  | inr e ↦ rw e (memchr_later x c xs (memchr xs c) (ground arith) (memchr-IsFirst xs c))
]

-- The offsets that the loop visits from `cur` on, at which `s` stands in `whole`.
abbrev Visited : ℕ → Bytes → Bytes → ℕ → ℕ → ℕ → Type 0
Visited rounds whole s n cur q =
    (cur ≤ q) × (q < cur + rounds) × ((i : ℕ) → i < n → byte_at whole (q + i) ≡ byte_at s i)

test-visited :
    (l s : Bytes) (n : ℕ)
    → 0 < n
    → ((i : ℕ) → i < n → byte_at l i ≡ byte_at s i)
    → (byte_at l 0 == byte_at s 0 && mem_equal n l s) ≡ true
test-visited l s n pos h = ground (arith, h 0 pos, agree-mem_equal n l s h)

-- `l` is the rest of `whole` at `cur`.
memmem_loop-IsFirst :
    (rounds : ℕ) (whole l s : Bytes) (n cur : ℕ)
    → 0 < n
    → ((i : ℕ) → byte_at l i ≡ byte_at whole (cur + i))
    → IsFirst (Visited rounds whole s n cur) (memmem_loop rounds l s n cur)
unfolding memmem_loop
memmem_loop-IsFirst zero whole l s n cur pos at = λ q h. absurd (omega (arith, h.0, h.1))
memmem_loop-IsFirst (suc rounds) whole l s n cur pos at =
    elim (Bool-cases (byte_at l 0 == byte_at s 0 && mem_equal n l s)) [
      | inl e ↦ rw e (
        (omega arith, omega arith, λ i p. sym (at i) ∙ mem_equal-agree n l s (ground arith) i p),
        λ q p h. absurd (omega (arith, h.0)),
      )
      | inr e ↦ rw e (
          IsFirst-iff (Visited rounds whole s n (suc cur)) (Visited (suc rounds) whole s n cur) _
            (λ q. (
              λ h. (omega (arith, h.0), omega (arith, h.1), h.2),
              λ h. (
                elim (ℕ_discrete q cur) [
                  | yes p ↦ absurd (clash e (λ i k. at i ∙ rw (← p) (h.2 i k)))
                  | no p ↦ omega (arith, h.0)
                ],
                omega (arith, h.1),
                h.2,
              ),
            ))
            (memmem_loop-IsFirst rounds whole (drop 1 l) s n (suc cur) pos
              (λ i. byte_at-tail l i ∙ at (suc i) ∙ ap (byte_at whole) (omega arith))))
    ]
  where
    clash :
        (byte_at l 0 == byte_at s 0 && mem_equal n l s) ≡ false
        → ((i : ℕ) → i < n → byte_at l i ≡ byte_at s i)
        → ⊥
    clash e h = cc (e, test-visited l s n pos h)

pub memmem_nonempty-IsFirst : (l s : Bytes) (n : ℕ) → 0 < n → IsFirst (Occurs s n l) (memmem l s n)
unfolding memmem
memmem_nonempty-IsFirst l s n pos = elim (Bool-cases (length l == 0 || n == 0)) [
  | inl e ↦ rw e (λ q h. absurd (none_in_empty e q h.0))
  | inr e ↦ elim (Bool-cases (ltb (length l) n)) [
    | inl f ↦ rw (e, f) (λ q h. absurd (none_in_short f q h.0))
    | inr f ↦ elim (Bool-cases (n == 1)) [
      | inl g ↦ rw (e, f, g) (single ((==_iff n 1).0 g))
      | inr g ↦
          rw (e, f, g)
            (IsFirst-iff (Visited (length l - n + 1) l s n 0) (Occurs s n l) _
              (λ q. (
                λ h. (fits_of_visited f q h.1, h.2),
                λ h. (omega arith, visited_of_fits q h.0, h.1),
              ))
              (memmem_loop-IsFirst (length l - n + 1) l l s n 0 pos
                (λ i. ap (byte_at l) (omega arith))))
    ]
  ]
]
  where
    none_in_empty : (length l == 0 || n == 0) ≡ true → (q : ℕ) → q + n ≤ length l → ⊥
    none_in_empty e q h = ground arith

    none_in_short : ltb (length l) n ≡ true → (q : ℕ) → q + n ≤ length l → ⊥
    none_in_short f q h = ground arith

    fits_of_visited :
        ltb (length l) n ≡ false → (q : ℕ) → q < 0 + (length l - n + 1) → q + n ≤ length l
    fits_of_visited f q h = omega (arith, ltb→le (length l) n f)

    visited_of_fits : (q : ℕ) → q + n ≤ length l → q < 0 + (length l - n + 1)
    visited_of_fits q h = omega arith

    single : n ≡ 1 → IsFirst (Occurs s n l) (memchr l (byte_at s 0))
    single e =
        IsFirst-iff (λ q. (q < length l) × (byte_at l q ≡ byte_at s 0)) (Occurs s n l) _
          (λ q. (
            λ h. (
              omega (arith, h.0),
              λ i k. let z : i ≡ 0 = omega arith in rw z (ap (byte_at l) (omega arith) ∙ h.1),
            ),
            λ h. (omega (arith, h.0), ap (byte_at l) (omega arith) ∙ h.1 0 pos),
          ))
          (memchr-IsFirst l (byte_at s 0))

-- `memmem` gives the first offset at which the bytes of `s` occur in `l`, where `s` has some, and
-- nothing where they occur nowhere or `s` is empty.
pub memmem-IsFirst : (l s : Bytes) (n : ℕ) → IsFirst (λ q. (0 < n) × Occurs s n l q) (memmem l s n)
unfolding memmem
memmem-IsFirst l s zero = elim (Bool-cases (length l == 0 || true)) [
  | inl e ↦ rw e (λ q h. absurd (omega (arith, h.0)))
  | inr e ↦ absurd (ground arith)
]
memmem-IsFirst l s (suc n) =
    IsFirst-iff (Occurs s (suc n) l) (λ q. (0 < suc n) × Occurs s (suc n) l q) (memmem l s (suc n))
      (λ q. (λ h. (omega arith, h), λ h. h.1)) (memmem_nonempty-IsFirst l s (suc n) (omega arith))
