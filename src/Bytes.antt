-- ===== src/Bytes.antt =====
-- Byte strings, the C library's `memcmp`, `memchr` and block writes on them, and memmem.c.
pub mod Occurs
pub mod Pieces
use datacard.Base.{
  ℕ, zero, suc, ◌+◌, ◌-◌, Bool, true, false, ◌&&◌, ◌||◌, List, [], ◌∷◌, ◌++◌, Option, none, some,
  ltb, ◌==◌, if◌then◌else◌, length, get_or, take, drop,
}

abbrev pub Bytes : Type 0
Bytes = List ℕ

-- The byte at an index; a read past the end gives 0.
abbrev pub byte_at : Bytes → ℕ → ℕ
byte_at b i = get_or b i 0

-- `memcmp (a, b, n) == 0`
unfoldable pub mem_equal : ℕ → Bytes → Bytes → Bool
mem_equal zero a b = true
mem_equal (suc n) a b = byte_at a 0 == byte_at b 0 && mem_equal n (drop 1 a) (drop 1 b)

-- `memchr (b, c, length b)`, as an offset
unfoldable pub memchr : Bytes → ℕ → Option ℕ
memchr [] c = none
memchr (x ∷ xs) c =
    if x == c then some 0 else elim (memchr xs c) [ none ↦ none | some i ↦ some (suc i) ]

-- The `n` bytes from `offset` on.
abbrev pub slice : Bytes → ℕ → ℕ → Bytes
slice b offset n = take n (drop offset b)

-- `method (b + offset, src, n)`: the method's result replaces the `n` bytes at `offset`.
abbrev pub blit : (Bytes → Bytes → Bytes) → Bytes → ℕ → Bytes → ℕ → Bytes
blit method b offset src n =
    take offset b ++ (method (slice b offset n) (take n src) ++ drop (offset + n) b)

-- The loop of memmem.c over `cur`, with the rounds up to `last`.
memmem_loop : ℕ → Bytes → Bytes → ℕ → ℕ → Option ℕ
memmem_loop zero l s s_len cur = none
memmem_loop (suc rounds) l s s_len cur =
    let rest = memmem_loop rounds (drop 1 l) s s_len (suc cur) in
    if byte_at l 0 == byte_at s 0 && mem_equal s_len l s then some cur else rest

-- `memmem`, as the offset of the first occurrence
unfoldable pub memmem : Bytes → Bytes → ℕ → Option ℕ
unfolding memmem_loop
memmem l s s_len =
    if length l == 0 || s_len == 0
    then none
    else if ltb (length l) s_len
    then none
    else if s_len == 1
    then memchr l (byte_at s 0)
    else memmem_loop (length l - s_len + 1) l s s_len 0
