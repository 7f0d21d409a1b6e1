-- ===== src/MixBuffer/Streams.antt =====
-- How often a stream is attached to the mix buffer.
use datacard.Base.{ℕ, ◌+◌, ◌-◌, ◌≡◌, refl, Bool, true, false, List, [], ◌∷◌, ◌++◌, arith, ◌==◌}
use datacard.Bytes.{Bytes}
use datacard.MixBuffer.{MixBuffer, init, attach, detach, remove}

abbrev pub one_if : Bool → ℕ
one_if true = 1
one_if false = 0

abbrev pub occurrences : ℕ → List ℕ → ℕ
occurrences p [] = 0
occurrences p (q ∷ qs) = one_if (q == p) + occurrences p qs

occurrences-append :
    (p q : ℕ) (qs : List ℕ) → occurrences p (qs ++ (q ∷ [])) ≡ occurrences p qs + one_if (q == p)
occurrences-append p q [] = omega arith
occurrences-append p q (r ∷ qs) = omega (arith, occurrences-append p q qs)

occurrences-remove :
    (p q : ℕ) (qs : List ℕ) → occurrences p (remove q qs) ≡ occurrences p qs - one_if (q == p)
unfolding remove
occurrences-remove p q [] = omega arith
occurrences-remove p q (r ∷ qs) = ground (arith, occurrences-remove p q qs)

pub occurrences-attach :
    (p q : ℕ) (mb : MixBuffer)
    → occurrences p (attach mb q).streams ≡ occurrences p mb.streams + one_if (q == p)
unfolding attach
occurrences-attach p q mb = occurrences-append p q mb.streams

pub occurrences-detach :
    (p q : ℕ) (mb : MixBuffer)
    → occurrences p (detach mb q).streams ≡ occurrences p mb.streams - one_if (q == p)
unfolding detach
occurrences-detach p q mb = occurrences-remove p q mb.streams

pub occurrences-init :
    (p : ℕ) (mb : MixBuffer) (buf : Bytes) (len : ℕ) → occurrences p (init mb buf len).streams ≡ 0
unfolding init
occurrences-init p mb buf len = refl
