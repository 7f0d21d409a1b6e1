-- ===== src/Calls/Total.antt =====
-- Sums over the calls of a device: the counters, and how adding, changing and removing a call moves
-- them.
use datacard.Base.{
  ℕ, ◌+◌, ◌≡◌, refl, ap, sym, ◌∙◌, inl, inr, ◌⊎◌, List, [], ◌∷◌, ◌++◌, some, arith, ◌==◌, ==_iff,
  Bool-cases, none≢some, true≢false, All, In, subst, length,
}
use datacard.Calls.{Cpvt, find_call, update_call, remove_call}

abbrev pub total : (Cpvt → ℕ) → List Cpvt → ℕ
total m [] = 0
total m (c ∷ cs) = m c + total m cs

abbrev pub addresses : List Cpvt → List ℕ
addresses [] = []
addresses (c ∷ cs) = c.address ∷ addresses cs

abbrev pub Distinct : List ℕ → Type 0
Distinct [] = Unit
Distinct (p ∷ ps) = ¬ In p ps × Distinct ps

pub some_injective : {A : Type 0} {a b : A} → some a ≡ some b → a ≡ b
some_injective e = cc

pub total-append :
    (m : Cpvt → ℕ) (cs : List Cpvt) (d : Cpvt) → total m (cs ++ (d ∷ [])) ≡ total m cs + m d
total-append m [] d = omega arith
total-append m (c ∷ cs) d = omega (arith, total-append m cs d)

pub total-update_call :
    (m : Cpvt → ℕ) (p : ℕ) (f : Cpvt → Cpvt) (c : Cpvt) (cs : List Cpvt)
    → find_call p cs ≡ some c
    → total m (update_call p f cs) + m c ≡ total m cs + m (f c)
total-update_call m p f c [] h = absurd (none≢some h)
total-update_call m p f c (d ∷ cs) h = ground (arith, total-update_call m p f c cs)

pub total-remove_call :
    (m : Cpvt → ℕ) (p : ℕ) (c : Cpvt) (cs : List Cpvt)
    → find_call p cs ≡ some c
    → total m (remove_call p cs) + m c ≡ total m cs
total-remove_call m p c [] h = absurd (none≢some h)
total-remove_call m p c (d ∷ cs) h = ground (arith, total-remove_call m p c cs)

pub find_call-address :
    (p : ℕ) (c : Cpvt) (cs : List Cpvt) → find_call p cs ≡ some c → c.address ≡ p
find_call-address p c [] h = absurd (none≢some h)
find_call-address p c (d ∷ cs) h = ground (arith, find_call-address p c cs)

pub find_call-All {ℓ} :
    (P : Cpvt → Type ℓ) (p : ℕ) (c : Cpvt) (cs : List Cpvt)
    → All P cs
    → find_call p cs ≡ some c
    → P c
find_call-All P p c [] a h = absurd (none≢some h)
find_call-All P p c (d ∷ cs) a h = elim (Bool-cases (d.address == p)) [
  | inl e ↦ subst P (some_injective (rw e at h)) a.0
  | inr e ↦ find_call-All P p c cs a.1 (rw e at h)
]

pub find_call-In :
    (p : ℕ) (cs : List Cpvt) → In p (addresses cs) → (c : Cpvt) × (find_call p cs ≡ some c)
find_call-In p [] m = absurd m.1
find_call-In p (d ∷ cs) (inl e) = (d, rw ((==_iff d.address p).1 e) refl)
find_call-In p (d ∷ cs) (inr m) =
    let (c, e) = find_call-In p cs m in
    elim (Bool-cases (d.address == p)) [ inl e' ↦ (d, rw e' refl) | inr e' ↦ (c, rw e' e) ]

pub In-find_call :
    (p : ℕ) (c : Cpvt) (cs : List Cpvt) → find_call p cs ≡ some c → In p (addresses cs)
In-find_call p c [] h = absurd (none≢some h)
In-find_call p c (d ∷ cs) h = elim (Bool-cases (d.address == p)) [
  | inl e ↦ inl ((==_iff d.address p).0 e)
  | inr e ↦ inr (In-find_call p c cs (rw e at h))
]

pub addresses-update_call :
    (p : ℕ) (f : Cpvt → Cpvt) (cs : List Cpvt)
    → ((d : Cpvt) → (f d).address ≡ d.address)
    → addresses (update_call p f cs) ≡ addresses cs
addresses-update_call p f [] k = refl
addresses-update_call p f (d ∷ cs) k = elim (Bool-cases (d.address == p)) [
  | inl e ↦ rw e (ap (λ a. a ∷ addresses cs) (k d))
  | inr e ↦ rw e (ap (λ qs. d.address ∷ qs) (addresses-update_call p f cs k))
]

pub update_call-All {ℓ} :
    (P : Cpvt → Type ℓ) (p : ℕ) (f : Cpvt → Cpvt) (c : Cpvt) (cs : List Cpvt)
    → find_call p cs ≡ some c
    → P (f c)
    → All P cs
    → All P (update_call p f cs)
update_call-All P p f c [] h k a = tt
update_call-All P p f c (d ∷ cs) h k a = elim (Bool-cases (d.address == p)) [
  | inl e ↦ rw e (subst (λ x. P (f x)) (sym (some_injective (rw e at h))) k, a.1)
  | inr e ↦ rw e (a.0, update_call-All P p f c cs (rw e at h) k a.1)
]

pub remove_call-All {ℓ} :
    (P : Cpvt → Type ℓ) (p : ℕ) (cs : List Cpvt) → All P cs → All P (remove_call p cs)
remove_call-All P p [] a = tt
remove_call-All P p (d ∷ cs) a = elim (Bool-cases (d.address == p)) [
  | inl e ↦ rw e a.1
  | inr e ↦ rw e (a.0, remove_call-All P p cs a.1)
]

pub In-remove_call :
    (p q : ℕ) (cs : List Cpvt)
    → ¬ (q ≡ p)
    → In q (addresses cs)
    → In q (addresses (remove_call p cs))
In-remove_call p q [] n m = m
In-remove_call p q (d ∷ cs) n (inl i) = elim (Bool-cases (d.address == p)) [
  | inl e ↦ absurd (n (sym i ∙ (==_iff d.address p).0 e))
  | inr e ↦ rw e (inl i)
]
In-remove_call p q (d ∷ cs) n (inr i) = elim (Bool-cases (d.address == p)) [
  | inl e ↦ rw e i
  | inr e ↦ rw e (inr (In-remove_call p q cs n i))
]

pub remove_call-In :
    (p q : ℕ) (cs : List Cpvt) → In q (addresses (remove_call p cs)) → In q (addresses cs)
remove_call-In p q [] m = m
remove_call-In p q (d ∷ cs) m = elim (Bool-cases (d.address == p)) [
  | inl e ↦ inr (rw e at m)
  | inr e ↦ elim (rw e at m) [ inl i ↦ inl i | inr i ↦ inr (remove_call-In p q cs i) ]
]

pub remove_call-Distinct :
    (p : ℕ) (cs : List Cpvt) → Distinct (addresses cs) → Distinct (addresses (remove_call p cs))
remove_call-Distinct p [] h = tt
remove_call-Distinct p (d ∷ cs) h = elim (Bool-cases (d.address == p)) [
  | inl e ↦ rw e h.1
  | inr e ↦ rw e (λ m. h.0 (remove_call-In p d.address cs m), remove_call-Distinct p cs h.1)
]

-- A call that is removed is no longer in the list.
pub remove_call-gone :
    (p : ℕ) (cs : List Cpvt) → Distinct (addresses cs) → ¬ In p (addresses (remove_call p cs))
remove_call-gone p [] h m = m.1
remove_call-gone p (d ∷ cs) h m = elim (Bool-cases (d.address == p)) [
  | inl e ↦ h.0 (subst (λ q. In q (addresses cs)) (sym ((==_iff d.address p).0 e)) (rw e at m))
  | inr e ↦ elim (rw e at m) [
    | inl i ↦ absurd (true≢false (sym ((==_iff d.address p).1 i) ∙ e))
    | inr i ↦ remove_call-gone p cs h.1 i
  ]
]

pub In-append_left : (q : ℕ) (cs ds : List Cpvt) → In q (addresses cs) → In q (addresses (cs ++ ds))
In-append_left q [] ds m = absurd m.1
In-append_left q (c ∷ cs) ds (inl e) = inl e
In-append_left q (c ∷ cs) ds (inr m) = inr (In-append_left q cs ds m)

pub In-append_last :
    (q : ℕ) (cs : List Cpvt) (d : Cpvt)
    → In q (addresses (cs ++ (d ∷ [])))
    → In q (addresses cs) ⊎ (d.address ≡ q)
In-append_last q [] d (inl e) = inr e
In-append_last q [] d (inr m) = absurd m.1
In-append_last q (c ∷ cs) d (inl e) = inl (inl e)
In-append_last q (c ∷ cs) d (inr m) = elim (In-append_last q cs d m) [
  | inl i ↦ inl (inr i)
  | inr e ↦ inr e
]

pub append-Distinct :
    (cs : List Cpvt) (d : Cpvt)
    → Distinct (addresses cs)
    → ¬ In d.address (addresses cs)
    → Distinct (addresses (cs ++ (d ∷ [])))
append-Distinct [] d h n = (λ m. m.1, tt)
append-Distinct (c ∷ cs) d h n = (
  λ m. elim (In-append_last c.address cs d m) [ inl i ↦ h.0 i | inr e ↦ n (inl (sym e)) ],
  append-Distinct cs d h.1 (λ m. n (inr m)),
)

pub length-remove_call :
    (p : ℕ) (c : Cpvt) (cs : List Cpvt)
    → find_call p cs ≡ some c
    → length (remove_call p cs) + 1 ≡ length cs
length-remove_call p c [] h = absurd (none≢some h)
length-remove_call p c (d ∷ cs) h = ground (arith, length-remove_call p c cs)

pub length-update_call :
    (p : ℕ) (f : Cpvt → Cpvt) (cs : List Cpvt) → length (update_call p f cs) ≡ length cs
length-update_call p f [] = refl
length-update_call p f (d ∷ cs) = ground (arith, length-update_call p f cs)

pub find_call-update_self :
    (p : ℕ) (f : Cpvt → Cpvt) (c : Cpvt) (cs : List Cpvt)
    → ((d : Cpvt) → (f d).address ≡ d.address)
    → find_call p cs ≡ some c
    → find_call p (update_call p f cs) ≡ some (f c)
find_call-update_self p f c [] k h = absurd (none≢some h)
find_call-update_self p f c (d ∷ cs) k h = elim (Bool-cases (d.address == p)) [
  | inl e ↦ rw (e, ap (λ a. a == p) (k d) ∙ e) (ap (λ x. some (f x)) (some_injective (rw e at h)))
  | inr e ↦ rw e (rw e (find_call-update_self p f c cs k (rw e at h)))
]

pub total_absent :
    (m : Cpvt → ℕ) (p : ℕ) (cs : List Cpvt)
    → ((d : Cpvt) → ¬ (d.address ≡ p) → m d ≡ 0)
    → ¬ In p (addresses cs)
    → total m cs ≡ 0
total_absent m p [] k n = refl
total_absent m p (d ∷ cs) k n =
    omega (arith, k d (λ e. n (inl e)), total_absent m p cs k (λ i. n (inr i)))

pub find_call-append_last :
    (p : ℕ) (d : Cpvt) (cs : List Cpvt)
    → d.address ≡ p
    → ¬ In p (addresses cs)
    → find_call p (cs ++ (d ∷ [])) ≡ some d
find_call-append_last p d [] e n = rw ((==_iff d.address p).1 e) refl
find_call-append_last p d (c ∷ cs) e n = elim (Bool-cases (c.address == p)) [
  | inl t ↦ absurd (n (inl ((==_iff c.address p).0 t)))
  | inr t ↦ rw t (find_call-append_last p d cs e (λ m. n (inr m)))
]
