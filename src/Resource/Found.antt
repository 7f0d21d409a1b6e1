-- ===== src/Resource/Found.antt =====
-- What `find_device_by_resource_ex` returns, for every kind of resource.
use mathlib.Core.Option.{some-injective}
use datacard.Base.{
  ℕ, zero, suc, ◌≡◌, sym, subst, ◌⊎◌, inl, inr, Bool, true, false, ◌||◌, List, [], ◌∷◌, ◌++◌,
  Option, none, some, none≢some, if◌then◌else◌, take, drop, In, Bool-cases,
}
use datacard.Resource.{Device}
use datacard.Resource.Turn.{first_can, rotate}

-- The devices that are named.
abbrev pub filter : (Device → Bool) → List Device → List Device
filter named [] = []
filter named (d ∷ ds) = if named d then d ∷ filter named ds else filter named ds

-- Whether there is one.
abbrev pub any : (Device → Bool) → List Device → Bool
any named [] = false
any named (d ∷ ds) = named d || any named ds

-- A device that is named and can take the call, or none if there is none.
abbrev pub Answers : (Device → Bool) → (Device → Bool) → List Device → Option Device → Type 0
Answers named can ds none = (d : Device) → In d ds → named d ≡ true → can d ≡ false
Answers named can ds (some d) = In d ds × (named d ≡ true) × (can d ≡ true)

-- The rotated list has the same devices.
In-append : (d : Device) (xs ys : List Device) → In d (xs ++ ys) → In d xs ⊎ In d ys
In-append d [] ys m = inr m
In-append d (x ∷ xs) ys (inl e) = inl (inl e)
In-append d (x ∷ xs) ys (inr m) = elim (In-append d xs ys m) [ inl i ↦ inl (inr i) | inr i ↦ inr i ]

append-In : (d : Device) (xs ys : List Device) → In d xs ⊎ In d ys → In d (xs ++ ys)
append-In d [] ys (inl m) = absurd m.1
append-In d [] ys (inr m) = m
append-In d (x ∷ xs) ys (inl (inl e)) = inl e
append-In d (x ∷ xs) ys (inl (inr m)) = inr (append-In d xs ys (inl m))
append-In d (x ∷ xs) ys (inr m) = inr (append-In d xs ys (inr m))

In-take : (d : Device) (n : ℕ) (ds : List Device) → In d (take n ds) → In d ds
In-take d zero ds m = absurd m.1
In-take d (suc n) [] m = absurd m.1
In-take d (suc n) (x ∷ ds) (inl e) = inl e
In-take d (suc n) (x ∷ ds) (inr m) = inr (In-take d n ds m)

In-drop : (d : Device) (n : ℕ) (ds : List Device) → In d (drop n ds) → In d ds
In-drop d zero ds m = m
In-drop d (suc n) [] m = m
In-drop d (suc n) (x ∷ ds) m = inr (In-drop d n ds m)

In-split : (d : Device) (n : ℕ) (ds : List Device) → In d ds → In d (drop n ds) ⊎ In d (take n ds)
In-split d zero ds m = inl m
In-split d (suc n) [] m = absurd m.1
In-split d (suc n) (x ∷ ds) (inl e) = inr (inl e)
In-split d (suc n) (x ∷ ds) (inr m) = elim (In-split d n ds m) [
  | inl i ↦ inl i
  | inr i ↦ inr (inr i)
]

rotate-In : (d : Device) (j : ℕ) (ds : List Device) → In d ds → In d (rotate j ds)
rotate-In d j ds m = append-In d (drop j ds) (take j ds) (In-split d j ds m)

In-rotate : (d : Device) (j : ℕ) (ds : List Device) → In d (rotate j ds) → In d ds
In-rotate d j ds m = elim (In-append d (drop j ds) (take j ds) m) [
  | inl i ↦ In-drop d j ds i
  | inr i ↦ In-take d j ds i
]

In-filter :
    (named : Device → Bool) (d : Device) (ds : List Device)
    → In d (filter named ds)
    → In d ds × (named d ≡ true)
In-filter named d [] m = absurd m.1
In-filter named d (x ∷ ds) m = elim (Bool-cases (named x)) [
  | inl e ↦ elim (rw e at m) [
    | inl i ↦ (inl i, subst (λ y. named y ≡ true) i e)
    | inr i ↦ let (k, n) = In-filter named d ds i in (inr k, n)
  ]
  | inr e ↦ let (k, n) = In-filter named d ds (rw e at m) in (inr k, n)
]

filter-In :
    (named : Device → Bool) (d : Device) (ds : List Device)
    → In d ds
    → named d ≡ true
    → In d (filter named ds)
filter-In named d [] m h = absurd m.1
filter-In named d (x ∷ ds) (inl e) h = rw (subst (λ y. named y ≡ true) (sym e) h) (inl e)
filter-In named d (x ∷ ds) (inr m) h = elim (Bool-cases (named x)) [
  | inl e ↦ rw e (inr (filter-In named d ds m h))
  | inr e ↦ rw e (filter-In named d ds m h)
]

-- The first device of a list that can.
first_can-some :
    (can : Device → Bool) (c : Device) (ds : List Device)
    → first_can can ds ≡ some c
    → In c ds × (can c ≡ true)
first_can-some can c [] e = absurd (none≢some e)
first_can-some can c (d ∷ ds) e = elim (Bool-cases (can d)) [
  | inl y ↦
      let same = some-injective d c (rw y at e) in (inl same, subst (λ x. can x ≡ true) same y)
  | inr n ↦ let (i, y) = first_can-some can c ds (rw n at e) in (inr i, y)
]

first_can-none :
    (can : Device → Bool) (ds : List Device)
    → first_can can ds ≡ none
    → (d : Device) → In d ds
    → can d ≡ false
first_can-none can [] e d m = absurd m.1
first_can-none can (x ∷ ds) e d m = elim (Bool-cases (can x)) [
  | inl y ↦ absurd (none≢some (sym (rw y at e)))
  | inr n ↦ elim m [
    | inl i ↦ subst (λ y. can y ≡ false) i n
    | inr i ↦ first_can-none can ds (rw n at e) d i
  ]
]

-- The search through the named devices, from any place on.
pub search-Answers :
    (named can : Device → Bool) (devices : List Device) (j : ℕ) (o : Option Device)
    → first_can can (rotate j (filter named devices)) ≡ o
    → Answers named can devices o
search-Answers named can devices j none e =
    λ d m h. first_can-none can _ e d (rotate-In d j _ (filter-In named d devices m h))
search-Answers named can devices j (some d) e =
    let (i, y) = first_can-some can d _ e in
    let (k, n) = In-filter named d devices (In-rotate d j _ i) in (k, n, y)
