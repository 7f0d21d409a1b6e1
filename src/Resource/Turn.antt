-- ===== src/Resource/Turn.antt =====
-- The search of `find_device_by_resource_ex` through the array of devices.
use datacard.Base.{
  ℕ, zero, suc, ◌+◌, ◌-◌, ◌≤◌, ◌<◌, ◌≡◌, refl, ap, ◌∙◌, Bool, List, [], ◌∷◌, ◌++◌, Option, none,
  some, arith, if◌then◌else◌, length, take, drop, get_elem?,
}
use datacard.AtQueue.View.{drop-get_elem?}
use datacard.Resource.{Device, wrap, chosen, search}

-- The first device that can.
abbrev pub first_can : (Device → Bool) → List Device → Option Device
first_can can [] = none
first_can can (d ∷ ds) = if can d then some d else first_can can ds

-- The devices from a place on, and then those before it.
abbrev pub rotate : ℕ → List Device → List Device
rotate j ds = drop j ds ++ take j ds

-- One round, at a place within the array.
search_round :
    (can : Device → Bool) (ds : List Device) (rounds j : ℕ) (d : Device)
    → get_elem? ds (wrap (length ds) j) ≡ some d
    → search can ds (suc rounds) j
      ≡ (if can d then some d else search can ds rounds (suc (wrap (length ds) j)))
unfolding search
search_round can ds rounds j d e =
    ap (λ o. chosen can o (search can ds rounds (suc (wrap (length ds) j)))) e

inside : (c j : ℕ) → j < c → wrap c j ≡ j
inside c j h = ground arith

-- Without a wrap.
search_straight :
    (can : Device → Bool) (ds : List Device) (rounds j : ℕ)
    → j + rounds ≤ length ds
    → search can ds rounds j ≡ first_can can (take rounds (drop j ds))
unfolding search
search_straight can ds zero j h = refl
search_straight can ds (suc rounds) j h =
    let (d, at, split) = drop-get_elem? ds j (omega arith) in
    let w = inside (length ds) j (omega arith) in
    search_round can ds rounds j d (ap (get_elem? ds) w ∙ at)
    ∙ rw (w, split)
        (ap (λ o. if can d then some d else o)
          (search_straight can ds rounds (suc j) (omega arith)))

-- A search that starts at the end starts over.
search_over :
    (can : Device → Bool) (ds : List Device) (rounds : ℕ)
    → search can ds rounds (length ds) ≡ search can ds rounds 0
unfolding search
search_over can ds zero = refl
search_over can ds (suc rounds) =
    ap (λ k. chosen can (get_elem? ds k) (search can ds rounds (suc k)))
      {x = wrap (length ds) (length ds)} {y = wrap (length ds) 0} (ground arith)

drop_all : (j : ℕ) (ds : List Device) → length ds ≤ j → drop j ds ≡ []
drop_all zero [] h = refl
drop_all zero (d ∷ ds) h = absurd (omega arith)
drop_all (suc j) [] h = refl
drop_all (suc j) (d ∷ ds) h = drop_all j ds (omega arith)

search_wrapped :
    (can : Device → Bool) (ds : List Device) (n m j : ℕ)
    → j + n ≡ length ds
    → m ≤ length ds
    → search can ds (n + m) j ≡ first_can can (drop j ds ++ take m ds)
search_wrapped can ds zero m j e h =
    ap (λ k. search can ds k j) {x = zero + m} {y = m} (omega arith)
    ∙ ap (search can ds m) {x = j} {y = length ds} (omega arith)
    ∙ search_over can ds m
    ∙ search_straight can ds m 0 (omega arith)
    ∙ rw (drop_all j ds (omega arith)) refl
search_wrapped can ds (suc n) m j e h =
    let (d, at, split) = drop-get_elem? ds j (omega arith) in
    let w = inside (length ds) j (omega arith) in
    ap (λ k. search can ds k j) {x = suc n + m} {y = suc (n + m)} (omega arith)
    ∙ search_round can ds (n + m) j d (ap (get_elem? ds) w ∙ at)
    ∙ rw (w, split)
        (ap (λ o. if can d then some d else o) (search_wrapped can ds n m (suc j) (omega arith) h))

-- The search from a place of the array on finds the first device that can take the call among those
-- from there to the end and then those before, so each device of the array gets its turn.
pub search-first_can :
    (can : Device → Bool) (ds : List Device) (j : ℕ)
    → j ≤ length ds
    → search can ds (length ds) j ≡ first_can can (rotate j ds)
search-first_can can ds j h =
    ap (λ k. search can ds k j) {x = length ds} {y = (length ds - j) + j} (omega arith)
    ∙ search_wrapped can ds (length ds - j) j j (omega arith) h
