-- ===== src/Resource/Answers.antt =====
-- What `find_device_by_resource_ex` returns, for every kind of resource.
use datacard.Base.{
  ℕ, suc, ◌+◌, ◌≤◌, ◌<◌, ◌≡◌, refl, ap, sym, subst, ◌∙◌, ◌⊎◌, inl, inr, Bool, true, false,
  true≢false, ◌&&◌, List, [], ◌∷◌, Option, none, some, arith, ltb, ◌==◌, ==_iff, if◌then◌else◌,
  length, Bool-cases,
}
use datacard.Bytes.{Bytes}
use datacard.Resource.{
  Device, Mark, by_group, by_provider, by_sim, max_devices, last_used, collect, search, in_turn,
  first_of, in_order, can_dial, is_letter, then_digit, then_colon, has_group, has_provider, has_sim,
  has_imei, has_id, find_device_by_resource_ex,
}
use datacard.Resource.Turn.{first_can, rotate, search-first_can}
use datacard.Resource.Found.{filter, any, Answers, search-Answers}

empty_of_length : (xs : List Device) → length xs ≡ 0 → xs ≡ []
empty_of_length [] h = refl
empty_of_length (x ∷ xs) h = absurd (omega arith)

place_after :
    (c last : ℕ) (used : Bool) (n last' : ℕ)
    → (last' ≡ (if used then c else last)) ⊎ (last' < suc c + n)
    → (last' ≡ last) ⊎ (last' < c + suc n)
place_after c last true n last' (inl e) = inr (omega arith)
place_after c last false n last' (inl e) = inl e
place_after c last used n last' (inr h) = inr (omega arith)

-- As long as the named devices fit into the array, it gets them all, in order, and the place of the
-- device that was used last is within it.
collect-filter :
    (named : Device → Bool) (mark : Mark) (c last : ℕ) (ds : List Device)
    → c + length (filter named ds) ≤ max_devices
    → let (after, array, last') = collect named mark c last ds in
      (array ≡ filter named ds) × ((last' ≡ last) ⊎ (last' < c + length array))
unfolding collect
collect-filter named mark c last [] h = (refl, inl refl)
collect-filter named mark c last (d ∷ ds) h = elim (Bool-cases (named d)) [
  | inl e ↦
      let (a, l) =
        collect-filter named mark (suc c) (if last_used mark d then c else last) ds
          (omega (arith, rw e at h)) in
      let full : (c == max_devices) ≡ false = below_max _ (rw e at h) in
      rw (e, full) (ap (λ ys. d ∷ ys) a, place_after c last (last_used mark d) _ _ l)
  | inr e ↦
      let (a, l) = collect-filter named mark c last ds (rw e at h) in
      elim (Bool-cases (c == max_devices)) [
        | inl f ↦
            rw (e, f)
              (
                sym (nothing_named ds (omega (arith, rw e at h, (==_iff c max_devices).0 f))),
                inl refl,
              )
        | inr f ↦ rw (e, f) (a, l)
      ]
]
  where
    below_max : (n : ℕ) → c + suc n ≤ max_devices → (c == max_devices) ≡ false
    below_max n h = ground arith

    nothing_named : (ds : List Device) → length (filter named ds) ≤ 0 → filter named ds ≡ []
    nothing_named ds h = empty_of_length (filter named ds) (omega arith)

any-filter :
    (named : Device → Bool) (ds : List Device) → ltb 0 (length (filter named ds)) ≡ any named ds
any-filter named [] = refl
any-filter named (d ∷ ds) = elim (Bool-cases (named d)) [
  | inl e ↦ rw e (ground arith)
  | inr e ↦ rw e (any-filter named ds)
]

-- A device that is named and can take the call is found if there is one, and `*exists` tells whether
-- one is named.
pub record Correct (named can : Device → Bool) (devices : List Device)
    (result : Option Device × Bool × List Device) : Type 0 where
  pub found : Answers named can devices result.0
  pub exists : result.1 ≡ any named devices

further :
    (named can : Device → Bool) (d : Device) (ds : List Device) (o : Option Device)
    → (named d ≡ true → can d ≡ false)
    → Answers named can ds o
    → Answers named can (d ∷ ds) o
further named can d ds none f a = λ x m n. elim m [
  | inl e ↦ subst (λ y. can y ≡ false) e (f (subst (λ y. named y ≡ true) (sym e) n))
  | inr i ↦ a x i n
]
further named can d ds (some x) f a = (inr a.0, a.1, a.2)

first_of-Answers :
    (named can : Device → Bool) (ds : List Device)
    → Answers named can ds (first_of named can ds).0 × ((first_of named can ds).1 ≡ any named ds)
unfolding first_of
first_of-Answers named can [] = (λ d m h. absurd m.1, refl)
first_of-Answers named can (d ∷ ds) =
    let (a, x) = first_of-Answers named can ds in
    elim (Bool-cases (named d)) [
      | inl e ↦ elim (Bool-cases (can d)) [
        | inl f ↦ rw (e, f) ((inl refl, e, f), refl)
        | inr f ↦ rw (e, f) (further named can d ds _ (λ n. f) a, refl)
      ]
      | inr e ↦ rw e (further named can d ds _ (λ n. absurd (true≢false (sym n ∙ e))) a, x)
    ]

in_order-Correct :
    (named can : Device → Bool) (devices : List Device)
    → Correct named can devices (in_order named can devices)
unfolding in_order
in_order-Correct named can devices =
    let (a, e) = first_of-Answers named can devices in record { found = a; exists = e }

searched :
    (can : Device → Bool) (array : List Device) (last : ℕ)
    → (last ≡ 0) ⊎ (last < 0 + length array)
    → search can array (length array) (suc last) ≡ first_can can (rotate (suc last) array)
unfolding search
searched can [] last l = refl
searched can (d ∷ ds) last (inl e) = search-first_can can (d ∷ ds) (suc last) (omega arith)
searched can (d ∷ ds) last (inr h) = search-first_can can (d ∷ ds) (suc last) (omega arith)

in_turn-Correct :
    (named : Device → Bool) (mark : Mark) (can : Device → Bool) (devices : List Device)
    → length (filter named devices) ≤ max_devices
    → Correct named can devices (in_turn named mark can devices)
unfolding in_turn
in_turn-Correct named mark can devices h =
    let (a, l) = collect-filter named mark 0 0 devices (omega arith) in
    let j = suc (collect named mark 0 0 devices).2 in
    record {
      found =
          subst (λ o. Answers named can devices o)
            (sym (searched can _ _ l ∙ ap (λ ds. first_can can (rotate j ds)) a))
            (search-Answers named can devices j _ refl);
      exists = ap (λ ds. ltb 0 (length ds)) a ∙ any-filter named devices;
    }

-- What a resource names: a group, a provider, the start of an IMSI, an IMEI, or a device.
abbrev pub names : Bytes → Device → Bool
names resource =
    if is_letter b'g' b'G' resource && then_digit resource
    then has_group resource
    else if is_letter b'r' b'R' resource && then_digit resource
    then has_group resource
    else if is_letter b'p' b'P' resource && then_colon resource
    then has_provider resource
    else if is_letter b's' b'S' resource && then_colon resource
    then has_sim resource
    else if is_letter b'i' b'I' resource && then_colon resource
    then has_imei resource
    else has_id resource

if-Correct :
    (b : Bool) (f g can : Device → Bool) (devices : List Device)
    (x y : Option Device × Bool × List Device)
    → Correct f can devices x
    → Correct g can devices y
    → Correct (if b then f else g) can devices (if b then x else y)
if-Correct true f g can devices x y u v = u
if-Correct false f g can devices x y u v = v

filter_bound : (named : Device → Bool) (ds : List Device) → length (filter named ds) ≤ length ds
filter_bound named [] = omega arith
filter_bound named (d ∷ ds) = ground (arith, filter_bound named ds)

-- With no more devices than the array has places, the choice of a device is right for every
-- resource: the device returned is one of those that the resource names and can take the call; none
-- is returned only if none of them can; and `*exists` is set just when the resource names a device.
pub find_device_by_resource_ex-Correct :
    (resource : Bytes) (hold_other : Bool) (requestor : Option ℕ) (devices : List Device)
    → length devices ≤ max_devices
    → Correct
        (names resource)
        (can_dial hold_other requestor)
        devices
        (find_device_by_resource_ex resource hold_other requestor devices)
unfolding find_device_by_resource_ex
find_device_by_resource_ex-Correct resource hold_other requestor devices h =
    let can = can_dial hold_other requestor in
    let turn = λ (named : Device → Bool) (mark : Mark).
      in_turn-Correct named mark can devices (omega (arith, filter_bound named devices)) in
    if-Correct (is_letter b'g' b'G' resource && then_digit resource) _ _ can devices _ _
      (in_order-Correct (has_group resource) can devices)
      (if-Correct (is_letter b'r' b'R' resource && then_digit resource) _ _ can devices _ _
        (turn (has_group resource) by_group)
        (if-Correct (is_letter b'p' b'P' resource && then_colon resource) _ _ can devices _ _
          (turn (has_provider resource) by_provider)
          (if-Correct (is_letter b's' b'S' resource && then_colon resource) _ _ can devices _ _
            (turn (has_sim resource) by_sim)
            (if-Correct (is_letter b'i' b'I' resource && then_colon resource) _ _ can devices _ _
              (in_order-Correct (has_imei resource) can devices)
              (in_order-Correct (has_id resource) can devices)))))
