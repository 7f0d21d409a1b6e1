-- ===== src/Calls/Dial.antt =====
-- chan_datacard.c and channel.c: whether a device can take a call, and a call index that none of its
-- calls has. A channel that requests a call is the device of its call, if it is a channel of the
-- driver.
use datacard.Base.{
  ℕ, zero, suc, ◌+◌, ◌≡◌, ◌≤◌, ◌<◌, ◌↔◌, refl, sym, ◌∙◌, inl, inr, ◌⊎◌, Bool, true, false, not,
  ◌&&◌, ◌||◌, List, [], ◌∷◌, Option, none, some, arith, ◌==◌, ==_iff, Bool-cases, true≢false, subst,
  if◌then◌else◌, ltb,
}
use datacard.Calls.{
  CallState, call_active, call_onhold, call_dialing, call_alerting, call_incoming, call_waiting,
  call_released, call_init, dev_started, time_convenient, time_number, Cpvt, Pvt, same_dev,
  points_to,
}

-- The first loop of `pvt_get_pseudo_call_idx`, with SET_BIT.
unfoldable pub set_bits : List Cpvt → (ℕ → Bool) → ℕ → Bool
set_bits [] bits = bits
set_bits (c ∷ cs) bits = set_bits cs (λ i. if c.call_idx == i then true else bits i)

-- Its second loop, with the rounds up to MAX_CALL_IDX.
unfoldable pub free_bit : ℕ → ℕ → (ℕ → Bool) → ℕ
free_bit zero i bits = 0
free_bit (suc rounds) i bits =
    let rest = free_bit rounds (suc i) bits in if not (bits i) then i else rest

-- `pvt_get_pseudo_call_idx`
unfoldable pub get_pseudo_call_idx : Pvt → ℕ
unfolding free_bit set_bits
get_pseudo_call_idx pvt = free_bit 31 1 (set_bits pvt.chans (λ i. false))

-- The `switch` of `is_dial_possible2`, with the counters of held and of active calls; `none` is
-- `return 0`.
unfoldable pub dial_state : Bool → Bool → ℕ → ℕ → CallState → Option (ℕ × ℕ)
dial_state wait ignored hold active call_init = if ignored then some (hold, active) else none
dial_state wait ignored hold active call_dialing = none
dial_state wait ignored hold active call_alerting = none
dial_state wait ignored hold active call_incoming = none
dial_state wait ignored hold active call_waiting = none
dial_state wait ignored hold active call_active =
    if ltb 0 hold || not wait then none else some (hold, suc active)
dial_state wait ignored hold active call_onhold =
    if ltb 0 active || not wait then none else some (suc hold, active)
dial_state wait ignored hold active call_released = some (hold, active)

unfoldable pub dial_loop : Bool → Option ℕ → List Cpvt → Option (ℕ × ℕ) → Bool
unfolding dial_state
dial_loop wait ignore cs none = false
dial_loop wait ignore [] (some n) = true
dial_loop wait ignore (c ∷ cs) (some (hold, active)) =
    dial_loop wait ignore cs (dial_state wait (points_to ignore c.address) hold active c.state)

-- `is_dial_possible2`; `hold_other` is the flag CALL_FLAG_HOLD_OTHER of `opts`.
unfoldable pub is_dial_possible2 : Pvt → Bool → Option ℕ → Bool
unfolding dial_loop
is_dial_possible2 pvt hold_other ignore =
    if pvt.ring || pvt.cwaiting || pvt.dialing
    then false
    else dial_loop hold_other ignore pvt.chans (some (0, 0))

-- `is_dial_possible`
unfoldable pub is_dial_possible : Pvt → Bool → Bool
unfolding is_dial_possible2
is_dial_possible pvt hold_other = is_dial_possible2 pvt hold_other none

-- `pvt_enabled`
unfoldable pub enabled : Pvt → Bool
enabled pvt =
    same_dev pvt.current_state dev_started
    && (same_dev pvt.desired_state pvt.current_state
        || time_number pvt.restart_time == time_number time_convenient)

-- `ready4voice_call`
unfoldable pub ready4voice_call : Pvt → Option ℕ → Bool → Bool
unfolding enabled is_dial_possible2
ready4voice_call pvt current_cpvt hold_other =
    if not pvt.connected
      || not pvt.initialized
      || not pvt.has_voice
      || not pvt.gsm_registered
      || not (enabled pvt)
    then false
    else is_dial_possible2 pvt hold_other current_cpvt

-- A call that does not stand in the way of another: it is over, or the call itself before it is
-- dialed, or one that can be held while the other is active.
abbrev pub allows : Bool → Bool → CallState → Bool
allows hold_other ignored call_released = true
allows hold_other ignored call_init = ignored
allows hold_other ignored call_active = hold_other
allows hold_other ignored call_onhold = hold_other
allows hold_other ignored _ = false

abbrev pub all_allow : Bool → Option ℕ → List Cpvt → Bool
all_allow hold_other ignore [] = true
all_allow hold_other ignore (c ∷ cs) =
    allows hold_other (points_to ignore c.address) c.state && all_allow hold_other ignore cs

abbrev is_active : CallState → Bool
is_active call_active = true
is_active _ = false

abbrev is_held : CallState → Bool
is_held call_onhold = true
is_held _ = false

abbrev pub none_active : List Cpvt → Bool
none_active [] = true
none_active (c ∷ cs) = not (is_active c.state) && none_active cs

abbrev pub none_held : List Cpvt → Bool
none_held [] = true
none_held (c ∷ cs) = not (is_held c.state) && none_held cs

dial_state-both :
    (s : CallState) (wait ignored : Bool) (hold active : ℕ) (rest : Option (ℕ × ℕ) → Bool)
    (allow no_active no_held : Bool)
    → rest none ≡ false
    → ((h a : ℕ)
        → (h ≡ 0) ⊎ (a ≡ 0)
        → rest (some (h, a)) ≡ (allow && ((a == 0 && no_active) || (h == 0 && no_held))))
    → (hold ≡ 0) ⊎ (active ≡ 0)
    → rest (dial_state wait ignored hold active s) ≡ (
        (allows wait ignored s && allow)
        && ((active == 0 && (not (is_active s) && no_active))
            || (hold == 0 && (not (is_held s) && no_held))))
unfolding dial_state
dial_state-both call_init wait ignored hold active rest allow na nh e k h =
    ground (arith, k hold active)
dial_state-both call_released wait ignored hold active rest allow na nh e k h =
    ground (arith, k hold active)
dial_state-both call_active wait ignored hold active rest allow na nh e k h =
    ground (arith, k hold (suc active))
dial_state-both call_onhold wait ignored hold active rest allow na nh e k h =
    ground (arith, k (suc hold) active)
dial_state-both call_dialing wait ignored hold active rest allow na nh e k h = e
dial_state-both call_alerting wait ignored hold active rest allow na nh e k h = e
dial_state-both call_incoming wait ignored hold active rest allow na nh e k h = e
dial_state-both call_waiting wait ignored hold active rest allow na nh e k h = e

dial_loop-both :
    (wait : Bool) (ignore : Option ℕ) (cs : List Cpvt) (hold active : ℕ)
    → (hold ≡ 0) ⊎ (active ≡ 0)
    → dial_loop wait ignore cs (some (hold, active)) ≡ (
        all_allow wait ignore cs
        && ((active == 0 && none_active cs) || (hold == 0 && none_held cs)))
unfolding dial_loop
dial_loop-both wait ignore [] hold active h = ground arith
dial_loop-both wait ignore (c ∷ cs) hold active h =
    dial_state-both c.state wait (points_to ignore c.address) hold active (dial_loop wait ignore cs)
      (all_allow wait ignore cs) (none_active cs) (none_held cs) refl
      (dial_loop-both wait ignore cs) h

-- A device can dial exactly when it has no call from or to the network in the making, every call of
-- its list is over, or is the ignored one before it is dialed, or is active or held where another
-- call may be put on hold, and its calls are not active and held at once.
pub is_dial_possible2-allows :
    (pvt : Pvt) (hold_other : Bool) (ignore : Option ℕ)
    → is_dial_possible2 pvt hold_other ignore ≡ (
        not pvt.ring
        && not pvt.cwaiting
        && not pvt.dialing
        && all_allow hold_other ignore pvt.chans
        && (none_active pvt.chans || none_held pvt.chans))
unfolding is_dial_possible2
is_dial_possible2-allows pvt hold_other ignore =
    ground (arith, dial_loop-both hold_other ignore pvt.chans 0 0 (inl refl))

-- The index is used by a call of the list.
abbrev pub Used : ℕ → List Cpvt → Type 0
Used i [] = Unit × ⊥
Used i (c ∷ cs) = (c.call_idx ≡ i) ⊎ Used i cs

set_bits-Used :
    (i : ℕ) (cs : List Cpvt) (bits : ℕ → Bool)
    → (set_bits cs bits i ≡ true) ↔ ((bits i ≡ true) ⊎ Used i cs)
unfolding set_bits
set_bits-Used i [] bits = (λ h. inl h, λ h. elim h [ inl e ↦ e | inr m ↦ absurd m.1 ])
set_bits-Used i (c ∷ cs) bits =
    let (used, set) = set_bits-Used i cs (λ j. if c.call_idx == j then true else bits j) in
    elim (Bool-cases (c.call_idx == i)) [
      | inl e ↦ (λ h. inr (inl ((==_iff c.call_idx i).0 e)), λ h. set (inl (rw e refl)))
      | inr e ↦ (
        λ h. elim (used h) [ inl b ↦ inl (rw e at b) | inr m ↦ inr (inr m) ],
        λ h. elim h [
          | inl b ↦ set (inl (rw e b))
          | inr m ↦ elim m [
            | inl n ↦ absurd (true≢false (sym ((==_iff c.call_idx i).1 n) ∙ e))
            | inr u ↦ set (inr u)
          ]
        ],
      )
    ]

le-cases : (i j : ℕ) → i ≤ j → (i ≡ j) ⊎ (suc i ≤ j)
le-cases i j h = ground arith

free_bit-first :
    (rounds i : ℕ) (bits : ℕ → Bool)
    → ((free_bit rounds i bits ≡ 0) × ((j : ℕ) → i ≤ j → j < i + rounds → bits j ≡ true))
      ⊎ ((i ≤ free_bit rounds i bits)
          × (free_bit rounds i bits < i + rounds)
          × (bits (free_bit rounds i bits) ≡ false)
          × ((j : ℕ) → i ≤ j → j < free_bit rounds i bits → bits j ≡ true))
unfolding free_bit
free_bit-first zero i bits = inl (refl, λ j a b. absurd (omega arith))
free_bit-first (suc rounds) i bits = elim (Bool-cases (bits i)) [
  | inl e ↦ rw e (elim (free_bit-first rounds (suc i) bits) [
    | inl n ↦ inl (
      n.0,
      λ j a b. elim (le-cases i j a) [
        | inl s ↦ subst (λ k. bits k ≡ true) s e
        | inr s ↦ n.1 j s (omega arith)
      ],
    )
    | inr (low, high, clear, below) ↦ inr (
      omega arith,
      omega arith,
      clear,
      λ j a b. elim (le-cases i j a) [
        | inl s ↦ subst (λ k. bits k ≡ true) s e
        | inr s ↦ below j s b
      ],
    )
  ])
  | inr e ↦ rw e (inr (omega arith, omega arith, e, λ j a b. absurd (omega arith)))
]

-- The pseudo index is 0 exactly when the calls of the device use all the indices from 1 to 31;
-- otherwise it is the least of these that no call uses.
pub get_pseudo_call_idx-least :
    (pvt : Pvt)
    → let r = get_pseudo_call_idx pvt in
      ((r ≡ 0) × ((j : ℕ) → 1 ≤ j → j ≤ 31 → Used j pvt.chans))
      ⊎ ((1 ≤ r) × (r ≤ 31) × ¬ Used r pvt.chans × ((j : ℕ) → 1 ≤ j → j < r → Used j pvt.chans))
unfolding get_pseudo_call_idx
get_pseudo_call_idx-least pvt = elim (free_bit-first 31 1 (set_bits pvt.chans (λ i. false))) [
  | inl (z, all) ↦ inl (z, λ j a b. used j (all j a (omega arith)))
  | inr (low, high, free, below) ↦ inr (
    low,
    omega arith,
    λ u. true≢false (sym ((set_bits-Used _ pvt.chans (λ i. false)).1 (inr u)) ∙ free),
    λ j a b. used j (below j a b),
  )
]
  where
    used : (j : ℕ) → set_bits pvt.chans (λ i. false) j ≡ true → Used j pvt.chans
    used j h = elim ((set_bits-Used j pvt.chans (λ i. false)).0 h) [
      | inl e ↦ absurd (true≢false (sym e))
      | inr u ↦ u
    ]
