-- ===== src/Calls/Release.antt =====
-- The end of the first call of the list takes just that call out.
use datacard.Base.{
  ℕ, ◌≡◌, refl, ap, ◌∙◌, inl, inr, true, false, List, [], ◌∷◌, Option, none, some, ◌==◌, ==_iff,
  Bool-cases, if◌then◌else◌,
}
use datacard.Calls.{
  CallState, call_released, Cpvt, Pvt, unlinked, ask, same_state, find_call, update_call,
  remove_call, no_chans, on_remove_last_channel, time4restate, try_restate, drop_call, unlink_call,
  cpvt_free,
}
use datacard.Calls.Change.{
  disactivate_on, disactivate_call, enter_state, inform, change_found, change_channel_state,
  set_served,
}

address_self : (p : ℕ) → (p == p) ≡ true
address_self p = (==_iff p p).1 refl

pub find_call-head : (c : Cpvt) (cs : List Cpvt) → find_call c.address (c ∷ cs) ≡ some c
find_call-head c cs = rw (address_self c.address) refl

pub update_call-head :
    (p : ℕ) (f : Cpvt → Cpvt) (d : Cpvt) (cs : List Cpvt)
    → d.address ≡ p
    → update_call p f (d ∷ cs) ≡ f d ∷ cs
update_call-head p f d cs e = rw ((==_iff d.address p).1 e) refl

unlink_call-head :
    (pvt : Pvt) (p : ℕ) (d : Cpvt) (cs : List Cpvt)
    → pvt.chans ≡ d ∷ cs
    → d.address ≡ p
    → (unlink_call pvt p).chans ≡ cs
unfolding unlink_call drop_call
unlink_call-head pvt p d cs e a =
    ap (λ o. (drop_call pvt p o).chans) {x = find_call p pvt.chans} {y = some d}
      (ap (find_call p) e ∙ rw ((==_iff d.address p).1 a) refl)
    ∙ ap (remove_call p) e
    ∙ rw ((==_iff d.address p).1 a) refl

pub settled-chans :
    (pvt : Pvt)
    → (if no_chans pvt then try_restate (on_remove_last_channel pvt) else pvt).chans ≡ pvt.chans
unfolding try_restate on_remove_last_channel
settled-chans pvt = elim (Bool-cases (no_chans pvt)) [
  | inl e ↦ elim (Bool-cases (time4restate (on_remove_last_channel pvt))) [
    | inl r ↦ rw e (rw r refl)
    | inr r ↦ rw e (rw r refl)
  ]
  | inr e ↦ rw e refl
]

cpvt_free-head :
    (pvt : Pvt) (p : ℕ) (d : Cpvt) (cs : List Cpvt)
    → pvt.chans ≡ d ∷ cs
    → d.address ≡ p
    → (cpvt_free pvt p).chans ≡ cs
unfolding cpvt_free
cpvt_free-head pvt p d cs e a = settled-chans (unlink_call pvt p) ∙ unlink_call-head pvt p d cs e a

disactivate_on-head :
    (pvt : Pvt) (c d : Cpvt) (cs : List Cpvt) (channel : Option ℕ)
    → pvt.chans ≡ d ∷ cs
    → d.address ≡ c.address
    → (b : Cpvt) × ((disactivate_on pvt c channel).chans ≡ b ∷ cs) × (b.address ≡ c.address)
unfolding disactivate_on
disactivate_on-head pvt c d cs none e a = (d, e, a)
disactivate_on-head pvt c d cs (some channel) e a = elim (Bool-cases c.flags.activated) [
  | inl y ↦ rw y (
    set_served false d,
    ap (update_call c.address (set_served false)) e
        ∙ update_call-head c.address (set_served false) d cs a,
    a,
  )
  | inr n ↦ rw n (d, e, a)
]

inform-head :
    (pvt : Pvt) (c d : Cpvt) (cs : List Cpvt) (oldstate : CallState) (cause : ℕ)
    (channel : Option ℕ)
    → pvt.chans ≡ d ∷ cs
    → d.address ≡ c.address
    → (inform pvt c oldstate call_released cause channel).chans ≡ cs
unfolding inform disactivate_call
inform-head pvt c d cs oldstate cause none e a = cpvt_free-head pvt c.address d cs e a
inform-head pvt c d cs oldstate cause (some channel) e a =
    let (b, f, g) = disactivate_on-head pvt c d cs c.channel e a in
    cpvt_free-head (ask (disactivate_on pvt c c.channel) (unlinked channel ∷ [])) c.address b cs f g

pub change_channel_state-head :
    (pvt : Pvt) (c : Cpvt) (cs : List Cpvt) (cause : ℕ)
    → pvt.chans ≡ c ∷ cs
    → same_state call_released c.state ≡ false
    → (change_channel_state pvt c.address call_released cause).chans ≡ cs
unfolding change_channel_state change_found enter_state
change_channel_state-head pvt c cs cause e s =
    ap (λ o. (change_found pvt o call_released cause).chans)
      (ap (find_call c.address) e ∙ find_call-head c cs)
    ∙ rw s (
        inform-head (enter_state pvt c call_released) (record c { state = call_released })
          (record c { state = call_released }) cs c.state cause c.channel
          (ap (update_call c.address (λ d. record d { state = call_released })) e
            ∙ update_call-head c.address (λ d. record d { state = call_released }) c cs refl)
          refl)
