-- ===== src/Calls/Live.antt =====
-- A call that is over is not in the list any more.
use datacard.Base.{
  ℕ, ◌≡◌, refl, ap, sym, ◌∙◌, inl, inr, Bool, true, false, true≢false, List, [], ◌∷◌, map, Option,
  none, some, none≢some, ◌==◌, ==_iff, Bool-cases, All, subst,
}
use datacard.Calls.{
  CallState, call_active, call_onhold, call_dialing, call_alerting, call_incoming, call_waiting,
  call_released, call_init, Cpvt, Pvt, unlinked, ask, same_state, find_call, update_call,
  remove_call, drop_call, unlink_call, cpvt_free,
}
use datacard.Calls.Change.{
  disactivate_on, disactivate_call, demote, serve, take_over, activate_unless, activate_call,
  enter_state, inform, change_found, change_channel_state, set_served,
}
use datacard.Calls.Release.{settled-chans}
use datacard.Calls.Total.{remove_call-All}

abbrev pub IsLive : Cpvt → Type 0
IsLive c = same_state call_released c.state ≡ false

abbrev pub AreLive : Pvt → Type 0
AreLive pvt = All IsLive pvt.chans

remove_call-update_call :
    (p : ℕ) (f : Cpvt → Cpvt) (cs : List Cpvt)
    → ((c : Cpvt) → (f c).address ≡ c.address)
    → remove_call p (update_call p f cs) ≡ remove_call p cs
remove_call-update_call p f [] h = refl
remove_call-update_call p f (c ∷ cs) h = elim (Bool-cases (c.address == p)) [
  | inl e ↦ rw e (rw ((==_iff (f c).address p).1 (h c ∙ (==_iff c.address p).0 e)) refl)
  | inr e ↦ rw e (rw e (ap (λ ds. c ∷ ds) (remove_call-update_call p f cs h)))
]

absent_call : (p : ℕ) (cs : List Cpvt) → find_call p cs ≡ none → remove_call p cs ≡ cs
absent_call p [] e = refl
absent_call p (c ∷ cs) e = elim (Bool-cases (c.address == p)) [
  | inl y ↦ absurd (none≢some (sym (rw y at e)))
  | inr n ↦ rw n (ap (λ ds. c ∷ ds) (absent_call p cs (rw n at e)))
]

pub update_call-IsLive :
    (p : ℕ) (f : Cpvt → Cpvt) (cs : List Cpvt)
    → ((c : Cpvt) → IsLive c → IsLive (f c))
    → All IsLive cs
    → All IsLive (update_call p f cs)
update_call-IsLive p f [] k h = tt
update_call-IsLive p f (c ∷ cs) k h = elim (Bool-cases (c.address == p)) [
  | inl e ↦ rw e (k c h.0, h.1)
  | inr e ↦ rw e (h.0, update_call-IsLive p f cs k h.1)
]

drop_call-IsLive :
    (pvt : Pvt) (p : ℕ) (o : Option Cpvt)
    → find_call p pvt.chans ≡ o
    → All IsLive (remove_call p pvt.chans)
    → All IsLive (drop_call pvt p o).chans
unfolding drop_call
drop_call-IsLive pvt p none e h = subst (All IsLive) (absent_call p pvt.chans e) h
drop_call-IsLive pvt p (some c) e h = h

pub cpvt_free-AreLive :
    (pvt : Pvt) (p : ℕ) → All IsLive (remove_call p pvt.chans) → AreLive (cpvt_free pvt p)
unfolding cpvt_free unlink_call
cpvt_free-AreLive pvt p h =
    subst (All IsLive) (sym (settled-chans (unlink_call pvt p)))
      (drop_call-IsLive pvt p (find_call p pvt.chans) refl h)

demote-IsLive : (p : ℕ) (cs : List Cpvt) → All IsLive cs → All IsLive (map (demote p) cs)
demote-IsLive p [] h = tt
demote-IsLive p (c ∷ cs) h = elim (Bool-cases (c.address == p)) [
  | inl e ↦ rw e (h.0, demote-IsLive p cs h.1)
  | inr e ↦ rw e (h.0, demote-IsLive p cs h.1)
]

serve-AreLive : (pvt : Pvt) (c : Cpvt) (fd : Option ℕ) → AreLive pvt → AreLive (serve pvt c fd)
unfolding serve
serve-AreLive pvt c none h = h
serve-AreLive pvt c (some fd) h =
    update_call-IsLive c.address (set_served true) pvt.chans (λ d l. l) h

activate_unless-AreLive :
    (b : Bool) (pvt : Pvt) (c : Cpvt) → AreLive pvt → AreLive (activate_unless b pvt c)
unfolding activate_unless take_over
activate_unless-AreLive true pvt c h = h
activate_unless-AreLive false pvt c h =
    serve-AreLive _ c pvt.audio_fd (demote-IsLive c.address pvt.chans h)

disactivate_on-AreLive :
    (pvt : Pvt) (c : Cpvt) (channel : Option ℕ)
    → AreLive pvt
    → AreLive (disactivate_on pvt c channel)
unfolding disactivate_on
disactivate_on-AreLive pvt c none h = h
disactivate_on-AreLive pvt c (some channel) h = elim (Bool-cases c.flags.activated) [
  | inl e ↦ rw e (update_call-IsLive c.address (set_served false) pvt.chans (λ d l. l) h)
  | inr e ↦ rw e h
]

pub disactivate_call-AreLive :
    (pvt : Pvt) (c : Cpvt) → AreLive pvt → AreLive (disactivate_call pvt c)
unfolding disactivate_call
disactivate_call-AreLive pvt c h = disactivate_on-AreLive pvt c c.channel h

disactivate_on-remaining :
    (pvt : Pvt) (c : Cpvt) (channel : Option ℕ)
    → remove_call c.address (disactivate_on pvt c channel).chans ≡ remove_call c.address pvt.chans
unfolding disactivate_on
disactivate_on-remaining pvt c none = refl
disactivate_on-remaining pvt c (some channel) = elim (Bool-cases c.flags.activated) [
  | inl e ↦ rw e (remove_call-update_call c.address (set_served false) pvt.chans (λ d. refl))
  | inr e ↦ rw e refl
]

-- What a new state does to the list, apart from the end of the call.
inform-AreLive :
    (pvt : Pvt) (c : Cpvt) (oldstate newstate : CallState) (cause : ℕ) (channel : Option ℕ)
    → same_state call_released newstate ≡ false
    → AreLive pvt
    → AreLive (inform pvt c oldstate newstate cause channel)
unfolding inform activate_call disactivate_call
inform-AreLive pvt c oldstate call_released cause channel n h = absurd (true≢false n)
inform-AreLive pvt c oldstate call_active cause none n h = h
inform-AreLive pvt c oldstate call_onhold cause none n h = h
inform-AreLive pvt c oldstate call_dialing cause none n h = h
inform-AreLive pvt c oldstate call_alerting cause none n h = h
inform-AreLive pvt c oldstate call_incoming cause none n h = h
inform-AreLive pvt c oldstate call_waiting cause none n h = h
inform-AreLive pvt c oldstate call_init cause none n h = h
inform-AreLive pvt c oldstate call_active cause (some channel) n h =
    activate_unless-AreLive c.flags.master pvt c h
inform-AreLive pvt c oldstate call_dialing cause (some channel) n h =
    activate_unless-AreLive c.flags.master pvt c h
inform-AreLive pvt c oldstate call_alerting cause (some channel) n h =
    activate_unless-AreLive c.flags.master pvt c h
inform-AreLive pvt c oldstate call_onhold cause (some channel) n h =
    disactivate_on-AreLive pvt c c.channel h
inform-AreLive pvt c oldstate call_incoming cause (some channel) n h = h
inform-AreLive pvt c oldstate call_waiting cause (some channel) n h = h
inform-AreLive pvt c oldstate call_init cause (some channel) n h = h

-- The end of a call takes it out.
inform_released-AreLive :
    (pvt : Pvt) (c : Cpvt) (oldstate : CallState) (cause : ℕ) (channel : Option ℕ)
    → All IsLive (remove_call c.address pvt.chans)
    → AreLive (inform pvt c oldstate call_released cause channel)
unfolding inform disactivate_call
inform_released-AreLive pvt c oldstate cause none h = cpvt_free-AreLive pvt c.address h
inform_released-AreLive pvt c oldstate cause (some channel) h =
    cpvt_free-AreLive (ask (disactivate_on pvt c c.channel) (unlinked channel ∷ [])) c.address
      (subst (All IsLive) (sym (disactivate_on-remaining pvt c c.channel)) h)

enter_state-AreLive :
    (pvt : Pvt) (c : Cpvt) (state : CallState)
    → same_state call_released state ≡ false
    → AreLive pvt
    → AreLive (enter_state pvt c state)
unfolding enter_state
enter_state-AreLive pvt c state n h =
    update_call-IsLive c.address (λ d. record d { state = state }) pvt.chans (λ d l. n) h

enter_released-IsLive :
    (pvt : Pvt) (c : Cpvt)
    → AreLive pvt
    → All IsLive (remove_call c.address (enter_state pvt c call_released).chans)
unfolding enter_state
enter_released-IsLive pvt c h =
    subst (All IsLive)
      (sym (
        remove_call-update_call c.address (λ d. record d { state = call_released }) pvt.chans
          (λ d. refl)))
      (remove_call-All IsLive c.address pvt.chans h)

same_released : (s : CallState) → same_state call_released s ≡ true → s ≡ call_released
same_released call_released e = refl
same_released call_active e = absurd (true≢false (sym e))
same_released call_onhold e = absurd (true≢false (sym e))
same_released call_dialing e = absurd (true≢false (sym e))
same_released call_alerting e = absurd (true≢false (sym e))
same_released call_incoming e = absurd (true≢false (sym e))
same_released call_waiting e = absurd (true≢false (sym e))
same_released call_init e = absurd (true≢false (sym e))

change_found-AreLive :
    (pvt : Pvt) (o : Option Cpvt) (newstate : CallState) (cause : ℕ)
    → AreLive pvt
    → AreLive (change_found pvt o newstate cause)
unfolding change_found
change_found-AreLive pvt none newstate cause h = h
change_found-AreLive pvt (some c) newstate cause h =
    elim (Bool-cases (same_state newstate c.state)) [
      | inl e ↦ rw e h
      | inr e ↦ rw e (entered newstate)
    ]
  where
    entered :
        (s : CallState)
        → AreLive (inform (enter_state pvt c s) (record c { state = s }) c.state s cause c.channel)
    entered s = elim (Bool-cases (same_state call_released s)) [
      | inl y ↦
          subst
            (λ s.
              AreLive
                (inform (enter_state pvt c s) (record c { state = s }) c.state s cause c.channel))
            (sym (same_released s y))
            (inform_released-AreLive (enter_state pvt c call_released)
              (record c { state = call_released }) c.state cause c.channel
              (enter_released-IsLive pvt c h))
      | inr n ↦
          inform-AreLive (enter_state pvt c s) (record c { state = s }) c.state s cause c.channel n
            (enter_state-AreLive pvt c s n h)
    ]

pub change_channel_state-AreLive :
    (pvt : Pvt) (p : ℕ) (newstate : CallState) (cause : ℕ)
    → AreLive pvt
    → AreLive (change_channel_state pvt p newstate cause)
unfolding change_channel_state
change_channel_state-AreLive pvt p newstate cause h =
    change_found-AreLive pvt (find_call p pvt.chans) newstate cause h
