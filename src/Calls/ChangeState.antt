-- ===== src/Calls/ChangeState.antt =====
-- `change_channel_state` and `new_channel` keep what holds of the calls.
use datacard.Base.{
  refl, none≢some, Bool-cases, inl, inr, ℕ, ◌+◌, ◌≡◌, ◌<◌, ◌^◌, sym, ◌∙◌, false, List, [], ◌∷◌,
  Option, none, some, arith, In, subst, length,
}
use datacard.Calls.{
  CallState, call_active, call_onhold, call_dialing, call_alerting, call_incoming, call_waiting,
  call_released, call_init, Asked, unlinked, hung_up, ask, cpvt_free, Direction, same_state, Cpvt,
  Pvt, sys_chan, count_up, count_down, find_call, update_call,
}
use datacard.Calls.Alloc.{cpvt_free-IsValid, cpvt_alloc-IsValid, cpvt_alloc-call, cpvt_alloc-some}
use datacard.Calls.Change.{
  inform, change_found, change_channel_state, disactivate_call, new_channel, link_channel,
  enter_state,
}
use datacard.Calls.Total.{
  find_call-address, find_call-update_self, addresses, total-update_call, addresses-update_call,
  length-update_call, find_call-All,
}
use datacard.Calls.Mark.{set_channel-IsValid}
use datacard.Calls.Valid.{in_state, serves, Counted, IsValid}
use datacard.Calls.Update.{Linked-update, Pointed-addresses}
use datacard.Calls.Activate.{
  opened_of, activate_call-IsValid, disactivate_call-IsValid, disactivate_call-idle,
}

-- The counters follow a change of state.
Counted-enter :
    {chans : List Cpvt} {chansno : ℕ} {counts : CallState → ℕ} (c : Cpvt) (state : CallState)
    → find_call c.address chans ≡ some c
    → Counted chans chansno counts
    → Counted
        (update_call c.address (λ d. record d { state = state }) chans)
        chansno
        (count_up (count_down counts c.state) state)
Counted-enter {chans} c state found v = record {
  small = rw (length-update_call c.address (λ d. record d { state = state }) chans) v.small;
  exact = v.exact ∙ sym (length-update_call c.address (λ d. record d { state = state }) chans);
  by_state = λ s. ground (
    arith,
    v.by_state s,
    total-update_call (in_state s) c.address (λ d. record d { state = state }) c chans found,
  );
}

pub enter_state-IsValid :
    (pvt : Pvt) (c : Cpvt) (state : CallState)
    → find_call c.address pvt.chans ≡ some c
    → IsValid pvt
    → IsValid (enter_state pvt c state)
unfolding enter_state
enter_state-IsValid pvt c state found v = record {
  counted = Counted-enter c state found v.counted;
  linked =
      Linked-update c.address (λ d. record d { state = state }) c (λ d. refl) found
        (omega (arith, v.linked.one_master))
        (find_call-All (λ d. d.channel ≡ none → d.flags.activated ≡ false) c.address c pvt.chans
          v.linked.unserved found)
        v.linked;
  pointed =
      Pointed-addresses
        (addresses-update_call c.address (λ d. record d { state = state }) pvt.chans (λ d. refl))
        (opened_of pvt c.address c v found)
        (λ q. omega (
          arith,
          v.pointed.streams q,
          total-update_call (serves q) c.address (λ d. record d { state = state }) c pvt.chans
              found,
        ))
        v.pointed;
  queue = v.queue;
}

pub ask-IsValid : (pvt : Pvt) (calls : List Asked) → IsValid pvt → IsValid (ask pvt calls)
ask-IsValid pvt calls v = record {
  counted = v.counted;
  linked = v.linked;
  pointed = v.pointed;
  queue = v.queue;
}

-- The end of a call, with or without its channel, frees it.
released-IsValid :
    (pvt : Pvt) (c : Cpvt) (cause channel : ℕ)
    → find_call c.address pvt.chans ≡ some c
    → c.channel ≡ some channel
    → IsValid pvt
    → IsValid (
        ask
          (cpvt_free (ask (disactivate_call pvt c) (unlinked channel ∷ [])) c.address)
          (hung_up channel cause ∷ []))
released-IsValid pvt c cause channel found linked v =
    let (d, here, idle) = disactivate_call-idle pvt c found v in
    ask-IsValid _ _ (
      cpvt_free-IsValid _ c.address d here idle
        (ask-IsValid _ _ (disactivate_call-IsValid pvt c found v)))

inform-IsValid :
    (pvt : Pvt) (c : Cpvt) (oldstate newstate : CallState) (cause : ℕ) (channel : Option ℕ)
    → find_call c.address pvt.chans ≡ some c
    → c.channel ≡ channel
    → IsValid pvt
    → IsValid (inform pvt c oldstate newstate cause channel)
unfolding inform
inform-IsValid pvt c oldstate call_released cause none found e v =
    cpvt_free-IsValid pvt c.address c found
      (find_call-All (λ d. d.channel ≡ none → d.flags.activated ≡ false) c.address c pvt.chans
        v.linked.unserved found e)
      v
inform-IsValid pvt c oldstate call_active cause none found e v = v
inform-IsValid pvt c oldstate call_onhold cause none found e v = v
inform-IsValid pvt c oldstate call_dialing cause none found e v = v
inform-IsValid pvt c oldstate call_alerting cause none found e v = v
inform-IsValid pvt c oldstate call_incoming cause none found e v = v
inform-IsValid pvt c oldstate call_waiting cause none found e v = v
inform-IsValid pvt c oldstate call_init cause none found e v = v
inform-IsValid pvt c oldstate call_dialing cause (some channel) found e v =
    ask-IsValid _ _ (activate_call-IsValid pvt c found (λ n. none≢some (sym n ∙ e)) v)
inform-IsValid pvt c oldstate call_alerting cause (some channel) found e v =
    ask-IsValid _ _ (activate_call-IsValid pvt c found (λ n. none≢some (sym n ∙ e)) v)
inform-IsValid pvt c oldstate call_active cause (some channel) found e v =
    ask-IsValid _ _ (activate_call-IsValid pvt c found (λ n. none≢some (sym n ∙ e)) v)
inform-IsValid pvt c oldstate call_onhold cause (some channel) found e v =
    ask-IsValid _ _ (disactivate_call-IsValid pvt c found v)
inform-IsValid pvt c oldstate call_released cause (some channel) found e v =
    released-IsValid pvt c cause channel found e v
inform-IsValid pvt c oldstate call_incoming cause (some channel) found e v = v
inform-IsValid pvt c oldstate call_waiting cause (some channel) found e v = v
inform-IsValid pvt c oldstate call_init cause (some channel) found e v = v

change_found-IsValid :
    (pvt : Pvt) (p : ℕ) (o : Option Cpvt) (newstate : CallState) (cause : ℕ)
    → find_call p pvt.chans ≡ o
    → IsValid pvt
    → IsValid (change_found pvt o newstate cause)
unfolding change_found
change_found-IsValid pvt p none newstate cause found v = v
change_found-IsValid pvt p (some c) newstate cause found v =
    elim (Bool-cases (same_state newstate c.state)) [
      | inl e ↦ rw e v
      | inr e ↦ rw e (
          inform-IsValid _ (record c { state = newstate }) c.state newstate cause c.channel
            (find_call-update_self c.address (λ d. record d { state = newstate }) c pvt.chans
              (λ d. refl) here)
            refl (enter_state-IsValid pvt c newstate here v))
    ]
  where
    here : find_call c.address pvt.chans ≡ some c
    here =
        subst (λ q. find_call q pvt.chans ≡ some c) (sym (find_call-address p c pvt.chans found))
          found

-- Any change of state keeps the invariant, the end of a call included.
pub change_channel_state-IsValid :
    (pvt : Pvt) (p : ℕ) (newstate : CallState) (cause : ℕ)
    → IsValid pvt
    → IsValid (change_channel_state pvt p newstate cause)
unfolding change_channel_state
change_channel_state-IsValid pvt p newstate cause v =
    change_found-IsValid pvt p (find_call p pvt.chans) newstate cause refl v

link_channel-IsValid :
    (pvt : Pvt) (p : ℕ) (channel : Option ℕ) (c : Cpvt)
    → find_call p pvt.chans ≡ some c
    → c.flags.activated ≡ false
    → IsValid pvt
    → IsValid (link_channel (some p, pvt) channel).1
unfolding link_channel
link_channel-IsValid pvt p none c found idle v = cpvt_free-IsValid pvt p c found idle v
link_channel-IsValid pvt p (some channel) c found idle v =
    set_channel-IsValid pvt p (some channel) c (λ e. absurd (none≢some (sym e))) found v

-- A new call keeps the invariant, whether Asterisk gives a channel for it or not.
pub new_channel-IsValid :
    (pvt : Pvt) (address : ℕ) (channel : Option ℕ) (call_idx : ℕ) (dir : Direction)
    (state : CallState)
    → ¬ (address ≡ sys_chan)
    → ¬ In address (addresses pvt.chans)
    → ¬ (pvt.audio_fd ≡ none)
    → length pvt.chans + 1 < 2 ^ 32
    → IsValid pvt
    → IsValid (new_channel pvt (some address) channel call_idx dir state).1
unfolding new_channel
new_channel-IsValid pvt address channel call_idx dir state proper fresh opened small v =
    let w = cpvt_alloc-IsValid pvt address call_idx dir state proper fresh opened small v in
    let (c, found, idle) = cpvt_alloc-call pvt address call_idx dir state fresh in
    subst (λ r. IsValid (link_channel r channel).1)
      (sym (cpvt_alloc-some pvt address call_idx dir state))
      (link_channel-IsValid _ address channel c found idle w)
