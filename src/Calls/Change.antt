-- ===== src/Calls/Change.antt =====
-- channel.c: making a call the one that the audio port serves, taking it off, changing its state, and
-- making the channel of a new call. The events of the manager interface are left out.
use datacard.Base.{
  ℕ, Bool, true, false, not, ◌&&◌, List, [], ◌∷◌, ◌++◌, map, Option, none, some, ◌==◌,
  if◌then◌else◌,
}
use datacard.MixBuffer
use datacard.Calls.{
  CallState, call_active, call_onhold, call_dialing, call_alerting, call_incoming, call_waiting,
  call_released, call_init, Direction, outgoing, incoming, Cpvt, progress, ringing, unhold, hold,
  answer, ast_dialing, ast_ringing, ast_up, Asked, digit_reset, fd_set, pipe_set, timer_set, queued,
  state_set, unlinked, hung_up, Pvt, same_state, ask, count_up, count_down, cpvt_alloc, find_call,
  update_call, cpvt_free, points_to,
}

-- CPVT_SET_FLAGS and CPVT_RESET_FLAGS with the flags of `activate_call` and `disactivate_call`
abbrev pub set_master : Bool → Cpvt → Cpvt
set_master b c = record c { flags = record c.flags { master = b } }

abbrev pub set_served : Bool → Cpvt → Cpvt
set_served b c = record c { flags = record c.flags { activated = b; master = b } }

-- `disactivate_call`, on the call's channel
unfoldable pub disactivate_on : Pvt → Cpvt → Option ℕ → Pvt
disactivate_on pvt c none = pvt
disactivate_on pvt c (some channel) =
    if c.flags.activated
    then record pvt {
      a_write_mixb = MixBuffer.detach pvt.a_write_mixb c.address;
      chans = update_call c.address (set_served false) pvt.chans;
      asked = pvt.asked ++ (fd_set channel 1 none ∷ fd_set channel 0 none ∷ []);
    }
    else pvt

unfoldable pub disactivate_call : Pvt → Cpvt → Pvt
unfolding disactivate_on
disactivate_call pvt c = disactivate_on pvt c c.channel

-- The end of `channel_hangup`: the call is left without its stream and its channel.
abbrev pub drop_channel : Pvt → Cpvt → Pvt
drop_channel pvt c =
    let freed = disactivate_call pvt c in
    record freed { chans = update_call c.address (λ d. record d { channel = none }) freed.chans }

-- What `channel_fixup` does to the call.
abbrev pub exchange : ℕ → ℕ → Cpvt → Cpvt
exchange old new c = if points_to c.channel old then record c { channel = some new } else c

-- The loop of `activate_call` over the other calls.
abbrev pub demote : ℕ → Cpvt → Cpvt
demote p c = if c.address == p then c else set_master false c

-- The test of CALL_FLAG_ACTIVATED looks at the call that is activated.
demote_asked : Cpvt → Cpvt → Option ℕ → List Asked
demote_asked c other none = []
demote_asked c other (some channel) =
    fd_set channel 1 none ∷ (if c.flags.activated then pipe_set channel other.address ∷ [] else [])

demote_all_asked : Cpvt → List Cpvt → List Asked
unfolding demote_asked
demote_all_asked c [] = []
demote_all_asked c (other ∷ rest) =
    (if other.address == c.address then [] else demote_asked c other other.channel)
    ++ demote_all_asked c rest

abbrev serve_asked : Option ℕ → ℕ → Bool → List Asked
serve_asked none fd timer = []
serve_asked (some channel) fd timer =
    fd_set channel 0 (some fd) ∷ (if timer then timer_set channel ∷ [] else [])

-- The part of `activate_call` for an audio port that is open.
unfoldable pub serve : Pvt → Cpvt → Option ℕ → Pvt
serve pvt c none = pvt
serve pvt c (some fd) = record pvt {
  chans = update_call c.address (set_served true) pvt.chans;
  dtmf_digit = 0;
  asked =
      pvt.asked
      ++ (serve_asked c.channel fd pvt.a_timer ++ (if pvt.dsp then digit_reset ∷ [] else []));
}

-- The part of `activate_call` before the audio port is looked at.
unfoldable pub take_over : Pvt → Cpvt → Pvt
unfolding demote_all_asked
take_over pvt c = record pvt {
  chans = map (demote c.address) pvt.chans;
  asked = pvt.asked ++ demote_all_asked c pvt.chans;
  a_write_mixb =
      if c.flags.activated then pvt.a_write_mixb else MixBuffer.attach pvt.a_write_mixb c.address;
}

-- `activate_call`, with the test of CALL_FLAG_MASTER
unfoldable pub activate_unless : Bool → Pvt → Cpvt → Pvt
unfolding serve take_over
activate_unless true pvt c = pvt
activate_unless false pvt c = serve (take_over pvt c) c pvt.audio_fd

unfoldable pub activate_call : Pvt → Cpvt → Pvt
unfolding activate_unless
activate_call pvt c = activate_unless c.flags.master pvt c

-- The states from which `pvt->dialing`, `pvt->ring` and `pvt->cwaiting` are cleared.
abbrev pub is_dialing : CallState → Bool
is_dialing call_init = true
is_dialing call_dialing = true
is_dialing call_alerting = true
is_dialing _ = false

abbrev pub is_settled : CallState → Bool
is_settled call_active = true
is_settled call_released = true
is_settled _ = false

-- What `change_channel_state` does to the counters and bits of the device.
unfoldable pub enter_state : Pvt → Cpvt → CallState → Pvt
enter_state pvt c newstate = record pvt {
  chans = update_call c.address (λ d. record d { state = newstate }) pvt.chans;
  chan_count = count_up (count_down pvt.chan_count c.state) newstate;
  dialing = pvt.dialing && not (is_settled newstate && is_dialing c.state);
  ring = pvt.ring && not (is_settled newstate && same_state c.state call_incoming);
  cwaiting = pvt.cwaiting && not (is_settled newstate && same_state c.state call_waiting);
}

-- `queue_control_channel` or `ast_setstate` on a call that becomes active.
abbrev pub activated_asked : CallState → Direction → ℕ → Asked
activated_asked call_onhold dir channel = queued channel unhold
activated_asked _ outgoing channel = queued channel answer
activated_asked _ incoming channel = state_set channel ast_up

-- What `change_channel_state` does to the channel; `oldstate` is the state before.
unfoldable pub inform : Pvt → Cpvt → CallState → CallState → ℕ → Option ℕ → Pvt
inform pvt c oldstate call_released cause none = cpvt_free pvt c.address
inform pvt c oldstate newstate cause none = pvt
inform pvt c oldstate call_dialing cause (some channel) =
    ask (activate_call pvt c) (queued channel progress ∷ state_set channel ast_dialing ∷ [])
inform pvt c oldstate call_alerting cause (some channel) =
    ask (activate_call pvt c) (queued channel ringing ∷ state_set channel ast_ringing ∷ [])
inform pvt c oldstate call_active cause (some channel) =
    ask (activate_call pvt c) (activated_asked oldstate c.dir channel ∷ [])
inform pvt c oldstate call_onhold cause (some channel) =
    ask (disactivate_call pvt c) (queued channel hold ∷ [])
inform pvt c oldstate call_released cause (some channel) =
    ask (cpvt_free (ask (disactivate_call pvt c) (unlinked channel ∷ [])) c.address)
      (hung_up channel cause ∷ [])
inform pvt c oldstate call_incoming cause (some channel) = pvt
inform pvt c oldstate call_waiting cause (some channel) = pvt
inform pvt c oldstate call_init cause (some channel) = pvt

unfoldable pub change_found : Pvt → Option Cpvt → CallState → ℕ → Pvt
unfolding inform enter_state
change_found pvt none newstate cause = pvt
change_found pvt (some c) newstate cause =
    if same_state newstate c.state
    then pvt
    else inform (enter_state pvt c newstate) (record c { state = newstate }) c.state newstate cause
        c.channel

-- `change_channel_state`
unfoldable pub change_channel_state : Pvt → ℕ → CallState → ℕ → Pvt
unfolding change_found
change_channel_state pvt p newstate cause = change_found pvt (find_call p pvt.chans) newstate cause

-- `new_channel`: `channel` is what `ast_channel_alloc` returns.
unfoldable pub link_channel : Option ℕ × Pvt → Option ℕ → Option ℕ × Pvt
link_channel (none, pvt) channel = (none, pvt)
link_channel (some p, pvt) none = (none, cpvt_free pvt p)
link_channel (some p, pvt) (some channel) = (
  some channel,
  record pvt { chans = update_call p (λ d. record d { channel = some channel }) pvt.chans },
)

unfoldable pub new_channel : Pvt → Option ℕ → Option ℕ → ℕ → Direction → CallState → Option ℕ × Pvt
unfolding link_channel
new_channel pvt address channel call_idx dir state =
    link_channel (cpvt_alloc pvt address call_idx dir state) channel
