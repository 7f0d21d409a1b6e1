-- ===== src/Calls/Tests.antt =====
-- A device without calls, and the first call of it.
use datacard.Base.{
  ℕ, ◌≡◌, ◌≤◌, ◌<◌, ◌⊎◌, refl, sym, true, false, not, ◌&&◌, ◌||◌, [], none, some, none≢some, arith,
}
use datacard.MixBuffer.{MixBuffer}
use datacard.AtQueue
use datacard.Calls.{
  call_active, call_alerting, call_dialing, call_init, call_released, outgoing, Cpvt, Pvt,
  dev_started, time_convenient, no_flags, cpvt_alloc, cpvt_free, unlink_call, drop_call,
  try_restate, time4restate, on_create_1st_channel, on_remove_last_channel, find_call, update_call,
}
use datacard.Calls.Alloc.{Unreferenced, cpvt_alloc-IsValid, cpvt_free-Unreferenced}
use datacard.Calls.Change.{
  change_channel_state, change_found, inform, enter_state, activate_call, activate_unless,
  take_over, serve, disactivate_call, disactivate_on, new_channel, link_channel, exchange,
}
use datacard.Calls.Dial.{
  is_dial_possible2, all_allow, none_active, none_held, is_dial_possible2-allows,
  get_pseudo_call_idx, get_pseudo_call_idx-least, Used,
}
use datacard.Calls.Live.{AreLive}
use datacard.Calls.Reach.{here, next, created, changed, fixed_up, Steps-IsValid}
use datacard.Calls.Valid.{IsValid}

abbrev pub no_tasks : AtQueue.Pvt
no_tasks = record {
  at_queue = [];
  at_tasks = 0;
  at_cmds = 0;
  stat_at_tasks = 0;
  stat_at_cmds = 0;
  d_write_bytes = 0;
  freed = [];
}

abbrev pub silence : MixBuffer
silence = record {
  streams = [];
  store = λ p. record { used = 0; write = 0 };
  rb = record { buffer = []; size = 0; used = 0; read = 0; write = 0 };
  attached = 0;
}

-- A device that is ready and has no calls.
abbrev pub idle : Pvt
idle = record {
  queue = no_tasks;
  chans = [];
  last_dialed = none;
  audio_fd = some 5;
  dsp = true;
  a_timer = false;
  a_write_buf = [];
  a_write_mixb = silence;
  dtmf_digit = 0;
  gsm_registered = true;
  connected = true;
  initialized = true;
  has_voice = true;
  dialing = false;
  ring = false;
  cwaiting = false;
  outgoing_sms = false;
  incoming_sms = false;
  desired_state = dev_started;
  restart_time = time_convenient;
  current_state = dev_started;
  chansno = 0;
  chan_count = λ s. 0;
  asked = [];
}

pub idle-IsValid : IsValid idle
idle-IsValid = record {
  counted = record { small = omega arith; exact = refl; by_state = λ s. refl };
  linked = record { distinct = tt; proper = λ m. m.1; one_master = omega arith; unserved = tt };
  pointed = record {
    last_dialed = λ p e. absurd (none≢some e);
    owners = tt;
    streams = λ p. refl;
    closed = λ e. refl;
  };
  queue = record { tasks = tt; at_tasks = refl; at_cmds = refl; small = omega arith };
}

abbrev call : Cpvt
call = record {
  address = 7;
  channel = none;
  call_idx = 1;
  state = call_init;
  flags = no_flags;
  dir = outgoing;
}

abbrev with_call : Pvt
with_call = (cpvt_alloc idle (some 7) 1 outgoing call_init).1

with_call-IsValid : IsValid with_call
with_call-IsValid =
    cpvt_alloc-IsValid idle 7 1 outgoing call_init (λ e. absurd (omega (arith, e))) (λ m. m.1)
      (λ e. none≢some (sym e)) (omega arith) idle-IsValid

found_call : find_call 7 with_call.chans ≡ some call
unfolding cpvt_alloc
found_call = refl

cpvt_free-Unreferenced_example : Unreferenced 7 (cpvt_free with_call 7)
cpvt_free-Unreferenced_example =
    cpvt_free-Unreferenced with_call 7 call found_call refl with_call-IsValid

-- An outgoing call from its start.
abbrev made : Pvt
made = (new_channel idle (some 7) (some 3) 1 outgoing call_init).1

made_call : find_call 7 made.chans ≡ some (record call { channel = some 3 })
unfolding new_channel link_channel cpvt_alloc
made_call = refl

-- Its channel is replaced.
abbrev moved : Pvt
moved = record made { chans = update_call 7 (exchange 3 4) made.chans }

abbrev ringing : Pvt
ringing = change_channel_state (change_channel_state moved 7 call_dialing 0) 7 call_alerting 0

abbrev over : Pvt
over = change_channel_state (change_channel_state ringing 7 call_active 0) 7 call_released 16

Steps-IsValid_example : IsValid over × AreLive over
Steps-IsValid_example = Steps-IsValid idle-IsValid tt (
    next
      (next
        (next
          (next
            (next
              (next here (
                created 7 (some 3) 1 outgoing call_init (λ e. absurd (omega (arith, e))) (λ m. m.1)
                  (λ e. none≢some (sym e)) (omega arith) refl))
              (fixed_up 7 (record call { channel = some 3 }) 3 4 made_call))
            (changed 7 call_dialing 0))
          (changed 7 call_alerting 0))
        (changed 7 call_active 0))
      (changed 7 call_released 16))

-- The call is counted, and then it is gone.
alerting_calls : ringing.chan_count call_alerting ≡ 1
unfolding new_channel link_channel cpvt_alloc change_channel_state change_found inform enter_state
    activate_call activate_unless take_over serve on_create_1st_channel
alerting_calls = refl

over_chansno : over.chansno ≡ 0
unfolding new_channel link_channel cpvt_alloc change_channel_state change_found inform enter_state
    activate_call activate_unless take_over serve disactivate_call disactivate_on cpvt_free
    unlink_call drop_call try_restate on_remove_last_channel on_create_1st_channel time4restate
over_chansno = refl

is_dial_possible2-allows_example : is_dial_possible2 with_call true none ≡ (
    not with_call.ring
    && not with_call.cwaiting
    && not with_call.dialing
    && all_allow true none with_call.chans
    && (none_active with_call.chans || none_held with_call.chans))
is_dial_possible2-allows_example = is_dial_possible2-allows with_call true none

get_pseudo_call_idx-least_example :
    let r = get_pseudo_call_idx with_call in
    ((r ≡ 0) × ((j : ℕ) → 1 ≤ j → j ≤ 31 → Used j with_call.chans))
    ⊎ ((1 ≤ r)
        × (r ≤ 31)
        × ¬ Used r with_call.chans
        × ((j : ℕ) → 1 ≤ j → j < r → Used j with_call.chans))
get_pseudo_call_idx-least_example = get_pseudo_call_idx-least with_call
