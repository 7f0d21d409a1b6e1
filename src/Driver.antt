-- ===== src/Driver.antt =====
-- chan_datacard.c and channel.c: what is done with the calls of a device when a channel of Asterisk is
-- hung up or replaced, and when the device is disconnected.
pub mod Disconnect
mod Tests
use datacard.Base.{
  ℕ, Bool, true, false, not, ◌&&◌, List, [], ◌∷◌, ◌++◌, Option, none, some, ◌==◌, if◌then◌else◌,
}
use datacard.AtQueue
use datacard.Calls.{
  call_released, Cpvt, Pvt, dev_stopped, ast_down, state_set, unlinked, digit_reset, ports_closed,
  points_to, ask, no_chans, find_call, update_call, on_remove_last_channel,
}
use datacard.Calls.Change.{change_channel_state, drop_channel, exchange}
use datacard.Commands.{Env, World}
use datacard.Commands.OfCall.{enque_hangup, hangup_immediality}

abbrev pub with_pvt : World → Pvt → World
with_pvt w pvt = record w { pvt = pvt }

-- CPVT_RESET_FLAGS (cpvt, CALL_FLAG_NEED_HANGUP)
abbrev pub unmark_hangup : Cpvt → Cpvt
unmark_hangup c = record c { flags = record c.flags { need_hangup = false } }

-- The first part of `channel_hangup`.
unfoldable pub hang_up_needed : Env → World → Cpvt → World
hang_up_needed env w c =
    let (err, after) = enque_hangup env w c c.call_idx in
    if c.flags.need_hangup
    then (if err == 0
        then with_pvt after
            (record after.pvt { chans = update_call c.address unmark_hangup after.pvt.chans })
        else after)
    else w

unfoldable pub let_go : Env → World → Cpvt → Pvt
unfolding hang_up_needed
let_go env w c = drop_channel (hang_up_needed env w c).pvt c

-- `channel_hangup`; `tech_pvt` is the call that the channel points to.
unfoldable pub hangup_found : Env → World → Option Cpvt → ℕ → World
unfolding let_go
hangup_found env w none channel = w
hangup_found env w (some c) channel =
    if points_to c.channel channel then with_pvt w (let_go env w c) else w

unfoldable pub channel_hangup : Env → World → Option ℕ → ℕ → World
unfolding hangup_found
channel_hangup env w none channel =
    with_pvt w (ask w.pvt (unlinked channel ∷ state_set channel ast_down ∷ []))
channel_hangup env w (some p) channel =
    let after = hangup_found env w (find_call p w.pvt.chans) channel in
    with_pvt after (ask after.pvt (unlinked channel ∷ state_set channel ast_down ∷ []))

-- `channel_fixup`
unfoldable pub channel_fixup : Pvt → ℕ → ℕ → ℕ → Pvt
channel_fixup pvt p old new = record pvt { chans = update_call p (exchange old new) pvt.chans }

-- The loop of `disconnect_datacard`, over the calls that the list has at its start.
unfoldable pub release_one : Env → World → Cpvt → World
release_one env w c =
    let quiet = hangup_immediality env w c in
    with_pvt quiet (
      change_channel_state
        (record quiet.pvt { chans = update_call c.address unmark_hangup quiet.pvt.chans }) c.address
        call_released 0)

unfoldable pub release_all : Env → List Cpvt → World → World
unfolding release_one
release_all env [] w = w
release_all env (c ∷ cs) w = release_all env cs (release_one env w c)

-- The rest of `disconnect_datacard`, without the fields that are not modelled.
unfoldable pub close_device : Pvt → Pvt
close_device pvt =
    let closed = record pvt {
      queue = record (AtQueue.flush pvt.queue) {
        stat_at_tasks = 0;
        stat_at_cmds = 0;
        d_write_bytes = 0;
      };
      last_dialed = none;
      audio_fd = none;
      asked = pvt.asked ++ (ports_closed ∷ (if pvt.dsp then digit_reset ∷ [] else []));
    } in
    record (on_remove_last_channel closed) {
      dtmf_digit = 0;
      gsm_registered = false;
      has_voice = false;
      connected = false;
      initialized = false;
      dialing = false;
      ring = false;
      cwaiting = false;
      outgoing_sms = false;
      incoming_sms = false;
      current_state = dev_stopped;
    }

-- `disconnect_datacard`
unfoldable pub disconnect_datacard : Env → World → World
unfolding release_all close_device
disconnect_datacard env w =
    let released = if no_chans w.pvt then w else release_all env w.pvt.chans w in
    with_pvt released (close_device released.pvt)
