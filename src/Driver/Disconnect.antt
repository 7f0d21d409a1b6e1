-- ===== src/Driver/Disconnect.antt =====
-- Disconnecting a device ends all its calls.
use datacard.Base.{
  ℕ, ◌≡◌, refl, ap, sym, ◌∙◌, Bool, true, false, List, [], ◌∷◌, none, none≢some, ==_iff, All,
  if◌then◌else◌, length,
}
use datacard.AtQueue.{at_write}
use datacard.AtQueue.Remove.{flush-empty}
use datacard.MixBuffer.Streams.{occurrences}
use datacard.Calls.{
  call_released, Cpvt, Pvt, find_call, update_call, no_chans, on_remove_last_channel,
}
use datacard.Calls.ChangeState.{change_channel_state-IsValid}
use datacard.Calls.Live.{IsLive}
use datacard.Calls.Release.{change_channel_state-head, find_call-head, update_call-head}
use datacard.Calls.Mark.{set_flags-IsValid}
use datacard.Calls.Total.{total}
use datacard.Calls.Valid.{IsValid, serves, empty_of_length}
use datacard.Commands.{Env, World}
use datacard.Commands.OfCall.{hangup_immediality}
use datacard.Driver.{unmark_hangup, release_one, release_all, close_device, disconnect_datacard}

-- What is left once a device is disconnected.
pub record Disconnected (pvt : Pvt) : Type 0 where
  pub valid : IsValid pvt
  pub no_calls : pvt.chans ≡ []
  pub no_number : pvt.chansno ≡ 0
  pub no_tasks : pvt.queue.at_queue ≡ []
  pub not_dialed : pvt.last_dialed ≡ none
  pub no_streams : (p : ℕ) → occurrences p pvt.a_write_mixb.streams ≡ 0

release_one-chans :
    (env : Env) (w : World) (c : Cpvt) (cs : List Cpvt)
    → w.pvt.chans ≡ c ∷ cs
    → IsLive c
    → (release_one env w c).pvt.chans ≡ cs
unfolding release_one hangup_immediality
release_one-chans env w c cs e live =
    change_channel_state-head _ (unmark_hangup c) cs 0
      (ap (update_call c.address unmark_hangup) e
        ∙ update_call-head c.address unmark_hangup c cs refl)
      live

release_all-chans :
    (env : Env) (cs : List Cpvt) (w : World)
    → w.pvt.chans ≡ cs
    → All IsLive cs
    → (release_all env cs w).pvt.chans ≡ []
unfolding release_all
release_all-chans env [] w e live = e
release_all-chans env (c ∷ cs) w e live =
    release_all-chans env cs (release_one env w c) (release_one-chans env w c cs e live.0) live.1

quiet-IsValid :
    (env : Env) (w : World) (c : Cpvt) → IsValid w.pvt → IsValid (hangup_immediality env w c).pvt
unfolding hangup_immediality at_write
quiet-IsValid env w c v = record {
  counted = v.counted;
  linked = v.linked;
  pointed = record {
    last_dialed = v.pointed.last_dialed;
    owners = v.pointed.owners;
    streams = v.pointed.streams;
    closed = v.pointed.closed;
  };
  queue = record {
    tasks = v.queue.tasks;
    at_tasks = v.queue.at_tasks;
    at_cmds = v.queue.at_cmds;
    small = v.queue.small;
  };
}

release_one-IsValid :
    (env : Env) (w : World) (c : Cpvt) (cs : List Cpvt)
    → w.pvt.chans ≡ c ∷ cs
    → IsValid w.pvt
    → IsValid (release_one env w c).pvt
unfolding release_one hangup_immediality
release_one-IsValid env w c cs e v = change_channel_state-IsValid _ c.address call_released 0 (
    set_flags-IsValid (hangup_immediality env w c).pvt c.address c
      (λ g. record g { need_hangup = false }) refl refl
      (ap (find_call c.address) e ∙ find_call-head c cs) (quiet-IsValid env w c v))

release_all-IsValid :
    (env : Env) (cs : List Cpvt) (w : World)
    → w.pvt.chans ≡ cs
    → All IsLive cs
    → IsValid w.pvt
    → IsValid (release_all env cs w).pvt
unfolding release_all
release_all-IsValid env [] w e live v = v
release_all-IsValid env (c ∷ cs) w e live v =
    release_all-IsValid env cs (release_one env w c) (release_one-chans env w c cs e live.0) live.1
      (release_one-IsValid env w c cs e v)

-- Closing a device that has no calls.
close_device-Disconnected :
    (pvt : Pvt) → pvt.chans ≡ [] → IsValid pvt → Disconnected (close_device pvt)
unfolding close_device on_remove_last_channel
close_device-Disconnected pvt e v =
    let (queue, empty, no_tasks, no_cmds) = flush-empty pvt.queue v.queue in
    let streams : (p : ℕ) → occurrences p pvt.a_write_mixb.streams ≡ 0 =
      λ p. v.pointed.streams p ∙ ap (total (serves p)) e in
    record {
      valid = record {
        counted = v.counted;
        linked = v.linked;
        pointed = record {
          last_dialed = λ p n. absurd (none≢some n);
          owners = rw empty tt;
          streams = v.pointed.streams;
          closed = λ n. e;
        };
        queue = record {
          tasks = queue.tasks;
          at_tasks = queue.at_tasks;
          at_cmds = queue.at_cmds;
          small = queue.small;
        };
      };
      no_calls = e;
      no_number = v.counted.exact ∙ ap length e;
      no_tasks = empty;
      not_dialed = refl;
      no_streams = streams;
    }

-- Disconnecting a device whose calls are all live, and keep what is true of calls, ends each of them,
-- whatever the device does with the last commands: no call, no task and no stream of the mix buffer
-- is left, no call is the last dialed one, and what holds of the calls still does.
pub disconnect_datacard-Disconnected :
    (env : Env) (w : World)
    → All IsLive w.pvt.chans
    → IsValid w.pvt
    → Disconnected (disconnect_datacard env w).pvt
unfolding disconnect_datacard
disconnect_datacard-Disconnected env w live v =
    close_device-Disconnected _ (released-chans (no_chans w.pvt) refl)
      (released-IsValid (no_chans w.pvt))
  where
    released : Bool → World
    released none_left = if none_left then w else release_all env w.pvt.chans w

    released-chans : (b : Bool) → no_chans w.pvt ≡ b → (released b).pvt.chans ≡ []
    released-chans true e =
        empty_of_length w.pvt.chans (sym v.counted.exact ∙ (==_iff w.pvt.chansno 0).0 e)
    released-chans false e = release_all-chans env w.pvt.chans w refl live

    released-IsValid : (b : Bool) → IsValid (released b).pvt
    released-IsValid true = v
    released-IsValid false = release_all-IsValid env w.pvt.chans w refl live v
