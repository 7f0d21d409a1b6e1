-- ===== src/Calls/Reach.antt =====
-- What happens to the calls of a device while it is connected, as steps in any order.
use datacard.Base.{
  arith, ℕ, ◌+◌, ◌^◌, ◌<◌, ◌≡◌, ◌⊎◌, Bool, false, List, Option, none, some, none≢some, All,
  All-append, In, length, subst, inl, inr, ◌∷◌,
}
use datacard.AtQueue
use datacard.AtQueue.{Timeval, Cmd, Task}
use datacard.AtQueue.Device.{Outcome}
use datacard.AtQueue.View
use datacard.AtQueue.View.{count_cmds}
use datacard.AtQueue.Calls.{insert-IsValid}
use datacard.AtQueue.Remove.{handle_result-respond, flush-empty}
use datacard.AtQueue.Write.{run-IsValid}
use datacard.AtQueue.Owners.{handle_result-AreOwned, run-AreOwned, insert-AreOwned, flush-AreOwned}
use datacard.Calls.{
  Asked, CallFlags, CallState, Cpvt, call_released, Direction, Pvt, sys_chan, same_state,
  cpvt_alloc, ask, find_call, update_call,
}
use datacard.Calls.Change.{change_channel_state, drop_channel, exchange, new_channel, link_channel}
use datacard.Calls.Mark.{drop_channel-IsValid, exchange-IsValid, set_flags-IsValid, set_idx-IsValid}
use datacard.Calls.ChangeState.{ask-IsValid, change_channel_state-IsValid, new_channel-IsValid}
use datacard.Calls.Live.{
  IsLive, AreLive, change_channel_state-AreLive, cpvt_free-AreLive, update_call-IsLive,
  disactivate_call-AreLive,
}
use datacard.Calls.Total.{some_injective, addresses, remove_call-All}
use datacard.Calls.Valid.{Owned, IsValid}

abbrev with_queue : Pvt → AtQueue.Pvt → Pvt
with_queue pvt queue = record pvt { queue = queue }

-- One event at the calls of a device. `created` is `new_channel`, `changed` is
-- `change_channel_state`; `queued`, `ran`, `answered` and `flushed` are the operations of the queue;
-- `dialed` is the answer to ATD, `originated` and `numbered` are ^ORIG; `flagged` is CPVT_SET_FLAGS or
-- CPVT_RESET_FLAGS apart from the two flags that `activate_call` sets; `dropped` is `channel_hangup`
-- behind its request to the device, `fixed_up` is `channel_fixup`, and `told` is a call of Asterisk.
pub data Step (pvt : Pvt) : Pvt → Type 0 where
  created :
      (address : ℕ) (channel : Option ℕ) (call_idx : ℕ) (dir : Direction) (state : CallState)
      → ¬ (address ≡ sys_chan)
      → ¬ In address (addresses pvt.chans)
      → ¬ (pvt.audio_fd ≡ none)
      → length pvt.chans + 1 < 2 ^ 32
      → same_state call_released state ≡ false
      → Step pvt (new_channel pvt (some address) channel call_idx dir state).1
  changed :
      (p : ℕ) (state : CallState) (cause : ℕ) → Step pvt (change_channel_state pvt p state cause)
  queued :
      (tvadd : Timeval → Timeval → Timeval) (device : ℕ → Outcome) (now : Timeval) (p : ℕ)
      (cmds : List Cmd) (athead allocated : Bool)
      → (p ≡ sys_chan) ⊎ In p (addresses pvt.chans)
      → length cmds + count_cmds pvt.queue.at_queue < 2 ^ 32
      → Step pvt (
          with_queue pvt
            (AtQueue.insert tvadd device now pvt.queue p cmds (length cmds) athead allocated).2)
  ran :
      (tvadd : Timeval → Timeval → Timeval) (device : ℕ → Outcome) (now : Timeval)
      → Step pvt (with_queue pvt (AtQueue.run tvadd device now pvt.queue).2)
  answered : (res : ℕ) → Step pvt (with_queue pvt (AtQueue.handle_result pvt.queue res))
  flushed : Step pvt (with_queue pvt (AtQueue.flush pvt.queue))
  dialed :
      (task : Task) (rest : List Task)
      → pvt.queue.at_queue ≡ task ∷ rest
      → ¬ (task.cpvt ≡ sys_chan)
      → Step pvt (record pvt { last_dialed = some task.cpvt })
  originated : Step pvt (record pvt { last_dialed = none })
  numbered :
      (p : ℕ) (c : Cpvt) (call_idx : ℕ)
      → find_call p pvt.chans ≡ some c
      → Step pvt
          (record pvt { chans = update_call p (λ d. record d { call_idx = call_idx }) pvt.chans })
  flagged :
      (p : ℕ) (c : Cpvt) (g : CallFlags → CallFlags)
      → find_call p pvt.chans ≡ some c
      → (g c.flags).activated ≡ c.flags.activated
      → (g c.flags).master ≡ c.flags.master
      → Step pvt
          (record pvt { chans = update_call p (λ d. record d { flags = g d.flags }) pvt.chans })
  dropped : (c : Cpvt) → find_call c.address pvt.chans ≡ some c → Step pvt (drop_channel pvt c)
  fixed_up :
      (p : ℕ) (c : Cpvt) (old new : ℕ)
      → find_call p pvt.chans ≡ some c
      → Step pvt (record pvt { chans = update_call p (exchange old new) pvt.chans })
  told : (calls : List Asked) → Step pvt (ask pvt calls)

pub data Steps (pvt : Pvt) : Pvt → Type 0 where
  here : Steps pvt pvt
  next : {b c : Pvt} → Steps pvt b → Step b c → Steps pvt c

with_queue-IsValid :
    (pvt : Pvt) (queue : AtQueue.Pvt)
    → View.IsValid queue
    → All (Owned pvt.chans) queue.at_queue
    → IsValid pvt
    → IsValid (with_queue pvt queue)
with_queue-IsValid pvt queue q o v = record {
  counted = v.counted;
  linked = v.linked;
  pointed = record {
    last_dialed = v.pointed.last_dialed;
    owners = o;
    streams = v.pointed.streams;
    closed = v.pointed.closed;
  };
  queue = q;
}

last_dialed-IsValid :
    (pvt : Pvt) (last : Option ℕ)
    → ((p : ℕ) → last ≡ some p → In p (addresses pvt.chans))
    → IsValid pvt
    → IsValid (record pvt { last_dialed = last })
last_dialed-IsValid pvt last h v = record {
  counted = v.counted;
  linked = v.linked;
  pointed = record {
    last_dialed = h;
    owners = v.pointed.owners;
    streams = v.pointed.streams;
    closed = v.pointed.closed;
  };
  queue = v.queue;
}

link_channel-AreLive :
    (pvt : Pvt) (p : ℕ) (channel : Option ℕ)
    → AreLive pvt
    → AreLive (link_channel (some p, pvt) channel).1
unfolding link_channel
link_channel-AreLive pvt p none h = cpvt_free-AreLive pvt p (remove_call-All IsLive p pvt.chans h)
link_channel-AreLive pvt p (some channel) h =
    update_call-IsLive p (λ d. record d { channel = some channel }) pvt.chans (λ d l. l) h

pub new_channel-AreLive :
    (pvt : Pvt) (address : ℕ) (channel : Option ℕ) (call_idx : ℕ) (dir : Direction)
    (state : CallState)
    → same_state call_released state ≡ false
    → AreLive pvt
    → AreLive (new_channel pvt (some address) channel call_idx dir state).1
unfolding new_channel cpvt_alloc
new_channel-AreLive pvt address channel call_idx dir state n h =
    link_channel-AreLive _ address channel (All-append IsLive pvt.chans _ h (n, tt))

step-IsValid : {a b : Pvt} → Step a b → IsValid a → IsValid b
step-IsValid (created address channel call_idx dir state proper fresh opened small n) v =
    new_channel-IsValid _ address channel call_idx dir state proper fresh opened small v
step-IsValid (changed p state cause) v = change_channel_state-IsValid _ p state cause v
step-IsValid {a} (queued tvadd device now p cmds athead allocated o h) v =
    with_queue-IsValid a _
      (insert-IsValid tvadd device now a.queue p cmds athead allocated v.queue h)
      (insert-AreOwned (λ q. (q ≡ sys_chan) ⊎ In q (addresses a.chans)) tvadd device now a.queue p
        cmds (length cmds) athead allocated o v.pointed.owners)
      v
step-IsValid {a} (ran tvadd device now) v =
    with_queue-IsValid a _ (run-IsValid tvadd device now a.queue v.queue)
      (run-AreOwned (λ q. (q ≡ sys_chan) ⊎ In q (addresses a.chans)) tvadd device now a.queue
        v.pointed.owners)
      v
step-IsValid {a} (answered res) v =
    with_queue-IsValid a _ (handle_result-respond a.queue res v.queue).0
      (handle_result-AreOwned (λ q. (q ≡ sys_chan) ⊎ In q (addresses a.chans)) a.queue res
        v.pointed.owners)
      v
step-IsValid {a} flushed v =
    with_queue-IsValid a _ (flush-empty a.queue v.queue).0
      (flush-AreOwned (λ q. (q ≡ sys_chan) ⊎ In q (addresses a.chans)) a.queue v.pointed.owners) v
step-IsValid {a} (dialed task rest e n) v =
    last_dialed-IsValid a (some task.cpvt)
      (λ q l.
        subst (λ r. In r (addresses a.chans)) (some_injective l)
          (elim (subst (All (Owned a.chans)) e v.pointed.owners).0 [
            | inl s ↦ absurd (n s)
            | inr m ↦ m
          ]))
      v
step-IsValid {a} originated v = last_dialed-IsValid a none (λ p e. absurd (none≢some e)) v
step-IsValid (numbered p c call_idx found) v = set_idx-IsValid _ p c call_idx found v
step-IsValid (flagged p c g found a m) v = set_flags-IsValid _ p c g a m found v
step-IsValid (dropped c found) v = drop_channel-IsValid _ c found v
step-IsValid (fixed_up p c old new found) v = exchange-IsValid _ p c old new found v
step-IsValid (told calls) v = ask-IsValid _ calls v

step-AreLive : {a b : Pvt} → Step a b → AreLive a → AreLive b
step-AreLive (created address channel call_idx dir state proper fresh opened small n) h =
    new_channel-AreLive _ address channel call_idx dir state n h
step-AreLive (changed p state cause) h = change_channel_state-AreLive _ p state cause h
step-AreLive (queued tvadd device now p cmds athead allocated o k) h = h
step-AreLive (ran tvadd device now) h = h
step-AreLive (answered res) h = h
step-AreLive flushed h = h
step-AreLive (dialed task rest e n) h = h
step-AreLive originated h = h
step-AreLive (numbered p c call_idx found) h =
    update_call-IsLive p (λ d. record d { call_idx = call_idx }) _ (λ d l. l) h
step-AreLive (flagged p c g found a m) h =
    update_call-IsLive p (λ d. record d { flags = g d.flags }) _ (λ d l. l) h
step-AreLive (dropped c found) h =
    update_call-IsLive c.address (λ d. record d { channel = none }) _ (λ d l. l)
      (disactivate_call-AreLive _ c h)
step-AreLive (fixed_up p c old new found) h =
    update_call-IsLive p (exchange old new) _ (λ d l. ground (arith, l)) h
step-AreLive (told calls) h = h

-- The calls of a device are made with `new_channel`, change their state, flags or index, lose their
-- stream and channel as in `channel_hangup`, and get another channel with `channel_fixup`; commands
-- are queued, sent, answered and flushed; ATD and ^ORIG are answered; and Asterisk is told things.
-- After any sequence of these events from a valid state in which no call is released, the counters
-- count the calls and the commands, one call at most is the master, each stream of the mix buffer is
-- that of an activated call, each task and the last dialed call belong to a call of the list (a task
-- may belong to the device itself), and no call of the list is released. The conditions: a new call
-- has an address that is neither in the list nor the device's own and a state other than released,
-- the audio port is open, and the calls stay below 2 ^ 32; commands are queued for the device itself
-- or a call of the list, and stay below 2 ^ 32; the answer to ATD is that of the first task of the
-- queue, which is not the device's own; a flag, an index or a channel that changes is that of a call
-- of the list, and CALL_FLAG_ACTIVATED and CALL_FLAG_MASTER change with the state and the hangup only.
pub Steps-IsValid : {a b : Pvt} → IsValid a → AreLive a → Steps a b → IsValid b × AreLive b
Steps-IsValid v h here = (v, h)
Steps-IsValid v h (next steps step) =
    let (w, k) = Steps-IsValid v h steps in (step-IsValid step w, step-AreLive step k)
