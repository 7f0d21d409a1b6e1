-- ===== src/Calls.antt =====
-- cpvt.h, cpvt.c and the part of chan_datacard.h and chan_datacard.c that keeps the calls of a device:
-- the list of calls, their number by state, and what the first and the last call of a device do. A
-- pointer to a `struct cpvt` or to a channel of Asterisk is a number, 0 that of `sys_chan`. What is
-- asked of Asterisk and of the system goes to the trace `asked`, in order.
pub mod Change
pub mod Dial
pub mod Total
pub mod Valid
pub mod Alloc
pub mod Activate
pub mod Update
pub mod ChangeState
pub mod Tests
pub mod Reach
pub mod Live
pub mod Mark
pub mod Release
use datacard.Base.{
  ℕ, ◌+◌, ◌%◌, Bool, true, false, not, ◌&&◌, ◌||◌, List, [], ◌∷◌, ◌++◌, map, Option, none, some,
  ◌==◌, if◌then◌else◌, add_uint, sub_uint,
}
use datacard.Bytes.{Bytes}
use datacard.AtQueue
use datacard.AtQueue.{Task}
use datacard.MixBuffer
use datacard.MixBuffer.{MixBuffer}

-- `call_state_t`
pub data CallState : Type 0 where
  call_active call_onhold call_dialing call_alerting call_incoming call_waiting call_released
        call_init :
      CallState

-- `dev_state_t`
pub data DevState : Type 0 where
  dev_stopped dev_restarted dev_removed dev_started : DevState

-- `restate_time_t`
pub data RestateTime : Type 0 where
  time_now time_gracefully time_convenient : RestateTime

-- The enumerations' values.
abbrev pub state_number : CallState → ℕ
state_number call_active = 0
state_number call_onhold = 1
state_number call_dialing = 2
state_number call_alerting = 3
state_number call_incoming = 4
state_number call_waiting = 5
state_number call_released = 6
state_number call_init = 7

abbrev pub dev_number : DevState → ℕ
dev_number dev_stopped = 0
dev_number dev_restarted = 1
dev_number dev_removed = 2
dev_number dev_started = 3

abbrev pub time_number : RestateTime → ℕ
time_number time_now = 0
time_number time_gracefully = 1
time_number time_convenient = 2

abbrev pub same_state : CallState → CallState → Bool
same_state a b = state_number a == state_number b

abbrev pub same_dev : DevState → DevState → Bool
same_dev a b = dev_number a == dev_number b

abbrev pub is_now : RestateTime → Bool
is_now t = time_number t == 0

-- `call_flag_t`: the bits of `flags`, of which no two share a place.
pub record CallFlags : Type 0 where
  pub hold_other : Bool
  pub need_hangup : Bool
  pub activated : Bool
  pub alive : Bool
  pub conference : Bool
  pub master : Bool
  pub multiparty : Bool

-- `call_flag_t` with CALL_FLAG_NONE
abbrev pub no_flags : CallFlags
no_flags = record {
  hold_other = false;
  need_hangup = false;
  activated = false;
  alive = false;
  conference = false;
  master = false;
  multiparty = false;
}

pub data Direction : Type 0 where
  outgoing incoming : Direction

-- `cpvt_t`, with its own address. The pipe and the frame buffer are left out.
pub record Cpvt : Type 0 where
  pub address : ℕ
  pub channel : Option ℕ
  pub call_idx : ℕ
  pub state : CallState
  pub flags : CallFlags
  pub dir : Direction

-- What a channel of Asterisk is told: `enum ast_control_frame_type` and `ast_setstate`.
pub data Control : Type 0 where
  progress ringing unhold hold answer : Control

pub data AstState : Type 0 where
  ast_down ast_dialing ast_ringing ast_up : AstState

-- The calls of Asterisk and the system, with the channel's number where there is one.
pub data Asked : Type 0 where
  digit_reset timer_opened timer_closed discovery_restarted : Asked
  fd_set : (channel fd : ℕ) (value : Option ℕ) → Asked
  -- Descriptor 0 becomes the read end of the pipe of a call.
  pipe_set : (channel cpvt : ℕ) → Asked
  -- Descriptor 1 becomes the timer's, and its rate is set.
  timer_set : (channel : ℕ) → Asked
  queued : (channel : ℕ) (control : Control) → Asked
  state_set : (channel : ℕ) (state : AstState) → Asked
  -- `channel->tech_pvt = NULL`
  unlinked : (channel : ℕ) → Asked
  hung_up : (channel cause : ℕ) → Asked
  -- `ast_free (cpvt)`
  freed : (cpvt : ℕ) → Asked
  ports_closed : Asked

-- The fields of `struct pvt` that the calls use, the queue's and the mix buffer's in their own
-- records. -1 for a descriptor is `none`; a pointer to the timer or the detector is whether it is set.
pub record Pvt : Type 0 where
  pub queue : AtQueue.Pvt
  pub chans : List Cpvt
  pub last_dialed : Option ℕ
  pub audio_fd : Option ℕ
  pub dsp : Bool
  pub a_timer : Bool
  pub a_write_buf : Bytes
  pub a_write_mixb : MixBuffer
  pub dtmf_digit : ℕ
  pub gsm_registered : Bool
  pub connected : Bool
  pub initialized : Bool
  pub has_voice : Bool
  pub dialing : Bool
  pub ring : Bool
  pub cwaiting : Bool
  pub outgoing_sms : Bool
  pub incoming_sms : Bool
  pub desired_state : DevState
  pub restart_time : RestateTime
  pub current_state : DevState
  pub chansno : ℕ
  pub chan_count : CallState → ℕ
  pub asked : List Asked

abbrev pub sys_chan : ℕ
sys_chan = 0

abbrev pub ask : Pvt → List Asked → Pvt
ask pvt calls = record pvt { asked = pvt.asked ++ calls }

-- `PVT_STATE (pvt, chan_count[state])++` and `--`: the counters have eight bits.
abbrev pub count_up : (CallState → ℕ) → CallState → CallState → ℕ
count_up counts state s = if same_state s state then (counts s + 1) % 256 else counts s

abbrev pub count_down : (CallState → ℕ) → CallState → CallState → ℕ
count_down counts state s = if same_state s state then (counts s + 255) % 256 else counts s

-- PVT_NO_CHANS
abbrev pub no_chans : Pvt → Bool
no_chans pvt = pvt.chansno == 0

-- `pvt_on_create_1st_channel`
pub on_create_1st_channel : Pvt → Pvt
on_create_1st_channel pvt = record pvt {
  a_write_mixb = MixBuffer.init pvt.a_write_mixb pvt.a_write_buf 1600;
  a_timer = true;
  dtmf_digit = 0;
  asked =
      pvt.asked
      ++ ((if pvt.a_timer then [] else timer_opened ∷ [])
          ++ (if pvt.dsp then digit_reset ∷ [] else []));
}

-- `pvt_on_remove_last_channel`
unfoldable pub on_remove_last_channel : Pvt → Pvt
on_remove_last_channel pvt = record pvt {
  a_timer = false;
  asked = pvt.asked ++ (if pvt.a_timer then timer_closed ∷ [] else []);
}

-- `pvt_time4restate`
pub time4restate : Pvt → Bool
time4restate pvt =
    not (same_dev pvt.desired_state pvt.current_state)
    && (is_now pvt.restart_time || (no_chans pvt && not pvt.outgoing_sms && not pvt.incoming_sms))

-- `pvt_try_restate`
pub try_restate : Pvt → Pvt
try_restate pvt =
    if time4restate pvt
    then record pvt { restart_time = time_now; asked = pvt.asked ++ (discovery_restarted ∷ []) }
    else pvt

-- `cpvt_alloc`: `address` is what `ast_calloc` returns, `none` when it or `init_pipe` fails.
pub cpvt_alloc : Pvt → Option ℕ → ℕ → Direction → CallState → Option ℕ × Pvt
cpvt_alloc pvt none call_idx dir state = (none, pvt)
cpvt_alloc pvt (some address) call_idx dir state =
    let pvt' = if no_chans pvt then on_create_1st_channel pvt else pvt in
    (
      some address,
      record pvt' {
        chans =
            pvt.chans
            ++ (record {
              address = address;
              channel = none;
              call_idx = call_idx;
              state = state;
              flags = no_flags;
              dir = dir;
            }
                ∷ []);
        chansno = add_uint pvt.chansno 1;
        chan_count = count_up pvt.chan_count state;
      },
    )

-- The call at an address, and the list with it changed or, by AST_LIST_REMOVE_CURRENT, without it.
abbrev pub find_call : ℕ → List Cpvt → Option Cpvt
find_call p [] = none
find_call p (c ∷ cs) = if c.address == p then some c else find_call p cs

abbrev pub update_call : ℕ → (Cpvt → Cpvt) → List Cpvt → List Cpvt
update_call p f [] = []
update_call p f (c ∷ cs) = if c.address == p then f c ∷ cs else c ∷ update_call p f cs

abbrev pub remove_call : ℕ → List Cpvt → List Cpvt
remove_call p [] = []
remove_call p (c ∷ cs) = if c.address == p then cs else c ∷ remove_call p cs

-- The first loop of `cpvt_free`, with its counters.
pub drop_call : Pvt → ℕ → Option Cpvt → Pvt
drop_call pvt p none = pvt
drop_call pvt p (some c) = record pvt {
  chans = remove_call p pvt.chans;
  chan_count = count_down pvt.chan_count c.state;
  chansno = sub_uint pvt.chansno 1;
}

-- The second loop of `cpvt_free`: the call's tasks go to `sys_chan`.
abbrev pub relink : ℕ → Task → Task
relink p task = if task.cpvt == p then record task { cpvt = sys_chan } else task

abbrev pub points_to : Option ℕ → ℕ → Bool
points_to none p = false
points_to (some q) p = q == p

-- `cpvt_free` up to the test of PVT_NO_CHANS
pub unlink_call : Pvt → ℕ → Pvt
unfolding drop_call
unlink_call pvt p =
    let pvt' = drop_call pvt p (find_call p pvt.chans) in
    record pvt' {
      queue = record pvt'.queue { at_queue = map (relink p) pvt'.queue.at_queue };
      last_dialed = if points_to pvt'.last_dialed p then none else pvt'.last_dialed;
    }

-- `cpvt_free`
pub cpvt_free : Pvt → ℕ → Pvt
unfolding unlink_call
cpvt_free pvt p =
    let left = unlink_call pvt p in
    ask (if no_chans left then try_restate (on_remove_last_channel left) else left) (freed p ∷ [])

-- `pvt_find_cpvt`
abbrev find_idx : ℕ → List Cpvt → Option ℕ
find_idx call_idx [] = none
find_idx call_idx (c ∷ cs) = if call_idx == c.call_idx then some c.address else find_idx call_idx cs

pub find_cpvt : Pvt → ℕ → Option ℕ
find_cpvt pvt call_idx = find_idx call_idx pvt.chans
