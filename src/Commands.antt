-- ===== src/Commands.antt =====
-- at_command.c: the lists of AT commands that the driver puts into the queue. `World` is the device's
-- state with what `ast_strdup` has given and what has gone out to the device; the results of
-- `ast_strdup` and of the system are in `Env`. A result is a C `int`, of which the negative ones are
-- in two's complement.
pub mod Enqueue
pub mod OfCall
pub mod Sms
pub mod Initialize
pub mod Balance
pub mod Operations
pub mod Tests
pub mod Customized
pub mod Texts
pub mod Run
use datacard.Base.{
  ℕ, suc, ◌+◌, ◌-◌, ◌*◌, ◌/◌, ◌^◌, Bool, true, false, not, ◌&&◌, ◌||◌, List, [], ◌∷◌, ◌++◌, Option,
  none, some, ltb, leb, ◌==◌, if◌then◌else◌, length, take,
}
use datacard.Bytes.{Bytes}
use datacard.Scan.{is_negative, minus_one}
use datacard.Scan.Decimal.{print_decimal}
use datacard.AtQueue
use datacard.AtQueue.{Timeval, Cmd, flag_static, flag_ignore}
use datacard.AtQueue.Device.{Outcome}
use datacard.Calls.{
  Cpvt, Pvt, Direction, incoming, outgoing, CallState, call_active, call_onhold, call_dialing,
  call_incoming, call_waiting, call_init, same_state, sys_chan, update_call,
}

-- `at_cmd_t`
pub data AtCmd : Type 0 where
  user at ata ccwa_status ccwa_set cfun cgmi cgmm cgmr cgsn chup cimi clir clvl cmgd cmgf cmgr cmgs
        smstext cnmi cnum cops cops_init cpin cpms creg creg_init cscs csq cssn cusd cvoice atd
        ddsetex dtmf ate u2diag atz cmee csca chld_1x chld_2x chld_2 chld_3 clcc :
      AtCmd

abbrev pub cmd_number : AtCmd → ℕ
cmd_number user = 0
cmd_number at = 1
cmd_number ata = 2
cmd_number ccwa_status = 3
cmd_number ccwa_set = 4
cmd_number cfun = 5
cmd_number cgmi = 6
cmd_number cgmm = 7
cmd_number cgmr = 8
cmd_number cgsn = 9
cmd_number chup = 10
cmd_number cimi = 11
cmd_number clir = 12
cmd_number clvl = 13
cmd_number cmgd = 14
cmd_number cmgf = 15
cmd_number cmgr = 16
cmd_number cmgs = 17
cmd_number smstext = 18
cmd_number cnmi = 19
cmd_number cnum = 20
cmd_number cops = 21
cmd_number cops_init = 22
cmd_number cpin = 23
cmd_number cpms = 24
cmd_number creg = 25
cmd_number creg_init = 26
cmd_number cscs = 27
cmd_number csq = 28
cmd_number cssn = 29
cmd_number cusd = 30
cmd_number cvoice = 31
cmd_number atd = 32
cmd_number ddsetex = 33
cmd_number dtmf = 34
cmd_number ate = 35
cmd_number u2diag = 36
cmd_number atz = 37
cmd_number cmee = 38
cmd_number csca = 39
cmd_number chld_1x = 40
cmd_number chld_2x = 41
cmd_number chld_2 = 42
cmd_number chld_3 = 43
cmd_number clcc = 44

-- RES_OK and RES_CMGR
abbrev pub res_ok : ℕ
res_ok = 21

abbrev pub res_cmgr : ℕ
res_cmgr = 4

-- `call_waiting_t`
pub data CallWaiting : Type 0 where
  disallowed allowed auto : CallWaiting

-- `dup n` is what the call number `n` of `ast_strdup` returns.
pub record Env : Type 0 where
  pub tvadd : Timeval → Timeval → Timeval
  pub now : Timeval
  pub device : ℕ → Outcome
  pub allocated : Bool
  pub dup : ℕ → Option ℕ

pub record World : Type 0 where
  pub pvt : Pvt
  pub dups : ℕ
  -- What `ast_strdup` has returned, in order.
  pub given : List ℕ
  pub written : Bytes
  pub callwaiting : CallWaiting

-- ATQ_CMD_DECLARE_STFT and ATQ_CMD_DECLARE_DYNFT; the flags in use are `flag_static` and `flag_ignore`.
abbrev pub static_cmd : AtCmd → ℕ → ℕ → Bytes → Cmd
static_cmd cmd flags seconds text = record {
  cmd = cmd_number cmd;
  res = res_ok;
  flags = flags + flag_static;
  timeout = record { tv_sec = seconds; tv_usec = 0 };
  pointer = none;
  text = text;
  length = length text;
}

abbrev pub dynamic_cmd : AtCmd → ℕ → ℕ → ℕ → Cmd
dynamic_cmd cmd res flags seconds = record {
  cmd = cmd_number cmd;
  res = res;
  flags = flags;
  timeout = record { tv_sec = seconds; tv_usec = 0 };
  pointer = none;
  text = [];
  length = 0;
}

abbrev pub st : AtCmd → Bytes → Cmd
st cmd text = static_cmd cmd 0 2 text

abbrev pub dyn : AtCmd → Cmd
dyn cmd = dynamic_cmd cmd res_ok 0 2

-- %d
abbrev pub print_int : ℕ → Bytes
print_int n = if is_negative n then b'-' ∷ print_decimal (2 ^ 32 - n) else print_decimal n

-- `cmd->flags &= ~ATQ_CMD_FLAG_STATIC`: the flag is the lowest bit.
abbrev pub clear_static : ℕ → ℕ
clear_static flags = flags / 2 * 2

-- `at_fill_generic_cmd_va`, on the formatted text. `vsnprintf` keeps 4094 characters of it, but
-- returns its whole length; the write of a 0 behind `buf` that a longer text leads to is left out.
unfoldable pub fill_with : World → Cmd → Bytes → Option ℕ → Option Cmd × World
fill_with w c text none = (none, record w { dups = suc w.dups })
fill_with w c text (some p) = (
  some (record c {
    flags = clear_static c.flags;
    pointer = some p;
    text = take 4094 text;
    length = length text;
  }),
  record w { dups = suc w.dups; given = w.given ++ (p ∷ []) },
)

unfoldable pub fill_generic : Env → World → Cmd → Bytes → Option Cmd × World
unfolding fill_with
fill_generic env w c text = fill_with w c text (env.dup w.dups)

-- What follows a filled command; an error is returned, after `undo`.
unfoldable pub filled_or :
    (World → World) → Option Cmd × World → (Cmd → World → ℕ × World) → ℕ × World
filled_or undo (none, w) next = (minus_one, undo w)
filled_or undo (some c, w) next = next c w

abbrev pub filled : Option Cmd × World → (Cmd → World → ℕ × World) → ℕ × World
filled = filled_or (λ w. w)

-- `ast_free` of a text that is in no task.
abbrev pub free_text : Option ℕ → World → World
free_text none w = w
free_text (some p) w = record w {
  pvt = record w.pvt { queue = record w.pvt.queue { freed = w.pvt.queue.freed ++ (p ∷ []) } };
}

abbrev pub with_queue : World → Bytes → AtQueue.Pvt → World
with_queue w out queue = record w {
  pvt = record w.pvt { queue = queue };
  written = w.written ++ out;
}

abbrev pub failed_or_zero : Bool → ℕ
failed_or_zero fail = if fail then 1 else 0

-- `at_queue_insert` and `at_queue_insert_const` of the commands of a list.
unfoldable pub insert_cmds : Env → World → ℕ → List Cmd → Bool → ℕ × World
insert_cmds env w cpvt cmds athead =
    let (fail, out, queue) =
      AtQueue.insert env.tvadd env.device env.now w.pvt.queue cpvt cmds (length cmds) athead
        env.allocated in
    (failed_or_zero fail, with_queue w out queue)

unfoldable pub insert_const_cmds : Env → World → ℕ → List Cmd → Bool → ℕ × World
insert_const_cmds env w cpvt cmds athead =
    let (fail, out, queue) =
      AtQueue.insert_const env.tvadd env.device env.now w.pvt.queue cpvt cmds (length cmds) athead
        env.allocated in
    (failed_or_zero fail, with_queue w out queue)
