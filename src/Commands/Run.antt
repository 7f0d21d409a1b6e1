-- ===== src/Commands/Run.antt =====
-- The functions of at_command.c that put commands into the queue, as operations on the device, in any
-- order and with any results of the system.
use datacard.Base.{◌≡◌, Option, All, ℕ, refl, Bool, true, false, List, [], ◌∷◌}
use datacard.AtQueue.{free_pointer, free_data, free_cmds}
use datacard.Bytes.{Bytes}
use datacard.Calls.{Cpvt}
use datacard.Commands.{AtCmd, Env, World}
use datacard.Commands.Enqueue.{
  enque_cops, enque_dtmf, enque_set_ccwa, enque_reset, enque_flip_hold, enque_ping, enque_user_cmd,
  enque_retrive_sms, enque_volsync, enque_clcc, enque_conference,
}
use datacard.Commands.OfCall.{enque_dial, enque_answer, enque_activate, enque_hangup}
use datacard.Commands.Initialize.{Options, enque_initialization}
use datacard.CharConv.{Charset}
use datacard.Commands.Sms.{TextModes, refused, sms_text, enque_ussd, enque_sms}
use datacard.Commands.Texts.{enque_ussd-Settled, enque_sms-Settled}
use datacard.Commands.Balance.{Balanced, Settled, insert_const_cmds-Balanced}
use datacard.Commands.Customized.{enque_initialization-Settled}
use datacard.Commands.Operations.{
  enque_generic-Balanced, enque_dtmf-Balanced, enque_set_ccwa-Balanced, enque_dial-Balanced,
  enque_answer-Balanced, enque_activate-Balanced, enque_retrive_sms-Balanced, enque_hangup-Balanced,
}

pub data Operation : Type 0 where
  initialize : (options : Options) (cpvt : ℕ) (from : AtCmd) → Operation
  ask_cops reset flip_hold ping volsync ask_clcc conference : (cpvt : ℕ) → Operation
  send_dtmf : (c : Cpvt) (digit : ℕ) → Operation
  set_ccwa : (cpvt setting : ℕ) → Operation
  dial : (c : Cpvt) (number : Bytes) (presentation : ℕ) → Operation
  take_call activate : (c : Cpvt) → Operation
  user_cmd : (cpvt : ℕ) (input : Bytes) → Operation
  retrive_sms : (cpvt index : ℕ) (delete : Bool) → Operation
  hang_up : (c : Cpvt) (call_idx : ℕ) → Operation
  send_ussd :
      (iconv : Charset → Charset → Option (Bytes → ℕ → Option Bytes)) (modes : TextModes) (cpvt : ℕ)
      (code : Bytes)
      → Operation
  send_sms :
      (iconv : Charset → Charset → Option (Bytes → ℕ → Option Bytes)) (modes : TextModes) (cpvt : ℕ)
      (destination msg : Bytes) (validity_minutes : ℕ) (report_req : Bool)
      → Operation

abbrev pub perform : Env → World → Operation → ℕ × World
perform env w (initialize options cpvt from) = enque_initialization env options w cpvt from
perform env w (ask_cops cpvt) = enque_cops env w cpvt
perform env w (reset cpvt) = enque_reset env w cpvt
perform env w (flip_hold cpvt) = enque_flip_hold env w cpvt
perform env w (ping cpvt) = enque_ping env w cpvt
perform env w (volsync cpvt) = enque_volsync env w cpvt
perform env w (ask_clcc cpvt) = enque_clcc env w cpvt
perform env w (conference cpvt) = enque_conference env w cpvt
perform env w (send_dtmf c digit) = enque_dtmf env w c digit
perform env w (set_ccwa cpvt setting) = enque_set_ccwa env w cpvt setting
perform env w (dial c number presentation) = enque_dial env w c number presentation
perform env w (take_call c) = enque_answer env w c
perform env w (activate c) = enque_activate env w c
perform env w (user_cmd cpvt input) = enque_user_cmd env w cpvt input
perform env w (retrive_sms cpvt index delete) = enque_retrive_sms env w cpvt index delete
perform env w (hang_up c call_idx) = enque_hangup env w c call_idx
perform env w (send_ussd iconv modes cpvt code) = enque_ussd iconv env modes w cpvt code
perform env w (send_sms iconv modes cpvt destination msg validity_minutes report_req) =
    enque_sms iconv env modes w cpvt destination msg validity_minutes report_req

-- A message that is not sent as a PDU must not be too long.
abbrev pub IsSendable : Operation → Type 0
IsSendable (send_sms iconv modes cpvt destination msg validity_minutes report_req) =
    modes.use_pdu ≡ false → ¬ (sms_text iconv modes msg ≡ refused false)
IsSendable _ = Unit

-- Operations one after the other, each with its own results of the system.
abbrev pub perform_all : World → List (Env × Operation) → World
perform_all w [] = w
perform_all w ((env, op) ∷ ops) = perform_all (perform env w op).1 ops

perform-Settled :
    (env : Env) (w : World) (op : Operation)
    → IsSendable op
    → Balanced w []
    → Settled (perform env w op)
unfolding enque_cops enque_reset enque_flip_hold enque_ping enque_volsync enque_clcc
    enque_conference enque_user_cmd free_cmds free_data free_pointer
perform-Settled env w (initialize options cpvt from) n b =
    enque_initialization-Settled env options w cpvt from b
perform-Settled env w (ask_cops cpvt) n b = insert_const_cmds-Balanced env w cpvt _ false refl b
perform-Settled env w (reset cpvt) n b = insert_const_cmds-Balanced env w cpvt _ false refl b
perform-Settled env w (flip_hold cpvt) n b = insert_const_cmds-Balanced env w cpvt _ true refl b
perform-Settled env w (ping cpvt) n b = insert_const_cmds-Balanced env w cpvt _ true refl b
perform-Settled env w (volsync cpvt) n b = insert_const_cmds-Balanced env w cpvt _ true refl b
perform-Settled env w (ask_clcc cpvt) n b = insert_const_cmds-Balanced env w cpvt _ true refl b
perform-Settled env w (conference cpvt) n b = insert_const_cmds-Balanced env w cpvt _ true refl b
perform-Settled env w (send_dtmf c digit) n b = enque_dtmf-Balanced env w c digit b
perform-Settled env w (set_ccwa cpvt setting) n b = enque_set_ccwa-Balanced env w cpvt setting b
perform-Settled env w (dial c number presentation) n b =
    enque_dial-Balanced env w c number presentation b
perform-Settled env w (take_call c) n b = enque_answer-Balanced env w c b
perform-Settled env w (activate c) n b = enque_activate-Balanced env w c b
perform-Settled env w (user_cmd cpvt input) n b = enque_generic-Balanced env w cpvt AtCmd.user _ b
perform-Settled env w (retrive_sms cpvt index delete) n b =
    enque_retrive_sms-Balanced env w cpvt index delete b
perform-Settled env w (hang_up c call_idx) n b = enque_hangup-Balanced env w c call_idx b
perform-Settled env w (send_ussd iconv modes cpvt code) n b =
    enque_ussd-Settled iconv env modes w cpvt code b
perform-Settled env w (send_sms iconv modes cpvt destination msg validity_minutes report_req) n b =
    enque_sms-Settled iconv env modes w cpvt destination msg validity_minutes report_req n b

-- The functions of at_command.c neither leak a text nor free one twice, as long as no message that is
-- not sent as a PDU is too long. When every text that `ast_strdup` gave is owned by one command of the queue or
-- freed once, so it is after any of these functions in any order, whatever `ast_strdup`, `ast_malloc`
-- and the device do in each.
pub perform_all-Balanced :
    (ops : List (Env × Operation)) (w : World)
    → All (λ o. IsSendable o.1) ops
    → Balanced w []
    → Balanced (perform_all w ops) []
perform_all-Balanced [] w s b = b
perform_all-Balanced ((env, op) ∷ ops) w s b =
    perform_all-Balanced ops (perform env w op).1 s.1 (perform-Settled env w op s.0 b).balance
