-- ===== src/Commands/Tests.antt =====
-- Commands put into an empty queue.
use datacard.Base.{
  ◌≡◌, ℕ, ◌+◌, refl, true, false, List, [], ◌∷◌, Option, none, some, ◌==◌, if◌then◌else◌,
}
use datacard.Bytes.{Bytes}
use datacard.CharConv.{Charset}
use datacard.Commands.Sms.{TextModes, refused, sms_text}
use datacard.Commands.Texts.{body_not_refused}
use datacard.AtQueue.{Timeval}
use datacard.AtQueue.Device.{Outcome}
use datacard.Calls.{call_init, outgoing, Cpvt, no_flags}
use datacard.Calls.Tests.{idle}
use datacard.Commands.{AtCmd, Env, World, auto}
use datacard.Commands.Balance.{Balanced}
use datacard.Commands.Run.{
  Operation, initialize, dial, retrive_sms, send_ussd, send_sms, perform_all, perform_all-Balanced,
}

-- The device takes four bytes with each call.
abbrev device : ℕ → Outcome
device n = record { wrote = 4; again = false }

abbrev later : Timeval → Timeval → Timeval
later a b = record { tv_sec = a.tv_sec + b.tv_sec; tv_usec = a.tv_usec }

-- The third `ast_strdup` fails.
abbrev third_fails : ℕ → Option ℕ
third_fails n = if n == 2 then none else some (100 + n)

abbrev pub env : Env
env = record {
  tvadd = later;
  now = record { tv_sec = 1; tv_usec = 0 };
  device = device;
  allocated = true;
  dup = third_fails;
}

abbrev pub quiet : World
quiet = record { pvt = idle; dups = 0; given = []; written = []; callwaiting = auto }

abbrev call : Cpvt
call = record {
  address = 7;
  channel = none;
  call_idx = 1;
  state = call_init;
  flags = no_flags;
  dir = outgoing;
}

abbrev no_iconv : Charset → Charset → Option (Bytes → ℕ → Option Bytes)
no_iconv from to = none

abbrev modes : TextModes
modes = record { use_pdu = false; use_ucs2_encoding = false; cusd_use_7bit_encoding = true }

abbrev operations : List (Env × Operation)
operations =
    (env, dial call (b'1' ∷ b'1' ∷ b'2' ∷ []) 1)
    ∷ (env, retrive_sms 0 3 true)
    ∷ (env, initialize (record { resetdatacard = true; u2diag = 0; smsaspdu = true }) 0 AtCmd.at)
    ∷ (env, send_ussd no_iconv modes 0 (b'*' ∷ b'1' ∷ b'#' ∷ []))
    ∷ (env, send_sms no_iconv modes 0 (b'1' ∷ b'2' ∷ []) (b'h' ∷ b'i' ∷ []) 0 false)
    ∷ []

short_text : ¬ (sms_text no_iconv modes (b'h' ∷ b'i' ∷ []) ≡ refused false)
unfolding sms_text
short_text e = body_not_refused _ e

perform_all-Balanced_example : Balanced (perform_all quiet operations) []
perform_all-Balanced_example =
    perform_all-Balanced operations quiet (tt, (tt, (tt, (tt, ((λ e. short_text), tt)))))
      (record { exact = λ p. refl })
