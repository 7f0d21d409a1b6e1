-- ===== src/Commands/Sms.antt =====
-- at_command.c: the commands that send a short message or a USSD code.
use datacard.Base.{
  ℕ, suc, ◌-◌, ◌/◌, ◌^◌, Bool, true, false, [], ◌∷◌, ◌++◌, Option, none, some, ltb, ◌==◌,
  if◌then◌else◌, length, take,
}
use datacard.Bytes.{Bytes}
use datacard.CharConv.{Charset, StrEncoding, Recoded, text, failed, encode, str_recode}
use datacard.Pdu.Build.{BuildError, Built, failed_build, built, build}
use datacard.Scan.{minus_one}
use datacard.Scan.Decimal.{print_decimal}
use datacard.AtQueue.{Cmd}
use datacard.Commands.{AtCmd, Env, World, res_ok, dynamic_cmd, dyn, free_text, insert_cmds}

-- The fields of the device that say how texts are sent.
pub record TextModes : Type 0 where
  pub use_pdu : Bool
  pub use_ucs2_encoding : Bool
  pub cusd_use_7bit_encoding : Bool

abbrev pub res_sms_prompt : ℕ
res_sms_prompt = 26

-- A negative result.
abbrev pub negative : ℕ → ℕ
negative n = 2 ^ 32 - n

-- `c.data = ast_strdup (bytes)`, with its length in `c.length`
unfoldable pub dup_with : World → Cmd → Bytes → Option ℕ → Option Cmd × World
dup_with w c bytes none = (none, record w { dups = suc w.dups })
dup_with w c bytes (some p) = (
  some (record c { pointer = some p; text = bytes; length = length bytes }),
  record w { dups = suc w.dups; given = w.given ++ (p ∷ []) },
)

unfoldable pub dup_text : Env → World → Cmd → Bytes → Option Cmd × World
unfolding dup_with
dup_text env w c bytes = dup_with w c bytes (env.dup w.dups)

-- What follows a text that was allocated, or the error `err` after `undo`.
unfoldable pub duplicated_or :
    ℕ → (World → World) → Option Cmd × World → (Cmd → World → ℕ × World) → ℕ × World
duplicated_or err undo (none, w) next = (err, undo w)
duplicated_or err undo (some c, w) next = next c w

-- `at_enque_ussd`, from the recoded text on. The task that is returned is left out.
unfoldable pub ussd_with : Env → World → ℕ → Recoded → ℕ × World
unfolding dup_text duplicated_or insert_cmds
ussd_with env w cpvt (failed e) = (minus_one, w)
ussd_with env w cpvt (text []) = (minus_one, w)
ussd_with env w cpvt (text (c ∷ cs)) =
    duplicated_or minus_one (λ w. w)
      (dup_text env w (dyn AtCmd.cusd) (
        (b'A' ∷ b'T' ∷ b'+' ∷ b'C' ∷ b'U' ∷ b'S' ∷ b'D' ∷ b'=' ∷ b'1' ∷ b',' ∷ b'"' ∷ [])
        ++ ((c ∷ cs) ++ (b'"' ∷ b',' ∷ b'1' ∷ b'5' ∷ 13 ∷ []))))
      (λ k w'. insert_cmds env w' cpvt (k ∷ []) false)

-- The second command's text where it is not a PDU: the code of the error, whether the first text is
-- freed, or the text.
pub data Body : Type 0 where
  refused : (frees : Bool) → Body
  body : Bytes → Body

unfoldable pub body_of : Recoded → Body
body_of (failed e) = refused true
body_of (text cs) = body (cs ++ (26 ∷ []))

-- The end of `at_enque_sms`.
unfoldable pub sms_body : Env → World → ℕ → Cmd → Body → ℕ × World
unfolding dup_text duplicated_or insert_cmds
sms_body env w cpvt first (refused frees) =
    (negative 4, if frees then free_text first.pointer w else w)
sms_body env w cpvt first (body b) =
    duplicated_or (negative 12) (free_text first.pointer)
      (dup_text env w (dynamic_cmd AtCmd.smstext res_ok 0 15) b)
      (λ second w'. insert_cmds env w' cpvt (first ∷ second ∷ []) false)

-- The part of `at_enque_sms` from the first `ast_strdup` on.
unfoldable pub sms_texts : Env → World → ℕ → Bytes → Body → ℕ × World
unfolding dup_text duplicated_or sms_body
sms_texts env w cpvt head b =
    duplicated_or (negative 12) (λ w. w)
      (dup_text env w (dynamic_cmd AtCmd.cmgs res_sms_prompt 0 2) head)
      (λ first w'. sms_body env w' cpvt first b)

abbrev pub error_code : BuildError → ℕ
error_code BuildError.too_big = negative 7
error_code BuildError.no_memory = negative 12
error_code BuildError.invalid = negative 22

unfoldable pub sms_pdu : Env → World → ℕ → Built → ℕ × World
unfolding sms_texts
sms_pdu env w cpvt (failed_build e) = (error_code e, w)
sms_pdu env w cpvt (built pdu n sca_len) =
    if ltb 2046 n
    then (minus_one, w)
    else sms_texts env w cpvt
        ((b'A' ∷ b'T' ∷ b'+' ∷ b'C' ∷ b'M' ∷ b'G' ∷ b'S' ∷ b'=' ∷ [])
          ++ (print_decimal ((n - sca_len) / 2) ++ (13 ∷ [])))
        (body (pdu ++ (26 ∷ [])))

unfoldable pub sms_number : Env → World → ℕ → Recoded → Body → ℕ × World
unfolding sms_texts
sms_number env w cpvt (failed e) b = (negative 4, w)
sms_number env w cpvt (text []) b = (negative 4, w)
sms_number env w cpvt (text (c ∷ cs)) b =
    sms_texts env w cpvt
      ((b'A' ∷ b'T' ∷ b'+' ∷ b'C' ∷ b'M' ∷ b'G' ∷ b'S' ∷ b'=' ∷ b'"' ∷ [])
        ++ ((c ∷ cs) ++ (b'"' ∷ 13 ∷ [])))
      b

module _ (iconv : Charset → Charset → Option (Bytes → ℕ → Option Bytes)) where
  -- `at_enque_ussd`
  unfoldable pub enque_ussd : Env → TextModes → World → ℕ → Bytes → ℕ × World
  unfolding ussd_with
  enque_ussd env modes w cpvt code = ussd_with env w cpvt (
      str_recode iconv encode
        (if modes.cusd_use_7bit_encoding
          then StrEncoding.bit7_hex
          else if modes.use_ucs2_encoding
          then StrEncoding.ucs2_hex
          else StrEncoding.bit7)
        code (length code) 4079)

  -- A text that is too long is refused, and the first text is not freed.
  unfoldable pub sms_text : TextModes → Bytes → Body
  unfolding body_of
  sms_text modes msg =
      if modes.use_ucs2_encoding
      then (if ltb 70 (length msg)
          then refused false
          else body_of (str_recode iconv encode StrEncoding.ucs2_hex msg (length msg) 2046))
      else if ltb 140 (length msg)
      then refused false
      else body (take 160 msg ++ (26 ∷ []))

  -- `at_enque_sms`. The task that is returned is left out.
  unfoldable pub enque_sms : Env → TextModes → World → ℕ → Bytes → Bytes → ℕ → Bool → ℕ × World
  unfolding sms_pdu sms_number sms_text
  enque_sms env modes w cpvt destination msg validity_minutes report_req =
      if modes.use_pdu
      then sms_pdu env w cpvt (
          build iconv 2048 [] destination msg
            (if validity_minutes == 0 then 4320 else validity_minutes) report_req)
      else sms_number env w cpvt
          (str_recode iconv encode StrEncoding.ucs2_hex destination (length destination) 1012)
          (sms_text modes msg)
