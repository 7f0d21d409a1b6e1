-- ===== src/Commands/Texts.antt =====
-- The texts of short messages and USSD codes: who owns them.
use datacard.Base.{
  ℕ, ◌≡◌, refl, ap, Bool, true, false, true≢false, List, [], ◌∷◌, ◌++◌, Option, none, some, arith,
  ltb, ◌==◌, if◌then◌else◌, Bool-cases, inl, inr,
}
use datacard.AtQueue.{Cmd, free_data, free_cmds, is_static}
use datacard.AtQueue.Owned.{occurrences, occurrences-append}
use datacard.Bytes.{Bytes}
use datacard.CharConv.{Charset, Recoded, text, failed}
use datacard.Pdu.Build.{Built, failed_build, built, build}
use datacard.Scan.{minus_one}
use datacard.Commands.{AtCmd, Env, World, dyn, dynamic_cmd, res_ok}
use datacard.Commands.Balance.{
  Balanced, Settled, Filled, of_option, free_data-dynamic, free_text-Balanced, insert_cmds-Balanced,
}
use datacard.Commands.Operations.{unchanged, insert_filled-Balanced}
use datacard.Commands.Sms.{
  TextModes, res_sms_prompt, negative, dup_with, dup_text, duplicated_or, ussd_with, Body, refused,
  body, sms_body, sms_texts, sms_pdu, sms_number, sms_text, enque_ussd, enque_sms,
}

dup_with-Filled :
    (w : World) (c : Cmd) (bytes : Bytes) (loose : List ℕ) (o : Option ℕ)
    → is_static c ≡ false
    → Balanced w loose
    → Filled loose (dup_with w c bytes o)
unfolding dup_with
dup_with-Filled w c bytes loose none d b = record { exact = b.exact }
dup_with-Filled w c bytes loose (some p) d b = (
  free_data-dynamic _ d,
  record { exact = λ q. omega (arith, b.exact q, occurrences-append q w.given (p ∷ [])) },
)

duplicated_or-Settled :
    (err : ℕ) (undo : World → World) (r : Option Cmd × World) (next : Cmd → World → ℕ × World)
    (loose : List ℕ)
    → Filled loose r
    → ((w : World) → Balanced w loose → Balanced (undo w) [])
    → ((c : Cmd) (w : World)
        → (free_data c).1 ≡ of_option c.pointer
        → Balanced w (of_option c.pointer ++ loose)
        → Settled (next c w))
    → Settled (duplicated_or err undo r next)
unfolding duplicated_or
duplicated_or-Settled err undo (none, w) next loose f u n = record { balance = u w f }
duplicated_or-Settled err undo (some c, w) next loose f u n = n c w f.0 f.1

-- A text is allocated and more done, or `undo` after a failure.
dup_or-Settled :
    {undo : World → World} {next : Cmd → World → ℕ × World} (err : ℕ) (env : Env) (w : World)
    (c : Cmd) (bytes : Bytes) (loose : List ℕ)
    → is_static c ≡ false
    → Balanced w loose
    → ((w : World) → Balanced w loose → Balanced (undo w) [])
    → ((c : Cmd) (w : World)
        → (free_data c).1 ≡ of_option c.pointer
        → Balanced w (of_option c.pointer ++ loose)
        → Settled (next c w))
    → Settled (duplicated_or err undo (dup_text env w c bytes) next)
unfolding dup_text
dup_or-Settled {undo} {next} err env w c bytes loose d b u n =
    duplicated_or-Settled err undo _ next loose
      (dup_with-Filled w c bytes loose (env.dup w.dups) d b) u n

ussd_with-Settled :
    (env : Env) (w : World) (cpvt : ℕ) (r : Recoded)
    → Balanced w []
    → Settled (ussd_with env w cpvt r)
unfolding ussd_with free_cmds
ussd_with-Settled env w cpvt (failed e) b = unchanged b
ussd_with-Settled env w cpvt (text []) b = unchanged b
ussd_with-Settled env w cpvt (text (c ∷ cs)) b =
    dup_or-Settled minus_one env w (dyn AtCmd.cusd) _ [] refl b (λ w b. b)
      (λ k w e b. insert_filled-Balanced env w cpvt false k [] refl e b)

-- The second text, with the first one loose.
sms_body-Settled :
    (env : Env) (w : World) (cpvt : ℕ) (first : Cmd) (m : Body)
    → ¬ (m ≡ refused false)
    → (free_data first).1 ≡ of_option first.pointer
    → Balanced w (of_option first.pointer ++ [])
    → Settled (sms_body env w cpvt first m)
unfolding sms_body free_cmds
sms_body-Settled env w cpvt first (refused true) n e b = record {
  balance = free_text-Balanced w first.pointer [] b;
}
sms_body-Settled env w cpvt first (refused false) n e b = absurd (n refl)
sms_body-Settled env w cpvt first (body m) n e b =
    dup_or-Settled (negative 12) env w (dynamic_cmd AtCmd.smstext res_ok 0 15) m
      (of_option first.pointer ++ []) refl b (λ w b. free_text-Balanced w first.pointer [] b)
      (λ d w f b.
        insert_cmds-Balanced env w cpvt (first ∷ d ∷ []) false _
          (λ p. omega (
            arith,
            occurrences-append p (free_data first).1 ((free_data d).1 ++ []),
            ap (occurrences p) e,
            ap (occurrences p) f,
            occurrences-append p (free_data d).1 [],
            occurrences-append p (of_option first.pointer) [],
            occurrences-append p (of_option d.pointer) (of_option first.pointer ++ []),
          ))
          b)

sms_texts-Settled :
    (env : Env) (w : World) (cpvt : ℕ) (head : Bytes) (m : Body)
    → ¬ (m ≡ refused false)
    → Balanced w []
    → Settled (sms_texts env w cpvt head m)
unfolding sms_texts
sms_texts-Settled env w cpvt head m n b =
    dup_or-Settled (negative 12) env w (dynamic_cmd AtCmd.cmgs res_sms_prompt 0 2) head [] refl b
      (λ w b. b) (λ first w e b. sms_body-Settled env w cpvt first m n e b)

is_body : Body → Bool
is_body (body m) = true
is_body (refused frees) = false

pub body_not_refused : (m : Bytes) → ¬ (body m ≡ refused false)
unfolding is_body
body_not_refused m e = true≢false (ap is_body e)

sms_pdu-Settled :
    (env : Env) (w : World) (cpvt : ℕ) (r : Built) → Balanced w [] → Settled (sms_pdu env w cpvt r)
unfolding sms_pdu
sms_pdu-Settled env w cpvt (failed_build e) b = unchanged b
sms_pdu-Settled env w cpvt (built pdu n sca_len) b = elim (Bool-cases (ltb 2046 n)) [
  | inl e ↦ rw e (unchanged b)
  | inr e ↦ rw e (sms_texts-Settled env w cpvt _ _ (body_not_refused _) b)
]

sms_number-Settled :
    (env : Env) (w : World) (cpvt : ℕ) (r : Recoded) (m : Body)
    → ¬ (m ≡ refused false)
    → Balanced w []
    → Settled (sms_number env w cpvt r m)
unfolding sms_number
sms_number-Settled env w cpvt (failed e) m n b = unchanged b
sms_number-Settled env w cpvt (text []) m n b = unchanged b
sms_number-Settled env w cpvt (text (c ∷ cs)) m n b = sms_texts-Settled env w cpvt _ m n b

module _ (iconv : Charset → Charset → Option (Bytes → ℕ → Option Bytes)) where
  pub enque_ussd-Settled :
      (env : Env) (modes : TextModes) (w : World) (cpvt : ℕ) (code : Bytes)
      → Balanced w []
      → Settled (enque_ussd iconv env modes w cpvt code)
  unfolding enque_ussd
  enque_ussd-Settled env modes w cpvt code b = ussd_with-Settled env w cpvt _ b

  -- `at_enque_sms` neither leaks nor frees twice a text, unless it refuses a text that is too long.
  pub enque_sms-Settled :
      (env : Env) (modes : TextModes) (w : World) (cpvt : ℕ) (destination msg : Bytes)
      (validity_minutes : ℕ) (report_req : Bool)
      → (modes.use_pdu ≡ false → ¬ (sms_text iconv modes msg ≡ refused false))
      → Balanced w []
      → Settled (enque_sms iconv env modes w cpvt destination msg validity_minutes report_req)
  unfolding enque_sms
  enque_sms-Settled env modes w cpvt destination msg validity_minutes report_req n b =
      elim (Bool-cases modes.use_pdu) [
        | inl e ↦ rw e (
            sms_pdu-Settled env w cpvt
              (build iconv 2048 [] destination msg
                (if validity_minutes == 0 then 4320 else validity_minutes) report_req)
              b)
        | inr e ↦ rw e (sms_number-Settled env w cpvt _ _ (n e) b)
      ]
