-- ===== src/Commands/Operations.antt =====
-- All functions of at_command.c that put commands into the queue, as operations on the device: none
-- leaks or frees twice a text that it makes.
use datacard.Base.{
  ℕ, ◌+◌, ◌-◌, ◌^◌, ◌≡◌, refl, ap, Bool, true, false, not, ◌&&◌, ◌||◌, List, [], ◌∷◌, ◌++◌, Option,
  none, arith, ltb, ◌==◌, if◌then◌else◌,
}
use datacard.AtQueue.{Cmd, free_pointer, free_data, free_cmds, flag_ignore}
use datacard.AtQueue.Owned.{occurrences, occurrences-append}
use datacard.Bytes.{Bytes}
use datacard.Scan.{minus_one}
use datacard.Calls.{
  Cpvt, call_active, call_onhold, call_incoming, call_waiting, call_init, call_dialing, sys_chan,
  same_state,
}
use datacard.Commands.{
  AtCmd, Env, World, CallWaiting, dyn, dynamic_cmd, res_ok, res_cmgr, insert_cmds, allowed,
  disallowed, auto, cmd_number,
}
use datacard.Commands.Enqueue.{
  enque_generic, clcc_cmd, ccwa_query, ddsetex_cmd, chld2_cmd, is_letter, dtmf_text, ccwa_text,
  cmgr_text, cmgd_text, is_dialed, enque_dtmf, enque_set_ccwa, enque_retrive_sms,
}
use datacard.Commands.OfCall.{
  chld2x_text, atd_text, clir_text, ata_text, chld1x_text, chup_cmd, is_incoming, dial_number,
  enque_dial, enque_answer, enque_activate, hang_up_with, enque_hangup, mark_hangup,
}
use datacard.Commands.Balance.{
  Balanced, Settled, of_option, free_text-Balanced, fill_or-Balanced, if-Balanced,
  insert_cmds-Balanced,
}

pub free_cmds-append :
    (p : ℕ) (xs ys : List Cmd)
    → occurrences p (free_cmds (xs ++ ys))
      ≡ occurrences p (free_cmds xs) + occurrences p (free_cmds ys)
unfolding free_cmds
free_cmds-append p [] ys = omega arith
free_cmds-append p (c ∷ xs) ys =
    let a = occurrences-append p (free_data c).1 (free_cmds (xs ++ ys)) in
    let b = occurrences-append p (free_data c).1 (free_cmds xs) in
    omega (arith, free_cmds-append p xs ys)

-- The texts of a filled command and of static ones behind it.
owns_filled :
    (p : ℕ) (c : Cmd) (before after : List Cmd)
    → (free_data c).1 ≡ of_option c.pointer
    → free_cmds after ≡ []
    → occurrences p (free_cmds (before ++ (c ∷ after)))
      ≡ occurrences p (free_cmds before) + occurrences p (of_option c.pointer)
unfolding free_cmds
owns_filled p c before after e s = omega (
  arith,
  free_cmds-append p before (c ∷ after),
  ap (occurrences p) e,
  ap (occurrences p) s,
  occurrences-append p (free_data c).1 (free_cmds after),
)

-- A filled command goes to the queue, with static ones behind it.
pub insert_filled-Balanced :
    (env : Env) (w : World) (cpvt : ℕ) (athead : Bool) (c : Cmd) (after : List Cmd)
    → free_cmds after ≡ []
    → (free_data c).1 ≡ of_option c.pointer
    → Balanced w (of_option c.pointer ++ [])
    → Settled (insert_cmds env w cpvt (c ∷ after) athead)
unfolding free_cmds
insert_filled-Balanced env w cpvt athead c after s e b =
    insert_cmds-Balanced env w cpvt (c ∷ after) athead _
      (λ p.
        omega (arith, owns_filled p c [] after e s, occurrences-append p (of_option c.pointer) []))
      b

pub enque_generic-Balanced :
    (env : Env) (w : World) (cpvt : ℕ) (cmd : AtCmd) (text : Bytes)
    → Balanced w []
    → Settled (enque_generic env w cpvt cmd text)
unfolding enque_generic free_cmds
enque_generic-Balanced env w cpvt cmd text b =
    fill_or-Balanced env w (dyn cmd) text [] refl b (λ w b. b)
      (λ c w e b. insert_filled-Balanced env w cpvt true c [] refl e b)

pub unchanged : {err : ℕ} {w : World} → Balanced w [] → Settled (err, w)
unchanged b = record { balance = b }

pub enque_dtmf-Balanced :
    (env : Env) (w : World) (c : Cpvt) (digit : ℕ)
    → Balanced w []
    → Settled (enque_dtmf env w c digit)
unfolding enque_dtmf
enque_dtmf-Balanced env w c digit b =
    if-Balanced (is_letter digit) (unchanged {err = 2 ^ 32 - 1974} b) (
      if-Balanced (is_dialed digit)
        (enque_generic-Balanced env w c.address AtCmd.dtmf (dtmf_text c.call_idx digit) b)
        (unchanged {err = minus_one} b))

recorded :
    (w : World) (setting : CallWaiting) (loose : List ℕ)
    → Balanced w loose
    → Balanced (record w { callwaiting = setting }) loose
recorded w setting loose b = record { exact = b.exact }

pub enque_set_ccwa-Balanced :
    (env : Env) (w : World) (cpvt setting : ℕ)
    → Balanced w []
    → Settled (enque_set_ccwa env w cpvt setting)
unfolding enque_set_ccwa free_cmds free_data free_pointer
enque_set_ccwa-Balanced env w cpvt setting b =
    if-Balanced (setting == 0 || setting == 1)
      (fill_or-Balanced env w (dynamic_cmd AtCmd.ccwa_set res_ok flag_ignore 10)
        (ccwa_text (setting == 1)) [] refl b (λ w b. b)
        (λ c w e b.
          insert_filled-Balanced env
            (record w { callwaiting = if setting == 1 then allowed else disallowed }) cpvt false c
            (ccwa_query ∷ []) refl e (recorded w _ _ b)))
      (insert_cmds-Balanced env (record w { callwaiting = auto }) cpvt (ccwa_query ∷ []) false []
        (λ p. refl) (recorded w auto [] b))

mark_hangup_if :
    (ok : Bool) (p err : ℕ) (w : World)
    → Settled (err, w)
    → Settled (err, if ok then mark_hangup p w else w)
mark_hangup_if true p err w s = record { balance = record { exact = s.balance.exact } }
mark_hangup_if false p err w s = s

dial_number-Balanced :
    (env : Env) (w : World) (c : Cpvt) (cmds : List Cmd) (tmp : Option ℕ) (number : Bytes)
    → ((p : ℕ) → occurrences p (free_cmds cmds) ≡ occurrences p (of_option tmp))
    → Balanced w (of_option tmp)
    → Settled (dial_number env w c cmds tmp number)
unfolding dial_number free_cmds free_data free_pointer
dial_number-Balanced env w c cmds tmp number o b =
    fill_or-Balanced env w (dynamic_cmd AtCmd.atd res_ok flag_ignore 2) (atd_text number)
      (of_option tmp) refl b
      (λ w b.
        free_text-Balanced w tmp [] (record {
          exact = λ p. omega (arith, b.exact p, occurrences-append p (of_option tmp) []);
        }))
      (λ d w e b. mark_hangup_if _ c.address _ _ (
        insert_cmds-Balanced env w c.address (cmds ++ (d ∷ clcc_cmd ∷ ddsetex_cmd ∷ [])) true _
          (λ p. omega (
            arith,
            o p,
            owns_filled p d cmds (clcc_cmd ∷ ddsetex_cmd ∷ []) e refl,
            occurrences-append p (of_option d.pointer) (of_option tmp),
          ))
          b))

hold_cmds-nothing : (b : Bool) → free_cmds (if b then chld2_cmd ∷ [] else []) ≡ []
unfolding free_cmds free_data free_pointer
hold_cmds-nothing true = refl
hold_cmds-nothing false = refl

pub enque_dial-Balanced :
    (env : Env) (w : World) (c : Cpvt) (number : Bytes) (presentation : ℕ)
    → Balanced w []
    → Settled (enque_dial env w c number presentation)
unfolding enque_dial free_cmds
enque_dial-Balanced env w c number presentation b =
    let holding = ltb 0 (w.pvt.chan_count call_active) && c.flags.hold_other in
    let hold = if holding then chld2_cmd ∷ [] else [] in
    let h = hold_cmds-nothing holding in
    if-Balanced (presentation == minus_one)
      (dial_number-Balanced env w c hold none number (λ p. ap (occurrences p) h) b)
      (fill_or-Balanced env w (dynamic_cmd AtCmd.clir res_ok flag_ignore 2) (clir_text presentation)
        [] refl b (λ w b. b)
        (λ k w e b.
          dial_number-Balanced env w c (hold ++ (k ∷ [])) k.pointer number
            (λ p. omega (arith, owns_filled p k hold [] e refl, ap (occurrences p) h))
            (record {
              exact = λ p. omega (arith, b.exact p, occurrences-append p (of_option k.pointer) []);
            })))

pub enque_answer-Balanced :
    (env : Env) (w : World) (c : Cpvt) → Balanced w [] → Settled (enque_answer env w c)
unfolding enque_answer free_cmds free_data free_pointer
enque_answer-Balanced env w c b =
    if-Balanced (same_state c.state call_incoming)
      (fill_or-Balanced env w (dyn AtCmd.ata) ata_text [] refl b (λ w b. b)
        (λ a w e b. insert_filled-Balanced env w c.address true a (ddsetex_cmd ∷ []) refl e b))
      (if-Balanced (same_state c.state call_waiting)
        (fill_or-Balanced env w (dyn AtCmd.chld_2x) (chld2x_text c.call_idx) [] refl b (λ w b. b)
          (λ a w e b. insert_filled-Balanced env w c.address true a [] refl e b))
        (unchanged {err = minus_one} b))

pub enque_activate-Balanced :
    (env : Env) (w : World) (c : Cpvt) → Balanced w [] → Settled (enque_activate env w c)
unfolding enque_activate free_cmds free_data free_pointer
enque_activate-Balanced env w c b =
    if-Balanced (same_state c.state call_active) (unchanged {err = 0} b) (
      if-Balanced (not (same_state c.state call_onhold) && not (same_state c.state call_waiting))
        (unchanged {err = minus_one} b)
        (fill_or-Balanced env w (dyn AtCmd.chld_2x) (chld2x_text c.call_idx) [] refl b (λ w b. b)
          (λ a w e b. insert_filled-Balanced env w c.address true a (clcc_cmd ∷ []) refl e b)))

pub enque_retrive_sms-Balanced :
    (env : Env) (w : World) (cpvt index : ℕ) (delete : Bool)
    → Balanced w []
    → Settled (enque_retrive_sms env w cpvt index delete)
unfolding enque_retrive_sms free_cmds
enque_retrive_sms-Balanced env w cpvt index delete b =
    fill_or-Balanced env w (dynamic_cmd AtCmd.cmgr res_cmgr 0 2) (cmgr_text index) [] refl b
      (λ w b. b)
      (λ r w e b.
        if-Balanced delete
          (fill_or-Balanced env w (dyn AtCmd.cmgd) (cmgd_text index) (of_option r.pointer ++ [])
            refl b (λ w b. free_text-Balanced w r.pointer [] b)
            (λ d w f b.
              insert_cmds-Balanced env w cpvt (r ∷ d ∷ []) false _
                (λ p. omega (
                  arith,
                  occurrences-append p (free_data r).1 (free_cmds (d ∷ [])),
                  ap (occurrences p) e,
                  owns_filled p d [] [] f refl,
                  occurrences-append p (of_option r.pointer) [],
                  occurrences-append p (of_option d.pointer) (of_option r.pointer ++ []),
                ))
                b))
          (insert_filled-Balanced env w cpvt false r [] refl e b))

forgotten :
    (b : Bool) (w : World) (loose : List ℕ)
    → Balanced w loose
    → Balanced (if b then record w { pvt = record w.pvt { last_dialed = none } } else w) loose
forgotten true w loose b = record { exact = b.exact }
forgotten false w loose b = b

hang_up_with-Balanced :
    (env : Env) (w : World) (c : Cpvt) (first : Cmd) (loose : List ℕ)
    → (free_data first).1 ≡ loose
    → Balanced w (loose ++ [])
    → Settled (hang_up_with env w c first)
unfolding hang_up_with free_cmds free_data free_pointer
hang_up_with-Balanced env w c first loose e b =
    insert_cmds-Balanced env
      (if same_state c.state call_init
        then record w { pvt = record w.pvt { last_dialed = none } }
        else w)
      c.address (first ∷ clcc_cmd ∷ []) true (loose ++ [])
      (λ p. ap (λ l. occurrences p (l ++ [])) e) (forgotten (same_state c.state call_init) w _ b)

pub enque_hangup-Balanced :
    (env : Env) (w : World) (c : Cpvt) (call_idx : ℕ)
    → Balanced w []
    → Settled (enque_hangup env w c call_idx)
unfolding enque_hangup free_data free_pointer
enque_hangup-Balanced env w c call_idx b =
    if-Balanced
      ((c.address == sys_chan
          || is_incoming c.dir
          || (not (same_state c.state call_init) && not (same_state c.state call_dialing)))
        && ltb 1 w.pvt.chansno)
      (fill_or-Balanced env w (record chup_cmd { cmd = cmd_number AtCmd.chld_1x })
        (chld1x_text call_idx) [] refl b (λ w b. b)
        (λ k w e b. hang_up_with-Balanced env w c k (of_option k.pointer) e b))
      (hang_up_with-Balanced env w c chup_cmd [] refl b)
