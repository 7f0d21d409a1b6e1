-- ===== src/Commands/OfCall.antt =====
-- at_command.c: the commands for a call.
use datacard.Base.{
  ℕ, Bool, true, false, not, ◌&&◌, ◌||◌, List, [], ◌∷◌, ◌++◌, Option, none, ltb, ◌==◌,
  if◌then◌else◌, length, take,
}
use datacard.Bytes.{Bytes}
use datacard.Scan.{minus_one}
use datacard.AtQueue
use datacard.AtQueue.{Timeval, Cmd, flag_static, flag_ignore}
use datacard.Calls.{
  Cpvt, Direction, incoming, outgoing, call_active, call_onhold, call_dialing, call_incoming,
  call_waiting, call_init, same_state, sys_chan, update_call,
}
use datacard.Commands.{
  AtCmd, cmd_number, res_ok, Env, World, dynamic_cmd, st, dyn, print_int, fill_generic, filled_or,
  filled, free_text, with_queue, insert_cmds,
}
use datacard.Commands.Enqueue.{clcc_cmd, chld2_cmd, ddsetex_cmd}

-- CPVT_SET_FLAGS (cpvt, CALL_FLAG_NEED_HANGUP)
abbrev pub mark_hangup : ℕ → World → World
mark_hangup p w = record w {
  pvt = record w.pvt {
    chans =
        update_call p (λ c. record c { flags = record c.flags { need_hangup = true } }) w.pvt.chans;
  };
}

abbrev pub atd_text : Bytes → Bytes
atd_text number = (b'A' ∷ b'T' ∷ b'D' ∷ []) ++ (number ++ (b';' ∷ 13 ∷ []))

abbrev pub clir_text : ℕ → Bytes
clir_text presentation =
    (b'A' ∷ b'T' ∷ b'+' ∷ b'C' ∷ b'L' ∷ b'I' ∷ b'R' ∷ b'=' ∷ [])
    ++ (print_int presentation ++ (13 ∷ []))

-- The part of `at_enque_dial` from ATD on; `cmds` are the commands before it.
unfoldable pub dial_number : Env → World → Cpvt → List Cmd → Option ℕ → Bytes → ℕ × World
unfolding fill_generic filled_or insert_cmds
dial_number env w c cmds tmp number =
    filled_or (free_text tmp)
      (fill_generic env w (dynamic_cmd AtCmd.atd res_ok flag_ignore 2) (atd_text number))
      (λ d w'.
        let (err, after) =
          insert_cmds env w' c.address (cmds ++ (d ∷ clcc_cmd ∷ ddsetex_cmd ∷ [])) true in
        (err, if err == 0 then mark_hangup c.address after else after))

-- `at_enque_dial`
unfoldable pub enque_dial : Env → World → Cpvt → Bytes → ℕ → ℕ × World
unfolding dial_number
enque_dial env w c number presentation =
    let hold =
      if ltb 0 (w.pvt.chan_count call_active) && c.flags.hold_other then chld2_cmd ∷ [] else [] in
    if presentation == minus_one
    then dial_number env w c hold none number
    else filled
        (fill_generic env w (dynamic_cmd AtCmd.clir res_ok flag_ignore 2) (clir_text presentation))
        (λ k w'. dial_number env w' c (hold ++ (k ∷ [])) k.pointer number)

-- `AT+CHLD=2%d`
abbrev pub chld2x_text : ℕ → Bytes
chld2x_text call_idx =
    (b'A' ∷ b'T' ∷ b'+' ∷ b'C' ∷ b'H' ∷ b'L' ∷ b'D' ∷ b'=' ∷ b'2' ∷ [])
    ++ (print_int call_idx ++ (13 ∷ []))

abbrev pub ata_text : Bytes
ata_text = (b'A' ∷ b'T' ∷ b'A' ∷ 13 ∷ [])

-- `at_enque_answer`
unfoldable pub enque_answer : Env → World → Cpvt → ℕ × World
unfolding fill_generic filled_or insert_cmds
enque_answer env w c =
    if same_state c.state call_incoming
    then filled (fill_generic env w (dyn AtCmd.ata) ata_text)
        (λ a w'. insert_cmds env w' c.address (a ∷ ddsetex_cmd ∷ []) true)
    else if same_state c.state call_waiting
    then filled (fill_generic env w (dyn AtCmd.chld_2x) (chld2x_text c.call_idx))
        (λ a w'. insert_cmds env w' c.address (a ∷ []) true)
    else (minus_one, w)

-- `at_enque_activate`
unfoldable pub enque_activate : Env → World → Cpvt → ℕ × World
unfolding fill_generic filled_or insert_cmds
enque_activate env w c =
    if same_state c.state call_active
    then (0, w)
    else if not (same_state c.state call_onhold) && not (same_state c.state call_waiting)
    then (minus_one, w)
    else filled (fill_generic env w (dyn AtCmd.chld_2x) (chld2x_text c.call_idx))
        (λ a w'. insert_cmds env w' c.address (a ∷ clcc_cmd ∷ []) true)

-- `AT+CHLD=1%d`
abbrev pub chld1x_text : ℕ → Bytes
chld1x_text call_idx =
    (b'A' ∷ b'T' ∷ b'+' ∷ b'C' ∷ b'H' ∷ b'L' ∷ b'D' ∷ b'=' ∷ b'1' ∷ [])
    ++ (print_int call_idx ++ (13 ∷ []))

abbrev pub chup_cmd : Cmd
chup_cmd = st AtCmd.chup (b'A' ∷ b'T' ∷ b'+' ∷ b'C' ∷ b'H' ∷ b'U' ∷ b'P' ∷ 13 ∷ [])

-- The end of `at_enque_hangup`; `first` is AT+CHUP or AT+CHLD=1x.
unfoldable pub hang_up_with : Env → World → Cpvt → Cmd → ℕ × World
unfolding insert_cmds
hang_up_with env w c first =
    insert_cmds env
      (if same_state c.state call_init
        then record w { pvt = record w.pvt { last_dialed = none } }
        else w)
      c.address (first ∷ clcc_cmd ∷ []) true

abbrev pub is_incoming : Direction → Bool
is_incoming incoming = true
is_incoming outgoing = false

-- `at_enque_hangup`
unfoldable pub enque_hangup : Env → World → Cpvt → ℕ → ℕ × World
unfolding fill_generic filled_or hang_up_with
enque_hangup env w c call_idx =
    if (c.address == sys_chan
        || is_incoming c.dir
        || (not (same_state c.state call_init) && not (same_state c.state call_dialing)))
      && ltb 1 w.pvt.chansno
    then filled
        (fill_generic env w (record chup_cmd { cmd = cmd_number AtCmd.chld_1x })
          (chld1x_text call_idx))
        (λ k w'. hang_up_with env w' c k)
    else hang_up_with env w c chup_cmd

-- `at_hangup_immediality`: `snprintf` keeps 19 characters, and `at_write` is given the whole length.
unfoldable pub hangup_immediality : Env → World → Cpvt → World
hangup_immediality env w c =
    let text = chld1x_text c.call_idx in
    let (fail, out, queue) =
      AtQueue.at_write env.tvadd env.device w.pvt.queue (take 19 text) (length text) in
    with_queue w out queue
