-- ===== src/Commands/Enqueue.antt =====
-- at_command.c: the commands for the device.
use datacard.Base.{
  ℕ, ◌-◌, ◌^◌, Bool, true, false, ◌&&◌, ◌||◌, [], ◌∷◌, ◌++◌, leb, ◌==◌, if◌then◌else◌,
}
use datacard.Bytes.{Bytes}
use datacard.Scan.{minus_one}
use datacard.AtQueue.{Cmd, flag_ignore}
use datacard.Calls.{Cpvt}
use datacard.Commands.{
  AtCmd, res_ok, res_cmgr, Env, World, static_cmd, dynamic_cmd, st, dyn, print_int, fill_generic,
  filled_or, filled, free_text, insert_cmds, insert_const_cmds, disallowed, allowed, auto,
}

-- `at_enque_generic`
unfoldable pub enque_generic : Env → World → ℕ → AtCmd → Bytes → ℕ × World
unfolding fill_generic filled_or insert_cmds
enque_generic env w cpvt cmd text =
    filled (fill_generic env w (dyn cmd) text) (λ c w'. insert_cmds env w' cpvt (c ∷ []) true)

abbrev pub clcc_cmd : Cmd
clcc_cmd = st AtCmd.clcc (b'A' ∷ b'T' ∷ b'+' ∷ b'C' ∷ b'L' ∷ b'C' ∷ b'C' ∷ 13 ∷ [])

abbrev pub chld2_cmd : Cmd
chld2_cmd = st AtCmd.chld_2 (b'A' ∷ b'T' ∷ b'+' ∷ b'C' ∷ b'H' ∷ b'L' ∷ b'D' ∷ b'=' ∷ b'2' ∷ 13 ∷ [])

abbrev pub ddsetex_cmd : Cmd
ddsetex_cmd =
    st AtCmd.ddsetex
      (b'A' ∷ b'T' ∷ b'^' ∷ b'D' ∷ b'D' ∷ b'S' ∷ b'E' ∷ b'T' ∷ b'E' ∷ b'X' ∷ b'=' ∷ b'2' ∷ 13 ∷ [])

-- `at_enque_cops`
unfoldable pub enque_cops : Env → World → ℕ → ℕ × World
unfolding insert_const_cmds
enque_cops env w cpvt =
    insert_const_cmds env w cpvt
      (st AtCmd.cops (b'A' ∷ b'T' ∷ b'+' ∷ b'C' ∷ b'O' ∷ b'P' ∷ b'S' ∷ b'?' ∷ 13 ∷ []) ∷ []) false

abbrev pub dtmf_text : ℕ → ℕ → Bytes
dtmf_text call_idx digit =
    (b'A' ∷ b'T' ∷ b'^' ∷ b'D' ∷ b'T' ∷ b'M' ∷ b'F' ∷ b'=' ∷ [])
    ++ (print_int call_idx ++ (b',' ∷ digit ∷ 13 ∷ []))

-- `at_enque_dtmf`: -1974 for the digits that the modem does not know.
abbrev pub is_letter : ℕ → Bool
is_letter d = (leb b'a' d && leb d b'd') || (leb b'A' d && leb d b'D')

abbrev pub is_dialed : ℕ → Bool
is_dialed d = (leb b'0' d && leb d b'9') || d == b'*' || d == b'#'

unfoldable pub enque_dtmf : Env → World → Cpvt → ℕ → ℕ × World
unfolding enque_generic
enque_dtmf env w c digit =
    if is_letter digit
    then (2 ^ 32 - 1974, w)
    else if is_dialed digit
    then enque_generic env w c.address AtCmd.dtmf (dtmf_text c.call_idx digit)
    else (minus_one, w)

-- `at_enque_set_ccwa`, where the setting is an `unsigned`.
abbrev pub ccwa_query : Cmd
ccwa_query = static_cmd AtCmd.ccwa_status flag_ignore 10 (
    b'A' ∷ b'T' ∷ b'+' ∷ b'C' ∷ b'C' ∷ b'W' ∷ b'A' ∷ b'=' ∷ b'1' ∷ b',' ∷ b'2' ∷ b',' ∷ b'1' ∷ 13
    ∷ [])

abbrev pub ccwa_text : Bool → Bytes
ccwa_text on =
    let digit = if on then b'1' else b'0' in
    (b'A' ∷ b'T' ∷ b'+' ∷ b'C' ∷ b'C' ∷ b'W' ∷ b'A' ∷ b'=' ∷ [])
    ++ (digit ∷ b',' ∷ digit ∷ b',' ∷ b'1' ∷ 13 ∷ [])

unfoldable pub enque_set_ccwa : Env → World → ℕ → ℕ → ℕ × World
unfolding fill_generic filled_or insert_cmds
enque_set_ccwa env w cpvt setting =
    if setting == 0 || setting == 1
    then filled
        (fill_generic env w (dynamic_cmd AtCmd.ccwa_set res_ok flag_ignore 10)
          (ccwa_text (setting == 1)))
        (λ c w'.
          insert_cmds env (record w' { callwaiting = if setting == 1 then allowed else disallowed })
            cpvt (c ∷ ccwa_query ∷ []) false)
    else insert_cmds env (record w { callwaiting = auto }) cpvt (ccwa_query ∷ []) false

-- `at_enque_reset`
unfoldable pub enque_reset : Env → World → ℕ → ℕ × World
unfolding insert_const_cmds
enque_reset env w cpvt =
    insert_const_cmds env w cpvt
      (st AtCmd.cfun
          (b'A' ∷ b'T' ∷ b'+' ∷ b'C' ∷ b'F' ∷ b'U' ∷ b'N' ∷ b'=' ∷ b'1' ∷ b',' ∷ b'1' ∷ 13 ∷ [])
        ∷ [])
      false

-- `at_enque_flip_hold`, `at_enque_ping`, `at_enque_user_cmd`
unfoldable pub enque_flip_hold : Env → World → ℕ → ℕ × World
unfolding insert_const_cmds
enque_flip_hold env w cpvt = insert_const_cmds env w cpvt (chld2_cmd ∷ clcc_cmd ∷ []) true

unfoldable pub enque_ping : Env → World → ℕ → ℕ × World
unfolding insert_const_cmds
enque_ping env w cpvt =
    insert_const_cmds env w cpvt (static_cmd AtCmd.at flag_ignore 1 (b'A' ∷ b'T' ∷ 13 ∷ []) ∷ [])
      true

unfoldable pub enque_user_cmd : Env → World → ℕ → Bytes → ℕ × World
unfolding enque_generic
enque_user_cmd env w cpvt input = enque_generic env w cpvt AtCmd.user (input ++ (13 ∷ []))

abbrev pub cmgr_text : ℕ → Bytes
cmgr_text index =
    (b'A' ∷ b'T' ∷ b'+' ∷ b'C' ∷ b'M' ∷ b'G' ∷ b'R' ∷ b'=' ∷ []) ++ (print_int index ++ (13 ∷ []))

abbrev pub cmgd_text : ℕ → Bytes
cmgd_text index =
    (b'A' ∷ b'T' ∷ b'+' ∷ b'C' ∷ b'M' ∷ b'G' ∷ b'D' ∷ b'=' ∷ [])
    ++ (print_int index ++ (13 ∷ 13 ∷ []))

-- `at_enque_retrive_sms`
unfoldable pub enque_retrive_sms : Env → World → ℕ → ℕ → Bool → ℕ × World
unfolding fill_generic filled_or insert_cmds
enque_retrive_sms env w cpvt index delete =
    filled (fill_generic env w (dynamic_cmd AtCmd.cmgr res_cmgr 0 2) (cmgr_text index)) (λ r w'.
      if delete
      then filled_or (free_text r.pointer) (fill_generic env w' (dyn AtCmd.cmgd) (cmgd_text index))
          (λ d w''. insert_cmds env w'' cpvt (r ∷ d ∷ []) false)
      else insert_cmds env w' cpvt (r ∷ []) false)

-- `at_enque_volsync`, `at_enque_clcc`, `at_enque_conference`
unfoldable pub enque_volsync : Env → World → ℕ → ℕ × World
unfolding insert_const_cmds
enque_volsync env w cpvt =
    insert_const_cmds env w cpvt
      (st AtCmd.clvl (b'A' ∷ b'T' ∷ b'+' ∷ b'C' ∷ b'L' ∷ b'V' ∷ b'L' ∷ b'=' ∷ b'1' ∷ 13 ∷ [])
        ∷ st AtCmd.clvl (b'A' ∷ b'T' ∷ b'+' ∷ b'C' ∷ b'L' ∷ b'V' ∷ b'L' ∷ b'=' ∷ b'5' ∷ 13 ∷ [])
        ∷ [])
      true

unfoldable pub enque_clcc : Env → World → ℕ → ℕ × World
unfolding insert_const_cmds
enque_clcc env w cpvt = insert_const_cmds env w cpvt (clcc_cmd ∷ []) true

unfoldable pub enque_conference : Env → World → ℕ → ℕ × World
unfolding insert_const_cmds
enque_conference env w cpvt =
    insert_const_cmds env w cpvt
      (st AtCmd.chld_3 (b'A' ∷ b'T' ∷ b'+' ∷ b'C' ∷ b'H' ∷ b'L' ∷ b'D' ∷ b'=' ∷ b'3' ∷ 13 ∷ [])
        ∷ clcc_cmd
        ∷ [])
      true
