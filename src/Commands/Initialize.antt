-- ===== src/Commands/Initialize.antt =====
-- at_command.c: the commands that a device is initialised with, from a given one of them on.
use datacard.Base.{
  ℕ, Bool, false, not, ◌&&◌, ◌||◌, List, [], ◌∷◌, ◌++◌, Option, none, some, ◌==◌, if◌then◌else◌,
}
use datacard.Bytes.{Bytes}
use datacard.Scan.{minus_one}
use datacard.AtQueue.{Cmd, flag_ignore}
use datacard.Commands.{
  AtCmd, cmd_number, Env, World, st, dyn, static_cmd, print_int, fill_generic, free_text,
  insert_cmds,
}

-- The options of the device that the list depends on; -1 for `u2diag` is `minus_one`.
pub record Options : Type 0 where
  pub resetdatacard : Bool
  pub u2diag : ℕ
  pub smsaspdu : Bool

-- `st_cmds`
abbrev pub st_cmds : List Cmd
st_cmds =
    st AtCmd.at (b'A' ∷ b'T' ∷ 13 ∷ [])
    ∷ st AtCmd.atz (b'A' ∷ b'T' ∷ b'Z' ∷ 13 ∷ [])
    ∷ st AtCmd.ate (b'A' ∷ b'T' ∷ b'E' ∷ b'0' ∷ 13 ∷ [])
    ∷ dyn AtCmd.u2diag
    ∷ st AtCmd.cgmi (b'A' ∷ b'T' ∷ b'+' ∷ b'C' ∷ b'G' ∷ b'M' ∷ b'I' ∷ 13 ∷ [])
    ∷ st AtCmd.cgmm (b'A' ∷ b'T' ∷ b'+' ∷ b'C' ∷ b'G' ∷ b'M' ∷ b'M' ∷ 13 ∷ [])
    ∷ st AtCmd.cgmr (b'A' ∷ b'T' ∷ b'+' ∷ b'C' ∷ b'G' ∷ b'M' ∷ b'R' ∷ 13 ∷ [])
    ∷ st AtCmd.cmee (b'A' ∷ b'T' ∷ b'+' ∷ b'C' ∷ b'M' ∷ b'E' ∷ b'E' ∷ b'=' ∷ b'0' ∷ 13 ∷ [])
    ∷ st AtCmd.cgsn (b'A' ∷ b'T' ∷ b'+' ∷ b'C' ∷ b'G' ∷ b'S' ∷ b'N' ∷ 13 ∷ [])
    ∷ st AtCmd.cimi (b'A' ∷ b'T' ∷ b'+' ∷ b'C' ∷ b'I' ∷ b'M' ∷ b'I' ∷ 13 ∷ [])
    ∷ st AtCmd.cpin (b'A' ∷ b'T' ∷ b'+' ∷ b'C' ∷ b'P' ∷ b'I' ∷ b'N' ∷ b'?' ∷ 13 ∷ [])
    ∷ st AtCmd.cops_init
        (b'A' ∷ b'T' ∷ b'+' ∷ b'C' ∷ b'O' ∷ b'P' ∷ b'S' ∷ b'=' ∷ b'0' ∷ b',' ∷ b'0' ∷ 13 ∷ [])
    ∷ static_cmd AtCmd.creg_init flag_ignore 2
        (b'A' ∷ b'T' ∷ b'+' ∷ b'C' ∷ b'R' ∷ b'E' ∷ b'G' ∷ b'=' ∷ b'2' ∷ 13 ∷ [])
    ∷ st AtCmd.creg (b'A' ∷ b'T' ∷ b'+' ∷ b'C' ∷ b'R' ∷ b'E' ∷ b'G' ∷ b'?' ∷ 13 ∷ [])
    ∷ st AtCmd.cnum (b'A' ∷ b'T' ∷ b'+' ∷ b'C' ∷ b'N' ∷ b'U' ∷ b'M' ∷ 13 ∷ [])
    ∷ st AtCmd.cvoice
        (b'A' ∷ b'T' ∷ b'^' ∷ b'C' ∷ b'V' ∷ b'O' ∷ b'I' ∷ b'C' ∷ b'E' ∷ b'?' ∷ 13 ∷ [])
    ∷ st AtCmd.csca (b'A' ∷ b'T' ∷ b'+' ∷ b'C' ∷ b'S' ∷ b'C' ∷ b'A' ∷ b'?' ∷ 13 ∷ [])
    ∷ st AtCmd.cssn
        (b'A' ∷ b'T' ∷ b'+' ∷ b'C' ∷ b'S' ∷ b'S' ∷ b'N' ∷ b'=' ∷ b'1' ∷ b',' ∷ b'1' ∷ 13 ∷ [])
    ∷ dyn AtCmd.cmgf
    ∷ static_cmd AtCmd.cscs flag_ignore 2 (
        b'A' ∷ b'T' ∷ b'+' ∷ b'C' ∷ b'S' ∷ b'C' ∷ b'S' ∷ b'=' ∷ b'"' ∷ b'U' ∷ b'C' ∷ b'S' ∷ b'2'
        ∷ b'"' ∷ 13 ∷ [])
    ∷ st AtCmd.cpms (
        b'A' ∷ b'T' ∷ b'+' ∷ b'C' ∷ b'P' ∷ b'M' ∷ b'S' ∷ b'=' ∷ b'"' ∷ b'M' ∷ b'E' ∷ b'"' ∷ b','
        ∷ b'"' ∷ b'M' ∷ b'E' ∷ b'"' ∷ b',' ∷ b'"' ∷ b'M' ∷ b'E' ∷ b'"' ∷ 13 ∷ [])
    ∷ st AtCmd.cnmi (
        b'A' ∷ b'T' ∷ b'+' ∷ b'C' ∷ b'N' ∷ b'M' ∷ b'I' ∷ b'=' ∷ b'2' ∷ b',' ∷ b'1' ∷ b',' ∷ b'0'
        ∷ b',' ∷ b'0' ∷ b',' ∷ b'0' ∷ 13 ∷ [])
    ∷ st AtCmd.csq (b'A' ∷ b'T' ∷ b'+' ∷ b'C' ∷ b'S' ∷ b'Q' ∷ 13 ∷ [])
    ∷ []

abbrev pub is_cmd : AtCmd → Cmd → Bool
is_cmd cmd c = c.cmd == cmd_number cmd

-- The rounds of the loop before `begin` is set.
abbrev pub since : AtCmd → List Cmd → List Cmd
since from [] = []
since from (c ∷ cs) = if is_cmd from c then c ∷ cs else since from cs

-- What one round puts behind `cmds`; `none` for the jump to `failure`.
unfoldable pub one_filled : Option Cmd × World → Option (List Cmd) × World
one_filled (none, w) = (none, w)
one_filled (some c, w) = (some (c ∷ []), w)

abbrev pub u2diag_text : ℕ → Bytes
u2diag_text u2diag =
    (b'A' ∷ b'T' ∷ b'^' ∷ b'U' ∷ b'2' ∷ b'D' ∷ b'I' ∷ b'A' ∷ b'G' ∷ b'=' ∷ [])
    ++ (print_int u2diag ++ (13 ∷ []))

abbrev pub cmgf_text : Bool → Bytes
cmgf_text smsaspdu =
    (b'A' ∷ b'T' ∷ b'+' ∷ b'C' ∷ b'M' ∷ b'G' ∷ b'F' ∷ b'=' ∷ [])
    ++ ((if smsaspdu then b'0' else b'1') ∷ 13 ∷ [])

-- A command that the device's options leave out.
abbrev pub is_left_out : Options → Cmd → Bool
is_left_out options c =
    (is_cmd AtCmd.atz c && not options.resetdatacard)
    || (is_cmd AtCmd.u2diag c && options.u2diag == minus_one)

unfoldable pub customize : Env → Options → World → Cmd → Option (List Cmd) × World
unfolding fill_generic one_filled
customize env options w c =
    if is_left_out options c
    then (some [], w)
    else if is_cmd AtCmd.u2diag c
    then one_filled (fill_generic env w c (u2diag_text options.u2diag))
    else if is_cmd AtCmd.cmgf c
    then one_filled (fill_generic env w c (cmgf_text options.smsaspdu))
    else (some (c ∷ []), w)

-- `ptmp1` and `ptmp2`, freed at `failure`: the texts of the commands put out so far.
abbrev pub free_texts : List Cmd → World → World
free_texts [] w = w
free_texts (c ∷ cs) w = free_texts cs (free_text c.pointer w)

-- The loop over the rest of `st_cmds`.
abbrev pub then_customize :
    List Cmd
    → Option (List Cmd) × World
    → (List Cmd → World → Option (List Cmd) × World)
    → Option (List Cmd) × World
then_customize out (none, w) next = (none, free_texts out w)
then_customize out (some cs, w) next = next (out ++ cs) w

unfoldable pub customize_all :
    Env → Options → List Cmd → List Cmd → World → Option (List Cmd) × World
unfolding customize
customize_all env options [] out w = (some out, w)
customize_all env options (c ∷ cs) out w =
    then_customize out (customize env options w c) (λ out' w'. customize_all env options cs out' w')

-- `if (out > 0) return at_queue_insert (cpvt, cmds, out, 0)`
unfoldable pub insert_customized : Env → ℕ → Option (List Cmd) × World → ℕ × World
unfolding insert_cmds
insert_customized env cpvt (none, w) = (minus_one, w)
insert_customized env cpvt (some [], w) = (0, w)
insert_customized env cpvt (some (c ∷ cs), w) = insert_cmds env w cpvt (c ∷ cs) false

-- `at_enque_initialization`
unfoldable pub enque_initialization : Env → Options → World → ℕ → AtCmd → ℕ × World
unfolding customize_all insert_customized
enque_initialization env options w cpvt from =
    insert_customized env cpvt (customize_all env options (since from st_cmds) [] w)
