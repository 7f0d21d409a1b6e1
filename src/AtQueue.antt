-- ===== src/AtQueue.antt =====
-- at_queue.h and at_queue.c: the queue of tasks, each a list of AT commands, that the modem is given
-- one by one. A pointer to a command's text is a number, and `freed` lists the pointers handed to
-- `ast_free`. `ast_tvadd`, `ast_tvnow`, the result of `ast_malloc` and the device are arguments.
pub mod Device
pub mod View
pub mod Remove
pub mod Insert
pub mod Write
pub mod Calls
pub mod Owners
pub mod Added
mod Tests
pub mod Owned
use datacard.Base.{
  ℕ, zero, suc, ◌+◌, ◌-◌, bit_and, Bool, true, false, not, ◌&&◌, ◌||◌, List, [], ◌∷◌, ◌++◌, Option,
  none, some, ltb, leb, ◌==◌, if◌then◌else◌, get_elem?, set, length, add_uint, sub_uint,
}
use datacard.Bytes.{Bytes}
use datacard.AtQueue.Device.{Outcome, write_all}

pub record Timeval : Type 0 where
  pub tv_sec : ℕ
  pub tv_usec : ℕ

abbrev pub flag_static : ℕ
flag_static = 1

abbrev pub flag_ignore : ℕ
flag_ignore = 2

-- `at_queue_cmd_t`; `text` is what `data` points at.
pub record Cmd : Type 0 where
  pub cmd : ℕ
  pub res : ℕ
  pub flags : ℕ
  pub timeout : Timeval
  pub pointer : Option ℕ
  pub text : Bytes
  pub length : ℕ

-- `at_queue_task_t`
pub record Task : Type 0 where
  pub cmdsno : ℕ
  pub cindex : ℕ
  pub cpvt : ℕ
  pub cmds : List Cmd

-- The fields of `struct pvt` that the queue uses.
pub record Pvt : Type 0 where
  pub at_queue : List Task
  pub at_tasks : ℕ
  pub at_cmds : ℕ
  pub stat_at_tasks : ℕ
  pub stat_at_cmds : ℕ
  pub d_write_bytes : ℕ
  pub freed : List ℕ

abbrev pub is_static : Cmd → Bool
is_static c = not (bit_and c.flags flag_static == 0)

abbrev pub ignores : Cmd → Bool
ignores c = not (bit_and c.flags flag_ignore == 0)

-- `at_queue_free_data`, with the pointers that it frees.
unfoldable pub free_pointer : Bool → Cmd → Option ℕ → Cmd × List ℕ
free_pointer s c none = (record c { length = 0 }, [])
free_pointer false c (some p) = (record c { pointer = none; length = 0 }, p ∷ [])
free_pointer true c (some p) = (record c { length = 0 }, [])

unfoldable pub free_data : Cmd → Cmd × List ℕ
unfolding free_pointer
free_data c = free_pointer (is_static c) c c.pointer

-- The loop of `at_queue_free`.
unfoldable pub free_cmds : List Cmd → List ℕ
free_cmds [] = []
free_cmds (c ∷ cs) = (free_data c).1 ++ free_cmds cs

-- `at_queue_remove`
pub remove_from : List Task → Pvt → Pvt
remove_from [] pvt = pvt
remove_from (task ∷ rest) pvt = record pvt {
  at_queue = rest;
  at_tasks = sub_uint pvt.at_tasks 1;
  at_cmds = sub_uint pvt.at_cmds (sub_uint task.cmdsno task.cindex);
  freed = pvt.freed ++ free_cmds task.cmds;
}

pub remove : Pvt → Pvt
remove pvt = remove_from pvt.at_queue pvt

-- AST_LIST_FIRST, `at_queue_head_task` and `at_queue_task_cmd`
pub first_task : List Task → Option Task
first_task [] = none
first_task (task ∷ rest) = some task

pub head_task : Pvt → Option Task
head_task pvt = first_task pvt.at_queue

pub task_cmd : Option Task → Option Cmd
task_cmd none = none
task_cmd (some task) = get_elem? task.cmds task.cindex

-- `at_queue_head_cmd` and `at_queue_head_cmd_nc`
pub head_cmd : Pvt → Option Cmd
head_cmd pvt = task_cmd (head_task pvt)

-- AST_LIST_INSERT_AFTER the first task, or AST_LIST_INSERT_TAIL
pub insert_task_in : Bool → Task → List Task → List Task
insert_task_in prio e [] = e ∷ []
insert_task_in prio e (first ∷ rest) = if prio then first ∷ e ∷ rest else first ∷ (rest ++ (e ∷ []))

-- `at_queue_add`; `allocated` is whether `ast_malloc` gives memory. The result is whether it returns
-- a task.
pub add : Pvt → ℕ → List Cmd → ℕ → Bool → Bool → Bool × Pvt
add pvt cpvt cmds cmdsno prio allocated =
    if ltb 0 cmdsno && allocated
    then (
      true,
      record pvt {
        at_queue =
            insert_task_in prio (record { cmdsno = cmdsno; cindex = 0; cpvt = cpvt; cmds = cmds })
              pvt.at_queue;
        at_tasks = add_uint pvt.at_tasks 1;
        at_cmds = add_uint pvt.at_cmds cmdsno;
        stat_at_tasks = add_uint pvt.stat_at_tasks 1;
        stat_at_cmds = add_uint pvt.stat_at_cmds cmdsno;
      },
    )
    else (false, pvt)

-- The condition under which `at_queue_remove_cmd` drops the whole task, on the command at the old
-- index; `cindex` is the new one.
pub ends_task : Task → ℕ → ℕ → Bool
ends_task task cindex res = leb task.cmdsno cindex || elim (get_elem? task.cmds task.cindex) [
  | none ↦ true
  | some c ↦ not (c.res == res) && not (ignores c)
]

-- `at_queue_remove_cmd`
pub remove_cmd_from : List Task → Pvt → ℕ → Pvt
remove_cmd_from [] pvt res = pvt
remove_cmd_from (task ∷ rest) pvt res =
    let cindex = add_uint task.cindex 1 in
    let pvt' = record pvt {
      at_queue = record task { cindex = cindex } ∷ rest;
      at_cmds = sub_uint pvt.at_cmds 1;
    } in
    if ends_task task cindex res then remove pvt' else pvt'

pub remove_cmd : Pvt → ℕ → Pvt
remove_cmd pvt res = remove_cmd_from pvt.at_queue pvt res

-- `at_queue_handle_result`
pub handle_result : Pvt → ℕ → Pvt
handle_result pvt res = remove_cmd pvt res

-- `at_queue_flush`: each round takes the first task out.
flush_rounds : List Task → Pvt → Pvt
flush_rounds [] pvt = pvt
flush_rounds (task ∷ rest) pvt = flush_rounds rest (remove pvt)

pub flush : Pvt → Pvt
flush pvt = flush_rounds pvt.at_queue pvt

-- A write through the pointer to the current command of the first task.
pub set_head_cmd : Pvt → Cmd → List Task
set_head_cmd pvt c = elim pvt.at_queue [
  | [] ↦ []
  | task ∷ rest ↦ record task { cmds = set task.cmds task.cindex c } ∷ rest
]

-- `at_queue_timeout`: -1 is `none`.
pub timeout : (Timeval → Timeval → ℕ) → Timeval → Pvt → Option ℕ
timeout tvdiff_ms now pvt = elim (head_cmd pvt) [
  | none ↦ none
  | some c ↦ if c.length == 0 then some (tvdiff_ms c.timeout now) else none
]

-- `tvadd` and `now` are `ast_tvadd` and `ast_tvnow ()`; `device` gives the outcome of each `write`.
module _ (tvadd : Timeval → Timeval → Timeval) where
  -- `at_write`: whether it fails, the bytes that went out, and the count of bytes written.
  unfoldable pub at_write : (ℕ → Outcome) → Pvt → Bytes → ℕ → Bool × Bytes × Pvt
  at_write device pvt text n =
      let (wrote, out) = write_all device text n in
      (not (wrote == n), out, record pvt { d_write_bytes = add_uint pvt.d_write_bytes wrote })

  -- The body of `at_queue_run` for a command that is not written yet.
  pub run_cmd : (ℕ → Outcome) → Timeval → Pvt → Cmd → Bool × Bytes × Pvt
  run_cmd device now pvt c =
      let (fail, out, pvt') = at_write device pvt c.text c.length in
      let (c', p) = free_data (record c { timeout = tvadd now c.timeout }) in
      if fail
      then (true, out, remove_cmd pvt' (add_uint c.res 1))
      else (false, out, record pvt' { at_queue = set_head_cmd pvt' c'; freed = pvt.freed ++ p })

  -- `at_queue_run`
  pub run_head : (ℕ → Outcome) → Timeval → Pvt → Option Cmd → Bool × Bytes × Pvt
  run_head device now pvt none = (false, [], pvt)
  run_head device now pvt (some c) =
      if ltb 0 c.length then run_cmd device now pvt c else (false, [], pvt)

  pub run : (ℕ → Outcome) → Timeval → Pvt → Bool × Bytes × Pvt
  run device now pvt = run_head device now pvt (head_cmd pvt)

  -- `at_queue_insert_const`: the queue is not run when no task was added.
  pub insert_const :
      (ℕ → Outcome) → Timeval → Pvt → ℕ → List Cmd → ℕ → Bool → Bool → Bool × Bytes × Pvt
  insert_const device now pvt cpvt cmds cmdsno athead allocated =
      let (added, pvt') = add pvt cpvt cmds cmdsno athead allocated in
      if added then run device now pvt' else (true, [], pvt')

  -- `at_queue_insert_task` and `at_queue_insert`: the texts are freed when no task was added, and the
  -- queue is run in any case.
  pub insert : (ℕ → Outcome) → Timeval → Pvt → ℕ → List Cmd → ℕ → Bool → Bool → Bool × Bytes × Pvt
  insert device now pvt cpvt cmds cmdsno athead allocated =
      let (added, pvt') = add pvt cpvt cmds cmdsno athead allocated in
      let pvt'' = if added then pvt' else record pvt' { freed = pvt'.freed ++ free_cmds cmds } in
      let (fail, out, after) = run device now pvt'' in (not added || fail, out, after)
