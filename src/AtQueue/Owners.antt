-- ===== src/AtQueue/Owners.antt =====
-- The calls that the tasks of the queue belong to: no operation changes the call of a task, and a new
-- task has the call that it is inserted for.
use datacard.Base.{
  ℕ, ◌≡◌, refl, Bool, true, false, not, ◌&&◌, ◌==◌, List, [], ◌∷◌, Option, none, some, ltb,
  Bool-cases, inl, inr, All, All-append, add_uint,
}
use datacard.AtQueue.{
  Timeval, Cmd, Task, Pvt, remove_from, remove, head_cmd, insert_task_in, add, ends_task,
  remove_cmd_from, remove_cmd, handle_result, flush_rounds, flush, set_head_cmd, at_write, run_cmd,
  run_head, run, insert,
}
use datacard.AtQueue.Device.{Outcome, write_all}

module _ (Q : ℕ → Type 0) where
  abbrev pub AreOwned : List Task → Type 0
  AreOwned = All (λ task. Q task.cpvt)

  remove_from-AreOwned :
      (q : List Task) (pvt : Pvt)
      → pvt.at_queue ≡ q
      → AreOwned q
      → AreOwned (remove_from q pvt).at_queue
  unfolding remove_from
  remove_from-AreOwned [] pvt e h = rw e tt
  remove_from-AreOwned (task ∷ rest) pvt e h = h.1

  remove-AreOwned : (pvt : Pvt) → AreOwned pvt.at_queue → AreOwned (remove pvt).at_queue
  unfolding remove
  remove-AreOwned pvt h = remove_from-AreOwned pvt.at_queue pvt refl h

  insert_task_in-AreOwned :
      (prio : Bool) (e : Task) (q : List Task)
      → Q e.cpvt
      → AreOwned q
      → AreOwned (insert_task_in prio e q)
  unfolding insert_task_in
  insert_task_in-AreOwned prio e [] o h = (o, tt)
  insert_task_in-AreOwned true e (t ∷ q) o h = (h.0, (o, h.1))
  insert_task_in-AreOwned false e (t ∷ q) o h = (h.0, All-append _ q (e ∷ []) h.1 (o, tt))

  add-AreOwned :
      (pvt : Pvt) (cpvt : ℕ) (cmds : List Cmd) (n : ℕ) (prio allocated : Bool)
      → Q cpvt
      → AreOwned pvt.at_queue
      → AreOwned (add pvt cpvt cmds n prio allocated).1.at_queue
  unfolding add
  add-AreOwned pvt cpvt cmds n prio allocated o h = elim (Bool-cases (ltb 0 n && allocated)) [
    | inl e ↦ rw e (insert_task_in-AreOwned prio _ pvt.at_queue o h)
    | inr e ↦ rw e h
  ]

  remove_cmd_from-AreOwned :
      (q : List Task) (pvt : Pvt) (res : ℕ)
      → pvt.at_queue ≡ q
      → AreOwned q
      → AreOwned (remove_cmd_from q pvt res).at_queue
  unfolding remove_cmd_from
  remove_cmd_from-AreOwned [] pvt res e h = rw e tt
  remove_cmd_from-AreOwned (task ∷ rest) pvt res e h =
      elim (Bool-cases (ends_task task (add_uint task.cindex 1) res)) [
        | inl t ↦ rw t (remove-AreOwned _ h)
        | inr t ↦ rw t h
      ]

  pub remove_cmd-AreOwned :
      (pvt : Pvt) (res : ℕ) → AreOwned pvt.at_queue → AreOwned (remove_cmd pvt res).at_queue
  unfolding remove_cmd
  remove_cmd-AreOwned pvt res h = remove_cmd_from-AreOwned pvt.at_queue pvt res refl h

  pub handle_result-AreOwned :
      (pvt : Pvt) (res : ℕ) → AreOwned pvt.at_queue → AreOwned (handle_result pvt res).at_queue
  unfolding handle_result
  handle_result-AreOwned pvt res h = remove_cmd-AreOwned pvt res h

  set_head_cmd_on-AreOwned :
      (q : List Task) (pvt : Pvt) (c : Cmd)
      → pvt.at_queue ≡ q
      → AreOwned q
      → AreOwned (set_head_cmd pvt c)
  unfolding set_head_cmd
  set_head_cmd_on-AreOwned [] pvt c e h = rw e tt
  set_head_cmd_on-AreOwned (task ∷ rest) pvt c e h = rw e h

  run_cmd-AreOwned :
      (tvadd : Timeval → Timeval → Timeval) (device : ℕ → Outcome) (now : Timeval) (pvt : Pvt)
      (c : Cmd)
      → AreOwned pvt.at_queue
      → AreOwned (run_cmd tvadd device now pvt c).2.at_queue
  unfolding run_cmd at_write
  run_cmd-AreOwned tvadd device now pvt c h =
      elim (Bool-cases (not ((write_all device c.text c.length).0 == c.length))) [
        | inl e ↦ rw e (remove_cmd-AreOwned _ _ h)
        | inr e ↦ rw e (set_head_cmd_on-AreOwned pvt.at_queue _ _ refl h)
      ]

  run_head-AreOwned :
      (tvadd : Timeval → Timeval → Timeval) (device : ℕ → Outcome) (now : Timeval) (pvt : Pvt)
      (o : Option Cmd)
      → AreOwned pvt.at_queue
      → AreOwned (run_head tvadd device now pvt o).2.at_queue
  unfolding run_head
  run_head-AreOwned tvadd device now pvt none h = h
  run_head-AreOwned tvadd device now pvt (some c) h = elim (Bool-cases (ltb 0 c.length)) [
    | inl e ↦ rw e (run_cmd-AreOwned tvadd device now pvt c h)
    | inr e ↦ rw e h
  ]

  pub run-AreOwned :
      (tvadd : Timeval → Timeval → Timeval) (device : ℕ → Outcome) (now : Timeval) (pvt : Pvt)
      → AreOwned pvt.at_queue
      → AreOwned (run tvadd device now pvt).2.at_queue
  unfolding run
  run-AreOwned tvadd device now pvt h = run_head-AreOwned tvadd device now pvt (head_cmd pvt) h

  pub insert-AreOwned :
      (tvadd : Timeval → Timeval → Timeval) (device : ℕ → Outcome) (now : Timeval) (pvt : Pvt)
      (cpvt : ℕ) (cmds : List Cmd) (n : ℕ) (prio allocated : Bool)
      → Q cpvt
      → AreOwned pvt.at_queue
      → AreOwned (insert tvadd device now pvt cpvt cmds n prio allocated).2.at_queue
  unfolding insert
  insert-AreOwned tvadd device now pvt cpvt cmds n prio allocated o h =
      let w = add-AreOwned pvt cpvt cmds n prio allocated o h in
      elim (Bool-cases (add pvt cpvt cmds n prio allocated).0) [
        | inl e ↦ rw e (run-AreOwned tvadd device now _ w)
        | inr e ↦ rw e (run-AreOwned tvadd device now _ w)
      ]

  flush_rounds-AreOwned :
      (q : List Task) (pvt : Pvt) → AreOwned pvt.at_queue → AreOwned (flush_rounds q pvt).at_queue
  unfolding flush_rounds
  flush_rounds-AreOwned [] pvt h = h
  flush_rounds-AreOwned (task ∷ rest) pvt h =
      flush_rounds-AreOwned rest (remove pvt) (remove-AreOwned pvt h)

  pub flush-AreOwned : (pvt : Pvt) → AreOwned pvt.at_queue → AreOwned (flush pvt).at_queue
  unfolding flush
  flush-AreOwned pvt h = flush_rounds-AreOwned pvt.at_queue pvt h
