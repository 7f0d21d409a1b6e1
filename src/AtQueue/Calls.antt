-- ===== src/AtQueue/Calls.antt =====
-- Sequences of calls of the queue's operations, with any answers, devices and commands.
use datacard.Base.{ℕ, ◌+◌, ◌^◌, ◌<◌, Bool, List, length, Bool-cases, inl, inr}
use datacard.AtQueue.{Timeval, Cmd, Pvt, add, handle_result, run, flush, insert_const, insert}
use datacard.AtQueue.Device.{Outcome}
use datacard.AtQueue.View.{IsValid, count_cmds}
use datacard.AtQueue.Remove.{handle_result-respond, flush-empty}
use datacard.AtQueue.Insert.{add-enqueue}
use datacard.AtQueue.Write.{run-IsValid}

module _ (tvadd : Timeval → Timeval → Timeval) where
  -- Inserting keeps the invariant, whether the task is added and whether it can be written at once.
  pub insert_const-IsValid :
      (device : ℕ → Outcome) (now : Timeval) (pvt : Pvt) (cpvt : ℕ) (cmds : List Cmd)
      (athead allocated : Bool)
      → IsValid pvt
      → length cmds + count_cmds pvt.at_queue < 2 ^ 32
      → IsValid (insert_const tvadd device now pvt cpvt cmds (length cmds) athead allocated).2
  unfolding insert_const
  insert_const-IsValid device now pvt cpvt cmds athead allocated v h =
      let (v', e, w) = add-enqueue pvt cpvt cmds athead allocated v h in
      elim (Bool-cases (add pvt cpvt cmds (length cmds) athead allocated).0) [
        | inl b ↦ rw b (run-IsValid tvadd device now _ v')
        | inr b ↦ rw b v'
      ]

  pub insert-IsValid :
      (device : ℕ → Outcome) (now : Timeval) (pvt : Pvt) (cpvt : ℕ) (cmds : List Cmd)
      (athead allocated : Bool)
      → IsValid pvt
      → length cmds + count_cmds pvt.at_queue < 2 ^ 32
      → IsValid (insert tvadd device now pvt cpvt cmds (length cmds) athead allocated).2
  unfolding insert
  insert-IsValid device now pvt cpvt cmds athead allocated v h =
      let (v', e, w) = add-enqueue pvt cpvt cmds athead allocated v h in
      elim (Bool-cases (add pvt cpvt cmds (length cmds) athead allocated).0) [
        | inl b ↦ rw b (run-IsValid tvadd device now _ v')
        | inr b ↦ rw b (
            run-IsValid tvadd device now _ (record {
              tasks = v'.tasks;
              at_tasks = v'.at_tasks;
              at_cmds = v'.at_cmds;
              small = v'.small;
            }))
      ]

  -- One call of an operation. An insertion is possible while the counter of commands does not
  -- overflow.
  pub data Step (pvt : Pvt) : Pvt → Type 0 where
    inserted :
        (device : ℕ → Outcome) (now : Timeval) (cpvt : ℕ) (cmds : List Cmd)
        (athead allocated : Bool)
        → length cmds + count_cmds pvt.at_queue < 2 ^ 32
        → Step pvt (insert tvadd device now pvt cpvt cmds (length cmds) athead allocated).2
    inserted_const :
        (device : ℕ → Outcome) (now : Timeval) (cpvt : ℕ) (cmds : List Cmd)
        (athead allocated : Bool)
        → length cmds + count_cmds pvt.at_queue < 2 ^ 32
        → Step pvt (insert_const tvadd device now pvt cpvt cmds (length cmds) athead allocated).2
    answered : (res : ℕ) → Step pvt (handle_result pvt res)
    ran : (device : ℕ → Outcome) (now : Timeval) → Step pvt (run tvadd device now pvt).2
    flushed : Step pvt (flush pvt)

  pub data Calls (pvt : Pvt) : Pvt → Type 0 where
    here : Calls pvt pvt
    next : {a b : Pvt} → Calls pvt a → Step a b → Calls pvt b

  Step-IsValid : {a b : Pvt} → Step a b → IsValid a → IsValid b
  Step-IsValid {a} (inserted device now cpvt cmds athead allocated h) v =
      insert-IsValid device now a cpvt cmds athead allocated v h
  Step-IsValid {a} (inserted_const device now cpvt cmds athead allocated h) v =
      insert_const-IsValid device now a cpvt cmds athead allocated v h
  Step-IsValid {a} (answered res) v = (handle_result-respond a res v).0
  Step-IsValid {a} (ran device now) v = run-IsValid tvadd device now a v
  Step-IsValid {a} flushed v = (flush-empty a v).0

  -- Whatever calls are made of a valid queue, with any answers of the modem and any behaviour of the
  -- device, it stays valid: each task in it has a command left, and the two counters are the
  -- numbers of its tasks and of its commands without an answer.
  pub Calls-IsValid : {a b : Pvt} → IsValid a → Calls a b → IsValid b
  Calls-IsValid v here = v
  Calls-IsValid v (next r s) = Step-IsValid s (Calls-IsValid v r)
