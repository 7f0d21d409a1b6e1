-- ===== src/AtQueue/Added.antt =====
-- Inserting a task: the queue owns the texts of its commands, or they are freed.
use datacard.Base.{
  ℕ, ◌+◌, ◌≡◌, ap, ◌∙◌, Bool, true, false, ◌&&◌, List, [], ◌∷◌, ◌++◌, arith, ltb, if◌then◌else◌,
  Bool-cases, inl, inr,
}
use datacard.AtQueue.{Timeval, Pvt, Cmd, Task, free_cmds, insert_task_in, add, insert, insert_const}
use datacard.AtQueue.Device.{Outcome}
use datacard.AtQueue.Owned.{occurrences, owned, total, occurrences-append, run-total}

owned-insert_task_in :
    (p : ℕ) (prio : Bool) (e : Task) (q : List Task)
    → occurrences p (owned (insert_task_in prio e q))
      ≡ occurrences p (owned q) + occurrences p (free_cmds e.cmds)
unfolding insert_task_in
owned-insert_task_in p prio e [] = omega (arith, occurrences-append p (free_cmds e.cmds) [])
owned-insert_task_in p true e (t ∷ q) =
    let a = occurrences-append p (free_cmds t.cmds) (free_cmds e.cmds ++ owned q) in
    let b = occurrences-append p (free_cmds e.cmds) (owned q) in
    let c = occurrences-append p (free_cmds t.cmds) (owned q) in omega arith
owned-insert_task_in p false e (t ∷ q) =
    let a = occurrences-append p (free_cmds t.cmds) (owned (q ++ (e ∷ []))) in
    let b = occurrences-append p (free_cmds t.cmds) (owned q) in omega (arith, owned-last q)
  where
    owned-last :
        (q : List Task)
        → occurrences p (owned (q ++ (e ∷ [])))
          ≡ occurrences p (owned q) + occurrences p (free_cmds e.cmds)
    owned-last [] = omega (arith, occurrences-append p (free_cmds e.cmds) [])
    owned-last (t ∷ q) =
        let a = occurrences-append p (free_cmds t.cmds) (owned (q ++ (e ∷ []))) in
        let b = occurrences-append p (free_cmds t.cmds) (owned q) in omega (arith, owned-last q)

-- A task that is added owns the texts of its commands; otherwise nothing is added.
add-total :
    (p : ℕ) (pvt : Pvt) (cpvt : ℕ) (cmds : List Cmd) (n : ℕ) (prio allocated : Bool)
    → total p (add pvt cpvt cmds n prio allocated).1
      ≡ total p pvt
        + (if (add pvt cpvt cmds n prio allocated).0 then occurrences p (free_cmds cmds) else 0)
unfolding add
add-total p pvt cpvt cmds n prio allocated = elim (Bool-cases (ltb 0 n && allocated)) [
  | inl e ↦ rw e (
      omega (
        arith,
        owned-insert_task_in p prio (record { cmdsno = n; cindex = 0; cpvt = cpvt; cmds = cmds })
            pvt.at_queue,
      ))
  | inr e ↦ rw e (omega arith)
]

pub insert-total :
    (tvadd : Timeval → Timeval → Timeval) (device : ℕ → Outcome) (now : Timeval) (p : ℕ) (pvt : Pvt)
    (cpvt : ℕ) (cmds : List Cmd) (n : ℕ) (prio allocated : Bool)
    → total p (insert tvadd device now pvt cpvt cmds n prio allocated).2
      ≡ total p pvt + occurrences p (free_cmds cmds)
unfolding insert
insert-total tvadd device now p pvt cpvt cmds n prio allocated =
    let h = add-total p pvt cpvt cmds n prio allocated in
    elim (Bool-cases (add pvt cpvt cmds n prio allocated).0) [
      | inl e ↦ rw e (run-total tvadd device now p _ ∙ rw e at h)
      | inr e ↦ rw e (
          run-total tvadd device now p (also_freed (add pvt cpvt cmds n prio allocated).1)
          ∙ freed (add pvt cpvt cmds n prio allocated).1 (rw e at h))
    ]
  where
    also_freed : Pvt → Pvt
    also_freed after = record after { freed = after.freed ++ free_cmds cmds }

    freed :
        (after : Pvt)
        → total p after ≡ total p pvt + 0
        → total p (also_freed after) ≡ total p pvt + occurrences p (free_cmds cmds)
    freed after h = omega (arith, occurrences-append p after.freed (free_cmds cmds))

pub insert_const-total :
    (tvadd : Timeval → Timeval → Timeval) (device : ℕ → Outcome) (now : Timeval) (p : ℕ) (pvt : Pvt)
    (cpvt : ℕ) (cmds : List Cmd) (n : ℕ) (prio allocated : Bool)
    → free_cmds cmds ≡ []
    → total p (insert_const tvadd device now pvt cpvt cmds n prio allocated).2 ≡ total p pvt
unfolding insert_const
insert_const-total tvadd device now p pvt cpvt cmds n prio allocated static =
    let h = add-total p pvt cpvt cmds n prio allocated in
    let s = ap (occurrences p) static in
    elim (Bool-cases (add pvt cpvt cmds n prio allocated).0) [
      | inl e ↦ rw e (run-total tvadd device now p _ ∙ (rw e at h) ∙ omega arith)
      | inr e ↦ rw e ((rw e at h) ∙ omega arith)
    ]
