-- ===== src/AtQueue/Insert.antt =====
-- Insertion into the queue: `at_queue_add`.
use datacard.Base.{
  ℕ, suc, ◌+◌, ◌-◌, ◌^◌, ◌<◌, ◌≡◌, inl, inr, refl, ap, Bool, true, false, ◌&&◌, List, [], ◌∷◌, ◌++◌,
  map, arith, ltb, if◌then◌else◌, Bool-cases, length, length-append, All, All-append,
}
use datacard.AtQueue.{Cmd, Task, Pvt, insert_task_in, add}
use datacard.AtQueue.View.{
  TaskIsValid, IsValid, count_cmds, count_cmds-append, length≤count_cmds, pending, view, enqueue,
}

insert_task_in-All :
    (prio : Bool) (e : Task) (q : List Task)
    → TaskIsValid e
    → All TaskIsValid q
    → All TaskIsValid (insert_task_in prio e q)
unfolding insert_task_in
insert_task_in-All prio e [] t v = (t, tt)
insert_task_in-All true e (first ∷ rest) t v = (v.0, (t, v.1))
insert_task_in-All false e (first ∷ rest) t v =
    (v.0, All-append TaskIsValid rest (e ∷ []) v.1 (t, tt))

insert_task_in-counts :
    (prio : Bool) (e : Task) (q : List Task)
    → (length (insert_task_in prio e q) ≡ suc (length q))
      × (count_cmds (insert_task_in prio e q) ≡ (e.cmdsno - e.cindex) + count_cmds q)
unfolding insert_task_in
insert_task_in-counts prio e [] = (omega arith, omega arith)
insert_task_in-counts true e (first ∷ rest) = (omega arith, omega arith)
insert_task_in-counts false e (first ∷ rest) =
    (omega (arith, length-append rest (e ∷ [])), omega (arith, count_cmds-append rest (e ∷ [])))

map-append {ℓ κ} :
    {A : Type ℓ} {B : Type κ} (f : A → B) (xs ys : List A) → map f (xs ++ ys) ≡ map f xs ++ map f ys
map-append f [] ys = refl
map-append f (x ∷ xs) ys = ap (λ t. f x ∷ t) (map-append f xs ys)

insert_task_in-enqueue :
    (prio : Bool) (e : Task) (q : List Task)
    → map pending (insert_task_in prio e q) ≡ enqueue prio (pending e) (map pending q)
unfolding insert_task_in
insert_task_in-enqueue prio e [] = refl
insert_task_in-enqueue true e (first ∷ rest) = refl
insert_task_in-enqueue false e (first ∷ rest) =
    ap (λ t. pending first ∷ t) (map-append pending rest (e ∷ []))

-- A new task with room in the counters for its commands goes right behind the task in progress if it
-- has priority, so before all that wait, and to the end if it has none; in an empty queue it is the
-- first. The tasks that are there keep their order and their commands, the counters count the new
-- one, and the queue stays valid. Without commands or without memory nothing is queued.
pub add-enqueue :
    (pvt : Pvt) (cpvt : ℕ) (cmds : List Cmd) (prio allocated : Bool)
    → IsValid pvt
    → length cmds + count_cmds pvt.at_queue < 2 ^ 32
    → let (added, pvt') = add pvt cpvt cmds (length cmds) prio allocated in
      IsValid pvt'
      × (added ≡ (ltb 0 (length cmds) && allocated))
      × (view pvt' ≡ (if added then enqueue prio cmds (view pvt) else view pvt))
unfolding add
add-enqueue pvt cpvt cmds prio allocated v h =
    let e : Task = record { cmdsno = length cmds; cindex = 0; cpvt = cpvt; cmds = cmds } in
    elim (Bool-cases (ltb 0 (length cmds) && allocated)) [
      | inl b ↦
          let some_cmds : 0 < length cmds = ground arith in
          let t : TaskIsValid e = record {
            pending = some_cmds;
            cmdsno = refl;
            fits = omega arith;
          } in
          let (n, c) = insert_task_in-counts prio e pvt.at_queue in
          let l = length≤count_cmds pvt.at_queue v.tasks in
          rw b (
            record {
              tasks = insert_task_in-All prio e pvt.at_queue t v.tasks;
              at_tasks = ground (arith, v.at_tasks);
              at_cmds = ground (arith, v.at_cmds);
              small = omega arith;
            },
            refl,
            insert_task_in-enqueue prio e pvt.at_queue,
          )
      | inr b ↦ rw b (v, refl, refl)
    ]
