-- ===== src/AtQueue/Remove.antt =====
-- Removal from the queue: `at_queue_remove`, `at_queue_remove_cmd`, `at_queue_handle_result` and
-- `at_queue_flush`.
use datacard.Base.{
  ℕ, suc, ◌+◌, ◌-◌, ◌^◌, ◌≤◌, ◌<◌, ◌≡◌, ◌⊎◌, inl, inr, refl, ap, ◌∙◌, sym, Bool, true, false, not,
  ◌&&◌, ◌||◌, List, [], ◌∷◌, map, some, arith, leb, ◌==◌, if◌then◌else◌, Bool-cases, length, drop,
  get_elem?, length-drop, subst, All, add_uint, sub_uint,
}
use datacard.AtQueue.{
  Cmd, Task, Pvt, ignores, remove_from, remove, ends_task, remove_cmd_from, remove_cmd,
  handle_result, flush_rounds, flush,
}
use datacard.AtQueue.View.{
  TaskIsValid, IsValid, count_cmds, length≤count_cmds, drop-get_elem?, pending, view, respond,
}

-- The first task taken out.
remove_from-IsValid :
    (task : Task) (rest : List Task) (pvt : Pvt)
    → pvt.at_queue ≡ task ∷ rest
    → All TaskIsValid rest
    → task.cindex ≤ task.cmdsno
    → pvt.at_tasks ≡ suc (length rest)
    → pvt.at_cmds ≡ (task.cmdsno - task.cindex) + count_cmds rest
    → (task.cmdsno - task.cindex) + count_cmds rest < 2 ^ 32
    → task.cmdsno < 2 ^ 32
    → IsValid (remove_from (task ∷ rest) pvt)
unfolding remove_from
remove_from-IsValid task rest pvt q v i t c s n = record {
  tasks = v;
  at_tasks = (let l = length≤count_cmds rest v in ground (arith, l));
  at_cmds = ground arith;
  small = omega arith;
}

-- What an answer does to the first task, in the code's test and in the view.
record Answered (task : Task) (res : ℕ) (ts : List (List Cmd)) : Type 0 where
  ends : ends_task task (add_uint task.cindex 1) res ≡ true
  gone : respond res (pending task ∷ ts) ≡ ts

record Advanced (task : Task) (res : ℕ) (ts : List (List Cmd)) : Type 0 where
  goes_on : ends_task task (add_uint task.cindex 1) res ≡ false
  left : suc task.cindex < task.cmdsno
  next : respond res (pending task ∷ ts) ≡ drop (suc task.cindex) task.cmds ∷ ts

respond_last :
    (res : ℕ) (c : Cmd) (rest cs : List Cmd) (ts : List (List Cmd))
    → cs ≡ c ∷ rest
    → length rest ≡ 0
    → respond res (cs ∷ ts) ≡ ts
respond_last res c [] cs ts e h = rw e refl
respond_last res c (d ∷ rest) cs ts e h = absurd (omega arith)

respond_inner :
    (res : ℕ) (c : Cmd) (rest cs : List Cmd) (ts : List (List Cmd))
    → cs ≡ c ∷ rest
    → 0 < length rest
    → respond res (cs ∷ ts) ≡ (if c.res == res || ignores c then rest ∷ ts else ts)
respond_inner res c [] cs ts e h = absurd (omega arith)
respond_inner res c (d ∷ rest) cs ts e h = rw e refl

ends_task_at :
    (task : Task) (cindex res : ℕ) (c : Cmd)
    → get_elem? task.cmds task.cindex ≡ some c
    → ends_task task cindex res
      ≡ (leb task.cmdsno cindex || (not (c.res == res) && not (ignores c)))
unfolding ends_task
ends_task_at task cindex res c e = rw e refl

by_flags :
    (task : Task) (res : ℕ) (ts : List (List Cmd)) (same ignored : Bool)
    → suc task.cindex < task.cmdsno
    → ends_task task (add_uint task.cindex 1) res ≡ (false || (not same && not ignored))
    → respond res (pending task ∷ ts)
      ≡ (if same || ignored then drop (suc task.cindex) task.cmds ∷ ts else ts)
    → Answered task res ts ⊎ Advanced task res ts
by_flags task res ts true i l e r = inr (record { goes_on = e; left = l; next = r })
by_flags task res ts false true l e r = inr (record { goes_on = e; left = l; next = r })
by_flags task res ts false false l e r = inl (record { ends = e; gone = r })

answer_cases :
    (task : Task) (res : ℕ) (ts : List (List Cmd))
    → TaskIsValid task
    → Answered task res ts ⊎ Advanced task res ts
answer_cases task res ts v =
    let (c, at, split) =
      drop-get_elem? task.cmds task.cindex (omega (arith, v.pending, v.cmdsno)) in
    let next : add_uint task.cindex 1 ≡ suc task.cindex = ground (arith, v.pending, v.fits) in
    let e = ends_task_at task (add_uint task.cindex 1) res c at in
    let long = length-drop (suc task.cindex) task.cmds in
    elim (Bool-cases (leb task.cmdsno (add_uint task.cindex 1))) [
      | inl b ↦ inl (record {
        ends = e ∙ ap (λ x. x || (not (c.res == res) && not (ignores c))) b;
        gone =
            respond_last res c (drop (suc task.cindex) task.cmds) (pending task) ts split
              (ground (arith, v.cmdsno));
      })
      | inr b ↦
          by_flags task res ts (c.res == res) (ignores c) (ground arith)
            (e ∙ ap (λ x. x || (not (c.res == res) && not (ignores c))) b)
            (respond_inner res c (drop (suc task.cindex) task.cmds) (pending task) ts split
              (ground (arith, v.cmdsno)))
    ]

-- What the code's removal of one command does, in the two cases.
remove_cmd_from_answered :
    (task : Task) (rest : List Task) (pvt : Pvt) (res : ℕ)
    → ends_task task (add_uint task.cindex 1) res ≡ true
    → remove_cmd_from (task ∷ rest) pvt res
      ≡ remove_from (record task { cindex = add_uint task.cindex 1 } ∷ rest) (record pvt {
        at_queue = record task { cindex = add_uint task.cindex 1 } ∷ rest;
        at_cmds = sub_uint pvt.at_cmds 1;
      })
unfolding remove_cmd_from remove
remove_cmd_from_answered task rest pvt res e = rw e refl

remove_cmd_from_advanced :
    (task : Task) (rest : List Task) (pvt : Pvt) (res : ℕ)
    → ends_task task (add_uint task.cindex 1) res ≡ false
    → remove_cmd_from (task ∷ rest) pvt res ≡ record pvt {
      at_queue = record task { cindex = add_uint task.cindex 1 } ∷ rest;
      at_cmds = sub_uint pvt.at_cmds 1;
    }
unfolding remove_cmd_from
remove_cmd_from_advanced task rest pvt res e = rw e refl

-- The invariant holds again, and the view is the answered one.
abbrev pub Responds : Pvt → Pvt → ℕ → Type 0
Responds pvt pvt' res = IsValid pvt' × (view pvt' ≡ respond res (view pvt))

Answered-Responds :
    (task : Task) (rest : List Task) (pvt : Pvt) (res : ℕ)
    → pvt.at_queue ≡ task ∷ rest
    → IsValid pvt
    → TaskIsValid task
    → All TaskIsValid rest
    → pvt.at_cmds ≡ (task.cmdsno - task.cindex) + count_cmds rest
    → pvt.at_tasks ≡ suc (length rest)
    → (task.cmdsno - task.cindex) + count_cmds rest < 2 ^ 32
    → Answered task res (map pending rest)
    → Responds pvt (remove_cmd_from (task ∷ rest) pvt res) res
unfolding remove_from
Answered-Responds task rest pvt res q v t r c n s a =
    let next : add_uint task.cindex 1 ≡ suc task.cindex = ground (arith, t.pending, t.fits) in
    let l = length≤count_cmds rest r in
    let e = remove_cmd_from_answered task rest pvt res a.ends in
    rw e (
      record {
        tasks = r;
        at_tasks = ground (arith, t.pending);
        at_cmds = ground (arith, t.pending, t.fits);
        small = omega arith;
      },
      sym (ap (λ x. respond res (map pending x)) q ∙ a.gone),
    )

Advanced-Responds :
    (task : Task) (rest : List Task) (pvt : Pvt) (res : ℕ)
    → pvt.at_queue ≡ task ∷ rest
    → IsValid pvt
    → TaskIsValid task
    → All TaskIsValid rest
    → pvt.at_cmds ≡ (task.cmdsno - task.cindex) + count_cmds rest
    → pvt.at_tasks ≡ suc (length rest)
    → (task.cmdsno - task.cindex) + count_cmds rest < 2 ^ 32
    → Advanced task res (map pending rest)
    → Responds pvt (remove_cmd_from (task ∷ rest) pvt res) res
Advanced-Responds task rest pvt res q v t r c n s a =
    let next : add_uint task.cindex 1 ≡ suc task.cindex = ground (arith, t.pending, t.fits) in
    let e = remove_cmd_from_advanced task rest pvt res a.goes_on in
    rw e (
      record {
        tasks = (record { pending = omega (arith, a.left); cmdsno = t.cmdsno; fits = t.fits }, r);
        at_tasks = omega arith;
        at_cmds = ground (arith, t.pending, t.fits);
        small = omega arith;
      },
      ap (λ i. drop i task.cmds ∷ map pending rest) next
          ∙ sym (ap (λ x. respond res (map pending x)) q ∙ a.next),
    )

remove_cmd_from-Responds :
    (q : List Task) (pvt : Pvt) (res : ℕ)
    → pvt.at_queue ≡ q
    → IsValid pvt
    → Responds pvt (remove_cmd_from q pvt res) res
unfolding remove_cmd_from
remove_cmd_from-Responds [] pvt res e v = (v, rw e refl)
remove_cmd_from-Responds (task ∷ rest) pvt res e v =
    let tasks = subst (All TaskIsValid) e v.tasks in
    let c = v.at_cmds ∙ ap count_cmds e in
    let n = v.at_tasks ∙ ap length e in
    let s = subst (λ q. count_cmds q < 2 ^ 32) e v.small in
    elim (answer_cases task res (map pending rest) tasks.0) [
      | inl a ↦ Answered-Responds task rest pvt res e v tasks.0 tasks.1 c n s a
      | inr a ↦ Advanced-Responds task rest pvt res e v tasks.0 tasks.1 c n s a
    ]

-- An answer to the head command takes the command off the queue, and its whole task when it was the
-- last one or when the answer is not the expected one and the command does not ignore that. The
-- counters of tasks and of commands then count what is left, without wrap-around.
pub handle_result-respond :
    (pvt : Pvt) (res : ℕ)
    → IsValid pvt
    → IsValid (handle_result pvt res) × (view (handle_result pvt res) ≡ respond res (view pvt))
unfolding handle_result remove_cmd
handle_result-respond pvt res v = remove_cmd_from-Responds pvt.at_queue pvt res refl v

remove-IsValid :
    (task : Task) (rest : List Task) (pvt : Pvt)
    → pvt.at_queue ≡ task ∷ rest
    → IsValid pvt
    → IsValid (remove pvt) × ((remove pvt).at_queue ≡ rest)
unfolding remove remove_from
remove-IsValid task rest pvt e v =
    let tasks = subst (All TaskIsValid) e v.tasks in
    let c = v.at_cmds ∙ ap count_cmds e in
    let n = v.at_tasks ∙ ap length e in
    let s = subst (λ q. count_cmds q < 2 ^ 32) e v.small in
    rw e (
      remove_from-IsValid task rest pvt e tasks.1 (omega (arith, tasks.0.pending)) n c s
          tasks.0.fits,
      refl,
    )

flush_rounds-empty :
    (q : List Task) (pvt : Pvt)
    → pvt.at_queue ≡ q
    → IsValid pvt
    → IsValid (flush_rounds q pvt) × ((flush_rounds q pvt).at_queue ≡ [])
unfolding flush_rounds
flush_rounds-empty [] pvt e v = (v, e)
flush_rounds-empty (task ∷ rest) pvt e v =
    let (v', e') = remove-IsValid task rest pvt e v in flush_rounds-empty rest (remove pvt) e' v'

-- A flush leaves no task, and both counters at 0.
pub flush-empty :
    (pvt : Pvt)
    → IsValid pvt
    → IsValid (flush pvt)
      × ((flush pvt).at_queue ≡ [])
      × ((flush pvt).at_tasks ≡ 0)
      × ((flush pvt).at_cmds ≡ 0)
unfolding flush
flush-empty pvt v =
    let (v', e) = flush_rounds-empty pvt.at_queue pvt refl v in
    (v', e, v'.at_tasks ∙ ap length e, v'.at_cmds ∙ ap count_cmds e)
