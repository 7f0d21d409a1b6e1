-- ===== src/AtQueue/Owned.antt =====
-- Who frees the texts of the commands: the pointers that the queue owns and those handed to
-- `ast_free`, counted.
use mathlib.Core.Option.{some-injective}
use datacard.Base.{
  ℕ, zero, suc, ◌+◌, ◌≡◌, inl, inr, refl, ap, ◌∙◌, sym, Bool, true, false, List, [], ◌∷◌, ◌++◌,
  Option, none, some, arith, ◌==◌, if◌then◌else◌, Bool-cases, get_elem?, set, add_uint, sub_uint,
  none≢some, Option-cases, ltb,
}
use datacard.AtQueue.{
  Timeval, Cmd, Task, Pvt, free_data, free_pointer, is_static, free_cmds, remove_from, remove,
  ends_task, remove_cmd_from, remove_cmd, handle_result, flush_rounds, flush, first_task, head_task,
  task_cmd, head_cmd, set_head_cmd, at_write, run_cmd, run_head, run,
}
use datacard.AtQueue.View.{IsValid}
use datacard.AtQueue.Remove.{flush-empty}
use datacard.AtQueue.Device.{Outcome, write_all-take}

abbrev pub occurrences : ℕ → List ℕ → ℕ
occurrences p [] = 0
occurrences p (q ∷ qs) = (if p == q then 1 else 0) + occurrences p qs

-- The pointers that `at_queue_free` would free, for each task of the queue.
abbrev pub owned : List Task → List ℕ
owned [] = []
owned (task ∷ rest) = free_cmds task.cmds ++ owned rest

-- How often a pointer is owned or was freed.
abbrev pub total : ℕ → Pvt → ℕ
total p pvt = occurrences p pvt.freed + occurrences p (owned pvt.at_queue)

pub occurrences-append :
    (p : ℕ) (xs ys : List ℕ) → occurrences p (xs ++ ys) ≡ occurrences p xs + occurrences p ys
occurrences-append p [] ys = omega arith
occurrences-append p (x ∷ xs) ys = omega (arith, occurrences-append p xs ys)

remove_from-total :
    (p : ℕ) (q : List Task) (pvt : Pvt)
    → pvt.at_queue ≡ q
    → total p (remove_from q pvt) ≡ total p pvt
unfolding remove_from
remove_from-total p [] pvt e = refl
remove_from-total p (task ∷ rest) pvt e =
    let a = occurrences-append p pvt.freed (free_cmds task.cmds) in
    let b = occurrences-append p (free_cmds task.cmds) (owned rest) in
    let c = ap (λ q. occurrences p (owned q)) e in omega arith

remove-total : (p : ℕ) (pvt : Pvt) → total p (remove pvt) ≡ total p pvt
unfolding remove
remove-total p pvt = remove_from-total p pvt.at_queue pvt refl

pub remove_cmd_from-total :
    (p : ℕ) (q : List Task) (pvt : Pvt) (res : ℕ)
    → pvt.at_queue ≡ q
    → total p (remove_cmd_from q pvt res) ≡ total p pvt
unfolding remove_cmd_from
remove_cmd_from-total p [] pvt res e = refl
remove_cmd_from-total p (task ∷ rest) pvt res e =
    let after = record pvt {
      at_queue = record task { cindex = add_uint task.cindex 1 } ∷ rest;
      at_cmds = sub_uint pvt.at_cmds 1;
    } in
    let kept : total p after ≡ total p pvt =
      ap (λ q. occurrences p pvt.freed + occurrences p (owned q)) (sym e) in
    elim (Bool-cases (ends_task task (add_uint task.cindex 1) res)) [
      | inl b ↦ rw b (remove-total p after ∙ kept)
      | inr b ↦ rw b kept
    ]

flush_rounds-total :
    (p : ℕ) (q : List Task) (pvt : Pvt) → total p (flush_rounds q pvt) ≡ total p pvt
unfolding flush_rounds
flush_rounds-total p [] pvt = refl
flush_rounds-total p (task ∷ rest) pvt = flush_rounds-total p rest (remove pvt) ∙ remove-total p pvt

no_pointer : (s : Bool) (c : Cmd) → (free_pointer s c none).1 ≡ []
unfolding free_pointer
no_pointer true c = refl
no_pointer false c = refl

-- A command that was written owns nothing any more.
free_pointer-nothing :
    (s : Bool) (c : Cmd) (o : Option ℕ)
    → c.pointer ≡ o
    → is_static c ≡ s
    → (free_data (free_pointer s c o).0).1 ≡ []
unfolding free_pointer free_data
free_pointer-nothing true c none e f = rw e refl
free_pointer-nothing false c none e f = rw e refl
free_pointer-nothing false c (some p) e f =
    no_pointer (is_static c) (record c { pointer = none; length = 0 })
free_pointer-nothing true c (some p) e f = rw (e, f) refl

free_data-nothing : (c : Cmd) → (free_data (free_data c).0).1 ≡ []
unfolding free_data
free_data-nothing c = free_pointer-nothing (is_static c) c c.pointer refl refl

free_cmds-set :
    (p : ℕ) (cmds : List Cmd) (i : ℕ) (c c' : Cmd)
    → get_elem? cmds i ≡ some c
    → (free_data c').1 ≡ []
    → occurrences p (free_cmds (set cmds i c')) + occurrences p (free_data c).1
      ≡ occurrences p (free_cmds cmds)
unfolding free_cmds
free_cmds-set p [] i c c' g f = absurd (none≢some g)
free_cmds-set p (b ∷ cmds) zero c c' g f =
    let a = occurrences-append p (free_data b).1 (free_cmds cmds) in
    let d = ap (λ x. occurrences p (free_data x).1) (some-injective _ _ g) in
    let e = ap (λ x. occurrences p (x ++ free_cmds cmds)) f in omega arith
free_cmds-set p (b ∷ cmds) (suc i) c c' g f =
    let a = occurrences-append p (free_data b).1 (free_cmds cmds) in
    let d = occurrences-append p (free_data b).1 (free_cmds (set cmds i c')) in
    omega (arith, free_cmds-set p cmds i c c' g f)

free_data-timeout :
    (c : Cmd) (t : Timeval) → (free_data (record c { timeout = t })).1 ≡ (free_data c).1
unfolding free_data free_pointer
free_data-timeout c t = freed (is_static c) c.pointer
  where
    freed :
        (s : Bool) (o : Option ℕ)
        → (free_pointer s (record c { timeout = t }) o).1 ≡ (free_pointer s c o).1
    freed true none = refl
    freed false none = refl
    freed true (some p) = refl
    freed false (some p) = refl

set_head_cmd-total :
    (p : ℕ) (q : List Task) (pvt : Pvt) (c c' : Cmd)
    → pvt.at_queue ≡ q
    → task_cmd (first_task q) ≡ some c
    → (free_data c').1 ≡ []
    → occurrences p (owned (set_head_cmd pvt c')) + occurrences p (free_data c).1
      ≡ occurrences p (owned q)
unfolding set_head_cmd task_cmd first_task
set_head_cmd-total p [] pvt c c' e h f = absurd (none≢some h)
set_head_cmd-total p (task ∷ rest) pvt c c' e h f =
    let a = occurrences-append p (free_cmds (set task.cmds task.cindex c')) (owned rest) in
    let b = occurrences-append p (free_cmds task.cmds) (owned rest) in
    let d = free_cmds-set p task.cmds task.cindex c c' h f in rw e (omega arith)

run_cmd-total :
    (tvadd : Timeval → Timeval → Timeval) (device : ℕ → Outcome) (now : Timeval) (p : ℕ) (pvt : Pvt)
    (c : Cmd)
    → head_cmd pvt ≡ some c
    → total p (run_cmd tvadd device now pvt c).2 ≡ total p pvt
unfolding run_cmd at_write head_cmd head_task remove_cmd
run_cmd-total tvadd device now p pvt c h =
    let (n, q, loop, e) = write_all-take device c.text c.length in
    let given = record pvt { d_write_bytes = add_uint pvt.d_write_bytes n } in
    let dated = record c { timeout = tvadd now c.timeout } in
    elim (Bool-cases (n == c.length)) [
      | inl b ↦
          let same : (free_data dated).1 ≡ (free_data c).1 =
            free_data-timeout c (tvadd now c.timeout) in
          let s =
            set_head_cmd-total p pvt.at_queue given c (free_data dated).0 refl h
              (free_data-nothing dated) in
          let a = occurrences-append p pvt.freed (free_data dated).1 in
          let d = ap (occurrences p) same in rw (e, b) (omega arith)
      | inr b ↦ rw (e, b) (remove_cmd_from-total p pvt.at_queue given (add_uint c.res 1) refl)
    ]

pub run-total :
    (tvadd : Timeval → Timeval → Timeval) (device : ℕ → Outcome) (now : Timeval) (p : ℕ) (pvt : Pvt)
    → total p (run tvadd device now pvt).2 ≡ total p pvt
unfolding run run_head
run-total tvadd device now p pvt = elim (Option-cases (head_cmd pvt)) [
  | inl e ↦ rw e refl
  | inr (c, e) ↦ elim (Bool-cases (ltb 0 c.length)) [
    | inl b ↦ rw (e, b) (run_cmd-total tvadd device now p pvt c e)
    | inr b ↦ rw (e, b) refl
  ]
]

-- No operation that takes from the queue leaks a text or frees one twice: an answer, a run with any
-- device and a flush each keep, for every pointer, the number of times that it was freed or is
-- owned by a queued command. After a flush every pointer that was owned has been freed exactly as
-- often as it was owned.
pub operations-total :
    (tvadd : Timeval → Timeval → Timeval) (device : ℕ → Outcome) (now : Timeval) (p res : ℕ)
    (pvt : Pvt)
    → IsValid pvt
    → (total p (handle_result pvt res) ≡ total p pvt)
      × (total p (run tvadd device now pvt).2 ≡ total p pvt)
      × (occurrences p (flush pvt).freed
          ≡ occurrences p pvt.freed + occurrences p (owned pvt.at_queue))
unfolding handle_result remove_cmd flush
operations-total tvadd device now p res pvt v =
    let f = flush_rounds-total p pvt.at_queue pvt in
    let (valid, empty, no_tasks, no_cmds) = flush-empty pvt v in
    let g = ap (λ q. occurrences p (owned q)) empty in
    (
      remove_cmd_from-total p pvt.at_queue pvt res refl,
      run-total tvadd device now p pvt,
      omega arith,
    )
