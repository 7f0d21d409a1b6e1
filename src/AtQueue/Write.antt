-- ===== src/AtQueue/Write.antt =====
-- Writing the head command to the device: `at_write` and `at_queue_run`.
use datacard.Base.{
  ℕ, zero, suc, ◌<◌, ◌≡◌, ◌⊎◌, inl, inr, refl, ap, ◌∙◌, sym, Bool, true, false, List, [], ◌∷◌, map,
  Option, none, some, arith, ◌==◌, ==_iff, true≢false, none≢some, lt→ltb, le→ltb, Bool-cases,
  Option-cases, length, drop, take, set, length-set, All, add_uint, subst, if◌then◌else◌,
}
use datacard.Bytes.{Bytes}
use datacard.AtQueue.{
  Timeval, Cmd, Task, Pvt, free_data, first_task, head_task, task_cmd, head_cmd, set_head_cmd,
  is_static, free_pointer, handle_result, at_write, run_cmd, run_head, run,
}
use datacard.AtQueue.Device.{Outcome, write_all-take}
use datacard.AtQueue.View.{
  View, TaskIsValid, IsValid, count_cmds, pending, view, first_cmd, respond, drop-get_elem?,
}
use datacard.AtQueue.Remove.{handle_result-respond}

-- The head command replaced.
abbrev pub mark : Cmd → View → View
mark c [] = []
mark c ([] ∷ ts) = [] ∷ ts
mark c ((b ∷ cs) ∷ ts) = (c ∷ cs) ∷ ts

-- The code's head command is the first pending one of the first task.
pub head_cmd-first_cmd : (pvt : Pvt) → IsValid pvt → head_cmd pvt ≡ first_cmd (view pvt)
unfolding head_cmd head_task task_cmd first_task
head_cmd-first_cmd pvt v = first pvt.at_queue v.tasks
  where
    first :
        (q : List Task) → All TaskIsValid q → task_cmd (first_task q) ≡ first_cmd (map pending q)
    first [] h = refl
    first (task ∷ rest) h =
        let (c, at, split) =
          drop-get_elem? task.cmds task.cindex (omega (arith, h.0.pending, h.0.cmdsno)) in
        at ∙ sym (ap (λ cs. first_cmd (cs ∷ map pending rest)) split)

drop-set {ℓ} :
    {A : Type ℓ} (xs : List A) (i : ℕ) (v : A)
    → i < length xs
    → drop i (set xs i v) ≡ v ∷ drop (suc i) xs
drop-set [] i v h = absurd (omega arith)
drop-set (x ∷ xs) zero v h = refl
drop-set (x ∷ xs) (suc i) v h = drop-set xs i v (omega arith)

-- Writing through the pointer to the head command.
set_head_cmd-mark :
    (q : List Task) (pvt : Pvt) (c : Cmd)
    → pvt.at_queue ≡ q
    → All TaskIsValid q
    → (map pending (set_head_cmd pvt c) ≡ mark c (map pending q))
      × All TaskIsValid (set_head_cmd pvt c)
      × (length (set_head_cmd pvt c) ≡ length q)
      × (count_cmds (set_head_cmd pvt c) ≡ count_cmds q)
unfolding set_head_cmd
set_head_cmd-mark [] pvt c e h = rw e (refl, tt, refl, refl)
set_head_cmd-mark (task ∷ rest) pvt c e h =
    let p : task.cindex < length task.cmds = omega (arith, h.0.pending, h.0.cmdsno) in
    let (b, at, split) = drop-get_elem? task.cmds task.cindex p in
    rw e (
      ap (λ cs. cs ∷ map pending rest) (drop-set task.cmds task.cindex c p)
          ∙ sym (ap (λ cs. mark c (cs ∷ map pending rest)) split),
      (
        record {
          pending = h.0.pending;
          cmdsno = h.0.cmdsno ∙ sym (length-set task.cmds task.cindex c);
          fits = h.0.fits;
        },
        h.1,
      ),
      refl,
      refl,
    )

-- The command once all its bytes are sent: it waits until `t`, has no bytes left and no text of its
-- own any more, and is otherwise the same.
abbrev pub sent : Timeval → Cmd → Cmd
sent t c = record c { timeout = t; length = 0; pointer = if is_static c then c.pointer else none }

free_data-sent : (t : Timeval) (c : Cmd) → (free_data (record c { timeout = t })).0 ≡ sent t c
unfolding free_data free_pointer
free_data-sent t c = by_pointer (is_static c) c.pointer
  where
    by_pointer :
        (s : Bool) (p : Option ℕ)
        → (free_pointer s (record c { timeout = t; pointer = p }) p).0
          ≡ record c { timeout = t; length = 0; pointer = if s then p else none }
    by_pointer true none = refl
    by_pointer false none = refl
    by_pointer true (some p) = refl
    by_pointer false (some p) = refl

module _ (tvadd : Timeval → Timeval → Timeval) (device : ℕ → Outcome) (now : Timeval) where
  -- The command went out whole: it stays at the head, and only its time, length and text change.
  abbrev pub Written : Pvt → Cmd → Bool × Bytes × Pvt → Type 0
  Written pvt c (fail, out, pvt') =
      (fail ≡ false)
      × (out ≡ take c.length c.text)
      × IsValid pvt'
      × (view pvt' ≡ mark (sent (tvadd now c.timeout) c) (view pvt))

  -- The device took less than the command, which is given up as on a wrong answer.
  abbrev pub Failed : Pvt → Cmd → Bool × Bytes × Pvt → Type 0
  Failed pvt c (fail, out, pvt') =
      (fail ≡ true)
      × ((n : ℕ) × (n < c.length) × (out ≡ take n c.text))
      × IsValid pvt'
      × (view pvt' ≡ respond (add_uint c.res 1) (view pvt))

  run_cmd_cases :
      (pvt : Pvt) (c : Cmd)
      → IsValid pvt
      → Written pvt c (run_cmd tvadd device now pvt c)
        ⊎ Failed pvt c (run_cmd tvadd device now pvt c)
  unfolding run_cmd at_write handle_result
  run_cmd_cases pvt c v =
      let (n, p, loop, e) = write_all-take device c.text c.length in
      let written : Cmd = (free_data (record c { timeout = tvadd now c.timeout })).0 in
      let given = record pvt { d_write_bytes = add_uint pvt.d_write_bytes n } in
      elim (Bool-cases (n == c.length)) [
        | inl b ↦
            let (m, t, l, k) = set_head_cmd-mark pvt.at_queue given written refl v.tasks in
            inl (
              rw (e, b)
                (
                  refl,
                  ap (λ j. take j c.text) ((==_iff n c.length).0 b),
                  record {
                    tasks = t;
                    at_tasks = v.at_tasks ∙ sym l;
                    at_cmds = v.at_cmds ∙ sym k;
                    small = omega (arith, v.small, k);
                  },
                  m ∙ ap (λ d. mark d (view pvt)) (free_data-sent (tvadd now c.timeout) c),
                ))
        | inr b ↦
            let valid : IsValid given = record {
              tasks = v.tasks;
              at_tasks = v.at_tasks;
              at_cmds = v.at_cmds;
              small = v.small;
            } in
            let responded = handle_result-respond given (add_uint c.res 1) valid in
            inr (rw (e, b) (refl, (n, ground arith, refl), responded.0, responded.1))
      ]

  -- A run of a valid queue whose head command still has bytes to send either sends exactly these, and
  -- the commands to be done are, task by task, those from before but for the head one, which stays at
  -- the head as it is with its expected answer and its flags, but waits until `tvadd` of the time and
  -- its timeout, has no bytes left to send and no allocated text; or the device took less: then what
  -- went out is a proper prefix, the run fails, and the command is dropped as if its answer were a
  -- wrong one. The queue stays valid.
  pub run-cases :
      (pvt : Pvt) (c : Cmd)
      → IsValid pvt
      → head_cmd pvt ≡ some c
      → 0 < c.length
      → Written pvt c (run tvadd device now pvt) ⊎ Failed pvt c (run tvadd device now pvt)
  unfolding run run_head
  run-cases pvt c v h p = rw (h, lt→ltb 0 c.length p) (run_cmd_cases pvt c v)

  run_idle :
      (pvt : Pvt) (c : Cmd)
      → head_cmd pvt ≡ some c
      → c.length ≡ 0
      → run tvadd device now pvt ≡ (false, [], pvt)
  unfolding run run_head
  run_idle pvt c h p = rw (h, le→ltb 0 c.length (omega arith)) refl

  run_empty : (pvt : Pvt) → head_cmd pvt ≡ none → run tvadd device now pvt ≡ (false, [], pvt)
  unfolding run run_head
  run_empty pvt h = rw h refl

  -- Whatever state it is in, a valid queue is valid after a run.
  pub run-IsValid : (pvt : Pvt) → IsValid pvt → IsValid (run tvadd device now pvt).2
  run-IsValid pvt v = elim (Option-cases (head_cmd pvt)) [
    | inl e ↦ subst (λ r. IsValid r.2) (sym (run_empty pvt e)) v
    | inr (c, e) ↦ elim (Bool-cases (c.length == 0)) [
      | inl z ↦ subst (λ r. IsValid r.2) (sym (run_idle pvt c e (ground arith))) v
      | inr z ↦ elim (run-cases pvt c v e (ground arith)) [ inl w ↦ w.2 | inr f ↦ f.2 ]
    ]
  ]

first_cmd-mark : (c b : Cmd) (w : View) → first_cmd w ≡ some b → first_cmd (mark c w) ≡ some c
first_cmd-mark c b [] h = absurd (none≢some h)
first_cmd-mark c b ([] ∷ ts) h = absurd (none≢some h)
first_cmd-mark c b ((d ∷ cs) ∷ ts) h = refl

-- A command is sent once: after a run that did not fail, a run with any device and at any time sends
-- nothing, succeeds and changes nothing, until an answer comes.
pub run-run :
    (tvadd : Timeval → Timeval → Timeval) (device device' : ℕ → Outcome) (now now' : Timeval)
    (pvt : Pvt)
    → IsValid pvt
    → (run tvadd device now pvt).0 ≡ false
    → run tvadd device' now' (run tvadd device now pvt).2
      ≡ (false, [], (run tvadd device now pvt).2)
run-run tvadd device device' now now' pvt v ok = elim (Option-cases (head_cmd pvt)) [
  | inl e ↦ rw (run_empty tvadd device now pvt e) (run_empty tvadd device' now' pvt e)
  | inr (c, e) ↦ elim (Bool-cases (c.length == 0)) [
    | inl z ↦
        rw (run_idle tvadd device now pvt c e (ground arith))
          (run_idle tvadd device' now' pvt c e (ground arith))
    | inr z ↦ elim (run-cases tvadd device now pvt c v e (ground arith)) [
      | inl (a, b, valid, m) ↦
          let c' = sent (tvadd now c.timeout) c in
          run_idle tvadd device' now' _ c'
            (head_cmd-first_cmd _ valid
              ∙ ap first_cmd m
              ∙ first_cmd-mark c' c (view pvt) (sym (head_cmd-first_cmd pvt v) ∙ e))
            refl
      | inr f ↦ absurd (true≢false (sym f.0 ∙ ok))
    ]
  ]
]
