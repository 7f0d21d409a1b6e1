-- ===== src/AtQueue/View.antt =====
-- The queue of at_queue.c as a list of tasks, each the list of its commands that are not answered
-- yet: what `at_queue_add`, `at_queue_remove_cmd`, `at_queue_run` and `at_queue_flush` do to it.
use datacard.Base.{
  ℕ, zero, suc, ◌+◌, ◌-◌, ◌^◌, ◌≤◌, ◌<◌, ◌≡◌, refl, Bool, true, false, ◌||◌, List, [], ◌∷◌, ◌++◌,
  map, Option, none, some, arith, ◌==◌, if◌then◌else◌, length, drop, get_elem?, All,
}
use datacard.AtQueue.{Cmd, Task, Pvt, ignores}

-- A task has a command left, and as many commands as its `cmdsno` says.
pub record TaskIsValid (task : Task) : Type 0 where
  pub pending : task.cindex < task.cmdsno
  pub cmdsno : task.cmdsno ≡ length task.cmds
  pub fits : task.cmdsno < 2 ^ 32

-- The number of commands without an answer.
abbrev pub count_cmds : List Task → ℕ
count_cmds [] = 0
count_cmds (task ∷ rest) = (task.cmdsno - task.cindex) + count_cmds rest

pub record IsValid (pvt : Pvt) : Type 0 where
  pub tasks : All TaskIsValid pvt.at_queue
  pub at_tasks : pvt.at_tasks ≡ length pvt.at_queue
  pub at_cmds : pvt.at_cmds ≡ count_cmds pvt.at_queue
  pub small : count_cmds pvt.at_queue < 2 ^ 32

abbrev pub View : Type 0
View = List (List Cmd)

abbrev pub pending : Task → List Cmd
pending task = drop task.cindex task.cmds

abbrev pub view : Pvt → View
view pvt = map pending pvt.at_queue

-- The head command is the first of the first task.
abbrev pub first_cmd : View → Option Cmd
first_cmd [] = none
first_cmd ([] ∷ ts) = none
first_cmd ((c ∷ cs) ∷ ts) = some c

-- A new task goes right behind the task in progress, or to the end.
abbrev pub enqueue : Bool → List Cmd → View → View
enqueue prio cmds [] = cmds ∷ []
enqueue true cmds (t ∷ ts) = t ∷ cmds ∷ ts
enqueue false cmds (t ∷ ts) = t ∷ (ts ++ (cmds ∷ []))

-- The answer `res` to the head command: it is done, and with it the whole task if the answer is not
-- the expected one and the command does not ignore that.
abbrev pub respond : ℕ → View → View
respond res [] = []
respond res ([] ∷ ts) = ts
respond res ((c ∷ []) ∷ ts) = ts
respond res ((c ∷ d ∷ cs) ∷ ts) = if c.res == res || ignores c then (d ∷ cs) ∷ ts else ts

-- The commands from an index within the list on.
pub drop-get_elem? {ℓ} :
    {A : Type ℓ} (xs : List A) (i : ℕ)
    → i < length xs
    → (x : A) × (get_elem? xs i ≡ some x) × (drop i xs ≡ x ∷ drop (suc i) xs)
drop-get_elem? [] i h = absurd (omega arith)
drop-get_elem? (x ∷ xs) zero h = (x, refl, refl)
drop-get_elem? (x ∷ xs) (suc i) h = drop-get_elem? xs i (omega arith)

pub length≤count_cmds : (q : List Task) → All TaskIsValid q → length q ≤ count_cmds q
length≤count_cmds [] h = omega arith
length≤count_cmds (task ∷ rest) h = omega (arith, h.0.pending, length≤count_cmds rest h.1)

pub count_cmds-append : (q r : List Task) → count_cmds (q ++ r) ≡ count_cmds q + count_cmds r
count_cmds-append [] r = omega arith
count_cmds-append (task ∷ rest) r = omega (arith, count_cmds-append rest r)
