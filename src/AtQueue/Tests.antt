-- ===== src/AtQueue/Tests.antt =====
-- A task of two commands, the first of which is not sent yet.
use datacard.Base.{
  ℕ, ◌+◌, ◌≤◌, ◌≡◌, ◌⊎◌, refl, true, false, [], ◌∷◌, some, arith, take, if◌then◌else◌,
}
use datacard.AtQueue.{
  Timeval, Cmd, Task, Pvt, add, handle_result, flush, head_cmd, head_task, first_task, task_cmd,
  at_write, run_cmd, run_head, run, free_cmds, free_data, free_pointer,
}
use datacard.AtQueue.Device.{Outcome, write_loop, fuel_for, write_all, write_all-take}
use datacard.AtQueue.View.{IsValid, view}
use datacard.AtQueue.Remove.{handle_result-respond}
use datacard.AtQueue.Insert.{add-enqueue}
use datacard.AtQueue.Write.{Written, Failed, run-cases, run-run}
use datacard.AtQueue.Owned.{total, occurrences, operations-total}
use datacard.AtQueue.Calls.{here, next, answered, ran, Calls-IsValid}

abbrev soon : Timeval
soon = record { tv_sec = 2; tv_usec = 0 }

abbrev at : Cmd
at = record {
  cmd = 1;
  res = 5;
  flags = 0;
  timeout = soon;
  pointer = some 77;
  text = b'A' ∷ b'T' ∷ 13 ∷ [];
  length = 3;
}

abbrev ate : Cmd
ate = record {
  cmd = 2;
  res = 5;
  flags = 1;
  timeout = soon;
  pointer = some 78;
  text = b'A' ∷ b'T' ∷ b'E' ∷ 13 ∷ [];
  length = 4;
}

abbrev task : Task
task = record { cmdsno = 2; cindex = 0; cpvt = 9; cmds = at ∷ ate ∷ [] }

abbrev pvt : Pvt
pvt = record {
  at_queue = task ∷ [];
  at_tasks = 1;
  at_cmds = 2;
  stat_at_tasks = 1;
  stat_at_cmds = 2;
  d_write_bytes = 0;
  freed = [];
}

pvt-IsValid : IsValid pvt
pvt-IsValid = record {
  tasks = (record { pending = omega arith; cmdsno = refl; fits = omega arith }, tt);
  at_tasks = refl;
  at_cmds = refl;
  small = omega arith;
}

-- Two bytes go out at each call.
abbrev device : ℕ → Outcome
device call = record { wrote = 2; again = false }

abbrev tvadd : Timeval → Timeval → Timeval
tvadd a b = record { tv_sec = a.tv_sec + b.tv_sec; tv_usec = a.tv_usec + b.tv_usec }

write_all-take_example :
    (n : ℕ) × (n ≤ 3)
    × (write_loop (fuel_for 3) device 0 at.text 3 10 0 [] ≡ some (n, take n at.text))
    × (write_all device at.text 3 ≡ (n, take n at.text))
write_all-take_example = write_all-take device at.text 3

handle_result-respond_example :
    IsValid (handle_result pvt 5) × (view (handle_result pvt 5) ≡ (ate ∷ []) ∷ [])
handle_result-respond_example = handle_result-respond pvt 5 pvt-IsValid

add-enqueue_example :
    let (added, pvt') = add pvt 9 (ate ∷ []) 1 true true in
    IsValid pvt'
    × (added ≡ true)
    × (view pvt' ≡ (if added then (at ∷ ate ∷ []) ∷ (ate ∷ []) ∷ [] else (at ∷ ate ∷ []) ∷ []))
add-enqueue_example = add-enqueue pvt 9 (ate ∷ []) true true pvt-IsValid (omega arith)

run-cases_example :
    Written tvadd device soon pvt at (run tvadd device soon pvt)
    ⊎ Failed tvadd device soon pvt at (run tvadd device soon pvt)
unfolding head_cmd head_task first_task task_cmd
run-cases_example = run-cases tvadd device soon pvt at pvt-IsValid refl (omega arith)

run_ok : (run tvadd device soon pvt).0 ≡ false
unfolding run run_head run_cmd at_write head_cmd head_task first_task task_cmd write_all write_loop
run_ok = refl

run-run_example :
    run tvadd device soon (run tvadd device soon pvt).2 ≡ (false, [], (run tvadd device soon pvt).2)
run-run_example = run-run tvadd device device soon soon pvt pvt-IsValid run_ok

operations-total_example :
    (total 77 (handle_result pvt 5) ≡ 1)
    × (total 77 (run tvadd device soon pvt).2 ≡ 1)
    × (occurrences 77 (flush pvt).freed ≡ 1)
unfolding free_cmds free_data free_pointer
operations-total_example = operations-total tvadd device soon 77 5 pvt pvt-IsValid

Calls-IsValid_example : IsValid (handle_result (run tvadd device soon pvt).2 5)
Calls-IsValid_example =
    Calls-IsValid tvadd pvt-IsValid (next (next here (ran device soon)) (answered 5))
