-- ===== src/Sched/Examples.antt =====
-- The theorems about kernel/sched/sched.c at a ring of two tasks.
use lithium_kernel.Prelude.{
  ℕ, ◌+◌, ◌≡◌, ◌≢◌, ◌⊎◌, true, false, none, some, [], ◌∷◌, ◌==◌, if◌then◌else◌,
}
use lithium_kernel.Tasks.{State, Tasks}
use lithium_kernel.Sched.{Sched, runnable, pick_next, retire, schedule}
use lithium_kernel.Sched.Choice.{schedule_lem}

-- Task 0 runs, and task 1 is the other one of the ring.
abbrev demo_tasks : Tasks
demo_tasks = record {
  table = λ i. record {
    pid = i + 1;
    state = if i == 0 then State.running else State.ready;
    parent = none;
    exit_code = 0;
  };
  current = some 0;
  all_tasks = 1 ∷ 0 ∷ [];
  zombie_tasks = [];
  init_task = some 0;
}

abbrev demo : Sched
demo = record {
  tasks = demo_tasks;
  next = λ i. if i == 0 then some 1 else some 0;
  run_queue_head = some 0;
  task_count = 2;
  idle_task = none;
}

abbrev running_task : ℕ
running_task = 0

abbrev new_task : ℕ
new_task = 2

schedule_lem_example :
    let (s1, cand) =
      retire running_task (pick_next demo demo.task_count (demo.next running_task)) demo in
    let (s', r) = schedule running_task demo in
    ((r ≡ none)
      × ((s'.tasks.table running_task).state ≡ State.running)
      × (s'.tasks.current ≡ s1.tasks.current))
    ⊎ ((c : ℕ) × (r ≡ some c)
        × (c ≢ running_task)
        × (s'.tasks.current ≡ some c)
        × ((s'.tasks.table c).state ≡ State.running)
        × (((cand ≡ some c) × (runnable s1 (some c) ≡ true))
            ⊎ ((s1.idle_task ≡ some c) × (runnable s1 cand ≡ false))))
schedule_lem_example = schedule_lem running_task demo
