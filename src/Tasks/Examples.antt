-- ===== src/Tasks/Examples.antt =====
-- The theorems about kernel/sched/task.c at a task with one child.
use lithium_kernel.Prelude.{
  ℕ, ◌+◌, ◌-◌, ◌*◌, ◌%◌, ◌≢◌, ◌≡◌, refl, inl, true, false, ◌&&◌, Option, none, some, [], ◌∷◌, ◌==◌,
  if◌then◌else◌,
}
use lithium_kernel.Tasks.{
  State, Tasks, is_task, is_blocked, reparent_children, task_unregister, has_zombie_next,
  task_zombify, Round, waitpid_round, task_reap_detached_zombies,
}
use lithium_kernel.Tasks.Parents.{listed, IsHeir, reparent_children_lem}
use lithium_kernel.Tasks.Reap.{occurrences, Split, task_reap_detached_zombies_lem}
use lithium_kernel.Tasks.Zombies.{waitpid_round-task_zombify}

-- Task 0 runs and has the child 1.
abbrev demo : Tasks
demo = record {
  table = λ i. record {
    pid = i + 1;
    state = State.ready;
    parent = if i == 1 then some 0 else none;
    exit_code = 7;
  };
  current = some 0;
  all_tasks = 1 ∷ 0 ∷ [];
  zombie_tasks = [];
  init_task = some 0;
}

abbrev any_child : Option ℕ
any_child = none

abbrev parent_task : ℕ
parent_task = 0

abbrev child_task : ℕ
child_task = 1

demo_unlinked : has_zombie_next child_task demo.zombie_tasks ≡ false
unfolding has_zombie_next
demo_unlinked = refl

waitpid_round-task_zombify_example :
    let (s', r) = waitpid_round parent_task any_child false (task_zombify child_task demo) in
    (r ≡ Round.reaped (demo.table child_task).pid ((demo.table child_task).exit_code % 256 * 256))
    × (s'.zombie_tasks ≡ demo.zombie_tasks)
    × (s'.all_tasks ≡ task_unregister child_task demo.all_tasks)
waitpid_round-task_zombify_example =
    waitpid_round-task_zombify demo child_task parent_task any_child false demo_unlinked refl
      (λ z. cc z) (inl refl)

reparent_children_lem_example :
    (heir : Option ℕ) × IsHeir parent_task demo heir
    × ((u : ℕ)
        → let w = (reparent_children parent_task demo).table u in
          (w.parent ≡ (
            if listed u demo.all_tasks && is_task (demo.table u).parent parent_task
            then heir
            else (demo.table u).parent))
          × (listed u demo.all_tasks ≡ true → w.parent ≢ some parent_task)
          × (w.pid ≡ (demo.table u).pid)
          × (w.exit_code ≡ (demo.table u).exit_code)
          × (w.state ≡ (
              if is_task heir u && is_blocked (demo.table u).state
              then State.ready
              else (demo.table u).state)))
reparent_children_lem_example = reparent_children_lem parent_task demo

-- Tasks 0, which runs, and 1 and 2 are zombies; 1 has a parent.
abbrev with_zombies : Tasks
with_zombies = record demo { zombie_tasks = 2 ∷ 1 ∷ 0 ∷ []; all_tasks = 2 ∷ 1 ∷ 0 ∷ [] }

task_reap_detached_zombies_lem_example :
    let (s', freed) = task_reap_detached_zombies with_zombies in
    Split with_zombies (2 ∷ 1 ∷ 0 ∷ []) s'.zombie_tasks freed
    × ((u : ℕ)
        → occurrences u s'.all_tasks ≡ occurrences u with_zombies.all_tasks - occurrences u freed)
    × (s'.table ≡ with_zombies.table)
    × (s'.current ≡ with_zombies.current)
    × (s'.init_task ≡ with_zombies.init_task)
task_reap_detached_zombies_lem_example = task_reap_detached_zombies_lem with_zombies
