-- ===== src/Sched.antt =====
-- kernel/sched/sched.c: the ring of tasks that can run, and the choice of the next one. The switch of
-- stacks and page tables is not part of it: `schedule` returns the task to switch to.
pub mod Choice
mod Examples
use lithium_kernel.Prelude.{
  ℕ, zero, suc, ◌+◌, ◌-◌, ◌*◌, ◌/◌, ◌%◌, ◌^◌, ◌≤◌, ◌<◌, min, max, ◌≡◌, refl, sym, ap, ◌∙◌, ◌≢◌, ◌↔◌,
  ◌⊎◌, inl, inr, Bool, true, false, not, ◌&&◌, ◌||◌, Option, none, some, List, [], ◌∷◌, ◌++◌, map,
  arith, ltb, leb, ◌==◌, if◌then◌else◌, lt→ltb, ltb→lt, leb→le, ==_iff, ==→eq, Bool-cases,
  Option-cases, update, Outcome, ok, halted, kassert, count, count-congr, count-clear, count-pos,
  count_witness, count-le, length, get_elem?, get_or, set, take, drop, replicate, length-append,
  length-set, get_elem?-set_self, get_elem?-set_ne, take-append-drop, length-take, length-drop,
  length-replicate, take_append, drop_append, take_all,
}
use lithium_kernel.Tasks.{State, Task, Tasks, is_task, is_dead, set_state, task_zombify}

-- `next` of a task that is in no ring may be null; `run_queue_head`, `task_count` and `idle_task`.
pub record Sched : Type 0 where
  pub tasks : Tasks
  pub next : ℕ → Option ℕ
  pub run_queue_head : Option ℕ
  pub task_count : ℕ
  pub idle_task : Option ℕ

abbrev pub is_running : State → Bool
is_running State.running = true
is_running s = false

abbrev pub can_run : State → Bool
can_run State.ready = true
can_run State.running = true
can_run s = false

add_after : ℕ → ℕ → Sched → Sched
add_after t c s = record s {
  next = update (update s.next t (s.next c)) c (some t);
  task_count = s.task_count + 1;
}

-- `insert_after` is the current task, or the head without one.
add_task : ℕ → Option ℕ → Option ℕ → Sched → Sched
add_task t none current s = record s {
  next = update s.next t (some t);
  run_queue_head = some t;
  task_count = s.task_count + 1;
}
add_task t (some h) none s = add_after t h s
add_task t (some h) (some c) s = add_after t c s

pub sched_add : ℕ → Sched → Sched
sched_add t s = add_task t s.run_queue_head s.tasks.current s

-- The loop of sched_remove, on fuel: the ring has `task_count` tasks.
pub find_prev : Sched → ℕ → ℕ → ℕ → ℕ → ℕ
find_prev s zero t head prev = prev
find_prev s (suc n) t head prev = elim (s.next prev) [
  | none ↦ prev
  | some p ↦ if (p == t) || (p == head) then prev else find_prev s n t head p
]

unlink_task : ℕ → ℕ → ℕ → Sched → Sched
unlink_task t head prev s =
    if is_task (s.next t) t
    then record s { run_queue_head = none; task_count = s.task_count - 1 }
    else record s {
      next = update s.next prev (s.next t);
      run_queue_head = if head == t then s.next t else some head;
      task_count = s.task_count - 1;
    }

pub sched_remove : ℕ → Sched → Sched
sched_remove t s = elim s.run_queue_head [
  | none ↦ s
  | some head ↦
      let prev = find_prev s s.task_count t head head in
      if s.task_count == 0
      then s
      else if is_task (s.next prev) t
      then unlink_task t head prev s
      else s
]

-- A task that is there and can run.
pub runnable : Sched → Option ℕ → Bool
runnable s none = false
runnable s (some t) = can_run (s.tasks.table t).state

-- The round-robin loop, `n` rounds left.
pub pick_next : Sched → ℕ → Option ℕ → Option ℕ
pick_next s zero cand = cand
pick_next s (suc n) cand =
    if runnable s cand then cand else pick_next s n (elim cand [ none ↦ none | some c ↦ s.next c ])

pub put_state : State → ℕ → Sched → Sched
put_state state t s = record s {
  tasks = record s.tasks { table = update s.tasks.table t (set_state state (s.tasks.table t)) };
}

-- A dead task leaves the ring and becomes a zombie, and its parent runs next if it can; a running one
-- is ready.
pub retire : ℕ → Option ℕ → Sched → Sched × Option ℕ
retire me cand s =
    let parent = (s.tasks.table me).parent in
    let removed = sched_remove me s in
    let buried = record removed { tasks = task_zombify me removed.tasks } in
    if is_dead (s.tasks.table me).state
    then (buried, if runnable buried parent then parent else cand)
    else if is_running (s.tasks.table me).state
    then (put_state State.ready me s, cand)
    else (s, cand)

abbrev or_idle : Sched → Option ℕ → Option ℕ
or_idle s cand = if runnable s cand then cand else s.idle_task

-- Going on with the task, or switching to another.
pub resume : ℕ → Sched → Option ℕ → Sched × Option ℕ
resume me s none = (put_state State.running me s, none)
resume me s (some c) =
    if c == me
    then (put_state State.running me s, none)
    else (let s' = put_state State.running c s in
        (record s' { tasks = record s'.tasks { current = some c } }, some c))

choose : ℕ → Sched × Option ℕ → Sched × Option ℕ
choose me (s, cand) = resume me s (or_idle s cand)

-- With `current_task` not null, `me`.
pub schedule : ℕ → Sched → Sched × Option ℕ
schedule me s = choose me (retire me (pick_next s s.task_count (s.next me)) s)
