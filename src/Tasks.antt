-- ===== src/Tasks.antt =====
-- The tasks of kernel/sched/task.c: registration, zombies, reparenting and one round of waitpid. A
-- task is a number; the lists linked by `all_next` and `zombie_next` are lists of these. Memory of
-- tasks, their stacks and address spaces are not part of it: freeing a task returns its number.
pub mod Zombies
pub mod Parents
pub mod Reap
mod Examples
use lithium_kernel.Prelude.{
  ℕ, zero, suc, ◌+◌, ◌-◌, ◌*◌, ◌/◌, ◌%◌, ◌^◌, ◌≤◌, ◌<◌, min, max, ◌≡◌, refl, sym, ap, ◌∙◌, ◌≢◌, ◌↔◌,
  ◌⊎◌, inl, inr, Bool, true, false, not, ◌&&◌, ◌||◌, Option, none, some, List, [], ◌∷◌, ◌++◌, map,
  arith, ltb, leb, ◌==◌, if◌then◌else◌, lt→ltb, ltb→lt, leb→le, ==_iff, ==→eq, Bool-cases,
  Option-cases, update, Outcome, ok, halted, kassert, count, count-congr, count-clear, count-pos,
  count_witness, count-le, length, get_elem?, get_or, set, take, drop, replicate, length-append,
  length-set, get_elem?-set_self, get_elem?-set_ne, take-append-drop, length-take, length-drop,
  length-replicate, take_append, drop_append, take_all,
}

pub data State : Type 0 where
  ready running blocked dead : State

-- The fields of `task_t` that these functions use.
pub record Task : Type 0 where
  pub pid : ℕ
  pub state : State
  pub parent : Option ℕ
  pub exit_code : ℕ

-- The tasks, and `current_task`, `all_tasks`, `zombie_tasks` and `init_task`.
pub record Tasks : Type 0 where
  pub table : ℕ → Task
  pub current : Option ℕ
  pub all_tasks : List ℕ
  pub zombie_tasks : List ℕ
  pub init_task : Option ℕ

abbrev pub is_task : Option ℕ → ℕ → Bool
is_task none t = false
is_task (some u) t = u == t

abbrev pub is_blocked : State → Bool
is_blocked State.blocked = true
is_blocked s = false

abbrev pub is_dead : State → Bool
is_dead State.dead = true
is_dead s = false

abbrev pub set_state : State → Task → Task
set_state state t = record t { state = state }

-- `if (t && t->state == TASK_BLOCKED) t->state = TASK_READY`
pub wake : (ℕ → Task) → Option ℕ → ℕ → Task
wake table none = table
wake table (some t) =
    if is_blocked (table t).state then update table t (set_state State.ready (table t)) else table

pub task_register : ℕ → Tasks → Tasks
task_register t s = record s {
  table = update s.table t (record (s.table t) { parent = s.current });
  init_task = if (s.table t).pid == 1 then some t else s.init_task;
  all_tasks = t ∷ s.all_tasks;
}

-- Who takes over the children: the task with pid 1, unless it is the one that ends or dead.
pub new_parent : ℕ → Tasks → Option ℕ
new_parent parent s = elim s.init_task [
  | none ↦ none
  | some i ↦ if not (i == parent) && not (is_dead (s.table i).state) then some i else none
]

-- The loop over all tasks.
pub reparent_all : List ℕ → ℕ → Option ℕ → (ℕ → Task) → ℕ → Task
reparent_all [] parent heir table = table
reparent_all (t ∷ ts) parent heir table = reparent_all ts parent heir (
    if is_task (table t).parent parent
    then update table t (record (table t) { parent = heir })
    else table)

pub reparent_children : ℕ → Tasks → Tasks
reparent_children parent s =
    let heir = new_parent parent s in
    record s { table = wake (reparent_all s.all_tasks parent heir s.table) heir }

-- The first occurrence goes.
pub task_unregister : ℕ → List ℕ → List ℕ
task_unregister t [] = []
task_unregister t (u ∷ us) = if u == t then us else u ∷ task_unregister t us

-- `t->zombie_next` is not null: it is a zombie and not the last of the list.
pub has_zombie_next : ℕ → List ℕ → Bool
has_zombie_next t [] = false
has_zombie_next t (u ∷ []) = false
has_zombie_next t (u ∷ v ∷ us) = (u == t) || has_zombie_next t (v ∷ us)

pub task_zombify : ℕ → Tasks → Tasks
task_zombify t s =
    if has_zombie_next t s.zombie_tasks
    then s
    else (let s' = reparent_children t s in
        record s' { zombie_tasks = t ∷ s'.zombie_tasks; table = wake s'.table (s'.table t).parent })

-- A child of the parent with the pid that is asked for; `none` is -1, any child.
pub matches : Tasks → ℕ → Option ℕ → ℕ → Bool
matches s parent pid t =
    is_task (s.table t).parent parent && elim pid [ none ↦ true | some p ↦ (s.table t).pid == p ]

pub has_match : Tasks → ℕ → Option ℕ → List ℕ → Bool
has_match s parent pid [] = false
has_match s parent pid (t ∷ ts) = matches s parent pid t || has_match s parent pid ts

pub task_has_child : Tasks → ℕ → Option ℕ → Bool
task_has_child s parent pid = has_match s parent pid s.all_tasks

-- The first match and the list without it.
pub pick : Tasks → ℕ → Option ℕ → List ℕ → Option (ℕ × List ℕ)
pick s parent pid [] = none
pick s parent pid (z ∷ zs) =
    let rest = pick s parent pid zs in
    if matches s parent pid z
    then some (z, zs)
    else elim rest [ none ↦ none | some (w, ws) ↦ some (w, z ∷ ws) ]

unlink_zombie : Tasks → Option (ℕ × List ℕ) → Tasks × Option ℕ
unlink_zombie s none = (s, none)
unlink_zombie s (some (z, zs)) =
    (record s { zombie_tasks = zs; all_tasks = task_unregister z s.all_tasks }, some z)

pub take_zombie : ℕ → Option ℕ → Tasks → Tasks × Option ℕ
take_zombie parent pid s = unlink_zombie s (pick s parent pid s.zombie_tasks)

-- What one round of the loop of task_waitpid comes to: the pid and the status of the task that is
-- freed, -ECHILD, 0 with WNOHANG, or the state in which it yields. `me` is `current_task`.
pub data Round : Type 0 where
  reaped : ℕ → ℕ → Round
  no_child : Round
  none_yet : Round
  yields : Round

wait_result : ℕ → Option ℕ → Bool → Tasks × Option ℕ → Tasks × Round
wait_result me pid nohang (s, some z) =
    (s, reaped (s.table z).pid ((s.table z).exit_code % 256 * 256))
wait_result me pid nohang (s, none) =
    if not (task_has_child s me pid)
    then (s, no_child)
    else if nohang
    then (s, none_yet)
    else (record s { table = update s.table me (set_state State.blocked (s.table me)) }, yields)

pub waitpid_round : ℕ → Option ℕ → Bool → Tasks → Tasks × Round
waitpid_round me pid nohang s = wait_result me pid nohang (take_zombie me pid s)

-- `z == current_task || z->parent`
pub stays : Tasks → ℕ → Bool
stays s z = is_task s.current z || elim (s.table z).parent [ none ↦ false | some p ↦ true ]

-- The walk along the zombies: those that stay, all tasks that are left, and those that `task_free` frees.
pub reap_from : Tasks → List ℕ → List ℕ → List ℕ × List ℕ × List ℕ
reap_from s [] all = ([], all, [])
reap_from s (z ∷ zs) all =
    if stays s z
    then (let (kept, left, freed) = reap_from s zs all in (z ∷ kept, left, freed))
    else (let (kept, left, freed) = reap_from s zs (task_unregister z all) in
        (kept, left, z ∷ freed))

pub task_reap_detached_zombies : Tasks → Tasks × List ℕ
task_reap_detached_zombies s =
    let (kept, left, freed) = reap_from s s.zombie_tasks s.all_tasks in
    (record s { zombie_tasks = kept; all_tasks = left }, freed)

-- The part of task_exit before it calls the scheduler.
pub task_exit : ℕ → ℕ → Tasks → Tasks
task_exit me code s = record s {
  table = update s.table me (record (s.table me) { exit_code = code; state = State.dead });
}
