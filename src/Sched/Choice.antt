-- ===== src/Sched/Choice.antt =====
-- The task that schedule of kernel/sched/sched.c chooses.
use lithium_kernel.Prelude.{
  ℕ, zero, suc, ◌+◌, ◌≡◌, refl, sym, ap, ◌∙◌, ◌≢◌, ◌⊎◌, inl, inr, true, false, Option, none, some,
  arith, ◌==◌, if◌then◌else◌, Bool-cases, update,
}
use mathlib.Core.Path.{subst, ap₂}
use lithium_kernel.Tasks.{State, Task, is_dead, set_state}
use lithium_kernel.Sched.{
  Sched, is_running, can_run, runnable, pick_next, put_state, retire, or_idle, resume, choose,
  schedule, sched_add, add_task, add_after,
}

-- Every task that comes after `cand` in `n` steps, `cand` included, cannot run.
pub NoneRunnable : Sched → ℕ → Option ℕ → Type 0
NoneRunnable s zero cand = Unit {0}
NoneRunnable s (suc n) cand =
    (runnable s cand ≡ false) × NoneRunnable s n (elim cand [ none ↦ none | some c ↦ s.next c ])

-- The loop stops at a task that can run unless none of those it has looked at can.
pick_next_lem :
    (s : Sched) (n : ℕ) (cand : Option ℕ)
    → (runnable s (pick_next s n cand) ≡ true) ⊎ NoneRunnable s n cand
unfolding pick_next NoneRunnable
pick_next_lem s zero cand = inr tt
pick_next_lem s (suc n) cand = elim (Bool-cases (runnable s cand)) [
  | inl e ↦ inl (rw (pick_next, e) e)
  | inr e ↦ elim (pick_next_lem s n (elim cand [ none ↦ none | some c ↦ s.next c ])) [
    | inl r ↦ inl (rw (pick_next, e) r)
    | inr r ↦ inr (e, r)
  ]
]

put_state_self :
    (state : State) (t : ℕ) (s : Sched) → ((put_state state t s).tasks.table t).state ≡ state
unfolding put_state
put_state_self state t s = ground arith

abbrev Chosen : ℕ → Sched → Option ℕ → Sched × Option ℕ → Type 0
Chosen me s1 cand (s', r) =
    ((r ≡ none)
      × ((s'.tasks.table me).state ≡ State.running)
      × (s'.tasks.current ≡ s1.tasks.current))
    ⊎ ((c : ℕ) × (r ≡ some c)
        × (c ≢ me)
        × (s'.tasks.current ≡ some c)
        × ((s'.tasks.table c).state ≡ State.running)
        × (((cand ≡ some c) × (runnable s1 (some c) ≡ true))
            ⊎ ((s1.idle_task ≡ some c) × (runnable s1 cand ≡ false))))

resume_lem :
    (me : ℕ) (s : Sched) (cand o : Option ℕ)
    → ((cand ≡ o) × (runnable s o ≡ true)) ⊎ ((s.idle_task ≡ o) × (runnable s cand ≡ false))
    → Chosen me s cand (resume me s o)
unfolding resume put_state
resume_lem me s cand none h = inl (refl, put_state_self State.running me s, refl)
resume_lem me s cand (some c) h = elim (Bool-cases (c == me)) [
  | inl e ↦ rw e (inl (refl, put_state_self State.running me s, refl))
  | inr e ↦ rw e (inr (c, refl, ground (arith, e), refl, put_state_self State.running c s, h))
]

choose_lem : (me : ℕ) (k : Sched × Option ℕ) → Chosen me k.0 k.1 (choose me k)
unfolding choose
choose_lem me (s, cand) = elim (Bool-cases (runnable s cand)) [
  | inl e ↦
      let kept : or_idle s cand ≡ cand = ap (λ b. if b then cand else s.idle_task) e in
      subst (λ o. Chosen me s cand (resume me s o)) (sym kept)
        (resume_lem me s cand cand (inl (refl, e)))
  | inr e ↦
      let idle : or_idle s cand ≡ s.idle_task = ap (λ b. if b then cand else s.idle_task) e in
      subst (λ o. Chosen me s cand (resume me s o)) (sym idle)
        (resume_lem me s cand s.idle_task (inr (refl, e)))
]

-- `schedule` goes on with the current task, which then runs, or switches to another one, which is the
-- current one and runs: that one could run when it was chosen, or is the idle task.
pub schedule_lem :
    (me : ℕ) (s : Sched)
    → let (s1, cand) = retire me (pick_next s s.task_count (s.next me)) s in
      let (s', r) = schedule me s in
      ((r ≡ none)
        × ((s'.tasks.table me).state ≡ State.running)
        × (s'.tasks.current ≡ s1.tasks.current))
      ⊎ ((c : ℕ) × (r ≡ some c)
          × (c ≢ me)
          × (s'.tasks.current ≡ some c)
          × ((s'.tasks.table c).state ≡ State.running)
          × (((cand ≡ some c) × (runnable s1 (some c) ≡ true))
              ⊎ ((s1.idle_task ≡ some c) × (runnable s1 cand ≡ false))))
unfolding schedule choose
schedule_lem me s = choose_lem me (retire me (pick_next s s.task_count (s.next me)) s)

update_other : (f : ℕ → Task) (i j : ℕ) → j ≢ i → (v : Task) → update f i v j ≡ f j
update_other f i j h v = let apart : (i == j) ≡ false = ground (arith, h) in rw apart refl

picked : (s : Sched) (n t : ℕ) → runnable s (some t) ≡ true → pick_next s (n + 1) (some t) ≡ some t
unfolding pick_next
picked s n t e = let more : n + 1 ≡ suc n = omega arith in rw (more, pick_next, e) refl

retire_running :
    (me : ℕ) (cand : Option ℕ) (s : Sched)
    → (s.tasks.table me).state ≡ State.running
    → retire me cand s ≡ (put_state State.ready me s, cand)
unfolding retire
retire_running me cand s e = rw (ap is_dead e, ap is_running e) refl

-- The choice of a task that can run and is not the current one.
chosen :
    (me t : ℕ) (s : Sched)
    → runnable s (some t) ≡ true
    → t ≢ me
    → (choose me (s, some t)).1 ≡ some t
unfolding choose resume
chosen me t s can other =
    let apart : (t == me) ≡ false = ground (arith, other) in
    let kept : or_idle s (some t) ≡ some t = ap (λ b. if b then some t else s.idle_task) can in
    ap (λ o. (resume me s o).1) kept ∙ rw apart refl

-- The next `schedule` after `sched_add` switches to the new task, if there is a ring, the current
-- task is running and is another one, and the new task is ready.
pub schedule-sched_add :
    (me t h : ℕ) (s : Sched)
    → s.run_queue_head ≡ some h
    → s.tasks.current ≡ some me
    → t ≢ me
    → (s.tasks.table me).state ≡ State.running
    → (s.tasks.table t).state ≡ State.ready
    → (schedule me (sched_add t s)).1 ≡ some t
unfolding schedule sched_add add_task add_after runnable put_state
schedule-sched_add me t h s ring current other runs waits =
    let s1 = add_after t me s in
    let added : sched_add t s ≡ s1 = ap₂ (λ a b. add_task t a b s) ring current in
    let next : s1.next me ≡ some t = ground arith in
    let can : runnable s1 (some t) ≡ true = ap can_run waits in
    let first : pick_next s1 (s.task_count + 1) (s1.next me) ≡ some t =
      ap (pick_next s1 (s.task_count + 1)) next ∙ picked s1 s.task_count t can in
    let s2 = put_state State.ready me s1 in
    let still : runnable s2 (some t) ≡ true = ap can_run (
      ap (λ k. k.state)
        (update_other s.tasks.table me t other (set_state State.ready (s.tasks.table me)))
      ∙ waits) in
    ap (λ k. (schedule me k).1) added
    ∙ ap (λ c. (choose me (retire me c s1)).1) first
    ∙ ap (λ k. (choose me k).1) (retire_running me (some t) s1 runs)
    ∙ chosen me t s2 still other
