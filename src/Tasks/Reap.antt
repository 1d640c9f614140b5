-- ===== src/Tasks/Reap.antt =====
-- task_reap_detached_zombies of kernel/sched/task.c.
use lithium_kernel.Prelude.{
  ℕ, ◌+◌, ◌-◌, ◌≡◌, refl, sym, ap, ◌∙◌, ◌≢◌, ◌⊎◌, inl, inr, true, false, none, some, List, [], ◌∷◌,
  arith, ◌==◌, if◌then◌else◌, Bool-cases, Option-cases, ==→eq, ==_iff,
}
use lithium_kernel.Tasks.{Tasks, task_unregister, stays, reap_from, task_reap_detached_zombies}

-- How often a task stands in a list.
pub occurrences : ℕ → List ℕ → ℕ
occurrences u [] = 0
occurrences u (t ∷ ts) = (if t == u then 1 else 0) + occurrences u ts

-- The zombies split, in their order, into those kept, which have a parent or are the current task, and those
-- freed, which have no parent and are not the current task.
pub data Split (s : Tasks) : List ℕ → List ℕ → List ℕ → Type 0 where
  nil : Split s [] [] []
  keep :
      {zs kept freed : List ℕ} (z : ℕ)
      → (s.current ≡ some z) ⊎ ((p : ℕ) × ((s.table z).parent ≡ some p))
      → Split s zs kept freed
      → Split s (z ∷ zs) (z ∷ kept) freed
  free :
      {zs kept freed : List ℕ} (z : ℕ)
      → s.current ≢ some z
      → (s.table z).parent ≡ none
      → Split s zs kept freed
      → Split s (z ∷ zs) kept (z ∷ freed)

occurrences-task_unregister :
    (z u : ℕ) (all : List ℕ)
    → occurrences u (task_unregister z all) ≡ occurrences u all - (if z == u then 1 else 0)
unfolding occurrences task_unregister
occurrences-task_unregister z u [] = ground arith
occurrences-task_unregister z u (t ∷ ts) = elim (Bool-cases (t == z)) [
  | inl e ↦
      let same : (t == u) ≡ (z == u) = ap (λ x. x == u) (==→eq t z e) in rw (e, same) (omega arith)
  | inr e ↦
      let ih = occurrences-task_unregister z u ts in
      rw e (elim (Bool-cases (z == u)) [
        | inr n ↦ ground (arith, ih, n)
        | inl y ↦
            let other : (t == u) ≡ false = ground (arith, e, y) in rw other (ground (arith, ih, y))
      ])
]

some_eq : {i j : ℕ} → some i ≡ some j → i ≡ j
some_eq h = ground (arith, h)

stays-cases :
    (s : Tasks) (z : ℕ)
    → ((stays s z ≡ true) × ((s.current ≡ some z) ⊎ ((p : ℕ) × ((s.table z).parent ≡ some p))))
      ⊎ ((stays s z ≡ false) × (s.current ≢ some z) × ((s.table z).parent ≡ none))
unfolding stays
stays-cases s z = elim (Option-cases s.current) [
  | inl c ↦ elim (Option-cases (s.table z).parent) [
    | inl n ↦ inr (rw (c, n) refl, (λ h. cc (sym c ∙ h)), n)
    | inr (p, e) ↦ inl (rw (c, e) refl, inr (p, e))
  ]
  | inr (t, c) ↦ elim (Bool-cases (t == z)) [
    | inl q ↦ inl (rw (c, q) refl, inl (c ∙ ap some (==→eq t z q)))
    | inr q ↦ elim (Option-cases (s.table z).parent) [
      | inl n ↦ inr (rw (c, q, n) refl, (λ h. cc ((==_iff t z).1 (some_eq (sym c ∙ h)), q)), n)
      | inr (p, e) ↦ inl (rw (c, q, e) refl, inr (p, e))
    ]
  ]
]

-- What the walk comes to.
abbrev Reaps : Tasks → List ℕ → List ℕ → List ℕ × List ℕ × List ℕ → Type 0
Reaps s zs all (kept, left, freed) =
    Split s zs kept freed × ((u : ℕ) → occurrences u left ≡ occurrences u all - occurrences u freed)

reap_from_lem : (s : Tasks) (zs all : List ℕ) → Reaps s zs all (reap_from s zs all)
unfolding reap_from occurrences
reap_from_lem s [] all = (Split.nil, λ u. omega arith)
reap_from_lem s (z ∷ zs) all = elim (stays-cases s z) [
  | inl (e, why) ↦
      let (split, counts) = reap_from_lem s zs all in rw e (Split.keep z why split, counts)
  | inr (e, not_current, no_parent) ↦
      let (split, counts) = reap_from_lem s zs (task_unregister z all) in
      rw e (
        Split.free z not_current no_parent split,
        (λ u. omega (arith, counts u, occurrences-task_unregister z u all)),
      )
]

-- `task_reap_detached_zombies` keeps the zombies that have a parent or are the current task, in their order, and
-- frees each of the others, in their order. Each task that is freed goes out of the list of all tasks as
-- often as it is freed; every other stands in it as before. No field of a task that is kept changes, nor do the
-- current task and the one with pid 1.
pub task_reap_detached_zombies_lem :
    (s : Tasks)
    → let (s', freed) = task_reap_detached_zombies s in
      Split s s.zombie_tasks s'.zombie_tasks freed
      × ((u : ℕ) → occurrences u s'.all_tasks ≡ occurrences u s.all_tasks - occurrences u freed)
      × (s'.table ≡ s.table)
      × (s'.current ≡ s.current)
      × (s'.init_task ≡ s.init_task)
unfolding task_reap_detached_zombies
task_reap_detached_zombies_lem s =
    let (split, counts) = reap_from_lem s s.zombie_tasks s.all_tasks in
    (split, counts, refl, refl, refl)
