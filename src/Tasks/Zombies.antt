-- ===== src/Tasks/Zombies.antt =====
-- Zombies of kernel/sched/task.c: waiting for one, and reaping those without a parent.
use lithium_kernel.Prelude.{
  ℕ, ◌*◌, ◌%◌, ◌≡◌, refl, sym, ap, ◌∙◌, ◌≢◌, ◌⊎◌, inl, inr, Bool, true, false, ◌&&◌, Option, none,
  some, List, [], ◌∷◌, ◌++◌, arith, ◌==◌, if◌then◌else◌, ==_iff, Bool-cases, Option-cases,
}
use mathlib.Core.Path.{ap₂}
use lithium_kernel.Tasks.{
  new_parent, Tasks, Round, is_task, reparent_children, task_unregister, has_zombie_next,
  task_zombify, matches, pick, take_zombie, unlink_zombie, wait_result, waitpid_round,
}
use lithium_kernel.Tasks.Parents.{
  listed, reparent_children-parents, wake-parent, wake-pid, wake-exit_code,
}

abbrev pub AllOther : Tasks → ℕ → Option ℕ → List ℕ → Type 0
AllOther s parent pid [] = Unit {0}
AllOther s parent pid (z ∷ zs) = (matches s parent pid z ≡ false) × AllOther s parent pid zs

-- The first of the zombies that is a child with the pid.
pub FirstMatch : Tasks → ℕ → Option ℕ → List ℕ → Option (ℕ × List ℕ) → Type 0
FirstMatch s parent pid zs none = AllOther s parent pid zs
FirstMatch s parent pid zs (some (z, rest)) =
    (before after : List ℕ) × (zs ≡ before ++ z ∷ after)
    × (rest ≡ before ++ after)
    × (matches s parent pid z ≡ true)
    × AllOther s parent pid before

pick-FirstMatch :
    (s : Tasks) (parent : ℕ) (pid : Option ℕ) (zs : List ℕ)
    → FirstMatch s parent pid zs (pick s parent pid zs)
unfolding pick FirstMatch
pick-FirstMatch s parent pid [] = tt
pick-FirstMatch s parent pid (z ∷ zs) = elim (Bool-cases (matches s parent pid z)) [
  | inl e ↦ rw e ([], zs, refl, refl, e, tt)
  | inr e ↦ elim (Option-cases (pick s parent pid zs)) [
    | inl q ↦ let rest = pick-FirstMatch s parent pid zs in rw (e, q) (e, (rw q at rest))
    | inr ((w, ws), q) ↦
        let rest = pick-FirstMatch s parent pid zs in
        let (before, after, p, r, m, o) : FirstMatch s parent pid zs (some (w, ws)) =
          rw q at rest in
        rw (e, q) (z ∷ before, after, ap (◌∷◌ z) p, ap (◌∷◌ z) r, m, (e, o))
  ]
]

-- `take_zombie` takes the first zombie that is a child of the parent with the pid out of both lists,
-- and only that; with none it changes nothing.
take_zombie_lem :
    (parent : ℕ) (pid : Option ℕ) (s : Tasks)
    → ((take_zombie parent pid s ≡ (s, none)) × AllOther s parent pid s.zombie_tasks)
      ⊎ ((z : ℕ) × (rest : List ℕ) × FirstMatch s parent pid s.zombie_tasks (some (z, rest))
          × (take_zombie parent pid s ≡ (
            record s { zombie_tasks = rest; all_tasks = task_unregister z s.all_tasks },
            some z,
          )))
unfolding take_zombie unlink_zombie FirstMatch
take_zombie_lem parent pid s =
    let first = pick-FirstMatch s parent pid s.zombie_tasks in
    elim (Option-cases (pick s parent pid s.zombie_tasks)) [
      | inl q ↦ inl (ap (unlink_zombie s) q, rw q at first)
      | inr ((z, rest), q) ↦ inr (z, rest, rw q at first, ap (unlink_zombie s) q)
    ]

-- A round that finds its zombie in front.
waitpid_round-first :
    (s : Tasks) (me : ℕ) (pid : Option ℕ) (nohang : Bool) (t : ℕ) (zs : List ℕ)
    → s.zombie_tasks ≡ t ∷ zs
    → matches s me pid t ≡ true
    → waitpid_round me pid nohang s ≡ (
      record s { zombie_tasks = zs; all_tasks = task_unregister t s.all_tasks },
      Round.reaped (s.table t).pid ((s.table t).exit_code % 256 * 256),
    )
unfolding waitpid_round wait_result take_zombie unlink_zombie pick
waitpid_round-first s me pid nohang t zs e m =
    let found : pick s me pid s.zombie_tasks ≡ some (t, zs) = ap (pick s me pid) e ∙ rw m refl in
    let taken : take_zombie me pid s
        ≡ (record s { zombie_tasks = zs; all_tasks = task_unregister t s.all_tasks }, some t) =
      ap (unlink_zombie s) found in
    ap (wait_result me pid nohang) taken

matches_self :
    (s : Tasks) (me : ℕ) (pid : Option ℕ) (t : ℕ)
    → (s.table t).parent ≡ some me
    → (pid ≡ none) ⊎ (pid ≡ some (s.table t).pid)
    → matches s me pid t ≡ true
unfolding matches
matches_self s me pid t child asked =
    let same : (me == me) ≡ true = (==_iff me me).1 refl in
    let number : ((s.table t).pid == (s.table t).pid) ≡ true = (==_iff _ _).1 refl in
    elim asked [
      | inl a ↦ rw (child, a) (rw same refl)
      | inr a ↦ rw (child, a) (rw (same, number) refl)
    ]

never : (b : Bool) (x y : Option ℕ) → (if b && false then x else y) ≡ y
never true x y = refl
never false x y = refl

-- What becoming a zombie changes.
zombified :
    (s : Tasks) (t me : ℕ)
    → has_zombie_next t s.zombie_tasks ≡ false
    → (s.table t).parent ≡ some me
    → me ≢ t
    → let z = task_zombify t s in
      (z.zombie_tasks ≡ t ∷ s.zombie_tasks)
      × (z.all_tasks ≡ s.all_tasks)
      × ((z.table t).parent ≡ some me)
      × ((z.table t).pid ≡ (s.table t).pid)
      × ((z.table t).exit_code ≡ (s.table t).exit_code)
unfolding task_zombify reparent_children
zombified s t me fresh child other =
    let s' = reparent_children t s in
    let (parents, _, number, code) = reparent_children-parents t s t in
    let heir = (s'.table t).parent in
    let not_self : is_task (s.table t).parent t ≡ false =
      ap (λ o. is_task o t) child ∙ ground (arith, other) in
    let kept : heir ≡ some me =
      parents
      ∙ ap (λ b. if listed t s.all_tasks && b then new_parent t s else (s.table t).parent) not_self
      ∙ never (listed t s.all_tasks) (new_parent t s) (s.table t).parent
      ∙ child in
    rw fresh (
      refl,
      refl,
      wake-parent s'.table heir t ∙ kept,
      wake-pid s'.table heir t ∙ number,
      wake-exit_code s'.table heir t ∙ code,
    )

-- A task that has just become a zombie is the one that its parent's next `waitpid` for it, or for
-- any child, frees: with its pid and the low byte of its exit code, shifted up by 8. The zombies are
-- those from before, and the task is not registered any more. The task is not its own parent, and
-- was not linked among the zombies.
pub waitpid_round-task_zombify :
    (s : Tasks) (t me : ℕ) (pid : Option ℕ) (nohang : Bool)
    → has_zombie_next t s.zombie_tasks ≡ false
    → (s.table t).parent ≡ some me
    → me ≢ t
    → (pid ≡ none) ⊎ (pid ≡ some (s.table t).pid)
    → let (s', r) = waitpid_round me pid nohang (task_zombify t s) in
      (r ≡ Round.reaped (s.table t).pid ((s.table t).exit_code % 256 * 256))
      × (s'.zombie_tasks ≡ s.zombie_tasks)
      × (s'.all_tasks ≡ task_unregister t s.all_tasks)
waitpid_round-task_zombify s t me pid nohang fresh child other asked =
    let z = zombified s t me fresh child other in
    let (zombies, all, parent, number, code) = z in
    let m : matches (task_zombify t s) me pid t ≡ true =
      matches_self (task_zombify t s) me pid t parent
        (elim asked [ inl a ↦ inl a | inr a ↦ inr (a ∙ ap some (sym number)) ]) in
    let round = waitpid_round-first (task_zombify t s) me pid nohang t s.zombie_tasks zombies m in
    (
      ap (λ r. r.1) round ∙ ap₂ (λ p c. Round.reaped p (c % 256 * 256)) number code,
      ap (λ r. r.0.zombie_tasks) round,
      ap (λ r. r.0.all_tasks) round ∙ ap (task_unregister t) all,
    )
