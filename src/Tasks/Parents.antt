-- ===== src/Tasks/Parents.antt =====
-- Reparenting in kernel/sched/task.c.
use lithium_kernel.Prelude.{
  ℕ, ◌≡◌, ◌≢◌, refl, sym, ap, ◌∙◌, ◌⊎◌, inl, inr, ==_iff, Bool, true, false, ◌&&◌, ◌||◌, Option,
  none, some, List, [], ◌∷◌, arith, ◌==◌, if◌then◌else◌, ==→eq, Bool-cases, Option-cases, update,
}
use mathlib.Core.Path.{subst}
use lithium_kernel.Tasks.{
  State, Task, Tasks, is_task, is_dead, is_blocked, wake, new_parent, reparent_all,
  reparent_children,
}

pub listed : ℕ → List ℕ → Bool
listed u [] = false
listed u (t ∷ ts) = (t == u) || listed u ts

pub wake-parent :
    (table : ℕ → Task) (o : Option ℕ) (u : ℕ) → (wake table o u).parent ≡ (table u).parent
unfolding wake
wake-parent table none u = refl
wake-parent table (some t) u = ground arith

pub wake-pid : (table : ℕ → Task) (o : Option ℕ) (u : ℕ) → (wake table o u).pid ≡ (table u).pid
unfolding wake
wake-pid table none u = refl
wake-pid table (some t) u = ground arith

pub wake-exit_code :
    (table : ℕ → Task) (o : Option ℕ) (u : ℕ) → (wake table o u).exit_code ≡ (table u).exit_code
unfolding wake
wake-exit_code table none u = refl
wake-exit_code table (some t) u = ground arith

abbrev step : ℕ → Option ℕ → (ℕ → Task) → ℕ → ℕ → Task
step parent heir table t =
    if is_task (table t).parent parent
    then update table t (record (table t) { parent = heir })
    else table

step_self :
    (parent : ℕ) (heir : Option ℕ) (table : ℕ → Task) (t : ℕ)
    → (step parent heir table t t).parent
      ≡ (if is_task (table t).parent parent then heir else (table t).parent)
step_self parent heir table t = elim (Bool-cases (is_task (table t).parent parent)) [
  | inl e ↦ rw e (ground arith)
  | inr e ↦ rw e refl
]

step_other :
    (parent : ℕ) (heir : Option ℕ) (table : ℕ → Task) (t u : ℕ)
    → (t == u) ≡ false
    → step parent heir table t u ≡ table u
step_other parent heir table t u n = elim (Bool-cases (is_task (table t).parent parent)) [
  | inl e ↦ rw (e, n) refl
  | inr e ↦ rw e refl
]

if-same : {A : Type 0} (b : Bool) (x : A) → (if b then x else x) ≡ x
if-same true x = refl
if-same false x = refl

if-split :
    (listed_u : Bool) (old heir : Option ℕ) (parent : ℕ)
    → (let here = if is_task old parent then heir else old in
        if listed_u && is_task here parent then heir else here)
      ≡ (if is_task old parent then heir else old)
if-split listed_u old heir parent = elim (Bool-cases (is_task old parent)) [
  | inl e ↦ rw e (if-same (listed_u && is_task heir parent) heir)
  | inr e ↦ rw (e, e) (elim (Bool-cases listed_u) [ inl l ↦ rw l refl | inr l ↦ rw l refl ])
]

reparent_all-parent :
    (ts : List ℕ) (parent : ℕ) (heir : Option ℕ) (table : ℕ → Task) (u : ℕ)
    → (reparent_all ts parent heir table u).parent
      ≡ (if listed u ts && is_task (table u).parent parent then heir else (table u).parent)
unfolding reparent_all listed
reparent_all-parent [] parent heir table u = refl
reparent_all-parent (t ∷ ts) parent heir table u = elim (Bool-cases (t == u)) [
  | inr n ↦
      let same = step_other parent heir table t u n in
      rw n (
        reparent_all-parent ts parent heir (step parent heir table t) u
        ∙ ap (λ x. if listed u ts && is_task x.parent parent then heir else x.parent) same)
  | inl q ↦
      let same : t ≡ u = ==→eq t u q in
      let here : (step parent heir table t u).parent
          ≡ (if is_task (table u).parent parent then heir else (table u).parent) =
        subst
          (λ k.
            (step parent heir table k u).parent
            ≡ (if is_task (table u).parent parent then heir else (table u).parent))
          (sym same) (step_self parent heir table u) in
      rw q (
        reparent_all-parent ts parent heir (step parent heir table t) u
        ∙ ap (λ x. if listed u ts && is_task x parent then heir else x) here
        ∙ if-split (listed u ts) (table u).parent heir parent)
]

-- Pids and exit codes stay.
reparent_all-pid :
    (ts : List ℕ) (parent : ℕ) (heir : Option ℕ) (table : ℕ → Task) (u : ℕ)
    → ((reparent_all ts parent heir table u).pid ≡ (table u).pid)
      × ((reparent_all ts parent heir table u).exit_code ≡ (table u).exit_code)
unfolding reparent_all
reparent_all-pid [] parent heir table u = (refl, refl)
reparent_all-pid (t ∷ ts) parent heir table u =
    let (p, c) = reparent_all-pid ts parent heir (step parent heir table t) u in
    (p ∙ ground arith, c ∙ ground arith)

new_parent-other : (parent : ℕ) (s : Tasks) → is_task (new_parent parent s) parent ≡ false
unfolding new_parent
new_parent-other parent s = elim (Option-cases s.init_task) [
  | inl e ↦ rw (e, new_parent) refl
  | inr (i, e) ↦ elim (Bool-cases (i == parent)) [
    | inl q ↦ rw (e, q, new_parent) refl
    | inr q ↦ elim (Bool-cases (is_dead (s.table i).state)) [
      | inl d ↦ rw (e, q, d, new_parent) refl
      | inr d ↦ rw (e, q, d, new_parent) q
    ]
  ]
]

orphaned :
    (old heir : Option ℕ) (parent : ℕ) (listed_u : Bool)
    → listed_u ≡ true
    → is_task heir parent ≡ false
    → is_task (if listed_u && is_task old parent then heir else old) parent ≡ false
orphaned old heir parent listed_u l h = elim (Bool-cases (is_task old parent)) [
  | inl e ↦ rw (l, e) h
  | inr e ↦ rw (l, e) e
]

-- Who takes over the children, and what else stays.
pub reparent_children-parents :
    (parent : ℕ) (s : Tasks) (u : ℕ)
    → let table = (reparent_children parent s).table in
      ((table u).parent ≡ (
        if listed u s.all_tasks && is_task (s.table u).parent parent
        then new_parent parent s
        else (s.table u).parent))
      × (listed u s.all_tasks ≡ true → is_task (table u).parent parent ≡ false)
      × ((table u).pid ≡ (s.table u).pid)
      × ((table u).exit_code ≡ (s.table u).exit_code)
unfolding reparent_children
reparent_children-parents parent s u =
    let heir = new_parent parent s in
    let all = reparent_all s.all_tasks parent heir s.table in
    let parents = wake-parent all heir u ∙ reparent_all-parent s.all_tasks parent heir s.table u in
    let (pids, codes) = reparent_all-pid s.all_tasks parent heir s.table u in
    (
      parents,
      λ l.
          ap (λ o. is_task o parent) parents
          ∙ orphaned (s.table u).parent heir parent (listed u s.all_tasks) l
              (new_parent-other parent s),
      wake-pid all heir u ∙ pids,
      wake-exit_code all heir u ∙ codes,
    )

wake-state :
    (table : ℕ → Task) (o : Option ℕ) (u : ℕ)
    → (wake table o u).state
      ≡ (if is_task o u && is_blocked (table u).state then State.ready else (table u).state)
unfolding wake
wake-state table none u = refl
wake-state table (some t) u = elim (Bool-cases (t == u)) [
  | inl q ↦
      subst
        (λ k.
          (wake table (some k) u).state
          ≡ (if (k == u) && is_blocked (table u).state then State.ready else (table u).state))
        (sym (==→eq t u q)) (woken u)
  | inr q ↦ elim (Bool-cases (is_blocked (table t).state)) [
    | inl b ↦ rw (b, q) refl
    | inr b ↦ rw (b, q) refl
  ]
]
  where
    woken :
        (u : ℕ)
        → (wake table (some u) u).state
          ≡ (if (u == u) && is_blocked (table u).state then State.ready else (table u).state)
    woken u =
        let self : (u == u) ≡ true = ground arith in
        elim (Bool-cases (is_blocked (table u).state)) [
          | inl b ↦ rw (b, self) refl
          | inr b ↦ rw (b, self) refl
        ]

reparent_all-state :
    (ts : List ℕ) (parent : ℕ) (heir : Option ℕ) (table : ℕ → Task) (u : ℕ)
    → (reparent_all ts parent heir table u).state ≡ (table u).state
unfolding reparent_all
reparent_all-state [] parent heir table u = refl
reparent_all-state (t ∷ ts) parent heir table u =
    reparent_all-state ts parent heir (step parent heir table t) u ∙ ground arith

-- Who takes over the children of a task that ends: the task with pid 1 if there is one that is neither that
-- task nor dead, and no task otherwise.
abbrev pub IsHeir : ℕ → Tasks → Option ℕ → Type 0
IsHeir parent s none =
    (i : ℕ) → s.init_task ≡ some i → (i ≡ parent) ⊎ ((s.table i).state ≡ State.dead)
IsHeir parent s (some i) = (s.init_task ≡ some i) × (i ≢ parent) × ((s.table i).state ≢ State.dead)

is_dead-dead : (st : State) → is_dead st ≡ true → st ≡ State.dead
is_dead-dead State.dead h = refl
is_dead-dead State.ready h = cc h
is_dead-dead State.running h = cc h
is_dead-dead State.blocked h = cc h

new_parent-IsHeir : (parent : ℕ) (s : Tasks) → IsHeir parent s (new_parent parent s)
unfolding new_parent
new_parent-IsHeir parent s = elim (Option-cases s.init_task) [
  | inl e ↦
      let is : new_parent parent s ≡ none = rw e refl in
      subst (IsHeir parent s) (sym is) (λ i h. cc (sym e ∙ h))
  | inr (i, e) ↦ elim (Bool-cases (i == parent)) [
    | inl q ↦
        let is : new_parent parent s ≡ none = rw (e, q) refl in
        subst (IsHeir parent s) (sym is) (λ j h. inl (ground (arith, sym e ∙ h, ==→eq i parent q)))
    | inr q ↦ elim (Bool-cases (is_dead (s.table i).state)) [
      | inl d ↦
          let is : new_parent parent s ≡ none = rw (e, q, d) refl in
          subst (IsHeir parent s) (sym is) (λ j h. inr (
            subst (λ k. (s.table k).state ≡ State.dead) (some_eq (sym e ∙ h))
              (is_dead-dead (s.table i).state d)))
      | inr d ↦
          let is : new_parent parent s ≡ some i = rw (e, q, d) refl in
          subst (IsHeir parent s) (sym is)
            (e, (λ z. cc ((==_iff i parent).1 z, q)), (λ z. cc (ap is_dead z, d)))
    ]
  ]
]
  where
    some_eq : {i j : ℕ} → some i ≡ some j → i ≡ j
    some_eq h = ground (arith, h)

reparent_children-state :
    (parent : ℕ) (s : Tasks) (u : ℕ)
    → ((reparent_children parent s).table u).state ≡ (
        if is_task (new_parent parent s) u && is_blocked (s.table u).state
        then State.ready
        else (s.table u).state)
unfolding reparent_children
reparent_children-state parent s u =
    let heir = new_parent parent s in
    wake-state (reparent_all s.all_tasks parent heir s.table) heir u
    ∙ ap (λ st. if is_task heir u && is_blocked st then State.ready else st)
        (reparent_all-state s.all_tasks parent heir s.table u)

-- `reparent_children` gives every listed child of the task that ends to the task with pid 1, or to no task if
-- there is none, it is the one that ends, or it is dead; so no listed task is a child of the one that
-- ends any more. Every other parent, and every pid and exit code, stays; the only state that changes is that
-- of the task that took over, which becomes ready if it was blocked.
pub reparent_children_lem :
    (parent : ℕ) (s : Tasks)
    → (heir : Option ℕ) × IsHeir parent s heir
      × ((u : ℕ)
          → let w = (reparent_children parent s).table u in
            (w.parent ≡ (
              if listed u s.all_tasks && is_task (s.table u).parent parent
              then heir
              else (s.table u).parent))
            × (listed u s.all_tasks ≡ true → w.parent ≢ some parent)
            × (w.pid ≡ (s.table u).pid)
            × (w.exit_code ≡ (s.table u).exit_code)
            × (w.state ≡ (
                if is_task heir u && is_blocked (s.table u).state
                then State.ready
                else (s.table u).state)))
reparent_children_lem parent s = (
  new_parent parent s,
  new_parent-IsHeir parent s,
  λ u.
      let (parents, orphans, pids, codes) = reparent_children-parents parent s u in
      (
        parents,
        (λ l e. cc (sym (ap (λ o. is_task o parent) e) ∙ orphans l, (==_iff parent parent).1 refl)),
        pids,
        codes,
        reparent_children-state parent s u,
      ),
)
