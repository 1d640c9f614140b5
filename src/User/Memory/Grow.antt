-- ===== src/User/Memory/Grow.antt =====
-- sys_brk of kernel/syscall/syscall.c when the break grows: the pages between the old top and the new one.
use lithium_kernel.Prelude.{
  ℕ, zero, suc, ◌+◌, ◌-◌, ◌*◌, ◌/◌, ◌%◌, ◌≤◌, ◌<◌, ◌≡◌, refl, ap, ◌∙◌, ◌⊎◌, inl, inr, true, false,
  not, ◌||◌, some, arith, ltb, leb, ◌==◌, Bool-cases,
}
use lithium_kernel.Vmm.{Vmm, Run, done, failed, stopped, align_up64, vmm_get_physical}
use lithium_kernel.Vmm.Fault.{user_space_top}
use lithium_kernel.Vmm.Tree.{Place, Tree, Ensures, Ensures-bind, Ensures-weaken}
use mathlib.Core.Path.{subst}
use lithium_kernel.Vmm.Map.{OutOfPages}
use lithium_kernel.Vmm.Fresh.{Untouched}
use lithium_kernel.User.Memory.{
  UserTask, Call, returns, refused, crashed, map_user_zero_page, each_page, brk_flags, move_break,
  brk_done, sys_brk,
}
use lithium_kernel.User.Memory.Calls.{IsLaidOut}
use lithium_kernel.User.Memory.Page.{ZeroPage, map_user_zero_page_lem}

-- Addresses that are not in the `k` pages from `page` on are translated as before.
pub record KeepsOthers (root page k : ℕ) (v v' : Vmm) : Type 0 where
  pub place : Place
  pub tree : Tree root place v'
  pub elsewhere :
      (b : ℕ)
      → b < user_space_top
      → (b < page) ⊎ (page + k * 4096 ≤ b)
      → vmm_get_physical v' root b ≡ vmm_get_physical v root b

-- Each of the `k` pages has a frame.
abbrev pub HasPages : ℕ → ℕ → ℕ → Vmm → Type 0
HasPages root page k v =
    (j : ℕ) → j < k → (p : ℕ) × (vmm_get_physical v root (page + j * 4096) ≡ some p)

abbrev pub Grew : ℕ → ℕ → ℕ → Vmm → Vmm → Type 0
Grew root page k v v' = KeepsOthers root page k v v' × HasPages root page k v'

-- No page could be had for one of the `k` pages; others are translated as before.
abbrev pub Stuck : ℕ → ℕ → ℕ → Vmm → Vmm → Type 0
Stuck root page k v v' =
    (o : KeepsOthers root page k v v') × (j : ℕ) × (j < k)
    × OutOfPages root (page + j * 4096) o.place v'

after_first :
    (root page k : ℕ) (place : Place) (v x y : Vmm)
    → page % 4096 ≡ 0
    → page + suc k * 4096 ≤ user_space_top
    → ZeroPage root page place v x
    → KeepsOthers root (page + 4096) k x y
    → KeepsOthers root page (suc k) v y
after_first root page k place v x y al u z o = record {
  place = o.place;
  tree = o.tree;
  elsewhere = λ b l out.
      o.elsewhere b l (ground (arith, out))
      ∙ z.elsewhere b (λ e. absurd (ground (arith, e, al, out, l, u)));
}

Grew-first :
    (root page k : ℕ) (place : Place) (v x y : Vmm)
    → page % 4096 ≡ 0
    → page + suc k * 4096 ≤ user_space_top
    → ZeroPage root page place v x
    → Grew root (page + 4096) k x y
    → HasPages root page (suc k) y
Grew-first root page k place v x y al u z g zero l =
    let here : page + 0 * 4096 ≡ page = omega arith in
    (
      z.frame * 4096 + page % 4096,
      rw here (g.0.elsewhere page (omega arith) (inl (omega arith)) ∙ z.translated),
    )
Grew-first root page k place v x y al u z g (suc j) l =
    let here : page + suc j * 4096 ≡ page + 4096 + j * 4096 = omega arith in
    rw here (g.1 j (omega arith))

grow_lem :
    (t : UserTask) (k page : ℕ) (place : Place) (v : Vmm)
    → Tree t.cr3 place v
    → page % 4096 ≡ 0
    → page + k * 4096 ≤ user_space_top
    → Ensures
        (λ _ v'. Grew t.cr3 page k v v')
        (Stuck t.cr3 page k v)
        (each_page (λ a. map_user_zero_page t a brk_flags) k page v)
unfolding each_page
grow_lem t zero page place v w al u =
    (record { place = place; tree = w; elsewhere = λ b l out. refl }, λ j l. absurd (omega arith))
grow_lem t (suc k) page place v w al u =
    Ensures-bind (λ _ x. ZeroPage t.cr3 page place v x) (λ _ y. Grew t.cr3 page (suc k) v y)
      (Stuck t.cr3 page (suc k) v) _ (map_user_zero_page t page brk_flags v)
      (Ensures-weaken (λ _ x. ZeroPage t.cr3 page place v x) (λ _ x. ZeroPage t.cr3 page place v x)
        (Untouched t.cr3 page v) _ _ (map_user_zero_page_lem t page brk_flags place v w)
        (λ _ x z. z) first_stuck)
      (λ _ x z.
        Ensures-weaken (λ _ y. Grew t.cr3 (page + 4096) k x y) _ (Stuck t.cr3 (page + 4096) k x) _ _
          (grow_lem t k (page + 4096) z.place x z.tree (omega arith) (omega arith))
          (λ _ y g. (
            after_first t.cr3 page k place v x y al u z g.0,
            Grew-first t.cr3 page k place v x y al u z g,
          ))
          (λ y st. later_stuck x y z st))
  where
    first_stuck : (x : Vmm) → Untouched t.cr3 page v x → Stuck t.cr3 page (suc k) v x
    first_stuck x n =
        let here : page ≡ page + 0 * 4096 = omega arith in
        (
          record { place = n.place; tree = n.tree; elsewhere = λ b l out. n.same b },
          0,
          omega arith,
          subst (λ a. OutOfPages t.cr3 a n.place x) here n.why,
        )

    later_stuck :
        (x y : Vmm)
        → ZeroPage t.cr3 page place v x
        → Stuck t.cr3 (page + 4096) k x y
        → Stuck t.cr3 page (suc k) v y
    later_stuck x y z (o, j, l, why) =
        let there : page + 4096 + j * 4096 ≡ page + suc j * 4096 = omega arith in
        (
          record {
            place = o.place;
            tree = o.tree;
            elsewhere = (after_first t.cr3 page k place v x y al u z o).elsewhere;
          },
          suc j,
          omega arith,
          subst (λ a. OutOfPages t.cr3 a o.place y) there why,
        )

abbrev pub old_top : UserTask → ℕ
old_top t = align_up64 t.brk_current

-- The pages that `requested` adds to the break.
abbrev pub added : UserTask → ℕ → ℕ
added t requested = (align_up64 requested - old_top t) / 4096

-- The break moved and has its pages, or it stayed because there was no page for one of them; no other page
-- changed.
abbrev pub Grows : UserTask → ℕ → Vmm → Call → Type 0
Grows t requested v (returns a t' v') =
    ((a ≡ requested)
      × (t' ≡ record t { brk_current = requested })
      × Grew t.cr3 (old_top t) (added t requested) v v')
    ⊎ ((a ≡ t.brk_current) × (t' ≡ t) × Stuck t.cr3 (old_top t) (added t requested) v v')
Grows t requested v (refused v') = ⊥
Grows t requested v crashed = ⊥

brk_done-Grows :
    (t : UserTask) (requested : ℕ) (v : Vmm) (r : Run (Unit {0}))
    → Ensures
        (λ _ v'. Grew t.cr3 (old_top t) (added t requested) v v')
        (Stuck t.cr3 (old_top t) (added t requested) v)
        r
    → Grows t requested v (brk_done t requested r)
unfolding brk_done
brk_done-Grows t requested v (done u v') h = inl (refl, refl, h)
brk_done-Grows t requested v (failed v') h = inr (refl, refl, h)
brk_done-Grows t requested v stopped h = h

move_break-Grew :
    (t : UserTask) (requested : ℕ) (place : Place) (v : Vmm)
    → Tree t.cr3 place v
    → t.brk_current ≤ requested
    → requested ≤ user_space_top
    → Ensures
        (λ _ v'. Grew t.cr3 (old_top t) (added t requested) v v')
        (Stuck t.cr3 (old_top t) (added t requested) v)
        (move_break t (old_top t) (align_up64 requested) v)
unfolding move_break each_page
move_break-Grew t requested place v w l u =
    elim (Bool-cases (ltb (old_top t) (align_up64 requested))) [
      | inl more ↦
          rw more (grow_lem t (added t requested) (old_top t) place v w (omega arith) (omega arith))
      | inr none_more ↦
          let apart : align_up64 requested ≤ old_top t = ground (arith, none_more) in
          let rounds : (old_top t - align_up64 requested) / 4096 ≡ 0 = omega arith in
          let no_pages : added t requested ≡ 0 = omega arith in
          rw (none_more, rounds)
            (
              record { place = place; tree = w; elsewhere = λ b k out. refl },
              λ j k. absurd (omega (arith, no_pages, k)),
            )
    ]

-- For a task in user mode that is laid out, on its tree of tables, sys_brk of an address from the break on and
-- below the first mapping returns. Either it returns the address as the new break, and then every page between
-- the old top and the new one has a frame; or it returns the break as it was, because no page could be
-- had for one of those pages: at most one frame is free, or it lies in a 2 MiB page. Either way every
-- address of the user's half outside of those pages is translated as before, and the tables form a tree.
pub sys_brk-Grows :
    (t : UserTask) (requested : ℕ) (place : Place) (v : Vmm)
    → Tree t.cr3 place v
    → IsLaidOut t
    → t.user_mode ≡ true
    → 0 < requested
    → t.brk_current ≤ requested
    → requested < t.mmap_next
    → Grows t requested v (sys_brk t requested v)
unfolding sys_brk
sys_brk-Grows t requested place v w i user pos l u =
    let guard : (requested == 0 || (ltb requested t.brk_base || leb t.mmap_next requested))
        ≡ false =
      ground (arith, i.based, pos, l, u) in
    let on : not t.user_mode ≡ false = ap not user in
    let top = i.below in
    rw (on, guard)
      (brk_done-Grows t requested v (move_break t (old_top t) (align_up64 requested) v)
        (move_break-Grew t requested place v w l (omega arith)))
