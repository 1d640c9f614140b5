-- ===== src/Vmm/Map.antt =====
-- vmm_map_page of kernel/mm/vmm.c.
use lithium_kernel.Prelude.{
  ℕ, suc, ◌+◌, ◌/◌, ◌%◌, ◌≤◌, ◌<◌, ◌≡◌, refl, sym, ap, ◌∙◌, ◌⊎◌, inl, inr, ◌≢◌, true, false, none,
  some, [], arith, Bool-cases, ◌==◌, ==→eq,
}
use lithium_kernel.Pmm.{Pmm, frame_is_free}
use lithium_kernel.Pmm.Release.{IsReferenced}
use lithium_kernel.Vmm.{
  Vmm, M, ◌>>=◌, ◌>>◌, is_present, is_huge, phys_of, put, pt_walk_or_alloc, share, refuse_huge,
  leaf, vmm_map_page, vmm_get_physical,
}
use lithium_kernel.Vmm.Entry.{leaf-IsLeaf}
use lithium_kernel.Vmm.Tree.{
  index, vmm_get_physical-walk, Place, Tree, Grown, Grown-refl, Grown-trans, Ensures, Ensures-bind,
  Ensures-weaken,
}
use lithium_kernel.Vmm.Walk.{share-Grown}
use lithium_kernel.Vmm.Grow.{walk_or_alloc-HasTable}
use lithium_kernel.Vmm.Reach.{above, above_step, length-above, Reach, top, down, Reach-Grown}
use lithium_kernel.Vmm.Leaf.{page_of, written-Tree, translated-written, elsewhere-written}

-- The call was refused: no frame is left, or the page directory of `virt` has a 2 MiB page there.
pub data Refused (root virt : ℕ) (place : Place) (v : Vmm) : Type 0 where
  no_frame : v.pmm.free_frames ≡ 0 → Refused root virt place v
  huge_page :
      (pd : ℕ)
      → Reach place v.mem root virt 2 pd
      → is_huge (v.mem pd (index 1 virt)) ≡ true
      → Refused root virt place v

-- Why no page could be had: at most one frame is free, or the page directory of `virt` has a 2 MiB page.
abbrev pub OutOfPages : ℕ → ℕ → Place → Vmm → Type 0
OutOfPages root virt place v =
    (v.pmm.free_frames ≤ 1)
    ⊎ ((pd : ℕ) × Reach place v.mem root virt 2 pd × (is_huge (v.mem pd (index 1 virt)) ≡ true))

-- The frame that was taken for the page goes back.
pub Refused-OutOfPages :
    (root virt : ℕ) (place : Place) (v : Vmm) (q : Pmm)
    → Refused root virt place v
    → q.free_frames ≤ v.pmm.free_frames + 1
    → OutOfPages root virt place (record v { pmm = q })
Refused-OutOfPages root virt place v q (no_frame z) l = inl (omega arith)
Refused-OutOfPages root virt place v q (huge_page pd r h) l = inr (pd, r, h)

-- The call was refused, some tables were added, and no translation changed.
pub record Unchanged (root virt : ℕ) (old : Place) (v v' : Vmm) : Type 0 where
  pub place : Place
  pub tree : Tree root place v'
  pub untouched :
      (page : ℕ)
      → frame_is_free v.pmm.bitmap (page / 4096) ≡ false
      → old page ≡ none
      → place page ≡ none
  pub same_next : v'.kheap_next ≡ v.kheap_next
  pub same_cr3 : v'.cr3 ≡ v.cr3
  pub referenced : (phys : ℕ) → IsReferenced v.pmm phys → IsReferenced v'.pmm phys
  pub why : Refused root virt place v'
  pub same : (a : ℕ) → vmm_get_physical v' root a ≡ vmm_get_physical v root a

-- The page of `virt` is mapped to the frame of `phys`, no other page's translation changed, and no page in
-- use but those of the tables.
pub record Mapped (root virt phys : ℕ) (old : Place) (v v' : Vmm) : Type 0 where
  pub place : Place
  pub tree : Tree root place v'
  pub same_next : v'.kheap_next ≡ v.kheap_next
  pub same_cr3 : v'.cr3 ≡ v.cr3
  pub translated : vmm_get_physical v' root virt ≡ some (phys_of phys + virt % 4096)
  pub elsewhere :
      (virt' : ℕ)
      → page_of virt' ≢ page_of virt
      → vmm_get_physical v' root virt' ≡ vmm_get_physical v root virt'
  pub contents :
      (page : ℕ)
      → frame_is_free v.pmm.bitmap (page / 4096) ≡ false
      → old page ≡ none
      → (v'.mem page ≡ v.mem page)
        × (place page ≡ none)
        × (frame_is_free v'.pmm.bitmap (page / 4096) ≡ false)

module _ (root virt : ℕ) (place : Place) (v : Vmm) (w : Tree root place v) where
  Grown-same :
      (place' : Place) (v' : Vmm)
      → Grown root place v place' v'
      → (a : ℕ) → vmm_get_physical v' root a ≡ vmm_get_physical v root a
  Grown-same place' v' g a =
      vmm_get_physical-walk v' root a
      ∙ g.walks 4 root a [] w.at_root refl
      ∙ sym (vmm_get_physical-walk v root a)

  Grown-Unchanged :
      (place' : Place) (v' : Vmm)
      → Grown root place v place' v'
      → Refused root virt place' v'
      → Unchanged root virt place v v'
  Grown-Unchanged place' v' g why = record {
    place = place';
    tree = g.tree;
    same_next = g.same_next;
    same_cr3 = g.same_cr3;
    untouched = λ page u n. (g.others page u n).1;
    referenced = g.referenced;
    why = why;
    same = Grown-same place' v' g;
  }

  -- The tables `u` and, below it, `t` on the way to `virt` in a state that has grown from `v`.
  record At (k u t : ℕ) (v' : Vmm) : Type 0 where
    place' : Place
    grew : Grown root place v place' v'
    upper : place' u ≡ some (above (suc k) virt)
    lower : place' t ≡ some (above k virt)
    reach : Reach place' v'.mem root virt k t

  share-At :
      (k flags u t : ℕ) (v' : Vmm)
      → At k u t v'
      → Ensures (λ _ x. At k u t x) (Unchanged root virt place v) (share flags u (index k virt) v')
  share-At k flags u t v' a =
      Ensures-weaken (λ _ x. Grown root a.place' v' a.place' x) _ (λ _. ⊥) _
        (share flags u (index k virt) v')
        (share-Grown root a.place' v' a.grew.tree flags u (index k virt) _ a.upper)
        (λ _ x g. record {
          place' = a.place';
          grew = Grown-trans root place a.place' a.place' v v' x a.grew g;
          upper = a.upper;
          lower = a.lower;
          reach = Reach-Grown root virt a.place' a.place' v' x g a.reach;
        })
        (λ x g. absurd g)

  walk-At :
      (k t : ℕ) (place' : Place) (v' : Vmm)
      → 0 < k
      → k < 4
      → Grown root place v place' v'
      → place' t ≡ some (above (suc k) virt)
      → Reach place' v'.mem root virt (suc k) t
      → (is_present (v'.mem t (index k virt)) ≡ true → is_huge (v'.mem t (index k virt)) ≡ false)
      → Ensures (At k t) (Unchanged root virt place v) (pt_walk_or_alloc t (index k virt) v')
  walk-At k t place' v' l l' g at r small =
      Ensures-weaken _ _ (λ x. Grown root place' v' place' x × (x.pmm.free_frames ≡ 0)) _
        (pt_walk_or_alloc t (index k virt) v')
        (walk_or_alloc-HasTable root place' v' t (index k virt) (above (suc k) virt) g.tree at
          (omega (arith, length-above (suc k) virt)) small)
        (λ t' x (place'', h). record {
          place' = place'';
          grew = Grown-trans root place place' place'' v v' x g h.grew;
          upper = h.grew.keeps t _ at;
          lower = h.placed ∙ ap some (above_step k virt l');
          reach =
              down t (Reach-Grown root virt place' place'' v' x h.grew r) l l' (h.grew.keeps t _ at)
                h.linked;
        })
        (λ x h.
          Grown-Unchanged place' x (Grown-trans root place place' place' v v' x g h.0)
            (no_frame h.1))

  -- One level of `vmm_map_page`, and what follows it.
  level_lem :
      (R : Unit {0} → Vmm → Type 0) (f : ℕ → M (Unit {0})) (flags k t : ℕ) (place' : Place)
      (v' : Vmm)
      → 0 < k
      → k < 4
      → Grown root place v place' v'
      → place' t ≡ some (above (suc k) virt)
      → Reach place' v'.mem root virt (suc k) t
      → (is_present (v'.mem t (index k virt)) ≡ true → is_huge (v'.mem t (index k virt)) ≡ false)
      → ((t' : ℕ) (y : Vmm) → At k t t' y → Ensures R (Unchanged root virt place v) (f t' y))
      → Ensures R
          (Unchanged root virt place v)
          ((pt_walk_or_alloc t (index k virt) >>= λ t'. share flags t (index k virt) >> f t') v')
  level_lem R f flags k t place' v' l l' g at r small rest =
      Ensures-bind (At k t) R (Unchanged root virt place v) _ (pt_walk_or_alloc t (index k virt) v')
        (walk-At k t place' v' l l' g at r small)
        (λ t' x a.
          Ensures-bind (λ _. At k t t') R (Unchanged root virt place v) _
            (share flags t (index k virt) x) (share-At k flags t t' x a) (λ _. rest t'))

  At-Mapped :
      (phys flags pd pt : ℕ) (x : Vmm)
      → At 1 pd pt x
      → Mapped root virt phys place v (put pt (index 0 virt) (leaf phys flags) x)
  At-Mapped phys flags pd pt x a =
      let p = a.place' in
      let t = a.grew.tree in
      let n = leaf-IsLeaf phys flags in
      record {
        place = p;
        tree = written-Tree root p x t pt virt (leaf phys flags) a.lower;
        same_next = a.grew.same_next;
        same_cr3 = a.grew.same_cr3;
        translated =
            rw (n.present, n.points) at
              (translated-written root p x t pt virt (leaf phys flags) a.lower a.reach);
        elsewhere = λ b ne.
            elsewhere-written root p x t pt virt (leaf phys flags) a.lower b ne
            ∙ Grown-same p x a.grew b;
        contents = λ page u none_there.
            let (same, no_table) = a.grew.others page u none_there in
            let other : (pt == page) ≡ false = elim (Bool-cases (pt == page)) [
              | inl q ↦ cc (a.lower, ap p (==→eq pt page q), no_table)
              | inr q ↦ q
            ] in
            (rw other same, no_table, a.grew.stay_used (page / 4096) u);
      }

  refuse-At :
      (u t : ℕ) (x : Vmm)
      → At 2 u t x
      → Ensures
          (λ _ y. At 2 u t y × (is_huge (y.mem t (index 1 virt)) ≡ false))
          (Unchanged root virt place v)
          (refuse_huge t (index 1 virt) x)
  unfolding refuse_huge
  refuse-At u t x a = elim (Bool-cases (is_huge (x.mem t (index 1 virt)))) [
    | inl h ↦ rw h (Grown-Unchanged a.place' x a.grew (huge_page t a.reach h))
    | inr h ↦ rw h (a, h)
  ]

-- `vmm_map_page` on a tree of tables never halts and keeps the tree. If it returns 0, the page of
-- `virt` is translated to the frame of `phys`, and every other page as before, even where tables were
-- added, and a page in use that is no table keeps its bytes, and stays one. If it returns -1, no frame is left or
-- the page directory has a 2 MiB page there, and every page is translated as before.
pub vmm_map_page_lem :
    (root virt phys flags : ℕ) (place : Place) (v : Vmm)
    → Tree root place v
    → Ensures
        (λ _ v'. Mapped root virt phys place v v')
        (Unchanged root virt place v)
        (vmm_map_page root virt phys flags v)
unfolding vmm_map_page
vmm_map_page_lem root virt phys flags place v w =
    let R = λ (_ : Unit {0}) (v' : Vmm). Mapped root virt phys place v v' in
    let level = level_lem root virt place v w R in
    level _ flags 3 root place v (omega arith) (omega arith) (Grown-refl root place v w) w.at_root
      (top refl refl) (w.plain root (index 3 virt) [] w.at_root (omega arith))
      (λ pdpt x a.
        level _ flags 2 pdpt a.place' x (omega arith) (omega arith) a.grew a.lower a.reach
          (a.grew.tree.plain pdpt (index 2 virt) _ a.lower (omega arith))
          (λ pd y b.
            Ensures-bind _ R (Unchanged root virt place v) _ (refuse_huge pd (index 1 virt) y)
              (refuse-At root virt place v w pdpt pd y b)
              (λ _ z c.
                level _ flags 1 pd c.0.place' z (omega arith) (omega arith) c.0.grew c.0.lower
                  c.0.reach (λ _. c.1) (λ pt. At-Mapped root virt place v w phys flags pd pt))))
