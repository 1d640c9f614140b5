-- ===== src/Vmm/Tree.antt =====
-- The shape of the tables below one PML4 of kernel/mm/vmm.c: each table stands at one place of a tree
-- of four levels, and its page is in use. Also the walk from level to level, and what a change of
-- the tables that only adds to them keeps.
use lithium_kernel.Prelude.{
  ℕ, zero, suc, ◌+◌, ◌/◌, ◌<◌, ◌≡◌, refl, ◌∙◌, true, false, Option, none, some, List, [], ◌∷◌,
  arith, if◌then◌else◌, length,
}
use lithium_kernel.Pmm.{frame_is_free}
use lithium_kernel.Pmm.Inv.{Inv}
use lithium_kernel.Pmm.Release.{IsReferenced}
use lithium_kernel.Vmm.{
  Vmm, Run, done, failed, stopped, M, bind, is_present, is_huge, phys_of, pml4_idx, pdpt_idx,
  pd_idx, pt_idx, small_page, large_page, giant_page, vmm_get_physical,
}
use lithium_kernel.Vmm.Entry.{SameWalk, SameWalk-refl, IsFrame}

-- The index into a table whose entries stand `k` levels above the pages.
abbrev pub index : ℕ → ℕ → ℕ
index zero virt = pt_idx virt
index (suc zero) virt = pd_idx virt
index (suc (suc zero)) virt = pdpt_idx virt
index (suc (suc (suc _))) virt = pml4_idx virt

abbrev pub page_or : ℕ → ℕ → ℕ → Option ℕ → Option ℕ
page_or zero e virt deeper = some (small_page e virt)
page_or (suc zero) e virt deeper = if is_huge e then some (large_page e virt) else deeper
page_or (suc (suc zero)) e virt deeper = if is_huge e then some (giant_page e virt) else deeper
page_or (suc (suc (suc _))) e virt deeper = deeper

-- The translation by a table with `k` levels, as a recursion.
unfoldable pub walk : (ℕ → ℕ → ℕ) → ℕ → ℕ → ℕ → Option ℕ
walk m zero t virt = none
walk m (suc k) t virt =
    let e = m t (index k virt) in
    let deeper = walk m k (phys_of e) virt in if is_present e then page_or k e virt deeper else none

pub vmm_get_physical-walk :
    (v : Vmm) (root virt : ℕ) → vmm_get_physical v root virt ≡ walk v.mem 4 root virt
unfolding vmm_get_physical walk
vmm_get_physical-walk v root virt = ground arith

-- The indices that lead to a table, the last first.
abbrev pub Place : Type 0
Place = ℕ → Option (List ℕ)

pub record Tree (root : ℕ) (place : Place) (v : Vmm) : Type 0 where
  pub valid : Inv v.pmm
  pub at_root : place root ≡ some []
  pub frames : (t : ℕ) (p : List ℕ) → place t ≡ some p → IsFrame t
  pub in_use :
      (t : ℕ) (p : List ℕ) → place t ≡ some p → frame_is_free v.pmm.bitmap (t / 4096) ≡ false
  pub links :
      (t i : ℕ) (p : List ℕ)
      → place t ≡ some p
      → length p < 3
      → is_present (v.mem t i) ≡ true
      → is_huge (v.mem t i) ≡ false
      → place (phys_of (v.mem t i)) ≡ some (i ∷ p)
  pub plain :
      (t i : ℕ) (p : List ℕ)
      → place t ≡ some p
      → length p < 2
      → is_present (v.mem t i) ≡ true
      → is_huge (v.mem t i) ≡ false

-- From `v` to `v'` tables are added and no translation changes.
pub record Grown (root : ℕ) (place : Place) (v : Vmm) (place' : Place) (v' : Vmm) : Type 0 where
  pub tree : Tree root place' v'
  pub keeps : (t : ℕ) (p : List ℕ) → place t ≡ some p → place' t ≡ some p
  pub entries :
      (t i : ℕ) (p : List ℕ)
      → place t ≡ some p
      → is_present (v.mem t i) ≡ true
      → SameWalk (v.mem t i) (v'.mem t i)
  pub walks :
      (k t virt : ℕ) (p : List ℕ)
      → place t ≡ some p
      → length p + k ≡ 4
      → walk v'.mem k t virt ≡ walk v.mem k t virt
  pub others :
      (page : ℕ)
      → frame_is_free v.pmm.bitmap (page / 4096) ≡ false
      → place page ≡ none
      → (v'.mem page ≡ v.mem page) × (place' page ≡ none)
  pub same_next : v'.kheap_next ≡ v.kheap_next
  pub same_cr3 : v'.cr3 ≡ v.cr3
  pub referenced : (phys : ℕ) → IsReferenced v.pmm phys → IsReferenced v'.pmm phys
  pub stay_used :
      (f : ℕ) → frame_is_free v.pmm.bitmap f ≡ false → frame_is_free v'.pmm.bitmap f ≡ false

pub Grown-refl :
    (root : ℕ) (place : Place) (v : Vmm) → Tree root place v → Grown root place v place v
Grown-refl root place v w = record {
  tree = w;
  keeps = λ t p h. h;
  entries = λ t i p h a. SameWalk-refl (v.mem t i);
  walks = λ k t virt p h e. refl;
  others = λ page u h. (refl, h);
  same_next = refl;
  same_cr3 = refl;
  referenced = λ phys h. h;
  stay_used = λ f h. h;
}

SameWalk-trans : (a b c : ℕ) → SameWalk a b → SameWalk b c → SameWalk a c
SameWalk-trans a b c x y = record {
  same_present = y.same_present ∙ x.same_present;
  same_huge = y.same_huge ∙ x.same_huge;
  same_frame = y.same_frame ∙ x.same_frame;
}

pub Grown-trans :
    (root : ℕ) (place place' place'' : Place) (v v' v'' : Vmm)
    → Grown root place v place' v'
    → Grown root place' v' place'' v''
    → Grown root place v place'' v''
Grown-trans root place place' place'' v v' v'' x y = record {
  tree = y.tree;
  keeps = λ t p h. y.keeps t p (x.keeps t p h);
  entries = λ t i p h a.
      let s = x.entries t i p h a in
      SameWalk-trans (v.mem t i) (v'.mem t i) (v''.mem t i) s
        (y.entries t i p (x.keeps t p h) (s.same_present ∙ a));
  walks = λ k t virt p h e. y.walks k t virt p (x.keeps t p h) e ∙ x.walks k t virt p h e;
  others = λ page u h.
      let a = x.others page u h in
      let b = y.others page (x.stay_used (page / 4096) u) a.1 in (b.0 ∙ a.0, b.1);
  same_next = y.same_next ∙ x.same_next;
  same_cr3 = y.same_cr3 ∙ x.same_cr3;
  referenced = λ phys h. y.referenced phys (x.referenced phys h);
  stay_used = λ f h. y.stay_used f (x.stay_used f h);
}

-- The postcondition of a run that does not halt, with one for its errors.
abbrev pub Ensures : {A : Type 0} → (A → Vmm → Type 0) → (Vmm → Type 0) → Run A → Type 0
Ensures Q E (done a v) = Q a v
Ensures Q E (failed v) = E v
Ensures Q E stopped = ⊥

pub Ensures-bind :
    {A B : Type 0} (Q : A → Vmm → Type 0) (R : B → Vmm → Type 0) (E : Vmm → Type 0) (f : A → M B)
    (r : Run A)
    → Ensures Q E r
    → ((a : A) (v : Vmm) → Q a v → Ensures R E (f a v))
    → Ensures R E (bind r f)
Ensures-bind Q R E f (done a v) h k = k a v h
Ensures-bind Q R E f (failed v) h k = h
Ensures-bind Q R E f stopped h k = h

pub Ensures-weaken :
    {A : Type 0} (Q R : A → Vmm → Type 0) (E F : Vmm → Type 0) (r : Run A)
    → Ensures Q E r
    → ((a : A) (v : Vmm) → Q a v → R a v)
    → ((v : Vmm) → E v → F v)
    → Ensures R F r
Ensures-weaken Q R E F (done a v) h k l = k a v h
Ensures-weaken Q R E F (failed v) h k l = l v h
Ensures-weaken Q R E F stopped h k l = h
