-- ===== src/Vmm/Reach.antt =====
-- The way from a PML4 of kernel/mm/vmm.c down to the table of an address, and what keeps it.
use lithium_kernel.Prelude.{
  ℕ, zero, suc, ◌-◌, ◌<◌, ◌≡◌, refl, ◌∙◌, false, Option, some, List, [], ◌∷◌, arith, length,
}
use lithium_kernel.Vmm.{Vmm, is_huge}
use lithium_kernel.Vmm.Entry.{SameWalk, IsTableEntry}
use lithium_kernel.Vmm.Tree.{index, page_or, walk, Place, Grown}

-- The indices that lead to the table of `virt` with `k` levels, the last first.
abbrev pub above : ℕ → ℕ → List ℕ
above zero virt = index 0 virt ∷ index 1 virt ∷ index 2 virt ∷ index 3 virt ∷ []
above (suc zero) virt = index 1 virt ∷ index 2 virt ∷ index 3 virt ∷ []
above (suc (suc zero)) virt = index 2 virt ∷ index 3 virt ∷ []
above (suc (suc (suc zero))) virt = index 3 virt ∷ []
above (suc (suc (suc (suc k)))) virt = []

pub above_step : (k virt : ℕ) → k < 4 → index k virt ∷ above (suc k) virt ≡ above k virt
above_step zero virt h = refl
above_step (suc zero) virt h = refl
above_step (suc (suc zero)) virt h = refl
above_step (suc (suc (suc zero))) virt h = refl
above_step (suc (suc (suc (suc k)))) virt h = absurd (omega arith)

pub length-above : (k virt : ℕ) → length (above k virt) ≡ 4 - k
length-above zero virt = refl
length-above (suc zero) virt = refl
length-above (suc (suc zero)) virt = refl
length-above (suc (suc (suc zero))) virt = refl
length-above (suc (suc (suc (suc k)))) virt = omega arith

-- The table of `virt` with `k` levels is `t`, by entries that point from table to table.
pub data Reach (place : Place) (m : ℕ → ℕ → ℕ) (root virt : ℕ) : ℕ → ℕ → Type 0 where
  top : {k t : ℕ} → k ≡ 4 → t ≡ root → Reach place m root virt k t
  down :
      {k t : ℕ} (u : ℕ)
      → Reach place m root virt (suc k) u
      → 0 < k
      → k < 4
      → place u ≡ some (above (suc k) virt)
      → IsTableEntry t (m u (index k virt))
      → Reach place m root virt k t

page_or-table : (k e virt : ℕ) (d : Option ℕ) → 0 < k → is_huge e ≡ false → page_or k e virt d ≡ d
page_or-table zero e virt d l h = elim l [ ]
page_or-table (suc zero) e virt d l h = rw h refl
page_or-table (suc (suc zero)) e virt d l h = rw h refl
page_or-table (suc (suc (suc k))) e virt d l h = refl

walk-table :
    (m : ℕ → ℕ → ℕ) (k t t' virt : ℕ)
    → 0 < k
    → IsTableEntry t' (m t (index k virt))
    → walk m (suc k) t virt ≡ walk m k t' virt
unfolding walk
walk-table m k t t' virt l n =
    rw (n.present, n.points) (page_or-table k (m t (index k virt)) virt _ l n.not_huge)

-- The translation continues from the table reached.
pub Reach-walk :
    (place : Place) (m : ℕ → ℕ → ℕ) (root virt : ℕ) {k t : ℕ}
    → Reach place m root virt k t
    → walk m 4 root virt ≡ walk m k t virt
Reach-walk place m root virt (top e e') = rw (e, e') refl
Reach-walk place m root virt (down {k} {t} u r l l' at n) =
    Reach-walk place m root virt r ∙ walk-table m k u t virt l n

pub IsTableEntry-SameWalk : (t e e' : ℕ) → SameWalk e e' → IsTableEntry t e → IsTableEntry t e'
IsTableEntry-SameWalk t e e' s n = record {
  present = s.same_present ∙ n.present;
  not_huge = s.same_huge ∙ n.not_huge;
  points = omega (arith, s.same_frame, n.points);
}

pub Reach-Grown :
    (root virt : ℕ) (place place' : Place) (v v' : Vmm) {k t : ℕ}
    → Grown root place v place' v'
    → Reach place v.mem root virt k t
    → Reach place' v'.mem root virt k t
Reach-Grown root virt place place' v v' g (top e e') = top e e'
Reach-Grown root virt place place' v v' g (down {k} {t} u r l l' at n) =
    down u (Reach-Grown root virt place place' v v' g r) l l' (g.keeps u _ at)
      (IsTableEntry-SameWalk t _ _ (g.entries u (index k virt) _ at n.present) n)
