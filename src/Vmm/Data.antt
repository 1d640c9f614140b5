-- ===== src/Vmm/Data.antt =====
-- A change of pages that are no tables of kernel/mm/vmm.c: the tree and every translation stay.
use lithium_kernel.Prelude.{
  ℕ, zero, suc, ◌/◌, ◌≤◌, ◌≡◌, refl, sym, ap, ◌∙◌, inl, inr, false, none, some, List, arith, ◌==◌,
  update, Bool-cases, ==→eq,
}
use mathlib.Core.Path.{subst}
use lithium_kernel.Pmm.{Pmm, frame_is_free}
use lithium_kernel.Pmm.Inv.{Inv}
use lithium_kernel.Vmm.{Vmm, is_present, is_huge, phys_of, vmm_get_physical}
use lithium_kernel.Vmm.Entry.{IsTableEntry}
use lithium_kernel.Vmm.Tree.{index, walk, vmm_get_physical-walk, Place, Tree}
use lithium_kernel.Vmm.Walk.{page_or-deeper}
use lithium_kernel.Vmm.Reach.{above, above_step, length-above, Reach, top, down}

pub other_row :
    (place : Place) (t x : ℕ) (row : ℕ → ℕ) (p : List ℕ) (m : ℕ → ℕ → ℕ)
    → place t ≡ some p
    → place x ≡ none
    → update m x row t ≡ m t
other_row place t x row p m h n = elim (Bool-cases (x == t)) [
  | inl q ↦ cc (ap place (==→eq x t q))
  | inr q ↦ rw q refl
]

module _ (root : ℕ) (place : Place) (v : Vmm) (q : Pmm) (m : ℕ → ℕ → ℕ) (w : Tree root place v)
    (same : (t : ℕ) (p : List ℕ) → place t ≡ some p → m t ≡ v.mem t) where
  abbrev pub changed : Vmm
  changed = record v { pmm = q; mem = m }

  entry_same : (t i : ℕ) (p : List ℕ) → place t ≡ some p → m t i ≡ v.mem t i
  entry_same t i p h = ap (λ (row : ℕ → ℕ). row i) (same t p h)

  pub data-Tree :
      Inv q
      → ((t : ℕ) (p : List ℕ) → place t ≡ some p → frame_is_free q.bitmap (t / 4096) ≡ false)
      → Tree root place changed
  data-Tree iv used = record {
    valid = iv;
    at_root = w.at_root;
    frames = w.frames;
    in_use = used;
    links = λ t i p h l there small.
        let s = entry_same t i p h in
        ap (λ x. place (phys_of x)) s
        ∙ w.links t i p h l (ap is_present (sym s) ∙ there) (ap is_huge (sym s) ∙ small);
    plain = λ t i p h l there.
        let s = entry_same t i p h in
        ap is_huge s ∙ w.plain t i p h l (ap is_present (sym s) ∙ there);
  }

  pub data-Reach :
      (virt : ℕ) {k t : ℕ} → Reach place v.mem root virt k t → Reach place m root virt k t
  data-Reach virt (top a b) = top a b
  data-Reach virt (down {k} {t} u r l l' h n) =
      down u (data-Reach virt r) l l' h
        (subst (IsTableEntry t) (sym (entry_same u (index k virt) _ h)) n)

  walk-data : (k u b : ℕ) → k ≤ 4 → place u ≡ some (above k b) → walk m k u b ≡ walk v.mem k u b
  unfolding walk
  walk-data zero u b l h = refl
  walk-data (suc k) u b l h = elim (Bool-cases (is_present (v.mem u (index k b)))) [
    | inr off ↦ rw (entry_same u (index k b) _ h, off) refl
    | inl there ↦
        rw (entry_same u (index k b) _ h, there)
          (page_or-deeper k (v.mem u (index k b)) b _ _
            (λ pos small. walk-data k (phys_of (v.mem u (index k b))) b (omega arith) (
              w.links u (index k b) (above (suc k) b) h (omega (arith, length-above (suc k) b))
                there small
              ∙ ap some (above_step k b (omega arith))))
            (λ high.
              w.plain u (index k b) (above (suc k) b) h (omega (arith, length-above (suc k) b))
                there))
  ]

  pub data_same : (b : ℕ) → vmm_get_physical changed root b ≡ vmm_get_physical v root b
  data_same b =
      vmm_get_physical-walk changed root b
      ∙ walk-data 4 root b (omega arith) w.at_root
      ∙ sym (vmm_get_physical-walk v root b)

-- Nor does reserving an address change them.
pub next-Tree :
    (root : ℕ) (place : Place) (v : Vmm) (n : ℕ)
    → Tree root place v
    → Tree root place (record v { kheap_next = n })
next-Tree root place v n w = record {
  valid = w.valid;
  at_root = w.at_root;
  frames = w.frames;
  in_use = w.in_use;
  links = w.links;
  plain = w.plain;
}

pub next_same :
    (root : ℕ) (v : Vmm) (n b : ℕ)
    → vmm_get_physical (record v { kheap_next = n }) root b ≡ vmm_get_physical v root b
unfolding vmm_get_physical
next_same root v n b = refl
