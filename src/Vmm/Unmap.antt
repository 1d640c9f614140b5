-- ===== src/Vmm/Unmap.antt =====
-- vmm_get_pte and vmm_unmap_page of kernel/mm/vmm.c.
use lithium_kernel.Prelude.{
  ℕ, ◌≡◌, refl, ◌⊎◌, inl, inr, ◌≢◌, true, false, none, some, [], arith, Bool-cases,
}
use lithium_kernel.Vmm.{
  Vmm, is_present, is_huge, phys_of, put, unmap_in, vmm_unmap_page, vmm_get_pte, vmm_get_physical,
}
use lithium_kernel.Vmm.Tree.{index, Place, Tree}
use lithium_kernel.Vmm.Reach.{above, Reach, top, down}
use lithium_kernel.Vmm.Leaf.{page_of, written-Tree, translated-written, elsewhere-written}

-- There is no last table for the address, and then it is not mapped by a 4 KiB page; or it is at `pt`.
pub record NoTable (root virt : ℕ) (v : Vmm) : Type 0 where
  pub no_pte : vmm_get_pte v root virt ≡ none
  pub kept : vmm_unmap_page root virt v ≡ v

pub record LastTable (root virt : ℕ) (place : Place) (v : Vmm) (pt : ℕ) : Type 0 where
  pub found : vmm_get_pte v root virt ≡ some (pt, index 0 virt)
  pub cleared : vmm_unmap_page root virt v ≡ put pt (index 0 virt) 0 v
  pub placed : place pt ≡ some (above 1 virt)
  pub reach : Reach place v.mem root virt 1 pt

module _ (root virt : ℕ) (place : Place) (v : Vmm) (w : Tree root place v) where
  abbrev e4 : ℕ
  e4 = v.mem root (index 3 virt)

  abbrev e3 : ℕ
  e3 = v.mem (phys_of e4) (index 2 virt)

  abbrev e2 : ℕ
  e2 = v.mem (phys_of e3) (index 1 virt)

  directory_cases :
      is_present e4 ≡ true
      → is_huge e4 ≡ false
      → is_present e3 ≡ true
      → is_huge e3 ≡ false
      → NoTable root virt v ⊎ ((pt : ℕ) × LastTable root virt place v pt)
  unfolding vmm_get_pte vmm_unmap_page unmap_in
  directory_cases p4 h4 p3 h3 =
      let at3 = w.links root (index 3 virt) [] w.at_root (omega arith) p4 h4 in
      let at2 = w.links (phys_of e4) (index 2 virt) _ at3 (omega arith) p3 h3 in
      elim (Bool-cases (is_present e2)) [
        | inr off ↦
            inl (record { no_pte = rw (p4, p3, h3, off) refl; kept = rw (p4, p3, off) refl })
        | inl p2 ↦ elim (Bool-cases (is_huge e2)) [
          | inl h2 ↦
              inl
                (record { no_pte = rw (p4, p3, h3, p2, h2) refl; kept = rw (p4, p3, p2, h2) refl })
          | inr h2 ↦ inr (
            phys_of e2,
            record {
              found = rw (p4, p3, h3, p2, h2) refl;
              cleared = rw (p4, p3, p2, h2) refl;
              placed = w.links (phys_of e3) (index 1 virt) _ at2 (omega arith) p2 h2;
              reach =
                  down (phys_of e3)
                    (down (phys_of e4)
                      (down root (top refl refl) (omega arith) (omega arith) w.at_root
                        (record { present = p4; not_huge = h4; points = refl }))
                      (omega arith) (omega arith) at3
                      (record { present = p3; not_huge = h3; points = refl }))
                    (omega arith) (omega arith) at2
                    (record { present = p2; not_huge = h2; points = refl });
            },
          )
        ]
      ]

  pub pte_cases : NoTable root virt v ⊎ ((pt : ℕ) × LastTable root virt place v pt)
  unfolding vmm_get_pte vmm_unmap_page
  pte_cases = elim (Bool-cases (is_present e4)) [
    | inr off ↦ inl (record { no_pte = rw off refl; kept = rw off refl })
    | inl p4 ↦
        let h4 = w.plain root (index 3 virt) [] w.at_root (omega arith) p4 in
        let at3 = w.links root (index 3 virt) [] w.at_root (omega arith) p4 h4 in
        elim (Bool-cases (is_present e3)) [
          | inr off ↦ inl (record { no_pte = rw (p4, off) refl; kept = rw (p4, off) refl })
          | inl p3 ↦
              directory_cases p4 h4 p3 (w.plain (phys_of e4) (index 2 virt) _ at3 (omega arith) p3)
        ]
  ]

-- `vmm_unmap_page` on a tree of tables keeps the tree and changes no other page's translation. Where
-- `vmm_get_pte` finds an entry for the address, the address is then not mapped; where it finds none
-- (no table, or a huge page) the call changes nothing.
pub vmm_unmap_page_lem :
    (root virt : ℕ) (place : Place) (v : Vmm)
    → Tree root place v
    → Tree root place (vmm_unmap_page root virt v)
      × ((b : ℕ)
          → page_of b ≢ page_of virt
          → vmm_get_physical (vmm_unmap_page root virt v) root b ≡ vmm_get_physical v root b)
      × (((vmm_get_pte v root virt ≡ none) × (vmm_unmap_page root virt v ≡ v))
          ⊎ ((vmm_get_pte v root virt ≢ none)
              × (vmm_get_physical (vmm_unmap_page root virt v) root virt ≡ none)))
vmm_unmap_page_lem root virt place v w = elim (pte_cases root virt place v w) [
  | inl n ↦ (rw n.kept w, λ b ne. rw n.kept refl, inl (n.no_pte, n.kept))
  | inr (pt, l) ↦ (
    rw l.cleared (written-Tree root place v w pt virt 0 l.placed),
    λ b ne. rw l.cleared (elsewhere-written root place v w pt virt 0 l.placed b ne),
    inr (
      λ e. cc (l.found),
      rw l.cleared (translated-written root place v w pt virt 0 l.placed l.reach),
    ),
  )
]
