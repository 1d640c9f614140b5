-- ===== src/Vmm/Leaf.antt =====
-- Writing an entry of the last level of the tables of kernel/mm/vmm.c: only the translation of its own
-- page changes.
use lithium_kernel.Prelude.{
  ℕ, zero, suc, ◌/◌, ◌%◌, ◌^◌, ◌≤◌, ◌<◌, ◌≡◌, refl, sym, ap, ◌∙◌, inl, inr, ◌≢◌, none, some, List,
  arith, ◌==◌, ◌&&◌, if◌then◌else◌, length, Bool-cases, ==→eq,
}
use mathlib.Core.Path.{subst}
use lithium_kernel.Vmm.{Vmm, is_present, is_huge, phys_of, put, small_page, vmm_get_physical}
use lithium_kernel.Vmm.Entry.{IsTableEntry}
use lithium_kernel.Vmm.Tree.{index, walk, vmm_get_physical-walk, Place, Tree}
use lithium_kernel.Vmm.Walk.{page_or-deeper, length-some}
use lithium_kernel.Vmm.Reach.{above, above_step, length-above, Reach, top, down, Reach-walk}

-- The number of the page, in the 48 bits that the tables translate.
abbrev pub page_of : ℕ → ℕ
page_of virt = virt / 4096 % 2 ^ 36

same_page :
    (a b : ℕ) → some (above 1 a) ≡ some (above 1 b) → index 0 a ≡ index 0 b → page_of a ≡ page_of b
same_page a b h e = let c = some_above a b h in omega arith
  where
    some_above :
        (a b : ℕ)
        → some (above 1 a) ≡ some (above 1 b)
        → (index 1 a ≡ index 1 b) × (index 2 a ≡ index 2 b) × (index 3 a ≡ index 3 b)
    some_above a b h = ground arith

-- The table `pt` has the place of the last table of `virt`.
module _ (root : ℕ) (place : Place) (v : Vmm) (w : Tree root place v) (pt virt e : ℕ)
    (at : place pt ≡ some (above 1 virt)) where
  abbrev pub written : Vmm
  written = put pt (index 0 virt) e v

  upper_entry :
      (u j : ℕ) (p : List ℕ) → place u ≡ some p → length p < 3 → written.mem u j ≡ v.mem u j
  upper_entry u j p h l = elim (Bool-cases (pt == u)) [
    | inl q ↦
        absurd (
          omega
            (arith, length-some _ p (sym at ∙ ap place (==→eq pt u q) ∙ h), length-above 1 virt))
    | inr q ↦ rw q refl
  ]

  pub written-Tree : Tree root place written
  written-Tree = record {
    valid = w.valid;
    at_root = w.at_root;
    frames = w.frames;
    in_use = w.in_use;
    links = λ t i p h l there small.
        let s = upper_entry t i p h l in
        ap (λ x. place (phys_of x)) s
        ∙ w.links t i p h l (ap is_present (sym s) ∙ there) (ap is_huge (sym s) ∙ small);
    plain = λ t i p h l there.
        let s = upper_entry t i p h (omega arith) in
        ap is_huge s ∙ w.plain t i p h l (ap is_present (sym s) ∙ there);
  }

  last_entry :
      (u virt' : ℕ)
      → place u ≡ some (above 1 virt')
      → page_of virt' ≢ page_of virt
      → written.mem u (index 0 virt') ≡ v.mem u (index 0 virt')
  last_entry u virt' h ne = elim (Bool-cases (pt == u && index 0 virt == index 0 virt')) [
    | inr q ↦ ground arith
    | inl q ↦
        let e : pt ≡ u = ground arith in
        let i : index 0 virt ≡ index 0 virt' = ground arith in
        absurd (ne (sym (same_page virt virt' (sym at ∙ ap place e ∙ h) i)))
  ]

  entry_read :
      (k u virt' : ℕ)
      → place u ≡ some (above (suc k) virt')
      → page_of virt' ≢ page_of virt
      → written.mem u (index k virt') ≡ v.mem u (index k virt')
  entry_read zero u virt' h ne = last_entry u virt' h ne
  entry_read (suc k) u virt' h ne =
      upper_entry u (index (suc k) virt') _ h (omega (arith, length-above (suc (suc k)) virt'))

  pub walk-written :
      (k u virt' : ℕ)
      → k ≤ 4
      → place u ≡ some (above k virt')
      → page_of virt' ≢ page_of virt
      → walk written.mem k u virt' ≡ walk v.mem k u virt'
  unfolding walk
  walk-written zero u virt' l h ne = refl
  walk-written (suc k) u virt' l h ne = elim (Bool-cases (is_present (v.mem u (index k virt')))) [
    | inr off ↦ rw (entry_read k u virt' h ne, off) refl
    | inl there ↦
        rw (entry_read k u virt' h ne, there)
          (page_or-deeper k (v.mem u (index k virt')) virt' _ _
            (λ pos small.
              walk-written k (phys_of (v.mem u (index k virt'))) virt' (omega arith)
                (w.links u (index k virt') (above (suc k) virt') h
                    (omega (arith, length-above (suc k) virt')) there small
                  ∙ ap some (above_step k virt' (omega arith)))
                ne)
            (λ high.
              w.plain u (index k virt') (above (suc k) virt') h
                (omega (arith, length-above (suc k) virt')) there))
  ]

  pub Reach-written :
      {k t : ℕ} → 0 < k → Reach place v.mem root virt k t → Reach place written.mem root virt k t
  Reach-written pos (top a b) = top a b
  Reach-written pos (down {k} {t} u r l l' h n) = down u (Reach-written (omega arith) r) l l' h (
      subst (IsTableEntry t)
        (sym (upper_entry u (index k virt) _ h (omega (arith, length-above (suc k) virt)))) n)

  walk-last :
      (m : ℕ → ℕ → ℕ)
      → m pt (index 0 virt) ≡ e
      → walk m 1 pt virt ≡ (if is_present e then some (small_page e virt) else none)
  unfolding walk
  walk-last m h = rw h refl

  -- The page of `virt` is translated by the entry written, every other page as before.
  pub translated-written :
      Reach place v.mem root virt 1 pt
      → vmm_get_physical written root virt
        ≡ (if is_present e then some (small_page e virt) else none)
  translated-written r =
      vmm_get_physical-walk written root virt
      ∙ Reach-walk place written.mem root virt (Reach-written (omega arith) r)
      ∙ walk-last written.mem (ground arith)

  pub elsewhere-written :
      (b : ℕ)
      → page_of b ≢ page_of virt
      → vmm_get_physical written root b ≡ vmm_get_physical v root b
  elsewhere-written b ne =
      vmm_get_physical-walk written root b
      ∙ walk-written 4 root b (omega arith) w.at_root ne
      ∙ sym (vmm_get_physical-walk v root b)
