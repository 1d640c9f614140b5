-- ===== src/Vmm/Grow.antt =====
-- pt_walk_or_alloc of kernel/mm/vmm.c keeps the tree of tables, and no translation changes.
use lithium_kernel.Prelude.{
  ℕ, ◌*◌, ◌/◌, ◌<◌, ◌≡◌, refl, sym, ap, ◌∙◌, ◌⊎◌, inl, inr, true, false, none, some, List, ◌∷◌,
  arith, ◌==◌, length, Bool-cases, Option-cases, ==→eq,
}
use mathlib.Core.Path.{subst}
use lithium_kernel.Pmm.{Pmm, frame_is_free}
use lithium_kernel.Pmm.Release.{IsReferenced}
use lithium_kernel.Pmm.Alloc.{Allocated, alloc_frame_lem}
use lithium_kernel.Vmm.{Vmm, is_present, is_huge, phys_of, new_table, pt_walk_or_alloc}
use lithium_kernel.Vmm.Entry.{SameWalk, SameWalk-refl, IsFrame, IsTableEntry}
use lithium_kernel.Vmm.Tree.{Place, Tree, Grown, Grown-refl, Ensures}
use lithium_kernel.Vmm.Walk.{
  grown, place_of_new, not_new, entry-IsTableEntry, empty_table, entry_cases, walk-grown,
}

-- A frame in use keeps its references at an allocation.
pub Allocated-IsReferenced :
    (p q : Pmm) (f : ℕ) → Allocated p f q → (phys : ℕ) → IsReferenced p phys → IsReferenced q phys
Allocated-IsReferenced p q f a phys r = record {
  aligned = r.aligned;
  below = omega (arith, r.below, a.total);
  used = ground (arith, a.used (phys / 4096), r.used);
  positive = ground (arith, a.referenced (phys / 4096), r.positive);
}

-- The page of a frame that was free is no table.
module _ (root : ℕ) (place : Place) (v : Vmm) (w : Tree root place v) (f : ℕ) (q : Pmm)
    (a : Allocated v.pmm f q) where
  pub fresh-IsFrame : IsFrame (f * 4096)
  fresh-IsFrame = record { aligned = omega arith; masked = omega (arith, a.below, w.valid.bounded) }

  pub fresh-IsReferenced : IsReferenced q (f * 4096)
  fresh-IsReferenced =
      let d : f * 4096 / 4096 ≡ f = omega arith in
      record {
        aligned = omega arith;
        below = omega (arith, a.below, a.total);
        used = rw d (ground (arith, a.used f));
        positive = rw d (ground (arith, a.referenced f));
      }

  pub fresh_page : place (f * 4096) ≡ none
  fresh_page = elim (Option-cases (place (f * 4096))) [
    | inl e ↦ e
    | inr (r, e) ↦
        let n : f * 4096 / 4096 ≡ f = omega arith in
        cc (
          subst (λ x. frame_is_free v.pmm.bitmap x ≡ false) n (w.in_use (f * 4096) r e),
          a.was_free,
        )
  ]

  pub fresh_frame :
      (page : ℕ) → frame_is_free v.pmm.bitmap (page / 4096) ≡ false → (f * 4096 == page) ≡ false
  fresh_frame page u = elim (Bool-cases (f * 4096 == page)) [
    | inr e ↦ e
    | inl e ↦
        let n : page / 4096 ≡ f = omega (arith, ==→eq (f * 4096) page e) in
        cc (rw n at u, a.was_free)
  ]

module _ (root : ℕ) (place : Place) (v : Vmm) (w : Tree root place v) (t i f : ℕ) (p : List ℕ)
    (q : Pmm) (at : place t ≡ some p) (short : length p < 3) (off : is_present (v.mem t i) ≡ false)
    (a : Allocated v.pmm f q) where
  page-IsFrame : IsFrame (f * 4096)
  page-IsFrame = fresh-IsFrame root place v w f q a

  not_placed : place (f * 4096) ≡ none
  not_placed = fresh_page root place v w f q a

  abbrev v' : Vmm
  v' = grown root place v w t i (f * 4096) p q at short off not_placed page-IsFrame

  abbrev place' : Place
  place' = place_of_new root place v w t i (f * 4096) p q at short off not_placed page-IsFrame

  new_entry : IsTableEntry (f * 4096) (v'.mem t i)
  new_entry =
      entry-IsTableEntry root place v w t i (f * 4096) p q at short off not_placed page-IsFrame

  keep_place : (u : ℕ) (r : List ℕ) → place u ≡ some r → place' u ≡ some r
  keep_place u r h =
      rw (not_new root place v w t i (f * 4096) p q at short off not_placed page-IsFrame u r h) h

  place_cases : (u : ℕ) (r : List ℕ) → place' u ≡ some r → (f * 4096 ≡ u) ⊎ (place u ≡ some r)
  place_cases u r h = elim (Bool-cases (f * 4096 == u)) [
    | inl e ↦ inl (==→eq _ u e)
    | inr e ↦ inr (rw e at h)
  ]

  cases : (u j : ℕ) (r : List ℕ) → place u ≡ some r → ((t ≡ u) × (i ≡ j)) ⊎ (v'.mem u j ≡ v.mem u j)
  cases = entry_cases root place v w t i (f * 4096) p q at short off not_placed page-IsFrame

  no_entry : (u j : ℕ) → f * 4096 ≡ u → is_present (v'.mem u j) ≡ false
  no_entry u j e =
      let n =
        empty_table root place v w t i (f * 4096) p q at short off not_placed page-IsFrame j in
      subst (λ x. is_present (v'.mem x j) ≡ false) e (rw n refl)

  new_link :
      (u j : ℕ) (r : List ℕ)
      → t ≡ u
      → i ≡ j
      → place u ≡ some r
      → place' (phys_of (v'.mem u j)) ≡ some (j ∷ r)
  new_link u j r e e' h =
      let c : some p ≡ some r = sym at ∙ ap place e ∙ h in
      let pr : place' (phys_of (v'.mem t i)) ≡ some (i ∷ p) = rw new_entry.points (ground arith) in
      subst (λ x. place' (phys_of (v'.mem x j)) ≡ some (j ∷ r)) e
        (subst (λ x. place' (phys_of (v'.mem t x)) ≡ some (x ∷ r)) e' (pr ∙ ground arith))

  grown_links :
      (u j : ℕ) (r : List ℕ)
      → place' u ≡ some r
      → length r < 3
      → is_present (v'.mem u j) ≡ true
      → is_huge (v'.mem u j) ≡ false
      → place' (phys_of (v'.mem u j)) ≡ some (j ∷ r)
  grown_links u j r h l there small = elim (place_cases u r h) [
    | inl e ↦ cc (no_entry u j e)
    | inr o ↦ elim (cases u j r o) [
      | inl (e, e') ↦ new_link u j r e e' o
      | inr same ↦
          ap (λ x. place' (phys_of x)) same
          ∙ keep_place _ (j ∷ r)
              (w.links u j r o l (ap is_present (sym same) ∙ there) (ap is_huge (sym same) ∙ small))
    ]
  ]

  grown_plain :
      (u j : ℕ) (r : List ℕ)
      → place' u ≡ some r
      → length r < 2
      → is_present (v'.mem u j) ≡ true
      → is_huge (v'.mem u j) ≡ false
  grown_plain u j r h l there = elim (place_cases u r h) [
    | inl e ↦ cc (no_entry u j e)
    | inr o ↦ elim (cases u j r o) [
      | inl (e, e') ↦
          subst (λ x. is_huge (v'.mem x j) ≡ false) e
            (subst (λ x. is_huge (v'.mem t x) ≡ false) e' new_entry.not_huge)
      | inr same ↦ ap is_huge same ∙ w.plain u j r o l (ap is_present (sym same) ∙ there)
    ]
  ]

  still_used : (g : ℕ) → frame_is_free v.pmm.bitmap g ≡ false → frame_is_free q.bitmap g ≡ false
  still_used g h = ground (arith, a.used g)

  grown-Tree : Tree root place' v'
  grown-Tree = record {
    valid = a.valid;
    at_root = keep_place root _ w.at_root;
    frames = λ u r h. elim (place_cases u r h) [
      | inl e ↦ subst IsFrame e page-IsFrame
      | inr o ↦ w.frames u r o
    ];
    in_use = λ u r h. elim (place_cases u r h) [
      | inl e ↦ let n : u / 4096 ≡ f = omega arith in rw n (ground (arith, a.used f))
      | inr o ↦ still_used (u / 4096) (w.in_use u r o)
    ];
    links = grown_links;
    plain = grown_plain;
  }

  not_table : (page : ℕ) → place page ≡ none → (t == page) ≡ false
  not_table page h = elim (Bool-cases (t == page)) [
    | inr e ↦ e
    | inl e ↦ cc (ap place (==→eq t page e))
  ]

  untouched :
      (page : ℕ)
      → frame_is_free v.pmm.bitmap (page / 4096) ≡ false
      → place page ≡ none
      → (v'.mem page ≡ v.mem page) × (place' page ≡ none)
  untouched page u h = (
    rw (not_table page h, fresh_frame root place v w f q a page u) refl,
    rw (fresh_frame root place v w f q a page u) h,
  )

  step-Grown : Grown root place v place' v'
  step-Grown = record {
    tree = grown-Tree;
    keeps = keep_place;
    entries = λ u j r h there. elim (cases u j r h) [
      | inl (e, e') ↦ cc (
          subst (λ x. is_present (v.mem x j) ≡ false) e
            (subst (λ x. is_present (v.mem t x) ≡ false) e' off))
      | inr same ↦ subst (SameWalk (v.mem u j)) (sym same) (SameWalk-refl (v.mem u j))
    ];
    walks = λ k u virt r h e.
        walk-grown root place v w t i (f * 4096) p q at short off not_placed page-IsFrame k u virt r
          h e;
    others = λ page u h. untouched page u h;
    same_next = refl;
    same_cr3 = refl;
    referenced = Allocated-IsReferenced v.pmm q f a;
    stay_used = still_used;
  }

-- A table that `pt_walk_or_alloc` returned.
pub record HasTable (root : ℕ) (place : Place) (v : Vmm) (t i : ℕ) (p : List ℕ) (place' : Place)
    (t' : ℕ) (v' : Vmm) : Type 0 where
  pub grew : Grown root place v place' v'
  pub placed : place' t' ≡ some (i ∷ p)
  pub linked : IsTableEntry t' (v'.mem t i)

new_table-HasTable :
    (root : ℕ) (place : Place) (v : Vmm) (t i : ℕ) (p : List ℕ)
    → Tree root place v
    → place t ≡ some p
    → length p < 3
    → is_present (v.mem t i) ≡ false
    → Ensures
        (λ t' v'. (place' : Place) × HasTable root place v t i p place' t' v')
        (λ v'. Grown root place v place v' × (v'.pmm.free_frames ≡ 0))
        (new_table t i v)
unfolding new_table
new_table-HasTable root place v t i p w at short off = elim (alloc_frame_lem v.pmm w.valid) [
  | inl (z, e) ↦ rw e (Grown-refl root place v w, z)
  | inr (f, q, e, a) ↦ rw e (
    place' root place v w t i f p q at short off a,
    record {
      grew = step-Grown root place v w t i f p q at short off a;
      placed = ground arith;
      linked = new_entry root place v w t i f p q at short off a;
    },
  )
]

pub walk_or_alloc-HasTable :
    (root : ℕ) (place : Place) (v : Vmm) (t i : ℕ) (p : List ℕ)
    → Tree root place v
    → place t ≡ some p
    → length p < 3
    → (is_present (v.mem t i) ≡ true → is_huge (v.mem t i) ≡ false)
    → Ensures
        (λ t' v'. (place' : Place) × HasTable root place v t i p place' t' v')
        (λ v'. Grown root place v place v' × (v'.pmm.free_frames ≡ 0))
        (pt_walk_or_alloc t i v)
unfolding pt_walk_or_alloc
walk_or_alloc-HasTable root place v t i p w at short small =
    elim (Bool-cases (is_present (v.mem t i))) [
      | inl there ↦ rw there (
        place,
        record {
          grew = Grown-refl root place v w;
          placed = w.links t i p at short there (small there);
          linked = record { present = there; not_huge = small there; points = refl };
        },
      )
      | inr off ↦ rw off (new_table-HasTable root place v t i p w at short off)
    ]
