-- ===== src/Vmm/Walk.antt =====
-- The steps of vmm_map_page of kernel/mm/vmm.c that only add to the tables: making a table, and giving
-- an entry the user flag.
use lithium_kernel.Prelude.{
  ℕ, zero, suc, ◌+◌, ◌≤◌, ◌<◌, ◌≡◌, refl, sym, ap, ◌∙◌, ◌⊎◌, inl, inr, false, ◌&&◌, Option, none,
  some, List, ◌∷◌, arith, ◌==◌, length, update, Bool-cases, ==→eq,
}
use mathlib.Core.Path.{subst}
use lithium_kernel.Pmm.{Pmm}
use lithium_kernel.Vmm.{
  Vmm, is_present, is_huge, phys_of, table_entry, put, zero_page, share, is_user, set_user,
}
use lithium_kernel.Vmm.Entry.{
  SameWalk, set_user-SameWalk, IsFrame, IsTableEntry, table_entry-IsTableEntry,
}
use lithium_kernel.Vmm.Tree.{Place, Tree, Grown, Grown-refl, Ensures, walk, page_or, index}

page_or-SameWalk :
    (k e e' virt : ℕ) (d d' : Option ℕ)
    → SameWalk e e'
    → d' ≡ d
    → page_or k e' virt d' ≡ page_or k e virt d
page_or-SameWalk zero e e' virt d d' s q = ground (arith, s.same_frame)
page_or-SameWalk (suc zero) e e' virt d d' s q = ground (arith, s.same_frame, s.same_huge)
page_or-SameWalk (suc (suc zero)) e e' virt d d' s q = ground (arith, s.same_frame, s.same_huge)
page_or-SameWalk (suc (suc (suc k))) e e' virt d d' s q = q

pub phys_of-SameWalk : (e e' : ℕ) → SameWalk e e' → phys_of e' ≡ phys_of e
phys_of-SameWalk e e' s = omega (arith, s.same_frame)

-- Two memories whose entries the walk reads alike.
walk-SameWalk :
    (m m' : ℕ → ℕ → ℕ)
    → ((t i : ℕ) → SameWalk (m t i) (m' t i))
    → (k t virt : ℕ) → walk m' k t virt ≡ walk m k t virt
unfolding walk
walk-SameWalk m m' h zero t virt = refl
walk-SameWalk m m' h (suc k) t virt =
    let s = h t (index k virt) in
    let ih = walk-SameWalk m m' h k (phys_of (m t (index k virt))) virt in
    let q =
      page_or-SameWalk k (m t (index k virt)) (m' t (index k virt)) virt
        (walk m k (phys_of (m t (index k virt))) virt)
        (walk m' k (phys_of (m t (index k virt))) virt) s ih in
    rw (s.same_present, phys_of-SameWalk _ _ s, q) refl

-- Setting the user flag of an entry.
user_entry :
    (v : Vmm) (t i u j : ℕ) → SameWalk (v.mem u j) ((put t i (set_user (v.mem t i)) v).mem u j)
user_entry v t i u j = elim (Bool-cases (t == u && i == j)) [
  | inl e ↦ ground (arith, set_user-SameWalk (v.mem t i))
  | inr e ↦ ground arith
]

module _ (root : ℕ) (place : Place) (v : Vmm) (w : Tree root place v) where
  -- A change of entries that the walk does not see.
  unseen-Tree :
      (m : ℕ → ℕ → ℕ)
      → ((t i : ℕ) → SameWalk (v.mem t i) (m t i))
      → Tree root place (record v { mem = m })
  unseen-Tree m h = record {
    valid = w.valid;
    at_root = w.at_root;
    frames = w.frames;
    in_use = w.in_use;
    links = λ t i p at l a b.
        let s = h t i in
        ap place (phys_of-SameWalk (v.mem t i) (m t i) s)
        ∙ w.links t i p at l (sym s.same_present ∙ a) (sym s.same_huge ∙ b);
    plain =
        λ t i p at l a. let s = h t i in s.same_huge ∙ w.plain t i p at l (sym s.same_present ∙ a);
  }

  unseen-Grown :
      (m : ℕ → ℕ → ℕ)
      → ((t i : ℕ) → SameWalk (v.mem t i) (m t i))
      → ((page : ℕ) → place page ≡ none → m page ≡ v.mem page)
      → Grown root place v place (record v { mem = m })
  unseen-Grown m h o = record {
    tree = unseen-Tree m h;
    keeps = λ t p at. at;
    entries = λ t i p at a. h t i;
    walks = λ k t virt p at e. walk-SameWalk v.mem m h k t virt;
    others = λ page u at. (o page at, at);
    same_next = refl;
    same_cr3 = refl;
    referenced = λ phys h. h;
    stay_used = λ f u. u;
  }

  pub other_page :
      (t i e page : ℕ) (p : List ℕ)
      → place t ≡ some p
      → place page ≡ none
      → (put t i e v).mem page ≡ v.mem page
  other_page t i e page p at h = elim (Bool-cases (t == page)) [
    | inl q ↦ cc (==→eq t page q)
    | inr q ↦ rw q refl
  ]

  pub share-Grown :
      (flags t i : ℕ) (p : List ℕ)
      → place t ≡ some p
      → Ensures (λ _ v'. Grown root place v place v') (λ v'. ⊥) (share flags t i v)
  unfolding share
  share-Grown flags t i p at = elim (Bool-cases (is_user flags)) [
    | inl e ↦ rw e (
        unseen-Grown _ (user_entry v t i)
          (λ page h. other_page t i (set_user (v.mem t i)) page p at h))
    | inr e ↦ rw e (Grown-refl root place v w)
  ]

-- Only below an entry that is not huge does the deeper walk matter.
pub page_or-deeper :
    (k e virt : ℕ) (d d' : Option ℕ)
    → (0 < k → is_huge e ≡ false → d' ≡ d)
    → (3 ≤ k → is_huge e ≡ false)
    → page_or k e virt d' ≡ page_or k e virt d
page_or-deeper zero e virt d d' h l = refl
page_or-deeper (suc zero) e virt d d' h l = ground (arith, h (omega arith))
page_or-deeper (suc (suc zero)) e virt d d' h l = ground (arith, h (omega arith))
page_or-deeper (suc (suc (suc k))) e virt d d' h l = h (omega arith) (l (omega arith))

pub length-some : (p r : List ℕ) → some p ≡ some r → length p ≡ length r
length-some p r h = ground arith

page_or-none : (k e virt : ℕ) → 0 < k → is_huge e ≡ false → page_or k e virt none ≡ none
page_or-none zero e virt l h = elim l [ ]
page_or-none (suc zero) e virt l h = rw h refl
page_or-none (suc (suc zero)) e virt l h = rw h refl
page_or-none (suc (suc (suc k))) e virt l h = refl

walk-empty : (m : ℕ → ℕ → ℕ) (k z virt : ℕ) → ((j : ℕ) → m z j ≡ 0) → walk m k z virt ≡ none
unfolding walk
walk-empty m zero z virt h = refl
walk-empty m (suc k) z virt h = rw (h (index k virt)) refl

-- A new table `z` for entry `i` of the table `t`, in a page that was free.
module _ (root : ℕ) (place : Place) (v : Vmm) (w : Tree root place v) (t i z : ℕ) (p : List ℕ)
    (q : Pmm) (at : place t ≡ some p) (short : length p < 3) (off : is_present (v.mem t i) ≡ false)
    (fresh : place z ≡ none) (frame : IsFrame z) where
  abbrev pub grown : Vmm
  grown = put t i (table_entry z) (zero_page z (record v { pmm = q }))

  abbrev pub place_of_new : Place
  place_of_new = update place z (some (i ∷ p))

  pub not_new : (u : ℕ) (r : List ℕ) → place u ≡ some r → (z == u) ≡ false
  not_new u r h = elim (Bool-cases (z == u)) [ inl e ↦ cc (==→eq z u e) | inr e ↦ e ]

  old_entry :
      (u j : ℕ) (r : List ℕ)
      → place u ≡ some r
      → (t == u && i == j) ≡ false
      → grown.mem u j ≡ v.mem u j
  old_entry u j r h e = ground (arith, not_new u r h)

  the_entry : grown.mem t i ≡ table_entry z
  the_entry = ground arith

  pub empty_table : (j : ℕ) → grown.mem z j ≡ 0
  empty_table j = ground (arith, not_new t p at)

  pub entry-IsTableEntry : IsTableEntry z (grown.mem t i)
  entry-IsTableEntry = rw the_entry (table_entry-IsTableEntry z frame)

  -- The entry that pointed to no table and one that did.
  pub entry_cases :
      (u j : ℕ) (r : List ℕ) → place u ≡ some r → ((t ≡ u) × (i ≡ j)) ⊎ (grown.mem u j ≡ v.mem u j)
  entry_cases u j r h = elim (Bool-cases (t == u && i == j)) [
    | inl e ↦ inl (ground arith)
    | inr e ↦ inr (old_entry u j r h e)
  ]

  -- The walk through the new table ends in it, and found nothing before.
  walk-new :
      (k virt : ℕ)
      → i ≡ index k virt
      → 0 < k
      → walk grown.mem (suc k) t virt ≡ walk v.mem (suc k) t virt
  unfolding walk
  walk-new k virt e l =
      let n = entry-IsTableEntry in
      rw (← e) (
        rw (off, n.present, n.points, walk-empty grown.mem k z virt empty_table)
          (page_or-none k (grown.mem t i) virt l n.not_huge))

  pub walk-grown :
      (k u virt : ℕ) (r : List ℕ)
      → place u ≡ some r
      → length r + k ≡ 4
      → walk grown.mem k u virt ≡ walk v.mem k u virt
  unfolding walk
  walk-grown zero u virt r h e = refl
  walk-grown (suc k) u virt r h e = elim (entry_cases u (index k virt) r h) [
    | inl (a, b) ↦
        let c : some p ≡ some r = sym at ∙ ap place a ∙ h in
        subst (λ x. walk grown.mem (suc k) x virt ≡ walk v.mem (suc k) x virt) a
          (walk-new k virt b (omega (arith, length-some p r c)))
    | inr a ↦ elim (Bool-cases (is_present (v.mem u (index k virt)))) [
      | inr none_there ↦ rw (a, none_there) refl
      | inl there ↦
          rw (a, there)
            (page_or-deeper k (v.mem u (index k virt)) virt _ _
              (λ l small.
                walk-grown k (phys_of (v.mem u (index k virt))) virt (index k virt ∷ r)
                  (w.links u (index k virt) r h (omega arith) there small) (omega arith))
              (λ l. w.plain u (index k virt) r h (omega arith) there))
    ]
  ]
