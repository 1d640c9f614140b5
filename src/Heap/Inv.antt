-- ===== src/Heap/Inv.antt =====
-- The whole heap of kernel/mm/heap.c: for every size class a list of slabs, linked through their
-- headers, and what a change of one page leaves of it.
use lithium_kernel.Prelude.{
  ℕ, zero, suc, ◌+◌, ◌/◌, ◌%◌, ◌^◌, ◌≤◌, ◌<◌, ◌≡◌, refl, sym, ap, ◌∙◌, ◌⊎◌, inl, inr, true, false,
  List, [], ◌∷◌, arith, ◌==◌, length, Bool-cases, ==→eq,
}
use mathlib.Core.Path.{subst}
use lithium_kernel.Heap.{Heap, class_size, free_count, free_list, next_slab, find_slab}
use lithium_kernel.Heap.Slab.{count_of, Chain, Chain-agree, IsObject-bounds, Slab}

-- The slabs linked from the pointer on, with the free and the live objects of each page.
abbrev pub Slabs : Heap → ℕ → (ℕ → List ℕ) → (ℕ → List ℕ) → List ℕ → ℕ → Type 0
Slabs h size free live [] p = p ≡ 0
Slabs h size free live (s ∷ ss) p =
    (p ≡ s) × (0 < s) × Slab h s size (free s) (live s) × Slabs h size free live ss (next_slab h s)

-- `pages c` are the slabs of class `c`. A page is in one list once, below the next heap address.
pub record HeapInv (h : Heap) (pages : ℕ → List ℕ) (free live : ℕ → List ℕ) : Type 0 where
  pub lists : (c : ℕ) → c < 7 → Slabs h (class_size c) free live (pages c) (h.heads c)
  pub once : (c a : ℕ) → c < 7 → count_of a (pages c) ≤ 1
  pub one_class :
      (c d a : ℕ) → c < 7 → d < 7 → 0 < count_of a (pages c) → 0 < count_of a (pages d) → c ≡ d
  pub few : (c : ℕ) → c < 7 → length (pages c) ≤ h.slab_pages
  pub placed : (c a : ℕ) → c < 7 → 0 < count_of a (pages c) → a + 4096 ≤ h.vmm.kheap_next
  pub next_page : h.vmm.kheap_next % 4096 ≡ 0
  pub next_pos : 0 < h.vmm.kheap_next
  pub none_live : (a : ℕ) → ((c : ℕ) → c < 7 → count_of a (pages c) ≡ 0) → live a ≡ []

-- A slab depends on the words of its page alone, without those of the links to other slabs.
pub Slab-agree :
    (h h' : Heap) (s size : ℕ) (free live : List ℕ)
    → ((a : ℕ)
        → s ≤ a
        → a < s + 4096
        → (a == s + 24) ≡ false
        → (a == s + 32) ≡ false
        → h'.words a ≡ h.words a)
    → Slab h s size free live
    → Slab h' s size free live
Slab-agree h h' s size free live e v =
    let e0 = e s (omega arith) (omega arith) (ground arith) (ground arith) in
    let e8 = e (s + 8) (omega arith) (omega arith) (ground arith) (ground arith) in
    let e16 = e (s + 16) (omega arith) (omega arith) (ground arith) (ground arith) in
    record {
      page = v.page;
      big = v.big;
      is_slab = ap (λ x. x % 2 ^ 32) e0 ∙ v.is_slab;
      sized = ap (λ x. x / 2 ^ 32 % 2 ^ 32) e0 ∙ v.sized;
      counted = ap (λ x. x % 2 ^ 16) e8 ∙ v.counted;
      chain = subst (Chain h'.words free) (sym e16) (
          Chain-agree h.words h'.words free (free_list h s)
            (λ a l.
              let b = IsObject-bounds s size a (v.objects a (omega arith)) in
              e a (omega (arith, b)) (omega (arith, b, v.big)) (ground (arith, b))
                (ground (arith, b)))
            v.chain);
      once = v.once;
      objects = v.objects;
      all = v.all;
    }

-- A change that keeps each slab and its link keeps the list.
pub Slabs-map :
    (h h' : Heap) (size : ℕ) (free live free' live' : ℕ → List ℕ) (ss : List ℕ) (p : ℕ)
    → ((a : ℕ)
        → 0 < count_of a ss
        → Slab h a size (free a) (live a)
        → Slab h' a size (free' a) (live' a) × (next_slab h' a ≡ next_slab h a))
    → Slabs h size free live ss p
    → Slabs h' size free' live' ss p
unfolding count_of
Slabs-map h h' size free live free' live' [] p k l = l
Slabs-map h h' size free live free' live' (s ∷ ss) p k (e, pos, v, rest) =
    let (v', n) = k s (ground arith) v in
    (
      e,
      pos,
      v',
      subst (Slabs h' size free' live' ss) (sym n) (
          Slabs-map h h' size free live free' live' ss (next_slab h s) (λ a l. k a (omega arith))
            rest),
    )

pub Slabs-at :
    (h : Heap) (size : ℕ) (free live : ℕ → List ℕ) (ss : List ℕ) (p a : ℕ)
    → Slabs h size free live ss p
    → 0 < count_of a ss
    → (0 < a) × Slab h a size (free a) (live a)
unfolding count_of
Slabs-at h size free live [] p a l m = elim m [ ]
Slabs-at h size free live (s ∷ ss) p a (e, pos, v, rest) m = elim (Bool-cases (s == a)) [
  | inl q ↦ subst (λ x. (0 < x) × Slab h x size (free x) (live x)) (==→eq s a q) (pos, v)
  | inr q ↦ Slabs-at h size free live ss (next_slab h s) a rest (ground arith)
]

empty_of_length : (xs : List ℕ) → length xs ≡ 0 → xs ≡ []
empty_of_length [] h = refl
empty_of_length (x ∷ xs) h = absurd (omega arith)

-- The answer of a search over a class: a slab of the list with a free object, or all are full.
abbrev pub FoundSlab : (ℕ → List ℕ) → List ℕ → ℕ → Type 0
FoundSlab free ss r =
    ((r ≡ 0) × ((a : ℕ) → 0 < count_of a ss → free a ≡ []))
    ⊎ ((0 < r) × (0 < count_of r ss) × (0 < length (free r)))

found_next :
    (s r : ℕ) (free : ℕ → List ℕ) (ss : List ℕ)
    → free s ≡ []
    → FoundSlab free ss r
    → FoundSlab free (s ∷ ss) r
unfolding count_of
found_next s r free ss full (inr (pos, m, l)) = inr (pos, omega arith, l)
found_next s r free ss full (inl (z, none_free)) = inl (
  z,
  λ a m. elim (Bool-cases (s == a)) [
    | inl q ↦ ap free (sym (==→eq s a q)) ∙ full
    | inr q ↦ none_free a (ground arith)
  ],
)

search_next :
    (h : Heap) (s f : ℕ)
    → 0 < s
    → (free_count h s == 0) ≡ true
    → find_slab (suc f) h s ≡ find_slab f h (next_slab h s)
unfolding find_slab
search_next h s f pos full = let here : (s == 0) ≡ false = ground arith in rw (here, full) refl

search_here :
    (h : Heap) (s f : ℕ) → 0 < s → (free_count h s == 0) ≡ false → find_slab (suc f) h s ≡ s
unfolding find_slab
search_here h s f pos some_free =
    let here : (s == 0) ≡ false = ground arith in rw (here, some_free) refl

found_here :
    (h : Heap) (size s f : ℕ) (free live : ℕ → List ℕ) (ss : List ℕ)
    → 0 < s
    → Slab h s size (free s) (live s)
    → FoundSlab free ss (find_slab f h (next_slab h s))
    → FoundSlab free (s ∷ ss) (find_slab (suc f) h s)
unfolding count_of
found_here h size s f free live ss pos v ih = elim (Bool-cases (free_count h s == 0)) [
  | inr some_free ↦
      subst (FoundSlab free (s ∷ ss)) (sym (search_here h s f pos some_free))
        (inr (pos, ground arith, ground (arith, v.counted)))
  | inl full ↦ subst (FoundSlab free (s ∷ ss)) (sym (search_next h s f pos full)) (
      found_next s (find_slab f h (next_slab h s)) free ss
        (empty_of_length (free s) (ground (arith, v.counted))) ih)
]

pub find_slab_lem :
    (h : Heap) (size : ℕ) (free live : ℕ → List ℕ) (ss : List ℕ) (p f : ℕ)
    → Slabs h size free live ss p
    → length ss < f
    → FoundSlab free ss (find_slab f h p)
unfolding find_slab count_of
find_slab_lem h size free live ss p zero l m = elim m [ ]
find_slab_lem h size free live [] p (suc f) l m = inl (rw l refl, λ a k. absurd (omega arith))
find_slab_lem h size free live (s ∷ ss) p (suc f) (e, pos, v, rest) m =
    subst (λ x. FoundSlab free (s ∷ ss) (find_slab (suc f) h x)) (sym e)
      (found_here h size s f free live ss pos v
        (find_slab_lem h size free live ss (next_slab h s) f rest (omega arith)))
