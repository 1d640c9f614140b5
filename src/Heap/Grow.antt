-- ===== src/Heap/Grow.antt =====
-- kmalloc of kernel/mm/heap.c with a new slab: the heap with the page formatted and put in front.
use lithium_kernel.Prelude.{
  ℕ, zero, suc, ◌+◌, ◌/◌, ◌%◌, ◌≤◌, ◌<◌, ◌≡◌, refl, sym, ap, ◌∙◌, ◌⊎◌, inl, inr, true, false, List,
  [], ◌∷◌, arith, ◌==◌, if◌then◌else◌, length, update, Bool-cases, ==→eq, ltb,
}
use mathlib.Core.Path.{subst}
use lithium_kernel.Vmm.{Vmm}
use lithium_kernel.Heap.{Heap, class_size, next_slab, format_slab, prepend}
use lithium_kernel.Heap.Slab.{count_of, Slab}
use lithium_kernel.Heap.Slab.Format.{
  objects_from, length-objects_from, total_bounds, format_slab-Slab, format_outside, format_same,
}
use lithium_kernel.Heap.Inv.{Slabs, HeapInv, Slab-agree, Slabs-map}

pub class_bounds : (c : ℕ) → c < 7 → (16 ≤ class_size c) × (class_size c ≤ 1024)
class_bounds zero l = omega arith
class_bounds (suc zero) l = omega arith
class_bounds (suc (suc zero)) l = omega arith
class_bounds (suc (suc (suc zero))) l = omega arith
class_bounds (suc (suc (suc (suc zero)))) l = omega arith
class_bounds (suc (suc (suc (suc (suc zero))))) l = omega arith
class_bounds (suc (suc (suc (suc (suc (suc zero)))))) l = omega arith
class_bounds (suc (suc (suc (suc (suc (suc (suc c))))))) l = absurd (omega arith)

head_page :
    (h : Heap) (size : ℕ) (free live : ℕ → List ℕ) (ss : List ℕ) (p : ℕ)
    → Slabs h size free live ss p
    → p % 4096 ≡ 0
head_page h size free live [] p l = omega (arith, l)
head_page h size free live (s ∷ ss) p (e, pos, v, rest) = omega (arith, e, v.page)

head_cases :
    (h : Heap) (size : ℕ) (free live : ℕ → List ℕ) (ss : List ℕ) (p : ℕ)
    → Slabs h size free live ss p
    → (p ≡ 0) ⊎ (0 < count_of p ss)
unfolding count_of
head_cases h size free live [] p l = inl l
head_cases h size free live (s ∷ ss) p (e, pos, v, rest) = inr (ground arith)

-- What `prepend` writes: the link of the new slab, and the back link of the old one.
prepend_read :
    (c s a : ℕ) (x : Heap)
    → (a == s + 24) ≡ false
    → (a == x.heads c + 32) ≡ false
    → (prepend c s x).words a ≡ x.words a
unfolding prepend
prepend_read c s a x n m = elim (Bool-cases (x.heads c == 0)) [
  | inl e ↦ rw e (ground arith)
  | inr e ↦ rw e (ground arith)
]

prepend_next :
    (c s : ℕ) (x : Heap)
    → s % 4096 ≡ 0
    → x.heads c % 4096 ≡ 0
    → next_slab (prepend c s x) s ≡ x.heads c
unfolding prepend
prepend_next c s x p q = elim (Bool-cases (x.heads c == 0)) [
  | inl e ↦ rw e (ground arith)
  | inr e ↦ rw e (ground arith)
]

prepend_same :
    (c s : ℕ) (x : Heap)
    → ((prepend c s x).vmm ≡ x.vmm)
      × ((prepend c s x).slab_pages ≡ x.slab_pages)
      × ((prepend c s x).heads ≡ update x.heads c s)
unfolding prepend
prepend_same c s x = elim (Bool-cases (x.heads c == 0)) [
  | inl e ↦ rw e (refl, refl, refl)
  | inr e ↦ rw e (refl, refl, refl)
]

-- The new page is the next heap address of the heap `g`, before the page was taken.
module _ (g h : Heap) (pages free live : ℕ → List ℕ) (v : HeapInv g pages free live) (c : ℕ)
    (cl : c < 7) (words : h.words ≡ g.words) (heads : h.heads ≡ g.heads)
    (count : h.slab_pages ≡ g.slab_pages) (next : h.vmm.kheap_next ≡ g.vmm.kheap_next + 4096) where
  abbrev s : ℕ
  s = g.vmm.kheap_next

  abbrev size : ℕ
  size = class_size c

  abbrev formatted : Heap
  formatted = record (format_slab s size h) { slab_pages = h.slab_pages + 1 }

  abbrev pub added : Heap
  added = prepend c s formatted

  abbrev pub pages_of : ℕ → List ℕ
  pages_of = update pages c (s ∷ pages c)

  abbrev pub free_of : ℕ → List ℕ
  free_of = update free s (objects_from (s + 64) size (4032 / size) 0)

  abbrev pub live_of : ℕ → List ℕ
  live_of = update live s []

  fresh : (d : ℕ) → d < 7 → count_of s (pages d) ≡ 0
  fresh d l = elim (Bool-cases (0 == count_of s (pages d))) [
    | inl z ↦ sym (==→eq 0 _ z)
    | inr z ↦ absurd (omega (arith, v.placed d s l (ground arith)))
  ]

  other : (d a : ℕ) → d < 7 → 0 < count_of a (pages d) → (s == a) ≡ false
  other d a l m = elim (Bool-cases (s == a)) [
    | inl e ↦
        absurd
          (omega (arith, subst (λ x. 0 < count_of x (pages d)) (sym (==→eq s a e)) m, fresh d l))
    | inr e ↦ e
  ]

  old_aligned : g.heads c % 4096 ≡ 0
  old_aligned = head_page g size free live (pages c) (g.heads c) (v.lists c cl)

  old_other : (g.heads c == s) ≡ false
  old_other = elim (head_cases g size free live (pages c) (g.heads c) (v.lists c cl)) [
    | inl z ↦ ground (arith, v.next_pos)
    | inr m ↦ ground (arith, other c (g.heads c) cl m)
  ]

  small : size ≤ 4032
  small = omega (arith, class_bounds c cl)

  head_same : formatted.heads c ≡ g.heads c
  head_same =
      ap (λ (f : ℕ → ℕ). f c)
        ((format_same s size h v.next_page (class_bounds c cl).0 small).1 ∙ heads)

  -- The words of other slabs, but for their back links.
  kept :
      (a b : ℕ)
      → a % 4096 ≡ 0
      → (s == a) ≡ false
      → a ≤ b
      → b < a + 4096
      → (b == a + 32) ≡ false
      → added.words b ≡ g.words b
  kept a b p ne l u not_back =
      prepend_read c s b formatted (ground (arith, v.next_page, ne))
        (rw head_same (ground (arith, old_aligned, not_back)))
      ∙ format_outside s size h v.next_page (class_bounds c cl).0 small b (apart a b p ne l u)
      ∙ ap (λ (f : ℕ → ℕ). f b) words
    where
      apart :
          (a b : ℕ)
          → a % 4096 ≡ 0
          → (s == a) ≡ false
          → a ≤ b
          → b < a + 4096
          → (b < s) ⊎ (s + 4096 ≤ b)
      apart a b p ne l u = elim (Bool-cases (ltb a s)) [
        | inl q ↦ inl (ground (arith, v.next_page))
        | inr q ↦ inr (ground (arith, v.next_page))
      ]

  other-Slab :
      (d a : ℕ)
      → d < 7
      → 0 < count_of a (pages d)
      → Slab g a (class_size d) (free a) (live a)
      → Slab added a (class_size d) (free_of a) (live_of a) × (next_slab added a ≡ next_slab g a)
  other-Slab d a l m x =
      let ne = other d a l m in
      rw ne (
        Slab-agree g added a (class_size d) (free a) (live a)
            (λ b lo hi _ nb. kept a b x.page ne lo hi nb) x,
        kept a (a + 24) x.page ne (omega arith) (omega arith) (ground arith),
      )

  own-Slab : Slab added s size (objects_from (s + 64) size (4032 / size) 0) []
  own-Slab =
      Slab-agree (format_slab s size h) added s size (objects_from (s + 64) size (4032 / size) 0) []
        (λ b lo hi n24 n32.
          prepend_read c s b formatted n24
            (rw head_same (ground (arith, old_aligned, old_other, v.next_page))))
        (format_slab-Slab s size h v.next_page (class_bounds c cl).0 small)

  others_list : (d : ℕ) → d < 7 → Slabs added (class_size d) free_of live_of (pages d) (g.heads d)
  others_list d l =
      Slabs-map g added (class_size d) free live free_of live_of (pages d) (g.heads d)
        (λ a m. other-Slab d a l m) (v.lists d l)

  added_heads : added.heads ≡ update g.heads c s
  added_heads = (prepend_same c s formatted).2 ∙ ap (λ (f : ℕ → ℕ). update f c s) (format_heads)
    where
      format_heads : formatted.heads ≡ g.heads
      format_heads = (format_same s size h v.next_page (class_bounds c cl).0 small).1 ∙ heads

  self : (s == s) ≡ true
  self = ground arith

  own_list : Slabs added size free_of live_of (s ∷ pages c) s
  own_list =
      let link : next_slab added s ≡ g.heads c =
        prepend_next c s formatted v.next_page (rw head_same old_aligned) ∙ head_same in
      let here : Slab added s size (free_of s) (live_of s) = rw self own-Slab in
      (
        refl,
        v.next_pos,
        here,
        subst (Slabs added size free_of live_of (pages c)) (sym link) (others_list c cl),
      )

  list_at :
      (d : ℕ) → d < 7 → Slabs added (class_size d) free_of live_of (pages_of d) (added.heads d)
  list_at d l = elim (Bool-cases (c == d)) [
    | inl e ↦
        subst (λ x. Slabs added (class_size x) free_of live_of (pages_of x) (added.heads x))
          (==→eq c d e)
          (let own : (c == c) ≡ true = ground arith in
            let at : added.heads c ≡ s = ap (λ (f : ℕ → ℕ). f c) added_heads ∙ rw own refl in
            let ss : pages_of c ≡ s ∷ pages c = rw own refl in rw (at, ss) own_list)
    | inr e ↦
        let at : added.heads d ≡ g.heads d = ap (λ (f : ℕ → ℕ). f d) added_heads ∙ rw e refl in
        let ss : pages_of d ≡ pages d = rw e refl in rw (at, ss) (others_list d l)
  ]

  -- How often a page stands in the lists.
  pages_count :
      (d a : ℕ)
      → count_of a (pages_of d)
        ≡ (if c == d then (if s == a then 1 else 0) else 0) + count_of a (pages d)
  unfolding count_of
  pages_count d a = elim (Bool-cases (c == d)) [
    | inl e ↦ rw e (ap (λ x. (if s == a then 1 else 0) + count_of a (pages x)) (==→eq c d e))
    | inr e ↦ rw e (omega arith)
  ]

  in_new :
      (d a : ℕ) → 0 < count_of a (pages_of d) → ((s ≡ a) × (c ≡ d)) ⊎ (0 < count_of a (pages d))
  in_new d a m = elim (Bool-cases (c == d)) [
    | inr e ↦ inr (ground (arith, pages_count d a))
    | inl e ↦ elim (Bool-cases (s == a)) [
      | inl q ↦ inl (==→eq s a q, ==→eq c d e)
      | inr q ↦ inr (ground (arith, pages_count d a))
    ]
  ]

  fresh_at : (d a : ℕ) → d < 7 → s ≡ a → count_of a (pages d) ≡ 0
  fresh_at d a l e = subst (λ x. count_of x (pages d) ≡ 0) e (fresh d l)

  once_new : (d a : ℕ) → d < 7 → count_of a (pages_of d) ≤ 1
  once_new d a l = elim (Bool-cases (s == a)) [
    | inl e ↦ ground (arith, pages_count d a, fresh_at d a l (==→eq s a e))
    | inr e ↦ ground (arith, pages_count d a, v.once d a l)
  ]

  one_class_new :
      (d d' a : ℕ)
      → d < 7
      → d' < 7
      → 0 < count_of a (pages_of d)
      → 0 < count_of a (pages_of d')
      → d ≡ d'
  one_class_new d d' a l l' m m' = elim (in_new d a m) [
    | inl (e, q) ↦ elim (in_new d' a m') [
      | inl (_, q') ↦ sym q ∙ q'
      | inr n' ↦ absurd (omega (arith, fresh_at d' a l' e))
    ]
    | inr n ↦ elim (in_new d' a m') [
      | inl (e, _) ↦ absurd (omega (arith, fresh_at d a l e))
      | inr n' ↦ v.one_class d d' a l l' n n'
    ]
  ]

  pub added_vmm : added.vmm ≡ h.vmm
  added_vmm =
      (prepend_same c s formatted).0
      ∙ (format_same s size h v.next_page (class_bounds c cl).0 small).0

  added_next : added.vmm.kheap_next ≡ s + 4096
  added_next = ap (λ (x : Vmm). x.kheap_next) added_vmm ∙ next

  added_count : added.slab_pages ≡ g.slab_pages + 1
  added_count = omega (arith, (prepend_same c s formatted).1, count)

  pub new_in_class : 0 < count_of s (pages_of c)
  new_in_class =
      let own : (c == c) ≡ true = ground arith in ground (arith, pages_count c s, own, self)

  pub new_has_free : 0 < length (free_of s)
  new_has_free =
      rw (self, length-objects_from (s + 64) size (4032 / size) 0)
        (total_bounds size (class_bounds c cl).0 small).0

  pub live_before : (a : ℕ) → live_of a ≡ live a
  live_before a = elim (Bool-cases (s == a)) [
    | inl e ↦ rw e (sym (v.none_live a (λ d l. fresh_at d a l (==→eq s a e))))
    | inr e ↦ rw e refl
  ]

  -- The heap with the new slab of class `c`, all its objects free.
  pub added-HeapInv : HeapInv added pages_of free_of live_of
  added-HeapInv = record {
    lists = list_at;
    once = once_new;
    one_class = one_class_new;
    few = λ d l. elim (Bool-cases (c == d)) [
      | inl e ↦ rw e (omega (arith, v.few c cl, added_count))
      | inr e ↦ rw e (omega (arith, v.few d l, added_count))
    ];
    placed = λ d a l m. elim (in_new d a m) [
      | inl (e, _) ↦ omega (arith, added_next)
      | inr n ↦ omega (arith, added_next, v.placed d a l n)
    ];
    next_page = ap (λ x. x % 4096) added_next ∙ omega (arith, v.next_page);
    next_pos = omega (arith, added_next);
    none_live = λ a none_of. elim (Bool-cases (s == a)) [
      | inl e ↦ rw e refl
      | inr e ↦ rw e (v.none_live a (λ d l. omega (arith, pages_count d a, none_of d l)))
    ];
  }
