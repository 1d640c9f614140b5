-- ===== src/Heap/Touch.antt =====
-- kmalloc from an existing slab and kfree of kernel/mm/heap.c keep the whole heap: they touch one page.
use lithium_kernel.Prelude.{
  ℕ, ◌+◌, ◌%◌, ◌≤◌, ◌<◌, ◌≡◌, refl, sym, ap, ◌∙◌, inl, inr, true, false, List, ◌∷◌, arith, ◌==◌,
  update, Bool-cases, ==→eq, leb,
}
use mathlib.Core.Path.{subst}
use lithium_kernel.Vmm.{Vmm}
use lithium_kernel.Heap.{
  Heap, gives, class_size, next_slab, slab_of, slab_hdr_size, take_object, give_object,
}
use lithium_kernel.Heap.Slab.{
  count_of, remove, IsObject, IsObject-bounds, slab_of-IsObject, Slab, give_object-Slab,
}
use lithium_kernel.Heap.Inv.{Slabs, HeapInv, Slab-agree, Slabs-map, Slabs-at}
use lithium_kernel.Heap.Calls.{kfree}

-- From `h` to `h'` only the page at `s` was written.
pub record Touched (h h' : Heap) (s : ℕ) : Type 0 where
  pub outside :
      (s' a : ℕ)
      → s % 4096 ≡ 0
      → s' % 4096 ≡ 0
      → (s == s') ≡ false
      → s' ≤ a
      → a < s' + 4096
      → h'.words a ≡ h.words a
  pub same_next : next_slab h' s ≡ next_slab h s
  pub same_heads : h'.heads ≡ h.heads
  pub same_pages : h'.slab_pages ≡ h.slab_pages
  pub same_vmm : h'.vmm ≡ h.vmm

module _ (h h' : Heap) (pages free live : ℕ → List ℕ) (v : HeapInv h pages free live) (c s : ℕ)
    (fr lv : List ℕ) (cl : c < 7) (m : 0 < count_of s (pages c))
    (new : Slab h' s (class_size c) fr lv) (t : Touched h h' s) where
  touched-Slab :
      (d a : ℕ)
      → d < 7
      → 0 < count_of a (pages d)
      → Slab h a (class_size d) (free a) (live a)
      → Slab h' a (class_size d) (update free s fr a) (update live s lv a)
        × (next_slab h' a ≡ next_slab h a)
  touched-Slab d a dl k old = elim (Bool-cases (s == a)) [
    | inl e ↦
        let q = ==→eq s a e in
        let cd : c ≡ d =
          v.one_class c d s cl dl m (subst (λ x. 0 < count_of x (pages d)) (sym q) k) in
        let both : Slab h' s (class_size d) fr lv × (next_slab h' s ≡ next_slab h s) =
          (subst (λ x. Slab h' s (class_size x) fr lv) cd new, t.same_next) in
        rw e (subst (λ x. Slab h' x (class_size d) fr lv × (next_slab h' x ≡ next_slab h x)) q both)
    | inr e ↦ rw e (
      Slab-agree h h' a (class_size d) (free a) (live a)
          (λ b l u _ _. t.outside a b new.page old.page e l u) old,
      t.outside a (a + 24) new.page old.page e (omega arith) (omega arith),
    )
  ]

  same_kheap : h'.vmm.kheap_next ≡ h.vmm.kheap_next
  same_kheap = ap (λ (x : Vmm). x.kheap_next) t.same_vmm

  pub touched-HeapInv : HeapInv h' pages (update free s fr) (update live s lv)
  touched-HeapInv = record {
    lists = λ d dl.
        subst (Slabs h' (class_size d) (update free s fr) (update live s lv) (pages d))
          (ap (λ (f : ℕ → ℕ). f d) (sym t.same_heads))
          (Slabs-map h h' (class_size d) free live (update free s fr) (update live s lv) (pages d)
            (h.heads d) (λ a k. touched-Slab d a dl k) (v.lists d dl));
    once = v.once;
    one_class = v.one_class;
    few = λ d dl. omega (arith, v.few d dl, t.same_pages);
    placed = λ d a dl k. omega (arith, v.placed d a dl k, same_kheap);
    next_page = ap (λ x. x % 4096) same_kheap ∙ v.next_page;
    next_pos = omega (arith, v.next_pos, same_kheap);
    none_live = λ a none_of. elim (Bool-cases (s == a)) [
      | inl e ↦
          absurd
            (omega (arith, subst (λ x. 0 < count_of x (pages c)) (==→eq s a e) m, none_of c cl))
      | inr e ↦ rw e (v.none_live a none_of)
    ];
  }

-- What taking an object of the slab `s` writes.
pub take_object-Touched : (h : Heap) (s : ℕ) → s % 4096 ≡ 0 → Touched h (take_object s h).1 s
unfolding take_object
take_object-Touched h s page = record {
  outside = λ s' a p p' ne l u. ground (arith, ne);
  same_next = ground arith;
  same_heads = refl;
  same_pages = refl;
  same_vmm = refl;
}

pub give_object-Touched :
    (h : Heap) (s size p : ℕ)
    → s % 4096 ≡ 0
    → 16 ≤ size
    → IsObject s size p
    → Touched h (give_object s p h) s
unfolding give_object
give_object-Touched h s size p page big i =
    let b = IsObject-bounds s size p i in
    record {
      outside = λ s' a p p' ne l u. ground (arith, ne, b);
      same_next = ground (arith, b);
      same_heads = refl;
      same_pages = refl;
      same_vmm = refl;
    }

-- `kfree` of a live object of a slab makes it the first free object of its page, and keeps the heap.
pub kfree_lem :
    (h : Heap) (pages free live : ℕ → List ℕ) (c s p : ℕ)
    → HeapInv h pages free live
    → c < 7
    → 0 < count_of s (pages c)
    → 0 < count_of p (live s)
    → (slab_of p ≡ s)
      × (kfree p h ≡ gives tt (give_object s p h))
      × HeapInv
          (give_object s p h)
          pages
          (update free s (p ∷ free s))
          (update live s (remove p (live s)))
unfolding kfree
kfree_lem h pages free live c s p v cl m k =
    let (pos, slab) =
      Slabs-at h (class_size c) free live (pages c) (h.heads c) s (v.lists c cl) m in
    let i = slab.objects p (omega arith) in
    let b = IsObject-bounds s (class_size c) p i in
    let at = slab_of-IsObject s (class_size c) p slab.page slab.big i in
    let known : (p == 0) ≡ false = ground (arith, b) in
    let inside : leb (s + slab_hdr_size) p ≡ true = ground (arith, b) in
    (
      at,
      rw (at, known, slab.is_slab, inside) refl,
      touched-HeapInv h (give_object s p h) pages free live v c s (p ∷ free s) (remove p (live s))
          cl m (give_object-Slab h s (class_size c) p (free s) (live s) slab k)
          (give_object-Touched h s (class_size c) p slab.page slab.big i),
    )
