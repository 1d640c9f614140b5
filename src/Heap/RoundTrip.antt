-- ===== src/Heap/RoundTrip.antt =====
-- kmalloc, kfree and heap_init of kernel/mm/heap.c together, and a size above 32 bits.
use lithium_kernel.Prelude.{
  ℕ, ◌+◌, ◌%◌, ◌^◌, ◌≤◌, ◌<◌, ◌≡◌, refl, ap, ◌∙◌, inl, inr, true, false, List, [], ◌∷◌, arith, ◌==◌,
  if◌then◌else◌, update, Bool-cases, ==→eq, ltb,
}
use mathlib.Core.Path.{subst}
use lithium_kernel.Vmm.{vmm_current_pml4}
use lithium_kernel.Vmm.Tree.{Place, Tree}
use lithium_kernel.Heap.{Heap, gives, size_to_class, slab_min_size, give_object, heap_init}
use lithium_kernel.Heap.Slab.{count_of, remove}
use lithium_kernel.Heap.Inv.{HeapInv}
use lithium_kernel.Heap.Touch.{kfree_lem}
use lithium_kernel.Heap.Malloc.{Allocated, Served, chosen, kmalloc_lem, size_to_class_lem}
use lithium_kernel.Heap.Calls.{kmalloc, kfree}

-- After `heap_init` no class has a slab and no object is live.
pub heap_init-HeapInv :
    (h : Heap)
    → h.vmm.kheap_next % 4096 ≡ 0
    → 0 < h.vmm.kheap_next
    → HeapInv (heap_init h) (λ _. []) (λ _. []) (λ _. [])
unfolding heap_init count_of
heap_init-HeapInv h page pos = record {
  lists = λ c l. ground arith;
  once = λ c a l. omega arith;
  one_class = λ c d a l l' m m'. absurd (omega arith);
  few = λ c l. omega arith;
  placed = λ c a l m. absurd (omega arith);
  next_page = page;
  next_pos = pos;
  none_live = λ a h. refl;
}

remove-head : (o : ℕ) (xs : List ℕ) → remove o (o ∷ xs) ≡ xs
unfolding remove
remove-head o xs = let same : (o == o) ≡ true = ground arith in rw same refl

restored :
    (live live' : ℕ → List ℕ) (s o : ℕ)
    → ((a : ℕ) → live' a ≡ (if s == a then o ∷ live s else live a))
    → (a : ℕ) → update live' s (remove o (live' s)) a ≡ live a
restored live live' s o h a = elim (Bool-cases (s == a)) [
  | inl e ↦
      let self : (s == s) ≡ true = ground arith in
      let head : live' s ≡ o ∷ live s = h s ∙ rw self refl in
      rw (e, head) (remove-head o (live s) ∙ ap live (==→eq s a e))
  | inr e ↦ rw e (h a ∙ rw e refl)
]

freed :
    (h' : Heap) (live : ℕ → List ℕ) (c o : ℕ)
    → c < 7
    → Allocated c live o h'
    → (h'' : Heap) × (pages : ℕ → List ℕ) × (free' : ℕ → List ℕ) × (live' : ℕ → List ℕ) × (kfree o
          h'
        ≡ gives tt h'')
      × HeapInv h'' pages free' live'
      × ((a : ℕ) → live' a ≡ live a)
unfolding count_of
freed h' live c o cl a =
    let self : (a.slab == a.slab) ≡ true = ground arith in
    let head : a.live' a.slab ≡ o ∷ live a.slab = a.now_live a.slab ∙ rw self refl in
    let is_live : 0 < count_of o (a.live' a.slab) = rw head (ground arith) in
    let f = kfree_lem h' a.pages' a.free' a.live' c a.slab o a.valid cl a.in_class is_live in
    (
      give_object a.slab o h',
      a.pages',
      update a.free' a.slab (o ∷ a.free' a.slab),
      update a.live' a.slab (remove o (a.live' a.slab)),
      f.1,
      f.2,
      restored live a.live' a.slab o a.now_live,
    )

-- An object that `kmalloc` of 1 to 1024 bytes returned from a well-formed heap goes back with `kfree`:
-- the call returns, the heap is well-formed, and the live objects are those from before both calls.
pub kfree-kmalloc :
    (h h' : Heap) (pages free live : ℕ → List ℕ) (place : Place) (size o : ℕ)
    → HeapInv h pages free live
    → Tree (vmm_current_pml4 h.vmm) place h.vmm
    → h.vmm.kheap_next + 4096 < 2 ^ 64
    → 0 < size
    → size ≤ 1024
    → kmalloc size h ≡ gives o h'
    → (h'' : Heap) × (pages'' : ℕ → List ℕ) × (free'' : ℕ → List ℕ) × (live'' : ℕ → List ℕ) × (kfree
          o h'
        ≡ gives tt h'')
      × HeapInv h'' pages'' free'' live''
      × ((a : ℕ) → live'' a ≡ live a)
kfree-kmalloc h h' pages free live place size o v t room pos small given =
    let (c, cl, fits, first, served) =
      kmalloc_lem h pages free live place size v t room pos small in
    freed h' live c o cl (subst (Served h pages free live c) given served).0

-- `size_to_class` is given the low 32 bits: 4 GiB and a little more are served like the little, by an
-- object of at most 1024 bytes.
pub kmalloc_truncates :
    (h : Heap) (size : ℕ) → 16 ≤ size → size ≤ 1024 → kmalloc (2 ^ 32 + size) h ≡ kmalloc size h
unfolding kmalloc
kmalloc_truncates h size l u =
    let (c, is_c, cl, fits, first) = chosen size (size_to_class size) u (size_to_class_lem size) in
    let above : ltb (2 ^ 32 + size) slab_min_size ≡ false = ground arith in
    let enough : ltb size slab_min_size ≡ false = ground arith in
    let large_pos : (2 ^ 32 + size == 0) ≡ false = ground arith in
    let pos : (size == 0) ≡ false = ground arith in
    let low : (2 ^ 32 + size) % 2 ^ 32 ≡ size = omega arith in
    let whole : size % 2 ^ 32 ≡ size = omega arith in
    rw (above, enough, large_pos, pos, low, whole, is_c) refl
