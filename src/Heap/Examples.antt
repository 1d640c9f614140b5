-- ===== src/Heap/Examples.antt =====
-- The theorems about kernel/mm/heap.c at a heap with one slab of three objects, two of them live.
use lithium_kernel.Prelude.{
  ℕ, ◌+◌, ◌*◌, ◌^◌, ◌≤◌, ◌<◌, ◌≡◌, refl, sym, inl, inr, List, [], ◌∷◌, arith, ◌==◌, if◌then◌else◌,
  update, Bool-cases, ==→eq,
}
use mathlib.Core.Path.{subst}
use lithium_kernel.Vmm.{vmm_current_pml4}
use lithium_kernel.Vmm.Tree.{Tree}
use lithium_kernel.Vmm.Demo.{demo, demo_place, demo-Tree}
use lithium_kernel.Heap.{
  Heap, gives, class_size, slab_magic, slab_of, take_object, give_object, size_to_class, find_slab,
  class_from,
}
use lithium_kernel.Heap.Slab.{count_of, remove, IsObject, Slab}
use lithium_kernel.Heap.Inv.{Slabs, HeapInv}
use lithium_kernel.Heap.Touch.{kfree_lem}
use lithium_kernel.Heap.Malloc.{Served, kmalloc_lem}
use lithium_kernel.Heap.RoundTrip.{kfree-kmalloc, kmalloc_truncates}
use lithium_kernel.Heap.Calls.{kmalloc, kfree, small_alloc}

abbrev page : ℕ
page = 0x3FFFF000

abbrev word : ℕ → ℕ
word a =
    if a == page
    then slab_magic + 1024 * 2 ^ 32
    else if a == page + 8
    then 3 * 2 ^ 16 + 1
    else if a == page + 16
    then page + 64
    else 0

abbrev heap : Heap
heap = record {
  vmm = demo;
  words = word;
  heads = λ c. if c == 6 then page else 0;
  allocs = 2;
  frees = 0;
  slab_pages = 1;
  large_pages = 0;
}

abbrev demo_pages : ℕ → List ℕ
demo_pages c = if c == 6 then page ∷ [] else []

abbrev demo_free : ℕ → List ℕ
demo_free s = if s == page then (page + 64) ∷ [] else []

abbrev demo_live : ℕ → List ℕ
demo_live s = if s == page then (page + 1088) ∷ (page + 2112) ∷ [] else []

demo-IsObject :
    (a : ℕ) → 0 < count_of a (demo_free page) + count_of a (demo_live page) → IsObject page 1024 a
unfolding count_of
demo-IsObject a l = elim (Bool-cases (a == page + 64)) [
  | inl e ↦ record { number = 0; at = ==→eq a _ e; inside = omega arith }
  | inr e ↦ elim (Bool-cases (a == page + 1088)) [
    | inl e' ↦ record { number = 1; at = ==→eq a _ e'; inside = omega arith }
    | inr e' ↦ record { number = 2; at = ground arith; inside = omega arith }
  ]
]

demo-Slab : Slab heap page 1024 (demo_free page) (demo_live page)
unfolding count_of
demo-Slab = record {
  page = refl;
  big = omega arith;
  is_slab = refl;
  sized = refl;
  counted = refl;
  chain = (refl, refl);
  once = λ a. ground arith;
  objects = demo-IsObject;
  all = refl;
}

demo_list :
    (c : ℕ) → c < 7 → Slabs heap (class_size c) demo_free demo_live (demo_pages c) (heap.heads c)
demo_list c l = elim (Bool-cases (c == 6)) [
  | inl e ↦
      subst (λ x. Slabs heap (class_size x) demo_free demo_live (demo_pages x) (heap.heads x))
        (sym (==→eq c 6 e)) (refl, omega arith, demo-Slab, refl)
  | inr e ↦ rw e refl
]

demo-HeapInv : HeapInv heap demo_pages demo_free demo_live
unfolding count_of
demo-HeapInv = record {
  lists = demo_list;
  once = λ c a l. ground arith;
  one_class = λ c d a l l' m m'. ground arith;
  few = λ c l. ground arith;
  placed = λ c a l m. ground arith;
  next_page = refl;
  next_pos = omega arith;
  none_live = λ a h. ground (arith, h 6 (omega arith));
}

heap-Tree : Tree (vmm_current_pml4 demo) demo_place demo
unfolding vmm_current_pml4
heap-Tree = demo-Tree

kmalloc_lem_example :
    (c : ℕ) × (c < 7)
    × (1000 ≤ class_size c)
    × ((d : ℕ) → d < c → class_size d < 1000)
    × Served heap demo_pages demo_free demo_live c (kmalloc 1000 heap)
kmalloc_lem_example =
    kmalloc_lem heap demo_pages demo_free demo_live demo_place 1000 demo-HeapInv heap-Tree
      (omega arith) (omega arith) (omega arith)

one_page : 0 < count_of page (demo_pages 6)
unfolding count_of
one_page = omega arith

one_live : 0 < count_of (page + 1088) (demo_live page)
unfolding count_of
one_live = omega arith

kfree_lem_example :
    (slab_of (page + 1088) ≡ page)
    × (kfree (page + 1088) heap ≡ gives tt (give_object page (page + 1088) heap))
    × HeapInv
        (give_object page (page + 1088) heap)
        demo_pages
        (update demo_free page ((page + 1088) ∷ demo_free page))
        (update demo_live page (remove (page + 1088) (demo_live page)))
kfree_lem_example =
    kfree_lem heap demo_pages demo_free demo_live 6 page (page + 1088) demo-HeapInv (omega arith)
      one_page one_live

given : kmalloc 1000 heap ≡ gives (page + 64) (take_object page heap).1
unfolding kmalloc small_alloc size_to_class class_from find_slab take_object
given = refl

kfree-kmalloc_example :
    (h'' : Heap) × (pages'' : ℕ → List ℕ) × (free'' : ℕ → List ℕ) × (live'' : ℕ → List ℕ) × (kfree
        (page + 64)
        (take_object page heap).1
      ≡ gives tt h'')
    × HeapInv h'' pages'' free'' live''
    × ((a : ℕ) → live'' a ≡ demo_live a)
kfree-kmalloc_example =
    kfree-kmalloc heap (take_object page heap).1 demo_pages demo_free demo_live demo_place 1000
      (page + 64) demo-HeapInv heap-Tree (omega arith) (omega arith) (omega arith) given

kmalloc_truncates_example : kmalloc (2 ^ 32 + 40) heap ≡ kmalloc 40 heap
kmalloc_truncates_example = kmalloc_truncates heap 40 (omega arith) (omega arith)
