-- ===== src/Heap/Malloc.antt =====
-- kmalloc of kernel/mm/heap.c for a small size, on the whole heap.
use lithium_kernel.Prelude.{
  ℕ, zero, suc, ◌+◌, ◌%◌, ◌^◌, ◌≤◌, ◌<◌, ◌≡◌, refl, sym, ap, ◌∙◌, inl, inr, false, Option, none,
  some, List, [], ◌∷◌, arith, ◌==◌, if◌then◌else◌, length, update, get_or, Bool-cases, leb, ltb,
}
use mathlib.Core.Path.{subst}
use lithium_kernel.Vmm.{Vmm, Run, vmm_current_pml4}
use lithium_kernel.Vmm.Tree.{Place, Tree, Ensures}
use lithium_kernel.Heap.{
  Heap, Answer, gives, null, halts, then_do, class_size, class_from, size_to_class, slab_obj_sizes,
  slab_min_size, slab_of, take_object, find_slab, format_slab, prepend,
}
use lithium_kernel.Heap.Slab.{count_of, IsObject, slab_of-IsObject, Slab, take_object-Slab}
use lithium_kernel.Heap.Inv.{HeapInv, Slab-agree, Slabs-map, Slabs-at, find_slab_lem}
use lithium_kernel.Heap.Touch.{touched-HeapInv, take_object-Touched}
use lithium_kernel.Heap.Grow.{
  class_bounds, added, pages_of, free_of, live_of, added-HeapInv, added_vmm, new_in_class,
  new_has_free, live_before,
}
use lithium_kernel.Vmm.Map.{OutOfPages}
use lithium_kernel.Heap.Page.{NewPage, NoPage, new_page_lem}
use lithium_kernel.Heap.Calls.{below, new_page, slab_alloc_page, take_from, small_alloc, kmalloc}

-- The class is the first whose size is enough, or there is none.
abbrev pub FirstFit : List ℕ → ℕ → ℕ → Option ℕ → Type 0
FirstFit sizes i sz none = (j : ℕ) → j < length sizes → get_or sizes j 0 < sz
FirstFit sizes i sz (some c) =
    (j : ℕ) × (c ≡ i + j)
    × (j < length sizes)
    × (sz ≤ get_or sizes j 0)
    × ((k : ℕ) → k < j → get_or sizes k 0 < sz)

class_from-FirstFit : (sizes : List ℕ) (i sz : ℕ) → FirstFit sizes i sz (class_from sizes i sz)
unfolding class_from
class_from-FirstFit [] i sz = λ j l. absurd (omega arith)
class_from-FirstFit (s ∷ sizes) i sz = elim (Bool-cases (leb sz s)) [
  | inl e ↦ rw e (0, omega arith, omega arith, ground arith, λ k l. absurd (omega arith))
  | inr e ↦ rw e (
      later s sizes i sz (ground arith) (class_from sizes (i + 1) sz)
        (class_from-FirstFit sizes (i + 1) sz))
]
  where
    first :
        (s sz : ℕ) (sizes : List ℕ)
        → s < sz
        → (b : ℕ) → ((k : ℕ) → k < b → get_or sizes k 0 < sz)
        → (k : ℕ) → k < suc b
        → get_or (s ∷ sizes) k 0 < sz
    first s sz sizes l b h zero u = l
    first s sz sizes l b h (suc k) u = h k (omega arith)

    later :
        (s : ℕ) (sizes : List ℕ) (i sz : ℕ)
        → s < sz
        → (r : Option ℕ) → FirstFit sizes (i + 1) sz r
        → FirstFit (s ∷ sizes) i sz r
    later s sizes i sz l none h = λ j u. first s sz sizes l (length sizes) h j u
    later s sizes i sz l (some c) (j, e, u, fits, before) =
        (suc j, omega arith, omega arith, fits, λ k m. first s sz sizes l j before k m)

-- `size_to_class` gives the smallest class that fits, and -1 exactly above 1024 bytes.
pub size_to_class_lem : (sz : ℕ) → FirstFit slab_obj_sizes 0 sz (size_to_class sz)
unfolding size_to_class
size_to_class_lem sz = class_from-FirstFit slab_obj_sizes 0 sz

object_aligned : (c s o : ℕ) → c < 7 → s % 4096 ≡ 0 → IsObject s (class_size c) o → o % 16 ≡ 0
object_aligned zero s o l p i = omega (arith, i.at)
object_aligned (suc zero) s o l p i = omega (arith, i.at)
object_aligned (suc (suc zero)) s o l p i = omega (arith, i.at)
object_aligned (suc (suc (suc zero))) s o l p i = omega (arith, i.at)
object_aligned (suc (suc (suc (suc zero)))) s o l p i = omega (arith, i.at)
object_aligned (suc (suc (suc (suc (suc zero))))) s o l p i = omega (arith, i.at)
object_aligned (suc (suc (suc (suc (suc (suc zero)))))) s o l p i = omega (arith, i.at)
object_aligned (suc (suc (suc (suc (suc (suc (suc c))))))) s o l p i = absurd (omega arith)

-- An object of class `c` was taken from the slab at `s`: it lies in that page, was free, and is now
-- live; every other live object is as it was.
pub record Allocated (c : ℕ) (live : ℕ → List ℕ) (o : ℕ) (h' : Heap) : Type 0 where
  pub pages' : ℕ → List ℕ
  pub free' : ℕ → List ℕ
  pub live' : ℕ → List ℕ
  pub valid : HeapInv h' pages' free' live'
  pub slab : ℕ
  pub on_page : slab_of o ≡ slab
  pub in_class : 0 < count_of slab (pages' c)
  pub object : IsObject slab (class_size c) o
  pub aligned : o % 16 ≡ 0
  pub was_free : count_of o (live slab) ≡ 0
  pub now_live : (a : ℕ) → live' a ≡ (if slab == a then o ∷ live slab else live a)

cons_of : (xs : List ℕ) → 0 < length xs → (o : ℕ) × (fr : List ℕ) × (xs ≡ o ∷ fr)
cons_of [] h = elim h [ ]
cons_of (x ∷ xs) h = (x, xs, refl)

-- Taking an object from a slab of the heap that has a free one.
take_from_slab :
    (h : Heap) (pages free live : ℕ → List ℕ) (c s : ℕ)
    → HeapInv h pages free live
    → c < 7
    → 0 < count_of s (pages c)
    → 0 < length (free s)
    → Allocated c live (take_object s h).0 (take_object s h).1
unfolding count_of
take_from_slab h pages free live c s v cl m some_free =
    let (o, fr, e) = cons_of (free s) some_free in
    let (pos, x) = Slabs-at h (class_size c) free live (pages c) (h.heads c) s (v.lists c cl) m in
    let y = subst (λ f. Slab h s (class_size c) f (live s)) e x in
    let (is_o, z) = take_object-Slab h s (class_size c) o fr (live s) y in
    let i = y.objects o (ground arith) in
    rw is_o (record {
      pages' = pages;
      free' = update free s fr;
      live' = update live s (o ∷ live s);
      valid =
          touched-HeapInv h (take_object s h).1 pages free live v c s fr (o ∷ live s) cl m z
            (take_object-Touched h s x.page);
      slab = s;
      on_page = slab_of-IsObject s (class_size c) o x.page x.big i;
      in_class = m;
      object = i;
      aligned = object_aligned c s o cl x.page i;
      was_free = ground (arith, y.once o);
      now_live = λ a. refl;
    })

-- The live objects from before, where the page of the new slab had none.
same_before :
    (c : ℕ) (live live0 : ℕ → List ℕ) (o : ℕ) (h' : Heap)
    → ((a : ℕ) → live0 a ≡ live a)
    → Allocated c live0 o h'
    → Allocated c live o h'
same_before c live live0 o h' e a = record {
  pages' = a.pages';
  free' = a.free';
  live' = a.live';
  valid = a.valid;
  slab = a.slab;
  on_page = a.on_page;
  in_class = a.in_class;
  object = a.object;
  aligned = a.aligned;
  was_free = ap (count_of o) (sym (e a.slab)) ∙ a.was_free;
  now_live = λ b. rw (← e a.slab, ← e b) (a.now_live b);
}

-- What `kmalloc` leaves for class `c`: an object; or NULL where no slab of the class has a free object
-- and no page could be had for a new one, and then every object is as it was. It does not halt, and the page tables stay a tree at CR3.
abbrev pub Served : Heap → (ℕ → List ℕ) → (ℕ → List ℕ) → (ℕ → List ℕ) → ℕ → Answer ℕ → Type 0
Served h pages free live c (gives o h') =
    Allocated c live o h'
    × (h'.vmm.cr3 ≡ h.vmm.cr3)
    × ((place : Place) × Tree (vmm_current_pml4 h.vmm) place h'.vmm)
Served h pages free live c (null h') =
    ((a : ℕ) → 0 < count_of a (pages c) → free a ≡ [])
    × HeapInv h' pages free live
    × (h'.vmm.cr3 ≡ h.vmm.cr3)
    × ((place : Place) × Tree (vmm_current_pml4 h.vmm) place h'.vmm
        × OutOfPages (vmm_current_pml4 h.vmm) h.vmm.kheap_next place h'.vmm)
Served h pages free live c halts = ⊥

-- A later state of the layers below, with the next heap address where it was or further.
below-HeapInv :
    (h : Heap) (w : Vmm) (pages free live : ℕ → List ℕ)
    → HeapInv h pages free live
    → h.vmm.kheap_next ≤ w.kheap_next
    → w.kheap_next % 4096 ≡ 0
    → HeapInv (record h { vmm = w }) pages free live
below-HeapInv h w pages free live v le page = record {
  lists = λ c l.
      Slabs-map h (record h { vmm = w }) (class_size c) free live free live (pages c) (h.heads c)
        (λ a m x. (
          Slab-agree h (record h { vmm = w }) a (class_size c) (free a) (live a) (λ _ _ _ _ _. refl)
              x,
          refl,
        ))
        (v.lists c l);
  once = v.once;
  one_class = v.one_class;
  few = v.few;
  placed = λ c a l m. omega (arith, v.placed c a l m);
  next_page = page;
  next_pos = omega (arith, v.next_pos);
  none_live = v.none_live;
}

module _ (h : Heap) (pages free live : ℕ → List ℕ) (c : ℕ) (v : HeapInv h pages free live)
    (cl : c < 7) (room : h.vmm.kheap_next + 4096 < 2 ^ 64) where
  -- With the page of a new slab.
  new_slab :
      (w : Vmm)
      → NewPage h.vmm h.vmm.kheap_next w
      → Served h pages free live c (
          take_from h.vmm.kheap_next (
            prepend c h.vmm.kheap_next
              (record (format_slab h.vmm.kheap_next (class_size c) (record h { vmm = w })) {
                slab_pages = h.slab_pages + 1;
              })))
  new_slab w n =
      let next : w.kheap_next ≡ h.vmm.kheap_next + 4096 = omega (arith, n.advanced) in
      let g = record h { vmm = w } in
      let s = h.vmm.kheap_next in
      let x = added h g pages free live v c cl refl refl refl next in
      let vmm_is : (take_object s x).1.vmm ≡ w =
        (take_object-Touched x s v.next_page).same_vmm
        ∙ added_vmm h g pages free live v c cl refl refl refl next in
      (
        same_before c live (live_of h g pages free live v c cl refl refl refl next) _ _
            (live_before h g pages free live v c cl refl refl refl next)
            (take_from_slab x (pages_of h g pages free live v c cl refl refl refl next)
              (free_of h g pages free live v c cl refl refl refl next)
              (live_of h g pages free live v c cl refl refl refl next) c s
              (added-HeapInv h g pages free live v c cl refl refl refl next) cl
              (new_in_class h g pages free live v c cl refl refl refl next)
              (new_has_free h g pages free live v c cl refl refl refl next)),
        ap (λ (x : Vmm). x.cr3) vmm_is ∙ n.same_cr3,
        (n.place, rw vmm_is n.tree),
      )

  no_page : (w : Vmm) → NoPage h.vmm w → HeapInv (record h { vmm = w }) pages free live
  no_page w n = elim n.next [
    | inl e ↦ below-HeapInv h w pages free live v (omega arith) (omega (arith, v.next_page))
    | inr e ↦ below-HeapInv h w pages free live v (omega arith) (omega (arith, v.next_page))
  ]

  fresh_answer :
      ((a : ℕ) → 0 < count_of a (pages c) → free a ≡ [])
      → (r : Run ℕ) → Ensures (NewPage h.vmm) (NoPage h.vmm) r
      → Served h pages free live c (
          then_do
            (then_do (below r h) (λ s h'.
              gives s
                (record (format_slab s (class_size c) h') { slab_pages = h'.slab_pages + 1 })))
            (λ s h'. take_from s (prepend c s h')))
  fresh_answer full (Run.done s w) n =
      subst
        (λ s. Served h pages free live c (
          take_from s (
            prepend c s (record (format_slab s (class_size c) (record h { vmm = w })) {
              slab_pages = h.slab_pages + 1;
            }))))
        (sym n.at_next) (new_slab w (subst (λ s. NewPage h.vmm s w) n.at_next n))
  fresh_answer full (Run.failed w) n = (full, no_page w n, n.same_cr3, (n.place, n.tree, n.why))
  fresh_answer full Run.stopped n = n

  small_alloc-Served :
      (place : Place)
      → Tree (vmm_current_pml4 h.vmm) place h.vmm
      → Served h pages free live c (small_alloc c h)
  unfolding small_alloc slab_alloc_page
  small_alloc-Served place t =
      let s = find_slab (h.slab_pages + 1) h (h.heads c) in
      elim (find_slab_lem h (class_size c) free live (pages c) (h.heads c) (h.slab_pages + 1)
        (v.lists c cl) (omega (arith, v.few c cl))) [
          | inl (z, full) ↦ rw z (fresh_answer full (new_page h.vmm) (new_page_lem h.vmm place t))
          | inr (pos, m, some_free) ↦
              let found : (s == 0) ≡ false = ground (arith, pos) in
              let x =
                Slabs-at h (class_size c) free live (pages c) (h.heads c) s (v.lists c cl) m in
              let vmm_is : (take_object s h).1.vmm ≡ h.vmm =
                (take_object-Touched h s x.1.page).same_vmm in
              rw found (
                take_from_slab h pages free live c s v cl m some_free,
                ap (λ (x : Vmm). x.cr3) vmm_is,
                (place, rw vmm_is t),
              )
        ]

-- A size of at most 1024 bytes has a class.
pub chosen :
    (size : ℕ) (r : Option ℕ)
    → size ≤ 1024
    → FirstFit slab_obj_sizes 0 size r
    → (c : ℕ) × (r ≡ some c)
      × (c < 7)
      × (size ≤ class_size c)
      × ((d : ℕ) → d < c → class_size d < size)
chosen size none l h = absurd (omega (arith, h 6 (omega arith)))
chosen size (some c) l (j, e, u, fits, first) =
    let q : c ≡ j = omega arith in (c, refl, omega arith, rw q fits, λ d m. first d (omega arith))

-- `kmalloc` of 1 to 1024 bytes on a well-formed heap, whose page tables are a tree at CR3, serves the
-- smallest class that fits: it returns an object of that class, aligned to 16 bytes, that was not live
-- and now is, all other live objects as they were; or NULL, with every object as it was, where no slab
-- of the class had a free object and no page could be had for a new slab: at most one frame is free, or
-- the next heap address lies in a 2 MiB page. It never halts.
pub kmalloc_lem :
    (h : Heap) (pages free live : ℕ → List ℕ) (place : Place) (size : ℕ)
    → HeapInv h pages free live
    → Tree (vmm_current_pml4 h.vmm) place h.vmm
    → h.vmm.kheap_next + 4096 < 2 ^ 64
    → 0 < size
    → size ≤ 1024
    → (c : ℕ) × (c < 7)
      × (size ≤ class_size c)
      × ((d : ℕ) → d < c → class_size d < size)
      × Served h pages free live c (kmalloc size h)
unfolding kmalloc
kmalloc_lem h pages free live place size v t room pos small =
    let size' = if ltb size slab_min_size then slab_min_size else size in
    let whole : size' % 2 ^ 32 ≡ size' = ground arith in
    let (c, is_c, cl, fits, first) =
      chosen size' (size_to_class size') (ground arith) (size_to_class_lem size') in
    let nonzero : (size == 0) ≡ false = ground arith in
    (
      c,
      cl,
      ground (arith, fits),
      λ d l. ground (arith, first d l, class_bounds d (omega arith)),
      rw (nonzero, whole, is_c) (small_alloc-Served h pages free live c v cl room place t),
    )
