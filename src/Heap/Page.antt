-- ===== src/Heap/Page.antt =====
-- The page of a new slab of kernel/mm/heap.c: a frame, an address and a mapping.
use lithium_kernel.Prelude.{
  ℕ, ◌+◌, ◌*◌, ◌/◌, ◌%◌, ◌^◌, ◌≡◌, ◌≢◌, refl, ap, ◌∙◌, ◌⊎◌, inl, inr, true, none, some, arith,
}
use lithium_kernel.Pmm.{Pmm, frame_is_free}
use lithium_kernel.Pmm.Alloc.{Allocated, alloc_frame_lem}
use lithium_kernel.Pmm.Release.{IsReferenced}
use lithium_kernel.Vmm.{
  Vmm, Run, bind, vmm_current_pml4, vmm_map_page, vmm_get_physical, phys_of, vmm_alloc_kernel,
}
use lithium_kernel.Vmm.Tree.{Place, Tree, Ensures, Ensures-bind, Ensures-weaken}
use lithium_kernel.Vmm.Leaf.{page_of}
use lithium_kernel.Vmm.Data.{data-Tree, data_same, next-Tree, next_same}
use lithium_kernel.Vmm.Grow.{fresh_page, fresh-IsFrame, fresh-IsReferenced}
use lithium_kernel.Vmm.Map.{OutOfPages, Unchanged, Mapped, vmm_map_page_lem}
use lithium_kernel.Vmm.Fresh.{GivenBack, give_back, or_free_lem}
use lithium_kernel.Heap.Calls.{new_page, reserve, map_at}

-- The page at `virt`, the next address of the kernel's heap, is mapped to a frame that was free.
pub record NewPage (v : Vmm) (virt : ℕ) (w : Vmm) : Type 0 where
  pub place : Place
  pub tree : Tree (vmm_current_pml4 v) place w
  pub at_next : virt ≡ v.kheap_next
  pub advanced : w.kheap_next ≡ (v.kheap_next + 4096) % 2 ^ 64
  pub same_cr3 : w.cr3 ≡ v.cr3
  pub frame : ℕ
  pub was_free : frame_is_free v.pmm.bitmap frame ≡ true
  pub translated : vmm_get_physical w (vmm_current_pml4 v) virt ≡ some (frame * 4096 + virt % 4096)
  pub elsewhere :
      (b : ℕ)
      → page_of b ≢ page_of virt
      → vmm_get_physical w (vmm_current_pml4 v) b ≡ vmm_get_physical v (vmm_current_pml4 v) b

-- No page: nothing is mapped, and the address that may have been taken is lost.
pub record NoPage (v w : Vmm) : Type 0 where
  pub place : Place
  pub tree : Tree (vmm_current_pml4 v) place w
  pub next : (w.kheap_next ≡ v.kheap_next) ⊎ (w.kheap_next ≡ (v.kheap_next + 4096) % 2 ^ 64)
  pub same_cr3 : w.cr3 ≡ v.cr3
  pub why : OutOfPages (vmm_current_pml4 v) v.kheap_next place w
  pub same :
      (b : ℕ)
      → vmm_get_physical w (vmm_current_pml4 v) b ≡ vmm_get_physical v (vmm_current_pml4 v) b

map_at_lem :
    (root virt phys : ℕ) (place : Place) (x : Vmm)
    → vmm_current_pml4 x ≡ root
    → Tree root place x
    → place phys ≡ none
    → IsReferenced x.pmm phys
    → Ensures (λ _ y. Mapped root virt phys place x y) (GivenBack root virt x) (map_at virt phys x)
unfolding map_at
map_at_lem root virt phys place x e w n r = rw e (
    or_free_lem (λ _ y. Mapped root virt phys place x y) (Unchanged root virt place x)
      (GivenBack root virt x) phys (vmm_map_page root virt phys 2 x)
      (vmm_map_page_lem root virt phys 2 place x w)
      (λ y u. give_back (λ _ y. Mapped root virt phys place x y) root virt phys place x y n r u))

-- With the frame `f` taken and the address reserved.
module _ (v : Vmm) (place : Place) (w : Tree (vmm_current_pml4 v) place v) (f : ℕ) (q : Pmm)
    (a : Allocated v.pmm f q) where
  abbrev reserved : Vmm
  reserved = record v { pmm = q; kheap_next = (v.kheap_next + 4096) % 2 ^ 64 }

  abbrev root : ℕ
  root = vmm_current_pml4 v

  reserved-Tree : Tree root place reserved
  reserved-Tree =
      next-Tree root place (record v { pmm = q }) ((v.kheap_next + 4096) % 2 ^ 64)
        (data-Tree root place v q v.mem w (λ t p h. refl) a.valid
          (λ t p h. ground (arith, a.used (t / 4096), w.in_use t p h)))

  reserved_same : (b : ℕ) → vmm_get_physical reserved root b ≡ vmm_get_physical v root b
  reserved_same b =
      next_same root (record v { pmm = q }) ((v.kheap_next + 4096) % 2 ^ 64) b
      ∙ data_same root place v q v.mem w (λ t p h. refl) b

  Mapped-page :
      (y : Vmm) → Mapped root v.kheap_next (f * 4096) place reserved y → NewPage v v.kheap_next y
  Mapped-page y m =
      let whole : phys_of (f * 4096) ≡ f * 4096 =
        omega (arith, (fresh-IsFrame root place v w f q a).masked) in
      record {
        place = m.place;
        tree = m.tree;
        at_next = refl;
        advanced = m.same_next;
        same_cr3 = m.same_cr3;
        frame = f;
        was_free = a.was_free;
        translated = m.translated ∙ ap (λ (x : ℕ). some (x + v.kheap_next % 4096)) whole;
        elsewhere = λ b ne. m.elsewhere b ne ∙ reserved_same b;
      }

  no_page : (y : Vmm) → GivenBack root v.kheap_next reserved y → NoPage v y
  no_page y g = record {
    place = g.place;
    tree = g.tree;
    why = g.why;
    next = inr (g.same_next);
    same_cr3 = g.same_cr3;
    same = λ b. g.same b ∙ reserved_same b;
  }

  mapping :
      Ensures
        (λ virt y. NewPage v virt y)
        (NoPage v)
        (bind (map_at v.kheap_next (f * 4096) reserved) (λ _ y. Run.done v.kheap_next y))
  unfolding vmm_current_pml4
  mapping =
      Ensures-bind (λ _ y. NewPage v v.kheap_next y) (NewPage v) (NoPage v) _
        (map_at v.kheap_next (f * 4096) reserved)
        (Ensures-weaken (λ _ y. Mapped root v.kheap_next (f * 4096) place reserved y)
          (λ _ y. NewPage v v.kheap_next y) (GivenBack root v.kheap_next reserved) (NoPage v)
          (map_at v.kheap_next (f * 4096) reserved)
          (map_at_lem root v.kheap_next (f * 4096) place reserved refl reserved-Tree
            (fresh_page root place v w f q a) (fresh-IsReferenced root place v w f q a))
          (λ _. Mapped-page) no_page)
        (λ _ y n. n)

-- On a tree of tables at CR3, taking a page for a slab does not halt. It maps the next heap address to
-- a frame that was free and changes no other translation; or there is no page, and none changes.
pub new_page_lem :
    (v : Vmm) (place : Place)
    → Tree (vmm_current_pml4 v) place v
    → Ensures (NewPage v) (NoPage v) (new_page v)
unfolding new_page reserve vmm_alloc_kernel
new_page_lem v place w = elim (alloc_frame_lem v.pmm w.valid) [
  | inl (z, eq) ↦ rw eq (record {
    place = place;
    tree = w;
    next = inl refl;
    same_cr3 = refl;
    why = inl (omega arith);
    same = λ b. refl;
  })
  | inr (f, q, eq, a) ↦ rw eq (mapping v place w f q a)
]
