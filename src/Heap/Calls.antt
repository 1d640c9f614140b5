-- ===== src/Heap/Calls.antt =====
-- kmalloc, kzalloc, kfree and krealloc of kernel/mm/heap.c, on the frames and page tables below.
use lithium_kernel.Prelude.{
  ℕ, zero, suc, ◌+◌, ◌-◌, ◌*◌, ◌/◌, ◌%◌, ◌^◌, Option, none, some, ltb, leb, ◌==◌, if◌then◌else◌,
}
use lithium_kernel.Vmm.{
  Run, done, failed, stopped, M, ◌>>=◌, ◌>>◌, alloc, free, align_up64, vmm_current_pml4,
  vmm_map_page, vmm_unmap_page, vmm_get_physical, vmm_alloc_kernel,
}
use lithium_kernel.Vmm.Space.{or_free}
use lithium_kernel.Heap.{
  Heap, Answer, gives, null, halts, then_do, class_size, size_to_class, slab_min_size,
  slab_hdr_size, slab_magic, store, magic, obj_size, slab_of, format_slab, take_object, give_object,
  find_slab, prepend,
}

-- A call of the layers below, with the heap as it is.
abbrev pub below : {A : Type 0} → Run A → Heap → Answer A
below (done a v) h = gives a (record h { vmm = v })
below (failed v) h = null (record h { vmm = v })
below stopped h = halts

unfoldable pub reserve : ℕ → M ℕ
reserve size v = let (addr, w) = vmm_alloc_kernel size v in done addr w

-- `vmm_map_page(vmm_current_pml4(), virt, phys, VMM_WRITE)`, which gives the frame back on an error.
unfoldable pub map_at : ℕ → ℕ → M (Unit {0})
map_at virt phys v = or_free phys (vmm_map_page (vmm_current_pml4 v) virt phys 2 v)

-- The page of a new slab.
unfoldable pub new_page : M ℕ
unfolding reserve map_at
new_page = do phys ← alloc; virt ← reserve 4096; map_at virt phys; (λ v. done virt v)

unfoldable pub slab_alloc_page : ℕ → Heap → Answer ℕ
unfolding new_page
slab_alloc_page c h =
    then_do (below (new_page h.vmm) h) (λ s h'.
      gives s (record (format_slab s (class_size c) h') { slab_pages = h'.slab_pages + 1 }))

abbrev pub take_from : ℕ → Heap → Answer ℕ
take_from s h = let (obj, h') = take_object s h in gives obj h'

-- The slab path of `kmalloc`.
unfoldable pub small_alloc : ℕ → Heap → Answer ℕ
unfolding slab_alloc_page
small_alloc c h =
    let s = find_slab (h.slab_pages + 1) h (h.heads c) in
    if s == 0
    then then_do (slab_alloc_page c h) (λ s' h'. take_from s' (prepend c s' h'))
    else take_from s h

-- The loop of the large path, `k` rounds left; pages already mapped stay on an error.
map_pages : ℕ → ℕ → M (Unit {0})
unfolding map_at
map_pages zero virt = λ v. done tt v
map_pages (suc k) virt = do phys ← alloc; map_at virt phys; map_pages k (virt + 4096)

large_canary : ℕ
large_canary = 0xFEEDFACEDEADBEEF

pub large_alloc : ℕ → Heap → Answer ℕ
unfolding reserve map_pages large_canary
large_alloc size h =
    let total = (size + 16) % 2 ^ 64 in
    let pages = align_up64 total / 4096 in
    then_do
      (below ((reserve (pages * 4096) >>= λ virt. map_pages pages virt >> (λ v. done virt v)) h.vmm)
        h)
      (λ virt h'.
        let h1 = store (virt + 8) large_canary (store virt pages h') in
        gives (virt + 16)
          (record h1 { large_pages = h'.large_pages + pages; allocs = h'.allocs + 1 }))

abbrev pub alloc_class : Option ℕ → ℕ → Heap → Answer ℕ
alloc_class none size h = large_alloc size h
alloc_class (some c) size h = small_alloc c h

-- The class is chosen by `(uint32_t)size`.
unfoldable pub kmalloc : ℕ → Heap → Answer ℕ
kmalloc size h =
    let size' = if ltb size slab_min_size then slab_min_size else size in
    if size == 0 then null h else alloc_class (size_to_class (size' % 2 ^ 32)) size' h

-- `memset(p, 0, n)` on whole words, and the low bytes of the last one.
zero_words : ℕ → ℕ → Heap → Heap
zero_words zero p h = h
zero_words (suc k) p h = zero_words k (p + 8) (store p 0 h)

zero_bytes : ℕ → ℕ → Heap → Heap
unfolding zero_words
zero_bytes p n h =
    let h' = zero_words (n / 8) p h in
    let last = p + n / 8 * 8 in
    if n % 8 == 0 then h' else store last (h'.words last / 2 ^ (8 * (n % 8)) * 2 ^ (8 * (n % 8))) h'

pub kzalloc : ℕ → Heap → Answer ℕ
unfolding kmalloc zero_bytes
kzalloc size h = then_do (kmalloc size h) (λ p h'. gives p (zero_bytes p size h'))

free_if : Option ℕ → M (Unit {0})
free_if none v = done tt v
free_if (some phys) v = free phys v

-- The loop of the large path of `kfree`, `k` rounds left.
unmap_pages : ℕ → ℕ → M (Unit {0})
unfolding free_if
unmap_pages zero virt = λ v. done tt v
unmap_pages (suc k) virt = do
  (λ v. free_if (vmm_get_physical v (vmm_current_pml4 v) virt) v)
  (λ v. done tt (vmm_unmap_page (vmm_current_pml4 v) virt v))
  unmap_pages k (virt + 4096)

pub large_free : ℕ → Heap → Answer (Unit {0})
unfolding unmap_pages large_canary
large_free ptr h =
    let hdr = ptr - 16 in
    let pages = h.words hdr in
    if h.words (hdr + 8) == large_canary
    then then_do (below (unmap_pages pages hdr h.vmm) h) (λ _ h'. gives tt (record h' {
      large_pages = (h'.large_pages + 2 ^ 64 - pages) % 2 ^ 64;
      frees = h'.frees + 1;
    }))
    else halts

unfoldable pub kfree : ℕ → Heap → Answer (Unit {0})
kfree ptr h =
    let s = slab_of ptr in
    if ptr == 0
    then gives tt h
    else if magic h s == slab_magic
    then if leb (s + slab_hdr_size) ptr then gives tt (give_object s ptr h) else halts
    else large_free ptr h

-- `memcpy` of whole words; the size of an object is a multiple of 16.
copy_words : ℕ → ℕ → ℕ → Heap → Heap
copy_words zero dst src h = h
copy_words (suc k) dst src h = copy_words k (dst + 8) (src + 8) (store dst (h.words src) h)

-- The size that a pointer's object can hold.
pub size_of : ℕ → Heap → ℕ
size_of ptr h =
    let s = slab_of ptr in
    if magic h s == slab_magic
    then obj_size h s
    else (h.words (ptr - 16) * 4096 + 2 ^ 64 - 16) % 2 ^ 64

-- The pointer stays if its object is large enough.
pub krealloc : ℕ → ℕ → Heap → Answer ℕ
unfolding kmalloc kfree size_of copy_words
krealloc ptr new_size h =
    let old_size = size_of ptr h in
    if ptr == 0
    then kmalloc new_size h
    else if new_size == 0
    then then_do (kfree ptr h) (λ _ h'. null h')
    else if leb new_size old_size
    then gives ptr h
    else then_do (kmalloc new_size h)
        (λ np h'. then_do (kfree ptr (copy_words (old_size / 8) np ptr h')) (λ _ h''. gives np h''))
