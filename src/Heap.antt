-- ===== src/Heap.antt =====
-- kernel/mm/heap.c: the slab allocator for small objects and whole pages for large ones. The kernel's
-- heap is a memory of 64-bit words at their virtual addresses; a slab header is read from its words.
pub mod Calls
pub mod Page
pub mod Inv
pub mod Touch
pub mod Grow
pub mod Malloc
pub mod RoundTrip
mod Examples
pub mod Slab
use lithium_kernel.Prelude.{
  ℕ, zero, suc, ◌+◌, ◌-◌, ◌*◌, ◌/◌, ◌%◌, ◌^◌, Bool, true, false, Option, none, some, List, [], ◌∷◌,
  ltb, leb, ◌==◌, if◌then◌else◌, update, get_or,
}
use lithium_kernel.Vmm.{Vmm}

-- The machine below the heap, the words of the heap, `slab_heads` (0 is NULL) and the counters.
pub record Heap : Type 0 where
  pub vmm : Vmm
  pub words : ℕ → ℕ
  pub heads : ℕ → ℕ
  pub allocs : ℕ
  pub frees : ℕ
  pub slab_pages : ℕ
  pub large_pages : ℕ

-- What a call leaves: its result or NULL, both with the heap, or a halt in KASSERT.
pub data Answer (A : Type 0) : Type 0 where
  gives : A → Heap → Answer A
  null : Heap → Answer A
  halts : Answer A

abbrev pub then_do : {A B : Type 0} → Answer A → (A → Heap → Answer B) → Answer B
then_do (gives a h) f = f a h
then_do (null h) f = null h
then_do halts f = halts

-- SLAB_HDR_SIZE, SLAB_MIN_SIZE, SLAB_MAGIC and `slab_obj_sizes`.
abbrev pub slab_hdr_size : ℕ
slab_hdr_size = 64

abbrev pub slab_min_size : ℕ
slab_min_size = 16

abbrev pub slab_magic : ℕ
slab_magic = 0xA110C8ED

abbrev pub slab_obj_sizes : List ℕ
slab_obj_sizes = 16 ∷ 32 ∷ 64 ∷ 128 ∷ 256 ∷ 512 ∷ 1024 ∷ []

abbrev pub class_size : ℕ → ℕ
class_size c = get_or slab_obj_sizes c 0

-- The loop of `size_to_class` over the sizes left; `none` is -1.
pub class_from : List ℕ → ℕ → ℕ → Option ℕ
class_from [] i sz = none
class_from (s ∷ sizes) i sz =
    let rest = class_from sizes (i + 1) sz in if leb sz s then some i else rest

pub size_to_class : ℕ → Option ℕ
unfolding class_from
size_to_class sz = class_from slab_obj_sizes 0 sz

-- `*a = x`
abbrev pub store : ℕ → ℕ → Heap → Heap
store a x h = record h { words = update h.words a x }

-- The fields of `slab_t` in the words of the page.
abbrev pub magic : Heap → ℕ → ℕ
magic h s = h.words s % 2 ^ 32

abbrev pub obj_size : Heap → ℕ → ℕ
obj_size h s = h.words s / 2 ^ 32 % 2 ^ 32

abbrev pub free_count : Heap → ℕ → ℕ
free_count h s = h.words (s + 8) % 2 ^ 16

abbrev pub total_count : Heap → ℕ → ℕ
total_count h s = h.words (s + 8) / 2 ^ 16 % 2 ^ 16

abbrev pub free_list : Heap → ℕ → ℕ
free_list h s = h.words (s + 16)

abbrev pub next_slab : Heap → ℕ → ℕ
next_slab h s = h.words (s + 24)

abbrev pub set_free_count : ℕ → ℕ → Heap → Heap
set_free_count s n h = store (s + 8) (h.words (s + 8) / 2 ^ 16 * 2 ^ 16 + n % 2 ^ 16) h

abbrev pub set_total_count : ℕ → ℕ → Heap → Heap
set_total_count s n h =
    store (s + 8)
      (h.words (s + 8) / 2 ^ 32 * 2 ^ 32 + n % 2 ^ 16 * 2 ^ 16 + h.words (s + 8) % 2 ^ 16) h

-- slab_of
abbrev pub slab_of : ℕ → ℕ
slab_of ptr = ptr / 4096 * 4096

-- The loop that links the objects: `base + i * obj_size` to the next one, `k` rounds left.
pub link_objects : ℕ → ℕ → ℕ → ℕ → Heap → Heap
link_objects base size zero i h = h
link_objects base size (suc k) i h =
    link_objects base size k (i + 1) (store (base + i * size) (base + (i + 1) * size) h)

-- What `slab_alloc_page` writes into the page at `s`.
pub format_slab : ℕ → ℕ → Heap → Heap
unfolding link_objects
format_slab s size h =
    let total = (4096 - slab_hdr_size) / size in
    let base = s + slab_hdr_size in
    let h0 = store s (slab_magic + size * 2 ^ 32) h in
    let h1 = set_total_count s total (set_free_count s total h0) in
    let h2 = store (s + 16) base (store (s + 32) 0 (store (s + 24) 0 h1)) in
    store (base + (total - 1) * size) 0 (link_objects base size (total - 1) 0 h2)

-- `void *obj = s->free_list; s->free_list = *(void **)obj; s->free_count--; heap_alloc_count++`
pub take_object : ℕ → Heap → ℕ × Heap
take_object s h =
    let obj = free_list h s in
    let h1 = store (s + 16) (h.words obj) h in
    let h2 = set_free_count s (free_count h1 s + 2 ^ 16 - 1) h1 in
    (obj, record h2 { allocs = h.allocs + 1 })

-- The slab path of `kfree`.
pub give_object : ℕ → ℕ → Heap → Heap
give_object s ptr h =
    let h1 = store ptr (free_list h s) h in
    let h2 = store (s + 16) ptr h1 in
    let h3 = set_free_count s (free_count h2 s + 1) h2 in record h3 { frees = h.frees + 1 }

-- `while (s && s->free_count == 0) s = s->next`, with fuel.
pub find_slab : ℕ → Heap → ℕ → ℕ
find_slab zero h s = 0
find_slab (suc f) h s =
    let rest = find_slab f h (next_slab h s) in
    if s == 0 then 0 else if free_count h s == 0 then rest else s

-- `s->next = head; if (head) head->prev = s; head = s`
pub prepend : ℕ → ℕ → Heap → Heap
prepend c s h =
    let old = h.heads c in
    let h1 = store (s + 24) old h in
    let h2 = if old == 0 then h1 else store (old + 32) s h1 in
    record h2 { heads = update h.heads c s }

-- heap_init
pub heap_init : Heap → Heap
heap_init h = record h {
  heads = λ c. if ltb c 7 then 0 else h.heads c;
  allocs = 0;
  frees = 0;
  slab_pages = 0;
  large_pages = 0;
}
