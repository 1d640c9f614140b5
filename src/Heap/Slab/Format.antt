-- ===== src/Heap/Slab/Format.antt =====
-- slab_alloc_page of kernel/mm/heap.c: the page it formats has all its objects free.
use lithium_kernel.Prelude.{
  ℕ, zero, suc, ◌+◌, ◌-◌, ◌*◌, ◌/◌, ◌%◌, ◌^◌, ◌≤◌, ◌<◌, ◌≡◌, refl, sym, ap, ◌∙◌, ◌⊎◌, inl, inr,
  false, List, [], ◌∷◌, arith, ◌==◌, length, Bool-cases, ==→eq,
}
use mathlib.Core.Path.{subst}
use lithium_kernel.Heap.{
  Heap, slab_magic, free_list, store, link_objects, format_slab, set_free_count, set_total_count,
}
use lithium_kernel.Heap.Slab.{count_of, Chain, IsObject, Slab}

-- `k` objects from number `i` on.
pub objects_from : ℕ → ℕ → ℕ → ℕ → List ℕ
objects_from base size zero i = []
objects_from base size (suc k) i = (base + i * size) ∷ objects_from base size k (i + 1)

-- The linking does not write below the first object.
link_below :
    (base size k i : ℕ) (h : Heap) (a : ℕ)
    → a < base
    → (link_objects base size k i h).words a ≡ h.words a
unfolding link_objects
link_below base size zero i h a l = refl
link_below base size (suc k) i h a l =
    link_below base size k (i + 1) (store (base + i * size) (base + (i + 1) * size) h) a l
    ∙ ground (arith, link_ne)
  where
    link_ne : (base + i * size == a) ≡ false
    link_ne = grind arith

-- Nor above the last one.
link_above :
    (base size k i : ℕ) (h : Heap) (a : ℕ)
    → base + (i + k) * size ≤ a
    → 0 < size
    → (link_objects base size k i h).words a ≡ h.words a
unfolding link_objects
link_above base size zero i h a l p = refl
link_above base size (suc k) i h a l p =
    let next : base + (i + 1 + k) * size ≤ a = grind arith in
    link_above base size k (i + 1) (store (base + i * size) (base + (i + 1) * size) h) a next p
    ∙ ground (arith, link_ne)
  where
    link_ne : (base + i * size == a) ≡ false
    link_ne = grind arith

-- Writing words leaves the rest of the heap alone.
abbrev pub SameRest : Heap → Heap → Type 0
SameRest x h = (x.vmm ≡ h.vmm) × (x.heads ≡ h.heads) × (x.slab_pages ≡ h.slab_pages)

link_same : (base size k i : ℕ) (h : Heap) → SameRest (link_objects base size k i h) h
unfolding link_objects
link_same base size zero i h = (refl, refl, refl)
link_same base size (suc k) i h =
    link_same base size k (i + 1) (store (base + i * size) (base + (i + 1) * size) h)

-- Two objects of different number stand at different addresses.
numbers_apart : (base size i j : ℕ) → 0 < size → i < j → base + i * size < base + j * size
numbers_apart base size i j p l = grind arith

-- Nor does it write at objects before the first one linked.
link_before :
    (base size k i j : ℕ) (h : Heap)
    → 0 < size
    → j < i
    → (link_objects base size k i h).words (base + j * size) ≡ h.words (base + j * size)
unfolding link_objects
link_before base size zero i j h p l = refl
link_before base size (suc k) i j h p l =
    link_before base size k (i + 1) j (store (base + i * size) (base + (i + 1) * size) h) p
      (omega arith)
    ∙ ground (arith, numbers_apart base size j i p l)

-- Every object linked holds the address of the next.
link_next :
    (base size k i j : ℕ) (h : Heap)
    → 0 < size
    → i ≤ j
    → j < i + k
    → (link_objects base size k i h).words (base + j * size) ≡ base + (j + 1) * size
unfolding link_objects
link_next base size zero i j h p l u = absurd (omega arith)
link_next base size (suc k) i j h p l u = elim (Bool-cases (i == j)) [
  | inl e ↦
      let q : i ≡ j = ==→eq i j e in
      subst
        (λ x.
          (link_objects base size k (i + 1)
              (store (base + i * size) (base + (i + 1) * size) h)).words
            (base + x * size)
          ≡ base + (x + 1) * size)
        q (link_before base size k (i + 1) i _ p (omega arith) ∙ ground arith)
  | inr e ↦ link_next base size k (i + 1) j _ p (ground arith) (omega arith)
]

-- A memory whose objects link up, the last to NULL, has the list of them all.
linked-Chain :
    (w : ℕ → ℕ) (base size k i n : ℕ)
    → i + k ≡ n
    → ((j : ℕ) → i ≤ j → j < n → w (base + j * size) ≡ base + (j + 1) * size)
    → w (base + n * size) ≡ 0
    → Chain w (objects_from base size (suc k) i) (base + i * size)
unfolding objects_from
linked-Chain w base size zero i n q h e =
    let q' : n ≡ i = omega arith in (refl, subst (λ x. w (base + x * size) ≡ 0) q' e)
linked-Chain w base size (suc k) i n q h e = (
  refl,
  subst (Chain w (objects_from base size (suc k) (i + 1))) (sym (h i (omega arith) (omega arith)))
      (linked-Chain w base size k (i + 1) n (omega arith) (λ j l u. h j (omega arith) u) e),
)

member :
    (base size k i a : ℕ)
    → 0 < count_of a (objects_from base size k i)
    → (j : ℕ) × (i ≤ j) × (j < i + k) × (a ≡ base + j * size)
unfolding objects_from count_of
member base size zero i a h = elim h [ ]
member base size (suc k) i a h = elim (Bool-cases (base + i * size == a)) [
  | inl e ↦ (i, omega arith, omega arith, sym (==→eq _ a e))
  | inr e ↦
      let (j, l, u, q) = member base size k (i + 1) a (ground arith) in
      (j, omega arith, omega arith, q)
]

objects_once : (base size k i a : ℕ) → 0 < size → count_of a (objects_from base size k i) ≤ 1
unfolding objects_from count_of
objects_once base size zero i a p = omega arith
objects_once base size (suc k) i a p = elim (Bool-cases (base + i * size == a)) [
  | inr e ↦ rw e (omega (arith, objects_once base size k (i + 1) a p))
  | inl e ↦ rw e (omega (arith, alone (==→eq _ a e)))
]
  where
    alone : base + i * size ≡ a → count_of a (objects_from base size k (i + 1)) ≤ 0
    alone q = elim (Bool-cases (0 == count_of a (objects_from base size k (i + 1)))) [
      | inl z ↦ omega (arith, ==→eq 0 _ z)
      | inr z ↦
          let (j, l, u, q') = member base size k (i + 1) a (ground arith) in
          absurd (omega (arith, numbers_apart base size i j p (omega arith)))
    ]

pub length-objects_from : (base size k i : ℕ) → length (objects_from base size k i) ≡ k
unfolding objects_from
length-objects_from base size zero i = refl
length-objects_from base size (suc k) i = ap suc (length-objects_from base size k (i + 1))

-- The number of objects of a page.
abbrev pub total : ℕ → ℕ
total size = (4096 - 64) / size

pub total_bounds :
    (size : ℕ)
    → 16 ≤ size
    → size ≤ 4032
    → (0 < total size) × (total size ≤ 252) × (total size * size ≤ 4032)
total_bounds size l u = (grind arith, grind arith, grind arith)

module _ (s size : ℕ) (h : Heap) (page : s % 4096 ≡ 0) (big : 16 ≤ size) (small : size ≤ 4032) where
  abbrev base : ℕ
  base = s + 64

  abbrev last : ℕ
  last = total size - 1

  -- The heap once the header is written.
  abbrev headed : Heap
  headed =
      let h0 = store s (slab_magic + size * 2 ^ 32) h in
      let h1 = set_total_count s (total size) (set_free_count s (total size) h0) in
      store (s + 16) base (store (s + 32) 0 (store (s + 24) 0 h1))

  abbrev formatted : Heap
  formatted = format_slab s size h

  header_kept : (a : ℕ) → a < base → formatted.words a ≡ headed.words a
  unfolding format_slab
  header_kept a l =
      let ne : (base + last * size == a) ≡ false = grind arith in
      rw ne (link_below base size last 0 headed a l)

  linked : (j : ℕ) → 0 ≤ j → j < last → formatted.words (base + j * size) ≡ base + (j + 1) * size
  unfolding format_slab
  linked j l u =
      let ne : (base + last * size == base + j * size) ≡ false =
        ground (arith, numbers_apart base size j last (omega arith) u) in
      rw ne (link_next base size last 0 j headed (omega arith) (omega arith) (omega arith))

  ended : formatted.words (base + last * size) ≡ 0
  unfolding format_slab
  ended = ground arith

  chained : Chain formatted.words (objects_from base size (suc last) 0) (base + 0 * size)
  chained = linked-Chain formatted.words base size last 0 last (omega arith) linked ended

  some_objects : suc last ≡ total size
  some_objects = omega (arith, total_bounds size big small)

  IsObject-member :
      (a : ℕ) → 0 < count_of a (objects_from base size (total size) 0) → IsObject s size a
  IsObject-member a l =
      let (j, _, u, q) = member base size (total size) 0 a l in
      record { number = j; at = q; inside = within j u }
    where
      within : (j : ℕ) → j < 0 + total size → j * size + size ≤ 4032
      within j u = let b = total_bounds size big small in grind arith

  formatted-Slab : Slab formatted s size (objects_from base size (total size) 0) []
  unfolding count_of
  formatted-Slab =
      let b = total_bounds size big small in
      let head : free_list formatted s ≡ base + 0 * size =
        header_kept (s + 16) (omega arith) ∙ ground arith in
      record {
        page = page;
        big = big;
        is_slab = ap (λ x. x % 2 ^ 32) (header_kept s (omega arith)) ∙ ground arith;
        sized = ap (λ x. x / 2 ^ 32 % 2 ^ 32) (header_kept s (omega arith)) ∙ ground arith;
        counted =
            ap (λ x. x % 2 ^ 16) (header_kept (s + 8) (omega arith))
            ∙ ground (arith, b, length-objects_from base size (total size) 0);
        chain = subst (Chain formatted.words (objects_from base size (total size) 0)) (sym head) (
            subst (λ k. Chain formatted.words (objects_from base size k 0) (base + 0 * size))
              some_objects chained);
        once = λ a. omega (arith, objects_once base size (total size) 0 a (omega arith));
        objects = λ a l. IsObject-member a (omega arith);
        all = omega (arith, length-objects_from base size (total size) 0);
      }

  -- Nothing outside the page is written.
  pub format_outside : (a : ℕ) → (a < s) ⊎ (s + 4096 ≤ a) → formatted.words a ≡ h.words a
  unfolding format_slab
  format_outside a (inl l) = header_kept a (omega arith) ∙ ground arith
  format_outside a (inr u) =
      let b = total_bounds size big small in
      let end : base + (0 + last) * size ≤ a = grind arith in
      let ne : (base + last * size == a) ≡ false = grind arith in
      rw ne (link_above base size last 0 headed a end (omega arith) ∙ ground arith)

  pub format_same : SameRest formatted h
  unfolding format_slab
  format_same = link_same base size last 0 headed

-- A page that `slab_alloc_page` has formatted is a slab of its class in which all the objects that fit
-- are free, in ascending order, and none is live.
pub format_slab-Slab :
    (s size : ℕ) (h : Heap)
    → s % 4096 ≡ 0
    → 16 ≤ size
    → size ≤ 4032
    → Slab (format_slab s size h) s size (objects_from (s + 64) size (4032 / size) 0) []
format_slab-Slab s size h page big small = formatted-Slab s size h page big small
