-- ===== src/Heap/Slab.antt =====
-- One slab page of kernel/mm/heap.c: what its header and its embedded list say of its objects, and that
-- taking and giving back an object keeps it.
pub mod Format
use lithium_kernel.Prelude.{
  ℕ, zero, suc, ◌+◌, ◌-◌, ◌*◌, ◌/◌, ◌%◌, ◌^◌, ◌≤◌, ◌<◌, ◌≡◌, refl, sym, ap, ◌∙◌, inl, inr, true,
  false, List, [], ◌∷◌, arith, ◌==◌, if◌then◌else◌, length, update, Bool-cases, ==→eq,
}
use mathlib.Core.Path.{subst}
use lithium_kernel.Heap.{
  Heap, slab_magic, magic, obj_size, free_count, free_list, store, set_free_count, take_object,
  give_object, slab_of,
}

-- How often an address stands in a list.
unfoldable pub count_of : ℕ → List ℕ → ℕ
count_of a [] = 0
count_of a (x ∷ xs) = (if x == a then 1 else 0) + count_of a xs

unfoldable pub remove : ℕ → List ℕ → List ℕ
remove p [] = []
remove p (x ∷ xs) = if x == p then xs else x ∷ remove p xs

-- The list embedded in the words from the pointer on.
abbrev pub Chain : (ℕ → ℕ) → List ℕ → ℕ → Type 0
Chain w [] p = p ≡ 0
Chain w (o ∷ os) p = (p ≡ o) × Chain w os (w o)

-- An object of the page at `s`, which ends inside the page.
pub record IsObject (s size o : ℕ) : Type 0 where
  pub number : ℕ
  pub at : o ≡ s + 64 + number * size
  pub inside : number * size + size ≤ 4032

-- The slab at `s`: its free objects in the order of the list, and the live ones.
pub record Slab (h : Heap) (s size : ℕ) (free live : List ℕ) : Type 0 where
  pub page : s % 4096 ≡ 0
  pub big : 16 ≤ size
  pub is_slab : magic h s ≡ slab_magic
  pub sized : obj_size h s ≡ size
  pub counted : free_count h s ≡ length free
  pub chain : Chain h.words free (free_list h s)
  pub once : (a : ℕ) → count_of a free + count_of a live ≤ 1
  pub objects : (a : ℕ) → 0 < count_of a free + count_of a live → IsObject s size a
  pub all : length free + length live ≡ 4032 / size

pub Chain-agree :
    (w w' : ℕ → ℕ) (os : List ℕ) (p : ℕ)
    → ((a : ℕ) → 0 < count_of a os → w' a ≡ w a)
    → Chain w os p
    → Chain w' os p
unfolding count_of
Chain-agree w w' [] p h c = c
Chain-agree w w' (o ∷ os) p h (e, c) =
    (e, Chain-agree w w' os (w' o) (λ a l. h a (omega arith)) (rw (h o (ground arith)) c))

pub length-remove :
    (p : ℕ) (xs : List ℕ) → 0 < count_of p xs → length xs ≡ suc (length (remove p xs))
unfolding count_of remove
length-remove p [] h = elim h [ ]
length-remove p (x ∷ xs) h = elim (Bool-cases (x == p)) [
  | inl e ↦ rw e refl
  | inr e ↦ ground (arith, length-remove p xs)
]

pub count-remove :
    (p a : ℕ) (xs : List ℕ)
    → 0 < count_of p xs
    → count_of a xs ≡ (if p == a then 1 else 0) + count_of a (remove p xs)
unfolding count_of remove
count-remove p a [] h = elim h [ ]
count-remove p a (x ∷ xs) h = elim (Bool-cases (x == p)) [
  | inl e ↦ rw e (ground (arith, ==→eq x p e))
  | inr e ↦ ground (arith, count-remove p a xs)
]

-- The bounds of an object.
pub IsObject-bounds : (s size o : ℕ) → IsObject s size o → (s + 64 ≤ o) × (o + size ≤ s + 4096)
IsObject-bounds s size o i = omega (arith, i.at, i.inside)

pub slab_of-IsObject : (s size o : ℕ) → s % 4096 ≡ 0 → 16 ≤ size → IsObject s size o → slab_of o ≡ s
slab_of-IsObject s size o p b i = omega (arith, IsObject-bounds s size o i)

-- `kmalloc` from a slab with a free object returns the first of its list, which is then live.
pub take_object-Slab :
    (h : Heap) (s size o : ℕ) (free live : List ℕ)
    → Slab h s size (o ∷ free) live
    → ((take_object s h).0 ≡ o) × Slab (take_object s h).1 s size free (o ∷ live)
unfolding take_object count_of
take_object-Slab h s size o free live v =
    let h' = (take_object s h).1 in
    let head : free_list h' s ≡ h.words o = ground (arith, v.chain.0) in
    (
      v.chain.0,
      record {
        page = v.page;
        big = v.big;
        is_slab = ground (arith, v.is_slab);
        sized = ground (arith, v.sized);
        counted = ground (arith, v.counted);
        chain = subst (Chain h'.words free) (sym head) (
            Chain-agree h.words h'.words free (h.words o)
              (λ a l. ground (arith, IsObject-bounds s size a (v.objects a (ground arith))))
              v.chain.1);
        once = λ a. omega (arith, v.once a);
        objects = λ a l. v.objects a (omega arith);
        all = omega (arith, v.all);
      },
    )

-- `kfree` of a live object of a slab makes it the first free one.
pub give_object-Slab :
    (h : Heap) (s size p : ℕ) (free live : List ℕ)
    → Slab h s size free live
    → 0 < count_of p live
    → Slab (give_object s p h) s size (p ∷ free) (remove p live)
unfolding give_object count_of
give_object-Slab h s size p free live v m =
    let h' = give_object s p h in
    let b = IsObject-bounds s size p (v.objects p (omega arith)) in
    let few : length free < 4032 = omega (arith, v.all, length-remove p live m, v.big) in
    record {
      page = v.page;
      big = v.big;
      is_slab = ground (arith, v.is_slab, b);
      sized = ground (arith, v.sized, b);
      counted = ground (arith, v.counted, b, few);
      chain = (
        ground (arith, b),
        subst (Chain h'.words free) (sym (ground (arith, b))) (
            Chain-agree h.words h'.words free (free_list h s)
              (λ a l.
                ground (arith, IsObject-bounds s size a (v.objects a (omega arith)), v.once p, b))
              v.chain),
      );
      once = λ a. omega (arith, v.once a, count-remove p a live m);
      objects = λ a l. v.objects a (omega (arith, count-remove p a live m));
      all = omega (arith, v.all, length-remove p live m);
    }
