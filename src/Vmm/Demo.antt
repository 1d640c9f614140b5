-- ===== src/Vmm/Demo.antt =====
-- Tables of four levels for one user page, copy on write, for the examples about kernel/mm/vmm.c and
-- kernel/mm/heap.c.
use lithium_kernel.Prelude.{
  ℕ, ◌/◌, ◌%◌, ◌<◌, ◌≡◌, refl, sym, ◌⊎◌, inl, inr, true, false, none, some, List, [], ◌∷◌, arith,
  ◌==◌, if◌then◌else◌, length, Bool-cases, ==→eq,
}
use mathlib.Core.Path.{subst}
use lithium_kernel.Pmm.Demo.{machine, machine_used, machine-Inv}
use lithium_kernel.Vmm.{Vmm, is_present, is_huge, phys_of}
use lithium_kernel.Vmm.Tree.{Place, Tree}

abbrev entry_of : ℕ → ℕ
entry_of t =
    if t == 4096
    then 8195
    else if t == 8192
    then 12291
    else if t == 12288
    then 16387
    else if t == 16384
    then 20997
    else 0

abbrev pub demo : Vmm
demo = record {
  pmm = machine;
  mem = λ t i. if i == 0 then entry_of t else 0;
  cr3 = 4096;
  kheap_next = 0x40000000;
}

abbrev pub demo_place : Place
demo_place t =
    if t == 4096
    then some []
    else if t == 8192
    then some (0 ∷ [])
    else if t == 12288
    then some (0 ∷ 0 ∷ [])
    else if t == 16384
    then some (0 ∷ 0 ∷ 0 ∷ [])
    else none

abbrev At : ℕ → List ℕ → Type 0
At t p =
    ((t ≡ 4096) × (p ≡ []))
    ⊎ (((t ≡ 8192) × (p ≡ 0 ∷ []))
        ⊎ (((t ≡ 12288) × (p ≡ 0 ∷ 0 ∷ [])) ⊎ ((t ≡ 16384) × (p ≡ 0 ∷ 0 ∷ 0 ∷ []))))

demo-At : (t : ℕ) (p : List ℕ) → demo_place t ≡ some p → At t p
demo-At t p h = elim (Bool-cases (t == 4096)) [
  | inl a ↦ inl (==→eq t _ a, ground arith)
  | inr a ↦ elim (Bool-cases (t == 8192)) [
    | inl b ↦ inr (inl (==→eq t _ b, ground arith))
    | inr b ↦ elim (Bool-cases (t == 12288)) [
      | inl c ↦ inr (inr (inl (==→eq t _ c, ground arith)))
      | inr c ↦ elim (Bool-cases (t == 16384)) [
        | inl d ↦ inr (inr (inr (==→eq t _ d, ground arith)))
        | inr d ↦ ground arith
      ]
    ]
  ]
]

only_first : (t i : ℕ) → is_present (demo.mem t i) ≡ true → i ≡ 0
only_first t i h = ground arith

demo_frame : (t : ℕ) (p : List ℕ) → demo_place t ≡ some p → (t % 4096 ≡ 0) × (t < 20480)
demo_frame t p h = elim (demo-At t p h) [
  | inl a ↦ omega arith
  | inr (inl a) ↦ omega arith
  | inr (inr (inl a)) ↦ omega arith
  | inr (inr (inr a)) ↦ omega arith
]

demo_links :
    (t : ℕ) (p : List ℕ)
    → demo_place t ≡ some p
    → length p < 3
    → demo_place (phys_of (demo.mem t 0)) ≡ some (0 ∷ p)
demo_links t p h l = elim (demo-At t p h) [
  | inl (a, b) ↦ rw (a, b) refl
  | inr (inl (a, b)) ↦ rw (a, b) refl
  | inr (inr (inl (a, b))) ↦ rw (a, b) refl
  | inr (inr (inr (a, b))) ↦ absurd (ground arith)
]

demo_plain : (t : ℕ) (p : List ℕ) → demo_place t ≡ some p → is_huge (demo.mem t 0) ≡ false
demo_plain t p h = elim (demo-At t p h) [
  | inl (a, b) ↦ rw a refl
  | inr (inl (a, b)) ↦ rw a refl
  | inr (inr (inl (a, b))) ↦ rw a refl
  | inr (inr (inr (a, b))) ↦ rw a refl
]

pub demo-Tree : Tree 4096 demo_place demo
demo-Tree = record {
  valid = machine-Inv;
  at_root = refl;
  frames = λ t p h. let f = demo_frame t p h in record { aligned = f.0; masked = omega arith };
  in_use = λ t p h. machine_used (t / 4096) (omega (arith, demo_frame t p h));
  links = λ t i p h l there small.
      subst (λ x. demo_place (phys_of (demo.mem t x)) ≡ some (x ∷ p)) (sym (only_first t i there))
        (demo_links t p h l);
  plain = λ t i p h l there.
      subst (λ x. is_huge (demo.mem t x) ≡ false) (sym (only_first t i there)) (demo_plain t p h);
}
