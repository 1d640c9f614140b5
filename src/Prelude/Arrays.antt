-- ===== src/Prelude/Arrays.antt =====
-- C arrays as functions from their index, a counter over such an array, and KASSERT.
use Prim.Native.Nat.{ℕ, zero, suc, ◌+◌, ◌≤◌, ◌<◌}
use mathlib.Core.Path.{◌≡◌, refl, ap}
use mathlib.Core.Bool.{Bool, true, false}
use native.Mathlib.Omega.{arith}
use mathlib.Core.Logic.{inl, inr}
use lithium_kernel.Prelude.Tests.{◌==◌, if◌then◌else◌, Bool-cases}

-- `a[i] = v`
abbrev pub update {ℓ} : {A : Type ℓ} → (ℕ → A) → ℕ → A → ℕ → A
update a i v j = if i == j then v else a j

-- What a call leaves: a result, or a halt in `_kassert_fail` or `panic`.
pub data Outcome {ℓ} (A : Type ℓ) : Type ℓ where
  ok : A → Outcome A
  halted : Outcome A

-- `KASSERT(b); k`
abbrev pub kassert {ℓ} : {A : Type ℓ} → Bool → Outcome A → Outcome A
kassert true k = k
kassert false k = halted

-- How many indices below `n` pass the test.
unfoldable pub count : (ℕ → Bool) → ℕ → ℕ
count p zero = 0
count p (suc n) = (if p n then 1 else 0) + count p n

pub ==→eq : (a b : ℕ) → (a == b) ≡ true → a ≡ b
==→eq a b h = ground arith

-- Two tests that agree below `n` count alike.
pub count-congr : (p q : ℕ → Bool) (n : ℕ) → ((i : ℕ) → i < n → p i ≡ q i) → count p n ≡ count q n
unfolding count
count-congr p q zero h = refl
count-congr p q (suc n) h =
    ground (arith, h n (omega arith), count-congr p q n (λ i l. h i (omega arith)))

-- Clearing one index that passed takes one from the count.
pub count-clear :
    (p q : ℕ → Bool) (k n : ℕ)
    → k < n
    → p k ≡ true
    → q k ≡ false
    → ((i : ℕ) → (k == i) ≡ false → q i ≡ p i)
    → count p n ≡ suc (count q n)
unfolding count
count-clear p q k zero l a b h = elim l [ ]
count-clear p q k (suc n) l a b h = elim (Bool-cases (k == n)) [
  | inl e ↦ ground (
    arith,
    ap p (==→eq k n e),
    ap q (==→eq k n e),
    count-congr q p n (λ i l'. h i (ground (arith, ==→eq k n e))),
  )
  | inr e ↦ rw (h n e) (omega (arith, count-clear p q k n (ground arith) a b h))
]

pub count-pos : (p : ℕ → Bool) (k n : ℕ) → k < n → p k ≡ true → 0 < count p n
unfolding count
count-pos p k zero l a = elim l [ ]
count-pos p k (suc n) l a = elim (Bool-cases (k == n)) [
  | inl e ↦ ground (arith, ap p (==→eq k n e))
  | inr e ↦ ground (arith, count-pos p k n)
]

-- A positive count has an index that passes.
pub count_witness : (p : ℕ → Bool) (n : ℕ) → 0 < count p n → (k : ℕ) × (k < n) × (p k ≡ true)
unfolding count
count_witness p zero h = elim h [ ]
count_witness p (suc n) h = elim (Bool-cases (p n)) [
  | inl e ↦ (n, omega arith, e)
  | inr e ↦ let (k, l, q) = count_witness p n (ground arith) in (k, omega arith, q)
]

pub count-le : (p : ℕ → Bool) (n : ℕ) → count p n ≤ n
unfolding count
count-le p zero = omega arith
count-le p (suc n) = ground (arith, count-le p n)
