-- ===== src/Str/Move.antt =====
-- memset, memcpy and memmove of lib/string.c.
use lithium_kernel.Prelude.{
  ℕ, zero, suc, ◌+◌, ◌-◌, ◌%◌, ◌≤◌, ◌≡◌, refl, sym, ap, ◌∙◌, ◌⊎◌, inl, inr, true, false, ◌&&◌,
  arith, ltb, leb, ◌==◌, if◌then◌else◌, Bool-cases, update,
}
use lithium_kernel.Str.{Bytes, memset, memcpy, move_back, memmove}

-- The byte at `a` after `n` bytes have come from `src` to `dst`.
abbrev pub moved : Bytes → ℕ → ℕ → ℕ → ℕ → ℕ
moved m dst src n a = if leb dst a && ltb a (dst + n) then m (src + (a - dst)) else m a

-- `memset` sets the `n` bytes from `dst` on, and no others.
pub memset_lem :
    (m : Bytes) (dst c n a : ℕ)
    → memset m dst c n a ≡ (if leb dst a && ltb a (dst + n) then c % 256 else m a)
unfolding memset
memset_lem m dst c zero a = ground arith
memset_lem m dst c (suc n) a = memset_lem (update m dst (c % 256)) (dst + 1) c n a ∙ ground arith

first_moved :
    (m : Bytes) (dst src n a : ℕ)
    → (dst ≤ src) ⊎ (src + suc n ≤ dst)
    → moved (update m dst (m src)) (dst + 1) (src + 1) n a ≡ moved m dst src (suc n) a
first_moved m dst src n a h = elim (Bool-cases (leb (dst + 1) a && ltb a (dst + 1 + n))) [
  | inl e ↦
      let index : src + 1 + (a - (dst + 1)) ≡ src + (a - dst) = ground (arith, e) in
      let other : (dst == src + (a - dst)) ≡ false = ground (arith, e, h) in
      let inside : (leb dst a && ltb a (dst + suc n)) ≡ true = ground (arith, e) in
      rw (e, index, other, inside) refl
  | inr e ↦ elim (Bool-cases (dst == a)) [
    | inl q ↦
        let index : src + (a - dst) ≡ src = ground (arith, q) in
        let inside : (leb dst a && ltb a (dst + suc n)) ≡ true = ground (arith, q) in
        rw (e, q, inside) (ap m (sym index))
    | inr q ↦
        let outside : (leb dst a && ltb a (dst + suc n)) ≡ false = ground (arith, e, q) in
        rw (e, q, outside) refl
  ]
]

last_moved :
    (m : Bytes) (dst src n a : ℕ)
    → src ≤ dst
    → moved (update m (dst + n) (m (src + n))) dst src n a ≡ moved m dst src (suc n) a
last_moved m dst src n a h = elim (Bool-cases (leb dst a && ltb a (dst + n))) [
  | inl e ↦
      let other : (dst + n == src + (a - dst)) ≡ false = ground (arith, e, h) in
      let inside : (leb dst a && ltb a (dst + suc n)) ≡ true = ground (arith, e) in
      rw (e, other, inside) refl
  | inr e ↦ elim (Bool-cases (dst + n == a)) [
    | inl q ↦
        let index : src + n ≡ src + (a - dst) = ground (arith, q) in
        let inside : (leb dst a && ltb a (dst + suc n)) ≡ true = ground (arith, q) in
        rw (e, q, inside) (ap m index)
    | inr q ↦
        let outside : (leb dst a && ltb a (dst + suc n)) ≡ false = ground (arith, e, q) in
        rw (e, q, outside) refl
  ]
]

-- `memcpy` moves the bytes when no byte that it still has to read is written first: the destination
-- is below the source, or past its end.
pub memcpy_lem :
    (m : Bytes) (dst src n a : ℕ)
    → (dst ≤ src) ⊎ (src + n ≤ dst)
    → memcpy m dst src n a ≡ moved m dst src n a
unfolding memcpy
memcpy_lem m dst src zero a h = ground arith
memcpy_lem m dst src (suc n) a h =
    let rest : (dst + 1 ≤ src + 1) ⊎ (src + 1 + n ≤ dst + 1) = elim h [
      | inl below ↦ inl (omega arith)
      | inr past ↦ inr (omega arith)
    ] in
    memcpy_lem (update m dst (m src)) (dst + 1) (src + 1) n a rest ∙ first_moved m dst src n a h

move_back_lem :
    (m : Bytes) (dst src n a : ℕ) → src ≤ dst → move_back m dst src n a ≡ moved m dst src n a
unfolding move_back
move_back_lem m dst src zero a h = ground arith
move_back_lem m dst src (suc n) a h =
    move_back_lem (update m (dst + n) (m (src + n))) dst src n a h ∙ last_moved m dst src n a h

-- `memmove` moves the bytes as they were, however source and destination overlap, and changes no
-- others.
pub memmove_lem : (m : Bytes) (dst src n a : ℕ) → memmove m dst src n a ≡ moved m dst src n a
unfolding memmove
memmove_lem m dst src n a = elim (Bool-cases (ltb dst src)) [
  | inl e ↦ rw e (memcpy_lem m dst src n a (inl (ground (arith, e))))
  | inr e ↦ rw e (move_back_lem m dst src n a (ground (arith, e)))
]
