-- ===== src/Str/Copy.antt =====
-- strncpy of lib/string.c writes one byte too many when the string is shorter than the count.
use lithium_kernel.Prelude.{
  ℕ, zero, suc, ◌+◌, ◌-◌, ◌<◌, ◌≡◌, refl, sym, ap, ◌∙◌, ◌≢◌, ◌⊎◌, inl, inr, true, false, ◌&&◌,
  arith, ltb, leb, ◌==◌, if◌then◌else◌, Bool-cases, update,
}
use lithium_kernel.Str.{Bytes, zero_fill, strncpy}

-- The string at `src` has `len` bytes before its terminator.
pub record IsString (m : Bytes) (src len : ℕ) : Type 0 where
  pub bytes : (i : ℕ) → i < len → m (src + i) ≢ 0
  pub terminator : m (src + len) ≡ 0

zero_fill_lem :
    (m : Bytes) (d n a : ℕ) → zero_fill m d n a ≡ (if leb d a && ltb a (d + n) then 0 else m a)
unfolding zero_fill
zero_fill_lem m d zero a = ground arith
zero_fill_lem m d (suc n) a = zero_fill_lem (update m d 0) (d + 1) n a ∙ ground arith

-- The bytes after a copy that has written zeros from the end of the string to the end of `n` bytes
-- and one more.
abbrev pub padded : Bytes → ℕ → ℕ → ℕ → ℕ → ℕ → ℕ
padded m dst src len n a =
    if leb dst a && ltb a (dst + len)
    then m (src + (a - dst))
    else if leb (dst + len) a && leb a (dst + n)
    then 0
    else m a

pub padded-step :
    (m : Bytes) (dst src len n a : ℕ)
    → (dst + suc n < src) ⊎ (src + suc len < dst)
    → padded (update m dst (m src)) (dst + 1) (src + 1) len n a
      ≡ padded m dst src (suc len) (suc n) a
padded-step m dst src len n a apart = elim (Bool-cases (leb (dst + 1) a && ltb a (dst + 1 + len))) [
  | inl e ↦
      let index : src + 1 + (a - (dst + 1)) ≡ src + (a - dst) = ground (arith, e) in
      let other : (dst == src + (a - dst)) ≡ false = ground (arith, e, apart) in
      let inside : (leb dst a && ltb a (dst + suc len)) ≡ true = ground (arith, e) in
      rw (e, index, other, inside) refl
  | inr e ↦ elim (Bool-cases (dst == a)) [
    | inl q ↦
        let index : src ≡ src + (a - dst) = ground (arith, q) in
        let inside : (leb dst a && ltb a (dst + suc len)) ≡ true = ground (arith, q) in
        let before : (leb (dst + 1 + len) a && leb a (dst + 1 + n)) ≡ false = ground (arith, q) in
        rw (e, q, inside, before) (ap m index)
    | inr q ↦
        let outside : (leb dst a && ltb a (dst + suc len)) ≡ false = ground (arith, e, q) in
        let same : (leb (dst + suc len) a && leb a (dst + suc n))
            ≡ (leb (dst + 1 + len) a && leb a (dst + 1 + n)) =
          ground arith in
        rw (e, q, outside, same) refl
  ]
]

-- The rest of the string, one byte further on.
pub tail-IsString :
    (m : Bytes) (dst src len n : ℕ)
    → IsString m src (suc len)
    → (dst + suc n < src) ⊎ (src + suc len < dst)
    → IsString (update m dst (m src)) (src + 1) len
tail-IsString m dst src len n s apart = record {
  bytes = λ i l z.
      let other : (dst == src + 1 + i) ≡ false = ground (arith, apart) in
      let index : src + suc i ≡ src + 1 + i = omega arith in
      s.bytes (suc i) (omega arith) (ap m index ∙ sym (rw other refl) ∙ z);
  terminator =
      let other : (dst == src + 1 + len) ≡ false = ground (arith, apart) in
      let index : src + 1 + len ≡ src + suc len = omega arith in
      rw other (ap m index ∙ s.terminator);
}

-- For a string of fewer than `n` bytes that lies apart from the destination, `strncpy` copies its
-- bytes and then writes zeros up to and with the byte at `dst + n`, one more than the `n` bytes it
-- is given.
pub strncpy_short :
    (m : Bytes) (dst src len n a : ℕ)
    → IsString m src len
    → len < n
    → (dst + n < src) ⊎ (src + len < dst)
    → strncpy m dst src n a ≡ padded m dst src len n a
unfolding strncpy
strncpy_short m dst src len zero a s short apart = absurd (omega arith)
strncpy_short m dst src zero (suc n) a s short apart =
    let here : src + 0 ≡ src = omega arith in
    let end : m src ≡ 0 = ap m (sym here) ∙ s.terminator in
    rw end (zero_fill_lem (update m dst 0) (dst + 1) (suc n) a ∙ ground arith)
strncpy_short m dst src (suc len) (suc n) a s short apart =
    let here : src + 0 ≡ src = omega arith in
    let more : (m src == 0) ≡ false = ground (arith, here, s.bytes 0 (omega arith)) in
    let apart' : (dst + 1 + n < src + 1) ⊎ (src + 1 + len < dst + 1) = elim apart [
      | inl l ↦ inl (omega arith)
      | inr l ↦ inr (omega arith)
    ] in
    rw more (
      strncpy_short (update m dst (m src)) (dst + 1) (src + 1) len n a
        (tail-IsString m dst src len n s apart) (omega arith) apart'
      ∙ padded-step m dst src len n a apart)
