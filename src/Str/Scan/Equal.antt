-- ===== src/Str/Scan/Equal.antt =====
-- strlen, memcmp and strcmp of lib/string.c at strings that end.
use lithium_kernel.Prelude.{
  ℕ, zero, suc, ◌+◌, ◌<◌, ◌≡◌, refl, sym, ap, ◌∙◌, ◌≢◌, ◌↔◌, inl, inr, true, false, not, ◌&&◌, some,
  arith, ◌==◌, Bool-cases, ==→eq,
}
use mathlib.Core.Path.{subst}
use lithium_kernel.Str.{Bytes}
use lithium_kernel.Str.Copy.{IsString}
use lithium_kernel.Str.Scan.{ℤ, pos, difference, memcmp, strlen_from, strlen, strcmp}

-- The string without its first byte.
pub rest-IsString : (m : Bytes) (s len : ℕ) → IsString m s (suc len) → IsString m (s + 1) len
rest-IsString m s len i = record {
  bytes = λ k l. subst (λ a. m a ≢ 0) (omega arith) (i.bytes (k + 1) (omega arith));
  terminator = subst (λ a. m a ≡ 0) (omega arith) i.terminator;
}

pub first_byte : (m : Bytes) (s len : ℕ) → IsString m s (suc len) → m s ≢ 0
first_byte m s len i = subst (λ a. m a ≢ 0) (omega arith) (i.bytes 0 (omega arith))

pub no_byte : (m : Bytes) (s : ℕ) → IsString m s 0 → m s ≡ 0
no_byte m s i = subst (λ a. m a ≡ 0) (omega arith) i.terminator

strlen_from_lem :
    (m : Bytes) (f s n len : ℕ) → IsString m s len → len < f → strlen_from f m s n ≡ some (n + len)
unfolding strlen_from
strlen_from_lem m zero s n len i l = absurd (omega arith)
strlen_from_lem m (suc f) s n zero i l = let end = no_byte m s i in rw end (ap some (omega arith))
strlen_from_lem m (suc f) s n (suc len) i l =
    let more : (m s == 0) ≡ false = ground (arith, first_byte m s len i) in
    rw more (
      strlen_from_lem m f (s + 1) (n + 1) len (rest-IsString m s len i) (omega arith)
      ∙ ap some (omega arith))

-- strlen of a string with fuel for its terminator gives the number of bytes before it.
pub strlen_lem : (m : Bytes) (f s len : ℕ) → IsString m s len → len < f → strlen f m s ≡ some len
strlen_lem m f s len i l = strlen_from_lem m f s 0 len i l ∙ ap some (omega arith)

difference-same : (p : ℕ) → difference p p ≡ pos 0
difference-same p = ground arith

difference-zero : (p q : ℕ) → difference p q ≡ pos 0 → p ≡ q
difference-zero p q e = ground (arith, e)

abbrev pub IsSame : Bytes → ℕ → ℕ → ℕ → Type 0
IsSame m a b n = (i : ℕ) → i < n → m (a + i) ≡ m (b + i)

IsSame-suc : (m : Bytes) (a b n : ℕ) → m a ≡ m b → IsSame m (a + 1) (b + 1) n → IsSame m a b (suc n)
IsSame-suc m a b n e same zero l =
    let at_a : a + 0 ≡ a = omega arith in let at_b : b + 0 ≡ b = omega arith in rw (at_a, at_b) e
IsSame-suc m a b n e same (suc i) l =
    let at_a : a + suc i ≡ a + 1 + i = omega arith in
    let at_b : b + suc i ≡ b + 1 + i = omega arith in rw (at_a, at_b) (same i (omega arith))

IsSame-first : (m : Bytes) (a b n : ℕ) → IsSame m a b (suc n) → m a ≡ m b
IsSame-first m a b n same =
    let at_a : a ≡ a + 0 = omega arith in
    let at_b : b ≡ b + 0 = omega arith in ap m at_a ∙ same 0 (omega arith) ∙ ap m (sym at_b)

IsSame-rest : (m : Bytes) (a b n : ℕ) → IsSame m a b (suc n) → IsSame m (a + 1) (b + 1) n
IsSame-rest m a b n same i l =
    let at_a : a + 1 + i ≡ a + suc i = omega arith in
    let at_b : b + 1 + i ≡ b + suc i = omega arith in rw (at_a, at_b) (same (suc i) (omega arith))

memcmp-same : (m : Bytes) (a b n : ℕ) → IsSame m a b n → memcmp m a b n ≡ pos 0
unfolding memcmp
memcmp-same m a b zero same = refl
memcmp-same m a b (suc n) same =
    let equal : (m a == m b) ≡ true = ground (arith, IsSame-first m a b n same) in
    rw equal (memcmp-same m (a + 1) (b + 1) n (IsSame-rest m a b n same))

memcmp-zero : (m : Bytes) (a b n : ℕ) → memcmp m a b n ≡ pos 0 → IsSame m a b n
unfolding memcmp
memcmp-zero m a b zero e = λ i l. absurd (omega arith)
memcmp-zero m a b (suc n) e = elim (Bool-cases (m a == m b)) [
  | inl equal ↦
      IsSame-suc m a b n (==→eq (m a) (m b) equal)
        (memcmp-zero m (a + 1) (b + 1) n (sym (rw equal refl) ∙ e))
  | inr differ ↦
      absurd (ground (arith, differ, difference-zero (m a) (m b) (sym (rw differ refl) ∙ e)))
]

-- memcmp gives 0 exactly where all the bytes of the two operands are the same.
pub memcmp_lem : (m : Bytes) (a b n : ℕ) → (memcmp m a b n ≡ pos 0) ↔ IsSame m a b n
memcmp_lem m a b n = (memcmp-zero m a b n, memcmp-same m a b n)

-- What strcmp of two strings says with the int it returns.
abbrev Says : Bytes → ℕ → ℕ → ℕ → ℕ → ℤ → Type 0
Says m a b la lb z = (z ≡ pos 0) ↔ ((la ≡ lb) × IsSame m a b la)

strcmp-stop :
    (m : Bytes) (f a b : ℕ)
    → (not (m a == 0) && (m a == m b)) ≡ false
    → strcmp (suc f) m a b ≡ some (difference (m a) (m b))
unfolding strcmp
strcmp-stop m f a b e = rw e refl

strcmp-next :
    (m : Bytes) (f a b : ℕ)
    → (not (m a == 0) && (m a == m b)) ≡ true
    → strcmp (suc f) m a b ≡ strcmp f m (a + 1) (b + 1)
unfolding strcmp
strcmp-next m f a b e = rw e refl

-- At bytes that differ the loop stops.
differs :
    (m : Bytes) (f a b la lb : ℕ)
    → m a ≢ m b
    → (la ≡ lb → IsSame m a b la → m a ≡ m b)
    → (z : ℤ) × (strcmp (suc f) m a b ≡ some z) × Says m a b la lb z
differs m f a b la lb ne equal =
    let stop : (not (m a == 0) && (m a == m b)) ≡ false = ground (arith, ne) in
    (
      difference (m a) (m b),
      strcmp-stop m f a b stop,
      (
        (λ z. absurd (ne (difference-zero (m a) (m b) z))),
        (λ same. absurd (ne (equal same.0 same.1))),
      ),
    )

Says-suc :
    (m : Bytes) (a b la lb : ℕ) (z : ℤ)
    → m a ≡ m b
    → Says m (a + 1) (b + 1) la lb z
    → Says m a b (suc la) (suc lb) z
Says-suc m a b la lb z e says = (
  (λ zero_there.
      let (lengths, same) = says.0 zero_there in (ap suc lengths, IsSame-suc m a b la e same)),
  (λ same. says.1 (ground (arith, same.0), IsSame-rest m a b la same.1)),
)

-- strcmp of two strings, with fuel for the first, returns, and gives 0 exactly where the strings have the same
-- length and the same bytes.
pub strcmp_lem :
    (m : Bytes) (f a b la lb : ℕ)
    → IsString m a la
    → IsString m b lb
    → la < f
    → (z : ℤ) × (strcmp f m a b ≡ some z) × ((z ≡ pos 0) ↔ ((la ≡ lb) × IsSame m a b la))
strcmp_lem m zero a b la lb i j l = absurd (omega arith)
strcmp_lem m (suc f) a b zero zero i j l =
    let stop : (not (m a == 0) && (m a == m b)) ≡ false = ground (arith, no_byte m a i) in
    let zero_there =
      ap (λ x. difference x (m b)) (no_byte m a i ∙ sym (no_byte m b j)) ∙ difference-same (m b) in
    (
      difference (m a) (m b),
      strcmp-stop m f a b stop,
      ((λ z. (refl, (λ k l. absurd (omega arith)))), (λ same. zero_there)),
    )
strcmp_lem m (suc f) a b zero (suc lb) i j l =
    differs m f a b zero (suc lb) (λ e. first_byte m b lb j (sym e ∙ no_byte m a i))
      (λ lengths same. absurd (omega arith))
strcmp_lem m (suc f) a b (suc la) zero i j l =
    differs m f a b (suc la) zero (λ e. first_byte m a la i (e ∙ no_byte m b j))
      (λ lengths same. absurd (omega arith))
strcmp_lem m (suc f) a b (suc la) (suc lb) i j l = elim (Bool-cases (m a == m b)) [
  | inr differ ↦
      differs m f a b (suc la) (suc lb) (ground (arith, differ))
        (λ lengths same. IsSame-first m a b la same)
  | inl equal ↦
      let next : (not (m a == 0) && (m a == m b)) ≡ true =
        ground (arith, equal, first_byte m a la i) in
      let (z, e, says) =
        strcmp_lem m f (a + 1) (b + 1) la lb (rest-IsString m a la i) (rest-IsString m b lb j)
          (omega arith) in
      (z, strcmp-next m f a b next ∙ e, Says-suc m a b la lb z (==→eq (m a) (m b) equal) says)
]
