-- ===== src/Print/Digits.antt =====
-- The numbers of lib/kprintf.c: a reader of the printed digits gets the number back.
use lithium_kernel.Prelude.{
  ℕ, zero, suc, ◌+◌, ◌-◌, ◌*◌, ◌/◌, ◌%◌, ◌^◌, ◌≤◌, ◌<◌, ◌≡◌, refl, sym, ap, ◌∙◌, ◌≢◌, ◌⊎◌, inl, inr,
  Bool, false, List, [], ◌∷◌, ◌++◌, map, arith, ltb, leb, ◌==◌, if◌then◌else◌, ==→eq, Bool-cases,
  length, replicate, if-both,
}
use mathlib.Core.List.{reverse}
use lithium_kernel.Print.{digit_char, digits, digits_of, print_uint, print_int}

-- The base is 10 or 16.
abbrev pub IsBase : ℕ → Type 0
IsBase base = (base ≡ 10) ⊎ (base ≡ 16)

-- What digits stand for, the lowest first.
pub value : ℕ → List ℕ → ℕ
value base [] = 0
value base (d ∷ ds) = d + base * value base ds

digits-value10 : (fuel n : ℕ) → n < 2 ^ fuel → value 10 (digits fuel 10 n) ≡ n
unfolding digits value
digits-value10 zero n l = ground arith
digits-value10 (suc fuel) n l =
    let power : 2 ^ suc fuel ≡ 2 * 2 ^ fuel = omega arith in
    ground (arith, power, digits-value10 fuel (n / 10))

digits-value16 : (fuel n : ℕ) → n < 2 ^ fuel → value 16 (digits fuel 16 n) ≡ n
unfolding digits value
digits-value16 zero n l = ground arith
digits-value16 (suc fuel) n l =
    let power : 2 ^ suc fuel ≡ 2 * 2 ^ fuel = omega arith in
    ground (arith, power, digits-value16 fuel (n / 16))

quotient-lt : (fuel base n : ℕ) → IsBase base → n < 2 ^ suc fuel → n / base < 2 ^ fuel
quotient-lt fuel base n b l =
    let power : 2 ^ suc fuel ≡ 2 * 2 ^ fuel = omega arith in
    elim b [ inl e ↦ rw e (omega arith) | inr e ↦ rw e (omega arith) ]

small : (base n : ℕ) → IsBase base → n ≢ 0 → n / base ≡ 0 → n % base ≢ 0
small base n b h = elim b [
  | inl e ↦ rw e (λ q z. h (omega arith))
  | inr e ↦ rw e (λ q z. h (omega arith))
]

digits-value : (fuel base n : ℕ) → IsBase base → n < 2 ^ fuel → value base (digits fuel base n) ≡ n
digits-value fuel base n b l = elim b [
  | inl e ↦ rw e (digits-value10 fuel n l)
  | inr e ↦ rw e (digits-value16 fuel n l)
]

-- Digits of the base, and the highest is not 0.
abbrev pub AllDigits : ℕ → List ℕ → Type 0
AllDigits base [] = Unit {0}
AllDigits base (d ∷ ds) = (d < base) × AllDigits base ds

abbrev pub highest : List ℕ → ℕ
highest [] = 0
highest (d ∷ []) = d
highest (d ∷ e ∷ ds) = highest (e ∷ ds)

mod-lt : (base n : ℕ) → IsBase base → n % base < base
mod-lt base n b = elim b [ inl e ↦ rw e (omega arith) | inr e ↦ rw e (omega arith) ]

digits-AllDigits : (fuel base n : ℕ) → IsBase base → AllDigits base (digits fuel base n)
unfolding digits
digits-AllDigits zero base n b = tt
digits-AllDigits (suc fuel) base n b =
    if-both (n == 0) (AllDigits base) tt (mod-lt base n b, digits-AllDigits fuel base (n / base) b)

length-digits : (fuel base n : ℕ) → length (digits fuel base n) ≤ fuel
unfolding digits
length-digits zero base n = omega arith
length-digits (suc fuel) base n = ground (arith, length-digits fuel base (n / base))

highest-cons :
    (d base : ℕ) (ds : List ℕ)
    → (value base ds ≡ 0 → ds ≡ [])
    → (value base ds ≡ 0 → d ≢ 0)
    → (value base ds ≢ 0 → highest ds ≢ 0)
    → highest (d ∷ ds) ≢ 0
unfolding value
highest-cons d base [] a b c = b refl
highest-cons d base (e ∷ ds) a b c = c (λ z. let bad = a z in cc bad)

digits-zero : (fuel base : ℕ) → digits fuel base 0 ≡ []
unfolding digits
digits-zero zero base = refl
digits-zero (suc fuel) base = refl

-- A positive number has no zero in front.
highest-digits :
    (fuel base n : ℕ) → IsBase base → n < 2 ^ fuel → n ≢ 0 → highest (digits fuel base n) ≢ 0
unfolding digits
highest-digits zero base n b l h = absurd (ground (arith, h))
highest-digits (suc fuel) base n b l h =
    let some_n : (n == 0) ≡ false = ground (arith, h) in
    let power : 2 ^ suc fuel ≡ 2 * 2 ^ fuel = omega arith in
    let less : n / base < 2 ^ fuel = quotient-lt fuel base n b l in
    let whole : value base (digits fuel base (n / base)) ≡ n / base =
      digits-value fuel base (n / base) b less in
    rw some_n (
      highest-cons (n % base) base (digits fuel base (n / base))
        (λ z. ap (digits fuel base) (sym whole ∙ z) ∙ digits-zero fuel base)
        (λ z. small base n b h (sym whole ∙ z))
        (λ z. highest-digits fuel base (n / base) b less (λ q. z (whole ∙ q))))

base_pos : (base : ℕ) → IsBase base → 0 < base
base_pos base b = elim b [ inl e ↦ rw e (omega arith) | inr e ↦ rw e (omega arith) ]

nonempty : (base : ℕ) (ds : List ℕ) → value base ds ≢ 0 → 0 < length ds
unfolding value
nonempty base [] h = absurd (h refl)
nonempty base (d ∷ ds) h = omega arith

digits_of_lem :
    (n base : ℕ)
    → IsBase base
    → n < 2 ^ 64
    → let ds = digits_of base n in
      (value base ds ≡ n)
      × AllDigits base ds
      × (0 < length ds)
      × (length ds ≤ 64)
      × (n ≢ 0 → highest ds ≢ 0)
unfolding digits_of value
digits_of_lem n base b l = elim (Bool-cases (n == 0)) [
  | inl e ↦
      let none_left : n ≡ 0 = ==→eq n 0 e in
      rw e (
        omega (arith, none_left),
        (base_pos base b, tt),
        omega arith,
        omega arith,
        λ h. absurd (h none_left),
      )
  | inr e ↦
      let some_n : n ≢ 0 = ground (arith, e) in
      let sound = digits-value 64 base n b l in
      let some_digit : 0 < length (digits 64 base n) =
        nonempty base (digits 64 base n) (λ z. some_n (sym sound ∙ z)) in
      rw e (
        sound,
        digits-AllDigits 64 base n b,
        some_digit,
        length-digits 64 base n,
        highest-digits 64 base n b l,
      )
]

length-map : (f : ℕ → ℕ) (xs : List ℕ) → length (map f xs) ≡ length xs
length-map f [] = refl
length-map f (x ∷ xs) = ap suc (length-map f xs)

print_uint-digits :
    (n base : ℕ) (upper : Bool) (width pad : ℕ)
    → print_uint n base upper width pad
      ≡ replicate (width - length (digits_of base n)) pad
        ++ reverse (map (digit_char upper) (digits_of base n))
unfolding print_uint
print_uint-digits n base upper width pad =
    ap (λ k. replicate (width - k) pad ++ reverse (map (digit_char upper) (digits_of base n)))
      (length-map (digit_char upper) (digits_of base n))

-- `print_uint` of a 64-bit number prints its digits in the base, the highest first: as many as it
-- needs and at most the 64 of its buffer, 0 having one digit, with the filling in front up to the
-- width. The digits stand for the number.
pub print_uint_lem :
    (n base : ℕ) (upper : Bool) (width pad : ℕ)
    → IsBase base
    → n < 2 ^ 64
    → (ds : List ℕ) × (print_uint n base upper width pad
        ≡ replicate (width - length ds) pad ++ reverse (map (digit_char upper) ds))
      × (value base ds ≡ n)
      × AllDigits base ds
      × (0 < length ds)
      × (length ds ≤ 64)
      × (n ≢ 0 → highest ds ≢ 0)
print_uint_lem n base upper width pad b l =
    let ds = digits_of base n in
    let (sound, range, some_digit, room, front) = digits_of_lem n base b l in
    (ds, print_uint-digits n base upper width pad, sound, range, some_digit, room, front)

-- `print_int` of the 64 bits of a signed number prints a number from 0 on as `print_uint` in base 10
-- does, and for a negative one a minus and then, in a width that is one less, what `print_uint`
-- prints for the amount by which it is below 0; -2 ^ 63 is no exception.
pub print_int_lem :
    (n width pad : ℕ)
    → n < 2 ^ 64
    → ((n < 2 ^ 63) × (print_int n width pad ≡ print_uint n 10 false width pad))
      ⊎ ((amount : ℕ) × (n + amount ≡ 2 ^ 64)
          × (amount ≤ 2 ^ 63)
          × (print_int n width pad ≡ b'-' ∷ print_uint amount 10 false (width - 1) pad))
unfolding print_int
print_int_lem n width pad l = elim (Bool-cases (leb (2 ^ 63) n)) [
  | inr e ↦ inl (ground (arith, e), rw e refl)
  | inl e ↦
      let w : (if ltb 0 width then width - 1 else width) ≡ width - 1 = ground arith in
      let high : 2 ^ 63 ≤ n = ground (arith, e) in
      inr (2 ^ 64 - 1 - n + 1, omega arith, omega arith, rw (e, w) refl)
]
