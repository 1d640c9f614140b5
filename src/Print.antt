-- ===== src/Print.antt =====
-- The numbers of lib/kprintf.c: print_uint and print_int, as the characters that they print. The
-- screen and the serial port get each of them.
pub mod Digits
mod Examples
use lithium_kernel.Prelude.{
  ℕ, zero, suc, ◌+◌, ◌-◌, ◌*◌, ◌/◌, ◌%◌, ◌^◌, ◌≤◌, ◌<◌, min, max, ◌≡◌, refl, sym, ap, ◌∙◌, ◌≢◌, ◌↔◌,
  ◌⊎◌, inl, inr, Bool, true, false, not, ◌&&◌, ◌||◌, Option, none, some, List, [], ◌∷◌, ◌++◌, map,
  arith, ltb, leb, ◌==◌, if◌then◌else◌, lt→ltb, ltb→lt, leb→le, ==_iff, ==→eq, Bool-cases,
  Option-cases, update, Outcome, ok, halted, kassert, count, count-congr, count-clear, count-pos,
  count_witness, count-le, length, get_elem?, get_or, set, take, drop, replicate, length-append,
  length-set, get_elem?-set_self, get_elem?-set_ne, take-append-drop, length-take, length-drop,
  length-replicate, take_append, drop_append, take_all,
}
use mathlib.Core.List.{reverse}

-- The table `lo` or `hi`.
pub digit_char : Bool → ℕ → ℕ
digit_char upper d =
    if ltb d 10 then b'0' + d else if upper then b'A' + (d - 10) else b'a' + (d - 10)

-- The loop that fills `buf`, on fuel: the digits, the lowest first.
pub digits : ℕ → ℕ → ℕ → List ℕ
digits zero base n = []
digits (suc fuel) base n = if n == 0 then [] else n % base ∷ digits fuel base (n / base)

-- `buf`; a 64-bit number has at most 64 digits.
pub digits_of : ℕ → ℕ → List ℕ
digits_of base n = if n == 0 then 0 ∷ [] else digits 64 base n

pub print_uint : ℕ → ℕ → Bool → ℕ → ℕ → List ℕ
print_uint n base upper width pad =
    let buf = map (digit_char upper) (digits_of base n) in
    replicate (width - length buf) pad ++ reverse buf

-- `n` is the bits of an `int64_t`: the negative numbers are those from 2 ^ 63 on. The negation of
-- `n` is the 64-bit complement of it.
pub print_int : ℕ → ℕ → ℕ → List ℕ
print_int n width pad =
    if leb (2 ^ 63) n
    then b'-'
      ∷ print_uint ((2 ^ 64 - 1 - n) + 1) 10 false (if ltb 0 width then width - 1 else width) pad
    else print_uint n 10 false width pad
