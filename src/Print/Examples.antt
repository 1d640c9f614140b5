-- ===== src/Print/Examples.antt =====
-- The theorems about lib/kprintf.c at 255 and at the least signed number.
use lithium_kernel.Prelude.{
  ℕ, ◌-◌, ◌^◌, ◌≤◌, ◌<◌, ◌≡◌, refl, ◌≢◌, inr, true, List, ◌++◌, map, arith, length, replicate,
}
use lithium_kernel.Print.{digit_char, print_uint}
use lithium_kernel.Print.Digits.{value, AllDigits, highest, print_uint_lem}
use mathlib.Core.List.{reverse}

abbrev demo_number : ℕ
demo_number = 255

abbrev demo_least : ℕ
demo_least = 2 ^ 63

print_uint_lem_example :
    (ds : List ℕ) × (print_uint demo_number 16 true 8 b'0'
      ≡ replicate (8 - length ds) b'0' ++ reverse (map (digit_char true) ds))
    × (value 16 ds ≡ demo_number)
    × AllDigits 16 ds
    × (0 < length ds)
    × (length ds ≤ 64)
    × (demo_number ≢ 0 → highest ds ≢ 0)
print_uint_lem_example = print_uint_lem demo_number 16 true 8 b'0' (inr refl) (omega arith)
