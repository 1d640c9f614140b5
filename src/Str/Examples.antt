-- ===== src/Str/Examples.antt =====
-- The theorems about lib/string.c at a memory that holds a string of two bytes.
use lithium_kernel.Prelude.{ℕ, ◌+◌, ◌↔◌, some, ◌≡◌, refl, inl, arith, ◌==◌, if◌then◌else◌}
use lithium_kernel.Str.{Bytes, memmove, strncpy}
use lithium_kernel.Str.Move.{moved, memmove_lem}
use lithium_kernel.Str.Copy.{IsString, padded, strncpy_short}
use lithium_kernel.Str.Scan.{ℤ, pos, strcmp, strcat}
use lithium_kernel.Str.Scan.Equal.{IsSame, strcmp_lem}
use lithium_kernel.Str.Scan.Append.{strcat_lem}

-- The string `ab` at address 100.
abbrev demo_bytes : Bytes
demo_bytes = λ i. if i == 100 then b'a' else if i == 101 then b'b' else 0

demo-IsString : IsString demo_bytes 100 2
demo-IsString = record { bytes = λ i l. ground arith; terminator = refl }

memmove_lem_example : memmove demo_bytes 101 100 2 102 ≡ moved demo_bytes 101 100 2 102
memmove_lem_example = memmove_lem demo_bytes 101 100 2 102

strncpy_short_example : strncpy demo_bytes 10 100 4 14 ≡ padded demo_bytes 10 100 2 4 14
strncpy_short_example =
    strncpy_short demo_bytes 10 100 2 4 14 demo-IsString (omega arith) (inl (omega arith))

-- The end of the string, an empty string.
empty-IsString : IsString demo_bytes 50 0
empty-IsString = record { bytes = λ i l. absurd (omega arith); terminator = refl }

strcmp_lem_example :
    (z : ℤ) × (strcmp 8 demo_bytes 100 50 ≡ some z)
    × ((z ≡ pos 0) ↔ ((◌≡◌ {A = ℕ} 2 0) × IsSame demo_bytes 100 50 2))
strcmp_lem_example = strcmp_lem demo_bytes 8 100 50 2 0 demo-IsString empty-IsString (omega arith)

strcat_lem_example :
    (m' : Bytes) × (strcat 8 demo_bytes 50 100 ≡ some m')
    × IsString m' 50 (0 + 2)
    × ((a : ℕ) → m' a ≡ padded demo_bytes (50 + 0) 100 2 2 a)
strcat_lem_example =
    strcat_lem demo_bytes 8 50 100 0 2 empty-IsString demo-IsString (omega arith) (omega arith)
      (inl (omega arith))
