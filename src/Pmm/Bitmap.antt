-- ===== src/Pmm/Bitmap.antt =====
-- The bitmap of pmm.c as a set of frames: what setting and clearing a frame does to each frame.
use lithium_kernel.Prelude.{
  ℕ, ◌/◌, ◌%◌, ◌<◌, ◌≡◌, ap, inl, inr, true, false, arith, ◌==◌, if◌then◌else◌, Bool-cases, ==→eq,
}
use lithium_kernel.Pmm.{frame_set_used, frame_set_free, frame_is_free}
use lithium_kernel.Pmm.Bits.{is_clear-or, is_clear-and, set_bit-lt}

-- Every cell of the bitmap is a byte.
abbrev pub HasBytes : (ℕ → ℕ) → Type 0
HasBytes p = (i : ℕ) → p i < 256

same_frame : (f g : ℕ) → f / 8 ≡ g / 8 → (f % 8 == g % 8) ≡ (f == g)
same_frame f g h = ground arith

other_frame : (f g : ℕ) → (f / 8 == g / 8) ≡ false → (f == g) ≡ false
other_frame f g h = ground arith

pub is_free-set_used :
    (p : ℕ → ℕ) (f g : ℕ)
    → HasBytes p
    → frame_is_free (frame_set_used p f) g ≡ (if f == g then false else frame_is_free p g)
unfolding frame_is_free frame_set_used
is_free-set_used p f g v = elim (Bool-cases (f / 8 == g / 8)) [
  | inl e ↦ ground (
    arith,
    e,
    ap p (==→eq (f / 8) (g / 8) e),
    same_frame f g (==→eq (f / 8) (g / 8) e),
    is_clear-or (p (f / 8)) (f % 8) (g % 8) (v (f / 8)) (omega arith) (omega arith),
  )
  | inr e ↦ rw (e, other_frame f g e)
]

pub is_free-set_free :
    (p : ℕ → ℕ) (f g : ℕ)
    → HasBytes p
    → frame_is_free (frame_set_free p f) g ≡ (if f == g then true else frame_is_free p g)
unfolding frame_is_free frame_set_free
is_free-set_free p f g v = elim (Bool-cases (f / 8 == g / 8)) [
  | inl e ↦ ground (
    arith,
    e,
    ap p (==→eq (f / 8) (g / 8) e),
    same_frame f g (==→eq (f / 8) (g / 8) e),
    is_clear-and (p (f / 8)) (f % 8) (g % 8) (v (f / 8)) (omega arith) (omega arith),
  )
  | inr e ↦ rw (e, other_frame f g e)
]

pub set_used-HasBytes : (p : ℕ → ℕ) (f : ℕ) → HasBytes p → HasBytes (frame_set_used p f)
unfolding frame_set_used
set_used-HasBytes p f v i =
    ground (arith, v i, set_bit-lt (p (f / 8)) (f % 8) (v (f / 8)) (omega arith))

pub set_free-HasBytes : (p : ℕ → ℕ) (f : ℕ) → HasBytes p → HasBytes (frame_set_free p f)
unfolding frame_set_free
set_free-HasBytes p f v i =
    ground (arith, v i, set_bit-lt (p (f / 8)) (f % 8) (v (f / 8)) (omega arith))
