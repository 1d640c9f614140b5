-- ===== src/Pmm/Inv.antt =====
-- The well-formedness of the allocator's variables (kernel/mm/pmm.c), and the part of it that
-- setting one frame used and free keeps.
use lithium_kernel.Prelude.{
  ℕ, suc, ◌≤◌, ◌<◌, ◌≡◌, inl, inr, true, false, arith, Bool-cases, count, count-clear,
}
use lithium_kernel.Pmm.{
  Pmm, max_frames, uint16_max, frame_is_free, frame_set_used, frame_set_free, mark_free, mark_used,
  take_frame,
}
use lithium_kernel.Pmm.Bitmap.{
  HasBytes, is_free-set_used, is_free-set_free, set_used-HasBytes, set_free-HasBytes,
}

-- The free counter counts the clear bits below the total, and a free frame has no reference.
pub record Inv (p : Pmm) : Type 0 where
  pub bytes : HasBytes p.bitmap
  pub bounded : p.total_frames ≤ max_frames
  pub hinted : p.next_hint ≤ p.total_frames
  pub counted : p.free_frames ≡ count (frame_is_free p.bitmap) p.total_frames
  pub unreferenced : (f : ℕ) → frame_is_free p.bitmap f ≡ true → p.refcount f ≡ 0
  pub narrow : (f : ℕ) → p.refcount f ≤ uint16_max

-- Using a free frame takes one from the count.
pub count-set_used :
    (p : ℕ → ℕ) (f n : ℕ)
    → HasBytes p
    → f < n
    → frame_is_free p f ≡ true
    → count (frame_is_free p) n ≡ suc (count (frame_is_free (frame_set_used p f)) n)
count-set_used p f n v l h =
    count-clear (frame_is_free p) (frame_is_free (frame_set_used p f)) f n l h
      (ground (arith, is_free-set_used p f f v))
      (λ i ne. ground (arith, ne, is_free-set_used p f i v))

-- Freeing a used frame adds one.
pub count-set_free :
    (p : ℕ → ℕ) (f n : ℕ)
    → HasBytes p
    → f < n
    → frame_is_free p f ≡ false
    → count (frame_is_free (frame_set_free p f)) n ≡ suc (count (frame_is_free p) n)
count-set_free p f n v l h =
    count-clear (frame_is_free (frame_set_free p f)) (frame_is_free p) f n l
      (ground (arith, is_free-set_free p f f v)) h
      (λ i ne. ground (arith, ne, is_free-set_free p f i v))

pub take_frame-Inv :
    (p : Pmm) (f : ℕ)
    → Inv p
    → f < p.total_frames
    → frame_is_free p.bitmap f ≡ true
    → Inv (take_frame p f)
unfolding take_frame
take_frame-Inv p f v l h = record {
  bytes = set_used-HasBytes p.bitmap f v.bytes;
  bounded = v.bounded;
  hinted = omega arith;
  counted = omega (arith, count-set_used p.bitmap f p.total_frames v.bytes l h, v.counted);
  unreferenced = λ g e. ground (arith, is_free-set_used p.bitmap f g v.bytes, v.unreferenced g);
  narrow = λ g. ground (arith, v.narrow g);
}

-- The loop bodies of the region helpers keep the invariant at a frame below the total.
pub mark_used-Inv : (p : Pmm) (f : ℕ) → Inv p → f < p.total_frames → Inv (mark_used p f)
unfolding mark_used
mark_used-Inv p f v l = elim (Bool-cases (frame_is_free p.bitmap f)) [
  | inr e ↦ rw e v
  | inl e ↦ rw e (record {
    bytes = set_used-HasBytes p.bitmap f v.bytes;
    bounded = v.bounded;
    hinted = v.hinted;
    counted = omega (arith, count-set_used p.bitmap f p.total_frames v.bytes l e, v.counted);
    unreferenced = λ g e'. ground (arith, is_free-set_used p.bitmap f g v.bytes, v.unreferenced g);
    narrow = λ g. ground (arith, v.narrow g);
  })
]

pub mark_free-Inv : (p : Pmm) (f : ℕ) → Inv p → f < p.total_frames → Inv (mark_free p f)
unfolding mark_free
mark_free-Inv p f v l = elim (Bool-cases (frame_is_free p.bitmap f)) [
  | inl e ↦ rw e v
  | inr e ↦ rw e (record {
    bytes = set_free-HasBytes p.bitmap f v.bytes;
    bounded = v.bounded;
    hinted = v.hinted;
    counted = omega (arith, count-set_free p.bitmap f p.total_frames v.bytes l e, v.counted);
    unreferenced = λ g e'. ground (arith, is_free-set_free p.bitmap f g v.bytes, v.unreferenced g);
    narrow = λ g. ground (arith, v.narrow g);
  })
]
