-- ===== src/Pmm/Boot/Regions.antt =====
-- region_mark_free and region_mark_used of kernel/mm/pmm.c: which frames are free afterwards.
use lithium_kernel.Prelude.{
  ℕ, zero, suc, ◌+◌, ◌-◌, ◌*◌, ◌/◌, ◌%◌, ◌^◌, ◌≤◌, ◌<◌, min, ◌≡◌, refl, ap, ◌∙◌, ◌≢◌, inl, inr,
  Bool, true, false, ◌&&◌, arith, ltb, leb, ◌==◌, if◌then◌else◌, ==→eq, Bool-cases,
}
use lithium_kernel.Pmm.{
  Pmm, frame_size, frame_is_free, mark_free, mark_used, mark_free_from, mark_used_from,
  region_mark_free, region_mark_used, add64, frames_up,
}
use lithium_kernel.Pmm.Bitmap.{is_free-set_used, is_free-set_free}
use lithium_kernel.Pmm.Inv.{Inv, mark_used-Inv, mark_free-Inv}

-- The frames `first ≤ g < last` below the total now answer `answer`, the others as before.
pub record Marked (p : Pmm) (first last : ℕ) (answer : Bool) (q : Pmm) : Type 0 where
  pub valid : Inv q
  pub total : q.total_frames ≡ p.total_frames
  pub hint : q.next_hint ≡ p.next_hint
  pub marked :
      (g : ℕ)
      → frame_is_free q.bitmap g ≡ (
          if leb first g && ltb g (min last p.total_frames)
          then answer
          else frame_is_free p.bitmap g)

mark_free-Marked :
    (p : Pmm) (f : ℕ) → Inv p → f < p.total_frames → Marked p f (f + 1) true (mark_free p f)
unfolding mark_free
mark_free-Marked p f v l = record {
  valid = mark_free-Inv p f v l;
  total = ground arith;
  hint = ground arith;
  marked = λ g. elim (Bool-cases (f == g)) [
    | inl e ↦
        ground
          (arith, is_free-set_free p.bitmap f g v.bytes, ap (frame_is_free p.bitmap) (==→eq f g e))
    | inr e ↦ ground (arith, e, is_free-set_free p.bitmap f g v.bytes)
  ];
}

mark_used-Marked :
    (p : Pmm) (f : ℕ) → Inv p → f < p.total_frames → Marked p f (f + 1) false (mark_used p f)
unfolding mark_used
mark_used-Marked p f v l = record {
  valid = mark_used-Inv p f v l;
  total = ground arith;
  hint = ground arith;
  marked = λ g. elim (Bool-cases (f == g)) [
    | inl e ↦
        ground
          (arith, is_free-set_used p.bitmap f g v.bytes, ap (frame_is_free p.bitmap) (==→eq f g e))
    | inr e ↦ ground (arith, e, is_free-set_used p.bitmap f g v.bytes)
  ];
}

Marked-trans :
    (p q r : Pmm) (f k : ℕ) (answer : Bool)
    → f + suc k ≤ p.total_frames
    → Marked p f (f + 1) answer q
    → Marked q (f + 1) (f + 1 + k) answer r
    → Marked p f (f + suc k) answer r
Marked-trans p q r f k answer l a b = record {
  valid = b.valid;
  total = b.total ∙ a.total;
  hint = b.hint ∙ a.hint;
  marked = λ g. ground (arith, b.marked g, a.marked g, a.total);
}

Marked-none : (p : Pmm) (f : ℕ) (answer : Bool) → Inv p → Marked p f (f + 0) answer p
Marked-none p f answer v = record {
  valid = v;
  total = refl;
  hint = refl;
  marked = λ g. ground arith;
}

mark_free_from-Marked :
    (p : Pmm) (k f : ℕ)
    → Inv p
    → f + k ≤ p.total_frames
    → Marked p f (f + k) true (mark_free_from p k f)
unfolding mark_free_from
mark_free_from-Marked p zero f v l = Marked-none p f true v
mark_free_from-Marked p (suc k) f v l =
    let a = mark_free-Marked p f v (omega arith) in
    Marked-trans p (mark_free p f) _ f k true l a
      (mark_free_from-Marked (mark_free p f) k (f + 1) a.valid (omega (arith, a.total)))

mark_used_from-Marked :
    (p : Pmm) (k f : ℕ)
    → Inv p
    → f + k ≤ p.total_frames
    → Marked p f (f + k) false (mark_used_from p k f)
unfolding mark_used_from
mark_used_from-Marked p zero f v l = Marked-none p f false v
mark_used_from-Marked p (suc k) f v l =
    let a = mark_used-Marked p f v (omega arith) in
    Marked-trans p (mark_used p f) _ f k false l a
      (mark_used_from-Marked (mark_used p f) k (f + 1) a.valid (omega (arith, a.total)))

-- The loop's rounds are those of the frames in range.
Marked-rounds :
    (p q : Pmm) (first last : ℕ) (answer : Bool)
    → Marked p first (first + (min last p.total_frames - first)) answer q
    → Marked p first last answer q
Marked-rounds p q first last answer m = record {
  valid = m.valid;
  total = m.total;
  hint = m.hint;
  marked = λ g. ground (arith, m.marked g);
}

-- A region that starts beyond the total marks nothing.
Marked-nothing :
    (p : Pmm) (first last : ℕ) (answer : Bool)
    → Inv p
    → min last p.total_frames - first ≡ 0
    → Marked p first last answer p
Marked-nothing p first last answer v e = record {
  valid = v;
  total = refl;
  hint = refl;
  marked = λ g. ground arith;
}

mark_free_range :
    (p : Pmm) (first last : ℕ)
    → Inv p
    → Marked p first last true (mark_free_from p (min last p.total_frames - first) first)
unfolding mark_free_from
mark_free_range p first last v = elim (Bool-cases (leb (min last p.total_frames) first)) [
  | inl e ↦
      let z : min last p.total_frames - first ≡ 0 = ground arith in
      rw (z, mark_free_from) (Marked-nothing p first last true v z)
  | inr e ↦
      Marked-rounds p _ first last true
        (mark_free_from-Marked p (min last p.total_frames - first) first v (ground arith))
]

mark_used_range :
    (p : Pmm) (first last : ℕ)
    → Inv p
    → Marked p first last false (mark_used_from p (min last p.total_frames - first) first)
unfolding mark_used_from
mark_used_range p first last v = elim (Bool-cases (leb (min last p.total_frames) first)) [
  | inl e ↦
      let z : min last p.total_frames - first ≡ 0 = ground arith in
      rw (z, mark_used_from) (Marked-nothing p first last false v z)
  | inr e ↦
      Marked-rounds p _ first last false
        (mark_used_from-Marked p (min last p.total_frames - first) first v (ground arith))
]

-- `region_mark_free` frees exactly the frames from the one that holds `base` up to the last whole
-- one before `base + len` (mod 2^64), below the total; the others, the total and the hint stay, and
-- so does the invariant.
pub region_mark_free_lem :
    (p : Pmm) (base len : ℕ)
    → Inv p
    → Marked p (base / frame_size) (add64 base len / frame_size) true (region_mark_free p base len)
unfolding region_mark_free
region_mark_free_lem p base len v =
    mark_free_range p (base / frame_size) (add64 base len / frame_size) v

-- `region_mark_used` takes exactly the frames that `[base, base + len)` touches (mod 2^64), below
-- the total; the others, the total and the hint stay, and so does the invariant.
pub region_mark_used_lem :
    (p : Pmm) (base len : ℕ)
    → Inv p
    → Marked p (base / frame_size) (frames_up (add64 base len)) false (region_mark_used p base len)
unfolding region_mark_used
region_mark_used_lem p base len v =
    mark_used_range p (base / frame_size) (frames_up (add64 base len)) v

-- `region_mark_free` rounds the start of a region down: for every region whose start is not aligned
-- and that reaches past the end of its first frame, that frame is free afterwards though it begins
-- before the region.
pub region_mark_free_partial :
    (p : Pmm) (base len : ℕ)
    → Inv p
    → base % frame_size ≢ 0
    → base + len < 2 ^ 64
    → base / frame_size < p.total_frames
    → (base / frame_size + 1) * frame_size ≤ base + len
    → (frame_is_free (region_mark_free p base len).bitmap (base / frame_size) ≡ true)
      × (base / frame_size * frame_size < base)
region_mark_free_partial p base len v a w l r =
    (ground (arith, (region_mark_free_lem p base len v).marked (base / frame_size)), omega arith)
