-- ===== src/Pmm/Alloc.antt =====
-- pmm_alloc_frame of kernel/mm/pmm.c: the search over the bitmap, and what a call does.
use lithium_kernel.Prelude.{
  bit_and, ℕ, zero, suc, ◌+◌, ◌-◌, ◌*◌, ◌/◌, ◌%◌, ◌^◌, ◌≤◌, ◌<◌, ◌≡◌, refl, sym, ◌∙◌, ◌⊎◌, inl, inr,
  true, false, Option, none, some, arith, ltb, leb, ◌==◌, if◌then◌else◌, ltb→lt, leb→le, ==→eq,
  Bool-cases, count_witness,
}
use mathlib.Core.Path.{subst₂}
use mathlib.Core.Bool.{false≢true}
use lithium_kernel.Pmm.{
  Pmm, frame_size, frame_is_free, scan_bits, scan_bytes, or_else, find_free, take_frame,
  alloc_frame,
}
use lithium_kernel.Pmm.Bits.{is_clear-full}
use lithium_kernel.Pmm.Bitmap.{is_free-set_used}
use lithium_kernel.Pmm.Inv.{Inv, take_frame-Inv, count-set_used}

-- The answer is the first free frame of `lo ≤ g < hi` below the total, or there is none.
abbrev pub FirstFree : Pmm → ℕ → ℕ → Option ℕ → Type 0
FirstFree p lo hi none =
    (g : ℕ) → lo ≤ g → g < hi → g < p.total_frames → frame_is_free p.bitmap g ≡ false
FirstFree p lo hi (some f) =
    (lo ≤ f)
    × (f < hi)
    × (f < p.total_frames)
    × (frame_is_free p.bitmap f ≡ true)
    × ((g : ℕ) → lo ≤ g → g < f → frame_is_free p.bitmap g ≡ false)

-- Two neighbouring ranges, searched one after the other.
FirstFree-or_else :
    (p : Pmm) (lo mid hi : ℕ) (a b : Option ℕ)
    → lo ≤ mid
    → mid ≤ hi
    → FirstFree p lo mid a
    → FirstFree p mid hi b
    → FirstFree p lo hi (or_else a b)
FirstFree-or_else p lo mid hi (some f) b h k (l, u, t, e, before) y = (l, omega arith, t, e, before)
FirstFree-or_else p lo mid hi none none h k x y = λ g l u t. elim (Bool-cases (ltb g mid)) [
  | inl c ↦ x g l (ltb→lt g mid c) t
  | inr c ↦ y g (ground arith) u t
]
FirstFree-or_else p lo mid hi none (some f) h k x (l, u, t, e, before) = (
  omega arith,
  u,
  t,
  e,
  λ g l' u'. elim (Bool-cases (ltb g mid)) [
    | inl c ↦ x g l' (ltb→lt g mid c) (omega arith)
    | inr c ↦ before g (ground arith) u'
  ],
)

-- A used frame at the start of a range is passed over.
FirstFree-skip :
    (p : Pmm) (lo mid hi : ℕ) (b : Option ℕ)
    → mid ≡ lo + 1
    → mid ≤ hi
    → frame_is_free p.bitmap lo ≡ false
    → FirstFree p mid hi b
    → FirstFree p lo hi b
FirstFree-skip p lo mid hi b e h used y =
    FirstFree-or_else p lo mid hi none b (omega arith) h
      (λ g l u t. let q : g ≡ lo = omega arith in rw q used) y

-- The test of the inner loop is the test of the frame.
is_free-at :
    (p : Pmm) (byte bit : ℕ)
    → bit < 8
    → frame_is_free p.bitmap (byte * 8 + bit) ≡ (bit_and (p.bitmap byte) (2 ^ bit) == 0)
unfolding frame_is_free
is_free-at p byte bit h =
    let d : (byte * 8 + bit) / 8 ≡ byte = omega arith in
    let r : (byte * 8 + bit) % 8 ≡ bit = omega arith in rw (d, r)

scan_bits-FirstFree :
    (p : Pmm) (byte k bit : ℕ)
    → bit + k ≡ 8
    → FirstFree p (byte * 8 + bit) (byte * 8 + 8) (scan_bits p byte k bit)
unfolding scan_bits
scan_bits-FirstFree p byte zero bit h = λ g l u t. absurd (omega arith)
scan_bits-FirstFree p byte (suc k) bit h = elim (Bool-cases (leb p.total_frames (byte * 8 + bit))) [
  | inl over ↦
      rw (over, scan_bits)
        (λ g l u t. absurd (omega (arith, leb→le p.total_frames (byte * 8 + bit) over)))
  | inr within ↦ elim (Bool-cases (bit_and (p.bitmap byte) (2 ^ bit) == 0)) [
    | inl clear ↦
        rw (within, clear)
          (
            omega arith,
            omega arith,
            ground arith,
            is_free-at p byte bit (omega arith) ∙ clear,
            λ g l u. absurd (omega arith),
          )
    | inr taken ↦
        rw (within, taken)
          (FirstFree-skip p (byte * 8 + bit) (byte * 8 + (bit + 1)) (byte * 8 + 8) _ (omega arith)
            (omega arith) (is_free-at p byte bit (omega arith) ∙ taken)
            (scan_bits-FirstFree p byte k (bit + 1) (omega arith)))
  ]
]

-- A byte of ones is skipped, and has no free frame.
full_byte :
    (p : Pmm) (byte g : ℕ)
    → p.bitmap byte ≡ 255
    → byte * 8 ≤ g
    → g < byte * 8 + 8
    → frame_is_free p.bitmap g ≡ false
unfolding frame_is_free
full_byte p byte g e l u =
    let d : g / 8 ≡ byte = omega arith in rw (d, e) (is_clear-full (g % 8) (omega arith))

FirstFree-cast :
    (p : Pmm) (lo lo' hi hi' : ℕ) (o : Option ℕ)
    → lo ≡ lo'
    → hi ≡ hi'
    → FirstFree p lo hi o
    → FirstFree p lo' hi' o
FirstFree-cast p lo lo' hi hi' o e e' = subst₂ (λ a b. FirstFree p a b o) e e'

scan_byte-FirstFree :
    (p : Pmm) (byte : ℕ) → FirstFree p (byte * 8) (byte * 8 + 8) (scan_bits p byte 8 0)
scan_byte-FirstFree p byte =
    FirstFree-cast p (byte * 8 + 0) (byte * 8) (byte * 8 + 8) (byte * 8 + 8) _ (omega arith) refl
      (scan_bits-FirstFree p byte 8 0 refl)

scan_bytes-FirstFree :
    (p : Pmm) (k byte : ℕ) → FirstFree p (byte * 8) ((byte + k) * 8) (scan_bytes p k byte)
unfolding scan_bytes
scan_bytes-FirstFree p zero byte = λ g l u t. absurd (omega arith)
scan_bytes-FirstFree p (suc k) byte =
    let rest =
      FirstFree-cast p ((byte + 1) * 8) (byte * 8 + 8) ((byte + 1 + k) * 8) ((byte + suc k) * 8)
        (scan_bytes p k (byte + 1)) (omega arith) (omega arith)
        (scan_bytes-FirstFree p k (byte + 1)) in
    elim (Bool-cases (p.bitmap byte == 255)) [
      | inl full ↦ rw full (
          FirstFree-or_else p (byte * 8) (byte * 8 + 8) ((byte + suc k) * 8) none
            (scan_bytes p k (byte + 1)) (omega arith) (omega arith)
            (λ g l u t. full_byte p byte g (==→eq _ _ full) l u) rest)
      | inr some_free ↦ rw some_free (
          FirstFree-or_else p (byte * 8) (byte * 8 + 8) ((byte + suc k) * 8) (scan_bits p byte 8 0)
            (scan_bytes p k (byte + 1)) (omega arith) (omega arith) (scan_byte-FirstFree p byte)
            rest)
    ]

-- The search is next fit: the first free frame from the hint's byte on, or else the first one
-- before it; and no answer means that no frame is free.
abbrev pub NextFit : Pmm → Option ℕ → Type 0
NextFit p none = (g : ℕ) → g < p.total_frames → frame_is_free p.bitmap g ≡ false
NextFit p (some f) =
    let start = p.next_hint / 8 * 8 in
    (f < p.total_frames)
    × (frame_is_free p.bitmap f ≡ true)
    × (start ≤ f → (g : ℕ) → start ≤ g → g < f → frame_is_free p.bitmap g ≡ false)
    × (f < start
        → (g : ℕ) → g < f ⊎ start ≤ g
        → g < p.total_frames
        → frame_is_free p.bitmap g ≡ false)

NextFit-passes :
    (p : Pmm) (start n : ℕ) (a b : Option ℕ)
    → start ≡ p.next_hint / 8
    → p.total_frames ≤ n * 8
    → FirstFree p (start * 8) ((start + (n - start)) * 8) a
    → FirstFree p (0 * 8) ((0 + start) * 8) b
    → NextFit p (or_else a b)
NextFit-passes p start n (some f) b e h (l, u, t, free, before) y =
    (t, free, λ s g l' u'. before g (omega arith) u', λ u'. absurd (omega arith))
NextFit-passes p start n none none e h x y = λ g t. elim (Bool-cases (ltb g (start * 8))) [
  | inl c ↦ y g (omega arith) (ground arith) t
  | inr c ↦ x g (ground arith) (ground arith) t
]
NextFit-passes p start n none (some f) e h x (l, u, t, free, before) = (
  t,
  free,
  λ s. absurd (omega arith),
  λ u' g side g-lt. elim side [
    | inl l' ↦ before g (omega arith) l'
    | inr r ↦ x g (omega arith) (omega arith) g-lt
  ],
)

-- `pmm_alloc_frame` searches next fit: it takes the first free frame from the byte of
-- `pmm_next_hint` on, or else the first free frame, and finds none only if no frame is free.
pub find_free-NextFit : (p : Pmm) → NextFit p (find_free p)
unfolding find_free
find_free-NextFit p =
    NextFit-passes p (p.next_hint / 8) ((p.total_frames + 7) / 8) _ _ refl (omega arith)
      (scan_bytes-FirstFree p ((p.total_frames + 7) / 8 - p.next_hint / 8) (p.next_hint / 8))
      (scan_bytes-FirstFree p (p.next_hint / 8) 0)

-- What one allocation of frame `f` has done.
pub record Allocated (p : Pmm) (f : ℕ) (q : Pmm) : Type 0 where
  pub below : f < p.total_frames
  pub was_free : frame_is_free p.bitmap f ≡ true
  pub valid : Inv q
  pub counted : p.free_frames ≡ suc q.free_frames
  pub total : q.total_frames ≡ p.total_frames
  pub used :
      (g : ℕ) → frame_is_free q.bitmap g ≡ (if f == g then false else frame_is_free p.bitmap g)
  pub referenced : (g : ℕ) → q.refcount g ≡ (if f == g then 1 else p.refcount g)

take_frame-Allocated :
    (p : Pmm) (f : ℕ)
    → Inv p
    → f < p.total_frames
    → frame_is_free p.bitmap f ≡ true
    → Allocated p f (take_frame p f)
unfolding take_frame
take_frame-Allocated p f v l h = record {
  below = l;
  was_free = h;
  valid = take_frame-Inv p f v l h;
  counted = omega (arith, count-set_used p.bitmap f p.total_frames v.bytes l h, v.counted);
  total = refl;
  used = λ g. is_free-set_used p.bitmap f g v.bytes;
  referenced = λ g. refl;
}

-- A positive counter has a free frame for the search to find.
some_frame_free : (p : Pmm) → Inv p → (p.free_frames == 0) ≡ false → NextFit p none → ⊥
some_frame_free p v e none_free =
    let (k, l, h) =
      count_witness (frame_is_free p.bitmap) p.total_frames (ground (arith, v.counted)) in
    false≢true (sym (none_free k l) ∙ h)

found_frame :
    (p : Pmm) (o : Option ℕ)
    → find_free p ≡ o
    → Inv p
    → (p.free_frames == 0) ≡ false
    → NextFit p o
    → (f : ℕ) × (q : Pmm) × (alloc_frame p ≡ (some (f * frame_size), q)) × Allocated p f q
unfolding alloc_frame
found_frame p none eq v e fit = absurd (some_frame_free p v e fit)
found_frame p (some f) eq v e fit =
    (f, take_frame p f, rw (e, eq) refl, take_frame-Allocated p f v fit.0 fit.1)

-- In a well-formed allocator `pmm_alloc_frame` fails exactly when the free counter is zero, and then
-- changes nothing; otherwise it returns the address of a frame that was free, marks it used with one
-- reference, takes one from the counter, leaves every other frame alone and keeps the invariant.
pub alloc_frame_lem :
    (p : Pmm)
    → Inv p
    → ((p.free_frames ≡ 0) × (alloc_frame p ≡ (none, p)))
      ⊎ ((f : ℕ) × (q : Pmm) × (alloc_frame p ≡ (some (f * frame_size), q)) × Allocated p f q)
unfolding alloc_frame
alloc_frame_lem p v = elim (Bool-cases (p.free_frames == 0)) [
  | inl e ↦ inl (==→eq _ _ e, rw e refl)
  | inr e ↦ inr (found_frame p (find_free p) refl v e (find_free-NextFit p))
]
