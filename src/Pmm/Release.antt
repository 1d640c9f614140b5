-- ===== src/Pmm/Release.antt =====
-- pmm_free_frame, pmm_ref_frame and pmm_frame_refcount of kernel/mm/pmm.c: reference counting.
use lithium_kernel.Prelude.{
  ℕ, ◌+◌, ◌-◌, ◌*◌, ◌/◌, ◌%◌, ◌<◌, ◌≡◌, refl, sym, ap, ◌∙◌, ◌⊎◌, inl, inr, true, false, not, some,
  arith, ltb, ◌==◌, if◌then◌else◌, ltb→lt, ==→eq, Bool-cases, update, Outcome, ok, halted, kassert,
}
use mathlib.Core.Bool.{false≢true}
use lithium_kernel.Pmm.{
  Pmm, frame_size, uint16_max, frame_is_free, drop_ref, free_frame, ref_frame, frame_refcount,
  alloc_frame,
}
use lithium_kernel.Pmm.Bitmap.{is_free-set_free, set_free-HasBytes}
use lithium_kernel.Pmm.Inv.{Inv, count-set_free}
use lithium_kernel.Pmm.Alloc.{Allocated, alloc_frame_lem}

-- What KASSERT demands of an address: it is aligned, in range, and its frame is in use.
pub record IsReferenced (p : Pmm) (phys : ℕ) : Type 0 where
  pub aligned : phys % frame_size ≡ 0
  pub below : phys / frame_size < p.total_frames
  pub used : frame_is_free p.bitmap (phys / frame_size) ≡ false
  pub positive : 0 < p.refcount (phys / frame_size)

-- The last reference: the frame becomes free.
freed-Inv :
    (p : Pmm) (f : ℕ)
    → Inv p
    → f < p.total_frames
    → frame_is_free p.bitmap f ≡ false
    → ltb 0 (p.refcount f - 1) ≡ false
    → Inv (drop_ref p f)
unfolding drop_ref
freed-Inv p f v l u last = rw last (record {
  bytes = set_free-HasBytes p.bitmap f v.bytes;
  bounded = v.bounded;
  hinted = ground (arith, v.hinted);
  counted = omega (arith, count-set_free p.bitmap f p.total_frames v.bytes l u, v.counted);
  unreferenced = λ g e. ground (arith, is_free-set_free p.bitmap f g v.bytes, v.unreferenced g);
  narrow = λ g. ground (arith, v.narrow g, v.narrow f);
})

kept-Inv :
    (p : Pmm) (f : ℕ)
    → Inv p
    → frame_is_free p.bitmap f ≡ false
    → ltb 0 (p.refcount f - 1) ≡ true
    → Inv (drop_ref p f)
unfolding drop_ref
kept-Inv p f v u more = rw more (record {
  bytes = v.bytes;
  bounded = v.bounded;
  hinted = v.hinted;
  counted = v.counted;
  unreferenced = λ g e. elim (Bool-cases (f == g)) [
    | inl q ↦ ground (arith, ap (frame_is_free p.bitmap) (==→eq f g q))
    | inr q ↦ rw q (v.unreferenced g e)
  ];
  narrow = λ g. ground (arith, v.narrow g, v.narrow f);
})

drop_ref-Inv :
    (p : Pmm) (f : ℕ)
    → Inv p
    → f < p.total_frames
    → frame_is_free p.bitmap f ≡ false
    → Inv (drop_ref p f)
drop_ref-Inv p f v l u = elim (Bool-cases (ltb 0 (p.refcount f - 1))) [
  | inl more ↦ kept-Inv p f v u more
  | inr last ↦ freed-Inv p f v l u last
]

-- What giving one reference back has done: the frame is free exactly if it was the last one.
pub record Dropped (p : Pmm) (f : ℕ) (q : Pmm) : Type 0 where
  pub valid : Inv q
  pub references : (g : ℕ) → q.refcount g ≡ (if f == g then p.refcount f - 1 else p.refcount g)
  pub freed :
      (g : ℕ)
      → frame_is_free q.bitmap g ≡ (if f == g then p.refcount f == 1 else frame_is_free p.bitmap g)
  pub counter : q.free_frames ≡ (if p.refcount f == 1 then p.free_frames + 1 else p.free_frames)

drop_ref-Dropped :
    (p : Pmm) (f : ℕ)
    → Inv p
    → f < p.total_frames
    → frame_is_free p.bitmap f ≡ false
    → 0 < p.refcount f
    → Dropped p f (drop_ref p f)
unfolding drop_ref
drop_ref-Dropped p f v l u pos = record {
  valid = drop_ref-Inv p f v l u;
  references = λ g. ground arith;
  freed = λ g. elim (Bool-cases (f == g)) [
    | inl e ↦
        ground
          (arith, is_free-set_free p.bitmap f g v.bytes, ap (frame_is_free p.bitmap) (==→eq f g e))
    | inr e ↦ ground (arith, e, is_free-set_free p.bitmap f g v.bytes)
  ];
  counter = ground arith;
}

-- The four checks that `pmm_free_frame` and `pmm_ref_frame` begin with.
abbrev checked {ℓ} : {A : Type ℓ} → Pmm → ℕ → Outcome A → Outcome A
checked p phys k =
    let f = phys / frame_size in
    kassert (phys % frame_size == 0) (
      kassert (ltb f p.total_frames)
        (kassert (not (frame_is_free p.bitmap f)) (kassert (ltb 0 (p.refcount f)) k)))

checked_cases {ℓ} :
    {A : Type ℓ} (p : Pmm) (phys : ℕ) (k : Outcome A)
    → (IsReferenced p phys × (checked p phys k ≡ k))
      ⊎ (¬ IsReferenced p phys × (checked p phys k ≡ halted))
checked_cases p phys k = elim (Bool-cases (phys % frame_size == 0)) [
  | inr e ↦ inr (λ r. ground (arith, r.aligned), rw e refl)
  | inl e ↦ elim (Bool-cases (ltb (phys / frame_size) p.total_frames)) [
    | inr e₂ ↦ inr (λ r. ground (arith, r.below), rw (e, e₂) refl)
    | inl e₂ ↦ elim (Bool-cases (frame_is_free p.bitmap (phys / frame_size))) [
      | inl e₃ ↦ inr (λ r. false≢true (sym r.used ∙ e₃), rw (e, e₂, e₃) refl)
      | inr e₃ ↦ elim (Bool-cases (ltb 0 (p.refcount (phys / frame_size)))) [
        | inr e₄ ↦ inr (λ r. ground (arith, r.positive), rw (e, e₂, e₃, e₄) refl)
        | inl e₄ ↦ inl (
          record {
            aligned = ==→eq _ _ e;
            below = ltb→lt _ _ e₂;
            used = e₃;
            positive = ltb→lt _ _ e₄;
          },
          rw (e, e₂, e₃, e₄) refl,
        )
      ]
    ]
  ]
]

-- `pmm_free_frame` halts exactly on an address that is unaligned, out of range, free or without a
-- reference (a double free); otherwise it drops one reference, frees the frame with the last one,
-- counts it, touches no other frame and keeps the invariant.
pub free_frame_lem :
    (p : Pmm) (phys : ℕ)
    → Inv p
    → (IsReferenced p phys
        × ((q : Pmm) × (free_frame p phys ≡ ok q) × Dropped p (phys / frame_size) q))
      ⊎ (¬ IsReferenced p phys × (free_frame p phys ≡ halted))
unfolding free_frame
free_frame_lem p phys v = elim (checked_cases p phys (ok (drop_ref p (phys / frame_size)))) [
  | inl (r, e) ↦ inl (
    r,
    (
      drop_ref p (phys / frame_size),
      e,
      drop_ref-Dropped p (phys / frame_size) v r.below r.used r.positive,
    ),
  )
  | inr bad ↦ inr bad
]

-- One more reference to a frame in use, within the 16 bits of the counter.
abbrev shared : Pmm → ℕ → Pmm
shared p f = record p { refcount = update p.refcount f (p.refcount f + 1) }

ref_frame-ok :
    (p : Pmm) (phys : ℕ)
    → IsReferenced p phys
    → p.refcount (phys / frame_size) < uint16_max
    → ref_frame p phys ≡ ok (shared p (phys / frame_size))
unfolding ref_frame
ref_frame-ok p phys r l = ground (arith, r.aligned, r.below, r.used, r.positive)

pub frame_refcount-ok :
    (p : Pmm) (phys : ℕ)
    → IsReferenced p phys
    → frame_refcount p phys ≡ ok (p.refcount (phys / frame_size))
unfolding frame_refcount
frame_refcount-ok p phys r = ground (arith, r.aligned, r.below)

shared-Inv :
    (p : Pmm) (f : ℕ)
    → Inv p
    → frame_is_free p.bitmap f ≡ false
    → p.refcount f < uint16_max
    → Inv (shared p f)
shared-Inv p f v u l = record {
  bytes = v.bytes;
  bounded = v.bounded;
  hinted = v.hinted;
  counted = v.counted;
  unreferenced = λ g e. elim (Bool-cases (f == g)) [
    | inl q ↦ ground (arith, ap (frame_is_free p.bitmap) (==→eq f g q))
    | inr q ↦ rw q (v.unreferenced g e)
  ];
  narrow = λ g. ground (arith, v.narrow g);
}

free_frame-ok :
    (p : Pmm) (phys : ℕ)
    → IsReferenced p phys
    → free_frame p phys ≡ ok (drop_ref p (phys / frame_size))
unfolding free_frame
free_frame-ok p phys r = ground (arith, r.aligned, r.below, r.used, r.positive)

-- Taking a reference with `pmm_ref_frame` succeeds on a frame in use whose counter is below
-- UINT16_MAX and keeps the invariant, and `pmm_free_frame` then undoes it: the bitmap, the free
-- counter, the hint and every reference count are those from before.
pub free_frame-ref_frame :
    (p : Pmm) (phys : ℕ)
    → Inv p
    → IsReferenced p phys
    → p.refcount (phys / frame_size) < uint16_max
    → (q : Pmm) × (r : Pmm) × (ref_frame p phys ≡ ok q)
      × Inv q
      × (free_frame q phys ≡ ok r)
      × (r.bitmap ≡ p.bitmap)
      × (r.free_frames ≡ p.free_frames)
      × (r.next_hint ≡ p.next_hint)
      × ((g : ℕ) → r.refcount g ≡ p.refcount g)
unfolding drop_ref
free_frame-ref_frame p phys v r l = (
  q,
  drop_ref q f,
  ref_frame-ok p phys r l,
  shared-Inv p f v r.used l,
  free_frame-ok q phys referenced,
  ground (arith, r.positive),
  ground (arith, r.positive),
  ground (arith, r.positive),
  λ g. elim (Bool-cases (f == g)) [
    | inl e ↦ ground (arith, r.positive, ap p.refcount (==→eq f g e))
    | inr e ↦ ground (arith, r.positive, e)
  ],
)
  where
    f : ℕ
    f = phys / frame_size

    q : Pmm
    q = shared p f

    referenced : IsReferenced q phys
    referenced = record {
      aligned = r.aligned;
      below = r.below;
      used = r.used;
      positive = ground arith;
    }

-- The state after the frame just allocated is given back.
free-Allocated :
    (p q : Pmm) (f : ℕ)
    → Inv p
    → Allocated p f q
    → (r : Pmm) × (free_frame q (f * frame_size) ≡ ok r)
      × Inv r
      × (r.free_frames ≡ p.free_frames)
      × ((g : ℕ) → frame_is_free r.bitmap g ≡ frame_is_free p.bitmap g)
      × ((g : ℕ) → r.refcount g ≡ p.refcount g)
free-Allocated p q f v a = (
  drop_ref q f,
  free_frame-ok q (f * frame_size) referenced ∙ ap (λ k. ok (drop_ref q k)) frame,
  d.valid,
  ground (arith, d.counter, a.referenced f, a.counted),
  λ g. elim (Bool-cases (f == g)) [
    | inl e ↦
        ground
          (arith, d.freed g, a.referenced f, a.was_free, ap (frame_is_free p.bitmap) (==→eq f g e))
    | inr e ↦ ground (arith, e, d.freed g, a.used g)
  ],
  λ g. elim (Bool-cases (f == g)) [
    | inl e ↦ ground (
      arith,
      d.references g,
      a.referenced f,
      v.unreferenced f a.was_free,
      ap p.refcount (==→eq f g e),
    )
    | inr e ↦ ground (arith, e, d.references g, a.referenced g)
  ],
)
  where
    frame : f * frame_size / frame_size ≡ f
    frame = omega arith

    referenced : IsReferenced q (f * frame_size)
    referenced = record {
      aligned = omega arith;
      below = omega (arith, a.below, a.total);
      used = rw frame (ground (arith, a.used f));
      positive = rw frame (ground (arith, a.referenced f));
    }

    d : Dropped q f (drop_ref q f)
    d =
        drop_ref-Dropped q f a.valid (omega (arith, a.below, a.total)) (ground (arith, a.used f))
          (ground (arith, a.referenced f))

-- Giving back the frame that `pmm_alloc_frame` has just returned succeeds, and restores the free
-- counter, the set of free frames and every reference count.
pub free_frame-alloc_frame :
    (p q : Pmm) (phys : ℕ)
    → Inv p
    → alloc_frame p ≡ (some phys, q)
    → (r : Pmm) × (free_frame q phys ≡ ok r)
      × Inv r
      × (r.free_frames ≡ p.free_frames)
      × ((g : ℕ) → frame_is_free r.bitmap g ≡ frame_is_free p.bitmap g)
      × ((g : ℕ) → r.refcount g ≡ p.refcount g)
free_frame-alloc_frame p q phys v e = elim (alloc_frame_lem p v) [
  | inl (_, e') ↦ absurd (cc (sym e ∙ e'))
  | inr (f, q', e', a) ↦
      let pair = sym e ∙ e' in
      let same_state : q ≡ q' = ap (λ x. x.1) pair in
      let same_address : phys ≡ f * frame_size = cc (ap (λ x. x.0) pair) in
      rw (same_state, same_address) (free-Allocated p q' f v a)
]
