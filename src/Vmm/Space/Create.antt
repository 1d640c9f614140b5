-- ===== src/Vmm/Space/Create.antt =====
-- vmm_create_address_space of kernel/mm/vmm.c.
use lithium_kernel.Prelude.{
  ℕ, zero, suc, ◌+◌, ◌*◌, ◌/◌, ◌≤◌, ◌<◌, ◌≡◌, refl, sym, ap, ◌∙◌, ◌⊎◌, inl, inr, true, false, ◌&&◌,
  leb, ltb, arith, ◌==◌, Bool-cases, ==→eq, ok, some, if◌then◌else◌,
}
use mathlib.Core.Path.{subst}
use lithium_kernel.Pmm.{Pmm, frame_is_free, alloc_frame, free_frame}
use lithium_kernel.Pmm.Inv.{Inv}
use lithium_kernel.Pmm.Alloc.{Allocated, alloc_frame_lem}
use lithium_kernel.Pmm.Release.{free_frame-alloc_frame}
use lithium_kernel.Vmm.{
  Vmm, done, bind, is_present, phys_of, table_entry, set_user, put, zero_page, vmm_current_pml4,
}
use lithium_kernel.Vmm.Tree.{Ensures, Ensures-bind, Ensures-weaken}
use lithium_kernel.Vmm.Space.{
  each, copy_entry, low_window, alloc_or_free, skip, vmm_create_address_space,
}

-- The entries `lo` up to `hi` of the table at `dst` are those of the one at `src`.
pub record CopiedRange (dst src lo hi : ℕ) (v v' : Vmm) : Type 0 where
  pub same_pmm : v'.pmm ≡ v.pmm
  pub entries : (j : ℕ) → v'.mem dst j ≡ (if leb lo j && ltb j hi then v.mem src j else v.mem dst j)
  pub others : (t : ℕ) → (dst == t) ≡ false → v'.mem t ≡ v.mem t

copy_range :
    (E : Vmm → Type 0) (dst src k lo hi : ℕ) (v : Vmm)
    → (dst == src) ≡ false
    → lo + k ≡ hi
    → Ensures (λ _ v'. CopiedRange dst src lo hi v v') E (each k lo (copy_entry dst src) v)
unfolding each copy_entry
copy_range E dst src zero lo hi v ne e = record {
  same_pmm = refl;
  entries = λ j. ground arith;
  others = λ t h. refl;
}
copy_range E dst src (suc k) lo hi v ne e =
    Ensures-weaken (λ _ x. CopiedRange dst src (lo + 1) hi (put dst lo (v.mem src lo) v) x)
      (λ _ x. CopiedRange dst src lo hi v x) E E
      (each k (lo + 1) (copy_entry dst src) (put dst lo (v.mem src lo) v))
      (copy_range E dst src k (lo + 1) hi (put dst lo (v.mem src lo) v) ne (omega arith))
      (λ _ x c. record {
        same_pmm = c.same_pmm;
        entries = λ j. ground (arith, c.entries j);
        others = λ t h. c.others t h ∙ rw h refl;
      })
      (λ _ h. h)

-- The table for the lowest 512 GiB: its first entry is that of the current space.
pub record LowWindow (new cur : ℕ) (x y : Vmm) : Type 0 where
  pub low : ℕ
  pub fresh : frame_is_free x.pmm.bitmap (low / 4096) ≡ true
  pub linked : y.mem new 0 ≡ set_user (table_entry low)
  pub rest : (j : ℕ) → 0 < j → y.mem new j ≡ x.mem new j
  pub first : y.mem low 0 ≡ x.mem (phys_of (x.mem cur 0)) 0
  pub empty : (j : ℕ) → 0 < j → y.mem low j ≡ 0
  pub others : (t : ℕ) → (new == t) ≡ false → (low == t) ≡ false → y.mem t ≡ x.mem t

-- A page in use is not that of a frame that was free.
used_page :
    (b : ℕ → ℕ) (f page : ℕ)
    → frame_is_free b f ≡ true
    → frame_is_free b (page / 4096) ≡ false
    → (f * 4096 == page) ≡ false
used_page b f page h u = elim (Bool-cases (f * 4096 == page)) [
  | inr e ↦ e
  | inl e ↦ let n : page / 4096 ≡ f = omega (arith, ==→eq (f * 4096) page e) in cc (rw n at u, h)
]

module _ (new cur : ℕ) (x : Vmm) (valid : Inv x.pmm) (r : Pmm) (back : free_frame x.pmm new ≡ ok r)
    (new_used : frame_is_free x.pmm.bitmap (new / 4096) ≡ false)
    (cur_used : frame_is_free x.pmm.bitmap (cur / 4096) ≡ false)
    (low_used : frame_is_free x.pmm.bitmap (phys_of (x.mem cur 0) / 4096) ≡ false) where
  low_window_lem :
      Ensures
        (λ _ y. LowWindow new cur x y)
        (λ y. (y.pmm ≡ r) × (x.pmm.free_frames ≡ 0))
        (low_window new cur x)
  unfolding low_window alloc_or_free copy_entry
  low_window_lem = elim (alloc_frame_lem x.pmm valid) [
    | inl (z, eq) ↦ rw (eq, back) (refl, z)
    | inr (f, q, eq, a) ↦
        let n = used_page x.pmm.bitmap f new a.was_free new_used in
        let l = used_page x.pmm.bitmap f (phys_of (x.mem cur 0)) a.was_free low_used in
        let d : f * 4096 / 4096 ≡ f = omega arith in
        rw eq (record {
          low = f * 4096;
          fresh = rw d a.was_free;
          linked = ground arith;
          rest = λ j p. ground (arith, n);
          first = ground (arith, n, l);
          empty = λ j p. ground (arith, n);
          others = λ t p p'. ground (arith, p, p');
        })
  ]

-- The new PML4 `new`: a frame that was free, with the kernel half of the current one, an empty user
-- half, and its own table for the lowest 512 GiB, if the current space has one, with that one's first
-- entry alone. No page in use is changed.
pub record NewSpace (v : Vmm) (new : ℕ) (v' : Vmm) : Type 0 where
  pub fresh : frame_is_free v.pmm.bitmap (new / 4096) ≡ true
  pub kernel_half : (j : ℕ) → 256 ≤ j → j < 512 → v'.mem new j ≡ v.mem (vmm_current_pml4 v) j
  pub user_half : (j : ℕ) → 0 < j → j < 256 → v'.mem new j ≡ 0
  pub low_window :
      ((is_present (v.mem (vmm_current_pml4 v) 0) ≡ false) × (v'.mem new 0 ≡ 0))
      ⊎ ((low : ℕ) × (frame_is_free v.pmm.bitmap (low / 4096) ≡ true)
          × (v'.mem new 0 ≡ set_user (table_entry low))
          × (v'.mem low 0 ≡ v.mem (phys_of (v.mem (vmm_current_pml4 v) 0)) 0)
          × ((j : ℕ) → 0 < j → v'.mem low j ≡ 0))
  pub untouched : (t : ℕ) → frame_is_free v.pmm.bitmap (t / 4096) ≡ false → v'.mem t ≡ v.mem t

-- The call failed, and every frame and reference is what it was.
pub record NoSpace (v v' : Vmm) : Type 0 where
  pub frames : (g : ℕ) → frame_is_free v'.pmm.bitmap g ≡ frame_is_free v.pmm.bitmap g
  pub references : (g : ℕ) → v'.pmm.refcount g ≡ v.pmm.refcount g
  pub few : v.pmm.free_frames ≤ 1

module _ (v : Vmm) (valid : Inv v.pmm) (f : ℕ) (q : Pmm) (a : Allocated v.pmm f q)
    (eq : alloc_frame v.pmm ≡ (some (f * 4096), q))
    (cur_used : frame_is_free v.pmm.bitmap (vmm_current_pml4 v / 4096) ≡ false)
    (low_used : frame_is_free v.pmm.bitmap (phys_of (v.mem (vmm_current_pml4 v) 0) / 4096)
      ≡ false) where
  abbrev cur : ℕ
  cur = vmm_current_pml4 v

  abbrev blank : Vmm
  blank = zero_page (f * 4096) (record v { pmm = q })

  not_fresh : (t : ℕ) → frame_is_free v.pmm.bitmap (t / 4096) ≡ false → (f * 4096 == t) ≡ false
  not_fresh t u = used_page v.pmm.bitmap f t a.was_free u

  kept :
      (x : Vmm)
      → CopiedRange (f * 4096) cur 256 512 blank x
      → (t : ℕ) → frame_is_free v.pmm.bitmap (t / 4096) ≡ false
      → x.mem t ≡ v.mem t
  kept x c t u = c.others t (not_fresh t u) ∙ rw (not_fresh t u) refl

  no_window :
      (x : Vmm)
      → CopiedRange (f * 4096) cur 256 512 blank x
      → is_present (v.mem cur 0) ≡ false
      → NewSpace v (f * 4096) x
  no_window x c off = record {
    fresh = let d : f * 4096 / 4096 ≡ f = omega arith in rw d a.was_free;
    kernel_half = λ j l u. ground (arith, c.entries j, not_fresh cur cur_used);
    user_half = λ j l u. ground (arith, c.entries j);
    low_window = inl (off, ground (arith, c.entries 0));
    untouched = kept x c;
  }

  low_fresh :
      (x : Vmm) (low : ℕ)
      → x.pmm ≡ q
      → frame_is_free x.pmm.bitmap (low / 4096) ≡ true
      → frame_is_free v.pmm.bitmap (low / 4096) ≡ true
  low_fresh x low e h =
      let h' = subst (λ (p : Pmm). frame_is_free p.bitmap (low / 4096) ≡ true) e h in
      ground (arith, a.used (low / 4096), h')

  low_other :
      (low t : ℕ)
      → frame_is_free v.pmm.bitmap (low / 4096) ≡ true
      → frame_is_free v.pmm.bitmap (t / 4096) ≡ false
      → (low == t) ≡ false
  low_other low t h u = elim (Bool-cases (low == t)) [
    | inr e ↦ e
    | inl e ↦
        cc (h, subst (λ x. frame_is_free v.pmm.bitmap (x / 4096) ≡ false) (sym (==→eq low t e)) u)
  ]

  window :
      (x y : Vmm)
      → CopiedRange (f * 4096) cur 256 512 blank x
      → LowWindow (f * 4096) cur x y
      → NewSpace v (f * 4096) y
  window x y c w = record {
    fresh = let d : f * 4096 / 4096 ≡ f = omega arith in rw d a.was_free;
    kernel_half =
        λ j l u. w.rest j (omega arith) ∙ ground (arith, c.entries j, not_fresh cur cur_used);
    user_half = λ j l u. w.rest j l ∙ ground (arith, c.entries j);
    low_window = inr (
      w.low,
      low_fresh x w.low c.same_pmm w.fresh,
      w.linked,
      w.first
          ∙ ap (λ e. x.mem (phys_of e) 0) (ap (λ (row : ℕ → ℕ). row 0) (kept x c cur cur_used))
          ∙ ap (λ (row : ℕ → ℕ). row 0) (kept x c (phys_of (v.mem cur 0)) low_used),
      w.empty,
    );
    untouched = λ t u.
        w.others t (not_fresh t u) (low_other w.low t (low_fresh x w.low c.same_pmm w.fresh) u)
        ∙ kept x c t u;
  }

  still_used : (g : ℕ) → frame_is_free v.pmm.bitmap g ≡ false → frame_is_free q.bitmap g ≡ false
  still_used g u = ground (arith, a.used g)

  new_used : frame_is_free q.bitmap (f * 4096 / 4096) ≡ false
  new_used = let d : f * 4096 / 4096 ≡ f = omega arith in rw d (ground (arith, a.used f))

  -- Both outcomes of making the table for the low window.
  low_outcomes :
      (x : Vmm)
      → CopiedRange (f * 4096) cur 256 512 blank x
      → Ensures (λ _ y. LowWindow (f * 4096) cur x y) (NoSpace v) (low_window (f * 4096) cur x)
  low_outcomes x c =
      let (r, back, iv, count, same, refs) = free_frame-alloc_frame v.pmm q (f * 4096) valid eq in
      let on_x = λ (P : Pmm → Type 0) (h : P q). subst P (sym c.same_pmm) h in
      let e0 = ap (λ (row : ℕ → ℕ). row 0) (kept x c cur cur_used) in
      Ensures-weaken (λ _ y. LowWindow (f * 4096) cur x y) (λ _ y. LowWindow (f * 4096) cur x y)
        (λ y. (y.pmm ≡ r) × (x.pmm.free_frames ≡ 0)) (NoSpace v) (low_window (f * 4096) cur x)
        (low_window_lem (f * 4096) cur x (on_x Inv a.valid) r
          (on_x (λ p. free_frame p (f * 4096) ≡ ok r) back)
          (on_x (λ p. frame_is_free p.bitmap (f * 4096 / 4096) ≡ false) new_used)
          (on_x (λ p. frame_is_free p.bitmap (cur / 4096) ≡ false)
            (still_used (cur / 4096) cur_used))
          (on_x (λ p. frame_is_free p.bitmap (phys_of (x.mem cur 0) / 4096) ≡ false)
            (rw e0 (still_used (phys_of (v.mem cur 0) / 4096) low_used))))
        (λ _ y h. h)
        (λ y h. record {
          frames = λ g. ap (λ (p : Pmm). frame_is_free p.bitmap g) h.0 ∙ same g;
          references = λ g. ap (λ (p : Pmm). p.refcount g) h.0 ∙ refs g;
          few = omega (arith, a.counted, ap (λ (p : Pmm). p.free_frames) c.same_pmm, h.1);
        })

  -- What follows the copy of the kernel half.
  after_copy :
      (x : Vmm)
      → CopiedRange (f * 4096) cur 256 512 blank x
      → Ensures (NewSpace v) (NoSpace v) (
          bind
            ((if is_present (x.mem cur 0) then low_window (f * 4096) cur else skip) x)
            (λ _. done (f * 4096)))
  after_copy x c =
      let e0 = ap (λ (row : ℕ → ℕ). row 0) (kept x c cur cur_used) in
      elim (Bool-cases (is_present (v.mem cur 0))) [
        | inr off ↦ rw (e0, off) (no_window x c off)
        | inl on ↦
            rw (e0, on)
              (Ensures-bind (λ _ y. LowWindow (f * 4096) cur x y) (NewSpace v) (NoSpace v) _
                (low_window (f * 4096) cur x) (low_outcomes x c) (λ _ y. window x y c))
      ]

-- Where the current PML4 and its first table are in use, `vmm_create_address_space` does not halt. It
-- returns a new PML4 with the kernel half of the current one, an empty user half but for the low
-- window, and the pages in use as they were; or it returns NULL with at most one frame free, and then
-- no frame is lost.
pub vmm_create_address_space_lem :
    (v : Vmm)
    → Inv v.pmm
    → frame_is_free v.pmm.bitmap (vmm_current_pml4 v / 4096) ≡ false
    → frame_is_free v.pmm.bitmap (phys_of (v.mem (vmm_current_pml4 v) 0) / 4096) ≡ false
    → Ensures (NewSpace v) (NoSpace v) (vmm_create_address_space v)
unfolding vmm_create_address_space
vmm_create_address_space_lem v valid cu lu = elim (alloc_frame_lem v.pmm valid) [
  | inl (z, eq) ↦
      rw eq (record { frames = λ g. refl; references = λ g. refl; few = omega (arith, z) })
  | inr (f, q, eq, a) ↦ rw eq (
      Ensures-bind
        (λ _ x.
          CopiedRange (f * 4096) (vmm_current_pml4 v) 256 512
            (zero_page (f * 4096) (record v { pmm = q })) x)
        (NewSpace v) (NoSpace v) _
        (each 256 256 (copy_entry (f * 4096) (vmm_current_pml4 v))
          (zero_page (f * 4096) (record v { pmm = q })))
        (copy_range (NoSpace v) (f * 4096) (vmm_current_pml4 v) 256 256 512
          (zero_page (f * 4096) (record v { pmm = q }))
          (used_page v.pmm.bitmap f (vmm_current_pml4 v) a.was_free cu) refl)
        (λ _ x c. after_copy v valid f q a eq cu lu x c))
]
