-- ===== src/Vmm/Cow.antt =====
-- A write to a copy-on-write page: vmm_handle_page_fault of kernel/mm/vmm.c.
use lithium_kernel.Prelude.{
  ℕ, ◌+◌, ◌-◌, ◌*◌, ◌/◌, ◌%◌, ◌≤◌, ◌<◌, ◌≡◌, refl, ap, ◌∙◌, ◌⊎◌, inl, inr, ◌≢◌, Bool, true, false,
  none, some, List, arith, ◌==◌, leb, if◌then◌else◌, update, Bool-cases, ==→eq, leb→le,
}
use mathlib.Core.Path.{subst}
use lithium_kernel.Pmm.{Pmm, frame_is_free}
use lithium_kernel.Pmm.Alloc.{Allocated, alloc_frame_lem}
use lithium_kernel.Pmm.Release.{IsReferenced, Dropped, free_frame_lem, frame_refcount-ok}
use lithium_kernel.Vmm.{
  Vmm, is_present, is_user, is_write, is_cow, phys_of, put, low_12_clear, vmm_get_pte,
  vmm_get_physical, vmm_current_pml4, small_page,
}
use lithium_kernel.Vmm.Entry.{IsFrame, phys_of-IsFrame}
use lithium_kernel.Vmm.Tree.{index, Place, Tree, Ensures}
use lithium_kernel.Vmm.Leaf.{page_of, written-Tree, translated-written, elsewhere-written}
use lithium_kernel.Vmm.Unmap.{LastTable, pte_cases}
use lithium_kernel.Vmm.Data.{other_row, data-Tree, data-Reach, data_same}
use lithium_kernel.Vmm.Grow.{Allocated-IsReferenced, fresh-IsFrame, fresh_page, fresh_frame}
use lithium_kernel.Vmm.Fault.{
  user_space_top, is_cow_page, unshared_flags, copy_cow, resolve_cow, resolve_at,
  vmm_handle_page_fault,
}

-- The new entry of the page: to the frame `phys`, for the user, to be written to and no longer shared.
pub record IsOwned (phys e : ℕ) : Type 0 where
  pub present : is_present e ≡ true
  pub user : is_user e ≡ true
  pub writable : is_write e ≡ true
  pub not_cow : is_cow e ≡ false
  pub points : phys_of e ≡ phys

IsOwned-entry :
    (phys e : ℕ) → IsFrame phys → is_cow_page e ≡ true → IsOwned phys (phys + unshared_flags e)
IsOwned-entry phys e f c = record {
  present = ground (arith, f.aligned);
  user = ground (arith, f.aligned);
  writable = ground (arith, f.aligned);
  not_cow = ground (arith, f.aligned);
  points = ground (arith, f.aligned, f.masked);
}

owned_page :
    (phys e virt : ℕ)
    → IsOwned phys e
    → virt % 4096 ≡ 0
    → (if is_present e then some (small_page e virt) else none) ≡ some phys
owned_page phys e virt n a = rw n.present (ground (arith, n.points, a))

-- The references once frame `f` was taken and one reference to `o` was dropped.
moved_reference :
    (f o : ℕ) (before mid after : ℕ → ℕ)
    → ((g : ℕ) → mid g ≡ (if f == g then 1 else before g))
    → ((g : ℕ) → after g ≡ (if o == g then mid o - 1 else mid g))
    → (f == o) ≡ false
    → 1 < before o
    → (after f ≡ 1) × (after o + 1 ≡ before o)
moved_reference f o before mid after h k ne pos =
    (ground (arith, k f, h f), ground (arith, k o, h o))

-- The page was given to its writer: its frame is `phys`, with the bytes of the frame `old` that the page
-- had, and no other page's translation changed. If `old` had one reference, it is that frame; if it
-- had more, `phys` is a new frame, and `old` lost one reference and kept its bytes.
pub record Resolved (root virt old : ℕ) (place : Place) (v v' : Vmm) : Type 0 where
  pub tree : Tree root place v'
  pub phys : ℕ
  pub pt : ℕ
  pub found : vmm_get_pte v root virt ≡ some (pt, index 0 virt)
  pub owned : IsOwned phys (v'.mem pt (index 0 virt))
  pub translated : vmm_get_physical v' root virt ≡ some phys
  pub contents : v'.mem phys ≡ v.mem old
  pub old_contents : v'.mem old ≡ v.mem old
  pub elsewhere :
      (b : ℕ) → page_of b ≢ page_of virt → vmm_get_physical v' root b ≡ vmm_get_physical v root b
  pub references :
      ((v.pmm.refcount (old / 4096) ≤ 1) × (phys ≡ old) × (v'.pmm ≡ v.pmm))
      ⊎ ((1 < v.pmm.refcount (old / 4096))
          × (phys ≢ old)
          × (v'.pmm.refcount (phys / 4096) ≡ 1)
          × (v'.pmm.refcount (old / 4096) + 1 ≡ v.pmm.refcount (old / 4096)))

module _ (root virt : ℕ) (place : Place) (v : Vmm) (w : Tree root place v) (pt : ℕ)
    (l : LastTable root virt place v pt) (aligned : virt % 4096 ≡ 0)
    (c : is_cow_page (v.mem pt (index 0 virt)) ≡ true)
    (o : place (phys_of (v.mem pt (index 0 virt))) ≡ none)
    (r : IsReferenced v.pmm (phys_of (v.mem pt (index 0 virt)))) where
  abbrev e : ℕ
  e = v.mem pt (index 0 virt)

  not_pt : (x : ℕ) → place x ≡ none → (pt == x) ≡ false
  not_pt x n = elim (Bool-cases (pt == x)) [
    | inl q ↦ cc (l.placed, ap place (==→eq pt x q))
    | inr q ↦ q
  ]

  alone :
      v.pmm.refcount (phys_of e / 4096) ≤ 1
      → Resolved root virt
          (phys_of e)
          place
          v
          (put pt (index 0 virt) (phys_of e + unshared_flags e) v)
  alone h =
      let new = phys_of e + unshared_flags e in
      let n = IsOwned-entry (phys_of e) e (phys_of-IsFrame e) c in
      record {
        tree = written-Tree root place v w pt virt new l.placed;
        phys = phys_of e;
        pt = pt;
        found = l.found;
        owned = subst (IsOwned (phys_of e)) (ground arith) n;
        translated =
            translated-written root place v w pt virt new l.placed l.reach
            ∙ owned_page (phys_of e) new virt n aligned;
        contents = rw (not_pt (phys_of e) o) refl;
        old_contents = rw (not_pt (phys_of e) o) refl;
        elsewhere = λ b ne. elsewhere-written root place v w pt virt new l.placed b ne;
        references = inl (h, refl, refl);
      }

  -- The copy in the new frame `f`, and the allocator `q'` once the old frame lost a reference.
  module _ (f : ℕ) (q q' : Pmm) (a : Allocated v.pmm f q) (d : Dropped q (phys_of e / 4096) q')
      (h : 1 < v.pmm.refcount (phys_of e / 4096)) where
    abbrev copied : Vmm
    copied = record v { pmm = q'; mem = update v.mem (f * 4096) (v.mem (phys_of e)) }

    not_old : (f * 4096 == phys_of e) ≡ false
    not_old = fresh_frame root place v w f q a (phys_of e) r.used

    still_used : (g : ℕ) → frame_is_free v.pmm.bitmap g ≡ false → frame_is_free q'.bitmap g ≡ false
    still_used g u =
        ground (arith, a.used g, d.freed g, a.referenced (phys_of e / 4096), r.used, a.was_free)

    tables : (t : ℕ) (p : List ℕ) → place t ≡ some p → copied.mem t ≡ v.mem t
    tables t p at =
        other_row place t (f * 4096) (v.mem (phys_of e)) p v.mem at
          (fresh_page root place v w f q a)

    copied-Tree : Tree root place copied
    copied-Tree =
        data-Tree root place v q' (update v.mem (f * 4096) (v.mem (phys_of e))) w tables d.valid
          (λ t p at. still_used (t / 4096) (w.in_use t p at))

    old_frame : (f == phys_of e / 4096) ≡ false
    old_frame = elim (Bool-cases (f == phys_of e / 4096)) [
      | inl b ↦ cc (rw (← ==→eq f (phys_of e / 4096) b) at r.used, a.was_free)
      | inr b ↦ b
    ]

    copied-Resolved :
        Resolved root virt
          (phys_of e)
          place
          v
          (put pt (index 0 virt) (f * 4096 + unshared_flags e) copied)
    copied-Resolved =
        let new = f * 4096 + unshared_flags e in
        let n = IsOwned-entry (f * 4096) e (fresh-IsFrame root place v w f q a) c in
        let reached = data-Reach root place v q' copied.mem w tables virt l.reach in
        let counts =
          moved_reference f (phys_of e / 4096) v.pmm.refcount q.refcount q'.refcount a.referenced
            d.references old_frame h in
        let back : f * 4096 / 4096 ≡ f = omega arith in
        record {
          tree = written-Tree root place copied copied-Tree pt virt new l.placed;
          phys = f * 4096;
          pt = pt;
          found = l.found;
          owned = subst (IsOwned (f * 4096)) (ground arith) n;
          translated =
              translated-written root place copied copied-Tree pt virt new l.placed reached
              ∙ owned_page (f * 4096) new virt n aligned;
          contents = rw (not_pt (f * 4096) (fresh_page root place v w f q a)) (ground arith);
          old_contents = rw (not_pt (phys_of e) o, not_old) refl;
          elsewhere = λ b ne.
              elsewhere-written root place copied copied-Tree pt virt new l.placed b ne
              ∙ data_same root place v q' copied.mem w tables b;
          references = inr (h, λ same. cc (rw same at not_old), rw back counts.0, counts.1);
        }

  abbrev Copied : Bool → Vmm → Type 0
  Copied b v' = (b ≡ true) × Resolved root virt (phys_of e) place v v'

  abbrev NoFrame : Vmm → Type 0
  NoFrame v' = (v' ≡ v) × (v.pmm.free_frames ≡ 0)

  copy_cow-Copied :
      1 < v.pmm.refcount (phys_of e / 4096)
      → Ensures Copied NoFrame (copy_cow pt (index 0 virt) e v)
  unfolding copy_cow
  copy_cow-Copied h = elim (alloc_frame_lem v.pmm w.valid) [
    | inl (z, eq) ↦ rw eq (refl, z)
    | inr (f, q, eq, a) ↦ elim (free_frame_lem q (phys_of e) a.valid) [
      | inl (_, (q', eq', d)) ↦ rw (eq, eq') (refl, copied-Resolved f q q' a d h)
      | inr (unreferenced, _) ↦
          absurd (unreferenced (Allocated-IsReferenced v.pmm q f a (phys_of e) r))
    ]
  ]

  resolve_cow-Copied : Ensures Copied NoFrame (resolve_cow pt (index 0 virt) e v)
  unfolding resolve_cow
  resolve_cow-Copied = elim (Bool-cases (leb (v.pmm.refcount (phys_of e / 4096)) 1)) [
    | inl small ↦ rw (frame_refcount-ok v.pmm (phys_of e) r, small) (refl, alone (leb→le _ 1 small))
    | inr large ↦ rw (frame_refcount-ok v.pmm (phys_of e) r, large) (copy_cow-Copied (ground arith))
  ]

-- A write by the user to a page that is copy on write, on the tables of CR3; its frame is no table.
pub record IsCowFault (place : Place) (v : Vmm) (fault_addr error_code pt : ℕ) : Type 0 where
  pub tree : Tree (vmm_current_pml4 v) place v
  pub write_fault : error_code % 4 ≡ 3
  pub below : fault_addr < user_space_top
  pub found :
      vmm_get_pte v (vmm_current_pml4 v) (low_12_clear fault_addr)
      ≡ some (pt, index 0 (low_12_clear fault_addr))
  pub cow : is_cow_page (v.mem pt (index 0 (low_12_clear fault_addr))) ≡ true
  pub no_table : place (phys_of (v.mem pt (index 0 (low_12_clear fault_addr)))) ≡ none
  pub referenced : IsReferenced v.pmm (phys_of (v.mem pt (index 0 (low_12_clear fault_addr))))

last_table :
    (root virt : ℕ) (place : Place) (v : Vmm) (pt : ℕ)
    → Tree root place v
    → vmm_get_pte v root virt ≡ some (pt, index 0 virt)
    → LastTable root virt place v pt
last_table root virt place v pt w h = elim (pte_cases root virt place v w) [
  | inl n ↦ cc (n.no_pte)
  | inr (pt', l) ↦ subst (LastTable root virt place v) (ground (arith, l.found)) l
]

-- At such a fault `vmm_handle_page_fault` does not halt. It answers true, and the page is then its
-- writer's own: writable, with the bytes it had, in the old frame if that had one reference and else
-- in a new one, the old frame having one reference less; no other page's translation changes. Or it
-- answers false because no frame is free, and changes nothing.
pub vmm_handle_page_fault_lem :
    (place : Place) (v : Vmm) (fault_addr error_code pt : ℕ)
    → IsCowFault place v fault_addr error_code pt
    → Ensures
        (λ b v'.
          (b ≡ true)
          × Resolved
              (vmm_current_pml4 v)
              (low_12_clear fault_addr)
              (phys_of (v.mem pt (index 0 (low_12_clear fault_addr))))
              place
              v
              v')
        (λ v'. (v' ≡ v) × (v.pmm.free_frames ≡ 0))
        (vmm_handle_page_fault fault_addr error_code v)
unfolding vmm_handle_page_fault resolve_at
vmm_handle_page_fault_lem place v fault_addr error_code pt h =
    let page = low_12_clear fault_addr in
    let l = last_table (vmm_current_pml4 v) page place v pt h.tree h.found in
    let inside : leb user_space_top fault_addr ≡ false = ground (arith, h.below) in
    rw (h.write_fault, inside, h.found, h.cow)
      (resolve_cow-Copied (vmm_current_pml4 v) page place v h.tree pt l (omega arith) h.cow
        h.no_table h.referenced)
