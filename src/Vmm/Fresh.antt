-- ===== src/Vmm/Fresh.antt =====
-- A page that is made and mapped: a frame is taken, filled, and mapped by vmm_map_page of kernel/mm/vmm.c,
-- or given back when that fails.
use lithium_kernel.Prelude.{
  ℕ, ◌+◌, ◌*◌, ◌/◌, ◌%◌, ◌≡◌, ◌≢◌, refl, ap, ◌∙◌, inl, inr, true, false, none, some, List, arith,
  ◌==◌, update, Bool-cases, ==→eq,
}
use mathlib.Core.Path.{subst}
use lithium_kernel.Pmm.{Pmm, frame_is_free}
use lithium_kernel.Pmm.Alloc.{Allocated, alloc_frame_lem}
use lithium_kernel.Pmm.Release.{IsReferenced, Dropped, free_frame_lem}
use lithium_kernel.Vmm.{
  Vmm, Run, M, bind, ◌>>=◌, alloc, free, fail, vmm_map_page, vmm_get_physical, phys_of,
}
use lithium_kernel.Vmm.Space.{or_free}
use lithium_kernel.Vmm.Tree.{Place, Tree, Ensures, Ensures-weaken}
use lithium_kernel.Vmm.Leaf.{page_of}
use lithium_kernel.Vmm.Data.{other_row, data-Tree, data_same}
use lithium_kernel.Vmm.Grow.{fresh_page, fresh_frame, fresh-IsFrame, fresh-IsReferenced}
use lithium_kernel.Vmm.Map.{OutOfPages, Refused-OutOfPages, Unchanged, Mapped, vmm_map_page_lem}

-- Giving back a frame that is no table.
freed-Tree :
    (root : ℕ) (place : Place) (x : Vmm) (phys : ℕ) (q : Pmm)
    → Tree root place x
    → place phys ≡ none
    → phys % 4096 ≡ 0
    → Dropped x.pmm (phys / 4096) q
    → Tree root place (record x { pmm = q })
freed-Tree root place x phys q w n a d =
    data-Tree root place x q x.mem w (λ t p h. refl) d.valid
      (λ t p h. elim (Bool-cases (phys / 4096 == t / 4096)) [
        | inl e ↦
            let same : t ≡ phys =
              omega (arith, ==→eq (phys / 4096) (t / 4096) e, (w.frames t p h).aligned) in
            cc (h, n, ap place same)
        | inr e ↦ ground (arith, d.freed (t / 4096), e, w.in_use t p h)
      ])

-- The frame for a page that could not be mapped was given back.
pub record GivenBack (root virt : ℕ) (x y : Vmm) : Type 0 where
  pub place : Place
  pub tree : Tree root place y
  pub why : OutOfPages root virt place y
  pub same_next : y.kheap_next ≡ x.kheap_next
  pub same_cr3 : y.cr3 ≡ x.cr3
  pub same : (b : ℕ) → vmm_get_physical y root b ≡ vmm_get_physical x root b

pub give_back :
    (Q : Unit {0} → Vmm → Type 0) (root virt phys : ℕ) (place : Place) (x y : Vmm)
    → place phys ≡ none
    → IsReferenced x.pmm phys
    → Unchanged root virt place x y
    → Ensures Q (GivenBack root virt x) (bind (free phys y) (λ _. fail))
give_back Q root virt phys place x y n r u = elim (free_frame_lem y.pmm phys u.tree.valid) [
  | inl (r', (q, eq, d)) ↦ rw eq (record {
    place = u.place;
    tree = freed-Tree root u.place y phys q u.tree (u.untouched phys r.used n) r'.aligned d;
    why = Refused-OutOfPages root virt u.place y q u.why (ground (arith, d.counter));
    same_next = u.same_next;
    same_cr3 = u.same_cr3;
    same = λ b. data_same root u.place y q y.mem u.tree (λ t p h. refl) b ∙ u.same b;
  })
  | inr (unreferenced, _) ↦ absurd (unreferenced (u.referenced phys r))
]

pub or_free_lem :
    {A : Type 0} (Q : A → Vmm → Type 0) (E F : Vmm → Type 0) (phys : ℕ) (r : Run A)
    → Ensures Q E r
    → ((y : Vmm) → E y → Ensures Q F (bind (free phys y) (λ _. fail)))
    → Ensures Q F (or_free phys r)
or_free_lem Q E F phys (Run.done a v) h k = h
or_free_lem Q E F phys (Run.failed v) h k = k v h
or_free_lem Q E F phys Run.stopped h k = h

-- The page at `virt` is mapped to a frame that was free, which holds the words of `row`. Pages in use that are
-- no tables keep their words.
pub record FreshPage (root virt : ℕ) (row : ℕ → ℕ) (old : Place) (v v' : Vmm) : Type 0 where
  pub place : Place
  pub tree : Tree root place v'
  pub frame : ℕ
  pub was_free : frame_is_free v.pmm.bitmap frame ≡ true
  pub translated : vmm_get_physical v' root virt ≡ some (frame * 4096 + virt % 4096)
  pub words : (i : ℕ) → v'.mem (frame * 4096) i ≡ row i
  pub elsewhere :
      (b : ℕ) → page_of b ≢ page_of virt → vmm_get_physical v' root b ≡ vmm_get_physical v root b
  pub no_table : place (frame * 4096) ≡ none
  pub in_use : frame_is_free v'.pmm.bitmap frame ≡ false
  pub contents :
      (page : ℕ)
      → frame_is_free v.pmm.bitmap (page / 4096) ≡ false
      → old page ≡ none
      → (v'.mem page ≡ v.mem page)
        × (place page ≡ none)
        × (frame_is_free v'.pmm.bitmap (page / 4096) ≡ false)

-- Every page is translated as before, since there was no page for `virt`.
pub record Untouched (root virt : ℕ) (v v' : Vmm) : Type 0 where
  pub place : Place
  pub tree : Tree root place v'
  pub why : OutOfPages root virt place v'
  pub same : (b : ℕ) → vmm_get_physical v' root b ≡ vmm_get_physical v root b

-- What is done to the page of a frame that was taken.
abbrev pub filled : ℕ → (ℕ → ℕ) → Vmm → Vmm
filled page row v = record v { mem = update v.mem page row }

-- With the frame `f` taken and its page filled.
module _ (root virt flags : ℕ) (row : ℕ → ℕ) (place : Place) (v : Vmm) (w : Tree root place v)
    (f : ℕ) (q : Pmm) (a : Allocated v.pmm f q) where
  abbrev taken : Vmm
  taken = filled (f * 4096) row (record v { pmm = q })

  tables : (t : ℕ) (p : List ℕ) → place t ≡ some p → taken.mem t ≡ v.mem t
  tables t p at = other_row place t (f * 4096) row p v.mem at (fresh_page root place v w f q a)

  taken-Tree : Tree root place taken
  taken-Tree =
      data-Tree root place v q taken.mem w tables a.valid
        (λ t p at. ground (arith, a.used (t / 4096), w.in_use t p at))

  taken_same : (b : ℕ) → vmm_get_physical taken root b ≡ vmm_get_physical v root b
  taken_same = data_same root place v q taken.mem w tables

  still_used :
      (page : ℕ)
      → frame_is_free v.pmm.bitmap (page / 4096) ≡ false
      → frame_is_free q.bitmap (page / 4096) ≡ false
  still_used page u = ground (arith, a.used (page / 4096), u)

  Mapped-FreshPage :
      (y : Vmm) → Mapped root virt (f * 4096) place taken y → FreshPage root virt row place v y
  Mapped-FreshPage y m =
      let r = fresh-IsReferenced root place v w f q a in
      let n = fresh-IsFrame root place v w f q a in
      let bound = n.masked in
      let whole : phys_of (f * 4096) ≡ f * 4096 = omega arith in
      let back : f * 4096 / 4096 ≡ f = omega arith in
      let own = m.contents (f * 4096) r.used (fresh_page root place v w f q a) in
      record {
        place = m.place;
        tree = m.tree;
        frame = f;
        was_free = a.was_free;
        translated = m.translated ∙ ap (λ (x : ℕ). some (x + virt % 4096)) whole;
        words = λ i. ap (λ (row : ℕ → ℕ). row i) own.0 ∙ ground arith;
        no_table = own.1;
        in_use = subst (λ g. frame_is_free y.pmm.bitmap g ≡ false) back own.2;
        contents = λ page u none_there.
            let (same, no_table, used) = m.contents page (still_used page u) none_there in
            let other : (f * 4096 == page) ≡ false = fresh_frame root place v w f q a page u in
            (same ∙ rw other refl, no_table, used);
        elsewhere = λ b ne. m.elsewhere b ne ∙ taken_same b;
      }

  GivenBack-Untouched : (y : Vmm) → GivenBack root virt taken y → Untouched root virt v y
  GivenBack-Untouched y g = record {
    place = g.place;
    tree = g.tree;
    why = g.why;
    same = λ b. g.same b ∙ taken_same b;
  }

  map_filled :
      Ensures
        (λ _ y. FreshPage root virt row place v y)
        (Untouched root virt v)
        (or_free (f * 4096) (vmm_map_page root virt (f * 4096) flags taken))
  map_filled =
      let Q = λ (_ : Unit {0}) (y : Vmm). Mapped root virt (f * 4096) place taken y in
      let no_table = fresh_page root place v w f q a in
      let run = vmm_map_page root virt (f * 4096) flags taken in
      Ensures-weaken Q (λ _ y. FreshPage root virt row place v y) (GivenBack root virt taken)
        (Untouched root virt v) (or_free (f * 4096) run)
        (or_free_lem Q (Unchanged root virt place taken) (GivenBack root virt taken) (f * 4096) run
          (vmm_map_page_lem root virt (f * 4096) flags place taken taken-Tree)
          (λ y u.
            give_back Q root virt (f * 4096) place taken y no_table
              (fresh-IsReferenced root place v w f q a) u))
        (λ _. Mapped-FreshPage) GivenBack-Untouched

-- Taking a frame, filling its page, and mapping it or giving it back.
abbrev pub map_fresh : ℕ → ℕ → ℕ → (ℕ → ℕ) → M (Unit {0})
map_fresh root virt flags row =
    alloc >>= λ phys v. or_free phys (vmm_map_page root virt phys flags (filled phys row v))

pub map_fresh_lem :
    (root virt flags : ℕ) (row : ℕ → ℕ) (place : Place) (v : Vmm)
    → Tree root place v
    → Ensures
        (λ _ v'. FreshPage root virt row place v v')
        (Untouched root virt v)
        (map_fresh root virt flags row v)
map_fresh_lem root virt flags row place v w = elim (alloc_frame_lem v.pmm w.valid) [
  | inl (z, eq) ↦
      rw eq (record { place = place; tree = w; why = inl (omega arith); same = λ b. refl })
  | inr (f, q, eq, a) ↦ rw eq (map_filled root virt flags row place v w f q a)
]
