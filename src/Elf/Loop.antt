-- ===== src/Elf/Loop.antt =====
-- The loop of elf_load_user_image of kernel/proc/elf.c over the program headers, and what it comes to.
use lithium_kernel.Prelude.{
  ℕ, ◌+◌, ◌-◌, ◌*◌, ◌/◌, ◌%◌, ◌≤◌, ◌<◌, max, ◌≡◌, refl, ap, ◌∙◌, ◌⊎◌, inl, inr, Bool, true, false,
  not, ◌&&◌, ◌||◌, List, [], ◌∷◌, arith, ltb, ◌==◌, if◌then◌else◌, Bool-cases, ==→eq, leb,
}
use mathlib.Core.Path.{subst}
use lithium_kernel.Pmm.{add64}
use lithium_kernel.Vmm.{Vmm, vmm_get_physical}
use lithium_kernel.Vmm.Tree.{Place, Tree, Ensures, Ensures-bind, Ensures-weaken}
use lithium_kernel.Vmm.Map.{OutOfPages}
use lithium_kernel.Elf.{
  Phdr, page_size, user_space_top, segment_ok, first_page, page_count, add_pages, Loaded,
  after_segment, load_segments,
}
use lithium_kernel.Elf.Segments.{pages_below, page_in-segment, segment_in-pages}
use lithium_kernel.Elf.Fill.{
  Covers, IsLoadPage, IsLoadBytes, IsFilled, KeepsFilled, Stuck, Added, Elsewhere, AreLoadBytes,
  add_pages_lem,
}

-- The headers that the loop accepts: a PT_LOAD segment passes the checks.
abbrev pub accepted : ℕ → List Phdr → Bool
accepted size [] = true
accepted size (ph ∷ phs) = (not (ph.kind == 1) || segment_ok size ph) && accepted size phs

-- The highest end of the PT_LOAD segments, from `top` on, and whether there is one.
abbrev pub highest_end : List Phdr → ℕ → ℕ
highest_end [] top = top
highest_end (ph ∷ phs) top =
    highest_end phs (if ph.kind == 1 then max top (add64 ph.vaddr ph.memsz) else top)

abbrev pub any_load : List Phdr → Bool
any_load [] = false
any_load (ph ∷ phs) = (ph.kind == 1) || any_load phs

-- No page could be had for one of those pages.
abbrev pub NoRoom : ℕ → List Phdr → Vmm → Type 0
NoRoom root phs v =
    (place : Place) × Tree root place v
    × ((page : ℕ) × IsLoadPage phs page × OutOfPages root page place v)

-- Pages of the user's half in which no segment lies are translated as before.
abbrev pub OthersSame : ℕ → List Phdr → Vmm → Vmm → Type 0
OthersSame root phs v v' =
    (b : ℕ)
    → b % page_size ≡ 0
    → b < user_space_top
    → ¬ IsLoadPage phs b
    → vmm_get_physical v' root b ≡ vmm_get_physical v root b

-- What the loop comes to when it goes through: `phs` is what it still has of the headers `all`.
pub record IsLoaded (root : ℕ) (file : ℕ → ℕ) (all : List Phdr) (size : ℕ) (phs : List Phdr)
    (l : Loaded) (old : Place) (v : Vmm) (l' : Loaded) (v' : Vmm) : Type 0 where
  pub all_ok : accepted size phs ≡ true
  pub highest : l'.highest ≡ highest_end phs l.highest
  pub saw_load : l'.saw_load ≡ (any_load phs || l.saw_load)
  pub place : Place
  pub tree : Tree root place v'
  pub pages : (page : ℕ) → IsLoadPage phs page → IsFilled root file all page place v'
  pub keeps : KeepsFilled root file all old v place v'
  pub others : OthersSame root phs v v'

or_true : (b : Bool) → (b || true) ≡ true
or_true true = refl
or_true false = refl

-- The pages that a segment does not cover lie below or above those of its loop.
outside :
    (size : ℕ) (ph : Phdr) (b : ℕ)
    → ph.kind ≡ 1
    → segment_ok size ph ≡ true
    → b % page_size ≡ 0
    → ¬ Covers ph b
    → (b < first_page ph) ⊎ (first_page ph + page_count ph * page_size ≤ b)
outside size ph b k h al clear =
    elim (Bool-cases (leb (first_page ph) b && ltb b (first_page ph + page_count ph * page_size))) [
      | inr out ↦ ground (arith, out)
      | inl within ↦
          let j = (b - first_page ph) / page_size in
          let less : j < page_count ph = ground (arith, within) in
          let there : first_page ph + j * page_size ≡ b = ground (arith, within, al) in
          let (low, high) = page_in-segment size ph j h less in
          absurd (clear (k, al, omega (arith, low, there), omega (arith, high, there)))
    ]

module _ (root : ℕ) (file : ℕ → ℕ) (all : List Phdr) (size : ℕ) where
  segment_first :
      (ph : Phdr) (phs : List Phdr) (l l' : Loaded) (old : Place) (v x y : Vmm)
      → ph.kind ≡ 1
      → segment_ok size ph ≡ true
      → (a : Added root file all (first_page ph) (page_count ph) old v x)
      → Elsewhere root file all (first_page ph) (page_count ph) v x
      → IsLoaded root file all size phs (after_segment ph l) a.0 x l' y
      → IsLoaded root file all size (ph ∷ phs) l old v l' y
  segment_first ph phs l l' old v x y k h (mid, _, pages, keeps) same i =
      let is_load : (ph.kind == 1) ≡ true = ground (arith, k) in
      let top = add64 ph.vaddr ph.memsz in
      let higher : (if ltb l.highest top then top else l.highest) ≡ max l.highest top =
        ground arith in
      record {
        all_ok = rw (is_load, h) i.all_ok;
        highest = rw is_load (i.highest ∙ ap (highest_end phs) higher);
        saw_load = rw is_load (i.saw_load ∙ or_true (any_load phs));
        place = i.place;
        tree = i.tree;
        pages = λ page p. elim p [
          | inr later ↦ i.pages page later
          | inl (_, al, a, b) ↦
              let (j, m, e) = segment_in-pages size ph page h al a b in
              i.keeps page al (omega (arith, pages_below size ph h, e, m))
                (subst (λ q. IsFilled root file all q mid x) e (pages j m))
        ];
        keeps = λ b a u f. i.keeps b a u (keeps b a u f);
        others = λ b a u clear.
            i.others b a u (λ later. clear (inr later))
            ∙ same b a u (outside size ph b k h a (λ c. clear (inl c)));
      }

  segment_skipped :
      (ph : Phdr) (phs : List Phdr) (l l' : Loaded) (old : Place) (v y : Vmm)
      → (ph.kind == 1) ≡ false
      → IsLoaded root file all size phs l old v l' y
      → IsLoaded root file all size (ph ∷ phs) l old v l' y
  segment_skipped ph phs l l' old v y k i = record {
    all_ok = rw k i.all_ok;
    highest = rw k i.highest;
    saw_load = rw k i.saw_load;
    place = i.place;
    tree = i.tree;
    pages = λ page p. elim p [
      | inr later ↦ i.pages page later
      | inl (e, _, _, _) ↦ absurd (ground (arith, e, k))
    ];
    keeps = i.keeps;
    others = λ b a u clear. i.others b a u (λ later. clear (inr later));
  }

  later_page :
      (ph : Phdr) (phs : List Phdr) (v : Vmm) → NoRoom root phs v → NoRoom root (ph ∷ phs) v
  later_page ph phs v (place, tree, (page, p, why)) = (place, tree, (page, inr p, why))

  Stuck-NoRoom :
      (ph : Phdr) (phs : List Phdr) (v : Vmm)
      → ph.kind ≡ 1
      → segment_ok size ph ≡ true
      → Stuck root file all (first_page ph) (page_count ph) v
      → NoRoom root (ph ∷ phs) v
  Stuck-NoRoom ph phs v k h (place, tree, (j, m, why)) =
      let (a, b) = page_in-segment size ph j h m in
      (place, tree, (first_page ph + j * page_size, inl (k, omega arith, a, b), why))

  -- The headers `phs` are among `all`.
  abbrev AreAmong : List Phdr → Type 0
  AreAmong phs =
      (page : ℕ) (bytes : ℕ → ℕ) → IsLoadBytes file phs page bytes → IsLoadBytes file all page bytes

  among-AreLoadBytes :
      (ph : Phdr) (phs : List Phdr)
      → ph.kind ≡ 1
      → segment_ok size ph ≡ true
      → AreAmong (ph ∷ phs)
      → AreLoadBytes root file all ph (first_page ph) (page_count ph)
  among-AreLoadBytes ph phs k h among j m bytes is =
      let (a, b) = page_in-segment size ph j h m in
      among (first_page ph + j * page_size) bytes (inl ((k, omega arith, a, b), is))

  pub load_segments_lem :
      (phs : List Phdr) (l : Loaded) (place : Place) (v : Vmm)
      → Tree root place v
      → AreAmong phs
      → Ensures
          (λ l' v'. IsLoaded root file all size phs l place v l' v')
          (λ v'. (accepted size phs ≡ false) ⊎ NoRoom root phs v')
          (load_segments root file size phs l v)
  unfolding load_segments
  load_segments_lem [] l place v w among = record {
    all_ok = refl;
    highest = refl;
    saw_load = refl;
    place = place;
    tree = w;
    pages = λ page p. absurd p;
    keeps = λ b a u f. f;
    others = λ b a u clear. refl;
  }
  load_segments_lem (ph ∷ phs) l place v w among = elim (Bool-cases (ph.kind == 1)) [
    | inr k ↦
        rw (k, load_segments)
          (Ensures-weaken (λ l' v'. IsLoaded root file all size phs l place v l' v') _
            (λ v'. (accepted size phs ≡ false) ⊎ NoRoom root phs v') _
            (load_segments root file size phs l v)
            (load_segments_lem phs l place v w (λ page bytes b. among page bytes (inr b)))
            (λ l' v' i. segment_skipped ph phs l l' place v v' k i)
            (λ v' e. elim e [ inl b ↦ inl b | inr r ↦ inr (later_page ph phs v' r) ]))
    | inl k ↦ elim (Bool-cases (segment_ok size ph)) [
      | inr h ↦ rw (k, h) (inl refl)
      | inl h ↦
          let is_load = ==→eq ph.kind 1 k in
          let Pages = λ (_ : Unit {0}) (x : Vmm).
            Added root file all (first_page ph) (page_count ph) place v x
            × Elsewhere root file all (first_page ph) (page_count ph) v x in
          rw (k, h, load_segments)
            (Ensures-bind Pages _ _ _
              (add_pages root file size ph (page_count ph) (first_page ph) v)
              (Ensures-weaken Pages _ (Stuck root file all (first_page ph) (page_count ph)) _ _
                (add_pages_lem root file all size ph (page_count ph) (first_page ph) place v w h
                  (omega arith) (pages_below size ph h) (among-AreLoadBytes ph phs is_load h among))
                (λ _ x a. a) (λ x st. inr (Stuck-NoRoom ph phs x is_load h st)))
              (λ _ x (a, same).
                Ensures-weaken
                  (λ l' y. IsLoaded root file all size phs (after_segment ph l) a.0 x l' y) _
                  (λ y. (accepted size phs ≡ false) ⊎ NoRoom root phs y) _ _
                  (load_segments_lem phs (after_segment ph l) a.0 x a.1
                    (λ page bytes b. among page bytes (inr b)))
                  (λ l' y i. segment_first ph phs l l' place v x y is_load h a same i)
                  (λ y e. elim e [ inl b ↦ inl b | inr r ↦ inr (later_page ph phs y r) ])))
    ]
  ]
