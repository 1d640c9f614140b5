-- ===== src/Elf/Fill.antt =====
-- One page, and the pages of a segment, of the loader of kernel/proc/elf.c, on the tables of kernel/mm/vmm.c.
use lithium_kernel.Prelude.{
  ℕ, zero, suc, ◌+◌, ◌-◌, ◌*◌, ◌/◌, ◌%◌, ◌≤◌, ◌<◌, ◌≡◌, refl, sym, ap, ◌∙◌, ◌⊎◌, inl, inr, true,
  false, ◌&&◌, none, some, List, [], ◌∷◌, arith, ltb, leb, ◌==◌, if◌then◌else◌, Bool-cases, ==→eq,
}
use mathlib.Core.Path.{subst}
use lithium_kernel.Pmm.{frame_is_free}
use lithium_kernel.Vmm.{Vmm, vmm_get_physical}
use lithium_kernel.Vmm.Tree.{Place, Tree, Ensures, Ensures-bind, Ensures-weaken}
use lithium_kernel.Vmm.Map.{OutOfPages}
use lithium_kernel.Vmm.Fresh.{FreshPage, Untouched, map_fresh, map_fresh_lem}
use lithium_kernel.Elf.{
  Phdr, page_size, user_space_top, segment_ok, words_of, segment_flags, map_frame, map_segment_page,
  add_pages,
}
use lithium_kernel.Elf.Segments.{segment_page_lem}

-- The bytes that belong into a page: the file's where the segment has one for the address, and 0 elsewhere.
abbrev pub IsPageOf : (ℕ → ℕ) → Phdr → ℕ → (ℕ → ℕ) → Type 0
IsPageOf file ph page bytes =
    (i : ℕ)
    → i < page_size
    → bytes i ≡ (
        if leb ph.vaddr (page + i) && ltb (page + i) (ph.vaddr + ph.filesz)
        then file (ph.offset + (page + i - ph.vaddr))
        else 0)

-- One page of a segment that passes the checks: a new frame with the bytes that belong there, or no page.
pub map_segment_page_lem :
    (root page : ℕ) (file : ℕ → ℕ) (size : ℕ) (ph : Phdr) (place : Place) (v : Vmm)
    → Tree root place v
    → segment_ok size ph ≡ true
    → page % page_size ≡ 0
    → Ensures
        (λ _ v'.
          (bytes : ℕ → ℕ) × IsPageOf file ph page bytes
          × FreshPage root page (words_of bytes) place v v')
        (Untouched root page v)
        (map_segment_page root page file size ph v)
unfolding map_segment_page map_frame
map_segment_page_lem root page file size ph place v w h aligned =
    let (bytes, e, is) = segment_page_lem file size ph page h aligned in
    let start : page / page_size * page_size ≡ page = omega arith in
    let Q = λ (_ : Unit {0}) (v' : Vmm).
      (bytes : ℕ → ℕ) × IsPageOf file ph page bytes
      × FreshPage root page (words_of bytes) place v v' in
    rw e (
      subst
        (λ a.
          Ensures Q (Untouched root page v)
            (map_fresh root a (segment_flags ph) (words_of bytes) v))
        (sym start)
        (Ensures-weaken (λ _ v'. FreshPage root page (words_of bytes) place v v') Q
          (Untouched root page v) _ (map_fresh root page (segment_flags ph) (words_of bytes) v)
          (map_fresh_lem root page (segment_flags ph) (words_of bytes) place v w)
          (λ _ v' f. (bytes, is, f)) (λ v' u. u)))

-- A page with an address of some PT_LOAD segment, and what one of the segments puts there.
abbrev pub Covers : Phdr → ℕ → Type 0
Covers ph page =
    (ph.kind ≡ 1)
    × (page % page_size ≡ 0)
    × (ph.vaddr < page + page_size)
    × (page < ph.vaddr + ph.memsz)

abbrev pub IsLoadPage : List Phdr → ℕ → Type 0
IsLoadPage [] page = ⊥
IsLoadPage (ph ∷ phs) page = Covers ph page ⊎ IsLoadPage phs page

abbrev pub IsLoadBytes : (ℕ → ℕ) → List Phdr → ℕ → (ℕ → ℕ) → Type 0
IsLoadBytes file [] page bytes = ⊥
IsLoadBytes file (ph ∷ phs) page bytes =
    (Covers ph page × IsPageOf file ph page bytes) ⊎ IsLoadBytes file phs page bytes

-- The page at an address has a frame of its own, with the bytes that one of the segments puts there.
pub record IsFilled (root : ℕ) (file : ℕ → ℕ) (all : List Phdr) (page : ℕ) (place : Place) (v : Vmm)
    : Type 0 where
  pub frame : ℕ
  pub translated : vmm_get_physical v root page ≡ some (frame * 4096)
  pub no_table : place (frame * 4096) ≡ none
  pub in_use : frame_is_free v.pmm.bitmap frame ≡ false
  pub bytes : ℕ → ℕ
  pub are_bytes : IsLoadBytes file all page bytes
  pub words : (i : ℕ) → v.mem (frame * 4096) i ≡ words_of bytes i

-- Pages of the user's half that are filled stay so.
abbrev pub KeepsFilled : ℕ → (ℕ → ℕ) → List Phdr → Place → Vmm → Place → Vmm → Type 0
KeepsFilled root file all place v place' v' =
    (b : ℕ)
    → b % page_size ≡ 0
    → b < user_space_top
    → IsFilled root file all b place v
    → IsFilled root file all b place' v'

module _ (root : ℕ) (file : ℕ → ℕ) (all : List Phdr) where
  fresh-IsFilled :
      (page : ℕ) (bytes : ℕ → ℕ) (place : Place) (v x : Vmm)
      (f : FreshPage root page (words_of bytes) place v x)
      → page % page_size ≡ 0
      → IsLoadBytes file all page bytes
      → IsFilled root file all page f.place x
  fresh-IsFilled page bytes place v x f al is =
      let whole : f.frame * 4096 + page % 4096 ≡ f.frame * 4096 = omega arith in
      record {
        frame = f.frame;
        translated = f.translated ∙ ap some whole;
        no_table = f.no_table;
        in_use = f.in_use;
        bytes = bytes;
        are_bytes = is;
        words = f.words;
      }

  fresh-KeepsFilled :
      (page : ℕ) (bytes : ℕ → ℕ) (place : Place) (v x : Vmm)
      (f : FreshPage root page (words_of bytes) place v x)
      → page % page_size ≡ 0
      → page < user_space_top
      → IsLoadBytes file all page bytes
      → KeepsFilled root file all place v f.place x
  fresh-KeepsFilled page bytes place v x f al u is b al' u' i = elim (Bool-cases (page == b)) [
    | inl q ↦
        subst (λ a. IsFilled root file all a f.place x) (==→eq page b q)
          (fresh-IsFilled page bytes place v x f al is)
    | inr q ↦
        let number : i.frame * 4096 / 4096 ≡ i.frame = omega arith in
        let used = subst (λ g. frame_is_free v.pmm.bitmap g ≡ false) (sym number) i.in_use in
        let (same, no_table, still) = f.contents (i.frame * 4096) used i.no_table in
        record {
          frame = i.frame;
          translated =
              f.elsewhere b (λ e. absurd (ground (arith, e, q, al, al', u, u'))) ∙ i.translated;
          no_table = no_table;
          in_use = subst (λ g. frame_is_free x.pmm.bitmap g ≡ false) number still;
          bytes = i.bytes;
          are_bytes = i.are_bytes;
          words = λ k. ap (λ (row : ℕ → ℕ). row k) same ∙ i.words k;
        }
  ]

  abbrev pub HasPages : ℕ → ℕ → Place → Vmm → Type 0
  HasPages page n place v = (j : ℕ) → j < n → IsFilled root file all (page + j * page_size) place v

  -- The tables after a page could not be had for one of `n` pages.
  abbrev pub Stuck : ℕ → ℕ → Vmm → Type 0
  Stuck page n v =
      (place : Place) × Tree root place v
      × ((j : ℕ) × (j < n) × OutOfPages root (page + j * page_size) place v)

  abbrev pub Added : ℕ → ℕ → Place → Vmm → Vmm → Type 0
  Added page n place v v' =
      (place' : Place) × Tree root place' v'
      × HasPages page n place' v'
      × KeepsFilled root file all place v place' v'

  -- Pages of the user's half outside of `n` pages are translated as before.
  abbrev pub Elsewhere : ℕ → ℕ → Vmm → Vmm → Type 0
  Elsewhere page n v v' =
      (b : ℕ)
      → b % page_size ≡ 0
      → b < user_space_top
      → (b < page) ⊎ (page + n * page_size ≤ b)
      → vmm_get_physical v' root b ≡ vmm_get_physical v root b

  Added-first :
      (page n : ℕ) (bytes : ℕ → ℕ) (place : Place) (v x y : Vmm)
      (f : FreshPage root page (words_of bytes) place v x)
      → page % page_size ≡ 0
      → page < user_space_top
      → IsLoadBytes file all page bytes
      → Added (page + page_size) n f.place x y
      → Added page (suc n) place v y
  Added-first page n bytes place v x y f al u is (place', tree, pages, keeps) = (
    place',
    tree,
    has,
    λ b a l i. keeps b a l (fresh-KeepsFilled page bytes place v x f al u is b a l i),
  )
    where
      has : HasPages page (suc n) place' y
      has zero l =
          let here : page ≡ page + 0 * page_size = omega arith in
          subst (λ a. IsFilled root file all a place' y) here
            (keeps page al u (fresh-IsFilled page bytes place v x f al is))
      has (suc j) l =
          let there : page + page_size + j * page_size ≡ page + suc j * page_size = omega arith in
          subst (λ a. IsFilled root file all a place' y) there (pages j (omega arith))

  Elsewhere-first :
      (page n : ℕ) (row : ℕ → ℕ) (place : Place) (v x y : Vmm)
      → FreshPage root page row place v x
      → page % page_size ≡ 0
      → page < user_space_top
      → Elsewhere (page + page_size) n x y
      → Elsewhere page (suc n) v y
  Elsewhere-first page n row place v x y f al u same b al' u' out =
      same b al' u' (ground (arith, out))
      ∙ f.elsewhere b (λ e. absurd (ground (arith, e, al, al', out, u, u')))

  first-Stuck : (page n : ℕ) (v x : Vmm) → Untouched root page v x → Stuck page (suc n) x
  first-Stuck page n v x st =
      let here : page ≡ page + 0 * page_size = omega arith in
      (st.place, st.tree, (0, omega arith, subst (λ a. OutOfPages root a st.place x) here st.why))

  later-Stuck : (page n : ℕ) (y : Vmm) → Stuck (page + page_size) n y → Stuck page (suc n) y
  later-Stuck page n y (place', tree, (j, l, why)) =
      let there : page + page_size + j * page_size ≡ page + suc j * page_size = omega arith in
      (place', tree, (suc j, omega arith, subst (λ a. OutOfPages root a place' y) there why))

  -- What belongs into the `n` pages is what one of the segments puts there.
  abbrev pub AreLoadBytes : Phdr → ℕ → ℕ → Type 0
  AreLoadBytes ph page n =
      (j : ℕ)
      → j < n
      → (bytes : ℕ → ℕ) → IsPageOf file ph (page + j * page_size) bytes
      → IsLoadBytes file all (page + j * page_size) bytes

  first_bytes :
      (ph : Phdr) (page n : ℕ) (bytes : ℕ → ℕ)
      → AreLoadBytes ph page (suc n)
      → IsPageOf file ph page bytes
      → IsLoadBytes file all page bytes
  first_bytes ph page n bytes are is =
      let here : page ≡ page + 0 * page_size = omega arith in
      subst (λ a. IsLoadBytes file all a bytes) (sym here)
        (are 0 (omega arith) bytes (subst (λ a. IsPageOf file ph a bytes) here is))

  later_bytes :
      (ph : Phdr) (page n : ℕ) → AreLoadBytes ph page (suc n) → AreLoadBytes ph (page + page_size) n
  later_bytes ph page n are j l bytes is =
      let there : page + page_size + j * page_size ≡ page + suc j * page_size = omega arith in
      subst (λ a. IsLoadBytes file all a bytes) (sym there)
        (are (suc j) (omega arith) bytes (subst (λ a. IsPageOf file ph a bytes) there is))

  pub add_pages_lem :
      (size : ℕ) (ph : Phdr) (n page : ℕ) (place : Place) (v : Vmm)
      → Tree root place v
      → segment_ok size ph ≡ true
      → page % page_size ≡ 0
      → page + n * page_size ≤ user_space_top
      → AreLoadBytes ph page n
      → Ensures
          (λ _ v'. Added page n place v v' × Elsewhere page n v v')
          (Stuck page n)
          (add_pages root file size ph n page v)
  unfolding add_pages
  add_pages_lem size ph zero page place v w h al u are =
      ((place, w, (λ j l. absurd (omega arith)), (λ b a l f. f)), (λ b a l o. refl))
  add_pages_lem size ph (suc n) page place v w h al u are =
      Ensures-bind _ (λ _ y. Added page (suc n) place v y × Elsewhere page (suc n) v y)
        (Stuck page (suc n)) _ (map_segment_page root page file size ph v)
        (Ensures-weaken _
          (λ _ x.
            (bytes : ℕ → ℕ) × IsPageOf file ph page bytes
            × FreshPage root page (words_of bytes) place v x)
          (Untouched root page v) (Stuck page (suc n)) (map_segment_page root page file size ph v)
          (map_segment_page_lem root page file size ph place v w h al) (λ _ x f. f)
          (first-Stuck page n v))
        (λ _ x (bytes, is, f).
          Ensures-weaken
            (λ _ y. Added (page + page_size) n f.place x y × Elsewhere (page + page_size) n x y) _
            (Stuck (page + page_size) n) _ _
            (add_pages_lem size ph n (page + page_size) f.place x f.tree h (omega arith)
              (omega arith) (later_bytes ph page n are))
            (λ _ y (a, e). (
              Added-first page n bytes place v x y f al (omega arith)
                  (first_bytes ph page n bytes are is) a,
              Elsewhere-first page n (words_of bytes) place v x y f al (omega arith) e,
            ))
            (later-Stuck page n))
