-- ===== src/Elf/Load.antt =====
-- What elf_load_user_image of kernel/proc/elf.c comes to: the image that is loaded, or why it is refused.
use lithium_kernel.Prelude.{
  ℕ, ◌≡◌, refl, sym, ap, ◌∙◌, ◌⊎◌, inl, inr, Bool, true, false, ◌||◌, List, Bool-cases,
}
use mathlib.Core.Path.{subst}
use lithium_kernel.Vmm.{Vmm, bind, align_up64}
use lithium_kernel.Vmm.Tree.{Place, Tree, Ensures, Ensures-bind, Ensures-weaken}
use lithium_kernel.Elf.{
  Ehdr, Phdr, header_ok, Loaded, load_segments, UserImage, image_of, elf_load_user_image,
}
use lithium_kernel.Elf.Fill.{IsLoadPage, IsFilled}
use lithium_kernel.Elf.Loop.{
  accepted, highest_end, any_load, NoRoom, OthersSame, IsLoaded, load_segments_lem,
}

-- An image that was loaded.
pub record IsImage (root : ℕ) (file : ℕ → ℕ) (size : ℕ) (eh : Ehdr) (phs : List Phdr) (v : Vmm)
    (image : UserImage) (v' : Vmm) : Type 0 where
  pub header : header_ok size eh ≡ true
  pub all_ok : accepted size phs ≡ true
  pub some_segment : any_load phs ≡ true
  pub entry : image.entry ≡ eh.entry
  pub brk_base : image.brk_base ≡ align_up64 (highest_end phs 0)
  pub place : Place
  pub tree : Tree root place v'
  pub pages : (page : ℕ) → IsLoadPage phs page → IsFilled root file phs page place v'
  pub others : OthersSame root phs v v'

-- Why an image is refused.
abbrev pub WhyRefused : ℕ → ℕ → Ehdr → List Phdr → Vmm → Type 0
WhyRefused root size eh phs v =
    (header_ok size eh ≡ false)
    ⊎ ((accepted size phs ≡ false) ⊎ ((any_load phs ≡ false) ⊎ NoRoom root phs v))

or_false : (b : Bool) → (b || false) ≡ b
or_false true = refl
or_false false = refl

-- On a tree of tables, elf_load_user_image does not halt. If it returns 0, the header and every PT_LOAD segment pass
-- the checks, there is such a segment, the entry is the header's, the break starts at the first page after
-- the highest end of these segments, every page with an address of one of them is translated to a frame in use,
-- no table, that holds the bytes of the file, and zeros elsewhere, that one of these segments has for the page,
-- and every other page of the user's half is translated as before. If it returns -1, then the header or
-- a PT_LOAD segment fails the checks, or there is no such segment, or no page could be had for one of their
-- pages: at most one frame is free, or the page lies in a 2 MiB page.
pub elf_load_user_image_lem :
    (root : ℕ) (file : ℕ → ℕ) (size : ℕ) (eh : Ehdr) (phs : List Phdr) (place : Place) (v : Vmm)
    → Tree root place v
    → Ensures
        (λ image v'. IsImage root file size eh phs v image v')
        (λ v'. WhyRefused root size eh phs v')
        (elf_load_user_image root file size eh phs v)
unfolding elf_load_user_image
elf_load_user_image_lem root file size eh phs place v w = elim (Bool-cases (header_ok size eh)) [
  | inr bad ↦ rw bad (inl refl)
  | inl good ↦
      let start : Loaded = record { highest = 0; saw_load = false } in
      let run : elf_load_user_image root file size eh phs v
          ≡ bind (load_segments root file size phs start v) (image_of eh) =
        rw good refl in
      subst
        (λ r.
          Ensures (λ image v'. IsImage root file size eh phs v image v')
            (WhyRefused root size eh phs) r)
        (sym run)
        (Ensures-bind (λ l x. IsLoaded root file phs size phs start place v l x) _ _ _
          (load_segments root file size phs start v)
          (Ensures-weaken (λ l x. IsLoaded root file phs size phs start place v l x) _
            (λ x. (accepted size phs ≡ false) ⊎ NoRoom root phs x) _ _
            (load_segments_lem root file phs size phs start place v w (λ page bytes b. b))
            (λ l x i. i) (λ x e. elim e [ inl b ↦ inr (inl b) | inr r ↦ inr (inr (inr r)) ]))
          (λ l x i. finish l x good i))
]
  where
    finish :
        (l : Loaded) (x : Vmm)
        → header_ok size eh ≡ true
        → IsLoaded root file phs size phs (record { highest = 0; saw_load = false }) place v l x
        → Ensures
            (λ image v'. IsImage root file size eh phs v image v')
            (λ v'. WhyRefused root size eh phs v')
            (image_of eh l x)
    finish l x good i = elim (Bool-cases l.saw_load) [
      | inl saw ↦ rw saw (record {
        header = good;
        all_ok = i.all_ok;
        some_segment = sym (or_false (any_load phs)) ∙ sym i.saw_load ∙ saw;
        entry = refl;
        brk_base = ap align_up64 i.highest;
        place = i.place;
        tree = i.tree;
        pages = i.pages;
        others = i.others;
      })
      | inr none_seen ↦
          rw none_seen
            (inr (inr (inl (sym (or_false (any_load phs)) ∙ sym i.saw_load ∙ none_seen))))
    ]
