-- ===== src/Elf/Segments.antt =====
-- The segments of kernel/proc/elf.c: the range checks, and the bytes of their pages.
use lithium_kernel.Prelude.{
  ℕ, ◌+◌, ◌-◌, ◌*◌, ◌/◌, ◌%◌, ◌≤◌, ◌<◌, min, max, ◌≡◌, refl, ap, ◌↔◌, inl, inr, true, false, ◌&&◌,
  some, arith, ltb, leb, if◌then◌else◌, Bool-cases,
}
use lithium_kernel.Pmm.{add64}
use lithium_kernel.Elf.{
  Ehdr, header_ok, Phdr, page_size, user_space_top, range_ok, segment_ok, segment_page, first_page,
  page_count,
}

-- `range_ok` tells whether the range ends at the limit or before, and no difference in it wraps
-- around.
pub range_ok_lem :
    (start size limit : ℕ) → (range_ok start size limit ≡ true) ↔ (start + size ≤ limit)
unfolding range_ok
range_ok_lem start size limit = (λ h. ground (arith, h), λ h. ground arith)

-- What a segment that passes the checks satisfies.
record Checked (image_size : ℕ) (ph : Phdr) : Type 0 where
  fits : ph.filesz ≤ ph.memsz
  some_memory : 0 < ph.memsz
  in_image : ph.offset + ph.filesz ≤ image_size
  in_user : ph.vaddr + ph.memsz ≤ user_space_top

segment_ok-Checked :
    (image_size : ℕ) (ph : Phdr) → segment_ok image_size ph ≡ true → Checked image_size ph
unfolding segment_ok
segment_ok-Checked image_size ph h = record {
  fits = ground (arith, h);
  some_memory = ground (arith, h);
  in_image = (range_ok_lem ph.offset ph.filesz image_size).0 (ground (arith, h));
  in_user = (range_ok_lem ph.vaddr ph.memsz user_space_top).0 (ground (arith, h));
}

-- The byte at one offset, by the range copied and by the segment.
page_byte :
    (file : ℕ → ℕ) (ph : Phdr) (page i : ℕ)
    → i < page_size
    → max page ph.vaddr < min (page + page_size) (ph.vaddr + ph.filesz)
    → (let from = max page ph.vaddr in
        let to = min (page + page_size) (ph.vaddr + ph.filesz) in
        if leb (from - page) i && ltb i (to - page)
        then file (ph.offset + (from - ph.vaddr) + (i - (from - page)))
        else 0)
      ≡ (if leb ph.vaddr (page + i) && ltb (page + i) (ph.vaddr + ph.filesz)
          then file (ph.offset + (page + i - ph.vaddr))
          else 0)
page_byte file ph page i l e =
    let from = max page ph.vaddr in
    let to = min (page + page_size) (ph.vaddr + ph.filesz) in
    elim (Bool-cases (leb ph.vaddr (page + i) && ltb (page + i) (ph.vaddr + ph.filesz))) [
      | inl q ↦
          let copied : (leb (from - page) i && ltb i (to - page)) ≡ true = ground (arith, q) in
          let index : ph.offset + (from - ph.vaddr) + (i - (from - page))
              ≡ ph.offset + (page + i - ph.vaddr) =
            ground (arith, q) in
          rw (q, copied) (ap file index)
      | inr q ↦
          let zeroed : (leb (from - page) i && ltb i (to - page)) ≡ false = ground (arith, q) in
          rw (q, zeroed) refl
    ]

-- For a segment that passes the checks, a page of memory can always be filled: the byte at an
-- address is the file's where the segment has one for it, and 0 everywhere else.
pub segment_page_lem :
    (file : ℕ → ℕ) (image_size : ℕ) (ph : Phdr) (page : ℕ)
    → segment_ok image_size ph ≡ true
    → page % page_size ≡ 0
    → (bytes : ℕ → ℕ) × (segment_page file image_size ph page ≡ some bytes)
      × ((i : ℕ)
          → i < page_size
          → bytes i ≡ (
              if leb ph.vaddr (page + i) && ltb (page + i) (ph.vaddr + ph.filesz)
              then file (ph.offset + (page + i - ph.vaddr))
              else 0))
unfolding segment_page
segment_page_lem file image_size ph page h aligned =
    let c = segment_ok-Checked image_size ph h in
    let in_image = c.in_image in
    let in_user = c.in_user in
    let fits = c.fits in
    let start : page / page_size * page_size ≡ page = omega arith in
    let end : add64 ph.vaddr ph.filesz ≡ ph.vaddr + ph.filesz = omega arith in
    elim (Bool-cases (ltb (max page ph.vaddr) (min (page + page_size) (ph.vaddr + ph.filesz)))) [
      | inr e ↦ rw (start, end, e) (λ i. 0, refl, λ i l. ground (arith, e))
      | inl e ↦
          let from = max page ph.vaddr in
          let to = min (page + page_size) (ph.vaddr + ph.filesz) in
          let inside : range_ok (ph.offset + (from - ph.vaddr)) (to - from) image_size ≡ true =
            (range_ok_lem (ph.offset + (from - ph.vaddr)) (to - from) image_size).1
              (ground (arith, e)) in
          rw (start, end, e, inside)
            (_, refl, λ i l. page_byte file ph page i l (ground (arith, e)))
    ]

-- The pages of a segment that passes the checks lie in user space.
pub pages_below :
    (image_size : ℕ) (ph : Phdr)
    → segment_ok image_size ph ≡ true
    → first_page ph + page_count ph * page_size ≤ user_space_top
pages_below image_size ph h =
    let c = segment_ok-Checked image_size ph h in let in_user = c.in_user in omega arith

-- The pages that the loop goes over are those with an address of the segment.
pub page_in-segment :
    (image_size : ℕ) (ph : Phdr) (j : ℕ)
    → segment_ok image_size ph ≡ true
    → j < page_count ph
    → (ph.vaddr < first_page ph + j * page_size + page_size)
      × (first_page ph + j * page_size < ph.vaddr + ph.memsz)
page_in-segment image_size ph j h l =
    let c = segment_ok-Checked image_size ph h in
    let in_user = c.in_user in (omega arith, omega arith)

pub segment_in-pages :
    (image_size : ℕ) (ph : Phdr) (page : ℕ)
    → segment_ok image_size ph ≡ true
    → page % page_size ≡ 0
    → ph.vaddr < page + page_size
    → page < ph.vaddr + ph.memsz
    → (j : ℕ) × (j < page_count ph) × (first_page ph + j * page_size ≡ page)
segment_in-pages image_size ph page h a l u =
    let c = segment_ok-Checked image_size ph h in
    let in_user = c.in_user in ((page - first_page ph) / page_size, omega arith, omega arith)

-- In an image whose header passes the checks every program header lies inside the image, there are
-- between 1 and 32 of them, and the entry point is in user space.
pub header_ok_lem :
    (size : ℕ) (eh : Ehdr)
    → header_ok size eh ≡ true
    → ((i : ℕ) → i < eh.phnum → eh.phoff + (i + 1) * 56 ≤ size)
      × (0 < eh.phnum)
      × (eh.phnum ≤ 32)
      × (0 < eh.entry)
      × (eh.entry < user_space_top)
unfolding header_ok
header_ok_lem size eh h =
    let entry_size : eh.phentsize ≡ 56 = ground (arith, h) in
    let table : eh.phoff + eh.phnum * eh.phentsize ≤ size =
      (range_ok_lem eh.phoff (eh.phnum * eh.phentsize) size).0 (ground (arith, h)) in
    let table' : eh.phoff + eh.phnum * 56 ≤ size = rw entry_size at table in
    (λ i l. omega arith, ground (arith, h), ground (arith, h), ground (arith, h), ground (arith, h))
