-- ===== src/Elf.antt =====
-- kernel/proc/elf.c: the checks of the headers, what is put into the pages of a segment, and the loader on
-- the frames and page tables of Vmm. An error is -1.
pub mod Segments
pub mod Fill
pub mod Loop
pub mod Load
mod Examples
use lithium_kernel.Prelude.{
  ℕ, zero, suc, ◌+◌, ◌-◌, ◌*◌, ◌/◌, ◌%◌, ◌^◌, ◌≤◌, ◌<◌, min, max, ◌≡◌, refl, sym, ap, ◌∙◌, ◌≢◌, ◌↔◌,
  ◌⊎◌, inl, inr, Bool, true, false, not, ◌&&◌, ◌||◌, Option, none, some, List, [], ◌∷◌, ◌++◌, map,
  arith, ltb, leb, ◌==◌, if◌then◌else◌, lt→ltb, ltb→lt, leb→le, ==_iff, ==→eq, Bool-cases,
  Option-cases, update, Outcome, ok, halted, kassert, count, count-congr, count-clear, count-pos,
  count_witness, count-le, length, get_elem?, get_or, set, take, drop, replicate, length-append,
  length-set, get_elem?-set_self, get_elem?-set_ne, take-append-drop, length-take, length-drop,
  length-replicate, take_append, drop_append, take_all,
}
use lithium_kernel.Pmm.{add64}
use lithium_kernel.Vmm.{
  Vmm, Run, done, failed, stopped, M, bind, ◌>>=◌, fail, alloc, free, zero_page, align_up64,
  vmm_map_page,
}
use lithium_kernel.Vmm.Space.{or_free}

abbrev pub page_size : ℕ
page_size = 4096

-- `size <= limit && start <= limit - size`
pub range_ok : ℕ → ℕ → ℕ → Bool
range_ok start size limit = leb size limit && leb start (limit - size)

-- The fields of `elf64_ehdr_t` that are read.
pub record Ehdr : Type 0 where
  pub ident : ℕ → ℕ
  pub kind : ℕ
  pub machine : ℕ
  pub version : ℕ
  pub entry : ℕ
  pub phoff : ℕ
  pub ehsize : ℕ
  pub phentsize : ℕ
  pub phnum : ℕ

-- The fields of `elf64_phdr_t` that are read.
pub record Phdr : Type 0 where
  pub kind : ℕ
  pub flags : ℕ
  pub offset : ℕ
  pub vaddr : ℕ
  pub filesz : ℕ
  pub memsz : ℕ
  pub align : ℕ

-- USER_SPACE_TOP
abbrev pub user_space_top : ℕ
user_space_top = 2 ^ 47

-- The early returns of elf_load_user_image before the loop; the headers have 64 and 56 bytes.
pub header_ok : ℕ → Ehdr → Bool
header_ok image_size eh =
    leb 64 image_size
    && ((eh.ident 0 == 0x7f)
        && (eh.ident 1 == b'E')
        && (eh.ident 2 == b'L')
        && (eh.ident 3 == b'F'))
    && ((eh.ident 4 == 2) && (eh.ident 5 == 1))
    && ((eh.kind == 2) && (eh.machine == 62) && (eh.version == 1))
    && ((eh.ehsize == 64) && (eh.phentsize == 56) && not (eh.phnum == 0) && leb eh.phnum 32)
    && range_ok eh.phoff (eh.phnum * eh.phentsize) image_size
    && (not (eh.entry == 0) && ltb eh.entry user_space_top)

-- The early returns of the loop for a PT_LOAD segment.
pub segment_ok : ℕ → Phdr → Bool
segment_ok image_size ph =
    not (ltb ph.memsz ph.filesz || (ph.memsz == 0))
    && range_ok ph.offset ph.filesz image_size
    && range_ok ph.vaddr ph.memsz user_space_top
    && ((ph.align == 0) || (ph.align == page_size))

-- The first page of a segment, ALIGN_DOWN of its start, and how many there are up to ALIGN_UP of its end.
abbrev pub first_page : Phdr → ℕ
first_page ph = ph.vaddr / page_size * page_size

abbrev pub page_count : Phdr → ℕ
page_count ph = add64 (add64 ph.vaddr ph.memsz) 4095 / page_size - ph.vaddr / page_size

-- The bytes of the frame, by the offset into it: zeros, and the part of the file that belongs there;
-- `none` where the part is not in the file.
pub segment_page : (ℕ → ℕ) → ℕ → Phdr → ℕ → Option (ℕ → ℕ)
segment_page file file_size ph virt =
    let page_start = virt / page_size * page_size in
    let page_end = page_start + page_size in
    let copy_start = max page_start ph.vaddr in
    let copy_end = min page_end (add64 ph.vaddr ph.filesz) in
    let file_off = ph.offset + (copy_start - ph.vaddr) in
    if ltb copy_start copy_end
    then (if not (range_ok file_off (copy_end - copy_start) file_size)
        then none
        else some (λ i.
          if leb (copy_start - page_start) i && ltb i (copy_end - page_start)
          then file (file_off + (i - (copy_start - page_start)))
          else 0))
    else some (λ i. 0)

-- The words of a page by its bytes, the low byte first.
pub word_from : ℕ → (ℕ → ℕ) → ℕ → ℕ
word_from zero bytes a = 0
word_from (suc n) bytes a = bytes a % 256 + 256 * word_from n bytes (a + 1)

pub words_of : (ℕ → ℕ) → ℕ → ℕ
unfolding word_from
words_of bytes i = word_from 8 bytes (8 * i)

-- VMM_USER, with VMM_WRITE for PF_W and VMM_NX without PF_X.
abbrev pub segment_flags : Phdr → ℕ
segment_flags ph =
    4 + (if ph.flags / 2 % 2 == 1 then 2 else 0) + (if ph.flags % 2 == 1 then 0 else 2 ^ 63)

-- The page of the frame at `phys` is filled and mapped; the frame goes back when its part is not in the
-- file, with the zeros of `memset`, and when it cannot be mapped.
pub map_frame : ℕ → ℕ → Phdr → ℕ → Option (ℕ → ℕ) → M (Unit {0})
unfolding words_of
map_frame pml4 virt ph phys none v = bind (free phys (zero_page phys v)) (λ _. fail)
map_frame pml4 virt ph phys (some bytes) v = or_free phys (
    vmm_map_page pml4 (virt / page_size * page_size) phys (segment_flags ph)
      (record v { mem = update v.mem phys (words_of bytes) }))

pub map_segment_page : ℕ → ℕ → (ℕ → ℕ) → ℕ → Phdr → M (Unit {0})
map_segment_page pml4 virt file file_size ph =
    alloc >>= λ phys. map_frame pml4 virt ph phys (segment_page file file_size ph virt)

-- The loop over the pages of a segment, `n` rounds left.
pub add_pages : ℕ → (ℕ → ℕ) → ℕ → Phdr → ℕ → ℕ → M (Unit {0})
add_pages pml4 file file_size ph zero page v = done tt v
add_pages pml4 file file_size ph (suc n) page v =
    bind (map_segment_page pml4 page file file_size ph v)
      (λ _. add_pages pml4 file file_size ph n (page + page_size))

-- What the loop over the segments has found: the highest end, and whether one was loaded.
pub record Loaded : Type 0 where
  pub highest : ℕ
  pub saw_load : Bool

abbrev pub after_segment : Phdr → Loaded → Loaded
after_segment ph l =
    let top = add64 ph.vaddr ph.memsz in
    record { highest = if ltb l.highest top then top else l.highest; saw_load = true }

-- The loop over the program headers. The pages of an image that fails stay mapped.
pub load_segments : ℕ → (ℕ → ℕ) → ℕ → List Phdr → Loaded → M Loaded
load_segments pml4 file file_size [] l v = done l v
load_segments pml4 file file_size (ph ∷ phs) l v =
    let skip = load_segments pml4 file file_size phs l v in
    if not (ph.kind == 1)
    then skip
    else if not (segment_ok file_size ph)
    then failed v
    else bind (add_pages pml4 file file_size ph (page_count ph) (first_page ph) v)
        (λ _. load_segments pml4 file file_size phs (after_segment ph l))

-- `elf_user_image_t`
pub record UserImage : Type 0 where
  pub entry : ℕ
  pub brk_base : ℕ

abbrev pub image_of : Ehdr → Loaded → M UserImage
image_of eh l v =
    if l.saw_load
    then done (record { entry = eh.entry; brk_base = align_up64 l.highest }) v
    else failed v

-- The program headers are those of the table at `e_phoff`.
pub elf_load_user_image : ℕ → (ℕ → ℕ) → ℕ → Ehdr → List Phdr → M UserImage
elf_load_user_image pml4 file image_size eh phs v =
    if header_ok image_size eh
    then bind (load_segments pml4 file image_size phs (record { highest = 0; saw_load = false }) v)
        (image_of eh)
    else failed v
