-- ===== src/Pmm/Boot.antt =====
-- The regions and pmm_init of kernel/mm/pmm.c: from the boot memory map to the first bitmap.
pub mod Regions
pub mod Init
use lithium_kernel.Prelude.{
  ℕ, zero, suc, ◌+◌, ◌-◌, ◌*◌, ◌/◌, ◌%◌, ◌^◌, ◌≤◌, ◌<◌, min, max, ◌≡◌, refl, sym, ap, ◌∙◌, ◌≢◌, ◌⊎◌,
  inl, inr, Bool, true, false, not, ◌&&◌, ◌||◌, Option, none, some, List, [], ◌∷◌, ◌++◌, map, arith,
  ltb, leb, ◌==◌, if◌then◌else◌, lt→ltb, ltb→lt, leb→le, ==_iff, ==→eq, Bool-cases, Option-cases,
  update, Outcome, ok, halted, kassert, count, count-congr, count-clear, count-pos, count_witness,
  count-le, length, get_elem?, get_or, set, take, drop, replicate, length-append, length-set,
  get_elem?-set_self, get_elem?-set_ne, take-append-drop, length-take, length-drop,
  length-replicate, take_append, drop_append, take_all,
}
use lithium_kernel.Pmm.{
  Pmm, frame_size, max_frames, frame_is_free, mark_free, mark_used, mark_free_from, mark_used_from,
  region_mark_free, region_mark_used, add64, frames_up,
}
use lithium_kernel.Pmm.Bitmap.{HasBytes, is_free-set_used, is_free-set_free}
use lithium_kernel.Pmm.Inv.{Inv, mark_used-Inv, mark_free-Inv}

-- HVM_MMAP_RAM and MB2_MMAP_AVAILABLE are both 1.
abbrev pub ram_type : ℕ
ram_type = 1

-- An entry of the boot memory map (`hvm_memmap_entry_t` and `mb2_mmap_entry_t`).
pub record MemEntry : Type 0 where
  pub addr : ℕ
  pub size : ℕ
  pub kind : ℕ

abbrev is_ram : MemEntry → Bool
is_ram e = e.kind == ram_type

-- `if (end > top) top = end;` over the map
pub top_address : List MemEntry → ℕ → ℕ
top_address [] top = top
top_address (e ∷ es) top =
    let end = add64 e.addr e.size in top_address es (if is_ram e && ltb top end then end else top)

-- `pmm_calc_total_frames_pvh`, and the same loop over Multiboot2 entries.
pub calc_total_frames : List MemEntry → ℕ
calc_total_frames map =
    let top = top_address map 0 in
    (if ltb (max_frames * frame_size) top then max_frames * frame_size else top) / frame_size

-- The map's RAM entries are marked free, one after the other.
pub mark_map : Pmm → List MemEntry → Pmm
mark_map p [] = p
mark_map p (e ∷ es) = mark_map (if is_ram e then region_mark_free p e.addr e.size else p) es

-- All frames used, without references: both arrays after the `memset` calls.
pub all_used : ℕ → Pmm
all_used total = record {
  bitmap = λ i. 255;
  refcount = λ f. 0;
  total_frames = total;
  free_frames = 0;
  next_hint = 0;
}

-- What the boot protocol hands over, once its structures are located: no usable map at all is the
-- branch that panics.
pub data BootMap : Type 0 where
  memory_map : List MemEntry → BootMap
  unsupported : BootMap

-- `pmm_init`, with the address that the linker gives `_kernel_end`.
pub init : BootMap → ℕ → Outcome Pmm
init unsupported kernel_end = halted
init (memory_map map) kernel_end =
    let p = mark_map (all_used (calc_total_frames map)) map in
    kassert (ltb 0 p.total_frames) (
      ok (
        region_mark_used (region_mark_used (record p { next_hint = 0 }) 0 0x100000) 0x100000
          ((kernel_end + 2 ^ 64 - 0x100000) % 2 ^ 64)))
