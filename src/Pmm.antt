-- ===== src/Pmm.antt =====
-- kernel/mm/pmm.c, the physical frame allocator: its static variables as a record, and the
-- functions that read and write them. An address is the frame number times 4096.
pub mod Bits
pub mod Bitmap
pub mod Inv
pub mod Alloc
pub mod Release
pub mod Run
pub mod Boot
pub mod Demo
mod Examples
use lithium_kernel.Prelude.{
  ℕ, zero, suc, ◌+◌, ◌-◌, ◌*◌, ◌/◌, ◌%◌, ◌^◌, Bool, true, false, not, ◌||◌, Option, none, some,
  List, [], ◌∷◌, min, bit_and, bit_or, ltb, leb, ◌==◌, if◌then◌else◌, update, Outcome, ok, halted,
  kassert,
}

-- PMM_FRAME_SIZE, PMM_MAX_FRAMES (4 GiB of 4 KiB frames) and UINT16_MAX.
abbrev pub frame_size : ℕ
frame_size = 4096

abbrev pub max_frames : ℕ
max_frames = 2 ^ 20

abbrev pub uint16_max : ℕ
uint16_max = 65535

-- The static variables; an array is a function of its index.
pub record Pmm : Type 0 where
  pub bitmap : ℕ → ℕ
  pub refcount : ℕ → ℕ
  pub total_frames : ℕ
  pub free_frames : ℕ
  pub next_hint : ℕ

-- `1u << (f & 7)`
abbrev pub frame_bit : ℕ → ℕ
frame_bit f = 2 ^ (f % 8)

-- The bit-level helpers, on the array `pmm_bitmap` alone.
pub frame_set_used : (ℕ → ℕ) → ℕ → ℕ → ℕ
frame_set_used bitmap f = update bitmap (f / 8) (bit_or (bitmap (f / 8)) (frame_bit f))

-- `(uint8_t)~x` is `255 - x`.
pub frame_set_free : (ℕ → ℕ) → ℕ → ℕ → ℕ
frame_set_free bitmap f = update bitmap (f / 8) (bit_and (bitmap (f / 8)) (255 - frame_bit f))

pub frame_is_free : (ℕ → ℕ) → ℕ → Bool
frame_is_free bitmap f = bit_and (bitmap (f / 8)) (frame_bit f) == 0

-- The body of the loop of `region_mark_free`.
pub mark_free : Pmm → ℕ → Pmm
mark_free p f = if frame_is_free p.bitmap f then p else record p {
  bitmap = frame_set_free p.bitmap f;
  refcount = update p.refcount f 0;
  free_frames = p.free_frames + 1;
}

-- The body of the loop of `region_mark_used`.
pub mark_used : Pmm → ℕ → Pmm
mark_used p f =
    if frame_is_free p.bitmap f
    then record p {
      bitmap = frame_set_used p.bitmap f;
      refcount = update p.refcount f 1;
      free_frames = p.free_frames - 1;
    }
    else p

-- `for (f = first; …; f++)` with `k` rounds left.
pub mark_free_from : Pmm → ℕ → ℕ → Pmm
mark_free_from p zero f = p
mark_free_from p (suc k) f = mark_free_from (mark_free p f) k (f + 1)

pub mark_used_from : Pmm → ℕ → ℕ → Pmm
mark_used_from p zero f = p
mark_used_from p (suc k) f = mark_used_from (mark_used p f) k (f + 1)

abbrev pub add64 : ℕ → ℕ → ℕ
add64 a b = (a + b) % 2 ^ 64

-- `ALIGN_UP(v, 4096) / 4096`
abbrev pub frames_up : ℕ → ℕ
frames_up v = add64 v 4095 / frame_size

-- The loops run while `f < last && f < pmm_total_frames`.
pub region_mark_free : Pmm → ℕ → ℕ → Pmm
region_mark_free p base len =
    let first = base / frame_size in
    let last = add64 base len / frame_size in
    mark_free_from p (min last p.total_frames - first) first

pub region_mark_used : Pmm → ℕ → ℕ → Pmm
region_mark_used p base len =
    let first = base / frame_size in
    let last = frames_up (add64 base len) in
    mark_used_from p (min last p.total_frames - first) first

-- The loop over the bits of a byte, `k` rounds left: the first free frame below the total.
pub scan_bits : Pmm → ℕ → ℕ → ℕ → Option ℕ
scan_bits p byte zero bit = none
scan_bits p byte (suc k) bit =
    let rest = scan_bits p byte k (bit + 1) in
    let f = byte * 8 + bit in
    if leb p.total_frames f
    then none
    else if bit_and (p.bitmap byte) (2 ^ bit) == 0
    then some f
    else rest

abbrev pub or_else : Option ℕ → Option ℕ → Option ℕ
or_else none b = b
or_else (some a) b = some a

-- The loop over the bytes, `k` rounds left.
pub scan_bytes : Pmm → ℕ → ℕ → Option ℕ
scan_bytes p zero byte = none
scan_bytes p (suc k) byte =
    let rest = scan_bytes p k (byte + 1) in
    if p.bitmap byte == 255 then rest else or_else (scan_bits p byte 8 0) rest

-- The two passes: from the hint to the end, then from the start to the hint.
pub find_free : Pmm → Option ℕ
find_free p =
    let n_bytes = (p.total_frames + 7) / 8 in
    let start_byte = p.next_hint / 8 in
    or_else (scan_bytes p (n_bytes - start_byte) start_byte) (scan_bytes p start_byte 0)

-- What `pmm_alloc_frame` does with the frame found.
pub take_frame : Pmm → ℕ → Pmm
take_frame p f = record p {
  bitmap = frame_set_used p.bitmap f;
  refcount = update p.refcount f 1;
  free_frames = p.free_frames - 1;
  next_hint = f + 1;
}

-- `none` is PMM_ALLOC_FAILED.
pub alloc_frame : Pmm → Option ℕ × Pmm
alloc_frame p =
    if p.free_frames == 0
    then (none, p)
    else elim (find_free p) [ none ↦ (none, p) | some f ↦ (some (f * frame_size), take_frame p f) ]

-- The frame goes back when its last reference goes.
pub drop_ref : Pmm → ℕ → Pmm
drop_ref p f =
    let rc = p.refcount f - 1 in
    if ltb 0 rc then record p { refcount = update p.refcount f rc } else record p {
      bitmap = frame_set_free p.bitmap f;
      refcount = update p.refcount f rc;
      free_frames = p.free_frames + 1;
      next_hint = if ltb f p.next_hint then f else p.next_hint;
    }

pub free_frame : Pmm → ℕ → Outcome Pmm
free_frame p phys =
    let f = phys / frame_size in
    kassert (phys % frame_size == 0) (
      kassert (ltb f p.total_frames) (
        kassert (not (frame_is_free p.bitmap f))
          (kassert (ltb 0 (p.refcount f)) (ok (drop_ref p f)))))

pub ref_frame : Pmm → ℕ → Outcome Pmm
ref_frame p phys =
    let f = phys / frame_size in
    kassert (phys % frame_size == 0) (
      kassert (ltb f p.total_frames) (
        kassert (not (frame_is_free p.bitmap f)) (
          kassert (ltb 0 (p.refcount f)) (
            kassert (ltb (p.refcount f) uint16_max)
              (ok (record p { refcount = update p.refcount f (p.refcount f + 1) }))))))

pub frame_refcount : Pmm → ℕ → Outcome ℕ
frame_refcount p phys =
    let f = phys / frame_size in
    kassert (phys % frame_size == 0) (kassert (ltb f p.total_frames) (ok (p.refcount f)))

-- The inner loop of `pmm_alloc_contiguous`, `k` rounds left.
pub take_run : Pmm → ℕ → ℕ → Pmm
take_run p zero j = p
take_run p (suc k) j =
    take_run (record p { bitmap = frame_set_used p.bitmap j; refcount = update p.refcount j 1 }) k
      (j + 1)

-- The outer loop, `k` rounds left, at frame `f`: the start of the first run of `n` free frames.
pub find_run : Pmm → ℕ → ℕ → ℕ → ℕ → ℕ → Option ℕ
find_run p n zero f run_start run_len = none
find_run p n (suc k) f run_start run_len =
    let start = if run_len == 0 then f else run_start in
    let grown = find_run p n k (f + 1) start (run_len + 1) in
    let broken = find_run p n k (f + 1) run_start 0 in
    if frame_is_free p.bitmap f then (if run_len + 1 == n then some start else grown) else broken

pub alloc_contiguous : Pmm → ℕ → Option ℕ × Pmm
alloc_contiguous p n =
    if n == 0 || ltb p.free_frames n then (none, p) else elim (find_run p n p.total_frames 0 0 0) [
      | none ↦ (none, p)
      | some s ↦
          (some (s * frame_size), record (take_run p n s) { free_frames = p.free_frames - n })
    ]

pub total_bytes : Pmm → ℕ
total_bytes p = p.total_frames * frame_size

pub free_bytes : Pmm → ℕ
free_bytes p = p.free_frames * frame_size
