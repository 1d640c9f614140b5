-- ===== src/Pmm/Examples.antt =====
-- The theorems about kernel/mm/pmm.c at a machine of 16 frames, the first of them in use.
use lithium_kernel.Prelude.{
  ℕ, zero, suc, ◌+◌, ◌*◌, ◌/◌, ◌≤◌, ◌<◌, min, ◌≡◌, refl, ◌↔◌, ◌⊎◌, true, none, some, List, [], ◌∷◌,
  arith, ◌==◌, if◌then◌else◌, ok, halted, count,
}
use lithium_kernel.Pmm.{
  frame_size, max_frames, Pmm, frame_is_free, frames_up, scan_bits, or_else, scan_bytes, find_free,
  take_frame, alloc_frame, free_frame, alloc_contiguous,
}
use lithium_kernel.Pmm.Inv.{Inv}
use lithium_kernel.Pmm.Alloc.{Allocated, alloc_frame_lem}
use lithium_kernel.Pmm.Release.{IsReferenced, Dropped, free_frame_lem, free_frame-alloc_frame}
use lithium_kernel.Pmm.Run.{IsRun, FirstRun, RunTaken, alloc_contiguous_lem}
use lithium_kernel.Pmm.Boot.{MemEntry, init, memory_map}
use lithium_kernel.Pmm.Boot.Init.{InRam, IsTop, init_lem}

abbrev demo : Pmm
demo = record {
  bitmap = λ i. if i == 0 then 1 else 0;
  refcount = λ f. if f == 0 then 1 else 0;
  total_frames = 16;
  free_frames = 15;
  next_hint = 0;
}

demo-unreferenced : (f : ℕ) → frame_is_free demo.bitmap f ≡ true → demo.refcount f ≡ 0
unfolding frame_is_free
demo-unreferenced zero h = cc h
demo-unreferenced (suc f) h = ground arith

demo-Inv : Inv demo
unfolding frame_is_free count
demo-Inv = record {
  bytes = λ i. ground arith;
  bounded = omega arith;
  hinted = omega arith;
  counted = refl;
  unreferenced = demo-unreferenced;
  narrow = λ f. ground arith;
}

demo-IsReferenced : IsReferenced demo 0
unfolding frame_is_free
demo-IsReferenced = record {
  aligned = refl;
  below = omega arith;
  used = refl;
  positive = omega arith;
}

abbrev demo_count : ℕ
demo_count = 3

abbrev demo_map : List MemEntry
demo_map = record { addr = 0; size = 0x400000; kind = 1 } ∷ []

demo_alloc : alloc_frame demo ≡ (some 4096, (alloc_frame demo).1)
unfolding alloc_frame take_frame find_free scan_bytes scan_bits or_else frame_is_free
demo_alloc = refl

alloc_frame_lem_example :
    ((demo.free_frames ≡ 0) × (alloc_frame demo ≡ (none, demo)))
    ⊎ ((f : ℕ) × (q : Pmm) × (alloc_frame demo ≡ (some (f * frame_size), q)) × Allocated demo f q)
alloc_frame_lem_example = alloc_frame_lem demo demo-Inv

free_frame_lem_example :
    (IsReferenced demo 0
      × ((q : Pmm) × (free_frame demo 0 ≡ ok q) × Dropped demo (0 / frame_size) q))
    ⊎ (¬ IsReferenced demo 0 × (free_frame demo 0 ≡ halted))
free_frame_lem_example = free_frame_lem demo 0 demo-Inv

free_frame-alloc_frame_example :
    (r : Pmm) × (free_frame ((alloc_frame demo).1) 4096 ≡ ok r)
    × Inv r
    × (r.free_frames ≡ demo.free_frames)
    × ((g : ℕ) → frame_is_free r.bitmap g ≡ frame_is_free demo.bitmap g)
    × ((g : ℕ) → r.refcount g ≡ demo.refcount g)
free_frame-alloc_frame_example =
    free_frame-alloc_frame demo ((alloc_frame demo).1) 4096 demo-Inv demo_alloc

alloc_contiguous_lem_example :
    ((demo_count ≡ 0 ⊎ ((s : ℕ) → s + demo_count ≤ demo.total_frames → ¬ IsRun demo s demo_count))
      × (alloc_contiguous demo demo_count ≡ (none, demo)))
    ⊎ ((s : ℕ) × (q : Pmm) × (alloc_contiguous demo demo_count ≡ (some (s * frame_size), q))
        × FirstRun demo demo_count (some s)
        × RunTaken demo s demo_count q)
alloc_contiguous_lem_example = alloc_contiguous_lem demo demo_count demo-Inv

init_lem_example :
    (top : ℕ) × IsTop demo_map top
    × (((top < frame_size) × (init (memory_map demo_map) 0x200000 ≡ halted))
        ⊎ ((frame_size ≤ top)
            × (p : Pmm) × (init (memory_map demo_map) 0x200000 ≡ ok p)
            × Inv p
            × (p.total_frames ≡ min top (max_frames * frame_size) / frame_size)
            × ((g : ℕ)
                → g < p.total_frames
                → (frame_is_free p.bitmap g ≡ true)
                  ↔ (InRam demo_map g × (256 ≤ g) × (frames_up 0x200000 ≤ g)))))
init_lem_example = init_lem demo_map 0x200000 (omega arith) (omega arith)
