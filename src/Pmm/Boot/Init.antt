-- ===== src/Pmm/Boot/Init.antt =====
-- What pmm_init of kernel/mm/pmm.c leaves behind.
use lithium_kernel.Prelude.{
  ℕ, zero, suc, ◌+◌, ◌-◌, ◌*◌, ◌/◌, ◌%◌, ◌^◌, ◌≤◌, ◌<◌, min, ◌≡◌, refl, sym, ◌∙◌, ◌↔◌, ◌⊎◌, inl,
  inr, true, false, ◌&&◌, List, [], ◌∷◌, map, arith, ltb, leb, if◌then◌else◌, ==→eq, ==_iff,
  Bool-cases, ok, halted, count,
}
use lithium_kernel.Pmm.{
  Pmm, frame_size, max_frames, frame_is_free, region_mark_free, region_mark_used, add64, frames_up,
}
use lithium_kernel.Pmm.Bits.{is_clear-full}
use lithium_kernel.Pmm.Inv.{Inv}
use lithium_kernel.Pmm.Boot.{
  MemEntry, ram_type, is_ram, top_address, calc_total_frames, mark_map, all_used, memory_map, init,
}
use lithium_kernel.Pmm.Boot.Regions.{Marked, region_mark_free_lem, region_mark_used_lem}

-- The frame ends at or before the end of some RAM entry, and the entry starts before the frame's end. (An entry
-- that starts inside of the frame is enough: the code rounds its start down.)
abbrev pub InRam : List MemEntry → ℕ → Type 0
InRam [] g = ⊥
InRam (e ∷ es) g =
    ((e.kind ≡ ram_type)
      × (e.addr < (g + 1) * frame_size)
      × ((g + 1) * frame_size ≤ add64 e.addr e.size))
    ⊎ InRam es g

-- The ends of all RAM entries, and that of one of them.
abbrev pub EndsBelow : List MemEntry → ℕ → Type 0
EndsBelow [] top = Unit {0}
EndsBelow (e ∷ es) top = (e.kind ≡ ram_type → add64 e.addr e.size ≤ top) × EndsBelow es top

abbrev pub EndsAt : List MemEntry → ℕ → Type 0
EndsAt [] top = ⊥
EndsAt (e ∷ es) top = ((e.kind ≡ ram_type) × (add64 e.addr e.size ≡ top)) ⊎ EndsAt es top

-- The highest end of the RAM entries, each taken modulo 2 ^ 64: 0 if there is none.
abbrev pub IsTop : List MemEntry → ℕ → Type 0
IsTop map top = EndsBelow map top × ((top ≡ 0) ⊎ EndsAt map top)

top_address_lem :
    (es : List MemEntry) (low : ℕ)
    → (low ≤ top_address es low)
      × EndsBelow es (top_address es low)
      × ((top_address es low ≡ low) ⊎ EndsAt es (top_address es low))
unfolding top_address
top_address_lem [] low = (omega arith, tt, inl refl)
top_address_lem (e ∷ es) low =
    let end = add64 e.addr e.size in
    let next = if is_ram e && ltb low end then end else low in
    let (le, below, at) = top_address_lem es next in
    (
      ground (arith, le),
      ((λ r. ground (arith, le, r)), below),
      elim at [
        | inr later ↦ inr (inr later)
        | inl same ↦ elim (Bool-cases (is_ram e && ltb low end)) [
          | inl here ↦
              let taken : next ≡ end = rw here refl in
              inr (inl (ground (arith, here), sym taken ∙ sym same))
          | inr away ↦ let kept : next ≡ low = rw away refl in inl (same ∙ kept)
        ]
      ],
    )

none_free : (g : ℕ) → frame_is_free (λ i. 255) g ≡ false
unfolding frame_is_free
none_free g = is_clear-full (g % 8) (omega arith)

count-all_used : (n : ℕ) → count (frame_is_free (λ i. 255)) n ≡ 0
unfolding count
count-all_used zero = refl
count-all_used (suc n) = ground (arith, none_free n, count-all_used n)

all_used-Inv : (total : ℕ) → total ≤ max_frames → Inv (all_used total)
unfolding all_used
all_used-Inv total h = record {
  bytes = λ i. omega arith;
  bounded = h;
  hinted = omega arith;
  counted = sym (count-all_used total);
  unreferenced = λ f e. refl;
  narrow = λ f. omega arith;
}

-- What marking the whole map has done.
record MapMarked (p : Pmm) (map : List MemEntry) (q : Pmm) : Type 0 where
  valid : Inv q
  total : q.total_frames ≡ p.total_frames
  hint : q.next_hint ≡ p.next_hint
  only : (g : ℕ) → frame_is_free q.bitmap g ≡ true → (frame_is_free p.bitmap g ≡ true) ⊎ InRam map g
  all :
      (g : ℕ)
      → g < p.total_frames
      → (frame_is_free p.bitmap g ≡ true) ⊎ InRam map g
      → frame_is_free q.bitmap g ≡ true

MapMarked-skip :
    (p : Pmm) (e : MemEntry) (es : List MemEntry) (q : Pmm)
    → is_ram e ≡ false
    → MapMarked p es q
    → MapMarked p (e ∷ es) q
MapMarked-skip p e es q other m = record {
  valid = m.valid;
  total = m.total;
  hint = m.hint;
  only = λ g h. elim (m.only g h) [ inl x ↦ inl x | inr x ↦ inr (inr x) ];
  all = λ g l s. elim s [
    | inl x ↦ m.all g l (inl x)
    | inr (inl x) ↦ cc (sym other ∙ (==_iff e.kind ram_type).1 x.0)
    | inr (inr x) ↦ m.all g l (inr x)
  ];
}

MapMarked-mark :
    (p r : Pmm) (e : MemEntry) (es : List MemEntry) (q : Pmm)
    → is_ram e ≡ true
    → Marked p (e.addr / frame_size) (add64 e.addr e.size / frame_size) true r
    → MapMarked r es q
    → MapMarked p (e ∷ es) q
MapMarked-mark p r e es q ram a m = record {
  valid = m.valid;
  total = m.total ∙ a.total;
  hint = m.hint ∙ a.hint;
  only = λ g h. elim (m.only g h) [
    | inl x ↦
        elim (Bool-cases (
          leb (e.addr / frame_size) g
          && ltb g (min (add64 e.addr e.size / frame_size) p.total_frames))) [
            | inl here ↦ inr (inl (==→eq e.kind ram_type ram, ground arith, ground arith))
            | inr away ↦ inl (ground (arith, a.marked g, away))
          ]
    | inr x ↦ inr (inr x)
  ];
  all = λ g l s. elim s [
    | inl x ↦ m.all g (omega (arith, a.total)) (inl (ground (arith, a.marked g)))
    | inr (inl x) ↦ m.all g (omega (arith, a.total)) (inl (ground (arith, a.marked g, x.1, x.2)))
    | inr (inr x) ↦ m.all g (omega (arith, a.total)) (inr x)
  ];
}

mark_map-MapMarked : (p : Pmm) (map : List MemEntry) → Inv p → MapMarked p map (mark_map p map)
unfolding mark_map
mark_map-MapMarked p [] v = record {
  valid = v;
  total = refl;
  hint = refl;
  only = λ g e. inl e;
  all = λ g l s. elim s [ inl e ↦ e | inr h ↦ absurd h ];
}
mark_map-MapMarked p (e ∷ es) v = elim (Bool-cases (is_ram e)) [
  | inr other ↦ rw other (MapMarked-skip p e es _ other (mark_map-MapMarked p es v))
  | inl ram ↦
      let a = region_mark_free_lem p e.addr e.size v in
      rw ram (
        MapMarked-mark p (region_mark_free p e.addr e.size) e es _ ram a
          (mark_map-MapMarked (region_mark_free p e.addr e.size) es a.valid))
]

calc_total_frames-le : (map : List MemEntry) → calc_total_frames map ≤ max_frames
unfolding calc_total_frames
calc_total_frames-le map = ground arith

-- The length that `pmm_init` passes reaches from 1 MiB to the end of the kernel image.
kernel_range :
    (kernel_end : ℕ)
    → 0x100000 ≤ kernel_end
    → kernel_end < 2 ^ 64
    → add64 0x100000 ((kernel_end + 2 ^ 64 - 0x100000) % 2 ^ 64) ≡ kernel_end
kernel_range kernel_end lo hi = omega arith

-- The state of the allocator between the map and the reserved regions.
abbrev mapped : List MemEntry → Pmm
mapped map = mark_map (all_used (calc_total_frames map)) map

mapped-MapMarked :
    (map : List MemEntry) → MapMarked (all_used (calc_total_frames map)) map (mapped map)
mapped-MapMarked map =
    mark_map-MapMarked (all_used (calc_total_frames map)) map
      (all_used-Inv (calc_total_frames map) (calc_total_frames-le map))

mapped_total : (map : List MemEntry) → (mapped map).total_frames ≡ calc_total_frames map
unfolding all_used
mapped_total map = (mapped-MapMarked map).total

mapped_free :
    (map : List MemEntry) (g : ℕ)
    → g < calc_total_frames map
    → (frame_is_free (mapped map).bitmap g ≡ true) ↔ InRam map g
unfolding all_used
mapped_free map g l = (
  λ h. elim ((mapped-MapMarked map).only g h) [ inl x ↦ cc (sym (none_free g) ∙ x) | inr x ↦ x ],
  λ x. (mapped-MapMarked map).all g l (inr x),
)

reserved_only :
    (p q r : Pmm) (kernel_end g : ℕ)
    → Marked p 0 256 false q
    → Marked q 256 (frames_up kernel_end) false r
    → g < r.total_frames
    → frame_is_free r.bitmap g ≡ true
    → (frame_is_free p.bitmap g ≡ true) × (256 ≤ g) × (frames_up kernel_end ≤ g)
reserved_only p q r kernel_end g low image l h =
    ground (arith, image.marked g, low.marked g, image.total, low.total)

-- What reserving the first MiB and the kernel image does to each frame.
reserved :
    (p : Pmm) (kernel_end : ℕ)
    → Inv p
    → 0x100000 ≤ kernel_end
    → kernel_end + 4095 < 2 ^ 64
    → let q = region_mark_used p 0 0x100000 in
      let r = region_mark_used q 0x100000 ((kernel_end + 2 ^ 64 - 0x100000) % 2 ^ 64) in
      Inv r
      × (r.total_frames ≡ p.total_frames)
      × ((g : ℕ)
          → g < r.total_frames
          → (frame_is_free r.bitmap g ≡ true)
            ↔ ((frame_is_free p.bitmap g ≡ true) × (256 ≤ g) × (frames_up kernel_end ≤ g)))
reserved p kernel_end v lo hi =
    let low = region_mark_used_lem p 0 0x100000 v in
    let q = region_mark_used p 0 0x100000 in
    let len = (kernel_end + 2 ^ 64 - 0x100000) % 2 ^ 64 in
    let image = region_mark_used_lem q 0x100000 len low.valid in
    let range = kernel_range kernel_end lo (omega arith) in
    (
      image.valid,
      image.total ∙ low.total,
      λ g l. (
        λ h.
            reserved_only p q (region_mark_used q 0x100000 len) kernel_end g low (rw range at image)
              l h,
        λ h. ground (arith, image.marked g, low.marked g, range, h.0, h.1, h.2),
      ),
    )

-- The hint starts over.
rewound : (map : List MemEntry) → Inv (record (mapped map) { next_hint = 0 })
rewound map =
    let v = (mapped-MapMarked map).valid in
    record {
      bytes = v.bytes;
      bounded = v.bounded;
      hinted = omega arith;
      counted = v.counted;
      unreferenced = v.unreferenced;
      narrow = v.narrow;
    }

frames_below :
    (map : List MemEntry)
    → calc_total_frames map ≡ min (top_address map 0) (max_frames * frame_size) / frame_size
unfolding calc_total_frames
frames_below map = ground arith

-- With a map whose highest RAM end is `top`, and a kernel image that ends above 1 MiB, `pmm_init` halts exactly if
-- `top` is below the end of the first frame. Otherwise the allocator is well-formed, with the frames below
-- `top`, and at most those that the bitmap has; of these a frame is free exactly if it ends at or before the end
-- of a RAM entry that starts before the frame's end, and lies above the first 1 MiB and above the kernel
-- image (an end is taken modulo 2 ^ 64). So a frame that a RAM entry covers only from its middle on is free.
pub init_lem :
    (map : List MemEntry) (kernel_end : ℕ)
    → 0x100000 ≤ kernel_end
    → kernel_end + 4095 < 2 ^ 64
    → (top : ℕ) × IsTop map top
      × (((top < frame_size) × (init (memory_map map) kernel_end ≡ halted))
          ⊎ ((frame_size ≤ top)
              × (p : Pmm) × (init (memory_map map) kernel_end ≡ ok p)
              × Inv p
              × (p.total_frames ≡ min top (max_frames * frame_size) / frame_size)
              × ((g : ℕ)
                  → g < p.total_frames
                  → (frame_is_free p.bitmap g ≡ true)
                    ↔ (InRam map g × (256 ≤ g) × (frames_up kernel_end ≤ g)))))
unfolding init
init_lem map kernel_end lo hi =
    let (_, below, at) = top_address_lem map 0 in
    let count_is = frames_below map in
    (
      top_address map 0,
      (below, at),
      elim (Bool-cases (ltb 0 (mapped map).total_frames)) [
        | inr empty ↦ inl (ground (arith, mapped_total map, count_is, empty), rw empty refl)
        | inl some_frames ↦
            let m = mapped-MapMarked map in
            let (v, t, free) =
              reserved (record (mapped map) { next_hint = 0 }) kernel_end (rewound map) lo hi in
            inr (
              ground (arith, mapped_total map, count_is, some_frames),
              _,
              rw some_frames refl,
              v,
              t ∙ mapped_total map ∙ count_is,
              λ g l.
                  let (only, all) = mapped_free map g (omega (arith, t, mapped_total map)) in
                  (
                    λ h. let (x, y, z) = (free g l).0 h in (only x, y, z),
                    λ h. (free g l).1 (all h.0, h.1, h.2),
                  ),
            )
      ],
    )
