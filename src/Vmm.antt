-- ===== src/Vmm.antt =====
-- kernel/mm/vmm.c, the page tables: the entries, the walk, mapping and unmapping one page. A table is
-- known by the physical address of its page, which the kernel reads through its identity map. What
-- the code writes to the TLB and what it logs is left out.
pub mod Space
pub mod Fault
pub mod Entry
pub mod Tree
pub mod Walk
pub mod Grow
pub mod Reach
pub mod Leaf
pub mod Data
pub mod Map
pub mod Unmap
pub mod Cow
pub mod Fresh
pub mod Demo
mod Examples
use lithium_kernel.Prelude.{
  ℕ, suc, ◌+◌, ◌-◌, ◌*◌, ◌/◌, ◌%◌, ◌^◌, Bool, true, false, Option, none, some, ◌==◌, if◌then◌else◌,
  update, Outcome, ok, halted,
}
use lithium_kernel.Pmm.{Pmm, alloc_frame, free_frame, ref_frame}

abbrev pub page_size : ℕ
page_size = 4096

-- The allocator, the memory as pages of 512 words, CR3 and `kheap_next`.
pub record Vmm : Type 0 where
  pub pmm : Pmm
  pub mem : ℕ → ℕ → ℕ
  pub cr3 : ℕ
  pub kheap_next : ℕ

-- VMM_PRESENT, VMM_WRITE, VMM_USER, VMM_HUGE and VMM_COW: the tests `e & FLAG`.
abbrev pub is_present : ℕ → Bool
is_present e = e % 2 == 1

abbrev pub is_write : ℕ → Bool
is_write e = e / 2 % 2 == 1

abbrev pub is_user : ℕ → Bool
is_user e = e / 4 % 2 == 1

abbrev pub is_huge : ℕ → Bool
is_huge e = e / 128 % 2 == 1

abbrev pub is_cow : ℕ → Bool
is_cow e = e / 512 % 2 == 1

-- `e | FLAG` and `e & ~FLAG`.
abbrev pub set_present : ℕ → ℕ
set_present e = if is_present e then e else e + 1

abbrev pub set_write : ℕ → ℕ
set_write e = if is_write e then e else e + 2

abbrev pub clear_write : ℕ → ℕ
clear_write e = if is_write e then e - 2 else e

abbrev pub set_user : ℕ → ℕ
set_user e = if is_user e then e else e + 4

abbrev pub set_huge : ℕ → ℕ
set_huge e = if is_huge e then e else e + 128

abbrev pub set_cow : ℕ → ℕ
set_cow e = if is_cow e then e else e + 512

abbrev pub clear_cow : ℕ → ℕ
clear_cow e = if is_cow e then e - 512 else e

-- `e & VMM_PHYS_MASK`, the bits 12 to 51, and `e & ~VMM_PHYS_MASK`.
abbrev pub phys_of : ℕ → ℕ
phys_of e = e / 4096 % 2 ^ 40 * 4096

abbrev pub flags_of : ℕ → ℕ
flags_of e = e % 4096 + e / 2 ^ 52 * 2 ^ 52

abbrev pub pml4_idx : ℕ → ℕ
pml4_idx virt = virt / 2 ^ 39 % 512

abbrev pub pdpt_idx : ℕ → ℕ
pdpt_idx virt = virt / 2 ^ 30 % 512

abbrev pub pd_idx : ℕ → ℕ
pd_idx virt = virt / 2 ^ 21 % 512

abbrev pub pt_idx : ℕ → ℕ
pt_idx virt = virt / 2 ^ 12 % 512

-- The fields do not overlap, so `|` is a sum.
abbrev pub make_virt : ℕ → ℕ → ℕ → ℕ → ℕ
make_virt pml4 pdpt pd pt = pml4 * 2 ^ 39 + pdpt * 2 ^ 30 + pd * 2 ^ 21 + pt * 2 ^ 12

-- What a call leaves: its result, an error (-1, NULL or false), both with the state, or a halt in
-- KASSERT.
pub data Run (A : Type 0) : Type 0 where
  done : A → Vmm → Run A
  failed : Vmm → Run A
  stopped : Run A

abbrev pub M : Type 0 → Type 0
M A = Vmm → Run A

abbrev pub bind : {A B : Type 0} → Run A → (A → M B) → Run B
bind (done a v) f = f a v
bind (failed v) f = failed v
bind stopped f = stopped

infixl 5 ◌>>=◌ ◌>>◌
abbrev pub ◌>>=◌ : {A B : Type 0} → M A → (A → M B) → M B
◌>>=◌ m f v = bind (m v) f

abbrev pub ◌>>◌ : {B : Type 0} → M (Unit {0}) → M B → M B
m >> k = m >>= λ _. k

abbrev pub fail : {A : Type 0} → M A
fail v = failed v

abbrev pub entry : ℕ → ℕ → M ℕ
entry t i v = done (v.mem t i) v

abbrev pub put : ℕ → ℕ → ℕ → Vmm → Vmm
put t i e v = record v { mem = update v.mem t (update (v.mem t) i e) }

-- `t[i] = e`
abbrev pub set_entry : ℕ → ℕ → ℕ → M (Unit {0})
set_entry t i e v = done tt (put t i e v)

-- `memset(page, 0, PAGE_SIZE)`
abbrev pub zero_page : ℕ → Vmm → Vmm
zero_page page v = record v { mem = update v.mem page (λ _. 0) }

abbrev pub cleared : ℕ → M (Unit {0})
cleared page v = done tt (zero_page page v)

-- The calls of the frame allocator.
abbrev pub allocated : Vmm → Option ℕ × Pmm → Run ℕ
allocated v (none, q) = failed (record v { pmm = q })
allocated v (some phys, q) = done phys (record v { pmm = q })

abbrev pub alloc : M ℕ
alloc v = allocated v (alloc_frame v.pmm)

abbrev pub with_pmm : Vmm → Outcome Pmm → Run (Unit {0})
with_pmm v (ok q) = done tt (record v { pmm = q })
with_pmm v halted = stopped

abbrev pub free : ℕ → M (Unit {0})
free phys v = with_pmm v (free_frame v.pmm phys)

abbrev pub ref : ℕ → M (Unit {0})
ref phys v = with_pmm v (ref_frame v.pmm phys)

-- `phys | VMM_PRESENT | VMM_WRITE`
abbrev pub table_entry : ℕ → ℕ
table_entry phys = set_write (set_present phys)

new_table : ℕ → ℕ → M ℕ
new_table t i = alloc >>= λ phys v. done phys (put t i (table_entry phys) (zero_page phys v))

-- The table below entry `i` of the table at `t`, which is made if there is none.
pub pt_walk_or_alloc : ℕ → ℕ → M ℕ
unfolding new_table
pt_walk_or_alloc t i v =
    if is_present (v.mem t i) then done (phys_of (v.mem t i)) v else new_table t i v

-- `if (flags & VMM_USER) t[i] |= VMM_USER`
pub share : ℕ → ℕ → ℕ → M (Unit {0})
share flags t i v = if is_user flags then done tt (put t i (set_user (v.mem t i)) v) else done tt v

-- `if (t[i] & VMM_HUGE) return -1`
pub refuse_huge : ℕ → ℕ → M (Unit {0})
refuse_huge t i v = if is_huge (v.mem t i) then failed v else done tt v

-- `(phys & VMM_PHYS_MASK) | (flags & ~VMM_PHYS_MASK) | VMM_PRESENT`
abbrev pub leaf : ℕ → ℕ → ℕ
leaf phys flags = set_present (phys_of phys + flags_of flags)

pub vmm_map_page : ℕ → ℕ → ℕ → ℕ → M (Unit {0})
vmm_map_page pml4 virt phys flags = do
  pdpt ← pt_walk_or_alloc pml4 (pml4_idx virt)
  share flags pml4 (pml4_idx virt)
  pd ← pt_walk_or_alloc pdpt (pdpt_idx virt)
  share flags pdpt (pdpt_idx virt)
  refuse_huge pd (pd_idx virt)
  pt ← pt_walk_or_alloc pd (pd_idx virt)
  share flags pd (pd_idx virt)
  set_entry pt (pt_idx virt) (leaf phys flags)

-- The part of `vmm_unmap_page` below the page directory.
unmap_in : ℕ → ℕ → Vmm → Vmm
unmap_in pd virt v =
    let e2 = v.mem pd (pd_idx virt) in
    if is_present e2 then (if is_huge e2 then v else put (phys_of e2) (pt_idx virt) 0 v) else v

pub vmm_unmap_page : ℕ → ℕ → Vmm → Vmm
unfolding unmap_in
vmm_unmap_page pml4 virt v =
    let e4 = v.mem pml4 (pml4_idx virt) in
    let e3 = v.mem (phys_of e4) (pdpt_idx virt) in
    if is_present e4 then (if is_present e3 then unmap_in (phys_of e3) virt v else v) else v

-- The frame with its offset: 4 KiB, 2 MiB and 1 GiB pages.
abbrev pub small_page : ℕ → ℕ → ℕ
small_page e virt = phys_of e + virt % 2 ^ 12

abbrev pub large_page : ℕ → ℕ → ℕ
large_page e virt = e / 2 ^ 21 % 2 ^ 31 * 2 ^ 21 + virt % 2 ^ 21

abbrev pub giant_page : ℕ → ℕ → ℕ
giant_page e virt = e / 2 ^ 30 % 2 ^ 22 * 2 ^ 30 + virt % 2 ^ 30

-- `none` is PMM_ALLOC_FAILED.
unfoldable pub vmm_get_physical : Vmm → ℕ → ℕ → Option ℕ
vmm_get_physical v pml4 virt =
    let e4 = v.mem pml4 (pml4_idx virt) in
    let e3 = v.mem (phys_of e4) (pdpt_idx virt) in
    let e2 = v.mem (phys_of e3) (pd_idx virt) in
    let e1 = v.mem (phys_of e2) (pt_idx virt) in
    if is_present e4
    then if is_present e3
      then if is_huge e3
        then some (giant_page e3 virt)
        else if is_present e2
        then if is_huge e2
          then some (large_page e2 virt)
          else if is_present e1
          then some (small_page e1 virt)
          else none
        else none
      else none
    else none

unfoldable pub vmm_get_flags : Vmm → ℕ → ℕ → ℕ
vmm_get_flags v pml4 virt =
    let e4 = v.mem pml4 (pml4_idx virt) in
    let e3 = v.mem (phys_of e4) (pdpt_idx virt) in
    let e2 = v.mem (phys_of e3) (pd_idx virt) in
    let e1 = v.mem (phys_of e2) (pt_idx virt) in
    if is_present e4
    then if is_present e3
      then if is_huge e3
        then flags_of e3
        else if is_present e2
        then if is_huge e2 then flags_of e2 else if is_present e1 then flags_of e1 else 0
        else 0
      else 0
    else 0

-- The place of the last entry of the walk, as its table and its index.
pub vmm_get_pte : Vmm → ℕ → ℕ → Option (ℕ × ℕ)
vmm_get_pte v pml4 virt =
    let e4 = v.mem pml4 (pml4_idx virt) in
    let e3 = v.mem (phys_of e4) (pdpt_idx virt) in
    let e2 = v.mem (phys_of e3) (pd_idx virt) in
    if is_present e4
    then if is_present e3
      then if is_huge e3
        then none
        else if is_present e2
        then if is_huge e2 then none else some (phys_of e2, pt_idx virt)
        else none
      else none
    else none

abbrev pub low_12_clear : ℕ → ℕ
low_12_clear a = a / 4096 * 4096

pub vmm_switch : ℕ → Vmm → Vmm
vmm_switch pml4 v = record v { cr3 = pml4 }

unfoldable pub vmm_current_pml4 : Vmm → ℕ
vmm_current_pml4 v = low_12_clear v.cr3

-- `ALIGN_UP(size, PAGE_SIZE)` on 64 bits.
abbrev pub align_up64 : ℕ → ℕ
align_up64 size = low_12_clear ((size + 4095) % 2 ^ 64)

unfoldable pub vmm_alloc_kernel : ℕ → Vmm → ℕ × Vmm
vmm_alloc_kernel size v =
    (v.kheap_next, record v { kheap_next = (v.kheap_next + align_up64 size) % 2 ^ 64 })
