-- ===== src/Vmm/Space.antt =====
-- Address spaces of kernel/mm/vmm.c: making one, destroying its user half, and cloning it copy on
-- write. A loop is recursion on the entries that are left.
pub mod Create
use lithium_kernel.Prelude.{
  ℕ, zero, suc, ◌+◌, ◌/◌, ◌%◌, ◌^◌, Bool, true, false, ◌&&◌, ◌==◌, if◌then◌else◌, ltb,
}
use lithium_kernel.Vmm.{
  Vmm, Run, done, failed, stopped, M, bind, ◌>>=◌, ◌>>◌, fail, entry, set_entry, cleared, alloc,
  free, ref, is_present, is_user, is_write, is_huge, set_user, set_cow, clear_write, table_entry,
  phys_of, flags_of, make_virt, vmm_current_pml4, vmm_map_page,
}

abbrev pub skip : M (Unit {0})
skip v = done tt v

-- `for (j = i; …; j++) body(j)` with `k` rounds left.
unfoldable pub each : ℕ → ℕ → (ℕ → M (Unit {0})) → M (Unit {0})
each zero i body = skip
each (suc k) i body = body i >> each k (i + 1) body

-- `new_pml4[i] = cur[i]`
unfoldable pub copy_entry : ℕ → ℕ → ℕ → M (Unit {0})
copy_entry dst src i = entry src i >>= set_entry dst i

-- What a failing call after the first allocation does: it gives the first frame back.
abbrev pub or_free : {A : Type 0} → ℕ → Run A → Run A
or_free first (done a v) = done a v
or_free first (failed v) = bind (free first v) (λ _. fail)
or_free first stopped = stopped

pub alloc_or_free : ℕ → M ℕ
alloc_or_free first v = or_free first (alloc v)

-- The identity window of the new space.
pub low_window : ℕ → ℕ → M (Unit {0})
unfolding alloc_or_free copy_entry
low_window new cur = do
  low_pdpt ← alloc_or_free new
  low ← entry cur 0
  cleared low_pdpt
  copy_entry low_pdpt (phys_of low) 0
  set_entry new 0 (set_user (table_entry low_pdpt))

pub vmm_create_address_space : M ℕ
unfolding each copy_entry low_window
vmm_create_address_space v =
    let cur = vmm_current_pml4 v in
    (do
      new ← alloc
      cleared new
      each 256 256 (copy_entry new cur)
      low ← entry cur 0
      (if is_present low then low_window new cur else skip)
      done new)
      v

-- `(e & (VMM_PRESENT | VMM_USER)) == (VMM_PRESENT | VMM_USER)`
abbrev pub is_user_page : ℕ → Bool
is_user_page e = is_present e && is_user e

destroy_page : ℕ → ℕ → M (Unit {0})
destroy_page pt i = do
  e ← entry pt i
  (if is_user_page e then free (phys_of e) >> set_entry pt i 0 else skip)

pub destroy_pt : ℕ → M (Unit {0})
unfolding each destroy_page
destroy_pt pt = each 512 0 (destroy_page pt)

-- A huge page goes back to the allocator if it is the user's.
destroy_huge : ℕ → ℕ → ℕ → M (Unit {0})
destroy_huge t i e = do (if is_user e then free (phys_of e) else skip); set_entry t i 0

-- A table goes back to the allocator once what it points to is destroyed.
destroy_table : (ℕ → M (Unit {0})) → ℕ → ℕ → ℕ → M (Unit {0})
destroy_table below t i e = do below (phys_of e); free (phys_of e); set_entry t i 0

destroy_entry : (ℕ → M (Unit {0})) → ℕ → ℕ → M (Unit {0})
unfolding destroy_huge destroy_table
destroy_entry below t i = do
  e ← entry t i
  (if is_present e
      then (if is_huge e then destroy_huge t i e else destroy_table below t i e)
      else skip)

destroy_pd : ℕ → M (Unit {0})
unfolding each destroy_entry destroy_pt
destroy_pd pd = each 512 0 (destroy_entry destroy_pt pd)

-- Entry 0 of the first table is the supervisor's identity window.
destroy_pdpt : ℕ → ℕ → M (Unit {0})
unfolding each destroy_entry destroy_pd
destroy_pdpt i pdpt =
    each 512 0 (λ j. if i == 0 && j == 0 then skip else destroy_entry destroy_pd pdpt j)

destroy_low : ℕ → ℕ → M (Unit {0})
unfolding destroy_table destroy_pdpt
destroy_low pml4 i = do
  e ← entry pml4 i
  (if is_present e then destroy_table (destroy_pdpt i) pml4 i e else skip)

pub vmm_destroy_user_address_space : ℕ → M (Unit {0})
unfolding each destroy_low
vmm_destroy_user_address_space pml4 =
    if pml4 == 0 then skip else each 256 0 (destroy_low pml4) >> free pml4

-- `if (vmm_map_page(…) != 0) { pmm_free_frame(src_phys); goto fail; }`
map_or_free : ℕ → ℕ → ℕ → ℕ → M (Unit {0})
map_or_free dst virt phys flags v = or_free phys (vmm_map_page dst virt phys flags v)

-- `src_phys | flags`; the fields do not overlap.
abbrev pub with_phys : ℕ → ℕ → ℕ
with_phys phys flags = phys + flags

-- A writable page becomes read-only and copy on write in both spaces.
clone_user_page : ℕ → ℕ → ℕ → ℕ → ℕ → M (Unit {0})
unfolding map_or_free
clone_user_page dst pt l virt e =
    let phys = phys_of e in
    let flags = flags_of e in
    let cow = set_cow (clear_write flags) in
    do
      ref phys
      (if is_write flags
          then set_entry pt l (with_phys phys cow) >> map_or_free dst virt phys cow
          else map_or_free dst virt phys flags)

clone_page : ℕ → ℕ → ℕ → ℕ → ℕ → ℕ → M (Unit {0})
unfolding clone_user_page
clone_page dst pt i j k l = do
  e ← entry pt l
  (if is_user_page e then clone_user_page dst pt l (make_virt i j k l) e else skip)

-- A user's huge page cannot be cloned; the kernel's are passed over.
clone_entry : (ℕ → M (Unit {0})) → ℕ → ℕ → M (Unit {0})
clone_entry below t i = do
  e ← entry t i
  (if is_present e
      then (if is_huge e then (if is_user e then fail else skip) else below (phys_of e))
      else skip)

clone_pd : ℕ → ℕ → ℕ → ℕ → M (Unit {0})
unfolding each clone_page clone_entry
clone_pd dst i j pd =
    each 512 0 (λ k. clone_entry (λ pt. each 512 0 (clone_page dst pt i j k)) pd k)

clone_pdpt : ℕ → ℕ → ℕ → M (Unit {0})
unfolding each clone_pd clone_entry
clone_pdpt dst i pdpt =
    each 512 0 (λ j. if i == 0 && j == 0 then skip else clone_entry (clone_pd dst i j) pdpt j)

clone_low : ℕ → ℕ → ℕ → M (Unit {0})
unfolding clone_pdpt
clone_low dst src i = do
  e ← entry src i
  (if is_present e then clone_pdpt dst i (phys_of e) else skip)

-- On an error the new space is destroyed.
or_destroy : ℕ → Run (Unit {0}) → Run ℕ
or_destroy dst (done u v) = done dst v
or_destroy dst (failed v) = bind (vmm_destroy_user_address_space dst v) (λ _. fail)
or_destroy dst stopped = stopped

pub vmm_clone_user_address_space : ℕ → M ℕ
unfolding each clone_low or_destroy
vmm_clone_user_address_space src =
    if src == 0
    then fail
    else (vmm_create_address_space >>= λ dst v. or_destroy dst (each 256 0 (clone_low dst src) v))
