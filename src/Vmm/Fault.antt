-- ===== src/Vmm/Fault.antt =====
-- vmm_handle_page_fault of kernel/mm/vmm.c, the write to a page that is copy on write.
use lithium_kernel.Prelude.{
  ℕ, ◌+◌, ◌%◌, ◌^◌, Bool, true, false, not, ◌&&◌, ◌||◌, Option, none, some, ◌==◌, leb,
  if◌then◌else◌, update, Outcome, ok, halted,
}
use lithium_kernel.Pmm.{frame_refcount}
use lithium_kernel.Vmm.{
  Vmm, Run, done, stopped, M, ◌>>=◌, ◌>>◌, alloc, free, set_entry, is_present, is_user, is_cow,
  set_write, clear_cow, phys_of, flags_of, low_12_clear, vmm_get_pte, vmm_current_pml4,
}

-- USER_SPACE_TOP
abbrev pub user_space_top : ℕ
user_space_top = 2 ^ 47

-- `(e & (VMM_PRESENT | VMM_USER | VMM_COW)) == (VMM_PRESENT | VMM_USER | VMM_COW)`
abbrev pub is_cow_page : ℕ → Bool
is_cow_page e = is_present e && (is_user e && is_cow e)

-- `memcpy(new_phys, old_phys, PAGE_SIZE)`
abbrev pub copy_page : ℕ → ℕ → M (Unit {0})
copy_page dst src v = done tt (record v { mem = update v.mem dst (v.mem src) })

-- `(e & ~VMM_PHYS_MASK & ~VMM_COW) | VMM_WRITE`
abbrev pub unshared_flags : ℕ → ℕ
unshared_flags e = set_write (clear_cow (flags_of e))

abbrev pub refcount_of : Vmm → Outcome ℕ → Run ℕ
refcount_of v (ok n) = done n v
refcount_of v halted = stopped

-- The page is copied, and the old frame loses a reference.
unfoldable pub copy_cow : ℕ → ℕ → ℕ → M Bool
copy_cow pt i e = do
  new_phys ← alloc
  copy_page new_phys (phys_of e)
  set_entry pt i (new_phys + unshared_flags e)
  free (phys_of e)
  done true

-- The last user of the frame writes to it in place.
unfoldable pub resolve_cow : ℕ → ℕ → ℕ → M Bool
unfolding copy_cow
resolve_cow pt i e = (λ v. refcount_of v (frame_refcount v.pmm (phys_of e))) >>= λ n.
    if leb n 1 then set_entry pt i (phys_of e + unshared_flags e) >> done true else copy_cow pt i e

unfoldable pub resolve_at : Option (ℕ × ℕ) → M Bool
unfolding resolve_cow
resolve_at none v = done false v
resolve_at (some (pt, i)) v =
    if is_cow_page (v.mem pt i) then resolve_cow pt i (v.mem pt i) v else done false v

-- `failed` is the answer false for want of a frame.
unfoldable pub vmm_handle_page_fault : ℕ → ℕ → M Bool
unfolding resolve_at
vmm_handle_page_fault fault_addr error_code v =
    if not (error_code % 4 == 3) || leb user_space_top fault_addr
    then done false v
    else resolve_at (vmm_get_pte v (vmm_current_pml4 v) (low_12_clear fault_addr)) v
