-- ===== src/User/Memory.antt =====
-- sys_brk, sys_mmap and sys_munmap of kernel/syscall/syscall.c, on the page tables of the current task.
pub mod Calls
pub mod Page
pub mod Grow
use lithium_kernel.Prelude.{
  ℕ, zero, suc, ◌+◌, ◌-◌, ◌*◌, ◌/◌, ◌%◌, ◌^◌, Bool, true, false, not, ◌&&◌, ◌||◌, Option, none,
  some, ltb, leb, ◌==◌, if◌then◌else◌,
}
use lithium_kernel.Vmm.{
  Vmm, Run, done, failed, stopped, M, bind, ◌>>=◌, ◌>>◌, fail, alloc, free, zero_page, low_12_clear,
  align_up64, vmm_map_page, vmm_unmap_page, vmm_get_flags, vmm_get_physical,
}
use lithium_kernel.Vmm.Space.{is_user_page, or_free}
use lithium_kernel.Vmm.Fault.{user_space_top}
use lithium_kernel.User.{user_range_ok}

-- The fields of `current_task` that the calls read. Without a task they fail as with one that is not in
-- user mode.
pub record UserTask : Type 0 where
  pub user_mode : Bool
  pub cr3 : ℕ
  pub brk_base : ℕ
  pub brk_current : ℕ
  pub mmap_next : ℕ

-- A value for the user with the task's new state, an error, or a halt in KASSERT.
pub data Call : Type 0 where
  returns : ℕ → UserTask → Vmm → Call
  refused : Vmm → Call
  crashed : Call

-- The frame goes back when the page tables cannot take it.
pub map_user_zero_page : UserTask → ℕ → ℕ → M (Unit {0})
map_user_zero_page t virt flags =
    alloc >>= λ phys v. or_free phys (vmm_map_page t.cr3 virt phys flags (zero_page phys v))

free_found : Option ℕ → M (Unit {0})
free_found none v = done tt v
free_found (some phys) v = free (low_12_clear phys) v

pub unmap_user_page : UserTask → ℕ → M (Unit {0})
unfolding free_found
unmap_user_page t virt v =
    if is_user_page (vmm_get_flags v t.cr3 virt)
    then free_found (vmm_get_physical v t.cr3 virt) (vmm_unmap_page t.cr3 virt v)
    else done tt v

-- A loop over pages, `k` rounds left.
pub each_page : (ℕ → M (Unit {0})) → ℕ → ℕ → M (Unit {0})
each_page f zero page v = done tt v
each_page f (suc k) page v = bind (f page v) (λ _. each_page f k (page + 4096))

-- VMM_USER, VMM_WRITE and VMM_NX
abbrev pub brk_flags : ℕ
brk_flags = 2 ^ 63 + 6

-- The pages between the old top and the new one.
pub move_break : UserTask → ℕ → ℕ → M (Unit {0})
unfolding each_page
move_break t old_top new_top =
    if ltb old_top new_top
    then each_page (λ page. map_user_zero_page t page brk_flags) ((new_top - old_top) / 4096)
        old_top
    else each_page (unmap_user_page t) ((old_top - new_top) / 4096) new_top

brk_done : UserTask → ℕ → Run (Unit {0}) → Call
brk_done t requested (done u v) = returns requested (record t { brk_current = requested }) v
brk_done t requested (failed v) = returns t.brk_current t v
brk_done t requested stopped = crashed

pub sys_brk : UserTask → ℕ → Vmm → Call
unfolding brk_done
sys_brk t requested v =
    let old_top = align_up64 t.brk_current in
    let new_top = align_up64 requested in
    if not t.user_mode
    then refused v
    else if requested == 0 || (ltb requested t.brk_base || leb t.mmap_next requested)
    then returns t.brk_current t v
    else brk_done t requested (move_break t old_top new_top v)

-- The first `n` pages are unmapped when page `n` cannot be mapped.
undone : UserTask → ℕ → ℕ → Run (Unit {0}) → Run (Unit {0})
undone t base n (done u v) = done tt v
undone t base n (failed v) = bind (each_page (unmap_user_page t) n base v) (λ _. fail)
undone t base n stopped = stopped

-- The loop of `sys_mmap_impl`: `k` pages left, `n` mapped.
pub map_zero_pages : UserTask → ℕ → ℕ → ℕ → ℕ → M (Unit {0})
unfolding undone
map_zero_pages t base flags zero n v = done tt v
map_zero_pages t base flags (suc k) n v =
    bind (undone t base n (map_user_zero_page t (base + n * 4096) flags v))
      (λ _. map_zero_pages t base flags k (n + 1))

-- VMM_USER, with VMM_WRITE for PROT_WRITE and VMM_NX without PROT_EXEC.
abbrev pub page_flags : ℕ → ℕ
page_flags prot =
    4 + (if prot / 2 % 2 == 1 then 2 else 0) + (if prot / 4 % 2 == 1 then 0 else 2 ^ 63)

mmap_done : UserTask → ℕ → ℕ → ℕ → Run (Unit {0}) → Call
mmap_done t addr base size (done u v) =
    returns base (if addr == 0 then record t { mmap_next = align_up64 (base + size) } else t) v
mmap_done t addr base size (failed v) = refused v
mmap_done t addr base size stopped = crashed

-- Of the flags, MAP_PRIVATE is bit 1 and MAP_ANONYMOUS bit 5; `none` is the file descriptor -1.
unfoldable pub is_private_memory : ℕ → Option ℕ → Bool
is_private_memory flags none = (flags / 32 % 2 == 1) && (flags / 2 % 2 == 1)
is_private_memory flags (some fd) = false

pub sys_mmap : UserTask → ℕ → ℕ → ℕ → ℕ → Option ℕ → Vmm → Call
unfolding mmap_done
sys_mmap t addr len prot flags fd v =
    let size = align_up64 len in
    let base = if addr == 0 then t.mmap_next else low_12_clear addr in
    if not t.user_mode || (len == 0 || not (is_private_memory flags fd))
    then refused v
    else if base == 0 || (leb user_space_top base || ltb (user_space_top - base) size)
    then refused v
    else mmap_done t addr base size (map_zero_pages t base (page_flags prot) (size / 4096) 0 v)

munmap_done : UserTask → Run (Unit {0}) → Call
munmap_done t (done u v) = returns 0 t v
munmap_done t (failed v) = refused v
munmap_done t stopped = crashed

pub sys_munmap : UserTask → ℕ → ℕ → Vmm → Call
unfolding munmap_done
sys_munmap t addr len v =
    if not t.user_mode || (len == 0 || not (addr % 4096 == 0))
    then refused v
    else if user_range_ok v addr len
    then munmap_done t (each_page (unmap_user_page t) (align_up64 len / 4096) addr v)
    else refused v
