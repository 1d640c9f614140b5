-- ===== src/User/Examples.antt =====
-- Runs at concrete user memory: one page of the user at address 0, of frame 20480.
use lithium_kernel.Prelude.{
  ℕ, ◌+◌, ◌-◌, ◌^◌, true, none, arith, ◌≡◌, refl, some, List, length, [], ◌∷◌,
}
use lithium_kernel.Vmm.{Vmm, low_12_clear, done, vmm_current_pml4, vmm_get_physical, vmm_get_flags}
use lithium_kernel.Vmm.Demo.{demo, demo_place, demo-Tree}
use lithium_kernel.Vmm.Tree.{Ensures}
use lithium_kernel.Vmm.Fresh.{Untouched}
use lithium_kernel.User.{copy_from_user, copy_user_string, put_bytes, user_range_ok}
use lithium_kernel.User.Reads.{user_byte, user_bytes, answer, copy_from_user_lem}
use lithium_kernel.User.Memory.{
  UserTask, returns, is_private_memory, brk_flags, map_user_zero_page, sys_brk, sys_mmap,
  sys_munmap,
}
use lithium_kernel.User.Memory.Calls.{IsLaidOut, Keeps, memory_calls-IsLaidOut, sys_mmap_wraps}
use lithium_kernel.User.Memory.Grow.{Grows, sys_brk-Grows}
use lithium_kernel.User.Memory.Page.{ZeroPage, map_user_zero_page_lem}
use lithium_kernel.User.Range.{user_range_ok_lem}
use lithium_kernel.User.Strings.{string_at, copy_user_string_lem}

-- The string "hi" at address 100.
with_text : Vmm
unfolding put_bytes
with_text = put_bytes (20480 + 100) (104 ∷ 105 ∷ 0 ∷ []) demo

two_bytes : user_bytes with_text 100 2 ≡ some (104 ∷ 105 ∷ [])
unfolding with_text user_bytes user_byte vmm_current_pml4 vmm_get_flags vmm_get_physical
two_bytes = refl

copy_from_user_lem_example :
    copy_from_user 100 2 with_text ≡ answer with_text (user_bytes with_text 100 2)
copy_from_user_lem_example = copy_from_user_lem with_text 100 2

copy_user_string_lem_example : copy_user_string with_text 100 8 ≡ string_at with_text 100 8
copy_user_string_lem_example = copy_user_string_lem with_text 8 100

user_range_ok_lem_example :
    (bs : List ℕ) × (length bs ≡ 4) × (copy_from_user 100 4 with_text ≡ done bs with_text)
unfolding with_text user_range_ok vmm_current_pml4 vmm_get_flags
user_range_ok_lem_example = user_range_ok_lem with_text 100 4 refl

-- A task whose break is one page at 0x400000.
abbrev demo_task : UserTask
demo_task = record {
  user_mode = true;
  cr3 = 4096;
  brk_base = 0x400000;
  brk_current = 0x401000;
  mmap_next = 0x10000000;
}

demo-IsLaidOut : IsLaidOut demo_task
demo-IsLaidOut = record { based = omega arith; apart = omega arith; below = omega arith }

memory_calls-IsLaidOut_example :
    Keeps demo_task (sys_brk demo_task 0x403000 demo)
    × Keeps demo_task (sys_mmap demo_task 0x403000 8192 3 34 none demo)
    × Keeps demo_task (sys_munmap demo_task 0x403000 8192 demo)
memory_calls-IsLaidOut_example =
    memory_calls-IsLaidOut demo_task 0x403000 8192 3 34 none demo demo-IsLaidOut

private_flags : is_private_memory 34 none ≡ true
unfolding is_private_memory
private_flags = refl

sys_mmap_wraps_example :
    sys_mmap demo_task 8192 (2 ^ 64 - 1) 3 34 none demo ≡ returns (low_12_clear 8192) demo_task demo
sys_mmap_wraps_example =
    sys_mmap_wraps demo_task 8192 (2 ^ 64 - 1) 3 34 demo refl private_flags (omega arith)
      (omega arith) (omega arith) (omega arith)

map_user_zero_page_lem_example :
    Ensures
      (λ _ v'. ZeroPage demo_task.cr3 0x400000 demo_place demo v')
      (Untouched demo_task.cr3 0x400000 demo)
      (map_user_zero_page demo_task 0x400000 brk_flags demo)
map_user_zero_page_lem_example =
    map_user_zero_page_lem demo_task 0x400000 brk_flags demo_place demo demo-Tree

sys_brk-Grows_example : Grows demo_task 0x402000 demo (sys_brk demo_task 0x402000 demo)
sys_brk-Grows_example =
    sys_brk-Grows demo_task 0x402000 demo_place demo demo-Tree demo-IsLaidOut refl (omega arith)
      (omega arith) (omega arith)
