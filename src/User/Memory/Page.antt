-- ===== src/User/Memory/Page.antt =====
-- map_user_zero_page of kernel/syscall/syscall.c: one page of zeros for the user.
use lithium_kernel.Prelude.{ℕ}
use lithium_kernel.Vmm.{Vmm}
use lithium_kernel.Vmm.Tree.{Place, Tree, Ensures}
use lithium_kernel.Vmm.Fresh.{FreshPage, Untouched, map_fresh_lem}
use lithium_kernel.User.Memory.{UserTask, map_user_zero_page}

-- A new page of zeros at the address.
abbrev pub ZeroPage : ℕ → ℕ → Place → Vmm → Vmm → Type 0
ZeroPage root virt place v v' = FreshPage root virt (λ _. 0) place v v'

-- On a tree of tables of the task, map_user_zero_page does not halt. If it returns 0, the page of the address is
-- translated to a frame that was free before and now is in use, all words of that frame are 0, and every other
-- page is translated as before; a page in use that is no table keeps its words, and stays one. If it returns
-- -ENOMEM, every page is translated as before, and at most one frame is free or the address lies in a 2 MiB page.
-- Either way the tables form a tree.
pub map_user_zero_page_lem :
    (t : UserTask) (virt flags : ℕ) (place : Place) (v : Vmm)
    → Tree t.cr3 place v
    → Ensures
        (λ _ v'. ZeroPage t.cr3 virt place v v')
        (Untouched t.cr3 virt v)
        (map_user_zero_page t virt flags v)
unfolding map_user_zero_page
map_user_zero_page_lem t virt flags place v w = map_fresh_lem t.cr3 virt flags (λ _. 0) place v w
