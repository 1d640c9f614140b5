-- ===== src/Vmm/Examples.antt =====
-- The theorems about kernel/mm/vmm.c at the tables of one user page.
use lithium_kernel.Prelude.{ℕ, ◌/◌, ◌≡◌, ◌≢◌, refl, ◌⊎◌, true, false, none, arith}
use lithium_kernel.Pmm.{frame_is_free}
use lithium_kernel.Pmm.Demo.{machine_used, machine-Inv, shared-IsReferenced}
use lithium_kernel.Vmm.{
  phys_of, low_12_clear, vmm_map_page, vmm_unmap_page, vmm_get_pte, vmm_get_physical,
  vmm_current_pml4,
}
use lithium_kernel.Vmm.Tree.{index, Tree, Ensures}
use lithium_kernel.Vmm.Leaf.{page_of}
use lithium_kernel.Vmm.Map.{Mapped, Unchanged, vmm_map_page_lem}
use lithium_kernel.Vmm.Unmap.{vmm_unmap_page_lem}
use lithium_kernel.Vmm.Fault.{vmm_handle_page_fault}
use lithium_kernel.Vmm.Cow.{Resolved, IsCowFault, vmm_handle_page_fault_lem}
use lithium_kernel.Vmm.Space.{vmm_create_address_space}
use lithium_kernel.Vmm.Space.Create.{NewSpace, NoSpace, vmm_create_address_space_lem}
use lithium_kernel.Vmm.Demo.{demo, demo_place, demo-Tree}

-- A page in another 2 MiB takes a new table.
vmm_map_page_lem_example :
    Ensures
      (λ _ v'. Mapped 4096 0x200123 0x7000 demo_place demo v')
      (Unchanged 4096 0x200123 demo_place demo)
      (vmm_map_page 4096 0x200123 0x7000 6 demo)
vmm_map_page_lem_example = vmm_map_page_lem 4096 0x200123 0x7000 6 demo_place demo demo-Tree

vmm_unmap_page_lem_example :
    Tree 4096 demo_place (vmm_unmap_page 4096 0 demo)
    × ((b : ℕ)
        → page_of b ≢ page_of 0
        → vmm_get_physical (vmm_unmap_page 4096 0 demo) 4096 b ≡ vmm_get_physical demo 4096 b)
    × (((vmm_get_pte demo 4096 0 ≡ none) × (vmm_unmap_page 4096 0 demo ≡ demo))
        ⊎ ((vmm_get_pte demo 4096 0 ≢ none)
            × (vmm_get_physical (vmm_unmap_page 4096 0 demo) 4096 0 ≡ none)))
vmm_unmap_page_lem_example = vmm_unmap_page_lem 4096 0 demo_place demo demo-Tree

demo-IsCowFault : IsCowFault demo_place demo 5 7 16384
unfolding vmm_get_pte vmm_current_pml4
demo-IsCowFault = record {
  tree = demo-Tree;
  write_fault = refl;
  below = omega arith;
  found = refl;
  cow = refl;
  no_table = refl;
  referenced = shared-IsReferenced;
}

-- The user's write at address 5: the frame has two references, so the page is copied.
vmm_handle_page_fault_lem_example :
    Ensures
      (λ b v'.
        (b ≡ true)
        × Resolved
            (vmm_current_pml4 demo)
            (low_12_clear 5)
            (phys_of (demo.mem 16384 (index 0 (low_12_clear 5))))
            demo_place
            demo
            v')
      (λ v'. (v' ≡ demo) × (demo.pmm.free_frames ≡ 0))
      (vmm_handle_page_fault 5 7 demo)
vmm_handle_page_fault_lem_example =
    vmm_handle_page_fault_lem demo_place demo 5 7 16384 demo-IsCowFault

root_used : frame_is_free demo.pmm.bitmap (vmm_current_pml4 demo / 4096) ≡ false
unfolding vmm_current_pml4
root_used = machine_used 1 (omega arith)

low_used :
    frame_is_free demo.pmm.bitmap (phys_of (demo.mem (vmm_current_pml4 demo) 0) / 4096) ≡ false
unfolding vmm_current_pml4
low_used = machine_used 2 (omega arith)

vmm_create_address_space_lem_example :
    Ensures (NewSpace demo) (NoSpace demo) (vmm_create_address_space demo)
vmm_create_address_space_lem_example =
    vmm_create_address_space_lem demo machine-Inv root_used low_used
