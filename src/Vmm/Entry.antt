-- ===== src/Vmm/Entry.antt =====
-- The page-table entries of kernel/mm/vmm.c: what setting a flag keeps, and the fields of a new entry.
use lithium_kernel.Prelude.{ℕ, ◌/◌, ◌%◌, ◌^◌, ◌<◌, ◌≡◌, refl, true, false, arith}
use lithium_kernel.Vmm.{
  is_present, is_huge, set_present, set_user, table_entry, phys_of, flags_of, leaf,
}

-- The walk reads the same from both entries.
pub record SameWalk (e e' : ℕ) : Type 0 where
  pub same_present : is_present e' ≡ is_present e
  pub same_huge : is_huge e' ≡ is_huge e
  pub same_frame : e' / 4096 ≡ e / 4096

pub set_user-SameWalk : (e : ℕ) → SameWalk e (set_user e)
set_user-SameWalk e = record {
  same_present = ground arith;
  same_huge = ground arith;
  same_frame = ground arith;
}

-- A frame's address is aligned and within the mask.
pub record IsFrame (phys : ℕ) : Type 0 where
  pub aligned : phys % 4096 ≡ 0
  pub masked : phys < 2 ^ 52

pub phys_of-IsFrame : (e : ℕ) → IsFrame (phys_of e)
phys_of-IsFrame e = record { aligned = omega arith; masked = omega arith }

pub record IsTableEntry (phys e : ℕ) : Type 0 where
  pub present : is_present e ≡ true
  pub not_huge : is_huge e ≡ false
  pub points : phys_of e ≡ phys

pub table_entry-IsTableEntry : (phys : ℕ) → IsFrame phys → IsTableEntry phys (table_entry phys)
table_entry-IsTableEntry phys f = record {
  present = ground (arith, f.aligned);
  not_huge = ground (arith, f.aligned);
  points = ground (arith, f.aligned, f.masked);
}

pub record IsLeaf (phys flags e : ℕ) : Type 0 where
  pub present : is_present e ≡ true
  pub points : phys_of e ≡ phys_of phys
  pub keeps_flags : flags_of e ≡ set_present (flags_of flags)

pub leaf-IsLeaf : (phys flags : ℕ) → IsLeaf phys flags (leaf phys flags)
leaf-IsLeaf phys flags = record {
  present = ground arith;
  points = ground arith;
  keeps_flags = ground arith;
}

pub SameWalk-refl : (e : ℕ) → SameWalk e e
SameWalk-refl e = record { same_present = refl; same_huge = refl; same_frame = refl }
