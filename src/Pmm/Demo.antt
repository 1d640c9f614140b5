-- ===== src/Pmm/Demo.antt =====
-- A machine of 16 frames for the examples: the first five are in use, the next is shared by two.
use lithium_kernel.Prelude.{
  ℕ, zero, suc, ◌<◌, ◌≡◌, refl, true, false, arith, ltb, ◌==◌, if◌then◌else◌, count,
}
use lithium_kernel.Pmm.{Pmm, frame_is_free}
use lithium_kernel.Pmm.Inv.{Inv}
use lithium_kernel.Pmm.Release.{IsReferenced}

abbrev pub machine : Pmm
machine = record {
  bitmap = λ i. if i == 0 then 63 else 0;
  refcount = λ f. if ltb f 5 then 1 else if f == 5 then 2 else 0;
  total_frames = 16;
  free_frames = 10;
  next_hint = 0;
}

pub machine_used : (f : ℕ) → f < 6 → frame_is_free machine.bitmap f ≡ false
unfolding frame_is_free
machine_used zero l = refl
machine_used (suc zero) l = refl
machine_used (suc (suc zero)) l = refl
machine_used (suc (suc (suc zero))) l = refl
machine_used (suc (suc (suc (suc zero)))) l = refl
machine_used (suc (suc (suc (suc (suc zero))))) l = refl
machine_used (suc (suc (suc (suc (suc (suc f)))))) l = absurd (omega arith)

unreferenced : (f : ℕ) → frame_is_free machine.bitmap f ≡ true → machine.refcount f ≡ 0
unreferenced zero h = cc (h, machine_used 0 (omega arith))
unreferenced (suc zero) h = cc (h, machine_used 1 (omega arith))
unreferenced (suc (suc zero)) h = cc (h, machine_used 2 (omega arith))
unreferenced (suc (suc (suc zero))) h = cc (h, machine_used 3 (omega arith))
unreferenced (suc (suc (suc (suc zero)))) h = cc (h, machine_used 4 (omega arith))
unreferenced (suc (suc (suc (suc (suc zero))))) h = cc (h, machine_used 5 (omega arith))
unreferenced (suc (suc (suc (suc (suc (suc f)))))) h = ground arith

pub machine-Inv : Inv machine
unfolding frame_is_free count
machine-Inv = record {
  bytes = λ i. ground arith;
  bounded = omega arith;
  hinted = omega arith;
  counted = refl;
  unreferenced = unreferenced;
  narrow = λ f. ground arith;
}

pub shared-IsReferenced : IsReferenced machine 20480
shared-IsReferenced = record {
  aligned = refl;
  below = omega arith;
  used = machine_used 5 (omega arith);
  positive = omega arith;
}
