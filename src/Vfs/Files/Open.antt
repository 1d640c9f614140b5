-- ===== src/Vfs/Files/Open.antt =====
-- Opening and closing of kernel/fs/vfs.c.
use lithium_kernel.Prelude.{
  ℕ, zero, suc, ◌+◌, ◌-◌, ◌≤◌, ◌<◌, ◌≡◌, refl, sym, ap, ◌∙◌, ◌⊎◌, inl, inr, true, false, Option,
  none, some, List, arith, ◌==◌, ==→eq, Bool-cases, Option-cases, update,
}
use lithium_kernel.Vfs.Node.{Vfs, vfs_lookup}
use lithium_kernel.Vfs.Files.{
  Files, max_fds, free_slot, opened, open_at, vfs_open_in, vfs_close_in, vfs_read_in,
}

-- What a search of the slots from `lo` up to `hi` finds.
pub FirstUnused : Files → ℕ → ℕ → Option ℕ → Type 0
FirstUnused files lo hi none = (i : ℕ) → lo ≤ i → i < hi → (files i).valid ≡ true
FirstUnused files lo hi (some s) =
    (lo ≤ s)
    × (s < hi)
    × ((files s).valid ≡ false)
    × ((i : ℕ) → lo ≤ i → i < s → (files i).valid ≡ true)

FirstUnused-step :
    (files : Files) (lo hi : ℕ) (o : Option ℕ)
    → (files lo).valid ≡ true
    → FirstUnused files (lo + 1) hi o
    → FirstUnused files lo hi o
unfolding FirstUnused
FirstUnused-step files lo hi none v h = λ i l u. elim (Bool-cases (lo == i)) [
  | inl e ↦ ground (arith, ==→eq lo i e, v)
  | inr e ↦ h i (ground (arith, e)) u
]
FirstUnused-step files lo hi (some s) v (a, b, c, d) = (
  omega arith,
  b,
  c,
  λ i l u. elim (Bool-cases (lo == i)) [
    | inl e ↦ ground (arith, ==→eq lo i e, v)
    | inr e ↦ d i (ground (arith, e)) u
  ],
)

free_slot_lem : (files : Files) (i n : ℕ) → FirstUnused files i (i + n) (free_slot files i n)
unfolding free_slot FirstUnused
free_slot_lem files i zero = λ j l u. absurd (omega arith)
free_slot_lem files i (suc n) = elim (Bool-cases (files i).valid) [
  | inr e ↦ rw e (omega arith, omega arith, e, λ j l u. absurd (omega arith))
  | inl e ↦
      let same : i + suc n ≡ i + 1 + n = omega arith in
      rw (e, same)
        (FirstUnused-step files i (i + 1 + n) (free_slot files (i + 1) n) e
          (free_slot_lem files (i + 1) n))
]

-- `vfs_open_in` fails exactly if the path names nothing or the slots 3 to 31 are all in use, and
-- then changes nothing; otherwise it takes the lowest slot not in use, for the vnode of the path,
-- with offset 0, and no other slot changes.
pub vfs_open_in_lem :
    (files : Files) (vfs : Vfs) (path : List ℕ)
    → let (files', r) = vfs_open_in files vfs path in
      ((r ≡ none)
        × (files' ≡ files)
        × ((vfs_lookup vfs path ≡ none) ⊎ FirstUnused files 3 max_fds none))
      ⊎ ((fd : ℕ) × (vn : ℕ) × (r ≡ some fd)
          × (vfs_lookup vfs path ≡ some vn)
          × FirstUnused files 3 max_fds (some fd)
          × (files' ≡ update files fd (opened vn)))
unfolding vfs_open_in open_at FirstUnused
vfs_open_in_lem files vfs path = elim (Option-cases (vfs_lookup vfs path)) [
  | inl e ↦ rw (vfs_open_in, e) (inl (refl, refl, inl refl))
  | inr (vn, e) ↦
      let first = free_slot_lem files 3 (max_fds - 3) in
      elim (Option-cases (free_slot files 3 (max_fds - 3))) [
        | inl q ↦ rw (vfs_open_in, e, q) (inl (refl, refl, inr (rw q at first)))
        | inr (fd, q) ↦ rw (vfs_open_in, e, q) (inr (fd, vn, refl, refl, rw q at first, refl))
      ]
]

-- After `vfs_close_in`, reading through the descriptor fails and changes nothing.
vfs_close_in-read :
    (files : Files) (vfs : Vfs) (fd n : ℕ)
    → vfs_read_in (vfs_close_in files fd) vfs fd n ≡ (vfs_close_in files fd, none)
unfolding vfs_read_in vfs_close_in
vfs_close_in-read files vfs fd n = ground arith

-- The slot that a successful call has taken.
pub opened_slot :
    (files : Files) (vfs : Vfs) (path : List ℕ) (files' : Files) (fd : ℕ)
    → vfs_open_in files vfs path ≡ (files', some fd)
    → (vn : ℕ) × (vfs_lookup vfs path ≡ some vn) × (fd < max_fds) × (files' fd ≡ opened vn)
unfolding FirstUnused
opened_slot files vfs path files' fd e = elim (vfs_open_in_lem files vfs path) [
  | inl (r, _, _) ↦ cc (sym r ∙ ap (λ x. x.1) e)
  | inr (fd', vn, r, lookup, (_, range, _, _), slot) ↦
      let same : fd' ≡ fd = cc (sym r ∙ ap (λ x. x.1) e) in
      let table : files' ≡ update files fd' (opened vn) = sym (ap (λ x. x.0) e) ∙ slot in
      (vn, lookup, omega (arith, same, range), ap (λ f. f fd) table ∙ ground (arith, same))
]
