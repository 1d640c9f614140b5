-- ===== src/User/Memory/Calls.antt =====
-- The break and the next mapping of a task across sys_brk, sys_mmap and sys_munmap.
use lithium_kernel.Prelude.{
  ℕ, ◌+◌, ◌-◌, ◌/◌, ◌%◌, ◌^◌, ◌≤◌, ◌<◌, ◌≡◌, refl, sym, inl, inr, true, false, not, ◌||◌, Option,
  none, arith, ltb, leb, ◌==◌, if◌then◌else◌, Bool-cases, ==→eq,
}
use mathlib.Core.Path.{subst}
use lithium_kernel.Vmm.{Vmm, Run, done, failed, stopped, low_12_clear, align_up64}
use lithium_kernel.Vmm.Fault.{user_space_top}
use lithium_kernel.User.{user_range_ok}
use lithium_kernel.User.Memory.{
  UserTask, Call, returns, refused, crashed, move_break, brk_done, sys_brk, map_zero_pages,
  page_flags, mmap_done, is_private_memory, sys_mmap, munmap_done, each_page, unmap_user_page,
  sys_munmap,
}

-- The break lies between its base and the first mapping.
pub record IsLaidOut (t : UserTask) : Type 0 where
  pub based : t.brk_base ≤ t.brk_current
  pub apart : t.brk_current < t.mmap_next
  pub below : t.mmap_next ≤ user_space_top

-- A call that ends leaves the task laid out, with its tables and the base of its break.
abbrev pub Keeps : UserTask → Call → Type 0
Keeps t (returns a t' v) = IsLaidOut t' × (t'.cr3 ≡ t.cr3) × (t'.brk_base ≡ t.brk_base)
Keeps t (refused v) = Unit {0}
Keeps t crashed = Unit {0}

unchanged : (t : UserTask) (a : ℕ) (v : Vmm) → IsLaidOut t → Keeps t (returns a t v)
unchanged t a v i = (i, refl, refl)

brk_done-Keeps :
    (t : UserTask) (requested : ℕ) (r : Run (Unit {0}))
    → IsLaidOut t
    → t.brk_base ≤ requested
    → requested < t.mmap_next
    → Keeps t (brk_done t requested r)
unfolding brk_done
brk_done-Keeps t requested (done u v) i l l' =
    (record { based = l; apart = l'; below = i.below }, refl, refl)
brk_done-Keeps t requested (failed v) i l l' = unchanged t t.brk_current v i
brk_done-Keeps t requested stopped i l l' = tt

sys_brk-Keeps :
    (t : UserTask) (requested : ℕ) (v : Vmm) → IsLaidOut t → Keeps t (sys_brk t requested v)
unfolding sys_brk
sys_brk-Keeps t requested v i = elim (Bool-cases (not t.user_mode)) [
  | inl e ↦ rw e tt
  | inr e ↦
      elim (Bool-cases
        (requested == 0 || (ltb requested t.brk_base || leb t.mmap_next requested))) [
          | inl out ↦ rw (e, out) (unchanged t t.brk_current v i)
          | inr inside ↦
              rw (e, inside)
                (brk_done-Keeps t requested
                  (move_break t (align_up64 t.brk_current) (align_up64 requested) v) i
                  (ground (arith, inside)) (ground (arith, inside)))
        ]
]

moved_on :
    (t : UserTask) (size : ℕ)
    → IsLaidOut t
    → t.mmap_next + size ≤ user_space_top
    → IsLaidOut (record t { mmap_next = align_up64 (t.mmap_next + size) })
moved_on t size i u = record {
  based = i.based;
  apart = let before = i.apart in omega arith;
  below = omega arith;
}

mmap_done-Keeps :
    (t : UserTask) (addr base size : ℕ) (r : Run (Unit {0}))
    → IsLaidOut t
    → (addr ≡ 0 → base ≡ t.mmap_next)
    → base + size ≤ user_space_top
    → Keeps t (mmap_done t addr base size r)
unfolding mmap_done
mmap_done-Keeps t addr base size (done u v) i at u' = elim (Bool-cases (addr == 0)) [
  | inl z ↦
      let here = at (==→eq addr 0 z) in
      rw z (
        subst (λ b. IsLaidOut (record t { mmap_next = align_up64 (b + size) })) (sym here)
            (moved_on t size i (subst (λ b. b + size ≤ user_space_top) here u')),
        refl,
        refl,
      )
  | inr z ↦ rw z (i, refl, refl)
]
mmap_done-Keeps t addr base size (failed v) i at u' = tt
mmap_done-Keeps t addr base size stopped i at u' = tt

sys_mmap-Keeps :
    (t : UserTask) (addr len prot flags : ℕ) (fd : Option ℕ) (v : Vmm)
    → IsLaidOut t
    → Keeps t (sys_mmap t addr len prot flags fd v)
unfolding sys_mmap
sys_mmap-Keeps t addr len prot flags fd v i =
    let size = align_up64 len in
    let base = if addr == 0 then t.mmap_next else low_12_clear addr in
    elim (Bool-cases (not t.user_mode || (len == 0 || not (is_private_memory flags fd)))) [
      | inl e ↦ rw e tt
      | inr e ↦
          elim (Bool-cases
            (base == 0 || (leb user_space_top base || ltb (user_space_top - base) size))) [
              | inl out ↦ rw (e, out) tt
              | inr inside ↦
                  rw (e, inside)
                    (mmap_done-Keeps t addr base size
                      (map_zero_pages t base (page_flags prot) (size / 4096) 0 v) i (λ z. rw z refl)
                      (ground (arith, inside)))
            ]
    ]

munmap_done-Keeps : (t : UserTask) (r : Run (Unit {0})) → IsLaidOut t → Keeps t (munmap_done t r)
unfolding munmap_done
munmap_done-Keeps t (done u v) i = unchanged t 0 v i
munmap_done-Keeps t (failed v) i = tt
munmap_done-Keeps t stopped i = tt

sys_munmap-Keeps :
    (t : UserTask) (addr len : ℕ) (v : Vmm) → IsLaidOut t → Keeps t (sys_munmap t addr len v)
unfolding sys_munmap
sys_munmap-Keeps t addr len v i =
    elim (Bool-cases (not t.user_mode || (len == 0 || not (addr % 4096 == 0)))) [
      | inl e ↦ rw e tt
      | inr e ↦ elim (Bool-cases (user_range_ok v addr len)) [
        | inr bad ↦ rw (e, bad) tt
        | inl good ↦
            rw (e, good)
              (munmap_done-Keeps t (each_page (unmap_user_page t) (align_up64 len / 4096) addr v) i)
      ]
    ]

-- For a task whose break lies from its base on and below its next mapping, which lies at most at the top of
-- the user's half, the same holds of the task after sys_brk, sys_mmap and sys_munmap of any arguments that
-- return a value, with the same tables and the same base of the break.
pub memory_calls-IsLaidOut :
    (t : UserTask) (a len prot flags : ℕ) (fd : Option ℕ) (v : Vmm)
    → IsLaidOut t
    → Keeps t (sys_brk t a v)
      × Keeps t (sys_mmap t a len prot flags fd v)
      × Keeps t (sys_munmap t a len v)
memory_calls-IsLaidOut t a len prot flags fd v i =
    (sys_brk-Keeps t a v i, sys_mmap-Keeps t a len prot flags fd v i, sys_munmap-Keeps t a len v i)

mmap_done-given :
    (t : UserTask) (addr base size : ℕ) (v : Vmm)
    → (addr == 0) ≡ false
    → mmap_done t addr base size (done tt v) ≡ returns base t v
unfolding mmap_done
mmap_done-given t addr base size v given = rw given refl

-- In user mode, for private memory of no file at an address in the user's half above its first page, a length
-- less than one page below 2 ^ 64 wraps around to 0 pages: sys_mmap returns the page of the address, as if the
-- memory were there, and maps nothing.
pub sys_mmap_wraps :
    (t : UserTask) (addr len prot flags : ℕ) (v : Vmm)
    → t.user_mode ≡ true
    → is_private_memory flags none ≡ true
    → 4096 ≤ addr
    → addr < user_space_top
    → 2 ^ 64 < len + 4096
    → len < 2 ^ 64
    → sys_mmap t addr len prot flags none v ≡ returns (low_12_clear addr) t v
unfolding sys_mmap map_zero_pages
sys_mmap_wraps t addr len prot flags v user private above below long word =
    let given : (addr == 0) ≡ false = ground (arith, above) in
    let some_len : (len == 0) ≡ false = ground (arith, long) in
    let size : align_up64 len ≡ 0 = omega arith in
    let pages : align_up64 len / 4096 ≡ 0 = omega arith in
    let inside : (low_12_clear addr == 0
          || (leb user_space_top (low_12_clear addr) || ltb (user_space_top - low_12_clear addr) 0))
        ≡ false =
      ground (arith, above, below) in
    rw (given, some_len, user, private, size, inside)
      (mmap_done-given _ addr (low_12_clear addr) 0 v given)
