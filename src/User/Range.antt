-- ===== src/User/Range.antt =====
-- user_range_ok of kernel/syscall/syscall.c is what copy_from_user needs.
use lithium_kernel.Prelude.{
  ℕ, zero, suc, ◌+◌, ◌-◌, ◌*◌, ◌/◌, ◌%◌, ◌^◌, ◌≤◌, ◌<◌, ◌≡◌, refl, ap, ◌∙◌, inl, inr, Bool, true,
  false, ◌&&◌, ◌||◌, none, some, List, [], ◌∷◌, arith, ltb, leb, ◌==◌, Bool-cases, Option-cases,
  ltb→lt, length,
}
use lithium_kernel.Vmm.{Vmm, done, low_12_clear, vmm_current_pml4, vmm_get_flags, vmm_get_physical}
use lithium_kernel.Vmm.Space.{is_user_page}
use lithium_kernel.Vmm.Fault.{user_space_top}
use lithium_kernel.User.{byte_at, pages_ok, user_range_ok, copy_from_user}
use lithium_kernel.User.Reads.{user_byte, user_bytes, answer, copy_from_user_lem}

flags-page : (v : Vmm) (root a : ℕ) → vmm_get_flags v root (low_12_clear a) ≡ vmm_get_flags v root a
unfolding vmm_get_flags
flags-page v root a =
    let i4 : low_12_clear a / 2 ^ 39 ≡ a / 2 ^ 39 = omega arith in
    let i3 : low_12_clear a / 2 ^ 30 ≡ a / 2 ^ 30 = omega arith in
    let i2 : low_12_clear a / 2 ^ 21 ≡ a / 2 ^ 21 = omega arith in
    let i1 : low_12_clear a / 2 ^ 12 ≡ a / 2 ^ 12 = omega arith in rw (i4, i3, i2, i1) refl

-- An address without a frame has no flags.
flags-none : (v : Vmm) (root a : ℕ) → vmm_get_physical v root a ≡ none → vmm_get_flags v root a ≡ 0
unfolding vmm_get_flags vmm_get_physical
flags-none v root a e = ground arith

-- A page with the flags of a user's page has a frame.
user_page-physical :
    (v : Vmm) (root a : ℕ)
    → is_user_page (vmm_get_flags v root (low_12_clear a)) ≡ true
    → (p : ℕ) × (vmm_get_physical v root a ≡ some p)
user_page-physical v root a h = elim (Option-cases (vmm_get_physical v root a)) [
  | inr found ↦ found
  | inl e ↦
      let no_flags = flags-page v root a ∙ flags-none v root a e in
      let none_user : is_user_page 0 ≡ false = refl in
      absurd (ground (arith, ap is_user_page no_flags, h))
]

and-left : (a b : Bool) → (a && b) ≡ true → a ≡ true
and-left a b h = ground arith

and-right : (a b : Bool) → (a && b) ≡ true → b ≡ true
and-right a b h = ground arith

pages_ok-user :
    (v : Vmm) (k page a : ℕ)
    → page % 4096 ≡ 0
    → pages_ok v k page ≡ true
    → page ≤ a
    → a < page + k * 4096
    → is_user_page (vmm_get_flags v (vmm_current_pml4 v) (low_12_clear a)) ≡ true
unfolding pages_ok
pages_ok-user v zero page a al h l u = absurd (omega arith)
pages_ok-user v (suc k) page a al h l u =
    let flags = is_user_page (vmm_get_flags v (vmm_current_pml4 v) page) in
    elim (Bool-cases (ltb a (page + 4096))) [
      | inl here ↦
          let before : a < page + 4096 = ltb→lt a (page + 4096) here in
          let same : low_12_clear a ≡ page = omega arith in
          rw same (and-left flags (pages_ok v k (page + 4096)) h)
      | inr later ↦
          pages_ok-user v k (page + 4096) a (omega arith)
            (and-right flags (pages_ok v k (page + 4096)) h) (ground (arith, later)) (omega arith)
    ]

-- The loop looks at the page of every address of the range.
range-user :
    (v : Vmm) (start len a : ℕ)
    → user_range_ok v start len ≡ true
    → start ≤ a
    → a < start + len
    → is_user_page (vmm_get_flags v (vmm_current_pml4 v) (low_12_clear a)) ≡ true
unfolding user_range_ok
range-user v start len a h l u =
    pages_ok-user v ((start + len - 1) / 4096 + 1 - start / 4096) (low_12_clear start) a
      (omega arith) (ground (arith, h, l, u)) (omega arith) (omega arith)

range-inside :
    (v : Vmm) (start len : ℕ)
    → user_range_ok v start len ≡ true
    → 0 < len
    → (0 < start) × (start + len ≤ user_space_top)
unfolding user_range_ok
range-inside v start len h l = (ground (arith, h, l), ground (arith, h, l))

user_byte-found :
    (v : Vmm) (start len a : ℕ)
    → user_range_ok v start len ≡ true
    → start ≤ a
    → a < start + len
    → (b : ℕ) × (user_byte v a ≡ some b)
unfolding user_byte
user_byte-found v start len a h l u =
    let user = range-user v start len a h l u in
    let (pos, top) = range-inside v start len h (omega arith) in
    let inside : (a == 0 || leb user_space_top a) ≡ false = ground (arith, pos, top, l, u) in
    let (p, e) = user_page-physical v (vmm_current_pml4 v) a user in
    (byte_at v p, rw (inside, user, e) refl)

user_bytes-found :
    (v : Vmm) (start len n a : ℕ)
    → user_range_ok v start len ≡ true
    → start ≤ a
    → a + n ≤ start + len
    → (bs : List ℕ) × (length bs ≡ n) × (user_bytes v a n ≡ some bs)
unfolding user_bytes
user_bytes-found v start len zero a h l u = ([], refl, refl)
user_bytes-found v start len (suc n) a h l u =
    let (b, e) = user_byte-found v start len a h l (omega arith) in
    let (bs, size, es) = user_bytes-found v start len n (a + 1) h (omega arith) (omega arith) in
    (b ∷ bs, ap suc size, rw (e, es) refl)

-- Where user_range_ok accepts an address and a length, copy_from_user of them succeeds: it gives that many
-- bytes and leaves the memory as it is.
pub user_range_ok_lem :
    (v : Vmm) (start len : ℕ)
    → user_range_ok v start len ≡ true
    → (bs : List ℕ) × (length bs ≡ len) × (copy_from_user start len v ≡ done bs v)
user_range_ok_lem v start len h =
    let (bs, size, e) = user_bytes-found v start len len start h (omega arith) (omega arith) in
    (bs, size, copy_from_user_lem v start len ∙ ap (answer v) e)
