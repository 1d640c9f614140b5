-- ===== src/User/Reads.antt =====
-- copy_from_user of kernel/syscall/syscall.c copies page by page; read byte by byte, the user's memory
-- gives the same.
use lithium_kernel.Prelude.{
  ℕ, zero, suc, ◌+◌, ◌-◌, ◌/◌, ◌%◌, ◌^◌, ◌≤◌, ◌<◌, ◌≡◌, refl, sym, ap, ◌∙◌, ◌⊎◌, inl, inr, true,
  false, ◌||◌, Option, none, some, List, [], ◌∷◌, ◌++◌, arith, ltb, leb, ◌==◌, if◌then◌else◌,
  Bool-cases, Option-cases,
}
use lithium_kernel.Vmm.{
  Vmm, Run, done, failed, bind, M, low_12_clear, vmm_current_pml4, vmm_get_flags, vmm_get_physical,
}
use lithium_kernel.Vmm.Space.{is_user_page}
use lithium_kernel.Vmm.Fault.{user_space_top}
use lithium_kernel.User.{
  byte_at, bytes_at, user_page_for_copy, make_writable, chunk, copy_in, copy_from_user,
}

abbrev pub plus : ℕ → Option ℕ → Option ℕ
plus n none = none
plus n (some a) = some (a + n)

-- Two addresses of one page are translated alike.
next_physical :
    (v : Vmm) (root a : ℕ)
    → a % 4096 + 1 < 4096
    → vmm_get_physical v root (a + 1) ≡ plus 1 (vmm_get_physical v root a)
unfolding vmm_get_physical
next_physical v root a h =
    let i4 : (a + 1) / 2 ^ 39 ≡ a / 2 ^ 39 = omega arith in
    let i3 : (a + 1) / 2 ^ 30 ≡ a / 2 ^ 30 = omega arith in
    let i2 : (a + 1) / 2 ^ 21 ≡ a / 2 ^ 21 = omega arith in
    let i1 : (a + 1) / 2 ^ 12 ≡ a / 2 ^ 12 = omega arith in
    let o3 : (a + 1) % 2 ^ 30 ≡ a % 2 ^ 30 + 1 = omega arith in
    let o2 : (a + 1) % 2 ^ 21 ≡ a % 2 ^ 21 + 1 = omega arith in
    let o1 : (a + 1) % 2 ^ 12 ≡ a % 2 ^ 12 + 1 = omega arith in
    rw (i4, i3, i2, i1, o3, o2, o1) (ground arith)

-- The user's byte at a virtual address: none outside of the user's half and pages.
unfoldable pub user_byte : Vmm → ℕ → Option ℕ
user_byte v a =
    if a == 0 || leb user_space_top a
    then none
    else if is_user_page (vmm_get_flags v (vmm_current_pml4 v) (low_12_clear a))
    then (elim (vmm_get_physical v (vmm_current_pml4 v) a) [
      | none ↦ none
      | some p ↦ some (byte_at v p)
    ])
    else none

abbrev pub joined : List ℕ → Option (List ℕ) → Option (List ℕ)
joined bs none = none
joined bs (some cs) = some (bs ++ cs)

abbrev pub first : Option ℕ → Option (List ℕ) → Option (List ℕ)
first none rest = none
first (some b) rest = joined (b ∷ []) rest

-- `n` bytes from an address on, one after the other.
unfoldable pub user_bytes : Vmm → ℕ → ℕ → Option (List ℕ)
user_bytes v a zero = some []
user_bytes v a (suc n) = first (user_byte v a) (user_bytes v (a + 1) n)

abbrev pub answer : {A : Type 0} → Vmm → Option A → Run A
answer v none = failed v
answer v (some a) = done a v

joined-nil : (o : Option (List ℕ)) → joined [] o ≡ o
joined-nil none = refl
joined-nil (some cs) = refl

joined-cons :
    (b : ℕ) (bs : List ℕ) (o : Option (List ℕ)) → joined (b ∷ []) (joined bs o) ≡ joined (b ∷ bs) o
joined-cons b bs none = refl
joined-cons b bs (some cs) = refl

-- The page of `cur` is the user's, in the user's half.
record IsMapped (v : Vmm) (cur : ℕ) : Type 0 where
  positive : 0 < cur
  below : cur < user_space_top
  user : is_user_page (vmm_get_flags v (vmm_current_pml4 v) (low_12_clear cur)) ≡ true

user_byte_mapped :
    (v : Vmm) (cur p : ℕ)
    → IsMapped v cur
    → vmm_get_physical v (vmm_current_pml4 v) cur ≡ some p
    → user_byte v cur ≡ some (byte_at v p)
unfolding user_byte
user_byte_mapped v cur p i h =
    let inside : (cur == 0 || leb user_space_top cur) ≡ false =
      ground (arith, i.positive, i.below) in
    rw (inside, i.user, h) refl

-- The bytes of one page are those of its frame.
user_bytes-chunk :
    (v : Vmm) (n cur p m len cur' : ℕ)
    → n + m ≡ len
    → cur + n ≡ cur'
    → (0 < n → IsMapped v cur × (vmm_get_physical v (vmm_current_pml4 v) cur ≡ some p))
    → cur % 4096 + n ≤ 4096
    → cur' ≤ user_space_top
    → user_bytes v cur len ≡ joined (bytes_at v p n) (user_bytes v cur' m)
unfolding user_bytes bytes_at
user_bytes-chunk v zero cur p m len cur' e e' h page u =
    let a : cur ≡ cur' = omega arith in
    let b : len ≡ m = omega arith in rw (a, b) (sym (joined-nil (user_bytes v cur' m)))
user_bytes-chunk v (suc n) cur p m zero cur' e e' h page u = absurd (omega arith)
user_bytes-chunk v (suc n) cur p m (suc len) cur' e e' h page u =
    let (i, q) = h (omega arith) in
    let ih =
      user_bytes-chunk v n (cur + 1) (p + 1) m len cur' (omega arith) (omega arith)
        (λ pos. (
          next_mapped pos i,
          next_physical v (vmm_current_pml4 v) cur (omega arith) ∙ ap (plus 1) q,
        ))
        (omega arith) u in
    rw (user_byte_mapped v cur p i q, ih)
      (joined-cons (byte_at v p) (bytes_at v (p + 1) n) (user_bytes v cur' m))
  where
    next_mapped : 0 < n → IsMapped v cur → IsMapped v (cur + 1)
    next_mapped pos i =
        let same : low_12_clear (cur + 1) ≡ low_12_clear cur = omega arith in
        record { positive = omega arith; below = omega arith; user = rw same i.user }

record PageRead (v : Vmm) (cur p : ℕ) : Type 0 where
  found : user_page_for_copy cur false v ≡ done p v
  mapped : IsMapped v cur
  phys : vmm_get_physical v (vmm_current_pml4 v) cur ≡ some p

-- Asking for a page to read changes nothing, and fails exactly where there is no byte.
page_cases :
    (v : Vmm) (cur : ℕ)
    → 0 < cur
    → cur < user_space_top
    → ((p : ℕ) × PageRead v cur p)
      ⊎ ((user_page_for_copy cur false v ≡ failed v) × (user_byte v cur ≡ none))
unfolding user_page_for_copy make_writable user_byte
page_cases v cur pos below =
    let inside : (cur == 0 || leb user_space_top cur) ≡ false = ground (arith, pos, below) in
    elim (Bool-cases (is_user_page (vmm_get_flags v (vmm_current_pml4 v) (low_12_clear cur)))) [
      | inr off ↦ inr (rw (inside, off) refl, rw (inside, off) refl)
      | inl on ↦ elim (Option-cases (vmm_get_physical v (vmm_current_pml4 v) cur)) [
        | inl e ↦ inr (rw (inside, on, e) refl, rw (inside, on, e) refl)
        | inr (p, e) ↦ inl (
          p,
          record {
            found = rw (inside, on, e) refl;
            mapped = record { positive = pos; below = below; user = on };
            phys = e;
          },
        )
      ]
    ]

-- What the loop does once the first chunk is read.
after_chunk :
    (v : Vmm) (bs : List ℕ) (o : Option (List ℕ))
    → bind (answer v o) (λ rest x. done (bs ++ rest) x) ≡ answer v (joined bs o)
after_chunk v bs none = refl
after_chunk v bs (some cs) = refl

abbrev joining : List ℕ → List ℕ → M (List ℕ)
joining bs rest x = done (bs ++ rest) x

copy_in-none :
    (v : Vmm) (f cur len : ℕ)
    → user_page_for_copy cur false v ≡ failed v
    → copy_in (suc f) cur (suc len) v ≡ failed v
unfolding copy_in
copy_in-none v f cur len e = let more : (suc len == 0) ≡ false = ground arith in rw (more, e) refl

user_bytes-none :
    (v : Vmm) (cur len : ℕ) → user_byte v cur ≡ none → user_bytes v cur (suc len) ≡ none
unfolding user_bytes
user_bytes-none v cur len e = rw e refl

copy_in-suc :
    (v : Vmm) (f cur len p : ℕ)
    → user_page_for_copy cur false v ≡ done p v
    → copy_in (suc f) cur (suc len) v
      ≡ bind
          (copy_in f (cur + chunk cur (suc len)) (suc len - chunk cur (suc len)) v)
          (joining (bytes_at v p (chunk cur (suc len))))
unfolding copy_in
copy_in-suc v f cur len p e = let more : (suc len == 0) ≡ false = ground arith in rw (more, e) refl

user_bytes-zero : (v : Vmm) (cur : ℕ) → user_bytes v cur 0 ≡ some []
unfolding user_bytes
user_bytes-zero v cur = refl

copy_in-zero : (v : Vmm) (f cur : ℕ) → copy_in f cur 0 v ≡ done [] v
unfolding copy_in
copy_in-zero v zero cur = refl
copy_in-zero v (suc f) cur = refl

copy_in_lem :
    (v : Vmm) (f cur len : ℕ)
    → len ≤ f
    → 0 < cur
    → cur + len ≤ user_space_top
    → copy_in f cur len v ≡ answer v (user_bytes v cur len)
copy_in_lem v f cur zero l pos u = rw (copy_in-zero v f cur, user_bytes-zero v cur) refl
copy_in_lem v zero cur (suc len) l pos u = absurd (omega arith)
copy_in_lem v (suc f) cur (suc len) l pos u = elim (page_cases v cur pos (omega arith)) [
  | inr (e, none_there) ↦ rw (copy_in-none v f cur len e, user_bytes-none v cur len none_there) refl
  | inl (p, r) ↦
      let n = chunk cur (suc len) in
      let ih = copy_in_lem v f (cur + n) (suc len - n) (omega arith) (omega arith) (omega arith) in
      let split =
        user_bytes-chunk v n cur p (suc len - n) (suc len) (cur + n) (omega arith) refl
          (λ _. (r.mapped, r.phys)) (omega arith) (omega arith) in
      copy_in-suc v f cur len p r.found
      ∙ ap (λ run. bind run (joining (bytes_at v p n))) ih
      ∙ after_chunk v (bytes_at v p n) (user_bytes v (cur + n) (suc len - n))
      ∙ ap (answer v) (sym split)
]

abbrev pub single : Option ℕ → Option (List ℕ)
single none = none
single (some b) = some (b ∷ [])

first-single : (o : Option ℕ) → first o (some []) ≡ single o
first-single none = refl
first-single (some b) = refl

pub user_bytes-one : (v : Vmm) (a : ℕ) → user_bytes v a 1 ≡ single (user_byte v a)
unfolding user_bytes
user_bytes-one v a = first-single (user_byte v a)

-- Past the end of the user's half there is no byte.
user_byte-none : (v : Vmm) (a : ℕ) → a ≡ 0 ⊎ (user_space_top ≤ a) → user_byte v a ≡ none
unfolding user_byte
user_byte-none v a h =
    let outside : (a == 0 || leb user_space_top a) ≡ true = ground arith in rw outside refl

first-none : (o : Option ℕ) → first o none ≡ none
first-none none = refl
first-none (some b) = refl

user_bytes-outside :
    (v : Vmm) (n a : ℕ) → 0 < n → a ≡ 0 ⊎ (user_space_top < a + n) → user_bytes v a n ≡ none
unfolding user_bytes
user_bytes-outside v zero a pos h = absurd (omega arith)
user_bytes-outside v (suc n) a pos (inl z) = rw (user_byte-none v a (inl z)) refl
user_bytes-outside v (suc zero) a pos (inr u) = rw (user_byte-none v a (inr (omega arith))) refl
user_bytes-outside v (suc (suc n)) a pos (inr u) =
    rw (user_bytes-outside v (suc n) (a + 1) (omega arith) (inr (omega arith)))
      (first-none (user_byte v a))

-- copy_from_user of any address and length leaves the memory as it is and gives what reading the user's bytes
-- one by one gives: the bytes in order, or -EFAULT once one of them is at address 0, at or above
-- the top of the user's half, or on a page that is not mapped for the user.
pub copy_from_user_lem :
    (v : Vmm) (user len : ℕ) → copy_from_user user len v ≡ answer v (user_bytes v user len)
unfolding copy_from_user
copy_from_user_lem v user zero = rw (user_bytes-zero v user) refl
copy_from_user_lem v user (suc len) =
    let some_left : (suc len == 0) ≡ false = ground arith in
    elim (Bool-cases
      (user == 0 || (leb user_space_top user || ltb (user_space_top - user) (suc len)))) [
        | inl out ↦
            rw
              (
                some_left,
                out,
                user_bytes-outside v (suc len) user (omega arith) (ground (arith, out)),
              )
              refl
        | inr inside ↦
            rw (some_left, inside)
              (copy_in_lem v (suc len) user (suc len) (omega arith) (ground (arith, inside))
                (ground (arith, inside)))
      ]
