-- ===== src/User/Strings.antt =====
-- copy_user_string of kernel/syscall/syscall.c reads a string of the user's memory.
use lithium_kernel.Prelude.{
  ℕ, zero, suc, ◌+◌, ◌≡◌, refl, ap, ◌∙◌, Option, none, some, [], ◌==◌, if◌then◌else◌, inl, inr,
  Bool-cases,
}
use lithium_kernel.Vmm.{Vmm}
use lithium_kernel.User.{
  UserString, string, fault, too_long, more, after_byte, terminated, copy_from_user,
  copy_string_from, copy_user_string,
}
use lithium_kernel.User.Reads.{user_byte, answer, copy_from_user_lem, single, user_bytes-one}

-- The string of one byte and the rest, and that of the last byte of the buffer, which has to be a terminator.
abbrev starting : Option ℕ → UserString → UserString
starting none rest = fault
starting (some c) rest = if c == 0 then string [] else more c rest

abbrev ending : Option ℕ → UserString
ending none = fault
ending (some c) = if c == 0 then string [] else too_long []

-- The string of the user's memory at an address, in a buffer of `n` bytes with its terminator.
pub string_at : Vmm → ℕ → ℕ → UserString
string_at v a zero = too_long []
string_at v a (suc zero) = ending (user_byte v a)
string_at v a (suc (suc n)) = starting (user_byte v a) (string_at v (a + 1) (suc n))

one_byte : (v : Vmm) (a : ℕ) → copy_from_user a 1 v ≡ answer v (single (user_byte v a))
one_byte v a = copy_from_user_lem v a 1 ∙ ap (answer v) (user_bytes-one v a)

after_byte-answer :
    (v : Vmm) (o : Option ℕ) (rest : UserString)
    → after_byte (answer v (single o)) rest ≡ starting o rest
unfolding after_byte
after_byte-answer v none rest = refl
after_byte-answer v (some c) rest = refl

terminated-more :
    (n c : ℕ) (r : UserString) → terminated (suc (suc n)) (more c r) ≡ more c (terminated (suc n) r)
unfolding terminated
terminated-more n c (string cs) = refl
terminated-more n c fault = refl
terminated-more n c (too_long cs) = refl

terminated-starting :
    (n : ℕ) (o : Option ℕ) (r : UserString)
    → terminated (suc (suc n)) (starting o r) ≡ starting o (terminated (suc n) r)
unfolding terminated
terminated-starting n none r = refl
terminated-starting n (some c) r = elim (Bool-cases (c == 0)) [
  | inl z ↦ rw z refl
  | inr z ↦ rw z (terminated-more n c r)
]

terminated-ending : (o : Option ℕ) → terminated 1 (starting o (too_long [])) ≡ ending o
unfolding terminated
terminated-ending none = refl
terminated-ending (some c) = elim (Bool-cases (c == 0)) [ inl z ↦ rw z refl | inr z ↦ rw z refl ]

copy_string_from-suc :
    (v : Vmm) (n a : ℕ)
    → copy_string_from v a (suc n) ≡ starting (user_byte v a) (copy_string_from v (a + 1) n)
unfolding copy_string_from
copy_string_from-suc v n a =
    rw (one_byte v a) (after_byte-answer v (user_byte v a) (copy_string_from v (a + 1) n))

terminated_lem : (v : Vmm) (n a : ℕ) → terminated n (copy_string_from v a n) ≡ string_at v a n
unfolding string_at terminated copy_string_from
terminated_lem v zero a = refl
terminated_lem v (suc zero) a =
    ap (terminated 1) (copy_string_from-suc v 0 a) ∙ terminated-ending (user_byte v a)
terminated_lem v (suc (suc n)) a =
    ap (terminated (suc (suc n))) (copy_string_from-suc v (suc n) a)
    ∙ terminated-starting n (user_byte v a) (copy_string_from v (a + 1) (suc n))
    ∙ ap (starting (user_byte v a)) (terminated_lem v (suc n) (a + 1))

-- copy_user_string of any address and buffer size gives the user's bytes up to the first zero byte, -EFAULT
-- where a byte before or at that zero is not the user's, and -EINVAL where the buffer's size is reached
-- before a zero byte; the buffer then holds the bytes that are before its last one.
pub copy_user_string_lem : (v : Vmm) (n a : ℕ) → copy_user_string v a n ≡ string_at v a n
unfolding copy_user_string
copy_user_string_lem v n a = terminated_lem v n a
