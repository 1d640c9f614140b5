-- ===== src/User.antt =====
-- Copies between the kernel and the user's pages, kernel/syscall/syscall.c, through the page tables of
-- CR3. A failed run is -EFAULT.
pub mod Reads
pub mod Strings
mod Range
pub mod Memory
mod Examples
use lithium_kernel.Prelude.{
  ℕ, zero, suc, ◌+◌, ◌-◌, ◌*◌, ◌/◌, ◌%◌, ◌^◌, min, Bool, true, false, not, ◌&&◌, ◌||◌, Option, none,
  some, List, [], ◌∷◌, ◌++◌, ltb, leb, ◌==◌, if◌then◌else◌, update, length, take, drop,
}
use lithium_kernel.Vmm.{
  Vmm, Run, done, failed, stopped, M, bind, is_present, is_user, is_write, is_cow, low_12_clear,
  vmm_current_pml4, vmm_get_flags, vmm_get_physical,
}
use lithium_kernel.Vmm.Space.{is_user_page}
use lithium_kernel.Vmm.Fault.{user_space_top, vmm_handle_page_fault}

-- The byte at a physical address, in the words of its page.
abbrev pub byte_at : Vmm → ℕ → ℕ
byte_at v a = v.mem (low_12_clear a) (a % 4096 / 8) / 2 ^ (8 * (a % 8)) % 256

abbrev pub put_byte : ℕ → ℕ → Vmm → Vmm
put_byte a b v =
    let page = low_12_clear a in
    let i = a % 4096 / 8 in
    let place = 2 ^ (8 * (a % 8)) in
    let old = v.mem page i in
    let new = old / (place * 256) * (place * 256) + b % 256 * place + old % place in
    record v { mem = update v.mem page (update (v.mem page) i new) }

-- `memcpy` from and to physical memory.
pub bytes_at : Vmm → ℕ → ℕ → List ℕ
bytes_at v a zero = []
bytes_at v a (suc n) = byte_at v a ∷ bytes_at v (a + 1) n

pub put_bytes : ℕ → List ℕ → Vmm → Vmm
put_bytes a [] v = v
put_bytes a (b ∷ bs) v = put_bytes (a + 1) bs (put_byte a b v)

-- The loop of `user_range_ok` over the pages, `k` rounds left.
pages_ok : Vmm → ℕ → ℕ → Bool
pages_ok v zero page = true
pages_ok v (suc k) page =
    is_user_page (vmm_get_flags v (vmm_current_pml4 v) page) && pages_ok v k (page + 4096)

pub user_range_ok : Vmm → ℕ → ℕ → Bool
unfolding pages_ok
user_range_ok v start len =
    let end = start + len - 1 in
    if len == 0
    then true
    else if start == 0 || leb user_space_top start
    then false
    else if ltb (user_space_top - start) len
    then false
    else pages_ok v (end / 4096 + 1 - start / 4096) (low_12_clear start)

abbrev pub or_fault : Vmm → Option ℕ → Run ℕ
or_fault v none = failed v
or_fault v (some phys) = done phys v

-- After the page fault: the page must be writable.
resolved : ℕ → Run Bool → Run (Unit {0})
resolved page (done true v) =
    if is_write (vmm_get_flags v (vmm_current_pml4 v) page) then done tt v else failed v
resolved page (done false v) = failed v
resolved page (failed v) = failed v
resolved page stopped = stopped

-- `if (write && !(flags & VMM_WRITE))`
make_writable : ℕ → Bool → M (Unit {0})
unfolding resolved
make_writable user_addr write v =
    let page = low_12_clear user_addr in
    let flags = vmm_get_flags v (vmm_current_pml4 v) page in
    if write && not (is_write flags)
    then (if is_cow flags then resolved page (vmm_handle_page_fault user_addr 7 v) else failed v)
    else done tt v

pub user_page_for_copy : ℕ → Bool → M ℕ
unfolding make_writable
user_page_for_copy user_addr write v =
    let flags = vmm_get_flags v (vmm_current_pml4 v) (low_12_clear user_addr) in
    if user_addr == 0 || leb user_space_top user_addr
    then failed v
    else if is_user_page flags
    then bind (make_writable user_addr write v)
        (λ _ w. or_fault w (vmm_get_physical w (vmm_current_pml4 w) user_addr))
    else failed v

-- `MIN(PAGE_SIZE - page_off, len - done)`
abbrev pub chunk : ℕ → ℕ → ℕ
chunk cur left = min (4096 - cur % 4096) left

-- The loop of `copy_user_bytes` from the user, on fuel: each round copies one byte at least.
pub copy_in : ℕ → ℕ → ℕ → M (List ℕ)
copy_in zero cur left v = if left == 0 then done [] v else failed v
copy_in (suc f) cur left v =
    if left == 0
    then done [] v
    else bind (user_page_for_copy cur false v) (λ phys w.
      let n = chunk cur left in
      bind (copy_in f (cur + n) (left - n) w) (λ rest x. done (bytes_at w phys n ++ rest) x))

pub copy_from_user : ℕ → ℕ → M (List ℕ)
copy_from_user user len v =
    if len == 0
    then done [] v
    else if user == 0 || (leb user_space_top user || ltb (user_space_top - user) len)
    then failed v
    else copy_in len user len v

-- The same loop to the user.
pub copy_out : ℕ → ℕ → List ℕ → M (Unit {0})
copy_out zero cur src v = if length src == 0 then done tt v else failed v
copy_out (suc f) cur src v =
    if length src == 0
    then done tt v
    else bind (user_page_for_copy cur true v) (λ phys w.
      let n = chunk cur (length src) in
      copy_out f (cur + n) (drop n src) (put_bytes phys (take n src) w))

pub copy_to_user : ℕ → List ℕ → M (Unit {0})
unfolding copy_out
copy_to_user user src v =
    let len = length src in
    if len == 0
    then done tt v
    else if user == 0 || (leb user_space_top user || ltb (user_space_top - user) len)
    then failed v
    else copy_out len user src v

-- What `copy_user_string` returns, with the string that the buffer then holds: 0; -EFAULT, with the empty
-- string; or -EINVAL.
pub data UserString : Type 0 where
  string : List ℕ → UserString
  fault : UserString
  too_long : List ℕ → UserString

abbrev pub more : ℕ → UserString → UserString
more c (string cs) = string (c ∷ cs)
more c fault = fault
more c (too_long cs) = too_long (c ∷ cs)

-- The answer once one byte was copied: the terminator ends the string, and on an error `dst[0]` is 0.
after_byte : Run (List ℕ) → UserString → UserString
after_byte (done (c ∷ _) v) rest = if c == 0 then string [] else more c rest
after_byte (done [] v) rest = fault
after_byte (failed v) rest = fault
after_byte stopped rest = fault

-- The loop of `copy_user_string`, `k` rounds left: the bytes copied. Copying from the user changes nothing.
copy_string_from : Vmm → ℕ → ℕ → UserString
unfolding after_byte
copy_string_from v user zero = too_long []
copy_string_from v user (suc k) =
    after_byte (copy_from_user user 1 v) (copy_string_from v (user + 1) k)

-- `dst[dst_size - 1] = '\0'` when the loop ends, over the last byte.
terminated : ℕ → UserString → UserString
terminated (suc n) (too_long cs) = too_long (take n cs)
terminated zero r = r
terminated (suc n) (string cs) = string cs
terminated (suc n) fault = fault

pub copy_user_string : Vmm → ℕ → ℕ → UserString
unfolding copy_string_from terminated
copy_user_string v user dst_size = terminated dst_size (copy_string_from v user dst_size)
