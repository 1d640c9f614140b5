-- ===== src/Str/Scan.antt =====
-- The functions of lib/string.c that compare strings and memory, search a string and append to one. A string
-- may have no terminator, so a loop that waits for one runs on fuel.
pub mod Equal
pub mod Append
use lithium_kernel.Prelude.{
  ℕ, zero, suc, ◌+◌, ◌-◌, ◌%◌, Bool, true, false, not, ◌&&◌, Option, none, some, ltb, ◌==◌,
  if◌then◌else◌, update,
}
use lithium_kernel.Str.{Bytes}

pub data ℤ : Type 0 where
  pos negsuc : ℕ → ℤ

-- The difference of two bytes, as an `int`.
abbrev pub difference : ℕ → ℕ → ℤ
difference p q = if ltb p q then negsuc (q - p - 1) else pos (p - q)

pub memcmp : Bytes → ℕ → ℕ → ℕ → ℤ
memcmp m a b zero = pos 0
memcmp m a b (suc n) = if m a == m b then memcmp m (a + 1) (b + 1) n else difference (m a) (m b)

pub strlen_from : ℕ → Bytes → ℕ → ℕ → Option ℕ
strlen_from zero m s n = none
strlen_from (suc f) m s n =
    let rest = strlen_from f m (s + 1) (n + 1) in if m s == 0 then some n else rest

abbrev pub strlen : ℕ → Bytes → ℕ → Option ℕ
strlen f m s = strlen_from f m s 0

pub strcmp : ℕ → Bytes → ℕ → ℕ → Option ℤ
strcmp zero m a b = none
strcmp (suc f) m a b =
    let rest = strcmp f m (a + 1) (b + 1) in
    if not (m a == 0) && (m a == m b) then rest else some (difference (m a) (m b))

-- The count that ran out before the strings differed is -1 then.
pub strncmp : Bytes → ℕ → ℕ → ℕ → ℤ
strncmp m a b zero = pos 0
strncmp m a b (suc n) =
    let rest = strncmp m (a + 1) (b + 1) n in
    if not (m a == 0) && (m a == m b) then rest else difference (m a) (m b)

-- The terminator is found for the `int` 0 only, any other byte for the `char` of it.
pub strchr : ℕ → Bytes → ℕ → ℕ → Option (Option ℕ)
strchr zero m s c = none
strchr (suc f) m s c =
    let rest = strchr f m (s + 1) c in
    if m s == 0
    then some (if c == 0 then some s else none)
    else if m s == c % 256
    then some (some s)
    else rest

pub strrchr_from : ℕ → Bytes → ℕ → ℕ → Option ℕ → Option (Option ℕ)
strrchr_from zero m s c last = none
strrchr_from (suc f) m s c last =
    let rest = strrchr_from f m (s + 1) c (if m s == c % 256 then some s else last) in
    if m s == 0 then some (if c == 0 then some s else last) else rest

abbrev pub strrchr : ℕ → Bytes → ℕ → ℕ → Option (Option ℕ)
strrchr f m s c = strrchr_from f m s c none

-- The memory after `while ((*d++ = *src++));`
pub strcpy : ℕ → Bytes → ℕ → ℕ → Option Bytes
strcpy zero m d src = none
strcpy (suc f) m d src =
    let copied = update m d (m src) in
    let rest = strcpy f copied (d + 1) (src + 1) in if m src == 0 then some copied else rest

abbrev pub copy_after : ℕ → Bytes → ℕ → ℕ → Option ℕ → Option Bytes
copy_after f m dst src none = none
copy_after f m dst src (some len) = strcpy f m (dst + len) src

pub strcat : ℕ → Bytes → ℕ → ℕ → Option Bytes
strcat f m dst src = copy_after f m dst src (strlen f m dst)

-- The loop of strncat and the terminator after it.
pub append_bounded : Bytes → ℕ → ℕ → ℕ → Bytes
append_bounded m d src zero = update m d 0
append_bounded m d src (suc n) =
    let rest = append_bounded (update m d (m src)) (d + 1) (src + 1) n in
    if m src == 0 then update m d 0 else rest

abbrev pub append_after : Bytes → ℕ → ℕ → ℕ → Option ℕ → Option Bytes
append_after m dst src n none = none
append_after m dst src n (some len) = some (append_bounded m (dst + len) src n)

pub strncat : ℕ → Bytes → ℕ → ℕ → ℕ → Option Bytes
strncat f m dst src n = append_after m dst src n (strlen f m dst)
