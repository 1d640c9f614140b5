-- ===== src/Str.antt =====
-- The memory functions of lib/string.c, on a memory that maps addresses to bytes, so that the
-- operands may overlap. Addresses do not wrap around.
pub mod Move
pub mod Copy
pub mod Scan
mod Examples
use lithium_kernel.Prelude.{
  ℕ, zero, suc, ◌+◌, ◌-◌, ◌*◌, ◌/◌, ◌%◌, ◌^◌, ◌≤◌, ◌<◌, min, max, ◌≡◌, refl, sym, ap, ◌∙◌, ◌≢◌, ◌↔◌,
  ◌⊎◌, inl, inr, Bool, true, false, not, ◌&&◌, ◌||◌, Option, none, some, List, [], ◌∷◌, ◌++◌, map,
  arith, ltb, leb, ◌==◌, if◌then◌else◌, lt→ltb, ltb→lt, leb→le, ==_iff, ==→eq, Bool-cases,
  Option-cases, update, Outcome, ok, halted, kassert, count, count-congr, count-clear, count-pos,
  count_witness, count-le, length, get_elem?, get_or, set, take, drop, replicate, length-append,
  length-set, get_elem?-set_self, get_elem?-set_ne, take-append-drop, length-take, length-drop,
  length-replicate, take_append, drop_append, take_all,
}

abbrev pub Bytes : Type 0
Bytes = ℕ → ℕ

-- `(uint8_t)c`
pub memset : Bytes → ℕ → ℕ → ℕ → Bytes
memset m dst c zero = m
memset m dst c (suc n) = memset (update m dst (c % 256)) (dst + 1) c n

pub memcpy : Bytes → ℕ → ℕ → ℕ → Bytes
memcpy m dst src zero = m
memcpy m dst src (suc n) = memcpy (update m dst (m src)) (dst + 1) (src + 1) n

-- The branch of memmove that starts at the end.
pub move_back : Bytes → ℕ → ℕ → ℕ → Bytes
move_back m dst src zero = m
move_back m dst src (suc n) = move_back (update m (dst + n) (m (src + n))) dst src n

pub memmove : Bytes → ℕ → ℕ → ℕ → Bytes
memmove m dst src n = if ltb dst src then memcpy m dst src n else move_back m dst src n

-- The second loop of strncpy.
pub zero_fill : Bytes → ℕ → ℕ → Bytes
zero_fill m d zero = m
zero_fill m d (suc n) = zero_fill (update m d 0) (d + 1) n

-- The first loop of strncpy, `while (n && (*d++ = *src++)) n--`: it ends with `n` as it is when the
-- byte copied is the terminator.
pub strncpy : Bytes → ℕ → ℕ → ℕ → Bytes
strncpy m d src zero = m
strncpy m d src (suc n) =
    let copied = update m d (m src) in
    if m src == 0 then zero_fill copied (d + 1) (suc n) else strncpy copied (d + 1) (src + 1) n
