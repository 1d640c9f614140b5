-- ===== src/Path.antt =====
-- The path functions of kernel/syscall/syscall.c. A C string is the list of its bytes before the
-- terminator, and `out` with its `len` is the list of the first `len` bytes; `none` is -EINVAL.
pub mod Spec
pub mod Refine
pub mod Normal
mod Examples
use lithium_kernel.Prelude.{
  ℕ, zero, suc, ◌+◌, ◌-◌, ◌*◌, ◌/◌, ◌%◌, ◌^◌, ◌≤◌, ◌<◌, min, max, ◌≡◌, refl, sym, ap, ◌∙◌, ◌≢◌, ◌⊎◌,
  inl, inr, Bool, true, false, not, ◌&&◌, ◌||◌, Option, none, some, List, [], ◌∷◌, ◌++◌, map, arith,
  ltb, leb, ◌==◌, if◌then◌else◌, lt→ltb, ltb→lt, leb→le, ==_iff, ==→eq, Bool-cases, Option-cases,
  update, Outcome, ok, halted, kassert, count, count-congr, count-clear, count-pos, count_witness,
  count-le, length, get_elem?, get_or, set, take, drop, replicate, length-append, length-set,
  get_elem?-set_self, get_elem?-set_ne, take-append-drop, length-take, length-drop,
  length-replicate, take_append, drop_append, take_all,
}

abbrev pub slash : ℕ
slash = b'/'

abbrev pub dot : ℕ
dot = b'.'

-- VFS_MAX_PATH
abbrev pub max_path : ℕ
max_path = 256

abbrev pub is_nil : List ℕ → Bool
is_nil [] = true
is_nil (c ∷ s) = false

-- `while (*len > 1 && out[*len - 1] != '/') (*len)--;`
pub pop_name : List ℕ → ℕ → ℕ
pop_name out zero = 0
pop_name out (suc n) =
    let rest = pop_name out n in
    if ltb 1 (suc n) && not (get_or out n 0 == slash) then rest else suc n

pub path_pop : List ℕ → List ℕ
path_pop out =
    let len = pop_name out (length out) in
    if leb (length out) 1 then out else take (if ltb 1 len then len - 1 else len) out

pub path_push : List ℕ → ℕ → List ℕ → Option (List ℕ)
path_push out cap name =
    let long = ltb 1 (length out) in
    let need = length out + (if long then 1 else 0) + length name + 1 in
    if is_nil name
    then none
    else if ltb cap need
    then none
    else some (out ++ ((if long then slash ∷ [] else []) ++ name))

-- `while (*p == '/') p++;`
pub skip_slashes : List ℕ → List ℕ
skip_slashes [] = []
skip_slashes (c ∷ p) = if c == slash then skip_slashes p else c ∷ p

-- `while (*p && *p != '/') p++;`: the part passed over, and the rest.
unfoldable pub part : List ℕ → List ℕ
part [] = []
part (c ∷ p) = if c == slash then [] else c ∷ part p

unfoldable pub after_part : List ℕ → List ℕ
after_part [] = []
after_part (c ∷ p) = if c == slash then c ∷ p else after_part p

abbrev pub is_dot : List ℕ → Bool
is_dot (c ∷ []) = c == dot
is_dot s = false

abbrev pub is_dot_dot : List ℕ → Bool
is_dot_dot (c ∷ d ∷ []) = (c == dot) && (d == dot)
is_dot_dot s = false

-- The outer loop, on fuel: one round for each part.
pub normalize_from : ℕ → ℕ → List ℕ → List ℕ → Option (List ℕ)
normalize_from zero cap p out = none
normalize_from (suc fuel) cap p out =
    let name = part (skip_slashes p) in
    let rest = after_part (skip_slashes p) in
    let same = normalize_from fuel cap rest out in
    let up = normalize_from fuel cap rest (path_pop out) in
    if is_nil name
    then some out
    else if is_dot name
    then same
    else if is_dot_dot name
    then up
    else elim (path_push out cap name) [
      | none ↦ none
      | some longer ↦ normalize_from fuel cap rest longer
    ]

abbrev pub starts_with_slash : List ℕ → Bool
starts_with_slash [] = false
starts_with_slash (c ∷ s) = c == slash

-- A part takes a byte at least, so one round more than the bytes is enough (Refine).
pub normalize_absolute_path : List ℕ → ℕ → Option (List ℕ)
normalize_absolute_path input out_size =
    if ltb out_size 2 || not (starts_with_slash input)
    then none
    else normalize_from (suc (length input)) out_size input (slash ∷ [])

-- `cwd` is `current_task->cwd`, with the call made by a task.
pub resolve_path : List ℕ → List ℕ → ℕ → Option (List ℕ)
resolve_path cwd path out_size =
    let long = ltb 1 (length cwd) in
    let need = length cwd + (if long then 1 else 0) + length path + 1 in
    if is_nil path
    then none
    else if starts_with_slash path
    then normalize_absolute_path path out_size
    else if ltb max_path need
    then none
    else normalize_absolute_path (cwd ++ ((if long then slash ∷ [] else []) ++ path)) out_size
