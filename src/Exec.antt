-- ===== src/Exec.antt =====
-- The first stack of a program, as execve builds it in one page: place_exec_string,
-- push_exec_qword and build_exec_stack of kernel/syscall/syscall.c.
pub mod Layout
mod Examples
use lithium_kernel.Prelude.{
  ℕ, zero, suc, ◌+◌, ◌-◌, ◌*◌, ◌/◌, ◌%◌, ◌^◌, ◌≤◌, ◌<◌, min, max, ◌≡◌, refl, sym, ap, ◌∙◌, ◌≢◌, ◌↔◌,
  ◌⊎◌, inl, inr, Bool, true, false, not, ◌&&◌, ◌||◌, Option, none, some, List, [], ◌∷◌, ◌++◌, map,
  arith, ltb, leb, ◌==◌, if◌then◌else◌, lt→ltb, ltb→lt, leb→le, ==_iff, ==→eq, Bool-cases,
  Option-cases, update, Outcome, ok, halted, kassert, count, count-congr, count-clear, count-pos,
  count_witness, count-le, length, get_elem?, get_or, set, take, drop, replicate, length-append,
  length-set, get_elem?-set_self, get_elem?-set_ne, take-append-drop, length-take, length-drop,
  length-replicate, take_append, drop_append, take_all,
}

-- The page, and `sp`.
pub record Stack : Type 0 where
  pub bytes : ℕ → ℕ
  pub sp : ℕ

abbrev pub page_size : ℕ
page_size = 4096

-- USER_STACK_TOP
abbrev pub user_stack_top : ℕ
user_stack_top = 0x0000000040100000

-- EXEC_MAX_ARGS
abbrev pub exec_max_args : ℕ
exec_max_args = 16

-- The eight bytes of a number, the lowest first.
abbrev pub write_qword : (ℕ → ℕ) → ℕ → ℕ → ℕ → ℕ
write_qword m a v i = if leb a i && ltb i (a + 8) then v / 256 ^ (i - a) % 256 else m i

-- `none` is -E2BIG.
pub push_exec_qword : ℕ → Stack → Option Stack
push_exec_qword v st =
    if ltb st.sp 8
    then none
    else some record { bytes = write_qword st.bytes (st.sp - 8) v; sp = st.sp - 8 }

-- The string with its terminator.
abbrev pub write_string : (ℕ → ℕ) → ℕ → List ℕ → ℕ → ℕ
write_string m a s i = if leb a i && ltb i (a + (length s + 1)) then get_or s (i - a) 0 else m i

pub place_exec_string : List ℕ → Stack → Option (Stack × ℕ)
place_exec_string s st =
    let len = length s + 1 in
    if ltb st.sp len
    then none
    else some (
      record { bytes = write_string st.bytes (st.sp - len) s; sp = st.sp - len },
      user_stack_top - page_size + (st.sp - len),
    )

add_pointer : ℕ → Option (Stack × List ℕ) → Option (Stack × List ℕ)
add_pointer p none = none
add_pointer p (some (st, ps)) = some (st, p ∷ ps)

-- The loop over the strings, with the addresses at which they stand.
pub place_all : List (List ℕ) → Stack → Option (Stack × List ℕ)
place_all [] st = some (st, [])
place_all (s ∷ ss) st = elim (place_exec_string s st) [
  | none ↦ none
  | some (st', p) ↦ add_pointer p (place_all ss st')
]

-- The loops that push addresses, the last one first.
pub push_all : List ℕ → Stack → Option Stack
push_all [] st = some st
push_all (p ∷ ps) st = elim (push_all ps st) [ none ↦ none | some st' ↦ push_exec_qword p st' ]

-- `sp` is rounded down, and moved once more if the pointers would end off a multiple of 16.
align_stack : ℕ → Stack → Option Stack
align_stack pointer_bytes st =
    let sp = st.sp / 16 * 16 in
    if ltb sp pointer_bytes
    then none
    else if not ((sp - pointer_bytes) % 16 == 0)
    then (if ltb sp 8 then none else some (record st { sp = sp - 8 }))
    else some (record st { sp = sp })

-- The number of arguments, their addresses, a null, the addresses of the environment and a null,
-- upwards from the stack pointer: one list.
abbrev pub words : List ℕ → List ℕ → List ℕ
words argv_ptrs envp_ptrs = length argv_ptrs ∷ (argv_ptrs ++ (0 ∷ (envp_ptrs ++ (0 ∷ []))))

finish : List ℕ → Option Stack → Option (Stack × ℕ)
finish ws none = none
finish ws (some st) = elim (push_all ws st) [
  | none ↦ none
  | some st' ↦ some (st', user_stack_top - page_size + st'.sp)
]

place_envp : List ℕ → Option (Stack × List ℕ) → Option (Stack × ℕ)
place_envp argv_ptrs none = none
place_envp argv_ptrs (some (st, envp_ptrs)) =
    finish (words argv_ptrs envp_ptrs)
      (align_stack ((1 + length argv_ptrs + 1 + length envp_ptrs + 1) * 8) st)

place_argv : List (List ℕ) → Option (Stack × List ℕ) → Option (Stack × ℕ)
place_argv envp none = none
place_argv envp (some (st, argv_ptrs)) = place_envp argv_ptrs (place_all envp st)

-- The stack and the initial stack pointer; `none` is an error.
pub build_exec_stack : List (List ℕ) → List (List ℕ) → Option (Stack × ℕ)
build_exec_stack argv envp =
    if ltb exec_max_args (length argv) || ltb exec_max_args (length envp)
    then none
    else place_argv envp (place_all argv record { bytes = λ i. 0; sp = page_size })
