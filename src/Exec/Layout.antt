-- ===== src/Exec/Layout.antt =====
-- The stack pointer of build_exec_stack in kernel/syscall/syscall.c.
use lithium_kernel.Prelude.{
  ℕ, suc, ◌+◌, ◌-◌, ◌*◌, ◌/◌, ◌%◌, ◌≤◌, ◌<◌, ◌≡◌, refl, ap, ◌∙◌, ◌⊎◌, inl, inr, true, false, ◌||◌,
  none, some, List, [], ◌∷◌, ◌++◌, arith, ltb, ◌==◌, Bool-cases, length, length-append,
}
use lithium_kernel.Exec.{
  Stack, write_string, write_qword, page_size, user_stack_top, exec_max_args, push_exec_qword,
  place_exec_string, add_pointer, place_all, push_all, align_stack, words, finish, place_envp,
  place_argv, build_exec_stack,
}

-- The bytes of some strings with their terminators.
abbrev pub string_bytes : List (List ℕ) → ℕ
string_bytes [] = 0
string_bytes (s ∷ ss) = length s + 1 + string_bytes ss

place_all_lem :
    (ss : List (List ℕ)) (st : Stack)
    → ((st.sp < string_bytes ss) × (place_all ss st ≡ none))
      ⊎ ((st' : Stack) × (ps : List ℕ) × (place_all ss st ≡ some (st', ps))
          × (st'.sp + string_bytes ss ≡ st.sp)
          × (length ps ≡ length ss))
unfolding place_all place_exec_string add_pointer
place_all_lem [] st = inr (st, [], refl, omega arith, refl)
place_all_lem (s ∷ ss) st = elim (Bool-cases (ltb st.sp (length s + 1))) [
  | inl e ↦ inl (ground (arith, e), rw (place_all, e) refl)
  | inr e ↦
      let below : Stack = record {
        bytes = write_string st.bytes (st.sp - (length s + 1)) s;
        sp = st.sp - (length s + 1);
      } in
      elim (place_all_lem ss below) [
        | inl (short, failed) ↦ inl (ground (arith, e, short), rw (place_all, e, failed) refl)
        | inr (st', ps, placed, size, number) ↦ inr (
          st',
          (user_stack_top - page_size + below.sp) ∷ ps,
          rw (place_all, e, placed) refl,
          ground (arith, e, size),
          ap suc number,
        )
      ]
]

push_all_lem :
    (ws : List ℕ) (st : Stack)
    → length ws * 8 ≤ st.sp
    → (st' : Stack) × (push_all ws st ≡ some st') × (st'.sp + length ws * 8 ≡ st.sp)
unfolding push_all push_exec_qword
push_all_lem [] st h = (st, refl, omega arith)
push_all_lem (w ∷ ws) st h =
    let (st', pushed, size) = push_all_lem ws st (omega arith) in
    let room : ltb st'.sp 8 ≡ false = ground (arith, size, h) in
    (
      record { bytes = write_qword st'.bytes (st'.sp - 8) w; sp = st'.sp - 8 },
      rw (push_all, pushed, room) refl,
      ground (arith, size, h),
    )

align_stack_lem :
    (n : ℕ) (st : Stack)
    → ((st.sp / 16 * 16 < n * 8) × (align_stack (n * 8) st ≡ none))
      ⊎ ((st' : Stack) × (align_stack (n * 8) st ≡ some st')
          × (n * 8 ≤ st'.sp)
          × (st'.sp ≤ st.sp)
          × ((st'.sp - n * 8) % 16 ≡ 0))
unfolding align_stack
align_stack_lem n st = elim (Bool-cases (ltb (st.sp / 16 * 16) (n * 8))) [
  | inl e ↦ inl (ground (arith, e), rw e refl)
  | inr e ↦ elim (Bool-cases ((st.sp / 16 * 16 - n * 8) % 16 == 0)) [
    | inl q ↦ inr (
      record st { sp = st.sp / 16 * 16 },
      rw (e, q) refl,
      ground (arith, e),
      omega arith,
      ground (arith, q),
    )
    | inr q ↦
        let room : ltb (st.sp / 16 * 16) 8 ≡ false = ground (arith, e, q) in
        inr (
          record st { sp = st.sp / 16 * 16 - 8 },
          rw (e, q, room) refl,
          ground (arith, e, q),
          omega arith,
          ground (arith, e, q),
        )
  ]
]

length-words : (xs ys : List ℕ) → length (words xs ys) ≡ 1 + length xs + 1 + length ys + 1
length-words xs ys =
    omega (arith, length-append xs (0 ∷ (ys ++ (0 ∷ []))), length-append ys (0 ∷ []))

-- What the builder returns, apart from an error.
pub record Built (strings count : ℕ) (st : Stack) (rsp : ℕ) : Type 0 where
  pub aligned : rsp % 16 ≡ 0
  pub address : rsp ≡ user_stack_top - page_size + st.sp
  pub below : st.sp + (count + 3) * 8 + strings ≤ page_size

finish_lem :
    (ws : List ℕ) (n strings : ℕ) (st : Stack)
    → length ws ≡ n + 3
    → st.sp + strings ≤ page_size
    → ((st.sp < (n + 3) * 8 + 16) × (finish ws (align_stack ((n + 3) * 8) st) ≡ none))
      ⊎ ((st' : Stack) × (rsp : ℕ) × (finish ws (align_stack ((n + 3) * 8) st) ≡ some (st', rsp))
          × Built strings n st' rsp)
unfolding finish
finish_lem ws n strings st len room = elim (align_stack_lem (n + 3) st) [
  | inl (short, failed) ↦ inl (omega (arith, short), ap (finish ws) failed)
  | inr (st1, aligned, fits, lower, mult) ↦
      let (st2, pushed, size) = push_all_lem ws st1 (omega (arith, len, fits)) in
      inr (
        st2,
        user_stack_top - page_size + st2.sp,
        ap (finish ws) aligned ∙ rw (finish, pushed) refl,
        record {
          aligned = omega (arith, len, size, mult, fits);
          address = refl;
          below = omega (arith, len, size, lower, room);
        },
      )
]

-- More than 16 arguments or variables, or too little room.
abbrev pub TooLarge : List (List ℕ) → List (List ℕ) → Type 0
TooLarge argv envp =
    (exec_max_args < length argv)
    ⊎ ((exec_max_args < length envp)
        ⊎ (page_size
            < string_bytes argv + string_bytes envp + (length argv + length envp + 3) * 8 + 16))

too_many :
    (argv envp : List (List ℕ))
    → (ltb exec_max_args (length argv) || ltb exec_max_args (length envp)) ≡ true
    → TooLarge argv envp
too_many argv envp h = elim (Bool-cases (ltb exec_max_args (length argv))) [
  | inl e ↦ inl (ground (arith, e))
  | inr e ↦ inr (inl (ground (arith, h, e)))
]

abbrev empty_page : Stack
empty_page = record { bytes = λ i. 0; sp = page_size }

-- `build_exec_stack` fails, which it does only if there are too many strings or the page has fewer than
-- 16 bytes to spare for all of it, or the initial stack pointer is a multiple of 16 and points into the page;
-- above it there is room for the count, the pointers with their two nulls and all the strings.
pub build_exec_stack_lem :
    (argv envp : List (List ℕ))
    → (TooLarge argv envp × (build_exec_stack argv envp ≡ none))
      ⊎ ((st : Stack) × (rsp : ℕ) × (build_exec_stack argv envp ≡ some (st, rsp))
          × Built (string_bytes argv + string_bytes envp) (length argv + length envp) st rsp)
unfolding build_exec_stack place_argv place_envp
build_exec_stack_lem argv envp =
    elim (Bool-cases (ltb exec_max_args (length argv) || ltb exec_max_args (length envp))) [
      | inl many ↦ inl (too_many argv envp many, rw many refl)
      | inr few ↦ elim (place_all_lem argv empty_page) [
        | inl (short, failed) ↦
            inl (inr (inr (omega (arith, short))), rw few (ap (place_argv envp) failed))
        | inr (st1, ps, placed, size1, number1) ↦ elim (place_all_lem envp st1) [
          | inl (short, failed) ↦ inl (
            inr (inr (omega (arith, short, size1))),
            rw few (ap (place_argv envp) placed ∙ ap (place_envp ps) failed),
          )
          | inr (st2, qs, placed2, size2, number2) ↦
              let n = length argv + length envp in
              let strings = string_bytes argv + string_bytes envp in
              let len : length (words ps qs) ≡ n + 3 =
                omega (arith, length-words ps qs, number1, number2) in
              let count : (1 + length ps + 1 + length qs + 1) * 8 ≡ (n + 3) * 8 =
                omega (arith, number1, number2) in
              let last : build_exec_stack argv envp
                  ≡ finish (words ps qs) (align_stack ((n + 3) * 8) st2) =
                rw few (
                  ap (place_argv envp) placed
                  ∙ ap (place_envp ps) placed2
                  ∙ ap (λ k. finish (words ps qs) (align_stack k st2)) count) in
              elim (finish_lem (words ps qs) n strings st2 len (omega (arith, size1, size2))) [
                | inl (short, failed) ↦
                    inl (inr (inr (omega (arith, short, size1, size2))), last ∙ failed)
                | inr (st3, rsp, done, built) ↦ inr (st3, rsp, last ∙ done, built)
              ]
        ]
      ]
    ]
