-- ===== src/Exec/Examples.antt =====
-- The theorem about build_exec_stack of kernel/syscall/syscall.c at one argument.
use lithium_kernel.Prelude.{ℕ, ◌+◌, ◌≡◌, ◌⊎◌, none, some, List, [], ◌∷◌, length}
use lithium_kernel.Exec.{Stack, build_exec_stack}
use lithium_kernel.Exec.Layout.{string_bytes, Built, TooLarge, build_exec_stack_lem}

-- One argument and no environment.
abbrev demo_argv : List (List ℕ)
demo_argv = (b'l' ∷ b's' ∷ []) ∷ []

abbrev demo_envp : List (List ℕ)
demo_envp = []

build_exec_stack_lem_example :
    (TooLarge demo_argv demo_envp × (build_exec_stack demo_argv demo_envp ≡ none))
    ⊎ ((st : Stack) × (rsp : ℕ) × (build_exec_stack demo_argv demo_envp ≡ some (st, rsp))
        × Built
            (string_bytes demo_argv + string_bytes demo_envp)
            (length demo_argv + length demo_envp)
            st
            rsp)
build_exec_stack_lem_example = build_exec_stack_lem demo_argv demo_envp
