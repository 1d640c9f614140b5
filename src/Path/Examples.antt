-- ===== src/Path/Examples.antt =====
-- The theorems about the paths of kernel/syscall/syscall.c at small paths.
use lithium_kernel.Prelude.{ℕ, ◌≡◌, refl, not, ◌||◌, none, some, List, [], ◌∷◌, ltb, if◌then◌else◌}
use lithium_kernel.Path.{
  slash, dot, pop_name, path_pop, path_push, skip_slashes, part, after_part, normalize_from,
  starts_with_slash, normalize_absolute_path,
}
use lithium_kernel.Path.Spec.{Name, components, walk, AllNames}
use lithium_kernel.Path.Refine.{render_of, normalize_absolute_path_lem}
use lithium_kernel.Path.Normal.{IsNormal, normalize_absolute_path-IsNormal}

-- `/a/../bc`
abbrev demo_path : List ℕ
demo_path = slash ∷ b'a' ∷ slash ∷ dot ∷ dot ∷ slash ∷ b'b' ∷ b'c' ∷ []

abbrev demo_normal : List ℕ
demo_normal = slash ∷ b'b' ∷ b'c' ∷ []

demo_normalized : normalize_absolute_path demo_path 256 ≡ some demo_normal
unfolding normalize_absolute_path normalize_from path_push path_pop pop_name skip_slashes part
    after_part
demo_normalized = refl

abbrev demo_stack : List Name
demo_stack = (b'b' ∷ b'c' ∷ []) ∷ []

demo_names : AllNames demo_stack
demo_names = (
  record {
    nonempty = refl;
    plain = (λ z. cc z, (λ z. cc z, tt));
    not_dot = refl;
    not_dot_dot = refl;
  },
  tt,
)

-- `../a`
abbrev demo_relative : List ℕ
demo_relative = dot ∷ dot ∷ slash ∷ b'a' ∷ []

normalize_absolute_path_lem_example : normalize_absolute_path demo_path 256 ≡ (
    if ltb 256 2 || not (starts_with_slash demo_path)
    then none
    else render_of (walk 256 [] (components demo_path)))
normalize_absolute_path_lem_example = normalize_absolute_path_lem demo_path 256

normalize_absolute_path-IsNormal_example : (st : List Name) × IsNormal 256 demo_normal st
normalize_absolute_path-IsNormal_example =
    normalize_absolute_path-IsNormal demo_path 256 demo_normal demo_normalized
