-- ===== src/Vfs/Node/Split.antt =====
-- split_parent_path of kernel/fs/vfs.c on the paths that path resolution returns.
use lithium_kernel.Prelude.{
  ℕ, suc, ◌+◌, ◌-◌, ◌<◌, ◌≡◌, refl, ap, ◌∙◌, true, false, Option, none, some, List, [], ◌∷◌, ◌++◌,
  arith, leb, ◌==◌, if◌then◌else◌, ==→eq, length, take, length-append, take_append,
}
use lithium_kernel.Path.{slash, is_nil, starts_with_slash}
use lithium_kernel.Path.Refine.{render_pos}
use lithium_kernel.Path.Spec.{Name, render, NoSlash, IsName, AllNames}
use lithium_kernel.Path.Normal.{render-starts}
use lithium_kernel.Vfs.Node.{last_part, split_parent_path, name_max, max_path}

last_part-plain : (n acc : List ℕ) → NoSlash n → last_part n acc ≡ acc
unfolding last_part
last_part-plain [] acc h = refl
last_part-plain (c ∷ n) acc h = ground (arith, last_part-plain n acc h.1, h.0)

last_part-append : (xs n acc : List ℕ) → NoSlash n → last_part (xs ++ slash ∷ n) acc ≡ n
unfolding last_part
last_part-append [] n acc h = last_part-plain n n h
last_part-append (c ∷ xs) n acc h =
    last_part-append xs n (if c == slash then xs ++ slash ∷ n else acc) h

-- A path is what stands before its last slash, and its last name.
abbrev front : List Name → List ℕ
front [] = []
front (m ∷ st) = render (m ∷ st)

render-front : (n : Name) (st : List Name) → render (n ∷ st) ≡ front st ++ slash ∷ n
render-front n [] = refl
render-front n (m ∷ st) = refl

name_pos : (n : Name) → IsName n → 0 < length n
name_pos [] v = cc v.nonempty
name_pos (c ∷ n) v = omega arith

long : (s : List ℕ) → 0 < length s → is_nil s ≡ false
long [] h = elim h [ ]
long (c ∷ s) h = refl

split_front :
    (n : Name) (xs : List ℕ) (c : ℕ) (s : List ℕ)
    → IsName n
    → c ∷ s ≡ xs ++ slash ∷ n
    → c ≡ slash
    → length xs < max_path
    → split_parent_path (c ∷ s) ≡ (
        if leb name_max (length n)
        then none
        else some (if length xs == 0 then slash ∷ [] else xs, n))
unfolding split_parent_path
split_front n xs c s v e root l =
    let last : last_part (c ∷ s) [] ≡ n =
      ap (λ p. last_part p []) e ∙ last_part-append xs n [] v.plain in
    let len : length (c ∷ s) ≡ length xs + suc (length n) =
      ap length e ∙ length-append xs (slash ∷ n) in
    let before : take (length xs) (c ∷ s) ≡ xs =
      ap (take (length xs)) e ∙ take_append xs (slash ∷ n) in
    let parent_len : length (c ∷ s) - (length n + 1) ≡ length xs = omega (arith, len) in
    let more : is_nil s ≡ false = long s (omega (arith, len, name_pos n v)) in
    ground (arith, last, root, more, v.nonempty, parent_len, before)

front_back :
    (n : Name) (st : List Name) (path : List ℕ)
    → path ≡ front st ++ slash ∷ n
    → starts_with_slash path ≡ true
    → IsName n
    → length (front st) < max_path
    → split_parent_path path ≡ (
        if leb name_max (length n)
        then none
        else some (if length (front st) == 0 then slash ∷ [] else front st, n))
front_back n st [] e root v l = cc
front_back n st (c ∷ s) e root v l = split_front n (front st) c s v e (==→eq _ _ root) l

front_short :
    (n : Name) (st : List Name) → length (render (n ∷ st)) < max_path → length (front st) < max_path
front_short n [] l = omega arith
front_short n (m ∷ st) l = omega (arith, length-append (render (m ∷ st)) (slash ∷ n))

front_path :
    (n : Name) (st : List Name)
    → ◌≡◌ {A = Option (List ℕ × List ℕ)}
        (if leb name_max (length n)
          then none
          else some (if length (front st) == 0 then slash ∷ [] else front st, n))
        (if leb name_max (length n) then none else some (render st, n))
front_path n [] = refl
front_path n (m ∷ st) = ground (arith, render_pos (m ∷ st))

-- `split_parent_path` takes the path of a stack of names apart into the path of the rest and the
-- innermost name, unless that has 64 bytes or more.
pub split_parent_path-render :
    (n : Name) (st : List Name)
    → AllNames (n ∷ st)
    → length (render (n ∷ st)) < max_path
    → split_parent_path (render (n ∷ st))
      ≡ (if leb name_max (length n) then none else some (render st, n))
split_parent_path-render n st h l =
    front_back n st (render (n ∷ st)) (render-front n st) (render-starts (n ∷ st)) h.0
      (front_short n st l)
    ∙ front_path n st
