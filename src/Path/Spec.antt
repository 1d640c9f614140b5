-- ===== src/Path/Spec.antt =====
-- What path resolution means, apart from kernel/syscall/syscall.c: the names between the slashes are
-- walked over a stack of names, the innermost first.
use lithium_kernel.Prelude.{
  ℕ, ◌+◌, ◌≡◌, ◌≢◌, false, Option, none, some, List, [], ◌∷◌, ◌++◌, ltb, ◌==◌, if◌then◌else◌,
  length,
}
use lithium_kernel.Path.{slash, is_nil, is_dot, is_dot_dot}

abbrev pub Name : Type 0
Name = List ℕ

-- Puts a byte before the first word.
abbrev pub cons_head : ℕ → List Name → List Name
cons_head c [] = (c ∷ []) ∷ []
cons_head c (w ∷ ws) = (c ∷ w) ∷ ws

-- The words between the slashes, empty ones included.
abbrev pub split : List ℕ → List Name
split [] = [] ∷ []
split (c ∷ s) = let words = split s in if c == slash then [] ∷ words else cons_head c words

abbrev pub drop_empty : List Name → List Name
drop_empty [] = []
drop_empty (w ∷ ws) = if is_nil w then drop_empty ws else w ∷ drop_empty ws

abbrev pub components : List ℕ → List Name
components s = drop_empty (split s)

-- The path that a stack stands for.
abbrev pub render : List Name → List ℕ
render [] = slash ∷ []
render (n ∷ []) = slash ∷ n
render (n ∷ m ∷ st) = render (m ∷ st) ++ slash ∷ n

abbrev pub parent : List Name → List Name
parent [] = []
parent (n ∷ st) = st

-- A walk fails as soon as a path with its terminator does not fit in `cap` bytes.
abbrev pub walk : ℕ → List Name → List Name → Option (List Name)
walk cap st [] = some st
walk cap st (n ∷ ns) =
    let same = walk cap st ns in
    let up = walk cap (parent st) ns in
    let down = walk cap (n ∷ st) ns in
    if is_dot n
    then same
    else if is_dot_dot n
    then up
    else if ltb cap (length (render (n ∷ st)) + 1)
    then none
    else down

-- A name of a stack: not empty, not `.` or `..`, and free of slashes.
abbrev pub NoSlash : Name → Type 0
NoSlash [] = Unit {0}
NoSlash (c ∷ s) = (c ≢ slash) × NoSlash s

pub record IsName (n : Name) : Type 0 where
  pub nonempty : is_nil n ≡ false
  pub plain : NoSlash n
  pub not_dot : is_dot n ≡ false
  pub not_dot_dot : is_dot_dot n ≡ false

abbrev pub AllNames : List Name → Type 0
AllNames [] = Unit {0}
AllNames (n ∷ ns) = IsName n × AllNames ns
