-- ===== src/Vfs/Node/Names.antt =====
-- The vnode table of kernel/fs/vfs.c: what changing one entry and adding one do to the others.
use lithium_kernel.Prelude.{
  ℕ, zero, suc, ◌≤◌, ◌<◌, ◌≡◌, refl, ap, ◌↔◌, true, Option, none, some, List, [], ◌∷◌, ◌++◌, arith,
  ◌==◌, if◌then◌else◌, length, get_elem?,
}
use lithium_kernel.Vfs.Tmpfs.Content.{Fits}
use lithium_kernel.Vfs.Node.{
  Kind, Ops, Vnode, Vfs, same_name, has_name, name_at, children_at, find_child, modify,
}

pub same_name_iff : (s t : List ℕ) → (same_name s t ≡ true) ↔ (s ≡ t)
unfolding same_name
same_name_iff [] [] = (λ h. refl, λ e. refl)
same_name_iff [] (d ∷ t) = (λ h. cc, λ e. cc)
same_name_iff (c ∷ s) [] = (λ h. cc, λ e. cc)
same_name_iff (c ∷ s) (d ∷ t) =
    let (to, from) = same_name_iff s t in (λ h. ground (arith, to), λ e. ground (arith, from))

-- Every link leads to a vnode that exists.
abbrev pub AllBelow : ℕ → List ℕ → Type 0
AllBelow n [] = Unit {0}
AllBelow n (c ∷ cs) = (c < n) × AllBelow n cs

-- The tree of vnodes: it has a root, links lead to vnodes, a file has the tmpfs operations, and its
-- contents fit their buffer.
pub record IsTree (vfs : Vfs) : Type 0 where
  pub rooted : 0 < length vfs
  pub linked : (i : ℕ) → AllBelow (length vfs) (children_at vfs i)
  pub files :
      (i : ℕ) (v : Vnode)
      → get_elem? vfs i ≡ some v
      → v.kind ≡ Kind.file
      → v.ops ≡ Ops.tmpfs_file_ops
  pub fitting : (i : ℕ) (v : Vnode) → get_elem? vfs i ≡ some v → Fits v.content

pub AllBelow-mono : (n m : ℕ) (cs : List ℕ) → n ≤ m → AllBelow n cs → AllBelow m cs
AllBelow-mono n m [] h a = tt
AllBelow-mono n m (c ∷ cs) h a = (omega arith, AllBelow-mono n m cs h a.1)

pub find_child-lt :
    (vfs : Vfs) (n : ℕ) (cs tok : List ℕ) (c : ℕ)
    → AllBelow n cs
    → find_child vfs cs tok ≡ some c
    → c < n
unfolding find_child
find_child-lt vfs n [] tok c a e = cc
find_child-lt vfs n (d ∷ cs) tok c a e = ground (arith, find_child-lt vfs n cs tok c a.1)

pub length-modify : (vfs : Vfs) (i : ℕ) (f : Vnode → Vnode) → length (modify vfs i f) ≡ length vfs
unfolding modify
length-modify [] i f = refl
length-modify (v ∷ vs) zero f = refl
length-modify (v ∷ vs) (suc i) f = ap suc (length-modify vs i f)

abbrev pub map_vnode : (Vnode → Vnode) → Option Vnode → Option Vnode
map_vnode f none = none
map_vnode f (some v) = some (f v)

pub get_elem?-modify :
    (vfs : Vfs) (i j : ℕ) (f : Vnode → Vnode)
    → get_elem? (modify vfs i f) j
      ≡ (if i == j then map_vnode f (get_elem? vfs j) else get_elem? vfs j)
unfolding modify
get_elem?-modify [] i j f = ground arith
get_elem?-modify (v ∷ vs) zero zero f = refl
get_elem?-modify (v ∷ vs) zero (suc j) f = ground arith
get_elem?-modify (v ∷ vs) (suc i) zero f = ground arith
get_elem?-modify (v ∷ vs) (suc i) (suc j) f = ground (arith, get_elem?-modify vs i j f)

pub get_elem?-append_lt :
    (xs ys : Vfs) (i : ℕ) → i < length xs → get_elem? (xs ++ ys) i ≡ get_elem? xs i
get_elem?-append_lt [] ys i h = elim h [ ]
get_elem?-append_lt (x ∷ xs) ys zero h = refl
get_elem?-append_lt (x ∷ xs) ys (suc i) h = get_elem?-append_lt xs ys i (omega arith)

pub get_elem?-append_self : (xs : Vfs) (y : Vnode) → get_elem? (xs ++ y ∷ []) (length xs) ≡ some y
get_elem?-append_self [] y = refl
get_elem?-append_self (x ∷ xs) y = get_elem?-append_self xs y

pub get_elem?-append_gt :
    (xs : Vfs) (y : Vnode) (i : ℕ) → length xs < i → get_elem? (xs ++ y ∷ []) i ≡ none
get_elem?-append_gt [] y zero h = elim h [ ]
get_elem?-append_gt [] y (suc i) h = refl
get_elem?-append_gt (x ∷ xs) y zero h = elim h [ ]
get_elem?-append_gt (x ∷ xs) y (suc i) h = get_elem?-append_gt xs y i (omega arith)

pub get_elem?-ge : (xs : Vfs) (i : ℕ) → length xs ≤ i → get_elem? xs i ≡ none
get_elem?-ge [] i h = refl
get_elem?-ge (x ∷ xs) zero h = elim h [ ]
get_elem?-ge (x ∷ xs) (suc i) h = get_elem?-ge xs i (omega arith)

-- A search among vnodes whose names are the same in both tables.
pub find_child-congr :
    (vfs vfs' : Vfs) (n : ℕ) (cs tok : List ℕ)
    → AllBelow n cs
    → ((i : ℕ) → i < n → name_at vfs' i ≡ name_at vfs i)
    → find_child vfs' cs tok ≡ find_child vfs cs tok
unfolding find_child
find_child-congr vfs vfs' n [] tok a h = refl
find_child-congr vfs vfs' n (c ∷ cs) tok a h = rw (h c a.0) (
    ap (λ o. if has_name tok (name_at vfs c) then some c else o)
      (find_child-congr vfs vfs' n cs tok a.1 h))
