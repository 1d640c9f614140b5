-- ===== src/Vfs/Node.antt =====
-- The vnodes of kernel/fs/vfs.c: lookup by path, creation, and whole files. A vnode is a number, and
-- the links `children` and `next_sib` of a directory are one list, in the order of the links.
pub mod Names
pub mod Lookup
pub mod Create
pub mod Split
use lithium_kernel.Prelude.{
  ℕ, zero, suc, ◌+◌, ◌-◌, ◌*◌, ◌/◌, ◌%◌, ◌^◌, ◌≤◌, ◌<◌, min, max, ◌≡◌, refl, sym, ap, ◌∙◌, ◌≢◌, ◌⊎◌,
  inl, inr, Bool, true, false, not, ◌&&◌, ◌||◌, Option, none, some, List, [], ◌∷◌, ◌++◌, map, arith,
  ltb, leb, ◌==◌, if◌then◌else◌, lt→ltb, ltb→lt, leb→le, ==_iff, ==→eq, Bool-cases, Option-cases,
  update, Outcome, ok, halted, kassert, count, count-congr, count-clear, count-pos, count_witness,
  count-le, length, get_elem?, get_or, set, take, drop, replicate, length-append, length-set,
  get_elem?-set_self, get_elem?-set_ne, take-append-drop, length-take, length-drop,
  length-replicate, take_append, drop_append, take_all,
}
use lithium_kernel.Path.{slash, is_nil, part, after_part}
use lithium_kernel.Vfs.Tmpfs.{TmpFile, Memory, tmpfs_read, tmpfs_write}

-- `vnode_type_t`
pub data Kind : Type 0 where
  file dir device symlink : Kind

-- The operation tables of the file: tmpfs_file_ops, tmpfs_dir_ops, dev_null_ops and dev_tty_ops.
pub data Ops : Type 0 where
  tmpfs_file_ops tmpfs_dir_ops dev_null_ops dev_tty_ops : Ops

-- `vnode_t`; `content` is `data` of a tmpfs file.
pub record Vnode : Type 0 where
  pub name : List ℕ
  pub kind : Kind
  pub size : ℕ
  pub content : Option TmpFile
  pub ops : Ops
  pub parent : Option ℕ
  pub children : List ℕ

-- The vnodes made so far; `vfs_root` is number 0.
abbrev pub Vfs : Type 0
Vfs = List Vnode

-- VFS_NAME_MAX and VFS_MAX_PATH
abbrev pub name_max : ℕ
name_max = 64

abbrev pub max_path : ℕ
max_path = 256

-- `strcmp(a, b) == 0`
unfoldable pub same_name : List ℕ → List ℕ → Bool
same_name [] [] = true
same_name [] (d ∷ t) = false
same_name (c ∷ s) [] = false
same_name (c ∷ s) (d ∷ t) = (c == d) && same_name s t

abbrev pub name_at : Vfs → ℕ → Option (List ℕ)
name_at vfs i = elim (get_elem? vfs i) [ none ↦ none | some v ↦ some v.name ]

abbrev pub children_at : Vfs → ℕ → List ℕ
children_at vfs i = elim (get_elem? vfs i) [ none ↦ [] | some v ↦ v.children ]

abbrev pub has_name : List ℕ → Option (List ℕ) → Bool
has_name tok none = false
has_name tok (some name) = same_name name tok

-- The walk along the siblings.
unfoldable pub find_child : Vfs → List ℕ → List ℕ → Option ℕ
find_child vfs [] tok = none
find_child vfs (c ∷ cs) tok = if has_name tok (name_at vfs c) then some c else find_child vfs cs tok

-- `tok = slash ? slash + 1 : NULL`
abbrev pub next_token : List ℕ → List ℕ
next_token [] = []
next_token (c ∷ s) = s

-- The loop over the tokens, on fuel; no operation table has a `lookup`, so a name that no child has
-- ends the search.
unfoldable pub lookup_from : ℕ → Vfs → ℕ → List ℕ → Option ℕ
lookup_from zero vfs cur tok = none
lookup_from (suc fuel) vfs cur tok =
    if is_nil tok then some cur else elim (find_child vfs (children_at vfs cur) (part tok)) [
      | none ↦ none
      | some child ↦ lookup_from fuel vfs child (next_token (after_part tok))
    ]

-- A token takes a byte at least. The copy `buf` holds 255 bytes of the path; for a longer path the code
-- goes on reading bytes it has not written, and the copy is taken to end there.
unfoldable pub vfs_lookup : Vfs → List ℕ → Option ℕ
vfs_lookup vfs [] = none
vfs_lookup vfs (c ∷ s) =
    let tok = take (max_path - 1) s in
    if c == slash then lookup_from (suc (length tok)) vfs 0 tok else none

-- `strncpy(vn->name, name, VFS_NAME_MAX - 1)` into zeroed memory, and the link into the parent.
abbrev pub new_vnode : List ℕ → Kind → Ops → ℕ → Vnode
new_vnode name kind ops parent = record {
  name = take (name_max - 1) name;
  kind = kind;
  size = 0;
  content = none;
  ops = ops;
  parent = some parent;
  children = [];
}

-- Changes the vnode with number `i`.
unfoldable pub modify : Vfs → ℕ → (Vnode → Vnode) → Vfs
modify [] i f = []
modify (v ∷ vs) zero f = f v ∷ vs
modify (v ∷ vs) (suc i) f = v ∷ modify vs i f

abbrev pub link_child : ℕ → Vnode → Vnode
link_child c v = record v { children = c ∷ v.children }

-- The new vnode's number, with the tree that has it; `none` when no memory is given.
unfoldable pub vnode_create : Memory → Vfs → ℕ → List ℕ → Kind → Ops → Vfs × Option ℕ
vnode_create m vfs parent name kind ops =
    if m.node_ok
    then (
      modify vfs parent (link_child (length vfs)) ++ new_vnode name kind ops parent ∷ [],
      some (length vfs),
    )
    else (vfs, none)

-- Where the last slash stands, counted from the end: `strrchr(path, '/')`.
unfoldable pub last_part : List ℕ → List ℕ → List ℕ
last_part [] acc = acc
last_part (c ∷ s) acc = last_part s (if c == slash then s else acc)

-- `split_parent_path`, with buffers of VFS_MAX_PATH and VFS_NAME_MAX bytes: the parent's path and
-- the name.
unfoldable pub split_parent_path : List ℕ → Option (List ℕ × List ℕ)
split_parent_path [] = none
split_parent_path (c ∷ s) =
    let path = c ∷ s in
    let name = last_part path [] in
    let parent_len = length path - (length name + 1) in
    if not (c == slash) || is_nil s || is_nil name || leb name_max (length name)
    then none
    else if parent_len == 0
    then some (slash ∷ [], name)
    else if leb max_path parent_len
    then none
    else some (take parent_len path, name)
