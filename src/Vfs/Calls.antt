-- ===== src/Vfs/Calls.antt =====
-- The calls of kernel/fs/vfs.c on whole files and directories. Each
-- returns the tree afterwards and whether it returned 0.
pub mod Fill
pub mod RoundTrip
use lithium_kernel.Prelude.{
  ℕ, zero, suc, ◌+◌, ◌-◌, ◌*◌, ◌/◌, ◌%◌, ◌^◌, ◌≤◌, ◌<◌, min, max, ◌≡◌, refl, sym, ap, ◌∙◌, ◌≢◌, ◌⊎◌,
  inl, inr, Bool, true, false, not, ◌&&◌, ◌||◌, Option, none, some, List, [], ◌∷◌, ◌++◌, map, arith,
  ltb, leb, ◌==◌, if◌then◌else◌, lt→ltb, ltb→lt, leb→le, ==_iff, ==→eq, Bool-cases, Option-cases,
  update, Outcome, ok, halted, kassert, count, count-congr, count-clear, count-pos, count_witness,
  count-le, length, get_elem?, get_or, set, take, drop, replicate, length-append, length-set,
  get_elem?-set_self, get_elem?-set_ne, take-append-drop, length-take, length-drop,
  length-replicate, take_append, drop_append, take_all,
}
use lithium_kernel.Path.{slash}
use lithium_kernel.Vfs.Tmpfs.{TmpFile, Memory, int32, is_negative, tmpfs_read, tmpfs_write}
use lithium_kernel.Vfs.Node.{
  Kind, Ops, Vnode, Vfs, name_max, modify, vfs_lookup, vnode_create, split_parent_path, children_at,
  name_at,
}

abbrev pub is_dir : Option Vnode → Bool
is_dir none = false
is_dir (some v) = elim v.kind [ Kind.dir ↦ true | _ ↦ false ]

abbrev pub is_file : Option Vnode → Bool
is_file none = false
is_file (some v) = elim v.kind [ Kind.file ↦ true | _ ↦ false ]

-- `vn->ops->read`: the bytes read, or none where there is no such operation (the callers' -1).
unfoldable pub vnode_read : Vnode → ℕ → ℕ → Option (List ℕ)
vnode_read v count off = elim v.ops [
  | Ops.tmpfs_file_ops ↦ some (tmpfs_read v.content count off)
  | Ops.dev_null_ops ↦ some []
  | _ ↦ none
]

-- `tmpfs_write` on the vnode: its size follows the file's where the write succeeds.
unfoldable pub write_content : Memory → Vnode → List ℕ → ℕ → Vnode × Option ℕ
write_content m v buf off =
    let (c, r) = tmpfs_write m v.content buf off in
    (
      record v {
        content = c;
        size = elim r [ none ↦ v.size | some n ↦ elim c [ none ↦ v.size | some f ↦ f.size ] ];
      },
      r,
    )

-- `vn->ops->write`
unfoldable pub vnode_write : Memory → Vnode → List ℕ → ℕ → Vnode × Option ℕ
vnode_write m v buf off = elim v.ops [
  | Ops.tmpfs_file_ops ↦ write_content m v buf off
  | Ops.dev_null_ops ↦ (v, some (int32 (length buf)))
  | _ ↦ (v, none)
]

-- The new directory, or -1 where the name is refused, the parent is no directory or memory is out.
make_dir : Memory → Vfs → Option (List ℕ × List ℕ) → Vfs × Bool
make_dir m vfs none = (vfs, false)
make_dir m vfs (some (parent_path, name)) = elim (vfs_lookup vfs parent_path) [
  | none ↦ (vfs, false)
  | some parent ↦
      if is_dir (get_elem? vfs parent)
      then (let (vfs', r) = vnode_create m vfs parent name Kind.dir Ops.tmpfs_dir_ops in
          elim r [ none ↦ (vfs', false) | some i ↦ (vfs', true) ])
      else (vfs, false)
]

pub vfs_mkdir : Memory → Vfs → List ℕ → Vfs × Bool
vfs_mkdir m vfs path = elim (vfs_lookup vfs path) [
  | some i ↦ (vfs, is_dir (get_elem? vfs i))
  | none ↦ make_dir m vfs (split_parent_path path)
]

-- `if (tf) tf->size = 0; vn->size = 0;`
abbrev pub truncate : Vnode → Vnode
truncate v = record v {
  content = elim v.content [ none ↦ none | some f ↦ some (record f { size = 0 }) ];
  size = 0;
}

-- `written == (int)size`
abbrev pub same_int : Option ℕ → ℕ → Bool
same_int none size = 2 ^ 32 - 1 == int32 size
same_int (some n) size = n == int32 size

-- The file is emptied, and then filled from `bytes` unless `size` is 0.
unfoldable pub fill_file : Memory → Vfs → ℕ → Option (List ℕ) → ℕ → Vfs × Bool
fill_file m vfs i bytes size =
    let emptied = modify vfs i truncate in
    if size == 0 then (emptied, true) else elim bytes [
      | none ↦ (emptied, false)
      | some buf ↦ elim (get_elem? emptied i) [
        | none ↦ (emptied, false)
        | some v ↦
            let (v', r) = write_content m v (take size buf) 0 in
            let written = modify emptied i (λ _. v') in (written, same_int r size)
      ]
    ]

-- The file named by the path: the one there, or a new one in its parent.
unfoldable pub file_at : Memory → Vfs → ℕ → List ℕ → Option ℕ → Vfs × Option ℕ
file_at m vfs parent name none = vnode_create m vfs parent name Kind.file Ops.tmpfs_file_ops
file_at m vfs parent name (some i) =
    if is_file (get_elem? vfs i) then (vfs, some i) else (vfs, none)

unfoldable pub create_in :
    Memory → Vfs → List ℕ → Option (List ℕ) → ℕ → Option (List ℕ × List ℕ) → Vfs × Bool
create_in m vfs path bytes size none = (vfs, false)
create_in m vfs path bytes size (some (parent_path, name)) = elim (vfs_lookup vfs parent_path) [
  | none ↦ (vfs, false)
  | some parent ↦
      if is_dir (get_elem? vfs parent)
      then (let (vfs', r) = file_at m vfs parent name (vfs_lookup vfs path) in
          elim r [ none ↦ (vfs', false) | some i ↦ fill_file m vfs' i bytes size ])
      else (vfs, false)
]

-- `none` for `bytes` is a null pointer.
unfoldable pub vfs_create_file : Memory → Vfs → List ℕ → Option (List ℕ) → ℕ → Vfs × Bool
vfs_create_file m vfs path bytes size = create_in m vfs path bytes size (split_parent_path path)

read_whole : Memory → Vnode → Option (List ℕ)
read_whole m v = elim (vnode_read v v.size 0) [
  | none ↦ none
  | some bytes ↦
      let read = int32 (length bytes) in
      if m.buffer_ok && (not (is_negative read) && (read == v.size)) then some bytes else none
]

-- The whole contents, into a buffer from the allocator.
pub vfs_read_all : Memory → Vfs → List ℕ → Option (List ℕ)
vfs_read_all m vfs path = elim (vfs_lookup vfs path) [
  | none ↦ none
  | some i ↦ elim (get_elem? vfs i) [
    | none ↦ none
    | some v ↦ if is_file (some v) then read_whole m v else none
  ]
]

-- No operation table has a `readdir`, so the entry is the child with that index.
pub vfs_readdir : Vfs → List ℕ → ℕ → Option (List ℕ × Kind)
vfs_readdir vfs path idx = elim (vfs_lookup vfs path) [
  | none ↦ none
  | some i ↦
      if is_dir (get_elem? vfs i)
      then elim (get_elem? (children_at vfs i) idx) [
        | none ↦ none
        | some c ↦ elim (get_elem? vfs c) [
          | none ↦ none
          | some v ↦ some (take (name_max - 1) v.name, v.kind)
        ]
      ]
      else none
]
