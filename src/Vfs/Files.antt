-- ===== src/Vfs/Files.antt =====
-- The file table of kernel/fs/vfs.c: vfs_open_in, vfs_close_in, vfs_read_in and vfs_write_in. A
-- negative descriptor takes the branch of one past the end.
pub mod Open
pub mod Reads
use lithium_kernel.Prelude.{
  ℕ, zero, suc, ◌+◌, ◌-◌, ◌*◌, ◌/◌, ◌%◌, ◌^◌, ◌≤◌, ◌<◌, min, max, ◌≡◌, refl, sym, ap, ◌∙◌, ◌≢◌, ◌↔◌,
  ◌⊎◌, inl, inr, Bool, true, false, not, ◌&&◌, ◌||◌, Option, none, some, List, [], ◌∷◌, ◌++◌, map,
  arith, ltb, leb, ◌==◌, if◌then◌else◌, lt→ltb, ltb→lt, leb→le, ==_iff, ==→eq, Bool-cases,
  Option-cases, update, Outcome, ok, halted, kassert, count, count-congr, count-clear, count-pos,
  count_witness, count-le, length, get_elem?, get_or, set, take, drop, replicate, length-append,
  length-set, get_elem?-set_self, get_elem?-set_ne, take-append-drop, length-take, length-drop,
  length-replicate, take_append, drop_append, take_all,
}
use lithium_kernel.Vfs.Tmpfs.{TmpFile, Memory, int32, is_negative}
use lithium_kernel.Vfs.Tmpfs.Content.{content}
use lithium_kernel.Vfs.Node.{Kind, Ops, Vnode, Vfs, vfs_lookup, modify}
use lithium_kernel.Vfs.Calls.{vnode_read, vnode_write}

-- `file_t`
pub record File : Type 0 where
  pub vnode : ℕ
  pub offset : ℕ
  pub valid : Bool

-- VFS_MAX_FDS
abbrev pub max_fds : ℕ
max_fds = 32

abbrev pub Files : Type 0
Files = ℕ → File

-- The loop of vfs_open_in: the first slot of `n` from `i` on that is not in use.
unfoldable pub free_slot : Files → ℕ → ℕ → Option ℕ
free_slot files i zero = none
free_slot files i (suc n) = if not (files i).valid then some i else free_slot files (i + 1) n

abbrev pub opened : ℕ → File
opened vn = record { vnode = vn; offset = 0; valid = true }

unfoldable pub open_at : Files → ℕ → Option ℕ → Files × Option ℕ
open_at files vn none = (files, none)
open_at files vn (some i) = (update files i (opened vn), some i)

-- `none` is -1.
unfoldable pub vfs_open_in : Files → Vfs → List ℕ → Files × Option ℕ
vfs_open_in files vfs path = elim (vfs_lookup vfs path) [
  | none ↦ (files, none)
  | some vn ↦ open_at files vn (free_slot files 3 (max_fds - 3))
]

pub vfs_close_in : Files → ℕ → Files
vfs_close_in files fd =
    if ltb fd max_fds then update files fd (record (files fd) { valid = false }) else files

abbrev usable : Files → ℕ → Bool
usable files fd = ltb fd max_fds && (files fd).valid

-- `if (r > 0) f->offset += r`, for the 32 bits of an int
abbrev pub advance : Files → ℕ → ℕ → Files
advance files fd r =
    if is_negative r
    then files
    else update files fd (record (files fd) { offset = (files fd).offset + r })

read_vnode : Files → ℕ → ℕ → Option Vnode → Files × Option (List ℕ)
read_vnode files fd count none = (files, none)
read_vnode files fd count (some v) = elim (vnode_read v count (files fd).offset) [
  | none ↦ (files, none)
  | some bytes ↦ (advance files fd (int32 (length bytes)), some bytes)
]

-- The bytes read, `(int)` of their number being the result.
pub vfs_read_in : Files → Vfs → ℕ → ℕ → Files × Option (List ℕ)
vfs_read_in files vfs fd count =
    if usable files fd
    then read_vnode files fd count (get_elem? vfs (files fd).vnode)
    else (files, none)

write_vnode : Memory → Files → Vfs → ℕ → List ℕ → Option Vnode → (Files × Vfs) × Option ℕ
write_vnode m files vfs fd buf none = ((files, vfs), none)
write_vnode m files vfs fd buf (some v) =
    let (v', r) = vnode_write m v buf (files fd).offset in
    let vfs' = modify vfs (files fd).vnode (λ _. v') in
    elim r [ none ↦ ((files, vfs'), none) | some n ↦ ((advance files fd n, vfs'), some n) ]

pub vfs_write_in : Memory → Files → Vfs → ℕ → List ℕ → (Files × Vfs) × Option ℕ
vfs_write_in m files vfs fd buf =
    if usable files fd
    then write_vnode m files vfs fd buf (get_elem? vfs (files fd).vnode)
    else ((files, vfs), none)
