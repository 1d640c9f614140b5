-- ===== src/Vfs/Files/Reads.antt =====
-- Reads of kernel/fs/vfs.c through a descriptor.
use lithium_kernel.Prelude.{
  ℕ, zero, suc, ◌+◌, ◌^◌, ◌≤◌, ◌<◌, ◌≡◌, refl, sym, ap, ◌∙◌, true, ◌&&◌, Option, none, some, List,
  [], ◌∷◌, ◌++◌, arith, ltb, if◌then◌else◌, lt→ltb, length, get_elem?, take, drop, length-append,
  length-take,
}
use mathlib.Core.Path.{ap₂}
use lithium_kernel.Path.Spec.{Name, render, AllNames}
use lithium_kernel.Vfs.Tmpfs.{Memory, int32}
use lithium_kernel.Vfs.Tmpfs.Content.{content, tmpfs_read_lem}
use lithium_kernel.Vfs.Node.{Ops, Vnode, Vfs, max_path}
use lithium_kernel.Vfs.Calls.{vnode_read, vfs_create_file}
use lithium_kernel.Vfs.Node.Names.{IsTree}
use lithium_kernel.Vfs.Calls.RoundTrip.{created_entry}
use lithium_kernel.Vfs.Files.Open.{opened_slot}
use lithium_kernel.Vfs.Files.{vfs_open_in, Files, max_fds, vfs_read_in, read_vnode, advance}

-- A descriptor in use for a file of the tmpfs.
pub record IsOpen (files : Files) (vfs : Vfs) (fd : ℕ) (v : Vnode) : Type 0 where
  pub range : fd < max_fds
  pub valid : (files fd).valid ≡ true
  pub entry : get_elem? vfs (files fd).vnode ≡ some v
  pub ops : v.ops ≡ Ops.tmpfs_file_ops

abbrev read_result : Files → ℕ → Option (List ℕ) → Files × Option (List ℕ)
read_result files fd r = elim r [
  | none ↦ (files, none)
  | some bytes ↦ (advance files fd (int32 (length bytes)), some bytes)
]

vnode_read_file :
    (v : Vnode) (n off : ℕ)
    → v.ops ≡ Ops.tmpfs_file_ops
    → vnode_read v n off ≡ some (take n (drop off (content v.content)))
unfolding vnode_read
vnode_read_file v n off e = rw e (ap some (tmpfs_read_lem v.content n off))

-- One read: the next bytes, and the offset moves past them.
pub vfs_read_in_file :
    (files : Files) (vfs : Vfs) (fd n : ℕ) (v : Vnode)
    → IsOpen files vfs fd v
    → vfs_read_in files vfs fd n ≡ (
        let bytes = take n (drop (files fd).offset (content v.content)) in
        (advance files fd (int32 (length bytes)), some bytes))
unfolding vfs_read_in read_vnode
vfs_read_in_file files vfs fd n v o =
    let use_it : (ltb fd max_fds && (files fd).valid) ≡ true =
      rw (lt→ltb fd max_fds o.range) o.valid in
    ap (λ b. if b then read_vnode files fd n (get_elem? vfs (files fd).vnode) else (files, none))
      use_it
    ∙ ap (read_vnode files fd n) o.entry
    ∙ ap (read_result files fd) (vnode_read_file v n (files fd).offset o.ops)

take-twice :
    (k j : ℕ) (xs : List ℕ) → take (k + j) xs ≡ take k xs ++ take j (drop (length (take k xs)) xs)
take-twice zero j xs = ap (λ n. take n xs) {y = j} (omega arith)
take-twice (suc k) zero [] = let more : suc k + zero ≡ suc k = omega arith in rw more refl
take-twice (suc k) (suc j) [] =
    let more : suc k + suc j ≡ suc (k + suc j) = omega arith in rw more refl
take-twice (suc k) j (x ∷ xs) =
    let more : suc k + j ≡ suc (k + j) = omega arith in rw more (ap (◌∷◌ x) (take-twice k j xs))

drop-twice : (a b : ℕ) (xs : List ℕ) → drop (a + b) xs ≡ drop b (drop a xs)
drop-twice zero b xs = ap (λ n. drop n xs) {y = b} (omega arith)
drop-twice (suc a) zero [] = let more : suc a + zero ≡ suc a = omega arith in rw more refl
drop-twice (suc a) (suc b) [] =
    let more : suc a + suc b ≡ suc (a + suc b) = omega arith in rw more refl
drop-twice (suc a) b (x ∷ xs) =
    let more : suc a + b ≡ suc (a + b) = omega arith in rw more (drop-twice a b xs)

advance-IsOpen :
    (files : Files) (vfs : Vfs) (fd n : ℕ) (v : Vnode)
    → n < 2 ^ 31
    → IsOpen files vfs fd v
    → IsOpen (advance files fd n) vfs fd v
advance-IsOpen files vfs fd n v small o =
    let self : advance files fd n fd ≡ record (files fd) { offset = (files fd).offset + n } =
      ground arith in
    record {
      range = o.range;
      valid = ap (λ f. f.valid) self ∙ o.valid;
      entry = ap (λ f. get_elem? vfs f.vnode) self ∙ o.entry;
      ops = o.ops;
    }

-- Two reads of a file of less than 2 ^ 31 bytes together, one after the other, give the bytes that one read of both counts gives, and
-- leave the descriptor at the same offset.
pub vfs_read_in-vfs_read_in :
    (files : Files) (vfs : Vfs) (fd k j : ℕ) (v : Vnode)
    → k + j < 2 ^ 31
    → IsOpen files vfs fd v
    → (xs ys : List ℕ) × ((vfs_read_in files vfs fd k).1 ≡ some xs)
      × (let files' = (vfs_read_in files vfs fd k).0 in
          ((vfs_read_in files' vfs fd j).1 ≡ some ys)
          × ((vfs_read_in files vfs fd (k + j)).1 ≡ some (xs ++ ys))
          × (((vfs_read_in files' vfs fd j).0 fd).offset
              ≡ ((vfs_read_in files vfs fd (k + j)).0 fd).offset))
vfs_read_in-vfs_read_in files vfs fd k j v small o =
    let rest = drop (files fd).offset (content v.content) in
    let xs = take k rest in
    let few : length xs ≤ k = omega (arith, length-take k rest) in
    let files' = advance files fd (int32 (length xs)) in
    let first = vfs_read_in_file files vfs fd k v o in
    let both = vfs_read_in_file files vfs fd (k + j) v o in
    let ys = take j (drop (files' fd).offset (content v.content)) in
    let second : vfs_read_in (vfs_read_in files vfs fd k).0 vfs fd j
        ≡ (advance files' fd (int32 (length ys)), some ys) =
      ap (λ r. vfs_read_in r.0 vfs fd j) first
      ∙ vfs_read_in_file files' vfs fd j v
          (advance-IsOpen files vfs fd (int32 (length xs)) v (omega arith) o) in
    let next : (files' fd).offset ≡ (files fd).offset + length xs = ground arith in
    let whole : take (k + j) rest ≡ xs ++ ys =
      take-twice k j rest
      ∙ ap (λ d. xs ++ take j d)
          (sym (
            ap (λ n. drop n (content v.content)) next
            ∙ drop-twice (files fd).offset (length xs) (content v.content))) in
    (
      xs,
      ys,
      ap (λ r. r.1) first,
      (
        ap (λ r. r.1) second,
        ap (λ r. r.1) both ∙ ap some whole,
        ap (λ r. (r.0 fd).offset) second
            ∙ ground (
              arith,
              next,
              few,
              length-take j (drop (files' fd).offset (content v.content)),
              ap length whole,
              length-append xs ys,
            )
            ∙ sym (ap (λ r. (r.0 fd).offset) both),
      ),
    )

-- After `vfs_create_file` of less than 2 ^ 30 bytes has returned 0, a descriptor that `vfs_open_in` gives for the same path
-- reads the first `k` of the bytes that the file was given.
pub vfs_read_in-created :
    (m : Memory) (vfs vfs' : Vfs) (n : Name) (st : List Name) (bytes : List ℕ)
    (files files' : Files) (fd k : ℕ)
    → IsTree vfs
    → AllNames (n ∷ st)
    → length (render (n ∷ st)) < max_path
    → length bytes < 2 ^ 30
    → vfs_create_file m vfs (render (n ∷ st)) (some bytes) (length bytes) ≡ (vfs', true)
    → vfs_open_in files vfs' (render (n ∷ st)) ≡ (files', some fd)
    → (vfs_read_in files' vfs' fd k).1 ≡ some (take k bytes)
vfs_read_in-created m vfs vfs' n st bytes files files' fd k t names l small made is_open =
    let (i, v, found, at, ops, holds) = created_entry m vfs vfs' n st bytes t names l small made in
    let (vn, lookup, range, slot) = opened_slot files vfs' (render (n ∷ st)) files' fd is_open in
    let same : vn ≡ i = cc (sym lookup ∙ found) in
    let vnode : (files' fd).vnode ≡ i = ap (λ f. f.vnode) slot ∙ same in
    let is_file : IsOpen files' vfs' fd v = record {
      range = range;
      valid = ap (λ f. f.valid) slot;
      entry = ap (get_elem? vfs') vnode ∙ at;
      ops = ops;
    } in
    ap (λ r. r.1) (vfs_read_in_file files' vfs' fd k v is_file)
    ∙ ap₂ (λ o c. some (take k (drop o c))) (ap (λ f. f.offset) slot) holds
