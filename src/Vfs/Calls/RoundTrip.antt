-- ===== src/Vfs/Calls/RoundTrip.antt =====
-- vfs_create_file and vfs_read_all of kernel/fs/vfs.c, one after the other on the same path.
use lithium_kernel.Prelude.{
  ℕ, ◌-◌, ◌^◌, ◌<◌, ◌≡◌, refl, sym, ap, ◌∙◌, ◌≢◌, inl, inr, Bool, true, false, Option, none, some,
  List, [], ◌∷◌, arith, leb, ==_iff, Bool-cases, Option-cases, length, get_elem?, take,
  length-append, take_all,
}
use mathlib.Core.Path.{subst}
use mathlib.Core.List.{reverse, reverse-cons}
use lithium_kernel.Path.{slash}
use lithium_kernel.Path.Spec.{Name, render, AllNames}
use lithium_kernel.Vfs.Tmpfs.{Memory, tmpfs_read}
use lithium_kernel.Vfs.Tmpfs.Content.{content, tmpfs_read_lem}
use lithium_kernel.Vfs.Node.{
  Kind, Ops, Vnode, Vfs, children_at, find_child, vfs_lookup, new_vnode, name_max, max_path,
}
use lithium_kernel.Vfs.Node.Names.{IsTree, same_name_iff}
use lithium_kernel.Vfs.Node.Lookup.{
  descend, descend_found, descend_missing, descend-append, vfs_lookup-render,
}
use lithium_kernel.Vfs.Node.Create.{
  grown, vnode_create_refused, vnode_create_given, get-grown_new, grown-IsTree, descend-grown,
  descend-lt, find_child-grown,
}
use lithium_kernel.Vfs.Node.Split.{split_parent_path-render}
use lithium_kernel.Vfs.Calls.{
  is_dir, is_file, file_at, fill_file, create_in, vfs_create_file, vfs_read_all, read_whole,
  vnode_read,
}
use lithium_kernel.Vfs.Calls.Fill.{Holds, fill_file-Filled, descend-SameTree}

-- A file found or made at the path of the stack.
record Placed (vfs : Vfs) (st : List Name) (i : ℕ) : Type 0 where
  tree : IsTree vfs
  entry : Vnode
  found : descend vfs 0 (reverse st) ≡ some i
  at : get_elem? vfs i ≡ some entry
  file : entry.kind ≡ Kind.file

file-only :
    (k : Kind) → ◌≡◌ {A = Bool} (elim k [ Kind.file ↦ true | _ ↦ false ]) true → k ≡ Kind.file
file-only Kind.file h = refl
file-only Kind.dir h = cc h
file-only Kind.device h = cc h
file-only Kind.symlink h = cc h

-- The last step of a search.
last_step :
    (vfs : Vfs) (n : Name) (st : List Name) (p : ℕ)
    → descend vfs 0 (reverse st) ≡ some p
    → descend vfs 0 (reverse (n ∷ st)) ≡ descend vfs p (n ∷ [])
last_step vfs n st p e = rw (reverse-cons n st) (descend-append vfs 0 (reverse st) (n ∷ []) p e)

file_at-new :
    (m : Memory) (vfs : Vfs) (n : Name) (st : List Name) (p : ℕ)
    → IsTree vfs
    → length n < name_max
    → descend vfs 0 (reverse st) ≡ some p
    → find_child vfs (children_at vfs p) n ≡ none
    → Placed (grown vfs p (new_vnode n Kind.file Ops.tmpfs_file_ops p)) (n ∷ st) (length vfs)
unfolding descend
file_at-new m vfs n st p t short e absent =
    let v = new_vnode n Kind.file Ops.tmpfs_file_ops p in
    let name : v.name ≡ n = take_all (name_max - 1) n (omega arith) in
    let here : p < length vfs = descend-lt vfs 0 (reverse st) p t t.rooted e in
    let absent' : find_child vfs (children_at vfs p) v.name ≡ none =
      ap (find_child vfs (children_at vfs p)) name ∙ absent in
    let found : find_child (grown vfs p v) (children_at (grown vfs p v) p) n ≡ some (length vfs) =
      find_child-grown vfs p v p n t here
      ∙ rw ((==_iff p p).1 refl, (same_name_iff v.name n).1 name) refl in
    record {
      tree = grown-IsTree vfs p v t refl (λ _. refl) tt;
      entry = v;
      found =
          last_step (grown vfs p v) n st p
            (descend-grown vfs p v 0 (reverse st) p t t.rooted absent' e)
          ∙ descend_found (grown vfs p v) p n [] (length vfs) found;
      at = get-grown_new vfs p v;
      file = refl;
    }

-- What `file_at` returns is placed; with memory it returns a file, if the path names none but files.
record Found (m : Memory) (vfs : Vfs) (st : List Name) (old : Option ℕ) (result : Vfs × Option ℕ)
    : Type 0 where
  placed : (i : ℕ) → result.1 ≡ some i → Placed result.0 st i
  succeeds :
      m.node_ok ≡ true
      → ((q : ℕ) → old ≡ some q → is_file (get_elem? vfs q) ≡ true)
      → result.1 ≢ none

child-last :
    (vfs : Vfs) (p : ℕ) (n : Name) → descend vfs p (n ∷ []) ≡ find_child vfs (children_at vfs p) n
unfolding descend
child-last vfs p n = elim (Option-cases (find_child vfs (children_at vfs p) n)) [
  | inl e ↦ descend_missing vfs p n [] e ∙ sym e
  | inr (c, e) ↦ descend_found vfs p n [] c e ∙ rw (e, descend) refl
]

file_at-old :
    (m : Memory) (vfs : Vfs) (n : Name) (st : List Name) (p i : ℕ)
    → IsTree vfs
    → descend vfs 0 (reverse (n ∷ st)) ≡ some i
    → Found m vfs (n ∷ st) (some i) (file_at m vfs p n (some i))
unfolding file_at
file_at-old m vfs n st p i t e = elim (Option-cases (get_elem? vfs i)) [
  | inl q ↦ record {
    placed = λ j h. cc (rw (q, file_at) at h);
    succeeds = λ _ files. let bad = files i refl in cc (rw q at bad);
  }
  | inr (v, q) ↦ elim (Bool-cases (is_file (some v))) [
    | inr k ↦ record {
      placed = λ j h. cc (rw (q, k, file_at) at h);
      succeeds = λ _ files. let bad = files i refl in cc (rw (q, k) at bad);
    }
    | inl k ↦ record {
      placed = λ j h.
          let same : i ≡ j = cc (rw (q, k, file_at) at h) in
          rw (q, k, file_at)
            record {
              tree = t;
              entry = v;
              found = e ∙ ap some same;
              at = sym (ap (get_elem? vfs) same) ∙ q;
              file = file-only v.kind k;
            };
      succeeds = λ _ _. rw (q, k, file_at) (λ z. cc z);
    }
  ]
]

file_at-Found :
    (m : Memory) (vfs : Vfs) (n : Name) (st : List Name) (p : ℕ)
    → IsTree vfs
    → length n < name_max
    → descend vfs 0 (reverse st) ≡ some p
    → (old : Option ℕ) → old ≡ descend vfs 0 (reverse (n ∷ st))
    → Found m vfs (n ∷ st) old (file_at m vfs p n old)
unfolding file_at
file_at-Found m vfs n st p t short e none eo =
    let absent : find_child vfs (children_at vfs p) n ≡ none =
      sym (eo ∙ last_step vfs n st p e ∙ child-last vfs p n) in
    elim (Bool-cases m.node_ok) [
      | inr q ↦
          let made = vnode_create_refused m vfs p n Kind.file Ops.tmpfs_file_ops q in
          record { placed = λ j h. cc (rw made at h); succeeds = λ ok _. cc }
      | inl q ↦
          let made = vnode_create_given m vfs p n Kind.file Ops.tmpfs_file_ops q in
          record {
            placed = λ j h.
                let same : length vfs ≡ j = cc (rw made at h) in
                rw made
                  (subst (Placed _ (n ∷ st)) same (file_at-new m vfs n st p t short e absent));
            succeeds = λ _ _. rw made (λ z. cc z);
          }
    ]
file_at-Found m vfs n st p t short e (some i) eo = file_at-old m vfs n st p i t (sym eo)

pair_eq : (x : Vfs × Bool) (b : Bool) → x.1 ≡ b → x ≡ (x.0, b)
pair_eq (v, c) b e = rw e refl

-- What creation at a path leaves.
record Created (m : Memory) (st : List Name) (bytes : List ℕ) (able : Type 0) (result : Vfs × Bool)
    : Type 0 where
  tree : result.1 ≡ true → IsTree result.0
  stored :
      result.1 ≡ true
      → (i : ℕ) × (v : Vnode) × (descend result.0 0 (reverse st) ≡ some i)
        × (get_elem? result.0 i ≡ some v)
        × (v.kind ≡ Kind.file)
        × Holds bytes v
  succeeds : able → m.file_ok ≡ true → m.buffer_ok ≡ true → result.1 ≡ true

abbrev then_fill : Memory → List ℕ → Vfs × Option ℕ → Vfs × Bool
then_fill m bytes (vfs, none) = (vfs, false)
then_fill m bytes (vfs, some i) = fill_file m vfs i (some bytes) (length bytes)

filled-Created :
    (m : Memory) (st : List Name) (bytes : List ℕ) (made : Vfs × Option ℕ) (able : Type 0)
    → ((i : ℕ) → made.1 ≡ some i → Placed made.0 st i)
    → (able → made.1 ≢ none)
    → length bytes < 2 ^ 30
    → Created m st bytes able (then_fill m bytes made)
filled-Created m st bytes (vfs, none) able placed returns small = record {
  tree = λ h. cc h;
  stored = λ h. cc h;
  succeeds = λ ok _ _. absurd (returns ok refl);
}
filled-Created m st bytes (vfs, some i) able placed returns small =
    let p = placed i refl in
    let f = fill_file-Filled m vfs i p.entry bytes p.tree p.at p.file small in
    record {
      tree = λ _. f.tree;
      stored = λ h. (
        i,
        f.entry,
        descend-SameTree vfs _ 0 (reverse st) f.same ∙ p.found,
        f.at,
        f.file,
        f.holds h,
      );
      succeeds = λ _ a b. f.succeeds a b;
    }

-- That a file can be made or replaced: its parent is a directory, and what has its path is a file.
pub record IsPlace (vfs : Vfs) (n : Name) (st : List Name) : Type 0 where
  pub parent : ℕ
  pub found : vfs_lookup vfs (render st) ≡ some parent
  pub directory : is_dir (get_elem? vfs parent) ≡ true
  pub free : (q : ℕ) → vfs_lookup vfs (render (n ∷ st)) ≡ some q → is_file (get_elem? vfs q) ≡ true

create_in-Created :
    (m : Memory) (vfs : Vfs) (n : Name) (st : List Name) (bytes : List ℕ)
    → IsTree vfs
    → AllNames (n ∷ st)
    → length (render (n ∷ st)) < max_path
    → length bytes < 2 ^ 30
    → length (render st) < max_path
    → length n < name_max
    → Created m
        (n ∷ st)
        bytes
        ((m.node_ok ≡ true) × IsPlace vfs n st)
        (create_in m vfs (render (n ∷ st)) (some bytes) (length bytes) (some (render st, n)))
unfolding create_in
create_in-Created m vfs n st bytes t names l small l' short =
    elim (Option-cases (vfs_lookup vfs (render st))) [
      | inl e ↦
          rw (e, create_in)
            record {
              tree = λ h. cc h;
              stored = λ h. cc h;
              succeeds = λ (_, place) _ _. cc (sym e ∙ place.found);
            }
      | inr (p, e) ↦ elim (Bool-cases (is_dir (get_elem? vfs p))) [
        | inr d ↦
            rw (e, d, create_in)
              record {
                tree = λ h. cc h;
                stored = λ h. cc h;
                succeeds = λ (_, place) _ _.
                    let same : place.parent ≡ p = cc (sym place.found ∙ e) in
                    let directory = place.directory in cc (rw (same, d) at directory);
              }
        | inl d ↦
            let e' = sym (vfs_lookup-render vfs st names.1 l') ∙ e in
            let f =
              file_at-Found m vfs n st p t short e' (vfs_lookup vfs (render (n ∷ st)))
                (vfs_lookup-render vfs (n ∷ st) names l) in
            rw (e, d, create_in)
              (filled-Created m (n ∷ st) bytes
                (file_at m vfs p n (vfs_lookup vfs (render (n ∷ st)))) _ f.placed
                (λ (node, place). f.succeeds node place.free) small)
      ]
    ]

-- Reading back a file that holds the bytes.
read_whole-Holds :
    (m : Memory) (vfs : Vfs) (i : ℕ) (v : Vnode) (bytes : List ℕ)
    → IsTree vfs
    → get_elem? vfs i ≡ some v
    → v.kind ≡ Kind.file
    → length bytes < 2 ^ 30
    → Holds bytes v
    → m.buffer_ok ≡ true
    → read_whole m v ≡ some bytes
unfolding read_whole vnode_read
read_whole-Holds m vfs i v bytes t e k small h memory =
    let all : tmpfs_read v.content v.size 0 ≡ bytes =
      tmpfs_read_lem v.content v.size 0
      ∙ ap (take v.size) h.content
      ∙ take_all v.size bytes (omega (arith, h.size)) in
    rw (t.files i v e k, all, memory) (ground (arith, h.size, small))

file_is : (v : Vnode) → v.kind ≡ Kind.file → is_file (some v) ≡ true
file_is v k = rw k refl

pub vfs_read_all-Holds :
    (m : Memory) (vfs : Vfs) (st : List Name) (i : ℕ) (v : Vnode) (bytes : List ℕ)
    → IsTree vfs
    → AllNames st
    → length (render st) < max_path
    → descend vfs 0 (reverse st) ≡ some i
    → get_elem? vfs i ≡ some v
    → v.kind ≡ Kind.file
    → length bytes < 2 ^ 30
    → Holds bytes v
    → m.buffer_ok ≡ true
    → vfs_read_all m vfs (render st) ≡ some bytes
unfolding vfs_read_all
vfs_read_all-Holds m vfs st i v bytes t names l found e k small h memory =
    let lookup : vfs_lookup vfs (render st) ≡ some i = vfs_lookup-render vfs st names l ∙ found in
    rw (vfs_read_all, lookup, e, file_is v k)
      (read_whole-Holds m vfs i v bytes t e k small h memory)

render_tail :
    (n : Name) (st : List Name)
    → length (render (n ∷ st)) < max_path
    → length (render st) < max_path
render_tail n [] l = omega arith
render_tail n (m ∷ st) l = omega (arith, length-append (render (m ∷ st)) (slash ∷ n))

vfs_create_file-Created :
    (m : Memory) (vfs : Vfs) (n : Name) (st : List Name) (bytes : List ℕ)
    → IsTree vfs
    → AllNames (n ∷ st)
    → length (render (n ∷ st)) < max_path
    → length bytes < 2 ^ 30
    → Created m
        (n ∷ st)
        bytes
        ((length n < name_max) × (m.node_ok ≡ true) × IsPlace vfs n st)
        (vfs_create_file m vfs (render (n ∷ st)) (some bytes) (length bytes))
unfolding vfs_create_file create_in
vfs_create_file-Created m vfs n st bytes t names l small =
    elim (Bool-cases (leb name_max (length n))) [
      | inl q ↦
          rw (split_parent_path-render n st names l, q)
            record {
              tree = λ h. cc h;
              stored = λ h. cc h;
              succeeds = λ (short, _, _) _ _. absurd (ground (arith, q));
            }
      | inr q ↦
          let short : length n < name_max = ground (arith, q) in
          let c = create_in-Created m vfs n st bytes t names l small (render_tail n st l) short in
          rw (split_parent_path-render n st names l, q)
            record {
              tree = c.tree;
              stored = c.stored;
              succeeds = λ (_, node, place). c.succeeds (node, place);
            }
    ]

-- The file there afterwards.
pub created_entry :
    (m : Memory) (vfs vfs' : Vfs) (n : Name) (st : List Name) (bytes : List ℕ)
    → IsTree vfs
    → AllNames (n ∷ st)
    → length (render (n ∷ st)) < max_path
    → length bytes < 2 ^ 30
    → vfs_create_file m vfs (render (n ∷ st)) (some bytes) (length bytes) ≡ (vfs', true)
    → (i : ℕ) × (v : Vnode) × (vfs_lookup vfs' (render (n ∷ st)) ≡ some i)
      × (get_elem? vfs' i ≡ some v)
      × (v.ops ≡ Ops.tmpfs_file_ops)
      × (content v.content ≡ bytes)
created_entry m vfs vfs' n st bytes t names l small e =
    let c = vfs_create_file-Created m vfs n st bytes t names l small in
    let done : (vfs_create_file m vfs (render (n ∷ st)) (some bytes) (length bytes)).1 ≡ true =
      ap (λ x. x.1) e in
    let after = ap (λ x. x.0) e in
    let (i, v, found, at, file, holds) = c.stored done in
    (
      i,
      v,
      ap (λ k. vfs_lookup k (render (n ∷ st))) (sym after)
          ∙ vfs_lookup-render _ (n ∷ st) names l
          ∙ found,
      ap (λ k. get_elem? k i) (sym after) ∙ at,
      (c.tree done).files i v at file,
      holds.content,
    )

-- When `vfs_create_file` of less than 2 ^ 30 bytes at the path of some names returns 0, the tree is one again, and reading
-- the whole file at that path, if the allocator gives a buffer, returns just the bytes it was given,
-- whether the file was new or its contents were replaced.
pub vfs_create_file-read_all :
    (m m' : Memory) (vfs vfs' : Vfs) (n : Name) (st : List Name) (bytes : List ℕ)
    → IsTree vfs
    → AllNames (n ∷ st)
    → length (render (n ∷ st)) < max_path
    → length bytes < 2 ^ 30
    → m'.buffer_ok ≡ true
    → vfs_create_file m vfs (render (n ∷ st)) (some bytes) (length bytes) ≡ (vfs', true)
    → IsTree vfs' × (vfs_read_all m' vfs' (render (n ∷ st)) ≡ some bytes)
vfs_create_file-read_all m m' vfs vfs' n st bytes t names l small buffer e =
    let c = vfs_create_file-Created m vfs n st bytes t names l small in
    let done : (vfs_create_file m vfs (render (n ∷ st)) (some bytes) (length bytes)).1 ≡ true =
      ap (λ x. x.1) e in
    let after = ap (λ x. x.0) e in
    let (i, v, found, at, file, holds) = c.stored done in
    let read =
      vfs_read_all-Holds m' _ (n ∷ st) i v bytes (c.tree done) names l found at file small holds
        buffer in
    (
      subst IsTree after (c.tree done),
      subst (λ k. vfs_read_all m' k (render (n ∷ st)) ≡ some bytes) after read,
    )

-- `vfs_create_file` of less than 2 ^ 30 bytes returns 0 if the name is shorter than 64 bytes, the parent is a directory, what
-- has the path already is a file, and the allocator gives all it is asked for.
pub vfs_create_file_succeeds :
    (m : Memory) (vfs : Vfs) (n : Name) (st : List Name) (bytes : List ℕ)
    → IsTree vfs
    → AllNames (n ∷ st)
    → length (render (n ∷ st)) < max_path
    → length bytes < 2 ^ 30
    → length n < name_max
    → IsPlace vfs n st
    → m.node_ok ≡ true
    → m.file_ok ≡ true
    → m.buffer_ok ≡ true
    → (vfs' : Vfs) × (vfs_create_file m vfs (render (n ∷ st)) (some bytes) (length bytes)
        ≡ (vfs', true))
vfs_create_file_succeeds m vfs n st bytes t names l small short place a b d =
    let c = vfs_create_file-Created m vfs n st bytes t names l small in
    (
      (vfs_create_file m vfs (render (n ∷ st)) (some bytes) (length bytes)).0,
      pair_eq _ true (c.succeeds (short, a, place) b d),
    )
