-- ===== src/Vfs/Node/Create.antt =====
-- vnode_create of kernel/fs/vfs.c keeps the tree, and a search finds the new vnode and all others.
use lithium_kernel.Prelude.{
  ℕ, zero, suc, ◌<◌, ◌≡◌, refl, sym, ap, ◌∙◌, ◌⊎◌, inl, inr, true, false, ◌&&◌, none, some, List,
  [], ◌∷◌, ◌++◌, arith, ltb, ◌==◌, if◌then◌else◌, ltb→lt, ==→eq, Bool-cases, Option-cases, length,
  get_elem?, length-append,
}
use mathlib.Core.Path.{subst}
use lithium_kernel.Path.Spec.{Name}
use lithium_kernel.Vfs.Tmpfs.{Memory}
use lithium_kernel.Vfs.Tmpfs.Content.{Fits}
use lithium_kernel.Vfs.Node.{
  Kind, Ops, Vnode, Vfs, same_name, name_at, children_at, find_child, modify, link_child, new_vnode,
  vnode_create,
}
use lithium_kernel.Vfs.Node.Names.{
  same_name_iff, AllBelow, IsTree, AllBelow-mono, find_child-lt, length-modify, map_vnode,
  get_elem?-modify, get_elem?-append_lt, get_elem?-append_self, get_elem?-append_gt,
  find_child-congr,
}
use lithium_kernel.Vfs.Node.Lookup.{descend, descend_found}

-- The tree after a vnode has been made under `parent`.
abbrev pub grown : Vfs → ℕ → Vnode → Vfs
grown vfs parent v = modify vfs parent (link_child (length vfs)) ++ v ∷ []

get-grown_old :
    (vfs : Vfs) (parent : ℕ) (v : Vnode) (i : ℕ)
    → i < length vfs
    → get_elem? (grown vfs parent v) i ≡ (
        if parent == i
        then map_vnode (link_child (length vfs)) (get_elem? vfs i)
        else get_elem? vfs i)
get-grown_old vfs parent v i h =
    get_elem?-append_lt (modify vfs parent (link_child (length vfs))) (v ∷ []) i
      (omega (arith, length-modify vfs parent (link_child (length vfs))))
    ∙ get_elem?-modify vfs parent i (link_child (length vfs))

pub get-grown_new :
    (vfs : Vfs) (parent : ℕ) (v : Vnode) → get_elem? (grown vfs parent v) (length vfs) ≡ some v
get-grown_new vfs parent v =
    ap (get_elem? (grown vfs parent v)) (sym (length-modify vfs parent (link_child (length vfs))))
    ∙ get_elem?-append_self (modify vfs parent (link_child (length vfs))) v

pub length-grown :
    (vfs : Vfs) (parent : ℕ) (v : Vnode) → length (grown vfs parent v) ≡ suc (length vfs)
length-grown vfs parent v = omega (
  arith,
  length-append (modify vfs parent (link_child (length vfs))) (v ∷ []),
  length-modify vfs parent (link_child (length vfs)),
)

name_at-grown :
    (vfs : Vfs) (parent : ℕ) (v : Vnode) (i : ℕ)
    → i < length vfs
    → name_at (grown vfs parent v) i ≡ name_at vfs i
name_at-grown vfs parent v i h = ground (arith, get-grown_old vfs parent v i h)

-- A vnode that exists has an entry.
get_some : (vfs : Vfs) (i : ℕ) → i < length vfs → (v : Vnode) × (get_elem? vfs i ≡ some v)
get_some [] i h = elim h [ ]
get_some (v ∷ vs) zero h = (v, refl)
get_some (v ∷ vs) (suc i) h = get_some vs i (omega arith)

children_at-grown :
    (vfs : Vfs) (parent : ℕ) (v : Vnode) (i : ℕ)
    → i < length vfs
    → children_at (grown vfs parent v) i
      ≡ (if parent == i then length vfs ∷ children_at vfs i else children_at vfs i)
children_at-grown vfs parent v i h =
    let (w, e) = get_some vfs i h in ground (arith, e, get-grown_old vfs parent v i h)

-- In a directory the new vnode comes first, and the others are found as before.
pub find_child-grown :
    (vfs : Vfs) (parent : ℕ) (v : Vnode) (i : ℕ) (tok : Name)
    → IsTree vfs
    → i < length vfs
    → find_child (grown vfs parent v) (children_at (grown vfs parent v) i) tok ≡ (
        if (parent == i) && same_name v.name tok
        then some (length vfs)
        else find_child vfs (children_at vfs i) tok)
unfolding find_child
find_child-grown vfs parent v i tok t h = rw (children_at-grown vfs parent v i h) (
    ground (
      arith,
      get-grown_new vfs parent v,
      find_child-congr vfs (grown vfs parent v) (length vfs) (children_at vfs i) tok (t.linked i)
          (λ j l. name_at-grown vfs parent v j l),
    ))

still_found :
    (vfs : Vfs) (parent : ℕ) (v : Vnode) (cur : ℕ) (n : Name) (c : ℕ)
    → find_child vfs (children_at vfs parent) v.name ≡ none
    → find_child vfs (children_at vfs cur) n ≡ some c
    → (if (parent == cur) && same_name v.name n
        then some (length vfs)
        else find_child vfs (children_at vfs cur) n)
      ≡ some c
still_found vfs parent v cur n c absent found = elim (Bool-cases (parent == cur)) [
  | inr e ↦ rw e found
  | inl e ↦ elim (Bool-cases (same_name v.name n)) [
    | inr d ↦ rw (e, d) found
    | inl d ↦
        let same : v.name ≡ n = (same_name_iff v.name n).0 d in
        let here : parent ≡ cur = ==→eq _ _ e in cc (rw (same, here) at absent)
  ]
]

-- Every search that succeeded still does, if no child of the parent had the new name.
pub descend-grown :
    (vfs : Vfs) (parent : ℕ) (v : Vnode) (cur : ℕ) (ns : List Name) (q : ℕ)
    → IsTree vfs
    → cur < length vfs
    → find_child vfs (children_at vfs parent) v.name ≡ none
    → descend vfs cur ns ≡ some q
    → descend (grown vfs parent v) cur ns ≡ some q
unfolding descend
descend-grown vfs parent v cur [] q t h absent e = e
descend-grown vfs parent v cur (n ∷ ns) q t h absent e =
    elim (Option-cases (find_child vfs (children_at vfs cur) n)) [
      | inl lost ↦ cc (rw (lost, descend) at e)
      | inr (c, found) ↦
          let kept : find_child (grown vfs parent v) (children_at (grown vfs parent v) cur) n
              ≡ some c =
            find_child-grown vfs parent v cur n t h
            ∙ still_found vfs parent v cur n c absent found in
          descend_found (grown vfs parent v) cur n ns c kept
          ∙ descend-grown vfs parent v c ns q t
              (find_child-lt vfs (length vfs) (children_at vfs cur) n c (t.linked cur) found) absent
              (sym (descend_found vfs cur n ns c found) ∙ e)
    ]

-- A search ends at a vnode that exists.
pub descend-lt :
    (vfs : Vfs) (cur : ℕ) (ns : List Name) (q : ℕ)
    → IsTree vfs
    → cur < length vfs
    → descend vfs cur ns ≡ some q
    → q < length vfs
unfolding descend
descend-lt vfs cur [] q t h e = let same : cur ≡ q = cc e in rw same at h
descend-lt vfs cur (n ∷ ns) q t h e = elim (Option-cases (find_child vfs (children_at vfs cur) n)) [
  | inl lost ↦ cc (rw (lost, descend) at e)
  | inr (c, found) ↦
      descend-lt vfs c ns q t
        (find_child-lt vfs (length vfs) (children_at vfs cur) n c (t.linked cur) found)
        (sym (descend_found vfs cur n ns c found) ∙ e)
]

-- The entries after a vnode has been made: one of the old ones, which may have one child more, or
-- the new one.
grown-cases :
    (vfs : Vfs) (parent : ℕ) (v : Vnode) (i : ℕ) (w : Vnode)
    → get_elem? (grown vfs parent v) i ≡ some w
    → (w ≡ v)
      ⊎ ((o : Vnode) × (get_elem? vfs i ≡ some o)
          × (w.kind ≡ o.kind)
          × (w.ops ≡ o.ops)
          × (w.content ≡ o.content))
grown-cases vfs parent v i w e = elim (Bool-cases (ltb i (length vfs))) [
  | inl l ↦
      let (o, eo) = get_some vfs i (ltb→lt _ _ l) in
      let old = get-grown_old vfs parent v i (ltb→lt _ _ l) in
      elim (Bool-cases (parent == i)) [
        | inl q ↦
            let here : get_elem? (grown vfs parent v) i ≡ some (link_child (length vfs) o) =
              rw (q, eo) at old in
            let same : link_child (length vfs) o ≡ w = cc (sym here ∙ e) in
            inr (
              o,
              eo,
              sym (ap (λ k. k.kind) same),
              sym (ap (λ k. k.ops) same),
              sym (ap (λ k. k.content) same),
            )
        | inr q ↦
            let here : get_elem? (grown vfs parent v) i ≡ some o = rw (q, eo) at old in
            let same : o ≡ w = cc (sym here ∙ e) in
            inr (
              o,
              eo,
              sym (ap (λ k. k.kind) same),
              sym (ap (λ k. k.ops) same),
              sym (ap (λ k. k.content) same),
            )
      ]
  | inr l ↦ elim (Bool-cases (i == length vfs)) [
    | inl q ↦
        let last : i ≡ length vfs = ==→eq _ _ q in
        inl (cc (sym (rw last at e) ∙ get-grown_new vfs parent v))
    | inr q ↦
        let len = length-modify vfs parent (link_child (length vfs)) in
        let past : length (modify vfs parent (link_child (length vfs))) < i =
          ground (arith, len, l, q) in
        cc (sym e ∙ get_elem?-append_gt (modify vfs parent (link_child (length vfs))) v i past)
  ]
]

grown-linked :
    (vfs : Vfs) (parent : ℕ) (v : Vnode) (i : ℕ)
    → IsTree vfs
    → v.children ≡ []
    → AllBelow (suc (length vfs)) (children_at (grown vfs parent v) i)
grown-linked vfs parent v i t none_yet = elim (Bool-cases (ltb i (length vfs))) [
  | inl l ↦
      let old =
        AllBelow-mono (length vfs) (suc (length vfs)) (children_at vfs i) (omega arith)
          (t.linked i) in
      rw (children_at-grown vfs parent v i (ltb→lt _ _ l))
        (elim (Bool-cases (parent == i)) [ inl q ↦ rw q (omega arith, old) | inr q ↦ rw q old ])
  | inr l ↦ elim (Bool-cases (i == length vfs)) [
    | inl q ↦
        let last : i ≡ length vfs = ==→eq _ _ q in
        let new : children_at (grown vfs parent v) i ≡ [] =
          ap (children_at (grown vfs parent v)) last
          ∙ ap (λ o. elim o [ none ↦ [] | some w ↦ w.children ]) (get-grown_new vfs parent v)
          ∙ none_yet in
        subst (AllBelow (suc (length vfs))) (sym new) tt
    | inr q ↦
        let len = length-modify vfs parent (link_child (length vfs)) in
        let past : length (modify vfs parent (link_child (length vfs))) < i =
          ground (arith, len, l, q) in
        let nothing : children_at (grown vfs parent v) i ≡ [] =
          ap (λ o. elim o [ none ↦ [] | some w ↦ w.children ])
            (get_elem?-append_gt (modify vfs parent (link_child (length vfs))) v i past) in
        subst (AllBelow (suc (length vfs))) (sym nothing) tt
  ]
]

-- A tree stays one when a vnode without children is made.
pub grown-IsTree :
    (vfs : Vfs) (parent : ℕ) (v : Vnode)
    → IsTree vfs
    → v.children ≡ []
    → (v.kind ≡ Kind.file → v.ops ≡ Ops.tmpfs_file_ops)
    → Fits v.content
    → IsTree (grown vfs parent v)
grown-IsTree vfs parent v t childless ops fits = record {
  rooted = omega (arith, length-grown vfs parent v);
  linked = λ i. rw (length-grown vfs parent v) (grown-linked vfs parent v i t childless);
  files = λ i w e k. elim (grown-cases vfs parent v i w e) [
    | inl same ↦ ap (λ x. x.ops) same ∙ ops (sym (ap (λ x. x.kind) same) ∙ k)
    | inr (o, eo, ek, ep, ec) ↦ ep ∙ t.files i o eo (sym ek ∙ k)
  ];
  fitting = λ i w e. elim (grown-cases vfs parent v i w e) [
    | inl same ↦ rw same fits
    | inr (o, eo, ek, ep, ec) ↦ rw ec (t.fitting i o eo)
  ];
}

pub vnode_create_refused :
    (m : Memory) (vfs : Vfs) (p : ℕ) (n : Name) (k : Kind) (o : Ops)
    → m.node_ok ≡ false
    → vnode_create m vfs p n k o ≡ (vfs, none)
unfolding vnode_create
vnode_create_refused m vfs p n k o e = rw e refl

pub vnode_create_given :
    (m : Memory) (vfs : Vfs) (p : ℕ) (n : Name) (k : Kind) (o : Ops)
    → m.node_ok ≡ true
    → vnode_create m vfs p n k o ≡ (grown vfs p (new_vnode n k o p), some (length vfs))
unfolding vnode_create
vnode_create_given m vfs p n k o e = rw e refl
