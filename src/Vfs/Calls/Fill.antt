-- ===== src/Vfs/Calls/Fill.antt =====
-- What filling a file does to the tree of kernel/fs/vfs.c: one vnode changes, the tree stays.
use lithium_kernel.Prelude.{
  ℕ, zero, suc, ◌+◌, ◌^◌, ◌<◌, ◌≡◌, refl, sym, ap, ◌∙◌, ◌≢◌, ◌⊎◌, inl, inr, Bool, true, false,
  Option, none, some, List, [], ◌∷◌, ◌++◌, arith, ◌==◌, if◌then◌else◌, ==→eq, Bool-cases,
  Option-cases, length, get_elem?, take, drop, take_all,
}
use mathlib.Core.Path.{subst, ap₂}
use mathlib.Core.List.{append-nil}
use lithium_kernel.Path.Spec.{Name}
use lithium_kernel.Vfs.Tmpfs.{TmpFile, Memory, tmpfs_write}
use lithium_kernel.Vfs.Tmpfs.Content.{
  Fits, content, tmpfs_write_lem, tmpfs_write_succeeds, length-read_bytes,
}
use lithium_kernel.Vfs.Node.{Kind, Vnode, Vfs, name_at, children_at, has_name, find_child, modify}
use lithium_kernel.Vfs.Node.Names.{AllBelow, IsTree, get_elem?-modify, length-modify}
use lithium_kernel.Vfs.Node.Lookup.{descend}
use lithium_kernel.Vfs.Calls.{same_int, truncate, write_content, fill_file}

-- The same vnode but for its contents.
pub record Keeps (v w : Vnode) : Type 0 where
  pub name : w.name ≡ v.name
  pub kind : w.kind ≡ v.kind
  pub ops : w.ops ≡ v.ops
  pub children : w.children ≡ v.children

-- The same tree but for the contents of files.
pub record SameTree (vfs vfs' : Vfs) : Type 0 where
  pub names : (i : ℕ) → name_at vfs' i ≡ name_at vfs i
  pub links : (i : ℕ) → children_at vfs' i ≡ children_at vfs i

find_child-SameTree :
    (vfs vfs' : Vfs) (cs : List ℕ) (tok : Name)
    → SameTree vfs vfs'
    → find_child vfs' cs tok ≡ find_child vfs cs tok
unfolding find_child
find_child-SameTree vfs vfs' [] tok s = refl
find_child-SameTree vfs vfs' (c ∷ cs) tok s =
    ap₂ (λ n o. if has_name tok n then some c else o) (s.names c)
      (find_child-SameTree vfs vfs' cs tok s)

pub descend-SameTree :
    (vfs vfs' : Vfs) (cur : ℕ) (ns : List Name)
    → SameTree vfs vfs'
    → descend vfs' cur ns ≡ descend vfs cur ns
unfolding descend
descend-SameTree vfs vfs' cur [] s = refl
descend-SameTree vfs vfs' cur (n ∷ ns) s =
    let child : find_child vfs' (children_at vfs' cur) n ≡ find_child vfs (children_at vfs cur) n =
      ap (λ cs. find_child vfs' cs n) (s.links cur)
      ∙ find_child-SameTree vfs vfs' (children_at vfs cur) n s in
    elim (Option-cases (find_child vfs (children_at vfs cur) n)) [
      | inl lost ↦ rw (child, lost, descend) refl
      | inr (c, found) ↦ rw (child, found, descend) (descend-SameTree vfs vfs' c ns s)
    ]

get-modify_other :
    (vfs : Vfs) (i j : ℕ) (f : Vnode → Vnode)
    → (i == j) ≡ false
    → get_elem? (modify vfs i f) j ≡ get_elem? vfs j
get-modify_other vfs i j f q = get_elem?-modify vfs i j f ∙ rw q refl

pub get-modify_self :
    (vfs : Vfs) (i : ℕ) (f : Vnode → Vnode) (v : Vnode)
    → get_elem? vfs i ≡ some v
    → get_elem? (modify vfs i f) i ≡ some (f v)
get-modify_self vfs i f v e = ground (arith, get_elem?-modify vfs i i f, e)

abbrev name_of : Option Vnode → Option Name
name_of o = elim o [ none ↦ none | some w ↦ some w.name ]

abbrev links_of : Option Vnode → List ℕ
links_of o = elim o [ none ↦ [] | some w ↦ w.children ]

-- Changing the contents of a vnode keeps names and links.
pub modify-SameTree :
    (vfs : Vfs) (i : ℕ) (f : Vnode → Vnode) (v : Vnode)
    → get_elem? vfs i ≡ some v
    → Keeps v (f v)
    → SameTree vfs (modify vfs i f)
modify-SameTree vfs i f v e k = record {
  names = λ j. elim (Bool-cases (i == j)) [
    | inr q ↦ ap name_of (get-modify_other vfs i j f q)
    | inl q ↦
        let same : i ≡ j = ==→eq _ _ q in
        subst (λ n. name_at (modify vfs i f) n ≡ name_at vfs n) same
          (ap name_of (get-modify_self vfs i f v e) ∙ ap some k.name ∙ sym (ap name_of e))
  ];
  links = λ j. elim (Bool-cases (i == j)) [
    | inr q ↦ ap links_of (get-modify_other vfs i j f q)
    | inl q ↦
        let same : i ≡ j = ==→eq _ _ q in
        subst (λ n. children_at (modify vfs i f) n ≡ children_at vfs n) same
          (ap links_of (get-modify_self vfs i f v e) ∙ k.children ∙ sym (ap links_of e))
  ];
}

-- An entry afterwards is the changed one, or one of the others.
modify-cases :
    (vfs : Vfs) (i j : ℕ) (f : Vnode → Vnode) (v w : Vnode)
    → get_elem? vfs i ≡ some v
    → get_elem? (modify vfs i f) j ≡ some w
    → (w ≡ f v) ⊎ (get_elem? vfs j ≡ some w)
modify-cases vfs i j f v w e ew = elim (Bool-cases (i == j)) [
  | inr q ↦ inr (sym (get-modify_other vfs i j f q) ∙ ew)
  | inl q ↦
      let same : i ≡ j = ==→eq _ _ q in
      let here : get_elem? (modify vfs i f) j ≡ some (f v) =
        subst (λ n. get_elem? (modify vfs i f) n ≡ some (f v)) same (get-modify_self vfs i f v e) in
      inl (cc (sym here ∙ ew))
]

-- A tree stays one when the contents of a vnode change and fit their buffer.
pub modify-IsTree :
    (vfs : Vfs) (i : ℕ) (f : Vnode → Vnode) (v : Vnode)
    → IsTree vfs
    → get_elem? vfs i ≡ some v
    → Keeps v (f v)
    → Fits (f v).content
    → IsTree (modify vfs i f)
modify-IsTree vfs i f v t e k fits = record {
  rooted = omega (arith, t.rooted, length-modify vfs i f);
  linked = λ j.
      rw (length-modify vfs i f) (
        subst (AllBelow (length vfs)) (sym ((modify-SameTree vfs i f v e k).links j)) (t.linked j));
  files = λ j w ew file. elim (modify-cases vfs i j f v w e ew) [
    | inr old ↦ t.files j w old file
    | inl new ↦
        ap (λ x. x.ops) new ∙ k.ops ∙ t.files i v e (sym k.kind ∙ sym (ap (λ x. x.kind) new) ∙ file)
  ];
  fitting = λ j w ew. elim (modify-cases vfs i j f v w e ew) [
    | inr old ↦ t.fitting j w old
    | inl new ↦ rw new fits
  ];
}

-- A file that holds just the bytes.
pub record Holds (bytes : List ℕ) (v : Vnode) : Type 0 where
  pub content : content v.content ≡ bytes
  pub size : v.size ≡ length bytes

-- What a call that fills a file leaves: the same tree, the file, and the bytes in it if it succeeds,
-- which it does when memory is given.
pub record Filled (m : Memory) (vfs : Vfs) (i : ℕ) (bytes : List ℕ) (result : Vfs × Bool)
    : Type 0 where
  pub tree : IsTree result.0
  pub same : SameTree vfs result.0
  pub entry : Vnode
  pub at : get_elem? result.0 i ≡ some entry
  pub file : entry.kind ≡ Kind.file
  pub holds : result.1 ≡ true → Holds bytes entry
  pub succeeds : m.file_ok ≡ true → m.buffer_ok ≡ true → result.1 ≡ true

truncate-content : (v : Vnode) → content (truncate v).content ≡ []
truncate-content v = elim (Option-cases v.content) [ inl e ↦ rw e refl | inr (f, e) ↦ rw e refl ]

truncate-Fits : (v : Vnode) → Fits (truncate v).content
truncate-Fits v = elim (Option-cases v.content) [
  | inl e ↦ rw e tt
  | inr (f, e) ↦ rw e (omega arith)
]

SameTree-trans : (a b c : Vfs) → SameTree a b → SameTree b c → SameTree a c
SameTree-trans a b c s t = record {
  names = λ i. t.names i ∙ s.names i;
  links = λ i. t.links i ∙ s.links i;
}

-- Writing from the start of an empty file.
record Rewritten (m : Memory) (v : Vnode) (buf : List ℕ) (result : Vnode × Option ℕ) : Type 0 where
  keeps : Keeps v result.0
  fits : Fits result.0.content
  holds : result.1 ≢ none → (result.1 ≡ some (length buf)) × Holds buf result.0
  succeeds : m.file_ok ≡ true → m.buffer_ok ≡ true → result.1 ≡ some (length buf)

abbrev size_from : Vnode → Option TmpFile → ℕ
size_from v none = v.size
size_from v (some f) = f.size

size_from_lem : (v : Vnode) (o : Option TmpFile) → v.size ≡ 0 → size_from v o ≡ length (content o)
size_from_lem v none z = z
size_from_lem v (some f) z = sym (length-read_bytes f.bytes 0 f.size)

drop-nil : (n : ℕ) → ◌≡◌ {A = List ℕ} (drop n []) []
drop-nil zero = refl
drop-nil (suc n) = refl

write_content-Rewritten :
    (m : Memory) (v : Vnode) (buf : List ℕ)
    → Fits v.content
    → content v.content ≡ []
    → v.size ≡ 0
    → length buf < 2 ^ 30
    → Rewritten m v buf (write_content m v buf 0)
unfolding write_content
write_content-Rewritten m v buf h e z small = record {
  keeps = record { name = refl; kind = refl; ops = refl; children = refl };
  fits = (tmpfs_write_lem m v.content buf 0 h (omega arith) (omega arith)).0;
  holds = λ some_result. elim (tmpfs_write_lem m v.content buf 0 h (omega arith) (omega arith)).1 [
    | inl (failed, _) ↦ absurd (some_result failed)
    | inr (done, bytes) ↦
        let all : content (tmpfs_write m v.content buf 0).0 ≡ buf =
          bytes
          ∙ ap (λ k. take 0 k ++ (buf ++ drop (0 + length buf) k)) e
          ∙ ap (λ n. buf ++ drop n []) (omega arith)
          ∙ ap (◌++◌ buf) (drop-nil (length buf))
          ∙ append-nil buf in
        (
          done,
          record {
            content = all;
            size =
                ap
                  (λ r. elim r [
                    | none ↦ v.size
                    | some n ↦ size_from v (tmpfs_write m v.content buf 0).0
                  ])
                  done
                ∙ size_from_lem v (tmpfs_write m v.content buf 0).0 z
                ∙ ap length all;
          },
        )
  ];
  succeeds = λ f b. tmpfs_write_succeeds m v.content buf 0 f b small;
}

Keeps-truncate : (v : Vnode) → Keeps v (truncate v)
Keeps-truncate v = record { name = refl; kind = refl; ops = refl; children = refl }

-- The step of `fill_file` that writes.
fill_file-write :
    (m : Memory) (vfs : Vfs) (i : ℕ) (v : Vnode) (b : ℕ) (bs : List ℕ)
    → get_elem? vfs i ≡ some v
    → fill_file m vfs i (some (b ∷ bs)) (length (b ∷ bs)) ≡ (
        let (w, r) = write_content m (truncate v) (b ∷ bs) 0 in
        (modify (modify vfs i truncate) i (λ _. w), same_int r (length (b ∷ bs))))
unfolding fill_file
fill_file-write m vfs i v b bs e =
    let here = get-modify_self vfs i truncate v e in
    let some_bytes : (suc (length bs) == 0) ≡ false = ground arith in
    let taken = take (length (b ∷ bs)) (b ∷ bs) in
    elim (Option-cases (write_content m (truncate v) taken 0).1) [
      | inl q ↦ rw (some_bytes, here, q) refl
      | inr (n, q) ↦ rw (some_bytes, here, q) refl
    ]
    ∙ ap
        (λ buf.
          let (w, r) = write_content m (truncate v) buf 0 in
          (modify (modify vfs i truncate) i (λ _. w), same_int r (length (b ∷ bs))))
        (take_all (length (b ∷ bs)) (b ∷ bs) (omega arith))

written-Filled :
    (m : Memory) (vfs : Vfs) (i : ℕ) (v : Vnode) (bytes : List ℕ) (result : Vnode × Option ℕ)
    → IsTree vfs
    → get_elem? vfs i ≡ some v
    → v.kind ≡ Kind.file
    → length bytes < 2 ^ 30
    → Rewritten m v bytes result
    → Filled m vfs i bytes (modify vfs i (λ _. result.0), same_int result.1 (length bytes))
written-Filled m vfs i v bytes (w, r) t e k small s = record {
  tree = modify-IsTree vfs i (λ _. w) v t e s.keeps s.fits;
  same = modify-SameTree vfs i (λ _. w) v e s.keeps;
  entry = w;
  at = get-modify_self vfs i (λ _. w) v e;
  file = s.keeps.kind ∙ k;
  holds = λ done. elim (Option-cases r) [
    | inl q ↦ absurd (ground (arith, rw q at done))
    | inr (n, q) ↦ (s.holds (λ z. cc (sym q ∙ z))).1
  ];
  succeeds = λ f b. rw (s.succeeds f b) (ground arith);
}

Filled-from :
    (m : Memory) (vfs vfs' : Vfs) (i : ℕ) (bytes : List ℕ) (result : Vfs × Bool)
    → SameTree vfs vfs'
    → Filled m vfs' i bytes result
    → Filled m vfs i bytes result
Filled-from m vfs vfs' i bytes result s f = record {
  tree = f.tree;
  same = SameTree-trans vfs vfs' result.0 s f.same;
  entry = f.entry;
  at = f.at;
  file = f.file;
  holds = f.holds;
  succeeds = f.succeeds;
}

-- Filling a file with bytes.
pub fill_file-Filled :
    (m : Memory) (vfs : Vfs) (i : ℕ) (v : Vnode) (bytes : List ℕ)
    → IsTree vfs
    → get_elem? vfs i ≡ some v
    → v.kind ≡ Kind.file
    → length bytes < 2 ^ 30
    → Filled m vfs i bytes (fill_file m vfs i (some bytes) (length bytes))
unfolding fill_file
fill_file-Filled m vfs i v [] t e k small = record {
  tree = modify-IsTree vfs i truncate v t e (Keeps-truncate v) (truncate-Fits v);
  same = modify-SameTree vfs i truncate v e (Keeps-truncate v);
  entry = truncate v;
  at = get-modify_self vfs i truncate v e;
  file = k;
  holds = λ _. record { content = truncate-content v; size = refl };
  succeeds = λ _ _. refl;
}
fill_file-Filled m vfs i v (b ∷ bs) t e k small = rw (fill_file-write m vfs i v b bs e) (
    Filled-from m vfs (modify vfs i truncate) i (b ∷ bs) _
      (modify-SameTree vfs i truncate v e (Keeps-truncate v))
      (written-Filled m (modify vfs i truncate) i (truncate v) (b ∷ bs)
        (write_content m (truncate v) (b ∷ bs) 0)
        (modify-IsTree vfs i truncate v t e (Keeps-truncate v) (truncate-Fits v))
        (get-modify_self vfs i truncate v e) k small
        (write_content-Rewritten m (truncate v) (b ∷ bs) (truncate-Fits v) (truncate-content v) refl
          small)))
