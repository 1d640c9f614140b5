-- ===== src/Vfs/Node/Lookup.antt =====
-- Lookups of kernel/fs/vfs.c: a search by path descends the tree name by name, and finds the same
-- after a new child is linked in.
use lithium_kernel.Prelude.{
  ℕ, zero, suc, ◌+◌, ◌-◌, ◌<◌, ◌≡◌, refl, sym, ap, ◌∙◌, ◌≢◌, ◌⊎◌, inl, inr, false, Option, none,
  some, List, [], ◌∷◌, ◌++◌, arith, ◌==◌, if◌then◌else◌, ==→eq, Bool-cases, Option-cases, length,
  take_all,
}
use mathlib.Core.List.{reverse, reverse-cons, reverse-reverse}
use lithium_kernel.Path.{slash, is_nil, part, after_part}
use lithium_kernel.Path.Spec.{Name, split, render, AllNames}
use lithium_kernel.Path.Refine.{split-part}
use lithium_kernel.Path.Normal.{split-append, split-NoSlash}
use lithium_kernel.Vfs.Node.{
  Vfs, find_child, children_at, lookup_from, vfs_lookup, next_token, max_path,
}

-- From a vnode down, one name after the other.
unfoldable pub descend : Vfs → ℕ → List Name → Option ℕ
descend vfs cur [] = some cur
descend vfs cur (n ∷ ns) = elim (find_child vfs (children_at vfs cur) n) [
  | none ↦ none
  | some child ↦ descend vfs child ns
]

-- One step down, where the child is known.
pub descend_found :
    (vfs : Vfs) (cur : ℕ) (n : Name) (ns : List Name) (c : ℕ)
    → find_child vfs (children_at vfs cur) n ≡ some c
    → descend vfs cur (n ∷ ns) ≡ descend vfs c ns
unfolding descend
descend_found vfs cur n ns c e = rw (e, descend) refl

pub descend_missing :
    (vfs : Vfs) (cur : ℕ) (n : Name) (ns : List Name)
    → find_child vfs (children_at vfs cur) n ≡ none
    → descend vfs cur (n ∷ ns) ≡ none
unfolding descend
descend_missing vfs cur n ns e = rw (e, descend) refl

-- Two searches, one after the other.
pub descend-append :
    (vfs : Vfs) (cur : ℕ) (ns ms : List Name) (q : ℕ)
    → descend vfs cur ns ≡ some q
    → descend vfs cur (ns ++ ms) ≡ descend vfs q ms
unfolding descend
descend-append vfs cur [] ms q e = ap (λ i. descend vfs i ms) (cc e)
descend-append vfs cur (n ∷ ns) ms q e =
    elim (Option-cases (find_child vfs (children_at vfs cur) n)) [
      | inl lost ↦ cc (rw (lost, descend) at e)
      | inr (c, found) ↦
          rw (found, descend) (descend-append vfs c ns ms q (rw (found, descend) at e))
    ]

-- Without the empty name that a slash at the end leaves.
abbrev pub trim : List Name → List Name
trim [] = []
trim (n ∷ []) = if is_nil n then [] else n ∷ []
trim (n ∷ m ∷ ns) = n ∷ trim (m ∷ ns)

-- A token is the last one, or a slash and more follow it.
split_token :
    (tok : List ℕ)
    → ((after_part tok ≡ []) × (split tok ≡ part tok ∷ []))
      ⊎ ((r : List ℕ) × (after_part tok ≡ slash ∷ r) × (split tok ≡ part tok ∷ split r))
unfolding part after_part
split_token [] = inl (refl, refl)
split_token (c ∷ s) = elim (Bool-cases (c == slash)) [
  | inl e ↦ inr (s, rw e (ap (λ k. k ∷ s) (==→eq _ _ e)), rw e refl)
  | inr e ↦ elim (split_token s) [
    | inl (a, b) ↦ inl (rw e a, rw (e, b) refl)
    | inr (r, a, b) ↦ inr (r, rw e a, rw (e, b) refl)
  ]
]

trim-cons : (n : Name) (r : List ℕ) → trim (n ∷ split r) ≡ n ∷ trim (split r)
trim-cons n r = let (ws, e, _) = split-part r in rw e refl

part_nonempty :
    (c : ℕ) (s : List ℕ) → split (c ∷ s) ≡ part (c ∷ s) ∷ [] → is_nil (part (c ∷ s)) ≡ false
unfolding part
part_nonempty c s e = elim (Bool-cases (c == slash)) [
  | inl q ↦ let (ws, e', _) = split-part s in cc (rw (q, e') at e)
  | inr q ↦ rw q refl
]

step-congr :
    (o : Option ℕ) (f g : ℕ → Option ℕ)
    → ((c : ℕ) → f c ≡ g c)
    → ◌≡◌ {A = Option ℕ}
        (elim o [ none ↦ none | some c ↦ f c ])
        (elim o [ none ↦ none | some c ↦ g c ])
step-congr none f g h = refl
step-congr (some c) f g h = h c

length-after_part-lt :
    (c : ℕ) (s : List ℕ) → length (next_token (after_part (c ∷ s))) < length (c ∷ s)
unfolding after_part
length-after_part-lt c [] = ground arith
length-after_part-lt c (d ∷ s) = ground (arith, length-after_part-lt d s)

lookup_from_lem :
    (fuel : ℕ) (vfs : Vfs) (cur : ℕ) (tok : List ℕ)
    → length tok < fuel
    → lookup_from fuel vfs cur tok ≡ descend vfs cur (trim (split tok))
unfolding lookup_from descend
lookup_from_lem zero vfs cur tok l = absurd (omega arith)
lookup_from_lem (suc fuel) vfs cur [] l = refl
lookup_from_lem (suc fuel) vfs cur (c ∷ s) l = elim (split_token (c ∷ s)) [
  | inl (a, b) ↦ rw b (
      rw (part_nonempty c s b) (
        step-congr (find_child vfs (children_at vfs cur) (part (c ∷ s)))
          (λ child. lookup_from fuel vfs child (next_token (after_part (c ∷ s))))
          (λ child. some child) (λ child. rw a (lookup_from_lem fuel vfs child [] (omega arith)))))
  | inr (r, a, b) ↦
      let short : length r < fuel = ground (arith, a, length-after_part-lt c s) in
      rw (b, trim-cons (part (c ∷ s)) r)
        (step-congr (find_child vfs (children_at vfs cur) (part (c ∷ s)))
          (λ child. lookup_from fuel vfs child (next_token (after_part (c ∷ s))))
          (λ child. descend vfs child (trim (split r)))
          (λ child. rw a (lookup_from_lem fuel vfs child r short)))
]

-- `vfs_lookup` of a path shorter than the buffer fails unless the path starts with a slash, and
-- otherwise descends from the root by the names between the slashes; one slash at the end is
-- ignored, and every other empty name is looked up like any name.
pub vfs_lookup_lem :
    (vfs : Vfs) (c : ℕ) (s : List ℕ)
    → length s + 1 < max_path
    → vfs_lookup vfs (c ∷ s) ≡ (if c == slash then descend vfs 0 (trim (split s)) else none)
unfolding vfs_lookup
vfs_lookup_lem vfs c s l = rw (take_all (max_path - 1) s (omega arith)) (
    ap (λ o. if c == slash then o else none)
      (lookup_from_lem (suc (length s)) vfs 0 s (omega arith)))

trim-names : (ns : List Name) → AllNames ns → trim ns ≡ ns
trim-names [] h = refl
trim-names (n ∷ []) h = rw h.0.nonempty refl
trim-names (n ∷ m ∷ ns) h = ap (◌∷◌ n) (trim-names (m ∷ ns) h.1)

-- The words of a normal path are its names.
split-render :
    (n : Name) (st : List Name)
    → AllNames (n ∷ st)
    → split (render (n ∷ st)) ≡ [] ∷ reverse (n ∷ st)
split-render n [] h = ap (◌∷◌ []) (split-NoSlash n h.0.plain)
split-render n (m ∷ st) h =
    split-append (render (m ∷ st)) n
    ∙ rw (split-render m st h.1, split-NoSlash n h.0.plain)
        (ap (◌∷◌ []) (sym (reverse-cons n (m ∷ st))))

AllNames-append : (xs ys : List Name) → AllNames xs → AllNames ys → AllNames (xs ++ ys)
AllNames-append [] ys h k = k
AllNames-append (x ∷ xs) ys h k = (h.0, AllNames-append xs ys h.1 k)

AllNames-reverse : (st : List Name) → AllNames st → AllNames (reverse st)
AllNames-reverse [] h = tt
AllNames-reverse (n ∷ st) h =
    rw (reverse-cons n st)
      (AllNames-append (reverse st) (n ∷ []) (AllNames-reverse st h.1) (h.0, tt))

-- A path is a slash and its words.
lookup_words :
    (vfs : Vfs) (path : List ℕ) (ws : List Name)
    → length path < max_path
    → split path ≡ [] ∷ ws
    → ws ≢ []
    → vfs_lookup vfs path ≡ descend vfs 0 (trim ws)
lookup_words vfs [] ws l e h = let z : ws ≡ [] = cc e in absurd (h z)
lookup_words vfs (c ∷ s) ws l e h = elim (Bool-cases (c == slash)) [
  | inl q ↦
      let words : split s ≡ ws = cc (rw q at e) in
      vfs_lookup_lem vfs c s (omega arith) ∙ rw q (ap (λ k. descend vfs 0 (trim k)) words)
  | inr q ↦ let (vs, e', _) = split-part s in cc (rw (q, e') at e)
]

-- The path of a stack of names, as path resolution returns it, is looked up name by name from the
-- root, the outermost first.
pub vfs_lookup-render :
    (vfs : Vfs) (st : List Name)
    → AllNames st
    → length (render st) < max_path
    → vfs_lookup vfs (render st) ≡ descend vfs 0 (reverse st)
unfolding descend
vfs_lookup-render vfs [] h l = vfs_lookup_lem vfs slash [] (omega arith)
vfs_lookup-render vfs (n ∷ st) h l =
    lookup_words vfs (render (n ∷ st)) (reverse (n ∷ st)) l (split-render n st h)
      (λ z. cc (sym (reverse-reverse (n ∷ st)) ∙ ap reverse z))
    ∙ ap (descend vfs 0) (trim-names (reverse (n ∷ st)) (AllNames-reverse (n ∷ st) h))
