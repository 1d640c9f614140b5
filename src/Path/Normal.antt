-- ===== src/Path/Normal.antt =====
-- The results of normalize_absolute_path (kernel/syscall/syscall.c) are in normal form.
use lithium_kernel.Prelude.{
  ℕ, ◌+◌, ◌≤◌, ◌≡◌, refl, sym, ap, ◌∙◌, ◌≢◌, inl, inr, true, false, Option, none, some, List, [],
  ◌∷◌, ◌++◌, arith, ltb, ◌==◌, if◌then◌else◌, lt→ltb, Bool-cases, length, length-append,
}
use mathlib.Core.Path.{subst}
use mathlib.Core.List.{reverse, reverse-cons}
use lithium_kernel.Path.{
  slash, is_nil, is_dot, is_dot_dot, normalize_absolute_path, starts_with_slash, resolve_path,
  max_path,
}
use lithium_kernel.Path.Spec.{
  Name, cons_head, split, drop_empty, components, render, parent, walk, NoSlash, IsName, AllNames,
}
use lithium_kernel.Path.Refine.{
  length-render, split-part, render_of, normalize_absolute_path_lem, AllNames-parent,
}

-- Words as `split` gives them: without slashes.
abbrev AllPlain : List Name → Type 0
AllPlain [] = Unit {0}
AllPlain (w ∷ ws) = NoSlash w × AllPlain ws

abbrev AllFilled : List Name → Type 0
AllFilled [] = Unit {0}
AllFilled (w ∷ ws) = NoSlash w × (is_nil w ≡ false) × AllFilled ws

cons_head-AllPlain : (c : ℕ) (ws : List Name) → c ≢ slash → AllPlain ws → AllPlain (cons_head c ws)
cons_head-AllPlain c [] n h = ((n, tt), tt)
cons_head-AllPlain c (w ∷ ws) n h = ((n, h.0), h.1)

split-AllPlain : (s : List ℕ) → AllPlain (split s)
split-AllPlain [] = (tt, tt)
split-AllPlain (c ∷ s) = elim (Bool-cases (c == slash)) [
  | inl e ↦ rw e (tt, split-AllPlain s)
  | inr e ↦ rw e (cons_head-AllPlain c (split s) (ground arith) (split-AllPlain s))
]

drop_empty-AllFilled : (ws : List Name) → AllPlain ws → AllFilled (drop_empty ws)
drop_empty-AllFilled [] h = tt
drop_empty-AllFilled (w ∷ ws) h = elim (Bool-cases (is_nil w)) [
  | inl e ↦ rw e (drop_empty-AllFilled ws h.1)
  | inr e ↦ rw e (h.0, e, drop_empty-AllFilled ws h.1)
]

-- A stack that a walk may stand at: of names, and short enough.
record IsPlace (cap : ℕ) (st : List Name) : Type 0 where
  names : AllNames st
  fits : length (render st) + 1 ≤ cap

render-parent-le : (st : List Name) → length (render (parent st)) ≤ length (render st)
render-parent-le [] = omega arith
render-parent-le (n ∷ []) = omega arith
render-parent-le (n ∷ m ∷ st) = omega (arith, length-append (render (m ∷ st)) (slash ∷ n))

walk-IsPlace :
    (cap : ℕ) (st ns end : List Name)
    → AllFilled ns
    → IsPlace cap st
    → walk cap st ns ≡ some end
    → IsPlace cap end
walk-IsPlace cap st [] end f v e = subst (IsPlace cap) (cc e) v
walk-IsPlace cap st (n ∷ ns) end f v e = elim (Bool-cases (is_dot n)) [
  | inl d ↦ walk-IsPlace cap st ns end f.2 v (rw d at e)
  | inr d ↦ elim (Bool-cases (is_dot_dot n)) [
    | inl dd ↦
        walk-IsPlace cap (parent st) ns end f.2
          (record {
            names = AllNames-parent st v.names;
            fits = omega (arith, render-parent-le st, v.fits);
          })
          (rw (d, dd) at e)
    | inr dd ↦ elim (Bool-cases (ltb cap (length (render (n ∷ st)) + 1))) [
      | inl full ↦ cc (rw (d, dd, full) at e)
      | inr room ↦
          walk-IsPlace cap (n ∷ st) ns end f.2
            (record {
              names =
                  (record { nonempty = f.1; plain = f.0; not_dot = d; not_dot_dot = dd }, v.names);
              fits = ground arith;
            })
            (rw (d, dd, room) at e)
    ]
  ]
]

pub split-NoSlash : (n : Name) → NoSlash n → split n ≡ n ∷ []
split-NoSlash [] h = refl
split-NoSlash (c ∷ n) h = ground (arith, h.0, split-NoSlash n h.1)

pub split-append : (xs ys : List ℕ) → split (xs ++ slash ∷ ys) ≡ split xs ++ split ys
split-append [] ys = refl
split-append (c ∷ xs) ys = let (ws, e, _) = split-part xs in ground (arith, e, split-append xs ys)

drop_empty-append : (xs ys : List Name) → drop_empty (xs ++ ys) ≡ drop_empty xs ++ drop_empty ys
drop_empty-append [] ys = refl
drop_empty-append (x ∷ xs) ys = ground (arith, drop_empty-append xs ys)

components-name : (n : Name) → IsName n → components n ≡ n ∷ []
components-name n v = rw (split-NoSlash n v.plain, v.nonempty) refl

-- Reading a rendered stack gives its names back, the outermost first.
pub components-render : (st : List Name) → AllNames st → components (render st) ≡ reverse st
components-render [] h = refl
components-render (n ∷ []) h = components-name n h.0
components-render (n ∷ m ∷ st) h =
    ap drop_empty (split-append (render (m ∷ st)) n)
    ∙ drop_empty-append (split (render (m ∷ st))) (split n)
    ∙ rw (components-name n h.0) (ap (λ ns. ns ++ n ∷ []) (components-render (m ∷ st) h.1))
    ∙ sym (reverse-cons n (m ∷ st))

-- A walk over two lists of names is a walk over the second from where the first ends.
walk-append :
    (cap : ℕ) (st ns mid ms : List Name)
    → walk cap st ns ≡ some mid
    → walk cap st (ns ++ ms) ≡ walk cap mid ms
walk-append cap st [] mid ms e = ap (λ s. walk cap s ms) (cc e)
walk-append cap st (m ∷ ns) mid ms e = ground (
  arith,
  walk-append cap st ns mid ms,
  walk-append cap (parent st) ns mid ms,
  walk-append cap (m ∷ st) ns mid ms,
)

-- Walking the names of a short enough stack from the root leads back to it.
walk-reverse : (cap : ℕ) (st : List Name) → IsPlace cap st → walk cap [] (reverse st) ≡ some st
walk-reverse cap [] v = refl
walk-reverse cap (n ∷ st) v =
    let outer : IsPlace cap st = record {
      names = v.names.1;
      fits = omega (arith, render-parent-le (n ∷ st), v.fits);
    } in
    ap (walk cap []) (reverse-cons n st)
    ∙ walk-append cap [] (reverse st) st (n ∷ []) (walk-reverse cap st outer)
    ∙ ground (arith, v.names.0.not_dot, v.names.0.not_dot_dot, v.fits)

-- The path of a stack of names that fits the buffer.
pub record IsNormal (cap : ℕ) (path : List ℕ) (st : List Name) : Type 0 where
  pub path_of : path ≡ render st
  pub names : AllNames st
  pub fits : length path + 1 ≤ cap

walked :
    (input : List ℕ) (cap : ℕ) {path : List ℕ}
    → normalize_absolute_path input cap ≡ some path
    → (2 ≤ cap) × (render_of (walk cap [] (components input)) ≡ some path)
walked input cap e = ground (arith, normalize_absolute_path_lem input cap)

rendered :
    (cap : ℕ) (ns : List Name) (o : Option (List Name)) (path : List ℕ)
    → 2 ≤ cap
    → AllFilled ns
    → walk cap [] ns ≡ o
    → render_of o ≡ some path
    → (st : List Name) × IsNormal cap path st
rendered cap ns none path h f e r = cc r
rendered cap ns (some st) path h f e r =
    let v = walk-IsPlace cap [] ns st f (record { names = tt; fits = omega arith }) e in
    let same : path ≡ render st = cc r in
    (st, record { path_of = same; names = v.names; fits = rw same v.fits })

-- What `normalize_absolute_path` returns is the path of a stack of names, each one nonempty, without
-- a slash and neither `.` nor `..`, and it fits the buffer with its terminator.
pub normalize_absolute_path-IsNormal :
    (input : List ℕ) (cap : ℕ) (path : List ℕ)
    → normalize_absolute_path input cap ≡ some path
    → (st : List Name) × IsNormal cap path st
normalize_absolute_path-IsNormal input cap path e =
    let (h, r) = walked input cap e in
    rendered cap (components input) (walk cap [] (components input)) path h
      (drop_empty-AllFilled (split input) (split-AllPlain input)) refl r

starts-append : (xs ys : List ℕ) → starts_with_slash xs ≡ true → starts_with_slash (xs ++ ys) ≡ true
starts-append [] ys h = cc
starts-append (x ∷ xs) ys h = h

pub render-starts : (st : List Name) → starts_with_slash (render st) ≡ true
render-starts [] = refl
render-starts (n ∷ []) = refl
render-starts (n ∷ m ∷ st) = starts-append (render (m ∷ st)) (slash ∷ n) (render-starts (m ∷ st))

-- Normalising twice is normalising once: a path that `normalize_absolute_path` returned is returned
-- unchanged when it is normalised again for the same buffer.
pub normalize_absolute_path_idem :
    (input : List ℕ) (cap : ℕ) (path : List ℕ)
    → normalize_absolute_path input cap ≡ some path
    → normalize_absolute_path path cap ≡ some path
normalize_absolute_path_idem input cap path e =
    let (h, _) = walked input cap e in
    let (st, v) = normalize_absolute_path-IsNormal input cap path e in
    rw v.path_of (
      normalize_absolute_path_lem (render st) cap
      ∙ rw (render-starts st, components-render st v.names)
          (ground (
            arith,
            walk-reverse cap st
                (record { names = v.names; fits = ground (arith, v.fits, v.path_of) }),
          )))

-- The names of a path put behind a working directory.
components-behind :
    (st : List Name) (path : List ℕ)
    → AllNames st
    → components (render st ++ ((if ltb 1 (length (render st)) then slash ∷ [] else []) ++ path))
      ≡ reverse st ++ components path
components-behind [] path h = refl
components-behind (n ∷ st) path h =
    let long : ltb 1 (length (render (n ∷ st))) ≡ true =
      lt→ltb _ _ (length-render n st h.0.nonempty) in
    rw long (
      ap drop_empty (split-append (render (n ∷ st)) path)
      ∙ drop_empty-append (split (render (n ∷ st))) (split path)
      ∙ ap (λ ns. ns ++ components path) (components-render (n ∷ st) h))

-- A relative path is resolved from the working directory: where that is the path of a stack of names
-- and the two fit 256 bytes with their slash and terminator, the result is the path that the walk
-- over the names of `path` from that stack ends in, and a failure where that walk fails.
pub resolve_path_relative :
    (st : List Name) (path : List ℕ) (out_size : ℕ)
    → AllNames st
    → length (render st) + 1 ≤ out_size
    → 2 ≤ out_size
    → is_nil path ≡ false
    → starts_with_slash path ≡ false
    → length (render st) + length path + 2 ≤ max_path
    → resolve_path (render st) path out_size ≡ render_of (walk out_size st (components path))
unfolding resolve_path
resolve_path_relative st path out_size h fits two nonempty relative room =
    let small : ltb max_path
          (length (render st) + (if ltb 1 (length (render st)) then 1 else 0) + length path + 1)
        ≡ false =
      ground arith in
    rw (nonempty, relative, small)
      (normalize_absolute_path_lem _ out_size
        ∙ rw
            (
              starts-append (render st) _ (render-starts st),
              components-behind st path h,
              walk-append out_size [] (reverse st) st (components path)
                  (walk-reverse out_size st (record { names = h; fits = fits })),
            )
            (ground arith))
