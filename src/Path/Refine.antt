-- ===== src/Path/Refine.antt =====
-- normalize_absolute_path of kernel/syscall/syscall.c computes the walk of Path.Spec.
use lithium_kernel.Prelude.{
  ℕ, zero, suc, ◌+◌, ◌≤◌, ◌<◌, ◌≡◌, refl, sym, ap, ◌∙◌, ◌≢◌, inl, inr, true, false, not, ◌||◌,
  Option, none, some, List, [], ◌∷◌, ◌++◌, arith, ltb, ◌==◌, if◌then◌else◌, Bool-cases, length,
  get_or, length-append, take_append,
}
use lithium_kernel.Path.{
  slash, is_nil, is_dot, is_dot_dot, pop_name, path_pop, path_push, skip_slashes, part, after_part,
  normalize_from, normalize_absolute_path, starts_with_slash,
}
use lithium_kernel.Path.Spec.{
  Name, split, drop_empty, components, render, parent, walk, NoSlash, AllNames,
}

get_or-append : (xs ys : List ℕ) (i : ℕ) → get_or (xs ++ ys) (length xs + i) 0 ≡ get_or ys i 0
get_or-append [] ys i = ap (λ k. get_or ys k 0) (omega arith)
get_or-append (x ∷ xs) ys i =
    let e : suc (length xs) + i ≡ suc (length xs + i) = omega arith in rw e (get_or-append xs ys i)

get_or-NoSlash : (n : Name) (k : ℕ) → NoSlash n → k < length n → get_or n k 0 ≢ slash
get_or-NoSlash [] k h l = elim l [ ]
get_or-NoSlash (c ∷ n) zero h l = h.0
get_or-NoSlash (c ∷ n) (suc k) h l = get_or-NoSlash n k h.1 (omega arith)

-- The loop walks back over a name without slashes, to just behind the slash before it.
pop_name_lem :
    (xs n : List ℕ) (k : ℕ)
    → NoSlash n
    → k ≤ length n
    → pop_name (xs ++ slash ∷ n) (suc (length xs + k)) ≡ suc (length xs)
unfolding pop_name
pop_name_lem xs n zero h l =
    let e : length xs + 0 ≡ length xs = omega arith in
    ground (arith, e, get_or-append xs (slash ∷ n) 0)
pop_name_lem xs n (suc k) h l =
    let e : length xs + suc k ≡ suc (length xs + k) = omega arith in
    rw e (
      ground (
        arith,
        e,
        get_or-append xs (slash ∷ n) (suc k),
        get_or-NoSlash n k h (omega arith),
        pop_name_lem xs n k h (omega arith),
      ))

pub length-render : (n : Name) (st : List Name) → is_nil n ≡ false → 1 < length (render (n ∷ st))
length-render [] st h = cc
length-render (c ∷ n) [] h = omega arith
length-render (c ∷ n) (m ∷ st) h = omega (arith, length-append (render (m ∷ st)) (slash ∷ c ∷ n))

pub render_pos : (st : List Name) → 0 < length (render st)
render_pos [] = omega arith
render_pos (n ∷ []) = omega arith
render_pos (n ∷ m ∷ st) = omega (arith, length-append (render (m ∷ st)) (slash ∷ n))

path_pop-append :
    (xs n : List ℕ)
    → NoSlash n
    → is_nil n ≡ false
    → path_pop (xs ++ slash ∷ n) ≡ (if ltb 0 (length xs) then xs else slash ∷ [])
unfolding path_pop
path_pop-append xs [] h e = cc
path_pop-append [] (c ∷ n) h e =
    let zero_add : 0 + length (c ∷ n) ≡ length (c ∷ n) = omega arith in
    let back = pop_name_lem [] (c ∷ n) (length (c ∷ n)) h (omega arith) in
    ground (arith, back, ap (λ k. pop_name (slash ∷ c ∷ n) (suc k)) zero_add)
path_pop-append (x ∷ xs) (c ∷ n) h e =
    let len : length ((x ∷ xs) ++ slash ∷ c ∷ n) ≡ suc (length (x ∷ xs) + length (c ∷ n)) =
      omega (arith, length-append (x ∷ xs) (slash ∷ c ∷ n)) in
    let back = pop_name_lem (x ∷ xs) (c ∷ n) (length (c ∷ n)) h (omega arith) in
    rw (len, back) (ground (arith, take_append (x ∷ xs) (slash ∷ c ∷ n)))

-- `path_pop` takes the innermost name off.
path_pop-render : (st : List Name) → AllNames st → path_pop (render st) ≡ render (parent st)
unfolding path_pop
path_pop-render [] h = refl
path_pop-render (n ∷ []) h = path_pop-append [] n h.0.plain h.0.nonempty
path_pop-render (n ∷ m ∷ st) h =
    path_pop-append (render (m ∷ st)) n h.0.plain h.0.nonempty ∙ ground (arith, render_pos (m ∷ st))

-- `path_push` puts a name on, if the longer path fits.
path_push-render :
    (st : List Name) (cap : ℕ) (n : Name)
    → AllNames st
    → is_nil n ≡ false
    → path_push (render st) cap n
      ≡ (if ltb cap (length (render (n ∷ st)) + 1) then none else some (render (n ∷ st)))
unfolding path_push
path_push-render [] cap n h e = ground arith
path_push-render (m ∷ st) cap n h e =
    ground (arith, length-render m st h.0.nonempty, length-append (render (m ∷ st)) (slash ∷ n))

pub split-part :
    (p : List ℕ)
    → (ws : List Name) × (split p ≡ part p ∷ ws) × (drop_empty ws ≡ components (after_part p))
unfolding part after_part
split-part [] = ([], refl, refl)
split-part (c ∷ p) = elim (Bool-cases (c == slash)) [
  | inl e ↦ (split p, rw e refl, rw (e, e) refl)
  | inr e ↦ let (ws, q, r) = split-part p in (ws, rw (e, q) refl, rw e r)
]

components-skip : (p : List ℕ) → components (skip_slashes p) ≡ components p
unfolding skip_slashes
components-skip [] = refl
components-skip (c ∷ p) = ground (arith, components-skip p)

components-part :
    (p : List ℕ)
    → components p
      ≡ (if is_nil (part p) then components (after_part p) else part p ∷ components (after_part p))
components-part p = let (ws, e, f) = split-part p in rw (e, ← f) (ground arith)

part-NoSlash : (p : List ℕ) → NoSlash (part p)
unfolding part
part-NoSlash [] = tt
part-NoSlash (c ∷ p) = elim (Bool-cases (c == slash)) [
  | inl e ↦ rw e tt
  | inr e ↦ rw e (ground arith, part-NoSlash p)
]

length-skip : (p : List ℕ) → length (skip_slashes p) ≤ length p
unfolding skip_slashes
length-skip [] = omega arith
length-skip (c ∷ p) = ground (arith, length-skip p)

length-after_part : (p : List ℕ) → length (part p) + length (after_part p) ≡ length p
unfolding part after_part
length-after_part [] = omega arith
length-after_part (c ∷ p) = ground (arith, length-after_part p)

part-nil : (p : List ℕ) → is_nil (part (skip_slashes p)) ≡ true → skip_slashes p ≡ []
unfolding part skip_slashes
part-nil [] h = refl
part-nil (c ∷ p) h = ground (arith, part-nil p)

length-pos : (s : List ℕ) → is_nil s ≡ false → 0 < length s
length-pos [] h = cc
length-pos (c ∷ s) h = omega arith

-- A round uses up a byte, unless nothing is left.
rest-lt :
    (p : List ℕ)
    → is_nil (part (skip_slashes p)) ≡ false
    → length (after_part (skip_slashes p)) < length p
rest-lt p h =
    omega (
      arith,
      length-pos (part (skip_slashes p)) h,
      length-after_part (skip_slashes p),
      length-skip p,
    )

abbrev pub render_of : Option (List Name) → Option (List ℕ)
render_of none = none
render_of (some st) = some (render st)

-- The first name of a path and what follows it.
components_step :
    (p : List ℕ)
    → is_nil (part (skip_slashes p)) ≡ false
    → components p ≡ part (skip_slashes p) ∷ components (after_part (skip_slashes p))
components_step p h = sym (components-skip p) ∙ components-part (skip_slashes p) ∙ rw h refl

components_done : (p : List ℕ) → is_nil (part (skip_slashes p)) ≡ true → components p ≡ []
components_done p h = sym (components-skip p) ∙ rw (part-nil p h) refl

pub AllNames-parent : (st : List Name) → AllNames st → AllNames (parent st)
AllNames-parent [] h = tt
AllNames-parent (n ∷ st) h = h.1

normalize_from_lem :
    (fuel cap : ℕ) (p : List ℕ) (st : List Name)
    → length p < fuel
    → AllNames st
    → normalize_from fuel cap p (render st) ≡ render_of (walk cap st (components p))
unfolding normalize_from
normalize_from_lem zero cap p st l h = absurd (omega arith)
normalize_from_lem (suc fuel) cap p st l h = elim (Bool-cases (is_nil name)) [
  | inl e ↦ rw (e, components_done p e) refl
  | inr e ↦
      let short : length rest < fuel = omega (arith, rest-lt p e) in
      elim (Bool-cases (is_dot name)) [
        | inl d ↦ rw (e, components_step p e, d) (normalize_from_lem fuel cap rest st short h)
        | inr d ↦ elim (Bool-cases (is_dot_dot name)) [
          | inl dd ↦
              rw (e, components_step p e, d, dd, path_pop-render st h)
                (normalize_from_lem fuel cap rest (parent st) short (AllNames-parent st h))
          | inr dd ↦ elim (Bool-cases (ltb cap (length (render (name ∷ st)) + 1))) [
            | inl full ↦
                let refused : path_push (render st) cap name ≡ none =
                  path_push-render st cap name h e ∙ rw full refl in
                rw (e, components_step p e, d, dd, full, refused) refl
            | inr fits ↦
                let pushed : path_push (render st) cap name ≡ some (render (name ∷ st)) =
                  path_push-render st cap name h e ∙ rw fits refl in
                rw (e, components_step p e, d, dd, fits, pushed)
                  (normalize_from_lem fuel cap rest (name ∷ st) short (
                    record {
                      nonempty = e;
                      plain = part-NoSlash (skip_slashes p);
                      not_dot = d;
                      not_dot_dot = dd;
                    },
                    h,
                  ))
          ]
        ]
      ]
]
  where
    name : Name
    name = part (skip_slashes p)

    rest : List ℕ
    rest = after_part (skip_slashes p)

-- `normalize_absolute_path` fails unless its input starts with a slash and the buffer holds two
-- bytes; otherwise it returns the path of the stack that the walk over the input's names ends in,
-- or fails where that walk does.
pub normalize_absolute_path_lem :
    (input : List ℕ) (out_size : ℕ)
    → normalize_absolute_path input out_size ≡ (
        if ltb out_size 2 || not (starts_with_slash input)
        then none
        else render_of (walk out_size [] (components input)))
unfolding normalize_absolute_path
normalize_absolute_path_lem input out_size =
    ap (λ r. if ltb out_size 2 || not (starts_with_slash input) then none else r)
      (normalize_from_lem (suc (length input)) out_size input [] (omega arith) tt)
