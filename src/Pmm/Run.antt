-- ===== src/Pmm/Run.antt =====
-- pmm_alloc_contiguous of kernel/mm/pmm.c: the search for a run of free frames, and its marking.
use lithium_kernel.Prelude.{
  ℕ, zero, suc, ◌+◌, ◌-◌, ◌*◌, ◌≤◌, ◌<◌, ◌≡◌, refl, sym, ap, ◌∙◌, ◌≢◌, ◌⊎◌, inl, inr, Bool, true,
  false, ◌&&◌, Option, none, some, arith, ltb, leb, ◌==◌, if◌then◌else◌, ltb→lt, ==→eq, Bool-cases,
  update, count,
}
use mathlib.Core.Bool.{false≢true}
use lithium_kernel.Pmm.{
  Pmm, frame_size, frame_is_free, frame_set_used, take_run, find_run, alloc_contiguous,
}
use lithium_kernel.Pmm.Bitmap.{is_free-set_used, set_used-HasBytes}
use lithium_kernel.Pmm.Inv.{Inv, count-set_used}

-- The frames `s, …, s + n - 1` are free.
abbrev pub IsRun : Pmm → ℕ → ℕ → Type 0
IsRun p s n = (g : ℕ) → s ≤ g → g < s + n → frame_is_free p.bitmap g ≡ true

-- The answer is the lowest run of `n` frames below the total, or there is none.
abbrev pub FirstRun : Pmm → ℕ → Option ℕ → Type 0
FirstRun p n none = (s : ℕ) → s + n ≤ p.total_frames → ¬ IsRun p s n
FirstRun p n (some s) =
    (s + n ≤ p.total_frames) × IsRun p s n × ((s' : ℕ) → s' < s → ¬ IsRun p s' n)

-- At frame `f` the last `run_len` frames are free, and no run of `n` starts before them.
record Scanning (p : Pmm) (n f run_start run_len : ℕ) : Type 0 where
  short : run_len < n
  inside : run_len ≤ f
  start : run_len ≢ 0 → run_start + run_len ≡ f
  recent : (g : ℕ) → g < f → f ≤ g + run_len → frame_is_free p.bitmap g ≡ true
  earlier : (s : ℕ) → s + run_len < f → ¬ IsRun p s n

-- A used frame ends the run.
Scanning-used :
    (p : Pmm) (n f run_start run_len : ℕ)
    → Scanning p n f run_start run_len
    → frame_is_free p.bitmap f ≡ false
    → Scanning p n (f + 1) run_start 0
Scanning-used p n f run_start run_len i used = record {
  short = omega (arith, i.short);
  inside = omega arith;
  start = λ h. absurd (h refl);
  recent = λ g l u. absurd (omega arith);
  earlier = λ s l run. elim (Bool-cases (ltb (s + run_len) f)) [
    | inl c ↦ i.earlier s (ltb→lt _ _ c) run
    | inr c ↦ false≢true (sym used ∙ run f (omega arith) (ground (arith, i.short)))
  ];
}

-- A free frame makes it longer.
Scanning-free :
    (p : Pmm) (n f run_start run_len : ℕ)
    → Scanning p n f run_start run_len
    → frame_is_free p.bitmap f ≡ true
    → run_len + 1 < n
    → Scanning p n (f + 1) (if run_len == 0 then f else run_start) (run_len + 1)
Scanning-free p n f run_start run_len i free short = record {
  short = short;
  inside = omega (arith, i.inside);
  start = λ h. ground (arith, i.start);
  recent = λ g l u. elim (Bool-cases (f == g)) [
    | inl c ↦ ground (arith, ap (frame_is_free p.bitmap) (==→eq f g c))
    | inr c ↦ i.recent g (ground arith) (omega arith)
  ];
  earlier = λ s l run. i.earlier s (omega arith) run;
}

-- The run is complete when it has `n` frames.
Scanning-done :
    (p : Pmm) (n f run_start run_len start : ℕ)
    → Scanning p n f run_start run_len
    → frame_is_free p.bitmap f ≡ true
    → run_len + 1 ≡ n
    → f < p.total_frames
    → start + run_len ≡ f
    → FirstRun p n (some start)
Scanning-done p n f run_start run_len start i free done l e = (
  omega arith,
  λ g l' u. elim (Bool-cases (f == g)) [
    | inl c ↦ ground (arith, ap (frame_is_free p.bitmap) (==→eq f g c))
    | inr c ↦ i.recent g (ground arith) (omega arith)
  ],
  λ s l' run. i.earlier s (omega arith) run,
)

find_run-FirstRun :
    (p : Pmm) (n k f run_start run_len : ℕ)
    → f + k ≡ p.total_frames
    → Scanning p n f run_start run_len
    → FirstRun p n (find_run p n k f run_start run_len)
unfolding find_run
find_run-FirstRun p n zero f run_start run_len e i =
    λ s l run. i.earlier s (omega (arith, i.short)) run
find_run-FirstRun p n (suc k) f run_start run_len e i =
    elim (Bool-cases (frame_is_free p.bitmap f)) [
      | inr used ↦ rw used (
          find_run-FirstRun p n k (f + 1) run_start 0 (omega arith)
            (Scanning-used p n f run_start run_len i used))
      | inl free ↦ elim (Bool-cases (run_len + 1 == n)) [
        | inl done ↦
            rw (free, done)
              (Scanning-done p n f run_start run_len _ i free (==→eq _ _ done) (omega arith)
                (ground (arith, i.start)))
        | inr more ↦
            rw (free, more)
              (find_run-FirstRun p n k (f + 1) (if run_len == 0 then f else run_start) (run_len + 1)
                (omega arith)
                (Scanning-free p n f run_start run_len i free (ground (arith, i.short))))
      ]
    ]

-- A run needs as many free frames.
count-run :
    (t : ℕ → Bool) (n s m : ℕ)
    → ((g : ℕ) → s ≤ g → g < s + n → t g ≡ true)
    → s + n ≤ m
    → n ≤ count t m
unfolding count
count-run t zero s m run h = omega arith
count-run t (suc n) s zero run h = absurd (omega arith)
count-run t (suc n) s (suc m) run h = elim (Bool-cases (m == s + n)) [
  | inl e ↦ ground (
    arith,
    run m (ground arith) (ground arith),
    count-run t n s m (λ g l u. run g l (omega arith)) (ground arith),
  )
  | inr e ↦ ground (arith, count-run t (suc n) s m run (ground arith))
]

-- Marking does not look at the counter.
take_run-free_frames :
    (p : Pmm) (k j a : ℕ)
    → take_run (record p { free_frames = a }) k j ≡ record (take_run p k j) { free_frames = a }
unfolding take_run
take_run-free_frames p zero j a = refl
take_run-free_frames p (suc k) j a =
    take_run-free_frames
      (record p { bitmap = frame_set_used p.bitmap j; refcount = update p.refcount j 1 }) k (j + 1)
      a

-- What marking a run of `n` frames from `s` on has done.
pub record RunTaken (p : Pmm) (s n : ℕ) (q : Pmm) : Type 0 where
  pub valid : Inv q
  pub total : q.total_frames ≡ p.total_frames
  pub counter : p.free_frames ≡ q.free_frames + n
  pub used :
      (g : ℕ)
      → frame_is_free q.bitmap g
        ≡ (if leb s g && ltb g (s + n) then false else frame_is_free p.bitmap g)
  pub referenced : (g : ℕ) → q.refcount g ≡ (if leb s g && ltb g (s + n) then 1 else p.refcount g)

-- One round of the marking loop, with the counter kept in step.
abbrev take_one : Pmm → ℕ → Pmm
take_one p j = record p {
  bitmap = frame_set_used p.bitmap j;
  refcount = update p.refcount j 1;
  free_frames = p.free_frames - 1;
}

take_one-Inv :
    (p : Pmm) (j : ℕ)
    → Inv p
    → j < p.total_frames
    → frame_is_free p.bitmap j ≡ true
    → Inv (take_one p j) × (p.free_frames ≡ suc (p.free_frames - 1))
take_one-Inv p j v l h =
    let c = count-set_used p.bitmap j p.total_frames v.bytes l h in
    (
      record {
        bytes = set_used-HasBytes p.bitmap j v.bytes;
        bounded = v.bounded;
        hinted = v.hinted;
        counted = omega (arith, c, v.counted);
        unreferenced =
            λ g e. ground (arith, is_free-set_used p.bitmap j g v.bytes, v.unreferenced g);
        narrow = λ g. ground (arith, v.narrow g);
      },
      omega (arith, c, v.counted),
    )

-- One frame, then the rest of the run.
RunTaken-step :
    (p : Pmm) (k j : ℕ) (q : Pmm)
    → Inv p
    → j < p.total_frames
    → frame_is_free p.bitmap j ≡ true
    → RunTaken (take_one p j) (j + 1) k q
    → RunTaken p j (suc k) q
RunTaken-step p k j q v l h r = record {
  valid = r.valid;
  total = r.total;
  counter = omega (arith, r.counter, (take_one-Inv p j v l h).1);
  used = λ g. ground (arith, r.used g, is_free-set_used p.bitmap j g v.bytes);
  referenced = λ g. ground (arith, r.referenced g);
}

take_run-RunTaken :
    (p : Pmm) (k j c : ℕ)
    → Inv p
    → j + k ≤ p.total_frames
    → IsRun p j k
    → c + k ≡ p.free_frames
    → RunTaken p j k (record (take_run p k j) { free_frames = c })
unfolding take_run
take_run-RunTaken p zero j c v l run e =
    let same : c ≡ p.free_frames = omega arith in
    rw same (record {
      valid = v;
      total = refl;
      counter = omega arith;
      used = λ g. ground arith;
      referenced = λ g. ground arith;
    })
take_run-RunTaken p (suc k) j c v l run e =
    let free = run j (omega arith) (omega arith) in
    let (v', less) = take_one-Inv p j v (omega arith) free in
    RunTaken-step p k j _ v (omega arith) free (
      rw
        (take_run-free_frames
          (record p { bitmap = frame_set_used p.bitmap j; refcount = update p.refcount j 1 }) k
          (j + 1) (p.free_frames - 1))
        at
        (take_run-RunTaken (take_one p j) k (j + 1) c v' (omega arith)
          (λ g l' u.
            ground
              (arith, run g (omega arith) (omega arith), is_free-set_used p.bitmap j g v.bytes))
          (omega arith)))

-- The loop starts before any frame.
Scanning-start : (p : Pmm) (n : ℕ) → n ≢ 0 → Scanning p n 0 0 0
Scanning-start p n h = record {
  short = omega arith;
  inside = omega arith;
  start = λ c. absurd (c refl);
  recent = λ g l u. elim l [ ];
  earlier = λ s l run. absurd (omega arith);
}

-- The outcome of a call that passes the first guard.
contiguous_found :
    (p : Pmm) (n : ℕ) (o : Option ℕ)
    → find_run p n p.total_frames 0 0 0 ≡ o
    → Inv p
    → n ≢ 0
    → n ≤ p.free_frames
    → FirstRun p n o
    → (((s : ℕ) → s + n ≤ p.total_frames → ¬ IsRun p s n) × (alloc_contiguous p n ≡ (none, p)))
      ⊎ ((s : ℕ) × (q : Pmm) × (alloc_contiguous p n ≡ (some (s * frame_size), q))
          × FirstRun p n (some s)
          × RunTaken p s n q)
unfolding alloc_contiguous
contiguous_found p n none e v h l r = inl (r, ground (arith, e))
contiguous_found p n (some s) e v h l r = inr (
  s,
  record (take_run p n s) { free_frames = p.free_frames - n },
  ground (arith, e),
  r,
  take_run-RunTaken p n s (p.free_frames - n) v r.0 r.1 (omega arith),
)

too_few :
    (p : Pmm) (n : ℕ) → Inv p → p.free_frames < n → (s : ℕ) → s + n ≤ p.total_frames → ¬ IsRun p s n
too_few p n v l s h run =
    omega (arith, count-run (frame_is_free p.bitmap) n s p.total_frames run h, v.counted)

-- In a well-formed allocator `pmm_alloc_contiguous(n)` fails exactly when `n` is 0 or no `n`
-- consecutive frames are free, and then changes nothing; otherwise it returns the lowest such run
-- below the total, marks its frames used with one reference each, takes `n` from the free counter,
-- leaves every other frame alone and keeps the invariant.
pub alloc_contiguous_lem :
    (p : Pmm) (n : ℕ)
    → Inv p
    → ((n ≡ 0 ⊎ ((s : ℕ) → s + n ≤ p.total_frames → ¬ IsRun p s n))
        × (alloc_contiguous p n ≡ (none, p)))
      ⊎ ((s : ℕ) × (q : Pmm) × (alloc_contiguous p n ≡ (some (s * frame_size), q))
          × FirstRun p n (some s)
          × RunTaken p s n q)
unfolding alloc_contiguous
alloc_contiguous_lem p n v = elim (Bool-cases (n == 0)) [
  | inl z ↦ inl (inl (==→eq n 0 z), rw z refl)
  | inr nz ↦ elim (Bool-cases (ltb p.free_frames n)) [
    | inl few ↦ inl (inr (too_few p n v (ltb→lt _ _ few)), rw (nz, few) refl)
    | inr enough ↦
        elim (contiguous_found p n (find_run p n p.total_frames 0 0 0) refl v (ground arith)
          (ground arith)
          (find_run-FirstRun p n p.total_frames 0 0 0 (omega arith)
            (Scanning-start p n (ground arith)))) [
              | inl (r, e) ↦ inl (inr r, e)
              | inr found ↦ inr found
            ]
  ]
]
