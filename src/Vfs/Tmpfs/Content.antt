-- ===== src/Vfs/Tmpfs/Content.antt =====
-- What the contents of a tmpfs file (kernel/fs/vfs.c) are after reads and writes.
use lithium_kernel.Prelude.{
  ℕ, zero, suc, ◌+◌, ◌-◌, ◌*◌, ◌^◌, ◌≤◌, ◌<◌, min, max, ◌≡◌, refl, sym, ap, ◌∙◌, ◌⊎◌, inl, inr,
  true, false, Option, none, some, List, [], ◌∷◌, ◌++◌, arith, ltb, leb, lt→ltb, ltb→lt, Bool-cases,
  update, length, take, drop,
}
use mathlib.Core.Path.{ap₂}
use lithium_kernel.Vfs.Tmpfs.{
  TmpFile, Memory, int32, empty_file, read_bytes, write_bytes, tmpfs_read, grow, store_bytes,
  write_record, tmpfs_write,
}

-- A record never holds more than its buffer.
abbrev pub Fits : Option TmpFile → Type 0
Fits none = Unit {0}
Fits (some f) = f.size ≤ f.cap

-- The bytes of a file.
abbrev pub content : Option TmpFile → List ℕ
content none = []
content (some f) = read_bytes f.bytes 0 f.size

pub length-read_bytes : (f : ℕ → ℕ) (off n : ℕ) → length (read_bytes f off n) ≡ n
length-read_bytes f off zero = refl
length-read_bytes f off (suc n) = ap suc (length-read_bytes f (off + 1) n)

pub read_bytes-congr :
    (f g : ℕ → ℕ) (off n : ℕ)
    → ((i : ℕ) → off ≤ i → i < off + n → f i ≡ g i)
    → read_bytes f off n ≡ read_bytes g off n
read_bytes-congr f g off zero h = refl
read_bytes-congr f g off (suc n) h =
    ap₂ ◌∷◌ (h off (omega arith) (omega arith))
      (read_bytes-congr f g (off + 1) n (λ i l u. h i (omega arith) (omega arith)))

read_bytes_at : (f : ℕ → ℕ) (a b n m : ℕ) → a ≡ b → n ≡ m → read_bytes f a n ≡ read_bytes f b m
read_bytes_at f a b n m p q = ap₂ (read_bytes f) p q

pub read_bytes-append :
    (f : ℕ → ℕ) (off n m : ℕ)
    → read_bytes f off (n + m) ≡ read_bytes f off n ++ read_bytes f (off + n) m
read_bytes-append f off zero m = ap₂ (λ a b. read_bytes f a b) (omega arith) (omega arith)
read_bytes-append f off (suc n) m =
    let len : suc n + m ≡ suc (n + m) = omega arith in
    let start : off + 1 + n ≡ off + suc n = omega arith in
    rw (len, ← start) (ap (◌∷◌ (f off)) (read_bytes-append f (off + 1) n m))

take-read_bytes :
    (f : ℕ → ℕ) (off k n : ℕ) → take k (read_bytes f off n) ≡ read_bytes f off (min k n)
take-read_bytes f off zero n = read_bytes_at f off off 0 (min 0 n) refl (omega arith)
take-read_bytes f off (suc k) zero = read_bytes_at f off off 0 (min (suc k) 0) refl (omega arith)
take-read_bytes f off (suc k) (suc n) =
    let least : min (suc k) (suc n) ≡ suc (min k n) = omega arith in
    rw least (ap (◌∷◌ (f off)) (take-read_bytes f (off + 1) k n))

drop-read_bytes :
    (f : ℕ → ℕ) (off k n : ℕ) → drop k (read_bytes f off n) ≡ read_bytes f (off + k) (n - k)
drop-read_bytes f off zero n = read_bytes_at f off (off + 0) n (n - 0) (omega arith) (omega arith)
drop-read_bytes f off (suc k) zero =
    read_bytes_at f (off + suc k) (off + suc k) 0 (0 - suc k) refl (omega arith)
drop-read_bytes f off (suc k) (suc n) =
    drop-read_bytes f (off + 1) k n
    ∙ read_bytes_at f (off + 1 + k) (off + suc k) (n - k) (suc n - suc k) (omega arith)
        (omega arith)

-- A write changes nothing before its offset, nor behind its end.
pub write_bytes_other :
    (f : ℕ → ℕ) (off : ℕ) (bs : List ℕ) (i : ℕ)
    → (i < off) ⊎ (off + length bs ≤ i)
    → write_bytes f off bs i ≡ f i
write_bytes_other f off [] i h = refl
write_bytes_other f off (b ∷ bs) i h =
    write_bytes_other (update f off b) (off + 1) bs i (further h) ∙ ground arith
  where
    further : (i < off) ⊎ (off + suc (length bs) ≤ i) → (i < off + 1) ⊎ (off + 1 + length bs ≤ i)
    further s = omega arith

pub read_bytes-write_bytes :
    (f : ℕ → ℕ) (off : ℕ) (bs : List ℕ) → read_bytes (write_bytes f off bs) off (length bs) ≡ bs
read_bytes-write_bytes f off [] = refl
read_bytes-write_bytes f off (b ∷ bs) =
    ap₂ ◌∷◌ (write_bytes_other (update f off b) (off + 1) bs off (inl (omega arith)) ∙ ground arith)
      (read_bytes-write_bytes (update f off b) (off + 1) bs)

-- Reading `n` bytes at `off` gives the bytes of the file there, as many as there are.
pub tmpfs_read_lem :
    (o : Option TmpFile) (n off : ℕ) → tmpfs_read o n off ≡ take n (drop off (content o))
unfolding tmpfs_read
tmpfs_read_lem none zero zero = refl
tmpfs_read_lem none zero (suc off) = refl
tmpfs_read_lem none (suc n) zero = refl
tmpfs_read_lem none (suc n) (suc off) = refl
tmpfs_read_lem (some f) n off = elim (Bool-cases (leb f.size off)) [
  | inl past ↦
      rw
        (
          past,
          drop-read_bytes f.bytes 0 off f.size,
          take-read_bytes f.bytes (0 + off) n (f.size - off),
        )
        (read_bytes_at f.bytes (0 + off) (0 + off) 0 (min n (f.size - off)) refl (ground arith))
  | inr within ↦
      rw
        (
          within,
          drop-read_bytes f.bytes 0 off f.size,
          take-read_bytes f.bytes (0 + off) n (f.size - off),
        )
        (read_bytes_at f.bytes off (0 + off) _ (min n (f.size - off)) (omega arith) (ground arith))
]

-- What a write that succeeds has done to a file.
pub record Stored (f : TmpFile) (buf : List ℕ) (off : ℕ) (g : TmpFile) : Type 0 where
  pub fits : g.size ≤ g.cap
  pub size : g.size ≡ max f.size (off + length buf)
  pub written : read_bytes g.bytes off (length buf) ≡ buf
  pub kept : (i : ℕ) → i < f.cap → (i < off) ⊎ (off + length buf ≤ i) → g.bytes i ≡ f.bytes i

store_bytes-Stored :
    (f : TmpFile) (buf : List ℕ) (off : ℕ)
    → f.size ≤ f.cap
    → off + length buf ≤ f.cap
    → Stored f buf off (store_bytes f buf off)
store_bytes-Stored f buf off h k = record {
  fits = ground arith;
  size = ground arith;
  written = read_bytes-write_bytes f.bytes off buf;
  kept = λ i l s. write_bytes_other f.bytes off buf i s;
}

grow_store-Stored :
    (m : Memory) (f : TmpFile) (buf : List ℕ) (off : ℕ)
    → f.size ≤ f.cap
    → f.cap < off + length buf
    → Stored f buf off (store_bytes (grow m f ((off + length buf) * 2 + 64)) buf off)
grow_store-Stored m f buf off h k = record {
  fits = ground arith;
  size = ground arith;
  written = read_bytes-write_bytes _ off buf;
  kept = λ i l s. write_bytes_other _ off buf i s ∙ rw (lt→ltb i f.cap l) refl;
}

-- A write either fails, having changed nothing, or stores the whole buffer.
pub write_record_cases :
    (m : Memory) (f : TmpFile) (buf : List ℕ) (off : ℕ)
    → f.size ≤ f.cap
    → ((m.buffer_ok ≡ false) × (write_record m f buf off ≡ (f, none)))
      ⊎ ((g : TmpFile) × (write_record m f buf off ≡ (g, some (int32 (length buf))))
          × Stored f buf off g)
unfolding write_record
write_record_cases m f buf off h = elim (Bool-cases (ltb f.cap (off + length buf))) [
  | inr room ↦ inr (_, rw room refl, store_bytes-Stored f buf off h (ground arith))
  | inl full ↦ elim (Bool-cases m.buffer_ok) [
    | inl more ↦ inr (_, rw (full, more) refl, grow_store-Stored m f buf off h (ltb→lt _ _ full))
    | inr refused ↦ inl (refused, rw (full, refused) refl)
  ]
]

-- The contents after a write inside the file or at its end.
Stored-content :
    (f g : TmpFile) (buf : List ℕ) (off : ℕ)
    → f.size ≤ f.cap
    → off ≤ f.size
    → Stored f buf off g
    → read_bytes g.bytes 0 g.size
      ≡ take off (read_bytes f.bytes 0 f.size)
        ++ (buf ++ drop (off + length buf) (read_bytes f.bytes 0 f.size))
Stored-content f g buf off h le s =
    read_bytes_at g.bytes 0 0 g.size (off + (length buf + rest)) refl (omega (arith, s.size))
    ∙ read_bytes-append g.bytes 0 off (length buf + rest)
    ∙ ap₂ ◌++◌ before (
        read_bytes_at g.bytes (0 + off) off _ (length buf + rest) (omega arith) refl
        ∙ read_bytes-append g.bytes off (length buf) rest
        ∙ ap₂ ◌++◌ s.written after)
  where
    rest : ℕ
    rest = f.size - (off + length buf)

    before : read_bytes g.bytes 0 off ≡ take off (read_bytes f.bytes 0 f.size)
    before =
        read_bytes-congr g.bytes f.bytes 0 off (λ i l u. s.kept i (omega arith) (inl (omega arith)))
        ∙ read_bytes_at f.bytes 0 0 off (min off f.size) refl (omega arith)
        ∙ sym (take-read_bytes f.bytes 0 off f.size)

    after :
        read_bytes g.bytes (off + length buf) rest
        ≡ drop (off + length buf) (read_bytes f.bytes 0 f.size)
    after =
        read_bytes-congr g.bytes f.bytes (off + length buf) rest
          (λ i l u. s.kept i (omega arith) (inr l))
        ∙ read_bytes_at f.bytes (off + length buf) (0 + (off + length buf)) rest rest (omega arith)
            refl
        ∙ sym (drop-read_bytes f.bytes 0 (off + length buf) f.size)

-- A write at or before the end of a file, which ends below 2 ^ 30, whatever the allocator answers, either fails
-- with -1 and leaves the contents alone, or returns the number of bytes and puts them at the offset in
-- place of those there; in both cases the file still fits its buffer.
pub tmpfs_write_lem :
    (m : Memory) (o : Option TmpFile) (buf : List ℕ) (off : ℕ)
    → Fits o
    → off ≤ length (content o)
    → off + length buf < 2 ^ 30
    → let (o', r) = tmpfs_write m o buf off in
      Fits o'
      × (((r ≡ none) × (content o' ≡ content o))
          ⊎ ((r ≡ some (length buf))
              × (content o'
                  ≡ take off (content o) ++ (buf ++ drop (off + length buf) (content o)))))
unfolding tmpfs_write write_record
tmpfs_write_lem m none buf off h le small = elim (Bool-cases m.file_ok) [
  | inr e ↦ rw e (tt, inl (refl, refl))
  | inl e ↦ elim (write_record_cases m empty_file buf off (omega arith)) [
    | inl (_, q) ↦ rw (e, q) (omega arith, inl (refl, refl))
    | inr (g, q, s) ↦
        rw (e, q)
          (
            s.fits,
            inr (ap some (omega arith), Stored-content empty_file g buf off (omega arith) le s),
          )
  ]
]
tmpfs_write_lem m (some f) buf off h le small =
    let within : off ≤ f.size = omega (arith, length-read_bytes f.bytes 0 f.size) in
    elim (write_record_cases m f buf off h) [
      | inl (_, q) ↦ rw q (h, inl (refl, refl))
      | inr (g, q, s) ↦
          rw q (s.fits, inr (ap some (omega arith), Stored-content f g buf off h within s))
    ]

-- With memory for the record and the buffer, a write succeeds.
pub tmpfs_write_succeeds :
    (m : Memory) (o : Option TmpFile) (buf : List ℕ) (off : ℕ)
    → m.file_ok ≡ true
    → m.buffer_ok ≡ true
    → length buf < 2 ^ 30
    → (tmpfs_write m o buf off).1 ≡ some (length buf)
unfolding tmpfs_write write_record
tmpfs_write_succeeds m none buf off f b small = ground arith
tmpfs_write_succeeds m (some f) buf off e b small = ground arith

-- A write that starts beyond the end, inside the buffer, puts the bytes that the buffer happens to
-- hold between the old end and the offset into the file: they become part of it unchanged, and are
-- not zeroed.
pub tmpfs_write_hole :
    (m : Memory) (f : TmpFile) (buf : List ℕ) (off i : ℕ)
    → f.size ≤ i
    → i < off
    → off + length buf ≤ f.cap
    → (g : TmpFile) × (tmpfs_write m (some f) buf off ≡ (some g, some (int32 (length buf))))
      × (i < g.size)
      × (g.bytes i ≡ f.bytes i)
unfolding tmpfs_write write_record
tmpfs_write_hole m f buf off i past before room = (
  store_bytes f buf off,
  ground arith,
  ground arith,
  write_bytes_other f.bytes off buf i (inl before),
)
