-- ===== src/Vfs/Tmpfs.antt =====
-- The tmpfs file of kernel/fs/vfs.c: a buffer of `cap` bytes of which `size` are in use.
pub mod Content
use lithium_kernel.Prelude.{
  ℕ, zero, suc, ◌+◌, ◌-◌, ◌*◌, ◌/◌, ◌%◌, ◌^◌, ◌≤◌, ◌<◌, min, max, ◌≡◌, refl, sym, ap, ◌∙◌, ◌≢◌, ◌⊎◌,
  inl, inr, Bool, true, false, not, ◌&&◌, ◌||◌, Option, none, some, List, [], ◌∷◌, ◌++◌, map, arith,
  ltb, leb, ◌==◌, if◌then◌else◌, lt→ltb, ltb→lt, leb→le, ==_iff, ==→eq, Bool-cases, Option-cases,
  update, Outcome, ok, halted, kassert, count, count-congr, count-clear, count-pos, count_witness,
  count-le, length, get_elem?, get_or, set, take, drop, replicate, length-append, length-set,
  get_elem?-set_self, get_elem?-set_ne, take-append-drop, length-take, length-drop,
  length-replicate, take_append, drop_append, take_all,
}

-- `tmpfs_file_t`; the buffer is a function of the index, and nothing is known of it beyond `cap`.
pub record TmpFile : Type 0 where
  pub bytes : ℕ → ℕ
  pub size : ℕ
  pub cap : ℕ

-- What the allocator answers to the calls that one operation makes: whether a new vnode, a new file
-- record and a larger buffer are given, and what the new part of the buffer holds.
pub record Memory : Type 0 where
  pub node_ok : Bool
  pub file_ok : Bool
  pub buffer_ok : Bool
  pub garbage : ℕ → ℕ

-- `kzalloc(sizeof(tmpfs_file_t))`
abbrev pub empty_file : TmpFile
empty_file = record { bytes = λ i. 0; size = 0; cap = 0 }

-- `memcpy(buf, data + off, n)`: the `n` bytes from `off` on.
abbrev pub read_bytes : (ℕ → ℕ) → ℕ → ℕ → List ℕ
read_bytes f off zero = []
read_bytes f off (suc n) = f off ∷ read_bytes f (off + 1) n

-- `memcpy(data + off, buf, count)`
abbrev pub write_bytes : (ℕ → ℕ) → ℕ → List ℕ → ℕ → ℕ
write_bytes f off [] = f
write_bytes f off (b ∷ bs) = write_bytes (update f off b) (off + 1) bs

-- The bytes read; `(int)` of their number is the result. No record reads as an empty file.
pub tmpfs_read : Option TmpFile → ℕ → ℕ → List ℕ
tmpfs_read none n off = []
tmpfs_read (some f) n off =
    if leb f.size off
    then []
    else read_bytes f.bytes off (if ltb n (f.size - off) then n else f.size - off)

-- `krealloc` keeps the old bytes. It gives all of `new_cap` bytes, which kmalloc does below 2 ^ 32.
abbrev grow : Memory → TmpFile → ℕ → TmpFile
grow m f new_cap = record f {
  bytes = λ i. if ltb i f.cap then f.bytes i else m.garbage i;
  cap = new_cap;
}

abbrev store_bytes : TmpFile → List ℕ → ℕ → TmpFile
store_bytes f buf off = record f {
  bytes = write_bytes f.bytes off buf;
  size = if ltb f.size (off + length buf) then off + length buf else f.size;
}

-- `(int)n`, as its 32 bits: it is negative from 2 ^ 31 on.
abbrev pub int32 : ℕ → ℕ
int32 n = n % 2 ^ 32

abbrev pub is_negative : ℕ → Bool
is_negative r = leb (2 ^ 31) r

unfoldable pub write_record : Memory → TmpFile → List ℕ → ℕ → TmpFile × Option ℕ
write_record m f buf off =
    let need = off + length buf in
    if ltb f.cap need
    then (if m.buffer_ok
        then (store_bytes (grow m f (need * 2 + 64)) buf off, some (int32 (length buf)))
        else (f, none))
    else (store_bytes f buf off, some (int32 (length buf)))

-- The record afterwards, and the result: `none` is -1, and the others are 32 bits of an int.
unfoldable pub tmpfs_write : Memory → Option TmpFile → List ℕ → ℕ → Option TmpFile × Option ℕ
tmpfs_write m none buf off =
    if m.file_ok
    then (let (f, r) = write_record m empty_file buf off in (some f, r))
    else (none, none)
tmpfs_write m (some f) buf off = let (g, r) = write_record m f buf off in (some g, r)
