-- ===== src/Str/Scan/Append.antt =====
-- strcpy and strcat of lib/string.c at strings that lie apart.
use lithium_kernel.Prelude.{
  ℕ, zero, suc, ◌+◌, ◌-◌, ◌<◌, ◌≡◌, refl, sym, ap, ◌∙◌, ◌≢◌, ◌⊎◌, inl, inr, false, some, arith, ltb,
  ◌==◌, Bool-cases, update,
}
use mathlib.Core.Path.{subst}
use lithium_kernel.Str.{Bytes}
use lithium_kernel.Str.Copy.{IsString, padded, padded-step, tail-IsString}
use lithium_kernel.Str.Scan.Equal.{first_byte, no_byte, strlen_lem}
use lithium_kernel.Str.Scan.{strcpy, strcat}

strcpy_from :
    (m : Bytes) (f dst src len : ℕ)
    → IsString m src len
    → len < f
    → (dst + len < src) ⊎ (src + len < dst)
    → (m' : Bytes) × (strcpy f m dst src ≡ some m') × ((a : ℕ) → m' a ≡ padded m dst src len len a)
unfolding strcpy
strcpy_from m zero dst src len i l apart = absurd (omega arith)
strcpy_from m (suc f) dst src zero i l apart =
    let end = no_byte m src i in (update m dst (m src), rw end refl, λ a. rw end (ground arith))
strcpy_from m (suc f) dst src (suc len) i l apart =
    let more : (m src == 0) ≡ false = ground (arith, first_byte m src len i) in
    let apart' : (dst + 1 + len < src + 1) ⊎ (src + 1 + len < dst + 1) = elim apart [
      | inl l ↦ inl (omega arith)
      | inr l ↦ inr (omega arith)
    ] in
    let (m', e, bytes) =
      strcpy_from (update m dst (m src)) f (dst + 1) (src + 1) len
        (tail-IsString m dst src len len i apart) (omega arith) apart' in
    (m', rw more e, λ a. bytes a ∙ padded-step m dst src len len a apart)

copies-IsString :
    (m m' : Bytes) (dst src la lb : ℕ)
    → IsString m dst la
    → IsString m src lb
    → ((a : ℕ) → m' a ≡ padded m (dst + la) src lb lb a)
    → IsString m' dst (la + lb)
copies-IsString m m' dst src la lb first second h = record {
  bytes = λ i l. elim (Bool-cases (ltb i la)) [
    | inl before ↦
        let kept : padded m (dst + la) src lb lb (dst + i) ≡ m (dst + i) = ground (arith, before) in
        subst (λ x. x ≢ 0) (sym (h (dst + i) ∙ kept)) (first.bytes i (ground (arith, before)))
    | inr after ↦
        let kept : padded m (dst + la) src lb lb (dst + i) ≡ m (src + (dst + i - (dst + la))) =
          ground (arith, after, l) in
        let index : src + (dst + i - (dst + la)) ≡ src + (i - la) = ground (arith, after) in
        subst (λ x. x ≢ 0) (sym (h (dst + i) ∙ kept ∙ ap m index))
          (second.bytes (i - la) (ground (arith, after, l)))
  ];
  terminator =
      let end : padded m (dst + la) src lb lb (dst + (la + lb)) ≡ 0 = ground arith in
      h (dst + (la + lb)) ∙ end;
}

-- For a string that ends with fuel left, and a string at `src` that ends with fuel left and lies apart from
-- the bytes written, strcat gives at `dst` the string of both lengths, in which the bytes of the string
-- at `src` and its terminator stand from the first string's end on; every other byte is as it was.
pub strcat_lem :
    (m : Bytes) (f dst src la lb : ℕ)
    → IsString m dst la
    → IsString m src lb
    → la < f
    → lb < f
    → (dst + la + lb < src) ⊎ (src + lb < dst + la)
    → (m' : Bytes) × (strcat f m dst src ≡ some m')
      × IsString m' dst (la + lb)
      × ((a : ℕ) → m' a ≡ padded m (dst + la) src lb lb a)
unfolding strcat
strcat_lem m f dst src la lb first second l l' apart =
    let (m', e, bytes) = strcpy_from m f (dst + la) src lb second l' apart in
    (
      m',
      rw (strlen_lem m f dst la first l) e,
      copies-IsString m m' dst src la lb first second bytes,
      bytes,
    )
