-- ===== src/Keyboard/Buffer.antt =====
-- The ring buffer of drivers/char/ps2kbd.c: buf_push, kbd_available and what kbd_trygetchar does
-- after its poll.
use lithium_kernel.Prelude.{
  ℕ, zero, suc, ◌+◌, ◌-◌, ◌%◌, ◌<◌, ◌≡◌, refl, ap, ◌∙◌, ◌⊎◌, inl, inr, Bool, true, false, not, List,
  [], ◌∷◌, ◌++◌, arith, ltb, ◌==◌, if◌then◌else◌, Bool-cases, update, length,
}
use mathlib.Core.Path.{ap₂}

-- `kbd_buf`, `kbd_head` and `kbd_tail`
pub record Ring : Type 0 where
  pub buf : ℕ → ℕ
  pub head : ℕ
  pub tail : ℕ

-- KBD_BUF_SIZE, a power of two: `& (KBD_BUF_SIZE - 1)` is a remainder.
abbrev pub buf_size : ℕ
buf_size = 256

pub buf_push : ℕ → Ring → Ring
buf_push c r =
    let next = (r.tail + 1) % buf_size in
    if not (next == r.head) then record r { buf = update r.buf r.tail c; tail = next } else r

pub available : Ring → Bool
available r = not (r.head == r.tail)

-- 0 when there is none.
pub next_char : Ring → Ring × ℕ
next_char r =
    if not (available r)
    then (r, 0)
    else (record r { head = (r.head + 1) % buf_size }, r.buf r.head)

-- The bytes that wait, the oldest first.
abbrev window : (ℕ → ℕ) → ℕ → ℕ → List ℕ
window f h zero = []
window f h (suc n) = f h ∷ window f ((h + 1) % buf_size) n

abbrev waiting : Ring → ℕ
waiting r = (r.tail + buf_size - r.head) % buf_size

unfoldable pub contents : Ring → List ℕ
contents r = window r.buf r.head (waiting r)

pub record IsRing (r : Ring) : Type 0 where
  pub head : r.head < buf_size
  pub tail : r.tail < buf_size

length-window : (f : ℕ → ℕ) (h n : ℕ) → length (window f h n) ≡ n
length-window f h zero = refl
length-window f h (suc n) = ap suc (length-window f ((h + 1) % buf_size) n)

-- A byte put after the window.
window-push :
    (f : ℕ → ℕ) (h n c : ℕ)
    → h < buf_size
    → n + 1 < buf_size
    → window (update f ((h + n) % buf_size) c) h (n + 1) ≡ window f h n ++ c ∷ []
window-push f h zero c lh l =
    let here : (h + 0) % buf_size ≡ h = omega arith in ap (λ x. x ∷ []) (ground (arith, here))
window-push f h (suc n) c lh l =
    let other : ((h + suc n) % buf_size == h) ≡ false = ground arith in
    let place : (h + suc n) % buf_size ≡ ((h + 1) % buf_size + n) % buf_size = omega arith in
    let more : suc n + 1 ≡ suc (n + 1) = omega arith in
    rw more (
      ap₂ ◌∷◌ (rw other refl) (
        ap (λ t. window (update f t c) ((h + 1) % buf_size) (n + 1)) place
        ∙ window-push f ((h + 1) % buf_size) n c (omega arith) (omega arith)))

pub length-contents : (r : Ring) → IsRing r → length (contents r) < buf_size
unfolding contents
length-contents r i = omega (arith, length-window r.buf r.head (waiting r))

buf_push-IsRing : (c : ℕ) (r : Ring) → IsRing r → IsRing (buf_push c r)
unfolding buf_push
buf_push-IsRing c r i = elim (Bool-cases ((r.tail + 1) % buf_size == r.head)) [
  | inl e ↦ rw (e, buf_push) i
  | inr e ↦ rw (e, buf_push) record { head = i.head; tail = omega arith }
]

-- A byte pushed waits behind the others, unless 255 wait already: then it is dropped. The indices
-- stay inside the buffer.
pub buf_push_lem :
    (c : ℕ) (r : Ring)
    → IsRing r
    → IsRing (buf_push c r)
      × (contents (buf_push c r)
          ≡ (if ltb (length (contents r)) (buf_size - 1) then contents r ++ c ∷ [] else contents r))
unfolding contents buf_push
buf_push_lem c r i =
    let h = i.head in
    let t = i.tail in
    let len = length-window r.buf r.head (waiting r) in
    (
      buf_push-IsRing c r i,
      elim (Bool-cases ((r.tail + 1) % buf_size == r.head)) [
        | inl e ↦
            let full : ltb (length (window r.buf r.head (waiting r))) (buf_size - 1) ≡ false =
              ground (arith, len, e, h, t) in
            rw (e, full) refl
        | inr e ↦
            let room : waiting r + 1 < buf_size = ground (arith, e, h, t) in
            let test : ltb (length (window r.buf r.head (waiting r))) (buf_size - 1) ≡ true =
              ground (arith, len, room) in
            let more : ((r.tail + 1) % buf_size + buf_size - r.head) % buf_size ≡ waiting r + 1 =
              ground (arith, e, h, t) in
            let place : r.tail ≡ (r.head + waiting r) % buf_size = omega arith in
            rw (e, test)
              (ap (window (update r.buf r.tail c) r.head) more
                ∙ ap (λ k. window (update r.buf k c) r.head (waiting r + 1)) place
                ∙ window-push r.buf r.head (waiting r) c h room)
      ],
    )

-- The bytes come out in the order in which they wait; with none, the result is 0 and nothing
-- changes.
pub next_char_lem :
    (r : Ring)
    → IsRing r
    → let (r', c) = next_char r in
      IsRing r' × (((contents r ≡ []) × (c ≡ 0) × (r' ≡ r)) ⊎ (contents r ≡ c ∷ contents r'))
unfolding contents next_char available
next_char_lem r i = elim (Bool-cases (r.head == r.tail)) [
  | inl e ↦
      let none_waits : waiting r ≡ 0 = ground (arith, e, i.head) in
      rw e (i, inl (ap (window r.buf r.head) none_waits, refl, refl))
  | inr e ↦
      let h = i.head in
      let t = i.tail in
      let one_waits : waiting r ≡ suc ((r.tail + buf_size - (r.head + 1) % buf_size) % buf_size) =
        ground (arith, e, h, t) in
      rw e (record { head = omega arith; tail = t }, inr (ap (window r.buf r.head) one_waits))
]
