-- ===== src/Keyboard/Decode.antt =====
-- What the decoder of drivers/char/ps2kbd.c promises: the characters it gives, and that releasing a
-- key undoes pressing it.
use lithium_kernel.Prelude.{
  ℕ, ◌+◌, ◌%◌, ◌≤◌, ◌<◌, ◌≡◌, ap, ◌∙◌, ◌≢◌, inl, inr, Bool, true, false, ◌&&◌, ◌||◌, Option, none,
  some, arith, leb, ◌==◌, Bool-cases, set, if-both,
}
use lithium_kernel.Keyboard.{
  Decoder, Event, update_modifier, translate, infer_set, event, emit, act, kbd_decode_scancode,
  is_modifier_set1, is_modifier_set2,
}
use lithium_kernel.Keyboard.Layout.{normal_ascii, shifted_ascii}

-- `kbd_scancode_set` names a set, or is 0.
abbrev pub IsDecoder : Decoder → Type 0
IsDecoder d = d.set ≤ 2

-- A character other than the terminator.
abbrev pub IsChar : Option ℕ → Type 0
IsChar none = Unit {0}
IsChar (some c) = (0 < c) × (c < 128)

translate-lt : (d : Decoder) (set key : ℕ) → translate d set key < 128
unfolding translate
translate-lt d set key = elim (Bool-cases (leb 128 key)) [
  | inl e ↦ rw e (omega arith)
  | inr e ↦
      let l : key < 128 = ground (arith, e) in
      ground (arith, normal_ascii set key l, shifted_ascii set key l)
]

update_modifier-set :
    (set key : ℕ) (release : Bool) (d : Decoder) → (update_modifier set key release d).set ≡ d.set
unfolding update_modifier
update_modifier-set set key release d = ground arith

infer_set-le : (key : ℕ) → infer_set key ≤ 2
unfolding infer_set
infer_set-le key = ground arith

emit_lem :
    (d : Decoder) (e : Event) → d.set ≤ 2 → e.set ≤ 2 → ((emit d e).0.set ≤ 2) × IsChar (emit d e).1
unfolding emit
emit_lem d e h k =
    elim (Bool-cases
      (d.ctrl && (((e.set == 1) && (e.key == 0x2E)) || ((e.set == 2) && (e.key == 0x21))))) [
        | inl q ↦ rw q (h, (omega arith, omega arith))
        | inr q ↦ elim (Bool-cases (translate d e.set e.key == 0)) [
          | inl z ↦ rw (q, z) (h, tt)
          | inr z ↦ rw (q, z) (k, (ground (arith, z), translate-lt d e.set e.key))
        ]
      ]

event_lem : (d : Decoder) (s : ℕ) → d.set ≤ 2 → ((event d s).0.set ≤ 2) × ((event d s).1.set ≤ 2)
unfolding event
event_lem d s h = elim (Bool-cases ((d.set == 2) || d.set2_release)) [
  | inl q ↦ rw q (h, omega arith)
  | inr q ↦ elim (Bool-cases (d.set == 1)) [
    | inl p ↦ rw (q, p) (h, omega arith)
    | inr p ↦ elim (Bool-cases (leb 128 s)) [
      | inl b ↦ rw (q, p, b) (h, omega arith)
      | inr b ↦ rw (q, p, b) (h, infer_set-le s)
    ]
  ]
]

silent : Event → Bool
silent e =
    ((e.set == 1) && is_modifier_set1 e.key)
    || ((e.set == 2) && is_modifier_set2 e.key)
    || e.release

act_lem :
    (d : Decoder) (e : Event) → d.set ≤ 2 → e.set ≤ 2 → ((act d e).0.set ≤ 2) × IsChar (act d e).1
unfolding act silent
act_lem d e h k =
    let le : (update_modifier e.set e.key e.release d).set ≤ 2 =
      omega (arith, update_modifier-set e.set e.key e.release d) in
    if-both d.extended (λ (r : Decoder × Option ℕ). (r.0.set ≤ 2) × IsChar r.1) (h, tt)
      (if-both (silent e) (λ (r : Decoder × Option ℕ). (r.0.set ≤ 2) × IsChar r.1) (le, tt)
        (emit_lem (update_modifier e.set e.key e.release d) e le k))

-- Whatever the scancode, the decoder's set stays 0, 1 or 2, and a character that
-- `kbd_decode_scancode` gives is between 1 and 127.
pub kbd_decode_scancode_lem :
    (d : Decoder) (s : ℕ)
    → IsDecoder d
    → let (d', r) = kbd_decode_scancode d s in IsDecoder d' × IsChar r
unfolding kbd_decode_scancode
kbd_decode_scancode_lem d s h = elim (Bool-cases (s == 0xE0)) [
  | inl q ↦ rw q (h, tt)
  | inr q ↦ elim (Bool-cases (s == 0xF0)) [
    | inl p ↦ rw (q, p) (omega arith, tt)
    | inr p ↦ let (a, b) = event_lem d s h in rw (q, p) (act_lem (event d s).0 (event d s).1 a b)
  ]
]

-- A decoder with no prefix pending.
abbrev pub at_rest : Bool → Bool → Bool → Bool → ℕ → Decoder
at_rest shift caps ctrl alt set = record {
  shift = shift;
  caps = caps;
  ctrl = ctrl;
  alt = alt;
  set2_release = false;
  extended = false;
  set = set;
}

update_plain1 :
    (key : ℕ) (release : Bool) (d : Decoder)
    → is_modifier_set1 key ≡ false
    → update_modifier 1 key release d ≡ d
unfolding update_modifier
update_plain1 key release d h = ground (arith, h)

update_plain2 :
    (key : ℕ) (release : Bool) (d : Decoder)
    → is_modifier_set2 key ≡ false
    → update_modifier 2 key release d ≡ d
unfolding update_modifier
update_plain2 key release d h = ground (arith, h)

emit_rest :
    (s c t a : Bool) (e : Event) → (emit (at_rest s c t a e.set) e).0 ≡ at_rest s c t a e.set
unfolding emit
emit_rest s c t a e = ground arith

press2 :
    (s c t a : Bool) (key : ℕ)
    → key ≢ 0xE0
    → key ≢ 0xF0
    → is_modifier_set2 key ≡ false
    → (kbd_decode_scancode (at_rest s c t a 2) key).0 ≡ at_rest s c t a 2
unfolding kbd_decode_scancode event act
press2 s c t a key x y m =
    let x' : (key == 0xE0) ≡ false = ground (arith, x) in
    let y' : (key == 0xF0) ≡ false = ground (arith, y) in
    let d = at_rest s c t a 2 in
    let e : Event = record { set = 2; release = false; key = key } in
    rw (x', y', m) (ap (λ k. (emit k e).0) (update_plain2 key false d m) ∙ emit_rest s c t a e)

release2 :
    (s c t a : Bool) (key : ℕ)
    → key ≢ 0xE0
    → key ≢ 0xF0
    → is_modifier_set2 key ≡ false
    → kbd_decode_scancode (kbd_decode_scancode (at_rest s c t a 2) 0xF0).0 key
      ≡ (at_rest s c t a 2, none)
unfolding kbd_decode_scancode event act
release2 s c t a key x y m =
    let x' : (key == 0xE0) ≡ false = ground (arith, x) in
    let y' : (key == 0xF0) ≡ false = ground (arith, y) in
    rw (x', y', m) (ap (λ k. (k, none)) (update_plain2 key true (at_rest s c t a 2) m))

press1 :
    (s c t a : Bool) (key : ℕ)
    → key < 128
    → is_modifier_set1 key ≡ false
    → (kbd_decode_scancode (at_rest s c t a 1) key).0 ≡ at_rest s c t a 1
unfolding kbd_decode_scancode event act
press1 s c t a key l m =
    let x' : (key == 0xE0) ≡ false = ground arith in
    let y' : (key == 0xF0) ≡ false = ground arith in
    let low : leb 128 key ≡ false = ground arith in
    let same : key % 128 ≡ key = omega arith in
    let d = at_rest s c t a 1 in
    let e : Event = record { set = 1; release = false; key = key } in
    rw (x', y', low, same, m)
      (ap (λ k. (emit k e).0) (update_plain1 key false d m) ∙ emit_rest s c t a e)

release1 :
    (s c t a : Bool) (key : ℕ)
    → key < 128
    → key ≢ 0x60
    → key ≢ 0x70
    → is_modifier_set1 key ≡ false
    → kbd_decode_scancode (at_rest s c t a 1) (key + 128) ≡ (at_rest s c t a 1, none)
unfolding kbd_decode_scancode event act
release1 s c t a key l x y m =
    let x' : (key + 128 == 0xE0) ≡ false = ground (arith, x) in
    let y' : (key + 128 == 0xF0) ≡ false = ground (arith, y) in
    let high : leb 128 (key + 128) ≡ true = ground arith in
    let same : (key + 128) % 128 ≡ key = omega arith in
    rw (x', y', high, same, m) (ap (λ k. (k, none)) (update_plain1 key true (at_rest s c t a 1) m))

-- Once the set is known and no prefix is pending, pressing and releasing a key that is no modifier
-- leaves the decoder as it was, whatever modifiers are held, and the release gives no character. In
-- the second set the release is 0xF0 and the key, and the key is no prefix; in the first it is the
-- key plus 128, which is no prefix either.
pub kbd_decode_scancode-release :
    (s c t a : Bool) (key : ℕ)
    → (key ≢ 0xE0
        → key ≢ 0xF0
        → is_modifier_set2 key ≡ false
        → kbd_decode_scancode
            (kbd_decode_scancode (kbd_decode_scancode (at_rest s c t a 2) key).0 0xF0).0
            key
          ≡ (at_rest s c t a 2, none))
      × (key < 128
          → key ≢ 0x60
          → key ≢ 0x70
          → is_modifier_set1 key ≡ false
          → kbd_decode_scancode (kbd_decode_scancode (at_rest s c t a 1) key).0 (key + 128)
            ≡ (at_rest s c t a 1, none))
kbd_decode_scancode-release s c t a key = (
  λ x y m.
      ap (λ d. kbd_decode_scancode (kbd_decode_scancode d 0xF0).0 key) (press2 s c t a key x y m)
      ∙ release2 s c t a key x y m,
  λ l x y m.
      ap (λ d. kbd_decode_scancode d (key + 128)) (press1 s c t a key l m)
      ∙ release1 s c t a key l x y m,
)
