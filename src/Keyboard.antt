-- ===== src/Keyboard.antt =====
-- The scancode decoder of drivers/char/ps2kbd.c: its state, and one function per function there. A
-- scancode is a byte, so `& 0x80` is a comparison with 128 and `& 0x7F` a remainder. The driver's
-- port input and output are not part of it.
pub mod Buffer
pub mod Keys
pub mod Layout
pub mod Decode
pub mod Poll
mod Examples
use lithium_kernel.Prelude.{
  ℕ, zero, suc, ◌+◌, ◌-◌, ◌*◌, ◌/◌, ◌%◌, ◌^◌, ◌≤◌, ◌<◌, min, max, ◌≡◌, refl, sym, ap, ◌∙◌, ◌≢◌, ◌↔◌,
  ◌⊎◌, inl, inr, Bool, true, false, not, ◌&&◌, ◌||◌, Option, none, some, List, [], ◌∷◌, ◌++◌, map,
  arith, ltb, leb, ◌==◌, if◌then◌else◌, lt→ltb, ltb→lt, leb→le, ==_iff, ==→eq, Bool-cases,
  Option-cases, update, Outcome, ok, halted, kassert, count, count-congr, count-clear, count-pos,
  count_witness, count-le, length, get_elem?, get_or, set, take, drop, replicate, length-append,
  length-set, get_elem?-set_self, get_elem?-set_ne, take-append-drop, length-take, length-drop,
  length-replicate, take_append, drop_append, take_all,
}
use lithium_kernel.Keyboard.Buffer.{Ring, buf_push, next_char}
use lithium_kernel.Keyboard.Keys.{sc1_normal, sc2_normal, entry, normal, shifted}

-- The variables of the decoder; `set` is `kbd_scancode_set`, 0 while it is not known.
pub record Decoder : Type 0 where
  pub shift : Bool
  pub caps : Bool
  pub ctrl : Bool
  pub alt : Bool
  pub set2_release : Bool
  pub extended : Bool
  pub set : ℕ

-- `kbd_decode_reset`
abbrev pub reset : Decoder
reset = record {
  shift = false;
  caps = false;
  ctrl = false;
  alt = false;
  set2_release = false;
  extended = false;
  set = 0;
}

-- `kbd_decode_set_scancode_set`
pub set_scancode_set : ℕ → Decoder → Decoder
set_scancode_set set d = if leb set 2 then record d { set = set } else d

abbrev pub is_alpha : ℕ → Bool
is_alpha c = (leb b'a' c && leb c b'z') || (leb b'A' c && leb c b'Z')

abbrev pub is_alnum : ℕ → Bool
is_alnum c = is_alpha c || (leb b'0' c && leb c b'9')

abbrev pub is_modifier_set1 : ℕ → Bool
is_modifier_set1 key =
    (key == 0x2A) || (key == 0x36) || (key == 0x3A) || (key == 0x1D) || (key == 0x38)

abbrev pub is_modifier_set2 : ℕ → Bool
is_modifier_set2 key =
    (key == 0x12) || (key == 0x59) || (key == 0x58) || (key == 0x14) || (key == 0x11)

pub update_modifier : ℕ → ℕ → Bool → Decoder → Decoder
update_modifier set key release d =
    if set == 1
    then (if (key == 0x2A) || (key == 0x36)
        then record d { shift = not release }
        else if (key == 0x3A) && not release
        then record d { caps = not d.caps }
        else if key == 0x1D
        then record d { ctrl = not release }
        else if key == 0x38
        then record d { alt = not release }
        else d)
    else (if (key == 0x12) || (key == 0x59)
        then record d { shift = not release }
        else if (key == 0x58) && not release
        then record d { caps = not d.caps }
        else if key == 0x14
        then record d { ctrl = not release }
        else if key == 0x11
        then record d { alt = not release }
        else d)

abbrev xor : Bool → Bool → Bool
xor true b = not b
xor false b = b

-- 0 when the key has no character.
pub translate : Decoder → ℕ → ℕ → ℕ
translate d set key =
    if leb 128 key
    then 0
    else let use_upper = if is_alpha (normal set key) then xor d.shift d.caps else d.shift in
      if use_upper then shifted set key else normal set key

abbrev is_blank : ℕ → Bool
is_blank c = (c == 10) || (c == 8) || (c == 9)

pub infer_set : ℕ → ℕ
infer_set key =
    let c1 = normal 1 key in
    let c2 = normal 2 key in
    if not (c2 == 0) && (c1 == 0)
    then 2
    else if not (c1 == 0) && (c2 == 0)
    then 1
    else if not (c1 == 0) && not (c2 == 0)
    then (if is_blank c1 && is_alpha c2
        then 2
        else if is_blank c1 && not (is_alpha c2)
        then 1
        else if not (is_alnum c1) && is_alnum c2
        then 2
        else 1)
    else if is_modifier_set2 key && not (is_modifier_set1 key)
    then 2
    else 1

-- What a scancode that is not a prefix says: the set, whether it is a release, and the key.
pub record Event : Type 0 where
  pub set : ℕ
  pub release : Bool
  pub key : ℕ

-- With it the state: `kbd_set2_release` is cleared where the set is 2.
pub event : Decoder → ℕ → Decoder × Event
event d scancode =
    if (d.set == 2) || d.set2_release
    then (
      record d { set2_release = false },
      record { set = 2; release = d.set2_release; key = scancode },
    )
    else if d.set == 1
    then (d, record { set = 1; release = leb 128 scancode; key = scancode % 128 })
    else if leb 128 scancode
    then (d, record { set = 1; release = true; key = scancode % 128 })
    else (d, record { set = infer_set scancode; release = false; key = scancode })

emit : Decoder → Event → Decoder × Option ℕ
emit d e =
    if d.ctrl && (((e.set == 1) && (e.key == 0x2E)) || ((e.set == 2) && (e.key == 0x21)))
    then (d, some 3)
    else let c = translate d e.set e.key in
      if not (c == 0) then (record d { set = e.set }, some c) else (d, none)

-- The rest of `kbd_decode_scancode`, for that event.
pub act : Decoder → Event → Decoder × Option ℕ
act d e =
    if d.extended
    then (
      record d {
        extended = false;
        ctrl = if (e.set == 2) && (e.key == 0x14) then not e.release else d.ctrl;
      },
      none,
    )
    else let d' = update_modifier e.set e.key e.release d in
      if ((e.set == 1) && is_modifier_set1 e.key)
        || ((e.set == 2) && is_modifier_set2 e.key)
        || e.release
      then (d', none)
      else emit d' e

-- `some c` is true with `c` in `out`.
pub kbd_decode_scancode : Decoder → ℕ → Decoder × Option ℕ
kbd_decode_scancode d scancode =
    if scancode == 0xE0
    then (record d { extended = true }, none)
    else if scancode == 0xF0
    then (record d { set2_release = true; set = 2 }, none)
    else (let (d', e) = event d scancode in act d' e)

push_decoded : Ring → Decoder × Option ℕ → Decoder × Ring
push_decoded r (d, none) = (d, r)
push_decoded r (d, some c) = (d, if not (c == 0) then buf_push c r else r)

pub handle_scancode : Decoder × Ring → ℕ → Decoder × Ring
handle_scancode (d, r) scancode = push_decoded r (kbd_decode_scancode d scancode)

-- `kbd_poll`, at most `n` times: what the status port and the data port give each time. A byte from
-- the mouse is dropped.
pub poll : ℕ → Decoder × Ring → List (ℕ × ℕ) → Decoder × Ring
poll zero k readings = k
poll (suc n) k [] = k
poll (suc n) k ((status, byte) ∷ readings) =
    if status % 2 == 0
    then k
    else poll n (if (status / 32) % 2 == 1 then k else handle_scancode k byte) readings

abbrev pub kbd_poll : Decoder × Ring → List (ℕ × ℕ) → Decoder × Ring
kbd_poll = poll 16

pub kbd_trygetchar : Decoder × Ring → List (ℕ × ℕ) → (Decoder × Ring) × ℕ
kbd_trygetchar k readings =
    let (d, r) = kbd_poll k readings in let (r', c) = next_char r in ((d, r'), c)
