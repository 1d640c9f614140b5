-- ===== src/Keyboard/Poll.antt =====
-- Polling in drivers/char/ps2kbd.c: the decoder and the ring buffer together.
use lithium_kernel.Prelude.{
  ℕ, zero, suc, ◌-◌, ◌/◌, ◌%◌, ◌<◌, ◌≡◌, refl, sym, ap, ◌∙◌, ◌⊎◌, inl, inr, false, Option, none,
  some, List, [], ◌∷◌, ◌++◌, arith, ltb, ◌==◌, if◌then◌else◌, Bool-cases, length, if-both,
}
use mathlib.Core.Path.{subst}
use lithium_kernel.Keyboard.{
  Decoder, kbd_decode_scancode, push_decoded, handle_scancode, poll, kbd_poll, kbd_trygetchar,
}
use lithium_kernel.Keyboard.Buffer.{
  Ring, IsRing, contents, buf_push_lem, next_char, next_char_lem, buf_size,
}
use lithium_kernel.Keyboard.Decode.{IsDecoder, IsChar, kbd_decode_scancode_lem}

-- Every byte that waits is a character.
abbrev pub AllChars : List ℕ → Type 0
AllChars [] = Unit {0}
AllChars (c ∷ cs) = (0 < c) × (c < 128) × AllChars cs

-- The keyboard's state.
pub record IsKeyboard (k : Decoder × Ring) : Type 0 where
  pub decoder : IsDecoder k.0
  pub ring : IsRing k.1
  pub chars : AllChars (contents k.1)

AllChars-append : (xs : List ℕ) (c : ℕ) → 0 < c → c < 128 → AllChars xs → AllChars (xs ++ c ∷ [])
AllChars-append [] c p l h = (p, l, tt)
AllChars-append (x ∷ xs) c p l (a, b, h) = (a, b, AllChars-append xs c p l h)

push_decoded-IsKeyboard :
    (r : Ring) (d : Decoder) (o : Option ℕ)
    → IsDecoder d
    → IsChar o
    → IsRing r
    → AllChars (contents r)
    → IsKeyboard (push_decoded r (d, o))
unfolding push_decoded
push_decoded-IsKeyboard r d none hd hc hr ha = record { decoder = hd; ring = hr; chars = ha }
push_decoded-IsKeyboard r d (some c) hd (p, l) hr ha =
    let some_char : (c == 0) ≡ false = ground arith in
    let (ring, held) = buf_push_lem c r hr in
    rw some_char record {
      decoder = hd;
      ring = ring;
      chars = elim (Bool-cases (ltb (length (contents r)) (buf_size - 1))) [
        | inl e ↦ subst AllChars (sym (held ∙ rw e refl)) (AllChars-append (contents r) c p l ha)
        | inr e ↦ subst AllChars (sym (held ∙ rw e refl)) ha
      ];
    }

handle_scancode-IsKeyboard :
    (k : Decoder × Ring) (s : ℕ) → IsKeyboard k → IsKeyboard (handle_scancode k s)
unfolding handle_scancode
handle_scancode-IsKeyboard (d, r) s h =
    let (a, b) = kbd_decode_scancode_lem d s h.decoder in
    push_decoded-IsKeyboard r (kbd_decode_scancode d s).0 (kbd_decode_scancode d s).1 a b h.ring
      h.chars

poll-IsKeyboard :
    (n : ℕ) (k : Decoder × Ring) (readings : List (ℕ × ℕ))
    → IsKeyboard k
    → IsKeyboard (poll n k readings)
unfolding poll
poll-IsKeyboard zero k readings h = h
poll-IsKeyboard (suc n) k [] h = h
poll-IsKeyboard (suc n) k ((status, byte) ∷ readings) h = if-both (status % 2 == 0) IsKeyboard h (
    poll-IsKeyboard n (if (status / 32) % 2 == 1 then k else handle_scancode k byte) readings
      (if-both ((status / 32) % 2 == 1) IsKeyboard h (handle_scancode-IsKeyboard k byte h)))

-- `kbd_trygetchar` polls first. It keeps the keyboard's state well-formed whatever the ports give,
-- and returns 0 exactly when no byte waits after the poll; otherwise it takes the byte that has
-- waited longest, which is between 1 and 127.
pub kbd_trygetchar_lem :
    (k : Decoder × Ring) (readings : List (ℕ × ℕ))
    → IsKeyboard k
    → let waits = contents (kbd_poll k readings).1 in
      let (k', c) = kbd_trygetchar k readings in
      IsKeyboard k'
      × (((waits ≡ []) × (c ≡ 0) × (contents k'.1 ≡ []))
          ⊎ ((0 < c) × (c < 128) × (waits ≡ c ∷ contents k'.1)))
unfolding kbd_trygetchar
kbd_trygetchar_lem k readings h =
    let p = poll-IsKeyboard 16 k readings h in
    let (ring, taken) = next_char_lem (kbd_poll k readings).1 p.ring in
    elim taken [
      | inl (empty, zero_char, same) ↦
          let still = ap contents same ∙ empty in
          (
            record { decoder = p.decoder; ring = ring; chars = subst AllChars (sym still) tt },
            inl (empty, zero_char, still),
          )
      | inr first ↦
          let (a, b, rest) : AllChars (
              (next_char (kbd_poll k readings).1).1
              ∷ contents (next_char (kbd_poll k readings).1).0) =
            subst AllChars first p.chars in
          (record { decoder = p.decoder; ring = ring; chars = rest }, inr (a, b, first))
    ]
