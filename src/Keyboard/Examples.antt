-- ===== src/Keyboard/Examples.antt =====
-- The theorems about drivers/char/ps2kbd.c at an empty buffer and the key of the letter q.
use lithium_kernel.Prelude.{ℕ, ◌<◌, ◌≡◌, ◌⊎◌, List, [], ◌∷◌, arith}
use lithium_kernel.Keyboard.{Decoder, reset, kbd_poll, kbd_trygetchar}
use lithium_kernel.Keyboard.Buffer.{Ring, contents, IsRing}
use lithium_kernel.Keyboard.Poll.{IsKeyboard, kbd_trygetchar_lem}

abbrev demo_ring : Ring
demo_ring = record { buf = λ i. 0; head = 0; tail = 0 }

demo_ring-IsRing : IsRing demo_ring
demo_ring-IsRing = record { head = omega arith; tail = omega arith }

abbrev demo_keyboard : Decoder × Ring
demo_keyboard = (reset, demo_ring)

demo_keyboard-IsKeyboard : IsKeyboard demo_keyboard
unfolding contents
demo_keyboard-IsKeyboard = record { decoder = omega arith; ring = demo_ring-IsRing; chars = tt }

abbrev demo_key : ℕ
demo_key = 0x10

abbrev demo_readings : List (ℕ × ℕ)
demo_readings = (1, demo_key) ∷ []

kbd_trygetchar_lem_example :
    let waits = contents (kbd_poll demo_keyboard demo_readings).1 in
    let (k', c) = kbd_trygetchar demo_keyboard demo_readings in
    IsKeyboard k'
    × (((waits ≡ []) × (c ≡ 0) × (contents k'.1 ≡ []))
        ⊎ ((0 < c) × (c < 128) × (waits ≡ c ∷ contents k'.1)))
kbd_trygetchar_lem_example = kbd_trygetchar_lem demo_keyboard demo_readings demo_keyboard-IsKeyboard
