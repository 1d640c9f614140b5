-- ===== src/Vga/Examples.antt =====
-- The theorems about drivers/char/vga.c at a blank screen with the cursor in the last row.
use lithium_kernel.Prelude.{ℕ, List, [], ◌∷◌, arith}
use lithium_kernel.Vga.{Screen, vga_puts}
use lithium_kernel.Vga.Scroll.{OnScreen, Outside, vga_puts-OnScreen}

abbrev demo_screen : Screen
demo_screen = record { buf = λ i. 0; row = 24; col = 79; color = 7 }

abbrev demo_text : List ℕ
demo_text = b'h' ∷ b'i' ∷ 10 ∷ []

vga_puts-OnScreen_example :
    OnScreen (vga_puts demo_text demo_screen)
    × Outside demo_screen.buf (vga_puts demo_text demo_screen)
vga_puts-OnScreen_example =
    vga_puts-OnScreen demo_text demo_screen (record { row = omega arith; col = omega arith })
