-- ===== src/Vga.antt =====
-- The text screen of drivers/char/vga.c: 25 rows of 80 cells, the cursor and the colour. A cell is
-- the number of the character and the colour.
pub mod Scroll
mod Examples
use lithium_kernel.Prelude.{
  ℕ, zero, suc, ◌+◌, ◌-◌, ◌*◌, ◌/◌, ◌%◌, ◌^◌, ◌≤◌, ◌<◌, min, max, ◌≡◌, refl, sym, ap, ◌∙◌, ◌≢◌, ◌↔◌,
  ◌⊎◌, inl, inr, Bool, true, false, not, ◌&&◌, ◌||◌, Option, none, some, List, [], ◌∷◌, ◌++◌, map,
  arith, ltb, leb, ◌==◌, if◌then◌else◌, lt→ltb, ltb→lt, leb→le, ==_iff, ==→eq, Bool-cases,
  Option-cases, update, Outcome, ok, halted, kassert, count, count-congr, count-clear, count-pos,
  count_witness, count-le, length, get_elem?, get_or, set, take, drop, replicate, length-append,
  length-set, get_elem?-set_self, get_elem?-set_ne, take-append-drop, length-take, length-drop,
  length-replicate, take_append, drop_append, take_all,
}

-- `VGA_BUF`, `vga_row`, `vga_col` and `vga_color`
pub record Screen : Type 0 where
  pub buf : ℕ → ℕ
  pub row : ℕ
  pub col : ℕ
  pub color : ℕ

-- VGA_WIDTH and VGA_HEIGHT
abbrev pub width : ℕ
width = 80

abbrev pub height : ℕ
height = 25

abbrev pub vga_entry : ℕ → ℕ → ℕ
vga_entry c color = c % 256 + color * 256

pub vga_set_color : ℕ → ℕ → Screen → Screen
vga_set_color fg bg s = record s { color = (bg % 16) * 16 + fg % 16 }

-- `n` cells from column `x` on, in row `y`, are blank.
pub blank_cells : (ℕ → ℕ) → ℕ → ℕ → ℕ → ℕ → ℕ → ℕ
blank_cells buf color y x zero = buf
blank_cells buf color y x (suc n) =
    blank_cells (update buf (y * width + x) (vga_entry b' ' color)) color y (x + 1) n

pub blank_rows : (ℕ → ℕ) → ℕ → ℕ → ℕ → ℕ → ℕ
blank_rows buf color y zero = buf
blank_rows buf color y (suc n) = blank_rows (blank_cells buf color y 0 width) color (y + 1) n

pub vga_clear : Screen → Screen
vga_clear s = record s { buf = blank_rows s.buf s.color 0 height; row = 0; col = 0 }

-- `n` cells from column `x` on take what stands below them.
pub raise_cells : (ℕ → ℕ) → ℕ → ℕ → ℕ → ℕ → ℕ
raise_cells buf y x zero = buf
raise_cells buf y x (suc n) =
    raise_cells (update buf (y * width + x) (buf ((y + 1) * width + x))) y (x + 1) n

pub raise_rows : (ℕ → ℕ) → ℕ → ℕ → ℕ → ℕ
raise_rows buf y zero = buf
raise_rows buf y (suc n) = raise_rows (raise_cells buf y 0 width) (y + 1) n

pub vga_scroll : Screen → Screen
vga_scroll s = record s {
  buf = blank_cells (raise_rows s.buf 0 (height - 1)) s.color (height - 1) 0 width;
  row = height - 1;
}

-- `if (++vga_row >= VGA_HEIGHT) vga_scroll()`
pub next_row : Screen → Screen
next_row s =
    let s' = record s { row = s.row + 1 } in if leb height s'.row then vga_scroll s' else s'

abbrev wrap : Screen → Screen
wrap s = if leb width s.col then next_row (record s { col = 0 }) else s

-- The `& ~7` of a tab is a multiple of 8.
pub vga_putchar : ℕ → Screen → Screen
vga_putchar c s =
    if c == 10
    then next_row (record s { col = 0 })
    else if c == 13
    then record s { col = 0 }
    else if c == 9
    then wrap (record s { col = (s.col + 8) / 8 * 8 })
    else wrap (record s {
      buf = update s.buf (s.row * width + s.col) (vga_entry c s.color);
      col = s.col + 1;
    })

pub vga_puts : List ℕ → Screen → Screen
vga_puts [] s = s
vga_puts (c ∷ cs) s = vga_puts cs (vga_putchar c s)
