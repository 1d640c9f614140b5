-- ===== src/Vga/Scroll.antt =====
-- The screen of drivers/char/vga.c: scrolling, and the bounds of the cursor and of every write.
use lithium_kernel.Prelude.{
  ℕ, zero, suc, ◌+◌, ◌-◌, ◌*◌, ◌/◌, ◌≤◌, ◌<◌, ◌≡◌, refl, ap, ◌∙◌, inl, inr, true, false, ◌&&◌, List,
  [], ◌∷◌, arith, ltb, leb, ◌==◌, if◌then◌else◌, Bool-cases, update, if-both,
}
use lithium_kernel.Vga.{
  Screen, width, height, vga_entry, blank_cells, raise_cells, raise_rows, vga_scroll, next_row,
  wrap, vga_putchar, vga_puts,
}

blank_cells_lem :
    (buf : ℕ → ℕ) (color y x n i : ℕ)
    → blank_cells buf color y x n i
      ≡ (if leb (y * width + x) i && ltb i (y * width + x + n) then vga_entry b' ' color else buf i)
unfolding blank_cells
blank_cells_lem buf color y x zero i = ground arith
blank_cells_lem buf color y x (suc n) i =
    blank_cells_lem (update buf (y * width + x) (vga_entry b' ' color)) color y (x + 1) n i
    ∙ ground arith

raised_cell :
    (buf : ℕ → ℕ) (y x n i : ℕ)
    → x + suc n ≤ width
    → (let buf' = update buf (y * width + x) (buf ((y + 1) * width + x)) in
        if leb (y * width + (x + 1)) i && ltb i (y * width + (x + 1) + n)
        then buf' (i + width)
        else buf' i)
      ≡ (if leb (y * width + x) i && ltb i (y * width + x + suc n) then buf (i + width) else buf i)
raised_cell buf y x n i l =
    elim (Bool-cases (leb (y * width + (x + 1)) i && ltb i (y * width + (x + 1) + n))) [
      | inl e ↦
          let inside : (leb (y * width + x) i && ltb i (y * width + x + suc n)) ≡ true =
            ground (arith, e) in
          let other : (y * width + x == i + width) ≡ false = ground (arith, e) in
          rw (e, other, inside) refl
      | inr e ↦ elim (Bool-cases (y * width + x == i)) [
        | inl q ↦
            let inside : (leb (y * width + x) i && ltb i (y * width + x + suc n)) ≡ true =
              ground (arith, q) in
            let below : (y + 1) * width + x ≡ i + width = ground (arith, q) in
            rw (e, q, inside) (ap buf below)
        | inr q ↦
            let outside : (leb (y * width + x) i && ltb i (y * width + x + suc n)) ≡ false =
              ground (arith, e, q) in
            rw (e, q, outside) refl
      ]
    ]

raise_cells_lem :
    (buf : ℕ → ℕ) (y x n i : ℕ)
    → x + n ≤ width
    → raise_cells buf y x n i
      ≡ (if leb (y * width + x) i && ltb i (y * width + x + n) then buf (i + width) else buf i)
unfolding raise_cells
raise_cells_lem buf y x zero i l = ground arith
raise_cells_lem buf y x (suc n) i l =
    raise_cells_lem (update buf (y * width + x) (buf ((y + 1) * width + x))) y (x + 1) n i
      (omega arith)
    ∙ raised_cell buf y x n i l

raise_rows_lem :
    (buf : ℕ → ℕ) (y n i : ℕ)
    → raise_rows buf y n i
      ≡ (if leb (y * width) i && ltb i ((y + n) * width) then buf (i + width) else buf i)
unfolding raise_rows
raise_rows_lem buf y zero i = ground arith
raise_rows_lem buf y (suc n) i =
    raise_rows_lem (raise_cells buf y 0 width) (y + 1) n i
    ∙ ground (
      arith,
      raise_cells_lem buf y 0 width i (omega arith),
      raise_cells_lem buf y 0 width (i + width) (omega arith),
    )

-- `vga_scroll` moves every row up by one, blanks the last in the current colour, changes nothing
-- outside the screen, and puts the cursor in the last row.
pub vga_scroll_lem :
    (s : Screen) (i : ℕ)
    → ((vga_scroll s).buf i ≡ (
        if ltb i ((height - 1) * width)
        then s.buf (i + width)
        else if ltb i (height * width)
        then vga_entry b' ' s.color
        else s.buf i))
      × ((vga_scroll s).row ≡ height - 1)
      × ((vga_scroll s).col ≡ s.col)
      × ((vga_scroll s).color ≡ s.color)
unfolding vga_scroll
vga_scroll_lem s i = (
  blank_cells_lem (raise_rows s.buf 0 (height - 1)) s.color (height - 1) 0 width i
      ∙ ground (arith, raise_rows_lem s.buf 0 (height - 1) i),
  refl,
  refl,
  refl,
)

-- The cursor is on the screen.
pub record OnScreen (s : Screen) : Type 0 where
  pub row : s.row < height
  pub col : s.col < width

-- The cells past the screen are those of `buf`.
abbrev pub Outside : (ℕ → ℕ) → Screen → Type 0
Outside buf s = (i : ℕ) → height * width ≤ i → s.buf i ≡ buf i

pub record Fine (buf : ℕ → ℕ) (s : Screen) : Type 0 where
  pub on : OnScreen s
  pub outside : Outside buf s

next_row-Fine :
    (buf : ℕ → ℕ) (s : Screen)
    → s.row < height
    → s.col < width
    → Outside buf s
    → Fine buf (next_row s)
unfolding next_row
next_row-Fine buf s r c o = elim (Bool-cases (leb height (s.row + 1))) [
  | inl e ↦
      let s' : Screen = record s { row = s.row + 1 } in
      let (_, row, col, _) = vga_scroll_lem s' 0 in
      rw (e, next_row)
        record {
          on = record { row = omega (arith, row); col = omega (arith, col) };
          outside =
              λ i l. let (cell, _, _, _) = vga_scroll_lem s' i in cell ∙ ground (arith, o i l);
        }
  | inr e ↦
      rw (e, next_row) record { on = record { row = ground (arith, e); col = c }; outside = o }
]

wrap-Fine : (buf : ℕ → ℕ) (s : Screen) → s.row < height → Outside buf s → Fine buf (wrap s)
wrap-Fine buf s r o = elim (Bool-cases (leb width s.col)) [
  | inl e ↦ rw e (next_row-Fine buf (record s { col = 0 }) r (omega arith) o)
  | inr e ↦ rw e record { on = record { row = r; col = ground (arith, e) }; outside = o }
]

vga_putchar-Fine : (c : ℕ) (buf : ℕ → ℕ) (s : Screen) → Fine buf s → Fine buf (vga_putchar c s)
unfolding vga_putchar
vga_putchar-Fine c buf s f =
    let (r, l, o) : (s.row < height) × (s.col < width) × Outside buf s =
      (f.on.row, f.on.col, f.outside) in
    if-both (c == 10) (Fine buf) (next_row-Fine buf (record s { col = 0 }) r (omega arith) o) (
      if-both (c == 13) (Fine buf)
        (record { on = record { row = r; col = omega arith }; outside = o })
        (if-both (c == 9) (Fine buf) (wrap-Fine buf (record s { col = (s.col + 8) / 8 * 8 }) r o) (
          wrap-Fine buf
            (record s {
              buf = update s.buf (s.row * width + s.col) (vga_entry c s.color);
              col = s.col + 1;
            })
            r (λ i h. ground (arith, o i h)))))

vga_puts-Fine : (cs : List ℕ) (buf : ℕ → ℕ) (s : Screen) → Fine buf s → Fine buf (vga_puts cs s)
unfolding vga_puts
vga_puts-Fine [] buf s f = f
vga_puts-Fine (c ∷ cs) buf s f = vga_puts-Fine cs buf (vga_putchar c s) (vga_putchar-Fine c buf s f)

-- Whatever is printed, the cursor stays on the screen and no write is outside of it.
pub vga_puts-OnScreen :
    (cs : List ℕ) (s : Screen)
    → OnScreen s
    → OnScreen (vga_puts cs s) × Outside s.buf (vga_puts cs s)
unfolding vga_puts
vga_puts-OnScreen cs s h =
    let f = vga_puts-Fine cs s.buf s (record { on = h; outside = λ i l. refl }) in (f.on, f.outside)
