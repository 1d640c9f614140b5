-- ===== src/Keyboard/Keys.antt =====
-- The key maps of drivers/char/ps2kbd.c. 8, 9, 10, 39 and 92 are backspace, tab, newline, the quote
-- and the backslash.
use lithium_kernel.Prelude.{ℕ, List, [], ◌∷◌, ◌==◌, if◌then◌else◌, get_or, set}

-- The first 58 entries; the others are 0.
abbrev pub sc1_normal : List ℕ
sc1_normal =
    0 ∷ 0 ∷ b'1' ∷ b'2' ∷ b'3' ∷ b'4' ∷ b'5' ∷ b'6' ∷ b'7' ∷ b'8' ∷ b'9' ∷ b'0' ∷ b'-' ∷ b'=' ∷ 8
    ∷ 9 ∷ b'q' ∷ b'w' ∷ b'e' ∷ b'r' ∷ b't' ∷ b'y' ∷ b'u' ∷ b'i' ∷ b'o' ∷ b'p' ∷ b'[' ∷ b']' ∷ 10 ∷ 0
    ∷ b'a' ∷ b's' ∷ b'd' ∷ b'f' ∷ b'g' ∷ b'h' ∷ b'j' ∷ b'k' ∷ b'l' ∷ b';' ∷ 39 ∷ b'`' ∷ 0 ∷ 92
    ∷ b'z' ∷ b'x' ∷ b'c' ∷ b'v' ∷ b'b' ∷ b'n' ∷ b'm' ∷ b',' ∷ b'.' ∷ b'/' ∷ 0 ∷ b'*' ∷ 0 ∷ b' ' ∷ []

abbrev pub sc1_shifted : List ℕ
sc1_shifted =
    0 ∷ 0 ∷ b'!' ∷ b'@' ∷ b'#' ∷ b'$' ∷ b'%' ∷ b'^' ∷ b'&' ∷ b'*' ∷ b'(' ∷ b')' ∷ b'_' ∷ b'+' ∷ 8
    ∷ 9 ∷ b'Q' ∷ b'W' ∷ b'E' ∷ b'R' ∷ b'T' ∷ b'Y' ∷ b'U' ∷ b'I' ∷ b'O' ∷ b'P' ∷ b'{' ∷ b'}' ∷ 10 ∷ 0
    ∷ b'A' ∷ b'S' ∷ b'D' ∷ b'F' ∷ b'G' ∷ b'H' ∷ b'J' ∷ b'K' ∷ b'L' ∷ b':' ∷ b'"' ∷ b'~' ∷ 0 ∷ b'|'
    ∷ b'Z' ∷ b'X' ∷ b'C' ∷ b'V' ∷ b'B' ∷ b'N' ∷ b'M' ∷ b'<' ∷ b'>' ∷ b'?' ∷ 0 ∷ b'*' ∷ 0 ∷ b' ' ∷ []

-- The entries given; the others are 0.
abbrev pub sc2_normal : List (ℕ × ℕ)
sc2_normal =
    (13, 9)
    ∷ (14, b'`')
    ∷ (21, b'q')
    ∷ (22, b'1')
    ∷ (26, b'z')
    ∷ (27, b's')
    ∷ (28, b'a')
    ∷ (29, b'w')
    ∷ (30, b'2')
    ∷ (33, b'c')
    ∷ (34, b'x')
    ∷ (35, b'd')
    ∷ (36, b'e')
    ∷ (37, b'4')
    ∷ (38, b'3')
    ∷ (41, b' ')
    ∷ (42, b'v')
    ∷ (43, b'f')
    ∷ (44, b't')
    ∷ (45, b'r')
    ∷ (46, b'5')
    ∷ (49, b'n')
    ∷ (50, b'b')
    ∷ (51, b'h')
    ∷ (52, b'g')
    ∷ (53, b'y')
    ∷ (54, b'6')
    ∷ (58, b'm')
    ∷ (59, b'j')
    ∷ (60, b'u')
    ∷ (61, b'7')
    ∷ (62, b'8')
    ∷ (65, b',')
    ∷ (66, b'k')
    ∷ (67, b'i')
    ∷ (68, b'o')
    ∷ (69, b'0')
    ∷ (70, b'9')
    ∷ (73, b'.')
    ∷ (74, b'/')
    ∷ (75, b'l')
    ∷ (76, b';')
    ∷ (77, b'p')
    ∷ (78, b'-')
    ∷ (82, 39)
    ∷ (84, b'[')
    ∷ (85, b'=')
    ∷ (90, 10)
    ∷ (91, b']')
    ∷ (93, 92)
    ∷ (102, 8)
    ∷ []

abbrev pub sc2_shifted : List (ℕ × ℕ)
sc2_shifted =
    (13, 9)
    ∷ (14, b'~')
    ∷ (21, b'Q')
    ∷ (22, b'!')
    ∷ (26, b'Z')
    ∷ (27, b'S')
    ∷ (28, b'A')
    ∷ (29, b'W')
    ∷ (30, b'@')
    ∷ (33, b'C')
    ∷ (34, b'X')
    ∷ (35, b'D')
    ∷ (36, b'E')
    ∷ (37, b'$')
    ∷ (38, b'#')
    ∷ (41, b' ')
    ∷ (42, b'V')
    ∷ (43, b'F')
    ∷ (44, b'T')
    ∷ (45, b'R')
    ∷ (46, b'%')
    ∷ (49, b'N')
    ∷ (50, b'B')
    ∷ (51, b'H')
    ∷ (52, b'G')
    ∷ (53, b'Y')
    ∷ (54, b'^')
    ∷ (58, b'M')
    ∷ (59, b'J')
    ∷ (60, b'U')
    ∷ (61, b'&')
    ∷ (62, b'*')
    ∷ (65, b'<')
    ∷ (66, b'K')
    ∷ (67, b'I')
    ∷ (68, b'O')
    ∷ (69, b')')
    ∷ (70, b'(')
    ∷ (73, b'>')
    ∷ (74, b'?')
    ∷ (75, b'L')
    ∷ (76, b':')
    ∷ (77, b'P')
    ∷ (78, b'_')
    ∷ (82, b'"')
    ∷ (84, b'{')
    ∷ (85, b'+')
    ∷ (90, 10)
    ∷ (91, b'}')
    ∷ (93, b'|')
    ∷ (102, 8)
    ∷ []

-- An entry of a map that is written as designated entries.
unfoldable pub entry : List (ℕ × ℕ) → ℕ → ℕ
entry [] key = 0
entry ((k, c) ∷ m) key = if k == key then c else entry m key

-- `normal` and `shifted` of each set.
abbrev pub normal : ℕ → ℕ → ℕ
normal set key = if set == 1 then get_or sc1_normal key 0 else entry sc2_normal key

abbrev pub shifted : ℕ → ℕ → ℕ
shifted set key = if set == 1 then get_or sc1_shifted key 0 else entry sc2_shifted key
