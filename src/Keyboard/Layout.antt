-- ===== src/Keyboard/Layout.antt =====
-- The key maps of drivers/char/ps2kbd.c agree: letters pair with their capitals, and the two sets
-- of scancodes type the same characters.
use lithium_kernel.Prelude.{
  ℕ, ◌+◌, ◌<◌, ◌≡◌, refl, ◌≢◌, inl, inr, Bool, true, not, ◌&&◌, ◌||◌, List, [], ◌∷◌, arith, ltb,
  ◌==◌, if◌then◌else◌, Bool-cases, set, checks_below, checks_below_at,
}
use lithium_kernel.Keyboard.{is_alpha}
use lithium_kernel.Keyboard.Keys.{sc2_normal, entry, normal, shifted}

-- What every key below 128 of both sets satisfies.
abbrev implies : Bool → Bool → Bool
implies a b = not a || b

abbrev letter_pairs : ℕ → ℕ → Bool
letter_pairs set key = implies (is_alpha (normal set key)) (normal set key == shifted set key + 32)

abbrev is_ascii : ℕ → ℕ → Bool
is_ascii set key = ltb (normal set key) 128 && ltb (shifted set key) 128

checked : (set : ℕ) → checks_below 128 (λ k. letter_pairs set k && is_ascii set k) ≡ true
unfolding checks_below entry
checked set = elim (Bool-cases (set == 1)) [ inl e ↦ rw e refl | inr e ↦ rw e refl ]

-- In both sets a letter key's other character is its capital.
shifted_capital :
    (set key : ℕ)
    → key < 128
    → is_alpha (normal set key) ≡ true
    → normal set key ≡ shifted set key + 32
shifted_capital set key l a =
    let both =
      checks_below_at 128 (λ k. letter_pairs set k && is_ascii set k) key (checked set) l in
    ground (arith, both, a)

pub normal_ascii : (set key : ℕ) → key < 128 → normal set key < 128
normal_ascii set key l =
    let both =
      checks_below_at 128 (λ k. letter_pairs set k && is_ascii set k) key (checked set) l in
    ground (arith, both)

pub shifted_ascii : (set key : ℕ) → key < 128 → shifted set key < 128
shifted_ascii set key l =
    let both =
      checks_below_at 128 (λ k. letter_pairs set k && is_ascii set k) key (checked set) l in
    ground (arith, both)

-- The key of the second set for a character.
abbrev key_for : List (ℕ × ℕ) → ℕ → ℕ
key_for [] c = 0
key_for ((k, x) ∷ m) c = if x == c then k else key_for m c

abbrev partner : ℕ → ℕ
partner key = key_for sc2_normal (normal 1 key)

abbrev agrees : ℕ → Bool
agrees key = implies (not (key == 0x37) && not (normal 1 key == 0)) (
    ltb (partner key) 128
    && ((normal 2 (partner key) == normal 1 key) && (shifted 2 (partner key) == shifted 1 key)))

all_agree : checks_below 128 agrees ≡ true
unfolding checks_below entry
all_agree = refl

agreement :
    (key : ℕ)
    → key ≢ 0x37
    → normal 1 key ≢ 0
    → agrees key ≡ true
    → (partner key < 128)
      × (normal 2 (partner key) ≡ normal 1 key)
      × (shifted 2 (partner key) ≡ shifted 1 key)
agreement key star some_char h = (
  ground (arith, h, star, some_char),
  ground (arith, h, star, some_char),
  ground (arith, h, star, some_char),
)

-- Every key of the first set that has a character, but for the star of the keypad, has a key in the
-- second set with the same two characters.
pub sets_agree :
    (key : ℕ)
    → key < 128
    → key ≢ 0x37
    → normal 1 key ≢ 0
    → (other : ℕ) × (other < 128)
      × (normal 2 other ≡ normal 1 key)
      × (shifted 2 other ≡ shifted 1 key)
sets_agree key l star some_char =
    let here = checks_below_at 128 agrees key all_agree l in
    let (range, plain, other) = agreement key star some_char here in
    (partner key, range, plain, other)
