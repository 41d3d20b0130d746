-- ===== src/Qr/Shown.antt =====
-- What the terminal shows of a code.
use mathlib.Core.Path.{ap₂}
use amarre.Base.{
  ℕ, zero, suc, ◌+◌, ◌-◌, ◌*◌, ◌/◌, ◌≤◌, ◌<◌, ◌≡◌, refl, ap, ◌∙◌, Bool, true, false, ◌&&◌,
  Bool-cases, inl, inr, arith, String, ltb, leb, if◌then◌else◌, ok, ◌<>◌,
}
use amarre.Qr.{
  Code, total, black, cells_from, cell_text, lines_from, line_text, text_of, lines, terminal,
  dimensions,
}

-- The colour of the module at a column and a row of the picture: that of the code, two to the right
-- and two below; the margin is light.
abbrev pub is_dark : Code → ℕ → ℕ → Bool
is_dark c x y =
    if (leb 2 x && ltb x (c.size + 2)) && (leb 2 y && ltb y (c.size + 2))
    then c.is_black (x - 2) (y - 2)
    else false

-- The upper half block takes the colour of the text (30 is black, 97 white), and what is below it
-- that of the background (40 and 107).
abbrev pub half_block : Bool → Bool → String
half_block up low =
    (if up then "\u{1b}[30m" else "\u{1b}[97m")
    <> ((if low then "\u{1b}[40m" else "\u{1b}[107m") <> "▀")

-- Columns `x` to `x + left - 1` of line `r`, which holds rows `2 * r` and `2 * r + 1`.
unfoldable pub picture_line : Code → ℕ → ℕ → ℕ → String
picture_line c r zero x = "\u{1b}[0m\n"
picture_line c r (suc left) x =
    half_block (is_dark c x (2 * r)) (is_dark c x (2 * r + 1)) <> picture_line c r left (x + 1)

-- Lines `r` to `r + left - 1`, of that width.
unfoldable pub picture : Code → ℕ → ℕ → ℕ → String
unfolding picture_line
picture c width zero r = ""
picture c width (suc left) r = picture_line c r width 0 <> picture c width left (r + 1)

cell_text-half_block : (up low : Bool) → cell_text (up, low) ≡ half_block up low
cell_text-half_block true true = refl
cell_text-half_block true false = refl
cell_text-half_block false true = refl
cell_text-half_block false false = refl

module _ (c : Code) where
  black-is_dark : (x y : ℕ) → black c x y ≡ is_dark c x y
  black-is_dark x y = ground arith

  one_character :
      (r x y : ℕ)
      → y ≡ 2 * r
      → cell_text (black c x y, black c x (y + 1))
        ≡ half_block (is_dark c x (2 * r)) (is_dark c x (2 * r + 1))
  one_character r x y e =
      cell_text-half_block (black c x y) (black c x (y + 1))
      ∙ ap₂ half_block (black-is_dark x y ∙ ap (λ z. is_dark c x z) e)
          (black-is_dark x (y + 1) ∙ ap (λ z. is_dark c x (z + 1)) e)

  line_text-picture_line :
      (r left x y : ℕ) → y ≡ 2 * r → line_text (cells_from c y left x) ≡ picture_line c r left x
  unfolding line_text cells_from picture_line
  line_text-picture_line r zero x y e = refl
  line_text-picture_line r (suc left) x y e =
      ap (λ t. cell_text (black c x y, black c x (y + 1)) <> t)
        (line_text-picture_line r left (x + 1) y e)
      ∙ ap (λ s. s <> picture_line c r left (x + 1)) (one_character r x y e)

  text_of-picture :
      (turns r left y : ℕ)
      → y ≡ 2 * r
      → total c ≤ y + turns
      → left ≡ (total c - y + 1) / 2
      → text_of (lines_from c turns y) ≡ picture c (total c) left r
  unfolding text_of lines_from picture
  text_of-picture zero r left y e h k = let none_left : left ≡ 0 = omega arith in rw none_left
  text_of-picture (suc turns) r left y e h k = elim (Bool-cases (ltb y (total c))) [
    | inr over ↦ let none_left : left ≡ 0 = ground (arith, over) in rw (over, none_left)
    | inl inside ↦
        let below : y < total c = ground (arith, inside) in
        let more : left ≡ suc (left - 1) = omega (arith, below) in
        rw (inside, more, line_text-picture_line r (total c) 0 y e)
          (ap (λ t. picture_line c r (total c) 0 <> t)
            (text_of-picture turns (r + 1) (left - 1) (y + 2) (omega arith) (omega arith)
              (omega (arith, below))))
  ]

  -- The text that is shown is the picture of the code, with as many columns and lines as
  -- `Dimensions` announces: two rows to a line, each module in its colour, a light margin of two
  -- modules on every side, and where the rows are odd a light row that fills the last line.
  pub terminal-Shown :
      (width height : ℕ)
      → dimensions (ok c) ≡ ok (width, height)
      → terminal (ok c) ≡ ok (picture c width height 0)
  unfolding terminal lines
  terminal-Shown width height e =
      let w : total c ≡ width = ground (arith, e) in
      let t : (total c + 1) / 2 ≡ height = ground (arith, e) in
      ap (λ t. ok t) (text_of-picture (total c) 0 height 0 refl (omega arith) (omega (arith, t)))
      ∙ ap (λ n. ok (picture c n height 0)) w
