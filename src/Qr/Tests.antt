-- ===== src/Qr/Tests.antt =====
-- A code of one black module.
use amarre.Base.{◌≡◌, refl, ◌==◌, ◌&&◌, ok, String, [], ◌∷◌, concat}
use amarre.Qr.{Code, terminal, dimensions}
use amarre.Qr.Shown.{picture, picture_line, terminal-Shown}

abbrev dot : Code
dot = record { size = 1; is_black = λ x y. x == 0 && (y == 0) }

abbrev light : String
light = "\u{1b}[97m\u{1b}[107m▀"

five_wide : dimensions (ok dot) ≡ ok (5, 3)
five_wide = refl

terminal-Shown_example : terminal (ok dot) ≡ ok (picture dot 5 3 0)
terminal-Shown_example = terminal-Shown dot 5 3 five_wide

-- The third row is the upper half of the second line, with the black module in its middle.
second_line :
    picture_line dot 1 5 0
    ≡ concat (light ∷ light ∷ "\u{1b}[30m\u{1b}[107m▀" ∷ light ∷ light ∷ "\u{1b}[0m\n" ∷ [])
unfolding picture_line
second_line = refl
