-- ===== src/Qr.antt =====
-- Package qr (internal/qr/qr.go): a QR code for a terminal, two modules in each character. The code
-- itself comes from the library, as its size and its black modules.
pub mod Shown
mod Tests
use amarre.Base.{
  ℕ, zero, suc, ◌+◌, ◌-◌, ◌*◌, ◌/◌, Bool, true, false, not, ◌&&◌, ◌||◌, String, List, [], ◌∷◌,
  if◌then◌else◌, ltb, leb, Result, ok, err, ◌<>◌, concat,
}

pub record Code : Type 0 where
  pub size : ℕ
  pub is_black : ℕ → ℕ → Bool

abbrev pub quiet : ℕ
quiet = 2

-- The size with the margin on both sides.
abbrev pub total : Code → ℕ
total c = c.size + 2 * quiet

-- `black`, in the coordinates of the margin: outside of the grid the module is light.
abbrev pub black : Code → ℕ → ℕ → Bool
black c x y =
    if ltb x quiet || (ltb y quiet || (leb c.size (x - quiet) || leb c.size (y - quiet)))
    then false
    else c.is_black (x - quiet) (y - quiet)

-- The two modules of each character of a line, and of each line.
unfoldable pub cells_from : Code → ℕ → ℕ → ℕ → List (Bool × Bool)
cells_from c y zero x = []
cells_from c y (suc left) x = (black c x y, black c x (y + 1)) ∷ cells_from c y left (x + 1)

-- The loop of the lines, with the turns that are left to it.
unfoldable pub lines_from : Code → ℕ → ℕ → List (List (Bool × Bool))
unfolding cells_from
lines_from c zero y = []
lines_from c (suc left) y =
    let rest = lines_from c left (y + 2) in
    if ltb y (total c) then cells_from c y (total c) 0 ∷ rest else []

unfoldable pub lines : Code → List (List (Bool × Bool))
unfolding lines_from
lines c = lines_from c (total c) 0

-- The colours: of the upper module for the character, of the lower one for its background.
abbrev pub cell_text : Bool × Bool → String
cell_text (true, true) = "\u{1b}[30m\u{1b}[40m▀"
cell_text (true, false) = "\u{1b}[30m\u{1b}[107m▀"
cell_text (false, true) = "\u{1b}[97m\u{1b}[40m▀"
cell_text (false, false) = "\u{1b}[97m\u{1b}[107m▀"

unfoldable pub line_text : List (Bool × Bool) → String
line_text [] = "\u{1b}[0m\n"
line_text (p ∷ ps) = cell_text p <> line_text ps

unfoldable pub text_of : List (List (Bool × Bool)) → String
unfolding line_text
text_of [] = ""
text_of (l ∷ ls) = line_text l <> text_of ls

-- `Terminal` and `Dimensions`, by the answer of the library.
unfoldable pub terminal : Result String Code → Result String String
unfolding lines text_of
terminal (err e) = err (concat ("encodage du QR code : " ∷ e ∷ []))
terminal (ok c) = ok (text_of (lines c))

abbrev pub dimensions : Result String Code → Result String (ℕ × ℕ)
dimensions (err e) = err e
dimensions (ok c) = ok (total c, (total c + 1) / 2)
