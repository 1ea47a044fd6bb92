-- ===== src/Names.antt =====
-- Guest names (app/services/reservations.py, split_guest_name and _fields; app/migration.py,
-- name_mismatch). A text is the list of its code points.
pub mod Split
pub mod Canonical
use restaurant_reservation_s.Prelude.{
  ℕ, zero, suc, ◌≡◌, refl, Bool, true, false, not, ◌&&◌, ◌||◌, List, [], ◌∷◌, ◌++◌, Option, none,
  some, ◌==◌, leb, if◌then◌else◌, take, length, text_eq,
}

abbrev pub Text : Type 0
Text = List ℕ

abbrev pub space : ℕ
space = 32

-- The code points that Python's `str.split()` and `str.strip()` take for white space.
unfoldable pub is_space : ℕ → Bool
is_space c =
    (leb 9 c && leb c 13)
    || (leb 28 c && leb c 32)
    || c == 0x85
    || c == 0xa0
    || c == 0x1680
    || (leb 0x2000 c && leb c 0x200a)
    || c == 0x2028
    || c == 0x2029
    || c == 0x202f
    || c == 0x205f
    || c == 0x3000

unfoldable pub flush : Text → List Text → List Text
flush [] ws = ws
flush (c ∷ w) ws = (c ∷ w) ∷ ws

-- Puts a character before the first word, which may be empty.
unfoldable pub push : ℕ → Text × List Text → Text × List Text
push c (w, ws) = if is_space c then ([], flush w ws) else (c ∷ w, ws)

-- The word that a text begins with (empty after white space), and the words that follow.
unfoldable pub chunks : Text → Text × List Text
chunks [] = ([], [])
chunks (c ∷ s) = push c (chunks s)

-- `full.strip().split()`: the words, none of them empty.
unfoldable pub words : Text → List Text
words s = let (w, ws) = chunks s in flush w ws

-- `" ".join(ws)`
unfoldable pub join : List Text → Text
join [] = []
join (w ∷ []) = w
join (w ∷ v ∷ ws) = w ++ space ∷ join (v ∷ ws)

-- `cleaned.partition(" ")`: what stands before the first space, and what stands after it.
unfoldable pub partition : Text → Text × Text
partition [] = ([], [])
partition (c ∷ s) =
    let (first, last) = partition s in if c == space then ([], s) else (c ∷ first, last)

unfoldable pub split_guest_name : Text → Text × Text
split_guest_name full =
    let cleaned = join (words full) in
    if text_eq cleaned []
    then ([], [])
    else let (first, last) = partition cleaned in (take 60 first, take 60 last)

-- `" ".join(p for p in (first_name, last_name) if p)`; None and the empty text are both left out.
unfoldable pub present : Option Text → List Text
present none = []
present (some []) = []
present (some (c ∷ s)) = (c ∷ s) ∷ []

unfoldable pub rebuilt_name : Option Text → Option Text → Text
rebuilt_name first last = join (present first ++ present last)
